-- ===== src/Proposal/Whole.antt =====
-- What SRLGR96602A.c has behind node 21, and the whole service.
use no_gada_automation.Base.{ℕ, ◌≡◌, refl, arith, if◌then◌else◌}
use no_gada_automation.Proframe.{
  ◌>>◌, err, Pfm, Machine, Outcome, next, return, wild, hung, M, Proc, pure,
}
use no_gada_automation.Proposal.{
  ProposalIn, ProposalFrame, ProposalPfm, ProposalDbio, proposal_list,
}
use no_gada_automation.Proposal.Codes.{codes_node}
use no_gada_automation.Proposal.Job.{job_node, started_nodes}
use no_gada_automation.Proposal.Job.Table.{job_node_leaves}
use no_gada_automation.Proposal.Listing.{is_select, listing_node, done_node}

module _ (P : Pfm) (S : ProposalPfm P) (D : ProposalDbio P) (input : ProposalIn) where
  pub behind_number : (fuel : ℕ) → M P (ProposalFrame P) (Unit {0})
  behind_number fuel = do
    codes_node P S D input fuel
    job_node P S D input
    started_nodes P S D input
    if is_select P S D input then listing_node P S D input fuel else pure tt
    done_node P S D input

  -- `SRLGR96602A`, with fuel for its two loops.
  pub proposal_service : (fuel : ℕ) → Proc P (ProposalFrame P)
  proposal_service fuel = proposal_list P S input (behind_number fuel)

  job_node_ends :
      (rest : M P (ProposalFrame P) (Unit {0})) (m : Machine P (ProposalFrame P))
      → (job_node P S D input >> rest) m ≡ job_node P S D input m
  job_node_ends rest m = ended (job_node P S D input m) (job_node_leaves P S D input m).0
    where
      ended :
          (r : Outcome (Unit {0}) × Machine P (ProposalFrame P))
          → r.0 ≡ return err
          → ((λ _. r) >> rest) m ≡ r
      ended (next a, m') h = absurd (ground (arith, h))
      ended (return rc, m') h = refl
      ended (wild, m') h = refl
      ended (hung, m') h = refl

  -- Were the number drawn, the service would still end at the job: for every fuel, the code behind the
  -- number is the node that inserts the funds and the node of the job, and no log, no delete, no batch
  -- and no listing follows.
  pub behind_number-eq :
      (fuel : ℕ) (m : Machine P (ProposalFrame P))
      → behind_number fuel m ≡ (codes_node P S D input fuel >> job_node P S D input) m
  unfolding behind_number
  behind_number-eq fuel m = after (codes_node P S D input fuel m)
    where
      rest : M P (ProposalFrame P) (Unit {0})
      rest = do
        started_nodes P S D input
        if is_select P S D input then listing_node P S D input fuel else pure tt
        done_node P S D input

      after :
          (r : Outcome (Unit {0}) × Machine P (ProposalFrame P))
          → ((λ _. r) >> (job_node P S D input >> rest)) m ≡ ((λ _. r) >> job_node P S D input) m
      after (next a, m') = job_node_ends rest m'
      after (return rc, m') = refl
      after (wild, m') = refl
      after (hung, m') = refl
