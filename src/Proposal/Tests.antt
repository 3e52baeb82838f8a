-- ===== src/Proposal/Tests.antt =====
-- SRLGR96602A on a sample runtime.
use no_gada_automation.Base.{ℕ, [], ◌≡◌, ◌≢◌, ◌⊎◌}
use no_gada_automation.Proframe.{nrm, nfd, err, return, M, pure, ◌>>◌}
use no_gada_automation.Proframe.Returns.{Returns}
use no_gada_automation.Sample.{counting, runtime-IsLawful, start}
use no_gada_automation.Proposal.{ProposalFrame, proposal_list}
use no_gada_automation.Proposal.Sample.{services, request, blank, calls}
use no_gada_automation.Proposal.Codes.{codes_node}
use no_gada_automation.Proposal.Job.{job_node, started_nodes}
use no_gada_automation.Proposal.Job.Table.{
  stopped_or_called, ends, started_nodes-eq, job_node_leaves,
}
use no_gada_automation.Proposal.Whole.{behind_number, behind_number-eq}
use no_gada_automation.Proposal.Spec.{Running, proposal_list-Running, proposal_list-eq}

abbrev nothing : M counting (ProposalFrame counting) (Unit {0})
nothing = pure tt

proposal_list-Running_example :
    Returns
      (λ rc m'.
        (rc ≢ nrm)
        ⊎ Running counting
            (runtime-IsLawful ℕ (λ _. 0))
            (services counting)
            request
            nothing
            (start (blank counting []))
            m')
      (proposal_list counting (services counting) request nothing (start (blank counting [])))
proposal_list-Running_example =
    proposal_list-Running counting (runtime-IsLawful ℕ (λ _. 0)) (services counting) request nothing
      (start (blank counting []))

proposal_list-eq_example :
    proposal_list counting (services counting) request nothing (start (blank counting []))
    ≡ proposal_list counting
        (services counting)
        request
        (λ m. (return nfd, m))
        (start (blank counting []))
proposal_list-eq_example =
    proposal_list-eq counting (services counting) request nothing (λ m. (return nfd, m))
      (start (blank counting []))

started_nodes-eq_example :
    ends counting (services counting) (calls counting) request (
      started_nodes counting
        (services counting)
        (calls counting)
        request
        (start (blank counting [])))
    ≡ stopped_or_called counting
        (services counting)
        (calls counting)
        request
        (start (blank counting []))
started_nodes-eq_example =
    started_nodes-eq counting (services counting) (calls counting) request
      (start (blank counting []))

job_node_leaves_example :
    ((job_node counting (services counting) (calls counting) request (start (blank counting []))).0
      ≡ return err)
    × ((job_node counting
          (services counting)
          (calls counting)
          request
          (start (blank counting []))).1.frame
        ≡ blank counting [])
job_node_leaves_example =
    job_node_leaves counting (services counting) (calls counting) request
      (start (blank counting []))

behind_number-eq_example :
    behind_number counting
      (services counting)
      (calls counting)
      request
      3
      (start (blank counting []))
    ≡ (codes_node counting (services counting) (calls counting) request 3
          >> job_node counting (services counting) (calls counting) request)
        (start (blank counting []))
behind_number-eq_example =
    behind_number-eq counting (services counting) (calls counting) request 3
      (start (blank counting []))
