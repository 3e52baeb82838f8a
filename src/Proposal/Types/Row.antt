-- ===== src/Proposal/Types/Row.antt =====
-- The rows that the service lists, in SRLGR96602A.c.
use no_gada_automation.Base.{String}
use no_gada_automation.Proframe.{Pfm}

-- `RPT_RLGR_TM_VF701Out` and a row of `grid01`: the members that are copied, each under its own name.
pub record ListingRow (Num : Type 0) : Type 0 where
  pub st1_ltrs_cntn : String
  pub nd2_ltrs_cntn : String
  pub th3_ltrs_cntn : String
  pub th4_ltrs_cntn : String
  pub th5_ltrs_cntn : String
  pub th6_ltrs_cntn : String
  pub st1_date : String
  pub nd2_date : String
  pub st1_ntgr_amt : Num
  pub nd2_ntgr_amt : Num
  pub th3_ntgr_amt : Num
  pub th4_ntgr_amt : Num
  pub th5_ntgr_amt : Num
  pub th6_ntgr_amt : Num
  pub th7_ntgr_amt : Num
  pub th8_ntgr_amt : Num
  pub th9_ntgr_amt : Num
  pub st1_dcpn_number_amt : Num
  pub nd2_dcpn_number_amt : Num
  pub th9_dcpn_number_amt : Num
  pub th10_dcpn_number_amt : Num
  pub th11_dcpn_number_amt : Num
  pub th12_dcpn_number_amt : Num
  pub th13_dcpn_number_amt : Num
  pub th14_dcpn_number_amt : Num
  pub th15_dcpn_number_amt : Num
  pub th16_dcpn_number_amt : Num
  pub th17_dcpn_number_amt : Num
  pub th18_dcpn_number_amt : Num
  pub th19_dcpn_number_amt : Num
  pub th20_dcpn_number_amt : Num
  pub th21_dcpn_number_amt : Num
  pub th22_dcpn_number_amt : Num
  pub th23_dcpn_number_amt : Num
  pub th24_dcpn_number_amt : Num
  pub th25_dcpn_number_amt : Num
  pub th26_dcpn_number_amt : Num
  pub th27_dcpn_number_amt : Num
  pub th28_dcpn_number_amt : Num
  pub th29_dcpn_number_amt : Num
  pub th30_dcpn_number_amt : Num
  pub th31_dcpn_number_amt : Num
  pub th32_dcpn_number_amt : Num
  pub th33_dcpn_number_amt : Num
  pub th34_dcpn_number_amt : Num
  pub th36_dcpn_number_amt : Num
  pub th37_dcpn_number_amt : Num
  pub th38_dcpn_number_amt : Num
  pub th39_dcpn_number_amt : Num
  pub th40_dcpn_number_amt : Num
  pub th41_dcpn_number_amt : Num
  pub th42_dcpn_number_amt : Num
  pub th43_dcpn_number_amt : Num
  pub th44_dcpn_number_amt : Num
  pub th45_dcpn_number_amt : Num
  pub th46_dcpn_number_amt : Num
  pub th47_dcpn_number_amt : Num
  pub th48_dcpn_number_amt : Num
  pub th49_dcpn_number_amt : Num
  pub th50_dcpn_number_amt : Num
  pub th51_dcpn_number_amt : Num
  pub th52_dcpn_number_amt : Num
  pub th53_dcpn_number_amt : Num
  pub th54_dcpn_number_amt : Num
  pub th55_dcpn_number_amt : Num
  pub th56_dcpn_number_amt : Num
  pub th57_dcpn_number_amt : Num
  pub th58_dcpn_number_amt : Num
  pub th59_dcpn_number_amt : Num
  pub th60_dcpn_number_amt : Num
  pub th61_dcpn_number_amt : Num
  pub th62_dcpn_number_amt : Num
  pub th63_dcpn_number_amt : Num
  pub th64_dcpn_number_amt : Num
  pub th65_dcpn_number_amt : Num
  pub th66_dcpn_number_amt : Num
  pub th67_dcpn_number_amt : Num
  pub th68_dcpn_number_amt : Num
  pub th20_ltrs_cntn : String

-- As `bzero` leaves it.
abbrev pub zero_listing : (P : Pfm) → ListingRow P.Num
zero_listing P = record {
  st1_ltrs_cntn = "";
  nd2_ltrs_cntn = "";
  th3_ltrs_cntn = "";
  th4_ltrs_cntn = "";
  th5_ltrs_cntn = "";
  th6_ltrs_cntn = "";
  st1_date = "";
  nd2_date = "";
  st1_ntgr_amt = P.num_bzero;
  nd2_ntgr_amt = P.num_bzero;
  th3_ntgr_amt = P.num_bzero;
  th4_ntgr_amt = P.num_bzero;
  th5_ntgr_amt = P.num_bzero;
  th6_ntgr_amt = P.num_bzero;
  th7_ntgr_amt = P.num_bzero;
  th8_ntgr_amt = P.num_bzero;
  th9_ntgr_amt = P.num_bzero;
  st1_dcpn_number_amt = P.num_bzero;
  nd2_dcpn_number_amt = P.num_bzero;
  th9_dcpn_number_amt = P.num_bzero;
  th10_dcpn_number_amt = P.num_bzero;
  th11_dcpn_number_amt = P.num_bzero;
  th12_dcpn_number_amt = P.num_bzero;
  th13_dcpn_number_amt = P.num_bzero;
  th14_dcpn_number_amt = P.num_bzero;
  th15_dcpn_number_amt = P.num_bzero;
  th16_dcpn_number_amt = P.num_bzero;
  th17_dcpn_number_amt = P.num_bzero;
  th18_dcpn_number_amt = P.num_bzero;
  th19_dcpn_number_amt = P.num_bzero;
  th20_dcpn_number_amt = P.num_bzero;
  th21_dcpn_number_amt = P.num_bzero;
  th22_dcpn_number_amt = P.num_bzero;
  th23_dcpn_number_amt = P.num_bzero;
  th24_dcpn_number_amt = P.num_bzero;
  th25_dcpn_number_amt = P.num_bzero;
  th26_dcpn_number_amt = P.num_bzero;
  th27_dcpn_number_amt = P.num_bzero;
  th28_dcpn_number_amt = P.num_bzero;
  th29_dcpn_number_amt = P.num_bzero;
  th30_dcpn_number_amt = P.num_bzero;
  th31_dcpn_number_amt = P.num_bzero;
  th32_dcpn_number_amt = P.num_bzero;
  th33_dcpn_number_amt = P.num_bzero;
  th34_dcpn_number_amt = P.num_bzero;
  th36_dcpn_number_amt = P.num_bzero;
  th37_dcpn_number_amt = P.num_bzero;
  th38_dcpn_number_amt = P.num_bzero;
  th39_dcpn_number_amt = P.num_bzero;
  th40_dcpn_number_amt = P.num_bzero;
  th41_dcpn_number_amt = P.num_bzero;
  th42_dcpn_number_amt = P.num_bzero;
  th43_dcpn_number_amt = P.num_bzero;
  th44_dcpn_number_amt = P.num_bzero;
  th45_dcpn_number_amt = P.num_bzero;
  th46_dcpn_number_amt = P.num_bzero;
  th47_dcpn_number_amt = P.num_bzero;
  th48_dcpn_number_amt = P.num_bzero;
  th49_dcpn_number_amt = P.num_bzero;
  th50_dcpn_number_amt = P.num_bzero;
  th51_dcpn_number_amt = P.num_bzero;
  th52_dcpn_number_amt = P.num_bzero;
  th53_dcpn_number_amt = P.num_bzero;
  th54_dcpn_number_amt = P.num_bzero;
  th55_dcpn_number_amt = P.num_bzero;
  th56_dcpn_number_amt = P.num_bzero;
  th57_dcpn_number_amt = P.num_bzero;
  th58_dcpn_number_amt = P.num_bzero;
  th59_dcpn_number_amt = P.num_bzero;
  th60_dcpn_number_amt = P.num_bzero;
  th61_dcpn_number_amt = P.num_bzero;
  th62_dcpn_number_amt = P.num_bzero;
  th63_dcpn_number_amt = P.num_bzero;
  th64_dcpn_number_amt = P.num_bzero;
  th65_dcpn_number_amt = P.num_bzero;
  th66_dcpn_number_amt = P.num_bzero;
  th67_dcpn_number_amt = P.num_bzero;
  th68_dcpn_number_amt = P.num_bzero;
  th20_ltrs_cntn = "";
}
