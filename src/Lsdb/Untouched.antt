-- ===== src/Lsdb/Untouched.antt =====
-- src/lsdb.cpp: installing and removing an adjacency LSA asks for no build and schedules none.
use ndnproject.Prelude.{
  Bool, Bool-cases, Double, Eq, NdnName, Option-cases, false, if◌then◌else◌, inl, inr, ltb, nat_eq,
  not, refl, str_eq, true, ◌∙◌,
}
use ndnproject.Adjacency.{lists_equal}
use ndnproject.Keyed.{find}
use ndnproject.Lsa.{AdjLsa, adj_lsa_key}
use ndnproject.Lsdb.{
  is_foreign, lsdb_changed, publish, schedule_expiration, cancel_schedule_lsa_expiring_event,
}
use ndnproject.Lsdb.Adjacencies.{
  find_adj_lsa, install_adj_lsa, remove_adj_lsa, add_adj_lsa, add_npt_entries, remove_npt_entries,
  update_adj_lsa, build_and_install_own_adj_lsa, schedule_adj_lsa_expiration,
}
use ndnproject.NamePrefixTable.Frame.{SameBuild, add_origin-SameBuild, remove_origin-SameBuild}
use ndnproject.Nlsr.{Nlsr, schedule, schedule_routing_table_calculation}
use ndnproject.Sequencing.{increase_adj_lsa_seq}

module _ {Name D : Type 0} ⦃e : Eq Name⦄ ⦃n : NdnName Name⦄ ⦃d : Double D⦄ where
  trans : (s t u : Nlsr Name D) → SameBuild s t → SameBuild t u → SameBuild s u
  trans s t u (a, b) (a', b') = (a' ∙ a, b' ∙ b)

  pub calculation-SameBuild : (s : Nlsr Name D) → SameBuild s (schedule_routing_table_calculation s)
  unfolding schedule_routing_table_calculation schedule
  calculation-SameBuild s = elim (Bool-cases s.is_route_calculation_scheduled) [
    | inl set ↦ rw (set, schedule_routing_table_calculation) (refl, refl)
    | inr unset ↦ rw (unset, schedule_routing_table_calculation) (refl, refl)
  ]

  if_calculation-SameBuild :
      (s : Nlsr Name D) (b : Bool)
      → SameBuild s (if b then schedule_routing_table_calculation s else s)
  if_calculation-SameBuild s true = calculation-SameBuild s
  if_calculation-SameBuild s false = (refl, refl)

  add_npt_entries-SameBuild :
      (s : Nlsr Name D) (l : AdjLsa Name D) → SameBuild s (add_npt_entries s l)
  unfolding add_npt_entries
  add_npt_entries-SameBuild s l = elim (Bool-cases (is_foreign s l.orig_router)) [
    | inl foreign ↦ rw foreign (add_origin-SameBuild s l.orig_router l.orig_router)
    | inr own ↦ rw own (refl, refl)
  ]

  remove_npt_entries-SameBuild :
      (s : Nlsr Name D) (l : AdjLsa Name D) → SameBuild s (remove_npt_entries s l)
  unfolding remove_npt_entries
  remove_npt_entries-SameBuild s l = elim (Bool-cases (is_foreign s l.orig_router)) [
    | inl foreign ↦ rw foreign (remove_origin-SameBuild s l.orig_router l.orig_router)
    | inr own ↦ rw own (refl, refl)
  ]

  add_adj_lsa-SameBuild : (s : Nlsr Name D) (l : AdjLsa Name D) → SameBuild s (add_adj_lsa s l).0
  unfolding add_adj_lsa
  add_adj_lsa-SameBuild s l =
      elim (Option-cases (find adj_lsa_key (adj_lsa_key l) s.lsdb.adj_lsdb)) [
        | inl miss ↦ rw (miss, add_adj_lsa) (refl, refl)
        | inr (old, hit) ↦ rw (hit, add_adj_lsa) (refl, refl)
      ]

  install_adj_lsa-SameBuild :
      (s : Nlsr Name D) (l : AdjLsa Name D) → SameBuild s (install_adj_lsa s l)
  unfolding install_adj_lsa update_adj_lsa schedule_adj_lsa_expiration schedule_expiration
      cancel_schedule_lsa_expiring_event
  install_adj_lsa-SameBuild s l = elim (Option-cases (find_adj_lsa s (adj_lsa_key l))) [
    | inl miss ↦
        let t = (add_adj_lsa s l).0 in
        let u = add_npt_entries t l in
        rw (miss, install_adj_lsa)
          (trans s t (schedule_routing_table_calculation u) (add_adj_lsa-SameBuild s l) (
            trans t u (schedule_routing_table_calculation u) (add_npt_entries-SameBuild t l)
              (calculation-SameBuild u)))
    | inr (chk, hit) ↦ elim (Bool-cases (ltb chk.ls_seq_no l.ls_seq_no)) [
      | inl newer ↦
          rw (hit, install_adj_lsa, newer)
            (if_calculation-SameBuild (lsdb_changed s) (not (lists_equal chk.adl l.adl).0))
      | inr older ↦ rw (hit, install_adj_lsa, older) (refl, refl)
    ]
  ]

  pub remove_adj_lsa-SameBuild :
      (s : Nlsr Name D) (key : Name) → SameBuild s (remove_adj_lsa s key).0
  unfolding remove_adj_lsa
  remove_adj_lsa-SameBuild s key = elim (Option-cases (find adj_lsa_key key s.lsdb.adj_lsdb)) [
    | inl miss ↦ rw (miss, remove_adj_lsa) (refl, refl)
    | inr (chk, hit) ↦ rw (hit, remove_adj_lsa) (remove_npt_entries-SameBuild s chk)
  ]

  pub own-SameBuild : (s : Nlsr Name D) → SameBuild s (build_and_install_own_adj_lsa s)
  unfolding build_and_install_own_adj_lsa publish
  own-SameBuild s =
      install_adj_lsa-SameBuild
        (publish (record s { sequencing_manager = increase_adj_lsa_seq s.sequencing_manager })) _
