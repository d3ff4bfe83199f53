-- ===== src/Lsdb/Agreement/Adjacencies.antt =====
-- src/lsdb.cpp: the agreement of the FIB and the name prefix table under the adjacency LSAs'
-- operations.
use ndnproject.Prelude.{
  Bool-cases, Double, Eq, NdnName, Option-cases, false, inl, inr, ltb, nat_eq, refl, str_eq, ℕ,
  ◌==◌,
}
use ndnproject.Adjacency.{lists_equal, is_adj_lsa_buildable, get_num_of_active_neighbor}
use ndnproject.Keyed.{find}
use ndnproject.Lsa.{AdjLsa, adj_lsa_key, adjacency_type}
use ndnproject.Lsdb.{
  cancel_schedule_lsa_expiring_event, is_foreign, lsdb_changed, publish, schedule_expiration,
}
use ndnproject.Lsdb.Adjacencies.{
  find_adj_lsa, install_adj_lsa, remove_adj_lsa, add_adj_lsa, add_npt_entries, remove_npt_entries,
  update_adj_lsa, refresh_adj_lsa, expire_or_refresh, build_and_install_own_adj_lsa, build_counted,
  positive_build_count, build_scheduled, schedule_adj_lsa_expiration,
}
use ndnproject.Lsdb.Agreement.{Untouched-Agrees, calculation-Untouched}
use ndnproject.NamePrefixTable.Agreement.{add_origin-Agrees, remove_origin-Agrees}
use ndnproject.NamePrefixTable.Changes.{Agrees}
use ndnproject.Nlsr.{Nlsr, schedule, schedule_routing_table_calculation}
use ndnproject.Sequencing.{increase_adj_lsa_seq}

module _ {Name D : Type 0} ⦃e : Eq Name⦄ ⦃n : NdnName Name⦄ ⦃d : Double D⦄ where
  calculation-Agrees : (s : Nlsr Name D) → Agrees s → Agrees (schedule_routing_table_calculation s)
  calculation-Agrees s = Untouched-Agrees s _ (calculation-Untouched s)

  add_adj_lsa-Agrees : (s : Nlsr Name D) (l : AdjLsa Name D) → Agrees s → Agrees (add_adj_lsa s l).0
  unfolding add_adj_lsa
  add_adj_lsa-Agrees s l a =
      elim (Option-cases (find adj_lsa_key (adj_lsa_key l) s.lsdb.adj_lsdb)) [
        | inl miss ↦ rw (miss, add_adj_lsa) (Untouched-Agrees s _ (refl, refl, refl) a)
        | inr (old, hit) ↦ rw (hit, add_adj_lsa) a
      ]

  add_npt_entries-Agrees :
      (s : Nlsr Name D) (l : AdjLsa Name D) → Agrees s → Agrees (add_npt_entries s l)
  unfolding add_npt_entries
  add_npt_entries-Agrees s l a = elim (Bool-cases (is_foreign s l.orig_router)) [
    | inl foreign ↦ rw foreign (add_origin-Agrees s l.orig_router l.orig_router a)
    | inr own ↦ rw own a
  ]

  remove_npt_entries-Agrees :
      (s : Nlsr Name D) (l : AdjLsa Name D) → Agrees s → Agrees (remove_npt_entries s l)
  unfolding remove_npt_entries
  remove_npt_entries-Agrees s l a = elim (Bool-cases (is_foreign s l.orig_router)) [
    | inl foreign ↦ rw foreign (remove_origin-Agrees s l.orig_router l.orig_router a)
    | inr own ↦ rw own a
  ]

  update_adj_lsa-Agrees :
      (s : Nlsr Name D) (chk alsa : AdjLsa Name D) → Agrees s → Agrees (update_adj_lsa s chk alsa)
  unfolding update_adj_lsa schedule_adj_lsa_expiration schedule_expiration
      cancel_schedule_lsa_expiring_event
  update_adj_lsa-Agrees s chk alsa a = elim (Bool-cases (lists_equal chk.adl alsa.adl).0) [
    | inl same ↦ rw (same, update_adj_lsa) (Untouched-Agrees s _ (refl, refl, refl) a)
    | inr differ ↦
        rw (differ, update_adj_lsa)
          (Untouched-Agrees (schedule_routing_table_calculation (lsdb_changed s)) _
            (refl, refl, refl)
            (calculation-Agrees (lsdb_changed s) (Untouched-Agrees s _ (refl, refl, refl) a)))
  ]

  -- Installing an adjacency LSA keeps the FIB in agreement with the name prefix table.
  pub install_adj_lsa-Agrees :
      (s : Nlsr Name D) (alsa : AdjLsa Name D) → Agrees s → Agrees (install_adj_lsa s alsa)
  unfolding install_adj_lsa schedule_adj_lsa_expiration schedule_expiration
      cancel_schedule_lsa_expiring_event
  install_adj_lsa-Agrees s alsa a = elim (Option-cases (find_adj_lsa s (adj_lsa_key alsa))) [
    | inl miss ↦
        let t = add_npt_entries (add_adj_lsa s alsa).0 alsa in
        rw (miss, install_adj_lsa)
          (Untouched-Agrees (schedule_routing_table_calculation t) _ (refl, refl, refl)
            (calculation-Agrees t
              (add_npt_entries-Agrees (add_adj_lsa s alsa).0 alsa (add_adj_lsa-Agrees s alsa a))))
    | inr (chk, hit) ↦ elim (Bool-cases (ltb chk.ls_seq_no alsa.ls_seq_no)) [
      | inl newer ↦ rw (hit, install_adj_lsa, newer) (update_adj_lsa-Agrees s chk alsa a)
      | inr older ↦ rw (hit, install_adj_lsa, older) a
    ]
  ]

  -- Removing one keeps it.
  pub remove_adj_lsa-Agrees :
      (s : Nlsr Name D) (key : Name) → Agrees s → Agrees (remove_adj_lsa s key).0
  unfolding remove_adj_lsa
  remove_adj_lsa-Agrees s key a = elim (Option-cases (find adj_lsa_key key s.lsdb.adj_lsdb)) [
    | inl miss ↦ rw (miss, remove_adj_lsa) a
    | inr (chk, hit) ↦
        rw (hit, remove_adj_lsa)
          (Untouched-Agrees (remove_npt_entries s chk) _ (refl, refl, refl)
            (remove_npt_entries-Agrees s chk a))
  ]

  -- So does what follows when an adjacency LSA's time is over.
  pub expire_or_refresh_adj-Agrees :
      (s : Nlsr Name D) (key : Name) (seq_no : ℕ)
      → Agrees s
      → Agrees (expire_or_refresh s key seq_no)
  unfolding expire_or_refresh refresh_adj_lsa publish schedule_adj_lsa_expiration
      schedule_expiration
  expire_or_refresh_adj-Agrees s key seq_no a = elim (Option-cases (find_adj_lsa s key)) [
    | inl miss ↦ rw (miss, expire_or_refresh) a
    | inr (chk, hit) ↦ elim (Bool-cases (chk.ls_seq_no == seq_no)) [
      | inl due ↦ elim (Bool-cases (chk.orig_router == s.lsdb.this_router_prefix)) [
        | inl own ↦
            rw (hit, expire_or_refresh, due, own)
              (calculation-Agrees (refresh_adj_lsa s key chk)
                (Untouched-Agrees s _ (refl, refl, refl) a))
        | inr other ↦
            rw (hit, expire_or_refresh, due, other)
              (calculation-Agrees (remove_adj_lsa s key).0 (remove_adj_lsa-Agrees s key a))
      ]
      | inr stale ↦ rw (hit, expire_or_refresh, stale) a
    ]
  ]

  build_and_install-Agrees : (s : Nlsr Name D) → Agrees s → Agrees (build_and_install_own_adj_lsa s)
  unfolding build_and_install_own_adj_lsa publish
  build_and_install-Agrees s a =
      install_adj_lsa-Agrees
        (publish (record s { sequencing_manager = increase_adj_lsa_seq s.sequencing_manager })) _
        (Untouched-Agrees s _ (refl, refl, refl) a)

  build_counted-Agrees : (s : Nlsr Name D) → Agrees s → Agrees (build_counted s)
  unfolding build_counted
  build_counted-Agrees s a =
      elim (Bool-cases (ltb 0 (get_num_of_active_neighbor s.adjacency_list))) [
        | inl some_active ↦
            rw (some_active, build_counted)
              (Untouched-Agrees (build_and_install_own_adj_lsa s) _ (refl, refl, refl)
                (build_and_install-Agrees s a))
        | inr none_active ↦
            let t = (remove_adj_lsa s (n.append s.conf.router_prefix adjacency_type)).0 in
            rw (none_active, build_counted)
              (Untouched-Agrees (schedule_routing_table_calculation t) _ (refl, refl, refl)
                (calculation-Agrees t
                  (remove_adj_lsa-Agrees s (n.append s.conf.router_prefix adjacency_type) a)))
      ]

  -- The event that builds this router's own adjacency LSA, or removes it, or puts the build off, keeps
  -- the FIB in agreement with the name prefix table, if it was before.
  pub build_scheduled-Agrees : (s : Nlsr Name D) → Agrees s → Agrees (build_scheduled s)
  unfolding build_scheduled schedule
  build_scheduled-Agrees s a =
      let t : Nlsr Name D = record s { is_build_adj_lsa_scheduled = false } in
      let b : Agrees t = Untouched-Agrees s t (refl, refl, refl) a in
      elim (Bool-cases (is_adj_lsa_buildable s.conf.interest_retry_number s.adjacency_list)) [
        | inl buildable ↦ elim (Bool-cases (ltb 0 (positive_build_count s.adj_build_count))) [
          | inl asked ↦ rw (buildable, build_scheduled, asked) (build_counted-Agrees t b)
          | inr unasked ↦ rw (buildable, build_scheduled, unasked) b
        ]
        | inr unbuildable ↦
            rw (unbuildable, build_scheduled) (Untouched-Agrees s _ (refl, refl, refl) a)
      ]
