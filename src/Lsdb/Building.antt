-- ===== src/Lsdb/Building.antt =====
-- src/lsdb.cpp: no adjacency LSA that was asked for is forgotten.
use ndnproject.Prelude.{
  ==_refl, All, Bool-cases, Double, Eq, NdnName, Option-cases, ap, arith, false, inl, inr, ltb,
  nat_eq, refl, some, str_eq, sym, true, ℕ, ◌%◌, ◌*◌, ◌+◌, ◌<◌, ◌^◌, ◌∙◌, ◌∷◌, ◌≡◌, ◌⊎◌,
}
use ndnproject.Adjacency.{is_adj_lsa_buildable, get_num_of_active_neighbor}
use ndnproject.Adjacency.Laws.{IsSettled, is_adj_lsa_buildable_iff}
use ndnproject.Keyed.{find, erase}
use ndnproject.Keyed.Laws.{erase-none}
use ndnproject.Lsdb.Freshness.{adj_seq_no, adj_seq_no-install}
use ndnproject.Lsdb.Stored.{newer_of, calculation-SameLsdb}
use ndnproject.Lsa.{adjacency_type, new_adj_lsa, AdjLsa, adj_lsa_key}
use ndnproject.Lsdb.{is_foreign, lsdb_changed, publish}
use ndnproject.Lsdb.Adjacencies.{
  remove_adj_lsa, remove_npt_entries, build_and_install_own_adj_lsa, build_counted, build_scheduled,
  positive_build_count,
}
use ndnproject.NamePrefixTable.Frame.{remove_origin-SameLsdb}
use ndnproject.Nlsr.{Nlsr, schedule, schedule_event, build_adj_lsa}
use ndnproject.Sequencing.{increase_adj_lsa_seq}
use ndnproject.Lsdb.Untouched.{calculation-SameBuild, remove_adj_lsa-SameBuild, own-SameBuild}

-- Below the largest `int`, narrowing changes nothing.
narrowed_small : (k : ℕ) → k < 2 ^ 31 → positive_build_count k ≡ k
unfolding positive_build_count
narrowed_small k small = ground arith

module _ {Name D : Type 0} ⦃e : Eq Name⦄ ⦃n : NdnName Name⦄ ⦃d : Double D⦄ where
  build_counted-none :
      (s : Nlsr Name D) → s.adj_build_count < 2 ^ 31 → (build_counted s).adj_build_count ≡ 0
  unfolding build_counted
  build_counted-none s small =
      elim (Bool-cases (ltb 0 (get_num_of_active_neighbor s.adjacency_list))) [
        | inl some_active ↦
            rw
              (
                some_active,
                build_counted,
                (own-SameBuild s).0,
                narrowed_small s.adj_build_count small,
              )
              (omega arith)
        | inr none_active ↦
            rw
              (
                none_active,
                build_counted,
                (calculation-SameBuild _).0,
                (remove_adj_lsa-SameBuild s _).0,
                narrowed_small s.adj_build_count small,
              )
              (omega arith)
      ]

  -- This router's key among the adjacency LSAs.
  abbrev pub own_key : Nlsr Name D → Name
  own_key s = n.append s.conf.router_prefix adjacency_type

  own-installed :
      (s : Nlsr Name D)
      → adj_seq_no (build_and_install_own_adj_lsa s) (own_key s)
        ≡ some
            (newer_of (adj_seq_no s (own_key s)) ((s.sequencing_manager.adj_lsa_seq + 1) % 2 ^ 32))
  unfolding build_and_install_own_adj_lsa publish new_adj_lsa
  own-installed s =
      adj_seq_no-install
        (publish (record s { sequencing_manager = increase_adj_lsa_seq s.sequencing_manager })) _
        (own_key s)
      ∙ rw (==_refl (own_key s)) refl

  remove_npt_entries-lsdb :
      (s : Nlsr Name D) (l : AdjLsa Name D) → (remove_npt_entries s l).lsdb ≡ s.lsdb
  unfolding remove_npt_entries
  remove_npt_entries-lsdb s l = elim (Bool-cases (is_foreign s l.orig_router)) [
    | inl foreign ↦ rw foreign (remove_origin-SameLsdb s l.orig_router l.orig_router).0
    | inr own ↦ rw own refl
  ]

  own-removed :
      (s : Nlsr Name D)
      → (remove_adj_lsa s (own_key s)).0.lsdb.adj_lsdb
        ≡ erase adj_lsa_key (own_key s) s.lsdb.adj_lsdb
  unfolding remove_adj_lsa lsdb_changed
  own-removed s = elim (Option-cases (find adj_lsa_key (own_key s) s.lsdb.adj_lsdb)) [
    | inl miss ↦
        rw (miss, remove_adj_lsa) (sym (erase-none adj_lsa_key (own_key s) s.lsdb.adj_lsdb miss))
    | inr (chk, hit) ↦ rw (hit, remove_adj_lsa, remove_npt_entries-lsdb s chk) refl
  ]

  -- What a build does to the LSDB: nothing if none was asked for; with an active neighbor this router's LSA is
  -- installed with the next number, unless the one that is stored has a higher one; and without an active
  -- neighbor it is taken out.
  abbrev pub IsBuilt : Nlsr Name D → Nlsr Name D → Type 0
  IsBuilt before after =
      ((before.adj_build_count ≡ 0) × (after.lsdb ≡ before.lsdb))
      ⊎ ((0 < get_num_of_active_neighbor before.adjacency_list)
          × (adj_seq_no after (own_key before)
              ≡ some (
                  newer_of (adj_seq_no before (own_key before))
                    ((before.sequencing_manager.adj_lsa_seq + 1) % 2 ^ 32))))
      ⊎ ((get_num_of_active_neighbor before.adjacency_list ≡ 0)
          × (after.lsdb.adj_lsdb ≡ erase adj_lsa_key (own_key before) before.lsdb.adj_lsdb))

  build_counted-IsBuilt : (s : Nlsr Name D) → IsBuilt s (build_counted s)
  unfolding build_counted
  build_counted-IsBuilt s =
      elim (Bool-cases (ltb 0 (get_num_of_active_neighbor s.adjacency_list))) [
        | inl some_active ↦
            inr (inl (ground arith, rw (some_active, build_counted) (own-installed s)))
        | inr none_active ↦ inr (
            inr (
              ground arith,
              rw (none_active, build_counted)
                  (ap (λ l. l.adj_lsdb) (calculation-SameLsdb _).0 ∙ own-removed s),
            ))
      ]

  -- The builds that were asked for are still asked for, and the latest call schedules the event anew, after
  -- as long as a neighbor takes to be given up.
  pub record IsPutOff (before after : Nlsr Name D) : Type 0 where
    pub asked : after.adj_build_count ≡ before.adj_build_count
    pub marked : after.is_build_adj_lsa_scheduled ≡ true
    pub scheduled :
        after.calls
        ≡ schedule_event
            (before.conf.interest_retry_number * before.conf.interest_resend_time)
            build_adj_lsa
          ∷ before.calls

  build_counted-unmarked :
      (s : Nlsr Name D)
      → (build_counted s).is_build_adj_lsa_scheduled ≡ s.is_build_adj_lsa_scheduled
  unfolding build_counted
  build_counted-unmarked s =
      elim (Bool-cases (ltb 0 (get_num_of_active_neighbor s.adjacency_list))) [
        | inl some_active ↦ rw (some_active, build_counted) (own-SameBuild s).1
        | inr none_active ↦
            rw (none_active, build_counted)
              ((calculation-SameBuild _).1 ∙ (remove_adj_lsa-SameBuild s _).1)
      ]

  -- If fewer builds than 2 ^ 31 are asked for, the event that builds the adjacency LSA does so, once for all that
  -- are asked for, if every neighbor is active or has timed out as often as the retry number, and leaves
  -- none asked for and the event not marked as scheduled; otherwise they stay asked for, the event
  -- is scheduled anew, after as long as a neighbor takes to be given up, and marked as scheduled.
  pub build_scheduled-IsPutOff :
      (s : Nlsr Name D)
      → s.adj_build_count < 2 ^ 31
      → (All (IsSettled s.conf.interest_retry_number) s.adjacency_list
          × ((build_scheduled s).adj_build_count ≡ 0)
          × ((build_scheduled s).is_build_adj_lsa_scheduled ≡ false)
          × IsBuilt s (build_scheduled s))
        ⊎ (¬ All (IsSettled s.conf.interest_retry_number) s.adjacency_list
            × IsPutOff s (build_scheduled s))
  unfolding build_scheduled schedule
  build_scheduled-IsPutOff s small =
      let settled = is_adj_lsa_buildable_iff s.conf.interest_retry_number s.adjacency_list in
      let narrowed = narrowed_small s.adj_build_count small in
      let t : Nlsr Name D = record s { is_build_adj_lsa_scheduled = false } in
      elim (Bool-cases (is_adj_lsa_buildable s.conf.interest_retry_number s.adjacency_list)) [
        | inl buildable ↦ elim (Bool-cases (ltb 0 (positive_build_count s.adj_build_count))) [
          | inl asked ↦
              rw (buildable, build_scheduled, asked)
                (inl (
                  settled.0 buildable,
                  build_counted-none t small,
                  build_counted-unmarked t,
                  build_counted-IsBuilt t,
                ))
          | inr unasked ↦
              let none_asked : s.adj_build_count ≡ 0 = ground (arith, narrowed) in
              rw (buildable, build_scheduled, unasked)
                (inl (settled.0 buildable, none_asked, refl, inl (none_asked, refl)))
        ]
        | inr unbuildable ↦
            rw (unbuildable, build_scheduled)
              (inr (
                λ all. ground (arith, settled.1 all, unbuildable),
                record { asked = refl; marked = refl; scheduled = refl },
              ))
      ]
