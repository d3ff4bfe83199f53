-- ===== src/Lsdb/Adjacencies.antt =====
-- src/lsdb.cpp: the adjacency LSAs. The building of this router's own is put off until every
-- neighbor is active or has been asked often enough.
use ndnproject.Prelude.{
  Bool, Double, Eq, NdnName, Option, [], false, if◌then◌else◌, ltb, nat_eq, none, not, some, str_eq,
  true, ℕ, ◌%◌, ◌*◌, ◌++◌, ◌+◌, ◌-◌, ◌==◌, ◌^◌, ◌∷◌,
}
use ndnproject.Adjacency.{
  AdjacencyList, lists_equal, add_adjacents, is_adj_lsa_buildable, get_num_of_active_neighbor,
}
use ndnproject.Keyed.{find, modify, erase}
use ndnproject.Lsa.{AdjLsa, adj_lsa_key, new_adj_lsa, adjacency_type}
use ndnproject.Lsdb.{
  lsdb_changed, is_foreign, time_to_expire, schedule_expiration, cancel_schedule_lsa_expiring_event,
  get_lsa_expiration_time_point, publish, Duration,
}
use ndnproject.NamePrefixTable.{add_origin, remove_origin}
use ndnproject.Nlsr.{
  Nlsr, build_adj_lsa, expire_or_refresh_adj_lsa, schedule, schedule_routing_table_calculation,
}
use ndnproject.Sequencing.{increase_adj_lsa_seq, set_adj_lsa_seq}

-- `int adjBuildCount`, the count as 32 bits, if it is positive then, and 0 if it is not.
unfoldable pub positive_build_count : ℕ → ℕ
positive_build_count adj_build_count =
    let narrowed = adj_build_count % 2 ^ 32 in if ltb narrowed (2 ^ 31) then narrowed else 0

module _ {Name D : Type 0} ⦃e : Eq Name⦄ ⦃n : NdnName Name⦄ ⦃d : Double D⦄ where
  unfoldable pub find_adj_lsa : Nlsr Name D → Name → Option (AdjLsa Name D)
  find_adj_lsa s key = find adj_lsa_key key s.lsdb.adj_lsdb

  unfoldable pub is_adj_lsa_new : Nlsr Name D → Name → ℕ → Bool
  unfolding find_adj_lsa
  is_adj_lsa_new s key seq_no = elim (find_adj_lsa s key) [
    | some chk ↦ if ltb chk.ls_seq_no seq_no then true else false
    | none ↦ true
  ]

  unfoldable pub schedule_adj_lsa_expiration : Nlsr Name D → Name → ℕ → Duration → Nlsr Name D × ℕ
  unfolding schedule_expiration
  schedule_adj_lsa_expiration s = schedule_expiration s expire_or_refresh_adj_lsa

  unfoldable pub add_adj_lsa : Nlsr Name D → AdjLsa Name D → Nlsr Name D × Bool
  add_adj_lsa s alsa = elim (find adj_lsa_key (adj_lsa_key alsa) s.lsdb.adj_lsdb) [
    | none ↦ (
      lsdb_changed
          (record s { lsdb = record (s.lsdb) { adj_lsdb = s.lsdb.adj_lsdb ++ alsa ∷ [] } }),
      true,
    )
    | some _ ↦ (s, false)
  ]

  -- `AdjLsa::addNptEntries` and `removeNptEntries`.
  unfoldable pub add_npt_entries : Nlsr Name D → AdjLsa Name D → Nlsr Name D
  add_npt_entries s alsa =
      if is_foreign s alsa.orig_router then add_origin s alsa.orig_router alsa.orig_router else s

  unfoldable pub remove_npt_entries : Nlsr Name D → AdjLsa Name D → Nlsr Name D
  remove_npt_entries s alsa =
      if is_foreign s alsa.orig_router then remove_origin s alsa.orig_router alsa.orig_router else s

  -- The stored neighbors after `isEqualContent`, which may sort both lists, and the replacement
  -- that follows when the lists differ.
  unfoldable pub neighbors_after :
      AdjacencyList Name D → AdjacencyList Name D → AdjacencyList Name D
  unfolding lists_equal add_adjacents
  neighbors_after stored newer =
      let (equal, ours, theirs) = lists_equal stored newer in
      if equal then ours else add_adjacents [] theirs

  -- The branch of `installAdjLsa` for a stored LSA that is older.
  unfoldable pub update_adj_lsa : Nlsr Name D → AdjLsa Name D → AdjLsa Name D → Nlsr Name D
  unfolding neighbors_after
  update_adj_lsa s chk alsa =
      let changed = lsdb_changed s in
      let t : Nlsr Name D =
        if not (lists_equal chk.adl alsa.adl).0
        then schedule_routing_table_calculation changed
        else changed in
      let (u, event) =
        schedule_adj_lsa_expiration (cancel_schedule_lsa_expiring_event t chk.expiring_event_id)
          (adj_lsa_key alsa) alsa.ls_seq_no
          (time_to_expire t alsa.orig_router alsa.expiration_time_point) in
      record u {
        lsdb = record (u.lsdb) {
          adj_lsdb =
              modify adj_lsa_key (adj_lsa_key alsa)
                (λ x. record x {
                  lsa = record (x.lsa) {
                    ls_seq_no = alsa.ls_seq_no;
                    expiration_time_point = alsa.expiration_time_point;
                    expiring_event_id = some event;
                  };
                  adl = neighbors_after chk.adl alsa.adl;
                })
                u.lsdb.adj_lsdb;
        };
      }

  -- `installAdjLsa`. The id of a new LSA's event is dropped.
  unfoldable pub install_adj_lsa : Nlsr Name D → AdjLsa Name D → Nlsr Name D
  unfolding update_adj_lsa find_adj_lsa add_adj_lsa add_npt_entries
  install_adj_lsa s alsa = elim (find_adj_lsa s (adj_lsa_key alsa)) [
    | none ↦
        let t = schedule_routing_table_calculation (add_npt_entries (add_adj_lsa s alsa).0 alsa) in
        (schedule_adj_lsa_expiration t (adj_lsa_key alsa) alsa.ls_seq_no
          (time_to_expire t alsa.orig_router alsa.expiration_time_point)).0
    | some chk ↦ if ltb chk.ls_seq_no alsa.ls_seq_no then update_adj_lsa s chk alsa else s
  ]

  unfoldable pub build_and_install_own_adj_lsa : Nlsr Name D → Nlsr Name D
  unfolding install_adj_lsa
  build_and_install_own_adj_lsa s =
      let alsa =
        new_adj_lsa s.conf.router_prefix ((s.sequencing_manager.adj_lsa_seq + 1) % 2 ^ 32)
          (get_lsa_expiration_time_point s) (get_num_of_active_neighbor s.adjacency_list)
          s.adjacency_list in
      install_adj_lsa
        (publish (record s { sequencing_manager = increase_adj_lsa_seq s.sequencing_manager })) alsa

  unfoldable pub remove_adj_lsa : Nlsr Name D → Name → Nlsr Name D × Bool
  unfolding remove_npt_entries
  remove_adj_lsa s key = elim (find adj_lsa_key key s.lsdb.adj_lsdb) [
    | some chk ↦
        let t = remove_npt_entries s chk in
        (
          lsdb_changed (record t {
            lsdb = record (t.lsdb) { adj_lsdb = erase adj_lsa_key key t.lsdb.adj_lsdb };
          }),
          true,
        )
    | none ↦ (s, false)
  ]

  unfoldable pub does_adj_lsa_exist : Nlsr Name D → Name → Bool
  does_adj_lsa_exist s key = elim (find adj_lsa_key key s.lsdb.adj_lsdb) [
    | none ↦ false
    | some _ ↦ true
  ]

  unfoldable pub schedule_adj_lsa_build : Nlsr Name D → Nlsr Name D
  unfolding schedule
  schedule_adj_lsa_build s =
      let t : Nlsr Name D = record s { adj_build_count = s.adj_build_count + 1 } in
      if not t.is_build_adj_lsa_scheduled
      then record ((schedule t t.lsdb.adj_lsa_build_interval build_adj_lsa).0) {
        is_build_adj_lsa_scheduled = true;
      }
      else t

  -- What `buildAdjLsa` does when the LSA can be built and a build is asked for.
  unfoldable pub build_counted : Nlsr Name D → Nlsr Name D
  unfolding build_and_install_own_adj_lsa remove_adj_lsa positive_build_count
  build_counted s =
      let t : Nlsr Name D =
        if ltb 0 (get_num_of_active_neighbor s.adjacency_list)
        then build_and_install_own_adj_lsa s
        else schedule_routing_table_calculation
            (remove_adj_lsa s (n.append s.conf.router_prefix adjacency_type)).0 in
      record t { adj_build_count = t.adj_build_count - positive_build_count s.adj_build_count }

  -- `buildAdjLsa`, the event.
  unfoldable pub build_scheduled : Nlsr Name D → Nlsr Name D
  unfolding build_counted
  build_scheduled s =
      let t : Nlsr Name D = record s { is_build_adj_lsa_scheduled = false } in
      if is_adj_lsa_buildable t.conf.interest_retry_number t.adjacency_list
      then (if ltb 0 (positive_build_count t.adj_build_count) then build_counted t else t)
      else (schedule (record t { is_build_adj_lsa_scheduled = true })
          (t.conf.interest_retry_number * t.conf.interest_resend_time) build_adj_lsa).0

  -- The refresh of this router's own LSA.
  unfoldable pub refresh_adj_lsa : Nlsr Name D → Name → AdjLsa Name D → Nlsr Name D
  refresh_adj_lsa s key chk =
      let seq_no = (chk.ls_seq_no + 1) % 2 ^ 32 in
      let t : Nlsr Name D = record (lsdb_changed s) {
        sequencing_manager = set_adj_lsa_seq s.sequencing_manager seq_no;
      } in
      let (u, event) =
        schedule_adj_lsa_expiration t (adj_lsa_key chk) seq_no
          (record { ahead = t.lsdb.lsa_refresh_time; behind = 0 }) in
      publish (record u {
        lsdb = record (u.lsdb) {
          adj_lsdb =
              modify adj_lsa_key key
                (λ x. record x {
                  lsa = record (x.lsa) {
                    ls_seq_no = seq_no;
                    expiration_time_point = get_lsa_expiration_time_point s;
                    expiring_event_id = some event;
                  };
                })
                u.lsdb.adj_lsdb;
        };
      })

  -- `exprireOrRefreshAdjLsa`.
  unfoldable pub expire_or_refresh : Nlsr Name D → Name → ℕ → Nlsr Name D
  unfolding find_adj_lsa refresh_adj_lsa remove_adj_lsa
  expire_or_refresh s key seq_no = elim (find_adj_lsa s key) [
    | none ↦ s
    | some chk ↦
        if chk.ls_seq_no == seq_no
        then schedule_routing_table_calculation (
            if chk.orig_router == s.lsdb.this_router_prefix
            then refresh_adj_lsa s key chk
            else (remove_adj_lsa s key).0)
        else s
  ]
