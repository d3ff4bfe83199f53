-- ===== src/Lsdb/Coordinates.antt =====
-- src/lsdb.cpp: the coordinate LSAs. Routes are calculated anew only when hyperbolic routing is in
-- use.
use ndnproject.Prelude.{
  Bool, Double, Eq, NdnName, Option, [], false, if◌then◌else◌, ltb, nat_eq, none, not, some, str_eq,
  true, ℕ, ◌%◌, ◌++◌, ◌+◌, ◌==◌, ◌^◌, ◌∷◌,
}
use ndnproject.Keyed.{find, modify, erase}
use ndnproject.Lsa.{CoordinateLsa, coordinate_lsa_key, new_coordinate_lsa, is_equal_coordinates}
use ndnproject.Lsdb.{
  lsdb_changed, is_foreign, time_to_expire, schedule_expiration, cancel_schedule_lsa_expiring_event,
  get_lsa_expiration_time_point, publish, Duration,
}
use ndnproject.NamePrefixTable.{add_origin, remove_origin}
use ndnproject.Nlsr.{
  Nlsr, expire_or_refresh_coordinate_lsa, uses_hyperbolic, schedule_routing_table_calculation,
}
use ndnproject.Sequencing.{increase_cor_lsa_seq, set_cor_lsa_seq}

module _ {Name D : Type 0} ⦃e : Eq Name⦄ ⦃n : NdnName Name⦄ ⦃d : Double D⦄ where
  unfoldable pub find_coordinate_lsa : Nlsr Name D → Name → Option (CoordinateLsa Name D)
  find_coordinate_lsa s key = find coordinate_lsa_key key s.lsdb.cor_lsdb

  unfoldable pub is_coordinate_lsa_new : Nlsr Name D → Name → ℕ → Bool
  unfolding find_coordinate_lsa
  is_coordinate_lsa_new s key seq_no = elim (find_coordinate_lsa s key) [
    | some clsa ↦ if ltb clsa.ls_seq_no seq_no then true else false
    | none ↦ true
  ]

  unfoldable pub schedule_coordinate_lsa_expiration :
      Nlsr Name D → Name → ℕ → Duration → Nlsr Name D × ℕ
  unfolding schedule_expiration
  schedule_coordinate_lsa_expiration s = schedule_expiration s expire_or_refresh_coordinate_lsa

  unfoldable pub add_coordinate_lsa : Nlsr Name D → CoordinateLsa Name D → Nlsr Name D × Bool
  add_coordinate_lsa s clsa =
      elim (find coordinate_lsa_key (coordinate_lsa_key clsa) s.lsdb.cor_lsdb) [
        | none ↦ (
          lsdb_changed
              (record s { lsdb = record (s.lsdb) { cor_lsdb = s.lsdb.cor_lsdb ++ clsa ∷ [] } }),
          true,
        )
        | some _ ↦ (s, false)
      ]

  -- The check of the configured state before a calculation is scheduled.
  unfoldable pub calculate_if_hyperbolic : Nlsr Name D → Nlsr Name D
  calculate_if_hyperbolic s =
      if uses_hyperbolic s.conf.hyperbolic_state then schedule_routing_table_calculation s else s

  -- The branch of `installCoordinateLsa` for a stored LSA that is older.
  unfoldable pub update_coordinate_lsa :
      Nlsr Name D → CoordinateLsa Name D → CoordinateLsa Name D → Nlsr Name D
  unfolding calculate_if_hyperbolic
  update_coordinate_lsa s chk clsa =
      let same = is_equal_coordinates chk clsa in
      let changed = lsdb_changed s in
      let t : Nlsr Name D = if not same then calculate_if_hyperbolic changed else changed in
      let (u, event) =
        schedule_coordinate_lsa_expiration
          (cancel_schedule_lsa_expiring_event t chk.expiring_event_id) (coordinate_lsa_key clsa)
          clsa.ls_seq_no (time_to_expire t clsa.orig_router clsa.expiration_time_point) in
      record u {
        lsdb = record (u.lsdb) {
          cor_lsdb =
              modify coordinate_lsa_key (coordinate_lsa_key clsa)
                (λ x. record x {
                  lsa = record (x.lsa) {
                    ls_seq_no = clsa.ls_seq_no;
                    expiration_time_point = clsa.expiration_time_point;
                    expiring_event_id = some event;
                  };
                  cor_rad = if not same then clsa.cor_rad else chk.cor_rad;
                  cor_theta = if not same then clsa.cor_theta else chk.cor_theta;
                })
                u.lsdb.cor_lsdb;
        };
      }

  -- `installCoordinateLsa`. The id of a new LSA's event is dropped.
  unfoldable pub install_coordinate_lsa : Nlsr Name D → CoordinateLsa Name D → Nlsr Name D
  unfolding update_coordinate_lsa find_coordinate_lsa add_coordinate_lsa calculate_if_hyperbolic
  install_coordinate_lsa s clsa = elim (find_coordinate_lsa s (coordinate_lsa_key clsa)) [
    | none ↦
        let added = (add_coordinate_lsa s clsa).0 in
        let t = calculate_if_hyperbolic (
          if is_foreign added clsa.orig_router
          then add_origin added clsa.orig_router clsa.orig_router
          else added) in
        (schedule_coordinate_lsa_expiration t (coordinate_lsa_key clsa) clsa.ls_seq_no
          (time_to_expire t clsa.orig_router clsa.expiration_time_point)).0
    | some chk ↦ if ltb chk.ls_seq_no clsa.ls_seq_no then update_coordinate_lsa s chk clsa else s
  ]

  unfoldable pub build_and_install_own_coordinate_lsa : Nlsr Name D → Nlsr Name D
  unfolding install_coordinate_lsa
  build_and_install_own_coordinate_lsa s =
      let clsa =
        new_coordinate_lsa s.conf.router_prefix ((s.sequencing_manager.cor_lsa_seq + 1) % 2 ^ 32)
          (get_lsa_expiration_time_point s) s.conf.cor_r s.conf.cor_theta in
      install_coordinate_lsa
        (record s { sequencing_manager = increase_cor_lsa_seq s.sequencing_manager }) clsa

  unfoldable pub remove_coordinate_lsa : Nlsr Name D → Name → Nlsr Name D × Bool
  remove_coordinate_lsa s key = elim (find coordinate_lsa_key key s.lsdb.cor_lsdb) [
    | some chk ↦
        let t : Nlsr Name D =
          if is_foreign s chk.orig_router
          then remove_origin s chk.orig_router chk.orig_router
          else s in
        (
          lsdb_changed (record t {
            lsdb = record (t.lsdb) { cor_lsdb = erase coordinate_lsa_key key t.lsdb.cor_lsdb };
          }),
          true,
        )
    | none ↦ (s, false)
  ]

  unfoldable pub does_coordinate_lsa_exist : Nlsr Name D → Name → Bool
  does_coordinate_lsa_exist s key = elim (find coordinate_lsa_key key s.lsdb.cor_lsdb) [
    | none ↦ false
    | some _ ↦ true
  ]

  -- The refresh of this router's own LSA.
  unfoldable pub refresh_coordinate_lsa : Nlsr Name D → Name → CoordinateLsa Name D → Nlsr Name D
  refresh_coordinate_lsa s key chk =
      let seq_no = (chk.ls_seq_no + 1) % 2 ^ 32 in
      let t : Nlsr Name D = record (lsdb_changed s) {
        sequencing_manager = set_cor_lsa_seq s.sequencing_manager seq_no;
      } in
      let (u, event) =
        schedule_coordinate_lsa_expiration t (coordinate_lsa_key chk) seq_no
          (record { ahead = t.lsdb.lsa_refresh_time; behind = 0 }) in
      publish (record u {
        lsdb = record (u.lsdb) {
          cor_lsdb =
              modify coordinate_lsa_key key
                (λ x. record x {
                  lsa = record (x.lsa) {
                    ls_seq_no = seq_no;
                    expiration_time_point = get_lsa_expiration_time_point s;
                    expiring_event_id = some event;
                  };
                })
                u.lsdb.cor_lsdb;
        };
      })

  -- `exprireOrRefreshCoordinateLsa`.
  unfoldable pub expire_or_refresh : Nlsr Name D → Name → ℕ → Nlsr Name D
  unfolding find_coordinate_lsa refresh_coordinate_lsa remove_coordinate_lsa calculate_if_hyperbolic
  expire_or_refresh s key seq_no = elim (find_coordinate_lsa s key) [
    | none ↦ s
    | some chk ↦
        if chk.ls_seq_no == seq_no
        then calculate_if_hyperbolic (
            if chk.orig_router == s.lsdb.this_router_prefix
            then refresh_coordinate_lsa s key chk
            else (remove_coordinate_lsa s key).0)
        else s
  ]
