-- ===== src/Lsdb/Agreement/Coordinates.antt =====
-- src/lsdb.cpp: the agreement of the FIB and the name prefix table under the coordinate LSAs'
-- operations.
use ndnproject.Prelude.{
  Bool-cases, Double, Eq, NdnName, Option-cases, inl, inr, ltb, nat_eq, refl, str_eq, ℕ, ◌==◌,
}
use ndnproject.Keyed.{find}
use ndnproject.Lsa.{CoordinateLsa, coordinate_lsa_key, is_equal_coordinates}
use ndnproject.Lsdb.{
  cancel_schedule_lsa_expiring_event, is_foreign, lsdb_changed, publish, schedule_expiration,
}
use ndnproject.Lsdb.Agreement.{Untouched-Agrees, calculation-Untouched}
use ndnproject.Lsdb.Coordinates.{
  find_coordinate_lsa, install_coordinate_lsa, remove_coordinate_lsa, add_coordinate_lsa,
  update_coordinate_lsa, refresh_coordinate_lsa, expire_or_refresh, calculate_if_hyperbolic,
  build_and_install_own_coordinate_lsa, schedule_coordinate_lsa_expiration,
}
use ndnproject.NamePrefixTable.{add_origin, remove_origin}
use ndnproject.NamePrefixTable.Agreement.{add_origin-Agrees, remove_origin-Agrees}
use ndnproject.NamePrefixTable.Changes.{Agrees}
use ndnproject.Nlsr.{Nlsr, uses_hyperbolic}
use ndnproject.Sequencing.{increase_cor_lsa_seq}

module _ {Name D : Type 0} ⦃e : Eq Name⦄ ⦃n : NdnName Name⦄ ⦃d : Double D⦄ where
  calculate_if_hyperbolic-Agrees : (s : Nlsr Name D) → Agrees s → Agrees (calculate_if_hyperbolic s)
  unfolding calculate_if_hyperbolic
  calculate_if_hyperbolic-Agrees s a = elim (Bool-cases (uses_hyperbolic s.conf.hyperbolic_state)) [
    | inl in_use ↦
        rw (in_use, calculate_if_hyperbolic) (Untouched-Agrees s _ (calculation-Untouched s) a)
    | inr unused ↦ rw (unused, calculate_if_hyperbolic) a
  ]

  add_coordinate_lsa-Agrees :
      (s : Nlsr Name D) (l : CoordinateLsa Name D) → Agrees s → Agrees (add_coordinate_lsa s l).0
  unfolding add_coordinate_lsa
  add_coordinate_lsa-Agrees s l a =
      elim (Option-cases (find coordinate_lsa_key (coordinate_lsa_key l) s.lsdb.cor_lsdb)) [
        | inl miss ↦ rw (miss, add_coordinate_lsa) (Untouched-Agrees s _ (refl, refl, refl) a)
        | inr (old, hit) ↦ rw (hit, add_coordinate_lsa) a
      ]

  update_coordinate_lsa-Agrees :
      (s : Nlsr Name D) (chk clsa : CoordinateLsa Name D)
      → Agrees s
      → Agrees (update_coordinate_lsa s chk clsa)
  unfolding update_coordinate_lsa schedule_coordinate_lsa_expiration schedule_expiration
      cancel_schedule_lsa_expiring_event
  update_coordinate_lsa-Agrees s chk clsa a = elim (Bool-cases (is_equal_coordinates chk clsa)) [
    | inl same ↦ rw (same, update_coordinate_lsa) (Untouched-Agrees s _ (refl, refl, refl) a)
    | inr differ ↦
        rw (differ, update_coordinate_lsa)
          (Untouched-Agrees (calculate_if_hyperbolic (lsdb_changed s)) _ (refl, refl, refl)
            (calculate_if_hyperbolic-Agrees (lsdb_changed s)
              (Untouched-Agrees s _ (refl, refl, refl) a)))
  ]

  -- Installing a coordinate LSA, new, newer or older than the stored one, keeps the FIB in agreement
  -- with the name prefix table, if it was before.
  pub install_coordinate_lsa-Agrees :
      (s : Nlsr Name D) (clsa : CoordinateLsa Name D)
      → Agrees s
      → Agrees (install_coordinate_lsa s clsa)
  unfolding install_coordinate_lsa schedule_coordinate_lsa_expiration schedule_expiration
      cancel_schedule_lsa_expiring_event
  install_coordinate_lsa-Agrees s clsa a =
      let t = (add_coordinate_lsa s clsa).0 in
      let b : Agrees t = add_coordinate_lsa-Agrees s clsa a in
      elim (Option-cases (find_coordinate_lsa s (coordinate_lsa_key clsa))) [
        | inl miss ↦ elim (Bool-cases (is_foreign t clsa.orig_router)) [
          | inl foreign ↦
              let u = add_origin t clsa.orig_router clsa.orig_router in
              rw (miss, install_coordinate_lsa, foreign)
                (Untouched-Agrees (calculate_if_hyperbolic u) _ (refl, refl, refl)
                  (calculate_if_hyperbolic-Agrees u
                    (add_origin-Agrees t clsa.orig_router clsa.orig_router b)))
          | inr own ↦
              rw (miss, install_coordinate_lsa, own)
                (Untouched-Agrees (calculate_if_hyperbolic t) _ (refl, refl, refl)
                  (calculate_if_hyperbolic-Agrees t b))
        ]
        | inr (chk, hit) ↦ elim (Bool-cases (ltb chk.ls_seq_no clsa.ls_seq_no)) [
          | inl newer ↦
              rw (hit, install_coordinate_lsa, newer) (update_coordinate_lsa-Agrees s chk clsa a)
          | inr older ↦ rw (hit, install_coordinate_lsa, older) a
        ]
      ]

  -- Removing one keeps it.
  pub remove_coordinate_lsa-Agrees :
      (s : Nlsr Name D) (key : Name) → Agrees s → Agrees (remove_coordinate_lsa s key).0
  unfolding remove_coordinate_lsa
  remove_coordinate_lsa-Agrees s key a =
      elim (Option-cases (find coordinate_lsa_key key s.lsdb.cor_lsdb)) [
        | inl miss ↦ rw (miss, remove_coordinate_lsa) a
        | inr (chk, hit) ↦ elim (Bool-cases (is_foreign s chk.orig_router)) [
          | inl foreign ↦
              rw (hit, remove_coordinate_lsa, foreign)
                (Untouched-Agrees (remove_origin s chk.orig_router chk.orig_router) _
                  (refl, refl, refl) (remove_origin-Agrees s chk.orig_router chk.orig_router a))
          | inr own ↦
              rw (hit, remove_coordinate_lsa, own) (Untouched-Agrees s _ (refl, refl, refl) a)
        ]
      ]

  -- So does what follows when a coordinate LSA's time is over.
  pub expire_or_refresh_coordinate-Agrees :
      (s : Nlsr Name D) (key : Name) (seq_no : ℕ)
      → Agrees s
      → Agrees (expire_or_refresh s key seq_no)
  unfolding expire_or_refresh refresh_coordinate_lsa publish schedule_coordinate_lsa_expiration
      schedule_expiration
  expire_or_refresh_coordinate-Agrees s key seq_no a =
      elim (Option-cases (find_coordinate_lsa s key)) [
        | inl miss ↦ rw (miss, expire_or_refresh) a
        | inr (chk, hit) ↦ elim (Bool-cases (chk.ls_seq_no == seq_no)) [
          | inl due ↦ elim (Bool-cases (chk.orig_router == s.lsdb.this_router_prefix)) [
            | inl own ↦
                rw (hit, expire_or_refresh, due, own)
                  (calculate_if_hyperbolic-Agrees (refresh_coordinate_lsa s key chk)
                    (Untouched-Agrees s _ (refl, refl, refl) a))
            | inr other ↦
                rw (hit, expire_or_refresh, due, other)
                  (calculate_if_hyperbolic-Agrees (remove_coordinate_lsa s key).0
                    (remove_coordinate_lsa-Agrees s key a))
          ]
          | inr stale ↦ rw (hit, expire_or_refresh, stale) a
        ]
      ]

  -- So does this router's own coordinate LSA, built and installed.
  pub build_coordinate_lsa-Agrees :
      (s : Nlsr Name D) → Agrees s → Agrees (build_and_install_own_coordinate_lsa s)
  unfolding build_and_install_own_coordinate_lsa
  build_coordinate_lsa-Agrees s a =
      install_coordinate_lsa-Agrees
        (record s { sequencing_manager = increase_cor_lsa_seq s.sequencing_manager }) _
        (Untouched-Agrees s _ (refl, refl, refl) a)
