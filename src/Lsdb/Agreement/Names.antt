-- ===== src/Lsdb/Agreement/Names.antt =====
-- src/lsdb.cpp: the agreement of the FIB and the name prefix table under the name LSAs' operations.
use ndnproject.Prelude.{
  Bool-cases, Double, Eq, List, NdnName, Option-cases, inl, inr, ltb, nat_eq, refl, str_eq, ℕ, ◌==◌,
}
use ndnproject.Keyed.{find}
use ndnproject.Lsa.{NameLsa, name_lsa_key}
use ndnproject.Lsdb.{
  add_origins, cancel_schedule_lsa_expiring_event, is_foreign, lsdb_changed, publish,
  remove_origins, schedule_expiration,
}
use ndnproject.Lsdb.Agreement.{Untouched-Agrees, add_origins-Agrees, remove_origins-Agrees}
use ndnproject.Lsdb.Names.{
  find_name_lsa, install_name_lsa, remove_name_lsa, add_name_lsa, add_lsa_names, update_name_lsa,
  tell_changes, names_to_add, names_to_remove, refresh_name_lsa, expire_or_refresh,
  build_and_install_own_name_lsa, schedule_name_lsa_expiration,
}
use ndnproject.NamePrefixTable.{add_origin, remove_origin}
use ndnproject.NamePrefixTable.Agreement.{add_origin-Agrees, remove_origin-Agrees}
use ndnproject.NamePrefixTable.Changes.{Agrees}
use ndnproject.Nlsr.{Nlsr}
use ndnproject.Sequencing.{increase_name_lsa_seq}

module _ {Name D : Type 0} ⦃e : Eq Name⦄ ⦃n : NdnName Name⦄ ⦃d : Double D⦄ where
  add_name_lsa-Agrees :
      (s : Nlsr Name D) (l : NameLsa Name) → Agrees s → Agrees (add_name_lsa s l).0
  unfolding add_name_lsa
  add_name_lsa-Agrees s l a =
      elim (Option-cases (find name_lsa_key (name_lsa_key l) s.lsdb.name_lsdb)) [
        | inl miss ↦ rw (miss, add_name_lsa) (Untouched-Agrees s _ (refl, refl, refl) a)
        | inr (old, hit) ↦ rw (hit, add_name_lsa) a
      ]

  add_lsa_names-Agrees :
      (s : Nlsr Name D) (l : NameLsa Name) → Agrees s → Agrees (add_lsa_names s l)
  unfolding add_lsa_names
  add_lsa_names-Agrees s l a = elim (Bool-cases (is_foreign s l.orig_router)) [
    | inl foreign ↦ rw foreign (
        add_origins-Agrees (add_origin s l.orig_router l.orig_router) l.orig_router l.npl
          (add_origin-Agrees s l.orig_router l.orig_router a))
    | inr own ↦ rw own a
  ]

  tell_changes-Agrees :
      (s : Nlsr Name D) (r : Name) (stored newer : List Name)
      → Agrees s
      → Agrees (tell_changes s r stored newer)
  unfolding tell_changes
  tell_changes-Agrees s r stored newer a = elim (Bool-cases (is_foreign s r)) [
    | inl foreign ↦ rw foreign (
        remove_origins-Agrees (add_origins s r (names_to_add stored newer)) r
          (names_to_remove stored newer) (add_origins-Agrees s r (names_to_add stored newer) a))
    | inr own ↦ rw own a
  ]

  -- Installing a name LSA, new, newer or older than the stored one, keeps the FIB in agreement with the
  -- name prefix table, if it was before.
  pub install_name_lsa-Agrees :
      (s : Nlsr Name D) (nlsa : NameLsa Name) → Agrees s → Agrees (install_name_lsa s nlsa)
  unfolding install_name_lsa update_name_lsa schedule_name_lsa_expiration schedule_expiration
      cancel_schedule_lsa_expiring_event
  install_name_lsa-Agrees s nlsa a = elim (Option-cases (find_name_lsa s (name_lsa_key nlsa))) [
    | inl miss ↦
        rw (miss, install_name_lsa)
          (Untouched-Agrees (add_lsa_names (add_name_lsa s nlsa).0 nlsa) _ (refl, refl, refl)
            (add_lsa_names-Agrees (add_name_lsa s nlsa).0 nlsa (add_name_lsa-Agrees s nlsa a)))
    | inr (chk, hit) ↦ elim (Bool-cases (ltb chk.ls_seq_no nlsa.ls_seq_no)) [
      | inl newer ↦
          rw (hit, install_name_lsa, newer)
            (Untouched-Agrees (tell_changes (lsdb_changed s) nlsa.orig_router chk.npl nlsa.npl) _
              (refl, refl, refl)
              (tell_changes-Agrees (lsdb_changed s) nlsa.orig_router chk.npl nlsa.npl
                (Untouched-Agrees s _ (refl, refl, refl) a)))
      | inr older ↦ rw (hit, install_name_lsa, older) a
    ]
  ]

  -- Removing a name LSA keeps the FIB in agreement with the name prefix table, if it was before.
  pub remove_name_lsa-Agrees :
      (s : Nlsr Name D) (key : Name) → Agrees s → Agrees (remove_name_lsa s key).0
  unfolding remove_name_lsa
  remove_name_lsa-Agrees s key a = elim (Option-cases (find name_lsa_key key s.lsdb.name_lsdb)) [
    | inl miss ↦ rw (miss, remove_name_lsa) a
    | inr (chk, hit) ↦ elim (Bool-cases (is_foreign s chk.orig_router)) [
      | inl foreign ↦
          let t = remove_origin s chk.orig_router chk.orig_router in
          rw (hit, remove_name_lsa, foreign)
            (Untouched-Agrees (remove_origins t chk.orig_router chk.npl) _ (refl, refl, refl)
              (remove_origins-Agrees t chk.orig_router chk.npl
                (remove_origin-Agrees s chk.orig_router chk.orig_router a)))
      | inr own ↦ rw (hit, remove_name_lsa, own) (Untouched-Agrees s _ (refl, refl, refl) a)
    ]
  ]

  -- So does what follows when a name LSA's time is over.
  pub expire_or_refresh_name-Agrees :
      (s : Nlsr Name D) (key : Name) (seq_no : ℕ)
      → Agrees s
      → Agrees (expire_or_refresh s key seq_no)
  unfolding expire_or_refresh refresh_name_lsa publish schedule_name_lsa_expiration
      schedule_expiration
  expire_or_refresh_name-Agrees s key seq_no a = elim (Option-cases (find_name_lsa s key)) [
    | inl miss ↦ rw (miss, expire_or_refresh) a
    | inr (chk, hit) ↦ elim (Bool-cases (chk.ls_seq_no == seq_no)) [
      | inl due ↦ elim (Bool-cases (chk.orig_router == s.lsdb.this_router_prefix)) [
        | inl own ↦
            rw (hit, expire_or_refresh, due, own) (Untouched-Agrees s _ (refl, refl, refl) a)
        | inr other ↦ rw (hit, expire_or_refresh, due, other) (remove_name_lsa-Agrees s key a)
      ]
      | inr stale ↦ rw (hit, expire_or_refresh, stale) a
    ]
  ]

  -- So does this router's own name LSA, built and installed.
  pub build_name_lsa-Agrees :
      (s : Nlsr Name D) → Agrees s → Agrees (build_and_install_own_name_lsa s)
  unfolding build_and_install_own_name_lsa
  build_name_lsa-Agrees s a =
      install_name_lsa-Agrees
        (record s { sequencing_manager = increase_name_lsa_seq s.sequencing_manager }) _
        (Untouched-Agrees s _ (refl, refl, refl) a)
