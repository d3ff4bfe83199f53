-- ===== src/Lsdb/Freshness.antt =====
-- src/lsdb.cpp: installing an LSA leaves the newer of two sequence numbers, whatever is stored.
use ndnproject.Prelude.{
  Bool, Bool-cases, Double, Eq, NdnName, Option, Option-cases, false, if◌then◌else◌, inl, inr, ltb,
  nat_eq, not, refl, some, str_eq, true, ℕ, ◌==◌, ◌≡◌,
}
use ndnproject.Adjacency.{lists_equal}
use ndnproject.Keyed.{find}
use ndnproject.Lsa.{
  NameLsa, AdjLsa, CoordinateLsa, name_lsa_key, adj_lsa_key, coordinate_lsa_key,
  is_equal_coordinates,
}
use ndnproject.Lsdb.{
  schedule_expiration, cancel_schedule_lsa_expiring_event, is_foreign, lsdb_changed,
}
use ndnproject.Lsdb.Adjacencies.{
  find_adj_lsa, install_adj_lsa, update_adj_lsa, add_adj_lsa, add_npt_entries,
  schedule_adj_lsa_expiration,
}
use ndnproject.Lsdb.Coordinates.{
  find_coordinate_lsa, install_coordinate_lsa, update_coordinate_lsa, add_coordinate_lsa,
  calculate_if_hyperbolic, schedule_coordinate_lsa_expiration,
}
use ndnproject.Lsdb.Names.{
  find_name_lsa, install_name_lsa, update_name_lsa, add_name_lsa, schedule_name_lsa_expiration,
}
use ndnproject.NamePrefixTable.{add_origin}
use ndnproject.NamePrefixTable.Frame.{SameLsdb, add_origin-SameLsdb}
use ndnproject.Lsdb.Stored.{
  seq_no_of, newer_of, IsInstallation, appended, renewed, kept, seq_no_of-installation,
  add_lsa_names-SameLsdb, tell_changes-SameLsdb, calculation-SameLsdb,
}
use ndnproject.Nlsr.{Nlsr, schedule_routing_table_calculation, uses_hyperbolic}

module _ {Name D : Type 0} ⦃e : Eq Name⦄ ⦃n : NdnName Name⦄ ⦃d : Double D⦄ where
  -- The sequence number of the LSA stored under a key.
  abbrev pub name_seq_no : Nlsr Name D → Name → Option ℕ
  name_seq_no s = seq_no_of name_lsa_key (λ l. l.ls_seq_no) s.lsdb.name_lsdb

  abbrev pub adj_seq_no : Nlsr Name D → Name → Option ℕ
  adj_seq_no s = seq_no_of adj_lsa_key (λ l. l.ls_seq_no) s.lsdb.adj_lsdb

  abbrev pub coordinate_seq_no : Nlsr Name D → Name → Option ℕ
  coordinate_seq_no s = seq_no_of coordinate_lsa_key (λ l. l.ls_seq_no) s.lsdb.cor_lsdb

  pub name_lsa-IsInstallation :
      (s : Nlsr Name D) (nlsa : NameLsa Name)
      → IsInstallation name_lsa_key
          (λ l. l.ls_seq_no)
          s.lsdb.name_lsdb
          nlsa
          (install_name_lsa s nlsa).lsdb.name_lsdb
  unfolding install_name_lsa update_name_lsa find_name_lsa add_name_lsa schedule_name_lsa_expiration
      schedule_expiration cancel_schedule_lsa_expiring_event
  name_lsa-IsInstallation s nlsa =
      elim (Option-cases (find name_lsa_key (name_lsa_key nlsa) s.lsdb.name_lsdb)) [
        | inl miss ↦
            rw (miss, install_name_lsa, (add_lsa_names-SameLsdb _ nlsa).0, add_name_lsa, miss)
              (appended miss)
        | inr (chk, hit) ↦ elim (Bool-cases (ltb chk.ls_seq_no nlsa.ls_seq_no)) [
          | inl newer ↦
              rw
                (
                  hit,
                  install_name_lsa,
                  newer,
                  (tell_changes-SameLsdb (lsdb_changed s) nlsa.orig_router chk.npl nlsa.npl).0,
                )
                (renewed chk hit newer _ (λ x. refl) (λ x. refl))
          | inr older ↦ rw (hit, install_name_lsa, older) (kept chk hit older)
        ]
      ]

  -- Installing a name LSA leaves the newer of two sequence numbers under its key, the stored one
  -- and its own, and leaves every other key's alone.
  pub name_seq_no-install :
      (s : Nlsr Name D) (nlsa : NameLsa Name) (key : Name)
      → name_seq_no (install_name_lsa s nlsa) key ≡ (
          if name_lsa_key nlsa == key
          then some (newer_of (name_seq_no s key) nlsa.ls_seq_no)
          else name_seq_no s key)
  name_seq_no-install s nlsa =
      seq_no_of-installation name_lsa_key (λ l. l.ls_seq_no) (name_lsa-IsInstallation s nlsa)

  add_npt_entries-SameLsdb :
      (s : Nlsr Name D) (l : AdjLsa Name D) → SameLsdb s (add_npt_entries s l)
  unfolding add_npt_entries
  add_npt_entries-SameLsdb s l = elim (Bool-cases (is_foreign s l.orig_router)) [
    | inl foreign ↦ rw foreign (add_origin-SameLsdb s l.orig_router l.orig_router)
    | inr own ↦ rw own (refl, refl)
  ]

  if_calculation-SameLsdb :
      (s : Nlsr Name D) (b : Bool)
      → SameLsdb s (if b then schedule_routing_table_calculation s else s)
  if_calculation-SameLsdb s true = calculation-SameLsdb s
  if_calculation-SameLsdb s false = (refl, refl)

  pub adj_lsa-IsInstallation :
      (s : Nlsr Name D) (alsa : AdjLsa Name D)
      → IsInstallation adj_lsa_key
          (λ l. l.ls_seq_no)
          s.lsdb.adj_lsdb
          alsa
          (install_adj_lsa s alsa).lsdb.adj_lsdb
  unfolding install_adj_lsa update_adj_lsa find_adj_lsa add_adj_lsa schedule_adj_lsa_expiration
      schedule_expiration cancel_schedule_lsa_expiring_event
  adj_lsa-IsInstallation s alsa =
      elim (Option-cases (find adj_lsa_key (adj_lsa_key alsa) s.lsdb.adj_lsdb)) [
        | inl miss ↦
            rw
              (
                miss,
                install_adj_lsa,
                (calculation-SameLsdb _).0,
                (add_npt_entries-SameLsdb _ alsa).0,
                add_adj_lsa,
                miss,
              )
              (appended miss)
        | inr (chk, hit) ↦ elim (Bool-cases (ltb chk.ls_seq_no alsa.ls_seq_no)) [
          | inl newer ↦
              rw
                (
                  hit,
                  install_adj_lsa,
                  newer,
                  (if_calculation-SameLsdb (lsdb_changed s)
                      (not (lists_equal chk.adl alsa.adl).0)).0,
                )
                (renewed chk hit newer _ (λ x. refl) (λ x. refl))
          | inr older ↦ rw (hit, install_adj_lsa, older) (kept chk hit older)
        ]
      ]

  -- Installing an adjacency LSA leaves the newer of two sequence numbers under its key, the stored one
  -- and its own, and leaves every other key's alone.
  pub adj_seq_no-install :
      (s : Nlsr Name D) (alsa : AdjLsa Name D) (key : Name)
      → adj_seq_no (install_adj_lsa s alsa) key ≡ (
          if adj_lsa_key alsa == key
          then some (newer_of (adj_seq_no s key) alsa.ls_seq_no)
          else adj_seq_no s key)
  adj_seq_no-install s alsa =
      seq_no_of-installation adj_lsa_key (λ l. l.ls_seq_no) (adj_lsa-IsInstallation s alsa)

  hyperbolic-SameLsdb : (s : Nlsr Name D) → SameLsdb s (calculate_if_hyperbolic s)
  unfolding calculate_if_hyperbolic
  hyperbolic-SameLsdb s = if_calculation-SameLsdb s (uses_hyperbolic s.conf.hyperbolic_state)

  if_hyperbolic-SameLsdb :
      (s : Nlsr Name D) (b : Bool) → SameLsdb s (if b then calculate_if_hyperbolic s else s)
  if_hyperbolic-SameLsdb s true = hyperbolic-SameLsdb s
  if_hyperbolic-SameLsdb s false = (refl, refl)

  if_origin-SameLsdb :
      (s : Nlsr Name D) (r : Name) (b : Bool) → SameLsdb s (if b then add_origin s r r else s)
  if_origin-SameLsdb s r true = add_origin-SameLsdb s r r
  if_origin-SameLsdb s r false = (refl, refl)

  pub coordinate_lsa-IsInstallation :
      (s : Nlsr Name D) (clsa : CoordinateLsa Name D)
      → IsInstallation coordinate_lsa_key
          (λ l. l.ls_seq_no)
          s.lsdb.cor_lsdb
          clsa
          (install_coordinate_lsa s clsa).lsdb.cor_lsdb
  unfolding install_coordinate_lsa update_coordinate_lsa find_coordinate_lsa add_coordinate_lsa
      schedule_coordinate_lsa_expiration schedule_expiration cancel_schedule_lsa_expiring_event
  coordinate_lsa-IsInstallation s clsa =
      let t = (add_coordinate_lsa s clsa).0 in
      elim (Option-cases (find coordinate_lsa_key (coordinate_lsa_key clsa) s.lsdb.cor_lsdb)) [
        | inl miss ↦
            rw
              (
                miss,
                install_coordinate_lsa,
                (hyperbolic-SameLsdb _).0,
                (if_origin-SameLsdb t clsa.orig_router (is_foreign t clsa.orig_router)).0,
                add_coordinate_lsa,
                miss,
              )
              (appended miss)
        | inr (chk, hit) ↦ elim (Bool-cases (ltb chk.ls_seq_no clsa.ls_seq_no)) [
          | inl newer ↦
              rw
                (
                  hit,
                  install_coordinate_lsa,
                  newer,
                  (if_hyperbolic-SameLsdb (lsdb_changed s) (not (is_equal_coordinates chk clsa))).0,
                )
                (renewed chk hit newer _ (λ x. refl) (λ x. refl))
          | inr older ↦ rw (hit, install_coordinate_lsa, older) (kept chk hit older)
        ]
      ]

  -- Installing a coordinate LSA leaves the newer of two sequence numbers under its key, the stored one
  -- and its own, and leaves every other key's alone.
  pub coordinate_seq_no-install :
      (s : Nlsr Name D) (clsa : CoordinateLsa Name D) (key : Name)
      → coordinate_seq_no (install_coordinate_lsa s clsa) key ≡ (
          if coordinate_lsa_key clsa == key
          then some (newer_of (coordinate_seq_no s key) clsa.ls_seq_no)
          else coordinate_seq_no s key)
  coordinate_seq_no-install s clsa =
      seq_no_of-installation coordinate_lsa_key (λ l. l.ls_seq_no)
        (coordinate_lsa-IsInstallation s clsa)
