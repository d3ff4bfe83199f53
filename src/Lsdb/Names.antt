-- ===== src/Lsdb/Names.antt =====
-- src/lsdb.cpp: the name LSAs. What NamePrefixTable is told of an LSA's names is told for other
-- routers' LSAs alone.
use ndnproject.Prelude.{
  Bool, Double, Eq, List, NdnName, Option, [], false, if◌then◌else◌, ltb, nat_eq, none, some,
  str_eq, true, ℕ, ◌%◌, ◌++◌, ◌+◌, ◌==◌, ◌^◌, ◌∷◌,
}
use ndnproject.Keyed.{find, modify, erase}
use ndnproject.Lsa.{NameLsa, name_lsa_key, new_name_lsa, add_names}
use ndnproject.Lsdb.{
  lsdb_changed, is_foreign, time_to_expire, schedule_expiration, cancel_schedule_lsa_expiring_event,
  get_lsa_expiration_time_point, publish, add_origins, remove_origins, Duration,
}
use ndnproject.NamePrefixList
use ndnproject.NamePrefixList.{NamePrefixList, set_difference}
use ndnproject.NamePrefixTable.{add_origin, remove_origin}
use ndnproject.Nlsr.{Nlsr, expire_or_refresh_name_lsa}
use ndnproject.Sequencing.{increase_name_lsa_seq, set_name_lsa_seq}

module _ {Name D : Type 0} ⦃e : Eq Name⦄ ⦃n : NdnName Name⦄ ⦃d : Double D⦄ where
  unfoldable pub find_name_lsa : Nlsr Name D → Name → Option (NameLsa Name)
  find_name_lsa s key = find name_lsa_key key s.lsdb.name_lsdb

  unfoldable pub is_name_lsa_new : Nlsr Name D → Name → ℕ → Bool
  unfolding find_name_lsa
  is_name_lsa_new s key seq_no = elim (find_name_lsa s key) [
    | some chk ↦ if ltb chk.ls_seq_no seq_no then true else false
    | none ↦ true
  ]

  unfoldable pub schedule_name_lsa_expiration : Nlsr Name D → Name → ℕ → Duration → Nlsr Name D × ℕ
  unfolding schedule_expiration
  schedule_name_lsa_expiration s = schedule_expiration s expire_or_refresh_name_lsa

  unfoldable pub add_name_lsa : Nlsr Name D → NameLsa Name → Nlsr Name D × Bool
  add_name_lsa s nlsa = elim (find name_lsa_key (name_lsa_key nlsa) s.lsdb.name_lsdb) [
    | none ↦ (
      lsdb_changed
          (record s { lsdb = record (s.lsdb) { name_lsdb = s.lsdb.name_lsdb ++ nlsa ∷ [] } }),
      true,
    )
    | some _ ↦ (s, false)
  ]

  -- The name prefix table is told of a new LSA of another router: of the router and of its names.
  unfoldable pub add_lsa_names : Nlsr Name D → NameLsa Name → Nlsr Name D
  unfolding add_origins
  add_lsa_names s nlsa =
      if is_foreign s nlsa.orig_router
      then add_origins (add_origin s nlsa.orig_router nlsa.orig_router) nlsa.orig_router nlsa.npl
      else s

module _ {Name : Type 0} ⦃e : Eq Name⦄ ⦃n : NdnName Name⦄ where
  -- `removeName` of each name of a list.
  unfoldable pub remove_names : NamePrefixList Name → List Name → NamePrefixList Name
  remove_names npl [] = npl
  remove_names npl (name ∷ names) = remove_names (NamePrefixList.remove npl name).0 names

  -- The names that a newer LSA adds to the stored ones.
  unfoldable pub names_to_add : NamePrefixList Name → NamePrefixList Name → List Name
  names_to_add stored newer =
      set_difference (NamePrefixList.sort newer) (NamePrefixList.sort stored)

  -- The stored names with those added, sorted again.
  unfoldable pub names_with_added : NamePrefixList Name → NamePrefixList Name → NamePrefixList Name
  unfolding names_to_add
  names_with_added stored newer =
      NamePrefixList.sort (add_names (NamePrefixList.sort stored) (names_to_add stored newer))

  unfoldable pub names_to_remove : NamePrefixList Name → NamePrefixList Name → List Name
  unfolding names_with_added
  names_to_remove stored newer =
      set_difference (names_with_added stored newer) (NamePrefixList.sort newer)

  unfoldable pub names_after : NamePrefixList Name → NamePrefixList Name → NamePrefixList Name
  unfolding names_with_added names_to_remove
  names_after stored newer =
      remove_names (names_with_added stored newer) (names_to_remove stored newer)

module _ {Name D : Type 0} ⦃e : Eq Name⦄ ⦃n : NdnName Name⦄ ⦃d : Double D⦄ where
  unfoldable pub tell_changes :
      Nlsr Name D → Name → NamePrefixList Name → NamePrefixList Name → Nlsr Name D
  unfolding names_to_add names_to_remove
  tell_changes s orig_router stored newer =
      if is_foreign s orig_router
      then remove_origins (add_origins s orig_router (names_to_add stored newer)) orig_router
          (names_to_remove stored newer)
      else s

  -- The branch of `installNameLsa` for a stored LSA that is older.
  unfoldable pub update_name_lsa : Nlsr Name D → NameLsa Name → NameLsa Name → Nlsr Name D
  unfolding tell_changes names_after
  update_name_lsa s chk nlsa =
      let t = tell_changes (lsdb_changed s) nlsa.orig_router chk.npl nlsa.npl in
      let time = time_to_expire t nlsa.orig_router nlsa.expiration_time_point in
      let (u, event) =
        schedule_name_lsa_expiration (cancel_schedule_lsa_expiring_event t chk.expiring_event_id)
          (name_lsa_key nlsa) nlsa.ls_seq_no time in
      record u {
        lsdb = record (u.lsdb) {
          name_lsdb =
              modify name_lsa_key (name_lsa_key nlsa)
                (λ x. record x {
                  lsa = record (x.lsa) {
                    ls_seq_no = nlsa.ls_seq_no;
                    expiration_time_point = nlsa.expiration_time_point;
                    expiring_event_id = some event;
                  };
                  npl = names_after chk.npl nlsa.npl;
                })
                u.lsdb.name_lsdb;
        };
      }

  -- `installNameLsa`. Of a new LSA the event's id goes to the argument, not to the stored copy.
  unfoldable pub install_name_lsa : Nlsr Name D → NameLsa Name → Nlsr Name D
  unfolding update_name_lsa find_name_lsa add_name_lsa add_lsa_names
  install_name_lsa s nlsa = elim (find_name_lsa s (name_lsa_key nlsa)) [
    | none ↦
        let t = add_lsa_names (add_name_lsa s nlsa).0 nlsa in
        (schedule_name_lsa_expiration t (name_lsa_key nlsa) nlsa.ls_seq_no
          (time_to_expire t nlsa.orig_router nlsa.expiration_time_point)).0
    | some chk ↦ if ltb chk.ls_seq_no nlsa.ls_seq_no then update_name_lsa s chk nlsa else s
  ]

  unfoldable pub build_and_install_own_name_lsa : Nlsr Name D → Nlsr Name D
  unfolding install_name_lsa
  build_and_install_own_name_lsa s =
      let nlsa =
        new_name_lsa s.conf.router_prefix ((s.sequencing_manager.name_lsa_seq + 1) % 2 ^ 32)
          (get_lsa_expiration_time_point s) s.name_prefix_list in
      install_name_lsa
        (record s { sequencing_manager = increase_name_lsa_seq s.sequencing_manager }) nlsa

  unfoldable pub remove_name_lsa : Nlsr Name D → Name → Nlsr Name D × Bool
  unfolding remove_origins
  remove_name_lsa s key = elim (find name_lsa_key key s.lsdb.name_lsdb) [
    | some chk ↦
        let t : Nlsr Name D =
          if is_foreign s chk.orig_router
          then remove_origins (remove_origin s chk.orig_router chk.orig_router) chk.orig_router
              chk.npl
          else s in
        (
          lsdb_changed (record t {
            lsdb = record (t.lsdb) { name_lsdb = erase name_lsa_key key t.lsdb.name_lsdb };
          }),
          true,
        )
    | none ↦ (s, false)
  ]

  unfoldable pub does_name_lsa_exist : Nlsr Name D → Name → Bool
  unfolding find_name_lsa
  does_name_lsa_exist s key = elim (find_name_lsa s key) [ none ↦ false | some _ ↦ true ]

  -- The refresh of this router's own LSA.
  unfoldable pub refresh_name_lsa : Nlsr Name D → Name → NameLsa Name → Nlsr Name D
  refresh_name_lsa s key chk =
      let seq_no = (chk.ls_seq_no + 1) % 2 ^ 32 in
      let t : Nlsr Name D = record (lsdb_changed s) {
        sequencing_manager = set_name_lsa_seq s.sequencing_manager seq_no;
      } in
      let (u, event) =
        schedule_name_lsa_expiration t (name_lsa_key chk) seq_no
          (record { ahead = t.lsdb.lsa_refresh_time; behind = 0 }) in
      publish (record u {
        lsdb = record (u.lsdb) {
          name_lsdb =
              modify name_lsa_key key
                (λ x. record x {
                  lsa = record (x.lsa) {
                    ls_seq_no = seq_no;
                    expiration_time_point = get_lsa_expiration_time_point s;
                    expiring_event_id = some event;
                  };
                })
                u.lsdb.name_lsdb;
        };
      })

  -- `exprireOrRefreshNameLsa`: an event for another sequence number than the stored one is stale.
  unfoldable pub expire_or_refresh : Nlsr Name D → Name → ℕ → Nlsr Name D
  unfolding find_name_lsa refresh_name_lsa remove_name_lsa
  expire_or_refresh s key seq_no = elim (find_name_lsa s key) [
    | none ↦ s
    | some chk ↦
        if chk.ls_seq_no == seq_no
        then (if chk.orig_router == s.lsdb.this_router_prefix
            then refresh_name_lsa s key chk
            else (remove_name_lsa s key).0)
        else s
  ]
