-- ===== src/NamePrefixTable/Changes.antt =====
-- Changes of one name's next hops in the name prefix table, and what the FIB must be told for the
-- two to stay in agreement.
use ndnproject.Prelude.{
  Bool-cases, Double, Eq, List, NdnName, [], ap, arith, false, if◌then◌else◌, inl, inr, length, ltb,
  nat_eq, none, refl, some, str_eq, subst, suc, sym, take, zero, ℕ, ◌++◌, ◌==◌, ◌∷◌, ◌≡◌,
}
use ndnproject.Fib
use ndnproject.Fib.{hops_to_install, fib_name}
use ndnproject.Fib.Table
use ndnproject.Fib.Table.{find-remove, remove-IsValid}
use ndnproject.Fib.Update.{Installs, update-Installs}
use ndnproject.Keyed.{find, modify, erase, Distinct}
use ndnproject.Keyed.Laws.{
  find-push, find-modify, find-erase_self, find-erase_ne, Distinct-push, Distinct-modify,
  Distinct-erase,
}
use ndnproject.NamePrefixTable.{fib_update, fib_remove}
use ndnproject.NextHop
use ndnproject.NextHop.{NexthopList, add_next_hops}
use ndnproject.Nlsr.{Nlsr}
use ndnproject.Routes.{
  RoutingTableEntry, NamePrefixTableEntry, entry_prefix, refresh_hops, add_routing_table_entry,
  collect_hops,
}
use ndnproject.Sorting

module _ {D : Type 0} ⦃d : Double D⦄ where
  pub sort-nil : NextHop.sort {D = D} [] ≡ []
  unfolding NextHop.sort Sorting.sort
  sort-nil = refl

  pub take-nil : (k : ℕ) → take {A = NextHop.NextHop D} k [] ≡ []
  take-nil zero = refl
  take-nil (suc k) = refl

  pub hops_to_install-nil : (max_faces : ℕ) → hops_to_install {D = D} max_faces [] ≡ []
  unfolding hops_to_install add_next_hops
  hops_to_install-nil m = rw (sort-nil, take-nil)

  pub length-pos : (l : NexthopList D) → ltb 0 (length l) ≡ false → l ≡ []
  length-pos [] h = refl
  length-pos (x ∷ l) h = absurd (ground arith)

module _ {Name D : Type 0} ⦃e : Eq Name⦄ ⦃n : NdnName Name⦄ ⦃d : Double D⦄ where
  -- The next hops of a name, none if it is not in the table.
  unfoldable pub hops_of : List (NamePrefixTableEntry Name D) → Name → NexthopList D
  hops_of t k = elim (find entry_prefix k t) [ none ↦ [] | some x ↦ x.nexthop_list ]

  pub hops_of-absent :
      (t : List (NamePrefixTableEntry Name D)) (k : Name)
      → find entry_prefix k t ≡ none
      → hops_of t k ≡ []
  unfolding hops_of
  hops_of-absent t k miss = ground arith

  pub record Agrees (s : Nlsr Name D) : Type 0 where
    pub one_per_name : Distinct entry_prefix s.name_prefix_table
    pub fib_valid : Table.IsValid s.fib
    pub installs :
        (k : Name)
        → Installs
            (hops_to_install s.conf.max_faces_per_prefix (hops_of s.name_prefix_table k))
            (find fib_name k s.fib.table)

  -- The table `t'` is `t` with other next hops for one name.
  abbrev pub Sets :
      List (NamePrefixTableEntry Name D)
      → Name
      → NexthopList D
      → List (NamePrefixTableEntry Name D)
      → Type 0
  Sets t name hops t' =
      Distinct entry_prefix t'
      × ((k : Name) → hops_of t' k ≡ (if k == name then hops else hops_of t k))

  module _ (s : Nlsr Name D) (a : Agrees s) (name : Name) (hops : NexthopList D)
      (t : List (NamePrefixTableEntry Name D)) (sets : Sets s.name_prefix_table name hops t) where
    pub fib_update-Agrees : Agrees (fib_update (record s { name_prefix_table = t }) name hops)
    unfolding fib_update
    fib_update-Agrees =
        let max_faces = s.conf.max_faces_per_prefix in
        let (valid, here, others) =
          update-Installs s.fib s.adjacency_list max_faces s.now name hops a.fib_valid in
        record {
          one_per_name = sets.0;
          fib_valid = valid;
          installs = λ k. elim (Bool-cases (k == name)) [
            | inl same ↦
                let is : k ≡ name = (e.beq_iff k name).0 same in
                rw (sets.1 k, same)
                  (subst
                    (λ j. Installs (hops_to_install max_faces hops) (
                      find fib_name j
                        (Fib.update s.fib s.adjacency_list max_faces s.now name hops).table))
                    (sym is) here)
            | inr other ↦
                rw (sets.1 k, other, others k (λ is. ground (arith, e.beq_iff k name)))
                  (a.installs k)
          ];
        }

    pub fib_remove-Agrees :
        hops ≡ [] → Agrees (fib_remove (record s { name_prefix_table = t }) name)
    unfolding fib_remove
    fib_remove-Agrees none_left = record {
      one_per_name = sets.0;
      fib_valid = remove-IsValid s.fib s.adjacency_list name a.fib_valid;
      installs = λ k. elim (Bool-cases (k == name)) [
        | inl same ↦
            rw
              (
                sets.1 k,
                same,
                find-remove s.fib s.adjacency_list name k a.fib_valid,
                same,
                none_left,
              )
              (hops_to_install-nil s.conf.max_faces_per_prefix)
        | inr other ↦
            rw (sets.1 k, other, find-remove s.fib s.adjacency_list name k a.fib_valid, other)
              (a.installs k)
      ];
    }

    pub idle-Agrees :
        hops ≡ hops_of s.name_prefix_table name → Agrees (record s { name_prefix_table = t })
    idle-Agrees same_hops = record {
      one_per_name = sets.0;
      fib_valid = a.fib_valid;
      installs = λ k.
          let before : hops_of t k ≡ hops_of s.name_prefix_table k = elim (Bool-cases (k == name)) [
            | inl same ↦
                ground
                  (arith, sets.1 k, ap (hops_of s.name_prefix_table) ((e.beq_iff k name).0 same))
            | inr other ↦ ground (arith, sets.1 k)
          ] in
          rw before (a.installs k);
    }

  pub push-Sets :
      (t : List (NamePrefixTableEntry Name D)) (name : Name) (x : NamePrefixTableEntry Name D)
      → Distinct entry_prefix t
      → find entry_prefix name t ≡ none
      → x.name_prefix ≡ name
      → Sets t name x.nexthop_list (t ++ x ∷ [])
  unfolding hops_of
  push-Sets t name x dt miss is =
      let miss' : find entry_prefix x.name_prefix t ≡ none = rw is miss in
      (
        Distinct-push entry_prefix t x miss' dt,
        λ k. ground (
          arith,
          find-push entry_prefix k t x miss',
          e.beq_iff k name,
          e.beq_iff x.name_prefix k,
        ),
      )

  abbrev pub renewed :
      NamePrefixTableEntry Name D → NamePrefixTableEntry Name D → NamePrefixTableEntry Name D
  renewed y x = record x { rte_list = y.rte_list; nexthop_list = y.nexthop_list }

  pub modify-Sets :
      (t : List (NamePrefixTableEntry Name D)) (name : Name) (old y : NamePrefixTableEntry Name D)
      → Distinct entry_prefix t
      → find entry_prefix name t ≡ some old
      → Sets t name y.nexthop_list (modify entry_prefix name (renewed y) t)
  unfolding hops_of
  modify-Sets t name old y dt hit = (
    Distinct-modify entry_prefix (renewed y) (λ x. refl) name t dt,
    λ k. ground (arith, find-modify entry_prefix (renewed y) (λ x. refl) name k t),
  )

  pub erase-Sets :
      (t : List (NamePrefixTableEntry Name D)) (name : Name)
      → Distinct entry_prefix t
      → Sets t name [] (erase entry_prefix name t)
  unfolding hops_of
  erase-Sets t name dt = (
    Distinct-erase entry_prefix name t dt,
    λ k. ground (
      arith,
      e.beq_iff k name,
      find-erase_self entry_prefix name t dt,
      find-erase_ne entry_prefix name k t,
    ),
  )

  pub prefix-refresh :
      (x : NamePrefixTableEntry Name D) (r : RoutingTableEntry Name D)
      → (refresh_hops (add_routing_table_entry x r)).name_prefix ≡ x.name_prefix
  unfolding refresh_hops add_routing_table_entry
  prefix-refresh x r = ground arith

  -- The hops of a new entry whose only route has none.
  pub hops-no_route :
      (name : Name) (r : RoutingTableEntry Name D)
      → r.nexthop_list ≡ []
      → (refresh_hops (
          add_routing_table_entry
            (record { name_prefix = name; rte_list = []; nexthop_list = [] })
            r)).nexthop_list
        ≡ []
  unfolding refresh_hops add_routing_table_entry find collect_hops add_next_hops
  hops-no_route name r none_there = rw (none_there, sort-nil)

  abbrev pub fresh_entry : Name → RoutingTableEntry Name D → NamePrefixTableEntry Name D
  fresh_entry name r =
      refresh_hops (
        add_routing_table_entry (record { name_prefix = name; rte_list = []; nexthop_list = [] }) r)
