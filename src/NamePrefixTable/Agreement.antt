-- ===== src/NamePrefixTable/Agreement.antt =====
-- The FIB agrees with the name prefix table: after every operation of the table, each name has in
-- the FIB exactly the faces that its next hops in the table call for.
use ndnproject.Prelude.{
  Bool-cases, Double, Eq, List, NdnName, Option-cases, [], inl, inr, length, ltb, nat_eq, refl,
  str_eq, sym, ◌++◌, ◌==◌, ◌∙◌, ◌∷◌,
}
use ndnproject.Keyed.{find, modify, erase}
use ndnproject.NamePrefixTable.{
  add_entry, remove_entry, add_origin, remove_origin, update_origins, update_entries,
  update_with_new_route, route_to,
}
use ndnproject.Nlsr.{Nlsr}
use ndnproject.Routes.{
  RoutingTableEntry, NamePrefixTableEntry, entry_prefix, refresh_hops, add_routing_table_entry,
  remove_routing_table_entry,
}
use ndnproject.NamePrefixTable.Changes.{
  Agrees, hops_of-absent, length-pos, fib_update-Agrees, fib_remove-Agrees, idle-Agrees, push-Sets,
  renewed, modify-Sets, erase-Sets, prefix-refresh, hops-no_route, fresh_entry,
}

module _ {Name D : Type 0} ⦃e : Eq Name⦄ ⦃n : NdnName Name⦄ ⦃d : Double D⦄ where
  -- Adding a router's routing table entry to a name keeps the FIB in agreement with the name prefix
  -- table, if it was before.
  pub add_entry-Agrees :
      (s : Nlsr Name D) (name : Name) (r : RoutingTableEntry Name D)
      → Agrees s
      → Agrees (add_entry s name r)
  unfolding add_entry
  add_entry-Agrees s name r a =
      let t = s.name_prefix_table in
      elim (Option-cases (find entry_prefix name t)) [
        | inl miss ↦
            let x = fresh_entry name r in
            let sets = push-Sets t name x a.one_per_name miss (
              prefix-refresh (record { name_prefix = name; rte_list = []; nexthop_list = [] }) r) in
            elim (Bool-cases (ltb 0 (length r.nexthop_list))) [
              | inl some_hop ↦
                  rw (miss, add_entry, some_hop)
                    (fib_update-Agrees s a name x.nexthop_list (t ++ x ∷ []) sets)
              | inr no_hop ↦
                  rw (miss, add_entry, no_hop)
                    (idle-Agrees s a name x.nexthop_list (t ++ x ∷ []) sets (
                      hops-no_route name r (length-pos r.nexthop_list no_hop)
                      ∙ sym (hops_of-absent t name miss)))
            ]
        | inr (old, hit) ↦
            let y = refresh_hops (add_routing_table_entry old r) in
            let sets = modify-Sets t name old y a.one_per_name hit in
            elim (Bool-cases (ltb 0 (length y.nexthop_list))) [
              | inl some_hop ↦
                  rw (hit, add_entry, some_hop)
                    (fib_update-Agrees s a name y.nexthop_list
                      (modify entry_prefix name (renewed y) t) sets)
              | inr no_hop ↦
                  rw (hit, add_entry, no_hop)
                    (fib_remove-Agrees s a name y.nexthop_list
                      (modify entry_prefix name (renewed y) t) sets
                      (length-pos y.nexthop_list no_hop))
            ]
      ]

  -- Removing a router's routing table entry from a name keeps the FIB in agreement with the name prefix
  -- table, if it was before.
  pub remove_entry-Agrees :
      (s : Nlsr Name D) (name : Name) (r : RoutingTableEntry Name D)
      → Agrees s
      → Agrees (remove_entry s name r)
  unfolding remove_entry
  remove_entry-Agrees s name r a =
      let t = s.name_prefix_table in
      elim (Option-cases (find entry_prefix name t)) [
        | inl miss ↦ rw (miss, remove_entry) a
        | inr (old, hit) ↦
            let left = remove_routing_table_entry old r in
            let y = refresh_hops left in
            elim (Bool-cases (length left.rte_list == 0)) [
              | inl last ↦
                  rw (hit, remove_entry, last)
                    (fib_remove-Agrees s a name [] (erase entry_prefix name t)
                      (erase-Sets t name a.one_per_name) refl)
              | inr more ↦
                  rw (hit, remove_entry, more)
                    (fib_update-Agrees s a name y.nexthop_list
                      (modify entry_prefix name (renewed y) t)
                      (modify-Sets t name old y a.one_per_name hit))
            ]
      ]

  update_origins-Agrees :
      (s : Nlsr Name D) (name : Name) (rtes : List (RoutingTableEntry Name D))
      → Agrees s
      → Agrees (update_origins s name rtes)
  unfolding update_origins add_origin
  update_origins-Agrees s name [] a = a
  update_origins-Agrees s name (r ∷ rtes) a =
      update_origins-Agrees (add_origin s name r.destination) name rtes
        (add_entry-Agrees s name (route_to s r.destination) a)

  update_entries-Agrees :
      (s : Nlsr Name D) (entries : List (NamePrefixTableEntry Name D))
      → Agrees s
      → Agrees (update_entries s entries)
  unfolding update_entries
  update_entries-Agrees s [] a = a
  update_entries-Agrees s (x ∷ entries) a =
      update_entries-Agrees (update_origins s x.name_prefix x.rte_list) entries
        (update_origins-Agrees s x.name_prefix x.rte_list a)

  pub add_origin-Agrees :
      (s : Nlsr Name D) (name dest_router : Name)
      → Agrees s
      → Agrees (add_origin s name dest_router)
  unfolding add_origin
  add_origin-Agrees s name dest_router a = add_entry-Agrees s name (route_to s dest_router) a

  pub remove_origin-Agrees :
      (s : Nlsr Name D) (name dest_router : Name)
      → Agrees s
      → Agrees (remove_origin s name dest_router)
  unfolding remove_origin
  remove_origin-Agrees s name dest_router a = remove_entry-Agrees s name (route_to s dest_router) a

  -- Updating every entry of the name prefix table from the routing table keeps the FIB in agreement
  -- with it, if it was before.
  pub update_with_new_route-Agrees : (s : Nlsr Name D) → Agrees s → Agrees (update_with_new_route s)
  unfolding update_with_new_route
  update_with_new_route-Agrees s a = update_entries-Agrees s s.name_prefix_table a
