-- ===== src/NamePrefixTable.antt =====
-- src/route/name-prefix-table.cpp: the names that can be reached, each with the routers that
-- advertise it, and the FIB kept up with them.
pub mod Changes
pub mod Agreement
pub mod Frame
pub mod RouteIn
pub mod Refresh
use ndnproject.Prelude.{
  Double, Eq, List, NdnName, [], if◌then◌else◌, length, ltb, nat_eq, none, some, str_eq, ◌++◌, ◌==◌,
  ◌∷◌,
}
use ndnproject.Keyed.{find, modify, erase}
use ndnproject.Fib
use ndnproject.Nlsr.{Nlsr}
use ndnproject.Routes.{
  RoutingTableEntry, NamePrefixTableEntry, entry_prefix, rte_destination, new_entry,
  add_routing_table_entry, remove_routing_table_entry, refresh_hops, find_routing_table_entry,
}
use ndnproject.NextHop.{NexthopList}

module _ {Name D : Type 0} ⦃e : Eq Name⦄ ⦃n : NdnName Name⦄ ⦃d : Double D⦄ where
  -- `m_nlsr.getFib().update` and `remove`.
  unfoldable pub fib_update : Nlsr Name D → Name → NexthopList D → Nlsr Name D
  fib_update s name hops = record s {
    fib = Fib.update s.fib s.adjacency_list s.conf.max_faces_per_prefix s.now name hops;
  }

  unfoldable pub fib_remove : Nlsr Name D → Name → Nlsr Name D
  fib_remove s name = record s { fib = Fib.remove s.fib s.adjacency_list name }

  -- `addEntry(name, rte)`.
  unfoldable pub add_entry : Nlsr Name D → Name → RoutingTableEntry Name D → Nlsr Name D
  unfolding fib_update fib_remove
  add_entry s name rte = elim (find entry_prefix name s.name_prefix_table) [
    | none ↦
        let entry = refresh_hops (
          add_routing_table_entry (record { name_prefix = name; rte_list = []; nexthop_list = [] })
            rte) in
        let t : Nlsr Name D = record s { name_prefix_table = s.name_prefix_table ++ entry ∷ [] } in
        if ltb 0 (length rte.nexthop_list) then fib_update t name entry.nexthop_list else t
    | some old ↦
        let entry = refresh_hops (add_routing_table_entry old rte) in
        let t : Nlsr Name D = record s {
          name_prefix_table =
              modify entry_prefix name
                (λ x. record x { rte_list = entry.rte_list; nexthop_list = entry.nexthop_list })
                s.name_prefix_table;
        } in
        if ltb 0 (length entry.nexthop_list)
        then fib_update t name entry.nexthop_list
        else fib_remove t name
  ]

  -- `removeEntry(name, rte)`.
  unfoldable pub remove_entry : Nlsr Name D → Name → RoutingTableEntry Name D → Nlsr Name D
  unfolding fib_update fib_remove
  remove_entry s name rte = elim (find entry_prefix name s.name_prefix_table) [
    | none ↦ s
    | some old ↦
        let left = remove_routing_table_entry old rte in
        if length left.rte_list == 0
        then fib_remove
            (record s { name_prefix_table = erase entry_prefix name s.name_prefix_table }) name
        else let entry = refresh_hops left in
          fib_update
            (record s {
              name_prefix_table =
                  modify entry_prefix name
                    (λ x. record x { rte_list = entry.rte_list; nexthop_list = entry.nexthop_list })
                    s.name_prefix_table;
            })
            name entry.nexthop_list
  ]

  -- The routing table's entry of a router, or one with no next hops.
  unfoldable pub route_to : Nlsr Name D → Name → RoutingTableEntry Name D
  unfolding find_routing_table_entry
  route_to s dest_router = elim (find_routing_table_entry s.routing_table dest_router) [
    | some rte ↦ rte
    | none ↦ new_entry dest_router
  ]

  -- `addEntry(name, destRouter)` and `removeEntry(name, destRouter)`.
  unfoldable pub add_origin : Nlsr Name D → Name → Name → Nlsr Name D
  unfolding route_to add_entry
  add_origin s name dest_router = add_entry s name (route_to s dest_router)

  unfoldable pub remove_origin : Nlsr Name D → Name → Name → Nlsr Name D
  unfolding route_to remove_entry
  remove_origin s name dest_router = remove_entry s name (route_to s dest_router)

  -- The loops of `updateWithNewRoute`. They change no entry's name and no origin, so the lists that
  -- they walk are those from before.
  unfoldable pub update_origins : Nlsr Name D → Name → List (RoutingTableEntry Name D) → Nlsr Name D
  update_origins s name [] = s
  update_origins s name (r ∷ rtes) = update_origins (add_origin s name r.destination) name rtes

  unfoldable pub update_entries : Nlsr Name D → List (NamePrefixTableEntry Name D) → Nlsr Name D
  unfolding update_origins
  update_entries s [] = s
  update_entries s (x ∷ entries) =
      update_entries (update_origins s x.name_prefix x.rte_list) entries

  unfoldable pub update_with_new_route : Nlsr Name D → Nlsr Name D
  unfolding update_entries
  update_with_new_route s = update_entries s s.name_prefix_table
