-- ===== src/Routes.antt =====
-- src/route/routing-table-entry.hpp, the tables of src/route/routing-table.hpp and
-- src/route/routing-table.cpp, and src/route/name-prefix-table-entry.hpp and
-- src/route/name-prefix-table-entry.cpp: the data that routes are kept in.
use ndnproject.Prelude.{Double, Eq, List, Option, [], nat_eq, none, some, str_eq, ℕ, ◌++◌, ◌∷◌}
use ndnproject.Keyed.{find, modify, erase}
use ndnproject.NextHop
use ndnproject.NextHop.{NextHop, NexthopList, add_next_hop, add_next_hops}

pub record RoutingTableEntry (Name D : Type 0) : Type 0 where
  pub destination : Name
  pub nexthop_list : NexthopList D

abbrev pub rte_destination : {Name D : Type 0} → RoutingTableEntry Name D → Name
rte_destination r = r.destination

abbrev pub new_entry : {Name D : Type 0} → Name → RoutingTableEntry Name D
new_entry dest = record { destination = dest; nexthop_list = [] }

pub record RoutingTable (Name D : Type 0) : Type 0 where
  pub r_table : List (RoutingTableEntry Name D)
  pub dry_table : List (RoutingTableEntry Name D)
  pub routing_calc_interval : ℕ

pub record NamePrefixTableEntry (Name D : Type 0) : Type 0 where
  pub name_prefix : Name
  pub rte_list : List (RoutingTableEntry Name D)
  pub nexthop_list : NexthopList D

abbrev pub entry_prefix : {Name D : Type 0} → NamePrefixTableEntry Name D → Name
entry_prefix x = x.name_prefix

module _ {Name D : Type 0} ⦃e : Eq Name⦄ ⦃d : Double D⦄ where
  -- `addNextHop` and `addNextHopToDryTable`, of one of the two tables.
  unfoldable pub add_next_hop_to :
      List (RoutingTableEntry Name D) → Name → NextHop D → List (RoutingTableEntry Name D)
  add_next_hop_to table dest_router nh = elim (find rte_destination dest_router table) [
    | none ↦ table ++ record { destination = dest_router; nexthop_list = add_next_hop [] nh } ∷ []
    | some _ ↦
        modify rte_destination dest_router
          (λ r. record r { nexthop_list = add_next_hop r.nexthop_list nh }) table
  ]

  unfoldable pub add_next_hop_to_table :
      RoutingTable Name D → Name → NextHop D → RoutingTable Name D
  unfolding add_next_hop_to
  add_next_hop_to_table rt dest nh = record rt { r_table = add_next_hop_to rt.r_table dest nh }

  unfoldable pub add_next_hop_to_dry_table :
      RoutingTable Name D → Name → NextHop D → RoutingTable Name D
  unfolding add_next_hop_to
  add_next_hop_to_dry_table rt dest nh = record rt {
    dry_table = add_next_hop_to rt.dry_table dest nh;
  }

  unfoldable pub find_routing_table_entry :
      RoutingTable Name D → Name → Option (RoutingTableEntry Name D)
  find_routing_table_entry rt dest_router = find rte_destination dest_router rt.r_table

  unfoldable pub clear_routing_table : RoutingTable Name D → RoutingTable Name D
  clear_routing_table rt = record rt { r_table = [] }

  unfoldable pub clear_dry_routing_table : RoutingTable Name D → RoutingTable Name D
  clear_dry_routing_table rt = record rt { dry_table = [] }

  -- The loops of `generateNhlfromRteList`.
  unfoldable pub collect_hops : NexthopList D → List (RoutingTableEntry Name D) → NexthopList D
  collect_hops l [] = l
  collect_hops l (r ∷ rtes) = collect_hops (add_next_hops l r.nexthop_list) rtes

  unfoldable pub generate_nhl_from_rte_list :
      NamePrefixTableEntry Name D → NamePrefixTableEntry Name D
  unfolding collect_hops
  generate_nhl_from_rte_list x = record x { nexthop_list = collect_hops [] x.rte_list }

  unfoldable pub remove_routing_table_entry :
      NamePrefixTableEntry Name D → RoutingTableEntry Name D → NamePrefixTableEntry Name D
  remove_routing_table_entry x rte = record x {
    rte_list = erase rte_destination rte.destination x.rte_list;
  }

  unfoldable pub add_routing_table_entry :
      NamePrefixTableEntry Name D → RoutingTableEntry Name D → NamePrefixTableEntry Name D
  add_routing_table_entry x rte = elim (find rte_destination rte.destination x.rte_list) [
    | none ↦ record x { rte_list = x.rte_list ++ rte ∷ [] }
    | some _ ↦ record x {
      rte_list =
          modify rte_destination rte.destination
            (λ r. record r { nexthop_list = add_next_hops [] rte.nexthop_list }) x.rte_list;
    }
  ]

  -- `generateNhlfromRteList` and the sort that always follows it.
  unfoldable pub refresh_hops : NamePrefixTableEntry Name D → NamePrefixTableEntry Name D
  unfolding generate_nhl_from_rte_list
  refresh_hops x =
      let y = generate_nhl_from_rte_list x in
      record y { nexthop_list = NextHop.sort y.nexthop_list }
