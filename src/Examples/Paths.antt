-- ===== src/Examples/Paths.antt =====
-- The theorems on the calculation of routes at concrete inputs.
use ndnproject.Prelude.{
  Str, [], arith, false, nat_eq, none, refl, some, str_eq, suc, ℕ, ◌&&◌, ◌<◌, ◌∷◌, ◌≡◌,
}
use ndnproject.Calculation.{calculate}
use ndnproject.Calculation.Outcome.{
  has_own_adj_lsa, TakesRoutes, calculate-TakesRoutes, calculate_nowhere,
}
use ndnproject.Calculator.{Matrix, set, up_to}
use ndnproject.Dijkstra.{
  explore, sort_queue_by_distance, sort_from, sift, count, relax_all, relax, set_path,
  is_not_explored, no_paths, inf_distance, do_dijkstra_path_calculation,
}
use ndnproject.Examples.{router_a, router_b, router_c, idle, neighbors, route_b, routes}
use ndnproject.Instances.{str_name, whole_double}
use ndnproject.Keyed.{find, Distinct}
use ndnproject.LinkState.{follow_parents, get_ls_next_hop}
use ndnproject.LinkState.NextHops.{Begins, follow_parents-dijkstra, get_ls_next_hop-Begins}
use ndnproject.Lsa.{new_adj_lsa}
use ndnproject.Lsdb.Adjacencies.{does_adj_lsa_exist}
use ndnproject.NamePrefixTable.{update_with_new_route}
use ndnproject.NamePrefixTable.Refresh.{update_with_new_route-route_in}
use ndnproject.NamePrefixTable.RouteIn.{route_in, routes_of}
use ndnproject.Nlsr.{Nlsr}
use ndnproject.Routes.{entry_prefix}

-- A router 0, from which 2 is reached by way of 1 alone.
abbrev chain : Matrix
chain = set (set (λ i j. 0) 0 1 5) 1 2 4

far_distance : (do_dijkstra_path_calculation 3 chain (some 0)).distance 2 ≡ 9
unfolding do_dijkstra_path_calculation explore sort_queue_by_distance sort_from sift count relax_all
    relax set_path is_not_explored no_paths set up_to
far_distance = refl

far_reached : (do_dijkstra_path_calculation 3 chain (some 0)).distance 2 < inf_distance
far_reached = omega (arith, far_distance)

follow_parents-dijkstra_example :
    let p = do_dijkstra_path_calculation 3 chain (some 0) in
    p.parent (follow_parents (suc (p.distance 2)) p none 2).1 ≡ none
follow_parents-dijkstra_example = follow_parents-dijkstra 3 chain 0 2

get_ls_next_hop-Begins_example :
    let p = do_dijkstra_path_calculation 3 chain (some 0) in
    (next_hop : ℕ) × (get_ls_next_hop p 2 0 ≡ some next_hop)
    × Begins chain 0 2 (p.distance 2) next_hop
get_ls_next_hop-Begins_example = get_ls_next_hop-Begins 3 chain 0 2 refl far_reached

-- The name c is b's, with an old route to b.
abbrev named : Nlsr Str ℕ
named = record idle {
  name_prefix_table =
      record { name_prefix = router_c; rte_list = route_b ∷ []; nexthop_list = [] } ∷ [];
  routing_table = routes;
  is_build_adj_lsa_scheduled = false;
}

named-Distinct : Distinct (entry_prefix {Name = Str} {D = ℕ}) named.name_prefix_table
unfolding find
named-Distinct = (refl, tt)

named_alone : has_own_adj_lsa named ≡ false
unfolding does_adj_lsa_exist find
named_alone = refl

-- The same with an adjacency LSA of the router's own and one of b's.
abbrev linked : Nlsr Str ℕ
linked = record named {
  lsdb = record (idle.lsdb) {
    adj_lsdb =
        new_adj_lsa router_a 9 4000 1 neighbors ∷ new_adj_lsa router_b 9 4000 1 neighbors ∷ [];
  };
}

linked_ready : (has_own_adj_lsa linked && linked.is_build_adj_lsa_scheduled) ≡ false
linked_ready = ground arith

calculate-TakesRoutes_example :
    ((calculate linked).is_route_calculation_scheduled ≡ false)
    × ((calculate linked).is_routing_table_calculating ≡ false)
    × TakesRoutes linked (calculate linked)
calculate-TakesRoutes_example = calculate-TakesRoutes linked refl named-Distinct linked_ready

calculate_nowhere_example :
    ((calculate named).routing_table.r_table ≡ [])
    × ((k j : Str)
        → route_in (calculate named).name_prefix_table k j
          ≡ elim (route_in named.name_prefix_table k j) [ none ↦ none | some _ ↦ some [] ])
calculate_nowhere_example = calculate_nowhere named refl named-Distinct named_alone

update_with_new_route-route_in_example :
    (route_in (update_with_new_route named).name_prefix_table router_c router_b
      ≡ elim (route_in named.name_prefix_table router_c router_b) [
        | none ↦ none
        | some _ ↦ some (routes_of named.routing_table router_b)
      ])
    × ((update_with_new_route named).routing_table ≡ named.routing_table)
update_with_new_route-route_in_example =
    update_with_new_route-route_in named named-Distinct router_c router_b
