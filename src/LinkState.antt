-- ===== src/LinkState.antt =====
-- src/route/routing-table-calculator.cpp: the next hops of the link state calculation, and what it
-- writes into the routing table. A router that has no number is `none`, as is the result that no
-- next hop was found. A name that is not in the map is the empty name.
pub mod Parents
pub mod NextHops
use ndnproject.Prelude.{
  Double, Eq, List, NdnName, Option, [], if◌then◌else◌, nat_eq, none, some, str_eq, suc, zero, ℕ,
  ◌==◌, ◌∷◌,
}
use ndnproject.Adjacency.{AdjacencyList, get_adjacent}
use ndnproject.Calculator.{Matrix, up_to, make_adj_matrix, adjust_ad_matrix, get_links}
use ndnproject.Dijkstra.{Paths, do_dijkstra_path_calculation}
use ndnproject.Lsa.{AdjLsa}
use ndnproject.NextHop.{NextHop, new_next_hop}
use ndnproject.RouterMap.{RouterMap, get_router_name_by_mapping_no, get_mapping_no_by_router_name}
use ndnproject.Routes.{RoutingTable, add_next_hop_to_table}

-- The loop of `getLsNextHop`: the next hop found so far and the router that the loop has come to. It
-- is given as many turns as the first argument says.
unfoldable pub follow_parents : ℕ → Paths → Option ℕ → ℕ → Option ℕ × ℕ
follow_parents zero p next_hop dest = (next_hop, dest)
follow_parents (suc turns) p next_hop dest = elim (p.parent dest) [
  | none ↦ (next_hop, dest)
  | some u ↦ follow_parents turns p (some dest) u
]

-- `getLsNextHop`. Parents are nearer to the source, so the distance bounds the number of turns.
unfoldable pub get_ls_next_hop : Paths → ℕ → ℕ → Option ℕ
unfolding follow_parents
get_ls_next_hop p dest source =
    let (next_hop, last) = follow_parents (suc (p.distance dest)) p none dest in
    if last == source then next_hop else none

-- `getRouterNameByMappingNo`, with the empty name for `none`.
unfoldable pub router_name :
    {Name : Type 0} ⦃e : Eq Name⦄ ⦃n : NdnName Name⦄ → RouterMap Name → ℕ → Name
unfolding get_router_name_by_mapping_no
router_name ⦃e⦄ ⦃n⦄ p_map i = elim (get_router_name_by_mapping_no p_map i) [
  | some r ↦ r
  | none ↦ n.empty
]

module _ {Name D : Type 0} ⦃e : Eq Name⦄ ⦃n : NdnName Name⦄ ⦃d : Double D⦄ where
  -- One turn of `addAllLsNextHopsToRoutingTable`.
  unfoldable pub add_ls_next_hop :
      AdjacencyList Name D
      → RouterMap Name
      → Paths
      → ℕ
      → RoutingTable Name D
      → ℕ
      → RoutingTable Name D
  unfolding get_ls_next_hop router_name get_adjacent new_next_hop add_next_hop_to_table
  add_ls_next_hop adjs p_map p source_router rt i =
      if i == source_router then rt else elim (get_ls_next_hop p i source_router) [
        | none ↦ rt
        | some next_hop_router ↦
            let face =
              (get_adjacent adjs (router_name p_map next_hop_router)).connecting_face_uri in
            add_next_hop_to_table rt (router_name p_map i)
              (new_next_hop face (d.of_ℕ (p.distance i)))
      ]

  unfoldable pub add_ls_next_hops :
      AdjacencyList Name D
      → RouterMap Name
      → Paths
      → ℕ
      → RoutingTable Name D
      → List ℕ
      → RoutingTable Name D
  unfolding add_ls_next_hop
  add_ls_next_hops adjs p_map p source_router rt [] = rt
  add_ls_next_hops adjs p_map p source_router rt (i ∷ is) =
      add_ls_next_hops adjs p_map p source_router (add_ls_next_hop adjs p_map p source_router rt i)
        is

  -- `addAllLsNextHopsToRoutingTable`.
  unfoldable pub add_all_ls_next_hops :
      ℕ
      → AdjacencyList Name D
      → RouterMap Name
      → Paths
      → ℕ
      → RoutingTable Name D
      → RoutingTable Name D
  unfolding add_ls_next_hops up_to
  add_all_ls_next_hops n_routers adjs p_map p source_router rt =
      add_ls_next_hops adjs p_map p source_router rt (up_to n_routers)

  -- The loop over the links of the source, for paths over one of them at a time.
  unfoldable pub add_paths_over :
      ℕ
      → AdjacencyList Name D
      → RouterMap Name
      → ℕ
      → Matrix
      → RoutingTable Name D
      → List (ℕ × ℕ)
      → RoutingTable Name D
  unfolding adjust_ad_matrix do_dijkstra_path_calculation add_all_ls_next_hops
  add_paths_over n_routers adjs p_map source_router m rt [] = rt
  add_paths_over n_routers adjs p_map source_router m rt ((link, link_cost) ∷ links) =
      let m' = adjust_ad_matrix n_routers m source_router link link_cost in
      add_paths_over n_routers adjs p_map source_router m'
        (add_all_ls_next_hops n_routers adjs p_map
          (do_dijkstra_path_calculation n_routers m' (some source_router)) source_router rt)
        links

  -- `LinkStateRoutingTableCalculator::calculatePath`. With no number for this router nothing is added.
  unfoldable pub calculate_path :
      ℕ
      → RouterMap Name
      → Name
      → ℕ
      → AdjacencyList Name D
      → List (AdjLsa Name D)
      → RoutingTable Name D
      → RoutingTable Name D
  unfolding make_adj_matrix get_mapping_no_by_router_name do_dijkstra_path_calculation
      add_all_ls_next_hops get_links add_paths_over
  calculate_path n_routers p_map router_prefix max_faces_per_prefix adjs lsas rt =
      let m = make_adj_matrix n_routers p_map lsas in
      elim (get_mapping_no_by_router_name p_map router_prefix) [
        | none ↦ rt
        | some source_router ↦
            if max_faces_per_prefix == 1
            then add_all_ls_next_hops n_routers adjs p_map
                (do_dijkstra_path_calculation n_routers m (some source_router)) source_router rt
            else add_paths_over n_routers adjs p_map source_router m rt
                (get_links n_routers m source_router)
      ]
