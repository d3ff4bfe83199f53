-- ===== src/Hyperbolic.antt =====
-- src/route/routing-table-calculator.cpp: routes by the distance that coordinates give. A double that
-- is -1 stands for an unknown distance or radius, as in the source.
use ndnproject.Prelude.{
  Bool, Double, Eq, List, NdnName, Option, Str, [], false, if◌then◌else◌, map, nat_eq, none, not,
  some, str_eq, true, ℕ, ◌&&◌, ◌==◌, ◌∷◌,
}
use ndnproject.Adjacency.{Adjacent, AdjacencyList, is_inactive}
use ndnproject.Calculator.{up_to}
use ndnproject.Keyed.{find}
use ndnproject.Lsa.{CoordinateLsa, coordinate_lsa_key, coordinate_type}
use ndnproject.LinkState.{router_name}
use ndnproject.NextHop.{NextHop}
use ndnproject.RouterMap.{RouterMap, get_mapping_no_by_router_name}
use ndnproject.Routes.{RoutingTable, add_next_hop_to_table, add_next_hop_to_dry_table}

module _ {D : Type 0} ⦃d : Double D⦄ where
  -- `==` of two numbers.
  unfoldable pub double_equal : D → D → Bool
  double_equal a b = not (d.lt a b) && not (d.lt b a)

  -- `UNKNOWN_DISTANCE` and `UNKNOWN_RADIUS`.
  abbrev pub unknown : D
  unknown = d.neg (d.of_ℕ 1)

  -- The angle between two directions.
  unfoldable pub angle : D → D → D
  angle src_theta dest_theta =
      let diff_theta = d.abs (d.sub src_theta dest_theta) in
      if d.lt d.pi diff_theta then d.sub (d.mul (d.of_ℕ 2) d.pi) diff_theta else diff_theta

  unfoldable pub distance_of_lsas :
      {Name : Type 0} → CoordinateLsa Name D → CoordinateLsa Name D → D
  unfolding angle double_equal
  distance_of_lsas src_lsa dest_lsa =
      let diff_theta = angle src_lsa.cor_theta dest_lsa.cor_theta in
      let src_radius = src_lsa.cor_rad in
      let dest_radius = dest_lsa.cor_rad in
      if double_equal src_radius unknown && double_equal dest_radius unknown
      then unknown
      else if double_equal diff_theta (d.of_ℕ 0)
      then d.abs (d.sub src_radius dest_radius)
      else d.acosh (
          d.sub (d.mul (d.cosh src_radius) (d.cosh dest_radius))
            (d.mul (d.mul (d.sinh src_radius) (d.sinh dest_radius)) (d.cos diff_theta)))

module _ {Name D : Type 0} ⦃e : Eq Name⦄ ⦃n : NdnName Name⦄ ⦃d : Double D⦄ where
  -- `getHyperbolicDistance`.
  unfoldable pub get_hyperbolic_distance : List (CoordinateLsa Name D) → Name → Name → D
  unfolding distance_of_lsas
  get_hyperbolic_distance cor_lsdb src dest =
      elim (find coordinate_lsa_key (n.append src coordinate_type) cor_lsdb) [
        | none ↦ unknown
        | some src_lsa ↦ elim (find coordinate_lsa_key (n.append dest coordinate_type) cor_lsdb) [
          | none ↦ unknown
          | some dest_lsa ↦ distance_of_lsas src_lsa dest_lsa
        ]
      ]

  -- `HyperbolicRoutingCalculator::addNextHop`; the first argument is `m_isDryRun`.
  unfoldable pub add_hyperbolic_next_hop :
      Bool → RoutingTable Name D → Name → Str → D → RoutingTable Name D
  unfolding add_next_hop_to_table add_next_hop_to_dry_table
  add_hyperbolic_next_hop is_dry_run rt dest face_uri cost =
      let hop : NextHop D = record {
        connecting_face_uri = face_uri;
        route_cost = cost;
        is_hyperbolic = true;
      } in
      if is_dry_run
      then add_next_hop_to_dry_table rt dest hop
      else add_next_hop_to_table rt dest hop

  -- One router of the inner loop of `calculatePaths`.
  unfoldable pub add_distance :
      Bool
      → RouterMap Name
      → List (CoordinateLsa Name D)
      → Option ℕ
      → ℕ
      → Name
      → Str
      → RoutingTable Name D
      → ℕ
      → RoutingTable Name D
  unfolding router_name get_hyperbolic_distance double_equal add_hyperbolic_next_hop
  add_distance is_dry_run map cor_lsdb this_router src src_router_name src_face_uri rt dest =
      let is_this_router : Bool = elim this_router [ some i ↦ dest == i | none ↦ false ] in
      let dest_router_name = router_name map dest in
      let distance = get_hyperbolic_distance cor_lsdb src_router_name dest_router_name in
      if not is_this_router && not (dest == src)
      then (if double_equal distance unknown
          then rt
          else add_hyperbolic_next_hop is_dry_run rt dest_router_name src_face_uri distance)
      else rt

  unfoldable pub add_distances :
      Bool
      → RouterMap Name
      → List (CoordinateLsa Name D)
      → Option ℕ
      → ℕ
      → Name
      → Str
      → RoutingTable Name D
      → List ℕ
      → RoutingTable Name D
  unfolding add_distance
  add_distances is_dry_run map cor_lsdb this_router src name uri rt [] = rt
  add_distances is_dry_run map cor_lsdb this_router src name uri rt (dest ∷ dests) =
      add_distances is_dry_run map cor_lsdb this_router src name uri
        (add_distance is_dry_run map cor_lsdb this_router src name uri rt dest) dests

  -- One neighbor of the outer loop.
  unfoldable pub add_paths_by :
      ℕ
      → Bool
      → Name
      → RouterMap Name
      → List (CoordinateLsa Name D)
      → RoutingTable Name D
      → Adjacent Name D
      → RoutingTable Name D
  unfolding get_mapping_no_by_router_name add_hyperbolic_next_hop add_distances up_to
  add_paths_by n_routers is_dry_run this_router_name map cor_lsdb rt adj =
      let this_router = get_mapping_no_by_router_name map this_router_name in
      if is_inactive adj.status
      then rt
      else if adj.name == this_router_name
      then rt
      else let rt' =
          add_hyperbolic_next_hop is_dry_run rt adj.name adj.connecting_face_uri (d.of_ℕ 0) in
        elim (get_mapping_no_by_router_name map adj.name) [
          | none ↦ rt'
          | some src ↦
              add_distances is_dry_run map cor_lsdb this_router src adj.name adj.connecting_face_uri
                rt' (up_to n_routers)
        ]

  -- `HyperbolicRoutingCalculator::calculatePaths`.
  unfoldable pub calculate_paths :
      ℕ
      → Bool
      → Name
      → RouterMap Name
      → List (CoordinateLsa Name D)
      → RoutingTable Name D
      → AdjacencyList Name D
      → RoutingTable Name D
  unfolding add_paths_by
  calculate_paths n_routers is_dry_run this_router_name map cor_lsdb rt [] = rt
  calculate_paths n_routers is_dry_run this_router_name map cor_lsdb rt (adj ∷ neighbors) =
      calculate_paths n_routers is_dry_run this_router_name map cor_lsdb
        (add_paths_by n_routers is_dry_run this_router_name map cor_lsdb rt adj) neighbors
