-- ===== src/Calculation.antt =====
-- src/route/routing-table.cpp: `RoutingTable::calculate`, which fills the routing table from the LSDB
-- and has the name prefix table take the new routes.
pub mod Outcome
use ndnproject.Prelude.{Bool, Double, Eq, NdnName, false, if◌then◌else◌, length, not, true, ℕ}
use ndnproject.Hyperbolic
use ndnproject.LinkState
use ndnproject.Lsa.{adjacency_type}
use ndnproject.Lsdb.Adjacencies.{does_adj_lsa_exist}
use ndnproject.NamePrefixTable.{update_with_new_route}
use ndnproject.Nlsr.{Nlsr, HyperbolicState, off, on, dry_run, schedule_routing_table_calculation}
use ndnproject.RouterMap
use ndnproject.RouterMap.{RouterMap}
use ndnproject.Routes.{RoutingTable, clear_routing_table, clear_dry_routing_table}

module _ {Name D : Type 0} ⦃e : Eq Name⦄ ⦃n : NdnName Name⦄ ⦃d : Double D⦄ where
  abbrev pub router_map : Nlsr Name D → RouterMap Name
  router_map s = RouterMap.create_from_adj_lsdb RouterMap.reset s.lsdb.adj_lsdb

  -- `getMapSize`.
  abbrev pub map_size : Nlsr Name D → ℕ
  map_size s = length (router_map s).table

  unfoldable pub calculate_ls_routing_table :
      Nlsr Name D → RoutingTable Name D → RoutingTable Name D
  unfolding LinkState.calculate_path
  calculate_ls_routing_table s rt =
      LinkState.calculate_path (map_size s) (router_map s) s.conf.router_prefix
        s.conf.max_faces_per_prefix s.adjacency_list s.lsdb.adj_lsdb rt

  -- `calculateHypRoutingTable` and `calculateHypDryRoutingTable`.
  unfoldable pub calculate_hyp_table :
      Bool → Nlsr Name D → RoutingTable Name D → RoutingTable Name D
  unfolding Hyperbolic.calculate_paths
  calculate_hyp_table is_dry_run s rt =
      Hyperbolic.calculate_paths (map_size s) is_dry_run s.conf.router_prefix (router_map s)
        s.lsdb.cor_lsdb rt s.adjacency_list

  -- The calculations that the configuration asks for.
  unfoldable pub calculate_tables :
      HyperbolicState → Nlsr Name D → RoutingTable Name D → RoutingTable Name D
  unfolding calculate_ls_routing_table calculate_hyp_table
  calculate_tables off s rt = calculate_ls_routing_table s rt
  calculate_tables on s rt = calculate_hyp_table false s rt
  calculate_tables dry_run s rt = calculate_hyp_table true s (calculate_ls_routing_table s rt)

  unfoldable pub clear_tables : RoutingTable Name D → RoutingTable Name D
  unfolding clear_routing_table clear_dry_routing_table
  clear_tables rt = clear_dry_routing_table (clear_routing_table rt)

  -- What `calculate` does to the tables while its flag is set.
  unfoldable pub calculate_routes : Nlsr Name D → Nlsr Name D
  unfolding does_adj_lsa_exist calculate_tables clear_tables update_with_new_route
  calculate_routes s =
      let cleared = clear_tables s.routing_table in
      if does_adj_lsa_exist s (n.append s.conf.router_prefix adjacency_type)
      then (if not s.is_build_adj_lsa_scheduled
          then update_with_new_route
              (record s { routing_table = calculate_tables s.conf.hyperbolic_state s cleared })
          else s)
      else update_with_new_route (record s { routing_table = cleared })

  -- `RoutingTable::calculate`.
  unfoldable pub calculate : Nlsr Name D → Nlsr Name D
  unfolding calculate_routes schedule_routing_table_calculation
  calculate s =
      if not s.is_routing_table_calculating
      then record (calculate_routes (record s { is_routing_table_calculating = true })) {
        is_route_calculation_scheduled = false;
        is_routing_table_calculating = false;
      }
      else schedule_routing_table_calculation s
