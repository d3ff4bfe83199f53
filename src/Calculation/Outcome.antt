-- ===== src/Calculation/Outcome.antt =====
-- src/route/routing-table.cpp: what a calculation leaves behind.
use ndnproject.Prelude.{
  Bool, Bool-cases, Double, Eq, NdnName, Option, [], ap, arith, false, if_both, if_false, if_true,
  inl, inr, nat_eq, none, not, refl, some, str_eq, subst, sym, true, ◌&&◌, ◌∙◌, ◌≡◌,
}
use ndnproject.Calculation.{calculate, calculate_routes, calculate_tables, clear_tables}
use ndnproject.Keyed.{Distinct}
use ndnproject.Keyed
use ndnproject.Lsa.{adjacency_type}
use ndnproject.Lsdb.Adjacencies.{does_adj_lsa_exist}
use ndnproject.Lsdb.Agreement.{Untouched-Agrees, calculation-Untouched}
use ndnproject.NamePrefixTable.{update_with_new_route}
use ndnproject.NamePrefixTable.Agreement.{update_with_new_route-Agrees}
use ndnproject.NamePrefixTable.Changes.{Agrees}
use ndnproject.NamePrefixTable.Refresh.{update_with_new_route-route_in}
use ndnproject.NamePrefixTable.RouteIn.{route_in, routes_of}
use ndnproject.NextHop.{NexthopList}
use ndnproject.Nlsr.{Nlsr, schedule_routing_table_calculation}
use ndnproject.Routes.{
  RoutingTable, entry_prefix, find_routing_table_entry, clear_routing_table,
  clear_dry_routing_table,
}

module _ {Name D : Type 0} ⦃e : Eq Name⦄ ⦃n : NdnName Name⦄ ⦃d : Double D⦄ where
  -- The router has an adjacency LSA of its own.
  abbrev pub has_own_adj_lsa : Nlsr Name D → Bool
  has_own_adj_lsa s = does_adj_lsa_exist s (n.append s.conf.router_prefix adjacency_type)

  calculate_routes-Agrees : (s : Nlsr Name D) → Agrees s → Agrees (calculate_routes s)
  unfolding calculate_routes
  calculate_routes-Agrees s a =
      if_both Agrees (has_own_adj_lsa s)
        (if_both Agrees (not s.is_build_adj_lsa_scheduled)
          (update_with_new_route-Agrees _ (
            Untouched-Agrees s
              (record s {
                routing_table =
                    calculate_tables s.conf.hyperbolic_state s (clear_tables s.routing_table);
              })
              (refl, refl, refl) a))
          a)
        (update_with_new_route-Agrees _ (
          Untouched-Agrees s (record s { routing_table = clear_tables s.routing_table })
            (refl, refl, refl) a))

  pub calculate-Agrees : (s : Nlsr Name D) → Agrees s → Agrees (calculate s)
  unfolding calculate
  calculate-Agrees s a =
      let begun : Nlsr Name D = record s { is_routing_table_calculating = true } in
      if_both Agrees (not s.is_routing_table_calculating)
        (Untouched-Agrees (calculate_routes begun) _ (refl, refl, refl)
          (calculate_routes-Agrees begun (Untouched-Agrees s begun (refl, refl, refl) a)))
        (Untouched-Agrees s (schedule_routing_table_calculation s) (calculation-Untouched s) a)

  -- The names' routes in `t` are those of the routing table `t` has, for the origins that names had in `s`.
  abbrev pub TakesRoutes : Nlsr Name D → Nlsr Name D → Type 0
  TakesRoutes s t =
      (k j : Name)
      → route_in t.name_prefix_table k j ≡ elim (route_in s.name_prefix_table k j) [
        | none ↦ none
        | some _ ↦ some (routes_of t.routing_table j)
      ]

  -- The next hops `hops` for a router, where there were some.
  abbrev renewed_hops : Nlsr Name D → Name → Name → NexthopList D → Option (NexthopList D)
  renewed_hops s k j hops = elim (route_in s.name_prefix_table k j) [
    | none ↦ none
    | some _ ↦ some hops
  ]

  update-TakesRoutes :
      (s : Nlsr Name D)
      → Distinct entry_prefix s.name_prefix_table
      → TakesRoutes s (update_with_new_route s)
  update-TakesRoutes s distinct k j =
      let (routes, same) = update_with_new_route-route_in s distinct k j in
      routes ∙ ap (λ (rt : RoutingTable Name D). renewed_hops s k j (routes_of rt j)) (sym same)

  calculate_routes-TakesRoutes :
      (s : Nlsr Name D)
      → Distinct entry_prefix s.name_prefix_table
      → (has_own_adj_lsa s && s.is_build_adj_lsa_scheduled) ≡ false
      → TakesRoutes s (calculate_routes s)
  unfolding calculate_routes
  calculate_routes-TakesRoutes s distinct ready = elim (Bool-cases (has_own_adj_lsa s)) [
    | inr missing ↦
        subst (TakesRoutes s) (sym (if_false (has_own_adj_lsa s) _ _ missing))
          (update-TakesRoutes (record s { routing_table = clear_tables s.routing_table }) distinct)
    | inl own ↦
        subst (TakesRoutes s)
          (sym (
            if_true (has_own_adj_lsa s) _ _ own
            ∙ if_true (not s.is_build_adj_lsa_scheduled) _ _ (ground arith)))
          (update-TakesRoutes
            (record s {
              routing_table =
                  calculate_tables s.conf.hyperbolic_state s (clear_tables s.routing_table);
            })
            distinct)
  ]

  -- A calculation that no other is under way of leaves no calculation scheduled or under way, and, unless
  -- the router has an adjacency LSA of its own and is to build another, leaves every name the origins that
  -- it had, each with the next hops that the routing table it leaves has for that origin. No two entries
  -- of the name prefix table may have one name.
  pub calculate-TakesRoutes :
      (s : Nlsr Name D)
      → s.is_routing_table_calculating ≡ false
      → Distinct entry_prefix s.name_prefix_table
      → (has_own_adj_lsa s && s.is_build_adj_lsa_scheduled) ≡ false
      → ((calculate s).is_route_calculation_scheduled ≡ false)
        × ((calculate s).is_routing_table_calculating ≡ false)
        × TakesRoutes s (calculate s)
  unfolding calculate
  calculate-TakesRoutes s free distinct ready =
      let begun : Nlsr Name D = record s { is_routing_table_calculating = true } in
      subst
        (λ t.
          (t.is_route_calculation_scheduled ≡ false)
          × (t.is_routing_table_calculating ≡ false)
          × TakesRoutes s t)
        (sym (if_true (not s.is_routing_table_calculating) _ _ (rw free refl)))
        (refl, refl, calculate_routes-TakesRoutes begun distinct ready)

  -- No name has a next hop.
  abbrev pub HasNoRoutes : Nlsr Name D → Nlsr Name D → Type 0
  HasNoRoutes s t =
      (t.routing_table.r_table ≡ [])
      × ((k j : Name)
          → route_in t.name_prefix_table k j
            ≡ elim (route_in s.name_prefix_table k j) [ none ↦ none | some _ ↦ some [] ])

  routes_of-empty : (rt : RoutingTable Name D) (j : Name) → rt.r_table ≡ [] → routes_of rt j ≡ []
  unfolding routes_of find_routing_table_entry Keyed.find
  routes_of-empty rt j is = rw (is, routes_of) refl

  update-HasNoRoutes :
      (s : Nlsr Name D)
      → Distinct entry_prefix s.name_prefix_table
      → s.routing_table.r_table ≡ []
      → HasNoRoutes s (update_with_new_route s)
  update-HasNoRoutes s distinct is = (
    ap (λ (rt : RoutingTable Name D). rt.r_table)
          (update_with_new_route-route_in s distinct s.conf.router_prefix s.conf.router_prefix).1
        ∙ is,
    λ k j.
        (update_with_new_route-route_in s distinct k j).0
        ∙ ap (renewed_hops s k j) (routes_of-empty s.routing_table j is),
  )

  -- A router with no adjacency LSA of its own is left with no routes: its routing table is empty, and
  -- every origin of every name has no next hops. No two entries of the name prefix table may have one
  -- name, and no calculation be under way.
  pub calculate_nowhere :
      (s : Nlsr Name D)
      → s.is_routing_table_calculating ≡ false
      → Distinct entry_prefix s.name_prefix_table
      → has_own_adj_lsa s ≡ false
      → ((calculate s).routing_table.r_table ≡ [])
        × ((k j : Name)
            → route_in (calculate s).name_prefix_table k j
              ≡ elim (route_in s.name_prefix_table k j) [ none ↦ none | some _ ↦ some [] ])
  unfolding calculate calculate_routes clear_tables clear_routing_table clear_dry_routing_table
  calculate_nowhere s free distinct missing =
      let begun : Nlsr Name D = record s { is_routing_table_calculating = true } in
      let cleared : Nlsr Name D = record begun { routing_table = clear_tables s.routing_table } in
      subst (HasNoRoutes s) (sym (if_true (not s.is_routing_table_calculating) _ _ (rw free refl)))
        (subst
          (λ (t : Nlsr Name D). HasNoRoutes s (record t {
            is_route_calculation_scheduled = false;
            is_routing_table_calculating = false;
          }))
          (sym (if_false (has_own_adj_lsa s) _ _ missing))
          (update-HasNoRoutes cleared distinct refl))
