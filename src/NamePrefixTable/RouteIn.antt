-- ===== src/NamePrefixTable/RouteIn.antt =====
-- src/route/name-prefix-table.cpp: the routes that a name has from one of its origins, and what
-- adding that origin again does to them.
use ndnproject.Prelude.{
  Bool-cases, Double, Eq, List, NdnName, Option, Option-cases, [], arith, if◌then◌else◌, inl, inr,
  length, ltb, nat_eq, none, refl, some, str_eq, ◌&&◌, ◌==◌, ◌∙◌, ◌≡◌,
}
use ndnproject.Keyed.{find, modify}
use ndnproject.Keyed.Laws.{find-modify, key-find}
use ndnproject.NamePrefixTable.{add_entry, add_origin, route_to, fib_update, fib_remove}
use ndnproject.NamePrefixTable.Changes.{renewed}
use ndnproject.NextHop.{NexthopList, add_next_hops}
use ndnproject.Nlsr.{Nlsr}
use ndnproject.Routes.{
  RoutingTable, RoutingTableEntry, NamePrefixTableEntry, entry_prefix, rte_destination,
  refresh_hops, add_routing_table_entry, generate_nhl_from_rte_list, find_routing_table_entry,
}

module _ {Name D : Type 0} ⦃e : Eq Name⦄ ⦃d : Double D⦄ where
  -- The next hops that a name has from one of its origins.
  unfoldable pub route_in :
      List (NamePrefixTableEntry Name D) → Name → Name → Option (NexthopList D)
  route_in t name dest = elim (find entry_prefix name t) [
    | none ↦ none
    | some x ↦ elim (find rte_destination dest x.rte_list) [
      | none ↦ none
      | some r ↦ some r.nexthop_list
    ]
  ]

  -- The next hops to take for a router from a routing table.
  unfoldable pub routes_of : RoutingTable Name D → Name → NexthopList D
  routes_of rt dest = elim (find_routing_table_entry rt dest) [
    | none ↦ []
    | some r ↦ add_next_hops [] r.nexthop_list
  ]

module _ {Name D : Type 0} ⦃e : Eq Name⦄ ⦃n : NdnName Name⦄ ⦃d : Double D⦄ where
  route_to-destination : (s : Nlsr Name D) (dest : Name) → (route_to s dest).destination ≡ dest
  unfolding route_to find_routing_table_entry
  route_to-destination s dest =
      elim (Option-cases (find rte_destination dest s.routing_table.r_table)) [
        | inl miss ↦ rw (miss, route_to) refl
        | inr (r, hit) ↦
            rw (hit, route_to) (key-find rte_destination dest s.routing_table.r_table r hit)
      ]

  route_to-hops :
      (s : Nlsr Name D) (dest : Name)
      → add_next_hops [] (route_to s dest).nexthop_list ≡ routes_of s.routing_table dest
  unfolding route_to routes_of add_next_hops
  route_to-hops s dest = elim (Option-cases (find_routing_table_entry s.routing_table dest)) [
    | inl miss ↦ rw (miss, route_to, routes_of) refl
    | inr (r, hit) ↦ rw (hit, route_to, routes_of) refl
  ]

  add_entry-table :
      (s : Nlsr Name D) (name : Name) (rte : RoutingTableEntry Name D)
      (x : NamePrefixTableEntry Name D)
      → find entry_prefix name s.name_prefix_table ≡ some x
      → ((add_entry s name rte).name_prefix_table
          ≡ modify entry_prefix name
              (renewed (refresh_hops (add_routing_table_entry x rte)))
              s.name_prefix_table)
        × ((add_entry s name rte).routing_table ≡ s.routing_table)
  unfolding add_entry fib_update fib_remove
  add_entry-table s name rte x hit =
      elim (Bool-cases
        (ltb 0 (length (refresh_hops (add_routing_table_entry x rte)).nexthop_list))) [
          | inl some_hop ↦ rw (hit, add_entry, some_hop) (refl, refl)
          | inr no_hop ↦ rw (hit, add_entry, no_hop) (refl, refl)
        ]

  refresh-rte_list :
      (x : NamePrefixTableEntry Name D) (rte r : RoutingTableEntry Name D)
      → find rte_destination rte.destination x.rte_list ≡ some r
      → (refresh_hops (add_routing_table_entry x rte)).rte_list
        ≡ modify rte_destination rte.destination
            (λ r. record r { nexthop_list = add_next_hops [] rte.nexthop_list })
            x.rte_list
  unfolding refresh_hops generate_nhl_from_rte_list add_routing_table_entry
  refresh-rte_list x rte r hit = rw (hit, add_routing_table_entry) refl

  hits-route_in :
      (t : List (NamePrefixTableEntry Name D)) (k j : Name) (x : NamePrefixTableEntry Name D)
      → find entry_prefix k t ≡ some x
      → route_in t k j
        ≡ elim (find rte_destination j x.rte_list) [ none ↦ none | some r ↦ some r.nexthop_list ]
  unfolding route_in
  hits-route_in t k j x hit = rw (hit, route_in) refl

  modify-route_in :
      (t : List (NamePrefixTableEntry Name D)) (name dest : Name)
      (x y : NamePrefixTableEntry Name D) (r : RoutingTableEntry Name D) (hops : NexthopList D)
      → find entry_prefix name t ≡ some x
      → find rte_destination dest x.rte_list ≡ some r
      → y.rte_list ≡ modify rte_destination dest (λ r. record r { nexthop_list = hops }) x.rte_list
      → (k j : Name)
      → route_in (modify entry_prefix name (renewed y) t) k j
        ≡ (if k == name && j == dest then some hops else route_in t k j)
  unfolding route_in
  modify-route_in t name dest x y r hops hit found list k j = elim (Bool-cases (k == name)) [
    | inr other ↦
        rw (find-modify entry_prefix (renewed y) (λ x. refl) name k t, other, route_in) refl
    | inl same ↦
        let is : k ≡ name = (e.beq_iff k name).0 same in
        let hit_k : find entry_prefix k t ≡ some x = rw is hit in
        let step =
          find-modify rte_destination (λ r. record r { nexthop_list = hops }) (λ r. refl) dest j
            x.rte_list in
        elim (Bool-cases (j == dest)) [
          | inl here ↦
              rw
                (
                  find-modify entry_prefix (renewed y) (λ x. refl) name k t,
                  same,
                  hit,
                  list,
                  step,
                  here,
                  found,
                  route_in,
                )
                refl
          | inr there ↦
              rw
                (
                  find-modify entry_prefix (renewed y) (λ x. refl) name k t,
                  same,
                  hit,
                  list,
                  step,
                  there,
                  hit_k,
                  route_in,
                )
                refl
        ]
  ]

  -- One origin of a name that has it.
  pub add_origin-route_in :
      (s : Nlsr Name D) (name dest : Name) (old : NexthopList D)
      → route_in s.name_prefix_table name dest ≡ some old
      → ((k j : Name)
          → route_in (add_origin s name dest).name_prefix_table k j ≡ (
              if k == name && j == dest
              then some (routes_of s.routing_table dest)
              else route_in s.name_prefix_table k j))
        × ((add_origin s name dest).routing_table ≡ s.routing_table)
  unfolding add_origin route_in
  add_origin-route_in s name dest old there =
      elim (Option-cases (find entry_prefix name s.name_prefix_table)) [
        | inl miss ↦ absurd (ground arith)
        | inr (x, hit) ↦ elim (Option-cases (find rte_destination dest x.rte_list)) [
          | inl miss ↦ absurd (ground arith)
          | inr (r, found) ↦
              let rte = route_to s dest in
              let is_dest : rte.destination ≡ dest = route_to-destination s dest in
              let (table, routing) = add_entry-table s name rte x hit in
              let found' : find rte_destination rte.destination x.rte_list ≡ some r =
                rw is_dest found in
              let y = refresh_hops (add_routing_table_entry x rte) in
              let list' : y.rte_list
                  ≡ modify rte_destination dest
                      (λ r. record r { nexthop_list = routes_of s.routing_table dest }) x.rte_list =
                refresh-rte_list x rte r found' ∙ rw (is_dest, route_to-hops s dest) refl in
              (
                λ k j. rw table (
                    modify-route_in s.name_prefix_table name dest x y r
                      (routes_of s.routing_table dest) hit found list' k j),
                routing,
              )
        ]
      ]
