-- ===== src/NamePrefixTable/Frame.antt =====
-- src/route/name-prefix-table.cpp: what its operations leave alone: the link state database, the
-- parameters, the clock and what was asked of the scheduler.
use ndnproject.Prelude.{
  Bool-cases, Double, Eq, NdnName, Option-cases, inl, inr, length, ltb, nat_eq, refl, str_eq, ◌==◌,
  ◌≡◌,
}
use ndnproject.Keyed.{find}
use ndnproject.NamePrefixTable.{
  add_entry, remove_entry, add_origin, remove_origin, fib_update, fib_remove, route_to,
}
use ndnproject.Nlsr.{Nlsr}
use ndnproject.Routes.{
  RoutingTableEntry, entry_prefix, refresh_hops, add_routing_table_entry,
  remove_routing_table_entry,
}

module _ {Name D : Type 0} ⦃e : Eq Name⦄ ⦃n : NdnName Name⦄ ⦃d : Double D⦄ where
  abbrev pub SameLsdb : Nlsr Name D → Nlsr Name D → Type 0
  SameLsdb s t = (t.lsdb ≡ s.lsdb) × (t.conf ≡ s.conf)

  pub add_entry-SameLsdb :
      (s : Nlsr Name D) (name : Name) (r : RoutingTableEntry Name D)
      → SameLsdb s (add_entry s name r)
  unfolding add_entry fib_update fib_remove
  add_entry-SameLsdb s name r = elim (Option-cases (find entry_prefix name s.name_prefix_table)) [
    | inl miss ↦ elim (Bool-cases (ltb 0 (length r.nexthop_list))) [
      | inl some_hop ↦ rw (miss, add_entry, some_hop) (refl, refl)
      | inr no_hop ↦ rw (miss, add_entry, no_hop) (refl, refl)
    ]
    | inr (old, hit) ↦
        elim (Bool-cases
          (ltb 0 (length (refresh_hops (add_routing_table_entry old r)).nexthop_list))) [
            | inl some_hop ↦ rw (hit, add_entry, some_hop) (refl, refl)
            | inr no_hop ↦ rw (hit, add_entry, no_hop) (refl, refl)
          ]
  ]

  pub remove_entry-SameLsdb :
      (s : Nlsr Name D) (name : Name) (r : RoutingTableEntry Name D)
      → SameLsdb s (remove_entry s name r)
  unfolding remove_entry fib_update fib_remove
  remove_entry-SameLsdb s name r =
      elim (Option-cases (find entry_prefix name s.name_prefix_table)) [
        | inl miss ↦ rw (miss, remove_entry) (refl, refl)
        | inr (old, hit) ↦
            elim (Bool-cases (length (remove_routing_table_entry old r).rte_list == 0)) [
              | inl last ↦ rw (hit, remove_entry, last) (refl, refl)
              | inr more ↦ rw (hit, remove_entry, more) (refl, refl)
            ]
      ]

  pub add_origin-SameLsdb : (s : Nlsr Name D) (name r : Name) → SameLsdb s (add_origin s name r)
  unfolding add_origin
  add_origin-SameLsdb s name r = add_entry-SameLsdb s name (route_to s r)

  pub remove_origin-SameLsdb :
      (s : Nlsr Name D) (name r : Name) → SameLsdb s (remove_origin s name r)
  unfolding remove_origin
  remove_origin-SameLsdb s name r = remove_entry-SameLsdb s name (route_to s r)

  -- What is kept of the builds of adjacency LSAs stays.
  abbrev pub SameBuild : Nlsr Name D → Nlsr Name D → Type 0
  SameBuild s t =
      (t.adj_build_count ≡ s.adj_build_count)
      × (t.is_build_adj_lsa_scheduled ≡ s.is_build_adj_lsa_scheduled)

  pub add_entry-SameBuild :
      (s : Nlsr Name D) (name : Name) (r : RoutingTableEntry Name D)
      → SameBuild s (add_entry s name r)
  unfolding add_entry fib_update fib_remove
  add_entry-SameBuild s name r = elim (Option-cases (find entry_prefix name s.name_prefix_table)) [
    | inl miss ↦ elim (Bool-cases (ltb 0 (length r.nexthop_list))) [
      | inl some_hop ↦ rw (miss, add_entry, some_hop) (refl, refl)
      | inr no_hop ↦ rw (miss, add_entry, no_hop) (refl, refl)
    ]
    | inr (old, hit) ↦
        elim (Bool-cases
          (ltb 0 (length (refresh_hops (add_routing_table_entry old r)).nexthop_list))) [
            | inl some_hop ↦ rw (hit, add_entry, some_hop) (refl, refl)
            | inr no_hop ↦ rw (hit, add_entry, no_hop) (refl, refl)
          ]
  ]

  pub remove_entry-SameBuild :
      (s : Nlsr Name D) (name : Name) (r : RoutingTableEntry Name D)
      → SameBuild s (remove_entry s name r)
  unfolding remove_entry fib_update fib_remove
  remove_entry-SameBuild s name r =
      elim (Option-cases (find entry_prefix name s.name_prefix_table)) [
        | inl miss ↦ rw (miss, remove_entry) (refl, refl)
        | inr (old, hit) ↦
            elim (Bool-cases (length (remove_routing_table_entry old r).rte_list == 0)) [
              | inl last ↦ rw (hit, remove_entry, last) (refl, refl)
              | inr more ↦ rw (hit, remove_entry, more) (refl, refl)
            ]
      ]

  pub add_origin-SameBuild : (s : Nlsr Name D) (name r : Name) → SameBuild s (add_origin s name r)
  unfolding add_origin
  add_origin-SameBuild s name r = add_entry-SameBuild s name (route_to s r)

  pub remove_origin-SameBuild :
      (s : Nlsr Name D) (name r : Name) → SameBuild s (remove_origin s name r)
  unfolding remove_origin
  remove_origin-SameBuild s name r = remove_entry-SameBuild s name (route_to s r)
