-- ===== src/NamePrefixTable/Refresh.antt =====
-- src/route/name-prefix-table.cpp: after `updateWithNewRoute` every origin of every name has the
-- routes of the routing table.
use ndnproject.Prelude.{
  ==_refl, ==_symm, All, Bool, Bool-cases, Double, Eq, List, NdnName, [], ap, arith, false,
  if◌then◌else◌, inl, inr, nat_eq, none, refl, some, str_eq, subst, sym, true, ◌&&◌, ◌==◌, ◌||◌,
  ◌∙◌, ◌∷◌, ◌≡◌,
}
use ndnproject.Keyed.{find, Distinct}
use ndnproject.Keyed.Members.{self-found}
use ndnproject.NamePrefixTable.{add_origin, update_origins, update_entries, update_with_new_route}
use ndnproject.NamePrefixTable.RouteIn.{route_in, routes_of, add_origin-route_in}
use ndnproject.NextHop.{NexthopList}
use ndnproject.Nlsr.{Nlsr}
use ndnproject.Routes.{RoutingTableEntry, NamePrefixTableEntry, entry_prefix, rte_destination}

module _ {Name D : Type 0} ⦃e : Eq Name⦄ ⦃n : NdnName Name⦄ ⦃d : Double D⦄ where
  -- The name has the origin.
  abbrev HasOrigin : List (NamePrefixTableEntry Name D) → Name → Name → Type 0
  HasOrigin t name dest = (hops : NexthopList D) × (route_in t name dest ≡ some hops)

  add_origin-HasOrigin :
      (s : Nlsr Name D) (name dest k j : Name)
      → HasOrigin s.name_prefix_table name dest
      → HasOrigin s.name_prefix_table k j
      → HasOrigin (add_origin s name dest).name_prefix_table k j
  add_origin-HasOrigin s name dest k j (old, there) (hops, is) =
      let step = (add_origin-route_in s name dest old there).0 k j in
      elim (Bool-cases (k == name && j == dest)) [
        | inl new ↦ (routes_of s.routing_table dest, step ∙ rw new refl)
        | inr kept ↦ (hops, step ∙ rw kept is)
      ]

  abbrev HaveOrigin :
      List (NamePrefixTableEntry Name D) → Name → List (RoutingTableEntry Name D) → Type 0
  HaveOrigin t name rtes = All (λ r. HasOrigin t name r.destination) rtes

  add_origin-HaveOrigin :
      (s : Nlsr Name D) (name dest k : Name) (rtes : List (RoutingTableEntry Name D))
      → HasOrigin s.name_prefix_table name dest
      → HaveOrigin s.name_prefix_table k rtes
      → HaveOrigin (add_origin s name dest).name_prefix_table k rtes
  add_origin-HaveOrigin s name dest k [] o os = tt
  add_origin-HaveOrigin s name dest k (r ∷ rtes) o os = (
    add_origin-HasOrigin s name dest k r.destination o os.0,
    add_origin-HaveOrigin s name dest k rtes o os.1,
  )

  -- What a walk over origins of one name leaves.
  pub record Refreshed (covered : Name → Name → Bool) (s t : Nlsr Name D) : Type 0 where
    pub routes :
        (k j : Name)
        → route_in t.name_prefix_table k j ≡ (
            if covered k j
            then some (routes_of s.routing_table j)
            else route_in s.name_prefix_table k j)
    pub routing : t.routing_table ≡ s.routing_table

  Refreshed-trans :
      (c c' : Name → Name → Bool) (s t u : Nlsr Name D)
      → Refreshed c s t
      → Refreshed c' t u
      → Refreshed (λ k j. c k j || c' k j) s u
  Refreshed-trans c c' s t u a b = record {
    routes = λ k j.
        let b' : route_in u.name_prefix_table k j ≡ (
            if c' k j
            then some (routes_of s.routing_table j)
            else route_in t.name_prefix_table k j) =
          b.routes k j ∙ rw (a.routing) refl in
        ground (arith, a.routes k j, b');
    routing = b.routing ∙ a.routing;
  }

  add_origin-Refreshed :
      (s : Nlsr Name D) (name dest : Name)
      → HasOrigin s.name_prefix_table name dest
      → Refreshed (λ k j. name == k && dest == j) s (add_origin s name dest)
  add_origin-Refreshed s name dest (old, there) =
      let (step, routing) = add_origin-route_in s name dest old there in
      record {
        routes = λ k j. elim (Bool-cases (j == dest)) [
          | inl here ↦
              let is : routes_of s.routing_table dest ≡ routes_of s.routing_table j =
                ap (routes_of s.routing_table) (sym ((e.beq_iff j dest).0 here)) in
              ground (arith, step k j, is, ==_symm k name, ==_symm j dest)
          | inr there ↦ ground (arith, step k j, ==_symm k name, ==_symm j dest)
        ];
        routing = routing;
      }

  abbrev is_origin : List (RoutingTableEntry Name D) → Name → Bool
  is_origin [] j = false
  is_origin (r ∷ rtes) j = r.destination == j || is_origin rtes j

  update_origins-Refreshed :
      (s : Nlsr Name D) (name : Name) (rtes : List (RoutingTableEntry Name D))
      → HaveOrigin s.name_prefix_table name rtes
      → Refreshed (λ k j. name == k && is_origin rtes j) s (update_origins s name rtes)
  unfolding update_origins
  update_origins-Refreshed s name [] os = record { routes = λ k j. ground arith; routing = refl }
  update_origins-Refreshed s name (r ∷ rtes) os =
      let t = add_origin s name r.destination in
      let here = add_origin-Refreshed s name r.destination os.0 in
      let rest =
        update_origins-Refreshed t name rtes
          (add_origin-HaveOrigin s name r.destination name rtes os.0 os.1) in
      let both = Refreshed-trans _ _ s t (update_origins t name rtes) here rest in
      record { routes = λ k j. ground (arith, both.routes k j); routing = both.routing }

  abbrev is_covered : List (NamePrefixTableEntry Name D) → Name → Name → Bool
  is_covered [] k j = false
  is_covered (x ∷ xs) k j = (x.name_prefix == k && is_origin x.rte_list j) || is_covered xs k j

  abbrev AllHaveOrigin :
      List (NamePrefixTableEntry Name D) → List (NamePrefixTableEntry Name D) → Type 0
  AllHaveOrigin t xs = All (λ x. HaveOrigin t x.name_prefix x.rte_list) xs

  Refreshed-HasOrigin :
      (c : Name → Name → Bool) (s t : Nlsr Name D) (k j : Name)
      → Refreshed c s t
      → HasOrigin s.name_prefix_table k j
      → HasOrigin t.name_prefix_table k j
  Refreshed-HasOrigin c s t k j r (hops, is) = elim (Bool-cases (c k j)) [
    | inl new ↦ (routes_of s.routing_table j, r.routes k j ∙ rw new refl)
    | inr kept ↦ (hops, r.routes k j ∙ rw kept is)
  ]

  Refreshed-HaveOrigin :
      (c : Name → Name → Bool) (s t : Nlsr Name D) (k : Name)
      (rtes : List (RoutingTableEntry Name D))
      → Refreshed c s t
      → HaveOrigin s.name_prefix_table k rtes
      → HaveOrigin t.name_prefix_table k rtes
  Refreshed-HaveOrigin c s t k [] r os = tt
  Refreshed-HaveOrigin c s t k (x ∷ rtes) r os =
      (Refreshed-HasOrigin c s t k x.destination r os.0, Refreshed-HaveOrigin c s t k rtes r os.1)

  Refreshed-AllHaveOrigin :
      (c : Name → Name → Bool) (s t : Nlsr Name D) (xs : List (NamePrefixTableEntry Name D))
      → Refreshed c s t
      → AllHaveOrigin s.name_prefix_table xs
      → AllHaveOrigin t.name_prefix_table xs
  Refreshed-AllHaveOrigin c s t [] r os = tt
  Refreshed-AllHaveOrigin c s t (x ∷ xs) r os = (
    Refreshed-HaveOrigin c s t x.name_prefix x.rte_list r os.0,
    Refreshed-AllHaveOrigin c s t xs r os.1,
  )

  update_entries-Refreshed :
      (s : Nlsr Name D) (xs : List (NamePrefixTableEntry Name D))
      → AllHaveOrigin s.name_prefix_table xs
      → Refreshed (is_covered xs) s (update_entries s xs)
  unfolding update_entries
  update_entries-Refreshed s [] os = record { routes = λ k j. refl; routing = refl }
  update_entries-Refreshed s (x ∷ xs) os =
      let t = update_origins s x.name_prefix x.rte_list in
      let here = update_origins-Refreshed s x.name_prefix x.rte_list os.0 in
      Refreshed-trans _ (is_covered xs) s t (update_entries t xs) here
        (update_entries-Refreshed t xs (Refreshed-AllHaveOrigin _ s t xs here os.1))

  origin-find :
      (l : List (RoutingTableEntry Name D)) (j : Name)
      → is_origin l j ≡ true
      → (r : RoutingTableEntry Name D) × (find rte_destination j l ≡ some r)
  unfolding find
  origin-find [] j h = absurd (ground arith)
  origin-find (r ∷ l) j h = elim (Bool-cases (r.destination == j)) [
    | inl here ↦ (r, rw here refl)
    | inr there ↦ let (r', found) = origin-find l j (ground arith) in (r', rw there found)
  ]

  no_origin-find :
      (l : List (RoutingTableEntry Name D)) (j : Name)
      → is_origin l j ≡ false
      → find rte_destination j l ≡ none
  unfolding find
  no_origin-find [] j h = refl
  no_origin-find (r ∷ l) j h = ground (arith, no_origin-find l j)

  -- What no walk covers is not there.
  covered-none :
      (xs : List (NamePrefixTableEntry Name D)) (k j : Name)
      → is_covered xs k j ≡ false
      → route_in xs k j ≡ none
  unfolding route_in find
  covered-none [] k j h = refl
  covered-none (x ∷ xs) k j h = elim (Bool-cases (x.name_prefix == k)) [
    | inl here ↦ rw (here, route_in, no_origin-find x.rte_list j (ground arith)) refl
    | inr there ↦ rw (there, route_in) (covered-none xs k j (ground arith))
  ]

  origin-HasOrigin :
      (t : List (NamePrefixTableEntry Name D)) (k j : Name) (l : List (RoutingTableEntry Name D))
      → HaveOrigin t k l
      → is_origin l j ≡ true
      → HasOrigin t k j
  origin-HasOrigin t k j [] os h = absurd (ground arith)
  origin-HasOrigin t k j (r ∷ l) os h = elim (Bool-cases (r.destination == j)) [
    | inl here ↦ subst (HasOrigin t k) ((e.beq_iff r.destination j).0 here) os.0
    | inr there ↦ origin-HasOrigin t k j l os.1 (ground arith)
  ]

  covered-HasOrigin :
      (t xs : List (NamePrefixTableEntry Name D)) (k j : Name)
      → AllHaveOrigin t xs
      → is_covered xs k j ≡ true
      → HasOrigin t k j
  covered-HasOrigin t [] k j os h = absurd (ground arith)
  covered-HasOrigin t (x ∷ xs) k j os h =
      elim (Bool-cases (x.name_prefix == k && is_origin x.rte_list j)) [
        | inl here ↦
            subst (λ k. HasOrigin t k j) ((e.beq_iff x.name_prefix k).0 (ground arith))
              (origin-HasOrigin t x.name_prefix j x.rte_list os.0 (ground arith))
        | inr there ↦ covered-HasOrigin t xs k j os.1 (ground arith)
      ]

  are_origins :
      (l rs : List (RoutingTableEntry Name D))
      → ((j : Name) → is_origin rs j ≡ true → is_origin l j ≡ true)
      → All (λ r. is_origin l r.destination ≡ true) rs
  are_origins l [] sub = tt
  are_origins l (r ∷ rs) sub = (
    sub r.destination (ground (arith, ==_refl r.destination)),
    are_origins l rs (λ j h. sub j (ground arith)),
  )

  entry-HaveOrigin :
      (t : List (NamePrefixTableEntry Name D)) (x : NamePrefixTableEntry Name D)
      (rs : List (RoutingTableEntry Name D))
      → find entry_prefix x.name_prefix t ≡ some x
      → All (λ r. is_origin x.rte_list r.destination ≡ true) rs
      → HaveOrigin t x.name_prefix rs
  unfolding route_in
  entry-HaveOrigin t x [] hit os = tt
  entry-HaveOrigin t x (r ∷ rs) hit os =
      let (r', found) = origin-find x.rte_list r.destination os.0 in
      ((r'.nexthop_list, rw (hit, found, route_in) refl), entry-HaveOrigin t x rs hit os.1)

  entries-AllHaveOrigin :
      (t xs : List (NamePrefixTableEntry Name D))
      → All (λ x. find entry_prefix x.name_prefix t ≡ some x) xs
      → AllHaveOrigin t xs
  entries-AllHaveOrigin t [] hits = tt
  entries-AllHaveOrigin t (x ∷ xs) hits = (
    entry-HaveOrigin t x x.rte_list hits.0 (are_origins x.rte_list x.rte_list (λ j h. h)),
    entries-AllHaveOrigin t xs hits.1,
  )

  -- If no two entries of the name prefix table have one name, an update leaves each name the origins that
  -- it had, each with the routing table's next hops for it, and leaves the routing table as it is.
  pub update_with_new_route-route_in :
      (s : Nlsr Name D)
      → Distinct entry_prefix s.name_prefix_table
      → (k j : Name)
      → (route_in (update_with_new_route s).name_prefix_table k j
          ≡ elim (route_in s.name_prefix_table k j) [
            | none ↦ none
            | some _ ↦ some (routes_of s.routing_table j)
          ])
        × ((update_with_new_route s).routing_table ≡ s.routing_table)
  unfolding update_with_new_route
  update_with_new_route-route_in s distinct k j =
      let t = s.name_prefix_table in
      let os = entries-AllHaveOrigin t t (self-found entry_prefix t distinct) in
      let r = update_entries-Refreshed s t os in
      elim (Bool-cases (is_covered t k j)) [
        | inl covered ↦
            let (hops, is) = covered-HasOrigin t t k j os covered in
            (r.routes k j ∙ rw (covered, is) refl, r.routing)
        | inr left ↦ (r.routes k j ∙ rw (left, covered-none t k j left) refl, r.routing)
      ]
