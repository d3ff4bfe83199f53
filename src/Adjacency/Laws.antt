-- ===== src/Adjacency/Laws.antt =====
-- The neighbor list: one entry for each name, what a change of status reaches, and when an
-- adjacency LSA may be built.
use ndnproject.Prelude.{
  All, Double, Eq, NdnName, [], arith, false, if◌then◌else◌, length, nat_eq, none, refl, some,
  str_eq, true, ℕ, ◌==◌, ◌↔◌, ◌∷◌, ◌≡◌, ◌≤◌, ◌⊎◌,
}
use ndnproject.Keyed.{Distinct}
use ndnproject.Keyed.Laws.{find-push, find-modify, Distinct-push}
use ndnproject.Adjacency.{
  Status, unknown, is_active, Adjacent, AdjacencyList, adjacent_name, insert, add_adjacents,
  find_adjacent, set_status_of_neighbor, get_status_of_neighbor, neighbors_counted,
  is_adj_lsa_buildable, adjacent_equal, get_timed_out_interest_count, is_neighbor,
}

module _ {Name D : Type 0} ⦃e : Eq Name⦄ ⦃n : NdnName Name⦄ ⦃d : Double D⦄ where
  abbrev pub OnePerName : AdjacencyList Name D → Type 0
  OnePerName = Distinct adjacent_name

  pub insert-OnePerName :
      (l : AdjacencyList Name D) (a : Adjacent Name D) → OnePerName l → OnePerName (insert l a).0
  unfolding insert
  insert-OnePerName l a h = ground (arith, Distinct-push adjacent_name l a)

  -- Inserting all neighbors of a list into one with one entry for each name leaves one for each.
  pub add_adjacents-OnePerName :
      (l adl : AdjacencyList Name D) → OnePerName l → OnePerName (add_adjacents l adl)
  unfolding add_adjacents
  add_adjacents-OnePerName l [] h = h
  add_adjacents-OnePerName l (a ∷ adl) h =
      add_adjacents-OnePerName (insert l a).0 adl (insert-OnePerName l a h)

  -- The first entry of a name stays; a new name is found as it was given.
  pub find-insert :
      (l : AdjacencyList Name D) (a : Adjacent Name D) (k : Name)
      → find_adjacent k (insert l a).0 ≡ elim (find_adjacent a.name l) [
        | some _ ↦ find_adjacent k l
        | none ↦ if a.name == k then some a else find_adjacent k l
      ]
  unfolding insert
  find-insert l a k = ground (arith, find-push adjacent_name k l a)

  -- After a change of status the named neighbor has the new status if it is in the list, every other
  -- one has the status that it had, and all have the counters that they had.
  pub status-set :
      (l : AdjacencyList Name D) (k j : Name) (s : Status)
      → (get_status_of_neighbor (set_status_of_neighbor l k s) j ≡ (
          if j == k then (if is_neighbor l k then s else unknown) else get_status_of_neighbor l j))
        × (get_timed_out_interest_count (set_status_of_neighbor l k s) j
            ≡ get_timed_out_interest_count l j)
  unfolding get_status_of_neighbor set_status_of_neighbor is_neighbor get_timed_out_interest_count
  status-set l k j s = ground (
    arith,
    e.beq_iff j k,
    find-modify adjacent_name (λ (a : Adjacent Name D). record a { status = s }) (λ a. refl) k j l,
  )

  neighbors_counted-le : (r : ℕ) (l : AdjacencyList Name D) → neighbors_counted r l ≤ length l
  unfolding neighbors_counted
  neighbors_counted-le r [] = omega arith
  neighbors_counted-le r (a ∷ l) = ground (arith, neighbors_counted-le r l)

  -- Known to be up, or given up on.
  abbrev pub IsSettled : ℕ → Adjacent Name D → Type 0
  IsSettled retries a = (is_active a.status ≡ true) ⊎ (retries ≤ a.interest_timed_out_no)

  counted-IsSettled :
      (r : ℕ) (l : AdjacencyList Name D) → neighbors_counted r l ≡ length l → All (IsSettled r) l
  unfolding neighbors_counted
  counted-IsSettled r [] h = tt
  counted-IsSettled r (a ∷ l) h = ground (arith, neighbors_counted-le r l, counted-IsSettled r l)

  IsSettled-counted :
      (r : ℕ) (l : AdjacencyList Name D) → All (IsSettled r) l → neighbors_counted r l ≡ length l
  unfolding neighbors_counted
  IsSettled-counted r [] h = refl
  IsSettled-counted r (a ∷ l) h = ground (arith, IsSettled-counted r l h.1)

  -- An adjacency LSA may be built exactly when every neighbor is active or has timed out as often
  -- as the configured number of retries.
  pub is_adj_lsa_buildable_iff :
      (retries : ℕ) (l : AdjacencyList Name D)
      → (is_adj_lsa_buildable retries l ≡ true) ↔ All (IsSettled retries) l
  unfolding is_adj_lsa_buildable
  is_adj_lsa_buildable_iff r l =
      (λ h. counted-IsSettled r l (ground arith), λ h. ground (arith, IsSettled-counted r l h))

  -- A neighbor whose cost is not within epsilon of its rounded cost does not equal itself.
  pub adjacent_equal_irrefl :
      (a : Adjacent Name D)
      → d.lt (d.abs (d.sub a.link_cost (d.of_ℕ (d.ceil a.link_cost)))) d.epsilon ≡ false
      → adjacent_equal a a ≡ false
  unfolding adjacent_equal
  adjacent_equal_irrefl a h = ground arith
