-- ===== src/RouterMap/Numbering.antt =====
-- src/route/map.cpp: routers and their numbers determine each other.
use ndnproject.Prelude.{
  ==_refl, All, Eq, List, Option-cases, [], arith, inl, inr, length, length-append, nat_eq, none,
  refl, some, str_eq, suc, ℕ, ◌++◌, ◌+◌, ◌<◌, ◌∙◌, ◌∷◌, ◌≡◌, ◌≤◌,
}
use ndnproject.Adjacency.{AdjacencyList}
use ndnproject.Keyed.{find}
use ndnproject.Keyed.Laws.{find-append_hit, find-push, key-find}
use ndnproject.Lsa.{AdjLsa}
use ndnproject.RouterMap.{
  RouterMap, MapEntry, entry_router, entry_number, reset, add_map_entry, add_router, add_neighbors,
  create_from_adj_lsdb, get_router_name_by_mapping_no, get_mapping_no_by_router_name,
}

module _ {Name : Type 0} ⦃e : Eq Name⦄ where
  -- The entries are numbered in turn from `k`.
  abbrev pub NumberedFrom : ℕ → List (MapEntry Name) → Type 0
  NumberedFrom k [] = Unit
  NumberedFrom k (x ∷ xs) = (x.mapping_number ≡ k) × NumberedFrom (suc k) xs

  -- The numbers are those below the index, each in its turn.
  pub record IsNumbered (m : RouterMap Name) : Type 0 where
    pub in_turn : NumberedFrom 0 m.table
    pub counted : length m.table ≡ m.mapping_index

  NumberedFrom-push :
      (k : ℕ) (xs : List (MapEntry Name)) (x : MapEntry Name)
      → NumberedFrom k xs
      → x.mapping_number ≡ k + length xs
      → NumberedFrom k (xs ++ x ∷ [])
  NumberedFrom-push k [] x a h = (omega arith, tt)
  NumberedFrom-push k (y ∷ xs) x a h = (a.0, NumberedFrom-push (suc k) xs x a.1 (omega arith))

  add_router_new :
      (m : RouterMap Name) (r : Name)
      → find entry_router r m.table ≡ none
      → add_router m r ≡ record {
        table = m.table ++ record { router = r; mapping_number = m.mapping_index } ∷ [];
        mapping_index = m.mapping_index + 1;
      }
  unfolding add_router add_map_entry
  add_router_new m r miss = ground arith

  add_router_known :
      (m : RouterMap Name) (r : Name) (x : MapEntry Name)
      → find entry_router r m.table ≡ some x
      → add_router m r ≡ m
  unfolding add_router add_map_entry
  add_router_known m r x hit = ground arith

  add_router-IsNumbered :
      (m : RouterMap Name) (r : Name) → IsNumbered m → IsNumbered (add_router m r)
  add_router-IsNumbered m r v = elim (Option-cases (find entry_router r m.table)) [
    | inl miss ↦
        let x : MapEntry Name = record { router = r; mapping_number = m.mapping_index } in
        rw (add_router_new m r miss) (record {
          in_turn = NumberedFrom-push 0 m.table x v.in_turn (omega (arith, v.counted));
          counted = length-append m.table (x ∷ []) ∙ omega (arith, v.counted);
        })
    | inr (x, hit) ↦ rw (add_router_known m r x hit) v
  ]

  add_neighbors-IsNumbered :
      {D : Type 0} (m : RouterMap Name) (l : AdjacencyList Name D)
      → IsNumbered m
      → IsNumbered (add_neighbors m l)
  unfolding add_neighbors
  add_neighbors-IsNumbered m [] v = v
  add_neighbors-IsNumbered m (a ∷ l) v =
      add_neighbors-IsNumbered (add_router m a.name) l (add_router-IsNumbered m a.name v)

  create-IsNumbered :
      {D : Type 0} (m : RouterMap Name) (lsas : List (AdjLsa Name D))
      → IsNumbered m
      → IsNumbered (create_from_adj_lsdb m lsas)
  unfolding create_from_adj_lsdb
  create-IsNumbered m [] v = v
  create-IsNumbered m (l ∷ lsas) v =
      create-IsNumbered (add_neighbors (add_router m l.orig_router) l.adl) lsas (
        add_neighbors-IsNumbered (add_router m l.orig_router) l.adl
          (add_router-IsNumbered m l.orig_router v))

  found-bounds :
      (k : ℕ) (xs : List (MapEntry Name)) (r : Name) (x : MapEntry Name)
      → NumberedFrom k xs
      → find entry_router r xs ≡ some x
      → (k ≤ x.mapping_number)
        × (x.mapping_number < k + length xs)
        × (find entry_number x.mapping_number xs ≡ some x)
  unfolding find
  found-bounds k [] r x a h = absurd (ground arith)
  found-bounds k (y ∷ xs) r x a h = ground (arith, found-bounds (suc k) xs r x)

  -- The number is one of the map's and leads to the router.
  abbrev pub IsInverse : RouterMap Name → Name → ℕ → Type 0
  IsInverse m r i = (i < m.mapping_index) × (get_router_name_by_mapping_no m i ≡ some r)

  -- In a map made from the adjacency LSAs, a router's number is below the number of routers and leads
  -- back to the router.
  pub create_from_adj_lsdb-IsInverse :
      {D : Type 0} (lsas : List (AdjLsa Name D)) (r : Name) (i : ℕ)
      → get_mapping_no_by_router_name (create_from_adj_lsdb reset lsas) r ≡ some i
      → IsInverse (create_from_adj_lsdb reset lsas) r i
  unfolding get_mapping_no_by_router_name get_router_name_by_mapping_no reset
  create_from_adj_lsdb-IsInverse lsas r i h =
      let m = create_from_adj_lsdb reset lsas in
      let v : IsNumbered m =
        create-IsNumbered reset lsas (record { in_turn = tt; counted = refl }) in
      elim (Option-cases (find entry_router r m.table)) [
        | inl miss ↦ absurd (ground arith)
        | inr (x, hit) ↦
            let (low, high, back) = found-bounds 0 m.table r x v.in_turn hit in
            ground (arith, high, back, hit, h, v.counted, key-find entry_router r m.table x)
      ]

  -- The router has an entry.
  abbrev pub IsMapped : RouterMap Name → Name → Type 0
  IsMapped m r = (x : MapEntry Name) × (find entry_router r m.table ≡ some x)

  add_router-IsMapped :
      (m : RouterMap Name) (r k : Name) → IsMapped m k → IsMapped (add_router m r) k
  add_router-IsMapped m r k (x, known) = elim (Option-cases (find entry_router r m.table)) [
    | inl miss ↦ rw (add_router_new m r miss) (x, find-append_hit entry_router k m.table _ x known)
    | inr (y, hit) ↦ rw (add_router_known m r y hit) (x, known)
  ]

  add_router-IsMapped_self : (m : RouterMap Name) (r : Name) → IsMapped (add_router m r) r
  add_router-IsMapped_self m r = elim (Option-cases (find entry_router r m.table)) [
    | inl miss ↦
        let x : MapEntry Name = record { router = r; mapping_number = m.mapping_index } in
        rw (add_router_new m r miss)
          (x, find-push entry_router r m.table x miss ∙ rw (==_refl r) refl)
    | inr (y, hit) ↦ rw (add_router_known m r y hit) (y, hit)
  ]

  add_neighbors-IsMapped :
      {D : Type 0} (m : RouterMap Name) (l : AdjacencyList Name D) (k : Name)
      → IsMapped m k
      → IsMapped (add_neighbors m l) k
  unfolding add_neighbors
  add_neighbors-IsMapped m [] k known = known
  add_neighbors-IsMapped m (a ∷ l) k known =
      add_neighbors-IsMapped (add_router m a.name) l k (add_router-IsMapped m a.name k known)

  add_neighbors-All :
      {D : Type 0} (m : RouterMap Name) (l : AdjacencyList Name D)
      → All (λ a. IsMapped (add_neighbors m l) a.name) l
  unfolding add_neighbors
  add_neighbors-All m [] = tt
  add_neighbors-All m (a ∷ l) = (
    add_neighbors-IsMapped (add_router m a.name) l a.name (add_router-IsMapped_self m a.name),
    add_neighbors-All (add_router m a.name) l,
  )

  create-IsMapped :
      {D : Type 0} (m : RouterMap Name) (lsas : List (AdjLsa Name D)) (k : Name)
      → IsMapped m k
      → IsMapped (create_from_adj_lsdb m lsas) k
  unfolding create_from_adj_lsdb
  create-IsMapped m [] k known = known
  create-IsMapped m (l ∷ lsas) k known =
      create-IsMapped (add_neighbors (add_router m l.orig_router) l.adl) lsas k (
        add_neighbors-IsMapped (add_router m l.orig_router) l.adl k
          (add_router-IsMapped m l.orig_router k known))

  All-IsMapped :
      {D : Type 0} (m : RouterMap Name) (lsas : List (AdjLsa Name D)) (l : AdjacencyList Name D)
      → All (λ a. IsMapped m a.name) l
      → All (λ a. IsMapped (create_from_adj_lsdb m lsas) a.name) l
  All-IsMapped m lsas [] known = tt
  All-IsMapped m lsas (a ∷ l) known =
      (create-IsMapped m lsas a.name known.0, All-IsMapped m lsas l known.1)

  -- The map made from the adjacency LSAs has every router that an LSA comes from and every neighbor
  -- that an LSA names.
  pub create_from_adj_lsdb-All :
      {D : Type 0} (m : RouterMap Name) (lsas : List (AdjLsa Name D))
      → let made = create_from_adj_lsdb m lsas in
        All (λ l. IsMapped made l.orig_router × All (λ a. IsMapped made a.name) l.adl) lsas
  unfolding create_from_adj_lsdb
  create_from_adj_lsdb-All m [] = tt
  create_from_adj_lsdb-All m (l ∷ lsas) =
      let t = add_router m l.orig_router in
      let u = add_neighbors t l.adl in
      (
        (
          create-IsMapped u lsas l.orig_router (
              add_neighbors-IsMapped t l.adl l.orig_router
                (add_router-IsMapped_self m l.orig_router)),
          All-IsMapped u lsas l.adl (add_neighbors-All t l.adl),
        ),
        create_from_adj_lsdb-All u lsas,
      )
