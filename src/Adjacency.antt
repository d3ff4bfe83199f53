-- ===== src/Adjacency.antt =====
-- src/adjacent.hpp, src/adjacent.cpp, src/adjacency-list.hpp and src/adjacency-list.cpp: the
-- router's neighbors. A pointer or an iterator to an element of the list is the name that found
-- it. `uint32_t` counters wrap.
pub mod Laws
use ndnproject.Prelude.{
  Bool, Double, Eq, List, NdnName, Option, Str, [], false, if◌then◌else◌, leb, length, nat_eq, none,
  some, str_eq, true, ℕ, ◌%◌, ◌&&◌, ◌++◌, ◌+◌, ◌==◌, ◌^◌, ◌∷◌,
}
use ndnproject.Keyed.{find, modify}
use ndnproject.Sorting.{sort}

pub data Status : Type 0 where
  unknown inactive active : Status

abbrev pub is_active : Status → Bool
is_active active = true
is_active _ = false

pub record Adjacent (Name D : Type 0) : Type 0 where
  pub name : Name
  pub connecting_face_uri : Str
  pub link_cost : D
  pub status : Status
  pub interest_timed_out_no : ℕ
  pub face_id : ℕ

abbrev pub is_inactive : Status → Bool
is_inactive inactive = true
is_inactive _ = false

module _ {Name D : Type 0} ⦃e : Eq Name⦄ ⦃n : NdnName Name⦄ ⦃d : Double D⦄ where
  -- `Adjacent(an)`.
  unfoldable pub new_adjacent : Name → Adjacent Name D
  new_adjacent an = record {
    name = an;
    connecting_face_uri = [];
    link_cost = d.of_ℕ 10;
    status = inactive;
    interest_timed_out_no = 0;
    face_id = 0;
  }

  -- `getLinkCost`: rounded up.
  unfoldable pub get_link_cost : Adjacent Name D → ℕ
  get_link_cost a = d.ceil a.link_cost

  -- `operator==` of two neighbors: the stored cost against the other's rounded cost.
  unfoldable pub adjacent_equal : Adjacent Name D → Adjacent Name D → Bool
  unfolding get_link_cost
  adjacent_equal a b =
      a.name == b.name
      && a.connecting_face_uri == b.connecting_face_uri
      && d.lt (d.abs (d.sub a.link_cost (d.of_ℕ (get_link_cost b)))) d.epsilon

abbrev pub AdjacencyList : Type 0 → Type 0 → Type 0
AdjacencyList Name D = List (Adjacent Name D)

abbrev pub adjacent_name : {Name D : Type 0} → Adjacent Name D → Name
adjacent_name a = a.name

module _ {Name D : Type 0} ⦃e : Eq Name⦄ ⦃n : NdnName Name⦄ ⦃d : Double D⦄ where
  -- `find`, `findAdjacent(name)`.
  unfoldable pub find_adjacent : Name → AdjacencyList Name D → Option (Adjacent Name D)
  find_adjacent = find adjacent_name

  -- `insert`: 0 or -1; here whether it was inserted.
  unfoldable pub insert : AdjacencyList Name D → Adjacent Name D → AdjacencyList Name D × Bool
  unfolding find_adjacent
  insert l a = elim (find_adjacent a.name l) [ some _ ↦ (l, false) | none ↦ (l ++ a ∷ [], true) ]

  unfoldable pub add_adjacents : AdjacencyList Name D → AdjacencyList Name D → AdjacencyList Name D
  unfolding insert
  add_adjacents l [] = l
  add_adjacents l (a ∷ adl) = add_adjacents (insert l a).0 adl

  unfoldable pub update_adjacent_status :
      AdjacencyList Name D → Name → Status → AdjacencyList Name D × Bool
  unfolding find_adjacent
  update_adjacent_status l adj_name s = elim (find_adjacent adj_name l) [
    | none ↦ (l, false)
    | some _ ↦ (modify adjacent_name adj_name (λ a. record a { status = s }) l, true)
  ]

  unfoldable pub get_adjacent : AdjacencyList Name D → Name → Adjacent Name D
  unfolding find_adjacent new_adjacent
  get_adjacent l adj_name = elim (find_adjacent adj_name l) [
    | some a ↦ a
    | none ↦ new_adjacent adj_name
  ]

  unfoldable pub compare_adjacent : Adjacent Name D → Adjacent Name D → Bool
  compare_adjacent a b = n.less a.name b.name

  -- The comparing loop of `operator==`: how many pairs are equal before the first difference.
  unfoldable pub equal_adj_count : AdjacencyList Name D → AdjacencyList Name D → ℕ
  unfolding adjacent_equal
  equal_adj_count (a ∷ l) (b ∷ m) =
      let rest = equal_adj_count l m in if adjacent_equal a b then rest + 1 else 0
  equal_adj_count _ _ = 0

  -- `operator==` sorts both lists in place when they have one length.
  unfoldable pub lists_equal :
      AdjacencyList Name D
      → AdjacencyList Name D
      → Bool × AdjacencyList Name D × AdjacencyList Name D
  unfolding equal_adj_count compare_adjacent
  lists_equal l m =
      if length l == length m
      then (
        equal_adj_count (sort compare_adjacent l) (sort compare_adjacent m)
            == length (sort compare_adjacent l),
        sort compare_adjacent l,
        sort compare_adjacent m,
      )
      else (false, l, m)

  unfoldable pub update_adjacent_link_cost :
      AdjacencyList Name D → Name → D → AdjacencyList Name D × Bool
  unfolding find_adjacent
  update_adjacent_link_cost l adj_name lc = elim (find_adjacent adj_name l) [
    | none ↦ (l, false)
    | some _ ↦ (modify adjacent_name adj_name (λ a. record a { link_cost = lc }) l, true)
  ]

  unfoldable pub is_neighbor : AdjacencyList Name D → Name → Bool
  unfolding find_adjacent
  is_neighbor l adj_name = elim (find_adjacent adj_name l) [ none ↦ false | some _ ↦ true ]

  unfoldable pub increment_timed_out_interest_count :
      AdjacencyList Name D → Name → AdjacencyList Name D
  increment_timed_out_interest_count l neighbor =
      modify adjacent_name neighbor
        (λ a. record a { interest_timed_out_no = (a.interest_timed_out_no + 1) % 2 ^ 32 }) l

  unfoldable pub set_timed_out_interest_count :
      AdjacencyList Name D → Name → ℕ → AdjacencyList Name D
  set_timed_out_interest_count l neighbor count =
      modify adjacent_name neighbor (λ a. record a { interest_timed_out_no = count }) l

  -- `none` is -1.
  unfoldable pub get_timed_out_interest_count : AdjacencyList Name D → Name → Option ℕ
  unfolding find_adjacent
  get_timed_out_interest_count l neighbor = elim (find_adjacent neighbor l) [
    | none ↦ none
    | some a ↦ some a.interest_timed_out_no
  ]

  unfoldable pub get_status_of_neighbor : AdjacencyList Name D → Name → Status
  unfolding find_adjacent
  get_status_of_neighbor l neighbor = elim (find_adjacent neighbor l) [
    | none ↦ unknown
    | some a ↦ a.status
  ]

  unfoldable pub set_status_of_neighbor :
      AdjacencyList Name D → Name → Status → AdjacencyList Name D
  set_status_of_neighbor l neighbor s =
      modify adjacent_name neighbor (λ a. record a { status = s }) l

  unfoldable pub neighbors_counted : ℕ → AdjacencyList Name D → ℕ
  neighbors_counted retries [] = 0
  neighbors_counted retries (a ∷ l) =
      (if is_active a.status then 1 else if leb retries a.interest_timed_out_no then 1 else 0)
      + neighbors_counted retries l

  -- `isAdjLsaBuildable`; `retries` is the configured interest retry number.
  unfoldable pub is_adj_lsa_buildable : ℕ → AdjacencyList Name D → Bool
  unfolding neighbors_counted
  is_adj_lsa_buildable retries l = neighbors_counted retries l == length l

  unfoldable pub get_num_of_active_neighbor : AdjacencyList Name D → ℕ
  get_num_of_active_neighbor [] = 0
  get_num_of_active_neighbor (a ∷ l) =
      (if is_active a.status then 1 else 0) + get_num_of_active_neighbor l

  -- `findAdjacent(faceId)`.
  unfoldable pub find_adjacent_by_face_id : ℕ → AdjacencyList Name D → Option (Adjacent Name D)
  find_adjacent_by_face_id = find (λ a. a.face_id)

  -- `getFaceId(faceUri)`: 0 if no neighbor has the URI.
  unfoldable pub get_face_id : AdjacencyList Name D → Str → ℕ
  get_face_id l face_uri = elim (find (λ a. a.connecting_face_uri) face_uri l) [
    | some a ↦ a.face_id
    | none ↦ 0
  ]
