-- ===== src/Calculator/Bounds.antt =====
-- src/route/routing-table-calculator.cpp: the matrix has links between numbered routers alone.
use ndnproject.Prelude.{
  Bool-cases, Double, Eq, List, NdnName, Option, Option-cases, [], arith, inl, inr, ltb, nat_eq,
  none, refl, some, str_eq, subst, ℕ, ◌&&◌, ◌<◌, ◌==◌, ◌∙◌, ◌∷◌,
}
use ndnproject.Adjacency.{Adjacent, AdjacencyList, get_link_cost}
use ndnproject.Lsa.{AdjLsa}
use ndnproject.RouterMap.{RouterMap, get_mapping_no_by_router_name}
use ndnproject.Calculator.{
  Matrix, set, correct_cell, correct_row, correct_rows, correct_matrix, set_link, set_links,
  set_all_links, make_adj_matrix, init_matrix, up_to,
}
use ndnproject.Calculator.Symmetry.{agreed_cost, correct_cell-at, is_link, is_link-ends}

module _ (n_routers : ℕ) where
  abbrev pub IsWithin : Matrix → Type 0
  IsWithin m = (x y : ℕ) → 0 < m x y → (x < n_routers) × (y < n_routers)

  agreed_cost-up : (a b : ℕ) → 0 < agreed_cost a b → (0 < a) × (0 < b)
  unfolding agreed_cost
  agreed_cost-up a b h = ground arith

  correct_cell-IsWithin : (m : Matrix) (i j : ℕ) → IsWithin m → IsWithin (correct_cell m i j)
  correct_cell-IsWithin m i j within x y up = elim (Bool-cases (is_link i j x y)) [
    | inl linked ↦
        let (a, b) =
          agreed_cost-up (m i j) (m j i)
            (subst (λ z. 0 < z) (correct_cell-at m i j x y ∙ rw linked refl) up) in
        let (p, q) = within i j a in
        elim (is_link-ends i j x y linked) [
          | inl (r, s) ↦ omega (arith, p, q, r, s)
          | inr (r, s) ↦ omega (arith, p, q, r, s)
        ]
    | inr apart ↦ within x y (subst (λ z. 0 < z) (correct_cell-at m i j x y ∙ rw apart refl) up)
  ]

  correct_row-IsWithin :
      (m : Matrix) (row : ℕ) (cols : List ℕ) → IsWithin m → IsWithin (correct_row m row cols)
  unfolding correct_row
  correct_row-IsWithin m row [] within = within
  correct_row-IsWithin m row (c ∷ cols) within =
      correct_row-IsWithin (correct_cell m row c) row cols (correct_cell-IsWithin m row c within)

  correct_rows-IsWithin :
      (m : Matrix) (rows cols : List ℕ) → IsWithin m → IsWithin (correct_rows m rows cols)
  unfolding correct_rows
  correct_rows-IsWithin m [] cols within = within
  correct_rows-IsWithin m (r ∷ rows) cols within =
      correct_rows-IsWithin (correct_row m r cols) rows cols (correct_row-IsWithin m r cols within)

  set-IsWithin :
      (m : Matrix) (row col cost : ℕ)
      → row < n_routers
      → col < n_routers
      → IsWithin m
      → IsWithin (set m row col cost)
  unfolding set
  set-IsWithin m row col cost r c within x y up = elim (Bool-cases (x == row && y == col)) [
    | inl here ↦ ground arith
    | inr there ↦ within x y (subst (λ z. 0 < z) (rw there refl) up)
  ]

  module _ {Name D : Type 0} ⦃e : Eq Name⦄ ⦃n : NdnName Name⦄ ⦃d : Double D⦄ where
    set_link-IsWithin :
        (p_map : RouterMap Name) (row : Option ℕ) (m : Matrix) (a : Adjacent Name D)
        → IsWithin m
        → IsWithin (set_link n_routers p_map row m a)
    unfolding set_link
    set_link-IsWithin p_map none m a within = within
    set_link-IsWithin p_map (some row) m a within =
        elim (Option-cases (get_mapping_no_by_router_name p_map a.name)) [
          | inl unknown ↦ rw (unknown, set_link) within
          | inr (col, known) ↦ elim (Bool-cases (ltb row n_routers && ltb col n_routers)) [
            | inl good ↦
                rw (known, good, set_link)
                  (set-IsWithin m row col (get_link_cost a) (ground arith) (ground arith) within)
            | inr bad ↦ rw (known, bad, set_link) within
          ]
        ]

    set_links-IsWithin :
        (p_map : RouterMap Name) (row : Option ℕ) (m : Matrix) (adl : AdjacencyList Name D)
        → IsWithin m
        → IsWithin (set_links n_routers p_map row m adl)
    unfolding set_links
    set_links-IsWithin p_map row m [] within = within
    set_links-IsWithin p_map row m (a ∷ adl) within =
        set_links-IsWithin p_map row (set_link n_routers p_map row m a) adl
          (set_link-IsWithin p_map row m a within)

    set_all_links-IsWithin :
        (p_map : RouterMap Name) (m : Matrix) (lsas : List (AdjLsa Name D))
        → IsWithin m
        → IsWithin (set_all_links n_routers p_map m lsas)
    unfolding set_all_links
    set_all_links-IsWithin p_map m [] within = within
    set_all_links-IsWithin p_map m (l ∷ lsas) within =
        set_all_links-IsWithin p_map
          (set_links n_routers p_map (get_mapping_no_by_router_name p_map l.orig_router) m l.adl)
          lsas
          (set_links-IsWithin p_map (get_mapping_no_by_router_name p_map l.orig_router) m l.adl
            within)

    -- In the matrix made from the adjacency LSAs, both ends of a link have numbers below the number of
    -- routers that the matrix is made for.
    pub make_adj_matrix_below :
        (p_map : RouterMap Name) (lsas : List (AdjLsa Name D)) (x y : ℕ)
        → 0 < make_adj_matrix n_routers p_map lsas x y
        → (x < n_routers) × (y < n_routers)
    unfolding make_adj_matrix correct_matrix init_matrix
    make_adj_matrix_below p_map lsas =
        correct_rows-IsWithin _ (up_to n_routers) (up_to n_routers)
          (set_all_links-IsWithin p_map init_matrix lsas (λ x y up. absurd (omega arith)))
