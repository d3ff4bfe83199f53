-- ===== src/Calculator/Symmetry.antt =====
-- src/route/routing-table-calculator.cpp: the corrected matrix gives both directions of a link one cost.
use ndnproject.Prelude.{
  All, Bool, Bool-cases, List, [], arith, false, if◌then◌else◌, inl, inr, max, nat_beq_iff, nat_eq,
  refl, str_eq, subst, suc, sym, true, zero, ℕ, ◌&&◌, ◌++◌, ◌<◌, ◌==◌, ◌||◌, ◌∙◌, ◌∷◌, ◌≡◌, ◌⊎◌,
}
use ndnproject.Calculator.{
  Matrix, set, up_to, correct_cell, correct_row, correct_rows, correct_matrix,
}

-- The cost of a link of which one side says `to_cost` and the other `from_cost`: 0 if one says 0, and
-- otherwise the larger one.
unfoldable pub agreed_cost : ℕ → ℕ → ℕ
agreed_cost to_cost from_cost =
    if to_cost == 0 then 0 else if from_cost == 0 then 0 else max to_cost from_cost

agreed_cost_symm : (x y : ℕ) → agreed_cost x y ≡ agreed_cost y x
unfolding agreed_cost
agreed_cost_symm x y = ground arith

-- Correcting the cell of a link gives both of its cells the cost agreed, and changes no other.
pub correct_cell-at :
    (m : Matrix) (i j a b : ℕ)
    → correct_cell m i j a b
      ≡ (if (a == i && b == j) || (a == j && b == i) then agreed_cost (m i j) (m j i) else m a b)
unfolding correct_cell set agreed_cost
correct_cell-at m i j a b = elim (Bool-cases (m j i == m i j)) [
  | inl same ↦ rw (same, correct_cell) (ground arith)
  | inr differ ↦ rw (differ, correct_cell) (ground arith)
]

agreed_cost_self : (x : ℕ) → agreed_cost x x ≡ x
unfolding agreed_cost
agreed_cost_self x = ground arith

-- How far the correction of `m` has come with the link between `i` and `j`, in the matrix `t`.
abbrev IsLeft : Matrix → Matrix → ℕ → ℕ → Type 0
IsLeft m t i j = (t i j ≡ m i j) × (t j i ≡ m j i)

abbrev IsAgreed : Matrix → Matrix → ℕ → ℕ → Type 0
IsAgreed m t i j = (t i j ≡ agreed_cost (m i j) (m j i)) × (t j i ≡ agreed_cost (m i j) (m j i))

abbrev IsUnderway : Matrix → Matrix → Type 0
IsUnderway m t = (i j : ℕ) → IsAgreed m t i j ⊎ IsLeft m t i j

-- The link is the one of the cell.
abbrev pub is_link : ℕ → ℕ → ℕ → ℕ → Bool
is_link r c i j = (i == r && j == c) || (i == c && j == r)

is_link_symm : (r c i j : ℕ) → is_link r c i j ≡ is_link r c j i
is_link_symm r c i j = ground arith

pub is_link-ends :
    (r c i j : ℕ) → is_link r c i j ≡ true → ((i ≡ r) × (j ≡ c)) ⊎ ((i ≡ c) × (j ≡ r))
is_link-ends r c i j h = ground arith

agreed_again :
    (m t : Matrix) (r c : ℕ)
    → IsAgreed m t r c ⊎ IsLeft m t r c
    → agreed_cost (t r c) (t c r) ≡ agreed_cost (m r c) (m c r)
agreed_again m t r c (inl (x, y)) = rw (x, y) (agreed_cost_self _)
agreed_again m t r c (inr (x, y)) = rw (x, y) refl

agreed_ends :
    (m : Matrix) (r c i j : ℕ)
    → ((i ≡ r) × (j ≡ c)) ⊎ ((i ≡ c) × (j ≡ r))
    → agreed_cost (m r c) (m c r) ≡ agreed_cost (m i j) (m j i)
agreed_ends m r c i j (inl (x, y)) = rw (x, y) refl
agreed_ends m r c i j (inr (x, y)) = rw (x, y) (agreed_cost_symm (m r c) (m c r))

correct_cell-IsAgreed :
    (m t : Matrix) (r c i j : ℕ)
    → IsUnderway m t
    → is_link r c i j ≡ true
    → IsAgreed m (correct_cell t r c) i j
correct_cell-IsAgreed m t r c i j u link =
    let agreed = agreed_again m t r c (u r c) ∙ agreed_ends m r c i j (is_link-ends r c i j link) in
    (
      correct_cell-at t r c i j ∙ rw link agreed,
      correct_cell-at t r c j i ∙ rw (is_link_symm r c j i, link) agreed,
    )

correct_cell-other :
    (m t : Matrix) (r c i j : ℕ)
    → is_link r c i j ≡ false
    → (correct_cell t r c i j ≡ t i j) × (correct_cell t r c j i ≡ t j i)
correct_cell-other m t r c i j apart = (
  rw (correct_cell-at t r c i j, apart) refl,
  correct_cell-at t r c j i ∙ rw (is_link_symm r c j i, apart) refl,
)

correct_cell-IsUnderway :
    (m t : Matrix) (r c : ℕ) → IsUnderway m t → IsUnderway m (correct_cell t r c)
correct_cell-IsUnderway m t r c u i j = elim (Bool-cases (is_link r c i j)) [
  | inl link ↦ inl (correct_cell-IsAgreed m t r c i j u link)
  | inr apart ↦
      let (a, b) = correct_cell-other m t r c i j apart in
      elim (u i j) [ inl (x, y) ↦ inl (a ∙ x, b ∙ y) | inr (x, y) ↦ inr (a ∙ x, b ∙ y) ]
]

correct_cell-keeps :
    (m t : Matrix) (r c i j : ℕ)
    → IsUnderway m t
    → IsAgreed m t i j
    → IsAgreed m (correct_cell t r c) i j
correct_cell-keeps m t r c i j u (x, y) = elim (Bool-cases (is_link r c i j)) [
  | inl link ↦ correct_cell-IsAgreed m t r c i j u link
  | inr apart ↦ let (a, b) = correct_cell-other m t r c i j apart in (a ∙ x, b ∙ y)
]

correct_row-IsUnderway :
    (m t : Matrix) (row : ℕ) (cols : List ℕ)
    → IsUnderway m t
    → IsUnderway m (correct_row t row cols)
unfolding correct_row
correct_row-IsUnderway m t row [] u = u
correct_row-IsUnderway m t row (c ∷ cols) u =
    correct_row-IsUnderway m (correct_cell t row c) row cols (correct_cell-IsUnderway m t row c u)

correct_row-keeps :
    (m t : Matrix) (row : ℕ) (cols : List ℕ) (i j : ℕ)
    → IsUnderway m t
    → IsAgreed m t i j
    → IsAgreed m (correct_row t row cols) i j
unfolding correct_row
correct_row-keeps m t row [] i j u a = a
correct_row-keeps m t row (c ∷ cols) i j u a =
    correct_row-keeps m (correct_cell t row c) row cols i j (correct_cell-IsUnderway m t row c u)
      (correct_cell-keeps m t row c i j u a)

correct_row-All :
    (m t : Matrix) (row : ℕ) (cols : List ℕ)
    → IsUnderway m t
    → All (λ c. IsAgreed m (correct_row t row cols) row c) cols
unfolding correct_row
correct_row-All m t row [] u = tt
correct_row-All m t row (c ∷ cols) u =
    let t' = correct_cell t row c in
    let u' = correct_cell-IsUnderway m t row c u in
    (
      correct_row-keeps m t' row cols row c u'
          (correct_cell-IsAgreed m t row c row c u (ground arith)),
      correct_row-All m t' row cols u',
    )

All-kept_cells :
    (m t : Matrix) (rows all_cols : List ℕ) (row : ℕ) (cols : List ℕ)
    → IsUnderway m t
    → All (λ c. IsAgreed m t row c) cols
    → All (λ c. IsAgreed m (correct_rows t rows all_cols) row c) cols
unfolding correct_rows
All-kept_cells m t [] all_cols row cols u a = a
All-kept_cells m t (r ∷ rows) all_cols row cols u a =
    All-kept_cells m (correct_row t r all_cols) rows all_cols row cols
      (correct_row-IsUnderway m t r all_cols u) (in_row cols a)
  where
    in_row :
        (cs : List ℕ)
        → All (λ c. IsAgreed m t row c) cs
        → All (λ c. IsAgreed m (correct_row t r all_cols) row c) cs
    in_row [] b = tt
    in_row (c ∷ cs) b = (correct_row-keeps m t r all_cols row c u b.0, in_row cs b.1)

correct_rows-All :
    (m t : Matrix) (rows cols : List ℕ)
    → IsUnderway m t
    → All (λ r. All (λ c. IsAgreed m (correct_rows t rows cols) r c) cols) rows
unfolding correct_rows
correct_rows-All m t [] cols u = tt
correct_rows-All m t (r ∷ rows) cols u =
    let t' = correct_row t r cols in
    let u' = correct_row-IsUnderway m t r cols u in
    (
      All-kept_cells m t' rows cols r cols u' (correct_row-All m t r cols u),
      correct_rows-All m t' rows cols u',
    )

All-push : (P : ℕ → Type 0) (xs : List ℕ) (x : ℕ) → All P (xs ++ x ∷ []) → All P xs × P x
All-push P [] x a = (tt, a.0)
All-push P (y ∷ xs) x a = let (b, c) = All-push P xs x a.1 in ((a.0, b), c)

All-up_to : (P : ℕ → Type 0) (n i : ℕ) → All P (up_to n) → i < n → P i
unfolding up_to
All-up_to P zero i a below = absurd (omega arith)
All-up_to P (suc n) i a below =
    let (before, last) = All-push P (up_to n) n a in
    elim (Bool-cases (i == n)) [
      | inl same ↦ subst P (sym ((nat_beq_iff i n).0 same)) last
      | inr other ↦ All-up_to P n i before (ground arith)
    ]

-- The corrected matrix of `n_routers` gives a link between two routers one cost both ways: 0 if one
-- side says 0, and otherwise the larger of the costs that the two sides say.
pub correct_matrix-agreed_cost :
    (n_routers : ℕ) (m : Matrix) (i j : ℕ)
    → i < n_routers
    → j < n_routers
    → (correct_matrix n_routers m i j ≡ agreed_cost (m i j) (m j i))
      × (correct_matrix n_routers m j i ≡ agreed_cost (m i j) (m j i))
unfolding correct_matrix
correct_matrix-agreed_cost n_routers m i j a b =
    All-up_to (λ c. IsAgreed m (correct_matrix n_routers m) i c) n_routers j
      (All-up_to (λ r. All (λ c. IsAgreed m (correct_matrix n_routers m) r c) (up_to n_routers))
        n_routers i
        (correct_rows-All m m (up_to n_routers) (up_to n_routers) (λ i j. inr (refl, refl))) a)
      b
