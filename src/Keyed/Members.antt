-- ===== src/Keyed/Members.antt =====
-- Keys present in a keyed list, and predicates that hold of all of its elements.
use ndnproject.Prelude.{
  All, Bool, Bool-cases, Eq, List, Option-cases, [], arith, false, inl, inr, length, nat_eq, none,
  some, str_eq, subst, true, ◌++◌, ◌==◌, ◌∷◌, ◌≡◌, ◌≤◌,
}
use ndnproject.Keyed.{find, modify, erase, Distinct}
use ndnproject.Keyed.Laws.{find-erase_ne, length-erase}

module _ {ℓ κ} {A : Type ℓ} {K : Type κ} ⦃e : Eq K⦄ (key : A → K) where
  -- The search finds something.
  unfoldable pub has : K → List A → Bool
  has k xs = elim (find key k xs) [ none ↦ false | some _ ↦ true ]

  pub has-some : (k : K) (xs : List A) (a : A) → find key k xs ≡ some a → has k xs ≡ true
  unfolding has
  has-some k xs a h = ground arith

  pub has-none : (k : K) (xs : List A) → find key k xs ≡ none → has k xs ≡ false
  unfolding has
  has-none k xs h = ground arith

  pub has_head : (x : A) (xs : List A) → has (key x) (x ∷ xs) ≡ true
  unfolding has find
  has_head x xs = ground (arith, e.beq_iff (key x) (key x))

  others : (k : K) (xs : List A) → find key k xs ≡ none → All (λ y. (key y == k) ≡ false) xs
  unfolding find
  others k [] h = tt
  others k (x ∷ xs) h = ground (arith, others k xs)

  self-found-cons :
      (x : A) (l ys : List A)
      → All (λ y. (key y == key x) ≡ false) l
      → All (λ y. find key (key y) ys ≡ some y) l
      → All (λ y. find key (key y) (x ∷ ys) ≡ some y) l
  unfolding find
  self-found-cons x [] ys a b = tt
  self-found-cons x (y ∷ l) ys a b =
      ground (
        arith,
        e.beq_iff (key y) (key x),
        e.beq_iff (key x) (key y),
        self-found-cons x l ys a.1 b.1,
      )

  -- Each element is the one that its key finds.
  pub self-found : (xs : List A) → Distinct key xs → All (λ x. find key (key x) xs ≡ some x) xs
  unfolding find
  self-found [] d = tt
  self-found (x ∷ xs) d = (
    ground (arith, e.beq_iff (key x) (key x)),
    self-found-cons x xs xs (others (key x) xs d.0) (self-found xs d.1),
  )

  module _ {μ} (P : A → Type μ) where
    pub All-modify :
        (k : K) (f : A → A) (xs : List A)
        → ((x : A) → P (f x))
        → All P xs
        → All P (modify key k f xs)
    unfolding modify
    All-modify k f [] h a = tt
    All-modify k f (x ∷ xs) h a = elim (Bool-cases (key x == k)) [
      | inl same ↦ rw same (h x, a.1)
      | inr other ↦ rw other (a.0, All-modify k f xs h a.1)
    ]

    pub All-erase : (k : K) (xs : List A) → All P xs → All P (erase key k xs)
    unfolding erase
    All-erase k [] a = tt
    All-erase k (x ∷ xs) a = elim (Bool-cases (key x == k)) [
      | inl same ↦ rw same a.1
      | inr other ↦ rw other (a.0, All-erase k xs a.1)
    ]

    pub All-push : (xs : List A) (y : A) → All P xs → P y → All P (xs ++ y ∷ [])
    All-push [] y a h = (h, tt)
    All-push (x ∷ xs) y a h = (a.0, All-push xs y a.1 h)

    pub All-found : (k : K) (xs : List A) (a : A) → All P xs → find key k xs ≡ some a → P a
    unfolding find
    All-found k [] a h f = cc
    All-found k (x ∷ xs) a h f = elim (Bool-cases (key x == k)) [
      | inl same ↦ let found : some x ≡ some a = ground arith in subst P (ground arith) h.0
      | inr other ↦ All-found k xs a h.1 (ground arith)
    ]

  -- Distinct keys that all occur in a second list are no more than it has elements.
  pub length-le_of_has :
      (xs ys : List A)
      → Distinct key xs
      → ((k : K) → has k xs ≡ true → has k ys ≡ true)
      → length xs ≤ length ys
  unfolding has find
  length-le_of_has [] ys d h = omega arith
  length-le_of_has (x ∷ xs) ys d h = elim (Option-cases (find key (key x) ys)) [
    | inl miss ↦ absurd (ground (arith, h (key x), e.beq_iff (key x) (key x)))
    | inr (y, hit) ↦ omega (
      arith,
      length-erase key (key x) ys y hit,
      length-le_of_has xs (erase key (key x) ys) d.1
          (λ k p. ground (arith, h k, e.beq_iff (key x) k, find-erase_ne key (key x) k ys)),
    )
  ]
