-- ===== src/Sorting.antt =====
-- `std::list::sort`: the stable sort by a comparator, here by insertion (every stable sort gives
-- one result), and what it keeps of a keyed list.
use ndnproject.Prelude.{
  All, Bool, Bool-cases, Eq, List, [], arith, false, if◌then◌else◌, inl, inr, length, nat_eq, none,
  refl, some, str_eq, suc, true, ◌==◌, ◌∷◌, ◌≡◌,
}
use mathlib.Core.List.{Perm}
use mathlib.Core.List.Perm
use ndnproject.Keyed.{find, Distinct}

module _ {ℓ} {A : Type ℓ} (lt : A → A → Bool) where
  -- Before the elements that are not smaller.
  unfoldable pub insert_sorted : A → List A → List A
  insert_sorted x [] = x ∷ []
  insert_sorted x (y ∷ ys) = if lt y x then y ∷ insert_sorted x ys else x ∷ y ∷ ys

  unfoldable pub sort : List A → List A
  sort [] = []
  sort (x ∷ xs) = insert_sorted x (sort xs)

  -- No element is smaller than one before it.
  abbrev pub IsSorted : List A → Type ℓ
  IsSorted [] = Unit
  IsSorted (x ∷ xs) = All (λ y. lt y x ≡ false) xs × IsSorted xs

  insert_sorted-perm : (x : A) (ys : List A) → Perm (insert_sorted x ys) (x ∷ ys)
  unfolding insert_sorted
  insert_sorted-perm x [] = Perm.rfl
  insert_sorted-perm x (y ∷ ys) = elim (Bool-cases (lt y x)) [
    | inl smaller ↦
        rw smaller (Perm.trans (Perm.cons y (insert_sorted-perm x ys)) (Perm.swap x y ys))
    | inr not_smaller ↦ rw not_smaller Perm.rfl
  ]

  -- Sorting only moves elements.
  pub sort-perm : (xs : List A) → Perm (sort xs) xs
  unfolding sort
  sort-perm [] = Perm.rfl
  sort-perm (x ∷ xs) = Perm.trans (insert_sorted-perm x (sort xs)) (Perm.cons x (sort-perm xs))

module _ {ℓ} {A : Type ℓ} (lt : A → A → Bool) (asymm : (a b : A) → lt a b ≡ true → lt b a ≡ false)
    (trans : (a b c : A) → lt b a ≡ false → lt c b ≡ false → lt c a ≡ false) where
  All-trans :
      (x y : A) (ys : List A)
      → lt y x ≡ false
      → All (λ z. lt z y ≡ false) ys
      → All (λ z. lt z x ≡ false) ys
  All-trans x y [] h a = tt
  All-trans x y (z ∷ zs) h a = (trans x y z h a.0, All-trans x y zs h a.1)

  All-insert :
      (P : A → Type 0) (x : A) (ys : List A) → P x → All P ys → All P (insert_sorted lt x ys)
  unfolding insert_sorted
  All-insert P x [] p a = (p, tt)
  All-insert P x (y ∷ ys) p a = ground (arith, All-insert P x ys p a.1)

  insert_sorted-IsSorted :
      (x : A) (ys : List A) → IsSorted lt ys → IsSorted lt (insert_sorted lt x ys)
  unfolding insert_sorted
  insert_sorted-IsSorted x [] s = (tt, tt)
  insert_sorted-IsSorted x (y ∷ ys) s = ground (
    arith,
    asymm y x,
    All-trans x y ys,
    All-insert (λ z. lt z y ≡ false) x ys,
    insert_sorted-IsSorted x ys s.1,
  )

  pub sort-IsSorted : (xs : List A) → IsSorted lt (sort lt xs)
  unfolding sort
  sort-IsSorted [] = tt
  sort-IsSorted (x ∷ xs) = insert_sorted-IsSorted x (sort lt xs) (sort-IsSorted xs)

module _ {ℓ} {A : Type ℓ} (lt : A → A → Bool) where
  length-insert : (x : A) (ys : List A) → length (insert_sorted lt x ys) ≡ suc (length ys)
  unfolding insert_sorted
  length-insert x [] = refl
  length-insert x (y ∷ ys) = ground (arith, length-insert x ys)

  pub length-sort : (xs : List A) → length (sort lt xs) ≡ length xs
  unfolding sort
  length-sort [] = refl
  length-sort (x ∷ xs) = ground (arith, length-insert x (sort lt xs), length-sort xs)

module _ {ℓ κ} {A : Type ℓ} {K : Type κ} ⦃e : Eq K⦄ (key : A → K) (lt : A → A → Bool) where
  find-insert :
      (k : K) (x : A) (ys : List A)
      → find key (key x) ys ≡ none
      → find key k (insert_sorted lt x ys) ≡ (if key x == k then some x else find key k ys)
  unfolding find insert_sorted
  find-insert k x [] h = refl
  find-insert k x (y ∷ ys) h = ground (
    arith,
    e.beq_iff (key x) k,
    e.beq_iff (key y) k,
    e.beq_iff (key y) (key x),
    find-insert k x ys,
  )

  Distinct-insert :
      (x : A) (ys : List A)
      → find key (key x) ys ≡ none
      → Distinct key ys
      → Distinct key (insert_sorted lt x ys)
  unfolding find insert_sorted
  Distinct-insert x [] h d = (refl, tt)
  Distinct-insert x (y ∷ ys) h d = ground (
    arith,
    e.beq_iff (key y) (key x),
    e.beq_iff (key x) (key y),
    Distinct-insert x ys,
    find-insert (key y) x ys,
  )

  -- Sorting a list of distinct keys changes no search.
  pub find-sort : (k : K) (xs : List A) → Distinct key xs → find key k (sort lt xs) ≡ find key k xs
  unfolding find sort
  find-sort k [] d = refl
  find-sort k (x ∷ xs) d =
      ground (arith, find-sort k xs d.1, find-sort (key x) xs d.1, find-insert k x (sort lt xs))

  pub Distinct-sort : (xs : List A) → Distinct key xs → Distinct key (sort lt xs)
  unfolding find sort
  Distinct-sort [] d = tt
  Distinct-sort (x ∷ xs) d =
      ground (arith, Distinct-sort xs d.1, find-sort (key x) xs d.1, Distinct-insert x (sort lt xs))
