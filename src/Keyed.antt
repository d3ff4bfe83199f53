-- ===== src/Keyed.antt =====
-- Lists searched by a key. Every table of the program is a `std::list` that `std::find_if` scans
-- for the first element whose name or URI equals a given one; a hit is changed in place or
-- erased, and a miss is followed by `push_back`.
pub mod Laws
pub mod Members
use ndnproject.Prelude.{
  Eq, List, Option, [], if◌then◌else◌, nat_eq, none, some, str_eq, ◌==◌, ◌∷◌, ◌≡◌,
}

module _ {ℓ κ} {A : Type ℓ} {K : Type κ} ⦃e : Eq K⦄ (key : A → K) where
  -- `std::find_if`: the first element with the key.
  unfoldable pub find : K → List A → Option A
  find k [] = none
  find k (x ∷ xs) = if key x == k then some x else find k xs

  -- The element that `find` points to, changed in place.
  unfoldable pub modify : K → (A → A) → List A → List A
  modify k f [] = []
  modify k f (x ∷ xs) = if key x == k then f x ∷ xs else x ∷ modify k f xs

  -- `std::list::erase` of the element that `find` points to.
  unfoldable pub erase : K → List A → List A
  erase k [] = []
  erase k (x ∷ xs) = if key x == k then xs else x ∷ erase k xs

  -- No two elements have one key.
  abbrev pub Distinct : List A → Type ℓ
  Distinct [] = Unit
  Distinct (x ∷ xs) = (find (key x) xs ≡ none) × Distinct xs
