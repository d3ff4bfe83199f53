-- ===== src/Keyed/Laws.antt =====
-- The laws of keyed lists.
use ndnproject.Prelude.{
  ==_iff, ==_refl, Bool-cases, Eq, List, Option, Option-cases, [], arith, if◌then◌else◌, inl, inr,
  length, map, nat_eq, none, refl, some, str_eq, subst, sym, ◌++◌, ◌+◌, ◌==◌, ◌∙◌, ◌∷◌, ◌≡◌, ◌≢◌,
}
use ndnproject.Keyed.{find, modify, erase, Distinct}

module _ {ℓ κ} {A : Type ℓ} {K : Type κ} ⦃e : Eq K⦄ (key : A → K) where
  -- What is found has the key.
  pub key-find : (k : K) (xs : List A) (a : A) → find key k xs ≡ some a → key a ≡ k
  unfolding find
  key-find k [] a h = cc
  key-find k (x ∷ xs) a h = ground (arith, e.beq_iff (key x) k, key-find k xs a)

  abbrev pub HasKey : K → Option A → Type κ
  HasKey k none = Unit
  HasKey k (some a) = key a ≡ k

  pub find_key : (k : K) (xs : List A) → HasKey k (find key k xs)
  unfolding find
  find_key k [] = tt
  find_key k (x ∷ xs) = ground (arith, e.beq_iff (key x) k, find_key k xs)

  pub find-append_hit :
      (k : K) (xs ys : List A) (a : A) → find key k xs ≡ some a → find key k (xs ++ ys) ≡ some a
  unfolding find
  find-append_hit k [] ys a h = cc
  find-append_hit k (x ∷ xs) ys a h = ground (arith, find-append_hit k xs ys a)

  pub find-append_miss :
      (k : K) (xs ys : List A) → find key k xs ≡ none → find key k (xs ++ ys) ≡ find key k ys
  unfolding find
  find-append_miss k [] ys h = refl
  find-append_miss k (x ∷ xs) ys h = ground (arith, find-append_miss k xs ys)

  -- `push_back` of a new key.
  pub find-push :
      (k : K) (xs : List A) (a : A)
      → find key (key a) xs ≡ none
      → find key k (xs ++ a ∷ []) ≡ (if key a == k then some a else find key k xs)
  unfolding find
  find-push k [] a h = refl
  find-push k (x ∷ xs) a h =
      ground (
        arith,
        e.beq_iff (key x) k,
        e.beq_iff (key a) k,
        e.beq_iff (key x) (key a),
        find-push k xs a,
      )

  pub Distinct-push :
      (xs : List A) (a : A)
      → find key (key a) xs ≡ none
      → Distinct key xs
      → Distinct key (xs ++ a ∷ [])
  unfolding find
  Distinct-push [] a h d = (refl, tt)
  Distinct-push (x ∷ xs) a h d = ground (
    arith,
    e.beq_iff (key x) (key a),
    e.beq_iff (key a) (key x),
    Distinct-push xs a,
    find-append_miss (key x) xs (a ∷ []),
  )

  find_middle : (xs : List A) (y : A) (ys : List A) → find key (key y) (xs ++ y ∷ ys) ≢ none
  unfolding find
  find_middle xs y ys absent = elim (Option-cases (find key (key y) xs)) [
    | inl miss ↦
        let hit : find key (key y) (y ∷ ys) ≡ some y = rw (==_refl (key y)) refl in
        let is = sym (find-append_miss (key y) xs (y ∷ ys) miss) ∙ absent in cc (hit, is)
    | inr (a, hit) ↦ let is = find-append_hit (key y) xs (y ∷ ys) a hit in cc (is, absent)
  ]

  -- No element has the key of one that is behind it.
  pub find-middle-none :
      (xs : List A) (y : A) (ys : List A) → Distinct key (xs ++ y ∷ ys) → find key (key y) xs ≡ none
  unfolding find
  find-middle-none [] y ys distinct = refl
  find-middle-none (x ∷ xs) y ys distinct = elim (Bool-cases (key x == key y)) [
    | inl same ↦
        let keys = (==_iff (key x) (key y)).0 same in
        absurd (find_middle xs y ys (subst (λ k. find key k (xs ++ y ∷ ys) ≡ none) keys distinct.0))
    | inr other ↦ rw other (find-middle-none xs y ys distinct.1)
  ]

  module _ (f : A → A) (keeps : (a : A) → key (f a) ≡ key a) where
    pub find-modify :
        (k j : K) (xs : List A)
        → find key j (modify key k f xs) ≡ (
            if j == k
            then elim (find key k xs) [ none ↦ none | some a ↦ some (f a) ]
            else find key j xs)
    unfolding find modify
    find-modify k j [] = ground arith
    find-modify k j (x ∷ xs) = ground (
      arith,
      keeps x,
      e.beq_iff (key x) k,
      e.beq_iff (key x) j,
      e.beq_iff j k,
      find-modify k j xs,
    )

    pub keys-modify : (k : K) (xs : List A) → map key (modify key k f xs) ≡ map key xs
    unfolding modify
    keys-modify k [] = refl
    keys-modify k (x ∷ xs) = ground (arith, keeps x, keys-modify k xs)

    pub Distinct-modify : (k : K) (xs : List A) → Distinct key xs → Distinct key (modify key k f xs)
    unfolding modify
    Distinct-modify k [] d = tt
    Distinct-modify k (x ∷ xs) d =
        ground (arith, keeps x, find-modify k (key x) xs, Distinct-modify k xs, e.beq_iff (key x) k)

  pub find-erase_self : (k : K) (xs : List A) → Distinct key xs → find key k (erase key k xs) ≡ none
  unfolding find erase
  find-erase_self k [] d = refl
  find-erase_self k (x ∷ xs) d = ground (arith, e.beq_iff (key x) k, find-erase_self k xs)

  pub find-erase_ne : (k j : K) (xs : List A) → j ≢ k → find key j (erase key k xs) ≡ find key j xs
  unfolding find erase
  find-erase_ne k j [] h = refl
  find-erase_ne k j (x ∷ xs) h =
      ground (arith, e.beq_iff (key x) k, e.beq_iff (key x) j, find-erase_ne k j xs)

  pub erase-none : (k : K) (xs : List A) → find key k xs ≡ none → erase key k xs ≡ xs
  unfolding find erase
  erase-none k [] h = refl
  erase-none k (x ∷ xs) h = ground (arith, erase-none k xs)

  -- Erasing never brings a key in.
  pub find-erase-none :
      (k j : K) (xs : List A) → find key j xs ≡ none → find key j (erase key k xs) ≡ none
  unfolding find erase
  find-erase-none k j [] h = refl
  find-erase-none k j (x ∷ xs) h = ground (arith, find-erase-none k j xs)

  pub Distinct-erase : (k : K) (xs : List A) → Distinct key xs → Distinct key (erase key k xs)
  unfolding erase
  Distinct-erase k [] d = tt
  Distinct-erase k (x ∷ xs) d = ground (arith, Distinct-erase k xs, find-erase-none k (key x) xs)

  pub length-erase :
      (k : K) (xs : List A) (a : A)
      → find key k xs ≡ some a
      → length (erase key k xs) + 1 ≡ length xs
  unfolding find erase
  length-erase k [] a h = cc
  length-erase k (x ∷ xs) a h = ground (arith, length-erase k xs a)

  pub erase_absent : (k : K) (xs : List A) → find key k xs ≡ none → erase key k xs ≡ xs
  unfolding find erase
  erase_absent k [] h = refl
  erase_absent k (x ∷ xs) h = ground (arith, erase_absent k xs)
