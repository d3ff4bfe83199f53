-- ===== src/NextHop/Best.antt =====
-- What a list keeps when many hops are added to it: for each face the lowest cost offered.
use ndnproject.Prelude.{
  ==_refl, All, Bool-cases, Double, Option, Str, [], arith, false, inl, inr, nat_eq, none, refl,
  some, str_beq_iff, str_eq, ◌==◌, ◌∷◌, ◌≡◌, ◌⊎◌,
}
use ndnproject.Keyed.{find}
use ndnproject.NextHop.{NextHop, NexthopList, hop_uri, add_next_hop, add_next_hops}
use ndnproject.NextHop.Laws.{merged, find-add_next_hop}

module _ {D : Type 0} ⦃d : Double D⦄ where
  -- A hop of the list has the face `u`.
  abbrev pub Offers : Str → NexthopList D → Type 0
  Offers u [] = ⊥
  Offers u (h ∷ l) = (h.connecting_face_uri ≡ u) ⊎ Offers u l

  -- No hop of the list with the face `u` costs less than `c`.
  abbrev pub NoneCheaper : Str → D → NexthopList D → Type 0
  NoneCheaper u c l = All (λ h. h.connecting_face_uri ≡ u → d.lt h.route_cost c ≡ false) l

  -- Some hop of the list with the face `u` costs `c`.
  abbrev pub Costs : Str → D → NexthopList D → Type 0
  Costs u c [] = ⊥
  Costs u c (h ∷ l) = ((h.connecting_face_uri ≡ u) × (h.route_cost ≡ c)) ⊎ Costs u c l

  -- A hop kept is no dearer than before.
  abbrev pub NotDearer : Option (NextHop D) → Option (NextHop D) → Type 0
  NotDearer none after = Unit {0}
  NotDearer (some h) none = ⊥
  NotDearer (some h) (some k) = d.lt h.route_cost k.route_cost ≡ false

  NotDearer-refl : (o : Option (NextHop D)) → NotDearer o o
  NotDearer-refl none = tt
  NotDearer-refl (some h) = d.lt_irrefl h.route_cost

  NotDearer-trans : (o p q : Option (NextHop D)) → NotDearer o p → NotDearer p q → NotDearer o q
  NotDearer-trans none p q a b = tt
  NotDearer-trans (some h) none q a b = absurd a
  NotDearer-trans (some h) (some k) none a b = absurd b
  NotDearer-trans (some h) (some k) (some j) a b =
      d.not-lt_trans j.route_cost k.route_cost h.route_cost b a

  NotDearer-merged : (nh : NextHop D) (o : Option (NextHop D)) → NotDearer o (some (merged nh o))
  NotDearer-merged nh none = tt
  NotDearer-merged nh (some h) =
      ground (arith, d.lt_irrefl h.route_cost, d.lt_asymm nh.route_cost h.route_cost)

  NotDearer-new :
      (nh : NextHop D) (o : Option (NextHop D)) → NotDearer (some nh) (some (merged nh o))
  NotDearer-new nh none = d.lt_irrefl nh.route_cost
  NotDearer-new nh (some h) = ground (arith, d.lt_irrefl nh.route_cost)

  add_next_hop-NotDearer :
      (l : NexthopList D) (nh : NextHop D) (u : Str)
      → NotDearer (find hop_uri u l) (find hop_uri u (add_next_hop l nh))
  add_next_hop-NotDearer l nh u =
      rw (find-add_next_hop l nh u) (elim (Bool-cases (u == nh.connecting_face_uri)) [
        | inl same ↦ rw same (NotDearer-merged nh (find hop_uri u l))
        | inr other ↦ rw other (NotDearer-refl (find hop_uri u l))
      ])

  add_next_hops-NotDearer :
      (l hops : NexthopList D) (u : Str)
      → NotDearer (find hop_uri u l) (find hop_uri u (add_next_hops l hops))
  unfolding add_next_hops
  add_next_hops-NotDearer l [] u = NotDearer-refl (find hop_uri u l)
  add_next_hops-NotDearer l (nh ∷ hops) u =
      NotDearer-trans (find hop_uri u l) (find hop_uri u (add_next_hop l nh))
        (find hop_uri u (add_next_hops (add_next_hop l nh) hops)) (add_next_hop-NotDearer l nh u)
        (add_next_hops-NotDearer (add_next_hop l nh) hops u)

  abbrev pub NotDearerThan : NexthopList D → NextHop D → Type 0
  NotDearerThan l nh = NotDearer (some nh) (find hop_uri nh.connecting_face_uri l)

  add_next_hop-new : (l : NexthopList D) (nh : NextHop D) → NotDearerThan (add_next_hop l nh) nh
  add_next_hop-new l nh =
      rw (find-add_next_hop l nh nh.connecting_face_uri, ==_refl nh.connecting_face_uri)
        (NotDearer-new nh (find hop_uri nh.connecting_face_uri l))

  -- Every hop added is found again under its face, at its cost or a lower one.
  pub add_next_hops-NotDearerThan :
      (l hops : NexthopList D) → All (NotDearerThan (add_next_hops l hops)) hops
  unfolding add_next_hops
  add_next_hops-NotDearerThan l [] = tt
  add_next_hops-NotDearerThan l (nh ∷ hops) = (
    NotDearer-trans (some nh) (find hop_uri nh.connecting_face_uri (add_next_hop l nh))
        (find hop_uri nh.connecting_face_uri (add_next_hops (add_next_hop l nh) hops))
        (add_next_hop-new l nh)
        (add_next_hops-NotDearer (add_next_hop l nh) hops nh.connecting_face_uri),
    add_next_hops-NotDearerThan (add_next_hop l nh) hops,
  )

  abbrev HasCost : D → Option (NextHop D) → Type 0
  HasCost c none = ⊥
  HasCost c (some h) = h.route_cost ≡ c

  -- The cost that a face has after the additions was offered for it, or was there before.
  abbrev FromBoth : Str → Option (NextHop D) → NexthopList D → Option (NextHop D) → Type 0
  FromBoth u before hops none = Unit {0}
  FromBoth u before hops (some k) = Costs u k.route_cost hops ⊎ HasCost k.route_cost before

  FromBoth-refl : (u : Str) (o : Option (NextHop D)) → FromBoth u o [] o
  FromBoth-refl u none = tt
  FromBoth-refl u (some k) = inr refl

  FromBoth-step :
      (u : Str) (l : NexthopList D) (nh : NextHop D) (hops : NexthopList D) (o : Option (NextHop D))
      → FromBoth u (find hop_uri u (add_next_hop l nh)) hops o
      → FromBoth u (find hop_uri u l) (nh ∷ hops) o
  FromBoth-step u l nh hops none h = tt
  FromBoth-step u l nh hops (some k) (inl c) = inl (inr c)
  FromBoth-step u l nh hops (some k) (inr c) =
      ground (arith, find-add_next_hop l nh u, str_beq_iff u nh.connecting_face_uri)

  add_next_hops-FromBoth :
      (l hops : NexthopList D) (u : Str)
      → FromBoth u (find hop_uri u l) hops (find hop_uri u (add_next_hops l hops))
  unfolding add_next_hops
  add_next_hops-FromBoth l [] u = FromBoth-refl u (find hop_uri u l)
  add_next_hops-FromBoth l (nh ∷ hops) u =
      FromBoth-step u l nh hops (find hop_uri u (add_next_hops (add_next_hop l nh) hops))
        (add_next_hops-FromBoth (add_next_hop l nh) hops u)

  -- Of all the hops offered, what is kept for the face `u`: nothing if none was offered, and
  -- otherwise a cost that was offered and that no offer undercuts.
  abbrev pub Best : Str → NexthopList D → Option (NextHop D) → Type 0
  Best u hops none = ¬ Offers u hops
  Best u hops (some k) = Costs u k.route_cost hops × NoneCheaper u k.route_cost hops

  not-Offers :
      (l : NexthopList D) (u : Str) (hops : NexthopList D)
      → find hop_uri u l ≡ none
      → All (NotDearerThan l) hops
      → ¬ Offers u hops
  not-Offers l u [] e a o = elim o [ ]
  not-Offers l u (h ∷ hops) e a (inl same) =
      let face : find hop_uri h.connecting_face_uri l ≡ none = rw same e in rw face at a.0
  not-Offers l u (h ∷ hops) e a (inr o) = not-Offers l u hops e a.1 o

  All-NoneCheaper :
      (l : NexthopList D) (u : Str) (k : NextHop D) (hops : NexthopList D)
      → find hop_uri u l ≡ some k
      → All (NotDearerThan l) hops
      → NoneCheaper u k.route_cost hops
  All-NoneCheaper l u k [] e a = tt
  All-NoneCheaper l u k (h ∷ hops) e a = (
    λ same. let face : find hop_uri h.connecting_face_uri l ≡ some k = rw same e in rw face at a.0,
    All-NoneCheaper l u k hops e a.1,
  )

  add_next_hops-Best :
      (hops : NexthopList D) (u : Str) (o : Option (NextHop D))
      → find hop_uri u (add_next_hops [] hops) ≡ o
      → FromBoth u none hops o
      → Best u hops o
  add_next_hops-Best hops u none e f =
      not-Offers (add_next_hops [] hops) u hops e (add_next_hops-NotDearerThan [] hops)
  add_next_hops-Best hops u (some k) e (inl c) =
      (c, All-NoneCheaper (add_next_hops [] hops) u k hops e (add_next_hops-NotDearerThan [] hops))
  add_next_hops-Best hops u (some k) e (inr c) = absurd c

  -- A list filled from an empty one has, for each face, the cheapest of the offers.
  pub find-add_next_hops :
      (hops : NexthopList D) (u : Str) → Best u hops (find hop_uri u (add_next_hops [] hops))
  unfolding find
  find-add_next_hops hops u =
      add_next_hops-Best hops u (find hop_uri u (add_next_hops [] hops)) refl
        (add_next_hops-FromBoth [] hops u)
