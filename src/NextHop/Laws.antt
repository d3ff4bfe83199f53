-- ===== src/NextHop/Laws.antt =====
-- A list of next hops has one hop for each face, and `sort` orders it by cost and then by face.
use ndnproject.Prelude.{
  All, Double, Option, Option-cases, Str, [], arith, false, if◌then◌else◌, inl, inr, length, nat_eq,
  none, refl, some, str_beq_iff, str_eq, str_ltb, str_ltb_asymm, str_ltb_trans, true, ◌<◌, ◌==◌,
  ◌∷◌, ◌≡◌, ◌⊎◌,
}
use mathlib.Core.List.{Perm}
use ndnproject.Keyed.{find, Distinct}
use ndnproject.Keyed.Laws.{key-find, find-push, find-modify, Distinct-push, Distinct-modify}
use ndnproject.Sorting
use ndnproject.Sorting.{IsSorted}
use ndnproject.NextHop.{
  NextHop, NexthopList, hop_uri, next_hop_sorting_comparator, get_route_cost_as_adjusted_integer,
  nexthop_remove_compare, add_next_hop, remove_next_hop, sort, add_next_hops,
}

module _ {D : Type 0} ⦃d : Double D⦄ where
  abbrev pub OnePerFace : NexthopList D → Type 0
  OnePerFace = Distinct hop_uri

  -- `h` at the cost of `nh` if that is lower.
  abbrev pub cheaper : NextHop D → NextHop D → NextHop D
  cheaper nh h =
      if d.lt nh.route_cost h.route_cost then record h { route_cost = nh.route_cost } else h

  abbrev pub merged : NextHop D → Option (NextHop D) → NextHop D
  merged nh none = nh
  merged nh (some h) = cheaper nh h

  -- Adding a hop leaves its face with the hop itself if the face is new, and otherwise with the old
  -- hop at the lower of the two costs; every other face keeps what it had.
  pub find-add_next_hop :
      (l : NexthopList D) (nh : NextHop D) (u : Str)
      → find hop_uri u (add_next_hop l nh) ≡ (
          if u == nh.connecting_face_uri
          then some (merged nh (find hop_uri u l))
          else find hop_uri u l)
  unfolding add_next_hop
  find-add_next_hop l nh u = ground (
    arith,
    str_beq_iff u nh.connecting_face_uri,
    str_beq_iff nh.connecting_face_uri u,
    find-push hop_uri u l nh,
    find-modify hop_uri (λ (x : NextHop D). record x { route_cost = nh.route_cost }) (λ x. refl)
        nh.connecting_face_uri u l,
  )

  pub add_next_hop-OnePerFace :
      (l : NexthopList D) (nh : NextHop D) → OnePerFace l → OnePerFace (add_next_hop l nh)
  unfolding add_next_hop
  add_next_hop-OnePerFace l nh h = ground (
    arith,
    Distinct-push hop_uri l nh,
    Distinct-modify hop_uri (λ (x : NextHop D). record x { route_cost = nh.route_cost }) (λ x. refl)
        nh.connecting_face_uri l,
  )

  pub add_next_hops-OnePerFace :
      (l hops : NexthopList D) → OnePerFace l → OnePerFace (add_next_hops l hops)
  unfolding add_next_hops
  add_next_hops-OnePerFace l [] h = h
  add_next_hops-OnePerFace l (nh ∷ hops) h =
      add_next_hops-OnePerFace (add_next_hop l nh) hops (add_next_hop-OnePerFace l nh h)

  comparator_asymm :
      (a b : NextHop D)
      → next_hop_sorting_comparator a b ≡ true
      → next_hop_sorting_comparator b a ≡ false
  unfolding next_hop_sorting_comparator
  comparator_asymm a b h = ground (arith, str_ltb_asymm a.connecting_face_uri b.connecting_face_uri)

  comparator_trans :
      (a b c : NextHop D)
      → next_hop_sorting_comparator b a ≡ false
      → next_hop_sorting_comparator c b ≡ false
      → next_hop_sorting_comparator c a ≡ false
  unfolding next_hop_sorting_comparator
  comparator_trans a b c h k =
      ground
        (arith, str_ltb_trans a.connecting_face_uri b.connecting_face_uri c.connecting_face_uri)

  -- The first hop is no dearer than the second, by the costs as adjusted integers, and if they cost the same its
  -- face is not the later one.
  abbrev pub IsBefore : NextHop D → NextHop D → Type 0
  IsBefore h k =
      (get_route_cost_as_adjusted_integer h < get_route_cost_as_adjusted_integer k)
      ⊎ ((get_route_cost_as_adjusted_integer h ≡ get_route_cost_as_adjusted_integer k)
          × (str_ltb k.connecting_face_uri h.connecting_face_uri ≡ false))

  -- Each hop comes before every later one.
  abbrev pub IsOrdered : NexthopList D → Type 0
  IsOrdered [] = Unit
  IsOrdered (h ∷ l) = All (IsBefore h) l × IsOrdered l

  comparator-IsBefore : (h k : NextHop D) → next_hop_sorting_comparator k h ≡ false → IsBefore h k
  unfolding next_hop_sorting_comparator
  comparator-IsBefore h k later = ground arith

  All-IsBefore :
      (h : NextHop D) (l : NexthopList D)
      → All (λ k. next_hop_sorting_comparator k h ≡ false) l
      → All (IsBefore h) l
  All-IsBefore h [] a = tt
  All-IsBefore h (k ∷ l) a = (comparator-IsBefore h k a.0, All-IsBefore h l a.1)

  IsSorted-IsOrdered : (l : NexthopList D) → IsSorted next_hop_sorting_comparator l → IsOrdered l
  IsSorted-IsOrdered [] s = tt
  IsSorted-IsOrdered (h ∷ l) s = (All-IsBefore h l s.0, IsSorted-IsOrdered l s.1)

  -- `sort` leaves the hops that a list has, each as often as the list has it, in the order of their costs as
  -- adjusted integers and, at one cost, of their faces.
  pub sort-IsOrdered : (l : NexthopList D) → IsOrdered (sort l) × Perm (sort l) l
  unfolding sort
  sort-IsOrdered l = (
    IsSorted-IsOrdered (sort l)
        (Sorting.sort-IsSorted next_hop_sorting_comparator comparator_asymm comparator_trans l),
    Sorting.sort-perm next_hop_sorting_comparator l,
  )

  pub find-sort :
      (u : Str) (l : NexthopList D) → OnePerFace l → find hop_uri u (sort l) ≡ find hop_uri u l
  unfolding sort
  find-sort = Sorting.find-sort hop_uri next_hop_sorting_comparator

  pub sort-OnePerFace : (l : NexthopList D) → OnePerFace l → OnePerFace (sort l)
  unfolding sort
  sort-OnePerFace = Sorting.Distinct-sort hop_uri next_hop_sorting_comparator

  pub length-sort : (l : NexthopList D) → length (sort l) ≡ length l
  unfolding sort
  length-sort = Sorting.length-sort next_hop_sorting_comparator

  -- Of a list with one hop for each face, removing a hop takes out the one with its face if that has
  -- its adjusted cost too, and no other.
  pub find-remove_next_hop :
      (l : NexthopList D) (nh : NextHop D) (u : Str)
      → OnePerFace l
      → find hop_uri u (remove_next_hop l nh) ≡ elim (find hop_uri u l) [
        | none ↦ none
        | some h ↦ if nexthop_remove_compare h nh then none else some h
      ]
  unfolding remove_next_hop find
  find-remove_next_hop [] nh u o = refl
  find-remove_next_hop (h ∷ l) nh u o = elim (Option-cases (find hop_uri u l)) [
    | inl miss ↦ ground (
      arith,
      str_beq_iff h.connecting_face_uri u,
      str_beq_iff h.connecting_face_uri nh.connecting_face_uri,
      find-remove_next_hop l nh u o.1,
    )
    | inr (x, hit) ↦ ground (
      arith,
      str_beq_iff h.connecting_face_uri u,
      str_beq_iff h.connecting_face_uri nh.connecting_face_uri,
      str_beq_iff x.connecting_face_uri nh.connecting_face_uri,
      key-find hop_uri u l x,
      find-remove_next_hop l nh u o.1,
    )
  ]

  pub remove_next_hop-OnePerFace :
      (l : NexthopList D) (nh : NextHop D) → OnePerFace l → OnePerFace (remove_next_hop l nh)
  unfolding remove_next_hop
  remove_next_hop-OnePerFace [] nh o = tt
  remove_next_hop-OnePerFace (h ∷ l) nh o = ground (
    arith,
    remove_next_hop-OnePerFace l nh o.1,
    find-remove_next_hop l nh h.connecting_face_uri o.1,
  )
