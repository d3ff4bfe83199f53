-- ===== src/Fib/Hops.antt =====
-- The loops of the FIB over next hops: the commands leave the table alone, and the hops kept are
-- those of the faces to be installed.
use ndnproject.Prelude.{
  All, Bool, Double, Eq, NdnName, Option-cases, Str, [], arith, if◌then◌else◌, inl, inr, nat_eq,
  none, refl, some, str_beq_iff, str_eq, ◌==◌, ◌||◌, ◌∷◌, ◌≡◌,
}
use ndnproject.Adjacency.{AdjacencyList}
use ndnproject.Keyed.{find}
use ndnproject.Keyed.Laws.{key-find}
use ndnproject.Keyed.Members.{has, self-found}
use ndnproject.NextHop.{
  NextHop, NexthopList, hop_uri, add_next_hop, add_next_hops, remove_next_hop,
  nexthop_remove_compare,
}
use ndnproject.NextHop.Laws.{
  OnePerFace, find-add_next_hop, find-remove_next_hop, remove_next_hop-OnePerFace,
}
use ndnproject.Fib.{
  Fib, unregister_prefix, register_prefix, unregister_hop, register_hop, remove_old_hop,
  unregister_hops, register_hops, remove_old_hops,
}

module _ {D : Type 0} ⦃d : Double D⦄ where
  abbrev pub has_face : Str → NexthopList D → Bool
  has_face = has hop_uri

  has_face-add_next_hop :
      (l : NexthopList D) (nh : NextHop D) (u : Str)
      → has_face u (add_next_hop l nh) ≡ (u == nh.connecting_face_uri || has_face u l)
  unfolding has
  has_face-add_next_hop l nh u = ground (arith, find-add_next_hop l nh u)

  pub has_face-add_next_hops :
      (l hops : NexthopList D) (u : Str)
      → has_face u (add_next_hops l hops) ≡ (has_face u l || has_face u hops)
  unfolding add_next_hops has find
  has_face-add_next_hops l [] u = ground arith
  has_face-add_next_hops l (nh ∷ hops) u = ground (
    arith,
    has_face-add_next_hops (add_next_hop l nh) hops u,
    has_face-add_next_hop l nh u,
    str_beq_iff u nh.connecting_face_uri,
    str_beq_iff nh.connecting_face_uri u,
  )

  find-remove_self :
      (l : NexthopList D) (h : NextHop D) (u : Str)
      → OnePerFace l
      → find hop_uri h.connecting_face_uri l ≡ some h
      → find hop_uri u (remove_next_hop l h)
        ≡ (if u == h.connecting_face_uri then none else find hop_uri u l)
  unfolding nexthop_remove_compare
  find-remove_self l h u o f = elim (Option-cases (find hop_uri u l)) [
    | inl miss ↦ ground (arith, find-remove_next_hop l h u o, str_beq_iff u h.connecting_face_uri)
    | inr (x, hit) ↦ ground (
      arith,
      find-remove_next_hop l h u o,
      key-find hop_uri u l x hit,
      str_beq_iff u h.connecting_face_uri,
      str_beq_iff x.connecting_face_uri h.connecting_face_uri,
    )
  ]

  abbrev AllFound : NexthopList D → NexthopList D → Type 0
  AllFound kept = All (λ h. find hop_uri h.connecting_face_uri kept ≡ some h)

  AllFound-remove :
      (kept hops : NexthopList D) (h : NextHop D)
      → OnePerFace kept
      → find hop_uri h.connecting_face_uri kept ≡ some h
      → find hop_uri h.connecting_face_uri hops ≡ none
      → AllFound kept hops
      → AllFound (remove_next_hop kept h) hops
  unfolding find
  AllFound-remove kept [] h o f m a = tt
  AllFound-remove kept (x ∷ hops) h o f m a = (
    ground (
      arith,
      find-remove_self kept h x.connecting_face_uri o f,
      str_beq_iff x.connecting_face_uri h.connecting_face_uri,
    ),
    AllFound-remove kept hops h o f
        (ground (arith, str_beq_iff x.connecting_face_uri h.connecting_face_uri)) a.1,
  )

module _ {Name D : Type 0} ⦃e : Eq Name⦄ ⦃n : NdnName Name⦄ ⦃d : Double D⦄ where
  -- What `removeOldNextHops...` keeps of the hops that it walks: those with an installed face.
  find-remove_old_hops :
      (adjs : AdjacencyList Name D) (name : Name) (installed hops : NexthopList D) (f : Fib Name D)
      (kept : NexthopList D) (u : Str)
      → OnePerFace kept
      → OnePerFace hops
      → AllFound kept hops
      → find hop_uri u (remove_old_hops adjs name installed hops f kept).1 ≡ (
          if has_face u installed
          then find hop_uri u kept
          else if has_face u hops
          then none
          else find hop_uri u kept)
  unfolding remove_old_hops remove_old_hop has find
  find-remove_old_hops adjs name installed [] f kept u o p a = ground arith
  find-remove_old_hops adjs name installed (h ∷ hops) f kept u o p a =
      elim (Option-cases (find hop_uri h.connecting_face_uri installed)) [
        | inl miss ↦ ground (
          arith,
          find-remove_old_hops adjs name installed hops (unregister_hop adjs name f h)
              (remove_next_hop kept h) u (remove_next_hop-OnePerFace kept h o) p.1
              (AllFound-remove kept hops h o a.0 p.0 a.1),
          find-remove_self kept h u o a.0,
          str_beq_iff u h.connecting_face_uri,
          str_beq_iff h.connecting_face_uri u,
        )
        | inr (x, hit) ↦ ground (
          arith,
          find-remove_old_hops adjs name installed hops f kept u o p.1 a.1,
          str_beq_iff h.connecting_face_uri u,
        )
      ]

  remove_old_hop-OnePerFace :
      (adjs : AdjacencyList Name D) (name : Name) (installed : NexthopList D) (h : NextHop D)
      (f : Fib Name D) (kept : NexthopList D)
      → OnePerFace kept
      → OnePerFace (remove_old_hop adjs name installed h f kept).1
  unfolding remove_old_hop
  remove_old_hop-OnePerFace adjs name installed h f kept o =
      ground (arith, remove_next_hop-OnePerFace kept h o)

  pub remove_old_hops-OnePerFace :
      (adjs : AdjacencyList Name D) (name : Name) (installed hops : NexthopList D) (f : Fib Name D)
      (kept : NexthopList D)
      → OnePerFace kept
      → OnePerFace (remove_old_hops adjs name installed hops f kept).1
  unfolding remove_old_hops
  remove_old_hops-OnePerFace adjs name installed [] f kept o = o
  remove_old_hops-OnePerFace adjs name installed (h ∷ hops) f kept o =
      remove_old_hops-OnePerFace adjs name installed hops
        (remove_old_hop adjs name installed h f kept).0
        (remove_old_hop adjs name installed h f kept).1
        (remove_old_hop-OnePerFace adjs name installed h f kept o)

  -- Walking its own list, it keeps the hops of the installed faces, as they were.
  pub find-remove_old_hops_self :
      (adjs : AdjacencyList Name D) (name : Name) (installed hops : NexthopList D) (f : Fib Name D)
      (u : Str)
      → OnePerFace hops
      → find hop_uri u (remove_old_hops adjs name installed hops f hops).1
        ≡ (if has_face u installed then find hop_uri u hops else none)
  unfolding has
  find-remove_old_hops_self adjs name installed hops f u o = ground (
    arith,
    find-remove_old_hops adjs name installed hops f hops u o o (self-found hop_uri hops o),
  )

  -- Only the list of calls changes in the loops.
  abbrev pub SameBut : Fib Name D → Fib Name D → Type 0
  SameBut f g = (g.table ≡ f.table) × (g.refresh_time ≡ f.refresh_time) × (g.face_map ≡ f.face_map)

  SameBut-trans : (f g h : Fib Name D) → SameBut f g → SameBut g h → SameBut f h
  SameBut-trans f g h a b = ground arith

  unregister_hop-SameBut :
      (adjs : AdjacencyList Name D) (name : Name) (f : Fib Name D) (h : NextHop D)
      → SameBut f (unregister_hop adjs name f h)
  unfolding unregister_hop unregister_prefix
  unregister_hop-SameBut adjs name f h = ground arith

  register_hop-SameBut :
      (adjs : AdjacencyList Name D) (name : Name) (f : Fib Name D) (h : NextHop D)
      → SameBut f (register_hop adjs name f h)
  unfolding register_hop register_prefix
  register_hop-SameBut adjs name f h = ground arith

  remove_old_hop-SameBut :
      (adjs : AdjacencyList Name D) (name : Name) (installed : NexthopList D) (h : NextHop D)
      (f : Fib Name D) (kept : NexthopList D)
      → SameBut f (remove_old_hop adjs name installed h f kept).0
  unfolding remove_old_hop
  remove_old_hop-SameBut adjs name installed h f kept =
      ground (arith, unregister_hop-SameBut adjs name f h)

  pub unregister_hops-SameBut :
      (adjs : AdjacencyList Name D) (name : Name) (hops : NexthopList D) (f : Fib Name D)
      → SameBut f (unregister_hops adjs name hops f)
  unfolding unregister_hops
  unregister_hops-SameBut adjs name [] f = (refl, refl, refl)
  unregister_hops-SameBut adjs name (h ∷ hops) f =
      let g = unregister_hop adjs name f h in
      SameBut-trans f g (unregister_hops adjs name hops g) (unregister_hop-SameBut adjs name f h)
        (unregister_hops-SameBut adjs name hops g)

  pub register_hops-SameBut :
      (adjs : AdjacencyList Name D) (name : Name) (hops : NexthopList D) (f : Fib Name D)
      → SameBut f (register_hops adjs name hops f)
  unfolding register_hops
  register_hops-SameBut adjs name [] f = (refl, refl, refl)
  register_hops-SameBut adjs name (h ∷ hops) f =
      let g = register_hop adjs name f h in
      SameBut-trans f g (register_hops adjs name hops g) (register_hop-SameBut adjs name f h)
        (register_hops-SameBut adjs name hops g)

  pub remove_old_hops-SameBut :
      (adjs : AdjacencyList Name D) (name : Name) (installed hops : NexthopList D) (f : Fib Name D)
      (kept : NexthopList D)
      → SameBut f (remove_old_hops adjs name installed hops f kept).0
  unfolding remove_old_hops
  remove_old_hops-SameBut adjs name installed [] f kept = (refl, refl, refl)
  remove_old_hops-SameBut adjs name installed (h ∷ hops) f kept =
      let g = remove_old_hop adjs name installed h f kept in
      SameBut-trans f g.0 (remove_old_hops adjs name installed hops g.0 g.1).0
        (remove_old_hop-SameBut adjs name installed h f kept)
        (remove_old_hops-SameBut adjs name installed hops g.0 g.1)
