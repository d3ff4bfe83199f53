-- ===== src/Fib/Kept.antt =====
-- The hops that an update leaves in an entry: the old ones and the new ones merged and sorted, and
-- then those of the faces to be installed.
use ndnproject.Prelude.{
  Double, Eq, NdnName, Str, [], arith, nat_eq, refl, str_eq, ◌||◌, ◌∷◌, ◌≡◌, ◌≢◌,
}
use ndnproject.Adjacency.{AdjacencyList}
use ndnproject.Keyed.{find}
use ndnproject.Keyed.Members.{has, has_head}
use ndnproject.NextHop
use ndnproject.NextHop.{NexthopList, hop_uri, add_next_hops}
use ndnproject.NextHop.Laws.{OnePerFace, add_next_hops-OnePerFace, find-sort, sort-OnePerFace}
use ndnproject.Fib.Hops.{
  has_face, has_face-add_next_hops, find-remove_old_hops_self, remove_old_hops-OnePerFace,
}
use ndnproject.Fib.{Fib, remove_old_hops}

module _ {D : Type 0} ⦃d : Double D⦄ where
  -- The hops of an entry after an update to `hops`.
  abbrev pub HasFacesOf : NexthopList D → NexthopList D → Type 0
  HasFacesOf hops l = OnePerFace l × ((u : Str) → has_face u l ≡ has_face u hops)

  unfoldable pub filled_hops : NexthopList D → NexthopList D → NexthopList D
  filled_hops old hops = NextHop.sort (add_next_hops old hops)

  filled_hops-OnePerFace :
      (old hops : NexthopList D) → OnePerFace old → OnePerFace (filled_hops old hops)
  unfolding filled_hops
  filled_hops-OnePerFace old hops o =
      sort-OnePerFace (add_next_hops old hops) (add_next_hops-OnePerFace old hops o)

  has_face-filled_hops :
      (old hops : NexthopList D) (u : Str)
      → OnePerFace old
      → has_face u (filled_hops old hops) ≡ (has_face u old || has_face u hops)
  unfolding filled_hops has
  has_face-filled_hops old hops u o = ground (
    arith,
    has_face-add_next_hops old hops u,
    find-sort u (add_next_hops old hops) (add_next_hops-OnePerFace old hops o),
  )

  pub new_hops-HasFacesOf : (hops : NexthopList D) → HasFacesOf hops (filled_hops [] hops)
  unfolding has find
  new_hops-HasFacesOf hops =
      (filled_hops-OnePerFace [] hops tt, λ u. ground (arith, has_face-filled_hops [] hops u tt))

  pub HasFacesOf-nonempty : (hops l : NexthopList D) → HasFacesOf hops l → hops ≢ [] → l ≢ []
  unfolding has find
  HasFacesOf-nonempty [] l h ne = absurd (ne refl)
  HasFacesOf-nonempty (x ∷ hops) l h ne =
      λ e0. ground (arith, has_head hop_uri x hops, h.1 x.connecting_face_uri)

module _ {Name D : Type 0} ⦃e : Eq Name⦄ ⦃n : NdnName Name⦄ ⦃d : Double D⦄ where
  unfoldable pub kept_hops :
      AdjacencyList Name D → Name → NexthopList D → Fib Name D → NexthopList D → NexthopList D
  kept_hops adjs name hops f old =
      (remove_old_hops adjs name hops (filled_hops old hops) f (filled_hops old hops)).1

  pub kept_hops-HasFacesOf :
      (adjs : AdjacencyList Name D) (name : Name) (hops : NexthopList D) (f : Fib Name D)
      (old : NexthopList D)
      → OnePerFace old
      → HasFacesOf hops (kept_hops adjs name hops f old)
  unfolding kept_hops has
  kept_hops-HasFacesOf adjs name hops f old o =
      let o' = filled_hops-OnePerFace old hops o in
      (
        remove_old_hops-OnePerFace adjs name hops (filled_hops old hops) f (filled_hops old hops)
            o',
        λ u. ground (
          arith,
          find-remove_old_hops_self adjs name hops (filled_hops old hops) f u o',
          has_face-filled_hops old hops u o,
        ),
      )
