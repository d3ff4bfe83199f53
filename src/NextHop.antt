-- ===== src/NextHop.antt =====
-- src/route/nexthop.hpp, src/route/nexthop-list.hpp and src/route/nexthop-list.cpp: next hops and
-- the list of them that a route has.
pub mod Laws
pub mod Best
use ndnproject.Prelude.{
  Bool, Double, List, Str, [], false, if◌then◌else◌, ltb, nat_eq, none, some, str_eq, str_ltb, true,
  ℕ, ◌&&◌, ◌++◌, ◌==◌, ◌∷◌,
}
use ndnproject.Keyed.{find, modify}
use ndnproject.Sorting

pub record NextHop (D : Type 0) : Type 0 where
  pub connecting_face_uri : Str
  pub route_cost : D
  pub is_hyperbolic : Bool

abbrev pub NexthopList : Type 0 → Type 0
NexthopList D = List (NextHop D)

abbrev pub hop_uri : {D : Type 0} → NextHop D → Str
hop_uri h = h.connecting_face_uri

-- `HYPERBOLIC_COST_ADJUSTMENT_FACTOR`.
abbrev pub hyperbolic_cost_adjustment_factor : ℕ
hyperbolic_cost_adjustment_factor = 1000

module _ {D : Type 0} ⦃d : Double D⦄ where
  -- `NextHop(cfu, rc)`.
  unfoldable pub new_next_hop : Str → D → NextHop D
  new_next_hop cfu rc = record { connecting_face_uri = cfu; route_cost = rc; is_hyperbolic = false }

  unfoldable pub get_route_cost_as_adjusted_integer : NextHop D → ℕ
  get_route_cost_as_adjusted_integer h =
      if h.is_hyperbolic
      then d.trunc (d.round (d.mul h.route_cost (d.of_ℕ hyperbolic_cost_adjustment_factor)))
      else d.trunc h.route_cost

  unfoldable pub nexthop_remove_compare : NextHop D → NextHop D → Bool
  nexthop_remove_compare h k =
      h.connecting_face_uri == k.connecting_face_uri
      && get_route_cost_as_adjusted_integer h == get_route_cost_as_adjusted_integer k

  unfoldable pub next_hop_sorting_comparator : NextHop D → NextHop D → Bool
  next_hop_sorting_comparator h k =
      if ltb (get_route_cost_as_adjusted_integer h) (get_route_cost_as_adjusted_integer k)
      then true
      else if get_route_cost_as_adjusted_integer h == get_route_cost_as_adjusted_integer k
      then str_ltb h.connecting_face_uri k.connecting_face_uri
      else false

  -- `addNextHop`: a known face keeps the lower of the two costs.
  unfoldable pub add_next_hop : NexthopList D → NextHop D → NexthopList D
  add_next_hop l nh = elim (find hop_uri nh.connecting_face_uri l) [
    | none ↦ l ++ nh ∷ []
    | some h ↦
        if d.lt nh.route_cost h.route_cost
        then modify hop_uri nh.connecting_face_uri (λ x. record x { route_cost = nh.route_cost }) l
        else l
  ]

  unfoldable pub remove_next_hop : NexthopList D → NextHop D → NexthopList D
  unfolding nexthop_remove_compare
  remove_next_hop [] nh = []
  remove_next_hop (h ∷ l) nh = if nexthop_remove_compare h nh then l else h ∷ remove_next_hop l nh

  unfoldable pub sort : NexthopList D → NexthopList D
  sort = Sorting.sort next_hop_sorting_comparator

  -- The loops that hand each hop of one list to `addNextHop` of another.
  unfoldable pub add_next_hops : NexthopList D → NexthopList D → NexthopList D
  unfolding add_next_hop
  add_next_hops l [] = l
  add_next_hops l (nh ∷ hops) = add_next_hops (add_next_hop l nh) hops
