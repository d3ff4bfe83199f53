-- ===== src/Dijkstra/Shortest.antt =====
-- src/route/routing-table-calculator.cpp: no walk is shorter than the calculated distance.
use ndnproject.Prelude.{
  Bool-cases, List, [], arith, false, if◌then◌else◌, inl, inr, nat_beq_iff, nat_eq, refl, some,
  str_eq, subst, suc, sym, zero, ℕ, ◌+◌, ◌<◌, ◌==◌, ◌∷◌, ◌≡◌, ◌≤◌,
}
use ndnproject.Calculator.{Matrix, up_to}
use ndnproject.Dijkstra.{
  Paths, inf_distance, no_paths, is_not_explored, relax_all, explore, count, sort_queue_by_distance,
  do_dijkstra_path_calculation,
}
use ndnproject.Dijkstra.Exploring.{
  Exploring, explore-Exploring, sorted-Exploring, explored-first, is_not_explored-up_to,
  count-up_to,
}
use ndnproject.Dijkstra.Queue.{NearestFirst, sort_queue-NearestFirst, sort_queue-count}
use ndnproject.Dijkstra.Walks.{Walk, stay, link}

module _ (n_routers : ℕ) (m : Matrix) (source : ℕ) where
  -- Every link of a router that was reached was looked at.
  record IsFinal (dist : ℕ → ℕ) : Type 0 where
    bounded : (x : ℕ) → dist x ≤ inf_distance
    source_zero : dist source ≤ 0
    no_shortcut :
        (x y : ℕ) → y < n_routers → dist x < inf_distance → 0 < m x y → dist y ≤ dist x + m x y

  none_queued : (dist : ℕ → ℕ) → Exploring n_routers m source dist [] → IsFinal dist
  unfolding is_not_explored
  none_queued dist e = record {
    bounded = e.bounded;
    source_zero = e.source_zero;
    no_shortcut = λ x y b k up. e.no_shortcut x y b refl k up;
  }

  -- The queue may hold routers that no walk reaches.
  rest_unreached :
      (u : ℕ) (queue : List ℕ) (dist : ℕ → ℕ)
      → Exploring n_routers m source dist (u ∷ queue)
      → NearestFirst dist (u ∷ queue)
      → dist u ≡ inf_distance
      → IsFinal dist
  unfolding NearestFirst
  rest_unreached u queue dist e first far = record {
    bounded = e.bounded;
    source_zero = e.source_zero;
    no_shortcut = λ x y b k up. elim (Bool-cases (is_not_explored queue x)) [
      | inl queued ↦ absurd (ground (arith, first x queued))
      | inr explored ↦ elim (explored-first u queue x explored) [
        | inl same ↦ absurd (unreached (subst (λ z. dist z < inf_distance) same k))
        | inr before ↦ e.no_shortcut x y b before k up
      ]
    ];
  }
    where
      unreached : dist u < inf_distance → ⊥
      unreached k = omega (arith, far)

  explore-IsFinal :
      (turns : ℕ) (p : Paths) (queue : List ℕ)
      → count queue ≤ turns
      → NearestFirst p.distance queue
      → Exploring n_routers m source p.distance queue
      → IsFinal (explore n_routers m turns p queue).distance
  unfolding explore count
  explore-IsFinal zero p [] enough first e = none_queued p.distance e
  explore-IsFinal zero p (u ∷ queue) enough first e = absurd (omega arith)
  explore-IsFinal (suc turns) p [] enough first e = none_queued p.distance e
  explore-IsFinal (suc turns) p (u ∷ queue) enough first e =
      elim (Bool-cases (p.distance u == inf_distance)) [
        | inl far ↦
            rw far (rest_unreached u queue p.distance e first ((nat_beq_iff _ inf_distance).0 far))
        | inr near ↦
            let after = relax_all m queue u p (up_to n_routers) in
            let below : p.distance u < inf_distance = ground (arith, e.bounded u) in
            rw near (
              explore-IsFinal turns after (sort_queue_by_distance after.distance queue)
                (ground (arith, sort_queue-count after.distance queue))
                (sort_queue-NearestFirst after.distance queue)
                (sorted-Exploring n_routers m source after.distance queue
                  (explore-Exploring n_routers m source u queue p e first below)))
      ]

  unfoldable first_distance : ℕ → ℕ
  first_distance i = if i == source then 0 else inf_distance

  first-Exploring :
      source < n_routers → Exploring n_routers m source first_distance (up_to n_routers)
  unfolding first_distance
  first-Exploring known = record {
    bounded = λ x. ground arith;
    source_zero = ground arith;
    reached = λ y b h. absurd (ground (arith, is_not_explored-up_to n_routers y b));
    nearer = λ x y h k queued. absurd (beyond x h k);
    no_shortcut = λ x y b h k up. absurd (beyond x h k);
  }
    where
      beyond :
          (x : ℕ)
          → is_not_explored (up_to n_routers) x ≡ false
          → first_distance x < inf_distance
          → ⊥
      beyond x h k = elim (Bool-cases (x == source)) [
        | inl here ↦
            let x_known = subst (λ z. z < n_routers) (sym ((nat_beq_iff x source).0 here)) known in
            ground (arith, is_not_explored-up_to n_routers x x_known)
        | inr there ↦ ground arith
      ]

  do_dijkstra-IsFinal :
      source < n_routers → IsFinal (do_dijkstra_path_calculation n_routers m (some source)).distance
  unfolding do_dijkstra_path_calculation no_paths first_distance
  do_dijkstra-IsFinal known =
      explore-IsFinal n_routers _ (sort_queue_by_distance first_distance (up_to n_routers))
        (ground (arith, sort_queue-count first_distance (up_to n_routers), count-up_to n_routers))
        (sort_queue-NearestFirst first_distance (up_to n_routers))
        (sorted-Exploring n_routers m source first_distance (up_to n_routers)
          (first-Exploring known))

  IsFinal-shortest :
      (dist : ℕ → ℕ) (v cost : ℕ)
      → ((x y : ℕ) → 0 < m x y → y < n_routers)
      → IsFinal dist
      → Walk m source v cost
      → cost < inf_distance
      → dist v ≤ cost
  IsFinal-shortest dist _ _ within f stay below = f.source_zero
  IsFinal-shortest dist _ _ within f (link {u} {cost} v w up) below =
      let to_u = IsFinal-shortest dist u cost within f w (omega arith) in
      ground (arith, f.no_shortcut u v (within u v up) (omega arith) up)

-- No walk over links that are up, whose costs sum up to less than the infinite distance, is shorter
-- than the distance calculated for the router it leads to, if the source and all routers that links lead
-- to have numbers below the number of routers.
pub do_dijkstra_path_calculation-shortest :
    (n_routers : ℕ) (m : Matrix) (source v cost : ℕ)
    → source < n_routers
    → ((x y : ℕ) → 0 < m x y → y < n_routers)
    → Walk m source v cost
    → cost < inf_distance
    → (do_dijkstra_path_calculation n_routers m (some source)).distance v ≤ cost
do_dijkstra_path_calculation-shortest n_routers m source v cost known within walk below =
    IsFinal-shortest n_routers m source _ v cost within
      (do_dijkstra-IsFinal n_routers m source known) walk below
