-- ===== src/Dijkstra/Exploring.antt =====
-- src/route/routing-table-calculator.cpp: what holds of the distances while routers are explored.
use ndnproject.Prelude.{
  Bool-cases, List, [], arith, false, inl, inr, nat_beq_iff, nat_eq, refl, str_eq, subst, suc, sym,
  true, zero, ℕ, ◌++◌, ◌+◌, ◌<◌, ◌==◌, ◌||◌, ◌∙◌, ◌∷◌, ◌≡◌, ◌≤◌, ◌⊎◌,
}
use ndnproject.Calculator.{Matrix, up_to}
use ndnproject.Dijkstra.{
  Paths, inf_distance, is_not_explored, relax_all, count, sort_queue_by_distance,
}
use ndnproject.Dijkstra.Queue.{NearestFirst, sort_queue-is_not_explored}
use ndnproject.Dijkstra.Relaxing.{Relaxed, relax_all-Relaxed, relax_all-bound}

is_not_explored-push :
    (queue : List ℕ) (q y : ℕ)
    → is_not_explored (queue ++ q ∷ []) y ≡ (is_not_explored queue y || q == y)
unfolding is_not_explored
is_not_explored-push [] q y = ground arith
is_not_explored-push (r ∷ queue) q y = ground (arith, is_not_explored-push queue q y)

pub is_not_explored-up_to : (n y : ℕ) → y < n → is_not_explored (up_to n) y ≡ true
unfolding up_to
is_not_explored-up_to zero y below = absurd (omega arith)
is_not_explored-up_to (suc n) y below =
    ground (arith, is_not_explored-push (up_to n) n y, is_not_explored-up_to n y)

count-push : (queue : List ℕ) (q : ℕ) → count (queue ++ q ∷ []) ≡ suc (count queue)
unfolding count
count-push [] q = refl
count-push (r ∷ queue) q = rw (count-push queue q) refl

pub count-up_to : (n : ℕ) → count (up_to n) ≡ n
unfolding up_to count
count-up_to zero = refl
count-up_to (suc n) = rw (count-push (up_to n) n, count-up_to n) refl

-- A router that is no longer in the queue was its first, or was not in it before either.
pub explored-first :
    (u : ℕ) (queue : List ℕ) (x : ℕ)
    → is_not_explored queue x ≡ false
    → (x ≡ u) ⊎ (is_not_explored (u ∷ queue) x ≡ false)
unfolding is_not_explored
explored-first u queue x h = elim (Bool-cases (u == x)) [
  | inl here ↦ inl (sym ((nat_beq_iff u x).0 here))
  | inr there ↦ inr (ground arith)
]

first_queued : (u : ℕ) (queue : List ℕ) → is_not_explored (u ∷ queue) u ≡ true
unfolding is_not_explored
first_queued u queue = ground arith

rest_queued :
    (u : ℕ) (queue : List ℕ) (x : ℕ)
    → is_not_explored queue x ≡ true
    → is_not_explored (u ∷ queue) x ≡ true
unfolding is_not_explored
rest_queued u queue x h = ground arith

module _ (n_routers : ℕ) (m : Matrix) (source : ℕ) where
  -- What holds of the distances when the routers of the queue are still to be explored.
  pub record Exploring (dist : ℕ → ℕ) (queue : List ℕ) : Type 0 where
    pub bounded : (x : ℕ) → dist x ≤ inf_distance
    pub source_zero : dist source ≤ 0
    pub reached : (y : ℕ) → y < n_routers → is_not_explored queue y ≡ false → dist y < inf_distance
    pub nearer :
        (x y : ℕ)
        → is_not_explored queue x ≡ false
        → dist x < inf_distance
        → is_not_explored queue y ≡ true
        → dist x ≤ dist y
    pub no_shortcut :
        (x y : ℕ)
        → y < n_routers
        → is_not_explored queue x ≡ false
        → dist x < inf_distance
        → 0 < m x y
        → dist y ≤ dist x + m x y

  Exploring-same :
      (dist : ℕ → ℕ) (q r : List ℕ)
      → ((x : ℕ) → is_not_explored r x ≡ is_not_explored q x)
      → Exploring dist q
      → Exploring dist r
  Exploring-same dist q r same e = record {
    bounded = e.bounded;
    source_zero = e.source_zero;
    reached = λ y b h. e.reached y b (sym (same y) ∙ h);
    nearer = λ x y h b k. e.nearer x y (sym (same x) ∙ h) b (sym (same y) ∙ k);
    no_shortcut = λ x y b h k up. e.no_shortcut x y b (sym (same x) ∙ h) k up;
  }

  module _ (u : ℕ) (queue : List ℕ) (p : Paths) (e : Exploring p.distance (u ∷ queue))
      (first : NearestFirst p.distance (u ∷ queue)) (near : p.distance u < inf_distance) where
    abbrev after : ℕ → ℕ
    after = (relax_all m queue u p (up_to n_routers)).distance

    abbrev relaxed : Relaxed queue u p.distance after
    relaxed = relax_all-Relaxed m queue u p (up_to n_routers)

    explored_nearer :
        (y : ℕ)
        → y < n_routers
        → is_not_explored (u ∷ queue) y ≡ false
        → p.distance y ≤ p.distance u
    explored_nearer y b h = e.nearer y u h (e.reached y b h) (first_queued u queue)

    first-no_shortcut : (y : ℕ) → y < n_routers → 0 < m u y → after y ≤ after u + m u y
    first-no_shortcut y b up = elim (Bool-cases (is_not_explored queue y)) [
      | inl queued ↦ ground (
        arith,
        relaxed.source_same,
        relax_all-bound m queue u p (up_to n_routers) y (is_not_explored-up_to n_routers y b) up
            queued,
      )
      | inr explored ↦ elim (explored-first u queue y explored) [
        | inl same ↦ rw same (omega arith)
        | inr before ↦ ground (
          arith,
          relaxed.source_same,
          relaxed.explored_same y explored,
          explored_nearer y b before,
        )
      ]
    ]

    first-nearer : (y : ℕ) → is_not_explored queue y ≡ true → p.distance u ≤ p.distance y
    unfolding NearestFirst
    first-nearer y h = first y h

    pub explore-Exploring : Exploring after queue
    explore-Exploring = record {
      bounded = λ x. ground (arith, relaxed.smaller x, e.bounded x);
      source_zero = ground (arith, relaxed.smaller source, e.source_zero);
      reached = λ y b h. elim (explored-first u queue y h) [
        | inl same ↦
            subst (λ z. after z < inf_distance) (sym same) (ground (arith, relaxed.source_same))
        | inr before ↦ ground (arith, relaxed.smaller y, e.reached y b before)
      ];
      nearer = λ x y h k queued. elim (explored-first u queue x h) [
        | inl same ↦
            subst (λ z. after z ≤ after y) (sym same)
              (ground (arith, relaxed.source_same, relaxed.not_nearer y (first-nearer y queued)))
        | inr before ↦
            let k' = subst (λ z. z < inf_distance) (relaxed.explored_same x h) k in
            ground (
              arith,
              relaxed.explored_same x h,
              e.nearer x u before k' (first_queued u queue),
              relaxed.not_nearer y (first-nearer y queued),
            )
      ];
      no_shortcut = λ x y b h k up. elim (explored-first u queue x h) [
        | inl same ↦
            subst (λ z. 0 < m z y → after y ≤ after z + m z y) (sym same) (first-no_shortcut y b) up
        | inr before ↦
            let k' = subst (λ z. z < inf_distance) (relaxed.explored_same x h) k in
            ground (
              arith,
              relaxed.explored_same x h,
              e.no_shortcut x y b before k' up,
              relaxed.smaller y,
            )
      ];
    }

  pub sorted-Exploring :
      (dist : ℕ → ℕ) (queue : List ℕ)
      → Exploring dist queue
      → Exploring dist (sort_queue_by_distance dist queue)
  sorted-Exploring dist queue =
      Exploring-same dist queue (sort_queue_by_distance dist queue)
        (sort_queue-is_not_explored dist queue)
