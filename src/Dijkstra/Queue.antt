-- ===== src/Dijkstra/Queue.antt =====
-- src/route/routing-table-calculator.cpp: what sorting does to the queue of routers.
use ndnproject.Prelude.{
  All, Bool-cases, List, [], arith, false, if◌then◌else◌, inl, inr, ltb, nat_beq_iff, nat_eq, refl,
  str_eq, subst, suc, sym, true, zero, ℕ, ◌==◌, ◌||◌, ◌∙◌, ◌∷◌, ◌≡◌, ◌≤◌,
}
use ndnproject.Dijkstra.{sift, sort_from, count, sort_queue_by_distance, is_not_explored}

sift-is_not_explored :
    (dist : ℕ → ℕ) (first : ℕ) (queue : List ℕ) (x : ℕ)
    → ((sift dist first queue).0 == x || is_not_explored (sift dist first queue).1 x)
      ≡ (first == x || is_not_explored queue x)
unfolding sift is_not_explored
sift-is_not_explored dist first [] x = refl
sift-is_not_explored dist first (q ∷ queue) x = elim (Bool-cases (ltb (dist q) (dist first))) [
  | inl nearer ↦ rw nearer (ground (arith, sift-is_not_explored dist q queue x))
  | inr farther ↦ rw farther (ground (arith, sift-is_not_explored dist first queue x))
]

All-weaken :
    (dist : ℕ → ℕ) (a b : ℕ) (queue : List ℕ)
    → a ≤ b
    → All (λ y. b ≤ dist y) queue
    → All (λ y. a ≤ dist y) queue
All-weaken dist a b [] le all = tt
All-weaken dist a b (q ∷ queue) le all = (omega arith, All-weaken dist a b queue le all.1)

-- The first place holds the nearest of the routers, and the others stand behind it.
abbrev IsNearest : (ℕ → ℕ) → ℕ → ℕ × List ℕ → Type 0
IsNearest dist first r = (dist r.0 ≤ dist first) × All (λ y. dist r.0 ≤ dist y) r.1

sift-nearer :
    (dist : ℕ → ℕ) (first q : ℕ) (queue : List ℕ)
    → ltb (dist q) (dist first) ≡ true
    → sift dist first (q ∷ queue) ≡ ((sift dist q queue).0, first ∷ (sift dist q queue).1)
unfolding sift
sift-nearer dist first q queue h = rw h refl

sift-farther :
    (dist : ℕ → ℕ) (first q : ℕ) (queue : List ℕ)
    → ltb (dist q) (dist first) ≡ false
    → sift dist first (q ∷ queue) ≡ ((sift dist first queue).0, q ∷ (sift dist first queue).1)
unfolding sift
sift-farther dist first q queue h = rw h refl

IsNearest-alone : (dist : ℕ → ℕ) (first : ℕ) → IsNearest dist first (sift dist first [])
unfolding sift
IsNearest-alone dist first = (omega arith, tt)

sift-IsNearest :
    (dist : ℕ → ℕ) (first : ℕ) (queue : List ℕ) → IsNearest dist first (sift dist first queue)
sift-IsNearest dist first [] = IsNearest-alone dist first
sift-IsNearest dist first (q ∷ queue) = elim (Bool-cases (ltb (dist q) (dist first))) [
  | inl nearer ↦
      let (near, all) = sift-IsNearest dist q queue in
      subst (IsNearest dist first) (sym (sift-nearer dist first q queue nearer))
        (ground arith, (ground arith, all))
  | inr farther ↦
      let (near, all) = sift-IsNearest dist first queue in
      subst (IsNearest dist first) (sym (sift-farther dist first q queue farther))
        (near, (ground arith, all))
]

sift-count :
    (dist : ℕ → ℕ) (first : ℕ) (queue : List ℕ) → count (sift dist first queue).1 ≡ count queue
unfolding sift count
sift-count dist first [] = refl
sift-count dist first (q ∷ queue) =
    rw (sift-count dist (if ltb (dist q) (dist first) then q else first) queue) refl

sort_from-is_not_explored :
    (dist : ℕ → ℕ) (turns : ℕ) (queue : List ℕ) (x : ℕ)
    → is_not_explored (sort_from dist turns queue) x ≡ is_not_explored queue x
unfolding sort_from is_not_explored
sort_from-is_not_explored dist zero queue x = refl
sort_from-is_not_explored dist (suc turns) [] x = refl
sort_from-is_not_explored dist (suc turns) (q ∷ queue) x =
    rw (sort_from-is_not_explored dist turns (sift dist q queue).1 x)
      (sift-is_not_explored dist q queue x)

sort_from-count :
    (dist : ℕ → ℕ) (turns : ℕ) (queue : List ℕ) → count (sort_from dist turns queue) ≡ count queue
unfolding sort_from count
sort_from-count dist zero queue = refl
sort_from-count dist (suc turns) [] = refl
sort_from-count dist (suc turns) (q ∷ queue) =
    rw (sort_from-count dist turns (sift dist q queue).1, sift-count dist q queue) refl

pub sort_queue-is_not_explored :
    (dist : ℕ → ℕ) (queue : List ℕ) (x : ℕ)
    → is_not_explored (sort_queue_by_distance dist queue) x ≡ is_not_explored queue x
unfolding sort_queue_by_distance
sort_queue-is_not_explored dist queue x = sort_from-is_not_explored dist (count queue) queue x

pub sort_queue-count :
    (dist : ℕ → ℕ) (queue : List ℕ) → count (sort_queue_by_distance dist queue) ≡ count queue
unfolding sort_queue_by_distance
sort_queue-count dist queue = sort_from-count dist (count queue) queue

-- No router of the queue is nearer than its first.
unfoldable pub NearestFirst : (ℕ → ℕ) → List ℕ → Type 0
NearestFirst dist [] = Unit
NearestFirst dist (u ∷ queue) = (y : ℕ) → is_not_explored queue y ≡ true → dist u ≤ dist y

All-member :
    (P : ℕ → Type 0) (queue : List ℕ) (x : ℕ) → All P queue → is_not_explored queue x ≡ true → P x
unfolding is_not_explored
All-member P [] x all h = absurd (ground arith)
All-member P (q ∷ queue) x all h = elim (Bool-cases (q == x)) [
  | inl here ↦ subst P ((nat_beq_iff q x).0 here) all.0
  | inr there ↦ All-member P queue x all.1 (ground arith)
]

pub sort_queue-NearestFirst :
    (dist : ℕ → ℕ) (queue : List ℕ) → NearestFirst dist (sort_queue_by_distance dist queue)
unfolding NearestFirst sort_queue_by_distance sort_from count
sort_queue-NearestFirst dist [] = tt
sort_queue-NearestFirst dist (q ∷ queue) = λ y h.
    All-member (λ y. dist (sift dist q queue).0 ≤ dist y) (sift dist q queue).1 y
      (sift-IsNearest dist q queue).1
      (sym (sort_from-is_not_explored dist (count queue) (sift dist q queue).1 y) ∙ h)
