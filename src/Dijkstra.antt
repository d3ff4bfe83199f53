-- ===== src/Dijkstra.antt =====
-- src/route/routing-table-calculator.cpp: the distances of the routers from one of them. The queue is
-- what is left of the array from `head` on, since nothing before `head` is read again. Sums of link
-- costs are whole numbers, which a `double` holds exactly below 2 ^ 53.
pub mod Walks
pub mod Queue
pub mod Relaxing
pub mod Exploring
pub mod Shortest
use ndnproject.Calculator.{Matrix, up_to}
use ndnproject.Prelude.{
  Bool, List, Option, [], false, if◌then◌else◌, ltb, nat_eq, none, some, str_eq, suc, zero, ℕ, ◌&&◌,
  ◌+◌, ◌==◌, ◌||◌, ◌∷◌,
}

abbrev pub inf_distance : ℕ
inf_distance = 2147483647

-- `m_parent` and `m_distance`; `none` stands for `EMPTY_PARENT`.
pub record Paths : Type 0 where
  pub parent : ℕ → Option ℕ
  pub distance : ℕ → ℕ

unfoldable pub no_paths : Paths
no_paths = record { parent = λ i. none; distance = λ i. inf_distance }

-- The inner loop of `sortQueueByDistance`: what ends up first, and what is left behind it.
unfoldable pub sift : (ℕ → ℕ) → ℕ → List ℕ → ℕ × List ℕ
sift dist first [] = (first, [])
sift dist first (q ∷ queue) =
    let nearer = ltb (dist q) (dist first) in
    let (nearest, rest) = sift dist (if nearer then q else first) queue in
    (nearest, (if nearer then first else q) ∷ rest)

-- The outer loop, with as many turns as the queue has routers.
unfoldable pub sort_from : (ℕ → ℕ) → ℕ → List ℕ → List ℕ
unfolding sift
sort_from dist zero queue = queue
sort_from dist (suc turns) [] = []
sort_from dist (suc turns) (q ∷ queue) =
    let (nearest, rest) = sift dist q queue in nearest ∷ sort_from dist turns rest

unfoldable pub count : List ℕ → ℕ
count [] = 0
count (q ∷ queue) = suc (count queue)

unfoldable pub sort_queue_by_distance : (ℕ → ℕ) → List ℕ → List ℕ
unfolding sort_from count
sort_queue_by_distance dist queue = sort_from dist (count queue) queue

unfoldable pub is_not_explored : List ℕ → ℕ → Bool
is_not_explored [] u = false
is_not_explored (q ∷ queue) u = q == u || is_not_explored queue u

unfoldable pub set_path : Paths → ℕ → ℕ → ℕ → Paths
set_path p v cost u = record {
  parent = λ i. if i == v then some u else p.parent i;
  distance = λ i. if i == v then cost else p.distance i;
}

-- The link from `u` to `v`: a shorter path is taken.
unfoldable pub relax : Matrix → List ℕ → ℕ → Paths → ℕ → Paths
unfolding set_path is_not_explored
relax m queue u p v =
    if ltb 0 (m u v) && is_not_explored queue v && ltb (p.distance u + m u v) (p.distance v)
    then set_path p v (p.distance u + m u v) u
    else p

unfoldable pub relax_all : Matrix → List ℕ → ℕ → Paths → List ℕ → Paths
unfolding relax
relax_all m queue u p [] = p
relax_all m queue u p (v ∷ vs) = relax_all m queue u (relax m queue u p v) vs

-- The `while` loop, with as many turns as there are routers.
unfoldable pub explore : ℕ → Matrix → ℕ → Paths → List ℕ → Paths
unfolding relax_all sort_queue_by_distance
explore n_routers m zero p queue = p
explore n_routers m (suc turns) p [] = p
explore n_routers m (suc turns) p (u ∷ queue) =
    let after = relax_all m queue u p (up_to n_routers) in
    let rest = explore n_routers m turns after (sort_queue_by_distance after.distance queue) in
    if p.distance u == inf_distance then p else rest

-- `doDijkstraPathCalculation`; `none` stands for `NO_MAPPING_NUM`.
unfoldable pub do_dijkstra_path_calculation : ℕ → Matrix → Option ℕ → Paths
unfolding explore no_paths sort_queue_by_distance
do_dijkstra_path_calculation n_routers m none = no_paths
do_dijkstra_path_calculation n_routers m (some source_router) =
    let p = record no_paths { distance = λ i. if i == source_router then 0 else inf_distance } in
    explore n_routers m n_routers p (sort_queue_by_distance p.distance (up_to n_routers))
