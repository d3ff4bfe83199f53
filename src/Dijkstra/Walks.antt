-- ===== src/Dijkstra/Walks.antt =====
-- src/route/routing-table-calculator.cpp: what a distance means in the network that the matrix gives.
use ndnproject.Prelude.{
  Bool-cases, List, [], arith, false, if◌then◌else◌, inl, inr, ltb, nat_beq_iff, nat_eq, refl, some,
  str_eq, subst, suc, sym, zero, ℕ, ◌&&◌, ◌+◌, ◌<◌, ◌==◌, ◌∷◌, ◌≡◌, ◌⊎◌,
}
use ndnproject.Calculator.{Matrix, up_to}
use ndnproject.Dijkstra.{
  Paths, inf_distance, no_paths, is_not_explored, set_path, relax, relax_all, explore,
  sort_queue_by_distance, do_dijkstra_path_calculation,
}

-- A walk over links that are up, from a router to another, with the sum of its link costs.
pub data Walk (m : Matrix) (source : ℕ) : ℕ → ℕ → Type 0 where
  stay : Walk m source source 0
  link : {u cost : ℕ} (v : ℕ) → Walk m source u cost → 0 < m u v → Walk m source v (cost + m u v)

-- Each router that was reached has a walk of its distance.
abbrev pub AreWalks : Matrix → ℕ → Paths → Type 0
AreWalks m source p =
    (v : ℕ) → (p.distance v == inf_distance) ≡ false → Walk m source v (p.distance v)

shorter :
    (m : Matrix) (queue : List ℕ) (u : ℕ) (p : Paths) (v i : ℕ)
    → ((i ≡ v)
        × (0 < m u v)
        × (p.distance u + m u v < p.distance v)
        × ((relax m queue u p v).distance i ≡ p.distance u + m u v))
      ⊎ ((relax m queue u p v).distance i ≡ p.distance i)
unfolding relax set_path
shorter m queue u p v i =
    elim (Bool-cases
      (ltb 0 (m u v) && is_not_explored queue v && ltb (p.distance u + m u v) (p.distance v))) [
        | inr keep ↦ inr (rw keep refl)
        | inl better ↦ elim (Bool-cases (i == v)) [
          | inl here ↦
              inl ((nat_beq_iff i v).0 here, ground arith, ground arith, rw (better, here) refl)
          | inr there ↦ inr (rw (better, there) refl)
        ]
      ]

relax-AreWalks :
    (m : Matrix) (source : ℕ) (queue : List ℕ) (u : ℕ) (p : Paths) (v : ℕ)
    → Walk m source u (p.distance u)
    → AreWalks m source p
    → AreWalks m source (relax m queue u p v)
relax-AreWalks m source queue u p v to_u walks i reached = elim (shorter m queue u p v i) [
  | inl (here, up, less, cost) ↦
      subst (Walk m source i) (sym cost)
        (subst (λ x. Walk m source x (p.distance u + m u v)) (sym here) (link v to_u up))
  | inr same ↦
      subst (Walk m source i) (sym same)
        (walks i (subst (λ x. (x == inf_distance) ≡ false) same reached))
]

not_below : (a b : ℕ) → a + b < a → ⊥
not_below a b h = omega arith

relax_self :
    (m : Matrix) (queue : List ℕ) (u : ℕ) (p : Paths) (v : ℕ)
    → (relax m queue u p v).distance u ≡ p.distance u
relax_self m queue u p v = elim (shorter m queue u p v u) [
  | inl (here, up, less, cost) ↦ absurd (
      not_below (p.distance u) (m u v)
        (subst (λ x. p.distance u + m u v < p.distance x) (sym here) less))
  | inr same ↦ same
]

-- After the loop over the links of `u`, which leaves the distance of `u` as it is.
relax_all-AreWalks :
    (m : Matrix) (source : ℕ) (queue : List ℕ) (u : ℕ) (p : Paths) (vs : List ℕ)
    → Walk m source u (p.distance u)
    → AreWalks m source p
    → AreWalks m source (relax_all m queue u p vs)
unfolding relax_all
relax_all-AreWalks m source queue u p [] to_u walks = walks
relax_all-AreWalks m source queue u p (v ∷ vs) to_u walks =
    relax_all-AreWalks m source queue u (relax m queue u p v) vs
      (subst (Walk m source u) (sym (relax_self m queue u p v)) to_u)
      (relax-AreWalks m source queue u p v to_u walks)

explore-AreWalks :
    (n_routers : ℕ) (m : Matrix) (source turns : ℕ) (p : Paths) (queue : List ℕ)
    → AreWalks m source p
    → AreWalks m source (explore n_routers m turns p queue)
unfolding explore
explore-AreWalks n_routers m source zero p queue walks = walks
explore-AreWalks n_routers m source (suc turns) p [] walks = walks
explore-AreWalks n_routers m source (suc turns) p (u ∷ queue) walks =
    elim (Bool-cases (p.distance u == inf_distance)) [
      | inl far ↦ rw far walks
      | inr near ↦
          let after = relax_all m queue u p (up_to n_routers) in
          rw near (
            explore-AreWalks n_routers m source turns after
              (sort_queue_by_distance after.distance queue)
              (relax_all-AreWalks m source queue u p (up_to n_routers) (walks u near) walks))
    ]

source-AreWalks :
    (m : Matrix) (source : ℕ)
    → AreWalks m source
        (record no_paths { distance = λ i. if i == source then 0 else inf_distance })
unfolding no_paths
source-AreWalks m source v reached = elim (Bool-cases (v == source)) [
  | inl here ↦ rw here (subst (λ x. Walk m source x 0) (sym ((nat_beq_iff v source).0 here)) stay)
  | inr there ↦ absurd (ground arith)
]

-- If the calculation from a source router leaves a router with a distance other than the infinite one,
-- a walk of links that are up leads from the source to that router, and its costs sum up to the distance.
pub do_dijkstra_path_calculation-Walk :
    (n_routers : ℕ) (m : Matrix) (source v : ℕ)
    → ((do_dijkstra_path_calculation n_routers m (some source)).distance v == inf_distance) ≡ false
    → Walk m source v ((do_dijkstra_path_calculation n_routers m (some source)).distance v)
unfolding do_dijkstra_path_calculation
do_dijkstra_path_calculation-Walk n_routers m source v reached =
    explore-AreWalks n_routers m source n_routers _ _ (source-AreWalks m source) v reached
