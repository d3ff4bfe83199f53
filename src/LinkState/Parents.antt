-- ===== src/LinkState/Parents.antt =====
-- src/route/routing-table-calculator.cpp: the parents that Dijkstra's algorithm leaves form a tree
-- whose root is the source.
use ndnproject.Prelude.{
  Bool-cases, List, [], arith, false, if◌then◌else◌, inl, inr, ltb, nat_beq_iff, nat_eq, none, refl,
  some, str_eq, subst, suc, sym, zero, ℕ, ◌&&◌, ◌+◌, ◌<◌, ◌==◌, ◌∷◌, ◌≡◌, ◌≤◌,
}
use ndnproject.Calculator.{Matrix, up_to}
use ndnproject.Dijkstra.{
  Paths, inf_distance, no_paths, is_not_explored, set_path, relax, relax_all, explore,
  sort_queue_by_distance, do_dijkstra_path_calculation,
}

-- A parent is nearer by at least the link's cost, and only the source and what was not reached have none.
pub record IsTree (m : Matrix) (source : ℕ) (p : Paths) : Type 0 where
  pub linked : (v u : ℕ) → p.parent v ≡ some u → (0 < m u v) × (p.distance u + m u v ≤ p.distance v)
  pub rooted : (v : ℕ) → p.parent v ≡ none → p.distance v < inf_distance → v ≡ source
  pub root : p.parent source ≡ none
  pub root_near : p.distance source ≤ 0

not_itself :
    (m : Matrix) (p : Paths) (u v : ℕ) → p.distance u + m u v < p.distance v → (u == v) ≡ false
not_itself m p u v less = elim (Bool-cases (u == v)) [
  | inl same ↦ absurd (
      below
        (subst (λ x. p.distance u + m u v < p.distance x) (sym ((nat_beq_iff u v).0 same)) less))
  | inr other ↦ other
]
  where
    below : p.distance u + m u v < p.distance u → ⊥
    below h = omega arith

set_distance :
    (p : Paths) (v cost u w : ℕ)
    → cost < p.distance v
    → (set_path p v cost u).distance w ≤ p.distance w
unfolding set_path
set_distance p v cost u w less = elim (Bool-cases (w == v)) [
  | inl here ↦
      rw here (subst (λ x. cost ≤ p.distance x) (sym ((nat_beq_iff w v).0 here)) (omega arith))
  | inr there ↦ rw there (omega arith)
]

set-IsTree :
    (m : Matrix) (source : ℕ) (p : Paths) (u v : ℕ)
    → 0 < m u v
    → p.distance u + m u v < p.distance v
    → IsTree m source p
    → IsTree m source (set_path p v (p.distance u + m u v) u)
unfolding set_path
set-IsTree m source p u v up less t = record {
  linked = λ x w h. elim (Bool-cases (x == v)) [
    | inl here ↦ new_link x w ((nat_beq_iff x v).0 here) (ground arith)
    | inr there ↦ ground (arith, t.linked x w, set_distance p v (p.distance u + m u v) u w less)
  ];
  rooted = λ x h k. elim (Bool-cases (x == v)) [
    | inl here ↦ absurd (ground arith)
    | inr there ↦ t.rooted x (ground arith) (ground arith)
  ];
  root = elim (Bool-cases (source == v)) [
    | inl here ↦
        absurd (lowered (subst (λ x. p.distance x ≤ 0) ((nat_beq_iff source v).0 here) t.root_near))
    | inr there ↦ rw there t.root
  ];
  root_near = ground (arith, t.root_near, set_distance p v (p.distance u + m u v) u source less);
}
  where
    lowered : p.distance v ≤ 0 → ⊥
    lowered h = omega arith

    new_at_v :
        (0 < m u v)
        × ((if u == v then p.distance u + m u v else p.distance u) + m u v
            ≤ (if v == v then p.distance u + m u v else p.distance v))
    new_at_v = ground (arith, not_itself m p u v less)

    new_link :
        (x w : ℕ)
        → x ≡ v
        → w ≡ u
        → (0 < m w x)
          × ((if w == v then p.distance u + m u v else p.distance w) + m w x
              ≤ (if x == v then p.distance u + m u v else p.distance x))
    new_link x w a b = rw (a, b) new_at_v

relax-IsTree :
    (m : Matrix) (source : ℕ) (queue : List ℕ) (u : ℕ) (p : Paths) (v : ℕ)
    → IsTree m source p
    → IsTree m source (relax m queue u p v)
unfolding relax
relax-IsTree m source queue u p v t =
    elim (Bool-cases
      (ltb 0 (m u v) && is_not_explored queue v && ltb (p.distance u + m u v) (p.distance v))) [
        | inr keep ↦ rw keep t
        | inl better ↦ rw better (set-IsTree m source p u v (ground arith) (ground arith) t)
      ]

relax_all-IsTree :
    (m : Matrix) (source : ℕ) (queue : List ℕ) (u : ℕ) (p : Paths) (vs : List ℕ)
    → IsTree m source p
    → IsTree m source (relax_all m queue u p vs)
unfolding relax_all
relax_all-IsTree m source queue u p [] t = t
relax_all-IsTree m source queue u p (v ∷ vs) t =
    relax_all-IsTree m source queue u (relax m queue u p v) vs (relax-IsTree m source queue u p v t)

explore-IsTree :
    (n_routers : ℕ) (m : Matrix) (source turns : ℕ) (p : Paths) (queue : List ℕ)
    → IsTree m source p
    → IsTree m source (explore n_routers m turns p queue)
unfolding explore
explore-IsTree n_routers m source zero p queue t = t
explore-IsTree n_routers m source (suc turns) p [] t = t
explore-IsTree n_routers m source (suc turns) p (u ∷ queue) t =
    elim (Bool-cases (p.distance u == inf_distance)) [
      | inl far ↦ rw far t
      | inr near ↦
          let after = relax_all m queue u p (up_to n_routers) in
          rw near (
            explore-IsTree n_routers m source turns after
              (sort_queue_by_distance after.distance queue)
              (relax_all-IsTree m source queue u p (up_to n_routers) t))
    ]

first-IsTree :
    (m : Matrix) (source : ℕ)
    → IsTree m source (record no_paths { distance = λ i. if i == source then 0 else inf_distance })
unfolding no_paths
first-IsTree m source = record {
  linked = λ v u h. ground arith;
  rooted = λ v h k. ground arith;
  root = refl;
  root_near = ground arith;
}

pub do_dijkstra-IsTree :
    (n_routers : ℕ) (m : Matrix) (source : ℕ)
    → IsTree m source (do_dijkstra_path_calculation n_routers m (some source))
unfolding do_dijkstra_path_calculation
do_dijkstra-IsTree n_routers m source =
    explore-IsTree n_routers m source n_routers _ _ (first-IsTree m source)
