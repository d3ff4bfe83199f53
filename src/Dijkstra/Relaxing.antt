-- ===== src/Dijkstra/Relaxing.antt =====
-- src/route/routing-table-calculator.cpp: what the loop over the links of a router does to distances.
use ndnproject.Prelude.{
  Bool-cases, List, [], arith, false, inl, inr, ltb, nat_beq_iff, nat_eq, refl, str_eq, subst, sym,
  true, ℕ, ◌&&◌, ◌+◌, ◌<◌, ◌==◌, ◌∙◌, ◌∷◌, ◌≡◌, ◌≤◌, ◌⊎◌,
}
use ndnproject.Calculator.{Matrix}
use ndnproject.Dijkstra.{Paths, is_not_explored, set_path, relax, relax_all}

-- The distances after the links of `u` were looked at.
pub record Relaxed (queue : List ℕ) (u : ℕ) (before after : ℕ → ℕ) : Type 0 where
  pub smaller : (x : ℕ) → after x ≤ before x
  pub explored_same : (x : ℕ) → is_not_explored queue x ≡ false → after x ≡ before x
  pub not_nearer : (x : ℕ) → before u ≤ before x → before u ≤ after x
  pub source_same : after u ≡ before u

Relaxed-refl : (queue : List ℕ) (u : ℕ) (before : ℕ → ℕ) → Relaxed queue u before before
Relaxed-refl queue u before = record {
  smaller = λ x. omega arith;
  explored_same = λ x h. refl;
  not_nearer = λ x h. h;
  source_same = refl;
}

Relaxed-trans :
    (queue : List ℕ) (u : ℕ) (a b c : ℕ → ℕ)
    → Relaxed queue u a b
    → Relaxed queue u b c
    → Relaxed queue u a c
Relaxed-trans queue u a b c r s = record {
  smaller = λ x. ground (arith, r.smaller x, s.smaller x);
  explored_same = λ x h. s.explored_same x h ∙ r.explored_same x h;
  not_nearer = λ x h. ground (arith, r.source_same, s.not_nearer x, r.not_nearer x);
  source_same = s.source_same ∙ r.source_same;
}

-- Two ways a distance can come out of looking at the link from `u` to `v`.
relax-distance :
    (m : Matrix) (queue : List ℕ) (u : ℕ) (p : Paths) (v x : ℕ)
    → ((x ≡ v)
        × (is_not_explored queue x ≡ true)
        × (0 < m u v)
        × (p.distance u + m u v < p.distance x)
        × ((relax m queue u p v).distance x ≡ p.distance u + m u v))
      ⊎ ((relax m queue u p v).distance x ≡ p.distance x)
unfolding relax set_path
relax-distance m queue u p v x =
    elim (Bool-cases
      (ltb 0 (m u v) && is_not_explored queue v && ltb (p.distance u + m u v) (p.distance v))) [
        | inr keep ↦ inr (rw keep refl)
        | inl better ↦ elim (Bool-cases (x == v)) [
          | inl here ↦
              let same = (nat_beq_iff x v).0 here in
              inl (
                same,
                rw same (ground arith),
                ground arith,
                rw same (ground arith),
                rw (better, here) refl,
              )
          | inr there ↦ inr (rw (better, there) refl)
        ]
      ]

relax-Relaxed :
    (m : Matrix) (queue : List ℕ) (u : ℕ) (p : Paths) (v : ℕ)
    → Relaxed queue u p.distance (relax m queue u p v).distance
relax-Relaxed m queue u p v = record {
  smaller = λ x. ground (arith, relax-distance m queue u p v x);
  explored_same = λ x h. ground (arith, relax-distance m queue u p v x);
  not_nearer = λ x h. ground (arith, relax-distance m queue u p v x);
  source_same = ground (arith, relax-distance m queue u p v u);
}

pub relax_all-Relaxed :
    (m : Matrix) (queue : List ℕ) (u : ℕ) (p : Paths) (vs : List ℕ)
    → Relaxed queue u p.distance (relax_all m queue u p vs).distance
unfolding relax_all
relax_all-Relaxed m queue u p [] = Relaxed-refl queue u p.distance
relax_all-Relaxed m queue u p (v ∷ vs) =
    Relaxed-trans queue u _ _ _ (relax-Relaxed m queue u p v)
      (relax_all-Relaxed m queue u (relax m queue u p v) vs)

relax-bound :
    (m : Matrix) (queue : List ℕ) (u : ℕ) (p : Paths) (v : ℕ)
    → 0 < m u v
    → is_not_explored queue v ≡ true
    → (relax m queue u p v).distance v ≤ p.distance u + m u v
unfolding relax set_path
relax-bound m queue u p v up h = ground arith

pub relax_all-bound :
    (m : Matrix) (queue : List ℕ) (u : ℕ) (p : Paths) (vs : List ℕ) (v : ℕ)
    → is_not_explored vs v ≡ true
    → 0 < m u v
    → is_not_explored queue v ≡ true
    → (relax_all m queue u p vs).distance v ≤ p.distance u + m u v
unfolding relax_all is_not_explored
relax_all-bound m queue u p [] v h up queued = absurd (ground arith)
relax_all-bound m queue u p (w ∷ vs) v h up queued = elim (Bool-cases (w == v)) [
  | inl here ↦
      let same = (nat_beq_iff w v).0 here in
      subst (λ z. (relax_all m queue u (relax m queue u p z) vs).distance v ≤ p.distance u + m u v)
        (sym same)
        (ground (
          arith,
          (relax_all-Relaxed m queue u (relax m queue u p v) vs).smaller v,
          relax-bound m queue u p v up queued,
        ))
  | inr there ↦ ground (
    arith,
    relax_all-bound m queue u (relax m queue u p w) vs v,
    (relax-Relaxed m queue u p w).source_same,
  )
]
