-- ===== src/LinkState/NextHops.antt =====
-- src/route/routing-table-calculator.cpp: `getLsNextHop` ends, and the next hop is where a shortest
-- path begins.
use ndnproject.Prelude.{
  Option, Option-cases, arith, false, inl, inr, nat_eq, none, refl, some, str_eq, subst, suc, true,
  zero, ℕ, ◌+◌, ◌<◌, ◌==◌, ◌≡◌, ◌≤◌,
}
use ndnproject.Calculator.{Matrix}
use ndnproject.Dijkstra.{Paths, inf_distance, do_dijkstra_path_calculation}
use ndnproject.Dijkstra.Walks.{Walk, stay, link}
use ndnproject.LinkState.{follow_parents, get_ls_next_hop}
use ndnproject.LinkState.Parents.{IsTree, do_dijkstra-IsTree}

-- A walk that begins one link earlier.
earlier :
    (m : Matrix) (v h dest rest : ℕ) → 0 < m v h → Walk m h dest rest → Walk m v dest (m v h + rest)
earlier m v h _ _ up stay = subst (Walk m v h) (omega arith) (link h stay up)
earlier m v h _ _ up (link {u} {cost} w walk up') =
    subst (Walk m v w) (omega arith) (link w (earlier m v h u cost up walk) up')

-- A router next to the source, and a walk from there, whose cost with that link is within a bound.
pub record Begins (m : Matrix) (source dest bound next_hop : ℕ) : Type 0 where
  pub beside : 0 < m source next_hop
  pub rest : ℕ
  pub walk : Walk m next_hop dest rest
  pub within : m source next_hop + rest ≤ bound

module _ (m : Matrix) (source : ℕ) (p : Paths) (t : IsTree m source p) where
  -- With more turns than the distance the loop ends by its test.
  follow_parents-none :
      (turns : ℕ) (next_hop : Option ℕ) (v : ℕ)
      → p.distance v < turns
      → p.parent (follow_parents turns p next_hop v).1 ≡ none
  unfolding follow_parents
  follow_parents-none zero next_hop v enough = absurd (omega arith)
  follow_parents-none (suc turns) next_hop v enough = elim (Option-cases (p.parent v)) [
    | inl root ↦ rw (root, follow_parents) root
    | inr (u, from) ↦
        let (up, nearer) = t.linked v u from in
        rw (from, follow_parents) (follow_parents-none turns (some v) u (omega arith))
  ]

  -- The loop has come from `dest` to `v`, by way of `h`.
  follow_parents-Begins :
      (turns dest bound v h rest : ℕ)
      → p.distance v < turns
      → p.distance v < inf_distance
      → 0 < m v h
      → Walk m h dest rest
      → p.distance v + m v h + rest ≤ bound
      → (next_hop : ℕ) × (follow_parents turns p (some h) v ≡ (some next_hop, source))
        × Begins m source dest bound next_hop
  unfolding follow_parents
  follow_parents-Begins zero dest bound v h rest enough reached up walk within =
      absurd (omega arith)
  follow_parents-Begins (suc turns) dest bound v h rest enough reached up walk within =
      elim (Option-cases (p.parent v)) [
        | inl root ↦
            let here = t.rooted v root reached in
            (
              h,
              rw (root, follow_parents, here) refl,
              record {
                beside = subst (λ x. 0 < m x h) here up;
                rest = rest;
                walk = walk;
                within = subst (λ x. m x h + rest ≤ bound) here (omega arith);
              },
            )
        | inr (u, from) ↦
            let (up', nearer) = t.linked v u from in
            let (next_hop, ends, begins) =
              follow_parents-Begins turns dest bound u v (m v h + rest) (omega arith) (omega arith)
                up' (earlier m v h dest rest up walk) (omega arith) in
            (next_hop, rw (from, follow_parents) ends, begins)
      ]

  -- From `dest` itself.
  follow_parents-first :
      (dest : ℕ)
      → (dest == source) ≡ false
      → p.distance dest < inf_distance
      → (next_hop : ℕ) × (follow_parents (suc (p.distance dest)) p none dest
          ≡ (some next_hop, source))
        × Begins m source dest (p.distance dest) next_hop
  unfolding follow_parents
  follow_parents-first dest other reached = elim (Option-cases (p.parent dest)) [
    | inl root ↦ absurd (ground (arith, t.rooted dest root reached))
    | inr (u, from) ↦
        let (up, nearer) = t.linked dest u from in
        let (next_hop, ends, begins) =
          follow_parents-Begins (p.distance dest) dest (p.distance dest) u dest 0 (omega arith)
            (omega arith) up stay (omega arith) in
        (next_hop, rw (from, follow_parents) ends, begins)
  ]

  get_ls_next_hop-Tree :
      (dest : ℕ)
      → (dest == source) ≡ false
      → p.distance dest < inf_distance
      → (next_hop : ℕ) × (get_ls_next_hop p dest source ≡ some next_hop)
        × Begins m source dest (p.distance dest) next_hop
  unfolding get_ls_next_hop
  get_ls_next_hop-Tree dest other reached =
      let (next_hop, ends, begins) = follow_parents-first dest other reached in
      (next_hop, rw (ends, get_ls_next_hop) (rw (source_itself) refl), begins)
    where
      source_itself : (source == source) ≡ true
      source_itself = ground arith

-- For every router, following the parents that the calculation from a source leaves comes to a router
-- that has none, in no more turns than the distance of the first router and one.
pub follow_parents-dijkstra :
    (n_routers : ℕ) (m : Matrix) (source dest : ℕ)
    → let p = do_dijkstra_path_calculation n_routers m (some source) in
      p.parent (follow_parents (suc (p.distance dest)) p none dest).1 ≡ none
follow_parents-dijkstra n_routers m source dest =
    let p = do_dijkstra_path_calculation n_routers m (some source) in
    follow_parents-none m source p (do_dijkstra-IsTree n_routers m source) (suc (p.distance dest))
      none dest (omega arith)

-- For a router other than the source, whose calculated distance is below the infinite one, the next hop
-- is a router that a link leads to from the source, and a walk from there to the router costs, with that
-- link, no more than the distance.
pub get_ls_next_hop-Begins :
    (n_routers : ℕ) (m : Matrix) (source dest : ℕ)
    → (dest == source) ≡ false
    → (do_dijkstra_path_calculation n_routers m (some source)).distance dest < inf_distance
    → let p = do_dijkstra_path_calculation n_routers m (some source) in
      (next_hop : ℕ) × (get_ls_next_hop p dest source ≡ some next_hop)
      × Begins m source dest (p.distance dest) next_hop
get_ls_next_hop-Begins n_routers m source dest other reached =
    get_ls_next_hop-Tree m source (do_dijkstra_path_calculation n_routers m (some source))
      (do_dijkstra-IsTree n_routers m source) dest other reached
