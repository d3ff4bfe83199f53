-- ===== src/Calculator.antt =====
-- src/route/routing-table-calculator.cpp: the matrix of link costs that routes are calculated from.
-- Link costs are whole numbers (`Adjacent::getLinkCost` rounds up), and the matrix is a function of the
-- two numbers of routers.
pub mod Symmetry
pub mod Bounds
use ndnproject.Prelude.{
  Double, Eq, List, NdnName, Option, [], if◌then◌else◌, ltb, max, nat_eq, none, not, some, str_eq,
  suc, zero, ℕ, ◌&&◌, ◌++◌, ◌==◌, ◌∷◌,
}
use ndnproject.Adjacency.{Adjacent, AdjacencyList, get_link_cost}
use ndnproject.Lsa.{AdjLsa}
use ndnproject.RouterMap.{RouterMap, get_mapping_no_by_router_name}

abbrev pub Matrix : Type 0
Matrix = ℕ → ℕ → ℕ

-- `adjMatrix[row][col] = cost`.
unfoldable pub set : Matrix → ℕ → ℕ → ℕ → Matrix
set m row col cost i j = if i == row && j == col then cost else m i j

-- The numbers that a loop to `n` runs over.
unfoldable pub up_to : ℕ → List ℕ
up_to zero = []
up_to (suc n) = up_to n ++ n ∷ []

-- `initMatrix`.
unfoldable pub init_matrix : Matrix
init_matrix i j = 0

-- One cell of the correction in `makeAdjMatrix`.
unfoldable pub correct_cell : Matrix → ℕ → ℕ → Matrix
unfolding set
correct_cell m row col =
    let to_cost = m row col in
    let from_cost = m col row in
    if not (from_cost == to_cost)
    then (let corrected_cost : ℕ =
          if not (to_cost == 0) && not (from_cost == 0) then max to_cost from_cost else 0 in
        set (set m row col corrected_cost) col row corrected_cost)
    else m

unfoldable pub correct_row : Matrix → ℕ → List ℕ → Matrix
unfolding correct_cell
correct_row m row [] = m
correct_row m row (col ∷ cols) = correct_row (correct_cell m row col) row cols

unfoldable pub correct_rows : Matrix → List ℕ → List ℕ → Matrix
unfolding correct_row
correct_rows m [] cols = m
correct_rows m (row ∷ rows) cols = correct_rows (correct_row m row cols) rows cols

-- The correction of a matrix of `n_routers`.
unfoldable pub correct_matrix : ℕ → Matrix → Matrix
unfolding correct_rows up_to
correct_matrix n_routers m = correct_rows m (up_to n_routers) (up_to n_routers)

module _ {Name D : Type 0} ⦃e : Eq Name⦄ ⦃n : NdnName Name⦄ ⦃d : Double D⦄ where
  -- The cell of a neighbor of the router numbered `row`, if both have numbers of routers.
  unfoldable pub set_link : ℕ → RouterMap Name → Option ℕ → Matrix → Adjacent Name D → Matrix
  unfolding set get_mapping_no_by_router_name get_link_cost
  set_link n_routers p_map none m a = m
  set_link n_routers p_map (some row) m a = elim (get_mapping_no_by_router_name p_map a.name) [
    | none ↦ m
    | some col ↦
        if ltb row n_routers && ltb col n_routers then set m row col (get_link_cost a) else m
  ]

  unfoldable pub set_links : ℕ → RouterMap Name → Option ℕ → Matrix → AdjacencyList Name D → Matrix
  unfolding set_link
  set_links n_routers p_map row m [] = m
  set_links n_routers p_map row m (a ∷ adl) =
      set_links n_routers p_map row (set_link n_routers p_map row m a) adl

  unfoldable pub set_all_links : ℕ → RouterMap Name → Matrix → List (AdjLsa Name D) → Matrix
  unfolding set_links
  set_all_links n_routers p_map m [] = m
  set_all_links n_routers p_map m (l ∷ lsas) =
      set_all_links n_routers p_map
        (set_links n_routers p_map (get_mapping_no_by_router_name p_map l.orig_router) m l.adl) lsas

  -- `makeAdjMatrix`, of a matrix that was set to 0.
  unfoldable pub make_adj_matrix : ℕ → RouterMap Name → List (AdjLsa Name D) → Matrix
  unfolding set_all_links correct_matrix init_matrix
  make_adj_matrix n_routers p_map lsas =
      correct_matrix n_routers (set_all_links n_routers p_map init_matrix lsas)

-- `adjustAdMatrix`: the source keeps one of its links.
unfoldable pub adjust_ad_matrix : ℕ → Matrix → ℕ → ℕ → ℕ → Matrix
adjust_ad_matrix n_routers m source link link_cost i j =
    if i == source && ltb j n_routers then (if j == link then link_cost else 0) else m i j

-- `getNumOfLinkfromAdjMatrix` and `getLinksFromAdjMatrix`: the links of a router with their costs.
unfoldable pub links_among : Matrix → ℕ → List ℕ → List (ℕ × ℕ)
links_among m source [] = []
links_among m source (i ∷ is) =
    let rest = links_among m source is in
    if ltb 0 (m source i) then (i, m source i) ∷ rest else rest

unfoldable pub get_links : ℕ → Matrix → ℕ → List (ℕ × ℕ)
unfolding links_among up_to
get_links n_routers m source = links_among m source (up_to n_routers)
