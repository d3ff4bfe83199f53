-- ===== src/RouterMap.antt =====
-- src/route/map-entry.hpp, src/route/map.hpp and src/route/map.cpp: the numbers that stand for routers
-- in a route calculation. A name that is not found is `none` for `Name()`, a number `none` for -1.
pub mod Numbering
use ndnproject.Prelude.{
  Bool, Eq, List, Option, [], false, if◌then◌else◌, nat_eq, none, some, str_eq, true, ℕ, ◌++◌, ◌+◌,
  ◌∷◌,
}
use ndnproject.Adjacency.{AdjacencyList}
use ndnproject.Keyed.{find}
use ndnproject.Lsa.{AdjLsa}

pub record MapEntry (Name : Type 0) : Type 0 where
  pub router : Name
  pub mapping_number : ℕ

pub record RouterMap (Name : Type 0) : Type 0 where
  pub table : List (MapEntry Name)
  pub mapping_index : ℕ

abbrev pub entry_router : {Name : Type 0} → MapEntry Name → Name
entry_router x = x.router

abbrev pub entry_number : {Name : Type 0} → MapEntry Name → ℕ
entry_number x = x.mapping_number

unfoldable pub reset : {Name : Type 0} → RouterMap Name
reset = record { table = []; mapping_index = 0 }

module _ {Name : Type 0} ⦃e : Eq Name⦄ where
  -- `addEntry(mpe)`.
  unfoldable pub add_map_entry : RouterMap Name → MapEntry Name → RouterMap Name × Bool
  add_map_entry m mpe = elim (find entry_router mpe.router m.table) [
    | none ↦ (record m { table = m.table ++ mpe ∷ [] }, true)
    | some _ ↦ (m, false)
  ]

  -- `addEntry(rtrName)`: a new router takes the next number.
  unfoldable pub add_router : RouterMap Name → Name → RouterMap Name
  unfolding add_map_entry
  add_router m rtr_name =
      let (t, added) =
        add_map_entry m (record { router = rtr_name; mapping_number = m.mapping_index }) in
      if added then record t { mapping_index = t.mapping_index + 1 } else t

  unfoldable pub get_router_name_by_mapping_no : RouterMap Name → ℕ → Option Name
  get_router_name_by_mapping_no m mn = elim (find entry_number mn m.table) [
    | some x ↦ some x.router
    | none ↦ none
  ]

  unfoldable pub get_mapping_no_by_router_name : RouterMap Name → Name → Option ℕ
  get_mapping_no_by_router_name m r_name = elim (find entry_router r_name m.table) [
    | some x ↦ some x.mapping_number
    | none ↦ none
  ]

  unfoldable pub add_neighbors :
      {D : Type 0} → RouterMap Name → AdjacencyList Name D → RouterMap Name
  unfolding add_router
  add_neighbors m [] = m
  add_neighbors m (a ∷ adl) = add_neighbors (add_router m a.name) adl

  unfoldable pub create_from_adj_lsdb :
      {D : Type 0} → RouterMap Name → List (AdjLsa Name D) → RouterMap Name
  unfolding add_router add_neighbors
  create_from_adj_lsdb m [] = m
  create_from_adj_lsdb m (l ∷ lsas) =
      create_from_adj_lsdb (add_neighbors (add_router m l.orig_router) l.adl) lsas
