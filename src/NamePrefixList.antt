-- ===== src/NamePrefixList.antt =====
-- src/name-prefix-list.hpp and src/name-prefix-list.cpp: the list of advertised names, and
-- `std::set_difference` of two sorted ones.
use ndnproject.Prelude.{
  Bool, Eq, List, NdnName, [], false, if◌then◌else◌, nat_eq, none, some, str_eq, true, ◌++◌, ◌∷◌,
}
use ndnproject.Keyed.{find, erase}
use ndnproject.Sorting

abbrev pub NamePrefixList : Type 0 → Type 0
NamePrefixList Name = List Name

abbrev pub itself : {Name : Type 0} → Name → Name
itself a = a

module _ {Name : Type 0} ⦃e : Eq Name⦄ ⦃n : NdnName Name⦄ where
  unfoldable pub insert : NamePrefixList Name → Name → NamePrefixList Name × Bool
  insert l name = elim (find itself name l) [ some _ ↦ (l, false) | none ↦ (l ++ name ∷ [], true) ]

  unfoldable pub remove : NamePrefixList Name → Name → NamePrefixList Name × Bool
  remove l name = elim (find itself name l) [
    | some _ ↦ (erase itself name l, true)
    | none ↦ (l, false)
  ]

  unfoldable pub sort : NamePrefixList Name → NamePrefixList Name
  sort = Sorting.sort n.less

  unfoldable pub set_difference : List Name → List Name → List Name
  set_difference [] ys = []
  set_difference (x ∷ xs) [] = x ∷ xs
  set_difference (x ∷ xs) (y ∷ ys) =
      if n.less x y
      then x ∷ set_difference xs (y ∷ ys)
      else if n.less y x
      then set_difference (x ∷ xs) ys
      else set_difference xs ys
