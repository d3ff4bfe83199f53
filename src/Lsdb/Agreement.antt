-- ===== src/Lsdb/Agreement.antt =====
-- src/lsdb.cpp: whatever happens to an LSA, the FIB stays in agreement with the name prefix table.
-- This module holds what the three kinds share.
pub mod Names
pub mod Adjacencies
pub mod Coordinates
use ndnproject.Prelude.{
  Bool-cases, Double, Eq, List, NdnName, [], inl, inr, nat_eq, refl, str_eq, ◌==◌, ◌∷◌, ◌≡◌,
}
use ndnproject.Lsdb.{add_origins, remove_origins}
use ndnproject.NamePrefixTable.{add_origin, remove_origin}
use ndnproject.NamePrefixTable.Agreement.{add_origin-Agrees, remove_origin-Agrees}
use ndnproject.NamePrefixTable.Changes.{Agrees}
use ndnproject.Nlsr.{Nlsr, schedule_routing_table_calculation}

module _ {Name D : Type 0} ⦃e : Eq Name⦄ ⦃n : NdnName Name⦄ ⦃d : Double D⦄ where
  -- No table changes, nor do the parameters.
  abbrev pub Untouched : Nlsr Name D → Nlsr Name D → Type 0
  Untouched s t =
      (t.conf ≡ s.conf) × (t.name_prefix_table ≡ s.name_prefix_table) × (t.fib.table ≡ s.fib.table)

  pub Untouched-Agrees : (s t : Nlsr Name D) → Untouched s t → Agrees s → Agrees t
  Untouched-Agrees s t (c, p, f) a = record {
    one_per_name = rw p a.one_per_name;
    fib_valid = record {
      one_per_name = rw f a.fib_valid.one_per_name;
      installed = rw f a.fib_valid.installed;
    };
    installs = λ k. rw (c, p, f) (a.installs k);
  }

  pub calculation-Untouched : (s : Nlsr Name D) → Untouched s (schedule_routing_table_calculation s)
  unfolding schedule_routing_table_calculation
  calculation-Untouched s = elim (Bool-cases s.is_route_calculation_scheduled) [
    | inl set ↦ rw (set, schedule_routing_table_calculation) (refl, refl, refl)
    | inr unset ↦ rw (unset, schedule_routing_table_calculation) (refl, refl, refl)
  ]

  pub add_origins-Agrees :
      (s : Nlsr Name D) (orig_router : Name) (names : List Name)
      → Agrees s
      → Agrees (add_origins s orig_router names)
  unfolding add_origins
  add_origins-Agrees s r [] a = a
  add_origins-Agrees s r (x ∷ names) a = elim (Bool-cases (x == s.conf.router_prefix)) [
    | inl own ↦ rw own (add_origins-Agrees s r names a)
    | inr other ↦
        rw other (add_origins-Agrees (add_origin s x r) r names (add_origin-Agrees s x r a))
  ]

  pub remove_origins-Agrees :
      (s : Nlsr Name D) (orig_router : Name) (names : List Name)
      → Agrees s
      → Agrees (remove_origins s orig_router names)
  unfolding remove_origins
  remove_origins-Agrees s r [] a = a
  remove_origins-Agrees s r (x ∷ names) a = elim (Bool-cases (x == s.conf.router_prefix)) [
    | inl own ↦ rw own (remove_origins-Agrees s r names a)
    | inr other ↦
        rw other
          (remove_origins-Agrees (remove_origin s x r) r names (remove_origin-Agrees s x r a))
  ]
