-- ===== src/Fib/Table.antt =====
-- The table of the FIB: what `update`, `remove` and `clean` leave in it.
use ndnproject.Prelude.{
  All, Double, Eq, NdnName, Option-cases, [], arith, if◌then◌else◌, inl, inr, nat_eq, none, str_eq,
  ◌==◌, ◌≡◌, ◌≢◌,
}
use ndnproject.Adjacency.{AdjacencyList}
use ndnproject.Keyed.{find, erase, Distinct}
use ndnproject.Keyed.Laws.{find-erase_self, find-erase_ne, Distinct-erase, erase_absent}
use ndnproject.Keyed.Members.{All-erase}
use ndnproject.NextHop.Laws.{OnePerFace}
use ndnproject.Fib.Hops.{unregister_hops-SameBut}
use ndnproject.Fib.{Fib, FibEntry, fib_name, remove, cancel_scheduled_expiring_event}

module _ {Name D : Type 0} ⦃e : Eq Name⦄ ⦃n : NdnName Name⦄ ⦃d : Double D⦄ where
  -- An entry has one hop for each of its faces, and at least one.
  abbrev pub IsInstalled : FibEntry Name D → Type 0
  IsInstalled entry = OnePerFace entry.nexthop_list × (entry.nexthop_list ≢ [])

  pub record IsValid (f : Fib Name D) : Type 0 where
    pub one_per_name : Distinct fib_name f.table
    pub installed : All IsInstalled f.table

  table-remove :
      (f : Fib Name D) (adjs : AdjacencyList Name D) (name : Name)
      → (remove f adjs name).table ≡ erase fib_name name f.table
  unfolding remove cancel_scheduled_expiring_event
  table-remove f adjs name = elim (Option-cases (find fib_name name f.table)) [
    | inl miss ↦ ground (arith, erase_absent fib_name name f.table)
    | inr (entry, hit) ↦
        ground (arith, unregister_hops-SameBut adjs entry.name entry.nexthop_list f)
  ]

  -- Of a valid FIB, `remove` takes out the entry of the name, and no other.
  pub find-remove :
      (f : Fib Name D) (adjs : AdjacencyList Name D) (name k : Name)
      → IsValid f
      → find fib_name k (remove f adjs name).table
        ≡ (if k == name then none else find fib_name k f.table)
  find-remove f adjs name k v = rw (table-remove f adjs name) (
      ground (
        arith,
        e.beq_iff k name,
        find-erase_self fib_name name f.table v.one_per_name,
        find-erase_ne fib_name name k f.table,
      ))

  pub remove-IsValid :
      (f : Fib Name D) (adjs : AdjacencyList Name D) (name : Name)
      → IsValid f
      → IsValid (remove f adjs name)
  remove-IsValid f adjs name v = record {
    one_per_name =
        rw (table-remove f adjs name) (Distinct-erase fib_name name f.table v.one_per_name);
    installed =
        rw (table-remove f adjs name) (All-erase fib_name IsInstalled name f.table v.installed);
  }
