-- ===== src/Examples/Routing.antt =====
-- The theorems on routes, the FIB and the LSDB at concrete inputs.
use ndnproject.Prelude.{
  All, Str, arith, false, if◌then◌else◌, nat_eq, none, some, str_eq, ◌==◌, ◌≡◌, ◌≢◌, ◌⊎◌,
}
use ndnproject.Examples.{
  router_b, uri_c, neighbors, idle, idle-Agrees, hops, route_b, names_of_b, links_of_b, place_of_b,
  built,
}
use ndnproject.Fib
use ndnproject.Fib.{Fib, hops_to_install, fib_name}
use ndnproject.Fib.Table
use ndnproject.Fib.Table.{find-remove}
use ndnproject.Fib.Update.{Installs, update-Installs}
use ndnproject.Instances.{str_name, whole_double}
use ndnproject.Keyed.{find}
use ndnproject.Lsa.{name_type, name_lsa_key, adj_lsa_key, coordinate_lsa_key}
use ndnproject.Lsdb.Adjacencies.{build_scheduled, install_adj_lsa}
use ndnproject.Adjacency.Laws.{IsSettled}
use ndnproject.Lsdb.Building.{IsBuilt, IsPutOff, build_scheduled-IsPutOff}
use ndnproject.Lsdb.Coordinates.{install_coordinate_lsa}
use ndnproject.Lsdb.Freshness.{
  name_seq_no, adj_seq_no, coordinate_seq_no, name_seq_no-install, adj_seq_no-install,
  coordinate_seq_no-install,
}
use ndnproject.Lsdb.Names.{install_name_lsa}
use ndnproject.Lsdb.Stored.{newer_of}
use ndnproject.NamePrefixTable.{add_entry}
use ndnproject.NamePrefixTable.Agreement.{add_entry-Agrees}
use ndnproject.NamePrefixTable.Changes.{Agrees}
use ndnproject.Runs.{Run, start, then_step, lsa_received, routes_calculated, adj_lsa_build_due}
use ndnproject.Runs.Agreement.{Run-Agrees}

Run-to_built : Run idle built
Run-to_built =
    then_step
      (then_step
        (then_step start (lsa_received (some router_b) name_type 9 (some names_of_b) none none))
        routes_calculated)
      adj_lsa_build_due

Run-Agrees_example : Agrees built
Run-Agrees_example = Run-Agrees idle built Run-to_built idle-Agrees

update-Installs_example :
    let g = Fib.update idle.fib neighbors 2 100 uri_c hops in
    Table.IsValid g
    × Installs (hops_to_install 2 hops) (find fib_name uri_c g.table)
    × ((k : Str) → k ≢ uri_c → find fib_name k g.table ≡ find fib_name k idle.fib.table)
update-Installs_example = update-Installs idle.fib neighbors 2 100 uri_c hops idle-Agrees.fib_valid

add_entry-Agrees_once : Agrees (add_entry idle uri_c route_b)
add_entry-Agrees_once = add_entry-Agrees idle uri_c route_b idle-Agrees

name_seq_no-install_example :
    let key = name_lsa_key names_of_b in
    name_seq_no (install_name_lsa idle names_of_b) key ≡ (
      if name_lsa_key names_of_b == key
      then some (newer_of (name_seq_no idle key) names_of_b.ls_seq_no)
      else name_seq_no idle key)
name_seq_no-install_example = name_seq_no-install idle names_of_b (name_lsa_key names_of_b)

adj_seq_no-install_example :
    let key = adj_lsa_key links_of_b in
    adj_seq_no (install_adj_lsa idle links_of_b) key ≡ (
      if adj_lsa_key links_of_b == key
      then some (newer_of (adj_seq_no idle key) links_of_b.ls_seq_no)
      else adj_seq_no idle key)
adj_seq_no-install_example = adj_seq_no-install idle links_of_b (adj_lsa_key links_of_b)

coordinate_seq_no-install_example :
    let key = coordinate_lsa_key place_of_b in
    coordinate_seq_no (install_coordinate_lsa idle place_of_b) key ≡ (
      if coordinate_lsa_key place_of_b == key
      then some (newer_of (coordinate_seq_no idle key) place_of_b.ls_seq_no)
      else coordinate_seq_no idle key)
coordinate_seq_no-install_example =
    coordinate_seq_no-install idle place_of_b (coordinate_lsa_key place_of_b)

build_scheduled-IsPutOff_example :
    (All (IsSettled 3) neighbors
      × ((build_scheduled idle).adj_build_count ≡ 0)
      × ((build_scheduled idle).is_build_adj_lsa_scheduled ≡ false)
      × IsBuilt idle (build_scheduled idle))
    ⊎ (¬ All (IsSettled 3) neighbors × IsPutOff idle (build_scheduled idle))
build_scheduled-IsPutOff_example = build_scheduled-IsPutOff idle (omega arith)
