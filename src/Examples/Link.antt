-- ===== src/Examples/Link.antt =====
-- The theorems on neighbors, next hops and interests at concrete inputs.
use ndnproject.Prelude.{
  ==_refl, All, List, Str, [], arith, false, if◌then◌else◌, nat_eq, refl, some, str_beq,
  str_beq_iff, str_eq, subst, sym, true, ℕ, ◌+◌, ◌<◌, ◌==◌, ◌↔◌, ◌∷◌, ◌≡◌, ◌≤◌,
}
use ndnproject.Adjacency.{
  get_link_cost, inactive, find_adjacent, is_adj_lsa_buildable, get_status_of_neighbor,
  set_status_of_neighbor, is_neighbor, unknown, get_timed_out_interest_count, add_adjacents,
}
use ndnproject.Adjacency.Laws.{is_adj_lsa_buildable_iff, IsSettled}
use ndnproject.Adjacency
use ndnproject.Examples.{
  router_a, links_of_b, router_b, router_c, uri_b, neighbors, neighbor_b, idle, hop_b, dear_hop_b,
  hops,
}
use ndnproject.Calculator.Bounds.{make_adj_matrix_below}
use ndnproject.Calculator.{
  init_matrix, set_all_links, set_links, set_link, correct_rows, correct_row, correct_cell,
  make_adj_matrix, Matrix, set, correct_matrix, up_to,
}
use ndnproject.Calculator.Symmetry.{agreed_cost, correct_matrix-agreed_cost}
use ndnproject.Dijkstra.{
  explore, sort_queue_by_distance, sort_from, sift, count, relax_all, relax, set_path,
  is_not_explored, no_paths, inf_distance, do_dijkstra_path_calculation,
}
use ndnproject.Dijkstra.Shortest.{do_dijkstra_path_calculation-shortest}
use ndnproject.Dijkstra.Walks.{Walk, stay, link, do_dijkstra_path_calculation-Walk}
use ndnproject.Lsa.{AdjLsa, new_adj_lsa, add_active}
use ndnproject.RouterMap.{
  reset, create_from_adj_lsdb, add_neighbors, add_router, add_map_entry,
  get_mapping_no_by_router_name,
}
use ndnproject.RouterMap.Numbering.{
  IsInverse, IsMapped, create_from_adj_lsdb-IsInverse, create_from_adj_lsdb-All,
}
use ndnproject.Sync.{SyncUpdate, process_update_from_sync}
use ndnproject.Sync.Requests.{AsksForNewer, process_update_from_sync-Asks}
use ndnproject.FaceMap
use ndnproject.FaceMap.{get_face_id-update}
use ndnproject.Hello.{process_interest_timed_out, info_component}
use ndnproject.Hello.Neighbors.{missed, find-timed_out}
use ndnproject.Hello.Timeouts.{timeouts, silent, find-timeouts}
use ndnproject.Instances.{str_name, whole_double}
use ndnproject.Keyed.{find}
use ndnproject.Lsdb.Exchange.{highest, highest-note_seq_no}
use ndnproject.Lsdb.Messages.{note_seq_no}
use ndnproject.Lsdb.Stored.{newer_of}
use ndnproject.NextHop
use ndnproject.NextHop.{
  NextHop, NexthopList, hop_uri, add_next_hop, add_next_hops, remove_next_hop,
  nexthop_remove_compare, next_hop_sorting_comparator,
}
use ndnproject.NextHop.Best.{Best, find-add_next_hops}
use ndnproject.NextHop.Laws
use ndnproject.NextHop.Laws.{IsOrdered, merged, find-add_next_hop, find-remove_next_hop}
use mathlib.Core.List.{Perm}

find_b : find_adjacent router_b idle.adjacency_list ≡ some neighbor_b
unfolding find_adjacent find
find_b = rw (==_refl router_b) refl

find-timeouts_example :
    find_adjacent router_b (timeouts 3 idle router_b).adjacency_list ≡ some (silent 3 3 neighbor_b)
find-timeouts_example =
    find-timeouts idle router_b neighbor_b find_b refl refl (omega arith) (omega arith) 3
      (omega arith)

find-timed_out_example :
    find_adjacent router_b (process_interest_timed_out idle info_component router_b).adjacency_list
    ≡ (if router_b == router_b
        then some (missed 3 neighbor_b)
        else find_adjacent router_b idle.adjacency_list)
find-timed_out_example = find-timed_out idle router_b neighbor_b find_b router_b

highest-note_seq_no_example :
    (highest (note_seq_no ((router_b, 8) ∷ []) router_b 9).0 router_c ≡ (
      if router_c == router_b
      then some (newer_of (highest ((router_b, 8) ∷ []) router_b) 9)
      else highest ((router_b, 8) ∷ []) router_c))
    × ((note_seq_no ((router_b, 8) ∷ []) router_b 9).1
        ≡ (newer_of (highest ((router_b, 8) ∷ []) router_b) 9 == 9))
highest-note_seq_no_example = highest-note_seq_no ((router_b, 8) ∷ []) router_b router_c 9

find-add_next_hops_example : Best uri_b hops (find hop_uri uri_b (add_next_hops [] hops))
find-add_next_hops_example = find-add_next_hops hops uri_b

find-add_next_hop_example : find hop_uri uri_b (add_next_hop (dear_hop_b ∷ []) hop_b) ≡ (
    if uri_b == uri_b
    then some (merged hop_b (find hop_uri uri_b (dear_hop_b ∷ [])))
    else find hop_uri uri_b (dear_hop_b ∷ []))
find-add_next_hop_example = find-add_next_hop (dear_hop_b ∷ []) hop_b uri_b

sort-IsOrdered_example : IsOrdered (NextHop.sort hops) × Perm (NextHop.sort hops) hops
sort-IsOrdered_example = Laws.sort-IsOrdered hops

get_face_id-update_example :
    FaceMap.get_face_id (FaceMap.update [] uri_b 7) uri_b
    ≡ (if uri_b == uri_b then 7 else FaceMap.get_face_id [] uri_b)
get_face_id-update_example = get_face_id-update [] uri_b 7 uri_b

is_adj_lsa_buildable_iff_example :
    (is_adj_lsa_buildable 3 neighbors ≡ true) ↔ All (IsSettled 3) neighbors
is_adj_lsa_buildable_iff_example = is_adj_lsa_buildable_iff 3 neighbors

abbrev costs : Matrix
costs = set (set (set (λ i j. 0) 0 1 5) 1 0 9) 1 2 4

correct_matrix-agreed_cost_example :
    (correct_matrix 3 costs 0 1 ≡ agreed_cost (costs 0 1) (costs 1 0))
    × (correct_matrix 3 costs 1 0 ≡ agreed_cost (costs 0 1) (costs 1 0))
correct_matrix-agreed_cost_example =
    correct_matrix-agreed_cost 3 costs 0 1 (omega arith) (omega arith)

router_c_distance : (do_dijkstra_path_calculation 3 costs (some 0)).distance 2 ≡ 9
unfolding do_dijkstra_path_calculation explore sort_queue_by_distance sort_from sift count relax_all
    relax set_path is_not_explored no_paths set up_to
router_c_distance = refl

do_dijkstra_path_calculation-Walk_example :
    Walk costs 0 2 ((do_dijkstra_path_calculation 3 costs (some 0)).distance 2)
do_dijkstra_path_calculation-Walk_example =
    do_dijkstra_path_calculation-Walk 3 costs 0 2
      (subst (λ x. (x == inf_distance) ≡ false) (sym router_c_distance) refl)

-- A link that both of its ends tell of.
abbrev both_ways : List (AdjLsa Str ℕ)
both_ways =
    new_adj_lsa router_a 9 4000 1 (neighbor_b ∷ [])
    ∷ new_adj_lsa router_b 9 4000 1 (record neighbor_b { name = router_a } ∷ [])
    ∷ []

both_ways_up : 0 < make_adj_matrix 2 (create_from_adj_lsdb reset both_ways) both_ways 0 1
unfolding make_adj_matrix set_all_links set_links set_link correct_matrix correct_rows correct_row
    correct_cell set up_to init_matrix create_from_adj_lsdb add_neighbors add_router add_map_entry
    get_mapping_no_by_router_name reset find new_adj_lsa add_active Adjacency.insert find_adjacent
    str_beq get_link_cost
both_ways_up = omega arith

make_adj_matrix_below_example : (0 < 2) × (1 < 2)
make_adj_matrix_below_example =
    make_adj_matrix_below 2 (create_from_adj_lsdb reset both_ways) both_ways 0 1 both_ways_up

do_dijkstra_path_calculation-shortest_example :
    (do_dijkstra_path_calculation 3 costs (some 0)).distance 2 ≤ 0 + costs 0 1 + costs 1 2
unfolding set
do_dijkstra_path_calculation-shortest_example =
    do_dijkstra_path_calculation-shortest 3 costs 0 2 (0 + costs 0 1 + costs 1 2) (omega arith)
      (λ x y up. ground arith) (link 2 (link 1 stay (omega arith)) (omega arith)) (omega arith)

router_b_number :
    get_mapping_no_by_router_name (create_from_adj_lsdb reset (links_of_b ∷ [])) router_b ≡ some 0
unfolding create_from_adj_lsdb add_neighbors add_router add_map_entry get_mapping_no_by_router_name
    reset find new_adj_lsa add_active Adjacency.insert find_adjacent str_beq
router_b_number = refl

create_from_adj_lsdb-IsInverse_example :
    IsInverse (create_from_adj_lsdb reset (links_of_b ∷ [])) router_b 0
create_from_adj_lsdb-IsInverse_example =
    create_from_adj_lsdb-IsInverse (links_of_b ∷ []) router_b 0 router_b_number

create_from_adj_lsdb-All_example :
    let made = create_from_adj_lsdb reset (links_of_b ∷ []) in
    All (λ l. IsMapped made l.orig_router × All (λ a. IsMapped made a.name) l.adl) (links_of_b ∷ [])
create_from_adj_lsdb-All_example = create_from_adj_lsdb-All reset (links_of_b ∷ [])

abbrev update_of_b : SyncUpdate Str
update_of_b = record {
  name = uri_b;
  origin_router = some router_b;
  seq_manager = record { name_lsa_seq = 9; adj_lsa_seq = 9; cor_lsa_seq = 9; combined_seq_no = 0 };
}

process_update_from_sync-Asks_example :
    AsksForNewer idle uri_b router_b 9 9 9 (process_update_from_sync idle update_of_b)
process_update_from_sync-Asks_example =
    process_update_from_sync-Asks idle update_of_b router_b refl
      (ground (arith, str_beq_iff router_b router_a))
