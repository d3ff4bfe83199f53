-- ===== src/Fib.antt =====
-- src/route/fib-entry.hpp, src/route/fib.hpp and src/route/fib.cpp: the next hops installed for
-- each name, and the commands by which NFD is told of them. The NFD controller and the scheduler
-- belong to ndn-cxx: what the code asks of them is the list `calls`, the latest first, and an
-- EventId is the number of the call that scheduled the event. Times are in seconds.
pub mod Hops
pub mod Kept
pub mod Table
pub mod Update
use ndnproject.Prelude.{
  Bool, Double, Eq, List, NdnName, Str, [], false, if◌then◌else◌, length, ltb, min, nat_eq, none,
  not, some, str_eq, take, true, ℕ, ◌%◌, ◌++◌, ◌+◌, ◌==◌, ◌^◌, ◌∷◌,
}
use ndnproject.Keyed.{find, modify, erase}
use ndnproject.Adjacency
use ndnproject.Adjacency.{AdjacencyList, is_neighbor}
use ndnproject.FaceMap
use ndnproject.FaceMap.{FaceMap}
use ndnproject.NextHop
use ndnproject.NextHop.{
  NextHop, NexthopList, hop_uri, get_route_cost_as_adjusted_integer, add_next_hop, add_next_hops,
  remove_next_hop,
}

pub record FibEntry (Name D : Type 0) : Type 0 where
  pub name : Name
  pub expiration_time_point : ℕ
  pub expiring_event_id : ℕ
  pub seq_no : ℕ
  pub nexthop_list : NexthopList D

-- `ndn::nfd::ROUTE_FLAG_CAPTURE`, the one flag that the code passes.
pub data RouteFlags : Type 0 where
  capture : RouteFlags

pub data Timeout : Type 0 where
  seconds : ℕ → Timeout
  milliseconds_max : Timeout

-- `ndn::nfd::ControlParameters` of a registration; the origin is always 128.
pub record ControlParameters (Name : Type 0) : Type 0 where
  pub name : Name
  pub face_id : ℕ
  pub flags : RouteFlags
  pub cost : ℕ
  pub expiration_period : Timeout

pub data Call (Name : Type 0) : Type 0 where
  rib_register : ControlParameters Name → Str → ℕ → Call Name
  rib_unregister : Name → ℕ → Call Name
  face_create : Str → ControlParameters Name → ℕ → Call Name
  face_destroy : ℕ → Call Name
  strategy_set : Name → Str → ℕ → Call Name
  schedule_removal : Name → ℕ → Call Name
  cancel_event : ℕ → Call Name

pub record Fib (Name D : Type 0) : Type 0 where
  pub table : List (FibEntry Name D)
  pub refresh_time : ℕ
  pub face_map : FaceMap
  pub calls : List (Call Name)

abbrev pub fib_name : {Name D : Type 0} → FibEntry Name D → Name
fib_name e = e.name

-- `Fib::GRACE_PERIOD`.
abbrev pub grace_period : ℕ
grace_period = 10

module _ {D : Type 0} ⦃d : Double D⦄ where
  -- `max_faces` is the configured number of faces for a prefix; 0 allows all.
  unfoldable pub get_number_of_faces_for_name : ℕ → NexthopList D → ℕ
  get_number_of_faces_for_name max_faces hops =
      let n_next_hops : ℕ = length hops % 2 ^ 32 in
      if max_faces == 0 then n_next_hops else min n_next_hops max_faces

  -- The hops that `update` installs: the first of the sorted list.
  unfoldable pub hops_to_install : ℕ → NexthopList D → NexthopList D
  hops_to_install max_faces all_hops =
      let sorted : NexthopList D = NextHop.sort all_hops in
      add_next_hops [] (take (get_number_of_faces_for_name max_faces sorted) sorted)

module _ {Name D : Type 0} ⦃e : Eq Name⦄ ⦃n : NdnName Name⦄ ⦃d : Double D⦄ where
  abbrev pub ask : Fib Name D → Call Name → Fib Name D
  ask f c = record f { calls = c ∷ f.calls }

  unfoldable pub cancel_scheduled_expiring_event : Fib Name D → ℕ → Fib Name D
  cancel_scheduled_expiring_event f event_id = ask f (cancel_event event_id)

  -- `scheduleEntryExpiration`: the event is `remove` of the name.
  unfoldable pub schedule_entry_expiration : Fib Name D → Name → ℕ → Fib Name D × ℕ
  schedule_entry_expiration f name exp_time =
      (ask f (schedule_removal name exp_time), length f.calls)

  unfoldable pub is_prefix_updatable : AdjacencyList Name D → Name → Bool
  is_prefix_updatable adjs name = if not (is_neighbor adjs name) then true else false

  -- `registerPrefix`, of a face that is there: no command for a URI with no face id.
  unfoldable pub register_prefix :
      Fib Name D → AdjacencyList Name D → Name → Str → ℕ → Timeout → RouteFlags → ℕ → Fib Name D
  register_prefix f adjs name face_uri face_cost timeout flags times =
      let face_id : ℕ = Adjacency.get_face_id adjs face_uri in
      if not (face_id == 0)
      then ask f (
          rib_register
            (record {
              name = name;
              face_id = face_id;
              flags = flags;
              cost = face_cost;
              expiration_period = timeout;
            })
            face_uri times)
      else f

  -- `registerPrefix` with callbacks: the face is created first.
  unfoldable pub create_and_register_prefix :
      Fib Name D → Name → Str → ℕ → Timeout → RouteFlags → ℕ → Fib Name D
  create_and_register_prefix f name face_uri face_cost timeout flags times = ask f (
      face_create face_uri
        (record {
          name = name;
          face_id = 0;
          flags = flags;
          cost = face_cost;
          expiration_period = timeout;
        })
        times)

  -- `registerPrefixInNfd` of the id that creating the face returned.
  unfoldable pub register_prefix_in_nfd :
      Fib Name D → ℕ → ControlParameters Name → Str → ℕ → Fib Name D
  register_prefix_in_nfd f created_face_id parameters face_uri times =
      ask f (rib_register (record parameters { face_id = created_face_id }) face_uri times)

  unfoldable pub unregister_prefix : Fib Name D → Name → Str → Fib Name D
  unregister_prefix f name face_uri =
      let face_id : ℕ = FaceMap.get_face_id f.face_map face_uri in
      if ltb 0 face_id then ask f (rib_unregister name face_id) else f

  -- `onRegistration`: the reported id is narrowed to 32 bits.
  unfoldable pub on_registration : Fib Name D → ℕ → Str → Fib Name D
  on_registration f face_id face_uri = record f {
    face_map = FaceMap.update f.face_map face_uri (face_id % 2 ^ 32);
  }

  unfoldable pub on_registration_failure :
      Fib Name D → AdjacencyList Name D → ControlParameters Name → Str → ℕ → Fib Name D
  unfolding register_prefix
  on_registration_failure f adjs parameters face_uri times =
      if ltb times 3
      then register_prefix f adjs parameters.name face_uri parameters.cost
          parameters.expiration_period parameters.flags (times + 1)
      else f

  unfoldable pub set_strategy : Fib Name D → Name → Str → ℕ → Fib Name D
  set_strategy f name strategy count = ask f (strategy_set name strategy count)

  unfoldable pub on_set_strategy_failure : Fib Name D → Name → Str → ℕ → Fib Name D
  unfolding set_strategy
  on_set_strategy_failure f name strategy count =
      if ltb count 3 then set_strategy f name strategy (count + 1) else f

  unfoldable pub destroy_face_in_nfd : Fib Name D → ℕ → Fib Name D
  destroy_face_in_nfd f face_id = ask f (face_destroy face_id)

  unfoldable pub unregister_hop : AdjacencyList Name D → Name → Fib Name D → NextHop D → Fib Name D
  unregister_hop adjs name f h =
      if is_prefix_updatable adjs name then unregister_prefix f name h.connecting_face_uri else f

  -- The loop of `remove` over the hops of the entry.
  unfoldable pub unregister_hops :
      AdjacencyList Name D → Name → NexthopList D → Fib Name D → Fib Name D
  unregister_hops adjs name [] f = f
  unregister_hops adjs name (h ∷ hops) f =
      unregister_hops adjs name hops (unregister_hop adjs name f h)

  unfoldable pub remove : Fib Name D → AdjacencyList Name D → Name → Fib Name D
  remove f adjs name = elim (find fib_name name f.table) [
    | none ↦ f
    | some entry ↦
        let g : Fib Name D =
          cancel_scheduled_expiring_event (unregister_hops adjs entry.name entry.nexthop_list f)
            entry.expiring_event_id in
        record g { table = erase fib_name name g.table }
  ]

  unfoldable pub register_hop : AdjacencyList Name D → Name → Fib Name D → NextHop D → Fib Name D
  register_hop adjs name f h =
      if is_prefix_updatable adjs name
      then register_prefix f adjs name h.connecting_face_uri (get_route_cost_as_adjusted_integer h)
          (seconds (f.refresh_time + grace_period)) capture 0
      else f

  -- The loop of `addNextHopsToFibEntryAndNfd`: the commands.
  unfoldable pub register_hops :
      AdjacencyList Name D → Name → NexthopList D → Fib Name D → Fib Name D
  register_hops adjs name [] f = f
  register_hops adjs name (h ∷ hops) f = register_hops adjs name hops (register_hop adjs name f h)

  unfoldable pub add_next_hops_to_fib_entry_and_nfd :
      Fib Name D
      → AdjacencyList Name D
      → FibEntry Name D
      → NexthopList D
      → Fib Name D × FibEntry Name D
  add_next_hops_to_fib_entry_and_nfd f adjs entry hops_to_add = (
    register_hops adjs entry.name hops_to_add f,
    record entry { nexthop_list = NextHop.sort (add_next_hops entry.nexthop_list hops_to_add) },
  )

  unfoldable pub remove_old_hop :
      AdjacencyList Name D
      → Name
      → NexthopList D
      → NextHop D
      → Fib Name D
      → NexthopList D
      → Fib Name D × NexthopList D
  unfolding unregister_hop
  remove_old_hop adjs name installed h f kept =
      elim (find hop_uri h.connecting_face_uri installed) [
        | none ↦ (unregister_hop adjs name f h, remove_next_hop kept h)
        | some _ ↦ (f, kept)
      ]

  -- The loop of `removeOldNextHopsFromFibEntryAndNfd`: the iterator moves on before the removal.
  unfoldable pub remove_old_hops :
      AdjacencyList Name D
      → Name
      → NexthopList D
      → NexthopList D
      → Fib Name D
      → NexthopList D
      → Fib Name D × NexthopList D
  remove_old_hops adjs name installed [] f kept = (f, kept)
  remove_old_hops adjs name installed (h ∷ hops) f kept =
      let (g, rest) = remove_old_hop adjs name installed h f kept in
      remove_old_hops adjs name installed hops g rest

  unfoldable pub remove_old_next_hops_from_fib_entry_and_nfd :
      Fib Name D
      → AdjacencyList Name D
      → FibEntry Name D
      → NexthopList D
      → Fib Name D × FibEntry Name D
  unfolding remove_old_hops
  remove_old_next_hops_from_fib_entry_and_nfd f adjs entry installed =
      let (g, kept) =
        remove_old_hops adjs entry.name installed entry.nexthop_list f entry.nexthop_list in
      (g, record entry { nexthop_list = kept })

  -- The branch of `update` for a name with no entry.
  unfoldable pub install_new :
      Fib Name D → AdjacencyList Name D → ℕ → Name → NexthopList D → Fib Name D
  unfolding add_next_hops_to_fib_entry_and_nfd schedule_entry_expiration
  install_new f adjs now name hops_to_add =
      let entry : FibEntry Name D = record {
        name = name;
        expiration_time_point = 0;
        expiring_event_id = 0;
        seq_no = 0;
        nexthop_list = [];
      } in
      let (g, filled) = add_next_hops_to_fib_entry_and_nfd f adjs entry hops_to_add in
      let (h, event) = schedule_entry_expiration g name g.refresh_time in
      record h {
        table =
            h.table
            ++ record filled {
              expiration_time_point = now + f.refresh_time;
              expiring_event_id = event;
              seq_no = 1;
            }
              ∷ [];
      }

  -- The branch of `update` for a name with an entry.
  unfoldable pub install_existing :
      Fib Name D → AdjacencyList Name D → ℕ → Name → FibEntry Name D → NexthopList D → Fib Name D
  unfolding add_next_hops_to_fib_entry_and_nfd remove_old_next_hops_from_fib_entry_and_nfd
      schedule_entry_expiration cancel_scheduled_expiring_event
  install_existing f adjs now name entry hops_to_add =
      let (g, filled) = add_next_hops_to_fib_entry_and_nfd f adjs entry hops_to_add in
      let (h, kept) = remove_old_next_hops_from_fib_entry_and_nfd g adjs filled hops_to_add in
      let (k, event) =
        schedule_entry_expiration (cancel_scheduled_expiring_event h entry.expiring_event_id) name
          h.refresh_time in
      record k {
        table =
            modify fib_name name
              (λ x. record x {
                expiration_time_point = now + f.refresh_time;
                expiring_event_id = event;
                seq_no = (entry.seq_no + 1) % 2 ^ 32;
                nexthop_list = kept.nexthop_list;
              })
              k.table;
      }

  -- `update` once the hops to install are chosen.
  unfoldable pub update_to :
      Fib Name D → AdjacencyList Name D → ℕ → Name → NexthopList D → Fib Name D
  update_to f adjs now name hops_to_add = elim (find fib_name name f.table) [
    | none ↦ if length hops_to_add == 0 then f else install_new f adjs now name hops_to_add
    | some entry ↦
        if length hops_to_add == 0
        then remove f adjs name
        else install_existing f adjs now name entry hops_to_add
  ]

  unfoldable pub update :
      Fib Name D → AdjacencyList Name D → ℕ → ℕ → Name → NexthopList D → Fib Name D
  unfolding update_to
  update f adjs max_faces now name all_hops =
      update_to f adjs now name (hops_to_install max_faces all_hops)

  -- The loops of `clean`, which asks nothing about neighbors.
  unfoldable pub unregister_all_hops : Name → NexthopList D → Fib Name D → Fib Name D
  unregister_all_hops name [] f = f
  unregister_all_hops name (h ∷ hops) f =
      unregister_all_hops name hops (unregister_prefix f name h.connecting_face_uri)

  unfoldable pub clean_entries : List (FibEntry Name D) → Fib Name D → Fib Name D
  clean_entries [] f = f
  clean_entries (entry ∷ entries) f = clean_entries entries (
      unregister_all_hops entry.name entry.nexthop_list
        (cancel_scheduled_expiring_event f entry.expiring_event_id))

  unfoldable pub clean : Fib Name D → Fib Name D
  clean f = let g = clean_entries f.table f in record g { table = [] }
