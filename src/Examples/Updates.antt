-- ===== src/Examples/Updates.antt =====
-- Names as lists of components, the last one first, and a router that publishes its sequence numbers.
use ndnproject.Prelude.{
  Eq, List, NdnName, Str, [], ap, arith, false, length, none, refl, some, str_beq, str_beq_iff,
  str_ltb, str_ltb_irrefl, str_ltb_total, str_ltb_trans, sym, true, ℕ, ◌++◌, ◌↔◌, ◌∷◌, ◌≡◌,
}
use mathlib.Core.List.{append-nil, append_assoc}
use ndnproject.Config.{Environment, Settings, new_settings}
use ndnproject.Config.General.{set_network, build_router_prefix}
use ndnproject.Instances.{append_component, append_component_injective, whole_double}
use ndnproject.Sync.Names.{
  NameParts, SyncLogicHandler, create_sync_socket, publish_routing_update, get_origin_router,
  get_name_component_position, position_from,
}
use ndnproject.Nlsr.{Nlsr}
use ndnproject.Sequencing.{SequencingManager, combine_sequence_no}
use ndnproject.Sequencing.Packing.{IsPackable}
use ndnproject.Sync.Delivery.{on_nsync_update-published}
use ndnproject.Sync.Names.{on_nsync_update}
use ndnproject.Sync.Requests.{AsksForNewer}
use ndnproject.Sync.Origin.{get_origin_router-published}

abbrev Parts : Type 0
Parts = List Str

unfoldable reverse : Parts → Parts
reverse [] = []
reverse (c ∷ cs) = reverse cs ++ c ∷ []

reverse-append : (a b : Parts) → reverse (b ++ a) ≡ reverse a ++ reverse b
unfolding reverse
reverse-append a [] = sym (append-nil (reverse a))
reverse-append a (c ∷ b) = rw (reverse-append a b) (append_assoc (reverse a) (reverse b) (c ∷ []))

reverse-reverse : (a : Parts) → reverse (reverse a) ≡ a
unfolding reverse
reverse-reverse [] = refl
reverse-reverse (c ∷ a) = rw (reverse-append (c ∷ []) (reverse a), reverse-reverse a) refl

-- One text for all components, by which names are ordered.
unfoldable text : Parts → Str
text [] = []
text (c ∷ cs) = append_component (text cs) c

text_injective : (a b : Parts) → text a ≡ text b → a ≡ b
unfolding text append_component
text_injective [] [] h = refl
text_injective [] (d ∷ b) h = absurd (ground arith)
text_injective (c ∷ a) [] h = absurd (ground arith)
text_injective (c ∷ a) (d ∷ b) h =
    let parts = append_component_injective (text a) (text b) c d h in
    rw (text_injective a b parts.0, parts.1) refl

parts_append_injective : (a b : Parts) (s t : Str) → s ∷ a ≡ t ∷ b → (a ≡ b) × (s ≡ t)
parts_append_injective a b s t h = ground (arith, h)

instance abbrev parts_name : NdnName Parts
parts_name = record {
  empty = [];
  append = λ a s. s ∷ a;
  size = length;
  less = λ a b. str_ltb (text a) (text b);
  append_injective = parts_append_injective;
  less_irrefl = λ a. str_ltb_irrefl (text a);
  less_total = λ a b h k. text_injective a b (str_ltb_total (text a) (text b) h k);
  less_trans = λ a b c h k. str_ltb_trans (text a) (text b) (text c) h k;
}

parts_beq_iff : (a b : Parts) → (str_beq (text a) (text b) ≡ true) ↔ (a ≡ b)
parts_beq_iff a b =
    let same = str_beq_iff (text a) (text b) in
    (λ h. text_injective a b (same.0 h), λ h. same.1 (ap text h))

instance abbrev parts_eq : Eq Parts
parts_eq = record { beq = λ a b. str_beq (text a) (text b); beq_iff = parts_beq_iff }

instance abbrev parts_parts : NameParts Parts
unfolding reverse
parts_parts = record {
  components = reverse;
  of_components = reverse;
  components_of = reverse-reverse;
  of_components_of = reverse-reverse;
  components-append = λ a s. refl;
}

-- A configuration that is not read from a file: only names are joined.
abbrev joining : Environment Str Parts ℕ
joining = record {
  entries = λ section. [];
  data_of = λ section. section;
  get_string = λ section key. none;
  get_int = λ section key. none;
  get_uint32 = λ section key. none;
  get_double = λ section key. none;
  is_iequal = λ s t. false;
  of_uri = λ s. some (s ∷ []);
  append_name = λ a b. b ++ a;
  parses_face_uri = λ s. true;
  exists = λ s. true;
  is_directory = λ s. true;
  is_writable = λ s. true;
  loads_certificate = λ s. true;
}

abbrev named_settings : Settings Str Parts ℕ
named_settings = record new_settings {
  site_name = (b's' ∷ []) ∷ [];
  router_name = (b'r' ∷ []) ∷ [];
}

abbrev test_network : Parts
test_network = (b'n' ∷ []) ∷ []

abbrev closed_handler : SyncLogicHandler Parts
closed_handler = record { sync_prefix = []; update_prefix = []; sync_socket = none; published = [] }

get_origin_router-published_example :
    let configured =
      build_router_prefix joining (set_network joining named_settings test_network) in
    let opened = create_sync_socket joining closed_handler configured ((b'y' ∷ []) ∷ []) in
    (publish_routing_update opened 9
      ≡ some (record opened { published = (opened.update_prefix, 9) ∷ [] }))
    × (get_origin_router opened.update_prefix ≡ some configured.conf.router_prefix)
unfolding reverse get_name_component_position position_from str_beq new_settings
get_origin_router-published_example =
    get_origin_router-published joining reverse-append closed_handler named_settings test_network
      ((b'y' ∷ []) ∷ []) 9 refl refl refl

abbrev packable : SequencingManager
packable = record { name_lsa_seq = 3; adj_lsa_seq = 4; cor_lsa_seq = 5; combined_seq_no = 0 }

packable-IsPackable : IsPackable packable
packable-IsPackable = record {
  adj_fits = omega arith;
  cor_fits = omega arith;
  name_fits = omega arith;
}

abbrev new_router : Nlsr Parts ℕ
new_router = record {
  conf = record (named_settings.conf) { router_prefix = (b'q' ∷ []) ∷ [] };
  adjacency_list = [];
  name_prefix_list = [];
  sequencing_manager = packable;
  lsdb = record {
    name_lsdb = [];
    adj_lsdb = [];
    cor_lsdb = [];
    lsa_refresh_time = 1800;
    this_router_prefix = [];
    highest_seq_no = [];
    adj_lsa_build_interval = 5;
    seq_no = 0;
  };
  adj_build_count = 0;
  is_build_adj_lsa_scheduled = false;
  is_route_calculation_scheduled = false;
  is_routing_table_calculating = false;
  routing_table = record { r_table = []; dry_table = []; routing_calc_interval = 15 };
  name_prefix_table = [];
  fib = record { table = []; refresh_time = 3600; face_map = []; calls = [] };
  now = 0;
  calls = [];
}

on_nsync_update-published_example :
    let configured =
      build_router_prefix joining (set_network joining named_settings test_network) in
    let prefix = (create_sync_socket joining closed_handler configured []).update_prefix in
    let seq_no = (combine_sequence_no packable).combined_seq_no in
    AsksForNewer new_router prefix configured.conf.router_prefix 3 4 5
      (on_nsync_update new_router ((prefix, seq_no) ∷ []))
unfolding reverse get_name_component_position position_from str_beq new_settings set_network
    build_router_prefix text append_component
on_nsync_update-published_example =
    on_nsync_update-published joining reverse-append new_router closed_handler named_settings
      test_network [] packable packable-IsPackable refl refl refl refl
