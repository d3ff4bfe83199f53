-- ===== src/Examples/Files.antt =====
-- A configuration file, and what the program calls to read it, at concrete inputs. A number in the file is one
-- element.
use ndnproject.Prelude.{
  List, Option, Str, [], if◌then◌else◌, nat_eq, none, refl, some, str_beq, str_eq, true, ℕ, ◌++◌,
  ◌==◌, ◌∷◌, ◌≡◌,
}
use ndnproject.Config.{Environment, ℤ, pos, new_settings, ◌then◌, required, parse_optional}
use ndnproject.Config.Bounds.{AreInRange}
use ndnproject.Config.Bounds.Load.{load-AreInRange}
use ndnproject.Config.General.{
  set_network, set_name, process_names, process_refresh_time, process_lifetime, is_valid_log_level,
  process_log_level, process_directory, process_log4cxx, process_general,
}
use ndnproject.Config.Keys.{
  general_key, fib_key, network_key, site_key, router_key, router_dead_interval_key, log_dir_key,
  seq_dir_key, max_faces_per_prefix_key,
}
use ndnproject.Config.Load.{process_section, process_sections, load}
use ndnproject.Config.Sections.{process_max_faces, process_fib}
use ndnproject.Instances.{str_name, whole_double, append_component, components}

mutual
  pub data Node : Type 0 where
    value : Str → Node
    group : Nodes → Node

  pub data Nodes : Type 0 where
    no_nodes : Nodes
    node : Str → Node → Nodes → Nodes

abbrev nodes_list : Nodes → List (Str × Node)
nodes_list no_nodes = []
nodes_list (node key n nodes) = (key, n) ∷ nodes_list nodes

abbrev entries : Node → List (Str × Node)
entries (value s) = []
entries (group nodes) = nodes_list nodes

abbrev data_of : Node → Str
data_of (value s) = s
data_of (group nodes) = []

unfoldable pub text_at : List (Str × Node) → Str → Option Str
text_at [] key = none
text_at ((k, n) ∷ nodes) key = if k == key then some (data_of n) else text_at nodes key

abbrev first_of : Option Str → Option ℕ
first_of (some (k ∷ [])) = some k
first_of _ = none

abbrev positive : Option ℕ → Option ℤ
positive none = none
positive (some k) = some (pos k)

abbrev plain_environment : Environment Node Str ℕ
plain_environment = record {
  entries = entries;
  data_of = data_of;
  get_string = λ n key. text_at (entries n) key;
  get_int = λ n key. positive (first_of (text_at (entries n) key));
  get_uint32 = λ n key. first_of (text_at (entries n) key);
  get_double = λ n key. first_of (text_at (entries n) key);
  is_iequal = λ s t. true;
  of_uri = λ s. some (append_component [] s);
  append_name = λ a b. b ++ a;
  parses_face_uri = λ s. true;
  exists = λ s. true;
  is_directory = λ s. true;
  is_writable = λ s. true;
  loads_certificate = λ s. true;
}

abbrev file : Node
file = group (
    node general_key
      (group (
        node network_key (value (b'n' ∷ [])) (
          node site_key (value (b's' ∷ [])) (
            node router_key (value (b'r' ∷ [])) (
              node router_dead_interval_key (value (1801 ∷ [])) (
                node log_dir_key (value (b'l' ∷ []))
                  (node seq_dir_key (value (b'q' ∷ [])) no_nodes)))))))
      (node fib_key (group (node max_faces_per_prefix_key (value (60 ∷ [])) no_nodes)) no_nodes))

file_accepted : (load plain_environment (some file) new_settings).1 ≡ true
unfolding load process_sections process_section process_general process_names set_network set_name
    process_refresh_time process_lifetime is_valid_log_level process_log_level process_directory
    process_log4cxx process_fib process_max_faces parse_optional ◌then◌ required new_settings
    text_at append_component components str_beq
file_accepted = refl

load-AreInRange_example : AreInRange (load plain_environment (some file) new_settings).0
load-AreInRange_example = load-AreInRange plain_environment (some file) file_accepted
