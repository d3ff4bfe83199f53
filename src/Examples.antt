-- ===== src/Examples.antt =====
-- A small router to try the theorems on: it has two neighbors, one of which it has heard from.
pub mod Routing
pub mod Link
pub mod Paths
pub mod Wires
pub mod Datasets
pub mod Texts
pub mod Files
pub mod Updates
use ndnproject.Prelude.{Str, [], false, nat_eq, none, refl, some, str_eq, true, ℕ, ◌∷◌}
use ndnproject.Adjacency.{Adjacent, AdjacencyList, active, inactive}
use ndnproject.Calculation.{calculate}
use ndnproject.Instances.{str_name, whole_double}
use ndnproject.Keyed.{find}
use ndnproject.Lsa.{
  NameLsa, AdjLsa, CoordinateLsa, new_name_lsa, new_adj_lsa, new_coordinate_lsa, name_type,
}
use ndnproject.Lsdb.Adjacencies
use ndnproject.Lsdb.Messages
use ndnproject.NamePrefixTable.Changes.{Agrees, hops_of-absent, hops_to_install-nil}
use ndnproject.NextHop.{NextHop, NexthopList}
use ndnproject.Nlsr.{Nlsr, ConfParameter, Lsdb, off}
use ndnproject.Routes.{RoutingTable, RoutingTableEntry}
use ndnproject.Sequencing.{SequencingManager}

abbrev pub router_a : Str
router_a = 1 ∷ b'a' ∷ []

abbrev pub router_b : Str
router_b = 1 ∷ b'b' ∷ []

abbrev pub router_c : Str
router_c = 1 ∷ b'c' ∷ []

abbrev pub uri_b : Str
uri_b = b'u' ∷ b'b' ∷ []

abbrev pub uri_c : Str
uri_c = b'u' ∷ b'c' ∷ []

abbrev pub neighbor_b : Adjacent Str ℕ
neighbor_b = record {
  name = router_b;
  connecting_face_uri = uri_b;
  link_cost = 10;
  status = active;
  interest_timed_out_no = 0;
  face_id = 7;
}

abbrev pub neighbor_c : Adjacent Str ℕ
neighbor_c = record {
  name = router_c;
  connecting_face_uri = uri_c;
  link_cost = 25;
  status = inactive;
  interest_timed_out_no = 3;
  face_id = 0;
}

abbrev pub neighbors : AdjacencyList Str ℕ
neighbors = neighbor_b ∷ neighbor_c ∷ []

abbrev pub conf_a : ConfParameter Str ℕ
conf_a = record {
  router_prefix = router_a;
  lsa_refresh_time = 1800;
  router_dead_interval = 3600;
  lsa_interest_lifetime = 4;
  interest_retry_number = 3;
  interest_resend_time = 5;
  info_interest_interval = 60;
  hyperbolic_state = off;
  cor_r = 0;
  cor_theta = 0;
  max_faces_per_prefix = 2;
  lsa_prefix = b'l' ∷ [];
  chronosync_prefix = b's' ∷ [];
}

abbrev pub idle : Nlsr Str ℕ
idle = record {
  conf = conf_a;
  adjacency_list = neighbors;
  name_prefix_list = router_a ∷ [];
  sequencing_manager = record {
    name_lsa_seq = 4;
    adj_lsa_seq = 5;
    cor_lsa_seq = 6;
    combined_seq_no = 0;
  };
  lsdb = record {
    name_lsdb = [];
    adj_lsdb = [];
    cor_lsdb = [];
    lsa_refresh_time = 1800;
    this_router_prefix = router_a;
    highest_seq_no = [];
    adj_lsa_build_interval = 5;
    seq_no = 0;
  };
  adj_build_count = 1;
  is_build_adj_lsa_scheduled = true;
  is_route_calculation_scheduled = false;
  is_routing_table_calculating = false;
  routing_table = record { r_table = []; dry_table = []; routing_calc_interval = 15 };
  name_prefix_table = [];
  fib = record { table = []; refresh_time = 3600; face_map = []; calls = [] };
  now = 100;
  calls = [];
}

pub idle-Agrees : Agrees idle
unfolding find
idle-Agrees = record {
  one_per_name = tt;
  fib_valid = record { one_per_name = tt; installed = tt };
  installs = λ k. rw (hops_of-absent [] k refl) (hops_to_install-nil 2);
}

abbrev pub hop_b : NextHop ℕ
hop_b = record { connecting_face_uri = uri_b; route_cost = 10; is_hyperbolic = false }

abbrev pub dear_hop_b : NextHop ℕ
dear_hop_b = record { connecting_face_uri = uri_b; route_cost = 40; is_hyperbolic = false }

abbrev pub hop_c : NextHop ℕ
hop_c = record { connecting_face_uri = uri_c; route_cost = 25; is_hyperbolic = false }

abbrev pub hops : NexthopList ℕ
hops = dear_hop_b ∷ hop_c ∷ hop_b ∷ []

abbrev pub route_b : RoutingTableEntry Str ℕ
route_b = record { destination = router_b; nexthop_list = hop_c ∷ hop_b ∷ [] }

abbrev pub routes : RoutingTable Str ℕ
routes = record { r_table = route_b ∷ []; dry_table = []; routing_calc_interval = 15 }

-- What router b advertises: its own name and two others.
abbrev pub names_of_b : NameLsa Str
names_of_b = new_name_lsa router_b 9 4000 (router_c ∷ uri_b ∷ [])

abbrev pub links_of_b : AdjLsa Str ℕ
links_of_b = new_adj_lsa router_b 9 4000 1 neighbors

abbrev pub place_of_b : CoordinateLsa Str ℕ
place_of_b = new_coordinate_lsa router_b 9 4000 3 4

-- The router hears of b's names, calculates a route to b and builds its own adjacency LSA.
abbrev pub heard : Nlsr Str ℕ
heard = Messages.on_content_validated idle (some router_b) name_type 9 (some names_of_b) none none

abbrev pub routed : Nlsr Str ℕ
routed = calculate heard

abbrev pub built : Nlsr Str ℕ
built = Adjacencies.build_scheduled routed
