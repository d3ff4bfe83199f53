-- ===== src/Nlsr.antt =====
-- src/nlsr.hpp and src/conf-parameter.hpp: the state of the router, which its components reach
-- through one another, and the parameters that it was configured with. The scheduler, the face and
-- the sync socket belong to other libraries: what the code asks of them, and of the counters of
-- packets, is the list `calls`, the latest first, and an EventId is the number of the call that scheduled the event. The clock is
-- the field `now`, in seconds.
pub mod Events
use ndnproject.Prelude.{Bool, List, Option, false, if◌then◌else◌, length, not, true, ℕ, ◌∷◌}
use ndnproject.Adjacency.{AdjacencyList}
use ndnproject.Fib.{Fib}
use ndnproject.Lsa.{NameLsa, AdjLsa, CoordinateLsa}
use ndnproject.NamePrefixList.{NamePrefixList}
use ndnproject.Routes.{RoutingTable, NamePrefixTableEntry}
use ndnproject.Sequencing.{SequencingManager}
use ndnproject.Statistics.{PacketType}

pub data HyperbolicState : Type 0 where
  off on dry_run : HyperbolicState

-- `>= HYPERBOLIC_STATE_ON`, of the numbers 0, 1 and 2.
abbrev pub uses_hyperbolic : HyperbolicState → Bool
uses_hyperbolic off = false
uses_hyperbolic on = true
uses_hyperbolic dry_run = true

pub record ConfParameter (Name D : Type 0) : Type 0 where
  pub router_prefix : Name
  pub lsa_refresh_time : ℕ
  pub router_dead_interval : ℕ
  pub lsa_interest_lifetime : ℕ
  pub interest_retry_number : ℕ
  pub interest_resend_time : ℕ
  pub info_interest_interval : ℕ
  pub hyperbolic_state : HyperbolicState
  pub cor_r : D
  pub cor_theta : D
  pub max_faces_per_prefix : ℕ
  pub lsa_prefix : Name
  pub chronosync_prefix : Name

pub record Lsdb (Name D : Type 0) : Type 0 where
  pub name_lsdb : List (NameLsa Name)
  pub adj_lsdb : List (AdjLsa Name D)
  pub cor_lsdb : List (CoordinateLsa Name D)
  pub lsa_refresh_time : ℕ
  pub this_router_prefix : Name
  pub highest_seq_no : List (Name × ℕ)
  pub adj_lsa_build_interval : ℕ
  pub seq_no : ℕ

pub data Event (Name : Type 0) : Type 0 where
  expire_or_refresh_name_lsa : Name → ℕ → Event Name
  expire_or_refresh_adj_lsa : Name → ℕ → Event Name
  expire_or_refresh_coordinate_lsa : Name → ℕ → Event Name
  build_adj_lsa : Event Name
  calculate_routing_table : Event Name
  send_scheduled_interest : Event Name
  retry_content_validation : Name → ℕ → Event Name

pub data Call (Name : Type 0) : Type 0 where
  schedule_event : ℕ → Event Name → Call Name
  cancel_event : Option ℕ → Call Name
  publish_routing_update : ℕ → Call Name
  express_lsa_interest : Name → ℕ → ℕ → ℕ → Call Name
  express_info_interest : Name → ℕ → Call Name
  put_info_data : Name → Call Name
  put_lsa_data : Name → ℕ → Call Name
  increment_statistic : PacketType → Call Name
  send_response : ℕ → Call Name
  send_nack : Call Name

pub record Nlsr (Name D : Type 0) : Type 0 where
  pub conf : ConfParameter Name D
  pub adjacency_list : AdjacencyList Name D
  pub name_prefix_list : NamePrefixList Name
  pub sequencing_manager : SequencingManager
  pub lsdb : Lsdb Name D
  pub adj_build_count : ℕ
  pub is_build_adj_lsa_scheduled : Bool
  pub is_route_calculation_scheduled : Bool
  pub is_routing_table_calculating : Bool
  pub routing_table : RoutingTable Name D
  pub name_prefix_table : List (NamePrefixTableEntry Name D)
  pub fib : Fib Name D
  pub now : ℕ
  pub calls : List (Call Name)

module _ {Name D : Type 0} where
  abbrev pub ask : Nlsr Name D → Call Name → Nlsr Name D
  ask s c = record s { calls = c ∷ s.calls }

  -- `scheduleEvent`: the event's id beside the new state.
  unfoldable pub schedule : Nlsr Name D → ℕ → Event Name → Nlsr Name D × ℕ
  schedule s delay event = (ask s (schedule_event delay event), length s.calls)

  -- `RoutingTable::scheduleRoutingTableCalculation`.
  unfoldable pub schedule_routing_table_calculation : Nlsr Name D → Nlsr Name D
  unfolding schedule
  schedule_routing_table_calculation s =
      if not s.is_route_calculation_scheduled
      then record ((schedule s s.routing_table.routing_calc_interval calculate_routing_table).0) {
        is_route_calculation_scheduled = true;
      }
      else s
