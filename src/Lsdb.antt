-- ===== src/Lsdb.antt =====
-- src/lsdb.hpp and src/lsdb.cpp: the link state database. What its three parts share is here; its
-- children hold the operations on the name, the adjacency and the coordinate LSAs, and the
-- exchange of LSAs with other routers.
pub mod Names
pub mod Adjacencies
pub mod Coordinates
pub mod Messages
pub mod Agreement
pub mod Untouched
pub mod Building
pub mod Exchange
pub mod Stored
pub mod Freshness
use ndnproject.Prelude.{
  Bool, Double, Eq, List, NdnName, Option, [], if◌then◌else◌, ltb, nat_eq, not, str_eq, ℕ, ◌%◌, ◌+◌,
  ◌-◌, ◌==◌, ◌^◌, ◌∷◌,
}
use ndnproject.NamePrefixTable.{add_origin, remove_origin}
use ndnproject.Nlsr.{
  Nlsr, Event, Call, ask, schedule, schedule_event, cancel_event, publish_routing_update,
}

-- A signed duration in seconds, as a difference.
pub record Duration : Type 0 where
  pub ahead : ℕ
  pub behind : ℕ

-- A uint32_t passed as an int and bound to a uint64_t.
abbrev pub as_int : ℕ → ℕ
as_int seq_no = if ltb seq_no (2 ^ 31) then seq_no else seq_no + (2 ^ 64 - 2 ^ 32)

-- `GRACE_PERIOD`, in seconds.
abbrev pub grace_period : ℕ
grace_period = 10

module _ {Name D : Type 0} ⦃e : Eq Name⦄ ⦃n : NdnName Name⦄ ⦃d : Double D⦄ where
  -- `onLsdbChange`, which counts the changes in a uint64_t.
  abbrev pub lsdb_changed : Nlsr Name D → Nlsr Name D
  lsdb_changed s = record s { lsdb = record (s.lsdb) { seq_no = (s.lsdb.seq_no + 1) % 2 ^ 64 } }

  -- The LSA comes from another router.
  abbrev pub is_foreign : Nlsr Name D → Name → Bool
  is_foreign s orig_router = not (orig_router == s.conf.router_prefix)

  -- How long an LSA stays: until it expires if it is another router's, and until it is refreshed if
  -- it is this router's own.
  unfoldable pub time_to_expire : Nlsr Name D → Name → ℕ → Duration
  time_to_expire s orig_router expiration =
      if is_foreign s orig_router
      then record { ahead = expiration; behind = s.now }
      else record { ahead = s.lsdb.lsa_refresh_time; behind = 0 }

  -- The common part of the three `schedule...LsaExpiration`: an event that is due fires at once.
  unfoldable pub schedule_expiration :
      Nlsr Name D → (Name → ℕ → Event Name) → Name → ℕ → Duration → Nlsr Name D × ℕ
  unfolding schedule
  schedule_expiration s event key seq_no exp_time =
      schedule s (exp_time.ahead + grace_period - exp_time.behind) (event key (as_int seq_no))

  unfoldable pub cancel_schedule_lsa_expiring_event : Nlsr Name D → Option ℕ → Nlsr Name D
  cancel_schedule_lsa_expiring_event s event_id = ask s (cancel_event event_id)

  unfoldable pub get_lsa_expiration_time_point : Nlsr Name D → ℕ
  get_lsa_expiration_time_point s = s.now + s.conf.router_dead_interval

  -- `SyncLogicHandler::publishRoutingUpdate`, with the sync socket created.
  unfoldable pub publish : Nlsr Name D → Nlsr Name D
  publish s = ask s (publish_routing_update s.sequencing_manager.combined_seq_no)

  -- The loops that hand the names of another router's LSA to the name prefix table: this router's
  -- own prefix is left out.
  unfoldable pub add_origins : Nlsr Name D → Name → List Name → Nlsr Name D
  add_origins s orig_router [] = s
  add_origins s orig_router (name ∷ names) =
      add_origins (if not (name == s.conf.router_prefix) then add_origin s name orig_router else s)
        orig_router names

  unfoldable pub remove_origins : Nlsr Name D → Name → List Name → Nlsr Name D
  remove_origins s orig_router [] = s
  remove_origins s orig_router (name ∷ names) =
      remove_origins
        (if not (name == s.conf.router_prefix) then remove_origin s name orig_router else s)
        orig_router names
