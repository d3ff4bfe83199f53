-- ===== src/Sync.antt =====
-- src/communication/sync-logic-handler.cpp: what a sync update from another router makes the LSDB
-- ask for. An update's name is given with the originating router that the code reads from it, `none`
-- if the expected components are missing, which the code catches as an exception.
pub mod Numbers
pub mod Requests
pub mod Names
pub mod Origin
pub mod Delivery
use ndnproject.Prelude.{
  Bool, Double, Eq, NdnName, Option, Str, false, if◌then◌else◌, nat_eq, none, not, some, str_eq, ℕ,
  ◌==◌,
}
use ndnproject.Lsa.{name_type, adjacency_type, coordinate_type}
use ndnproject.Lsdb.Adjacencies.{is_adj_lsa_new}
use ndnproject.Lsdb.Coordinates.{is_coordinate_lsa_new}
use ndnproject.Lsdb.Messages.{express_interest}
use ndnproject.Lsdb.Names.{is_name_lsa_new}
use ndnproject.Nlsr.{Nlsr}
use ndnproject.Sequencing.{SequencingManager, split_sequence_no}

-- `SyncUpdate`.
pub record SyncUpdate (Name : Type 0) : Type 0 where
  pub name : Name
  pub origin_router : Option Name
  pub seq_manager : SequencingManager

module _ {Name : Type 0} where
  unfoldable pub new_sync_update : Name → Option Name → ℕ → SyncUpdate Name
  unfolding split_sequence_no
  new_sync_update name origin_router seq_no = record {
    name = name;
    origin_router = origin_router;
    seq_manager = split_sequence_no seq_no;
  }

module _ {Name D : Type 0} ⦃e : Eq Name⦄ ⦃n : NdnName Name⦄ ⦃d : Double D⦄ where
  unfoldable pub is_lsa_new : Nlsr Name D → Name → Str → ℕ → Bool
  unfolding is_name_lsa_new is_adj_lsa_new is_coordinate_lsa_new
  is_lsa_new s origin_router lsa_type seq_no =
      let lsa_key = n.append origin_router lsa_type in
      if lsa_type == name_type
      then is_name_lsa_new s lsa_key seq_no
      else if lsa_type == adjacency_type
      then is_adj_lsa_new s lsa_key seq_no
      else if lsa_type == coordinate_type
      then is_coordinate_lsa_new s lsa_key seq_no
      else false

  unfoldable pub express_interest_for_lsa : Nlsr Name D → Name → Str → ℕ → Nlsr Name D
  unfolding express_interest
  express_interest_for_lsa s update_name lsa_type seq_no =
      express_interest s (n.append update_name lsa_type) lsa_type seq_no 0 none

  -- One of the three tests of `processUpdateFromSync`.
  unfoldable pub ask_if_new : Nlsr Name D → Name → Name → Str → ℕ → Nlsr Name D
  unfolding is_lsa_new express_interest_for_lsa
  ask_if_new s update_name origin_router lsa_type seq_no =
      if is_lsa_new s origin_router lsa_type seq_no
      then express_interest_for_lsa s update_name lsa_type seq_no
      else s

  -- A router does not fetch its own LSAs.
  unfoldable pub process_update_from_sync : Nlsr Name D → SyncUpdate Name → Nlsr Name D
  unfolding ask_if_new
  process_update_from_sync s update = elim update.origin_router [
    | none ↦ s
    | some r ↦
        if not (r == s.conf.router_prefix)
        then (let t = ask_if_new s update.name r name_type update.seq_manager.name_lsa_seq in
            let u = ask_if_new t update.name r adjacency_type update.seq_manager.adj_lsa_seq in
            ask_if_new u update.name r coordinate_type update.seq_manager.cor_lsa_seq)
        else s
  ]
