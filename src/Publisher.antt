-- ===== src/Publisher.antt =====
-- src/publisher and `makeLsaInfo` of src/tlv/lsa-info.cpp: the LSDB as data sets, cut into segments
-- that answer an interest. Signing a segment and putting it are left to ndn-cxx; the name under which it
-- is put is the interest's, with a version and the segment's number.
pub mod Segments
pub mod Contents
pub mod Handler
pub mod Answers
use ndnproject.Prelude.{
  Bool, Double, Eq, List, NdnName, Str, [], drop, false, if◌then◌else◌, length, map, nat_eq, str_eq,
  suc, take, true, zero, ℕ, ◌%◌, ◌*◌, ◌+◌, ◌-◌, ◌/◌, ◌==◌, ◌^◌, ◌∷◌,
}
use ndnproject.Adjacency.{Adjacent, AdjacencyList, get_link_cost}
use ndnproject.Lsa.{Lsa, NameLsa, AdjLsa, CoordinateLsa}
use ndnproject.Nlsr.{Nlsr}
use ndnproject.Tlv.Adjacency.{Adjacency}
use ndnproject.Tlv.AdjacencyLsa
use ndnproject.Tlv.CoordinateLsa
use ndnproject.Tlv.NameLsa
use ndnproject.Tlv.AdjacencyLsa.{AdjacencyLsa as TlvAdjacencyLsa, add_adjacency}
use ndnproject.Tlv.Blocks.{Wire}
use ndnproject.Tlv.CoordinateLsa.{CoordinateLsa as TlvCoordinateLsa}
use ndnproject.Tlv.LsaInfo.{LsaInfo, set_expiration_period, infinite_expiration_period}
use ndnproject.Tlv.LsdbStatus
use ndnproject.Tlv.LsdbStatus.{
  LsdbStatus, new_lsdb_status, add_adjacency_lsa, add_coordinate_lsa, add_name_lsa,
}
use ndnproject.Tlv.NameLsa.{NameLsa as TlvNameLsa, add_name}
use ndnproject.Tlv.{Encoder, begin, nested}

-- Milliseconds from now to a time, as 64 bits.
unfoldable pub milliseconds_until : ℕ → ℕ → ℕ
milliseconds_until now time = (1000 * time + 2 ^ 64 - 1000 * now % 2 ^ 64) % 2 ^ 64

module _ {Name : Type 0} where
  -- `makeLsaInfo`.
  unfoldable pub make_lsa_info : ℕ → Lsa Name → LsaInfo Name
  unfolding set_expiration_period milliseconds_until
  make_lsa_info now l =
      set_expiration_period
        (record {
          origin_router = l.orig_router;
          sequence_number = l.ls_seq_no;
          expiration_period = infinite_expiration_period;
          has_infinite_expiration_period = true;
        })
        (milliseconds_until now l.expiration_time_point)

  unfoldable pub add_names : TlvNameLsa Name → List Name → TlvNameLsa Name
  unfolding add_name
  add_names l [] = l
  add_names l (name ∷ names) = add_names (add_name l name) names

  -- One turn of `NameLsaPublisher::getTlvLsas`.
  unfoldable pub tlv_name_lsa : ℕ → NameLsa Name → TlvNameLsa Name
  unfolding make_lsa_info add_names
  tlv_name_lsa now l =
      add_names (record { lsa_info = make_lsa_info now l.lsa; names = []; has_names = false }) l.npl

module _ {Name D : Type 0} where
  -- One turn of `CoordinateLsaPublisher::getTlvLsas`.
  unfoldable pub tlv_coordinate_lsa : ℕ → CoordinateLsa Name D → TlvCoordinateLsa Name D
  unfolding make_lsa_info
  tlv_coordinate_lsa now l = record {
    lsa_info = make_lsa_info now l.lsa;
    hyperbolic_radius = l.cor_rad;
    hyperbolic_angle = l.cor_theta;
  }

  unfoldable pub add_adjacency_lsas :
      LsdbStatus Name D → List (TlvAdjacencyLsa Name) → LsdbStatus Name D
  unfolding add_adjacency_lsa
  add_adjacency_lsas s [] = s
  add_adjacency_lsas s (l ∷ lsas) = add_adjacency_lsas (add_adjacency_lsa s l) lsas

  unfoldable pub add_coordinate_lsas :
      LsdbStatus Name D → List (TlvCoordinateLsa Name D) → LsdbStatus Name D
  unfolding add_coordinate_lsa
  add_coordinate_lsas s [] = s
  add_coordinate_lsas s (l ∷ lsas) = add_coordinate_lsas (add_coordinate_lsa s l) lsas

  unfoldable pub add_name_lsas : LsdbStatus Name D → List (TlvNameLsa Name) → LsdbStatus Name D
  unfolding add_name_lsa
  add_name_lsas s [] = s
  add_name_lsas s (l ∷ lsas) = add_name_lsas (add_name_lsa s l) lsas

module _ {Name D : Type 0} ⦃e : Eq Name⦄ ⦃n : NdnName Name⦄ ⦃d : Double D⦄ where
  unfoldable pub add_adjacencies :
      TlvAdjacencyLsa Name → AdjacencyList Name D → TlvAdjacencyLsa Name
  unfolding add_adjacency get_link_cost
  add_adjacencies l [] = l
  add_adjacencies l (adj ∷ adl) =
      let tlv_adj : Adjacency Name = record {
        name = adj.name;
        uri = adj.connecting_face_uri;
        cost = get_link_cost adj;
      } in
      add_adjacencies (add_adjacency l tlv_adj) adl

  -- One turn of `AdjacencyLsaPublisher::getTlvLsas`.
  unfoldable pub tlv_adjacency_lsa : ℕ → AdjLsa Name D → TlvAdjacencyLsa Name
  unfolding make_lsa_info add_adjacencies
  tlv_adjacency_lsa now l =
      add_adjacencies
        (record { lsa_info = make_lsa_info now l.lsa; adjacencies = []; has_adjacencies = false })
        l.adl

  -- `getTlvLsas` of the three publishers.
  abbrev pub tlv_adjacency_lsas : Nlsr Name D → List (TlvAdjacencyLsa Name)
  tlv_adjacency_lsas s = map (tlv_adjacency_lsa s.now) s.lsdb.adj_lsdb

  abbrev pub tlv_coordinate_lsas : Nlsr Name D → List (TlvCoordinateLsa Name D)
  tlv_coordinate_lsas s = map (tlv_coordinate_lsa s.now) s.lsdb.cor_lsdb

  abbrev pub tlv_name_lsas : Nlsr Name D → List (TlvNameLsa Name)
  tlv_name_lsas s = map (tlv_name_lsa s.now) s.lsdb.name_lsdb

  -- The status that `LsdbStatusPublisher::generate` writes.
  unfoldable pub lsdb_status : Nlsr Name D → LsdbStatus Name D
  unfolding new_lsdb_status add_adjacency_lsas add_coordinate_lsas add_name_lsas tlv_adjacency_lsa
      tlv_coordinate_lsa tlv_name_lsa
  lsdb_status s =
      let adjacencies = add_adjacency_lsas new_lsdb_status (tlv_adjacency_lsas s) in
      let coordinates = add_coordinate_lsas adjacencies (tlv_coordinate_lsas s) in
      add_name_lsas coordinates (tlv_name_lsas s)

module _ {A : Type 0} where
  -- `generate` of the publishers of one kind of LSA. Its loop goes from the first LSA to the last, and
  -- each is put before the ones of before.
  unfoldable pub generate_lsas : (A → Str → Str × ℕ) → Encoder → List A → Encoder
  generate_lsas wire_encode en [] = en
  generate_lsas wire_encode en (l ∷ lsas) =
      generate_lsas wire_encode (nested en (wire_encode l)) lsas

-- What the four publishers write.
module _ {Name D : Type 0} ⦃e : Eq Name⦄ ⦃n : NdnName Name⦄ ⦃d : Double D⦄ (w : Wire Name D) where
  unfoldable pub generate_adjacency_lsas : Nlsr Name D → Str
  unfolding generate_lsas tlv_adjacency_lsa AdjacencyLsa.wire_encode
  generate_adjacency_lsas s =
      (generate_lsas (AdjacencyLsa.wire_encode w) (begin []) (tlv_adjacency_lsas s)).buffer

  unfoldable pub generate_coordinate_lsas : Nlsr Name D → Str
  unfolding generate_lsas tlv_coordinate_lsa CoordinateLsa.wire_encode
  generate_coordinate_lsas s =
      (generate_lsas (CoordinateLsa.wire_encode w) (begin []) (tlv_coordinate_lsas s)).buffer

  unfoldable pub generate_name_lsas : Nlsr Name D → Str
  unfolding generate_lsas tlv_name_lsa NameLsa.wire_encode
  generate_name_lsas s = (generate_lsas (NameLsa.wire_encode w) (begin []) (tlv_name_lsas s)).buffer

  unfoldable pub generate_lsdb_status : Nlsr Name D → Str
  unfolding lsdb_status LsdbStatus.wire_encode
  generate_lsdb_status s = (LsdbStatus.wire_encode w (lsdb_status s) []).0

-- A segment as it is put: its number, what it holds, and whether it is marked as the last one.
pub record Segment : Type 0 where
  pub segment_no : ℕ
  pub content : Str
  pub is_final : Bool

-- The loop of `publish`. It is given one turn more than there are bytes.
unfoldable pub cut : ℕ → ℕ → ℕ → Str → List Segment
cut zero max_segment_size segment_no bytes = []
cut (suc turns) max_segment_size segment_no bytes =
    let left = drop max_segment_size bytes in
    let rest = cut turns max_segment_size (segment_no + 1) left in
    let is_final = length left == 0 in
    record { segment_no = segment_no; content = take max_segment_size bytes; is_final = is_final }
    ∷ (if is_final then [] else rest)

-- `SegmentPublisher::publish`, of the bytes that `generate` leaves in the buffer.
unfoldable pub publish : ℕ → Str → List Segment
unfolding cut
publish max_ndn_packet_size bytes = cut (suc (length bytes)) (max_ndn_packet_size / 2) 0 bytes
