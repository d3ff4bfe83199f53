-- ===== src/Tlv/AdjacencyLsa.antt =====
-- src/tlv/adjacency-lsa.hpp and src/tlv/adjacency-lsa.cpp: the data set of an adjacency LSA.
use ndnproject.Prelude.{All, Bool, List, Str, [], map, refl, true, ℕ, ◌++◌, ◌<◌, ◌^◌, ◌∷◌, ◌≡◌}
use mathlib.Core.List.{append-nil}
use ndnproject.Tlv.Adjacency
use ndnproject.Tlv.Adjacency.{Adjacency}
use ndnproject.Tlv.Blocks.{Block, Wire, blocks_bytes}
use ndnproject.Tlv.Codec.{
  Encodes, begin-Holds, nested-Holds, nested_all-Holds, finish-Encodes, decode_all-blocks,
}
use ndnproject.Tlv.LsaInfo
use ndnproject.Tlv.LsaInfo.{LsaInfo}
use ndnproject.Tlv.{
  Result, ok, ◌>>=◌, ◌>>◌, or_malformed, expect, field, begin, nested, nested_all, finish,
  decode_all, is_any, lsa_info_tlv, adjacency_tlv, adjacency_lsa_tlv,
}

pub record AdjacencyLsa (Name : Type 0) : Type 0 where
  pub lsa_info : LsaInfo Name
  pub adjacencies : List (Adjacency Name)
  pub has_adjacencies : Bool

unfoldable pub add_adjacency :
    {Name : Type 0} → AdjacencyLsa Name → Adjacency Name → AdjacencyLsa Name
add_adjacency l adjacency = record l {
  adjacencies = l.adjacencies ++ adjacency ∷ [];
  has_adjacencies = true;
}

-- The LSA's numbers fit their types, and its flag says whether there are adjacencies.
pub record IsEncodable {Name : Type 0} (l : AdjacencyLsa Name) : Type 0 where
  pub info : LsaInfo.IsEncodable l.lsa_info
  pub costs : All (λ a. a.cost < 2 ^ 64) l.adjacencies
  pub flag : l.has_adjacencies ≡ is_any l.adjacencies

module _ {Name D : Type 0} (w : Wire Name D) where
  unfoldable pub wire_encode : AdjacencyLsa Name → Str → Str × ℕ
  unfolding nested_all Adjacency.wire_encode LsaInfo.wire_encode finish
  wire_encode l encoder =
      let adjacencies = nested_all (Adjacency.wire_encode w) (begin encoder) l.adjacencies in
      let info = nested adjacencies (LsaInfo.wire_encode w l.lsa_info) in
      finish w info adjacency_lsa_tlv

  unfoldable pub wire_decode : Block → Result (AdjacencyLsa Name)
  unfolding LsaInfo.wire_decode Adjacency.wire_decode decode_all
  wire_decode wire = do
    expect adjacency_lsa_tlv wire
    elements ← or_malformed (w.parse wire.value)
    (info_block, elements) ← field lsa_info_tlv elements
    lsa_info ← LsaInfo.wire_decode w info_block
    adjacencies ← decode_all adjacency_tlv wire.type (Adjacency.wire_decode w) elements
    ok (record {
      lsa_info = lsa_info;
      adjacencies = adjacencies;
      has_adjacencies = is_any adjacencies;
    })

  unfoldable pub block : AdjacencyLsa Name → Block
  block l = record {
    type = adjacency_lsa_tlv;
    value =
        blocks_bytes w.var_number
          (LsaInfo.block w l.lsa_info ∷ map (Adjacency.block w) l.adjacencies ++ []);
  }

  pub wire_encode-Encodes : (l : AdjacencyLsa Name) → Encodes w (wire_encode l) (block l)
  unfolding wire_encode block
  wire_encode-Encodes l buffer = finish-Encodes w _ adjacency_lsa_tlv _ buffer (
      nested-Holds w _ (LsaInfo.wire_encode w l.lsa_info) (LsaInfo.block w l.lsa_info) _ buffer
        (LsaInfo.wire_encode-Encodes w l.lsa_info)
        (nested_all-Holds w (Adjacency.wire_encode w) (Adjacency.block w)
          (Adjacency.wire_encode-Encodes w) l.adjacencies _ [] buffer (begin-Holds w buffer)))

  type-adjacency : (a : Adjacency Name) → (Adjacency.block w a).type ≡ adjacency_tlv
  unfolding Adjacency.block
  type-adjacency a = refl

  adjacencies-block :
      (l : List (Adjacency Name))
      → All (λ a. a.cost < 2 ^ 64) l
      → All (λ a. Adjacency.wire_decode w (Adjacency.block w a) ≡ ok a) l
  adjacencies-block [] fits = tt
  adjacencies-block (a ∷ l) fits =
      (Adjacency.wire_decode-block w a fits.0, adjacencies-block l fits.1)

  pub wire_decode-block : (l : AdjacencyLsa Name) → IsEncodable l → wire_decode (block l) ≡ ok l
  unfolding wire_decode block LsaInfo.block
  wire_decode-block l fits =
      rw
        (
          append-nil (map (Adjacency.block w) l.adjacencies),
          w.parse-blocks (LsaInfo.block w l.lsa_info ∷ map (Adjacency.block w) l.adjacencies),
          LsaInfo.wire_decode-block w l.lsa_info fits.info,
          decode_all-blocks adjacency_tlv (Adjacency.wire_decode w) (Adjacency.block w)
              type-adjacency adjacency_lsa_tlv l.adjacencies
              (adjacencies-block l.adjacencies fits.costs),
          fits.flag,
        )
        refl
