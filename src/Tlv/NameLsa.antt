-- ===== src/Tlv/NameLsa.antt =====
-- src/tlv/name-lsa.hpp and src/tlv/name-lsa.cpp: the data set of a name LSA.
use ndnproject.Prelude.{All, Bool, List, Str, [], map, refl, true, ℕ, ◌++◌, ◌∷◌, ◌≡◌}
use mathlib.Core.List.{append-nil}
use ndnproject.Tlv.Blocks.{Block, Wire, blocks_bytes}
use ndnproject.Tlv.Codec.{
  Encodes, begin-Holds, nested-Holds, nested_all-Holds, encode_name-Encodes, finish-Encodes,
  decode_all-blocks,
}
use ndnproject.Tlv.LsaInfo
use ndnproject.Tlv.LsaInfo.{LsaInfo}
use ndnproject.Tlv.{
  Result, ok, ◌>>=◌, ◌>>◌, or_malformed, expect, field, begin, nested, nested_all, finish,
  decode_all, is_any, lsa_info_tlv, name_tlv, name_lsa_tlv, encode_name,
}

pub record NameLsa (Name : Type 0) : Type 0 where
  pub lsa_info : LsaInfo Name
  pub names : List Name
  pub has_names : Bool

unfoldable pub add_name : {Name : Type 0} → NameLsa Name → Name → NameLsa Name
add_name l name = record l { names = l.names ++ name ∷ []; has_names = true }

-- The LSA's numbers fit their types, and its flag says whether there are names.
pub record IsEncodable {Name : Type 0} (l : NameLsa Name) : Type 0 where
  pub info : LsaInfo.IsEncodable l.lsa_info
  pub flag : l.has_names ≡ is_any l.names

module _ {Name D : Type 0} (w : Wire Name D) where
  unfoldable pub wire_encode : NameLsa Name → Str → Str × ℕ
  unfolding nested_all encode_name LsaInfo.wire_encode finish
  wire_encode l encoder =
      let names = nested_all (encode_name w) (begin encoder) l.names in
      let info = nested names (LsaInfo.wire_encode w l.lsa_info) in finish w info name_lsa_tlv

  -- `ndn::Name(*val)`.
  abbrev pub decode_name : Block → Result Name
  decode_name val = or_malformed (w.read_name val.value)

  unfoldable pub wire_decode : Block → Result (NameLsa Name)
  unfolding LsaInfo.wire_decode decode_all
  wire_decode wire = do
    expect name_lsa_tlv wire
    elements ← or_malformed (w.parse wire.value)
    (info_block, elements) ← field lsa_info_tlv elements
    lsa_info ← LsaInfo.wire_decode w info_block
    names ← decode_all name_tlv wire.type decode_name elements
    ok (record { lsa_info = lsa_info; names = names; has_names = is_any names })

  abbrev pub name_block : Name → Block
  name_block name = record { type = name_tlv; value = w.name_value name }

  unfoldable pub block : NameLsa Name → Block
  block l = record {
    type = name_lsa_tlv;
    value = blocks_bytes w.var_number (LsaInfo.block w l.lsa_info ∷ map name_block l.names ++ []);
  }

  pub wire_encode-Encodes : (l : NameLsa Name) → Encodes w (wire_encode l) (block l)
  unfolding wire_encode block
  wire_encode-Encodes l buffer = finish-Encodes w _ name_lsa_tlv _ buffer (
      nested-Holds w _ (LsaInfo.wire_encode w l.lsa_info) (LsaInfo.block w l.lsa_info) _ buffer
        (LsaInfo.wire_encode-Encodes w l.lsa_info)
        (nested_all-Holds w (encode_name w) name_block (encode_name-Encodes w) l.names _ [] buffer
          (begin-Holds w buffer)))

  names-block : (names : List Name) → All (λ a. decode_name (name_block a) ≡ ok a) names
  names-block [] = tt
  names-block (a ∷ names) = (rw (w.read-name a) refl, names-block names)

  pub wire_decode-block : (l : NameLsa Name) → IsEncodable l → wire_decode (block l) ≡ ok l
  unfolding wire_decode block LsaInfo.block
  wire_decode-block l fits =
      rw
        (
          append-nil (map name_block l.names),
          w.parse-blocks (LsaInfo.block w l.lsa_info ∷ map name_block l.names),
          LsaInfo.wire_decode-block w l.lsa_info fits.info,
          decode_all-blocks name_tlv decode_name name_block (λ a. refl) name_lsa_tlv l.names
              (names-block l.names),
          fits.flag,
        )
        refl
