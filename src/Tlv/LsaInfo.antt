-- ===== src/Tlv/LsaInfo.antt =====
-- src/tlv/lsa-info.hpp and src/tlv/lsa-info.cpp: what all LSAs have. A period is the 64 bits of the
-- signed count of milliseconds, which is how it is written.
use ndnproject.Prelude.{
  Bool, Bool-cases, List, Str, [], false, if◌then◌else◌, inl, inr, nat_beq_iff, nat_eq, not, refl,
  str_eq, sym, true, ℕ, ◌-◌, ◌<◌, ◌==◌, ◌^◌, ◌∙◌, ◌∷◌, ◌≡◌,
}
use ndnproject.Tlv.Blocks.{Block, Wire, blocks_bytes}
use ndnproject.Tlv.Codec.{
  Holds, Encodes, begin-Holds, nested-Holds, prepend_integer-Holds, prepend_name-Holds,
  finish-Encodes,
}
use ndnproject.Tlv.{
  Result, ok, ◌>>=◌, ◌>>◌, or_malformed, expect, field, begin, nested, prepend_bytes,
  prepend_integer, prepend_name, finish, name_tlv, lsa_info_tlv, origin_router_tlv,
  sequence_number_tlv, expiration_period_tlv,
}

pub record LsaInfo (Name : Type 0) : Type 0 where
  pub origin_router : Name
  pub sequence_number : ℕ
  pub expiration_period : ℕ
  pub has_infinite_expiration_period : Bool

-- `INFINITE_EXPIRATION_PERIOD`, the largest signed count.
abbrev pub infinite_expiration_period : ℕ
infinite_expiration_period = 2 ^ 63 - 1

unfoldable pub set_expiration_period : {Name : Type 0} → LsaInfo Name → ℕ → LsaInfo Name
set_expiration_period i expiration_period = record i {
  expiration_period = expiration_period;
  has_infinite_expiration_period = expiration_period == infinite_expiration_period;
}

-- What a period says is what its flag says, and the numbers fit their types.
pub record IsEncodable {Name : Type 0} (i : LsaInfo Name) : Type 0 where
  pub sequence_fits : i.sequence_number < 2 ^ 64
  pub period_fits : i.expiration_period < 2 ^ 64
  pub flag : i.has_infinite_expiration_period ≡ (i.expiration_period == infinite_expiration_period)

module _ {Name D : Type 0} (w : Wire Name D) where
  -- `prependNestedBlock` of the name.
  unfoldable pub encode_origin_router : Name → Str → Str × ℕ
  unfolding prepend_name prepend_bytes finish
  encode_origin_router name encoder =
      finish w (prepend_name w (begin encoder) name) origin_router_tlv

  unfoldable pub wire_encode : LsaInfo Name → Str → Str × ℕ
  unfolding prepend_integer prepend_bytes encode_origin_router finish
  wire_encode i encoder =
      let period =
        if not i.has_infinite_expiration_period
        then prepend_integer w (begin encoder) expiration_period_tlv i.expiration_period
        else begin encoder in
      let sequence = prepend_integer w period sequence_number_tlv i.sequence_number in
      let origin = nested sequence (encode_origin_router i.origin_router) in
      finish w origin lsa_info_tlv

  -- What `OriginRouter` holds: its first element has to be a name.
  unfoldable pub decode_origin_router : Block → Result Name
  decode_origin_router val = do
    elements ← or_malformed (w.parse val.value)
    (name_block, elements) ← field name_tlv elements
    or_malformed (w.read_name name_block.value)

  -- The period, if the next element is one.
  unfoldable pub decode_period : List Block → Result (ℕ × Bool)
  decode_period [] = ok (infinite_expiration_period, true)
  decode_period (val ∷ rest) =
      if val.type == expiration_period_tlv
      then (do period ← or_malformed (w.read_integer val.value); ok (period, false))
      else ok (infinite_expiration_period, true)

  unfoldable pub wire_decode : Block → Result (LsaInfo Name)
  unfolding decode_origin_router decode_period
  wire_decode wire = do
    expect lsa_info_tlv wire
    elements ← or_malformed (w.parse wire.value)
    (origin_block, elements) ← field origin_router_tlv elements
    origin_router ← decode_origin_router origin_block
    (sequence_block, elements) ← field sequence_number_tlv elements
    sequence_number ← or_malformed (w.read_integer sequence_block.value)
    (period, infinite) ← decode_period elements
    ok (record {
      origin_router = origin_router;
      sequence_number = sequence_number;
      expiration_period = period;
      has_infinite_expiration_period = infinite;
    })

  abbrev pub origin_block : Name → Block
  origin_block name = record {
    type = origin_router_tlv;
    value = blocks_bytes w.var_number (record { type = name_tlv; value = w.name_value name } ∷ []);
  }

  abbrev pub period_blocks : LsaInfo Name → List Block
  period_blocks i =
      if not i.has_infinite_expiration_period
      then record { type = expiration_period_tlv; value = w.integer i.expiration_period } ∷ []
      else []

  unfoldable pub elements : LsaInfo Name → List Block
  elements i =
      origin_block i.origin_router
      ∷ record { type = sequence_number_tlv; value = w.integer i.sequence_number }
      ∷ period_blocks i

  unfoldable pub block : LsaInfo Name → Block
  unfolding elements
  block i = record { type = lsa_info_tlv; value = blocks_bytes w.var_number (elements i) }

  origin-Encodes : (name : Name) → Encodes w (encode_origin_router name) (origin_block name)
  unfolding encode_origin_router
  origin-Encodes name buffer =
      finish-Encodes w _ origin_router_tlv _ buffer
        (prepend_name-Holds w _ name _ buffer (begin-Holds w buffer))

  period-Holds :
      (i : LsaInfo Name) (buffer : Str)
      → Holds w
          (if not i.has_infinite_expiration_period
            then prepend_integer w (begin buffer) expiration_period_tlv i.expiration_period
            else begin buffer)
          (period_blocks i)
          buffer
  period-Holds i buffer = elim (Bool-cases i.has_infinite_expiration_period) [
    | inl infinite ↦ rw infinite (begin-Holds w buffer)
    | inr finite ↦ rw finite (
        prepend_integer-Holds w _ expiration_period_tlv i.expiration_period _ buffer
          (begin-Holds w buffer))
  ]

  pub wire_encode-Encodes : (i : LsaInfo Name) → Encodes w (wire_encode i) (block i)
  unfolding wire_encode block elements
  wire_encode-Encodes i buffer =
      let sequence =
        prepend_integer-Holds w _ sequence_number_tlv i.sequence_number _ buffer
          (period-Holds i buffer) in
      finish-Encodes w _ lsa_info_tlv _ buffer (
        nested-Holds w _ (encode_origin_router i.origin_router) (origin_block i.origin_router) _
          buffer (origin-Encodes i.origin_router) sequence)

  decode_origin_router-block : (name : Name) → decode_origin_router (origin_block name) ≡ ok name
  unfolding decode_origin_router
  decode_origin_router-block name =
      rw
        (
          w.parse-blocks (record { type = name_tlv; value = w.name_value name } ∷ []),
          w.read-name name,
        )
        refl

  decode_period-blocks :
      (i : LsaInfo Name)
      → IsEncodable i
      → decode_period (period_blocks i) ≡ ok (i.expiration_period, i.has_infinite_expiration_period)
  unfolding decode_period
  decode_period-blocks i fits = elim (Bool-cases i.has_infinite_expiration_period) [
    | inl infinite ↦
        let is : i.expiration_period ≡ infinite_expiration_period =
          (nat_beq_iff i.expiration_period infinite_expiration_period).0
            (sym fits.flag ∙ infinite) in
        rw (infinite, is) refl
    | inr finite ↦ rw (finite, w.read-integer i.expiration_period fits.period_fits) refl
  ]

  pub wire_decode-block : (i : LsaInfo Name) → IsEncodable i → wire_decode (block i) ≡ ok i
  unfolding wire_decode block elements
  wire_decode-block i fits =
      rw
        (
          w.parse-blocks (elements i),
          decode_origin_router-block i.origin_router,
          w.read-integer i.sequence_number fits.sequence_fits,
          decode_period-blocks i fits,
        )
        refl
