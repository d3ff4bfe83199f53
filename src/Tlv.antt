-- ===== src/Tlv.antt =====
-- src/tlv: the data sets that a router publishes of its LSDB, as bytes. This file has what their
-- encoders and decoders share; each data set has a module of its own. `m_wire`, which keeps an
-- encoding until a setter clears it, is left out: `wire_encode` is the encoder that it is filled by.
pub mod Blocks
pub mod Codec
pub mod LsaInfo
pub mod Adjacency
pub mod AdjacencyLsa
pub mod CoordinateLsa
pub mod NameLsa
pub mod LsdbStatus
use ndnproject.Prelude.{
  Bool, List, Option, Str, [], false, if◌then◌else◌, length, nat_eq, none, some, str_eq, true, ℕ,
  ◌++◌, ◌+◌, ◌==◌, ◌∷◌,
}
use ndnproject.Tlv.Blocks.{Block, Wire, block_bytes}

-- src/tlv/tlv-nlsr.hpp, and the type of `ndn::Name`.
abbrev pub name_tlv : ℕ
name_tlv = 7

abbrev pub lsa_info_tlv : ℕ
lsa_info_tlv = 128

abbrev pub origin_router_tlv : ℕ
origin_router_tlv = 129

abbrev pub sequence_number_tlv : ℕ
sequence_number_tlv = 130

abbrev pub adjacency_lsa_tlv : ℕ
adjacency_lsa_tlv = 131

abbrev pub adjacency_tlv : ℕ
adjacency_tlv = 132

abbrev pub coordinate_lsa_tlv : ℕ
coordinate_lsa_tlv = 133

abbrev pub double_tlv : ℕ
double_tlv = 134

abbrev pub hyperbolic_radius_tlv : ℕ
hyperbolic_radius_tlv = 135

abbrev pub hyperbolic_angle_tlv : ℕ
hyperbolic_angle_tlv = 136

abbrev pub name_lsa_tlv : ℕ
name_lsa_tlv = 137

abbrev pub lsdb_status_tlv : ℕ
lsdb_status_tlv = 138

abbrev pub expiration_period_tlv : ℕ
expiration_period_tlv = 139

abbrev pub cost_tlv : ℕ
cost_tlv = 140

abbrev pub uri_tlv : ℕ
uri_tlv = 141

-- What is thrown: a block of another type than expected, a field that is not there, a block that is
-- left over, or an error of ndn-cxx.
pub data Error : Type 0 where
  expected : ℕ → ℕ → Error
  missing : ℕ → Error
  left_over : ℕ → Error
  malformed : Error

pub data Result {ℓ} (A : Type ℓ) : Type ℓ where
  ok : A → Result A
  err : Error → Result A

infixl 5 ◌>>=◌ ◌>>◌
-- What follows a throw is skipped.
abbrev pub ◌>>=◌ {ℓ κ} : {A : Type ℓ} {B : Type κ} → Result A → (A → Result B) → Result B
m >>= f = elim m [ err e ↦ err e | ok a ↦ f a ]

abbrev pub ◌>>◌ {ℓ} : {B : Type ℓ} → Result (Unit {0}) → Result B → Result B
m >> rest = elim m [ err e ↦ err e | ok _ ↦ rest ]

-- What a call of ndn-cxx returns or throws.
abbrev pub or_malformed {ℓ} : {A : Type ℓ} → Option A → Result A
or_malformed none = err malformed
or_malformed (some a) = ok a

abbrev pub expect : ℕ → Block → Result (Unit {0})
expect type b = if b.type == type then ok tt else err (expected type b.type)

-- The next element, which has to have the type.
abbrev pub field : ℕ → List Block → Result (Block × List Block)
field type [] = err (missing type)
field type (b ∷ rest) = if b.type == type then ok (b, rest) else err (missing type)

-- An encoder's buffer, which grows at its front, and `totalLength`.
pub record Encoder : Type 0 where
  pub buffer : Str
  pub total_length : ℕ

abbrev pub begin : Str → Encoder
begin buffer = record { buffer = buffer; total_length = 0 }

abbrev pub prepend : Encoder → Str → Encoder
prepend en bytes = record {
  buffer = bytes ++ en.buffer;
  total_length = en.total_length + length bytes;
}

-- `totalLength += x.wireEncode(encoder)`.
abbrev pub nested : Encoder → (Str → Str × ℕ) → Encoder
nested en wire_encode =
    let (buffer, encoded) = wire_encode en.buffer in
    record { buffer = buffer; total_length = en.total_length + encoded }

module _ {Name D : Type 0} (w : Wire Name D) where
  -- `prependByteArrayBlock`.
  unfoldable pub prepend_bytes : Encoder → ℕ → Str → Encoder
  unfolding block_bytes
  prepend_bytes en type bytes =
      prepend en (block_bytes w.var_number (record { type = type; value = bytes }))

  -- `prependNonNegativeIntegerBlock`.
  unfoldable pub prepend_integer : Encoder → ℕ → ℕ → Encoder
  unfolding prepend_bytes
  prepend_integer en type value = prepend_bytes en type (w.integer value)

  -- `m_name.wireEncode(encoder)`.
  unfoldable pub prepend_name : Encoder → Name → Encoder
  unfolding prepend_bytes
  prepend_name en name = prepend_bytes en name_tlv (w.name_value name)

  -- The length and the type, which end an encoding, and what it returns.
  unfoldable pub finish : Encoder → ℕ → Str × ℕ
  finish en type =
      let e' = prepend en (w.var_number en.total_length) in
      let e'' = prepend e' (w.var_number type) in (e''.buffer, e''.total_length)

  -- `ndn::Name::wireEncode`.
  unfoldable pub encode_name : Name → Str → Str × ℕ
  unfolding block_bytes
  encode_name name encoder =
      let b : Block = record { type = name_tlv; value = w.name_value name } in
      (block_bytes w.var_number b ++ encoder, length (block_bytes w.var_number b))

module _ {A : Type 0} where
  -- The loop over a list from its end: each element is put before the ones behind it.
  unfoldable pub nested_all : (A → Str → Str × ℕ) → Encoder → List A → Encoder
  nested_all wire_encode en [] = en
  nested_all wire_encode en (x ∷ xs) = nested (nested_all wire_encode en xs) (wire_encode x)

  -- The loop over all elements that are left, which have to be of one type. The error names the type
  -- of the outer block.
  unfoldable pub decode_all : ℕ → ℕ → (Block → Result A) → List Block → Result (List A)
  decode_all type wire_type decode [] = ok []
  decode_all type wire_type decode (val ∷ rest) =
      let decoded = (do
        a ← decode val
        more ← decode_all type wire_type decode rest
        ok (a ∷ more)) in
      if val.type == type then decoded else err (expected type wire_type)

  -- The loop over the elements of one type: what they hold, and the elements behind them.
  unfoldable pub decode_while : ℕ → (Block → Result A) → List Block → Result (List A × List Block)
  decode_while type decode [] = ok ([], [])
  decode_while type decode (val ∷ rest) =
      let decoded = (do
        a ← decode val
        (more, left) ← decode_while type decode rest
        ok (a ∷ more, left)) in
      if val.type == type then decoded else ok ([], val ∷ rest)

  abbrev pub is_any : List A → Bool
  is_any [] = false
  is_any (x ∷ xs) = true
