-- ===== src/Tlv/CoordinateLsa.antt =====
-- src/tlv/coordinate-lsa.hpp and src/tlv/coordinate-lsa.cpp: the data set of a coordinate LSA. The
-- encoder counts on a double's block having ten bytes.
use ndnproject.Prelude.{
  List, Str, [], ap, arith, length, length-append, refl, sym, ℕ, ◌++◌, ◌∙◌, ◌∷◌, ◌≡◌,
}
use mathlib.Core.List.{append-nil, append_assoc}
use ndnproject.Tlv.Blocks.{Block, Wire, block_bytes, blocks_bytes}
use ndnproject.Tlv.Codec.{Holds, Encodes, begin-Holds, nested-Holds, finish-Encodes}
use ndnproject.Tlv.LsaInfo
use ndnproject.Tlv.LsaInfo.{LsaInfo}
use ndnproject.Tlv.{
  Encoder, Result, ok, ◌>>=◌, ◌>>◌, or_malformed, expect, field, begin, prepend, nested,
  prepend_bytes, finish, lsa_info_tlv, coordinate_lsa_tlv, double_tlv, hyperbolic_radius_tlv,
  hyperbolic_angle_tlv,
}

pub record CoordinateLsa (Name D : Type 0) : Type 0 where
  pub lsa_info : LsaInfo Name
  pub hyperbolic_radius : D
  pub hyperbolic_angle : D

abbrev pub double_length : ℕ
double_length = 10

module _ {Name D : Type 0} (w : Wire Name D) where
  -- A double's block, with `doubleLength` and the type before it.
  unfoldable pub prepend_double : Encoder → ℕ → D → Encoder
  unfolding prepend_bytes
  prepend_double en type x =
      let double = prepend_bytes w en double_tlv (w.double_bytes x) in
      let size = prepend double (w.var_number double_length) in prepend size (w.var_number type)

  unfoldable pub wire_encode : CoordinateLsa Name D → Str → Str × ℕ
  unfolding prepend_double LsaInfo.wire_encode finish
  wire_encode l encoder =
      let angle = prepend_double (begin encoder) hyperbolic_angle_tlv l.hyperbolic_angle in
      let radius = prepend_double angle hyperbolic_radius_tlv l.hyperbolic_radius in
      let info = nested radius (LsaInfo.wire_encode w l.lsa_info) in
      finish w info coordinate_lsa_tlv

  -- What a coordinate holds: its first element has to be a double.
  unfoldable pub decode_double : Block → Result D
  decode_double val = do
    elements ← or_malformed (w.parse val.value)
    (double_block, elements) ← field double_tlv elements
    ok (w.read_double double_block.value)

  unfoldable pub wire_decode : Block → Result (CoordinateLsa Name D)
  unfolding LsaInfo.wire_decode decode_double
  wire_decode wire = do
    expect coordinate_lsa_tlv wire
    elements ← or_malformed (w.parse wire.value)
    (info_block, elements) ← field lsa_info_tlv elements
    lsa_info ← LsaInfo.wire_decode w info_block
    (radius_block, elements) ← field hyperbolic_radius_tlv elements
    radius ← decode_double radius_block
    (angle_block, elements) ← field hyperbolic_angle_tlv elements
    angle ← decode_double angle_block
    ok (record { lsa_info = lsa_info; hyperbolic_radius = radius; hyperbolic_angle = angle })

  abbrev pub double_block : D → Block
  double_block x = record { type = double_tlv; value = w.double_bytes x }

  abbrev pub coordinate_block : ℕ → D → Block
  coordinate_block type x = record {
    type = type;
    value = blocks_bytes w.var_number (double_block x ∷ []);
  }

  unfoldable pub elements : CoordinateLsa Name D → List Block
  elements l =
      LsaInfo.block w l.lsa_info
      ∷ coordinate_block hyperbolic_radius_tlv l.hyperbolic_radius
      ∷ coordinate_block hyperbolic_angle_tlv l.hyperbolic_angle
      ∷ []

  unfoldable pub block : CoordinateLsa Name D → Block
  unfolding elements
  block l = record { type = coordinate_lsa_tlv; value = blocks_bytes w.var_number (elements l) }

  -- The ten bytes that the encoder counts on.
  length-double_block :
      (x : D) → length (blocks_bytes w.var_number (double_block x ∷ [])) ≡ double_length
  unfolding blocks_bytes block_bytes
  length-double_block x =
      let bytes = w.double_bytes x in
      let size = w.var_number (length bytes) in
      omega (
        arith,
        length-append (block_bytes w.var_number (double_block x)) [],
        length-append (w.var_number double_tlv) (size ++ bytes),
        length-append size bytes,
        w.double_size x,
        w.var_number-small double_tlv (omega arith),
        w.var_number-small (length bytes) (omega (arith, w.double_size x)),
      )

  coordinate_bytes :
      (type : ℕ) (x : D)
      → block_bytes w.var_number (coordinate_block type x)
        ≡ w.var_number type
          ++ (w.var_number double_length ++ block_bytes w.var_number (double_block x))
  unfolding block_bytes blocks_bytes
  coordinate_bytes type x =
      rw (length-double_block x, append-nil (block_bytes w.var_number (double_block x))) refl

  prepend_double-Holds :
      (en : Encoder) (type : ℕ) (x : D) (bs : List Block) (buffer : Str)
      → Holds w en bs buffer
      → Holds w (prepend_double en type x) (coordinate_block type x ∷ bs) buffer
  unfolding prepend_double prepend_bytes
  prepend_double-Holds en type x bs buffer h =
      let bytes = block_bytes w.var_number (double_block x) in
      let size = w.var_number double_length in
      let kind = w.var_number type in
      let h' =
        nested-Holds w en
          (λ encoder. (
            block_bytes w.var_number (coordinate_block type x) ++ encoder,
            length (block_bytes w.var_number (coordinate_block type x)),
          ))
          (coordinate_block type x) bs buffer (λ encoder. refl) h in
      let is = coordinate_bytes type x in
      record {
        bytes =
            sym (
              rw is (
                append_assoc kind (size ++ bytes) en.buffer
                ∙ ap (λ y. kind ++ y) (append_assoc size bytes en.buffer)))
            ∙ h'.bytes;
        counted = omega (
          arith,
          h'.counted,
          ap length is,
          length-append kind (size ++ bytes),
          length-append size bytes,
        );
      }

  pub wire_encode-Encodes : (l : CoordinateLsa Name D) → Encodes w (wire_encode l) (block l)
  unfolding wire_encode block elements
  wire_encode-Encodes l buffer =
      let angle =
        prepend_double-Holds _ hyperbolic_angle_tlv l.hyperbolic_angle _ buffer
          (begin-Holds w buffer) in
      finish-Encodes w _ coordinate_lsa_tlv _ buffer (
        nested-Holds w _ (LsaInfo.wire_encode w l.lsa_info) (LsaInfo.block w l.lsa_info) _ buffer
          (LsaInfo.wire_encode-Encodes w l.lsa_info)
          (prepend_double-Holds _ hyperbolic_radius_tlv l.hyperbolic_radius _ buffer angle))

  decode_double-block : (type : ℕ) (x : D) → decode_double (coordinate_block type x) ≡ ok x
  unfolding decode_double
  decode_double-block type x = rw (w.parse-blocks (double_block x ∷ []), w.read-double x) refl

  pub wire_decode-block :
      (l : CoordinateLsa Name D) → LsaInfo.IsEncodable l.lsa_info → wire_decode (block l) ≡ ok l
  unfolding wire_decode block elements LsaInfo.block
  wire_decode-block l fits =
      rw
        (
          w.parse-blocks (elements l),
          LsaInfo.wire_decode-block w l.lsa_info fits,
          decode_double-block hyperbolic_radius_tlv l.hyperbolic_radius,
          decode_double-block hyperbolic_angle_tlv l.hyperbolic_angle,
        )
        refl
