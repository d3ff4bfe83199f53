-- ===== src/Tlv/Adjacency.antt =====
-- src/tlv/adjacency.hpp and src/tlv/adjacency.cpp: a neighbor in an adjacency LSA.
use ndnproject.Prelude.{List, Str, [], refl, ℕ, ◌<◌, ◌^◌, ◌∷◌, ◌≡◌}
use ndnproject.Tlv.Blocks.{Block, Wire, blocks_bytes}
use ndnproject.Tlv.Codec.{
  Encodes, begin-Holds, prepend_bytes-Holds, prepend_integer-Holds, prepend_name-Holds,
  finish-Encodes,
}
use ndnproject.Tlv.{
  Result, ok, ◌>>=◌, ◌>>◌, or_malformed, expect, field, begin, prepend_bytes, prepend_integer,
  prepend_name, finish, name_tlv, uri_tlv, cost_tlv, adjacency_tlv,
}

pub record Adjacency (Name : Type 0) : Type 0 where
  pub name : Name
  pub uri : Str
  pub cost : ℕ

module _ {Name D : Type 0} (w : Wire Name D) where
  unfoldable pub wire_encode : Adjacency Name → Str → Str × ℕ
  unfolding prepend_integer prepend_bytes prepend_name finish
  wire_encode a encoder =
      let cost = prepend_integer w (begin encoder) cost_tlv a.cost in
      let uri = prepend_bytes w cost uri_tlv a.uri in
      let name = prepend_name w uri a.name in finish w name adjacency_tlv

  unfoldable pub wire_decode : Block → Result (Adjacency Name)
  wire_decode wire = do
    expect adjacency_tlv wire
    elements ← or_malformed (w.parse wire.value)
    (name_block, elements) ← field name_tlv elements
    name ← or_malformed (w.read_name name_block.value)
    (uri_block, elements) ← field uri_tlv elements
    (cost_block, elements) ← field cost_tlv elements
    cost ← or_malformed (w.read_integer cost_block.value)
    ok (record { name = name; uri = uri_block.value; cost = cost })

  -- The block that an encoding is, by its elements.
  unfoldable pub elements : Adjacency Name → List Block
  elements a =
      record { type = name_tlv; value = w.name_value a.name }
      ∷ record { type = uri_tlv; value = a.uri }
      ∷ record { type = cost_tlv; value = w.integer a.cost }
      ∷ []

  unfoldable pub block : Adjacency Name → Block
  unfolding elements
  block a = record { type = adjacency_tlv; value = blocks_bytes w.var_number (elements a) }

  pub wire_encode-Encodes : (a : Adjacency Name) → Encodes w (wire_encode a) (block a)
  unfolding wire_encode block elements
  wire_encode-Encodes a buffer =
      let cost = prepend_integer-Holds w _ cost_tlv a.cost _ buffer (begin-Holds w buffer) in
      let uri = prepend_bytes-Holds w _ uri_tlv a.uri _ buffer cost in
      finish-Encodes w _ adjacency_tlv _ buffer (prepend_name-Holds w _ a.name _ buffer uri)

  pub wire_decode-block : (a : Adjacency Name) → a.cost < 2 ^ 64 → wire_decode (block a) ≡ ok a
  unfolding wire_decode block elements
  wire_decode-block a fits =
      rw (w.parse-blocks (elements a), w.read-name a.name, w.read-integer a.cost fits) refl
