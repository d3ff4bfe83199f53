-- ===== src/Tlv/Codec.antt =====
-- src/tlv: what an encoder has in its buffer, as blocks.
use ndnproject.Prelude.{
  All, List, Str, [], ap, arith, false, if_false, if_true, length, length-append, map, nat_beq_iff,
  nat_eq, refl, str_eq, sym, ℕ, ◌++◌, ◌+◌, ◌==◌, ◌∙◌, ◌∷◌, ◌≡◌,
}
use mathlib.Core.List.{append_assoc}
use ndnproject.Tlv.Blocks.{Block, Wire, block_bytes, blocks_bytes}
use ndnproject.Tlv.{
  Encoder, Result, ok, begin, nested, nested_all, prepend_bytes, prepend_integer, prepend_name,
  encode_name, decode_all, decode_while, finish, name_tlv,
}

module _ {Name D : Type 0} (w : Wire Name D) where
  -- The encoder has put the blocks before what was in the buffer, and counted their bytes.
  pub record Holds (en : Encoder) (bs : List Block) (buffer : Str) : Type 0 where
    pub bytes : en.buffer ≡ blocks_bytes w.var_number bs ++ buffer
    pub counted : en.total_length ≡ length (blocks_bytes w.var_number bs)

  -- A `wireEncode` that puts one block before what is in the buffer, and returns its size.
  abbrev pub Encodes : (Str → Str × ℕ) → Block → Type 0
  Encodes wire_encode b =
      (buffer : Str)
      → wire_encode buffer
        ≡ (block_bytes w.var_number b ++ buffer, length (block_bytes w.var_number b))

  pub begin-Holds : (buffer : Str) → Holds (begin buffer) [] buffer
  unfolding blocks_bytes
  begin-Holds buffer = record { bytes = refl; counted = refl }

  nested-Holds_block :
      (en : Encoder) (b : Block) (bs : List Block) (buffer : Str)
      → Holds en bs buffer
      → Holds
          (record {
            buffer = block_bytes w.var_number b ++ en.buffer;
            total_length = en.total_length + length (block_bytes w.var_number b);
          })
          (b ∷ bs)
          buffer
  unfolding blocks_bytes
  nested-Holds_block en b bs buffer h = record {
    bytes = rw h.bytes (sym (append_assoc (block_bytes w.var_number b) _ buffer));
    counted = omega (
      arith,
      h.counted,
      length-append (block_bytes w.var_number b) (blocks_bytes w.var_number bs),
    );
  }

  pub nested-Holds :
      (en : Encoder) (wire_encode : Str → Str × ℕ) (b : Block) (bs : List Block) (buffer : Str)
      → Encodes wire_encode b
      → Holds en bs buffer
      → Holds (nested en wire_encode) (b ∷ bs) buffer
  nested-Holds en wire_encode b bs buffer encodes h =
      rw (encodes en.buffer) (nested-Holds_block en b bs buffer h)

  pub prepend_bytes-Holds :
      (en : Encoder) (type : ℕ) (value : Str) (bs : List Block) (buffer : Str)
      → Holds en bs buffer
      → Holds (prepend_bytes w en type value) (record { type = type; value = value } ∷ bs) buffer
  unfolding prepend_bytes
  prepend_bytes-Holds en type value bs buffer h =
      nested-Holds_block en (record { type = type; value = value }) bs buffer h

  pub prepend_integer-Holds :
      (en : Encoder) (type value : ℕ) (bs : List Block) (buffer : Str)
      → Holds en bs buffer
      → Holds
          (prepend_integer w en type value)
          (record { type = type; value = w.integer value } ∷ bs)
          buffer
  unfolding prepend_integer
  prepend_integer-Holds en type value bs buffer h =
      prepend_bytes-Holds en type (w.integer value) bs buffer h

  pub prepend_name-Holds :
      (en : Encoder) (name : Name) (bs : List Block) (buffer : Str)
      → Holds en bs buffer
      → Holds
          (prepend_name w en name)
          (record { type = name_tlv; value = w.name_value name } ∷ bs)
          buffer
  unfolding prepend_name
  prepend_name-Holds en name bs buffer h =
      prepend_bytes-Holds en name_tlv (w.name_value name) bs buffer h

  pub finish-Encodes :
      (en : Encoder) (type : ℕ) (bs : List Block) (buffer : Str)
      → Holds en bs buffer
      → finish w en type ≡ (
        block_bytes w.var_number (record { type = type; value = blocks_bytes w.var_number bs })
            ++ buffer,
        length (
            block_bytes w.var_number
              (record { type = type; value = blocks_bytes w.var_number bs })),
      )
  unfolding finish block_bytes
  finish-Encodes en type bs buffer h =
      let value = blocks_bytes w.var_number bs in
      let size = w.var_number (length value) in
      let kind = w.var_number type in
      rw (h.counted, h.bytes)
        (pair
          (sym (
            append_assoc kind (size ++ value) buffer
            ∙ ap (λ x. kind ++ x) (append_assoc size value buffer)))
          (omega (arith, length-append kind (size ++ value), length-append size value)))
    where
      pair : {a b : Str} {m n : ℕ} → a ≡ b → m ≡ n → ◌≡◌ {A = Str × ℕ} (a, m) (b, n)
      pair p q = rw (p, q) refl

  pub encode_name-Encodes :
      (name : Name)
      → Encodes (encode_name w name) (record { type = name_tlv; value = w.name_value name })
  unfolding encode_name
  encode_name-Encodes name buffer = refl

  pub nested_all-Holds :
      {A : Type 0} (wire_encode : A → Str → Str × ℕ) (block : A → Block)
      → ((x : A) → Encodes (wire_encode x) (block x))
      → (xs : List A) (en : Encoder) (bs : List Block) (buffer : Str) → Holds en bs buffer
      → Holds (nested_all wire_encode en xs) (map block xs ++ bs) buffer
  unfolding nested_all
  nested_all-Holds wire_encode block encodes [] en bs buffer h = h
  nested_all-Holds wire_encode block encodes (x ∷ xs) en bs buffer h =
      nested-Holds (nested_all wire_encode en xs) (wire_encode x) (block x) (map block xs ++ bs)
        buffer (encodes x) (nested_all-Holds wire_encode block encodes xs en bs buffer h)

-- The elements do not begin with one of the type.
abbrev pub Ends : ℕ → List Block → Type 0
Ends type [] = Unit
Ends type (b ∷ bs) = (b.type == type) ≡ false

module _ {A : Type 0} (type : ℕ) (decode : Block → Result A) (block : A → Block)
    (type-block : (x : A) → (block x).type ≡ type) where
  pub decode_all-blocks :
      (wire_type : ℕ) (xs : List A)
      → All (λ x. decode (block x) ≡ ok x) xs
      → decode_all type wire_type decode (map block xs) ≡ ok xs
  unfolding decode_all
  decode_all-blocks wire_type [] each = refl
  decode_all-blocks wire_type (x ∷ xs) each =
      if_true ((block x).type == type) _ _ ((nat_beq_iff (block x).type type).1 (type-block x))
      ∙ rw (each.0, decode_all-blocks wire_type xs each.1) refl

  decode_while-Ends :
      (rest : List Block) → Ends type rest → decode_while type decode rest ≡ ok ([], rest)
  unfolding decode_while
  decode_while-Ends [] ends = refl
  decode_while-Ends (b ∷ rest) ends = if_false (b.type == type) _ _ ends

  pub decode_while-blocks :
      (xs : List A) (rest : List Block)
      → All (λ x. decode (block x) ≡ ok x) xs
      → Ends type rest
      → decode_while type decode (map block xs ++ rest) ≡ ok (xs, rest)
  unfolding decode_while
  decode_while-blocks [] rest each ends = decode_while-Ends rest ends
  decode_while-blocks (x ∷ xs) rest each ends =
      if_true ((block x).type == type) _ _ ((nat_beq_iff (block x).type type).1 (type-block x))
      ∙ rw (each.0, decode_while-blocks xs rest each.1 ends) refl
