-- ===== src/Tlv/Blocks.antt =====
-- What src/tlv takes from ndn-cxx: blocks of type, length and value, names as blocks, and numbers as
-- bytes. Sizes are those of memory, for which the variable-size numbers of TLV are enough.
use ndnproject.Prelude.{List, Option, Str, [], length, some, ℕ, ◌++◌, ◌<◌, ◌^◌, ◌∷◌, ◌≡◌}

pub record Block : Type 0 where
  pub type : ℕ
  pub value : Str

-- A block as bytes, by the encoding of numbers.
unfoldable pub block_bytes : (ℕ → Str) → Block → Str
block_bytes var_number b = var_number b.type ++ (var_number (length b.value) ++ b.value)

unfoldable pub blocks_bytes : (ℕ → Str) → List Block → Str
unfolding block_bytes
blocks_bytes var_number [] = []
blocks_bytes var_number (b ∷ bs) = block_bytes var_number b ++ blocks_bytes var_number bs

-- `prependVarNumber`, the value of `prependNonNegativeInteger` and `readNonNegativeInteger`,
-- `Block::parse`, `ndn::Name::wireEncode` and `wireDecode`, and the eight bytes of a `double`. `none`
-- is an exception.
pub record Wire (Name D : Type 0) : Type 0 where
  pub var_number : ℕ → Str
  pub integer : ℕ → Str
  pub read_integer : Str → Option ℕ
  pub parse : Str → Option (List Block)
  pub name_value : Name → Str
  pub read_name : Str → Option Name
  pub double_bytes : D → Str
  pub read_double : Str → D
  pub var_number-small : (k : ℕ) → k < 253 → length (var_number k) ≡ 1
  pub read-integer : (k : ℕ) → k < 2 ^ 64 → read_integer (integer k) ≡ some k
  pub parse-blocks : (bs : List Block) → parse (blocks_bytes var_number bs) ≡ some bs
  pub read-name : (a : Name) → read_name (name_value a) ≡ some a
  pub double_size : (x : D) → length (double_bytes x) ≡ 8
  pub read-double : (x : D) → read_double (double_bytes x) ≡ x
