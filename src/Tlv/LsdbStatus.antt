-- ===== src/Tlv/LsdbStatus.antt =====
-- src/tlv/lsdb-status.hpp and src/tlv/lsdb-status.cpp: the data set of the whole LSDB.
use ndnproject.Prelude.{
  All, Bool, List, Str, [], ap, false, length, map, nat_eq, refl, some, str_eq, true, ℕ, ◌++◌, ◌==◌,
  ◌∙◌, ◌∷◌, ◌≡◌,
}
use mathlib.Core.List.{append-nil}
use ndnproject.Tlv.AdjacencyLsa
use ndnproject.Tlv.AdjacencyLsa.{AdjacencyLsa}
use ndnproject.Tlv.Blocks.{Block, Wire, blocks_bytes}
use ndnproject.Tlv.Codec.{
  Encodes, Ends, begin-Holds, nested_all-Holds, finish-Encodes, decode_while-blocks,
}
use ndnproject.Tlv.CoordinateLsa
use ndnproject.Tlv.CoordinateLsa.{CoordinateLsa}
use ndnproject.Tlv.LsaInfo
use ndnproject.Tlv.NameLsa
use ndnproject.Tlv.NameLsa.{NameLsa}
use ndnproject.Tlv.{
  Result, ok, err, ◌>>=◌, ◌>>◌, left_over, or_malformed, expect, begin, nested_all, finish,
  decode_while, is_any, adjacency_lsa_tlv, coordinate_lsa_tlv, name_lsa_tlv, lsdb_status_tlv,
}

pub record LsdbStatus (Name D : Type 0) : Type 0 where
  pub adjacency_lsas : List (AdjacencyLsa Name)
  pub has_adjacency_lsas : Bool
  pub coordinate_lsas : List (CoordinateLsa Name D)
  pub has_coordinate_lsas : Bool
  pub name_lsas : List (NameLsa Name)
  pub has_name_lsas : Bool

module _ {Name D : Type 0} where
  unfoldable pub new_lsdb_status : LsdbStatus Name D
  new_lsdb_status = record {
    adjacency_lsas = [];
    has_adjacency_lsas = false;
    coordinate_lsas = [];
    has_coordinate_lsas = false;
    name_lsas = [];
    has_name_lsas = false;
  }

  unfoldable pub add_adjacency_lsa : LsdbStatus Name D → AdjacencyLsa Name → LsdbStatus Name D
  add_adjacency_lsa s l = record s {
    adjacency_lsas = s.adjacency_lsas ++ l ∷ [];
    has_adjacency_lsas = true;
  }

  unfoldable pub add_coordinate_lsa : LsdbStatus Name D → CoordinateLsa Name D → LsdbStatus Name D
  add_coordinate_lsa s l = record s {
    coordinate_lsas = s.coordinate_lsas ++ l ∷ [];
    has_coordinate_lsas = true;
  }

  unfoldable pub add_name_lsa : LsdbStatus Name D → NameLsa Name → LsdbStatus Name D
  add_name_lsa s l = record s { name_lsas = s.name_lsas ++ l ∷ []; has_name_lsas = true }

  -- The LSAs can be written, and the flags say which kinds there are.
  pub record IsEncodable (s : LsdbStatus Name D) : Type 0 where
    pub adjacencies : All AdjacencyLsa.IsEncodable s.adjacency_lsas
    pub coordinates : All (λ l. LsaInfo.IsEncodable l.lsa_info) s.coordinate_lsas
    pub names : All NameLsa.IsEncodable s.name_lsas
    pub adjacency_flag : s.has_adjacency_lsas ≡ is_any s.adjacency_lsas
    pub coordinate_flag : s.has_coordinate_lsas ≡ is_any s.coordinate_lsas
    pub name_flag : s.has_name_lsas ≡ is_any s.name_lsas

-- The error for elements behind the last LSA.
abbrev pub expect_end : List Block → Result (Unit {0})
expect_end [] = ok tt
expect_end (val ∷ rest) = err (left_over val.type)

module _ {Name D : Type 0} (w : Wire Name D) where
  unfoldable pub wire_encode : LsdbStatus Name D → Str → Str × ℕ
  unfolding nested_all AdjacencyLsa.wire_encode CoordinateLsa.wire_encode NameLsa.wire_encode finish
  wire_encode s encoder =
      let names = nested_all (NameLsa.wire_encode w) (begin encoder) s.name_lsas in
      let coordinates = nested_all (CoordinateLsa.wire_encode w) names s.coordinate_lsas in
      let adjacencies = nested_all (AdjacencyLsa.wire_encode w) coordinates s.adjacency_lsas in
      finish w adjacencies lsdb_status_tlv

  unfoldable pub wire_decode : Block → Result (LsdbStatus Name D)
  unfolding AdjacencyLsa.wire_decode CoordinateLsa.wire_decode NameLsa.wire_decode decode_while
  wire_decode wire = do
    expect lsdb_status_tlv wire
    elements ← or_malformed (w.parse wire.value)
    (adjacency_lsas, elements) ←
        decode_while adjacency_lsa_tlv (AdjacencyLsa.wire_decode w) elements
    (coordinate_lsas, elements) ←
        decode_while coordinate_lsa_tlv (CoordinateLsa.wire_decode w) elements
    (name_lsas, elements) ← decode_while name_lsa_tlv (NameLsa.wire_decode w) elements
    expect_end elements
    ok (record {
      adjacency_lsas = adjacency_lsas;
      has_adjacency_lsas = is_any adjacency_lsas;
      coordinate_lsas = coordinate_lsas;
      has_coordinate_lsas = is_any coordinate_lsas;
      name_lsas = name_lsas;
      has_name_lsas = is_any name_lsas;
    })

  unfoldable pub elements : LsdbStatus Name D → List Block
  elements s =
      map (AdjacencyLsa.block w) s.adjacency_lsas
      ++ (map (CoordinateLsa.block w) s.coordinate_lsas
          ++ (map (NameLsa.block w) s.name_lsas ++ []))

  unfoldable pub block : LsdbStatus Name D → Block
  unfolding elements
  block s = record { type = lsdb_status_tlv; value = blocks_bytes w.var_number (elements s) }

  pub wire_encode-Encodes : (s : LsdbStatus Name D) → Encodes w (wire_encode s) (block s)
  unfolding wire_encode block elements
  wire_encode-Encodes s buffer =
      let names =
        nested_all-Holds w (NameLsa.wire_encode w) (NameLsa.block w) (NameLsa.wire_encode-Encodes w)
          s.name_lsas _ [] buffer (begin-Holds w buffer) in
      let coordinates =
        nested_all-Holds w (CoordinateLsa.wire_encode w) (CoordinateLsa.block w)
          (CoordinateLsa.wire_encode-Encodes w) s.coordinate_lsas _ _ buffer names in
      finish-Encodes w _ lsdb_status_tlv _ buffer (
        nested_all-Holds w (AdjacencyLsa.wire_encode w) (AdjacencyLsa.block w)
          (AdjacencyLsa.wire_encode-Encodes w) s.adjacency_lsas _ _ buffer coordinates)

  -- Encodings decode to what they were made of, for lists of each kind.
  each-block :
      {A : Type 0} (decode : Block → Result A) (block : A → Block) (P : A → Type 0)
      → ((x : A) → P x → decode (block x) ≡ ok x)
      → (xs : List A) → All P xs
      → All (λ x. decode (block x) ≡ ok x) xs
  each-block decode block P back [] all = tt
  each-block decode block P back (x ∷ xs) all =
      (back x all.0, each-block decode block P back xs all.1)

  -- Blocks of one kind begin with no other.
  map-Ends :
      {A : Type 0} (type other : ℕ) (block : A → Block)
      → ((x : A) → (block x).type ≡ other)
      → (other == type) ≡ false
      → (xs : List A) (rest : List Block) → Ends type rest
      → Ends type (map block xs ++ rest)
  map-Ends type other block is apart [] rest ends = ends
  map-Ends type other block is apart (x ∷ xs) rest ends = rw (is x) apart

  adjacency_type : (l : AdjacencyLsa Name) → (AdjacencyLsa.block w l).type ≡ adjacency_lsa_tlv
  unfolding AdjacencyLsa.block
  adjacency_type l = refl

  coordinate_type : (l : CoordinateLsa Name D) → (CoordinateLsa.block w l).type ≡ coordinate_lsa_tlv
  unfolding CoordinateLsa.block
  coordinate_type l = refl

  name_type : (l : NameLsa Name) → (NameLsa.block w l).type ≡ name_lsa_tlv
  unfolding NameLsa.block
  name_type l = refl

  wire_decode-block : (s : LsdbStatus Name D) → IsEncodable s → wire_decode (block s) ≡ ok s
  unfolding wire_decode block elements
  wire_decode-block s fits =
      let names = map (NameLsa.block w) s.name_lsas ++ [] in
      let coordinates = map (CoordinateLsa.block w) s.coordinate_lsas ++ names in
      rw
        (
          w.parse-blocks (elements s),
          decode_while-blocks adjacency_lsa_tlv (AdjacencyLsa.wire_decode w) (AdjacencyLsa.block w)
              adjacency_type s.adjacency_lsas coordinates
              (each-block (AdjacencyLsa.wire_decode w) (AdjacencyLsa.block w)
                AdjacencyLsa.IsEncodable (AdjacencyLsa.wire_decode-block w) s.adjacency_lsas
                fits.adjacencies)
              (map-Ends adjacency_lsa_tlv coordinate_lsa_tlv (CoordinateLsa.block w) coordinate_type
                refl s.coordinate_lsas names
                (map-Ends adjacency_lsa_tlv name_lsa_tlv (NameLsa.block w) name_type refl
                  s.name_lsas [] tt)),
          decode_while-blocks coordinate_lsa_tlv (CoordinateLsa.wire_decode w)
              (CoordinateLsa.block w) coordinate_type s.coordinate_lsas names
              (each-block (CoordinateLsa.wire_decode w) (CoordinateLsa.block w)
                (λ l. LsaInfo.IsEncodable l.lsa_info) (CoordinateLsa.wire_decode-block w)
                s.coordinate_lsas fits.coordinates)
              (map-Ends coordinate_lsa_tlv name_lsa_tlv (NameLsa.block w) name_type refl s.name_lsas
                [] tt),
          decode_while-blocks name_lsa_tlv (NameLsa.wire_decode w) (NameLsa.block w) name_type
              s.name_lsas []
              (each-block (NameLsa.wire_decode w) (NameLsa.block w) NameLsa.IsEncodable
                (NameLsa.wire_decode-block w) s.name_lsas fits.names)
              tt,
          fits.adjacency_flag,
          fits.coordinate_flag,
          fits.name_flag,
        )
        refl

  -- The bytes of an encoding that went into an empty buffer are those of one block, which decodes to the
  -- status, if its numbers fit their types and its flags say what it has; and their number is returned.
  pub wire_decode-wire_encode :
      (s : LsdbStatus Name D)
      → IsEncodable s
      → let (bytes, size) = wire_encode s [] in
        (b : Block) × (w.parse bytes ≡ some (b ∷ []))
        × (wire_decode b ≡ ok s)
        × (size ≡ length bytes)
  unfolding blocks_bytes
  wire_decode-wire_encode s fits =
      let is = wire_encode-Encodes s [] in
      (
        block s,
        ap (λ (r : Str × ℕ). w.parse r.0) is ∙ w.parse-blocks (block s ∷ []),
        wire_decode-block s fits,
        rw (is, append-nil) refl,
      )
