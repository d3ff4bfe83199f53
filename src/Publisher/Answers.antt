-- ===== src/Publisher/Answers.antt =====
-- src/publisher/lsdb-dataset-interest-handler.cpp and src/publisher/lsa-publisher.hpp: what the answer to
-- an interest decodes to.
use ndnproject.Prelude.{
  Bool-cases, Double, Eq, List, NdnName, Str, [], ap, arith, if_true, inl, inr, map, nat_beq_iff,
  nat_eq, refl, some, str_beq, str_eq, sym, true, ℕ, ◌+◌, ◌/◌, ◌<◌, ◌↔◌, ◌∙◌, ◌∷◌, ◌≡◌, ◌≢◌, ◌⊎◌,
}
use mathlib.Core.List.{append-nil, reverse, reverse_aux}
use ndnproject.Nlsr.{Nlsr}
use ndnproject.Publisher.{
  Segment, publish, generate_lsas, generate_adjacency_lsas, generate_coordinate_lsas,
  generate_name_lsas, generate_lsdb_status, tlv_adjacency_lsas, tlv_coordinate_lsas, tlv_name_lsas,
}
use ndnproject.Publisher.Contents.{IsPublishable, published, publish-lsdb_status}
use ndnproject.Publisher.Handler.{
  NdnCommand, Response, data_set, error_response, on_interest, is_valid_command_prefix,
  process_command, adjacencies_component, coordinates_component, names_component, list_component,
  error_code_malformed_command, error_code_unsupported_command,
}
use ndnproject.Publisher.Segments.{joined, AreSegments, publish-joined}
use ndnproject.Tlv.AdjacencyLsa
use ndnproject.Tlv.Blocks.{Block, Wire, blocks_bytes}
use ndnproject.Tlv.Codec.{Encodes, Holds, begin-Holds, nested-Holds}
use ndnproject.Tlv.CoordinateLsa
use ndnproject.Tlv.LsdbStatus
use ndnproject.Tlv.NameLsa
use ndnproject.Tlv.{Encoder, ok, begin, nested}

-- The command is none of the data sets.
abbrev pub IsUnsupported : Str → Type 0
IsUnsupported command =
    (command ≢ adjacencies_component)
    × (command ≢ coordinates_component)
    × (command ≢ names_component)
    × (command ≢ list_component)

module _ {Name D : Type 0} (w : Wire Name D) {A : Type 0} (wire_encode : A → Str → Str × ℕ)
    (block : A → Block) (encodes : (x : A) → Encodes w (wire_encode x) (block x)) where
  generate_lsas-Holds :
      (xs done : List A) (en : Encoder)
      → Holds w en (map block done) []
      → Holds w (generate_lsas wire_encode en xs) (map block (reverse_aux xs done)) []
  unfolding generate_lsas
  generate_lsas-Holds [] done en h = h
  generate_lsas-Holds (x ∷ xs) done en h =
      generate_lsas-Holds xs (x ∷ done) (nested en (wire_encode x))
        (nested-Holds w en (wire_encode x) (block x) (map block done) [] (encodes x) h)

  generate_lsas-blocks :
      (xs : List A)
      → (generate_lsas wire_encode (begin []) xs).buffer
        ≡ blocks_bytes w.var_number (map block (reverse xs))
  generate_lsas-blocks xs =
      (generate_lsas-Holds xs [] (begin []) (begin-Holds w [])).bytes
      ∙ append-nil (blocks_bytes w.var_number (map block (reverse xs)))

module _ {Name D : Type 0} ⦃e : Eq Name⦄ ⦃n : NdnName Name⦄ ⦃d : Double D⦄ (c : NdnCommand Name)
    (w : Wire Name D) (max_ndn_packet_size : ℕ) where
  -- The answer is segments, which hold the blocks.
  abbrev pub Answers : Response → List Block → Type 0
  Answers response blocks =
      (segments : List Segment) × (response ≡ data_set segments)
      × AreSegments (max_ndn_packet_size / 2) 0 segments
      × (w.parse (joined segments) ≡ some blocks)

  -- The answer to an interest for one component below the command prefix.
  abbrev pub answer : Name → Nlsr Name D → Str → Response
  answer command_prefix s command =
      on_interest c w max_ndn_packet_size s (n.append command_prefix command) command_prefix

  published-Answers :
      (response : Response) (bytes : Str) (blocks : List Block)
      → 1 < max_ndn_packet_size
      → response ≡ data_set (publish max_ndn_packet_size bytes)
      → bytes ≡ blocks_bytes w.var_number blocks
      → Answers response blocks
  published-Answers response bytes blocks room is holds =
      let (all, segments) = publish-joined max_ndn_packet_size bytes room in
      (
        publish max_ndn_packet_size bytes,
        is,
        segments,
        ap w.parse (all ∙ holds) ∙ w.parse-blocks blocks,
      )

  valid_command :
      (command_prefix : Name) (s : Nlsr Name D) (command : Str)
      → answer command_prefix s command ≡ process_command c w max_ndn_packet_size s command
  unfolding on_interest is_valid_command_prefix
  valid_command command_prefix s command =
      rw
        (
          c.size-append command_prefix command,
          (nat_beq_iff (n.size command_prefix + 1) (n.size command_prefix + 1)).1 refl,
          c.is_prefix_of-append command_prefix command,
          c.get-append command_prefix command,
        )
        refl

  -- If a packet has room for two bytes, an interest for the adjacencies, coordinates or names of the LSDB is
  -- answered with segments that hold the encodings of all LSAs of the kind, the last one of the LSDB first.
  pub on_interest-Answers :
      (command_prefix : Name) (s : Nlsr Name D)
      → 1 < max_ndn_packet_size
      → Answers
          (answer command_prefix s adjacencies_component)
          (map (AdjacencyLsa.block w) (reverse (tlv_adjacency_lsas s)))
        × Answers
            (answer command_prefix s coordinates_component)
            (map (CoordinateLsa.block w) (reverse (tlv_coordinate_lsas s)))
        × Answers
            (answer command_prefix s names_component)
            (map (NameLsa.block w) (reverse (tlv_name_lsas s)))
  unfolding str_beq process_command generate_adjacency_lsas generate_coordinate_lsas
      generate_name_lsas
  on_interest-Answers command_prefix s room = (
    published-Answers _ (generate_adjacency_lsas w s) _ room
        (valid_command command_prefix s adjacencies_component)
        (generate_lsas-blocks w (AdjacencyLsa.wire_encode w) (AdjacencyLsa.block w)
          (AdjacencyLsa.wire_encode-Encodes w) (tlv_adjacency_lsas s)),
    published-Answers _ (generate_coordinate_lsas w s) _ room
        (valid_command command_prefix s coordinates_component)
        (generate_lsas-blocks w (CoordinateLsa.wire_encode w) (CoordinateLsa.block w)
          (CoordinateLsa.wire_encode-Encodes w) (tlv_coordinate_lsas s)),
    published-Answers _ (generate_name_lsas w s) _ room
        (valid_command command_prefix s names_component)
        (generate_lsas-blocks w (NameLsa.wire_encode w) (NameLsa.block w)
          (NameLsa.wire_encode-Encodes w) (tlv_name_lsas s)),
  )

  -- If a packet has room for two bytes, and the sequence numbers and link costs of the LSDB fit 64 bits, an
  -- interest for the list is answered with segments that hold one block, which decodes to the LSDB's LSAs
  -- in their order.
  pub on_interest-list :
      (command_prefix : Name) (s : Nlsr Name D)
      → 1 < max_ndn_packet_size
      → IsPublishable s
      → (b : Block) × Answers (answer command_prefix s list_component) (b ∷ [])
        × (LsdbStatus.wire_decode w b
            ≡ ok (published (tlv_adjacency_lsas s) (tlv_coordinate_lsas s) (tlv_name_lsas s)))
  unfolding str_beq process_command generate_lsdb_status
  on_interest-list command_prefix s room fits =
      let (b, parsed, decoded) = publish-lsdb_status w max_ndn_packet_size s room fits in
      let bytes = generate_lsdb_status w s in
      (
        b,
        (
          publish max_ndn_packet_size bytes,
          valid_command command_prefix s list_component,
          (publish-joined max_ndn_packet_size bytes room).1,
          parsed,
        ),
        decoded,
      )

  process_command-error :
      (s : Nlsr Name D) (command : Str) (code : ℕ)
      → process_command c w max_ndn_packet_size s command ≡ error_response code
      → (code ≡ error_code_unsupported_command) × IsUnsupported command
  unfolding process_command
  process_command-error s command code is = ground (
    arith,
    is,
    str_eq.beq_iff command adjacencies_component,
    str_eq.beq_iff command coordinates_component,
    str_eq.beq_iff command names_component,
    str_eq.beq_iff command list_component,
  )

  process_command-unsupported :
      (s : Nlsr Name D) (command : Str)
      → IsUnsupported command
      → process_command c w max_ndn_packet_size s command
        ≡ error_response error_code_unsupported_command
  unfolding process_command
  process_command-unsupported s command none_of = ground (
    arith,
    str_eq.beq_iff command adjacencies_component,
    str_eq.beq_iff command coordinates_component,
    str_eq.beq_iff command names_component,
    str_eq.beq_iff command list_component,
  )

  is_valid_command_prefix-append :
      (command_prefix : Name) (command : Str)
      → is_valid_command_prefix c (n.append command_prefix command) command_prefix ≡ true
  unfolding is_valid_command_prefix
  is_valid_command_prefix-append command_prefix command =
      ground
        (arith, c.size-append command_prefix command, c.is_prefix_of-append command_prefix command)

  is_valid_command_prefix-child :
      (interest command_prefix : Name)
      → is_valid_command_prefix c interest command_prefix ≡ true
      → interest ≡ n.append command_prefix (c.get interest (n.size command_prefix))
  unfolding is_valid_command_prefix
  is_valid_command_prefix-child interest command_prefix valid =
      c.child command_prefix interest (ground arith) (ground arith)

  -- The code is 400 and the interest is not for the command prefix and one component; or it is 501, and the one
  -- component is none of the data sets.
  abbrev pub IsRefused : Name → Name → ℕ → Type 0
  IsRefused interest command_prefix code =
      ((code ≡ error_code_malformed_command)
        × ((command : Str) → interest ≢ n.append command_prefix command))
      ⊎ ((code ≡ error_code_unsupported_command)
          × (command : Str) × (interest ≡ n.append command_prefix command)
          × IsUnsupported command)

  -- An interest is answered with an error exactly in two cases: with code 400 if its name is not the command
  -- prefix and one component, and with code 501 if it is, and the component is none of the data sets.
  pub on_interest-error :
      (s : Nlsr Name D) (interest command_prefix : Name) (code : ℕ)
      → (on_interest c w max_ndn_packet_size s interest command_prefix ≡ error_response code)
        ↔ IsRefused interest command_prefix code
  unfolding on_interest process_command
  on_interest-error s interest command_prefix code =
      elim (Bool-cases (is_valid_command_prefix c interest command_prefix)) [
        | inl valid ↦
            let command = c.get interest (n.size command_prefix) in
            let child = is_valid_command_prefix-child interest command_prefix valid in
            (
              λ is.
                  let (is_code, unsupported) =
                    process_command-error s command code (sym (if_true _ _ _ valid) ∙ is) in
                  inr (is_code, command, child, unsupported),
              λ refused. elim refused [
                | inl (is_code, none_of) ↦ absurd (none_of command child)
                | inr (is_code, other, is, unsupported) ↦
                    ap (λ name. on_interest c w max_ndn_packet_size s name command_prefix) is
                    ∙ valid_command command_prefix s other
                    ∙ process_command-unsupported s other unsupported
                    ∙ ap error_response (sym is_code)
              ],
            )
        | inr malformed ↦ (
          λ is. inl (
            ground (arith, is, malformed),
            λ command named.
                ground
                  (arith, malformed, named, is_valid_command_prefix-append command_prefix command),
          ),
          λ refused. elim refused [
            | inl (is_code, none_of) ↦ rw (malformed, is_code) refl
            | inr (is_code, other, is, unsupported) ↦
                absurd (
                  ground
                    (arith, malformed, is, is_valid_command_prefix-append command_prefix other))
          ],
        )
      ]
