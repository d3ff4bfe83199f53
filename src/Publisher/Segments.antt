-- ===== src/Publisher/Segments.antt =====
-- src/publisher/segment-publisher.hpp: the segments of a data set hold all of its bytes.
use ndnproject.Prelude.{
  Bool-cases, List, Str, [], ap, arith, drop, false, inl, inr, length, length-drop, length-take,
  length-zero_iff, nat_eq, refl, str_eq, suc, sym, take, take-append-drop, true, zero, ℕ, ◌++◌, ◌+◌,
  ◌/◌, ◌<◌, ◌==◌, ◌∙◌, ◌∷◌, ◌≡◌, ◌≤◌, ◌⊎◌,
}
use ndnproject.Publisher.{Segment, cut, publish}

-- The bytes of the segments in their order.
unfoldable pub joined : List Segment → Str
joined [] = []
joined (segment ∷ segments) = segment.content ++ joined segments

-- The segments have the numbers from the first on, are no larger than the maximum, and the last of them
-- alone is marked, of which there is one.
abbrev pub AreSegments : ℕ → ℕ → List Segment → Type 0
AreSegments size k [] = ⊥
AreSegments size k (s ∷ segments) =
    (s.segment_no ≡ k)
    × (length s.content ≤ size)
    × (((s.is_final ≡ true) × (segments ≡ []))
        ⊎ ((s.is_final ≡ false) × AreSegments size (k + 1) segments))

take-le : (size : ℕ) (bytes : Str) → length (take size bytes) ≤ size
take-le size bytes = omega (arith, length-take size bytes)

shorter :
    (turns size : ℕ) (bytes : Str)
    → 0 < size
    → length bytes < suc turns
    → (length (drop size bytes) == 0) ≡ false
    → length (drop size bytes) < turns
shorter turns size bytes positive enough more = ground (arith, length-drop size bytes)

-- Enough turns are one more than there are bytes.
cut-joined :
    (turns size k : ℕ) (bytes : Str)
    → 0 < size
    → length bytes < turns
    → (joined (cut turns size k bytes) ≡ bytes) × AreSegments size k (cut turns size k bytes)
unfolding cut joined
cut-joined zero size k bytes positive enough = absurd (omega arith)
cut-joined (suc turns) size k bytes positive enough =
    elim (Bool-cases (length (drop size bytes) == 0)) [
      | inl last ↦
          let none_left : drop size bytes ≡ [] = (length-zero_iff (drop size bytes)).0 last in
          rw last (
            ap (λ rest. take size bytes ++ rest) (sym none_left) ∙ take-append-drop size bytes,
            (refl, take-le size bytes, inl (refl, refl)),
          )
      | inr more ↦
          let (all, segments) =
            cut-joined turns size (k + 1) (drop size bytes) positive
              (shorter turns size bytes positive enough more) in
          rw more (
            ap (λ rest. take size bytes ++ rest) all ∙ take-append-drop size bytes,
            (refl, take-le size bytes, inr (refl, segments)),
          )
    ]

-- If a packet has room for two bytes, the segments that bytes are published in hold all of them in their
-- order, and are numbered from 0 on, no larger than half of a packet, and only the last one is marked.
pub publish-joined :
    (max_ndn_packet_size : ℕ) (bytes : Str)
    → 1 < max_ndn_packet_size
    → (joined (publish max_ndn_packet_size bytes) ≡ bytes)
      × AreSegments (max_ndn_packet_size / 2) 0 (publish max_ndn_packet_size bytes)
unfolding publish
publish-joined max_ndn_packet_size bytes room =
    cut-joined (suc (length bytes)) (max_ndn_packet_size / 2) 0 bytes (omega arith) (omega arith)
