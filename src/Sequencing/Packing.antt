-- ===== src/Sequencing/Packing.antt =====
-- src/sequencing-manager.cpp: the packed number holds the three sequence numbers, as long as they fit.
use ndnproject.Prelude.{ap, arith, refl, some, ℕ, ◌%◌, ◌*◌, ◌+◌, ◌/◌, ◌<◌, ◌^◌, ◌≡◌}
use Prim.Native.Nat.{bit_and}
use ndnproject.Prelude.Bits.{zero-bit_or, mask, bit_and-mask, bit_or-apart}
use ndnproject.Sequencing.{
  initiate_seq_no_from_file, SequencingManager, split_sequence_no, combine_sequence_no,
}

-- Each number fits its bits.
pub record IsPackable (s : SequencingManager) : Type 0 where
  pub adj_fits : s.adj_lsa_seq < 2 ^ 20
  pub cor_fits : s.cor_lsa_seq < 2 ^ 20
  pub name_fits : s.name_lsa_seq < 2 ^ 24

-- The numbers beside each other.
abbrev pub packed : SequencingManager → ℕ
packed s = s.adj_lsa_seq + s.cor_lsa_seq * 2 ^ 20 + s.name_lsa_seq * 2 ^ 40

combine_packed :
    (s : SequencingManager) → IsPackable s → (combine_sequence_no s).combined_seq_no ≡ packed s
unfolding combine_sequence_no
combine_packed s fits =
    let a = s.adj_lsa_seq in
    let c = s.cor_lsa_seq in
    let n = s.name_lsa_seq in
    let c_fits : c * 2 ^ 20 % 2 ^ 64 ≡ c * 2 ^ 20 = omega (arith, fits.cor_fits) in
    let n_fits : n * 2 ^ 40 % 2 ^ 64 ≡ n * 2 ^ 40 = omega (arith, fits.name_fits) in
    let both : a + c * 2 ^ 20 < 2 ^ 40 = omega (arith, fits.adj_fits, fits.cor_fits) in
    rw
      (
        zero-bit_or a,
        c_fits,
        n_fits,
        bit_or-apart 20 a c fits.adj_fits,
        bit_or-apart 40 (a + c * 2 ^ 20) n both,
      )
      refl

-- A field of a number, which lies below what is above it.
field_of : (k w a b : ℕ) → a < 2 ^ k → w ≡ a + b * 2 ^ k → bit_and w (mask k) ≡ a
field_of k w a b small is = rw is (bit_and-mask k a b small)

-- If each of the three numbers fits its bits, splitting the number that they are packed in gives them back.
pub split-combine :
    (s : SequencingManager)
    → IsPackable s
    → split_sequence_no (combine_sequence_no s).combined_seq_no ≡ combine_sequence_no s
unfolding split_sequence_no combine_sequence_no
split-combine s fits =
    let a = s.adj_lsa_seq in
    let c = s.cor_lsa_seq in
    let n = s.name_lsa_seq in
    let w = packed s in
    let adj = field_of 20 w a (c + n * 2 ^ 20) fits.adj_fits (omega arith) in
    let cor = field_of 20 (w / 2 ^ 20) c n fits.cor_fits (omega (arith, fits.adj_fits)) in
    let name =
      field_of 24 (w / 2 ^ 40) n 0 fits.name_fits (omega (arith, fits.adj_fits, fits.cor_fits)) in
    rw (combine_packed s fits, adj, cor, name) refl

-- If each of the three numbers fits its bits, a router that starts again from the number that they are packed
-- in has each of them ten higher.
pub initiate_seq_no_from_file-combine :
    (s : SequencingManager)
    → IsPackable s
    → let r = initiate_seq_no_from_file (some (combine_sequence_no s).combined_seq_no) in
      (r.name_lsa_seq ≡ s.name_lsa_seq + 10)
      × (r.adj_lsa_seq ≡ s.adj_lsa_seq + 10)
      × (r.cor_lsa_seq ≡ s.cor_lsa_seq + 10)
unfolding initiate_seq_no_from_file combine_sequence_no
initiate_seq_no_from_file-combine s fits =
    let is = split-combine s fits in
    (
      ap (λ (m : SequencingManager). m.name_lsa_seq + 10) is,
      ap (λ (m : SequencingManager). m.adj_lsa_seq + 10) is,
      ap (λ (m : SequencingManager). m.cor_lsa_seq + 10) is,
    )
