-- ===== src/Sequencing.antt =====
-- src/sequencing-manager.hpp and src/sequencing-manager.cpp: three sequence numbers packed into one
-- 64-bit number, 20 bits of adjacency, 20 of coordinate and 24 of name LSAs. Fields are uint64_t.
-- The file's contents are an argument: the number in it, or `none` if it cannot be read.
pub mod Packing
use Prim.Native.Nat.{bit_or, bit_and}
use ndnproject.Prelude.{Option, none, some, ℕ, ◌%◌, ◌*◌, ◌+◌, ◌/◌, ◌^◌}

pub record SequencingManager : Type 0 where
  pub name_lsa_seq : ℕ
  pub adj_lsa_seq : ℕ
  pub cor_lsa_seq : ℕ
  pub combined_seq_no : ℕ

unfoldable pub new_sequencing_manager : SequencingManager
new_sequencing_manager = record {
  name_lsa_seq = 0;
  adj_lsa_seq = 0;
  cor_lsa_seq = 0;
  combined_seq_no = 0;
}

unfoldable pub split_sequence_no : ℕ → SequencingManager
split_sequence_no seq_no = record {
  name_lsa_seq = bit_and (seq_no / 2 ^ 40) 0xFFFFFF;
  adj_lsa_seq = bit_and seq_no 0xFFFFF;
  cor_lsa_seq = bit_and (seq_no / 2 ^ 20) 0xFFFFF;
  combined_seq_no = seq_no;
}

unfoldable pub combine_sequence_no : SequencingManager → SequencingManager
combine_sequence_no s = record s {
  combined_seq_no =
      bit_or (bit_or (bit_or 0 s.adj_lsa_seq) (s.cor_lsa_seq * 2 ^ 20 % 2 ^ 64))
        (s.name_lsa_seq * 2 ^ 40 % 2 ^ 64);
}

unfoldable pub set_name_lsa_seq : SequencingManager → ℕ → SequencingManager
unfolding combine_sequence_no
set_name_lsa_seq s nlsn = combine_sequence_no (record s { name_lsa_seq = nlsn })

unfoldable pub set_adj_lsa_seq : SequencingManager → ℕ → SequencingManager
unfolding combine_sequence_no
set_adj_lsa_seq s alsn = combine_sequence_no (record s { adj_lsa_seq = alsn })

unfoldable pub set_cor_lsa_seq : SequencingManager → ℕ → SequencingManager
unfolding combine_sequence_no
set_cor_lsa_seq s clsn = combine_sequence_no (record s { cor_lsa_seq = clsn })

unfoldable pub increase_name_lsa_seq : SequencingManager → SequencingManager
unfolding set_name_lsa_seq
increase_name_lsa_seq s = set_name_lsa_seq s ((s.name_lsa_seq + 1) % 2 ^ 64)

unfoldable pub increase_adj_lsa_seq : SequencingManager → SequencingManager
unfolding set_adj_lsa_seq
increase_adj_lsa_seq s = set_adj_lsa_seq s ((s.adj_lsa_seq + 1) % 2 ^ 64)

unfoldable pub increase_cor_lsa_seq : SequencingManager → SequencingManager
unfolding set_cor_lsa_seq
increase_cor_lsa_seq s = set_cor_lsa_seq s ((s.cor_lsa_seq + 1) % 2 ^ 64)

unfoldable pub initiate_seq_no_from_file : Option ℕ → SequencingManager
unfolding split_sequence_no combine_sequence_no
initiate_seq_no_from_file none = split_sequence_no 0
initiate_seq_no_from_file (some seq_no) =
    let s = split_sequence_no seq_no in
    combine_sequence_no (record s {
      name_lsa_seq = s.name_lsa_seq + 10;
      adj_lsa_seq = s.adj_lsa_seq + 10;
      cor_lsa_seq = s.cor_lsa_seq + 10;
    })
