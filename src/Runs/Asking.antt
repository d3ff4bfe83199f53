-- ===== src/Runs/Asking.antt =====
-- The handlers that only ask for LSAs: they change neither the name prefix table, nor the FIB's entries,
-- nor the parameters.
use ndnproject.Prelude.{
  Bool-cases, Double, Eq, NdnName, Option, Option-cases, Str, inl, inr, ltb, nat_eq, none, refl,
  some, str_eq, ℕ, ◌+◌, ◌==◌, ◌∙◌,
}
use ndnproject.Lsa.{name_type, adjacency_type, coordinate_type}
use ndnproject.Lsdb.Agreement.{Untouched}
use ndnproject.Lsdb.Messages.{
  express_interest, note_seq_no, count_sent_lsa_interest, is_latest, process_interest_timed_out,
  on_content_validation_failed,
}
use ndnproject.Nlsr.{Nlsr, schedule}
use ndnproject.Sync.{
  SyncUpdate, is_lsa_new, express_interest_for_lsa, ask_if_new, process_update_from_sync,
}

module _ {Name D : Type 0} ⦃e : Eq Name⦄ ⦃n : NdnName Name⦄ ⦃d : Double D⦄ where
  counted-Untouched :
      (s : Nlsr Name D) (ls_type : Str) → Untouched s (count_sent_lsa_interest ls_type s)
  unfolding count_sent_lsa_interest
  counted-Untouched s ls_type = elim (Bool-cases (ls_type == name_type)) [
    | inl a ↦ rw (a, count_sent_lsa_interest) (refl, refl, refl)
    | inr a ↦ elim (Bool-cases (ls_type == adjacency_type)) [
      | inl b ↦ rw (a, count_sent_lsa_interest, b) (refl, refl, refl)
      | inr b ↦ elim (Bool-cases (ls_type == coordinate_type)) [
        | inl c ↦ rw (a, count_sent_lsa_interest, b, c) (refl, refl, refl)
        | inr c ↦ rw (a, count_sent_lsa_interest, b, c) (refl, refl, refl)
      ]
    ]
  ]

  express-Untouched :
      (s : Nlsr Name D) (lsa_name : Name) (ls_type : Str) (seq_no count : ℕ) (deadline : Option ℕ)
      → Untouched s (express_interest s lsa_name ls_type seq_no count deadline)
  unfolding express_interest
  express-Untouched s lsa_name ls_type seq_no count deadline =
      elim (Bool-cases (note_seq_no s.lsdb.highest_seq_no lsa_name seq_no).1) [
        | inl sent ↦ rw (sent, express_interest) (counted-Untouched _ ls_type)
        | inr unsent ↦ rw (unsent, express_interest) (refl, refl, refl)
      ]

  ask_if_new-Untouched :
      (s : Nlsr Name D) (update_name r : Name) (ls_type : Str) (seq_no : ℕ)
      → Untouched s (ask_if_new s update_name r ls_type seq_no)
  unfolding ask_if_new express_interest_for_lsa
  ask_if_new-Untouched s update_name r ls_type seq_no =
      elim (Bool-cases (is_lsa_new s r ls_type seq_no)) [
        | inl new ↦
            rw (new, ask_if_new)
              (express-Untouched s (n.append update_name ls_type) ls_type seq_no 0 none)
        | inr old ↦ rw (old, ask_if_new) (refl, refl, refl)
      ]

  pub sync_received-Untouched :
      (s : Nlsr Name D) (update : SyncUpdate Name) → Untouched s (process_update_from_sync s update)
  unfolding process_update_from_sync
  sync_received-Untouched s update = elim (Option-cases update.origin_router) [
    | inl malformed ↦ rw (malformed, process_update_from_sync) (refl, refl, refl)
    | inr (r, from) ↦ elim (Bool-cases (r == s.conf.router_prefix)) [
      | inl own ↦ rw (from, process_update_from_sync, own) (refl, refl, refl)
      | inr foreign ↦
          let name = update.name in
          let t = ask_if_new s name r name_type update.seq_manager.name_lsa_seq in
          let u = ask_if_new t name r adjacency_type update.seq_manager.adj_lsa_seq in
          let (a, b, c) = ask_if_new-Untouched s name r name_type update.seq_manager.name_lsa_seq in
          let (a', b', c') =
            ask_if_new-Untouched t name r adjacency_type update.seq_manager.adj_lsa_seq in
          let (a'', b'', c'') =
            ask_if_new-Untouched u name r coordinate_type update.seq_manager.cor_lsa_seq in
          rw (from, process_update_from_sync, foreign) (a'' ∙ a' ∙ a, b'' ∙ b' ∙ b, c'' ∙ c' ∙ c)
    ]
  ]

  pub lsa_timed_out-Untouched :
      (s : Nlsr Name D) (count deadline : ℕ) (lsa_name : Name) (ls_type : Str) (seq_no : ℕ)
      → Untouched s (process_interest_timed_out s count deadline lsa_name ls_type seq_no)
  unfolding process_interest_timed_out
  lsa_timed_out-Untouched s count deadline lsa_name ls_type seq_no =
      elim (Bool-cases (ltb s.now deadline)) [
        | inr late ↦ rw (late, process_interest_timed_out) (refl, refl, refl)
        | inl early ↦ elim (Bool-cases (is_latest s lsa_name seq_no)) [
          | inl latest ↦
              rw (early, process_interest_timed_out, latest)
                (express-Untouched s lsa_name ls_type seq_no _ (some deadline))
          | inr other ↦ rw (early, process_interest_timed_out, other) (refl, refl, refl)
        ]
      ]

  pub lsa_refused-Untouched :
      (s : Nlsr Name D) (deadline : ℕ) (lsa_name : Name) (seq_no : ℕ)
      → Untouched s (on_content_validation_failed s deadline lsa_name seq_no)
  unfolding on_content_validation_failed schedule
  lsa_refused-Untouched s deadline lsa_name seq_no =
      elim (Bool-cases (ltb (s.now + s.conf.lsa_interest_lifetime) deadline)) [
        | inr late ↦ rw (late, on_content_validation_failed) (refl, refl, refl)
        | inl early ↦ elim (Bool-cases (is_latest s lsa_name seq_no)) [
          | inl latest ↦ rw (early, on_content_validation_failed, latest) (refl, refl, refl)
          | inr other ↦ rw (early, on_content_validation_failed, other) (refl, refl, refl)
        ]
      ]
