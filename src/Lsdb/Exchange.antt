-- ===== src/Lsdb/Exchange.antt =====
-- src/lsdb.cpp: of the LSAs with one name, only the latest is asked for.
use ndnproject.Prelude.{
  Bool-cases, Eq, List, Option, Option-cases, arith, if◌then◌else◌, inl, inr, ltb, nat_eq, none,
  refl, some, str_eq, ℕ, ◌==◌, ◌≡◌,
}
use ndnproject.Keyed.{find}
use ndnproject.Keyed.Laws.{find-push, find-modify}
use ndnproject.Lsdb.Messages.{highest_name, note_seq_no}
use ndnproject.Lsdb.Stored.{newer_of}

module _ {Name : Type 0} ⦃e : Eq Name⦄ where
  -- The highest sequence number that was asked for, if any.
  unfoldable pub highest : List (Name × ℕ) → Name → Option ℕ
  highest m lsa_name = elim (find highest_name lsa_name m) [
    | none ↦ none
    | some entry ↦ some entry.1
  ]

  -- Asking for an LSA leaves the higher of two numbers for its name, the highest asked for before
  -- and its own, and every other name's alone; the interest is sent exactly when its own is the
  -- number that is left.
  pub highest-note_seq_no :
      (m : List (Name × ℕ)) (lsa_name other : Name) (seq_no : ℕ)
      → (highest (note_seq_no m lsa_name seq_no).0 other ≡ (
          if other == lsa_name
          then some (newer_of (highest m lsa_name) seq_no)
          else highest m other))
        × ((note_seq_no m lsa_name seq_no).1 ≡ (newer_of (highest m lsa_name) seq_no == seq_no))
  unfolding highest note_seq_no newer_of
  highest-note_seq_no m lsa_name other seq_no =
      let entry : Name × ℕ = (lsa_name, seq_no) in
      let pushed = find-push highest_name other m entry in
      elim (Option-cases (find highest_name lsa_name m)) [
        | inl miss ↦
            rw (miss, note_seq_no, highest)
              (ground (arith, pushed, e.beq_iff lsa_name other, e.beq_iff other lsa_name, miss))
        | inr (x, hit) ↦
            let renew : Name × ℕ → Name × ℕ = λ y. (y.0, seq_no) in
            let renewed = find-modify highest_name renew (λ y. refl) lsa_name other m in
            elim (Bool-cases (ltb x.1 seq_no)) [
              | inl newer ↦
                  rw (hit, note_seq_no, highest, newer)
                    (ground (arith, renewed, hit, e.beq_iff other lsa_name))
              | inr not_newer ↦ elim (Bool-cases (ltb seq_no x.1)) [
                | inl older ↦
                    rw (hit, note_seq_no, highest, not_newer, older)
                      (ground (arith, hit, e.beq_iff other lsa_name))
                | inr not_older ↦
                    rw (hit, note_seq_no, highest, not_newer, not_older)
                      (ground (arith, hit, e.beq_iff other lsa_name))
              ]
            ]
      ]
