-- ===== src/Sync/Numbers.antt =====
-- src/communication/sync-logic-handler.cpp: what one number of a sync update asks for.
use ndnproject.Prelude.{
  ==_refl, Bool, Bool-cases, Double, Eq, List, NdnName, Option, Option-cases, Str, [], arith, false,
  if◌then◌else◌, inl, inr, ltb, nat_eq, none, refl, some, str_beq_iff, str_eq, sym, true, ℕ, ◌&&◌,
  ◌++◌, ◌==◌, ◌∙◌, ◌∷◌, ◌≡◌,
}
use ndnproject.Lsa.{name_type, adjacency_type, coordinate_type}
use ndnproject.Lsdb.Adjacencies.{is_adj_lsa_new, find_adj_lsa}
use ndnproject.Lsdb.Coordinates.{is_coordinate_lsa_new, find_coordinate_lsa}
use ndnproject.Lsdb.Names.{is_name_lsa_new, find_name_lsa}
use ndnproject.Lsdb.Exchange.{highest, highest-note_seq_no}
use ndnproject.Lsdb.Messages.{express_interest, note_seq_no, count_sent_lsa_interest}
use ndnproject.Lsdb.Freshness.{name_seq_no, adj_seq_no, coordinate_seq_no}
use ndnproject.Lsdb.Stored.{newer_of, seq_no_of}
use ndnproject.Keyed.{find}
use ndnproject.Lsa.{name_lsa_key, adj_lsa_key, coordinate_lsa_key}
use ndnproject.Nlsr.{Nlsr, Call, express_lsa_interest}
use ndnproject.Sync.{is_lsa_new, express_interest_for_lsa, ask_if_new}

pub apart_na : (name_type == adjacency_type) ≡ false
apart_na = ground (arith, str_beq_iff name_type adjacency_type)

pub apart_nc : (name_type == coordinate_type) ≡ false
apart_nc = ground (arith, str_beq_iff name_type coordinate_type)

pub apart_ac : (adjacency_type == coordinate_type) ≡ false
apart_ac = ground (arith, str_beq_iff adjacency_type coordinate_type)

pub apart_an : (adjacency_type == name_type) ≡ false
apart_an = ground (arith, str_beq_iff adjacency_type name_type)

pub apart_ca : (coordinate_type == adjacency_type) ≡ false
apart_ca = ground (arith, str_beq_iff coordinate_type adjacency_type)

pub apart_cn : (coordinate_type == name_type) ≡ false
apart_cn = ground (arith, str_beq_iff coordinate_type name_type)

-- Whether there is no stored number, or it is below another.
unfoldable pub is_older : Option ℕ → ℕ → Bool
is_older none seq_no = true
is_older (some stored) seq_no = ltb stored seq_no

-- The names and numbers of the interests for LSAs among the calls, the latest first.
unfoldable pub lsa_interests : {Name : Type 0} → List (Call Name) → List (Name × ℕ)
lsa_interests [] = []
lsa_interests (express_lsa_interest lsa_name seq_no _ _ ∷ calls) =
    (lsa_name, seq_no) ∷ lsa_interests calls
lsa_interests (_ ∷ calls) = lsa_interests calls

-- The interest for an LSA, if it is new and no newer one was asked for.
abbrev pub interest_if : {Name : Type 0} → Bool → Option ℕ → Name → ℕ → List (Name × ℕ)
interest_if new asked lsa_name seq_no =
    if new && (newer_of asked seq_no == seq_no) then (lsa_name, seq_no) ∷ [] else []

if_ltb : (k seq_no : ℕ) → (if ltb k seq_no then true else false) ≡ ltb k seq_no
if_ltb k seq_no = ground arith

module _ {Name D : Type 0} ⦃e : Eq Name⦄ ⦃n : NdnName Name⦄ ⦃d : Double D⦄ where
  counted-lsdb :
      (s : Nlsr Name D) (ls_type : Str) → (count_sent_lsa_interest ls_type s).lsdb ≡ s.lsdb
  unfolding count_sent_lsa_interest
  counted-lsdb s ls_type = elim (Bool-cases (ls_type == name_type)) [
    | inl a ↦ rw (a, count_sent_lsa_interest) refl
    | inr a ↦ elim (Bool-cases (ls_type == adjacency_type)) [
      | inl b ↦ rw (a, count_sent_lsa_interest, b) refl
      | inr b ↦ elim (Bool-cases (ls_type == coordinate_type)) [
        | inl c ↦ rw (a, count_sent_lsa_interest, b, c) refl
        | inr c ↦ rw (a, count_sent_lsa_interest, b, c) refl
      ]
    ]
  ]

  express-lsdb :
      (s : Nlsr Name D) (lsa_name : Name) (ls_type : Str) (seq_no count : ℕ) (deadline : Option ℕ)
      → (express_interest s lsa_name ls_type seq_no count deadline).lsdb
        ≡ record (s.lsdb) { highest_seq_no = (note_seq_no s.lsdb.highest_seq_no lsa_name seq_no).0 }
  unfolding express_interest
  express-lsdb s lsa_name ls_type seq_no count deadline =
      elim (Bool-cases (note_seq_no s.lsdb.highest_seq_no lsa_name seq_no).1) [
        | inl sent ↦ rw (sent, express_interest, counted-lsdb) refl
        | inr unsent ↦ rw (unsent, express_interest) refl
      ]

  counted-sent :
      (s : Nlsr Name D) (ls_type : Str)
      → lsa_interests (count_sent_lsa_interest ls_type s).calls ≡ lsa_interests s.calls
  unfolding count_sent_lsa_interest lsa_interests
  counted-sent s ls_type = elim (Bool-cases (ls_type == name_type)) [
    | inl a ↦ rw (a, count_sent_lsa_interest) refl
    | inr a ↦ elim (Bool-cases (ls_type == adjacency_type)) [
      | inl b ↦ rw (a, count_sent_lsa_interest, b) refl
      | inr b ↦ elim (Bool-cases (ls_type == coordinate_type)) [
        | inl c ↦ rw (a, count_sent_lsa_interest, b, c) refl
        | inr c ↦ rw (a, count_sent_lsa_interest, b, c) refl
      ]
    ]
  ]

  express-sent :
      (s : Nlsr Name D) (lsa_name : Name) (ls_type : Str) (seq_no count : ℕ) (deadline : Option ℕ)
      → lsa_interests (express_interest s lsa_name ls_type seq_no count deadline).calls
        ≡ interest_if true (highest s.lsdb.highest_seq_no lsa_name) lsa_name seq_no
          ++ lsa_interests s.calls
  unfolding express_interest lsa_interests
  express-sent s lsa_name ls_type seq_no count deadline =
      let is = (highest-note_seq_no s.lsdb.highest_seq_no lsa_name lsa_name seq_no).1 in
      elim (Bool-cases (note_seq_no s.lsdb.highest_seq_no lsa_name seq_no).1) [
        | inl sent ↦ rw (sent, express_interest, counted-sent, sym is ∙ sent) refl
        | inr unsent ↦ rw (unsent, express_interest, sym is ∙ unsent) refl
      ]

  ask_if_new-lsdb :
      (s : Nlsr Name D) (update_name r : Name) (ls_type : Str) (seq_no : ℕ)
      → (ask_if_new s update_name r ls_type seq_no).lsdb ≡ record (s.lsdb) {
        highest_seq_no =
            if is_lsa_new s r ls_type seq_no
            then (note_seq_no s.lsdb.highest_seq_no (n.append update_name ls_type) seq_no).0
            else s.lsdb.highest_seq_no;
      }
  unfolding ask_if_new express_interest_for_lsa
  ask_if_new-lsdb s update_name r ls_type seq_no =
      elim (Bool-cases (is_lsa_new s r ls_type seq_no)) [
        | inl new ↦ rw (new, ask_if_new, express-lsdb) refl
        | inr old ↦ rw (old, ask_if_new) refl
      ]

  pub ask_if_new-sent :
      (s : Nlsr Name D) (update_name r : Name) (ls_type : Str) (seq_no : ℕ)
      → lsa_interests (ask_if_new s update_name r ls_type seq_no).calls
        ≡ interest_if
            (is_lsa_new s r ls_type seq_no)
            (highest s.lsdb.highest_seq_no (n.append update_name ls_type))
            (n.append update_name ls_type)
            seq_no
          ++ lsa_interests s.calls
  unfolding ask_if_new express_interest_for_lsa
  ask_if_new-sent s update_name r ls_type seq_no =
      elim (Bool-cases (is_lsa_new s r ls_type seq_no)) [
        | inl new ↦ rw (new, ask_if_new, express-sent) refl
        | inr old ↦ rw (old, ask_if_new) refl
      ]

  -- What an update's number of one kind, if it is new, leaves of the highest number asked for under a
  -- name.
  abbrev pub Asks : Nlsr Name D → Name → Str → ℕ → Bool → Nlsr Name D → Type 0
  Asks s update_name ls_type seq_no new after =
      highest after.lsdb.highest_seq_no (n.append update_name ls_type) ≡ (
        if new
        then some (newer_of (highest s.lsdb.highest_seq_no (n.append update_name ls_type)) seq_no)
        else highest s.lsdb.highest_seq_no (n.append update_name ls_type))

  pub Asks-here :
      (s : Nlsr Name D) (update_name r : Name) (ls_type : Str) (seq_no : ℕ)
      → Asks s update_name ls_type seq_no
          (is_lsa_new s r ls_type seq_no)
          (ask_if_new s update_name r ls_type seq_no)
  Asks-here s update_name r ls_type seq_no =
      let key = n.append update_name ls_type in
      elim (Bool-cases (is_lsa_new s r ls_type seq_no)) [
        | inl new ↦
            rw (ask_if_new-lsdb, new)
              ((highest-note_seq_no s.lsdb.highest_seq_no key key seq_no).0 ∙ rw (==_refl key) refl)
        | inr old ↦ rw (ask_if_new-lsdb, old) refl
      ]

  -- Another type's name is left alone.
  pub asks_elsewhere :
      (s : Nlsr Name D) (update_name r : Name) (ls_type other : Str) (seq_no : ℕ)
      → (other == ls_type) ≡ false
      → highest
          (ask_if_new s update_name r ls_type seq_no).lsdb.highest_seq_no
          (n.append update_name other)
        ≡ highest s.lsdb.highest_seq_no (n.append update_name other)
  asks_elsewhere s update_name r ls_type other seq_no ne =
      let key = n.append update_name ls_type in
      let key' = n.append update_name other in
      let apart : (key' == key) ≡ false = ground (
        arith,
        e.beq_iff key' key,
        n.append_injective update_name update_name other ls_type,
        str_beq_iff other ls_type,
      ) in
      elim (Bool-cases (is_lsa_new s r ls_type seq_no)) [
        | inl new ↦
            rw (ask_if_new-lsdb, new)
              ((highest-note_seq_no s.lsdb.highest_seq_no key key' seq_no).0 ∙ rw apart refl)
        | inr old ↦ rw (ask_if_new-lsdb, old) refl
      ]

  pub is_lsa_new-asked :
      (s : Nlsr Name D) (update_name r : Name) (ls_type other : Str) (seq_no other_no : ℕ)
      → is_lsa_new (ask_if_new s update_name r ls_type seq_no) r other other_no
        ≡ is_lsa_new s r other other_no
  unfolding is_lsa_new is_name_lsa_new is_adj_lsa_new is_coordinate_lsa_new find_name_lsa
      find_adj_lsa find_coordinate_lsa
  is_lsa_new-asked s update_name r ls_type other seq_no other_no =
      rw (ask_if_new-lsdb s update_name r ls_type seq_no) refl

  -- The code's test of each kind is whether the LSDB has no number, or a lower one, under the key.
  pub name-is_older :
      (s : Nlsr Name D) (r : Name) (seq_no : ℕ)
      → is_lsa_new s r name_type seq_no ≡ is_older (name_seq_no s (n.append r name_type)) seq_no
  unfolding is_lsa_new is_name_lsa_new find_name_lsa is_older seq_no_of
  name-is_older s r seq_no =
      elim (Option-cases (find name_lsa_key (n.append r name_type) s.lsdb.name_lsdb)) [
        | inl miss ↦ rw (==_refl name_type, is_name_lsa_new, seq_no_of, miss) refl
        | inr (chk, hit) ↦
            rw (==_refl name_type, is_name_lsa_new, seq_no_of, hit) (if_ltb chk.ls_seq_no seq_no)
      ]

  pub adj-is_older :
      (s : Nlsr Name D) (r : Name) (seq_no : ℕ)
      → is_lsa_new s r adjacency_type seq_no
        ≡ is_older (adj_seq_no s (n.append r adjacency_type)) seq_no
  unfolding is_lsa_new is_adj_lsa_new find_adj_lsa is_older seq_no_of
  adj-is_older s r seq_no =
      elim (Option-cases (find adj_lsa_key (n.append r adjacency_type) s.lsdb.adj_lsdb)) [
        | inl miss ↦ rw (apart_an, ==_refl adjacency_type, is_adj_lsa_new, seq_no_of, miss) refl
        | inr (chk, hit) ↦
            rw (apart_an, ==_refl adjacency_type, is_adj_lsa_new, seq_no_of, hit)
              (if_ltb chk.ls_seq_no seq_no)
      ]

  pub coordinate-is_older :
      (s : Nlsr Name D) (r : Name) (seq_no : ℕ)
      → is_lsa_new s r coordinate_type seq_no
        ≡ is_older (coordinate_seq_no s (n.append r coordinate_type)) seq_no
  unfolding is_lsa_new is_coordinate_lsa_new find_coordinate_lsa is_older seq_no_of
  coordinate-is_older s r seq_no =
      elim (Option-cases (find coordinate_lsa_key (n.append r coordinate_type) s.lsdb.cor_lsdb)) [
        | inl miss ↦
            rw (apart_cn, apart_ca, ==_refl coordinate_type, is_coordinate_lsa_new, seq_no_of, miss)
              refl
        | inr (chk, hit) ↦
            rw (apart_cn, apart_ca, ==_refl coordinate_type, is_coordinate_lsa_new, seq_no_of, hit)
              (if_ltb chk.ls_seq_no seq_no)
      ]
