-- ===== src/Examples/Texts.antt =====
-- Texts to run the LSAs' contents with: a name is a slash and its bytes moved behind the separator, and
-- a number or a time is one byte, moved as well.
use ndnproject.Prelude.{
  All, Bool-cases, List, Option, Str, [], ap, arith, if_false, if◌then◌else◌, inl, inr, map, nat_eq,
  none, refl, some, str_beq, str_eq, sym, true, ℕ, ◌++◌, ◌+◌, ◌-◌, ◌==◌, ◌∙◌, ◌∷◌, ◌≡◌,
}
use mathlib.Core.List.{append-nil, append_assoc}
use ndnproject.Examples.{router_b, uri_b, neighbor_b}
use ndnproject.Instances.{str_name, whole_double, components}
use ndnproject.Adjacency.{get_link_cost, adjacent_name}
use ndnproject.Keyed.{find, Distinct}
use ndnproject.Lsa.{
  NameLsa, AdjLsa, CoordinateLsa, new_lsa, name_type, adjacency_type, coordinate_type,
}
use ndnproject.Lsa.Content.{
  past_end, header_data, names_data, Text, loaded, bar, has_no_bar, is_token, name_lsa_data,
  adj_lsa_data, coordinate_lsa_data, initialize_name_lsa, initialize_adj_lsa,
  initialize_coordinate_lsa,
}
use ndnproject.Lsa.RoundTrip.{
  IsSendable, sent, initialize_name_lsa-data, initialize_name_lsa-past_end,
  initialize_coordinate_lsa-data,
}
use ndnproject.Lsa.RoundTrip.Links.{IsSendableLink, received, initialize_adj_lsa-data}
use ndnproject.NamePrefixList.{itself}
use ndnproject.Sequencing.{
  SequencingManager, split_sequence_no, combine_sequence_no, initiate_seq_no_from_file,
}
use ndnproject.Sequencing.Packing.{IsPackable, split-combine, initiate_seq_no_from_file-combine}

abbrev shift : ℕ
shift = bar + 1

abbrev shifted : Str → Str
shifted [] = []
shifted (c ∷ s) = (c + shift) ∷ shifted s

abbrev shifted_back : Str → Str
shifted_back [] = []
shifted_back (c ∷ s) = (c - shift) ∷ shifted_back s

back-shifted : (s : Str) → shifted_back (shifted s) ≡ s
back-shifted [] = refl
back-shifted (c ∷ s) =
    ap (λ s. (c + shift - shift) ∷ s) (back-shifted s) ∙ ap (λ c. c ∷ s) (omega arith)

no_bar-shifted : (s : Str) → has_no_bar (shifted s) ≡ true
no_bar-shifted [] = refl
no_bar-shifted (c ∷ s) = ground (arith, no_bar-shifted s)

abbrev to_text : Str → Str
to_text name = b'/' ∷ shifted name

abbrev of_text : Str → Option Str
of_text [] = none
of_text (c ∷ s) = some (shifted_back s)

of-to_text : (name : Str) → of_text (to_text name) ≡ some name
of-to_text name = ap some (back-shifted name)

text_token : (name : Str) → is_token (to_text name) ≡ true
text_token name = no_bar-shifted name

abbrev number_text : ℕ → Str
number_text k = (k + shift) ∷ []

abbrev read_number_text : Str → Option ℕ
read_number_text (k ∷ []) = some (k - shift)
read_number_text _ = none

number_text_token : (k : ℕ) → is_token (number_text k) ≡ true
number_text_token k = ground arith

read-number_text : (k : ℕ) → read_number_text (number_text k) ≡ some k
read-number_text k = ap some (omega arith)

-- The parts of a text, of which the first has been begun.
unfoldable pub tokens_from : Str → Str → List Str
tokens_from [] [] = []
tokens_from (a ∷ begun) [] = (a ∷ begun) ∷ []
tokens_from [] (c ∷ s) = if c == bar then tokens_from [] s else tokens_from (c ∷ []) s
tokens_from (a ∷ begun) (c ∷ s) =
    if c == bar then (a ∷ begun) ∷ tokens_from [] s else tokens_from ((a ∷ begun) ++ c ∷ []) s

tokens_from-token :
    (a : ℕ) (begun s rest : Str)
    → has_no_bar s ≡ true
    → tokens_from (a ∷ begun) (s ++ bar ∷ rest) ≡ ((a ∷ begun) ++ s) ∷ tokens_from [] rest
unfolding tokens_from
tokens_from-token a begun [] rest free =
    ap (λ b. (a ∷ b) ∷ tokens_from [] rest) (sym (append-nil begun))
tokens_from-token a begun (c ∷ s) rest free = elim (Bool-cases (c == bar)) [
  | inl is ↦ ground (arith, is, free)
  | inr other ↦
      if_false (c == bar) _ _ other
      ∙ tokens_from-token a (begun ++ c ∷ []) s rest (sym (if_false (c == bar) _ _ other) ∙ free)
      ∙ ap (λ b. (a ∷ b) ∷ tokens_from [] rest) (append_assoc begun (c ∷ []) s)
]

first_token :
    (s rest : Str) → is_token s ≡ true → tokens_from [] (s ++ bar ∷ rest) ≡ s ∷ tokens_from [] rest
unfolding tokens_from
first_token [] rest token = absurd (ground arith)
first_token (c ∷ s) rest token = elim (Bool-cases (c == bar)) [
  | inl is ↦ ground (arith, is, token)
  | inr other ↦
      if_false (c == bar) _ _ other
      ∙ tokens_from-token c [] s rest (sym (if_false (c == bar) _ _ other) ∙ token)
]

no_tokens : tokens_from [] [] ≡ []
unfolding tokens_from
no_tokens = refl

abbrev plain_text : Text Str ℕ
plain_text = record {
  to_uri = to_text;
  of_uri = of_text;
  of_number = number_text;
  read_uint32 = read_number_text;
  to_iso_string = number_text;
  of_iso_string = read_number_text;
  of_double = number_text;
  read_double = read_number_text;
  tokens = tokens_from [];
  tokens-nil = no_tokens;
  tokens-token = first_token;
  uri_token = text_token;
  number_token = number_text_token;
  iso_token = number_text_token;
  double_token = number_text_token;
  of_uri-to_uri = of-to_text;
  read_uint32-of_number = λ k small. read-number_text k;
  of_iso_string-to_iso_string = λ t before. read-number_text t;
  read_double-of_double = read-number_text;
  read_double-of_number = λ k small. read-number_text k;
}

abbrev names_sent : NameLsa Str
names_sent = record { lsa = new_lsa router_b name_type 9 4000; npl = router_b ∷ uri_b ∷ [] }

abbrev links_sent : AdjLsa Str ℕ
links_sent = record {
  lsa = new_lsa router_b adjacency_type 9 4000;
  no_link = 1;
  adl = neighbor_b ∷ [];
}

abbrev place_sent : CoordinateLsa Str ℕ
place_sent = record { lsa = new_lsa router_b coordinate_type 9 4000; cor_rad = 3; cor_theta = 4 }

sent-IsSendable : (ls_type : Str) → IsSendable (new_lsa router_b ls_type 9 4000)
unfolding components
sent-IsSendable ls_type = record {
  named = refl;
  seq_no_fits = omega arith;
  time_fits = omega arith;
}

names_sent-Distinct : Distinct itself names_sent.npl
unfolding find str_beq
names_sent-Distinct = (refl, (refl, tt))

links_sent-Distinct : Distinct adjacent_name (map (received) links_sent.adl)
unfolding find
links_sent-Distinct = (refl, tt)

links_sent-IsSendableLink : All (IsSendableLink) links_sent.adl
unfolding get_link_cost
links_sent-IsSendableLink = ((refl, omega arith), tt)

initialize_name_lsa-data_example :
    initialize_name_lsa plain_text (name_lsa_data plain_text names_sent)
    ≡ loaded (record { lsa = sent names_sent.lsa name_type; npl = names_sent.npl })
initialize_name_lsa-data_example =
    initialize_name_lsa-data plain_text names_sent (sent-IsSendable name_type) (omega arith)
      names_sent-Distinct

initialize_adj_lsa-data_example :
    initialize_adj_lsa plain_text 7 (adj_lsa_data plain_text links_sent)
    ≡ loaded (record {
      lsa = sent links_sent.lsa adjacency_type;
      no_link = 7;
      adl = map (received) links_sent.adl;
    })
initialize_adj_lsa-data_example =
    initialize_adj_lsa-data plain_text links_sent 7 (sent-IsSendable adjacency_type) (omega arith)
      links_sent-IsSendableLink links_sent-Distinct

initialize_coordinate_lsa-data_example :
    initialize_coordinate_lsa plain_text (coordinate_lsa_data plain_text place_sent)
    ≡ loaded (record {
      lsa = sent place_sent.lsa coordinate_type;
      cor_rad = place_sent.cor_rad;
      cor_theta = place_sent.cor_theta;
    })
initialize_coordinate_lsa-data_example =
    initialize_coordinate_lsa-data plain_text place_sent (sent-IsSendable coordinate_type)

initialize_name_lsa-past_end_example :
    initialize_name_lsa plain_text (
      header_data plain_text names_sent.lsa name_type
        (number_text 3 ++ (names_data plain_text names_sent.npl ++ bar ∷ [])))
    ≡ past_end
initialize_name_lsa-past_end_example =
    initialize_name_lsa-past_end plain_text names_sent 3 (sent-IsSendable name_type) (omega arith)
      (omega arith)

-- A packed number of which each part is near its limit.
abbrev numbered : SequencingManager
numbered = record {
  name_lsa_seq = 16777215;
  adj_lsa_seq = 1048575;
  cor_lsa_seq = 1048575;
  combined_seq_no = 0;
}

numbered-IsPackable : IsPackable numbered
numbered-IsPackable = record {
  adj_fits = omega arith;
  cor_fits = omega arith;
  name_fits = omega arith;
}

split-combine_example :
    split_sequence_no (combine_sequence_no numbered).combined_seq_no ≡ combine_sequence_no numbered
split-combine_example = split-combine numbered numbered-IsPackable

initiate_seq_no_from_file-combine_example :
    let r = initiate_seq_no_from_file (some (combine_sequence_no numbered).combined_seq_no) in
    (r.name_lsa_seq ≡ numbered.name_lsa_seq + 10)
    × (r.adj_lsa_seq ≡ numbered.adj_lsa_seq + 10)
    × (r.cor_lsa_seq ≡ numbered.cor_lsa_seq + 10)
initiate_seq_no_from_file-combine_example =
    initiate_seq_no_from_file-combine numbered numbered-IsPackable
