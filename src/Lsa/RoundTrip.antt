-- ===== src/Lsa/RoundTrip.antt =====
-- src/lsa.cpp: an LSA is read as it was written. Its child has the adjacency LSAs, whose neighbors are
-- three parts each.
pub mod Links
use ndnproject.Prelude.{
  Double, Eq, List, NdnName, Str, [], ap, arith, length, ltb, map, nat_eq, refl, str_eq, suc, true,
  zero, ℕ, ◌++◌, ◌<◌, ◌^◌, ◌∙◌, ◌∷◌, ◌≡◌,
}
use mathlib.Core.List.{append-nil, append_assoc}
use ndnproject.Adjacency
use ndnproject.Adjacency.{Adjacent, AdjacencyList, inactive, get_link_cost, adjacent_name}
use ndnproject.Keyed.{find, Distinct}
use ndnproject.Keyed.Laws.{find-append_hit, find-append_miss, find-middle-none}
use ndnproject.Lsa.{
  Lsa, NameLsa, AdjLsa, CoordinateLsa, new_lsa, name_type, adjacency_type, coordinate_type,
}
use ndnproject.Lsa.Content.{
  Text, Reading, loaded, past_end, caught, ◌>>=◌, bar, is_token, end_of_times, header_data,
  names_data, name_lsa_data, adjacents_data, adj_lsa_data, coordinate_lsa_data, read_router,
  read_header, read_counted, read_names, initialize_name_lsa, read_adjacent, read_adjacents,
  initialize_adj_lsa, read_coordinates, initialize_coordinate_lsa,
}
use ndnproject.NamePrefixList
use ndnproject.NamePrefixList.{NamePrefixList, itself}

module _ {Name : Type 0} ⦃n : NdnName Name⦄ where
  -- The router has a name with a component, and the numbers can be written and read.
  pub record IsSendable (l : Lsa Name) : Type 0 where
    pub named : ltb 0 (n.size l.orig_router) ≡ true
    pub seq_no_fits : l.ls_seq_no < 2 ^ 32
    pub time_fits : l.expiration_time_point < end_of_times

  -- The part of an LSA that is sent, with its type.
  abbrev pub sent : Lsa Name → Str → Lsa Name
  sent l ls_type = new_lsa l.orig_router ls_type l.ls_seq_no l.expiration_time_point

module _ {Name D : Type 0} ⦃e : Eq Name⦄ ⦃n : NdnName Name⦄ ⦃d : Double D⦄ (t : Text Name D) where
  pub first_token :
      {s rest : Str} {ts : List Str}
      → is_token s ≡ true
      → t.tokens rest ≡ ts
      → t.tokens (s ++ bar ∷ rest) ≡ s ∷ ts
  first_token {s} {rest} token is = t.tokens-token s rest token ∙ ap (λ ts. s ∷ ts) is

  pub header_tokens :
      (l : Lsa Name) (ls_type rest : Str) (ts : List Str)
      → is_token ls_type ≡ true
      → t.tokens rest ≡ ts
      → t.tokens (header_data t l ls_type rest)
        ≡ t.to_uri l.orig_router
          ∷ ls_type
          ∷ t.of_number l.ls_seq_no
          ∷ t.to_iso_string l.expiration_time_point
          ∷ ts
  unfolding header_data
  header_tokens l ls_type rest ts token is = first_token (t.uri_token l.orig_router) (
      first_token token (
        first_token (t.number_token l.ls_seq_no)
          (first_token (t.iso_token l.expiration_time_point) is)))

  pub last_token : (s : Str) → is_token s ≡ true → t.tokens (s ++ bar ∷ []) ≡ s ∷ []
  last_token s token = first_token token t.tokens-nil

  pub read_router-loaded :
      (l : Lsa Name) (ts : List Str)
      → IsSendable l
      → read_router t (t.to_uri l.orig_router ∷ ts) ≡ loaded (l.orig_router, ts)
  unfolding read_router
  read_router-loaded l ts fits = rw (t.of_uri-to_uri l.orig_router, fits.named) refl

  read_header-loaded :
      (l : Lsa Name) (ls_type : Str) (ts : List Str)
      → IsSendable l
      → read_header t l.orig_router
          (ls_type ∷ t.of_number l.ls_seq_no ∷ t.to_iso_string l.expiration_time_point ∷ ts)
        ≡ loaded (sent l ls_type, ts)
  unfolding read_header
  read_header-loaded l ls_type ts fits =
      rw
        (
          t.read_uint32-of_number l.ls_seq_no fits.seq_no_fits,
          t.of_iso_string-to_iso_string l.expiration_time_point fits.time_fits,
        )
        refl

  pub read_counted-loaded :
      (l : Lsa Name) (ls_type : Str) (count : ℕ) (ts : List Str)
      → IsSendable l
      → count < 2 ^ 32
      → read_counted t l.orig_router (
          ls_type
          ∷ t.of_number l.ls_seq_no
          ∷ t.to_iso_string l.expiration_time_point
          ∷ t.of_number count
          ∷ ts)
        ≡ loaded (sent l ls_type, count, ts)
  unfolding read_counted
  read_counted-loaded l ls_type count ts fits small =
      rw
        (
          read_header-loaded l ls_type (t.of_number count ∷ ts) fits,
          t.read_uint32-of_number count small,
        )
        refl

  names_tokens :
      (s : Str) (names : List Name)
      → is_token s ≡ true
      → t.tokens (s ++ (names_data t names ++ bar ∷ [])) ≡ s ∷ map t.to_uri names
  unfolding names_data
  names_tokens s [] token = last_token s token
  names_tokens s (name ∷ names) token = first_token token (
      rw (append_assoc (t.to_uri name) (names_data t names) (bar ∷ []))
        (names_tokens (t.to_uri name) names (t.uri_token name)))

  -- New names are all added behind the others.
  insert-new :
      (npl names : List Name) (name : Name)
      → Distinct itself (npl ++ name ∷ names)
      → (NamePrefixList.insert npl name).0 ≡ npl ++ name ∷ []
  unfolding NamePrefixList.insert
  insert-new npl names name distinct =
      rw (find-middle-none itself npl name names distinct, NamePrefixList.insert) refl

  read_names-loaded :
      (names npl : List Name)
      → Distinct itself (npl ++ names)
      → read_names t (length names) (map t.to_uri names) npl ≡ loaded (npl ++ names)
  unfolding read_names
  read_names-loaded [] npl distinct = rw (append-nil npl) refl
  read_names-loaded (name ∷ names) npl distinct =
      let whole = append_assoc npl (name ∷ []) names in
      rw (t.of_uri-to_uri name, insert-new npl names name distinct)
        (read_names-loaded names (npl ++ name ∷ []) (rw whole distinct) ∙ ap loaded whole)

  -- A name LSA that is written and read is as it was, as far as it is sent, if its router's name has a
  -- component, its numbers can be written and read, and no name is twice in it.
  pub initialize_name_lsa-data :
      (l : NameLsa Name)
      → IsSendable l.lsa
      → length l.npl < 2 ^ 32
      → Distinct itself l.npl
      → initialize_name_lsa t (name_lsa_data t l)
        ≡ loaded (record { lsa = sent l.lsa name_type; npl = l.npl })
  unfolding initialize_name_lsa name_lsa_data
  initialize_name_lsa-data l fits few distinct =
      rw
        (
          header_tokens l.lsa name_type
              (t.of_number (length l.npl) ++ (names_data t l.npl ++ bar ∷ []))
              (t.of_number (length l.npl) ∷ map t.to_uri l.npl) refl
              (names_tokens (t.of_number (length l.npl)) l.npl (t.number_token (length l.npl))),
          read_router-loaded l.lsa
              (name_type
                ∷ t.of_number l.ls_seq_no
                ∷ t.to_iso_string l.expiration_time_point
                ∷ t.of_number (length l.npl)
                ∷ map t.to_uri l.npl)
              fits,
          read_counted-loaded l.lsa name_type (length l.npl) (map t.to_uri l.npl) fits few,
          read_names-loaded l.npl [] distinct,
        )
        refl

  read_names-past_end :
      (names : List Name) (count : ℕ) (npl : List Name)
      → length names < count
      → read_names t count (map t.to_uri names) npl ≡ past_end
  unfolding read_names
  read_names-past_end names zero npl more = absurd (omega arith)
  read_names-past_end [] (suc left) npl more = refl
  read_names-past_end (name ∷ names) (suc left) npl more =
      rw (t.of_uri-to_uri name)
        (read_names-past_end names left (NamePrefixList.insert npl name).0 (omega arith))

  -- A name LSA that says that it has more names than it has is read past its last part, if its router's name
  -- has a component and its numbers can be written and read.
  pub initialize_name_lsa-past_end :
      (l : NameLsa Name) (count : ℕ)
      → IsSendable l.lsa
      → length l.npl < count
      → count < 2 ^ 32
      → initialize_name_lsa t
          (header_data t l.lsa name_type (t.of_number count ++ (names_data t l.npl ++ bar ∷ [])))
        ≡ past_end
  unfolding initialize_name_lsa
  initialize_name_lsa-past_end l count fits more few =
      let count_text = t.of_number count in
      rw
        (
          header_tokens l.lsa name_type (count_text ++ (names_data t l.npl ++ bar ∷ []))
              (count_text ∷ map t.to_uri l.npl) refl
              (names_tokens count_text l.npl (t.number_token count)),
          read_router-loaded l.lsa
              (name_type
                ∷ t.of_number l.ls_seq_no
                ∷ t.to_iso_string l.expiration_time_point
                ∷ count_text
                ∷ map t.to_uri l.npl)
              fits,
          read_counted-loaded l.lsa name_type count (map t.to_uri l.npl) fits few,
          read_names-past_end l.npl count [] more,
        )
        refl

  -- A coordinate LSA that is written and read is as it was, as far as it is sent, if its router's name has a
  -- component and its numbers can be written and read.
  pub initialize_coordinate_lsa-data :
      (l : CoordinateLsa Name D)
      → IsSendable l.lsa
      → initialize_coordinate_lsa t (coordinate_lsa_data t l)
        ≡ loaded (record {
          lsa = sent l.lsa coordinate_type;
          cor_rad = l.cor_rad;
          cor_theta = l.cor_theta;
        })
  unfolding initialize_coordinate_lsa coordinate_lsa_data read_coordinates
  initialize_coordinate_lsa-data l fits =
      let rad = t.of_double l.cor_rad in
      let theta = t.of_double l.cor_theta in
      rw
        (
          header_tokens l.lsa coordinate_type (rad ++ bar ∷ (theta ++ bar ∷ [])) (rad ∷ theta ∷ [])
              refl
              (first_token (t.double_token l.cor_rad)
                (last_token theta (t.double_token l.cor_theta))),
          read_router-loaded l.lsa
              (coordinate_type
                ∷ t.of_number l.ls_seq_no
                ∷ t.to_iso_string l.expiration_time_point
                ∷ rad
                ∷ theta
                ∷ [])
              fits,
          read_header-loaded l.lsa coordinate_type (rad ∷ theta ∷ []) fits,
          t.read_double-of_double l.cor_rad,
          t.read_double-of_double l.cor_theta,
        )
        refl
