-- ===== src/Lsa/RoundTrip/Links.antt =====
-- src/lsa.cpp: an adjacency LSA is read as it was written, but for the state of its neighbors.
use ndnproject.Prelude.{
  All, Double, Eq, List, NdnName, Str, [], ap, length, map, nat_eq, refl, str_eq, true, ℕ, ◌++◌,
  ◌<◌, ◌^◌, ◌∙◌, ◌∷◌, ◌≡◌,
}
use mathlib.Core.List.{append-nil, append_assoc}
use ndnproject.Adjacency
use ndnproject.Adjacency.{Adjacent, AdjacencyList, inactive, get_link_cost, adjacent_name}
use ndnproject.Keyed.{Distinct}
use ndnproject.Keyed.Laws.{find-middle-none}
use ndnproject.Lsa.{AdjLsa, adjacency_type}
use ndnproject.Lsa.Content.{
  Text, loaded, bar, is_token, adjacents_data, adj_lsa_data, read_adjacent, read_adjacents,
  initialize_adj_lsa,
}
use ndnproject.Lsa.RoundTrip.{
  IsSendable, sent, first_token, header_tokens, last_token, read_router-loaded, read_counted-loaded,
}

module _ {Name D : Type 0} ⦃e : Eq Name⦄ ⦃n : NdnName Name⦄ ⦃d : Double D⦄ where
  -- A neighbor as it is read: its name and its face, and its cost rounded up.
  abbrev pub received : Adjacent Name D → Adjacent Name D
  received a = record {
    name = a.name;
    connecting_face_uri = a.connecting_face_uri;
    link_cost = d.of_ℕ (get_link_cost a);
    status = inactive;
    interest_timed_out_no = 0;
    face_id = 0;
  }

  -- The face can be a part of a text, and a double holds the cost.
  abbrev pub IsSendableLink : Adjacent Name D → Type 0
  IsSendableLink a = (is_token a.connecting_face_uri ≡ true) × (get_link_cost a < 2 ^ 53)

module _ {Name D : Type 0} ⦃e : Eq Name⦄ ⦃n : NdnName Name⦄ ⦃d : Double D⦄ (t : Text Name D) where
  abbrev adjacents_texts : AdjacencyList Name D → List Str
  adjacents_texts [] = []
  adjacents_texts (a ∷ al) =
      t.to_uri a.name ∷ a.connecting_face_uri ∷ t.of_number (get_link_cost a) ∷ adjacents_texts al

  adjacents_tokens :
      (s : Str) (al : AdjacencyList Name D)
      → is_token s ≡ true
      → All IsSendableLink al
      → t.tokens (s ++ (adjacents_data t al ++ bar ∷ [])) ≡ s ∷ adjacents_texts al
  unfolding adjacents_data
  adjacents_tokens s [] token links = last_token t s token
  adjacents_tokens s (a ∷ al) token links =
      let cost = t.of_number (get_link_cost a) in
      let end = adjacents_data t al ++ bar ∷ [] in
      first_token t token (
        ap (λ rest. t.tokens rest)
          (append_assoc (t.to_uri a.name)
              (bar ∷ (a.connecting_face_uri ++ bar ∷ (cost ++ adjacents_data t al))) (bar ∷ [])
            ∙ ap (λ rest. t.to_uri a.name ++ bar ∷ rest)
                (append_assoc a.connecting_face_uri (bar ∷ (cost ++ adjacents_data t al)) (bar ∷ [])
                  ∙ ap (λ rest. a.connecting_face_uri ++ bar ∷ rest)
                      (append_assoc cost (adjacents_data t al) (bar ∷ []))))
        ∙ first_token t (t.uri_token a.name) (
            first_token t links.0.0
              (adjacents_tokens cost al (t.number_token (get_link_cost a)) links.1)))

  read_adjacent-loaded :
      (a : Adjacent Name D) (ts : List Str)
      → IsSendableLink a
      → read_adjacent t
          (t.to_uri a.name ∷ a.connecting_face_uri ∷ t.of_number (get_link_cost a) ∷ ts)
        ≡ loaded (received a, ts)
  unfolding read_adjacent
  read_adjacent-loaded a ts link =
      rw (t.of_uri-to_uri a.name, t.read_double-of_number (get_link_cost a) link.1) refl

  insert_new-adjacent :
      (adl al : AdjacencyList Name D) (a : Adjacent Name D)
      → Distinct adjacent_name (adl ++ a ∷ al)
      → (Adjacency.insert adl a).0 ≡ adl ++ a ∷ []
  unfolding Adjacency.insert Adjacency.find_adjacent
  insert_new-adjacent adl al a distinct =
      rw (find-middle-none adjacent_name adl a al distinct, Adjacency.insert) refl

  read_adjacents-loaded :
      (al adl : AdjacencyList Name D)
      → All IsSendableLink al
      → Distinct adjacent_name (adl ++ map received al)
      → read_adjacents t (length al) (adjacents_texts al) adl ≡ loaded (adl ++ map received al)
  unfolding read_adjacents
  read_adjacents-loaded [] adl links distinct = rw (append-nil adl) refl
  read_adjacents-loaded (a ∷ al) adl links distinct =
      let whole = append_assoc adl (received a ∷ []) (map received al) in
      rw
        (
          read_adjacent-loaded a (adjacents_texts al) links.0,
          insert_new-adjacent adl (map received al) (received a) distinct,
        )
        (read_adjacents-loaded al (adl ++ received a ∷ []) links.1 (rw whole distinct)
          ∙ ap loaded whole)

  -- An adjacency LSA that is written and read has the neighbors that it had, inactive and with their costs
  -- rounded up, if its router's name has a component, its numbers and faces can be written and read, and no
  -- neighbor is twice in it. The number of links is the new object's.
  pub initialize_adj_lsa-data :
      (l : AdjLsa Name D) (no_link : ℕ)
      → IsSendable l.lsa
      → length l.adl < 2 ^ 32
      → All IsSendableLink l.adl
      → Distinct adjacent_name (map received l.adl)
      → initialize_adj_lsa t no_link (adj_lsa_data t l)
        ≡ loaded (record {
          lsa = sent l.lsa adjacency_type;
          no_link = no_link;
          adl = map received l.adl;
        })
  unfolding initialize_adj_lsa adj_lsa_data
  initialize_adj_lsa-data l no_link fits few links distinct =
      let count = t.of_number (length l.adl) in
      rw
        (
          header_tokens t l.lsa adjacency_type (count ++ (adjacents_data t l.adl ++ bar ∷ []))
              (count ∷ adjacents_texts l.adl) refl
              (adjacents_tokens count l.adl (t.number_token (length l.adl)) links),
          read_router-loaded t l.lsa
              (adjacency_type
                ∷ t.of_number l.ls_seq_no
                ∷ t.to_iso_string l.expiration_time_point
                ∷ count
                ∷ adjacents_texts l.adl)
              fits,
          read_counted-loaded t l.lsa adjacency_type (length l.adl) (adjacents_texts l.adl) fits
              few,
          read_adjacents-loaded l.adl [] links distinct,
        )
        refl
