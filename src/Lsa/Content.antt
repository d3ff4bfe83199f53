-- ===== src/Lsa/Content.antt =====
-- src/lsa.cpp: the text that an LSA is sent as, and how it is read. Names, numbers, times and doubles as
-- text, and the splitting of a text, are those of ndn-cxx and Boost.
use ndnproject.Prelude.{
  Bool, Double, Eq, List, NdnName, Option, Str, [], false, if◌then◌else◌, length, ltb, nat_eq, none,
  some, str_eq, suc, true, zero, ℕ, ◌++◌, ◌<◌, ◌==◌, ◌^◌, ◌∷◌, ◌≡◌,
}
use ndnproject.Adjacency
use ndnproject.Adjacency.{Adjacent, AdjacencyList, inactive, get_link_cost}
use ndnproject.Lsa.{
  Lsa, NameLsa, AdjLsa, CoordinateLsa, new_lsa, name_type, adjacency_type, coordinate_type,
}
use ndnproject.NamePrefixList
use ndnproject.NamePrefixList.{NamePrefixList}

-- What separates the parts of a text.
abbrev pub bar : ℕ
bar = b'|'

abbrev pub has_no_bar : Str → Bool
has_no_bar [] = true
has_no_bar (c ∷ s) = if c == bar then false else has_no_bar s

-- A part: it is not empty, and the separator is not in it.
abbrev pub is_token : Str → Bool
is_token [] = false
is_token (c ∷ s) = has_no_bar (c ∷ s)

-- The year 10000, in seconds, up to which a time is written and read.
abbrev pub end_of_times : ℕ
end_of_times = 253402300800

-- `toUri` and the constructor of `ndn::Name` from a text, `lexical_cast` of whole numbers and of doubles,
-- `toIsoString` and `fromIsoString`, and `boost::tokenizer`, which leaves out empty parts. `none` is an
-- exception.
pub record Text (Name D : Type 0) ⦃d : Double D⦄ : Type 0 where
  pub to_uri : Name → Str
  pub of_uri : Str → Option Name
  pub of_number : ℕ → Str
  pub read_uint32 : Str → Option ℕ
  pub to_iso_string : ℕ → Str
  pub of_iso_string : Str → Option ℕ
  pub of_double : D → Str
  pub read_double : Str → Option D
  pub tokens : Str → List Str
  pub tokens-nil : tokens [] ≡ []
  pub tokens-token : (s rest : Str) → is_token s ≡ true → tokens (s ++ bar ∷ rest) ≡ s ∷ tokens rest
  pub uri_token : (a : Name) → is_token (to_uri a) ≡ true
  pub number_token : (k : ℕ) → is_token (of_number k) ≡ true
  pub iso_token : (t : ℕ) → is_token (to_iso_string t) ≡ true
  pub double_token : (x : D) → is_token (of_double x) ≡ true
  pub of_uri-to_uri : (a : Name) → of_uri (to_uri a) ≡ some a
  pub read_uint32-of_number : (k : ℕ) → k < 2 ^ 32 → read_uint32 (of_number k) ≡ some k
  pub of_iso_string-to_iso_string :
      (t : ℕ) → t < end_of_times → of_iso_string (to_iso_string t) ≡ some t
  pub read_double-of_double : (x : D) → read_double (of_double x) ≡ some x
  pub read_double-of_number : (k : ℕ) → k < 2 ^ 53 → read_double (of_number k) ≡ some (d.of_ℕ k)

-- What reading a text comes to: it is read, it is refused, an exception leaves the function, or a part
-- behind the last one is asked for, of which the behaviour is undefined.
pub data Reading {ℓ} (A : Type ℓ) : Type ℓ where
  loaded : A → Reading A
  refused : Reading A
  thrown : Reading A
  past_end : Reading A

infixl 5 ◌>>=◌
abbrev pub ◌>>=◌ {ℓ κ} : {A : Type ℓ} {B : Type κ} → Reading A → (A → Reading B) → Reading B
m >>= f = elim m [ loaded a ↦ f a | refused ↦ refused | thrown ↦ thrown | past_end ↦ past_end ]

-- A `try` whose handler returns false.
abbrev pub caught {ℓ} : {A : Type ℓ} → Reading A → Reading A
caught thrown = refused
caught m = m

abbrev pub cast {ℓ} : {A : Type ℓ} → Option A → Reading A
cast none = thrown
cast (some a) = loaded a

-- `*tok_iter++`.
abbrev pub next : List Str → Reading (Str × List Str)
next [] = past_end
next (s ∷ ts) = loaded (s, ts)

module _ {Name D : Type 0} ⦃e : Eq Name⦄ ⦃n : NdnName Name⦄ ⦃d : Double D⦄ (t : Text Name D) where
  -- What all three kinds begin with.
  unfoldable pub header_data : Lsa Name → Str → Str → Str
  header_data l ls_type rest =
      t.to_uri l.orig_router
      ++ bar
        ∷ (ls_type
            ++ bar
              ∷ (t.of_number l.ls_seq_no
                  ++ bar ∷ (t.to_iso_string l.expiration_time_point ++ bar ∷ rest)))

  unfoldable pub names_data : List Name → Str
  names_data [] = []
  names_data (name ∷ names) = bar ∷ (t.to_uri name ++ names_data names)

  -- `NameLsa::getData`.
  unfoldable pub name_lsa_data : NameLsa Name → Str
  unfolding header_data names_data
  name_lsa_data l =
      header_data l.lsa name_type (t.of_number (length l.npl) ++ (names_data l.npl ++ bar ∷ []))

  unfoldable pub adjacents_data : AdjacencyList Name D → Str
  unfolding get_link_cost
  adjacents_data [] = []
  adjacents_data (a ∷ al) =
      bar
      ∷ (t.to_uri a.name
          ++ bar
            ∷ (a.connecting_face_uri ++ bar ∷ (t.of_number (get_link_cost a) ++ adjacents_data al)))

  -- `AdjLsa::getData`.
  unfoldable pub adj_lsa_data : AdjLsa Name D → Str
  unfolding header_data adjacents_data
  adj_lsa_data l =
      header_data l.lsa adjacency_type
        (t.of_number (length l.adl) ++ (adjacents_data l.adl ++ bar ∷ []))

  -- `CoordinateLsa::getData`.
  unfoldable pub coordinate_lsa_data : CoordinateLsa Name D → Str
  unfolding header_data
  coordinate_lsa_data l =
      header_data l.lsa coordinate_type
        (t.of_double l.cor_rad ++ bar ∷ (t.of_double l.cor_theta ++ bar ∷ []))

  -- The router's name, which must have a component.
  unfoldable pub read_router : List Str → Reading (Name × List Str)
  read_router ts = do
    (uri, ts) ← next ts
    orig ← cast (t.of_uri uri)
    if ltb 0 (n.size orig) then loaded (orig, ts) else refused

  -- The type, the sequence number and the time, inside the `try`.
  unfoldable pub read_header : Name → List Str → Reading (Lsa Name × List Str)
  read_header orig ts = do
    (ls_type, ts) ← next ts
    (seq_text, ts) ← next ts
    seq_no ← cast (t.read_uint32 seq_text)
    (time_text, ts) ← next ts
    time ← cast (t.of_iso_string time_text)
    loaded (new_lsa orig ls_type seq_no time, ts)

  -- The header and the number of what follows it.
  unfoldable pub read_counted : Name → List Str → Reading (Lsa Name × ℕ × List Str)
  unfolding read_header
  read_counted orig ts = do
    (lsa, ts) ← read_header orig ts
    (count_text, ts) ← next ts
    count ← cast (t.read_uint32 count_text)
    loaded (lsa, count, ts)

  unfoldable pub read_names : ℕ → List Str → NamePrefixList Name → Reading (NamePrefixList Name)
  unfolding NamePrefixList.insert
  read_names zero ts npl = loaded npl
  read_names (suc left) ts npl = do
    (uri, ts) ← next ts
    name ← cast (t.of_uri uri)
    read_names left ts (NamePrefixList.insert npl name).0

  -- `NameLsa::initializeFromContent`, of a new object.
  unfoldable pub initialize_name_lsa : Str → Reading (NameLsa Name)
  unfolding read_router read_counted read_names
  initialize_name_lsa content = do
    (orig, ts) ← read_router (t.tokens content)
    (lsa, num_name, ts) ← caught (read_counted orig ts)
    npl ← read_names num_name ts []
    loaded (record { lsa = lsa; npl = npl })

  -- One neighbor, inside its own `try`.
  unfoldable pub read_adjacent : List Str → Reading (Adjacent Name D × List Str)
  read_adjacent ts = do
    (uri, ts) ← next ts
    adj_name ← cast (t.of_uri uri)
    (connecting_face_uri, ts) ← next ts
    (cost_text, ts) ← next ts
    link_cost ← cast (t.read_double cost_text)
    loaded (
      record {
        name = adj_name;
        connecting_face_uri = connecting_face_uri;
        link_cost = link_cost;
        status = inactive;
        interest_timed_out_no = 0;
        face_id = 0;
      },
      ts,
    )

  unfoldable pub read_adjacents :
      ℕ → List Str → AdjacencyList Name D → Reading (AdjacencyList Name D)
  unfolding read_adjacent Adjacency.insert
  read_adjacents zero ts adl = loaded adl
  read_adjacents (suc left) ts adl = do
    (adjacent, ts) ← caught (read_adjacent ts)
    read_adjacents left ts (Adjacency.insert adl adjacent).0

  -- `AdjLsa::initializeFromContent`, of a new object, whose number of links is not set by either.
  unfoldable pub initialize_adj_lsa : ℕ → Str → Reading (AdjLsa Name D)
  unfolding read_router read_counted read_adjacents
  initialize_adj_lsa no_link content = do
    (orig, ts) ← read_router (t.tokens content)
    (lsa, num_link, ts) ← caught (read_counted orig ts)
    adl ← read_adjacents num_link ts []
    loaded (record { lsa = lsa; no_link = no_link; adl = adl })

  -- The header and the two coordinates.
  unfoldable pub read_coordinates : Name → List Str → Reading (CoordinateLsa Name D)
  unfolding read_header
  read_coordinates orig ts = do
    (lsa, ts) ← read_header orig ts
    (rad_text, ts) ← next ts
    cor_rad ← cast (t.read_double rad_text)
    (theta_text, ts) ← next ts
    cor_theta ← cast (t.read_double theta_text)
    loaded (record { lsa = lsa; cor_rad = cor_rad; cor_theta = cor_theta })

  -- `CoordinateLsa::initializeFromContent`.
  unfoldable pub initialize_coordinate_lsa : Str → Reading (CoordinateLsa Name D)
  unfolding read_router read_coordinates
  initialize_coordinate_lsa content = do
    (orig, ts) ← read_router (t.tokens content)
    caught (read_coordinates orig ts)
