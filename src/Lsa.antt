-- ===== src/Lsa.antt =====
-- src/lsa.hpp and src/lsa.cpp: the three kinds of link state advertisement, their keys, their
-- contents, and when two hold the same. Sequence numbers are uint32_t; times are in seconds.
pub mod Content
pub mod RoundTrip
use ndnproject.Prelude.{
  Bool, Double, Eq, List, NdnName, Option, Str, [], if◌then◌else◌, none, ℕ, ◌&&◌, ◌*◌, ◌∷◌,
}
use ndnproject.Adjacency
use ndnproject.Adjacency.{Adjacent, AdjacencyList, is_active, lists_equal}
use ndnproject.NamePrefixList
use ndnproject.NamePrefixList.{NamePrefixList}

pub record Lsa (Name : Type 0) : Type 0 where
  pub orig_router : Name
  pub ls_type : Str
  pub ls_seq_no : ℕ
  pub expiration_time_point : ℕ
  pub expiring_event_id : Option ℕ

pub record NameLsa (Name : Type 0) : Type 0 where
  pub lsa : Lsa Name
  pub open lsa use *
  pub npl : NamePrefixList Name

pub record AdjLsa (Name D : Type 0) : Type 0 where
  pub lsa : Lsa Name
  pub open lsa use *
  pub no_link : ℕ
  pub adl : AdjacencyList Name D

pub record CoordinateLsa (Name D : Type 0) : Type 0 where
  pub lsa : Lsa Name
  pub open lsa use *
  pub cor_rad : D
  pub cor_theta : D

-- `NameLsa::TYPE_STRING`, `AdjLsa::TYPE_STRING`, `CoordinateLsa::TYPE_STRING`.
abbrev pub name_type : Str
name_type = b'n' ∷ b'a' ∷ b'm' ∷ b'e' ∷ []

abbrev pub adjacency_type : Str
adjacency_type = b'a' ∷ b'd' ∷ b'j' ∷ b'a' ∷ b'c' ∷ b'e' ∷ b'n' ∷ b'c' ∷ b'y' ∷ []

abbrev pub coordinate_type : Str
coordinate_type = b'c' ∷ b'o' ∷ b'o' ∷ b'r' ∷ b'd' ∷ b'i' ∷ b'n' ∷ b'a' ∷ b't' ∷ b'e' ∷ []

abbrev pub new_lsa : {Name : Type 0} → Name → Str → ℕ → ℕ → Lsa Name
new_lsa orig lst lsn lt = record {
  orig_router = orig;
  ls_type = lst;
  ls_seq_no = lsn;
  expiration_time_point = lt;
  expiring_event_id = none;
}

module _ {Name : Type 0} ⦃e : Eq Name⦄ ⦃n : NdnName Name⦄ where
  -- `getKey` of the three kinds.
  abbrev pub name_lsa_key : NameLsa Name → Name
  name_lsa_key l = n.append l.orig_router name_type

  abbrev pub adj_lsa_key : {D : Type 0} → AdjLsa Name D → Name
  adj_lsa_key l = n.append l.orig_router adjacency_type

  abbrev pub coordinate_lsa_key : {D : Type 0} → CoordinateLsa Name D → Name
  coordinate_lsa_key l = n.append l.orig_router coordinate_type

  -- `addName` of each name of a list.
  unfoldable pub add_names : NamePrefixList Name → List Name → NamePrefixList Name
  add_names npl [] = npl
  add_names npl (name ∷ names) = add_names (NamePrefixList.insert npl name).0 names

  unfoldable pub new_name_lsa : Name → ℕ → ℕ → NamePrefixList Name → NameLsa Name
  unfolding add_names
  new_name_lsa orig lsn lt npl = record {
    lsa = new_lsa orig name_type lsn lt;
    npl = add_names [] npl;
  }

module _ {Name D : Type 0} ⦃e : Eq Name⦄ ⦃n : NdnName Name⦄ ⦃d : Double D⦄ where
  -- `addAdjacent` of each active neighbor of a list.
  unfoldable pub add_active : AdjacencyList Name D → AdjacencyList Name D → AdjacencyList Name D
  add_active adl [] = adl
  add_active adl (a ∷ al) =
      add_active (if is_active a.status then (Adjacency.insert adl a).0 else adl) al

  unfoldable pub new_adj_lsa : Name → ℕ → ℕ → ℕ → AdjacencyList Name D → AdjLsa Name D
  unfolding add_active
  new_adj_lsa orig lsn lt nl adl = record {
    lsa = new_lsa orig adjacency_type lsn lt;
    no_link = nl;
    adl = add_active [] adl;
  }

  unfoldable pub new_coordinate_lsa : Name → ℕ → ℕ → D → D → CoordinateLsa Name D
  new_coordinate_lsa orig lsn lt r theta = record {
    lsa = new_lsa orig coordinate_type lsn lt;
    cor_rad = r;
    cor_theta = theta;
  }

  -- `isEqualContent` of two coordinate LSAs: both numbers within epsilon.
  unfoldable pub is_equal_coordinates : CoordinateLsa Name D → CoordinateLsa Name D → Bool
  is_equal_coordinates l m =
      d.lt (d.abs (d.sub l.cor_rad m.cor_rad)) d.epsilon
      && d.lt (d.abs (d.sub l.cor_theta m.cor_theta)) d.epsilon
