-- ===== src/Publisher/Contents.antt =====
-- src/publisher/lsa-publisher.cpp and src/publisher/lsdb-status-publisher.cpp: what a published LSDB
-- decodes to.
use ndnproject.Prelude.{
  All, Double, Eq, List, NdnName, [], ap, arith, map, nat_eq, refl, some, str_eq, sym, true, ℕ,
  ◌++◌, ◌<◌, ◌^◌, ◌∙◌, ◌∷◌, ◌≡◌,
}
use mathlib.Core.List.{append-nil, append_assoc}
use ndnproject.Adjacency.{AdjacencyList, get_link_cost}
use ndnproject.Lsa.{Lsa, NameLsa, AdjLsa, CoordinateLsa}
use ndnproject.Nlsr.{Nlsr}
use ndnproject.Publisher.{
  milliseconds_until, make_lsa_info, add_names, tlv_name_lsa, tlv_coordinate_lsa, add_adjacencies,
  tlv_adjacency_lsa, tlv_adjacency_lsas, tlv_coordinate_lsas, tlv_name_lsas, add_adjacency_lsas,
  add_coordinate_lsas, add_name_lsas, lsdb_status, publish,
}
use ndnproject.Publisher.Segments.{joined, publish-joined}
use ndnproject.Tlv.Adjacency.{Adjacency}
use ndnproject.Tlv.AdjacencyLsa
use ndnproject.Tlv.AdjacencyLsa.{AdjacencyLsa as TlvAdjacencyLsa, add_adjacency}
use ndnproject.Tlv.Blocks.{Block, Wire}
use ndnproject.Tlv.CoordinateLsa.{CoordinateLsa as TlvCoordinateLsa}
use ndnproject.Tlv.LsaInfo
use ndnproject.Tlv.LsaInfo.{LsaInfo, set_expiration_period}
use ndnproject.Tlv.LsdbStatus
use ndnproject.Tlv.LsdbStatus.{
  LsdbStatus, new_lsdb_status, add_adjacency_lsa, add_coordinate_lsa, add_name_lsa,
  wire_decode-wire_encode,
}
use ndnproject.Tlv.NameLsa
use ndnproject.Tlv.NameLsa.{NameLsa as TlvNameLsa, add_name}
use ndnproject.Tlv.{ok, is_any}

is_any-push : {A : Type 0} (xs : List A) (x : A) → is_any (xs ++ x ∷ []) ≡ true
is_any-push [] x = refl
is_any-push (y ∷ xs) x = refl

module _ {Name : Type 0} where
  info-IsEncodable :
      (now : ℕ) (l : Lsa Name) → l.ls_seq_no < 2 ^ 64 → LsaInfo.IsEncodable (make_lsa_info now l)
  unfolding make_lsa_info set_expiration_period milliseconds_until
  info-IsEncodable now l fits = record {
    sequence_fits = fits;
    period_fits = omega arith;
    flag = refl;
  }

  add_names-IsEncodable :
      (l : TlvNameLsa Name) (names : List Name)
      → NameLsa.IsEncodable l
      → NameLsa.IsEncodable (add_names l names)
  unfolding add_names add_name
  add_names-IsEncodable l [] fits = fits
  add_names-IsEncodable l (name ∷ names) fits =
      add_names-IsEncodable (add_name l name) names
        (record { info = fits.info; flag = sym (is_any-push l.names name) })

  names-IsEncodable :
      (now : ℕ) (ls : List (NameLsa Name))
      → All (λ l. l.ls_seq_no < 2 ^ 64) ls
      → All NameLsa.IsEncodable (map (tlv_name_lsa now) ls)
  unfolding tlv_name_lsa
  names-IsEncodable now [] fits = tt
  names-IsEncodable now (l ∷ ls) fits = (
    add_names-IsEncodable _ l.npl
        (record { info = info-IsEncodable now l.lsa fits.0; flag = refl }),
    names-IsEncodable now ls fits.1,
  )

  All-push_cost :
      (xs : List (Adjacency Name)) (x : Adjacency Name)
      → All (λ a. a.cost < 2 ^ 64) xs
      → x.cost < 2 ^ 64
      → All (λ a. a.cost < 2 ^ 64) (xs ++ x ∷ [])
  All-push_cost [] x all fits = (fits, tt)
  All-push_cost (y ∷ xs) x all fits = (all.0, All-push_cost xs x all.1 fits)

module _ {Name D : Type 0} where
  add_adjacency_lsas_lem :
      (s : LsdbStatus Name D) (ls : List (TlvAdjacencyLsa Name))
      → s.has_adjacency_lsas ≡ is_any s.adjacency_lsas
      → add_adjacency_lsas s ls ≡ record s {
        adjacency_lsas = s.adjacency_lsas ++ ls;
        has_adjacency_lsas = is_any (s.adjacency_lsas ++ ls);
      }
  unfolding add_adjacency_lsas add_adjacency_lsa
  add_adjacency_lsas_lem s [] flag = rw (append-nil s.adjacency_lsas, ← flag) refl
  add_adjacency_lsas_lem s (l ∷ ls) flag =
      add_adjacency_lsas_lem (add_adjacency_lsa s l) ls (sym (is_any-push s.adjacency_lsas l))
      ∙ rw (append_assoc s.adjacency_lsas (l ∷ []) ls) refl

  add_coordinate_lsas_lem :
      (s : LsdbStatus Name D) (ls : List (TlvCoordinateLsa Name D))
      → s.has_coordinate_lsas ≡ is_any s.coordinate_lsas
      → add_coordinate_lsas s ls ≡ record s {
        coordinate_lsas = s.coordinate_lsas ++ ls;
        has_coordinate_lsas = is_any (s.coordinate_lsas ++ ls);
      }
  unfolding add_coordinate_lsas add_coordinate_lsa
  add_coordinate_lsas_lem s [] flag = rw (append-nil s.coordinate_lsas, ← flag) refl
  add_coordinate_lsas_lem s (l ∷ ls) flag =
      add_coordinate_lsas_lem (add_coordinate_lsa s l) ls (sym (is_any-push s.coordinate_lsas l))
      ∙ rw (append_assoc s.coordinate_lsas (l ∷ []) ls) refl

  add_name_lsas_lem :
      (s : LsdbStatus Name D) (ls : List (TlvNameLsa Name))
      → s.has_name_lsas ≡ is_any s.name_lsas
      → add_name_lsas s ls
        ≡ record s { name_lsas = s.name_lsas ++ ls; has_name_lsas = is_any (s.name_lsas ++ ls) }
  unfolding add_name_lsas add_name_lsa
  add_name_lsas_lem s [] flag = rw (append-nil s.name_lsas, ← flag) refl
  add_name_lsas_lem s (l ∷ ls) flag =
      add_name_lsas_lem (add_name_lsa s l) ls (sym (is_any-push s.name_lsas l))
      ∙ rw (append_assoc s.name_lsas (l ∷ []) ls) refl

  -- What a router publishes.
  abbrev pub published :
      List (TlvAdjacencyLsa Name)
      → List (TlvCoordinateLsa Name D)
      → List (TlvNameLsa Name)
      → LsdbStatus Name D
  published adjacencies coordinates names = record {
    adjacency_lsas = adjacencies;
    has_adjacency_lsas = is_any adjacencies;
    coordinate_lsas = coordinates;
    has_coordinate_lsas = is_any coordinates;
    name_lsas = names;
    has_name_lsas = is_any names;
  }

  coordinates-IsEncodable :
      (now : ℕ) (ls : List (CoordinateLsa Name D))
      → All (λ l. l.ls_seq_no < 2 ^ 64) ls
      → All (λ l. LsaInfo.IsEncodable l.lsa_info) (map (tlv_coordinate_lsa now) ls)
  unfolding tlv_coordinate_lsa
  coordinates-IsEncodable now [] fits = tt
  coordinates-IsEncodable now (l ∷ ls) fits =
      (info-IsEncodable now l.lsa fits.0, coordinates-IsEncodable now ls fits.1)

module _ {Name D : Type 0} ⦃e : Eq Name⦄ ⦃n : NdnName Name⦄ ⦃d : Double D⦄ where
  add_adjacencies-IsEncodable :
      (l : TlvAdjacencyLsa Name) (adl : AdjacencyList Name D)
      → All (λ a. get_link_cost a < 2 ^ 64) adl
      → AdjacencyLsa.IsEncodable l
      → AdjacencyLsa.IsEncodable (add_adjacencies l adl)
  unfolding add_adjacencies add_adjacency
  add_adjacencies-IsEncodable l [] costs fits = fits
  add_adjacencies-IsEncodable l (a ∷ adl) costs fits =
      let tlv_adj : Adjacency Name = record {
        name = a.name;
        uri = a.connecting_face_uri;
        cost = get_link_cost a;
      } in
      add_adjacencies-IsEncodable (add_adjacency l tlv_adj) adl costs.1 (record {
        info = fits.info;
        costs = All-push_cost l.adjacencies tlv_adj fits.costs costs.0;
        flag = sym (is_any-push l.adjacencies tlv_adj);
      })

  -- The sequence numbers and link costs of the LSDB fit 64 bits.
  pub record IsPublishable (s : Nlsr Name D) : Type 0 where
    pub names : All (λ l. l.ls_seq_no < 2 ^ 64) s.lsdb.name_lsdb
    pub coordinates : All (λ l. l.ls_seq_no < 2 ^ 64) s.lsdb.cor_lsdb
    pub adjacencies :
        All
          (λ l. (l.ls_seq_no < 2 ^ 64) × All (λ a. get_link_cost a < 2 ^ 64) l.adl)
          s.lsdb.adj_lsdb

  adjacencies-IsEncodable :
      (now : ℕ) (ls : List (AdjLsa Name D))
      → All (λ l. (l.ls_seq_no < 2 ^ 64) × All (λ a. get_link_cost a < 2 ^ 64) l.adl) ls
      → All AdjacencyLsa.IsEncodable (map (tlv_adjacency_lsa now) ls)
  unfolding tlv_adjacency_lsa
  adjacencies-IsEncodable now [] fits = tt
  adjacencies-IsEncodable now (l ∷ ls) fits = (
    add_adjacencies-IsEncodable _ l.adl fits.0.1
        (record { info = info-IsEncodable now l.lsa fits.0.0; costs = tt; flag = refl }),
    adjacencies-IsEncodable now ls fits.1,
  )

  lsdb_status_lem :
      (s : Nlsr Name D)
      → lsdb_status s ≡ published (tlv_adjacency_lsas s) (tlv_coordinate_lsas s) (tlv_name_lsas s)
  unfolding lsdb_status new_lsdb_status
  lsdb_status_lem s =
      let coordinates : LsdbStatus Name D = record new_lsdb_status {
        adjacency_lsas = tlv_adjacency_lsas s;
        has_adjacency_lsas = is_any (tlv_adjacency_lsas s);
      } in
      let names : LsdbStatus Name D = record coordinates {
        coordinate_lsas = tlv_coordinate_lsas s;
        has_coordinate_lsas = is_any (tlv_coordinate_lsas s);
      } in
      rw
        (
          add_adjacency_lsas_lem new_lsdb_status (tlv_adjacency_lsas s) refl,
          add_coordinate_lsas_lem coordinates (tlv_coordinate_lsas s) refl,
          add_name_lsas_lem names (tlv_name_lsas s) refl,
        )
        refl

  pub published-IsEncodable :
      (s : Nlsr Name D)
      → IsPublishable s
      → LsdbStatus.IsEncodable
          (published (tlv_adjacency_lsas s) (tlv_coordinate_lsas s) (tlv_name_lsas s))
  published-IsEncodable s fits = record {
    adjacencies = adjacencies-IsEncodable s.now s.lsdb.adj_lsdb fits.adjacencies;
    coordinates = coordinates-IsEncodable s.now s.lsdb.cor_lsdb fits.coordinates;
    names = names-IsEncodable s.now s.lsdb.name_lsdb fits.names;
    adjacency_flag = refl;
    coordinate_flag = refl;
    name_flag = refl;
  }

  -- If a packet has room for two bytes, and the sequence numbers and link costs of the LSDB fit 64 bits,
  -- the contents of the segments that its status is published in, joined, are one block, which decodes to
  -- the LSDB's LSAs in their order.
  pub publish-lsdb_status :
      (w : Wire Name D) (max_ndn_packet_size : ℕ) (s : Nlsr Name D)
      → 1 < max_ndn_packet_size
      → IsPublishable s
      → let segments =
          publish max_ndn_packet_size (LsdbStatus.wire_encode w (lsdb_status s) []).0 in
        (b : Block) × (w.parse (joined segments) ≡ some (b ∷ []))
        × (LsdbStatus.wire_decode w b
            ≡ ok (published (tlv_adjacency_lsas s) (tlv_coordinate_lsas s) (tlv_name_lsas s)))
  publish-lsdb_status w max_ndn_packet_size s room fits =
      let is = lsdb_status_lem s in
      let bytes = (LsdbStatus.wire_encode w (lsdb_status s) []).0 in
      let encodable : LsdbStatus.IsEncodable (lsdb_status s) =
        rw is (published-IsEncodable s fits) in
      let (b, parsed, decoded, size) = wire_decode-wire_encode w (lsdb_status s) encodable in
      (b, ap w.parse (publish-joined max_ndn_packet_size bytes room).0 ∙ parsed, decoded ∙ ap ok is)
