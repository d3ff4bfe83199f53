-- ===== src/Sync/Requests.antt =====
-- src/communication/sync-logic-handler.cpp: the LSAs that a sync update asks for.
use ndnproject.Prelude.{
  Double, Eq, NdnName, false, nat_eq, refl, some, str_eq, ℕ, ◌++◌, ◌==◌, ◌∙◌, ◌≡◌,
}
use ndnproject.Lsa.{name_type, adjacency_type, coordinate_type}
use ndnproject.Lsdb.Exchange.{highest}
use ndnproject.Lsdb.Freshness.{name_seq_no, adj_seq_no, coordinate_seq_no}
use ndnproject.Nlsr.{Nlsr}
use ndnproject.Sync.{SyncUpdate, process_update_from_sync, ask_if_new}
use ndnproject.Sync.Numbers.{
  Asks, Asks-here, ask_if_new-sent, asks_elsewhere, is_lsa_new-asked, name-is_older, adj-is_older,
  coordinate-is_older, is_older, lsa_interests, interest_if, apart_na, apart_nc, apart_ac, apart_an,
  apart_ca, apart_cn,
}

module _ {Name D : Type 0} ⦃e : Eq Name⦄ ⦃n : NdnName Name⦄ ⦃d : Double D⦄ where
  -- What an update of another router makes of the router's state. For each of the three kinds of LSA, if the LSDB
  -- has none of the other router or an older one, the update's number is compared with the highest one
  -- that was asked for under the LSA's name. The newer of the two is left there, and the interest is sent
  -- if that is the update's number. Of a kind that is not newer nothing is asked, and no other
  -- interest for an LSA is sent.
  pub record AsksForNewer (s : Nlsr Name D) (update_name r : Name) (i j k : ℕ) (after : Nlsr Name D)
      : Type 0 where
    pub name_asked :
        Asks s update_name name_type i (is_older (name_seq_no s (n.append r name_type)) i) after
    pub adj_asked :
        Asks s update_name adjacency_type j
          (is_older (adj_seq_no s (n.append r adjacency_type)) j)
          after
    pub coordinate_asked :
        Asks s update_name coordinate_type k
          (is_older (coordinate_seq_no s (n.append r coordinate_type)) k)
          after
    pub sent :
        lsa_interests after.calls
        ≡ interest_if
            (is_older (coordinate_seq_no s (n.append r coordinate_type)) k)
            (highest s.lsdb.highest_seq_no (n.append update_name coordinate_type))
            (n.append update_name coordinate_type)
            k
          ++ (interest_if
                (is_older (adj_seq_no s (n.append r adjacency_type)) j)
                (highest s.lsdb.highest_seq_no (n.append update_name adjacency_type))
                (n.append update_name adjacency_type)
                j
              ++ (interest_if
                    (is_older (name_seq_no s (n.append r name_type)) i)
                    (highest s.lsdb.highest_seq_no (n.append update_name name_type))
                    (n.append update_name name_type)
                    i
                  ++ lsa_interests s.calls))

  asks_in_turn :
      (s : Nlsr Name D) (name r : Name) (i j k : ℕ)
      → let t = ask_if_new s name r name_type i in
        let u = ask_if_new t name r adjacency_type j in
        AsksForNewer s name r i j k (ask_if_new u name r coordinate_type k)
  asks_in_turn s name r i j k =
      let t = ask_if_new s name r name_type i in
      let u = ask_if_new t name r adjacency_type j in
      let adj_new = is_lsa_new-asked s name r name_type adjacency_type i j ∙ adj-is_older s r j in
      let coordinate_new =
        is_lsa_new-asked t name r adjacency_type coordinate_type j k
        ∙ is_lsa_new-asked s name r name_type coordinate_type i k
        ∙ coordinate-is_older s r k in
      let adj_before = asks_elsewhere s name r name_type adjacency_type i apart_an in
      let coordinate_before =
        asks_elsewhere t name r adjacency_type coordinate_type j apart_ca
        ∙ asks_elsewhere s name r name_type coordinate_type i apart_cn in
      record {
        name_asked =
            asks_elsewhere u name r coordinate_type name_type k apart_nc
            ∙ asks_elsewhere t name r adjacency_type name_type j apart_na
            ∙ Asks-here s name r name_type i
            ∙ rw (name-is_older s r i) refl;
        adj_asked =
            asks_elsewhere u name r coordinate_type adjacency_type k apart_ac
            ∙ Asks-here t name r adjacency_type j
            ∙ rw (adj_new, adj_before) refl;
        coordinate_asked =
            Asks-here u name r coordinate_type k ∙ rw (coordinate_new, coordinate_before) refl;
        sent =
            rw
              (
                ask_if_new-sent u name r coordinate_type k,
                ask_if_new-sent t name r adjacency_type j,
                ask_if_new-sent s name r name_type i,
                coordinate_new,
                coordinate_before,
                adj_new,
                adj_before,
                name-is_older s r i,
              )
              refl;
      }

  -- A sync update from another router asks, for each of the three kinds of LSA, for the LSA with its
  -- number if the LSDB has none or an older one, unless a newer one was asked for before: the number is noted as
  -- the highest one asked for and the interest is sent. What was asked for of a kind that is not newer stays,
  -- and no other interest for an LSA is sent.
  pub process_update_from_sync-Asks :
      (s : Nlsr Name D) (update : SyncUpdate Name) (r : Name)
      → update.origin_router ≡ some r
      → (r == s.conf.router_prefix) ≡ false
      → let m = update.seq_manager in
        AsksForNewer s update.name r m.name_lsa_seq m.adj_lsa_seq m.cor_lsa_seq
          (process_update_from_sync s update)
  unfolding process_update_from_sync
  process_update_from_sync-Asks s update r from foreign =
      let m = update.seq_manager in
      rw (from, process_update_from_sync, foreign)
        (asks_in_turn s update.name r m.name_lsa_seq m.adj_lsa_seq m.cor_lsa_seq)
