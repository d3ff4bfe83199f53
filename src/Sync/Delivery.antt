-- ===== src/Sync/Delivery.antt =====
-- src/communication/sync-logic-handler.cpp: what a router's update makes another router ask for.
use ndnproject.Prelude.{
  Double, Eq, NdnName, [], false, nat_eq, none, str_eq, subst, ◌++◌, ◌==◌, ◌∷◌, ◌≡◌,
}
use ndnproject.Config.{Environment, Settings}
use ndnproject.Config.General.{set_network, build_router_prefix}
use ndnproject.Config.Keys.{nlsr_component, lsa_component}
use ndnproject.Nlsr.{Nlsr}
use ndnproject.Sequencing.{SequencingManager, combine_sequence_no}
use ndnproject.Sequencing.Packing.{IsPackable, split-combine}
use ndnproject.Sync.{new_sync_update}
use ndnproject.Sync.Names.{
  NameParts, SyncLogicHandler, create_sync_socket, get_origin_router, get_name_component_position,
  on_nsync_update,
}
use ndnproject.Sync.Origin.{get_origin_router-published}
use ndnproject.Sync.Requests.{AsksForNewer, process_update_from_sync-Asks}

module _ {Section Name D : Type 0} ⦃e : Eq Name⦄ ⦃n : NdnName Name⦄ ⦃d : Double D⦄
    ⦃p : NameParts Name⦄ (v : Environment Section Name D)
    (joins : (a b : Name)
      → p.components (v.append_name a b) ≡ p.components a ++ p.components b) where
  -- When the sequence numbers that another router publishes each fit their bits and arrive, this router asks,
  -- for each of the three kinds of LSA, for the LSA with the other router's own number if its LSDB has none
  -- or an older one, unless it asked for a newer one before: the number is noted as the highest one asked for
  -- and the interest is sent; no other interest for an LSA is sent. The network must have neither of the two
  -- components that set the parts of the update's name apart.
  pub on_nsync_update-published :
      (s : Nlsr Name D) (h : SyncLogicHandler Name) (t : Settings Section Name D)
      (network sync_prefix : Name) (m : SequencingManager)
      → IsPackable m
      → h.sync_socket ≡ none
      → get_name_component_position (p.components network) nlsr_component ≡ none
      → get_name_component_position (p.components network) lsa_component ≡ none
      → let configured = build_router_prefix v (set_network v t network) in
        let prefix = (create_sync_socket v h configured sync_prefix).update_prefix in
        let router = configured.conf.router_prefix in
        let seq_no = (combine_sequence_no m).combined_seq_no in
        (router == s.conf.router_prefix) ≡ false
        → AsksForNewer s prefix router m.name_lsa_seq m.adj_lsa_seq m.cor_lsa_seq
            (on_nsync_update s ((prefix, seq_no) ∷ []))
  unfolding on_nsync_update new_sync_update combine_sequence_no
  on_nsync_update-published s h t network sync_prefix m fits closed no_nlsr no_lsa foreign =
      let configured = build_router_prefix v (set_network v t network) in
      let prefix = (create_sync_socket v h configured sync_prefix).update_prefix in
      let router = configured.conf.router_prefix in
      let seq_no = (combine_sequence_no m).combined_seq_no in
      let after = on_nsync_update s ((prefix, seq_no) ∷ []) in
      let (_, origin) =
        get_origin_router-published v joins h t network sync_prefix seq_no closed no_nlsr no_lsa in
      subst
        (λ (k : SequencingManager).
          AsksForNewer s prefix router k.name_lsa_seq k.adj_lsa_seq k.cor_lsa_seq after)
        (split-combine m fits)
        (process_update_from_sync-Asks s (new_sync_update prefix (get_origin_router prefix) seq_no)
          router origin foreign)
