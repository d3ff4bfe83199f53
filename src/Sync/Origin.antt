-- ===== src/Sync/Origin.antt =====
-- src/communication/sync-logic-handler.cpp: what other routers read from a published update's name.
use ndnproject.Prelude.{
  ==_refl, Bool-cases, Double, List, NdnName, Str, [], ap, arith, drop, false, inl, inr, length,
  nat_eq, none, refl, some, str_beq_iff, str_eq, suc, sym, take-length, zero, ℕ, ◌++◌, ◌+◌, ◌==◌,
  ◌∙◌, ◌∷◌, ◌≡◌,
}
use mathlib.Core.List.{append_assoc}
use ndnproject.Config.{Environment, Settings}
use ndnproject.Config.General.{set_network, build_router_prefix}
use ndnproject.Config.Keys.{nlsr_component, lsa_component}
use ndnproject.Sync.Names.{
  position_from, get_name_component_position, origin_router_components, get_origin_router,
  NameParts, SyncLogicHandler, build_update_prefix, create_sync_socket, publish_routing_update,
  publish_sync_update,
}

-- A component that the first part of a name does not have stands where it stands in the rest.
position_later :
    (i : ℕ) (cs ds : List Str) (wanted : Str)
    → position_from i cs wanted ≡ none
    → position_from i (cs ++ ds) wanted ≡ position_from (i + length cs) ds wanted
unfolding position_from
position_later i [] ds wanted absent = ap (λ j. position_from j ds wanted) (omega arith)
position_later i (c ∷ cs) ds wanted absent = elim (Bool-cases (wanted == c)) [
  | inl same ↦ absurd (ground arith)
  | inr other ↦ rw other (
      position_later (i + 1) cs ds wanted (ground arith)
      ∙ ap (λ j. position_from j ds wanted) (omega arith))
]

drop_two :
    (k : ℕ) (cs ds : List Str) (a b : Str) → k ≡ length cs + 2 → drop k (cs ++ a ∷ b ∷ ds) ≡ ds
drop_two zero cs ds a b h = absurd (omega arith)
drop_two (suc k) (c ∷ cs) ds a b h = drop_two k cs ds a b (omega arith)
drop_two (suc zero) [] ds a b h = absurd (omega arith)
drop_two (suc (suc zero)) [] ds a b h = refl
drop_two (suc (suc (suc k))) [] ds a b h = absurd (omega arith)

apart : (lsa_component == nlsr_component) ≡ false
apart = ground (arith, str_beq_iff lsa_component nlsr_component)

-- Where the two components stand that `setNetwork` puts behind a network that has neither.
position-nlsr :
    (network rest : List Str)
    → get_name_component_position network nlsr_component ≡ none
    → get_name_component_position (network ++ nlsr_component ∷ rest) nlsr_component
      ≡ some (length network)
unfolding get_name_component_position position_from
position-nlsr network rest absent =
    position_later 0 network (nlsr_component ∷ rest) nlsr_component absent
    ∙ rw (==_refl nlsr_component) (ap some (omega arith))

position-lsa :
    (network rest : List Str)
    → get_name_component_position network lsa_component ≡ none
    → get_name_component_position (network ++ nlsr_component ∷ lsa_component ∷ rest) lsa_component
      ≡ some (length network + 1)
unfolding get_name_component_position position_from
position-lsa network rest absent =
    position_later 0 network (nlsr_component ∷ lsa_component ∷ rest) lsa_component absent
    ∙ rw (apart, ==_refl lsa_component) (ap some (omega arith))

origin_router_components-parts :
    (network rest : List Str)
    → get_name_component_position network nlsr_component ≡ none
    → get_name_component_position network lsa_component ≡ none
    → origin_router_components (network ++ nlsr_component ∷ lsa_component ∷ rest)
      ≡ some (network ++ rest)
unfolding origin_router_components
origin_router_components-parts network rest no_nlsr no_lsa =
    rw
      (
        origin_router_components,
        position-nlsr network (lsa_component ∷ rest) no_nlsr,
        position-lsa network rest no_lsa,
        take-length network (nlsr_component ∷ lsa_component ∷ rest),
        drop_two (length network + 1 + 1) network rest nlsr_component lsa_component (omega arith),
      )
      refl

module _ {Section Name D : Type 0} ⦃n : NdnName Name⦄ ⦃d : Double D⦄ ⦃p : NameParts Name⦄
    (v : Environment Section Name D)
    (joins : (a b : Name)
      → p.components (v.append_name a b) ≡ p.components a ++ p.components b) where
  -- The components of the update prefix and of the router prefix.
  components-build_update_prefix :
      (s : Settings Section Name D) (network : Name)
      → p.components (build_update_prefix v (build_router_prefix v (set_network v s network)))
        ≡ p.components network
          ++ nlsr_component
            ∷ lsa_component
            ∷ (p.components s.site_name ++ p.components s.router_name)
  unfolding build_update_prefix build_router_prefix set_network
  components-build_update_prefix s network =
      rw
        (
          joins, joins, p.components-append, p.components-append, append_assoc, append_assoc,
          append_assoc,
        )
        refl

  components-build_router_prefix :
      (s : Settings Section Name D) (network : Name)
      → p.components (build_router_prefix v (set_network v s network)).conf.router_prefix
        ≡ p.components network ++ (p.components s.site_name ++ p.components s.router_name)
  unfolding build_router_prefix set_network
  components-build_router_prefix s network = rw (joins, joins, append_assoc) refl

  -- A router without a socket makes one and publishes a number through it under a name from which another router
  -- reads the router prefix, if the network has neither of the two components that set the name's parts
  -- apart.
  pub get_origin_router-published :
      (h : SyncLogicHandler Name) (s : Settings Section Name D) (network sync_prefix : Name)
      (seq_no : ℕ)
      → h.sync_socket ≡ none
      → get_name_component_position (p.components network) nlsr_component ≡ none
      → get_name_component_position (p.components network) lsa_component ≡ none
      → let configured = build_router_prefix v (set_network v s network) in
        let opened = create_sync_socket v h configured sync_prefix in
        (publish_routing_update opened seq_no
          ≡ some (record opened { published = (opened.update_prefix, seq_no) ∷ h.published }))
        × (get_origin_router opened.update_prefix ≡ some configured.conf.router_prefix)
  unfolding get_origin_router create_sync_socket publish_routing_update publish_sync_update
  get_origin_router-published h s network sync_prefix seq_no closed no_nlsr no_lsa =
      let configured = build_router_prefix v (set_network v s network) in
      let rest = p.components s.site_name ++ p.components s.router_name in
      (
        rw closed refl,
        rw
            (
              closed,
              get_origin_router,
              components-build_update_prefix s network,
              origin_router_components-parts (p.components network) rest no_nlsr no_lsa,
            )
            (ap (λ cs. some (p.of_components cs)) (sym (components-build_router_prefix s network))
              ∙ ap some (p.of_components_of configured.conf.router_prefix)),
      )
