-- ===== src/Sync/Names.antt =====
-- src/communication/sync-logic-handler.cpp, src/utility/name-helper.hpp: the names of sync updates, the socket
-- that they are published through, and the updates that arrive.
use ndnproject.Prelude.{
  Double, Eq, List, NdnName, Option, Str, [], drop, if◌then◌else◌, nat_eq, none, some, str_eq, take,
  ℕ, ◌++◌, ◌+◌, ◌==◌, ◌∷◌, ◌≡◌,
}
use ndnproject.Config.{Environment, Settings}
use ndnproject.Config.Keys.{nlsr_component, lsa_component}
use ndnproject.Nlsr.{Nlsr}
use ndnproject.Sync.{new_sync_update, process_update_from_sync}

-- The components of a name, beside what `NdnName` has: a name is the list of them, and `append` adds one.
pub record NameParts (Name : Type 0) ⦃n : NdnName Name⦄ : Type 0 where
  pub components : Name → List Str
  pub of_components : List Str → Name
  pub components_of : (cs : List Str) → components (of_components cs) ≡ cs
  pub of_components_of : (a : Name) → of_components (components a) ≡ a
  pub components-append : (a : Name) (s : Str) → components (n.append a s) ≡ components a ++ s ∷ []

-- The loop of `getNameComponentPosition`.
unfoldable pub position_from : ℕ → List Str → Str → Option ℕ
position_from i [] wanted = none
position_from i (c ∷ cs) wanted =
    let later = position_from (i + 1) cs wanted in if wanted == c then some i else later

-- `none` is -1.
unfoldable pub get_name_component_position : List Str → Str → Option ℕ
unfolding position_from
get_name_component_position = position_from 0

-- The socket is known by its prefix; what is published through it is a name and a number.
pub record SyncLogicHandler (Name : Type 0) : Type 0 where
  pub sync_prefix : Name
  pub update_prefix : Name
  pub sync_socket : Option Name
  pub published : List (Name × ℕ)

-- What `getOriginRouter` leaves of a name's components, with `none` for the exception.
unfoldable pub origin_router_components : List Str → Option (List Str)
origin_router_components cs = elim (get_name_component_position cs nlsr_component) [
  | none ↦ none
  | some nlsr_position ↦ elim (get_name_component_position cs lsa_component) [
    | none ↦ none
    | some lsa_position ↦ some (take nlsr_position cs ++ drop (lsa_position + 1) cs)
  ]
]

module _ {Name : Type 0} ⦃n : NdnName Name⦄ ⦃p : NameParts Name⦄ where
  unfoldable pub named : Option (List Str) → Option Name
  named none = none
  named (some origin_router) = some (p.of_components origin_router)

  unfoldable pub get_origin_router : Name → Option Name
  unfolding named origin_router_components
  get_origin_router name = named (origin_router_components (p.components name))

module _ {Section Name D : Type 0} (v : Environment Section Name D) where
  unfoldable pub build_update_prefix : Settings Section Name D → Name
  build_update_prefix s = v.append_name (v.append_name s.conf.lsa_prefix s.site_name) s.router_name

  -- A second socket is not made.
  unfoldable pub create_sync_socket :
      SyncLogicHandler Name → Settings Section Name D → Name → SyncLogicHandler Name
  unfolding build_update_prefix
  create_sync_socket h s sync_prefix = elim h.sync_socket [
    | some _ ↦ h
    | none ↦ record h {
      sync_prefix = sync_prefix;
      update_prefix = build_update_prefix s;
      sync_socket = some sync_prefix;
    }
  ]

module _ {Name : Type 0} where
  unfoldable pub publish_sync_update : SyncLogicHandler Name → Name → ℕ → SyncLogicHandler Name
  publish_sync_update h update_prefix seq_no = record h {
    published = (update_prefix, seq_no) ∷ h.published;
  }

  -- `none` is the exception. The numbers are packed, and written to their file, by the sequence manager.
  unfoldable pub publish_routing_update : SyncLogicHandler Name → ℕ → Option (SyncLogicHandler Name)
  unfolding publish_sync_update
  publish_routing_update h combined_seq_no = elim h.sync_socket [
    | none ↦ none
    | some _ ↦ some (publish_sync_update h h.update_prefix combined_seq_no)
  ]

module _ {Name D : Type 0} ⦃e : Eq Name⦄ ⦃n : NdnName Name⦄ ⦃p : NameParts Name⦄
    ⦃d : Double D⦄ where
  -- The missing data, each with its prefix and its highest number.
  unfoldable pub on_nsync_update : Nlsr Name D → List (Name × ℕ) → Nlsr Name D
  unfolding get_origin_router new_sync_update process_update_from_sync
  on_nsync_update s [] = s
  on_nsync_update s ((prefix, seq_no) ∷ v) =
      on_nsync_update
        (process_update_from_sync s (new_sync_update prefix (get_origin_router prefix) seq_no)) v
