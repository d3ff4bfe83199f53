-- ===== src/Runs/Untouching.antt =====
-- The handlers that change neither the name prefix table, nor the FIB's entries, nor the parameters.
use ndnproject.Prelude.{
  Bool, Bool-cases, Double, Eq, NdnName, Option, Option-cases, Str, [], false, if◌then◌else◌, inl,
  inr, ltb, nat_eq, none, refl, some, str_eq, true, ℕ, ◌&&◌, ◌==◌, ◌∙◌, ◌∷◌, ◌≡◌,
}
use ndnproject.Adjacency.{
  is_inactive, Adjacent, AdjacencyList, Status, is_active, find_adjacent, find_adjacent_by_face_id,
  get_face_id,
}
use ndnproject.Fib.{
  Fib, Timeout, create_and_register_prefix, register_prefix, set_strategy, RouteFlags,
}
use ndnproject.Hello
use ndnproject.Hello.{
  send_to, send_to_all, send_scheduled, schedule_interest, express_interest, register_prefixes,
  after_timeout, process_interest_timed_out, on_content_validated, set_strategies,
  on_registration_success, on_registration_failure, info_component, same_status,
}
use ndnproject.Lsdb.Adjacencies.{schedule_adj_lsa_build, find_adj_lsa}
use ndnproject.Lsdb.Agreement.{Untouched}
use ndnproject.Lsdb.Coordinates.{find_coordinate_lsa}
use ndnproject.Lsdb.Messages
use ndnproject.Lsdb.Messages.{
  process_interest_for_name_lsa, process_interest_for_adjacency_lsa,
  process_interest_for_coordinate_lsa,
}
use ndnproject.Lsdb.Names.{find_name_lsa}
use ndnproject.Lsa.{name_type, adjacency_type, coordinate_type}
use ndnproject.Nlsr.{Nlsr, schedule}
use ndnproject.Nlsr.Events.{on_face_destroyed}

module _ {Name D : Type 0} ⦃e : Eq Name⦄ ⦃n : NdnName Name⦄ ⦃d : Double D⦄ where
  Untouched-trans : (s t u : Nlsr Name D) → Untouched s t → Untouched t u → Untouched s u
  Untouched-trans s t u (a, b, c) (a', b', c') = (a' ∙ a, b' ∙ b, c' ∙ c)

  build-Untouched : (s : Nlsr Name D) → Untouched s (schedule_adj_lsa_build s)
  unfolding schedule_adj_lsa_build schedule
  build-Untouched s = elim (Bool-cases s.is_build_adj_lsa_scheduled) [
    | inl set ↦ rw (set, schedule_adj_lsa_build) (refl, refl, refl)
    | inr unset ↦ rw (unset, schedule_adj_lsa_build) (refl, refl, refl)
  ]

  send_to-Untouched : (s : Nlsr Name D) (a : Adjacent Name D) → Untouched s (send_to s a)
  unfolding send_to express_interest register_prefixes create_and_register_prefix
  send_to-Untouched s a = elim (Bool-cases (a.face_id == 0)) [
    | inl no_face ↦ rw (no_face, send_to) (refl, refl, refl)
    | inr face ↦ rw (face, send_to) (refl, refl, refl)
  ]

  send_to_all-Untouched :
      (s : Nlsr Name D) (l : AdjacencyList Name D) → Untouched s (send_to_all s l)
  unfolding send_to_all
  send_to_all-Untouched s [] = (refl, refl, refl)
  send_to_all-Untouched s (a ∷ l) =
      Untouched-trans s (send_to s a) (send_to_all (send_to s a) l) (send_to-Untouched s a)
        (send_to_all-Untouched (send_to s a) l)

  pub send_scheduled-Untouched : (s : Nlsr Name D) → Untouched s (send_scheduled s)
  unfolding send_scheduled schedule_interest schedule
  send_scheduled-Untouched s = send_to_all-Untouched s s.adjacency_list

  pub hello_asked-Untouched :
      (s : Nlsr Name D) (component : Str) (neighbor : Name)
      → Untouched s (Hello.process_interest s component neighbor)
  unfolding Hello.process_interest
  hello_asked-Untouched s component neighbor = elim (Bool-cases (component == info_component)) [
    | inr other ↦ rw (other, Hello.process_interest) (refl, refl, refl)
    | inl info ↦ elim (Option-cases (find_adjacent neighbor s.adjacency_list)) [
      | inl miss ↦ rw (info, Hello.process_interest, miss) (refl, refl, refl)
      | inr (a, hit) ↦ elim (Bool-cases (is_inactive a.status)) [
        | inl down ↦ rw (info, Hello.process_interest, hit, down) (send_to-Untouched _ a)
        | inr up ↦ rw (info, Hello.process_interest, hit, up) (refl, refl, refl)
      ]
    ]
  ]

  after_timeout-Untouched :
      (s : Nlsr Name D) (neighbor : Name) (status : Status) (count : ℕ)
      → Untouched s (after_timeout s neighbor status count)
  unfolding after_timeout express_interest
  after_timeout-Untouched s neighbor status count =
      elim (Bool-cases (ltb count s.conf.interest_retry_number)) [
        | inl early ↦ rw (early, after_timeout) (refl, refl, refl)
        | inr late ↦ elim (Bool-cases (is_active status && count == s.conf.interest_retry_number)) [
          | inl dead ↦ rw (late, after_timeout, dead) (build-Untouched _)
          | inr other ↦ rw (late, after_timeout, other) (refl, refl, refl)
        ]
      ]

  pub hello_timed_out-Untouched :
      (s : Nlsr Name D) (component : Str) (neighbor : Name)
      → Untouched s (process_interest_timed_out s component neighbor)
  unfolding process_interest_timed_out
  hello_timed_out-Untouched s component neighbor = elim (Bool-cases (component == info_component)) [
    | inr other ↦ rw (other, process_interest_timed_out) (refl, refl, refl)
    | inl info ↦ rw (info, process_interest_timed_out) (after_timeout-Untouched _ neighbor _ _)
  ]

  if_build-Untouched :
      (s : Nlsr Name D) (b : Bool) → Untouched s (if b then schedule_adj_lsa_build s else s)
  if_build-Untouched s true = build-Untouched s
  if_build-Untouched s false = (refl, refl, refl)

  pub hello_answered-Untouched :
      (s : Nlsr Name D) (component : Str) (neighbor : Name)
      → Untouched s (on_content_validated s component neighbor)
  unfolding on_content_validated
  hello_answered-Untouched s component neighbor = elim (Bool-cases (component == info_component)) [
    | inr other ↦ rw (other, on_content_validated) (refl, refl, refl)
    | inl info ↦ rw (info, on_content_validated) (if_build-Untouched _ _)
  ]

  register-table :
      (f : Fib Name D) (adjs : AdjacencyList Name D) (name : Name) (uri : Str) (cost : ℕ)
      (timeout : Timeout) (flags : RouteFlags) (times : ℕ)
      → (register_prefix f adjs name uri cost timeout flags times).table ≡ f.table
  unfolding register_prefix
  register-table f adjs name uri cost timeout flags times =
      elim (Bool-cases (get_face_id adjs uri == 0)) [
        | inl no_face ↦ rw (no_face, register_prefix) refl
        | inr face ↦ rw (face, register_prefix) refl
      ]

  pub face_created-Untouched :
      (s : Nlsr Name D) (face_id : ℕ) (neighbor keys : Name) (strategy : Str) (timeout : Timeout)
      → Untouched s (on_registration_success s face_id neighbor keys strategy timeout)
  unfolding on_registration_success set_strategies set_strategy express_interest
  face_created-Untouched s face_id neighbor keys strategy timeout =
      elim (Option-cases (find_adjacent neighbor s.adjacency_list)) [
        | inl miss ↦ rw (miss, on_registration_success) (refl, refl, refl)
        | inr (a, hit) ↦
            rw (hit, on_registration_success)
              (refl, refl, rw (register-table, register-table, register-table) refl)
      ]

  pub face_refused-Untouched :
      (s : Nlsr Name D) (name : Name) → Untouched s (on_registration_failure s name)
  unfolding on_registration_failure
  face_refused-Untouched s name = elim (Option-cases (find_adjacent name s.adjacency_list)) [
    | inl miss ↦ rw (miss, on_registration_failure) (refl, refl, refl)
    | inr (a, hit) ↦ rw (hit, on_registration_failure) (if_build-Untouched _ _)
  ]

  pub face_destroyed-Untouched :
      (s : Nlsr Name D) (face_id : ℕ) → Untouched s (on_face_destroyed s face_id)
  unfolding on_face_destroyed
  face_destroyed-Untouched s face_id =
      elim (Option-cases (find_adjacent_by_face_id face_id s.adjacency_list)) [
        | inl miss ↦ rw (miss, on_face_destroyed) (refl, refl, refl)
        | inr (a, hit) ↦ rw (hit, on_face_destroyed) (if_build-Untouched _ _)
      ]

  asked_name-Untouched :
      (s : Nlsr Name D) (key : Name) (seq_no : ℕ)
      → Untouched s (process_interest_for_name_lsa s key seq_no)
  unfolding process_interest_for_name_lsa
  asked_name-Untouched s key seq_no = elim (Option-cases (find_name_lsa s key)) [
    | inl miss ↦ rw (miss, process_interest_for_name_lsa) (refl, refl, refl)
    | inr (l, hit) ↦ elim (Bool-cases (l.ls_seq_no == seq_no)) [
      | inl same ↦ rw (hit, process_interest_for_name_lsa, same) (refl, refl, refl)
      | inr other ↦ rw (hit, process_interest_for_name_lsa, other) (refl, refl, refl)
    ]
  ]

  asked_adjacency-Untouched :
      (s : Nlsr Name D) (key : Name) (seq_no : ℕ)
      → Untouched s (process_interest_for_adjacency_lsa s key seq_no)
  unfolding process_interest_for_adjacency_lsa
  asked_adjacency-Untouched s key seq_no = elim (Option-cases (find_adj_lsa s key)) [
    | inl miss ↦ rw (miss, process_interest_for_adjacency_lsa) (refl, refl, refl)
    | inr (l, hit) ↦ elim (Bool-cases (l.ls_seq_no == seq_no)) [
      | inl same ↦ rw (hit, process_interest_for_adjacency_lsa, same) (refl, refl, refl)
      | inr other ↦ rw (hit, process_interest_for_adjacency_lsa, other) (refl, refl, refl)
    ]
  ]

  asked_coordinate-Untouched :
      (s : Nlsr Name D) (key : Name) (seq_no : ℕ)
      → Untouched s (process_interest_for_coordinate_lsa s key seq_no)
  unfolding process_interest_for_coordinate_lsa
  asked_coordinate-Untouched s key seq_no = elim (Option-cases (find_coordinate_lsa s key)) [
    | inl miss ↦ rw (miss, process_interest_for_coordinate_lsa) (refl, refl, refl)
    | inr (l, hit) ↦ elim (Bool-cases (l.ls_seq_no == seq_no)) [
      | inl same ↦ rw (hit, process_interest_for_coordinate_lsa, same) (refl, refl, refl)
      | inr other ↦ rw (hit, process_interest_for_coordinate_lsa, other) (refl, refl, refl)
    ]
  ]

  pub lsa_asked-Untouched :
      (s : Nlsr Name D) (origin_router : Option Name) (ls_type : Str) (seq_no : ℕ)
      → Untouched s (Messages.process_interest s origin_router ls_type seq_no)
  unfolding Messages.process_interest
  lsa_asked-Untouched s none ls_type seq_no = (refl, refl, refl)
  lsa_asked-Untouched s (some r) ls_type seq_no = elim (Bool-cases (ls_type == name_type)) [
    | inl is_name ↦ rw (is_name, Messages.process_interest) (asked_name-Untouched _ _ seq_no)
    | inr not_name ↦ elim (Bool-cases (ls_type == adjacency_type)) [
      | inl is_adj ↦
          rw (not_name, Messages.process_interest, is_adj) (asked_adjacency-Untouched _ _ seq_no)
      | inr not_adj ↦ elim (Bool-cases (ls_type == coordinate_type)) [
        | inl is_cor ↦
            rw (not_name, Messages.process_interest, not_adj, is_cor)
              (asked_coordinate-Untouched _ _ seq_no)
        | inr not_cor ↦
            rw (not_name, Messages.process_interest, not_adj, not_cor) (refl, refl, refl)
      ]
    ]
  ]
