-- ===== src/Hello.antt =====
-- src/hello-protocol.cpp: the INFO interests that tell which neighbors are there. The name
-- /<neighbor>/NLSR/INFO/<router> is given by its parts: the component where INFO is expected, and the
-- neighbor that the code reads from the name.
pub mod Neighbors
pub mod Timeouts
use ndnproject.Prelude.{
  Bool, Double, Eq, NdnName, Str, [], false, if◌then◌else◌, ltb, nat_eq, none, not, some, str_eq,
  true, ℕ, ◌%◌, ◌&&◌, ◌+◌, ◌-◌, ◌==◌, ◌^◌, ◌∷◌,
}
use ndnproject.Adjacency.{
  is_inactive, Adjacent, AdjacencyList, Status, active, inactive, is_active, unknown, find_adjacent,
  get_link_cost, increment_timed_out_interest_count, set_timed_out_interest_count,
  get_timed_out_interest_count, get_status_of_neighbor, set_status_of_neighbor, adjacent_name,
}
use ndnproject.Fib
use ndnproject.Fib.{
  Fib, capture, milliseconds_max, Timeout, create_and_register_prefix, register_prefix,
  set_strategy,
}
use ndnproject.Keyed.{modify}
use ndnproject.Lsdb.Adjacencies.{schedule_adj_lsa_build}
use ndnproject.Nlsr.{
  Nlsr, ask, schedule, express_info_interest, put_info_data, increment_statistic,
  send_scheduled_interest,
}
use ndnproject.Statistics.{sent_hello_interest, sent_hello_data, rcv_hello_interest, rcv_hello_data}

-- `INFO_COMPONENT`.
abbrev pub info_component : Str
info_component = b'I' ∷ b'N' ∷ b'F' ∷ b'O' ∷ []

-- The difference of two status numbers is 0.
abbrev pub same_status : Status → Status → Bool
same_status unknown unknown = true
same_status inactive inactive = true
same_status active active = true
same_status _ _ = false

module _ {Name D : Type 0} ⦃e : Eq Name⦄ ⦃n : NdnName Name⦄ ⦃d : Double D⦄ where
  unfoldable pub express_interest : Nlsr Name D → Name → ℕ → Nlsr Name D
  express_interest s neighbor seconds =
      ask (ask s (express_info_interest neighbor seconds)) (increment_statistic sent_hello_interest)

  unfoldable pub register_prefixes : Nlsr Name D → Name → Str → ℕ → Nlsr Name D
  register_prefixes s adj_name face_uri link_cost = record s {
    fib = create_and_register_prefix s.fib adj_name face_uri link_cost milliseconds_max capture 0;
  }

  -- A neighbor without a face gets one, the others an interest.
  unfoldable pub send_to : Nlsr Name D → Adjacent Name D → Nlsr Name D
  unfolding express_interest register_prefixes get_link_cost
  send_to s a =
      if not (a.face_id == 0)
      then express_interest s a.name s.conf.interest_resend_time
      else register_prefixes s a.name a.connecting_face_uri (get_link_cost a)

  -- The loop of `sendScheduledInterest`.
  unfoldable pub send_to_all : Nlsr Name D → AdjacencyList Name D → Nlsr Name D
  unfolding send_to
  send_to_all s [] = s
  send_to_all s (a ∷ adjs) = send_to_all (send_to s a) adjs

  unfoldable pub schedule_interest : Nlsr Name D → ℕ → Nlsr Name D
  unfolding schedule
  schedule_interest s seconds = (schedule s seconds send_scheduled_interest).0

  unfoldable pub send_scheduled : Nlsr Name D → Nlsr Name D
  unfolding send_to_all schedule_interest
  send_scheduled s =
      let t = send_to_all s s.adjacency_list in schedule_interest t t.conf.info_interest_interval

  -- `processInterest`, with the neighbor that the last component holds.
  unfoldable pub process_interest : Nlsr Name D → Str → Name → Nlsr Name D
  unfolding send_to find_adjacent
  process_interest s component neighbor =
      if not (component == info_component)
      then s
      else (let t = ask s (increment_statistic rcv_hello_interest) in
          elim (find_adjacent neighbor t.adjacency_list) [
            | none ↦ t
            | some a ↦
                let u =
                  ask (ask t (put_info_data neighbor)) (increment_statistic sent_hello_data) in
                if is_inactive a.status then send_to u a else u
          ])

  -- What a timeout comes to, given the neighbor's status and its new count; `none` is a neighbor
  -- that is not in the list, whose count is the uint32_t of -1.
  unfoldable pub after_timeout : Nlsr Name D → Name → Status → ℕ → Nlsr Name D
  unfolding express_interest set_status_of_neighbor schedule_adj_lsa_build
  after_timeout s neighbor status count =
      if ltb count s.conf.interest_retry_number
      then express_interest s neighbor s.conf.interest_resend_time
      else if is_active status && (count == s.conf.interest_retry_number)
      then schedule_adj_lsa_build
          (record s { adjacency_list = set_status_of_neighbor s.adjacency_list neighbor inactive })
      else s

  unfoldable pub timed_out_count : AdjacencyList Name D → Name → ℕ
  unfolding get_timed_out_interest_count
  timed_out_count l neighbor = elim (get_timed_out_interest_count l neighbor) [
    | none ↦ 2 ^ 32 - 1
    | some count ↦ count
  ]

  unfoldable pub process_interest_timed_out : Nlsr Name D → Str → Name → Nlsr Name D
  unfolding after_timeout increment_timed_out_interest_count get_status_of_neighbor timed_out_count
  process_interest_timed_out s component neighbor =
      if not (component == info_component)
      then s
      else (let adjs : AdjacencyList Name D =
            increment_timed_out_interest_count s.adjacency_list neighbor in
          after_timeout (record s { adjacency_list = adjs }) neighbor
            (get_status_of_neighbor adjs neighbor) (timed_out_count adjs neighbor))

  -- The neighbor has answered. A neighbor that is not in the list keeps the status `unknown`.
  unfoldable pub on_content_validated : Nlsr Name D → Str → Name → Nlsr Name D
  unfolding set_status_of_neighbor set_timed_out_interest_count get_status_of_neighbor
      schedule_adj_lsa_build
  on_content_validated s component neighbor =
      let t : Nlsr Name D =
        if component == info_component
        then (let old_status = get_status_of_neighbor s.adjacency_list neighbor in
            let adjs : AdjacencyList Name D =
              set_timed_out_interest_count (set_status_of_neighbor s.adjacency_list neighbor active)
                neighbor 0 in
            let u : Nlsr Name D = record s { adjacency_list = adjs } in
            if not (same_status old_status (get_status_of_neighbor adjs neighbor))
            then schedule_adj_lsa_build u
            else u)
        else s in
      ask t (increment_statistic rcv_hello_data)

  -- `Nlsr::setStrategies`.
  unfoldable pub set_strategies : Nlsr Name D → Name → Str → Nlsr Name D
  unfolding set_strategy
  set_strategies s broadcast_key_prefix strategy = record s {
    fib =
        set_strategy
          (set_strategy (set_strategy s.fib s.conf.lsa_prefix strategy 0) broadcast_key_prefix
            strategy 0)
          s.conf.chronosync_prefix strategy 0;
  }

  -- `onRegistrationSuccess`: the face of a neighbor is there.
  unfoldable pub on_registration_success :
      Nlsr Name D → ℕ → Name → Name → Str → Timeout → Nlsr Name D
  unfolding register_prefix set_strategies express_interest find_adjacent get_link_cost
  on_registration_success s face_id neighbor broadcast_key_prefix strategy timeout =
      elim (find_adjacent neighbor s.adjacency_list) [
        | none ↦ s
        | some a ↦
            let adjs : AdjacencyList Name D =
              modify adjacent_name neighbor (λ x. record x { face_id = face_id })
                s.adjacency_list in
            let register : Fib Name D → Name → Fib Name D = λ f name.
              register_prefix f adjs name a.connecting_face_uri (get_link_cost a) timeout capture
                0 in
            let t : Nlsr Name D = record s {
              adjacency_list = adjs;
              fib =
                  register (register (register s.fib s.conf.chronosync_prefix) s.conf.lsa_prefix)
                    broadcast_key_prefix;
            } in
            express_interest (set_strategies t broadcast_key_prefix strategy) neighbor
              s.conf.interest_resend_time
      ]

  -- `onRegistrationFailure`: it counts as one interest timed out.
  unfoldable pub on_registration_failure : Nlsr Name D → Name → Nlsr Name D
  unfolding schedule_adj_lsa_build find_adjacent
  on_registration_failure s name = elim (find_adjacent name s.adjacency_list) [
    | none ↦ s
    | some a ↦
        let count = (a.interest_timed_out_no + 1) % 2 ^ 32 in
        let reached = count == s.conf.interest_retry_number in
        let t : Nlsr Name D = record s {
          adjacency_list =
              modify adjacent_name name
                (λ x. record x {
                  interest_timed_out_no = count;
                  status = if reached && is_active a.status then inactive else a.status;
                })
                s.adjacency_list;
        } in
        if reached then schedule_adj_lsa_build t else t
  ]
