-- ===== src/Lsdb/Messages.antt =====
-- src/lsdb.cpp: the exchange of LSAs with other routers. A name of an LSA interest is its prefix and
-- its last component, the sequence number; content is given as the LSA that it decodes to, or
-- `none` if it cannot be decoded. The steady clock is the field `now` too; a deadline that is still
-- to be set is `none`.
use ndnproject.Prelude.{
  Bool, Double, Eq, List, NdnName, Option, Str, [], false, if◌then◌else◌, ltb, nat_eq, none, some,
  str_eq, true, ℕ, ◌%◌, ◌++◌, ◌+◌, ◌==◌, ◌^◌, ◌∷◌,
}
use ndnproject.Keyed.{find, modify}
use ndnproject.Lsa.{NameLsa, AdjLsa, CoordinateLsa, name_type, adjacency_type, coordinate_type}
use ndnproject.Lsdb.Adjacencies.{find_adj_lsa, is_adj_lsa_new, install_adj_lsa, does_adj_lsa_exist}
use ndnproject.Lsdb.Coordinates.{
  find_coordinate_lsa, is_coordinate_lsa_new, install_coordinate_lsa, does_coordinate_lsa_exist,
}
use ndnproject.Lsdb.Names.{find_name_lsa, is_name_lsa_new, install_name_lsa, does_name_lsa_exist}
use ndnproject.Nlsr.{
  Nlsr, ask, express_lsa_interest, put_lsa_data, retry_content_validation, schedule,
  increment_statistic,
}
use ndnproject.Statistics.{
  sent_lsa_interest, sent_name_lsa_interest, sent_adj_lsa_interest, sent_coord_lsa_interest,
  sent_name_lsa_data, sent_adj_lsa_data, sent_coord_lsa_data, rcv_lsa_interest,
  rcv_name_lsa_interest, rcv_adj_lsa_interest, rcv_coord_lsa_interest, rcv_name_lsa_data,
  rcv_adj_lsa_data, rcv_coord_lsa_data,
}

-- An entry of `m_highestSeqNo`.
abbrev pub highest_name : {Name : Type 0} → Name × ℕ → Name
highest_name entry = entry.0

-- `LSA_REFRESH_TIME_MAX`, in seconds.
abbrev pub lsa_refresh_time_max : ℕ
lsa_refresh_time_max = 7200

-- When an interest is given up: at the deadline, or, if it has none yet, after the longest time.
unfoldable pub retrieval_deadline : ℕ → Option ℕ → ℕ
retrieval_deadline now none = now + lsa_refresh_time_max
retrieval_deadline now (some t) = t

module _ {Name : Type 0} ⦃e : Eq Name⦄ where
  -- The map after `expressInterest` has looked at it, and whether the interest is sent.
  unfoldable pub note_seq_no : List (Name × ℕ) → Name → ℕ → List (Name × ℕ) × Bool
  note_seq_no m lsa_name seq_no = elim (find highest_name lsa_name m) [
    | none ↦ (m ++ (lsa_name, seq_no) ∷ [], true)
    | some highest ↦
        if ltb highest.1 seq_no
        then (modify highest_name lsa_name (λ x. (x.0, seq_no)) m, true)
        else if ltb seq_no highest.1
        then (m, false)
        else (m, true)
  ]

module _ {Name D : Type 0} ⦃e : Eq Name⦄ ⦃n : NdnName Name⦄ ⦃d : Double D⦄ where
  unfoldable pub count_sent_lsa_interest : Str → Nlsr Name D → Nlsr Name D
  count_sent_lsa_interest ls_type s =
      if ls_type == name_type
      then ask s (increment_statistic sent_name_lsa_interest)
      else if ls_type == adjacency_type
      then ask s (increment_statistic sent_adj_lsa_interest)
      else if ls_type == coordinate_type
      then ask s (increment_statistic sent_coord_lsa_interest)
      else s

  -- `ls_type` is the component before the sequence number, the last one of `lsa_name`.
  unfoldable pub express_interest : Nlsr Name D → Name → Str → ℕ → ℕ → Option ℕ → Nlsr Name D
  unfolding note_seq_no retrieval_deadline count_sent_lsa_interest
  express_interest s lsa_name ls_type seq_no timeout_count deadline =
      let until = retrieval_deadline s.now deadline in
      let (m, sent) = note_seq_no s.lsdb.highest_seq_no lsa_name seq_no in
      let t : Nlsr Name D = record s { lsdb = record (s.lsdb) { highest_seq_no = m } } in
      if sent
      then ask
          (count_sent_lsa_interest ls_type
            (ask t (express_lsa_interest lsa_name seq_no timeout_count until)))
          (increment_statistic sent_lsa_interest)
      else t

  -- The interest is the latest one for its name.
  unfoldable pub is_latest : Nlsr Name D → Name → ℕ → Bool
  is_latest s lsa_name seq_no = elim (find highest_name lsa_name s.lsdb.highest_seq_no) [
    | none ↦ false
    | some highest ↦ highest.1 == seq_no
  ]

  unfoldable pub process_interest_timed_out : Nlsr Name D → ℕ → ℕ → Name → Str → ℕ → Nlsr Name D
  unfolding express_interest is_latest
  process_interest_timed_out s retransmit_no deadline lsa_name ls_type seq_no =
      if ltb s.now deadline
      then (if is_latest s lsa_name seq_no
          then express_interest s lsa_name ls_type seq_no ((retransmit_no + 1) % 2 ^ 32)
              (some deadline)
          else s)
      else s

  unfoldable pub on_content_validation_failed : Nlsr Name D → ℕ → Name → ℕ → Nlsr Name D
  unfolding is_latest schedule
  on_content_validation_failed s deadline lsa_name seq_no =
      if ltb (s.now + s.conf.lsa_interest_lifetime) deadline
      then (if is_latest s lsa_name seq_no
          then (schedule s s.conf.lsa_interest_lifetime
              (retry_content_validation lsa_name seq_no)).0
          else s)
      else s

  unfoldable pub process_content_name_lsa :
      Nlsr Name D → Name → ℕ → Option (NameLsa Name) → Nlsr Name D
  unfolding is_name_lsa_new install_name_lsa
  process_content_name_lsa s lsa_key ls_seq_no content =
      if is_name_lsa_new s lsa_key ls_seq_no
      then elim content [ some nlsa ↦ install_name_lsa s nlsa | none ↦ s ]
      else s

  unfoldable pub process_content_adjacency_lsa :
      Nlsr Name D → Name → ℕ → Option (AdjLsa Name D) → Nlsr Name D
  unfolding is_adj_lsa_new install_adj_lsa
  process_content_adjacency_lsa s lsa_key ls_seq_no content =
      if is_adj_lsa_new s lsa_key ls_seq_no
      then elim content [ some alsa ↦ install_adj_lsa s alsa | none ↦ s ]
      else s

  unfoldable pub process_content_coordinate_lsa :
      Nlsr Name D → Name → ℕ → Option (CoordinateLsa Name D) → Nlsr Name D
  unfolding is_coordinate_lsa_new install_coordinate_lsa
  process_content_coordinate_lsa s lsa_key ls_seq_no content =
      if is_coordinate_lsa_new s lsa_key ls_seq_no
      then elim content [ some clsa ↦ install_coordinate_lsa s clsa | none ↦ s ]
      else s

  -- `processInterestForNameLsa` and its two siblings.
  unfoldable pub process_interest_for_name_lsa : Nlsr Name D → Name → ℕ → Nlsr Name D
  unfolding find_name_lsa
  process_interest_for_name_lsa s lsa_key seq_no = elim (find_name_lsa s lsa_key) [
    | none ↦ s
    | some l ↦
        if l.ls_seq_no == seq_no
        then ask (ask s (put_lsa_data lsa_key seq_no)) (increment_statistic sent_name_lsa_data)
        else s
  ]

  unfoldable pub process_interest_for_adjacency_lsa : Nlsr Name D → Name → ℕ → Nlsr Name D
  unfolding find_adj_lsa
  process_interest_for_adjacency_lsa s lsa_key seq_no = elim (find_adj_lsa s lsa_key) [
    | none ↦ s
    | some l ↦
        if l.ls_seq_no == seq_no
        then ask (ask s (put_lsa_data lsa_key seq_no)) (increment_statistic sent_adj_lsa_data)
        else s
  ]

  unfoldable pub process_interest_for_coordinate_lsa : Nlsr Name D → Name → ℕ → Nlsr Name D
  unfolding find_coordinate_lsa
  process_interest_for_coordinate_lsa s lsa_key seq_no = elim (find_coordinate_lsa s lsa_key) [
    | none ↦ s
    | some l ↦
        if l.ls_seq_no == seq_no
        then ask (ask s (put_lsa_data lsa_key seq_no)) (increment_statistic sent_coord_lsa_data)
        else s
  ]

  -- `processInterest`: `origin_router` is the network with what follows the component `LSA` of the
  -- name, `none` if it has no such component.
  unfoldable pub process_interest : Nlsr Name D → Option Name → Str → ℕ → Nlsr Name D
  unfolding process_interest_for_name_lsa process_interest_for_adjacency_lsa
      process_interest_for_coordinate_lsa
  process_interest s none ls_type seq_no = ask s (increment_statistic rcv_lsa_interest)
  process_interest s (some origin_router) ls_type seq_no =
      let t = ask s (increment_statistic rcv_lsa_interest) in
      let lsa_key = n.append origin_router ls_type in
      if ls_type == name_type
      then ask (process_interest_for_name_lsa t lsa_key seq_no)
          (increment_statistic rcv_name_lsa_interest)
      else if ls_type == adjacency_type
      then ask (process_interest_for_adjacency_lsa t lsa_key seq_no)
          (increment_statistic rcv_adj_lsa_interest)
      else if ls_type == coordinate_type
      then ask (process_interest_for_coordinate_lsa t lsa_key seq_no)
          (increment_statistic rcv_coord_lsa_interest)
      else t

  -- `onContentValidated`: what the content decodes to under each of the three types.
  unfoldable pub on_content_validated :
      Nlsr Name D
      → Option Name
      → Str
      → ℕ
      → Option (NameLsa Name)
      → Option (AdjLsa Name D)
      → Option (CoordinateLsa Name D)
      → Nlsr Name D
  unfolding process_content_name_lsa process_content_adjacency_lsa process_content_coordinate_lsa
  on_content_validated s none ls_type seq_no nlsa alsa clsa = s
  on_content_validated s (some origin_router) ls_type seq_no nlsa alsa clsa =
      let lsa_key = n.append origin_router ls_type in
      if ls_type == name_type
      then ask (process_content_name_lsa s lsa_key seq_no nlsa)
          (increment_statistic rcv_name_lsa_data)
      else if ls_type == adjacency_type
      then ask (process_content_adjacency_lsa s lsa_key seq_no alsa)
          (increment_statistic rcv_adj_lsa_data)
      else if ls_type == coordinate_type
      then ask (process_content_coordinate_lsa s lsa_key seq_no clsa)
          (increment_statistic rcv_coord_lsa_data)
      else s

  unfoldable pub does_lsa_exist : Nlsr Name D → Name → Str → Bool
  unfolding does_name_lsa_exist does_adj_lsa_exist does_coordinate_lsa_exist
  does_lsa_exist s key ls_type =
      if ls_type == name_type
      then does_name_lsa_exist s key
      else if ls_type == adjacency_type
      then does_adj_lsa_exist s key
      else if ls_type == coordinate_type
      then does_coordinate_lsa_exist s key
      else false
