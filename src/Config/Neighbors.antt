-- ===== src/Config/Neighbors.antt =====
-- src/conf-file-processor.cpp: the section `neighbors`.
use ndnproject.Prelude.{
  Bool, Double, Eq, List, NdnName, Str, [], false, if◌then◌else◌, nat_eq, str_eq, true, ◌==◌, ◌∷◌,
}
use ndnproject.Adjacency
use ndnproject.Adjacency.{Adjacent, inactive}
use ndnproject.Config.{
  set_adj_lsa_build_interval, set_first_hello_interval, set_interest_retry_number,
  set_interest_resend_time, set_info_interest_interval, Environment, Settings, pos, ◌then◌,
  required, get_or, within, int_within, as_uint32, parse_optional,
}
use ndnproject.Config.Keys.{
  hello_retries_key, hello_timeout_key, hello_interval_key, adj_lsa_build_interval_key,
  first_hello_interval_key, neighbor_key, name_key, face_uri_key, link_cost_key,
}

module _ {Section Name D : Type 0} ⦃e : Eq Name⦄ ⦃n : NdnName Name⦄ ⦃d : Double D⦄
    (v : Environment Section Name D) where
  abbrev State : Type 0
  State = Settings Section Name D

  unfoldable pub process_hello_retries : Section → State → State × Bool
  process_hello_retries section s =
      let retrials = get_or (v.get_int section hello_retries_key) (pos 3) in
      if int_within 1 15 retrials
      then (set_interest_retry_number s (as_uint32 retrials), true)
      else (s, false)

  unfoldable pub process_hello_timeout : Section → State → State × Bool
  process_hello_timeout section s =
      let time_out = get_or (v.get_uint32 section hello_timeout_key) 3 in
      if within 1 15 time_out then (set_interest_resend_time s time_out, true) else (s, false)

  unfoldable pub process_hello_interval : Section → State → State × Bool
  process_hello_interval section s =
      let interval = get_or (v.get_uint32 section hello_interval_key) 60 in
      if within 30 90 interval then (set_info_interest_interval s interval, true) else (s, false)

  -- One `neighbor`. An empty name is reported, and skipped.
  unfoldable pub process_neighbor : Section → State → State × Bool
  unfolding Adjacency.insert
  process_neighbor section s = required (v.get_string section name_key) s λ name.
      required (v.get_string section face_uri_key) s λ face_uri.
        if v.parses_face_uri face_uri
        then required (v.of_uri name) s (λ neighbor_name.
          if n.size neighbor_name == 0 then (s, true) else (
            record s {
              adjacency_list =
                  (Adjacency.insert s.adjacency_list (record {
                    name = neighbor_name;
                    connecting_face_uri = face_uri;
                    link_cost = get_or (v.get_double section link_cost_key) (d.of_ℕ 10);
                    status = inactive;
                    interest_timed_out_no = 0;
                    face_id = 0;
                  })).0;
            },
            true,
          ))
        else (s, false)

  unfoldable pub process_neighbor_list : List (Str × Section) → State → State × Bool
  unfolding process_neighbor
  process_neighbor_list [] s = (s, true)
  process_neighbor_list ((key, section) ∷ entries) s =
      (if key == neighbor_key then process_neighbor section s else (s, true))
      then process_neighbor_list entries

  unfoldable pub process_neighbors : Section → State → State × Bool
  unfolding process_hello_retries process_hello_timeout process_hello_interval parse_optional
      process_neighbor_list
  process_neighbors section s =
      process_hello_retries section s
      then process_hello_timeout section
      then process_hello_interval section
      then (λ s.
          parse_optional (v.get_uint32 section adj_lsa_build_interval_key) 0 10 5 s
            set_adj_lsa_build_interval)
      then (λ s.
          parse_optional (v.get_uint32 section first_hello_interval_key) 0 20 10 s
            set_first_hello_interval)
      then process_neighbor_list (v.entries section)
