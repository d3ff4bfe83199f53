-- ===== src/Config/Bounds/Others.antt =====
-- src/conf-file-processor.cpp: the other sections leave the parameters in their ranges.
use ndnproject.Prelude.{
  Double, Eq, List, NdnName, Option-cases, Str, [], arith, inl, inr, nat_eq, not, str_eq, ◌==◌,
  ◌||◌, ◌∷◌,
}
use ndnproject.Config.{
  set_interest_retry_number, set_interest_resend_time, set_info_interest_interval,
  set_adj_lsa_build_interval, set_first_hello_interval, set_max_faces_per_prefix,
  set_routing_calc_interval, set_hyperbolic_state, Environment, Settings, pos, get_or, within,
  int_within, as_uint32, parse_optional,
}
use ndnproject.Config.Keys.{
  hello_retries_key, hello_timeout_key, hello_interval_key, adj_lsa_build_interval_key,
  first_hello_interval_key, neighbor_key, name_key, face_uri_key, max_faces_per_prefix_key,
  routing_calc_interval_key, radius_key, angle_key, state_key, off_text, on_text, dry_run_text,
  validator_key, prefix_update_validator_key, cert_to_publish_key, prefix_key,
}
use ndnproject.Config.Neighbors.{
  process_hello_retries, process_hello_timeout, process_hello_interval, process_neighbor,
  process_neighbor_list, process_neighbors,
}
use ndnproject.Config.Sections.{
  hyperbolic_state_of, set_cor_r, process_coordinates, process_hyperbolic, process_max_faces,
  process_fib, process_prefix, process_prefixes, process_advertising, process_certificates,
  process_update_validator, process_security,
}
use ndnproject.Config.Bounds.{
  AreInRange, Keeps, Leaves, chain, refused, kept, required-Leaves, if-Leaves, tested-Leaves,
  parse_optional-Leaves, int_within-Within,
}

module _ {Section Name D : Type 0} ⦃e : Eq Name⦄ ⦃n : NdnName Name⦄ ⦃d : Double D⦄
    (v : Environment Section Name D) where
  abbrev State : Type 0
  State = Settings Section Name D

  process_hello_retries-Keeps :
      (section : Section) (s : State) → AreInRange s → Keeps (process_hello_retries v section s)
  unfolding process_hello_retries
  process_hello_retries-Keeps section s fits =
      let retrials = get_or (v.get_int section hello_retries_key) (pos 3) in
      tested-Leaves AreInRange (int_within 1 15 retrials)
        (set_interest_retry_number s (as_uint32 retrials)) s
        λ h. (
          fits.0,
          fits.1,
          int_within-Within 1 15 retrials h,
          fits.3,
          fits.4,
          fits.5,
          fits.6,
          fits.7,
          fits.8,
          fits.9,
        )

  process_hello_timeout-Keeps :
      (section : Section) (s : State) → AreInRange s → Keeps (process_hello_timeout v section s)
  unfolding process_hello_timeout
  process_hello_timeout-Keeps section s fits =
      let time_out = get_or (v.get_uint32 section hello_timeout_key) 3 in
      tested-Leaves AreInRange (within 1 15 time_out) (set_interest_resend_time s time_out) s λ h.
        (fits.0, fits.1, fits.2, ground (arith, h), fits.4, fits.5, fits.6, fits.7, fits.8, fits.9)

  process_hello_interval-Keeps :
      (section : Section) (s : State) → AreInRange s → Keeps (process_hello_interval v section s)
  unfolding process_hello_interval
  process_hello_interval-Keeps section s fits =
      let interval = get_or (v.get_uint32 section hello_interval_key) 60 in
      tested-Leaves AreInRange (within 30 90 interval) (set_info_interest_interval s interval) s
        λ h. (
          fits.0,
          fits.1,
          fits.2,
          fits.3,
          ground (arith, h),
          fits.5,
          fits.6,
          fits.7,
          fits.8,
          fits.9,
        )

  build_interval-Keeps :
      (section : Section) (s : State)
      → AreInRange s
      → Keeps (
          parse_optional
            (v.get_uint32 section adj_lsa_build_interval_key)
            0
            10
            5
            s
            set_adj_lsa_build_interval)
  build_interval-Keeps section s fits =
      parse_optional-Leaves AreInRange (v.get_uint32 section adj_lsa_build_interval_key) 0 10 5 s
        set_adj_lsa_build_interval (omega arith, omega arith)
        λ interval h. (fits.0, fits.1, fits.2, fits.3, fits.4, fits.5, h, fits.7, fits.8, fits.9)

  first_interval-Keeps :
      (section : Section) (s : State)
      → AreInRange s
      → Keeps (
          parse_optional
            (v.get_uint32 section first_hello_interval_key)
            0
            20
            10
            s
            set_first_hello_interval)
  first_interval-Keeps section s fits =
      parse_optional-Leaves AreInRange (v.get_uint32 section first_hello_interval_key) 0 20 10 s
        set_first_hello_interval (omega arith, omega arith)
        λ interval h. (fits.0, fits.1, fits.2, fits.3, fits.4, fits.5, fits.6, h, fits.8, fits.9)

  process_neighbor-Keeps :
      (section : Section) (s : State) → AreInRange s → Keeps (process_neighbor v section s)
  unfolding process_neighbor
  process_neighbor-Keeps section s fits =
      required-Leaves AreInRange (v.get_string section name_key) s _ λ name.
        required-Leaves AreInRange (v.get_string section face_uri_key) s _ λ face_uri.
          if-Leaves AreInRange (v.parses_face_uri face_uri) _ _
            (λ _. required-Leaves AreInRange (v.of_uri name) s _ λ neighbor_name.
              if-Leaves AreInRange (n.size neighbor_name == 0) _ _ (λ _. kept AreInRange s fits)
                (λ _. kept AreInRange _ fits))
            (λ _. refused AreInRange s)

  process_neighbor_list-Keeps :
      (entries : List (Str × Section)) (s : State)
      → AreInRange s
      → Keeps (process_neighbor_list v entries s)
  unfolding process_neighbor_list
  process_neighbor_list-Keeps [] s fits = kept AreInRange s fits
  process_neighbor_list-Keeps ((key, section) ∷ entries) s fits =
      chain _ _
        (if-Leaves AreInRange (key == neighbor_key) _ _ (λ _. process_neighbor-Keeps section s fits)
          (λ _. kept AreInRange s fits))
        (process_neighbor_list-Keeps entries)

  pub process_neighbors-Keeps :
      (section : Section) (s : State) → AreInRange s → Keeps (process_neighbors v section s)
  unfolding process_neighbors
  process_neighbors-Keeps section s fits =
      chain _ _
        (chain _ _
          (chain _ _
            (chain _ _
              (chain _ _ (process_hello_retries-Keeps section s fits)
                (process_hello_timeout-Keeps section))
              (process_hello_interval-Keeps section))
            (build_interval-Keeps section))
          (first_interval-Keeps section))
        (process_neighbor_list-Keeps (v.entries section))

  missing_coordinate-Keeps :
      (state : Str) (s : State)
      → AreInRange s
      → Keeps (s, not (state == on_text || state == dry_run_text))
  unfolding Leaves
  missing_coordinate-Keeps state s fits goes_on = fits

  process_coordinates-Keeps :
      (section : Section) (state : Str) (s : State)
      → AreInRange s
      → Keeps (process_coordinates v section state s)
  unfolding process_coordinates set_cor_r
  process_coordinates-Keeps section state s fits =
      elim (Option-cases (v.get_double section radius_key)) [
        | inl absent ↦ rw (absent, process_coordinates) (missing_coordinate-Keeps state s fits)
        | inr (radius, present) ↦ elim (Option-cases (v.get_double section angle_key)) [
          | inl absent ↦
              rw (present, absent, process_coordinates) (missing_coordinate-Keeps state s fits)
          | inr (angle, both) ↦
              rw (present, both, process_coordinates)
                (chain _ _
                  (if-Leaves AreInRange (d.lt radius (d.of_ℕ 0)) _ _ (λ _. refused AreInRange s)
                    (λ _. kept AreInRange _ fits))
                  (λ s fits. kept AreInRange _ fits))
        ]
      ]

  pub process_hyperbolic-Keeps :
      (section : Section) (s : State) → AreInRange s → Keeps (process_hyperbolic v section s)
  unfolding process_hyperbolic
  process_hyperbolic-Keeps section s fits =
      let state = get_or (v.get_string section state_key) off_text in
      required-Leaves AreInRange (hyperbolic_state_of v state) s _ λ hyperbolic_state.
        process_coordinates-Keeps section state (set_hyperbolic_state s hyperbolic_state) fits

  process_max_faces-Keeps :
      (section : Section) (s : State) → AreInRange s → Keeps (process_max_faces v section s)
  unfolding process_max_faces
  process_max_faces-Keeps section s fits =
      let max_faces = get_or (v.get_int section max_faces_per_prefix_key) (pos 0) in
      tested-Leaves AreInRange (int_within 0 60 max_faces)
        (set_max_faces_per_prefix s (as_uint32 max_faces)) s
        λ h. (
          fits.0,
          fits.1,
          fits.2,
          fits.3,
          fits.4,
          int_within-Within 0 60 max_faces h,
          fits.6,
          fits.7,
          fits.8,
          fits.9,
        )

  pub process_fib-Keeps :
      (section : Section) (s : State) → AreInRange s → Keeps (process_fib v section s)
  unfolding process_fib
  process_fib-Keeps section s fits = chain _ _ (process_max_faces-Keeps section s fits) λ s fits.
      parse_optional-Leaves AreInRange (v.get_uint32 section routing_calc_interval_key) 0 30 15 s
        set_routing_calc_interval (omega arith, omega arith)
        λ interval h. (fits.0, fits.1, fits.2, fits.3, fits.4, fits.5, fits.6, fits.7, h, fits.9)

  process_prefix-Keeps :
      (section : Section) (s : State) → AreInRange s → Keeps (process_prefix v section s)
  unfolding process_prefix
  process_prefix-Keeps section s fits =
      required-Leaves AreInRange (v.of_uri (v.data_of section)) s _ λ name_prefix.
        if-Leaves AreInRange (n.size name_prefix == 0) _ _ (λ _. refused AreInRange s)
          (λ _. kept AreInRange _ fits)

  process_prefixes-Keeps :
      (entries : List (Str × Section)) (s : State)
      → AreInRange s
      → Keeps (process_prefixes v entries s)
  unfolding process_prefixes
  process_prefixes-Keeps [] s fits = kept AreInRange s fits
  process_prefixes-Keeps ((key, section) ∷ entries) s fits =
      chain _ _
        (if-Leaves AreInRange (key == prefix_key) _ _ (λ _. process_prefix-Keeps section s fits)
          (λ _. kept AreInRange s fits))
        (process_prefixes-Keeps entries)

  pub process_advertising-Keeps :
      (section : Section) (s : State) → AreInRange s → Keeps (process_advertising v section s)
  unfolding process_advertising
  process_advertising-Keeps section s fits = process_prefixes-Keeps (v.entries section) s fits

  process_certificates-Keeps :
      (entries : List (Str × Section)) (s : State)
      → AreInRange s
      → Keeps (process_certificates v entries s)
  unfolding process_certificates
  process_certificates-Keeps [] s fits = kept AreInRange s fits
  process_certificates-Keeps ((key, section) ∷ entries) s fits =
      if-Leaves AreInRange (key == cert_to_publish_key) _ _
        (λ _.
          if-Leaves AreInRange (v.loads_certificate (v.data_of section)) _ _
            (λ _. process_certificates-Keeps entries _ fits) (λ _. refused AreInRange s))
        (λ _. refused AreInRange s)

  process_update_validator-Keeps :
      (entries : List (Str × Section)) (s : State)
      → AreInRange s
      → Keeps (process_update_validator v entries s)
  unfolding process_update_validator
  process_update_validator-Keeps [] s fits = kept AreInRange s fits
  process_update_validator-Keeps ((key, section) ∷ entries) s fits =
      if-Leaves AreInRange (key == prefix_update_validator_key) _ _
        (λ _. process_certificates-Keeps entries _ fits) (λ _. kept AreInRange s fits)

  pub process_security-Keeps :
      (entries : List (Str × Section)) (s : State)
      → AreInRange s
      → Keeps (process_security v entries s)
  unfolding process_security
  process_security-Keeps [] s fits = refused AreInRange s
  process_security-Keeps ((key, section) ∷ entries) s fits =
      if-Leaves AreInRange (key == validator_key) _ _
        (λ _. process_update_validator-Keeps entries _ fits) (λ _. refused AreInRange s)
