-- ===== src/Config/Sections.antt =====
-- src/conf-file-processor.cpp: the sections `hyperbolic`, `fib`, `advertising` and `security`.
use ndnproject.Prelude.{
  Bool, Double, Eq, List, NdnName, Option, Str, [], false, if◌then◌else◌, nat_eq, none, not, some,
  str_eq, true, ◌==◌, ◌||◌, ◌∷◌,
}
use ndnproject.Config.{
  set_routing_calc_interval, set_hyperbolic_state, set_cor_theta, set_max_faces_per_prefix,
  Environment, Settings, SecurityCall, load_validator, enable_prefix_updates,
  load_prefix_update_validator, load_cert_to_publish, pos, ◌then◌, required, get_or, int_within,
  as_uint32, parse_optional,
}
use ndnproject.Config.Keys.{
  state_key, radius_key, angle_key, off_text, on_text, dry_run_text, max_faces_per_prefix_key,
  routing_calc_interval_key, prefix_key, validator_key, prefix_update_validator_key,
  cert_to_publish_key,
}
use ndnproject.NamePrefixList
use ndnproject.Nlsr.{HyperbolicState, off, on, dry_run}

module _ {Section Name D : Type 0} ⦃e : Eq Name⦄ ⦃n : NdnName Name⦄ ⦃d : Double D⦄
    (v : Environment Section Name D) where
  abbrev State : Type 0
  State = Settings Section Name D

  -- The test of the last one minds upper and lower case.
  unfoldable pub hyperbolic_state_of : Str → Option HyperbolicState
  hyperbolic_state_of state =
      if v.is_iequal state off_text
      then some off
      else if v.is_iequal state on_text
      then some on
      else if state == dry_run_text
      then some dry_run
      else none

  -- `setCorR`.
  unfoldable pub set_cor_r : State → D → State × Bool
  set_cor_r s cr =
      if d.lt cr (d.of_ℕ 0)
      then (s, false)
      else (record s { conf = record (s.conf) { cor_r = cr } }, true)

  -- Radius and angle, and what the handler of an exception returns when one is missing.
  unfoldable pub process_coordinates : Section → Str → State → State × Bool
  unfolding set_cor_r
  process_coordinates section state s =
      let missing : State × Bool = (s, not (state == on_text || state == dry_run_text)) in
      elim (v.get_double section radius_key) [
        | none ↦ missing
        | some radius ↦ elim (v.get_double section angle_key) [
          | none ↦ missing
          | some angle ↦ set_cor_r s radius then (λ s. (set_cor_theta s angle, true))
        ]
      ]

  unfoldable pub process_hyperbolic : Section → State → State × Bool
  unfolding hyperbolic_state_of process_coordinates
  process_hyperbolic section s =
      let state = get_or (v.get_string section state_key) off_text in
      required (hyperbolic_state_of state) s λ hyperbolic_state.
        process_coordinates section state (set_hyperbolic_state s hyperbolic_state)

  unfoldable pub process_max_faces : Section → State → State × Bool
  process_max_faces section s =
      let max_faces = get_or (v.get_int section max_faces_per_prefix_key) (pos 0) in
      if int_within 0 60 max_faces
      then (set_max_faces_per_prefix s (as_uint32 max_faces), true)
      else (s, false)

  unfoldable pub process_fib : Section → State → State × Bool
  unfolding process_max_faces parse_optional
  process_fib section s = process_max_faces section s then (λ s.
      parse_optional (v.get_uint32 section routing_calc_interval_key) 0 30 15 s
        set_routing_calc_interval)

  unfoldable pub process_prefix : Section → State → State × Bool
  unfolding NamePrefixList.insert
  process_prefix section s = required (v.of_uri (v.data_of section)) s λ name_prefix.
      if n.size name_prefix == 0 then (s, false) else (
        record s { name_prefix_list = (NamePrefixList.insert s.name_prefix_list name_prefix).0 },
        true,
      )

  unfoldable pub process_prefixes : List (Str × Section) → State → State × Bool
  unfolding process_prefix
  process_prefixes [] s = (s, true)
  process_prefixes ((key, section) ∷ entries) s =
      (if key == prefix_key then process_prefix section s else (s, true))
      then process_prefixes entries

  unfoldable pub process_advertising : Section → State → State × Bool
  unfolding process_prefixes
  process_advertising section s = process_prefixes (v.entries section) s

  abbrev pub call : State → SecurityCall Section → State
  call s c = record s { security_calls = c ∷ s.security_calls }

  unfoldable pub process_certificates : List (Str × Section) → State → State × Bool
  process_certificates [] s = (s, true)
  process_certificates ((key, section) ∷ entries) s =
      let rest = process_certificates entries (call s (load_cert_to_publish (v.data_of section))) in
      if key == cert_to_publish_key
      then (if v.loads_certificate (v.data_of section) then rest else (s, false))
      else (s, false)

  -- What follows the validator.
  unfoldable pub process_update_validator : List (Str × Section) → State → State × Bool
  unfolding process_certificates
  process_update_validator [] s = (s, true)
  process_update_validator ((key, section) ∷ entries) s =
      if key == prefix_update_validator_key
      then process_certificates entries
          (call (call s enable_prefix_updates) (load_prefix_update_validator section))
      else (s, true)

  unfoldable pub process_security : List (Str × Section) → State → State × Bool
  unfolding process_update_validator
  process_security [] s = (s, false)
  process_security ((key, section) ∷ entries) s =
      if key == validator_key
      then process_update_validator entries (call s (load_validator section))
      else (s, false)
