-- ===== src/Config/Bounds.antt =====
-- src/conf-file-processor.cpp: the parameters that the router starts with are in their ranges.
pub mod General
pub mod Others
pub mod Load
use ndnproject.Prelude.{
  Bool, Option, arith, false, if◌then◌else◌, none, refl, some, true, ℕ, ◌<◌, ◌≡◌, ◌≤◌,
}
use ndnproject.Adjacency.{Adjacent}
use ndnproject.Config.{
  set_site_name, set_router_name, set_log_dir, set_seq_file_dir, set_log_level,
  set_log4cxx_conf_path, set_router_dead_interval, set_lsa_refresh_time, set_lsa_interest_lifetime,
  Environment, Settings, SecurityCall, ℤ, pos, negsuc, ◌then◌, required, get_or, within, int_within,
  as_uint32, parse_optional, new_settings,
}
use ndnproject.Config.General.{
  is_valid_log_level, set_network, set_name, process_names, process_refresh_time, process_lifetime,
  process_log_level, process_directory, process_log4cxx, process_general,
}
use ndnproject.Config.Keys.{
  log_level_key, default_log_level, network_key, site_key, router_key, lsa_refresh_time_key,
  router_dead_interval_key, lsa_interest_lifetime_key, log4cxx_conf_key, log_dir_key, seq_dir_key,
}
use ndnproject.Config.Load.{process_section, process_sections, load}
use ndnproject.Config.Neighbors.{
  process_hello_retries, process_hello_timeout, process_hello_interval, process_neighbor,
  process_neighbor_list, process_neighbors,
}
use ndnproject.Config.Sections.{
  hyperbolic_state_of, set_cor_r, process_coordinates, process_hyperbolic, process_max_faces,
  process_fib, process_prefix, process_prefixes, process_advertising, process_certificates,
  process_update_validator, process_security,
}

abbrev pub Within : ℕ → ℕ → ℕ → Type 0
Within min_value max_value value = (min_value ≤ value) × (value ≤ max_value)

-- What a function that goes on has made true.
unfoldable pub Leaves : {S : Type 0} → (S → Type 0) → S × Bool → Type 0
Leaves P r = r.1 ≡ true → P r.0

module _ {S : Type 0} where
  pub refused : (P : S → Type 0) (s : S) → Leaves P (s, false)
  unfolding Leaves
  refused P s goes_on = absurd (ground (arith, goes_on))

  pub kept : (P : S → Type 0) (s : S) → P s → Leaves P (s, true)
  unfolding Leaves
  kept P s holds goes_on = holds

  pub then-Leaves :
      (P Q : S → Type 0) (r : S × Bool) (f : S → S × Bool)
      → Leaves P r
      → ((s : S) → P s → Leaves Q (f s))
      → Leaves Q (r then f)
  unfolding Leaves ◌then◌
  then-Leaves P Q (s, true) f first next = next s (first refl)
  then-Leaves P Q (s, false) f first next = refused Q s

  pub required-Leaves :
      {A : Type 0} (P : S → Type 0) (o : Option A) (s : S) (f : A → S × Bool)
      → ((a : A) → Leaves P (f a))
      → Leaves P (required o s f)
  unfolding required
  required-Leaves P none s f each = refused P s
  required-Leaves P (some a) s f each = each a

  pub if-Leaves :
      (P : S → Type 0) (b : Bool) (x y : S × Bool)
      → (b ≡ true → Leaves P x)
      → (b ≡ false → Leaves P y)
      → Leaves P (if b then x else y)
  if-Leaves P true x y on_true on_false = on_true refl
  if-Leaves P false x y on_true on_false = on_false refl

  -- A setting that is made if the test holds.
  pub tested-Leaves :
      (P : S → Type 0) (b : Bool) (s' s : S)
      → (b ≡ true → P s')
      → Leaves P (if b then (s', true) else (s, false))
  tested-Leaves P b s' s holds =
      if-Leaves P b (s', true) (s, false) (λ h. kept P s' (holds h)) (λ _. refused P s)

  pub parse_optional-Leaves :
      (P : S → Type 0) (o : Option ℕ) (least most default : ℕ) (s : S) (set : S → ℕ → S)
      → Within least most default
      → ((value : ℕ) → Within least most value → P (set s value))
      → Leaves P (parse_optional o least most default s set)
  unfolding parse_optional
  parse_optional-Leaves P none least most default s set fits each =
      kept P (set s default) (each default fits)
  parse_optional-Leaves P (some value) least most default s set fits each =
      tested-Leaves P (within least most value) (set s value) s λ h. each value (ground (arith, h))

pub int_within-Within :
    (least most : ℕ) (value : ℤ)
    → int_within least most value ≡ true
    → Within least most (as_uint32 value)
int_within-Within least most (pos value) fits = ground arith
int_within-Within least most (negsuc value) fits = absurd (ground arith)

module _ {Section Name D : Type 0} where
  -- Every number is in its range.
  abbrev pub AreInRange : Settings Section Name D → Type 0
  AreInRange s =
      Within 240 7200 s.conf.lsa_refresh_time
      × Within 1 60 s.conf.lsa_interest_lifetime
      × Within 1 15 s.conf.interest_retry_number
      × Within 1 15 s.conf.interest_resend_time
      × Within 30 90 s.conf.info_interest_interval
      × Within 0 60 s.conf.max_faces_per_prefix
      × Within 0 10 s.adj_lsa_build_interval
      × Within 0 20 s.first_hello_interval
      × Within 0 30 s.routing_calc_interval
      × (s.conf.lsa_refresh_time < s.conf.router_dead_interval)

  -- From here on, a function that goes on leaves the numbers in their ranges.
  abbrev pub Keeps : Settings Section Name D × Bool → Type 0
  Keeps = Leaves AreInRange

  pub chain :
      (r : Settings Section Name D × Bool)
      (f : Settings Section Name D → Settings Section Name D × Bool)
      → Keeps r
      → ((s : Settings Section Name D) → AreInRange s → Keeps (f s))
      → Keeps (r then f)
  chain r f = then-Leaves AreInRange AreInRange r f

  -- The ranges do not change from one state to the other.
  pub same :
      (b : Bool) (s' s : Settings Section Name D)
      → AreInRange s'
      → Keeps (if b then (s', true) else (s, false))
  same b s' s fits = tested-Leaves AreInRange b s' s (λ _. fits)
