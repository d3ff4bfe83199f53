-- ===== src/Config.antt =====
-- src/conf-file-processor.cpp and src/conf-parameter.hpp: what the configuration file sets. A function that
-- reads a part of the file returns what is set then and whether to go on; an exception that is caught is the
-- latter's false. Messages are left out.
pub mod Keys
pub mod General
pub mod Neighbors
pub mod Sections
pub mod Load
pub mod Bounds
use ndnproject.Prelude.{
  Bool, Double, List, NdnName, Option, Str, [], false, if◌then◌else◌, leb, none, some, true, ℕ,
  ◌&&◌, ◌*◌, ◌+◌, ◌-◌, ◌^◌,
}
use ndnproject.Adjacency.{AdjacencyList}
use ndnproject.Config.Keys.{default_log_level}
use ndnproject.NamePrefixList.{NamePrefixList}
use ndnproject.Nlsr.{ConfParameter, HyperbolicState, off}

-- `int`, which the file may give where only a positive number will do.
pub data ℤ : Type 0 where
  pos : ℕ → ℤ
  negsuc : ℕ → ℤ

-- What is called of Boost's property tree, ndn-cxx and the file system. `none` is an exception; `get_int` and
-- the like fail for a missing value and for one that is no such number.
pub record Environment (Section Name D : Type 0) : Type 0 where
  pub entries : Section → List (Str × Section)
  pub data_of : Section → Str
  pub get_string : Section → Str → Option Str
  pub get_int : Section → Str → Option ℤ
  pub get_uint32 : Section → Str → Option ℕ
  pub get_double : Section → Str → Option D
  pub is_iequal : Str → Str → Bool
  pub of_uri : Str → Option Name
  pub append_name : Name → Name → Name
  pub parses_face_uri : Str → Bool
  pub exists : Str → Bool
  pub is_directory : Str → Bool
  pub is_writable : Str → Bool
  pub loads_certificate : Str → Bool

-- What the security section asks of the validators and the certificate store.
pub data SecurityCall (Section : Type 0) : Type 0 where
  load_validator : Section → SecurityCall Section
  enable_prefix_updates : SecurityCall Section
  load_prefix_update_validator : Section → SecurityCall Section
  load_cert_to_publish : Str → SecurityCall Section

-- The parameters (those that the handlers read are in `conf`), and the two lists that the file fills.
pub record Settings (Section Name D : Type 0) : Type 0 where
  pub conf : ConfParameter Name D
  pub network : Name
  pub site_name : Name
  pub router_name : Name
  pub adj_lsa_build_interval : ℕ
  pub first_hello_interval : ℕ
  pub routing_calc_interval : ℕ
  pub log_level : Str
  pub log_dir : Str
  pub seq_file_dir : Str
  pub log4cxx_conf_path : Option Str
  pub adjacency_list : AdjacencyList Name D
  pub name_prefix_list : NamePrefixList Name
  pub security_calls : List (SecurityCall Section)

-- `ConfParameter()`.
unfoldable pub new_settings :
    {Section Name D : Type 0} ⦃n : NdnName Name⦄ ⦃d : Double D⦄ → Settings Section Name D
new_settings ⦃n⦄ ⦃d⦄ = record {
  conf = record {
    router_prefix = n.empty;
    lsa_refresh_time = 1800;
    router_dead_interval = 2 * 1800;
    lsa_interest_lifetime = 4;
    interest_retry_number = 3;
    interest_resend_time = 3;
    info_interest_interval = 60;
    hyperbolic_state = off;
    cor_r = d.of_ℕ 0;
    cor_theta = d.of_ℕ 0;
    max_faces_per_prefix = 0;
    lsa_prefix = n.empty;
    chronosync_prefix = n.empty;
  };
  network = n.empty;
  site_name = n.empty;
  router_name = n.empty;
  adj_lsa_build_interval = 5;
  first_hello_interval = 10;
  routing_calc_interval = 15;
  log_level = default_log_level;
  log_dir = [];
  seq_file_dir = [];
  log4cxx_conf_path = none;
  adjacency_list = [];
  name_prefix_list = [];
  security_calls = [];
}

-- The setters of the parameters; those with more to them stand where they are used.
module _ {Section Name D : Type 0} where
  abbrev pub set_site_name : Settings Section Name D → Name → Settings Section Name D
  set_site_name s value = record s { site_name = value }

  abbrev pub set_router_name : Settings Section Name D → Name → Settings Section Name D
  set_router_name s value = record s { router_name = value }

  abbrev pub set_adj_lsa_build_interval : Settings Section Name D → ℕ → Settings Section Name D
  set_adj_lsa_build_interval s value = record s { adj_lsa_build_interval = value }

  abbrev pub set_first_hello_interval : Settings Section Name D → ℕ → Settings Section Name D
  set_first_hello_interval s value = record s { first_hello_interval = value }

  abbrev pub set_routing_calc_interval : Settings Section Name D → ℕ → Settings Section Name D
  set_routing_calc_interval s value = record s { routing_calc_interval = value }

  abbrev pub set_log_level : Settings Section Name D → Str → Settings Section Name D
  set_log_level s value = record s { log_level = value }

  abbrev pub set_log_dir : Settings Section Name D → Str → Settings Section Name D
  set_log_dir s value = record s { log_dir = value }

  abbrev pub set_seq_file_dir : Settings Section Name D → Str → Settings Section Name D
  set_seq_file_dir s value = record s { seq_file_dir = value }

  abbrev pub set_lsa_refresh_time : Settings Section Name D → ℕ → Settings Section Name D
  set_lsa_refresh_time s value = record s { conf = record (s.conf) { lsa_refresh_time = value } }

  abbrev pub set_router_dead_interval : Settings Section Name D → ℕ → Settings Section Name D
  set_router_dead_interval s value = record s {
    conf = record (s.conf) { router_dead_interval = value };
  }

  abbrev pub set_lsa_interest_lifetime : Settings Section Name D → ℕ → Settings Section Name D
  set_lsa_interest_lifetime s value = record s {
    conf = record (s.conf) { lsa_interest_lifetime = value };
  }

  abbrev pub set_interest_retry_number : Settings Section Name D → ℕ → Settings Section Name D
  set_interest_retry_number s value = record s {
    conf = record (s.conf) { interest_retry_number = value };
  }

  abbrev pub set_interest_resend_time : Settings Section Name D → ℕ → Settings Section Name D
  set_interest_resend_time s value = record s {
    conf = record (s.conf) { interest_resend_time = value };
  }

  abbrev pub set_info_interest_interval : Settings Section Name D → ℕ → Settings Section Name D
  set_info_interest_interval s value = record s {
    conf = record (s.conf) { info_interest_interval = value };
  }

  abbrev pub set_hyperbolic_state :
      Settings Section Name D → HyperbolicState → Settings Section Name D
  set_hyperbolic_state s value = record s { conf = record (s.conf) { hyperbolic_state = value } }

  abbrev pub set_cor_theta : Settings Section Name D → D → Settings Section Name D
  set_cor_theta s value = record s { conf = record (s.conf) { cor_theta = value } }

  abbrev pub set_max_faces_per_prefix : Settings Section Name D → ℕ → Settings Section Name D
  set_max_faces_per_prefix s value = record s {
    conf = record (s.conf) { max_faces_per_prefix = value };
  }

  abbrev pub set_log4cxx_conf_path : Settings Section Name D → Str → Settings Section Name D
  set_log4cxx_conf_path s value = record s { log4cxx_conf_path = some value }

module _ {S : Type 0} where
  -- What follows is left out after a `return false`.
  infixl 5 ◌then◌
  unfoldable pub ◌then◌ : S × Bool → (S → S × Bool) → S × Bool
  r then f = if r.1 then f r.0 else r

  -- A value that has to be there, without which the function returns false.
  unfoldable pub required : {A : Type 0} → Option A → S → (A → S × Bool) → S × Bool
  required none s f = (s, false)
  required (some a) s f = f a

-- `get` with a default.
abbrev pub get_or : {A : Type 0} → Option A → A → A
get_or none default = default
get_or (some a) default = a

abbrev pub within : ℕ → ℕ → ℕ → Bool
within min_value max_value value = leb min_value value && leb value max_value

abbrev pub int_within : ℕ → ℕ → ℤ → Bool
int_within min_value max_value (pos value) = within min_value max_value value
int_within min_value max_value (negsuc _) = false

-- A number that is not negative, as an unsigned one; the functions that ask for it have refused the others.
abbrev pub as_uint32 : ℤ → ℕ
as_uint32 (pos value) = value
as_uint32 (negsuc value) = 2 ^ 32 - (value + 1)

-- `ConfigurationVariable::parseFromConfigSection`, of a variable that is optional and has a range.
unfoldable pub parse_optional : {S : Type 0} → Option ℕ → ℕ → ℕ → ℕ → S → (S → ℕ → S) → S × Bool
parse_optional none min_value max_value default_value s set = (set s default_value, true)
parse_optional (some value) min_value max_value default_value s set =
    if within min_value max_value value then (set s value, true) else (s, false)
