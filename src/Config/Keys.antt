-- ===== src/Config/Keys.antt =====
-- src/conf-file-processor.cpp, src/conf-parameter.hpp and src/logger.cpp: the words of the configuration.
use ndnproject.Prelude.{Str, [], ◌∷◌}

abbrev pub general_key : Str
general_key = b'g' ∷ b'e' ∷ b'n' ∷ b'e' ∷ b'r' ∷ b'a' ∷ b'l' ∷ []

abbrev pub neighbors_key : Str
neighbors_key = b'n' ∷ b'e' ∷ b'i' ∷ b'g' ∷ b'h' ∷ b'b' ∷ b'o' ∷ b'r' ∷ b's' ∷ []

abbrev pub hyperbolic_key : Str
hyperbolic_key = b'h' ∷ b'y' ∷ b'p' ∷ b'e' ∷ b'r' ∷ b'b' ∷ b'o' ∷ b'l' ∷ b'i' ∷ b'c' ∷ []

abbrev pub fib_key : Str
fib_key = b'f' ∷ b'i' ∷ b'b' ∷ []

abbrev pub advertising_key : Str
advertising_key = b'a' ∷ b'd' ∷ b'v' ∷ b'e' ∷ b'r' ∷ b't' ∷ b'i' ∷ b's' ∷ b'i' ∷ b'n' ∷ b'g' ∷ []

abbrev pub security_key : Str
security_key = b's' ∷ b'e' ∷ b'c' ∷ b'u' ∷ b'r' ∷ b'i' ∷ b't' ∷ b'y' ∷ []

abbrev pub network_key : Str
network_key = b'n' ∷ b'e' ∷ b't' ∷ b'w' ∷ b'o' ∷ b'r' ∷ b'k' ∷ []

abbrev pub site_key : Str
site_key = b's' ∷ b'i' ∷ b't' ∷ b'e' ∷ []

abbrev pub router_key : Str
router_key = b'r' ∷ b'o' ∷ b'u' ∷ b't' ∷ b'e' ∷ b'r' ∷ []

abbrev pub lsa_refresh_time_key : Str
lsa_refresh_time_key =
    b'l' ∷ b's' ∷ b'a' ∷ b'-' ∷ b'r' ∷ b'e' ∷ b'f' ∷ b'r' ∷ b'e' ∷ b's' ∷ b'h' ∷ b'-' ∷ b't' ∷ b'i'
    ∷ b'm' ∷ b'e' ∷ []

abbrev pub router_dead_interval_key : Str
router_dead_interval_key =
    b'r' ∷ b'o' ∷ b'u' ∷ b't' ∷ b'e' ∷ b'r' ∷ b'-' ∷ b'd' ∷ b'e' ∷ b'a' ∷ b'd' ∷ b'-' ∷ b'i' ∷ b'n'
    ∷ b't' ∷ b'e' ∷ b'r' ∷ b'v' ∷ b'a' ∷ b'l' ∷ []

abbrev pub lsa_interest_lifetime_key : Str
lsa_interest_lifetime_key =
    b'l' ∷ b's' ∷ b'a' ∷ b'-' ∷ b'i' ∷ b'n' ∷ b't' ∷ b'e' ∷ b'r' ∷ b'e' ∷ b's' ∷ b't' ∷ b'-' ∷ b'l'
    ∷ b'i' ∷ b'f' ∷ b'e' ∷ b't' ∷ b'i' ∷ b'm' ∷ b'e' ∷ []

abbrev pub log_level_key : Str
log_level_key = b'l' ∷ b'o' ∷ b'g' ∷ b'-' ∷ b'l' ∷ b'e' ∷ b'v' ∷ b'e' ∷ b'l' ∷ []

abbrev pub log_dir_key : Str
log_dir_key = b'l' ∷ b'o' ∷ b'g' ∷ b'-' ∷ b'd' ∷ b'i' ∷ b'r' ∷ []

abbrev pub seq_dir_key : Str
seq_dir_key = b's' ∷ b'e' ∷ b'q' ∷ b'-' ∷ b'd' ∷ b'i' ∷ b'r' ∷ []

abbrev pub log4cxx_conf_key : Str
log4cxx_conf_key =
    b'l' ∷ b'o' ∷ b'g' ∷ b'4' ∷ b'c' ∷ b'x' ∷ b'x' ∷ b'-' ∷ b'c' ∷ b'o' ∷ b'n' ∷ b'f' ∷ []

abbrev pub hello_retries_key : Str
hello_retries_key =
    b'h' ∷ b'e' ∷ b'l' ∷ b'l' ∷ b'o' ∷ b'-' ∷ b'r' ∷ b'e' ∷ b't' ∷ b'r' ∷ b'i' ∷ b'e' ∷ b's' ∷ []

abbrev pub hello_timeout_key : Str
hello_timeout_key =
    b'h' ∷ b'e' ∷ b'l' ∷ b'l' ∷ b'o' ∷ b'-' ∷ b't' ∷ b'i' ∷ b'm' ∷ b'e' ∷ b'o' ∷ b'u' ∷ b't' ∷ []

abbrev pub hello_interval_key : Str
hello_interval_key =
    b'h' ∷ b'e' ∷ b'l' ∷ b'l' ∷ b'o' ∷ b'-' ∷ b'i' ∷ b'n' ∷ b't' ∷ b'e' ∷ b'r' ∷ b'v' ∷ b'a' ∷ b'l'
    ∷ []

abbrev pub adj_lsa_build_interval_key : Str
adj_lsa_build_interval_key =
    b'a' ∷ b'd' ∷ b'j' ∷ b'-' ∷ b'l' ∷ b's' ∷ b'a' ∷ b'-' ∷ b'b' ∷ b'u' ∷ b'i' ∷ b'l' ∷ b'd' ∷ b'-'
    ∷ b'i' ∷ b'n' ∷ b't' ∷ b'e' ∷ b'r' ∷ b'v' ∷ b'a' ∷ b'l' ∷ []

abbrev pub first_hello_interval_key : Str
first_hello_interval_key =
    b'f' ∷ b'i' ∷ b'r' ∷ b's' ∷ b't' ∷ b'-' ∷ b'h' ∷ b'e' ∷ b'l' ∷ b'l' ∷ b'o' ∷ b'-' ∷ b'i' ∷ b'n'
    ∷ b't' ∷ b'e' ∷ b'r' ∷ b'v' ∷ b'a' ∷ b'l' ∷ []

abbrev pub neighbor_key : Str
neighbor_key = b'n' ∷ b'e' ∷ b'i' ∷ b'g' ∷ b'h' ∷ b'b' ∷ b'o' ∷ b'r' ∷ []

abbrev pub name_key : Str
name_key = b'n' ∷ b'a' ∷ b'm' ∷ b'e' ∷ []

abbrev pub face_uri_key : Str
face_uri_key = b'f' ∷ b'a' ∷ b'c' ∷ b'e' ∷ b'-' ∷ b'u' ∷ b'r' ∷ b'i' ∷ []

abbrev pub link_cost_key : Str
link_cost_key = b'l' ∷ b'i' ∷ b'n' ∷ b'k' ∷ b'-' ∷ b'c' ∷ b'o' ∷ b's' ∷ b't' ∷ []

abbrev pub state_key : Str
state_key = b's' ∷ b't' ∷ b'a' ∷ b't' ∷ b'e' ∷ []

abbrev pub radius_key : Str
radius_key = b'r' ∷ b'a' ∷ b'd' ∷ b'i' ∷ b'u' ∷ b's' ∷ []

abbrev pub angle_key : Str
angle_key = b'a' ∷ b'n' ∷ b'g' ∷ b'l' ∷ b'e' ∷ []

abbrev pub max_faces_per_prefix_key : Str
max_faces_per_prefix_key =
    b'm' ∷ b'a' ∷ b'x' ∷ b'-' ∷ b'f' ∷ b'a' ∷ b'c' ∷ b'e' ∷ b's' ∷ b'-' ∷ b'p' ∷ b'e' ∷ b'r' ∷ b'-'
    ∷ b'p' ∷ b'r' ∷ b'e' ∷ b'f' ∷ b'i' ∷ b'x' ∷ []

abbrev pub routing_calc_interval_key : Str
routing_calc_interval_key =
    b'r' ∷ b'o' ∷ b'u' ∷ b't' ∷ b'i' ∷ b'n' ∷ b'g' ∷ b'-' ∷ b'c' ∷ b'a' ∷ b'l' ∷ b'c' ∷ b'-' ∷ b'i'
    ∷ b'n' ∷ b't' ∷ b'e' ∷ b'r' ∷ b'v' ∷ b'a' ∷ b'l' ∷ []

abbrev pub prefix_key : Str
prefix_key = b'p' ∷ b'r' ∷ b'e' ∷ b'f' ∷ b'i' ∷ b'x' ∷ []

abbrev pub validator_key : Str
validator_key = b'v' ∷ b'a' ∷ b'l' ∷ b'i' ∷ b'd' ∷ b'a' ∷ b't' ∷ b'o' ∷ b'r' ∷ []

abbrev pub prefix_update_validator_key : Str
prefix_update_validator_key =
    b'p' ∷ b'r' ∷ b'e' ∷ b'f' ∷ b'i' ∷ b'x' ∷ b'-' ∷ b'u' ∷ b'p' ∷ b'd' ∷ b'a' ∷ b't' ∷ b'e' ∷ b'-'
    ∷ b'v' ∷ b'a' ∷ b'l' ∷ b'i' ∷ b'd' ∷ b'a' ∷ b't' ∷ b'o' ∷ b'r' ∷ []

abbrev pub cert_to_publish_key : Str
cert_to_publish_key =
    b'c' ∷ b'e' ∷ b'r' ∷ b't' ∷ b'-' ∷ b't' ∷ b'o' ∷ b'-' ∷ b'p' ∷ b'u' ∷ b'b' ∷ b'l' ∷ b'i' ∷ b's'
    ∷ b'h' ∷ []

abbrev pub all_text : Str
all_text = b'a' ∷ b'l' ∷ b'l' ∷ []

abbrev pub trace_text : Str
trace_text = b't' ∷ b'r' ∷ b'a' ∷ b'c' ∷ b'e' ∷ []

abbrev pub debug_text : Str
debug_text = b'd' ∷ b'e' ∷ b'b' ∷ b'u' ∷ b'g' ∷ []

abbrev pub info_text : Str
info_text = b'i' ∷ b'n' ∷ b'f' ∷ b'o' ∷ []

abbrev pub warn_text : Str
warn_text = b'w' ∷ b'a' ∷ b'r' ∷ b'n' ∷ []

abbrev pub error_text : Str
error_text = b'e' ∷ b'r' ∷ b'r' ∷ b'o' ∷ b'r' ∷ []

abbrev pub none_text : Str
none_text = b'n' ∷ b'o' ∷ b'n' ∷ b'e' ∷ []

abbrev pub default_log_level : Str
default_log_level = b'I' ∷ b'N' ∷ b'F' ∷ b'O' ∷ []

abbrev pub off_text : Str
off_text = b'o' ∷ b'f' ∷ b'f' ∷ []

abbrev pub on_text : Str
on_text = b'o' ∷ b'n' ∷ []

abbrev pub dry_run_text : Str
dry_run_text = b'd' ∷ b'r' ∷ b'y' ∷ b'-' ∷ b'r' ∷ b'u' ∷ b'n' ∷ []

abbrev pub nlsr_component : Str
nlsr_component = b'N' ∷ b'L' ∷ b'S' ∷ b'R' ∷ []

abbrev pub sync_component : Str
sync_component = b's' ∷ b'y' ∷ b'n' ∷ b'c' ∷ []

abbrev pub lsa_component : Str
lsa_component = b'L' ∷ b'S' ∷ b'A' ∷ []
