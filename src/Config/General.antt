-- ===== src/Config/General.antt =====
-- src/conf-file-processor.cpp: the section `general`.
use ndnproject.Prelude.{
  Bool, Double, NdnName, Option, Str, [], false, if◌then◌else◌, ltb, nat_eq, none, some, str_eq,
  true, ◌%◌, ◌*◌, ◌==◌, ◌^◌, ◌||◌,
}
use ndnproject.Config.{
  set_router_dead_interval, set_site_name, set_router_name, set_log_level, set_log_dir,
  set_seq_file_dir, set_lsa_refresh_time, set_lsa_interest_lifetime, set_log4cxx_conf_path,
  Environment, Settings, pos, ◌then◌, required, get_or, within, int_within, as_uint32,
}
use ndnproject.Config.Keys.{
  network_key, site_key, router_key, lsa_refresh_time_key, router_dead_interval_key,
  lsa_interest_lifetime_key, log_level_key, log_dir_key, seq_dir_key, log4cxx_conf_key, all_text,
  trace_text, debug_text, info_text, warn_text, error_text, none_text, default_log_level,
  nlsr_component, sync_component, lsa_component,
}

module _ {Section Name D : Type 0} ⦃n : NdnName Name⦄ ⦃d : Double D⦄
    (v : Environment Section Name D) where
  abbrev pub State : Type 0
  State = Settings Section Name D

  -- `setNetwork`.
  unfoldable pub set_network : State → Name → State
  set_network s network = record s {
    network = network;
    conf = record (s.conf) {
      chronosync_prefix = n.append (n.append network nlsr_component) sync_component;
      lsa_prefix = n.append (n.append network nlsr_component) lsa_component;
    };
  }

  -- `buildRouterPrefix`, which the router calls after the file is read.
  unfoldable pub build_router_prefix : State → State
  build_router_prefix s = record s {
    conf = record (s.conf) {
      router_prefix = v.append_name (v.append_name s.network s.site_name) s.router_name;
    };
  }

  -- A name that must not be empty.
  unfoldable pub set_name : Str → State → (State → Name → State) → State × Bool
  set_name uri s set =
      required (v.of_uri uri) s λ name. if n.size name == 0 then (s, false) else (set s name, true)

  unfoldable pub process_names : Section → State → State × Bool
  unfolding set_network set_name
  process_names section s = required (v.get_string section network_key) s λ network.
      required (v.get_string section site_key) s λ site.
        required (v.get_string section router_key) s λ router.
          set_name network s set_network
          then (λ s. set_name site s set_site_name)
          then (λ s. set_name router s set_router_name)

  -- `lsa-refresh-time` and `router-dead-interval`, whose default is twice the former.
  unfoldable pub process_refresh_time : Section → State → State × Bool
  process_refresh_time section s =
      let lsa_refresh_time = get_or (v.get_uint32 section lsa_refresh_time_key) 1800 in
      let router_dead_interval =
        get_or (v.get_uint32 section router_dead_interval_key) (2 * lsa_refresh_time % 2 ^ 32) in
      if within 240 7200 lsa_refresh_time
      then (let s' : State = set_lsa_refresh_time s lsa_refresh_time in
          if ltb lsa_refresh_time router_dead_interval
          then (set_router_dead_interval s' router_dead_interval, true)
          else (s', false))
      else (s, false)

  unfoldable pub process_lifetime : Section → State → State × Bool
  process_lifetime section s =
      let lifetime = get_or (v.get_int section lsa_interest_lifetime_key) (pos 4) in
      if int_within 1 60 lifetime
      then (set_lsa_interest_lifetime s (as_uint32 lifetime), true)
      else (s, false)

  -- `isValidLogLevel`.
  unfoldable pub is_valid_log_level : Str → Bool
  is_valid_log_level log_level =
      v.is_iequal log_level all_text
      || v.is_iequal log_level trace_text
      || v.is_iequal log_level debug_text
      || v.is_iequal log_level info_text
      || v.is_iequal log_level warn_text
      || v.is_iequal log_level error_text
      || v.is_iequal log_level none_text

  unfoldable pub process_log_level : Section → State → State × Bool
  unfolding is_valid_log_level
  process_log_level section s =
      let log_level = get_or (v.get_string section log_level_key) default_log_level in
      if is_valid_log_level log_level then (set_log_level s log_level, true) else (s, false)

  -- `log-dir` and `seq-dir`: a directory that a file can be written in.
  unfoldable pub process_directory : Option Str → State → (State → Str → State) → State × Bool
  process_directory dir s set = required dir s λ dir.
      if v.exists dir
      then (if v.is_directory dir
          then (if v.is_writable dir then (set s dir, true) else (s, false))
          else (s, false))
      else (s, false)

  unfoldable pub process_log4cxx : Section → State → State × Bool
  process_log4cxx section s = elim (v.get_string section log4cxx_conf_key) [
    | none ↦ (s, true)
    | some log4cxx_path ↦
        if log4cxx_path == []
        then (s, false)
        else if v.exists log4cxx_path
        then (set_log4cxx_conf_path s log4cxx_path, true)
        else (s, false)
  ]

  unfoldable pub process_general : Section → State → State × Bool
  unfolding process_names process_refresh_time process_lifetime process_log_level process_directory
      process_log4cxx
  process_general section s =
      process_names section s
      then process_refresh_time section
      then process_lifetime section
      then process_log_level section
      then (λ s. process_directory (v.get_string section log_dir_key) s set_log_dir)
      then (λ s. process_directory (v.get_string section seq_dir_key) s set_seq_file_dir)
      then process_log4cxx section
