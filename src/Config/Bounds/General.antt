-- ===== src/Config/Bounds/General.antt =====
-- src/conf-file-processor.cpp: the section `general` leaves the parameters in their ranges.
use ndnproject.Prelude.{
  Double, Eq, NdnName, Option, Option-cases, Str, [], arith, inl, inr, ltb, nat_eq, str_eq, ◌%◌,
  ◌*◌, ◌==◌, ◌^◌,
}
use ndnproject.Config.{
  set_site_name, set_router_name, set_log_dir, set_seq_file_dir, set_log_level, Environment,
  Settings, pos, get_or, within, int_within,
}
use ndnproject.Config.General.{
  is_valid_log_level, set_network, set_name, process_names, process_refresh_time, process_lifetime,
  process_log_level, process_directory, process_log4cxx, process_general,
}
use ndnproject.Config.Keys.{
  log_level_key, default_log_level, network_key, site_key, router_key, lsa_refresh_time_key,
  router_dead_interval_key, lsa_interest_lifetime_key, log4cxx_conf_key, log_dir_key, seq_dir_key,
}
use ndnproject.Config.Bounds.{
  AreInRange, Keeps, chain, same, refused, kept, required-Leaves, if-Leaves, tested-Leaves,
  int_within-Within,
}

module _ {Section Name D : Type 0} ⦃e : Eq Name⦄ ⦃n : NdnName Name⦄ ⦃d : Double D⦄
    (v : Environment Section Name D) where
  abbrev State : Type 0
  State = Settings Section Name D

  set_name-Keeps :
      (uri : Str) (s : State) (set : State → Name → State)
      → ((name : Name) → AreInRange (set s name))
      → Keeps (set_name v uri s set)
  unfolding set_name
  set_name-Keeps uri s set each = required-Leaves AreInRange (v.of_uri uri) s _ λ name.
      if-Leaves AreInRange (n.size name == 0) _ _ (λ _. refused AreInRange s)
        (λ _. kept AreInRange (set s name) (each name))

  process_names-Keeps :
      (section : Section) (s : State) → AreInRange s → Keeps (process_names v section s)
  unfolding process_names set_network
  process_names-Keeps section s fits =
      required-Leaves AreInRange (v.get_string section network_key) s _ λ network.
        required-Leaves AreInRange (v.get_string section site_key) s _ λ site.
          required-Leaves AreInRange (v.get_string section router_key) s _ λ router.
            chain _ _
              (chain _ _ (set_name-Keeps network s (set_network v) (λ name. fits))
                (λ s fits. set_name-Keeps site s set_site_name (λ name. fits)))
              (λ s fits. set_name-Keeps router s set_router_name (λ name. fits))

  process_refresh_time-Keeps :
      (section : Section) (s : State) → AreInRange s → Keeps (process_refresh_time v section s)
  unfolding process_refresh_time
  process_refresh_time-Keeps section s fits =
      let time = get_or (v.get_uint32 section lsa_refresh_time_key) 1800 in
      let interval = get_or (v.get_uint32 section router_dead_interval_key) (2 * time % 2 ^ 32) in
      if-Leaves AreInRange (within 240 7200 time) _ _
        (λ h. tested-Leaves AreInRange (ltb time interval) _ _ λ outlives. (
          ground (arith, h),
          fits.1,
          fits.2,
          fits.3,
          fits.4,
          fits.5,
          fits.6,
          fits.7,
          fits.8,
          ground (arith, outlives),
        ))
        (λ _. refused AreInRange s)

  process_lifetime-Keeps :
      (section : Section) (s : State) → AreInRange s → Keeps (process_lifetime v section s)
  unfolding process_lifetime
  process_lifetime-Keeps section s fits =
      let lifetime = get_or (v.get_int section lsa_interest_lifetime_key) (pos 4) in
      tested-Leaves AreInRange (int_within 1 60 lifetime) _ s λ h. (
        fits.0,
        int_within-Within 1 60 lifetime h,
        fits.2,
        fits.3,
        fits.4,
        fits.5,
        fits.6,
        fits.7,
        fits.8,
        fits.9,
      )

  process_directory-Keeps :
      (dir : Option Str) (s : State) (set : State → Str → State)
      → ((dir : Str) → AreInRange (set s dir))
      → Keeps (process_directory v dir s set)
  unfolding process_directory
  process_directory-Keeps dir s set each = required-Leaves AreInRange dir s _ λ dir.
      if-Leaves AreInRange (v.exists dir) _ _
        (λ _.
          if-Leaves AreInRange (v.is_directory dir) _ _
            (λ _. tested-Leaves AreInRange (v.is_writable dir) (set s dir) s (λ _. each dir))
            (λ _. refused AreInRange s))
        (λ _. refused AreInRange s)

  process_log4cxx-Keeps :
      (section : Section) (s : State) → AreInRange s → Keeps (process_log4cxx v section s)
  unfolding process_log4cxx
  process_log4cxx-Keeps section s fits =
      elim (Option-cases (v.get_string section log4cxx_conf_key)) [
        | inl absent ↦ rw (absent, process_log4cxx) (kept AreInRange s fits)
        | inr (path, present) ↦
            rw (present, process_log4cxx)
              (if-Leaves AreInRange (path == []) _ _ (λ _. refused AreInRange s)
                (λ _. tested-Leaves AreInRange (v.exists path) _ s (λ _. fits)))
      ]

  process_log_level-Keeps :
      (section : Section) (s : State) → AreInRange s → Keeps (process_log_level v section s)
  unfolding process_log_level
  process_log_level-Keeps section s fits =
      let log_level = get_or (v.get_string section log_level_key) default_log_level in
      same (is_valid_log_level v log_level) (set_log_level s log_level) s fits

  pub process_general-Keeps :
      (section : Section) (s : State) → AreInRange s → Keeps (process_general v section s)
  unfolding process_general
  process_general-Keeps section s fits =
      let log_dir = v.get_string section log_dir_key in
      let seq_dir = v.get_string section seq_dir_key in
      chain _ _
        (chain _ _
          (chain _ _
            (chain _ _
              (chain _ _
                (chain _ _ (process_names-Keeps section s fits)
                  (process_refresh_time-Keeps section))
                (process_lifetime-Keeps section))
              (process_log_level-Keeps section))
            (λ s fits. process_directory-Keeps log_dir s set_log_dir (λ dir. fits)))
          (λ s fits. process_directory-Keeps seq_dir s set_seq_file_dir (λ dir. fits)))
        (process_log4cxx-Keeps section)
