-- ===== src/Config/Load.antt =====
-- src/conf-file-processor.cpp: the file as a whole.
use ndnproject.Prelude.{
  Bool, Double, Eq, List, NdnName, Option, Str, [], false, if◌then◌else◌, nat_eq, none, some,
  str_eq, true, ◌==◌, ◌∷◌,
}
use ndnproject.Config.{Environment, Settings, ◌then◌}
use ndnproject.Config.General.{process_general}
use ndnproject.Config.Keys.{
  general_key, neighbors_key, hyperbolic_key, fib_key, advertising_key, security_key,
}
use ndnproject.Config.Neighbors.{process_neighbors}
use ndnproject.Config.Sections.{
  process_hyperbolic, process_fib, process_advertising, process_security,
}

module _ {Section Name D : Type 0} ⦃e : Eq Name⦄ ⦃n : NdnName Name⦄ ⦃d : Double D⦄
    (v : Environment Section Name D) where
  abbrev State : Type 0
  State = Settings Section Name D

  -- `processSection`. A name that is none of these is reported, and skipped.
  unfoldable pub process_section : Str → Section → State → State × Bool
  unfolding process_general process_neighbors process_hyperbolic process_fib process_advertising
      process_security
  process_section section_name section s =
      if section_name == general_key
      then process_general v section s
      else if section_name == neighbors_key
      then process_neighbors v section s
      else if section_name == hyperbolic_key
      then process_hyperbolic v section s
      else if section_name == fib_key
      then process_fib v section s
      else if section_name == advertising_key
      then process_advertising v section s
      else if section_name == security_key
      then process_security v (v.entries section) s
      else (s, true)

  unfoldable pub process_sections : List (Str × Section) → State → State × Bool
  unfolding process_section
  process_sections [] s = (s, true)
  process_sections ((section_name, section) ∷ sections) s =
      process_section section_name section s then process_sections sections

  -- `processConfFile` and `load`: `none` is a file that cannot be opened or parsed.
  unfoldable pub load : Option Section → State → State × Bool
  unfolding process_sections
  load none s = (s, false)
  load (some pt) s = process_sections (v.entries pt) s
