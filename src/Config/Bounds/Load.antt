-- ===== src/Config/Bounds/Load.antt =====
-- src/conf-file-processor.cpp: a file that is accepted leaves the parameters in their ranges.
use ndnproject.Prelude.{
  Double, Eq, List, NdnName, Option, Str, [], arith, nat_eq, none, some, str_eq, true, ◌==◌, ◌∷◌,
  ◌≡◌,
}
use ndnproject.Config.{Environment, Settings, new_settings}
use ndnproject.Config.Load.{process_section, process_sections, load}
use ndnproject.Config.Bounds.{AreInRange, Keeps, Leaves, chain, kept, refused, if-Leaves}
use ndnproject.Config.Bounds.General.{process_general-Keeps}
use ndnproject.Config.Bounds.Others.{
  process_neighbors-Keeps, process_hyperbolic-Keeps, process_fib-Keeps, process_advertising-Keeps,
  process_security-Keeps,
}
use ndnproject.Config.Keys.{
  general_key, neighbors_key, hyperbolic_key, fib_key, advertising_key, security_key,
}

module _ {Section Name D : Type 0} ⦃e : Eq Name⦄ ⦃n : NdnName Name⦄ ⦃d : Double D⦄
    (v : Environment Section Name D) where
  abbrev State : Type 0
  State = Settings Section Name D

  process_section-Keeps :
      (section_name : Str) (section : Section) (s : State)
      → AreInRange s
      → Keeps (process_section v section_name section s)
  unfolding process_section
  process_section-Keeps section_name section s fits =
      if-Leaves AreInRange (section_name == general_key) _ _
        (λ _. process_general-Keeps v section s fits)
        λ _.
          if-Leaves AreInRange (section_name == neighbors_key) _ _
            (λ _. process_neighbors-Keeps v section s fits)
            λ _.
              if-Leaves AreInRange (section_name == hyperbolic_key) _ _
                (λ _. process_hyperbolic-Keeps v section s fits)
                λ _.
                  if-Leaves AreInRange (section_name == fib_key) _ _
                    (λ _. process_fib-Keeps v section s fits)
                    λ _.
                      if-Leaves AreInRange (section_name == advertising_key) _ _
                        (λ _. process_advertising-Keeps v section s fits)
                        λ _.
                          if-Leaves AreInRange (section_name == security_key) _ _
                            (λ _. process_security-Keeps v (v.entries section) s fits)
                            λ _. kept AreInRange s fits

  process_sections-Keeps :
      (sections : List (Str × Section)) (s : State)
      → AreInRange s
      → Keeps (process_sections v sections s)
  unfolding process_sections
  process_sections-Keeps [] s fits = kept AreInRange s fits
  process_sections-Keeps ((section_name, section) ∷ sections) s fits =
      chain _ _ (process_section-Keeps section_name section s fits)
        (process_sections-Keeps sections)

  load-Keeps : (file : Option Section) (s : State) → AreInRange s → Keeps (load v file s)
  unfolding load
  load-Keeps none s fits = refused AreInRange s
  load-Keeps (some pt) s fits = process_sections-Keeps (v.entries pt) s fits

  -- A configuration file that is accepted leaves every interval, lifetime and number in its range, and the
  -- router dead interval longer than the refresh time, whether the file sets them or not.
  pub load-AreInRange :
      (file : Option Section)
      → (load v file new_settings).1 ≡ true
      → AreInRange (load v file new_settings).0
  unfolding new_settings Leaves
  load-AreInRange file accepted =
      load-Keeps file new_settings
        (
          (omega arith, omega arith),
          (omega arith, omega arith),
          (omega arith, omega arith),
          (omega arith, omega arith),
          (omega arith, omega arith),
          (omega arith, omega arith),
          (omega arith, omega arith),
          (omega arith, omega arith),
          (omega arith, omega arith),
          omega arith,
        )
        accepted
