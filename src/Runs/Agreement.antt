-- ===== src/Runs/Agreement.antt =====
-- However long the router runs, the FIB agrees with the name prefix table.
use ndnproject.Prelude.{
  Bool, Bool-cases, Double, Eq, List, NdnName, Option, Str, false, inl, inr, nat_eq, none, refl,
  some, str_eq, true, ℕ, ◌==◌,
}
use ndnproject.Calculation.Outcome.{calculate-Agrees}
use ndnproject.Lsa.{NameLsa, AdjLsa, CoordinateLsa, name_type, adjacency_type, coordinate_type}
use ndnproject.Lsdb.{publish}
use ndnproject.Lsdb.Adjacencies.{is_adj_lsa_new}
use ndnproject.Lsdb.Agreement.{Untouched-Agrees}
use ndnproject.Lsdb.Agreement.Adjacencies.{
  install_adj_lsa-Agrees, expire_or_refresh_adj-Agrees, build_scheduled-Agrees,
}
use ndnproject.Lsdb.Agreement.Coordinates.{
  install_coordinate_lsa-Agrees, expire_or_refresh_coordinate-Agrees, build_coordinate_lsa-Agrees,
}
use ndnproject.Lsdb.Agreement.Names.{
  install_name_lsa-Agrees, expire_or_refresh_name-Agrees, build_name_lsa-Agrees,
}
use ndnproject.Lsdb.Coordinates.{is_coordinate_lsa_new}
use ndnproject.Lsdb.Messages.{
  on_content_validated, process_content_name_lsa, process_content_adjacency_lsa,
  process_content_coordinate_lsa,
}
use ndnproject.Lsdb.Names.{is_name_lsa_new, build_and_install_own_name_lsa}
use ndnproject.NamePrefixList
use ndnproject.NamePrefixTable.Changes.{Agrees}
use ndnproject.Nlsr.{Nlsr}
use ndnproject.PrefixUpdate
use ndnproject.PrefixUpdate.{
  Verb, advertise, withdraw, announce, advertise_verb, withdraw_verb, other_verb,
}
use ndnproject.Runs.Asking.{sync_received-Untouched, lsa_timed_out-Untouched, lsa_refused-Untouched}
use ndnproject.Runs.{
  lsa_timed_out, lsa_refused, sync_received, Step, Run, time_passes, lsa_received, lsa_asked,
  name_lsa_due, adj_lsa_due, coordinate_lsa_due, coordinate_lsa_built, adj_lsa_build_due,
  routes_calculated, command, hello_due, hello_asked, hello_timed_out, hello_answered, face_created,
  face_refused, face_destroyed, start, then_step,
}
use ndnproject.Runs.Untouching.{
  send_scheduled-Untouched, hello_asked-Untouched, hello_timed_out-Untouched,
  hello_answered-Untouched, face_created-Untouched, face_refused-Untouched,
  face_destroyed-Untouched, lsa_asked-Untouched,
}

module _ {Name D : Type 0} ⦃e : Eq Name⦄ ⦃n : NdnName Name⦄ ⦃d : Double D⦄ where
  content_name-Agrees :
      (s : Nlsr Name D) (key : Name) (seq_no : ℕ) (content : Option (NameLsa Name))
      → Agrees s
      → Agrees (process_content_name_lsa s key seq_no content)
  unfolding process_content_name_lsa
  content_name-Agrees s key seq_no none a = elim (Bool-cases (is_name_lsa_new s key seq_no)) [
    | inr old ↦ rw (old, process_content_name_lsa) a
    | inl new ↦ rw (new, process_content_name_lsa) a
  ]
  content_name-Agrees s key seq_no (some l) a = elim (Bool-cases (is_name_lsa_new s key seq_no)) [
    | inr old ↦ rw (old, process_content_name_lsa) a
    | inl new ↦ rw (new, process_content_name_lsa) (install_name_lsa-Agrees s l a)
  ]

  content_adjacency-Agrees :
      (s : Nlsr Name D) (key : Name) (seq_no : ℕ) (content : Option (AdjLsa Name D))
      → Agrees s
      → Agrees (process_content_adjacency_lsa s key seq_no content)
  unfolding process_content_adjacency_lsa
  content_adjacency-Agrees s key seq_no none a = elim (Bool-cases (is_adj_lsa_new s key seq_no)) [
    | inr old ↦ rw (old, process_content_adjacency_lsa) a
    | inl new ↦ rw (new, process_content_adjacency_lsa) a
  ]
  content_adjacency-Agrees s key seq_no (some l) a =
      elim (Bool-cases (is_adj_lsa_new s key seq_no)) [
        | inr old ↦ rw (old, process_content_adjacency_lsa) a
        | inl new ↦ rw (new, process_content_adjacency_lsa) (install_adj_lsa-Agrees s l a)
      ]

  content_coordinate-Agrees :
      (s : Nlsr Name D) (key : Name) (seq_no : ℕ) (content : Option (CoordinateLsa Name D))
      → Agrees s
      → Agrees (process_content_coordinate_lsa s key seq_no content)
  unfolding process_content_coordinate_lsa
  content_coordinate-Agrees s key seq_no none a =
      elim (Bool-cases (is_coordinate_lsa_new s key seq_no)) [
        | inr old ↦ rw (old, process_content_coordinate_lsa) a
        | inl new ↦ rw (new, process_content_coordinate_lsa) a
      ]
  content_coordinate-Agrees s key seq_no (some l) a =
      elim (Bool-cases (is_coordinate_lsa_new s key seq_no)) [
        | inr old ↦ rw (old, process_content_coordinate_lsa) a
        | inl new ↦ rw (new, process_content_coordinate_lsa) (install_coordinate_lsa-Agrees s l a)
      ]

  lsa_received-Agrees :
      (s : Nlsr Name D) (origin_router : Option Name) (ls_type : Str) (seq_no : ℕ)
      (nlsa : Option (NameLsa Name)) (alsa : Option (AdjLsa Name D))
      (clsa : Option (CoordinateLsa Name D))
      → Agrees s
      → Agrees (on_content_validated s origin_router ls_type seq_no nlsa alsa clsa)
  unfolding on_content_validated
  lsa_received-Agrees s none ls_type seq_no nlsa alsa clsa a = a
  lsa_received-Agrees s (some r) ls_type seq_no nlsa alsa clsa a =
      let key = n.append r ls_type in
      elim (Bool-cases (ls_type == name_type)) [
        | inl is_name ↦
            rw (is_name, on_content_validated)
              (Untouched-Agrees (process_content_name_lsa s key seq_no nlsa) _ (refl, refl, refl)
                (content_name-Agrees s key seq_no nlsa a))
        | inr not_name ↦ elim (Bool-cases (ls_type == adjacency_type)) [
          | inl is_adj ↦
              rw (not_name, on_content_validated, is_adj)
                (Untouched-Agrees (process_content_adjacency_lsa s key seq_no alsa) _
                  (refl, refl, refl) (content_adjacency-Agrees s key seq_no alsa a))
          | inr not_adj ↦ elim (Bool-cases (ls_type == coordinate_type)) [
            | inl is_cor ↦
                rw (not_name, on_content_validated, not_adj, is_cor)
                  (Untouched-Agrees (process_content_coordinate_lsa s key seq_no clsa) _
                    (refl, refl, refl) (content_coordinate-Agrees s key seq_no clsa a))
            | inr not_cor ↦ rw (not_name, on_content_validated, not_adj, not_cor) a
          ]
        ]
      ]

  announce-Agrees :
      (s : Nlsr Name D) (names : List Name) (changed : Bool)
      → Agrees s
      → Agrees (announce s (names, changed))
  unfolding announce publish
  announce-Agrees s names false a = Untouched-Agrees s _ (refl, refl, refl) a
  announce-Agrees s names true a =
      let t : Nlsr Name D = record s { name_prefix_list = names } in
      Untouched-Agrees (build_and_install_own_name_lsa t) _ (refl, refl, refl)
        (build_name_lsa-Agrees t (Untouched-Agrees s t (refl, refl, refl) a))

  advertise-Agrees :
      (s : Nlsr Name D) (name : Name) (valid : Bool) → Agrees s → Agrees (advertise s name valid)
  unfolding advertise
  advertise-Agrees s name false a = Untouched-Agrees s _ (refl, refl, refl) a
  advertise-Agrees s name true a =
      let (names, changed) = NamePrefixList.insert s.name_prefix_list name in
      announce-Agrees s names changed a

  withdraw-Agrees :
      (s : Nlsr Name D) (name : Name) (valid : Bool) → Agrees s → Agrees (withdraw s name valid)
  unfolding withdraw
  withdraw-Agrees s name false a = Untouched-Agrees s _ (refl, refl, refl) a
  withdraw-Agrees s name true a =
      let (names, changed) = NamePrefixList.remove s.name_prefix_list name in
      announce-Agrees s names changed a

  command-Agrees :
      (s : Nlsr Name D) (verb : Verb) (p : Option (Name × Bool))
      → Agrees s
      → Agrees (PrefixUpdate.on_command_validated s verb p)
  unfolding PrefixUpdate.on_command_validated
  command-Agrees s advertise_verb none a = Untouched-Agrees s _ (refl, refl, refl) a
  command-Agrees s withdraw_verb none a = Untouched-Agrees s _ (refl, refl, refl) a
  command-Agrees s other_verb p a = Untouched-Agrees s _ (refl, refl, refl) a
  command-Agrees s advertise_verb (some (name, valid)) a =
      Untouched-Agrees (advertise s name valid) _ (refl, refl, refl)
        (advertise-Agrees s name valid a)
  command-Agrees s withdraw_verb (some (name, valid)) a =
      Untouched-Agrees (withdraw s name valid) _ (refl, refl, refl) (withdraw-Agrees s name valid a)

  -- One step keeps the FIB in agreement with the name prefix table.
  pub Step-Agrees : (s t : Nlsr Name D) → Step s t → Agrees s → Agrees t
  Step-Agrees s _ (time_passes _) a = Untouched-Agrees s _ (refl, refl, refl) a
  Step-Agrees s _ (lsa_received r ls_type k nl al cl) a =
      lsa_received-Agrees s r ls_type k nl al cl a
  Step-Agrees s _ (lsa_asked r ls_type k) a =
      Untouched-Agrees s _ (lsa_asked-Untouched s r ls_type k) a
  Step-Agrees s _ (lsa_timed_out count deadline name ls_type k) a =
      Untouched-Agrees s _ (lsa_timed_out-Untouched s count deadline name ls_type k) a
  Step-Agrees s _ (lsa_refused deadline name k) a =
      Untouched-Agrees s _ (lsa_refused-Untouched s deadline name k) a
  Step-Agrees s _ (sync_received update) a =
      Untouched-Agrees s _ (sync_received-Untouched s update) a
  Step-Agrees s _ (name_lsa_due key k) a = expire_or_refresh_name-Agrees s key k a
  Step-Agrees s _ (adj_lsa_due key k) a = expire_or_refresh_adj-Agrees s key k a
  Step-Agrees s _ (coordinate_lsa_due key k) a = expire_or_refresh_coordinate-Agrees s key k a
  Step-Agrees s _ coordinate_lsa_built a = build_coordinate_lsa-Agrees s a
  Step-Agrees s _ adj_lsa_build_due a = build_scheduled-Agrees s a
  Step-Agrees s _ routes_calculated a = calculate-Agrees s a
  Step-Agrees s _ (command verb p) a = command-Agrees s verb p a
  Step-Agrees s _ hello_due a = Untouched-Agrees s _ (send_scheduled-Untouched s) a
  Step-Agrees s _ (hello_asked c r) a = Untouched-Agrees s _ (hello_asked-Untouched s c r) a
  Step-Agrees s _ (hello_timed_out c r) a = Untouched-Agrees s _ (hello_timed_out-Untouched s c r) a
  Step-Agrees s _ (hello_answered c r) a = Untouched-Agrees s _ (hello_answered-Untouched s c r) a
  Step-Agrees s _ (face_created id r keys strategy timeout) a =
      Untouched-Agrees s _ (face_created-Untouched s id r keys strategy timeout) a
  Step-Agrees s _ (face_refused r) a = Untouched-Agrees s _ (face_refused-Untouched s r) a
  Step-Agrees s _ (face_destroyed id) a = Untouched-Agrees s _ (face_destroyed-Untouched s id) a

  -- However many steps the router takes, the FIB agrees with the name prefix table if it did at the
  -- start: each name has in the FIB the faces that its next hops in the table call for, at most as
  -- many as configured.
  pub Run-Agrees : (s t : Nlsr Name D) → Run s t → Agrees s → Agrees t
  Run-Agrees s _ start a = a
  Run-Agrees s u (then_step {t} run step) a = Step-Agrees t u step (Run-Agrees s t run a)
