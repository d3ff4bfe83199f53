-- ===== src/PrefixUpdate.antt =====
-- src/update/prefix-update-processor.cpp: the commands that advertise and withdraw names. A command's
-- parameters are `none` if they cannot be decoded, and else the name and whether the validation of
-- the request by ndn-cxx accepts them. Responses are calls, named by their codes.
use ndnproject.Prelude.{
  Bool, Double, Eq, List, NdnName, Option, false, if◌then◌else◌, none, not, some, true,
}
use ndnproject.Lsdb.{publish}
use ndnproject.Lsdb.Names.{build_and_install_own_name_lsa}
use ndnproject.NamePrefixList
use ndnproject.Nlsr.{Nlsr, ask, send_response, send_nack}

pub data Verb : Type 0 where
  advertise_verb withdraw_verb other_verb : Verb

module _ {Name D : Type 0} ⦃e : Eq Name⦄ ⦃n : NdnName Name⦄ ⦃d : Double D⦄ where
  -- What follows a change of the list of names: a name LSA is built only then.
  unfoldable pub announce : Nlsr Name D → List Name × Bool → Nlsr Name D
  unfolding build_and_install_own_name_lsa publish
  announce s (names, changed) =
      let t : Nlsr Name D = record s { name_prefix_list = names } in
      if changed then publish (build_and_install_own_name_lsa t) else t

  unfoldable pub advertise : Nlsr Name D → Name → Bool → Nlsr Name D
  unfolding announce NamePrefixList.insert
  advertise s name valid =
      if not valid
      then ask s (send_response 400)
      else announce s (NamePrefixList.insert s.name_prefix_list name)

  unfoldable pub withdraw : Nlsr Name D → Name → Bool → Nlsr Name D
  unfolding announce NamePrefixList.remove
  withdraw s name valid =
      if not valid
      then ask s (send_response 400)
      else announce s (NamePrefixList.remove s.name_prefix_list name)

  unfoldable pub on_command_validated : Nlsr Name D → Verb → Option (Name × Bool) → Nlsr Name D
  unfolding advertise withdraw
  on_command_validated s advertise_verb none = ask s (send_response 400)
  on_command_validated s withdraw_verb none = ask s (send_response 400)
  on_command_validated s advertise_verb (some (name, valid)) =
      ask (advertise s name valid) (send_response 200)
  on_command_validated s withdraw_verb (some (name, valid)) =
      ask (withdraw s name valid) (send_response 200)
  on_command_validated s other_verb parameters = ask s (send_response 501)

  -- `onInterest`, up to the validator: whether the command is to be validated.
  unfoldable pub on_interest : Nlsr Name D → Bool → Nlsr Name D × Bool
  on_interest s is_enabled = if not is_enabled then (ask s send_nack, false) else (s, true)

  unfoldable pub on_command_validation_failed : Nlsr Name D → Nlsr Name D
  on_command_validation_failed s = ask s (send_response 403)
