-- ===== src/Publisher/Handler.antt =====
-- src/publisher/lsdb-dataset-interest-handler.cpp: the interests that ask for a data set. The router
-- answers under a command prefix, which is a name under /localhost/nlsr or its own name.
use ndnproject.Prelude.{
  Bool, Double, Eq, List, NdnName, Str, [], if◌then◌else◌, nat_eq, str_eq, true, ℕ, ◌&&◌, ◌+◌, ◌==◌,
  ◌∷◌, ◌≡◌,
}
use ndnproject.Nlsr.{Nlsr}
use ndnproject.Publisher.{
  Segment, publish, generate_adjacency_lsas, generate_coordinate_lsas, generate_name_lsas,
  generate_lsdb_status,
}
use ndnproject.Tlv.Blocks.{Wire}

-- `isPrefixOf`, and `get`, which is called with an index within the name only.
pub record NdnCommand (Name : Type 0) ⦃n : NdnName Name⦄ : Type 0 where
  pub is_prefix_of : Name → Name → Bool
  pub get : Name → ℕ → Str
  pub is_prefix_of-append : (a : Name) (s : Str) → is_prefix_of a (n.append a s) ≡ true
  pub get-append : (a : Name) (s : Str) → get (n.append a s) (n.size a) ≡ s
  pub size-append : (a : Name) (s : Str) → n.size (n.append a s) ≡ n.size a + 1
  pub child :
      (a b : Name)
      → n.size b ≡ n.size a + 1
      → is_prefix_of a b ≡ true
      → b ≡ n.append a (get b (n.size a))

-- The `DATASET_COMPONENT` of the publishers.
abbrev pub adjacencies_component : Str
adjacencies_component =
    b'a' ∷ b'd' ∷ b'j' ∷ b'a' ∷ b'c' ∷ b'e' ∷ b'n' ∷ b'c' ∷ b'i' ∷ b'e' ∷ b's' ∷ []

abbrev pub coordinates_component : Str
coordinates_component =
    b'c' ∷ b'o' ∷ b'o' ∷ b'r' ∷ b'd' ∷ b'i' ∷ b'n' ∷ b'a' ∷ b't' ∷ b'e' ∷ b's' ∷ []

abbrev pub names_component : Str
names_component = b'n' ∷ b'a' ∷ b'm' ∷ b'e' ∷ b's' ∷ []

abbrev pub list_component : Str
list_component = b'l' ∷ b'i' ∷ b's' ∷ b't' ∷ []

abbrev pub error_code_malformed_command : ℕ
error_code_malformed_command = 400

abbrev pub error_code_unsupported_command : ℕ
error_code_unsupported_command = 501

unfoldable pub is_valid_command_prefix :
    {Name : Type 0} ⦃n : NdnName Name⦄ (c : NdnCommand Name) → Name → Name → Bool
is_valid_command_prefix ⦃n⦄ c interest command_prefix =
    (n.size interest == n.size command_prefix + 1) && c.is_prefix_of command_prefix interest

-- What is put for an interest: the segments of a data set, or the code of a control response.
pub data Response : Type 0 where
  data_set : List Segment → Response
  error_response : ℕ → Response

module _ {Name D : Type 0} ⦃e : Eq Name⦄ ⦃n : NdnName Name⦄ ⦃d : Double D⦄ (c : NdnCommand Name)
    (w : Wire Name D) (max_ndn_packet_size : ℕ) where
  unfoldable pub process_command : Nlsr Name D → Str → Response
  unfolding publish generate_adjacency_lsas generate_coordinate_lsas generate_name_lsas
      generate_lsdb_status
  process_command s command =
      if command == adjacencies_component
      then data_set (publish max_ndn_packet_size (generate_adjacency_lsas w s))
      else if command == coordinates_component
      then data_set (publish max_ndn_packet_size (generate_coordinate_lsas w s))
      else if command == names_component
      then data_set (publish max_ndn_packet_size (generate_name_lsas w s))
      else if command == list_component
      then data_set (publish max_ndn_packet_size (generate_lsdb_status w s))
      else error_response error_code_unsupported_command

  unfoldable pub on_interest : Nlsr Name D → Name → Name → Response
  unfolding is_valid_command_prefix process_command
  on_interest s interest command_prefix =
      if is_valid_command_prefix c interest command_prefix
      then process_command s (c.get interest (n.size command_prefix))
      else error_response error_code_malformed_command
