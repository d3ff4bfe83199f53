-- ===== src/Examples/Datasets.antt =====
-- The theorems on the data sets at concrete inputs.
use ndnproject.Prelude.{Str, [], arith, length, map, nat_eq, some, str_eq, ℕ, ◌↔◌, ◌∷◌, ◌≡◌}
use ndnproject.Examples.{router_a, idle, names_of_b, links_of_b, place_of_b}
use mathlib.Core.List.{reverse}
use ndnproject.Adjacency.{get_link_cost, insert}
use ndnproject.Examples.Wires.{plain_wire, plain_command}
use ndnproject.Instances.{str_name, whole_double}
use ndnproject.Keyed.{find}
use ndnproject.Lsa.{new_name_lsa, new_coordinate_lsa, new_adj_lsa, add_active}
use ndnproject.Nlsr.{Nlsr}
use ndnproject.Publisher.{publish, tlv_adjacency_lsas, tlv_coordinate_lsas, tlv_name_lsas}
use ndnproject.Publisher.Answers.{
  Answers, answer, IsRefused, on_interest-Answers, on_interest-list, on_interest-error,
}
use ndnproject.Publisher.Contents.{IsPublishable, published, published-IsEncodable}
use ndnproject.Publisher.Handler.{
  on_interest, error_response, adjacencies_component, coordinates_component, names_component,
  list_component, error_code_malformed_command,
}
use ndnproject.Publisher.Segments.{joined, AreSegments, publish-joined}
use ndnproject.Tlv.Blocks.{Block}
use ndnproject.Tlv.AdjacencyLsa
use ndnproject.Tlv.CoordinateLsa
use ndnproject.Tlv.NameLsa
use ndnproject.Tlv.LsdbStatus
use ndnproject.Tlv.LsdbStatus.{LsdbStatus, wire_decode-wire_encode}
use ndnproject.Tlv.{ok}

abbrev five_bytes : Str
five_bytes = 1 ∷ 2 ∷ 3 ∷ 4 ∷ 5 ∷ []

publish-joined_example :
    (joined (publish 4 five_bytes) ≡ five_bytes) × AreSegments 2 0 (publish 4 five_bytes)
publish-joined_example = publish-joined 4 five_bytes (omega arith)

-- A router that has one LSA of each kind, of another one.
abbrev stored : Nlsr Str ℕ
stored = record idle {
  lsdb = record (idle.lsdb) {
    name_lsdb = names_of_b ∷ [];
    adj_lsdb = links_of_b ∷ [];
    cor_lsdb = place_of_b ∷ [];
  };
}

stored-IsPublishable : IsPublishable stored
unfolding get_link_cost new_name_lsa new_coordinate_lsa new_adj_lsa add_active insert find
stored-IsPublishable = record {
  names = (omega arith, tt);
  coordinates = (omega arith, tt);
  adjacencies = ((omega arith, (omega arith, tt)), tt);
}

abbrev status : LsdbStatus Str ℕ
status = published (tlv_adjacency_lsas stored) (tlv_coordinate_lsas stored) (tlv_name_lsas stored)

status-IsEncodable : LsdbStatus.IsEncodable status
status-IsEncodable = published-IsEncodable stored stored-IsPublishable

wire_decode-wire_encode_example :
    let (bytes, size) = LsdbStatus.wire_encode plain_wire status [] in
    (b : Block) × (plain_wire.parse bytes ≡ some (b ∷ []))
    × (LsdbStatus.wire_decode plain_wire b ≡ ok status)
    × (size ≡ length bytes)
wire_decode-wire_encode_example = wire_decode-wire_encode plain_wire status status-IsEncodable

on_interest-Answers_example :
    Answers plain_command plain_wire 16
      (answer plain_command plain_wire 16 router_a stored adjacencies_component)
      (map (AdjacencyLsa.block plain_wire) (reverse (tlv_adjacency_lsas stored)))
    × Answers plain_command plain_wire 16
        (answer plain_command plain_wire 16 router_a stored coordinates_component)
        (map (CoordinateLsa.block plain_wire) (reverse (tlv_coordinate_lsas stored)))
    × Answers plain_command plain_wire 16
        (answer plain_command plain_wire 16 router_a stored names_component)
        (map (NameLsa.block plain_wire) (reverse (tlv_name_lsas stored)))
on_interest-Answers_example =
    on_interest-Answers plain_command plain_wire 16 router_a stored (omega arith)

on_interest-list_example :
    (b : Block) × Answers plain_command plain_wire 16
      (answer plain_command plain_wire 16 router_a stored list_component)
      (b ∷ [])
    × (LsdbStatus.wire_decode plain_wire b ≡ ok status)
on_interest-list_example =
    on_interest-list plain_command plain_wire 16 router_a stored (omega arith) stored-IsPublishable

-- The router's own name is not below itself.
on_interest-error_example :
    (on_interest plain_command plain_wire 16 stored router_a router_a
      ≡ error_response error_code_malformed_command)
    ↔ IsRefused plain_command plain_wire 16 router_a router_a error_code_malformed_command
on_interest-error_example =
    on_interest-error plain_command plain_wire 16 stored router_a router_a
      error_code_malformed_command
