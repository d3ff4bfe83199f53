-- ===== src/Statistics.antt =====
-- src/statistics.hpp: the packets that are counted.
pub data PacketType : Type 0 where
  sent_hello_interest sent_hello_data rcv_hello_interest rcv_hello_data : PacketType
  sent_sync_interest sent_sync_recovery_interest sent_sync_data sent_sync_recovery_data : PacketType
  rcv_sync_interest rcv_sync_recovery_interest rcv_sync_data rcv_sync_recovery_data : PacketType
  sent_lsa_interest sent_adj_lsa_interest sent_coord_lsa_interest : PacketType
  sent_name_lsa_interest sent_adj_lsa_data sent_coord_lsa_data sent_name_lsa_data : PacketType
  rcv_lsa_interest rcv_adj_lsa_interest rcv_coord_lsa_interest rcv_name_lsa_interest : PacketType
  rcv_adj_lsa_data rcv_coord_lsa_data rcv_name_lsa_data : PacketType
