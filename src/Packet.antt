-- ===== src/Packet.antt =====
-- The frame layouts of assignment-3/router/sr_protocol.h: each packed struct is a set of offsets
-- into the bytes of a frame, read and written as on a little-endian host.
pub mod Stores
use cmput.Base.{ℕ, ◌%◌, List, [], ◌∷◌, Bytes, slice, splice, le8, le16, le32}

-- sizeof(sr_ethernet_hdr_t), sizeof(sr_ip_hdr_t), sizeof(sr_arp_hdr_t), sizeof(sr_icmp_t3_hdr_t)
abbrev pub eth_size : ℕ
eth_size = 14

abbrev pub ip_size : ℕ
ip_size = 20

abbrev pub arp_size : ℕ
arp_size = 28

abbrev pub icmp_t3_size : ℕ
icmp_t3_size = 36

abbrev pub icmp_data_size : ℕ
icmp_data_size = 28

abbrev pub ether_addr_len : ℕ
ether_addr_len = 6

-- enum sr_ethertype
abbrev pub ethertype_arp : ℕ
ethertype_arp = 0x0806

abbrev pub ethertype_ip : ℕ
ethertype_ip = 0x0800

-- enum sr_arp_opcode, enum sr_arp_hrd_fmt
abbrev pub arp_op_request : ℕ
arp_op_request = 1

abbrev pub arp_op_reply : ℕ
arp_op_reply = 2

abbrev pub arp_hrd_ethernet : ℕ
arp_hrd_ethernet = 1

-- enum sr_ip_protocol
abbrev pub ip_protocol_icmp : ℕ
ip_protocol_icmp = 1

abbrev pub ip_protocol_tcp : ℕ
ip_protocol_tcp = 6

abbrev pub ip_protocol_udp : ℕ
ip_protocol_udp = 17

-- enum sr_icmp_type
abbrev pub icmp_type_echo_reply : ℕ
icmp_type_echo_reply = 0

abbrev pub icmp_type_dest_unreachable : ℕ
icmp_type_dest_unreachable = 3

abbrev pub icmp_type_echo_request : ℕ
icmp_type_echo_request = 8

abbrev pub icmp_type_time_exceeded : ℕ
icmp_type_time_exceeded = 11

-- enum sr_icmp_dest_unreachable_code
abbrev pub icmp_dest_unreachable_net : ℕ
icmp_dest_unreachable_net = 0

abbrev pub icmp_dest_unreachable_host : ℕ
icmp_dest_unreachable_host = 1

abbrev pub icmp_dest_unreachable_port : ℕ
icmp_dest_unreachable_port = 3

-- The fields that the router reads; multi-byte fields as the host reads them, with no `ntohs`.
module _ (b : Bytes) where
  abbrev pub ether_dhost : Bytes
  ether_dhost = slice b 0 6

  abbrev pub ether_shost : Bytes
  ether_shost = slice b 6 6

  abbrev pub ether_type : ℕ
  ether_type = le16 (slice b 12 2)

  -- The low and the high half of the first byte of the IP header.
  abbrev pub ip_hl : ℕ
  ip_hl = le8 (slice b 14 1) % 16

  abbrev pub ip_len : ℕ
  ip_len = le16 (slice b 16 2)

  abbrev pub ip_ttl : ℕ
  ip_ttl = le8 (slice b 22 1)

  abbrev pub ip_p : ℕ
  ip_p = le8 (slice b 23 1)

  abbrev pub ip_sum : ℕ
  ip_sum = le16 (slice b 24 2)

  abbrev pub ip_src : ℕ
  ip_src = le32 (slice b 26 4)

  abbrev pub ip_dst : ℕ
  ip_dst = le32 (slice b 30 4)

  abbrev pub ar_op : ℕ
  ar_op = le16 (slice b 20 2)

  abbrev pub ar_sha : Bytes
  ar_sha = slice b 22 6

  abbrev pub ar_sip : ℕ
  ar_sip = le32 (slice b 28 4)

  abbrev pub ar_tip : ℕ
  ar_tip = le32 (slice b 38 4)

-- Stores through struct pointers, in program order: each writes bytes at an offset.
unfoldable pub stores : Bytes → List (ℕ × Bytes) → Bytes
stores b [] = b
stores b ((off, xs) ∷ ws) = stores (splice b off xs) ws
