-- ===== src/Router/Frames.antt =====
-- The frames that the router makes (assignment-3/router/sr_router.c and sr_arpcache.c), as stores
-- into a buffer, in program order.
use cmput.Base.{
  ℕ, ◌+◌, ◌-◌, ◌*◌, [], ◌∷◌, Bytes, bytes16, bytes32, slice, splice, htons, replicate, ◌==◌,
  if◌then◌else◌,
}
use cmput.Checksum.{cksum}
use cmput.Packet.{
  stores, ip_hl, ip_len, eth_size, icmp_t3_size, icmp_data_size, ethertype_arp, ethertype_ip,
  arp_op_request, arp_op_reply, arp_hrd_ethernet, ip_protocol_icmp,
}
use cmput.Iface.{Iface}

abbrev pub no_mac : Bytes
no_mac = replicate 6 0

-- The packet on its way out: `dhost` and `shost` are filled in.
abbrev pub address_frame : Bytes → Bytes → Bytes → Bytes
address_frame buf dhost shost = stores buf ((0, dhost) ∷ (6, shost) ∷ [])

-- The echo reply, made in place: no MAC addresses, the IP addresses swapped, the ICMP header at
-- offset `o` rewritten and its checksum computed over `ip_len - ip_hl * 4` bytes.
unfoldable pub swap_addresses : Bytes → Bytes
swap_addresses b =
    stores b ((6, no_mac) ∷ (0, no_mac) ∷ (30, slice b 26 4) ∷ (26, slice b 30 4) ∷ [])

abbrev pub icmp_offset : Bytes → ℕ
icmp_offset b = eth_size + ip_hl b * 4

unfoldable pub icmp_header : Bytes → ℕ → ℕ → ℕ → Bytes
icmp_header b o type code = stores b ((o, type ∷ []) ∷ (o + 1, code ∷ []) ∷ (o + 2, bytes16 0) ∷ [])

abbrev pub icmp_length : Bytes → ℕ
icmp_length b = htons (ip_len b) - ip_hl b * 4

-- The ICMP error: a new packet whose IP header copies `ip_hl`, with the first 28 bytes of the
-- packet's IP header and data. `p` is the allocated memory.
unfoldable pub error_ip_header : Bytes → Bytes → Bytes → Bytes
error_ip_header packet p src =
    let hl = ip_hl packet in
    stores p (
      (6, no_mac)
      ∷ (0, no_mac)
      ∷ (12, bytes16 (htons ethertype_ip))
      ∷ (14, (4 * 16 + hl) ∷ [])
      ∷ (15, 0 ∷ [])
      ∷ (16, bytes16 (htons (hl * 4 + icmp_t3_size)))
      ∷ (18, bytes16 (htons 0))
      ∷ (20, bytes16 (htons 0x4000))
      ∷ (22, 255 ∷ [])
      ∷ (23, ip_protocol_icmp ∷ [])
      ∷ (26, src)
      ∷ (30, slice packet 26 4)
      ∷ (24, bytes16 0)
      ∷ [])

unfoldable pub error_icmp_header : Bytes → Bytes → ℕ → ℕ → Bytes
error_icmp_header packet p type code =
    let o = eth_size + ip_hl packet * 4 in
    stores p (
      (o, type ∷ [])
      ∷ (o + 1, code ∷ [])
      ∷ (o + 4, bytes16 0)
      ∷ (o + 6, bytes16 0)
      ∷ (o + 8, slice packet eth_size icmp_data_size)
      ∷ (o + 2, bytes16 0)
      ∷ [])

unfoldable pub error_packet : Bytes → Bytes → Bytes → ℕ → ℕ → Bytes
unfolding error_ip_header error_icmp_header
error_packet packet p src type code =
    let hl = ip_hl packet in
    let o = eth_size + hl * 4 in
    let q = error_ip_header packet p src in
    let h = splice q 24 (bytes16 (cksum (slice q eth_size (hl * 4)))) in
    let e = error_icmp_header packet h type code in
    splice e (o + 2) (bytes16 (cksum (slice e o icmp_t3_size)))

-- `arp_header_init`: the fields of an ARP header that do not depend on the request.
unfoldable pub arp_header_init : Bytes → ℕ → Bytes
arp_header_init b opcode =
    let h = stores b (
      (14, bytes16 (htons arp_hrd_ethernet))
      ∷ (16, bytes16 (htons ethertype_ip))
      ∷ (18, 6 ∷ [])
      ∷ (19, 4 ∷ [])
      ∷ []) in
    if opcode == arp_op_request
    then splice h 20 (bytes16 (htons arp_op_request))
    else if opcode == arp_op_reply
    then splice h 20 (bytes16 (htons arp_op_reply))
    else h

-- The ARP request for `ip`, from the interface, in the allocated memory `p`.
unfoldable pub arp_request_frame : Bytes → Iface → ℕ → Bytes
unfolding arp_header_init
arp_request_frame p i ip =
    let b =
      stores p ((0, replicate 6 0xff) ∷ (6, i.addr) ∷ (12, bytes16 (htons ethertype_arp)) ∷ []) in
    stores (arp_header_init b arp_op_request)
      ((32, no_mac) ∷ (38, bytes32 ip) ∷ (22, i.addr) ∷ (28, bytes32 i.ip) ∷ [])
