-- ===== src/Router/Handle.antt =====
-- `sr_forward_ip_packet` and `sr_handlepacket` of assignment-3/router/sr_router.c, and the sweep and
-- the timer of sr_arpcache.c.
use cmput.Base.{
  ℕ, zero, suc, ◌+◌, ◌-◌, ◌*◌, List, [], ◌∷◌, Option, none, some, Bytes, bytes16, bytes32, slice,
  splice, le8, htons, length, leb, ltb, ◌==◌, ◌||◌, not, if◌then◌else◌,
}
use cmput.Checksum.{cksum}
use cmput.Packet.{
  stores, ether_type, ether_shost, ip_hl, ip_ttl, ip_p, ip_sum, ip_dst, ar_op, ar_sha, ar_sip,
  ar_tip, eth_size, ip_size, arp_size, ethertype_arp, ethertype_ip, arp_op_request, arp_op_reply,
  arp_hrd_ethernet, ip_protocol_icmp, ip_protocol_tcp, ip_protocol_udp, icmp_type_echo_reply,
  icmp_type_dest_unreachable, icmp_type_echo_request, icmp_type_time_exceeded,
  icmp_dest_unreachable_net, icmp_dest_unreachable_port,
}
use cmput.Iface.{Iface, get_interface, get_interface_by_ip}
use cmput.Route.{longest_prefix_matching}
use cmput.ArpCache.{ArpReq, QueuedPacket, arpcache_insert, arpreq_destroy, expire_entries}
use cmput.Router.{
  M, null_deref, use_after_free, assert_failed, out_of_fuel, ◌>>=◌, ◌>>◌, return, abort, reads,
  on_cache, change_cache, if_null, need, deref,
}
use cmput.Router.Send.{send_packet}
use cmput.Router.Frames.{address_frame}
use cmput.Router.Icmp.{send_or_queue, send_icmp_msg, handle_arpreq}

-- `ip_ttl--; ip_sum = 0; ip_sum = cksum(ip_header, sizeof(sr_ip_hdr_t))`, on a header whose
-- checksum field is cleared already.
unfoldable pub next_hop_frame : Bytes → Bytes
next_hop_frame b =
    let c = stores b ((22, (ip_ttl b - 1) ∷ []) ∷ (24, bytes16 0) ∷ []) in
    splice c 24 (bytes16 (cksum (slice c eth_size ip_size)))

-- `sr_forward_ip_packet`, for a packet with an Ethernet and an IP header.
unfoldable pub forward_ip_packet : ℕ → ℕ → Bytes → M (Unit {0})
forward_ip_packet fuel now packet =
    let b = splice packet 24 (bytes16 0) in
    if not (ip_sum packet == cksum (slice b eth_size ip_size))
    then return tt
    else if leb (ip_ttl b) 1
    then send_icmp_msg fuel now b icmp_type_time_exceeded 0
    else (do
      let c = next_hop_frame b
      rt_entry ← reads λ r. longest_prefix_matching r.routing_table (ip_dst c)
      if_null rt_entry
          (send_icmp_msg fuel now c icmp_type_dest_unreachable icmp_dest_unreachable_net)
          (λ e. do
            interface ← reads λ r. get_interface r.if_list e.interface
            send_or_queue (handle_arpreq fuel now) e.gw interface c))

-- The ARP reply: a copy of the request with these fields rewritten.
unfoldable pub arp_reply_frame : Bytes → Iface → Bytes
arp_reply_frame buf i = stores buf (
    (0, ether_shost buf)
    ∷ (6, i.addr)
    ∷ (12, bytes16 (htons ethertype_arp))
    ∷ (14, bytes16 (htons arp_hrd_ethernet))
    ∷ (16, bytes16 (htons ethertype_ip))
    ∷ (18, 6 ∷ [])
    ∷ (19, 4 ∷ [])
    ∷ (20, bytes16 (htons arp_op_reply))
    ∷ (22, i.addr)
    ∷ (28, bytes32 i.ip)
    ∷ (32, ar_sha buf)
    ∷ (38, bytes32 (ar_sip buf))
    ∷ [])

unfoldable pub answer_arp_request : Bytes → Bytes → M (Unit {0})
answer_arp_request buf iface = do
  interface ← reads λ r. get_interface r.if_list iface
  i ← deref null_deref interface
  _ ← send_packet (arp_reply_frame buf i) i.name
  return tt

-- The loop over the packets that waited for the address `mac`.
unfoldable pub flush_packets : Bytes → List QueuedPacket → M (Unit {0})
flush_packets mac [] = return tt
flush_packets mac (p ∷ ps) = do
  interface ← reads λ r. get_interface r.if_list p.iface
  if_null interface (return tt)
      λ i. do need 12 p.buf; _ ← send_packet (address_frame p.buf mac i.addr) p.iface; return tt
  flush_packets mac ps

-- The request was unlinked by the insertion; `sr_arpreq_destroy` frees it.
unfoldable pub take_arp_reply : ℕ → Bytes → M (Unit {0})
take_arp_reply now buf = do
  request ← on_cache λ c. arpcache_insert now c (ar_sha buf) (ar_sip buf)
  if_null request (return tt)
      λ q. do flush_packets (ar_sha buf) q.packets; change_cache λ c. arpreq_destroy c q.addr

-- `sr_get_interface_by_ip` with its assertion that the address is not 0.
unfoldable pub interface_by_ip : ℕ → M (Option Iface)
interface_by_ip ip =
    if ip == 0 then abort assert_failed else reads λ r. get_interface_by_ip r.if_list ip

-- The branch for ARP. There is no test of the length: the fields are read from the frame as it is.
unfoldable pub handle_arp : ℕ → Bytes → Bytes → M (Unit {0})
handle_arp now buf iface = do
  need (eth_size + arp_size) buf
  interface ← interface_by_ip (ar_tip buf)
  if_null interface (return tt) λ _.
      if htons (ar_op buf) == arp_op_request
      then answer_arp_request buf iface
      else if htons (ar_op buf) == arp_op_reply
      then take_arp_reply now buf
      else return tt

-- A packet for one of the router's own addresses.
unfoldable pub handle_local : ℕ → ℕ → Bytes → M (Unit {0})
handle_local fuel now buf =
    let o = eth_size + ip_hl buf * 4 in
    if ip_p buf == ip_protocol_icmp
    then (do
      need (o + 1) buf
      if le8 (slice buf o 1) == icmp_type_echo_request
          then send_icmp_msg fuel now buf icmp_type_echo_reply 0
          else return tt)
    else if ip_p buf == ip_protocol_tcp || ip_p buf == ip_protocol_udp
    then send_icmp_msg fuel now buf icmp_type_dest_unreachable icmp_dest_unreachable_port
    else return tt

-- The branch for IP. The checksum field is cleared for the test and put back after it.
unfoldable pub handle_ip : ℕ → ℕ → Bytes → M (Unit {0})
handle_ip fuel now buf = if ltb (length buf) (eth_size + ip_size) then return tt else (do
  need (eth_size + ip_hl buf * 4) buf
  if not (cksum (slice (splice buf 24 (bytes16 0)) eth_size (ip_hl buf * 4)) == ip_sum buf)
      then return tt
      else if leb (ip_ttl buf) 1
      then send_icmp_msg fuel now buf icmp_type_time_exceeded 0
      else (do
        interface ← interface_by_ip (ip_dst buf)
        if_null interface (forward_ip_packet fuel now buf) λ _. handle_local fuel now buf))

-- `sr_handlepacket` for a frame of the interface `iface`.
unfoldable pub handle_packet : ℕ → ℕ → Bytes → Bytes → M (Unit {0})
handle_packet fuel now buf iface =
    if ltb (length buf) eth_size
    then return tt
    else if htons (ether_type buf) == ethertype_arp
    then handle_arp now buf iface
    else if htons (ether_type buf) == ethertype_ip
    then handle_ip fuel now buf
    else return tt

-- The node behind the one at `a`; `none` if there is no node at `a`, so that its `next` cannot be
-- read.
unfoldable pub next_request : ℕ → List ArpReq → Option (Option ℕ)
next_request a [] = none
next_request a (q ∷ []) = if q.addr == a then some none else none
next_request a (q ∷ p ∷ qs) =
    let rest = next_request a (p ∷ qs) in if q.addr == a then some (some p.addr) else rest

-- `sr_arpcache_sweepreqs`: the walk from the node at an address, `steps` nodes at most.
unfoldable pub sweep_from : ℕ → ℕ → ℕ → Option ℕ → M (Unit {0})
sweep_from steps fuel now none = return tt
sweep_from zero fuel now (some a) = abort out_of_fuel
sweep_from (suc steps) fuel now (some a) = do
  node ← reads λ r. next_request a r.cache.requests
  next ← deref use_after_free node
  handle_arpreq fuel now a
  sweep_from steps fuel now next

abbrev pub head_addr : List ArpReq → Option ℕ
head_addr [] = none
head_addr (q ∷ qs) = some q.addr

unfoldable pub sweepreqs : ℕ → ℕ → M (Unit {0})
sweepreqs fuel now = do
  requests ← reads λ r. r.cache.requests
  sweep_from (length requests) fuel now (head_addr requests)

-- One round of the timer thread, `sr_arpcache_timeout`.
unfoldable pub timer_round : ℕ → ℕ → M (Unit {0})
timer_round fuel now = do change_cache (expire_entries now); sweepreqs fuel now
