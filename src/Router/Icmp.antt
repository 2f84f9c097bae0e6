-- ===== src/Router/Icmp.antt =====
-- `send_icmp_msg` of assignment-3/router/sr_router.c and `handle_arpreq` of sr_arpcache.c, which
-- call each other. `now` is what `time` returns during one event.
use cmput.Base.{
  ℕ, zero, suc, ◌+◌, ◌*◌, ◌%◌, ◌^◌, List, [], ◌∷◌, Option, Bytes, bytes16, bytes32, slice, splice,
  head?, leb, ltb, ◌==◌, ◌||◌, if◌then◌else◌,
}
use cmput.Checksum.{cksum}
use cmput.Packet.{
  ip_hl, ip_src, eth_size, ip_size, arp_size, icmp_t3_size, icmp_data_size, icmp_type_echo_reply,
  icmp_type_dest_unreachable, icmp_type_time_exceeded, icmp_dest_unreachable_host,
  icmp_dest_unreachable_port,
}
use cmput.Iface.{Iface, get_interface}
use cmput.Route.{longest_prefix_matching}
use cmput.ArpCache.{
  ArpReq, QueuedPacket, arpcache_lookup, arpcache_queuereq, arpreq_destroy, request_at,
  update_request,
}
use cmput.Router.{
  M, null_deref, use_after_free, out_of_fuel, ◌>>=◌, ◌>>◌, return, abort, reads, on_cache,
  change_cache, if_null, need, deref, malloc,
}
use cmput.Router.Send.{send_packet}
use cmput.Router.Frames.{
  address_frame, swap_addresses, icmp_offset, icmp_header, icmp_length, error_packet,
  arp_request_frame,
}

-- The part that `send_icmp_msg` and `sr_forward_ip_packet` share: the packet goes out if the next
-- hop is in the ARP cache, and waits for it otherwise. `interface` may be null.
unfoldable pub send_or_queue : (ℕ → M (Unit {0})) → ℕ → Option Iface → Bytes → M (Unit {0})
send_or_queue handle gw interface buf = do
  entry ← reads λ r. arpcache_lookup r.cache gw
  if_null entry
      (do
        i ← deref null_deref interface
        request ← on_cache λ c. arpcache_queuereq c gw buf i.name
        handle request)
      (λ e. do
        i ← deref null_deref interface
        _ ← send_packet (address_frame buf e.mac i.addr) i.name
        return tt)

-- The reply to an echo request.
unfoldable pub echo_reply : ℕ → ℕ → Bytes → M Bytes
echo_reply type code packet = do
  let b = swap_addresses packet
  let o = icmp_offset b
  need (o + 4) b
  let c = icmp_header b o type code
  need (o + icmp_length c) c
  return (splice c (o + 2) (bytes16 (cksum (slice c o (icmp_length c)))))

-- The source address of an ICMP error: port unreachable comes from the address that was asked for.
unfoldable pub error_source : ℕ → Bytes → Option Iface → M Bytes
error_source code packet interface =
    if code == icmp_dest_unreachable_port
    then return (slice packet 30 4)
    else (do i ← deref null_deref interface; return (bytes32 i.ip))

unfoldable pub icmp_error : ℕ → ℕ → Bytes → Option Iface → M Bytes
icmp_error type code packet interface = do
  p ← reads λ r. malloc r (eth_size + ip_hl packet * 4 + icmp_t3_size)
  src ← error_source code packet interface
  need (eth_size + icmp_data_size) packet
  return (error_packet packet p src type code)

-- `send_icmp_msg`, with the call of `handle_arpreq` that it makes. The debug output in front reads
-- the packet, which has at least an Ethernet and an IP header.
unfoldable pub icmp_msg_with : (ℕ → M (Unit {0})) → Bytes → ℕ → ℕ → M (Unit {0})
icmp_msg_with handle packet type code = do
  need (eth_size + ip_size) packet
  rt_entry ← reads λ r. longest_prefix_matching r.routing_table (ip_src packet)
  if_null rt_entry (return tt) λ e. do
    interface ← reads λ r. get_interface r.if_list e.interface
    if type == icmp_type_echo_reply
        then (do b ← echo_reply type code packet; send_or_queue handle e.gw interface b)
        else if type == icmp_type_time_exceeded || type == icmp_type_dest_unreachable
        then (do b ← icmp_error type code packet interface; send_or_queue handle e.gw interface b)
        else return tt

-- `sent = now; times_sent++`
abbrev pub mark_sent : ℕ → ArpReq → ArpReq
mark_sent now q = record q { sent = now; times_sent = (q.times_sent + 1) % 2 ^ 32 }

-- The branch of `handle_arpreq` that asks again.
unfoldable pub send_arp_request : ℕ → ArpReq → M (Unit {0})
send_arp_request now q = do
  p ← deref null_deref (head? q.packets)
  interface ← reads λ r. get_interface r.if_list p.iface
  if_null interface (return tt) λ i. do
    frame ← reads λ r. arp_request_frame (malloc r (eth_size + arp_size)) i q.ip
    _ ← send_packet frame i.name
    change_cache λ c. record c { requests = update_request q.addr (mark_sent now) c.requests }

-- A node of the list of waiting packets, before and after `free`.
pub data Node : Type 0 where
  live : QueuedPacket → List QueuedPacket → Node
  freed : Node

abbrev pub free : Node → Node
free node = freed

-- `packet->next`
unfoldable pub read_next : Node → M (List QueuedPacket)
read_next (live p next) = return next
read_next freed = abort use_after_free

-- The loop over the waiting packets, which frees each before it reads its `next`.
unfoldable pub report_packets : (Bytes → ℕ → ℕ → M (Unit {0})) → List QueuedPacket → M (Unit {0})
report_packets send [] = return tt
report_packets send (p ∷ ps) = do
  send p.buf icmp_type_dest_unreachable icmp_dest_unreachable_host
  next ← read_next (free (live p ps))
  report_packets send ps

-- The branch that gives up: host unreachable to the sender of each waiting packet.
unfoldable pub give_up : (Bytes → ℕ → ℕ → M (Unit {0})) → ArpReq → M (Unit {0})
give_up send q = do report_packets send q.packets; change_cache λ c. arpreq_destroy c q.addr

-- `handle_arpreq` for the request at the address `a`, with the `send_icmp_msg` that it calls.
unfoldable pub handle_arpreq_with : (Bytes → ℕ → ℕ → M (Unit {0})) → ℕ → ℕ → M (Unit {0})
handle_arpreq_with send now a = do
  request ← reads λ r. request_at a r.cache.requests
  q ← deref use_after_free request
  if ltb (q.sent + 1) now
      then (if leb 5 q.times_sent then give_up send q else send_arp_request now q)
      else return tt

-- The two functions, down to `fuel` calls of `send_icmp_msg` inside one another.
unfoldable pub send_icmp_msg : ℕ → ℕ → Bytes → ℕ → ℕ → M (Unit {0})
send_icmp_msg zero now packet type code = abort out_of_fuel
send_icmp_msg (suc fuel) now packet type code =
    icmp_msg_with (handle_arpreq_with (send_icmp_msg fuel now) now) packet type code

unfoldable pub handle_arpreq : ℕ → ℕ → ℕ → M (Unit {0})
handle_arpreq fuel now a = handle_arpreq_with (send_icmp_msg fuel now) now a
