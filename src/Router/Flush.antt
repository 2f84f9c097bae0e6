-- ===== src/Router/Flush.antt =====
-- What an ARP reply releases.
use cmput.Base.{
  ℕ, ◌≤◌, ◌≡◌, ◌≢◌, refl, ap, Bool, true, false, List, [], ◌∷◌, some, All, Bytes, htons, length,
  length-slice, ltb, leb, ◌==◌, if◌then◌else◌, bytes_eq_refl, arith,
}
use cmput.Packet.{
  ether_shost, ether_type, ar_op, ar_sha, ar_sip, ar_tip, eth_size, ethertype_arp, arp_op_reply,
}
use cmput.Packet.Stores.{slice-stores_nth, length-stores}
use cmput.Iface.{Iface, get_interface, get_interface_by_ip}
use cmput.ArpCache.{ArpCache, ArpReq, QueuedPacket, find_request, arpcache_insert, arpreq_destroy}
use cmput.Router.{Router, done, ◌>>=◌, monad}
use cmput.Router.Send.{packet_message, send_packet, ether_addrs_match_interface}
use cmput.Router.Messages.{with_message}
use cmput.Router.Frames.{address_frame}
use cmput.Router.Handle.{flush_packets, take_arp_reply, interface_by_ip, handle_arp, handle_packet}

-- A frame with the source address of the interface goes out under the name that finds it.
send_packet_named :
    (buf name : Bytes) (r : Router) (i : Iface)
    → get_interface r.if_list name ≡ some i
    → eth_size ≤ length buf
    → ether_shost buf ≡ i.addr
    → length i.addr ≡ 6
    → (b : Bool) × (send_packet buf name r ≡ done b (with_message buf name r))
unfolding send_packet ether_addrs_match_interface
send_packet_named buf name r i g h s a =
    let whole : ltb (length buf) eth_size ≡ false = ground arith in
    (
      if ltb (r.written (length (packet_message buf name))) (length (packet_message buf name))
          then false
          else true,
      rw (whole, g, ether_addrs_match_interface, s, bytes_eq_refl 6 i.addr (omega arith)),
    )

-- A packet that waits, and the interface that it leaves by.
abbrev pub Waiting : Type 0
Waiting = QueuedPacket × Iface

-- A packet that can go: its interface is there, and it has a whole Ethernet header.
pub record IsReady (is : List Iface) (w : Waiting) : Type 0 where
  pub out : get_interface is w.0.iface ≡ some w.1
  pub long : eth_size ≤ length w.0.buf
  pub six : length w.1.addr ≡ 6

abbrev pub packets_of : List Waiting → List QueuedPacket
packets_of [] = []
packets_of (w ∷ ws) = w.0 ∷ packets_of ws

-- The router after it sent the packets to `mac`, in their order.
abbrev pub with_released : Bytes → List Waiting → Router → Router
with_released mac [] r = r
with_released mac (w ∷ ws) r =
    with_released mac ws (with_message (address_frame w.0.buf mac w.1.addr) w.0.iface r)

flush_packets-with_released :
    (mac : Bytes) (ws : List Waiting) (r : Router)
    → length mac ≡ 6
    → All (IsReady r.if_list) ws
    → flush_packets mac (packets_of ws) r ≡ done tt (with_released mac ws r)
unfolding flush_packets monad
flush_packets-with_released mac [] r six ready = refl
flush_packets-with_released mac (w ∷ ws) r six (v, ready) =
    let long : leb 12 (length w.0.buf) ≡ true = ground (arith, v.long) in
    let frame : Bytes = address_frame w.0.buf mac w.1.addr in
    let size : length frame ≡ length w.0.buf = length-stores w.0.buf _ in
    let (ok, sent) =
      send_packet_named frame w.0.iface r w.1 v.out (omega (arith, v.long, size))
        (slice-stores_nth w.0.buf _ 1 6 (omega (arith, v.six)) (omega (arith, v.long))
          (omega (arith, v.six, six)))
        v.six in
    rw (v.out, long, sent, ◌>>=◌)
      (flush_packets-with_released mac ws (with_message frame w.0.iface r) six ready)

with_released-cache :
    (mac : Bytes) (ws : List Waiting) (r : Router) → (with_released mac ws r).cache ≡ r.cache
with_released-cache mac [] r = refl
with_released-cache mac (w ∷ ws) r = with_released-cache mac ws _

-- The cache with the mapping of an ARP reply, and without the request that waited for it.
abbrev pub learned : ℕ → Bytes → ArpCache → ArpCache
learned now buf c = (arpcache_insert now c (ar_sha buf) (ar_sip buf)).0

-- The router after an ARP reply for which the request `q` waited, with the packets `ws`.
abbrev pub with_answer : ℕ → Bytes → ArpReq → List Waiting → Router → Router
with_answer now buf q ws r =
    record (with_released (ar_sha buf) ws (record r { cache = learned now buf r.cache })) {
      cache = arpreq_destroy (learned now buf r.cache) q.addr;
    }

take_arp_reply_releases :
    (now : ℕ) (buf : Bytes) (r : Router) (q : ArpReq) (ws : List Waiting)
    → length (ar_sha buf) ≡ 6
    → find_request (ar_sip buf) r.cache.requests ≡ some q
    → q.packets ≡ packets_of ws
    → All (IsReady r.if_list) ws
    → take_arp_reply now buf r ≡ done tt (with_answer now buf q ws r)
unfolding take_arp_reply monad arpcache_insert
take_arp_reply_releases now buf r q ws six e same ready =
    let s : Router = record r { cache = learned now buf r.cache } in
    rw (e, same, flush_packets-with_released (ar_sha buf) ws s six ready, ◌>>=◌)
      (ap
        (λ c.
          done tt (record (with_released (ar_sha buf) ws s) { cache = arpreq_destroy c q.addr }))
        (with_released-cache (ar_sha buf) ws s))

-- An ARP reply of at least 42 bytes for one of the router's addresses, other than 0, with a request
-- `q` in the queue for its sender, each of whose packets has a whole Ethernet header and an
-- interface, there, with a MAC address of six bytes: the mapping is stored as `sr_arpcache_insert`
-- does it, every packet is sent, in the order of the queue, to the MAC address of the reply and
-- from its interface, and the request is destroyed. Nothing else changes.
pub handle_packet_arp_reply :
    (fuel now : ℕ) (buf iface : Bytes) (r : Router) (j : Iface) (q : ArpReq) (ws : List Waiting)
    → 42 ≤ length buf
    → htons (ether_type buf) ≡ ethertype_arp
    → htons (ar_op buf) ≡ arp_op_reply
    → ar_tip buf ≢ 0
    → get_interface_by_ip r.if_list (ar_tip buf) ≡ some j
    → find_request (ar_sip buf) r.cache.requests ≡ some q
    → q.packets ≡ packets_of ws
    → All (IsReady r.if_list) ws
    → handle_packet fuel now buf iface r ≡ done tt (with_answer now buf q ws r)
unfolding handle_packet handle_arp interface_by_ip monad
handle_packet_arp_reply fuel now buf iface r j q ws h type op tip ours asked same ready =
    let short : ltb (length buf) eth_size ≡ false = ground arith in
    let long : leb 42 (length buf) ≡ true = ground arith in
    let given : (ar_tip buf == 0) ≡ false = ground arith in
    rw (short, type, long, given, ours, op, ◌>>=◌)
      (take_arp_reply_releases now buf r q ws (length-slice buf 22 6 (omega arith)) asked same
        ready)
