-- ===== src/Router/Forward.antt =====
-- What `sr_forward_ip_packet` does with a packet: it goes to the next hop, or waits for its address.
use cmput.Base.{
  refl, ℕ, ◌≤◌, ◌<◌, ◌≡◌, ap, le8, le32, ◌∙◌, false, [], ◌∷◌, some, Bytes, bytes16, slice, splice,
  length, length-splice, ◌+◌, slice-splice_before, slice-splice_after, AreBytes, arith, not, ◌==◌,
  leb,
}
use cmput.Checksum.{cksum}
use cmput.Packet.{ip_ttl, ip_sum, ip_dst}
use cmput.Iface.{Iface, get_interface}
use cmput.Route.{RtEntry, longest_prefix_matching}
use cmput.ArpCache.{ArpEntry, arpcache_lookup}
use cmput.Router.{Router, done, ◌>>=◌, monad}
use cmput.Router.Messages.{with_message, send_packet_done}
use cmput.Router.Icmp.{send_or_queue, handle_arpreq}
use cmput.Router.Handle.{next_hop_frame, forward_ip_packet}
use cmput.Router.NextHop.{
  IsForwarded, slice-summed_before, slice-summed_after, length-summed, next_hop_frame-summed,
  forwarded, forwarded-IsForwarded,
}

-- The packet's checksum is right over the 20 bytes that the code sums, it may live on, and the
-- routing table and the interface list know its way: by `e` out of `i`.
pub record HasRoute (packet : Bytes) (r : Router) (e : RtEntry) (i : Iface) : Type 0 where
  pub long : 34 ≤ length packet
  pub sum : ip_sum packet ≡ cksum (slice (splice packet 24 (bytes16 0)) 14 20)
  pub alive : 1 < ip_ttl packet
  pub route : longest_prefix_matching r.routing_table (ip_dst packet) ≡ some e
  pub out : get_interface r.if_list e.interface ≡ some i

-- The frame that leaves, or waits: TTL and checksum are new.
abbrev pub next_hop_packet : Bytes → Bytes
next_hop_packet packet = next_hop_frame (splice packet 24 (bytes16 0))

module _ (packet : Bytes) where
  pub slice-next_hop_before :
      (o n : ℕ) → o + n ≤ 22 → slice (next_hop_packet packet) o n ≡ slice packet o n
  slice-next_hop_before o n h =
      ap (λ b. slice b o n) (next_hop_frame-summed (splice packet 24 (0 ∷ 0 ∷ [])))
      ∙ slice-summed_before (splice packet 24 (0 ∷ 0 ∷ [])) _ _ o n h
      ∙ slice-splice_before packet 24 (0 ∷ 0 ∷ []) o n (omega arith)

  pub slice-next_hop_after :
      (o n : ℕ) → 26 ≤ o → slice (next_hop_packet packet) o n ≡ slice packet o n
  slice-next_hop_after o n h =
      ap (λ b. slice b o n) (next_hop_frame-summed (splice packet 24 (0 ∷ 0 ∷ [])))
      ∙ slice-summed_after (splice packet 24 (0 ∷ 0 ∷ [])) _ _ o n h
      ∙ slice-splice_after packet 24 (0 ∷ 0 ∷ []) o n h

  pub length-next_hop_packet : length (next_hop_packet packet) ≡ length packet
  length-next_hop_packet =
      ap length (next_hop_frame-summed (splice packet 24 (0 ∷ 0 ∷ [])))
      ∙ length-summed (splice packet 24 (0 ∷ 0 ∷ [])) _ _
      ∙ length-splice packet 24 (0 ∷ 0 ∷ [])

-- A packet of at least 34 bytes with a right checksum over 20 bytes that may live on passes the
-- tests, and keeps its destination.
pub forward_tests :
    (packet : Bytes)
    → 34 ≤ length packet
    → ip_sum packet ≡ cksum (slice (splice packet 24 (bytes16 0)) 14 20)
    → 1 < ip_ttl packet
    → let b = splice packet 24 (bytes16 0) in
      (not (ip_sum packet == cksum (slice b 14 20)) ≡ false)
      × (leb (ip_ttl b) 1 ≡ false)
      × (ip_dst (next_hop_packet packet) ≡ ip_dst packet)
forward_tests packet long sum alive = (ground (arith, sum), ground (arith, ttl, alive), dst)
  where
    b : Bytes
    b = splice packet 24 (0 ∷ 0 ∷ [])

    ttl : ip_ttl b ≡ ip_ttl packet
    ttl = ap le8 (slice-splice_before packet 24 (0 ∷ 0 ∷ []) 22 1 (omega arith))

    dst : ip_dst (next_hop_packet packet) ≡ ip_dst packet
    dst = ap le32 (slice-next_hop_after packet 30 4 (omega arith))

-- A packet with a route gets as far as the ARP cache.
pub forward_ip_packet-send_or_queue :
    (fuel now : ℕ) (packet : Bytes) (r : Router) (e : RtEntry) (i : Iface)
    → HasRoute packet r e i
    → forward_ip_packet fuel now packet r
      ≡ send_or_queue (handle_arpreq fuel now) e.gw (some i) (next_hop_packet packet) r
unfolding forward_ip_packet monad
forward_ip_packet-send_or_queue fuel now packet r e i v =
    let (good, lives, dst) = forward_tests packet v.long v.sum v.alive in
    rw (good, lives, dst, v.route, v.out, ◌>>=◌) refl

-- A packet with a route whose next hop is in the ARP cache, as `a`.
pub record IsRoutable (packet : Bytes) (r : Router) (e : RtEntry) (i : Iface) (a : ArpEntry)
    : Type 0 where
  pub bytes : AreBytes packet
  pub way : HasRoute packet r e i
  pub known : arpcache_lookup r.cache e.gw ≡ some a
  pub mac : length a.mac ≡ 6
  pub addr : length i.addr ≡ 6

-- `sr_forward_ip_packet` sends a packet of at least 34 bytes on whose checksum is right over 20
-- bytes, whose TTL is above 1, whose route has an interface and whose next hop is in the ARP cache,
-- both with MAC addresses of six bytes: one message is written, for that interface, and nothing
-- else changes. The frame has the size of the packet, the new MAC addresses, a TTL one lower and a
-- right checksum, and is otherwise the packet.
pub forward_ip_packet_delivers :
    (fuel now : ℕ) (packet : Bytes) (r : Router) (e : RtEntry) (i : Iface) (a : ArpEntry)
    → IsRoutable packet r e i a
    → (forward_ip_packet fuel now packet r
        ≡ done tt (with_message (forwarded packet a.mac i.addr) i.name r))
      × IsForwarded packet (forwarded packet a.mac i.addr) a.mac i.addr
unfolding send_or_queue monad
forward_ip_packet_delivers fuel now packet r e i a v =
    let frame = forwarded-IsForwarded packet a.mac i.addr v.bytes v.way.long v.mac v.addr in
    let (ok, sent) =
      send_packet_done (forwarded packet a.mac i.addr) e.interface r i v.way.out
        (omega (arith, frame.size, v.way.long)) frame.shost v.addr in
    (
      forward_ip_packet-send_or_queue fuel now packet r e i v.way ∙ rw (v.known, sent, ◌>>=◌) refl,
      frame,
    )
