-- ===== src/Router/Errors.antt =====
-- The ICMP errors of `sr_handlepacket`, as messages.
use cmput.Base.{
  ℕ, zero, suc, ◌*◌, ◌%◌, ◌≤◌, ◌<◌, ◌≡◌, ◌≢◌, ◌⊎◌, inl, inr, refl, sym, subst, le32, ap, ◌∙◌, true,
  false, [], ◌∷◌, none, some, Bytes, slice, splice, bytes32, le8, length, length-slice, ◌==◌, leb,
  arith, if◌then◌else◌, Bool-cases, ◌||◌,
}
use cmput.Checksum.{cksum}
use cmput.Packet.{ip_hl, ip_ttl, ip_p, ip_sum, ip_src, ip_dst}
use cmput.Iface.{Iface, get_interface_by_ip}
use cmput.Route.{RtEntry, longest_prefix_matching}
use cmput.ArpCache.{ArpEntry}
use cmput.Router.{Router, done, ◌>>=◌, monad, alloc_from, malloc}
use cmput.Router.Messages.{with_message}
use cmput.Router.Frames.{error_packet}
use cmput.Router.Icmp.{icmp_error, error_source, icmp_msg_with, send_icmp_msg}
use cmput.Router.Handle.{handle_packet, handle_local, forward_ip_packet}
use cmput.Router.Forward.{
  next_hop_packet, forward_tests, slice-next_hop_before, slice-next_hop_after,
  length-next_hop_packet,
}
use cmput.Router.Arrival.{
  HasHeader, IsLocal, handle_packet-expired, handle_packet-handle_local,
  handle_packet-forward_ip_packet,
}
use cmput.Router.Reach.{Reaches, send_or_queue-done}
use cmput.Router.ErrorFrame.{error_frame, error_packet_frame, length-error_packet}

-- An IP packet without options that an error can quote: 14 bytes of Ethernet header and 28 more.
pub record IsQuotable (packet : Bytes) : Type 0 where
  pub header : ip_hl packet ≡ 5
  pub long : 42 ≤ length packet

-- Where the error comes from: the address that was asked for if a port is unreachable, else that
-- of the interface.
abbrev pub source_of : ℕ → Bytes → Iface → Bytes
source_of code packet i = if code == 3 then slice packet 30 4 else bytes32 i.ip

-- The error on the wire, from the interface `i` to the next hop at `mac`.
abbrev pub error_message : Bytes → Iface → Bytes → ℕ → ℕ → Bytes
error_message packet i mac type code =
    error_frame mac i.addr (source_of code packet i) (slice packet 26 4) type code
      (slice packet 14 28)

length-alloc_from : (junk : ℕ → ℕ) (k n : ℕ) → length (alloc_from junk k n) ≡ n
unfolding alloc_from
length-alloc_from junk k zero = refl
length-alloc_from junk k (suc n) = ap suc (length-alloc_from junk (suc k) n)

length-malloc : (r : Router) (n : ℕ) → length (malloc r n) ≡ n
unfolding malloc
length-malloc r n = length-alloc_from r.junk 0 n

length-source_of :
    (code : ℕ) (packet : Bytes) (i : Iface)
    → 42 ≤ length packet
    → length (source_of code packet i) ≡ 4
length-source_of code packet i h = ground (arith, length-slice packet 30 4 (omega arith))

error_source-done :
    (code : ℕ) (packet : Bytes) (i : Iface) (r : Router)
    → error_source code packet (some i) r ≡ done (source_of code packet i) r
unfolding error_source monad
error_source-done code packet i r = elim (Bool-cases (code == 3)) [
  | inl e ↦ rw e refl
  | inr e ↦ rw e refl
]

icmp_error-done :
    (type code : ℕ) (packet : Bytes) (i : Iface) (r : Router)
    → IsQuotable packet
    → icmp_error type code packet (some i) r
      ≡ done (error_packet packet (malloc r 70) (source_of code packet i) type code) r
unfolding icmp_error monad
icmp_error-done type code packet i r v =
    let long : leb 42 (length packet) ≡ true = ground (arith, v.long) in
    rw (error_source-done code packet i r, long, v.header, ◌>>=◌) refl

pub send_icmp_msg_error :
    (fuel now type code : ℕ) (packet : Bytes) (r : Router) (e : RtEntry) (i : Iface) (a : ArpEntry)
    → (type ≡ 11) ⊎ (type ≡ 3)
    → IsQuotable packet
    → Reaches r (ip_src packet) e i a
    → send_icmp_msg (suc fuel) now packet type code r
      ≡ done tt (with_message (error_message packet i a.mac type code) i.name r)
unfolding send_icmp_msg icmp_msg_with monad
send_icmp_msg_error fuel now type code packet r e i a t v x =
    rw
      (
        tall,
        x.route,
        other,
        error,
        if◌then◌else◌,
        x.out,
        icmp_error-done type code packet i r v,
        x.out,
        ◌>>=◌,
      )
      (send_or_queue-done _ (error_packet packet (malloc r 70) (source_of code packet i) type code)
          r (ip_src packet) e i a x
          (omega (
            arith,
            length-error_packet packet (malloc r 70) (source_of code packet i) type code v.header
                v.long (length-malloc r 70) (length-source_of code packet i v.long),
          ))
        ∙ ap (λ f. done tt (with_message f i.name r))
            (error_packet_frame packet (malloc r 70) (source_of code packet i) a.mac i.addr type
              code v.header v.long (length-malloc r 70) (length-source_of code packet i v.long)
              x.mac x.addr))
  where
    tall : leb 34 (length packet) ≡ true
    tall = ground (arith, v.long)

    other : (type == 0) ≡ false
    other = ground (arith, t)

    error : (type == 11 || type == 3) ≡ true
    error = ground (arith, t)

-- `sr_handlepacket`, for an IP packet of at least 42 bytes without options, with a right header
-- checksum, whose TTL is at most 1, when the route to its sender has an interface and a next hop in
-- the ARP cache, both with MAC addresses of six bytes: one message is written, for that interface,
-- and nothing else changes. Its frame is, byte by byte, the time exceeded message (type 11, code 0)
-- from the interface's address to the sender, with both checksums, that quotes the first 28 bytes
-- of the packet; nothing of what the allocated memory held before is sent.
pub handle_packet_time_exceeded :
    (fuel now : ℕ) (packet iface : Bytes) (r : Router) (e : RtEntry) (i : Iface) (a : ArpEntry)
    → HasHeader packet
    → IsQuotable packet
    → ip_ttl packet ≤ 1
    → Reaches r (ip_src packet) e i a
    → handle_packet (suc fuel) now packet iface r
      ≡ done tt (with_message (error_message packet i a.mac 11 0) i.name r)
handle_packet_time_exceeded fuel now packet iface r e i a v w h x =
    handle_packet-expired (suc fuel) now packet iface r v h
    ∙ send_icmp_msg_error fuel now 11 0 packet r e i a (inl refl) w x

-- `sr_handlepacket`, for a TCP or UDP packet of at least 42 bytes without options, with a right
-- header checksum and a TTL above 1, to one of the router's addresses, other than 0, when the route
-- to its sender has an interface and a next hop in the ARP cache, both with MAC addresses of six
-- bytes: the one message written, the only change, is byte by byte the port unreachable message
-- (type 3, code 3) from the address that was asked for, that quotes the packet's first 28 bytes.
pub handle_packet_port_unreachable :
    (fuel now : ℕ) (packet iface : Bytes) (r : Router) (j : Iface) (e : RtEntry) (i : Iface)
    (a : ArpEntry)
    → HasHeader packet
    → IsQuotable packet
    → 1 < ip_ttl packet
    → IsLocal packet r j
    → (ip_p packet ≡ 6) ⊎ (ip_p packet ≡ 17)
    → Reaches r (ip_src packet) e i a
    → handle_packet (suc fuel) now packet iface r
      ≡ done tt (with_message (error_message packet i a.mac 3 3) i.name r)
unfolding handle_local
handle_packet_port_unreachable fuel now packet iface r j e i a v w h l p x =
    let icmp : (ip_p packet == 1) ≡ false = ground (arith, p) in
    let port : (ip_p packet == 6 || ip_p packet == 17) ≡ true = ground (arith, p) in
    handle_packet-handle_local (suc fuel) now packet iface r v j h l
    ∙ rw (icmp, port, if◌then◌else◌)
        (send_icmp_msg_error fuel now 3 3 packet r e i a (inr refl) w x)

-- `sr_handlepacket`, for an IP packet of at least 42 bytes without options, with a right header
-- checksum and a TTL above 1, to an address, other than 0, that is none of the router's and has no
-- route, when the route to its sender has an interface and a next hop in the ARP cache, both with
-- MAC addresses of six bytes: the one message written, the only change, is byte by byte the network
-- unreachable message (type 3, code 0) from the interface's address. It quotes the first 28 bytes
-- of the packet with the TTL and the checksum that it would have been sent on with.
pub handle_packet_net_unreachable :
    (fuel now : ℕ) (packet iface : Bytes) (r : Router) (e : RtEntry) (i : Iface) (a : ArpEntry)
    → HasHeader packet
    → IsQuotable packet
    → 1 < ip_ttl packet
    → ip_dst packet ≢ 0
    → get_interface_by_ip r.if_list (ip_dst packet) ≡ none
    → longest_prefix_matching r.routing_table (ip_dst packet) ≡ none
    → Reaches r (ip_src packet) e i a
    → handle_packet (suc fuel) now packet iface r
      ≡ done tt (with_message (error_message (next_hop_packet packet) i a.mac 3 0) i.name r)
unfolding forward_ip_packet monad
handle_packet_net_unreachable fuel now packet iface r e i a v w h d n m x =
    handle_packet-forward_ip_packet (suc fuel) now packet iface r v h d n
    ∙ (let (good, lives, dst) = forward_tests packet v.long sum h in
        rw (good, lives, dst, m, ◌>>=◌)
          (send_icmp_msg_error fuel now 3 0 (next_hop_packet packet) r e i a (inr refl) quotable
            reached))
  where
    sum : ip_sum packet ≡ cksum (slice (splice packet 24 (0 ∷ 0 ∷ [])) 14 20)
    sum = sym v.sum ∙ ap (λ k. cksum (slice (splice packet 24 (0 ∷ 0 ∷ [])) 14 (k * 4))) w.header

    quotable : IsQuotable (next_hop_packet packet)
    quotable = record {
      header = ap (λ s. le8 s % 16) (slice-next_hop_before packet 14 1 (omega arith)) ∙ w.header;
      long = omega (arith, w.long, length-next_hop_packet packet);
    }

    reached : Reaches r (ip_src (next_hop_packet packet)) e i a
    reached =
        subst (λ s. Reaches r (le32 s) e i a) (sym (slice-next_hop_after packet 26 4 (omega arith)))
          x
