-- ===== src/Router/Ping.antt =====
-- What the router does with an echo request for one of its own addresses.
use cmput.Base.{
  ℕ, zero, suc, ◌+◌, ◌*◌, ◌%◌, ◌-◌, ◌^◌, ◌≤◌, ◌<◌, ◌≡◌, refl, ap, ◌∙◌, true, [], ◌∷◌, Bytes, slice,
  splice, bytes16, le8, le16, htons, length, AreBytes, leb, arith,
}
use cmput.Checksum.{cksum}
use cmput.Checksum.Laws.{word_sum, double}
use cmput.Packet.{
  ether_dhost, ether_shost, ether_type, ip_hl, ip_len, ip_ttl, ip_p, ip_sum, ip_src, ethertype_ip,
}
use cmput.Iface.{Iface}
use cmput.Route.{RtEntry}
use cmput.ArpCache.{ArpEntry}
use cmput.Router.{Router, done, ◌>>=◌, monad}
use cmput.Router.Messages.{with_message}
use cmput.Router.Frames.{address_frame, swap_addresses, icmp_offset, icmp_length}
use cmput.Router.Icmp.{echo_reply, icmp_msg_with, send_icmp_msg}
use cmput.Router.Handle.{handle_packet, handle_local}
use cmput.Router.Arrival.{HasHeader, IsLocal, handle_packet-handle_local}
use cmput.Router.Address.{
  length-address_frame, slice-address_frame_behind, slice-address_frame_dhost,
  slice-address_frame_shost,
}
use cmput.Router.Reach.{Reaches, send_or_queue-done}
use cmput.Router.Echo.{
  blank_reply, length-blank, slice-blank_header, reply_packet, length-swap, slice-swap_middle,
  slice-swap_behind, slice-swap_src, slice-swap_dst, word_sum-swap, length-reply, slice-reply_front,
  slice-reply_data, slice-reply_head, reply_checksum,
}

-- An ICMP echo request, whole, with a right header checksum and a TTL above 1.
pub record IsEchoRequest (packet : Bytes) : Type 0 where
  pub bytes : AreBytes packet
  pub ether : htons (ether_type packet) ≡ ethertype_ip
  pub header : 5 ≤ ip_hl packet
  pub sum : cksum (slice (splice packet 24 (bytes16 0)) 14 (ip_hl packet * 4)) ≡ ip_sum packet
  pub alive : 1 < ip_ttl packet
  pub protocol : ip_p packet ≡ 1
  pub type : le8 (slice packet (icmp_offset packet) 1) ≡ 8
  pub part : 4 ≤ icmp_length packet
  pub whole : icmp_offset packet + icmp_length packet ≤ length packet

-- `frame` answers the request `packet`.
pub record IsEchoReply (packet frame mac addr : Bytes) : Type 0 where
  pub size : length frame ≡ length packet
  pub dhost : ether_dhost frame ≡ mac
  pub shost : ether_shost frame ≡ addr
  pub header : slice frame 12 14 ≡ slice packet 12 14
  pub src : slice frame 26 4 ≡ slice packet 30 4
  pub dst : slice frame 30 4 ≡ slice packet 26 4
  pub options : slice frame 34 (icmp_offset packet - 34) ≡ slice packet 34 (icmp_offset packet - 34)
  pub sum :
      word_sum (slice frame 14 (ip_hl packet * 4)) ≡ word_sum (slice packet 14 (ip_hl packet * 4))
  pub type_code : slice frame (icmp_offset packet) 2 ≡ 0 ∷ 0 ∷ []
  pub checksum : word_sum (slice frame (icmp_offset packet) (icmp_length packet)) % 0xffff ≡ 0
  pub payload : (o n : ℕ) → icmp_offset packet + 4 ≤ o → slice frame o n ≡ slice packet o n

htons_bound : (v : ℕ) → htons v < 2 ^ 16
unfolding htons
htons_bound v = omega arith

double_lem : (k : ℕ) → double k ≡ 2 * k
double_lem zero = refl
double_lem (suc k) = omega (arith, double_lem k)

abbrev pub reply_frame : Bytes → Bytes → Bytes → Bytes
reply_frame packet mac addr =
    address_frame (reply_packet packet (icmp_offset packet) (icmp_length packet)) mac addr

reply_frame-IsEchoReply :
    (packet mac addr : Bytes)
    → IsEchoRequest packet
    → length mac ≡ 6
    → length addr ≡ 6
    → IsEchoReply packet (reply_frame packet mac addr) mac addr
reply_frame-IsEchoReply packet mac addr v m a = record {
  size = length-address_frame reply mac addr m a ∙ size;
  dhost = slice-address_frame_dhost reply mac addr m a (omega (arith, size));
  shost = slice-address_frame_shost reply mac addr m a (omega (arith, size));
  header =
      front 12 14 (omega arith) (omega arith)
      ∙ slice-swap_middle packet tall 12 14 (omega arith) (omega arith);
  src = front 26 4 (omega arith) (omega arith) ∙ slice-swap_src packet tall;
  dst = front 30 4 (omega arith) (omega arith) ∙ slice-swap_dst packet tall;
  options =
      front 34 (o - 34) (omega arith) (omega arith)
      ∙ slice-swap_behind packet tall 34 (o - 34) (omega arith);
  sum =
      ap word_sum (front 14 (ip_hl packet * 4) (omega arith) (omega arith))
      ∙ rw words (word_sum-swap packet k (omega (arith, words)));
  type_code = moved o 2 (omega arith) ∙ slice-reply_head packet o n low v.part v.whole;
  checksum =
      rw (moved o n (omega arith))
        (reply_checksum packet o n low v.part v.whole v.bytes (htons_less));
  payload = λ p j h. moved p j (omega arith) ∙ slice-reply_data packet o n low v.part v.whole p j h;
}
  where
    o : ℕ
    o = icmp_offset packet

    n : ℕ
    n = icmp_length packet

    k : ℕ
    k = 2 * (ip_hl packet - 5)

    low : 34 ≤ o
    low = omega (arith, v.header)

    tall : 34 ≤ length packet
    tall = omega (arith, low, v.whole)

    words : ip_hl packet * 4 ≡ 20 + double k
    words = omega (arith, v.header, double_lem k)

    reply : Bytes
    reply = reply_packet packet o n

    size : length reply ≡ length packet
    size = length-reply packet o n low v.part v.whole

    moved : (p j : ℕ) → 12 ≤ p → slice (address_frame reply mac addr) p j ≡ slice reply p j
    moved = slice-address_frame_behind reply mac addr m a

    front :
        (p j : ℕ)
        → 12 ≤ p
        → p + j ≤ o
        → slice (address_frame reply mac addr) p j ≡ slice (swap_addresses packet) p j
    front p j h l = moved p j h ∙ slice-reply_front packet o n low v.part v.whole p j l

    htons_less : n < 2 ^ 16
    htons_less = omega (arith, htons_bound (ip_len packet))

echo_reply-done :
    (packet : Bytes) (r : Router)
    → IsEchoRequest packet
    → echo_reply 0 0 packet r
      ≡ done (reply_packet packet (icmp_offset packet) (icmp_length packet)) r
unfolding echo_reply monad
echo_reply-done packet r v = rw (hl, first, hl, len, second, hl, len, ◌>>=◌) refl
  where
    b : Bytes
    b = swap_addresses packet

    blank : Bytes
    blank = blank_reply packet (icmp_offset packet)

    low : 34 ≤ icmp_offset packet
    low = omega (arith, v.header)

    tall : 34 ≤ length packet
    tall = omega (arith, v.header, v.whole)

    header : (p m : ℕ) → 12 ≤ p → p + m ≤ 26 → slice blank p m ≡ slice packet p m
    header = slice-blank_header packet (icmp_offset packet) (icmp_length packet) low v.part v.whole

    hl : ip_hl b ≡ ip_hl packet
    hl = ap (λ s. le8 s % 16) (slice-swap_middle packet tall 14 1 (omega arith) (omega arith))

    len : icmp_length blank ≡ icmp_length packet
    len =
        ap (λ s. htons (le16 s) - ip_hl blank * 4) (header 16 2 (omega arith) (omega arith))
        ∙ ap (λ s. htons (ip_len packet) - le8 s % 16 * 4) (header 14 1 (omega arith) (omega arith))

    first : leb (14 + ip_hl packet * 4 + 4) (length b) ≡ true
    first = ground (arith, length-swap packet tall, v.part, v.whole)

    second : leb (14 + ip_hl packet * 4 + icmp_length packet) (length blank) ≡ true
    second = ground (
      arith,
      v.whole,
      length-blank packet (icmp_offset packet) (icmp_length packet) low v.part v.whole,
    )

-- `sr_handlepacket`, for a frame with an ICMP echo request to one of the router's addresses, other
-- than 0: an IP packet with at least 20 bytes of header, a right checksum, a TTL above 1 and 4 or
-- more bytes of ICMP that are all in the frame, when the route to its sender has an interface and a
-- next hop in the ARP cache, both with MAC addresses of six bytes. One message is written, for that
-- interface, and nothing else changes. Its frame has the size of the request, the addresses of the
-- IP header swapped and the sum of its words unchanged, type and code 0, a right ICMP checksum, and
-- is otherwise the request with new MAC addresses.
pub handle_packet_echo :
    (fuel now : ℕ) (packet iface : Bytes) (r : Router) (j : Iface) (e : RtEntry) (i : Iface)
    (a : ArpEntry)
    → IsEchoRequest packet
    → IsLocal packet r j
    → Reaches r (ip_src packet) e i a
    → (handle_packet (suc fuel) now packet iface r
        ≡ done tt (with_message (reply_frame packet a.mac i.addr) i.name r))
      × IsEchoReply packet (reply_frame packet a.mac i.addr) a.mac i.addr
unfolding handle_local send_icmp_msg icmp_msg_with monad
handle_packet_echo fuel now packet iface r j e i a v w x = (
  handle_packet-handle_local (suc fuel) now packet iface r header j v.alive w
      ∙ rw (v.protocol, inside, v.type, tall, x.route, echo_reply-done packet r v, x.out, ◌>>=◌)
          (send_or_queue-done _ (reply_packet packet o n) r (ip_src packet) e i a x (
            omega (arith, long, length-reply packet o n (omega (arith, v.header)) v.part v.whole))),
  reply_frame-IsEchoReply packet a.mac i.addr v x.mac x.addr,
)
  where
    o : ℕ
    o = icmp_offset packet

    n : ℕ
    n = icmp_length packet

    long : 34 ≤ length packet
    long = omega (arith, v.header, v.whole)

    header : HasHeader packet
    header = record { ether = v.ether; long = long; whole = omega (arith, v.whole); sum = v.sum }

    tall : leb 34 (length packet) ≡ true
    tall = ground (arith, long)

    inside : leb (14 + ip_hl packet * 4 + 1) (length packet) ≡ true
    inside = ground (arith, v.whole, v.part)
