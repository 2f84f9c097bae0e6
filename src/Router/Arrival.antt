-- ===== src/Router/Arrival.antt =====
-- The three ways of an IP packet with a right header checksum through `sr_handlepacket`.
use cmput.Base.{
  ℕ, ◌+◌, ◌*◌, ◌≤◌, ◌<◌, ◌≡◌, ◌≢◌, refl, ◌∙◌, true, false, [], ◌∷◌, none, some, Bytes, slice,
  splice, bytes16, htons, length, not, ◌==◌, ltb, leb, arith,
}
use cmput.Checksum.{cksum}
use cmput.Packet.{ether_type, ip_hl, ip_ttl, ip_sum, ip_dst, ethertype_ip}
use cmput.Iface.{Iface, get_interface_by_ip}
use cmput.Router.{Router, ◌>>=◌, monad}
use cmput.Router.Icmp.{send_icmp_msg}
use cmput.Router.Handle.{handle_packet, handle_ip, handle_local, forward_ip_packet, interface_by_ip}

-- An IP packet whose header is whole and has a right checksum.
pub record HasHeader (packet : Bytes) : Type 0 where
  pub ether : htons (ether_type packet) ≡ ethertype_ip
  pub long : 34 ≤ length packet
  pub whole : 14 + ip_hl packet * 4 ≤ length packet
  pub sum : cksum (slice (splice packet 24 (bytes16 0)) 14 (ip_hl packet * 4)) ≡ ip_sum packet

-- The packet is for the interface `j`.
pub record IsLocal (packet : Bytes) (r : Router) (j : Iface) : Type 0 where
  pub given : ip_dst packet ≢ 0
  pub ours : get_interface_by_ip r.if_list (ip_dst packet) ≡ some j

module _ (fuel now : ℕ) (packet iface : Bytes) (r : Router) (v : HasHeader packet) where
  handle_packet-handle_ip : handle_packet fuel now packet iface r ≡ handle_ip fuel now packet r
  unfolding handle_packet
  handle_packet-handle_ip =
      let short : ltb (length packet) 14 ≡ false = ground (arith, v.long) in
      rw (short, v.ether) refl

  -- The tests of the length and of the checksum, in the order of the code.
  abbrev Passes : Type 0
  Passes =
      (ltb (length packet) 34 ≡ false)
      × (leb (14 + ip_hl packet * 4) (length packet) ≡ true)
      × (not (cksum (slice (splice packet 24 (0 ∷ 0 ∷ [])) 14 (ip_hl packet * 4)) == ip_sum packet)
          ≡ false)

  passes : Passes
  passes = (ground (arith, v.long), ground (arith, v.whole), ground (arith, v.sum))

  pub handle_packet-expired :
      ip_ttl packet ≤ 1
      → handle_packet fuel now packet iface r ≡ send_icmp_msg fuel now packet 11 0 r
  unfolding handle_ip monad
  handle_packet-expired h =
      let over : leb (ip_ttl packet) 1 ≡ true = ground (arith, h) in
      handle_packet-handle_ip ∙ rw (passes.0, passes.1, passes.2, over, ◌>>=◌) refl

  pub handle_packet-handle_local :
      (j : Iface)
      → 1 < ip_ttl packet
      → IsLocal packet r j
      → handle_packet fuel now packet iface r ≡ handle_local fuel now packet r
  unfolding handle_ip interface_by_ip monad
  handle_packet-handle_local j h w =
      let lives : leb (ip_ttl packet) 1 ≡ false = ground (arith, h) in
      let given : (ip_dst packet == 0) ≡ false = ground (arith, w.given) in
      handle_packet-handle_ip ∙ rw (passes.0, passes.1, passes.2, lives, given, w.ours, ◌>>=◌) refl

  pub handle_packet-forward_ip_packet :
      1 < ip_ttl packet
      → ip_dst packet ≢ 0
      → get_interface_by_ip r.if_list (ip_dst packet) ≡ none
      → handle_packet fuel now packet iface r ≡ forward_ip_packet fuel now packet r
  unfolding handle_ip interface_by_ip monad
  handle_packet-forward_ip_packet h d e =
      let lives : leb (ip_ttl packet) 1 ≡ false = ground (arith, h) in
      let given : (ip_dst packet == 0) ≡ false = ground (arith, d) in
      handle_packet-handle_ip ∙ rw (passes.0, passes.1, passes.2, lives, given, e, ◌>>=◌) refl
