-- ===== src/Vns/Commands.antt =====
-- ARP requests as the VNS server delivers them.
use cmput.Base.{
  ℕ, ◌≤◌, ◌≡◌, ◌≢◌, refl, sym, ◌∙◌, ap, ◌⊎◌, inl, inr, true, false, not, ◌&&◌, some, Bytes, slice,
  le32, htonl, htons, htons-htons, drop, length, ltb, leb, ◌==◌, arith,
}
use cmput.Packet.{ether_type, ar_op, ar_tip, ethertype_arp, arp_op_request}
use cmput.Iface.{Iface, get_interface, get_interface_by_ip}
use cmput.Router.{Router, done, ◌>>=◌, monad}
use cmput.Router.Send.{vnspacket, c_packet_header_size}
use cmput.Router.Messages.{with_message}
use cmput.Router.Handle.{arp_reply_frame}
use cmput.Router.Resolve.{IsArpReply, handle_packet_arp_request}
use cmput.Vns.{Handlers, next_command, arp_req_not_for_us, take_packet, handle_command}

-- A VNSPACKET message with an ARP request in it that came in on the interface `i`.
pub record IsArpRequest (buf : Bytes) (r : Router) (i : Iface) : Type 0 where
  pub command : htonl (le32 (slice buf 4 4)) ≡ vnspacket
  pub long : 42 ≤ length (drop c_packet_header_size buf)
  pub whole : c_packet_header_size ≤ length buf
  pub type : ether_type (drop c_packet_header_size buf) ≡ htons ethertype_arp
  pub op : ar_op (drop c_packet_header_size buf) ≡ htons arp_op_request
  pub came_in : get_interface r.if_list (drop 8 buf) ≡ some i

-- The message is one that the caller accepts.
abbrev pub IsExpected : ℕ → Type 0
IsExpected expected = (expected ≡ 0) ⊎ (expected ≡ vnspacket)

expected_gate :
    (expected : ℕ)
    → IsExpected expected
    → (not (expected == 0) && not (vnspacket == expected) && not (vnspacket == 2)) ≡ false
expected_gate expected x = elim x [ inl e ↦ rw e refl | inr e ↦ rw e refl ]

module _ (hs : Handlers) (fresh : ℕ → Iface) (fuel now expected : ℕ) (buf : Bytes) (r : Router)
    (i : Iface) (v : IsArpRequest buf r i) (x : IsExpected expected) where
  handle_command-take_packet :
      handle_command hs fresh fuel now expected buf r ≡ take_packet fuel now buf r
  unfolding handle_command monad
  handle_command-take_packet =
      let long : leb 8 (length buf) ≡ true = ground (arith, v.whole) in
      rw (long, v.command, expected_gate expected x, ◌>>=◌) refl

  arp_req_not_for_us_lem :
      arp_req_not_for_us (drop c_packet_header_size buf) (drop 8 buf) r
      ≡ done (not (ar_tip (drop c_packet_header_size buf) == i.ip)) r
  unfolding arp_req_not_for_us monad
  arp_req_not_for_us_lem =
      let long : ltb (length (drop c_packet_header_size buf)) 42 ≡ false = ground (arith, v.long) in
      let type : (ether_type (drop c_packet_header_size buf) == htons ethertype_arp) ≡ true =
        ground (arith, v.type) in
      let op : (ar_op (drop c_packet_header_size buf) == htons arp_op_request) ≡ true =
        ground (arith, v.op) in
      rw (v.came_in, long, type, op, ◌>>=◌) refl

  take_packet_dropped :
      ar_tip (drop c_packet_header_size buf) ≢ i.ip
      → take_packet fuel now buf r ≡ done next_command r
  unfolding take_packet monad
  take_packet_dropped n =
      let whole : leb c_packet_header_size (length buf) ≡ true = ground (arith, v.whole) in
      let other : (ar_tip (drop c_packet_header_size buf) == i.ip) ≡ false = ground arith in
      rw (whole, arp_req_not_for_us_lem, other, ◌>>=◌) refl

  take_packet_answered :
      (j : Iface)
      → ar_tip (drop c_packet_header_size buf) ≡ i.ip
      → i.ip ≢ 0
      → get_interface_by_ip r.if_list i.ip ≡ some j
      → length i.addr ≡ 6
      → (take_packet fuel now buf r
          ≡ done next_command
              (with_message (arp_reply_frame (drop c_packet_header_size buf) i) i.name r))
        × IsArpReply
            (drop c_packet_header_size buf)
            (arp_reply_frame (drop c_packet_header_size buf) i)
            i
  unfolding take_packet monad
  take_packet_answered j e given ours six =
      let frame : Bytes = drop c_packet_header_size buf in
      let whole : leb c_packet_header_size (length buf) ≡ true = ground (arith, v.whole) in
      let same : (ar_tip frame == i.ip) ≡ true = ground arith in
      let (ran, reply) =
        handle_packet_arp_request fuel now frame (drop 8 buf) r i j v.long
          (ap htons v.type ∙ htons-htons ethertype_arp (omega arith))
          (ap htons v.op ∙ htons-htons arp_op_request (omega arith)) (λ z. given (sym e ∙ z))
          (ap (get_interface_by_ip r.if_list) e ∙ ours) v.came_in six in
      (rw (whole, arp_req_not_for_us_lem, same, ran, ◌>>=◌) refl, reply)

-- A VNSPACKET message with an ARP request for another address than that of the interface on which
-- it came in, where the caller expects such a message or none in particular, is dropped, also when
-- it asks for another interface of the router: nothing is sent and nothing changes.
pub handle_command_not_for_us :
    (hs : Handlers) (fresh : ℕ → Iface) (fuel now expected : ℕ) (buf : Bytes) (r : Router)
    (i : Iface)
    → IsArpRequest buf r i
    → IsExpected expected
    → ar_tip (drop c_packet_header_size buf) ≢ i.ip
    → handle_command hs fresh fuel now expected buf r ≡ done next_command r
handle_command_not_for_us hs fresh fuel now expected buf r i v x n =
    handle_command-take_packet hs fresh fuel now expected buf r i v x
    ∙ take_packet_dropped hs fresh fuel now expected buf r i v x n

-- A VNSPACKET message with an ARP request for the address of the interface on which it came in,
-- which is not 0 and which has a MAC address of six bytes, where the caller expects such a message
-- or none in particular, has one message written, with the ARP reply that `IsArpReply` describes;
-- nothing else changes, and the session goes on.
pub handle_command_arp_request :
    (hs : Handlers) (fresh : ℕ → Iface) (fuel now expected : ℕ) (buf : Bytes) (r : Router)
    (i j : Iface)
    → IsArpRequest buf r i
    → IsExpected expected
    → ar_tip (drop c_packet_header_size buf) ≡ i.ip
    → i.ip ≢ 0
    → get_interface_by_ip r.if_list i.ip ≡ some j
    → length i.addr ≡ 6
    → (handle_command hs fresh fuel now expected buf r
        ≡ done next_command
            (with_message (arp_reply_frame (drop c_packet_header_size buf) i) i.name r))
      × IsArpReply
          (drop c_packet_header_size buf)
          (arp_reply_frame (drop c_packet_header_size buf) i)
          i
handle_command_arp_request hs fresh fuel now expected buf r i j v x e given ours six =
    let (ran, reply) =
      take_packet_answered hs fresh fuel now expected buf r i v x j e given ours six in
    (handle_command-take_packet hs fresh fuel now expected buf r i v x ∙ ran, reply)
