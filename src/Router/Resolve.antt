-- ===== src/Router/Resolve.antt =====
-- The router's side of ARP: what it answers, and what it does when it is answered.
use cmput.Base.{
  ℕ, ◌≤◌, ◌≡◌, ◌≢◌, refl, true, false, some, Bytes, bytes16, bytes32, slice, htons, length,
  length-slice, ltb, leb, ◌==◌, arith,
}
use cmput.Packet.{
  ether_dhost, ether_shost, ether_type, ar_op, ar_sha, ar_sip, ar_tip, eth_size, ethertype_arp,
  arp_op_request, arp_op_reply,
}
use cmput.Packet.Stores.{slice-stores_nth, length-stores}
use cmput.Iface.{Iface, get_interface, get_interface_by_ip}
use cmput.Router.{Router, done, ◌>>=◌, monad}
use cmput.Router.Messages.{with_message, send_packet_done}
use cmput.Router.Handle.{
  arp_reply_frame, answer_arp_request, interface_by_ip, handle_arp, handle_packet,
}

-- `frame` answers the ARP request `buf` on the interface `i`: from `i`, to the sender, with its own
-- addresses as the sender's and the asker's as the target's.
pub record IsArpReply (buf frame : Bytes) (i : Iface) : Type 0 where
  pub size : length frame ≡ length buf
  pub dhost : ether_dhost frame ≡ ether_shost buf
  pub shost : ether_shost frame ≡ i.addr
  pub type : slice frame 12 2 ≡ bytes16 (htons ethertype_arp)
  pub op : slice frame 20 2 ≡ bytes16 (htons arp_op_reply)
  pub sender_mac : ar_sha frame ≡ i.addr
  pub sender_ip : slice frame 28 4 ≡ bytes32 i.ip
  pub target_mac : slice frame 32 6 ≡ ar_sha buf
  pub target_ip : slice frame 38 4 ≡ bytes32 (ar_sip buf)

arp_reply_frame-IsArpReply :
    (buf : Bytes) (i : Iface)
    → 42 ≤ length buf
    → length i.addr ≡ 6
    → IsArpReply buf (arp_reply_frame buf i) i
unfolding arp_reply_frame
arp_reply_frame-IsArpReply buf i h a =
    let s = length-slice buf 6 6 (omega arith) in
    let t = length-slice buf 22 6 (omega arith) in
    record {
      size = length-stores buf _;
      dhost = slice-stores_nth buf _ 0 6 (omega arith) (omega arith) (omega arith);
      shost = slice-stores_nth buf _ 1 6 (omega arith) (omega arith) (omega arith);
      type = slice-stores_nth buf _ 2 2 refl (omega arith) (omega arith);
      op = slice-stores_nth buf _ 7 2 refl (omega arith) (omega arith);
      sender_mac = slice-stores_nth buf _ 8 6 (omega arith) (omega arith) (omega arith);
      sender_ip = slice-stores_nth buf _ 9 4 refl (omega arith) (omega arith);
      target_mac = slice-stores_nth buf _ 10 6 (omega arith) (omega arith) (omega arith);
      target_ip = slice-stores_nth buf _ 11 4 refl (omega arith) (omega arith);
    }

-- An ARP request of at least 42 bytes for one of the router's addresses, other than 0, is answered
-- on the interface that it came in on, which has a MAC address of six bytes: one message is
-- written, nothing else changes, and its frame is the ARP reply that `IsArpReply` describes.
pub handle_packet_arp_request :
    (fuel now : ℕ) (buf iface : Bytes) (r : Router) (i j : Iface)
    → 42 ≤ length buf
    → htons (ether_type buf) ≡ ethertype_arp
    → htons (ar_op buf) ≡ arp_op_request
    → ar_tip buf ≢ 0
    → get_interface_by_ip r.if_list (ar_tip buf) ≡ some j
    → get_interface r.if_list iface ≡ some i
    → length i.addr ≡ 6
    → (handle_packet fuel now buf iface r ≡ done tt (with_message (arp_reply_frame buf i) i.name r))
      × IsArpReply buf (arp_reply_frame buf i) i
unfolding handle_packet handle_arp interface_by_ip answer_arp_request monad
handle_packet_arp_request fuel now buf iface r i j h type op tip ours in_on six =
    let frame = arp_reply_frame-IsArpReply buf i h six in
    let short : ltb (length buf) eth_size ≡ false = ground arith in
    let long : leb 42 (length buf) ≡ true = ground arith in
    let given : (ar_tip buf == 0) ≡ false = ground arith in
    let (ok, sent) =
      send_packet_done (arp_reply_frame buf i) iface r i in_on (omega (arith, frame.size))
        frame.shost six in
    (rw (short, type, long, given, ours, op, in_on, sent, ◌>>=◌), frame)
