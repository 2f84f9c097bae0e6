-- ===== src/Examples/Errors.antt =====
-- Frames that the router answers itself: an echo request, and packets that it cannot pass on.
use cmput.Base.{Bytes, bytes16, slice, splice, ◌≡◌, refl, inr, [], ◌∷◌, AreBytes, arith}
use cmput.Checksum.{cksum}
use cmput.Router.{done}
use cmput.Router.Program.{program}
use cmput.Router.Handle.{handle_packet}
use cmput.Router.Messages.{with_message}
use cmput.Router.Arrival.{HasHeader, IsLocal}
use cmput.Router.Reach.{Reaches}
use cmput.Router.Forward.{next_hop_packet}
use cmput.Router.Ping.{IsEchoRequest, IsEchoReply, reply_frame, handle_packet_echo}
use cmput.Router.Errors.{
  IsQuotable, error_message, handle_packet_time_exceeded, handle_packet_port_unreachable,
  handle_packet_net_unreachable,
}
use cmput.Examples.Net.{eth3, eth1, host, host_mac, known_host, idle}

-- 192.168.2.2 to 10.0.1.1, with a TTL and a protocol, 8 bytes behind the header.
abbrev blank : Bytes → Bytes → Bytes → Bytes
blank ttl protocol dst =
    splice
      (splice
        (splice
          (2 ∷ 0 ∷ 0 ∷ 0 ∷ 0 ∷ 1 ∷ 4 ∷ 0 ∷ 0 ∷ 0 ∷ 0 ∷ 2 ∷ 8 ∷ 0 ∷ 0x45 ∷ 0 ∷ 0 ∷ 28 ∷ 0 ∷ 1 ∷ 0 ∷ 0
            ∷ 0 ∷ 0 ∷ 0 ∷ 0 ∷ 192 ∷ 168 ∷ 2 ∷ 2 ∷ 0 ∷ 0 ∷ 0 ∷ 0 ∷ 8 ∷ 0 ∷ 0 ∷ 0 ∷ 7 ∷ 7 ∷ 0 ∷ 1
            ∷ [])
          22 ttl)
        23 protocol)
      30 dst

abbrev from_host : Bytes → Bytes → Bytes → Bytes
from_host ttl protocol dst =
    let b = blank ttl protocol dst in splice b 24 (bytes16 (cksum (slice b 14 20)))

abbrev router_ip : Bytes
router_ip = 10 ∷ 0 ∷ 1 ∷ 1 ∷ []

abbrev ping : Bytes
ping = from_host (64 ∷ []) (1 ∷ []) router_ip

abbrev old : Bytes
old = from_host (1 ∷ []) (17 ∷ []) router_ip

abbrev datagram : Bytes
datagram = from_host (64 ∷ []) (17 ∷ []) router_ip

abbrev lost : Bytes
lost = from_host (64 ∷ []) (17 ∷ []) (8 ∷ 8 ∷ 8 ∷ 8 ∷ [])

host-Reaches : Reaches idle 0x0202a8c0 host eth1 known_host
unfolding program
host-Reaches = record { route = refl; out = refl; known = refl; mac = refl; addr = refl }

ping-AreBytes : AreBytes ping
unfolding program
ping-AreBytes = ground arith

ping-IsEchoRequest : IsEchoRequest ping
unfolding program
ping-IsEchoRequest = record {
  bytes = ping-AreBytes;
  ether = refl;
  header = omega arith;
  sum = refl;
  alive = omega arith;
  protocol = refl;
  type = refl;
  part = omega arith;
  whole = omega arith;
}

ping-IsLocal : IsLocal ping idle eth3
unfolding program
ping-IsLocal = record { given = omega arith; ours = refl }

old-HasHeader : HasHeader old
unfolding program
old-HasHeader = record { ether = refl; long = omega arith; whole = omega arith; sum = refl }

old-IsQuotable : IsQuotable old
unfolding program
old-IsQuotable = record { header = refl; long = omega arith }

datagram-HasHeader : HasHeader datagram
unfolding program
datagram-HasHeader = record { ether = refl; long = omega arith; whole = omega arith; sum = refl }

datagram-IsQuotable : IsQuotable datagram
unfolding program
datagram-IsQuotable = record { header = refl; long = omega arith }

datagram-IsLocal : IsLocal datagram idle eth3
unfolding program
datagram-IsLocal = record { given = omega arith; ours = refl }

lost-HasHeader : HasHeader lost
unfolding program
lost-HasHeader = record { ether = refl; long = omega arith; whole = omega arith; sum = refl }

lost-IsQuotable : IsQuotable lost
unfolding program
lost-IsQuotable = record { header = refl; long = omega arith }

handle_packet_echo_example :
    (handle_packet 1 100 ping eth1.name idle
      ≡ done tt (with_message (reply_frame ping host_mac eth1.addr) eth1.name idle))
    × IsEchoReply ping (reply_frame ping host_mac eth1.addr) host_mac eth1.addr
unfolding program
handle_packet_echo_example =
    handle_packet_echo 0 100 ping eth1.name idle eth3 host eth1 known_host ping-IsEchoRequest
      ping-IsLocal host-Reaches

handle_packet_time_exceeded_example :
    handle_packet 1 100 old eth1.name idle
    ≡ done tt (with_message (error_message old eth1 host_mac 11 0) eth1.name idle)
unfolding program
handle_packet_time_exceeded_example =
    handle_packet_time_exceeded 0 100 old eth1.name idle host eth1 known_host old-HasHeader
      old-IsQuotable (omega arith) host-Reaches

handle_packet_port_unreachable_example :
    handle_packet 1 100 datagram eth1.name idle
    ≡ done tt (with_message (error_message datagram eth1 host_mac 3 3) eth1.name idle)
unfolding program
handle_packet_port_unreachable_example =
    handle_packet_port_unreachable 0 100 datagram eth1.name idle eth3 host eth1 known_host
      datagram-HasHeader datagram-IsQuotable (omega arith) datagram-IsLocal (inr refl) host-Reaches

handle_packet_net_unreachable_example :
    handle_packet 1 100 lost eth1.name idle
    ≡ done tt (with_message (error_message (next_hop_packet lost) eth1 host_mac 3 0) eth1.name idle)
unfolding program
handle_packet_net_unreachable_example =
    handle_packet_net_unreachable 0 100 lost eth1.name idle host eth1 known_host lost-HasHeader
      lost-IsQuotable (omega arith) (omega arith) refl refl host-Reaches
