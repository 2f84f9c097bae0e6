-- ===== src/Examples/Forwarding.antt =====
-- Runs of the router on concrete frames.
use cmput.Base.{List, inl, inr, Bytes, splice, ◌≡◌, refl, [], ◌∷◌, AreBytes, arith}
use cmput.ArpCache.{ArpReq, arpcache_init, expire_entries}
use cmput.Router.{Router, done}
use cmput.Router.Program.{program}
use cmput.Router.Handle.{timer_round, arp_reply_frame, handle_packet}
use cmput.Router.Messages.{with_message}
use cmput.Router.Invariant.{IsSound, arrives, wakes, run, run-IsSound}
use cmput.Router.NextHop.{IsForwarded, forwarded, IsLowered}
use cmput.Router.Forward.{HasRoute, IsRoutable}
use cmput.Router.Arrival.{HasHeader}
use cmput.Router.Transit.{IsTransit, handle_packet_forwards, handle_packet_queues}
use cmput.Router.Keeps.{Holds}
use cmput.Router.Sweep.{turned, with_questions, timer_round_asks}
use cmput.Router.Wire.{IsPacket, packet_message_lem}
use cmput.Router.Send.{packet_message}
use cmput.Router.Fuel.{calm, handle_packet_ends}
use cmput.Router.Flush.{with_answer, handle_packet_arp_reply}
use cmput.Router.Miss.{IsUnknown, with_question}
use cmput.Router.Ask.{arp_request, IsCounted, handle_arpreq_asks}
use cmput.Router.Resolve.{IsArpReply, handle_packet_arp_request}
use cmput.Router.Icmp.{handle_arpreq}
use cmput.Examples.Net.{
  eth3, eth1, host, host_mac, known_host, idle, ip_frame, arp_frame, waiting, request, asking,
}

idle-IsSound : IsSound idle.if_list idle.routing_table idle
idle-IsSound = record {
  interfaces = refl;
  routes = refl;
  messages = tt;
  valid = record { one_each = tt; fresh = tt; tries = tt; size = refl };
}

run-IsSound_example : IsSound idle.if_list idle.routing_table (
    run 2 idle
      ((100, arrives ip_frame eth3.name) ∷ (101, wakes) ∷ (102, arrives arp_frame eth3.name) ∷ []))
run-IsSound_example =
    run-IsSound idle.if_list idle.routing_table 2 idle
      ((100, arrives ip_frame eth3.name) ∷ (101, wakes) ∷ (102, arrives arp_frame eth3.name) ∷ [])
      idle-IsSound

ip_frame-AreBytes : AreBytes ip_frame
unfolding program
ip_frame-AreBytes = ground arith

ip_frame-HasRoute : HasRoute ip_frame idle host eth1
unfolding program
ip_frame-HasRoute = record {
  long = omega arith;
  sum = refl;
  alive = omega arith;
  route = refl;
  out = refl;
}

ip_frame-IsRoutable : IsRoutable ip_frame idle host eth1 known_host
unfolding program
ip_frame-IsRoutable = record {
  bytes = ip_frame-AreBytes;
  way = ip_frame-HasRoute;
  known = refl;
  mac = refl;
  addr = refl;
}

-- The same router with an empty ARP cache.
abbrev unknowing : Router
unknowing = record idle { cache = arpcache_init }

unknowing-HasRoute : HasRoute ip_frame unknowing host eth1
unfolding program
unknowing-HasRoute = record {
  long = omega arith;
  sum = refl;
  alive = omega arith;
  route = refl;
  out = refl;
}

unknowing-IsUnknown : IsUnknown unknowing host.gw eth1
unfolding program arpcache_init
unknowing-IsUnknown = record { unknown = refl; unasked = refl; back = refl; six = refl }

ip_frame-HasHeader : HasHeader ip_frame
unfolding program
ip_frame-HasHeader = record { ether = refl; long = omega arith; whole = omega arith; sum = refl }

ip_frame-IsTransit : IsTransit ip_frame idle
unfolding program
ip_frame-IsTransit = record { header = ip_frame-HasHeader; given = omega arith; foreign = refl }

unknowing-IsTransit : IsTransit ip_frame unknowing
unfolding program
unknowing-IsTransit = record { header = ip_frame-HasHeader; given = omega arith; foreign = refl }

handle_packet_forwards_example :
    (handle_packet 2 100 ip_frame eth3.name idle
      ≡ done tt (with_message (forwarded ip_frame host_mac eth1.addr) eth1.name idle))
    × IsForwarded ip_frame (forwarded ip_frame host_mac eth1.addr) host_mac eth1.addr
handle_packet_forwards_example =
    handle_packet_forwards 2 100 ip_frame eth3.name idle ip_frame-IsTransit host eth1 known_host
      ip_frame-IsRoutable

handle_packet_queues_example :
    (frame : Bytes) × (handle_packet 2 100 ip_frame eth3.name unknowing
      ≡ done tt (with_question 100 host.gw frame eth1 unknowing))
    × IsLowered ip_frame frame
handle_packet_queues_example =
    handle_packet_queues 2 100 ip_frame eth3.name unknowing unknowing-IsTransit host eth1
      ip_frame-AreBytes unknowing-HasRoute unknowing-IsUnknown (omega arith)

handle_packet_arp_request_example :
    (handle_packet 2 100 arp_frame eth3.name idle
      ≡ done tt (with_message (arp_reply_frame arp_frame eth3) eth3.name idle))
    × IsArpReply arp_frame (arp_reply_frame arp_frame eth3) eth3
unfolding program
handle_packet_arp_request_example =
    handle_packet_arp_request 2 100 arp_frame eth3.name idle eth3 eth3 (omega arith) refl refl
      (omega arith) refl refl refl

handle_arpreq_asks_example :
    (rs : List ArpReq) × (handle_arpreq 2 100 0 (asking 2)
      ≡ done tt (record (with_message (arp_request eth3 0x6401000a) eth3.name (asking 2)) {
        cache = record (asking 2).cache { requests = rs };
      }))
    × IsCounted 100 (request 2) (asking 2).cache.requests rs
unfolding program
handle_arpreq_asks_example =
    handle_arpreq_asks 2 100 (asking 2) (request 2) waiting eth3 refl (omega arith) (omega arith)
      refl refl refl

-- 10.0.1.100 answers that it is at 4:0:0:0:0:1.
abbrev answer_frame : Bytes
answer_frame = splice arp_frame 20 (0 ∷ 2 ∷ [])

handle_packet_arp_reply_example :
    handle_packet 2 100 answer_frame eth3.name (asking 2)
    ≡ done tt (with_answer 100 answer_frame (request 2) ((waiting, eth3) ∷ []) (asking 2))
unfolding program
handle_packet_arp_reply_example =
    handle_packet_arp_reply 2 100 answer_frame eth3.name (asking 2) eth3 (request 2)
      ((waiting, eth3) ∷ []) (omega arith) refl refl (omega arith) refl refl refl
      (record { out = refl; long = omega arith; six = refl }, tt)

handle_packet_ends_example : Holds (calm 100) (handle_packet 1 100 arp_frame eth3.name (asking 2))
handle_packet_ends_example =
    handle_packet_ends 100 0 arp_frame eth3.name (asking 2) (inl (omega arith), tt)

-- A request that is due, and one that is not.
abbrev late : ArpReq
late = record (request 2) { addr = 1; ip = 0x6501000a }

abbrev early : ArpReq
early = record (request 4) { sent = 99 }

abbrev two_asking : Router
two_asking = record (asking 2) {
  cache = record { entries = idle.cache.entries; requests = late ∷ early ∷ []; next_addr = 2 };
}

timer_round_asks_example :
    timer_round 0 100 two_asking
    ≡ done tt (record (with_questions 100 ((late, eth3) ∷ (early, eth3) ∷ []) two_asking) {
      cache = record two_asking.cache {
        entries = (expire_entries 100 two_asking.cache).entries;
        requests = turned 100 late ∷ turned 100 early ∷ [];
      };
    })
unfolding program
timer_round_asks_example =
    timer_round_asks 100 2 0 two_asking ((late, eth3) ∷ (early, eth3) ∷ []) refl
      (
        inr (record { packet = waiting; few = omega arith; waits = refl; out = refl; six = refl }),
        (inl (omega arith), tt),
      )
      (omega arith, (omega arith, tt))

packet_message_lem_example : IsPacket ip_frame eth3.name (packet_message ip_frame eth3.name)
unfolding splice
packet_message_lem_example = packet_message_lem ip_frame eth3.name (omega arith) (omega arith)
