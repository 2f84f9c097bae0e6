-- ===== src/Router/Transit.antt =====
-- The whole way of an IP packet for another host through `sr_handlepacket` of
-- assignment-3/router/sr_router.c.
use cmput.Base.{AreBytes, ℕ, ◌<◌, ◌≡◌, ◌≢◌, ◌∙◌, none, Bytes}
use cmput.Packet.{ip_dst}
use cmput.Iface.{Iface, get_interface_by_ip}
use cmput.Route.{RtEntry}
use cmput.ArpCache.{ArpEntry}
use cmput.Router.{Router, done}
use cmput.Router.Messages.{with_message}
use cmput.Router.Handle.{handle_packet, forward_ip_packet}
use cmput.Router.NextHop.{IsForwarded, forwarded, IsLowered, next_hop_frame-IsLowered}
use cmput.Router.Forward.{HasRoute, IsRoutable, next_hop_packet, forward_ip_packet_delivers}
use cmput.Router.Arrival.{HasHeader, handle_packet-forward_ip_packet}
use cmput.Router.Miss.{IsUnknown, with_question, forward_ip_packet_queues}

-- The packet has a whole header with a right checksum, and is for none of the router's interfaces.
pub record IsTransit (packet : Bytes) (r : Router) : Type 0 where
  pub header : HasHeader packet
  pub given : ip_dst packet ≢ 0
  pub foreign : get_interface_by_ip r.if_list (ip_dst packet) ≡ none

module _ (fuel now : ℕ) (packet iface : Bytes) (r : Router) (v : IsTransit packet r) where
  handle_packet_transit :
      {e : RtEntry} {i : Iface}
      → HasRoute packet r e i
      → handle_packet fuel now packet iface r ≡ forward_ip_packet fuel now packet r
  handle_packet_transit w =
      handle_packet-forward_ip_packet fuel now packet iface r v.header w.alive v.given v.foreign

  -- `sr_handlepacket`, for an IP packet to an address, other than 0, that is none of the router's:
  -- of at least 34 bytes, with a right checksum over the header and over 20 bytes and a TTL above
  -- 1, whose route has an interface and whose next hop is in the ARP cache, both with MAC addresses
  -- of six bytes. One message is written, for that interface, and nothing else changes. The frame
  -- has the size of the packet, the new MAC addresses, a TTL one lower and a right checksum, and is
  -- otherwise the packet.
  pub handle_packet_forwards :
      (e : RtEntry) (i : Iface) (a : ArpEntry)
      → IsRoutable packet r e i a
      → (handle_packet fuel now packet iface r
          ≡ done tt (with_message (forwarded packet a.mac i.addr) i.name r))
        × IsForwarded packet (forwarded packet a.mac i.addr) a.mac i.addr
  handle_packet_forwards e i a w =
      let (sent, good) = forward_ip_packet_delivers fuel now packet r e i a w in
      (handle_packet_transit w.way ∙ sent, good)

  -- `sr_handlepacket`, at a time above 1, for an IP packet to an address, other than 0, that is
  -- none of the router's: of at least 34 bytes, with a right checksum over the header and over 20
  -- bytes and a TTL above 1, whose route has an interface, with a MAC address of six bytes, that
  -- its name cut to 32 bytes finds, and whose next hop is neither in the ARP cache nor asked for.
  -- The packet waits, with a TTL one lower, a right checksum and otherwise as it was, in a new
  -- request at the head of the queue, sent once, at that time; the one message written holds the
  -- ARP request for the next hop on the interface of the route. Nothing else changes.
  pub handle_packet_queues :
      (e : RtEntry) (i : Iface)
      → AreBytes packet
      → HasRoute packet r e i
      → IsUnknown r e.gw i
      → 1 < now
      → (frame : Bytes) × (handle_packet fuel now packet iface r
          ≡ done tt (with_question now e.gw frame i r))
        × IsLowered packet frame
  handle_packet_queues e i b w u late = (
    next_hop_packet packet,
    handle_packet_transit w ∙ forward_ip_packet_queues fuel now packet r e i w u late,
    next_hop_frame-IsLowered packet b w.long,
  )
