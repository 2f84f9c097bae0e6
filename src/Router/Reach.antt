-- ===== src/Router/Reach.antt =====
-- How a packet that `send_icmp_msg` has made leaves: to the next hop of the route to the sender.
use cmput.Base.{ℕ, ◌≤◌, ◌≡◌, refl, some, Bytes, length, arith}
use cmput.Iface.{Iface, get_interface}
use cmput.Route.{RtEntry, longest_prefix_matching}
use cmput.ArpCache.{ArpEntry, arpcache_lookup}
use cmput.Router.{Router, M, done, ◌>>=◌, monad}
use cmput.Router.Messages.{with_message, send_packet_done}
use cmput.Router.Frames.{address_frame}
use cmput.Router.Address.{length-address_frame, slice-address_frame_shost}
use cmput.Router.Icmp.{send_or_queue}

-- The router reaches the address `ip` by `e` out of `i`, and the next hop is in the ARP cache, as
-- `a`.
pub record Reaches (r : Router) (ip : ℕ) (e : RtEntry) (i : Iface) (a : ArpEntry) : Type 0 where
  pub route : longest_prefix_matching r.routing_table ip ≡ some e
  pub out : get_interface r.if_list e.interface ≡ some i
  pub known : arpcache_lookup r.cache e.gw ≡ some a
  pub mac : length a.mac ≡ 6
  pub addr : length i.addr ≡ 6

-- A packet of at least 14 bytes to an address that is reached is sent at once.
pub send_or_queue-done :
    (handle : ℕ → M (Unit {0})) (buf : Bytes) (r : Router) (ip : ℕ) (e : RtEntry) (i : Iface)
    (a : ArpEntry)
    → Reaches r ip e i a
    → 14 ≤ length buf
    → send_or_queue handle e.gw (some i) buf r
      ≡ done tt (with_message (address_frame buf a.mac i.addr) i.name r)
unfolding send_or_queue monad
send_or_queue-done handle buf r ip e i a v h =
    let (ok, sent) =
      send_packet_done (address_frame buf a.mac i.addr) e.interface r i v.out
        (omega (arith, length-address_frame buf a.mac i.addr v.mac v.addr))
        (slice-address_frame_shost buf a.mac i.addr v.mac v.addr (omega arith)) v.addr in
    rw (v.known, sent, ◌>>=◌) refl
