-- ===== src/Router/Miss.antt =====
-- Forwarding to a next hop whose MAC address is not known yet.
use cmput.Base.{
  ℕ, suc, [], ◌≤◌, ◌<◌, ◌≡◌, refl, ap, ◌∙◌, true, false, List, ◌∷◌, none, some, Bytes, take, length,
  ◌==◌, arith,
}
use cmput.Iface.{Iface, get_interface}
use cmput.Route.{RtEntry}
use cmput.ArpCache.{
  ArpCache, ArpReq, arpcache_lookup, find_request, request_at, update_request, push_packet,
  new_request, ensure_request, arpcache_queuereq,
}
use cmput.Router.{Router, Outcome, done, ◌>>=◌, monad}
use cmput.Router.Messages.{with_message}
use cmput.Router.Icmp.{send_or_queue, handle_arpreq, mark_sent}
use cmput.Router.Handle.{forward_ip_packet}
use cmput.Router.Forward.{
  HasRoute, length-next_hop_packet, next_hop_packet, forward_ip_packet-send_or_queue,
}
use cmput.Router.Ask.{arp_request, handle_arpreq_asked}

-- The request that `sr_arpcache_queuereq` makes for a first packet.
abbrev pub first_request : ArpCache → ℕ → Bytes → Bytes → ArpReq
first_request c gw buf name =
    push_packet (record { buf = buf; iface = take 32 name }) (new_request c.next_addr gw)

abbrev pub with_request : ArpReq → ArpCache → ArpCache
with_request q c = record c { requests = q ∷ c.requests; next_addr = suc c.next_addr }

queuereq_first :
    (c : ArpCache) (gw : ℕ) (buf name : Bytes)
    → find_request gw c.requests ≡ none
    → 1 ≤ length buf
    → arpcache_queuereq c gw buf name ≡ (with_request (first_request c gw buf name) c, c.next_addr)
unfolding arpcache_queuereq ensure_request update_request
queuereq_first c gw buf name e h =
    let some_bytes : (length buf == 0) ≡ false = ground arith in
    let here : (c.next_addr == c.next_addr) ≡ true = ground arith in
    rw (e, some_bytes, here, ensure_request) refl

-- What is known when a packet has to wait: no MAC address for `gw`, no request for it, and an
-- interface that its name, cut to 32 bytes, finds.
pub record IsUnknown (r : Router) (gw : ℕ) (i : Iface) : Type 0 where
  pub unknown : arpcache_lookup r.cache gw ≡ none
  pub unasked : find_request gw r.cache.requests ≡ none
  pub back : get_interface r.if_list (take 32 i.name) ≡ some i
  pub six : length i.addr ≡ 6

-- The router after it: one ARP request written, and one request in the queue, sent once, with the
-- packet.
abbrev pub with_question : ℕ → ℕ → Bytes → Iface → Router → Router
with_question now gw buf i r = record (with_message (arp_request i gw) i.name r) {
  cache = record r.cache {
    requests =
        record {
          addr = r.cache.next_addr;
          ip = gw;
          sent = now;
          times_sent = 1;
          packets = record { buf = buf; iface = take 32 i.name } ∷ [];
        }
        ∷ r.cache.requests;
    next_addr = suc r.cache.next_addr;
  };
}

send_or_queue_asks :
    (fuel now gw : ℕ) (i : Iface) (buf : Bytes) (r : Router)
    → IsUnknown r gw i
    → 1 < now
    → 1 ≤ length buf
    → send_or_queue (handle_arpreq fuel now) gw (some i) buf r
      ≡ done tt (with_question now gw buf i r)
unfolding send_or_queue monad request_at update_request
send_or_queue_asks fuel now gw i buf r v late h =
    rw (v.unknown, queuereq_first r.cache gw buf i.name v.unasked h, ◌>>=◌)
      (asks ∙ ap done_with updated)
  where
    q : ArpReq
    q = first_request r.cache gw buf i.name

    s : Router
    s = record r { cache = with_request q r.cache }

    here : (r.cache.next_addr == r.cache.next_addr) ≡ true
    here = ground arith

    found : request_at q.addr s.cache.requests ≡ some q
    found = rw (here, request_at) refl

    done_with : List ArpReq → Outcome (Unit {0})
    done_with qs = done tt (record (with_message (arp_request i gw) i.name s) {
      cache = record s.cache { requests = qs };
    })

    asks :
        handle_arpreq fuel now q.addr s
        ≡ done_with (update_request q.addr (mark_sent now) s.cache.requests)
    asks = handle_arpreq_asked fuel now s q _ i found (omega arith) (omega arith) refl v.back v.six

    updated :
        update_request q.addr (mark_sent now) s.cache.requests ≡ mark_sent now q ∷ r.cache.requests
    updated = rw (here, update_request) refl

-- `sr_forward_ip_packet`, at a time above 1, for a packet of at least 34 bytes whose checksum is
-- right over 20 bytes, whose TTL is above 1, whose route has an interface, with a MAC address of
-- six bytes, that its name cut to 32 bytes finds, and whose next hop is neither in the ARP cache
-- nor asked for: the packet waits, with its new TTL and checksum, in a new request at the head of
-- the queue, which counts one try; the one message written holds the ARP request for the next hop
-- on the interface of the route. Nothing else changes.
pub forward_ip_packet_queues :
    (fuel now : ℕ) (packet : Bytes) (r : Router) (e : RtEntry) (i : Iface)
    → HasRoute packet r e i
    → IsUnknown r e.gw i
    → 1 < now
    → forward_ip_packet fuel now packet r
      ≡ done tt (with_question now e.gw (next_hop_packet packet) i r)
forward_ip_packet_queues fuel now packet r e i v u late =
    forward_ip_packet-send_or_queue fuel now packet r e i v
    ∙ send_or_queue_asks fuel now e.gw i (next_hop_packet packet) r u late long
  where
    long : 1 ≤ length (next_hop_packet packet)
    long = omega (arith, v.long, length-next_hop_packet packet)
