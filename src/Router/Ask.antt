-- ===== src/Router/Ask.antt =====
-- `handle_arpreq` for a request that is due, and for one that is not.
use cmput.Base.{
  ◌==◌, Bool-cases, inl, inr, sym, ap, ◌∙◌, if_true, if_false, if◌then◌else◌, ℕ, ◌+◌, ◌≤◌, ◌<◌, ◌≡◌,
  ◌≢◌, refl, true, false, List, [], ◌∷◌, ◌++◌, some, Bytes, bytes32, replicate, slice, splice,
  take_all, length-append, htons, head?, length, ltb, leb, arith,
}
use mathlib.Core.Option.{map}
use cmput.Packet.{stores, ether_shost}
use cmput.Iface.{Iface, get_interface}
use cmput.ArpCache.{ArpReq, QueuedPacket, request_at, update_request}
use cmput.ArpCache.Queue.{IsUpdate, addrs, addrs-update_request}
use cmput.Router.{Router, Outcome, M, done, fault, ◌>>=◌, monad, malloc, alloc_from}
use cmput.Router.Messages.{with_message, send_packet_done}
use cmput.Router.Frames.{arp_header_init, arp_request_frame}
use cmput.Router.Icmp.{
  mark_sent, send_arp_request, read_next, report_packets, give_up, handle_arpreq_with,
  handle_arpreq, send_icmp_msg,
}

-- A request that was sent at most one second ago, in whole seconds, is left alone: nothing is sent
-- and nothing changes.
pub handle_arpreq_waits :
    (fuel now : ℕ) (r : Router) (q : ArpReq)
    → request_at q.addr r.cache.requests ≡ some q
    → now ≤ q.sent + 1
    → handle_arpreq fuel now q.addr r ≡ done tt r
unfolding handle_arpreq handle_arpreq_with monad
handle_arpreq_waits fuel now r q e h =
    let early : ltb (q.sent + 1) now ≡ false = ground arith in rw (e, early)

after_free :
    (send : Bytes → ℕ → ℕ → M (Unit {0})) (q : ArpReq) (p : QueuedPacket) (ps : List QueuedPacket)
    (r s : Router) (o : Outcome (Unit {0}))
    → q.packets ≡ p ∷ ps
    → send p.buf 3 1 r ≡ o
    → give_up send q r ≢ done tt s
unfolding give_up report_packets read_next monad
after_free send q p ps r s (done a t) w e = rw (w, report_packets, e, ◌>>=◌) (λ h. cc)
after_free send q p ps r s (fault f t) w e = rw (w, report_packets, e, ◌>>=◌) (λ h. cc)

-- When a request in the queue was asked for five times or more, the last time more than a second
-- ago, and a packet waits for it, no run of `handle_arpreq` ends properly.
handle_arpreq_breaks :
    (fuel now : ℕ) (r s : Router) (q : ArpReq) (p : QueuedPacket) (ps : List QueuedPacket)
    → request_at q.addr r.cache.requests ≡ some q
    → q.sent + 1 < now
    → 5 ≤ q.times_sent
    → q.packets ≡ p ∷ ps
    → handle_arpreq fuel now q.addr r ≢ done tt s
unfolding handle_arpreq handle_arpreq_with monad
handle_arpreq_breaks fuel now r s q p ps e late many waits =
    let due : ltb (q.sent + 1) now ≡ true = ground arith in
    let tried : leb 5 q.times_sent ≡ true = ground arith in
    rw (e, due, tried) (after_free (send_icmp_msg fuel now) q p ps r s _ waits refl)

-- The ARP request, byte by byte: broadcast on Ethernet, from the interface, for `ip`.
abbrev pub arp_request : Iface → ℕ → Bytes
arp_request i ip =
    replicate 6 0xff
    ++ (i.addr
        ++ (8 ∷ 6 ∷ 0 ∷ 1 ∷ 8 ∷ 0 ∷ 6 ∷ 4 ∷ 0 ∷ 1 ∷ []
            ++ (i.addr ++ (bytes32 i.ip ++ (replicate 6 0 ++ bytes32 ip)))))

-- Nothing of the allocated memory is left in it.
arp_request_frame-arp_request :
    (r : Router) (i : Iface) (ip : ℕ)
    → length i.addr ≡ 6
    → arp_request_frame (malloc r 42) i ip ≡ arp_request i ip
unfolding arp_request_frame malloc alloc_from arp_header_init stores splice htons
arp_request_frame-arp_request r i ip h = go i.addr h
  where
    go :
        (addr : Bytes)
        → length addr ≡ 6
        → arp_request_frame (malloc r 42) (record i { addr = addr }) ip
          ≡ arp_request (record i { addr = addr }) ip
    go [] e = absurd (omega arith)
    go (a ∷ []) e = absurd (omega arith)
    go (a ∷ b ∷ []) e = absurd (omega arith)
    go (a ∷ b ∷ c ∷ []) e = absurd (omega arith)
    go (a ∷ b ∷ c ∷ d ∷ []) e = absurd (omega arith)
    go (a ∷ b ∷ c ∷ d ∷ f ∷ []) e = absurd (omega arith)
    go (a ∷ b ∷ c ∷ d ∷ f ∷ g ∷ []) e = refl
    go (a ∷ b ∷ c ∷ d ∷ f ∷ g ∷ k ∷ l) e = absurd (omega arith)

arp_request_shost :
    (i : Iface) (ip : ℕ)
    → length i.addr ≡ 6
    → (ether_shost (arp_request i ip) ≡ i.addr) × (14 ≤ length (arp_request i ip))
unfolding slice
arp_request_shost i ip h = (take_all i.addr 6 _ (omega arith), omega (arith, length-append {0}))

-- The same with the store into the node of the queue.
pub handle_arpreq_asked :
    (fuel now : ℕ) (r : Router) (q : ArpReq) (p : QueuedPacket) (i : Iface)
    → request_at q.addr r.cache.requests ≡ some q
    → q.sent + 1 < now
    → q.times_sent < 5
    → head? q.packets ≡ some p
    → get_interface r.if_list p.iface ≡ some i
    → length i.addr ≡ 6
    → handle_arpreq fuel now q.addr r
      ≡ done tt (record (with_message (arp_request i q.ip) i.name r) {
        cache = record r.cache {
          requests = update_request q.addr (mark_sent now) r.cache.requests;
        };
      })
unfolding handle_arpreq handle_arpreq_with send_arp_request monad
handle_arpreq_asked fuel now r q p i e late few waits out six =
    let due : ltb (q.sent + 1) now ≡ true = ground arith in
    let left : leb 5 q.times_sent ≡ false = ground arith in
    let frame = arp_request_frame-arp_request r i q.ip six in
    let (ok, sent) =
      send_packet_done (arp_request i q.ip) p.iface r i out (arp_request_shost i q.ip six).1
        (arp_request_shost i q.ip six).0 six in
    rw (e, due, left, waits, out, frame, sent, ◌>>=◌)

request_at-update_same :
    (a : ℕ) (f : ArpReq → ArpReq) (rs : List ArpReq) (q : ArpReq)
    → IsUpdate f
    → request_at a rs ≡ some q
    → request_at a (update_request a f rs) ≡ some (f q)
unfolding request_at update_request
request_at-update_same a f [] q u e = absurd (cc e)
request_at-update_same a f (r ∷ rs) q u e = elim (Bool-cases (r.addr == a)) [
  | inl c ↦
      let d : ((f r).addr == a) ≡ true = ap (λ k. k == a) (u.same_addr r) ∙ c in
      let g : some r ≡ some q = sym (if_true (r.addr == a) _ _ c) ∙ e in
      rw (c, d, request_at) (ap (map f) g)
  | inr c ↦
      let g = sym (if_false (r.addr == a) _ _ c) ∙ e in
      rw (c, request_at, c) (request_at-update_same a f rs q u g)
]

request_at-update_other :
    (a b : ℕ) (f : ArpReq → ArpReq) (rs : List ArpReq)
    → IsUpdate f
    → b ≢ a
    → request_at b (update_request a f rs) ≡ request_at b rs
unfolding request_at update_request
request_at-update_other a b f [] u n = refl
request_at-update_other a b f (r ∷ rs) u n = elim (Bool-cases (r.addr == a)) [
  | inl c ↦
      let d : (r.addr == b) ≡ false = ground (arith, n, c) in
      let g : ((f r).addr == b) ≡ false = ap (λ k. k == b) (u.same_addr r) ∙ d in
      rw (c, g, d, request_at) refl
  | inr c ↦
      rw (c, request_at)
        (ap (λ o. if r.addr == b then some r else o) (request_at-update_other a b f rs u n))
]

-- The queue `rs'` is `rs`, in the same order, but that the request `q` was sent once more, `now`.
pub record IsCounted (now : ℕ) (q : ArpReq) (rs rs' : List ArpReq) : Type 0 where
  pub counted :
      request_at q.addr rs' ≡ some (record q { sent = now; times_sent = q.times_sent + 1 })
  pub others : (a : ℕ) → a ≢ q.addr → request_at a rs' ≡ request_at a rs
  pub order : addrs rs' ≡ addrs rs

mark_sent-IsUpdate : (now : ℕ) → IsUpdate (mark_sent now)
mark_sent-IsUpdate now = record { same_ip = λ q. refl; same_addr = λ q. refl }

-- A request in the queue that was sent more than a second ago and less than five times is sent
-- again, on the interface of the packet that came last, if the router has that interface with a MAC
-- address of six bytes: the one message written holds `arp_request`, the broadcast frame for the
-- request's address. The request, with its packets, stays where it is in the queue, with the time
-- and one try more. Nothing else changes.
pub handle_arpreq_asks :
    (fuel now : ℕ) (r : Router) (q : ArpReq) (p : QueuedPacket) (i : Iface)
    → request_at q.addr r.cache.requests ≡ some q
    → q.sent + 1 < now
    → q.times_sent < 5
    → head? q.packets ≡ some p
    → get_interface r.if_list p.iface ≡ some i
    → length i.addr ≡ 6
    → (rs : List ArpReq) × (handle_arpreq fuel now q.addr r
        ≡ done tt (record (with_message (arp_request i q.ip) i.name r) {
          cache = record r.cache { requests = rs };
        }))
      × IsCounted now q r.cache.requests rs
handle_arpreq_asks fuel now r q p i e late few waits out six = (
  update_request q.addr (mark_sent now) r.cache.requests,
  handle_arpreq_asked fuel now r q p i e late few waits out six,
  record {
    counted =
        request_at-update_same q.addr (mark_sent now) r.cache.requests q (mark_sent-IsUpdate now) e
        ∙ ap (λ k. some (record q { sent = now; times_sent = k })) (omega (arith, few));
    others = λ a n.
        request_at-update_other q.addr a (mark_sent now) r.cache.requests (mark_sent-IsUpdate now)
          n;
    order = addrs-update_request q.addr r.cache.requests (mark_sent-IsUpdate now);
  },
)
