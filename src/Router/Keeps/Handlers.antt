-- ===== src/Router/Keeps/Handlers.antt =====
-- The handlers, and what the basic operations keep.
use cmput.Base.{
  ℕ, zero, suc, ◌+◌, ◌≡◌, inl, inr, List, [], ◌∷◌, Option, none, some, Bytes, Bool-cases,
  Option-cases, arith, ltb, leb, subst, sym, if◌then◌else◌,
}
use cmput.Packet.{ar_sha}
use cmput.Iface.{Iface}
use cmput.ArpCache.{ArpReq, QueuedPacket, request_at}
use cmput.Router.{Router, M, monad, return, out_of_fuel}
use cmput.Router.Icmp.{
  send_or_queue, error_source, icmp_error, echo_reply, icmp_msg_with, Node, live, freed, read_next,
  report_packets, give_up, handle_arpreq_with, send_icmp_msg, handle_arpreq, send_arp_request,
}
use cmput.Router.Handle.{
  forward_ip_packet, answer_arp_request, flush_packets, take_arp_reply, interface_by_ip, handle_arp,
  handle_local, handle_ip, handle_packet, sweep_from, sweepreqs, timer_round,
}
use cmput.Router.Keeps.{
  Claim, Holds, Keeps, IsStable, Keeps->>=, Keeps-return, Keeps-abort, Keeps-reads, Keeps-need,
  Keeps-deref, Keeps-if, Keeps-if_null,
}

request_at-addr : (a : ℕ) (rs : List ArpReq) (q : ArpReq) → request_at a rs ≡ some q → q.addr ≡ a
unfolding request_at
request_at-addr a [] q e = cc
request_at-addr a (r ∷ rs) q e = ground (arith, request_at-addr a rs q)

module _ {now : ℕ} {G : Claim} (v : IsStable now G) where
  Keeps-done : Keeps G (return tt)
  Keeps-done = Keeps-return G tt

  send_or_queue-Keeps :
      (handle : ℕ → M (Unit {0})) (gw : ℕ) (i : Option Iface) (buf : Bytes)
      → ((a : ℕ) → Keeps G (handle a))
      → Keeps G (send_or_queue handle gw i buf)
  unfolding send_or_queue
  send_or_queue-Keeps handle gw i buf h = Keeps->>= G (Keeps-reads G _) λ entry.
      Keeps-if_null G entry
        (Keeps->>= G (Keeps-deref G v.null i) λ j. Keeps->>= G (v.queues gw buf j.name) λ a. h a)
        (λ e. Keeps->>= G (Keeps-deref G v.null i) λ j. Keeps->>= G (v.sends _ _) λ _. Keeps-done)

  error_source-Keeps :
      (code : ℕ) (packet : Bytes) (i : Option Iface) → Keeps G (error_source code packet i)
  unfolding error_source
  error_source-Keeps code packet i =
      Keeps-if G _ (Keeps-return G _) (Keeps->>= G (Keeps-deref G v.null i) λ j. Keeps-return G _)

  icmp_error-Keeps :
      (type code : ℕ) (packet : Bytes) (i : Option Iface) → Keeps G (icmp_error type code packet i)
  unfolding icmp_error
  icmp_error-Keeps type code packet i = Keeps->>= G (Keeps-reads G _) λ p.
      Keeps->>= G (error_source-Keeps code packet i)
        λ src. Keeps->>= G (Keeps-need G v.bounds _ _) λ _. Keeps-return G _

  echo_reply-Keeps : (type code : ℕ) (packet : Bytes) → Keeps G (echo_reply type code packet)
  unfolding echo_reply
  echo_reply-Keeps type code packet =
      Keeps->>= G (Keeps-need G v.bounds _ _)
        λ _. Keeps->>= G (Keeps-need G v.bounds _ _) λ _. Keeps-return G _

  icmp_msg_with-Keeps :
      (handle : ℕ → M (Unit {0})) (packet : Bytes) (type code : ℕ)
      → ((a : ℕ) → Keeps G (handle a))
      → Keeps G (icmp_msg_with handle packet type code)
  unfolding icmp_msg_with
  icmp_msg_with-Keeps handle packet type code h = Keeps->>= G (Keeps-need G v.bounds _ _) λ _.
      Keeps->>= G (Keeps-reads G _) λ entry. Keeps-if_null G entry Keeps-done λ e.
        Keeps->>= G (Keeps-reads G _) λ i.
          Keeps-if G _
            (Keeps->>= G (echo_reply-Keeps type code packet)
              λ b. send_or_queue-Keeps handle e.gw i b h)
            (Keeps-if G _
              (Keeps->>= G (icmp_error-Keeps type code packet i)
                λ b. send_or_queue-Keeps handle e.gw i b h)
              Keeps-done)

  read_next-Keeps : (node : Node) → Keeps G (read_next node)
  unfolding read_next
  read_next-Keeps (live p next) = Keeps-return G next
  read_next-Keeps freed = Keeps-abort G v.freed

  report_packets-Keeps :
      (send : Bytes → ℕ → ℕ → M (Unit {0})) (ps : List QueuedPacket)
      → ((b : Bytes) (t c : ℕ) → Keeps G (send b t c))
      → Keeps G (report_packets send ps)
  unfolding report_packets
  report_packets-Keeps send [] h = Keeps-done
  report_packets-Keeps send (p ∷ ps) h =
      Keeps->>= G (h _ _ _) λ _. Keeps->>= G (read_next-Keeps _) λ _. report_packets-Keeps send ps h

  give_up-Keeps :
      (send : Bytes → ℕ → ℕ → M (Unit {0})) (q : ArpReq)
      → ((b : Bytes) (t c : ℕ) → Keeps G (send b t c))
      → Keeps G (give_up send q)
  unfolding give_up
  give_up-Keeps send q h =
      Keeps->>= G (report_packets-Keeps send q.packets h) λ _. v.destroys q.addr

  handle_arpreq_with-Keeps :
      (send : Bytes → ℕ → ℕ → M (Unit {0})) (a : ℕ)
      → (G.allows out_of_fuel → (b : Bytes) (t c : ℕ) → Keeps G (send b t c))
      → Keeps G (handle_arpreq_with send now a)
  unfolding handle_arpreq_with monad
  handle_arpreq_with-Keeps send a h = record {
    run = λ r p. elim (Option-cases (request_at a r.cache.requests)) [
      | inl e ↦ rw e (v.freed, p)
      | inr (q, e) ↦ rw e (
          step q r
            (subst (λ k. request_at k r.cache.requests ≡ some q)
              (sym (request_at-addr a r.cache.requests q e)) e)
            p)
    ];
  }
    where
      step :
          (q : ArpReq) (r : Router)
          → request_at q.addr r.cache.requests ≡ some q
          → G.state r
          → Holds G (
              (if ltb (q.sent + 1) now
                  then (if leb 5 q.times_sent then give_up send q else send_arp_request now q)
                  else return tt)
                r)
      step q r e p = elim (Bool-cases (ltb (q.sent + 1) now)) [
        | inr f ↦ rw f p
        | inl f ↦ rw f (elim (Bool-cases (leb 5 q.times_sent)) [
          | inl g ↦ rw g (
              (give_up-Keeps send q (h (v.gives_up q r e (ground arith) (ground arith) p))).run r p)
          | inr g ↦ rw g (v.asks q r e (ground arith) p)
        ])
      ]

  -- Where the lack of fuel is allowed, any fuel will do.
  send_icmp_msg_allowed :
      G.allows out_of_fuel
      → (fuel : ℕ) (packet : Bytes) (type code : ℕ)
      → Keeps G (send_icmp_msg fuel now packet type code)
  unfolding send_icmp_msg
  send_icmp_msg_allowed h zero packet type code = Keeps-abort G h
  send_icmp_msg_allowed h (suc fuel) packet type code =
      icmp_msg_with-Keeps _ packet type code
        λ a. handle_arpreq_with-Keeps _ a (λ _. send_icmp_msg_allowed h fuel)

  -- The fuel that an event needs: some, or none if the lack of it is allowed.
  abbrev pub Affords : ℕ → Type 0
  Affords zero = G.allows out_of_fuel
  Affords (suc fuel) = Unit {0}

  send_icmp_msg-Keeps :
      (fuel : ℕ) (packet : Bytes) (type code : ℕ)
      → Affords fuel
      → Keeps G (send_icmp_msg fuel now packet type code)
  unfolding send_icmp_msg
  send_icmp_msg-Keeps zero packet type code h = send_icmp_msg_allowed h zero packet type code
  send_icmp_msg-Keeps (suc fuel) packet type code h =
      icmp_msg_with-Keeps _ packet type code
        λ a. handle_arpreq_with-Keeps _ a (λ o. send_icmp_msg_allowed o fuel)

  handle_arpreq-Keeps : (fuel a : ℕ) → Keeps G (handle_arpreq fuel now a)
  unfolding handle_arpreq
  handle_arpreq-Keeps fuel a = handle_arpreq_with-Keeps _ a (λ o. send_icmp_msg_allowed o fuel)

  forward_ip_packet-Keeps :
      (fuel : ℕ) (packet : Bytes) → Affords fuel → Keeps G (forward_ip_packet fuel now packet)
  unfolding forward_ip_packet
  forward_ip_packet-Keeps fuel packet h = Keeps-if G _ Keeps-done (
      Keeps-if G _ (send_icmp_msg-Keeps fuel _ _ _ h) (
        Keeps->>= G (Keeps-reads G _) λ entry.
          Keeps-if_null G entry (send_icmp_msg-Keeps fuel _ _ _ h) λ e.
            Keeps->>= G (Keeps-reads G _)
              λ i. send_or_queue-Keeps _ e.gw i _ (handle_arpreq-Keeps fuel)))

  answer_arp_request-Keeps : (buf iface : Bytes) → Keeps G (answer_arp_request buf iface)
  unfolding answer_arp_request
  answer_arp_request-Keeps buf iface =
      Keeps->>= G (Keeps-reads G _)
        λ o. Keeps->>= G (Keeps-deref G v.null o) λ i. Keeps->>= G (v.sends _ _) λ _. Keeps-done

  flush_packets-Keeps : (mac : Bytes) (ps : List QueuedPacket) → Keeps G (flush_packets mac ps)
  unfolding flush_packets
  flush_packets-Keeps mac [] = Keeps-done
  flush_packets-Keeps mac (p ∷ ps) = Keeps->>= G (Keeps-reads G _) λ o.
      Keeps->>= G
        (Keeps-if_null G o Keeps-done λ i.
          Keeps->>= G (Keeps-need G v.bounds _ _) λ _. Keeps->>= G (v.sends _ _) λ _. Keeps-done)
        λ _. flush_packets-Keeps mac ps

  take_arp_reply-Keeps : (buf : Bytes) → Keeps G (take_arp_reply now buf)
  unfolding take_arp_reply
  take_arp_reply-Keeps buf = Keeps->>= G (v.inserts _ (ar_sha buf)) λ o.
      Keeps-if_null G o Keeps-done
        λ q. Keeps->>= G (flush_packets-Keeps (ar_sha buf) q.packets) λ _. v.destroys q.addr

  interface_by_ip-Keeps : (ip : ℕ) → Keeps G (interface_by_ip ip)
  unfolding interface_by_ip
  interface_by_ip-Keeps ip = Keeps-if G _ (Keeps-abort G v.asserted) (Keeps-reads G _)

  handle_arp-Keeps : (buf iface : Bytes) → Keeps G (handle_arp now buf iface)
  unfolding handle_arp
  handle_arp-Keeps buf iface = Keeps->>= G (Keeps-need G v.bounds _ _) λ _.
      Keeps->>= G (interface_by_ip-Keeps _) λ o. Keeps-if_null G o Keeps-done λ _.
        Keeps-if G _ (answer_arp_request-Keeps buf iface)
          (Keeps-if G _ (take_arp_reply-Keeps buf) Keeps-done)

  handle_local-Keeps : (fuel : ℕ) (buf : Bytes) → Affords fuel → Keeps G (handle_local fuel now buf)
  unfolding handle_local
  handle_local-Keeps fuel buf h =
      Keeps-if G _
        (Keeps->>= G (Keeps-need G v.bounds _ _)
          λ _. Keeps-if G _ (send_icmp_msg-Keeps fuel _ _ _ h) Keeps-done)
        (Keeps-if G _ (send_icmp_msg-Keeps fuel _ _ _ h) Keeps-done)

  handle_ip-Keeps : (fuel : ℕ) (buf : Bytes) → Affords fuel → Keeps G (handle_ip fuel now buf)
  unfolding handle_ip
  handle_ip-Keeps fuel buf h = Keeps-if G _ Keeps-done (
      Keeps->>= G (Keeps-need G v.bounds _ _) λ _. Keeps-if G _ Keeps-done (
        Keeps-if G _ (send_icmp_msg-Keeps fuel _ _ _ h) (
          Keeps->>= G (interface_by_ip-Keeps _) λ o.
            Keeps-if_null G o (forward_ip_packet-Keeps fuel buf h)
              λ _. handle_local-Keeps fuel buf h)))

  pub handle_packet-Keeps :
      (fuel : ℕ) (buf iface : Bytes) → Affords fuel → Keeps G (handle_packet fuel now buf iface)
  unfolding handle_packet
  handle_packet-Keeps fuel buf iface h = Keeps-if G _ Keeps-done (
      Keeps-if G _ (handle_arp-Keeps buf iface)
        (Keeps-if G _ (handle_ip-Keeps fuel buf h) Keeps-done))

  sweep_from-Keeps :
      (steps fuel : ℕ) (o : Option ℕ) → G.allows out_of_fuel → Keeps G (sweep_from steps fuel now o)
  unfolding sweep_from
  sweep_from-Keeps steps fuel none h = Keeps-done
  sweep_from-Keeps zero fuel (some a) h = Keeps-abort G h
  sweep_from-Keeps (suc steps) fuel (some a) h = Keeps->>= G (Keeps-reads G _) λ o.
      Keeps->>= G (Keeps-deref G v.freed o)
        λ next. Keeps->>= G (handle_arpreq-Keeps fuel a) λ _. sweep_from-Keeps steps fuel next h

  pub timer_round-Keeps : (fuel : ℕ) → G.allows out_of_fuel → Keeps G (timer_round fuel now)
  unfolding timer_round sweepreqs
  timer_round-Keeps fuel h =
      Keeps->>= G v.expires λ _. Keeps->>= G (Keeps-reads G _) λ rs. sweep_from-Keeps _ fuel _ h
