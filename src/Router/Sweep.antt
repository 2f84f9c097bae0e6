-- ===== src/Router/Sweep.antt =====
-- What a round of the timer does to the request queue, when every request can be asked for.
use cmput.Base.{
  ℕ, ◌+◌, ◌≤◌, ◌<◌, ◌≡◌, refl, sym, ap, subst, ◌∙◌, ◌⊎◌, inl, inr, true, false, List, [], ◌∷◌, ◌++◌,
  map, some, All, head?, length, ◌==◌, ltb, Bool-cases, arith, if◌then◌else◌,
}
use mathlib.Core.List.{append_assoc}
use cmput.Iface.{Iface, get_interface}
use cmput.ArpCache.{ArpCache, ArpReq, QueuedPacket, request_at, update_request, expire_entries}
use cmput.ArpCache.Queue.{addrs, Below}
use cmput.Router.{Router, done, ◌>>=◌, monad}
use cmput.Router.Messages.{with_message}
use cmput.Router.Icmp.{mark_sent, handle_arpreq}
use cmput.Router.Ask.{arp_request, handle_arpreq_waits, handle_arpreq_asked}
use cmput.Router.Handle.{next_request, sweep_from, sweepreqs, timer_round}
use cmput.Router.Timer.{Below-middle, next_of, next_request-addrs, next_of-middle, sweep_from-addrs}

-- A request, and the interface on which it is asked for.
abbrev pub Turn : Type 0
Turn = ArpReq × Iface

-- The request has a try left, and a packet whose interface the router has, with a MAC address of six
-- bytes.
pub record IsAskable (is : List Iface) (t : Turn) : Type 0 where
  pub packet : QueuedPacket
  pub few : t.0.times_sent < 5
  pub waits : head? t.0.packets ≡ some packet
  pub out : get_interface is packet.iface ≡ some t.1
  pub six : length t.1.addr ≡ 6

addrs-append : (ps qs : List ArpReq) → addrs (ps ++ qs) ≡ addrs ps ++ addrs qs
addrs-append [] qs = refl
addrs-append (p ∷ ps) qs = ap (λ xs. p.addr ∷ xs) (addrs-append ps qs)

request_at-middle :
    (n : ℕ) (ps : List ArpReq) (q : ArpReq) (qs : List ArpReq)
    → Below n (addrs ps ++ (q.addr ∷ addrs qs))
    → request_at q.addr (ps ++ (q ∷ qs)) ≡ some q
unfolding request_at
request_at-middle n [] q qs b = let e : (q.addr == q.addr) ≡ true = ground arith in rw e refl
request_at-middle n (p ∷ ps) q qs b =
    let e : (p.addr == q.addr) ≡ false =
      ground (arith, Below-middle p.addr q.addr (addrs ps) (addrs qs) b.1) in
    rw e (request_at-middle p.addr ps q qs b.1)

update_request-middle :
    (n : ℕ) (f : ArpReq → ArpReq) (ps : List ArpReq) (q : ArpReq) (qs : List ArpReq)
    → Below n (addrs ps ++ (q.addr ∷ addrs qs))
    → update_request q.addr f (ps ++ (q ∷ qs)) ≡ ps ++ (f q ∷ qs)
unfolding update_request
update_request-middle n f [] q qs b = let e : (q.addr == q.addr) ≡ true = ground arith in rw e refl
update_request-middle n f (p ∷ ps) q qs b =
    let e : (p.addr == q.addr) ≡ false =
      ground (arith, Below-middle p.addr q.addr (addrs ps) (addrs qs) b.1) in
    rw e (ap (λ rs. p ∷ rs) (update_request-middle p.addr f ps q qs b.1))

next_request-middle :
    (n : ℕ) (ps : List ArpReq) (q : ArpReq) (qs : List ArpReq)
    → Below n (addrs ps ++ (q.addr ∷ addrs qs))
    → next_request q.addr (ps ++ (q ∷ qs)) ≡ some (head? (addrs qs))
next_request-middle n ps q qs b =
    next_request-addrs q.addr (ps ++ (q ∷ qs))
    ∙ ap (next_of q.addr) (addrs-append ps (q ∷ qs))
    ∙ next_of-middle n q.addr (addrs ps) (addrs qs) b

module _ (now : ℕ) where
  -- The request after the round: sent once more if the last time is more than a second ago.
  abbrev pub turned : ArpReq → ArpReq
  turned q =
      if ltb (q.sent + 1) now then record q { sent = now; times_sent = q.times_sent + 1 } else q

  -- The messages of the round: an ARP request for each request that is due, in their order.
  abbrev pub with_questions : List Turn → Router → Router
  with_questions [] r = r
  with_questions (t ∷ ts) r =
      with_questions ts
        (if ltb (t.0.sent + 1) now then with_message (arp_request t.1 t.0.ip) t.1.name r else r)

  -- The request is not due, or can be asked for.
  abbrev pub IsTurn : List Iface → Turn → Type 0
  IsTurn is t = (now ≤ t.0.sent + 1) ⊎ IsAskable is t

  abbrev pub requests_of : List Turn → List ArpReq
  requests_of = map (λ (t : Turn). t.0)

  abbrev pub with_requests : List ArpReq → Router → Router
  with_requests rs r = record r { cache = record r.cache { requests = rs } }

  mark_sent-few :
      (q : ArpReq)
      → q.times_sent < 5
      → mark_sent now q ≡ record q { sent = now; times_sent = q.times_sent + 1 }
  mark_sent-few q h = ap (λ k. record q { sent = now; times_sent = k }) (omega (arith, h))

  -- One step of the walk, at the node behind `ps`.
  handle_arpreq-turn :
      (n fuel : ℕ) (ps : List ArpReq) (t : Turn) (qs : List ArpReq) (r : Router)
      → IsTurn r.if_list t
      → Below n (addrs ps ++ (t.0.addr ∷ addrs qs))
      → handle_arpreq fuel now t.0.addr (with_requests (ps ++ (t.0 ∷ qs)) r)
        ≡ done tt (
            with_requests (ps ++ (turned t.0 ∷ qs)) (
              if ltb (t.0.sent + 1) now
              then with_message (arp_request t.1 t.0.ip) t.1.name r
              else r))
  handle_arpreq-turn n fuel ps t qs r v b = elim (Bool-cases (ltb (t.0.sent + 1) now)) [
    | inr e ↦ rw e (
        handle_arpreq_waits fuel now (with_requests (ps ++ (t.0 ∷ qs)) r) t.0
          (request_at-middle n ps t.0 qs b) (ground (arith, e)))
    | inl e ↦ elim v [
      | inl w ↦ absurd (ground (arith, e, w))
      | inr w ↦ rw e (
          handle_arpreq_asked fuel now (with_requests (ps ++ (t.0 ∷ qs)) r) t.0 w.packet t.1
            (request_at-middle n ps t.0 qs b) (ground (arith, e)) w.few w.waits w.out w.six
          ∙ ap (λ rs. done tt (with_requests rs (with_message (arp_request t.1 t.0.ip) t.1.name r)))
              (update_request-middle n (mark_sent now) ps t.0 qs b
                ∙ ap (λ q. ps ++ (q ∷ qs)) (mark_sent-few t.0 w.few)))
    ]
  ]

  turned_addr : (q : ArpReq) → (turned q).addr ≡ q.addr
  turned_addr q = elim (Bool-cases (ltb (q.sent + 1) now)) [ inl e ↦ rw e refl | inr e ↦ rw e refl ]

  abbrev asked : Turn → Router → Router
  asked t r = if ltb (t.0.sent + 1) now then with_message (arp_request t.1 t.0.ip) t.1.name r else r

  asked_if_list : (t : Turn) (r : Router) → (asked t r).if_list ≡ r.if_list
  asked_if_list t r = elim (Bool-cases (ltb (t.0.sent + 1) now)) [
    | inl e ↦ rw e refl
    | inr e ↦ rw e refl
  ]

  asked_cache :
      (t : Turn) (r : Router) (c : ArpCache)
      → asked t (record r { cache = c }) ≡ record (asked t r) { cache = c }
  asked_cache t r c = elim (Bool-cases (ltb (t.0.sent + 1) now)) [
    | inl e ↦ rw e refl
    | inr e ↦ rw e refl
  ]

  with_questions_cache :
      (ts : List Turn) (r : Router) (c : ArpCache)
      → with_questions ts (record r { cache = c }) ≡ record (with_questions ts r) { cache = c }
  with_questions_cache [] r c = refl
  with_questions_cache (t ∷ ts) r c =
      ap (with_questions ts) (asked_cache t r c) ∙ with_questions_cache ts (asked t r) c

  -- The nodes are where they were.
  Below-turned :
      (n : ℕ) (ps : List ArpReq) (q : ArpReq) (xs : List ℕ)
      → Below n (addrs ps ++ (q.addr ∷ xs))
      → Below n (addrs (ps ++ (turned q ∷ [])) ++ xs)
  Below-turned n ps q xs b =
      subst (Below n)
        (sym (
          ap (λ ys. ys ++ xs) (addrs-append ps (turned q ∷ []))
          ∙ append_assoc (addrs ps) ((turned q).addr ∷ []) xs
          ∙ ap (λ a. addrs ps ++ (a ∷ xs)) (turned_addr q)))
        b

  sweep_from-turns :
      (n fuel : ℕ) (ps : List ArpReq) (ts : List Turn) (r : Router)
      → All (IsTurn r.if_list) ts
      → Below n (addrs ps ++ addrs (requests_of ts))
      → sweep_from
          (length (addrs (requests_of ts)))
          fuel
          now
          (head? (addrs (requests_of ts)))
          (with_requests (ps ++ requests_of ts) r)
        ≡ done tt (with_requests (ps ++ map turned (requests_of ts)) (with_questions ts r))
  unfolding sweep_from monad
  sweep_from-turns n fuel ps [] r v b = refl
  sweep_from-turns n fuel ps (t ∷ ts) r v b =
      rw
        (
          next_request-middle n ps t.0 (requests_of ts) b,
          handle_arpreq-turn n fuel ps t (requests_of ts) r v.0 b,
          ◌>>=◌,
        )
        (ap
            (λ rs.
              sweep_from (length (addrs (requests_of ts))) fuel now (head? (addrs (requests_of ts)))
                (with_requests rs (asked t r)))
            (sym (append_assoc ps (turned t.0 ∷ []) (requests_of ts)))
          ∙ sweep_from-turns n fuel (ps ++ (turned t.0 ∷ [])) ts (asked t r)
              (subst (λ is. All (IsTurn is) ts) (sym (asked_if_list t r)) v.1)
              (Below-turned n ps t.0 (addrs (requests_of ts)) b)
          ∙ ap (λ rs. done tt (with_requests rs (with_questions ts (asked t r))))
              (append_assoc ps (turned t.0 ∷ []) (map turned (requests_of ts))))

  -- A round of the timer, when the nodes of the queue stand at falling addresses, as the queue keeps
  -- them, and each request is not due or has a try left and a packet whose interface the router
  -- has, with a MAC address of six bytes. The round ends, with any fuel. Every request that was sent
  -- more than a second ago is asked for, in the order of the queue: one message holds the ARP
  -- request for its address on the interface of the packet that came last; it has then the time and
  -- one try more. The other requests, the order, the packets and the rest of the router stay, but
  -- for the entries of the cache, which expire.
  pub timer_round_asks :
      (n fuel : ℕ) (r : Router) (ts : List Turn)
      → r.cache.requests ≡ requests_of ts
      → All (IsTurn r.if_list) ts
      → Below n (addrs (requests_of ts))
      → timer_round fuel now r
        ≡ done tt (record (with_questions ts r) {
          cache = record r.cache {
            entries = (expire_entries now r.cache).entries;
            requests = map turned (requests_of ts);
          };
        })
  unfolding timer_round expire_entries sweepreqs monad
  timer_round_asks n fuel r ts e v b =
      ap (λ m. m s) (sym (sweep_from-addrs now fuel r.cache.requests))
      ∙ ap (λ qs. sweep_from (length (addrs qs)) fuel now (head? (addrs qs)) (with_requests qs s)) e
      ∙ sweep_from-turns n fuel [] ts s v b
      ∙ ap (λ q. done tt (with_requests (map turned (requests_of ts)) q))
          (with_questions_cache ts r (expire_entries now r.cache))
    where
      s : Router
      s = record r { cache = expire_entries now r.cache }
