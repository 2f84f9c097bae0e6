-- ===== src/Router/Fuel.antt =====
-- How deep `send_icmp_msg` and `handle_arpreq` call each other.
use cmput.Base.{
  ℕ, suc, ◌+◌, ◌≤◌, ◌<◌, ◌≡◌, ◌≢◌, ◌⊎◌, refl, sym, ◌∙◌, subst, inl, inr, List, [], ◌∷◌, some, All,
  Bytes, head?, length, ◌==◌, Bool-cases, Option-cases, arith,
}
use cmput.Iface.{get_interface}
use cmput.ArpCache.{
  ArpCache, ArpReq, request_at, update_request, find_request, ensure_request, arpcache_queuereq,
  arpcache_insert, arpreq_destroy, expire_entries,
}
use cmput.ArpCache.Queue.{All-update_request, All-unlink_first}
use cmput.Router.{Router, out_of_fuel, ◌>>=◌, monad, malloc}
use cmput.Router.Send.{send_packet}
use cmput.Router.Messages.{Sends, send_packet_cases}
use cmput.Router.Frames.{arp_request_frame}
use cmput.Router.Icmp.{mark_sent, send_arp_request}
use cmput.Router.Handle.{handle_packet}
use cmput.Router.Keeps.{Claim, Holds, IsStable}
use cmput.Router.Keeps.Handlers.{handle_packet-Keeps}

module _ (now : ℕ) where
  -- The request is not given up at the time `now`: it has a try left, or was asked for a moment ago.
  abbrev pub IsCalm : ArpReq → Type 0
  IsCalm q = (q.times_sent < 5) ⊎ (now ≤ q.sent + 1)

  abbrev pub AllCalm : Router → Type 0
  AllCalm r = All IsCalm r.cache.requests

  -- No run gets to the end of its fuel.
  abbrev pub calm : Claim
  calm = record { state = AllCalm; allows = λ e. e ≢ out_of_fuel }

  ensure_request-IsCalm :
      (c : ArpCache) (ip : ℕ) → All IsCalm c.requests → All IsCalm (ensure_request c ip).0.requests
  unfolding ensure_request
  ensure_request-IsCalm c ip v = elim (Option-cases (find_request ip c.requests)) [
    | inl e ↦ rw (e, ensure_request) (inl (omega arith), v)
    | inr (q, e) ↦ rw (e, ensure_request) v
  ]

  arpcache_queuereq-IsCalm :
      (c : ArpCache) (ip : ℕ) (buf iface : Bytes)
      → All IsCalm c.requests
      → All IsCalm (arpcache_queuereq c ip buf iface).0.requests
  unfolding arpcache_queuereq
  arpcache_queuereq-IsCalm c ip buf iface v = elim (Bool-cases (length buf == 0)) [
    | inl e ↦ rw e (ensure_request-IsCalm c ip v)
    | inr e ↦ rw e (
        All-update_request IsCalm (ensure_request c ip).1 _ (ensure_request c ip).0.requests
          (λ q f h. h) (ensure_request-IsCalm c ip v))
  ]

  pub marked-IsCalm :
      (q : ArpReq) (s : Router)
      → AllCalm s
      → All IsCalm (update_request q.addr (mark_sent now) s.cache.requests)
  marked-IsCalm q s v =
      All-update_request IsCalm q.addr (mark_sent now) s.cache.requests (λ p f h. inr (omega arith))
        v

  sent-IsCalm : (buf name : Bytes) (r s : Router) → Sends buf name r s → AllCalm r → AllCalm s
  sent-IsCalm buf name r s h v = subst AllCalm (sym h.grown) v

  asks-IsCalm : (q : ArpReq) (r : Router) → AllCalm r → Holds calm (send_arp_request now q r)
  unfolding send_arp_request monad
  asks-IsCalm q r v = elim (Option-cases (head? q.packets)) [
    | inl f ↦ rw f ((λ e. cc e), v)
    | inr (p, f) ↦ elim (Option-cases (get_interface r.if_list p.iface)) [
      | inl g ↦ rw (f, g) v
      | inr (i, g) ↦
          rw (f, g)
            (elim (send_packet_cases (arp_request_frame (malloc r 42) i q.ip) i.name r) [
              | inl k ↦ rw (k, ◌>>=◌) (marked-IsCalm q r v)
              | inr (b, s, k, l) ↦ rw (k, ◌>>=◌) (marked-IsCalm q s (sent-IsCalm _ _ r s l v))
            ])
    ]
  ]

  send_packet-IsCalm :
      (buf name : Bytes) (r : Router) → AllCalm r → Holds calm (send_packet buf name r)
  send_packet-IsCalm buf name r v = elim (send_packet_cases buf name r) [
    | inl e ↦ rw e v
    | inr (b, s, e, h) ↦ rw e (sent-IsCalm buf name r s h v)
  ]

  pub IsCalm-request_at :
      (q : ArpReq) (a : ℕ) (rs : List ArpReq) → All IsCalm rs → request_at a rs ≡ some q → IsCalm q
  unfolding request_at
  IsCalm-request_at q a [] v e = absurd (cc e)
  IsCalm-request_at q a (r ∷ rs) v e = elim (Bool-cases (r.addr == a)) [
    | inl f ↦
        let h : request_at a (r ∷ rs) ≡ some r = rw f refl in
        let k : some r ≡ some q = sym h ∙ e in let l : r ≡ q = cc k in subst IsCalm l v.0
    | inr f ↦
        let h : request_at a (r ∷ rs) ≡ request_at a rs = rw f refl in
        IsCalm-request_at q a rs v.1 (sym h ∙ e)
  ]

  stable : IsStable now calm
  unfolding monad arpcache_insert arpreq_destroy expire_entries
  stable = record {
    sends = λ buf name. record { run = send_packet-IsCalm buf name };
    queues = λ ip buf name. record { run = λ r v. arpcache_queuereq-IsCalm r.cache ip buf name v };
    inserts = λ ip mac. record { run = λ r v. All-unlink_first _ _ r.cache.requests v };
    destroys = λ a. record { run = λ r v. All-unlink_first _ _ r.cache.requests v };
    expires = record { run = λ r v. v };
    asks = λ q r e h v. asks-IsCalm q r v;
    gives_up = λ q r e f g v. elim (IsCalm-request_at q q.addr r.cache.requests v e) [
      | inl h ↦ absurd (omega (arith, g, h))
      | inr h ↦ absurd (omega (arith, f, h))
    ];
    bounds = λ e. cc e;
    null = λ e. cc e;
    freed = λ e. cc e;
    asserted = λ e. cc e;
  }

  -- `sr_handlepacket` comes to an end: when no request is due to be given up at the time `now`, one
  -- call of `send_icmp_msg` is as deep as it gets, so that a run with fuel for one call or more does not
  -- break off for the lack of it; and after it no request is due either.
  pub handle_packet_ends :
      (fuel : ℕ) (buf iface : Bytes) (r : Router)
      → AllCalm r
      → Holds
          (record { state = AllCalm; allows = λ e. e ≢ out_of_fuel })
          (handle_packet (suc fuel) now buf iface r)
  handle_packet_ends fuel buf iface r v =
      (handle_packet-Keeps stable (suc fuel) buf iface tt).run r v
