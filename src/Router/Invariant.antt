-- ===== src/Router/Invariant.antt =====
-- What every event leaves true of the router: the ARP cache stays valid, and only proper messages
-- go to the VNS server.
use cmput.Base.{
  ℕ, zero, suc, ◌<◌, ◌≡◌, refl, sym, ap, subst, inl, inr, List, [], ◌∷◌, some, All, All-append,
  Bytes, head?, Option-cases, arith,
}
use cmput.Iface.{Iface, get_interface}
use cmput.Route.{RtEntry}
use cmput.ArpCache.{ArpCache, ArpReq, request_at, update_request}
use cmput.ArpCache.Queue
use cmput.ArpCache.Queue.{IsUpdate}
use cmput.Router.{Router, Outcome, done, fault, ◌>>=◌, monad, malloc}
use cmput.Router.Send.{packet_message, send_packet}
use cmput.Router.Messages.{IsMessage, Sends, send_packet_cases}
use cmput.Router.Frames.{arp_request_frame}
use cmput.Router.Icmp.{mark_sent, send_arp_request}
use cmput.Router.Handle.{handle_packet, timer_round}
use cmput.Router.Keeps.{Claim, Holds, IsStable}
use cmput.Router.Keeps.Handlers.{Affords, handle_packet-Keeps, timer_round-Keeps}

-- The state of the router apart from its hardware, which an event does not change.
pub record IsSound (is : List Iface) (table : List RtEntry) (r : Router) : Type 0 where
  pub interfaces : r.if_list ≡ is
  pub routes : r.routing_table ≡ table
  pub messages : All (IsMessage is) r.wire
  pub valid : Queue.IsValid r.cache

module _ (is : List Iface) (table : List RtEntry) where
  -- A run may break off in any fault.
  abbrev claim : Claim
  claim = record { state = IsSound is table; allows = λ e. Unit {0} }

  IsSound-Sends :
      (buf name : Bytes) (r s : Router)
      → IsSound is table r
      → Sends buf name r s
      → IsSound is table s
  IsSound-Sends buf name r s v h = subst (IsSound is table) (sym h.grown) (record {
    interfaces = v.interfaces;
    routes = v.routes;
    messages =
        All-append (IsMessage is) r.wire (packet_message buf name ∷ []) v.messages
          (subst (λ js. IsMessage js (packet_message buf name)) v.interfaces h.message, tt);
    valid = v.valid;
  })

  IsSound-cache :
      (r : Router) (c : ArpCache)
      → IsSound is table r
      → Queue.IsValid c
      → IsSound is table (record r { cache = c })
  IsSound-cache r c v h = record {
    interfaces = v.interfaces;
    routes = v.routes;
    messages = v.messages;
    valid = h;
  }

  send_packet-IsSound :
      (buf name : Bytes) (r : Router) → IsSound is table r → Holds claim (send_packet buf name r)
  send_packet-IsSound buf name r v = elim (send_packet_cases buf name r) [
    | inl e ↦ rw e v
    | inr (b, s, e, h) ↦ rw e (IsSound-Sends buf name r s v h)
  ]

  -- The store `sent = now; times_sent++` after the frame went out, to a request asked for less
  -- than five times.
  mark_sent-IsValid :
      (c : ArpCache) (now : ℕ) (q : ArpReq)
      → request_at q.addr c.requests ≡ some q
      → q.times_sent < 5
      → Queue.IsValid c
      → Queue.IsValid (record c { requests = update_request q.addr (mark_sent now) c.requests })
  mark_sent-IsValid c now q e h v =
      Queue.update_request-IsValid c q.addr (mark_sent now)
        (record { same_ip = λ p. refl; same_addr = λ p. refl }) (λ p f k. ground arith) v

  stored-IsSound :
      (now : ℕ) (q : ArpReq) (r s : Router)
      → request_at q.addr r.cache.requests ≡ some q
      → q.times_sent < 5
      → s.cache ≡ r.cache
      → IsSound is table s
      → IsSound is table (record s {
        cache = record s.cache {
          requests = update_request q.addr (mark_sent now) s.cache.requests;
        };
      })
  stored-IsSound now q r s e h k v = IsSound-cache s _ v (
      mark_sent-IsValid s.cache now q
        (subst (λ (c : ArpCache). request_at q.addr c.requests ≡ some q) (sym k) e) h v.valid)

  asks-IsSound :
      (now : ℕ) (q : ArpReq) (r : Router)
      → request_at q.addr r.cache.requests ≡ some q
      → q.times_sent < 5
      → IsSound is table r
      → Holds claim (send_arp_request now q r)
  unfolding send_arp_request monad
  asks-IsSound now q r e h v = elim (Option-cases (head? q.packets)) [
    | inl f ↦ rw (f) (tt, v)
    | inr (p, f) ↦ elim (Option-cases (get_interface r.if_list p.iface)) [
      | inl g ↦ rw (f, g) v
      | inr (i, g) ↦
          rw (f, g)
            (elim (send_packet_cases (arp_request_frame (malloc r 42) i q.ip) i.name r) [
              | inl k ↦ rw (k, ◌>>=◌) (stored-IsSound now q r r e h refl v)
              | inr (b, s, k, l) ↦
                  rw (k, ◌>>=◌)
                    (stored-IsSound now q r s e h (ap (λ (t : Router). t.cache) l.grown)
                      (IsSound-Sends _ _ r s v l))
            ])
    ]
  ]

  stable : (now : ℕ) → IsStable now claim
  unfolding monad
  stable now = record {
    sends = λ buf name. record { run = send_packet-IsSound buf name };
    queues = λ ip buf name. record {
      run =
          λ r v. IsSound-cache r _ v (Queue.arpcache_queuereq-IsValid r.cache ip buf name v.valid);
    };
    inserts = λ ip mac. record {
      run = λ r v. IsSound-cache r _ v (Queue.arpcache_insert-IsValid now r.cache mac ip v.valid);
    };
    destroys = λ a. record {
      run = λ r v. IsSound-cache r _ v (Queue.arpreq_destroy-IsValid r.cache a v.valid);
    };
    expires = record {
      run = λ r v. IsSound-cache r _ v (Queue.expire_entries-IsValid now r.cache v.valid);
    };
    asks = asks-IsSound now;
    gives_up = λ q r e f g p. tt;
    bounds = tt;
    null = tt;
    freed = tt;
    asserted = tt;
  }

-- What can happen to the router: a frame arrives on an interface, or the timer thread wakes up.
pub data Event : Type 0 where
  arrives : Bytes → Bytes → Event
  wakes : Event

-- The state after an event at the time `now`, also where the run broke off in it.
abbrev pub state : {A : Type 0} → Outcome A → Router
state (done a r) = r
state (fault e r) = r

pub step : ℕ → Router → ℕ × Event → Router
step fuel r (now, arrives frame iface) = state (handle_packet fuel now frame iface r)
step fuel r (now, wakes) = state (timer_round fuel now r)

pub run : ℕ → Router → List (ℕ × Event) → Router
run fuel r [] = r
run fuel r (e ∷ es) = run fuel (step fuel r e) es

Holds-state : {A : Type 0} (G : Claim) (o : Outcome A) → Holds G o → G.state (state o)
Holds-state G (done a r) h = h
Holds-state G (fault e r) h = h.1

affords :
    (is : List Iface) (table : List RtEntry) (now fuel : ℕ) → Affords (stable is table now) fuel
affords is table now zero = tt
affords is table now (suc fuel) = tt

step-IsSound :
    (is : List Iface) (table : List RtEntry) (fuel : ℕ) (r : Router) (e : ℕ × Event)
    → IsSound is table r
    → IsSound is table (step fuel r e)
unfolding step
step-IsSound is table fuel r (now, arrives frame iface) v =
    Holds-state (claim is table) (handle_packet fuel now frame iface r) (
      (handle_packet-Keeps (stable is table now) fuel frame iface (affords is table now fuel)).run r
        v)
step-IsSound is table fuel r (now, wakes) v =
    Holds-state (claim is table) (timer_round fuel now r)
      ((timer_round-Keeps (stable is table now) fuel tt).run r v)

-- From a router in which `IsSound` holds, no sequence of frames and timer rounds, at any times,
-- changes the interfaces or the routing table, breaks the invariant of the ARP cache (one request
-- for an address, at most five tries for each, 100 entries), or puts anything on the wire but
-- frames that carry the MAC address of an interface; also where a run breaks off.
pub run-IsSound :
    (is : List Iface) (table : List RtEntry) (fuel : ℕ) (r : Router) (es : List (ℕ × Event))
    → IsSound is table r
    → IsSound is table (run fuel r es)
unfolding run
run-IsSound is table fuel r [] v = v
run-IsSound is table fuel r (e ∷ es) v =
    run-IsSound is table fuel (step fuel r e) es (step-IsSound is table fuel r e v)
