-- ===== src/Router/Keeps.antt =====
-- Invariants of the router's handlers, by a rule for each construct of the monad: a predicate that
-- the basic operations keep is kept by every handler, also where a run breaks off.
pub mod Handlers
use cmput.Base.{
  ℕ, zero, suc, ◌+◌, ◌≤◌, ◌<◌, ◌≡◌, ◌⊎◌, inl, inr, Bool, true, false, Option, none, some, Bytes,
  if◌then◌else◌, ltb, leb, Bool-cases, Option-cases, arith, length,
}
use cmput.ArpCache.{
  ArpCache, ArpReq, request_at, arpcache_queuereq, arpcache_insert, arpreq_destroy, expire_entries,
}
use cmput.Router.{
  Router, Outcome, Fault, M, done, fault, ◌>>=◌, ◌>>◌, return, abort, reads, on_cache, change_cache,
  if_null, need, deref, out_of_bounds, null_deref, use_after_free, assert_failed, out_of_fuel,
}
use cmput.Router.Send.{send_packet}
use cmput.Router.Icmp.{send_arp_request}

-- What a run has to keep: a predicate on the state, and the faults in which it may break off.
pub record Claim : Type 1 where
  pub state : Router → Type 0
  pub allows : Fault → Type 0

-- The state in which a run ended or broke off.
abbrev pub Holds : {A : Type 0} → Claim → Outcome A → Type 0
Holds G (done a r) = G.state r
Holds G (fault e r) = G.allows e × G.state r

pub record Keeps {A : Type 0} (G : Claim) (m : M A) : Type 0 where
  pub run : (r : Router) → G.state r → Holds G (m r)

-- What the claim has to promise at the time `now`: that its predicate survives each operation that
-- changes the state, that the faults of single operations are allowed, and the lack of fuel if a
-- request is given up.
pub record IsStable (now : ℕ) (G : Claim) : Type 0 where
  pub sends : (buf iface : Bytes) → Keeps G (send_packet buf iface)
  pub queues :
      (ip : ℕ) (buf iface : Bytes) → Keeps G (on_cache λ c. arpcache_queuereq c ip buf iface)
  pub inserts : (ip : ℕ) (mac : Bytes) → Keeps G (on_cache λ c. arpcache_insert now c mac ip)
  pub destroys : (a : ℕ) → Keeps G (change_cache λ c. arpreq_destroy c a)
  pub expires : Keeps G (change_cache (expire_entries now))
  pub asks :
      (q : ArpReq) (r : Router)
      → request_at q.addr r.cache.requests ≡ some q
      → q.times_sent < 5
      → G.state r
      → Holds G (send_arp_request now q r)
  pub gives_up :
      (q : ArpReq) (r : Router)
      → request_at q.addr r.cache.requests ≡ some q
      → q.sent + 1 < now
      → 5 ≤ q.times_sent
      → G.state r
      → G.allows out_of_fuel
  pub bounds : G.allows out_of_bounds
  pub null : G.allows null_deref
  pub freed : G.allows use_after_free
  pub asserted : G.allows assert_failed

module _ (G : Claim) where
  Holds->>= :
      {A B : Type 0} (o : Outcome A) (f : A → M B)
      → Holds G o
      → ((a : A) (s : Router) → G.state s → Holds G (f a s))
      → Holds G (elim o [ done a s ↦ f a s | fault e s ↦ fault e s ])
  Holds->>= (done a s) f h k = k a s h
  Holds->>= (fault e s) f h k = h

  pub Keeps->>= :
      {A B : Type 0} {m : M A} {f : A → M B}
      → Keeps G m
      → ((a : A) → Keeps G (f a))
      → Keeps G (m >>= f)
  unfolding ◌>>=◌
  Keeps->>= {m = m} {f = f} h k = record {
    run = λ r p. Holds->>= (m r) f (h.run r p) (λ a s q. (k a).run s q);
  }

  pub Keeps-return : {A : Type 0} (a : A) → Keeps G (return a)
  unfolding return
  Keeps-return a = record { run = λ r p. p }

  pub Keeps-abort : {A : Type 0} {e : Fault} → G.allows e → Keeps G (abort {A = A} e)
  unfolding abort
  Keeps-abort h = record { run = λ r p. (h, p) }

  pub Keeps-reads : {A : Type 0} (f : Router → A) → Keeps G (reads f)
  unfolding reads
  Keeps-reads f = record { run = λ r p. p }

  Holds-need :
      (n : ℕ) (b : Bytes) (r : Router) (t : Bool)
      → G.allows out_of_bounds
      → G.state r
      → Holds {A = Unit {0}} G (elim t [ true ↦ done tt r | false ↦ fault out_of_bounds r ])
  Holds-need n b r true h p = p
  Holds-need n b r false h p = (h, p)

  pub Keeps-need : G.allows out_of_bounds → (n : ℕ) (b : Bytes) → Keeps G (need n b)
  unfolding need
  Keeps-need h n b = record { run = λ r p. Holds-need n b r (leb n (length b)) h p }

  Holds-deref :
      {A : Type 0} {e : Fault}
      → G.allows e
      → (o : Option A) (r : Router) → G.state r
      → Holds G (deref e o r)
  unfolding deref
  Holds-deref h none r p = (h, p)
  Holds-deref h (some a) r p = p

  pub Keeps-deref : {A : Type 0} {e : Fault} → G.allows e → (o : Option A) → Keeps G (deref e o)
  Keeps-deref h o = record { run = Holds-deref h o }

  pub Keeps-if :
      {A : Type 0} (b : Bool) {m n : M A} → Keeps G m → Keeps G n → Keeps G (if b then m else n)
  Keeps-if true h k = h
  Keeps-if false h k = k

  pub Keeps-if_null :
      {A B : Type 0} (o : Option A) {m : M B} {f : A → M B}
      → Keeps G m
      → ((a : A) → Keeps G (f a))
      → Keeps G (if_null o m f)
  unfolding if_null
  Keeps-if_null none h k = h
  Keeps-if_null (some a) h k = k a
