-- ===== src/ArpCache/Queue.antt =====
-- The request queue: its invariant, and what queueing and unlinking do to it.
use cmput.Base.{
  ℕ, suc, ◌≤◌, ◌<◌, ◌≡◌, ◌≢◌, refl, ap, ◌∙◌, inl, inr, Bool, List, [], ◌∷◌, none, some, All, Bytes,
  map, length, ◌==◌, Bool-cases, Option-cases, arith,
}
use cmput.ArpCache.{
  ArpCache, ArpReq, ArpEntry, QueuedPacket, push_packet, find_request, request_at, update_request,
  ensure_request, arpcache_queuereq, unlink_first, fill_entry, arpcache_insert, arpreq_destroy,
  expire, expire_entries, arpcache_sz,
}

abbrev pub ips : List ArpReq → List ℕ
ips = map λ q. q.ip

abbrev pub addrs : List ArpReq → List ℕ
addrs = map λ q. q.addr

abbrev pub Distinct : List ℕ → Type 0
Distinct [] = Unit {0}
Distinct (x ∷ xs) = All (λ y. y ≢ x) xs × Distinct xs

-- The numbers fall along the list and stay below the bound.
abbrev pub Below : ℕ → List ℕ → Type 0
Below n [] = Unit {0}
Below n (x ∷ xs) = (x < n) × Below x xs

-- One request for an address at most, nodes at different addresses, no more than five ARP requests
-- sent for any of them, and a table of the fixed size.
pub record IsValid (c : ArpCache) : Type 0 where
  pub one_each : Distinct (ips c.requests)
  pub fresh : Below c.next_addr (addrs c.requests)
  pub tries : All (λ (q : ArpReq). q.times_sent ≤ 5) c.requests
  pub size : length c.entries ≡ arpcache_sz

-- A store that leaves the key fields alone.
pub record IsUpdate (f : ArpReq → ArpReq) : Type 0 where
  pub same_ip : (q : ArpReq) → (f q).ip ≡ q.ip
  pub same_addr : (q : ArpReq) → (f q).addr ≡ q.addr

pub ips-update_request :
    {f : ArpReq → ArpReq} (a : ℕ) (rs : List ArpReq)
    → IsUpdate f
    → ips (update_request a f rs) ≡ ips rs
unfolding update_request
ips-update_request a [] u = refl
ips-update_request a (r ∷ rs) u = ground (arith, u.same_ip r, ips-update_request a rs u)

pub addrs-update_request :
    {f : ArpReq → ArpReq} (a : ℕ) (rs : List ArpReq)
    → IsUpdate f
    → addrs (update_request a f rs) ≡ addrs rs
unfolding update_request
addrs-update_request a [] u = refl
addrs-update_request a (r ∷ rs) u = ground (arith, u.same_addr r, addrs-update_request a rs u)

pub All-update_request :
    (P : ArpReq → Type 0) (a : ℕ) (f : ArpReq → ArpReq) (rs : List ArpReq)
    → ((q : ArpReq) → request_at a rs ≡ some q → P q → P (f q))
    → All P rs
    → All P (update_request a f rs)
unfolding update_request request_at
All-update_request P a f [] h v = tt
All-update_request P a f (r ∷ rs) h v = elim (Bool-cases (r.addr == a)) [
  | inl e ↦ rw e (h r (rw e) v.0, v.1)
  | inr e ↦ rw e (v.0, All-update_request P a f rs (λ q k. h q (rw e k)) v.1)
]

Below-mono : {m n : ℕ} (xs : List ℕ) → m ≤ n → Below m xs → Below n xs
Below-mono [] h b = tt
Below-mono (x ∷ xs) h b = (omega arith, b.1)

module _ (test : ArpReq → Bool) where
  pub All-unlink_first :
      (P : ArpReq → Type 0) (rs : List ArpReq) → All P rs → All P (unlink_first test rs)
  unfolding unlink_first
  All-unlink_first P [] v = tt
  All-unlink_first P (r ∷ rs) v = elim (Bool-cases (test r)) [
    | inl e ↦ rw e v.1
    | inr e ↦ rw e (v.0, All-unlink_first P rs v.1)
  ]

  All-ips-unlink_first :
      (Q : ℕ → Type 0) (rs : List ArpReq) → All Q (ips rs) → All Q (ips (unlink_first test rs))
  unfolding unlink_first
  All-ips-unlink_first Q [] v = tt
  All-ips-unlink_first Q (r ∷ rs) v = elim (Bool-cases (test r)) [
    | inl e ↦ rw e v.1
    | inr e ↦ rw e (v.0, All-ips-unlink_first Q rs v.1)
  ]

  Distinct-unlink_first :
      (rs : List ArpReq) → Distinct (ips rs) → Distinct (ips (unlink_first test rs))
  unfolding unlink_first
  Distinct-unlink_first [] v = tt
  Distinct-unlink_first (r ∷ rs) v = elim (Bool-cases (test r)) [
    | inl e ↦ rw e v.1
    | inr e ↦ rw e (All-ips-unlink_first (λ y. y ≢ r.ip) rs v.0, Distinct-unlink_first rs v.1)
  ]

  Below-unlink_first :
      (n : ℕ) (rs : List ArpReq) → Below n (addrs rs) → Below n (addrs (unlink_first test rs))
  unfolding unlink_first
  Below-unlink_first n [] v = tt
  Below-unlink_first n (r ∷ rs) v = elim (Bool-cases (test r)) [
    | inl e ↦ rw e (Below-mono (addrs rs) (omega arith) v.1)
    | inr e ↦ rw e (v.0, Below-unlink_first r.addr rs v.1)
  ]

-- No request waits for an address that `find_request` does not find.
find_request-none :
    (ip : ℕ) (rs : List ArpReq) → find_request ip rs ≡ none → All (λ y. y ≢ ip) (ips rs)
unfolding find_request
find_request-none ip [] e = tt
find_request-none ip (r ∷ rs) e = elim (Bool-cases (r.ip == ip)) [
  | inl f ↦ absurd (ground arith)
  | inr f ↦ ((λ g. ground arith), find_request-none ip rs (ground arith))
]

push_packet-IsUpdate : (p : QueuedPacket) → IsUpdate (push_packet p)
push_packet-IsUpdate p = record { same_ip = λ q. refl; same_addr = λ q. refl }

-- A store into a request by a function that keeps the number of tries within five.
pub update_request-IsValid :
    (c : ArpCache) (a : ℕ) (f : ArpReq → ArpReq)
    → IsUpdate f
    → ((q : ArpReq) → request_at a c.requests ≡ some q → q.times_sent ≤ 5 → (f q).times_sent ≤ 5)
    → IsValid c
    → IsValid (record c { requests = update_request a f c.requests })
update_request-IsValid c a f u h v = record {
  one_each = rw (ips-update_request a c.requests u) v.one_each;
  fresh = rw (addrs-update_request a c.requests u) v.fresh;
  tries = All-update_request (λ q. q.times_sent ≤ 5) a f c.requests h v.tries;
  size = v.size;
}

ensure_request-IsValid : (c : ArpCache) (ip : ℕ) → IsValid c → IsValid (ensure_request c ip).0
unfolding ensure_request
ensure_request-IsValid c ip v = elim (Option-cases (find_request ip c.requests)) [
  | inl e ↦
      rw (e, ensure_request)
        (record {
          one_each = (find_request-none ip c.requests e, v.one_each);
          fresh = (omega arith, v.fresh);
          tries = (omega arith, v.tries);
          size = v.size;
        })
  | inr (q, e) ↦ rw (e, ensure_request) v
]

-- `sr_arpcache_queuereq` keeps the invariant.
pub arpcache_queuereq-IsValid :
    (c : ArpCache) (ip : ℕ) (buf iface : Bytes)
    → IsValid c
    → IsValid (arpcache_queuereq c ip buf iface).0
unfolding arpcache_queuereq
arpcache_queuereq-IsValid c ip buf iface v = elim (Bool-cases (length buf == 0)) [
  | inl e ↦ rw e (ensure_request-IsValid c ip v)
  | inr e ↦ rw e (
      update_request-IsValid (ensure_request c ip).0 (ensure_request c ip).1 _
        (push_packet-IsUpdate _) (λ q _ h. h) (ensure_request-IsValid c ip v))
]

pub length-fill_entry :
    (new : ArpEntry) (es : List ArpEntry) → length (fill_entry new es) ≡ length es
unfolding fill_entry
length-fill_entry new [] = refl
length-fill_entry new (e ∷ es) = ground (arith, length-fill_entry new es)

-- `sr_arpcache_insert` keeps the invariant.
pub arpcache_insert-IsValid :
    (now : ℕ) (c : ArpCache) (mac : Bytes) (ip : ℕ)
    → IsValid c
    → IsValid (arpcache_insert now c mac ip).0
unfolding arpcache_insert
arpcache_insert-IsValid now c mac ip v = record {
  one_each = Distinct-unlink_first _ c.requests v.one_each;
  fresh = Below-unlink_first _ c.next_addr c.requests v.fresh;
  tries = All-unlink_first _ _ c.requests v.tries;
  size = length-fill_entry _ c.entries ∙ v.size;
}

-- `sr_arpreq_destroy` keeps the invariant.
pub arpreq_destroy-IsValid : (c : ArpCache) (a : ℕ) → IsValid c → IsValid (arpreq_destroy c a)
unfolding arpreq_destroy
arpreq_destroy-IsValid c a v = record {
  one_each = Distinct-unlink_first _ c.requests v.one_each;
  fresh = Below-unlink_first _ c.next_addr c.requests v.fresh;
  tries = All-unlink_first _ _ c.requests v.tries;
  size = v.size;
}

length-map : {A B : Type 0} (f : A → B) (xs : List A) → length (map f xs) ≡ length xs
length-map f [] = refl
length-map f (x ∷ xs) = ap suc (length-map f xs)

pub expire_entries-IsValid : (now : ℕ) (c : ArpCache) → IsValid c → IsValid (expire_entries now c)
unfolding expire_entries
expire_entries-IsValid now c v = record {
  one_each = v.one_each;
  fresh = v.fresh;
  tries = v.tries;
  size = length-map (expire now) c.entries ∙ v.size;
}
