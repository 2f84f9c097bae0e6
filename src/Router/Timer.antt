-- ===== src/Router/Timer.antt =====
-- The walk of `sr_arpcache_sweepreqs` (assignment-3/router/sr_arpcache.c) over the request queue.
use cmput.Base.{
  ℕ, suc, ◌<◌, ◌≡◌, refl, ap, false, List, [], ◌∷◌, ◌++◌, Option, none, some, head?, length, ◌==◌,
  arith, if◌then◌else◌,
}
use cmput.ArpCache.{ArpReq}
use cmput.ArpCache.Queue.{addrs, Below}
use cmput.Router.Handle.{next_request, head_addr, sweep_from}

-- The address behind `a` in a list of addresses.
abbrev pub next_of : ℕ → List ℕ → Option (Option ℕ)
next_of a [] = none
next_of a (x ∷ []) = if x == a then some none else none
next_of a (x ∷ y ∷ xs) = let rest = next_of a (y ∷ xs) in if x == a then some (some y) else rest

pub next_request-addrs : (a : ℕ) (rs : List ArpReq) → next_request a rs ≡ next_of a (addrs rs)
unfolding next_request
next_request-addrs a [] = refl
next_request-addrs a (q ∷ []) = refl
next_request-addrs a (q ∷ p ∷ qs) =
    ap (λ rest. if q.addr == a then some (some p.addr) else rest) (next_request-addrs a (p ∷ qs))

pub Below-middle : (n a : ℕ) (ps xs : List ℕ) → Below n (ps ++ (a ∷ xs)) → a < n
Below-middle n a [] xs b = b.0
Below-middle n a (p ∷ ps) xs b = omega (arith, b.0, Below-middle p a ps xs b.1)

-- Nodes at different addresses: the one behind the node at `a` is the one that follows.
pub next_of-middle :
    (n a : ℕ) (ps xs : List ℕ)
    → Below n (ps ++ (a ∷ xs))
    → next_of a (ps ++ (a ∷ xs)) ≡ some (head? xs)
next_of-middle n a [] [] b = ground arith
next_of-middle n a [] (x ∷ xs) b = ground arith
next_of-middle n a (p ∷ []) xs b =
    let h : (p == a) ≡ false = ground (arith, b.1.0) in rw h (next_of-middle p a [] xs b.1)
next_of-middle n a (p ∷ q ∷ ps) xs b =
    let h : (p == a) ≡ false = ground (arith, Below-middle p a (q ∷ ps) xs b.1) in
    rw h (next_of-middle p a (q ∷ ps) xs b.1)

module _ (now : ℕ) where
  length-addrs : (rs : List ArpReq) → length (addrs rs) ≡ length rs
  length-addrs [] = refl
  length-addrs (r ∷ rs) = ap suc (length-addrs rs)

  pub sweep_from-addrs :
      (fuel : ℕ) (rs : List ArpReq)
      → sweep_from (length (addrs rs)) fuel now (head? (addrs rs))
        ≡ sweep_from (length rs) fuel now (head_addr rs)
  sweep_from-addrs fuel [] = refl
  sweep_from-addrs fuel (r ∷ rs) =
      ap (λ k. sweep_from (suc k) fuel now (some r.addr)) (length-addrs rs)
