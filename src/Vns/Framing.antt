-- ===== src/Vns/Framing.antt =====
-- The loops that read a message, on a stream that is cut anyhow.
use mathlib.Core.List.{append_assoc, append-nil}
use cmput.Base.{
  ℕ, zero, suc, ◌+◌, ◌-◌, ◌≤◌, ◌<◌, ◌≡◌, refl, sym, ◌∙◌, ap, ◌⊎◌, inl, inr, List, [], ◌∷◌, ◌++◌,
  Bytes, take, drop, length, leb, if◌then◌else◌, All, arith,
}
use cmput.Vns.Stream.{Call, gives, interrupted, fails, got, running, read_loop}

abbrev pub IsNoFailure : Call → Type 0
IsNoFailure (gives k) = Unit
IsNoFailure interrupted = Unit
IsNoFailure fails = ⊥

-- How many of the calls give something.
abbrev pub progress : List Call → ℕ
progress [] = 0
progress (gives k ∷ cs) = (if leb k 0 then 0 else 1) + progress cs
progress (interrupted ∷ cs) = progress cs
progress (fails ∷ cs) = progress cs

pub length-take : (k : ℕ) (p : Bytes) → k ≤ length p → length (take k p) ≡ k
length-take zero p h = refl
length-take (suc k) [] h = absurd (omega arith)
length-take (suc k) (x ∷ p) h = ap suc (length-take k p (omega arith))

pub length-take_bound : (k : ℕ) (p : Bytes) → length (take k p) ≤ length p
length-take_bound zero p = omega arith
length-take_bound (suc k) [] = omega arith
length-take_bound (suc k) (x ∷ p) = omega (arith, length-take_bound k p)

length-drop : (k : ℕ) (p : Bytes) → k ≤ length p → length (drop k p) + k ≡ length p
length-drop zero p h = omega arith
length-drop (suc k) [] h = absurd (omega arith)
length-drop (suc k) (x ∷ p) h = omega (arith, length-drop k p (omega arith))

take_nil : (k : ℕ) → take {A = ℕ} k [] ≡ []
take_nil zero = refl
take_nil (suc k) = refl

drop_nil : (k : ℕ) → drop {A = ℕ} k [] ≡ []
drop_nil zero = refl
drop_nil (suc k) = refl

take-add : (j n : ℕ) (p : Bytes) → j ≤ n → take j p ++ take (n - j) (drop j p) ≡ take n p
take-add zero n p h = ap (λ k. take k p) (omega arith)
take-add (suc j) zero p h = absurd (omega arith)
take-add (suc j) (suc n) [] h = take_nil (suc n - suc j)
take-add (suc j) (suc n) (x ∷ p) h =
    ap (λ r. x ∷ r)
      (ap (λ k. take j p ++ take k (drop j p)) (omega arith) ∙ take-add j n p (omega arith))

drop-add : (j n : ℕ) (p : Bytes) → j ≤ n → drop (n - j) (drop j p) ≡ drop n p
drop-add zero n p h = ap (λ k. drop k p) (omega arith)
drop-add (suc j) zero p h = absurd (omega arith)
drop-add (suc j) (suc n) [] h = drop_nil (suc n - suc j)
drop-add (suc j) (suc n) (x ∷ p) h =
    ap (λ k. drop k (drop j p)) (omega arith) ∙ drop-add j n p (omega arith)

module _ (read : Bytes) (n : ℕ) (p : Bytes) (calls : List Call) where
  -- The loop has read its part, and left calls that can read what comes behind it.
  abbrev pub IsRead : Type 0
  IsRead =
      (rest : List Call) × (read_loop read n p calls
        ≡ got (read ++ take n p) (record { pending = drop n p; calls = rest }))
      × All IsNoFailure rest
      × (progress calls ≤ progress rest + n)

  abbrev pub IsRunning : Type 0
  IsRunning = (read_loop read n p calls ≡ running) × (progress calls < n)

bound : (k n : ℕ) → (if leb k (suc n) then k else suc n) ≤ suc n
bound k n = ground arith

counted : (k n : ℕ) → (if leb k 0 then 0 else 1) ≤ (if leb k (suc n) then k else suc n)
counted k n = ground arith

whole :
    (read : Bytes) (j n : ℕ) (p : Bytes) (calls : List Call)
    → j ≤ n
    → got
        ((read ++ take j p) ++ take (n - j) (drop j p))
        (record { pending = drop (n - j) (drop j p); calls = calls })
      ≡ got (read ++ take n p) (record { pending = drop n p; calls = calls })
whole read j n p calls l =
    ap (λ b. got b (record { pending = drop (n - j) (drop j p); calls = calls }))
      (append_assoc read (take j p) (take (n - j) (drop j p))
        ∙ ap (λ b. read ++ b) (take-add j n p l))
    ∙ ap (λ q. got (read ++ take n p) (record { pending = q; calls = calls })) (drop-add j n p l)

pub read_loop-complete :
    (read : Bytes) (n : ℕ) (p : Bytes) (calls : List Call)
    → All IsNoFailure calls
    → n ≤ length p
    → IsRunning read n p calls ⊎ IsRead read n p calls
unfolding read_loop
read_loop-complete read zero p calls v h = inr (
  calls,
  ap (λ b. got b (record { pending = p; calls = calls })) (sym (append-nil read)),
  v,
  omega arith,
)
read_loop-complete read (suc n) p [] v h = inl (refl, omega arith)
read_loop-complete read (suc n) p (interrupted ∷ calls) v h =
    read_loop-complete read (suc n) p calls v.1 h
read_loop-complete read (suc n) p (fails ∷ calls) v h = absurd v.0
read_loop-complete read (suc n) p (gives k ∷ calls) v h =
    let j : ℕ = if leb k (suc n) then k else suc n in
    let l : j ≤ suc n = bound k n in
    let e : length (take j p) ≡ j = length-take j p (omega (arith, l, h)) in
    let f = ap (λ m. read_loop (read ++ take j p) (suc n - m) (drop m p) calls) e in
    elim (read_loop-complete (read ++ take j p) (suc n - j) (drop j p) calls v.1
      (omega (arith, l, h, length-drop j p (omega (arith, l, h))))) [
        | inl (a, b) ↦ inl (f ∙ a, omega (arith, b, l, counted k n))
        | inr (rest, a, w, b) ↦
            inr (rest, f ∙ a ∙ whole read j (suc n) p rest l, w, omega (arith, b, l, counted k n))
      ]

-- A loop that needs more than there is goes on whatever the calls do.
pub read_loop-short :
    (read : Bytes) (n : ℕ) (p : Bytes) (calls : List Call)
    → All IsNoFailure calls
    → length p < n
    → read_loop read n p calls ≡ running
unfolding read_loop
read_loop-short read zero p calls v h = absurd (omega arith)
read_loop-short read (suc n) p [] v h = refl
read_loop-short read (suc n) p (interrupted ∷ calls) v h =
    read_loop-short read (suc n) p calls v.1 h
read_loop-short read (suc n) p (fails ∷ calls) v h = absurd v.0
read_loop-short read (suc n) p (gives k ∷ calls) v h =
    let part = take (if leb k (suc n) then k else suc n) p in
    read_loop-short (read ++ part) (suc n - length part) (drop (length part) p) calls v.1 (
      omega (
        arith,
        h,
        length-drop (length part) p (length-take_bound (if leb k (suc n) then k else suc n) p),
      ))
