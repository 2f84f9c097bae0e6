-- ===== src/Base/Overlay.antt =====
-- Reads of a part of a buffer whose bytes were rewritten inside that part.
use Prim.Native.Nat.{ℕ, zero, suc, ◌+◌, ◌≤◌, ◌<◌}
use mathlib.Core.Path.{◌≡◌, refl, ap, ◌∙◌}
use mathlib.Core.Bool.{true}
use mathlib.Core.List.{[], ◌∷◌, ◌++◌}
use native.Mathlib.Omega.{arith}
use cmput.Base.Lists.{length, take, drop, All}
use cmput.Base.Buffer.{Bytes, slice, splice, le8}
use cmput.Base.Strings.{bytes_eq}

abbrev pub AreBytes : Bytes → Type 0
AreBytes = All (λ x. x < 256)

pub length-slice : (b : Bytes) (o n : ℕ) → o + n ≤ length b → length (slice b o n) ≡ n
unfolding slice
length-slice b zero zero h = refl
length-slice [] zero (suc n) h = absurd (omega arith)
length-slice (y ∷ b) zero (suc n) h = ap suc (length-slice b 0 n (omega arith))
length-slice [] (suc o) n h = absurd (omega arith)
length-slice (y ∷ b) (suc o) n h = length-slice b o n (omega arith)

pub le8-lt : (b : Bytes) → AreBytes b → le8 b < 256
le8-lt [] v = omega arith
le8-lt (x ∷ b) v = v.0

take-AreBytes : (n : ℕ) (b : Bytes) → AreBytes b → AreBytes (take n b)
take-AreBytes zero b v = tt
take-AreBytes (suc n) [] v = tt
take-AreBytes (suc n) (x ∷ b) v = (v.0, take-AreBytes n b v.1)

drop-AreBytes : (n : ℕ) (b : Bytes) → AreBytes b → AreBytes (drop n b)
drop-AreBytes zero b v = v
drop-AreBytes (suc n) [] v = tt
drop-AreBytes (suc n) (x ∷ b) v = drop-AreBytes n b v.1

pub slice-AreBytes : (b : Bytes) (o n : ℕ) → AreBytes b → AreBytes (slice b o n)
unfolding slice
slice-AreBytes b o n v = take-AreBytes n (drop o b) (drop-AreBytes o b v)

pub splice-AreBytes :
    (d : Bytes) (off : ℕ) (xs : Bytes) → AreBytes d → AreBytes xs → AreBytes (splice d off xs)
unfolding splice
splice-AreBytes [] off xs v w = tt
splice-AreBytes (y ∷ d) zero [] v w = v
splice-AreBytes (y ∷ d) zero (x ∷ xs) v w = (w.0, splice-AreBytes d 0 xs v.1 w.1)
splice-AreBytes (y ∷ d) (suc off) xs v w = (v.0, splice-AreBytes d off xs v.1 w)

take-splice :
    (b : Bytes) (k : ℕ) (xs : Bytes) (n : ℕ)
    → k + length xs ≤ n
    → take n (splice b k xs) ≡ splice (take n b) k xs
unfolding splice
take-splice [] k xs zero h = refl
take-splice [] k xs (suc n) h = refl
take-splice (y ∷ b) zero [] zero h = refl
take-splice (y ∷ b) zero [] (suc n) h = refl
take-splice (y ∷ b) zero (x ∷ xs) zero h = absurd (omega arith)
take-splice (y ∷ b) zero (x ∷ xs) (suc n) h = ap (λ r. x ∷ r) (take-splice b 0 xs n (omega arith))
take-splice (y ∷ b) (suc k) xs zero h = refl
take-splice (y ∷ b) (suc k) xs (suc n) h = ap (λ r. y ∷ r) (take-splice b k xs n (omega arith))

-- A read that contains all the bytes written: they stand `k` bytes into it.
pub slice-splice_inside :
    (b : Bytes) (off : ℕ) (xs : Bytes) (o n k : ℕ)
    → off ≡ o + k
    → k + length xs ≤ n
    → slice (splice b off xs) o n ≡ splice (slice b o n) k xs
unfolding slice splice
slice-splice_inside b off xs zero n k e h =
    rw (let p : off ≡ k = omega arith in p) (take-splice b k xs n h)
slice-splice_inside [] off xs (suc o) zero k e h = refl
slice-splice_inside [] off xs (suc o) (suc n) k e h = refl
slice-splice_inside (y ∷ b) zero xs (suc o) n k e h = absurd (omega arith)
slice-splice_inside (y ∷ b) (suc off) xs (suc o) n k e h =
    slice-splice_inside b off xs o n k (omega arith) h

pub bytes_eq_refl : (n : ℕ) (a : Bytes) → n ≤ length a → bytes_eq n a a ≡ true
unfolding bytes_eq
bytes_eq_refl zero a h = refl
bytes_eq_refl (suc n) [] h = absurd (omega arith)
bytes_eq_refl (suc n) (c ∷ a) h = ground (arith, bytes_eq_refl n a)

-- A read, cut in two.
pub slice-append :
    (b : Bytes) (o m n k p : ℕ)
    → o + m ≤ length b
    → k ≡ m + n
    → p ≡ o + m
    → slice b o k ≡ slice b o m ++ slice b p n
unfolding slice
slice-append b zero zero n k p h e f =
    ap (λ k. take k b) (let q : k ≡ n = omega arith in q)
    ∙ ap (λ p. take n (drop p b)) (let q : 0 ≡ p = omega arith in q)
slice-append [] zero (suc m) n k p h e f = absurd (omega arith)
slice-append (y ∷ b) zero (suc m) n zero p h e f = absurd (omega arith)
slice-append (y ∷ b) zero (suc m) n (suc k) zero h e f = absurd (omega arith)
slice-append (y ∷ b) zero (suc m) n (suc k) (suc p) h e f =
    ap (λ r. y ∷ r) (slice-append b 0 m n k p (omega arith) (omega arith) (omega arith))
slice-append [] (suc o) m n k p h e f = absurd (omega arith)
slice-append (y ∷ b) (suc o) m n k zero h e f = absurd (omega arith)
slice-append (y ∷ b) (suc o) m n k (suc p) h e f =
    slice-append b o m n k p (omega arith) e (omega arith)
