-- ===== src/Base/Buffer.antt =====
-- Byte buffers: a C object of n bytes is a list of n numbers below 256.
use Prim.Native.Nat.{ℕ, zero, suc, ◌+◌, ◌*◌, ◌/◌, ◌%◌, ◌^◌, ◌≤◌, ◌<◌}
use mathlib.Core.Path.{◌≡◌, refl, ap}
use mathlib.Core.List.{List, [], ◌∷◌, ◌++◌}
use native.Mathlib.Omega.{arith}
use cmput.Base.Lists.{length, take, drop, get_or}

abbrev pub Bytes : Type 0
Bytes = List ℕ

-- `n` bytes from offset `off` on: what a read through a cast pointer yields.
unfoldable pub slice : Bytes → ℕ → ℕ → Bytes
slice b off n = take n (drop off b)

-- `memcpy(b + off, xs, |xs|)`. What would fall behind the end is not written.
unfoldable pub splice : Bytes → ℕ → Bytes → Bytes
splice [] off xs = []
splice (y ∷ b) zero [] = y ∷ b
splice (y ∷ b) zero (x ∷ xs) = x ∷ splice b zero xs
splice (y ∷ b) (suc off) xs = y ∷ splice b off xs

-- Unsigned integers in memory, as a little-endian host reads and writes them.
abbrev pub le8 : Bytes → ℕ
le8 b = get_or b 0 0

abbrev pub le16 : Bytes → ℕ
le16 b = get_or b 0 0 + 256 * get_or b 1 0

abbrev pub le32 : Bytes → ℕ
le32 b = get_or b 0 0 + 256 * get_or b 1 0 + 2 ^ 16 * get_or b 2 0 + 2 ^ 24 * get_or b 3 0

abbrev pub bytes16 : ℕ → Bytes
bytes16 v = v % 256 ∷ v / 256 % 256 ∷ []

abbrev pub bytes32 : ℕ → Bytes
bytes32 v = v % 256 ∷ v / 256 % 256 ∷ v / 2 ^ 16 % 256 ∷ v / 2 ^ 24 % 256 ∷ []

pub le16-bytes16 : (v : ℕ) → v < 2 ^ 16 → le16 (bytes16 v) ≡ v
le16-bytes16 v h = omega arith

pub le32-bytes32 : (v : ℕ) → v < 2 ^ 32 → le32 (bytes32 v) ≡ v
le32-bytes32 v h = omega arith

pub length-splice : (b : Bytes) (off : ℕ) (xs : Bytes) → length (splice b off xs) ≡ length b
unfolding splice
length-splice [] off xs = refl
length-splice (y ∷ b) zero [] = refl
length-splice (y ∷ b) zero (x ∷ xs) = ap suc (length-splice b zero xs)
length-splice (y ∷ b) (suc off) xs = ap suc (length-splice b off xs)

pub take_all : (xs : Bytes) (n : ℕ) (ys : Bytes) → n ≡ length xs → take n (xs ++ ys) ≡ xs
take_all [] zero ys e = refl
take_all [] (suc n) ys e = absurd (omega arith)
take_all (x ∷ xs) zero ys e = absurd (omega arith)
take_all (x ∷ xs) (suc n) ys e = ap (λ r. x ∷ r) (take_all xs n ys (omega arith))

splice_front : (b xs : Bytes) → length xs ≤ length b → splice b 0 xs ≡ xs ++ drop (length xs) b
unfolding splice
splice_front [] [] h = refl
splice_front [] (x ∷ xs) h = absurd (omega arith)
splice_front (y ∷ b) [] h = refl
splice_front (y ∷ b) (x ∷ xs) h = ap (λ r. x ∷ r) (splice_front b xs (omega arith))

-- A read of the bytes just written.
pub slice-splice :
    (b : Bytes) (off : ℕ) (xs : Bytes) (n : ℕ)
    → n ≡ length xs
    → off + n ≤ length b
    → slice (splice b off xs) off n ≡ xs
unfolding slice splice
slice-splice [] zero xs n e h = rw (splice_front [] xs (omega arith)) (take_all xs n _ e)
slice-splice (y ∷ b) zero xs n e h = rw (splice_front (y ∷ b) xs (omega arith)) (take_all xs n _ e)
slice-splice [] (suc off) xs n e h = absurd (omega arith)
slice-splice (y ∷ b) (suc off) xs n e h = slice-splice b off xs n e (omega arith)

-- A read of bytes in front of those written.
pub slice-splice_before :
    (b : Bytes) (off : ℕ) (xs : Bytes) (o n : ℕ)
    → o + n ≤ off
    → slice (splice b off xs) o n ≡ slice b o n
unfolding slice splice
slice-splice_before [] off xs o n h = refl
slice-splice_before (y ∷ b) zero xs zero zero h = refl
slice-splice_before (y ∷ b) zero xs zero (suc n) h = absurd (omega arith)
slice-splice_before (y ∷ b) zero xs (suc o) n h = absurd (omega arith)
slice-splice_before (y ∷ b) (suc off) xs zero zero h = refl
slice-splice_before (y ∷ b) (suc off) xs zero (suc n) h =
    ap (λ r. y ∷ r) (slice-splice_before b off xs 0 n (omega arith))
slice-splice_before (y ∷ b) (suc off) xs (suc o) n h =
    slice-splice_before b off xs o n (omega arith)

-- A read of bytes behind those written.
pub slice-splice_after :
    (b : Bytes) (off : ℕ) (xs : Bytes) (o n : ℕ)
    → off + length xs ≤ o
    → slice (splice b off xs) o n ≡ slice b o n
unfolding slice splice
slice-splice_after [] off xs o n h = refl
slice-splice_after (y ∷ b) zero [] o n h = refl
slice-splice_after (y ∷ b) zero (x ∷ xs) zero n h = absurd (omega arith)
slice-splice_after (y ∷ b) zero (x ∷ xs) (suc o) n h = slice-splice_after b 0 xs o n (omega arith)
slice-splice_after (y ∷ b) (suc off) xs zero n h = absurd (omega arith)
slice-splice_after (y ∷ b) (suc off) xs (suc o) n h = slice-splice_after b off xs o n (omega arith)

-- Of two writes of one size at one place the later stays.
pub splice-splice :
    (b : Bytes) (off : ℕ) (xs ys : Bytes)
    → length xs ≡ length ys
    → splice (splice b off xs) off ys ≡ splice b off ys
unfolding splice
splice-splice [] off xs ys h = refl
splice-splice (y ∷ b) zero [] [] h = refl
splice-splice (y ∷ b) zero [] (z ∷ ys) h = refl
splice-splice (y ∷ b) zero (x ∷ xs) [] h = absurd (omega arith)
splice-splice (y ∷ b) zero (x ∷ xs) (z ∷ ys) h =
    ap (λ r. z ∷ r) (splice-splice b 0 xs ys (omega arith))
splice-splice (y ∷ b) (suc off) xs ys h = ap (λ r. y ∷ r) (splice-splice b off xs ys h)
