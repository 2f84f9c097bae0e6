-- ===== src/Checksum/Laws.antt =====
-- What `cksum` computes, against the ones'-complement sum of the big-endian words.
use cmput.Base.{
  ℕ, zero, suc, ◌+◌, ◌*◌, ◌/◌, ◌%◌, ◌^◌, ◌≤◌, ◌<◌, ◌≡◌, [], ◌∷◌, ◌++◌, Bytes, bytes16, splice,
  splice-splice, htons, length, length-splice, AreBytes, splice-AreBytes, arith,
}
use cmput.Checksum.{sum_words, fold_carries, fold_fuel, finish, cksum}

-- The sum of the big-endian 16-bit words, with no bound on its size.
abbrev pub word_sum : Bytes → ℕ
word_sum [] = 0
word_sum (a ∷ []) = a * 256
word_sum (a ∷ b ∷ rest) = a * 256 + b + word_sum rest

word_sum-lt : (d : Bytes) → AreBytes d → 2 * word_sum d ≤ 65536 * (length d + 1)
word_sum-lt [] v = omega arith
word_sum-lt (a ∷ []) v = omega arith
word_sum-lt (a ∷ b ∷ rest) v = omega (arith, word_sum-lt rest v.1.1)

-- With no carry out of 32 bits the loop computes the plain sum.
sum_words-eq :
    (sum : ℕ) (d : Bytes) → sum + word_sum d < 2 ^ 32 → sum_words sum d ≡ sum + word_sum d
unfolding sum_words
sum_words-eq sum [] h = omega arith
sum_words-eq sum (a ∷ []) h = omega arith
sum_words-eq sum (a ∷ b ∷ rest) h =
    let e : (sum + (a * 256 + b)) % 2 ^ 32 ≡ sum + (a * 256 + b) = omega arith in
    rw e (omega (arith, sum_words-eq (sum + (a * 256 + b)) rest (omega arith)))

sum_words-bound : (sum : ℕ) (d : Bytes) → sum < 2 ^ 32 → sum_words sum d < 2 ^ 32
unfolding sum_words
sum_words-bound sum [] h = h
sum_words-bound sum (a ∷ []) h = omega arith
sum_words-bound sum (a ∷ b ∷ rest) h =
    sum_words-bound ((sum + (a * 256 + b)) % 2 ^ 32) rest (omega arith)

-- Three rounds are enough for any `uint32_t`: the loop has ended by its own test.
pub fold_carries_done :
    (sum : ℕ)
    → sum < 2 ^ 32
    → (fold_carries fold_fuel sum ≤ 0xffff) × (fold_carries fold_fuel sum % 0xffff ≡ sum % 0xffff)
unfolding fold_carries
fold_carries_done sum h = ground arith

finish-htons :
    (f : ℕ)
    → f ≤ 0xffff
    → (1 ≤ finish f) × (finish f ≤ 0xffff) × ((f + htons (finish f)) % 0xffff ≡ 0)
unfolding finish
finish-htons f h = ground arith

-- For less than 64 KiB of bytes the loop computes the plain sum.
sum_words-word_sum : (d : Bytes) → AreBytes d → length d < 2 ^ 16 → sum_words 0 d ≡ word_sum d
sum_words-word_sum d v h = omega (arith, sum_words-eq 0 d (omega (arith, word_sum-lt d v)))

-- `cksum` returns a number from 1 to 0xffff: it fits a `uint16_t` and is never 0.
pub cksum_bounds : (d : Bytes) → (1 ≤ cksum d) × (cksum d ≤ 0xffff)
unfolding cksum
cksum_bounds d =
    let f =
      finish-htons (fold_carries fold_fuel (sum_words 0 d))
        (fold_carries_done (sum_words 0 d) (sum_words-bound 0 d (omega arith))).0 in
    (f.0, f.1)

-- The checksum is the ones' complement of the ones'-complement sum: for less than 64 KiB of bytes the sum of
-- the big-endian words and of the checksum, read in network byte order, is 0 modulo 2^16 - 1.
pub cksum_complement :
    (d : Bytes) → AreBytes d → length d < 2 ^ 16 → (word_sum d + htons (cksum d)) % 0xffff ≡ 0
unfolding cksum
cksum_complement d v h =
    let e = sum_words-word_sum d v h in
    let b = sum_words-bound 0 d (omega arith) in
    let c = fold_carries_done (sum_words 0 d) b in
    omega (arith, (finish-htons (fold_carries fold_fuel (sum_words 0 d)) c.0).2)

-- Only the sum of the words counts.
pub cksum-cong :
    (d e : Bytes)
    → AreBytes d
    → AreBytes e
    → length d < 2 ^ 16
    → length e < 2 ^ 16
    → word_sum d ≡ word_sum e
    → cksum d ≡ cksum e
unfolding cksum
cksum-cong d e v w h k s = rw (sum_words-word_sum d v h, sum_words-word_sum e w k, s)

abbrev pub double : ℕ → ℕ
double zero = zero
double (suc k) = suc (suc (double k))

-- The word at an even offset counts once.
word_sum-splice :
    (k : ℕ) (d : Bytes) (x y : ℕ)
    → double k + 2 ≤ length d
    → word_sum (splice d (double k) (x ∷ y ∷ []))
      ≡ word_sum (splice d (double k) (0 ∷ 0 ∷ [])) + (x * 256 + y)
unfolding splice
word_sum-splice zero [] x y h = absurd (omega arith)
word_sum-splice zero (a ∷ []) x y h = absurd (omega arith)
word_sum-splice zero (a ∷ b ∷ []) x y h = omega arith
word_sum-splice zero (a ∷ b ∷ c ∷ d) x y h = omega arith
word_sum-splice (suc k) [] x y h = absurd (omega arith)
word_sum-splice (suc k) (a ∷ []) x y h = absurd (omega arith)
word_sum-splice (suc k) (a ∷ b ∷ d) x y h = omega (arith, word_sum-splice k d x y (omega arith))

-- A checksum field at an even offset that was cleared and then filled with `cksum`.
pub receiver_test_at :
    (k : ℕ) (h : Bytes)
    → AreBytes h
    → double k + 2 ≤ length h
    → length h < 2 ^ 16
    → let z = splice h (double k) (0 ∷ 0 ∷ []) in
      word_sum (splice z (double k) (bytes16 (cksum z))) % 0xffff ≡ 0
unfolding htons
receiver_test_at k h v lo hi =
    let z : Bytes = splice h (double k) (0 ∷ 0 ∷ []) in
    let c : ℕ = cksum z in
    rw (splice-splice h (double k) (0 ∷ 0 ∷ []) (bytes16 c) (omega arith)) (
      omega (
        arith,
        word_sum-splice k h (c % 256) (c / 256 % 256) lo,
        cksum_bounds z,
        cksum_complement z (splice-AreBytes h (double k) (0 ∷ 0 ∷ []) v (omega arith))
            (omega (arith, length-splice h (double k) (0 ∷ 0 ∷ []))),
      ))

-- The receiver's test of RFC 1071, on a header of at least 12 bytes, less than 64 KiB, whose checksum field, at
-- offset 10, was cleared and then filled with `cksum`: the words sum to 0 modulo 2^16 - 1.
pub receiver_test :
    (h : Bytes)
    → AreBytes h
    → 12 ≤ length h
    → length h < 2 ^ 16
    → let z = splice h 10 (0 ∷ 0 ∷ []) in word_sum (splice z 10 (bytes16 (cksum z))) % 0xffff ≡ 0
receiver_test h v lo hi = receiver_test_at 5 h v lo hi

-- The first part ends with a whole word.
pub word_sum-append :
    (k : ℕ) (d e : Bytes) → length d ≡ double k → word_sum (d ++ e) ≡ word_sum d + word_sum e
word_sum-append zero [] e h = omega arith
word_sum-append zero (a ∷ d) e h = absurd (omega arith)
word_sum-append (suc k) [] e h = absurd (omega arith)
word_sum-append (suc k) (a ∷ []) e h = absurd (omega arith)
word_sum-append (suc k) (a ∷ b ∷ d) e h = omega (arith, word_sum-append k d e (omega arith))
