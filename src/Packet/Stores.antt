-- ===== src/Packet/Stores.antt =====
-- What a read finds after a series of stores.
use cmput.Base.{
  ℕ, zero, suc, ◌+◌, ◌≤◌, ◌≡◌, refl, ◌∙◌, ◌⊎◌, inl, inr, List, [], ◌∷◌, Bytes, slice, splice,
  length, length-splice, slice-splice, slice-splice_before, slice-splice_after, get_or, drop, arith,
}
use cmput.Packet.{stores}

-- No store touches the `n` bytes at `o`.
abbrev pub Apart : ℕ → ℕ → List (ℕ × Bytes) → Type 0
Apart o n [] = Unit {0}
Apart o n ((off, xs) ∷ ws) = ((o + n ≤ off) ⊎ (off + length xs ≤ o)) × Apart o n ws

slice-splice_apart :
    (b : Bytes) (off : ℕ) (xs : Bytes) (o n : ℕ)
    → (o + n ≤ off) ⊎ (off + length xs ≤ o)
    → slice (splice b off xs) o n ≡ slice b o n
slice-splice_apart b off xs o n (inl h) = slice-splice_before b off xs o n h
slice-splice_apart b off xs o n (inr h) = slice-splice_after b off xs o n h

pub slice-stores-Apart :
    (b : Bytes) (ws : List (ℕ × Bytes)) (o n : ℕ)
    → Apart o n ws
    → slice (stores b ws) o n ≡ slice b o n
unfolding stores
slice-stores-Apart b [] o n h = refl
slice-stores-Apart b ((off, xs) ∷ ws) o n h =
    slice-stores-Apart (splice b off xs) ws o n h.1 ∙ slice-splice_apart b off xs o n h.0

pub length-stores : (b : Bytes) (ws : List (ℕ × Bytes)) → length (stores b ws) ≡ length b
unfolding stores
length-stores b [] = refl
length-stores b ((off, xs) ∷ ws) = length-stores (splice b off xs) ws ∙ length-splice b off xs

-- The `k`-th store, if no later one touches its bytes.
pub slice-stores_nth :
    (b : Bytes) (ws : List (ℕ × Bytes)) (k n : ℕ)
    → let (o, xs) = get_or ws k (0, []) in
      n ≡ length xs → Apart o n (drop (suc k) ws) → o + n ≤ length b → slice (stores b ws) o n ≡ xs
unfolding stores slice
slice-stores_nth b [] k n e h l = rw e
slice-stores_nth b ((off, xs) ∷ ws) zero n e h l =
    slice-stores-Apart (splice b off xs) ws off n h ∙ slice-splice b off xs n e l
slice-stores_nth b ((off, xs) ∷ ws) (suc k) n e h l =
    slice-stores_nth (splice b off xs) ws k n e h (omega (arith, length-splice b off xs))
