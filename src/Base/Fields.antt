-- ===== src/Base/Fields.antt =====
-- Reads of adjacent fields of a buffer.
use Prim.Native.Nat.{ℕ, ◌+◌, ◌≤◌}
use mathlib.Core.Path.{◌≡◌, refl, sym, ap, ◌∙◌}
use mathlib.Core.List.{List, [], ◌∷◌, ◌++◌}
use native.Mathlib.Omega.{arith}
use cmput.Base.Lists.{length, take}
use cmput.Base.Buffer.{Bytes, slice}
use cmput.Base.Overlay.{slice-append}

-- The fields one behind the other.
abbrev pub joined : List Bytes → Bytes
joined [] = []
joined (x ∷ xs) = x ++ joined xs

abbrev pub joined_size : List Bytes → ℕ
joined_size [] = 0
joined_size (x ∷ xs) = length x + joined_size xs

-- From the offset `o` on, `b` holds these fields.
abbrev pub Lays : Bytes → ℕ → List Bytes → Type 0
Lays b o [] = Unit {0}
Lays b o (x ∷ xs) = (slice b o (length x) ≡ x) × Lays b (o + length x) xs

slice_zero : (b : Bytes) (o : ℕ) → slice b o 0 ≡ []
unfolding slice
slice_zero b o = refl

pub slice-joined :
    (b : Bytes) (o : ℕ) (xs : List Bytes)
    → Lays b o xs
    → o + joined_size xs ≤ length b
    → slice b o (joined_size xs) ≡ joined xs
slice-joined b o [] v h = slice_zero b o
slice-joined b o (x ∷ xs) v h =
    slice-append b o (length x) (joined_size xs) (joined_size (x ∷ xs)) (o + length x) (omega arith)
      refl refl
    ∙ ap (λ s. s ++ slice b (o + length x) (joined_size xs)) v.0
    ∙ ap (λ s. x ++ s) (slice-joined b (o + length x) xs v.1 (omega arith))

take-length : (b : Bytes) → take (length b) b ≡ b
take-length [] = refl
take-length (x ∷ b) = ap (λ r. x ∷ r) (take-length b)

-- A buffer that the fields fill.
pub joined_all :
    (b : Bytes) (xs : List Bytes) → Lays b 0 xs → length b ≡ joined_size xs → b ≡ joined xs
unfolding slice
joined_all b xs v e =
    sym (take-length b) ∙ ap (λ n. take n b) e ∙ slice-joined b 0 xs v (omega arith)
