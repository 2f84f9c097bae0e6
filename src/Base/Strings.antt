-- ===== src/Base/Strings.antt =====
-- C strings: the bytes in front of the terminating NUL.
use Prim.Native.Nat.{ℕ, zero, suc}
use mathlib.Core.Bool.{Bool, true, false}
use mathlib.Core.List.{[], ◌∷◌}
use cmput.Base.Tests.{◌==◌, if◌then◌else◌}
use cmput.Base.Buffer.{Bytes}

-- `!strncmp(a, b, n)`. Behind the end of a list stands its NUL.
unfoldable pub strncmp_eq : ℕ → Bytes → Bytes → Bool
strncmp_eq zero a b = true
strncmp_eq (suc n) [] [] = true
strncmp_eq (suc n) [] (d ∷ b) = d == 0
strncmp_eq (suc n) (c ∷ a) [] = c == 0
strncmp_eq (suc n) (c ∷ a) (d ∷ b) =
    let rest = strncmp_eq n a b in if c == d then if c == 0 then true else rest else false

-- `memcmp(a, b, n) == 0`, for two objects of at least `n` bytes.
unfoldable pub bytes_eq : ℕ → Bytes → Bytes → Bool
bytes_eq zero a b = true
bytes_eq (suc n) [] b = false
bytes_eq (suc n) (c ∷ a) [] = false
bytes_eq (suc n) (c ∷ a) (d ∷ b) = let rest = bytes_eq n a b in if c == d then rest else false
