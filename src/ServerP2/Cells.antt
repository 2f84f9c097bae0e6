-- ===== src/ServerP2/Cells.antt =====
-- Reading a list after a write.
use cmput.Base.{ℕ, zero, suc, ◌≡◌, ◌≢◌, refl, ap, List, [], ◌∷◌, some, get_elem?, set}

module _ {ℓ} {A : Type ℓ} where
  pub get_elem?-set_same :
      (xs : List A) (i : ℕ) (x y : A) → get_elem? xs i ≡ some x → get_elem? (set xs i y) i ≡ some y
  get_elem?-set_same [] i x y e = absurd (cc e)
  get_elem?-set_same (z ∷ xs) zero x y e = refl
  get_elem?-set_same (z ∷ xs) (suc i) x y e = get_elem?-set_same xs i x y e

  pub get_elem?-set_other :
      (xs : List A) (i j : ℕ) (y : A) → i ≢ j → get_elem? (set xs i y) j ≡ get_elem? xs j
  get_elem?-set_other [] i j y n = refl
  get_elem?-set_other (z ∷ xs) zero zero y n = absurd (n refl)
  get_elem?-set_other (z ∷ xs) zero (suc j) y n = refl
  get_elem?-set_other (z ∷ xs) (suc i) zero y n = refl
  get_elem?-set_other (z ∷ xs) (suc i) (suc j) y n =
      get_elem?-set_other xs i j y (λ e. n (ap suc e))

  pub set-set : (xs : List A) (i : ℕ) (x y : A) → set (set xs i x) i y ≡ set xs i y
  set-set [] i x y = refl
  set-set (z ∷ xs) zero x y = refl
  set-set (z ∷ xs) (suc i) x y = ap (λ t. z ∷ t) (set-set xs i x y)
