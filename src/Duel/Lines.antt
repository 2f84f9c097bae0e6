-- ===== src/Duel/Lines.antt =====
-- A move makes no line for the other player.
use cmput.Base.{ℕ, zero, suc, ◌≡◌, ◌≢◌, sym, inl, inr, List, [], ◌∷◌, All, get_or, set}
use cmput.Game.Win.{HasLineOf, HasLine, lines}

get_or-set_other :
    (b : List ℕ) (k j p q : ℕ) → p ≢ q → get_or (set b k q) j 0 ≡ p → get_or b j 0 ≡ p
get_or-set_other [] k j p q n h = h
get_or-set_other (x ∷ b) zero zero p q n h = absurd (n (sym h))
get_or-set_other (x ∷ b) zero (suc j) p q n h = h
get_or-set_other (x ∷ b) (suc k) zero p q n h = h
get_or-set_other (x ∷ b) (suc k) (suc j) p q n h = get_or-set_other b k j p q n h

All-set_other :
    (b : List ℕ) (k p q : ℕ) (l : List ℕ)
    → p ≢ q
    → All (λ j. get_or (set b k q) j 0 ≡ p) l
    → All (λ j. get_or b j 0 ≡ p) l
All-set_other b k p q [] n h = tt
All-set_other b k p q (j ∷ l) n (h, hs) =
    (get_or-set_other b k j p q n h, All-set_other b k p q l n hs)

HasLineOf-set_other :
    (b : List ℕ) (k p q : ℕ) (ls : List (List ℕ))
    → p ≢ q
    → HasLineOf (set b k q) p ls
    → HasLineOf b p ls
HasLineOf-set_other b k p q [] n h = h
HasLineOf-set_other b k p q (l ∷ ls) n (inl h) = inl (All-set_other b k p q l n h)
HasLineOf-set_other b k p q (l ∷ ls) n (inr h) = inr (HasLineOf-set_other b k p q ls n h)

pub HasLine-set_other : (b : List ℕ) (k p q : ℕ) → p ≢ q → HasLine (set b k q) p → HasLine b p
HasLine-set_other b k p q n h = HasLineOf-set_other b k p q lines n h
