-- ===== src/ServerP2/Games.antt =====
-- The games that the threads play, counted, and the games that may still begin.
use cmput.Base.{
  ℕ, zero, suc, ◌+◌, ◌≤◌, ◌≡◌, ◌≢◌, refl, sym, ◌∙◌, ap, subst, inl, inr, List, [], ◌∷◌, ◌++◌,
  Option, none, some, get_elem?, set, ◌==◌, ==_iff, if◌then◌else◌, Bool-cases, arith,
}
use mathlib.Core.Bool.{false≢true}
use cmput.Rooms.{GameRoom}
use cmput.ServerP2.{
  Thread, ack, connected, joining, creating, returned, closed, playing, played, ServerP2,
}
use cmput.ServerP2.Cells.{get_elem?-set_same, get_elem?-set_other}

-- Whether a thread plays the game of room `r`, as a number.
abbrev pub plays : ℕ → Thread → ℕ
plays r (playing q w c o) = if q == r then 1 else 0
plays r (connected s) = 0
plays r (joining q s) = 0
plays r (creating q s) = 0
plays r (returned s) = 0
plays r (closed s) = 0
plays r (played q) = 0

-- How many threads play the game of room `r`.
abbrev pub games : ℕ → List Thread → ℕ
games r [] = 0
games r (x ∷ xs) = plays r x + games r xs

-- How many games may still begin in a room.
abbrev pub allowance : Option GameRoom → ℕ
allowance none = 1
allowance (some room) = if room.game_running then 0 else 1

abbrev pub IsExclusive : ServerP2 → Type 0
IsExclusive s = (r : ℕ) → games r s.threads + allowance (get_elem? s.rooms r) ≤ 1

games-set :
    (r : ℕ) (xs : List Thread) (i : ℕ) (x y : Thread)
    → get_elem? xs i ≡ some x
    → games r (set xs i y) + plays r x ≡ games r xs + plays r y
games-set r [] i x y e = absurd (cc e)
games-set r (z ∷ xs) zero x y e = let z≡x : z ≡ x = cc e in omega (arith, ap (plays r) z≡x)
games-set r (z ∷ xs) (suc i) x y e = omega (arith, games-set r xs i x y e)

pub games-append :
    (r : ℕ) (xs : List Thread) (y : Thread) → games r (xs ++ (y ∷ [])) ≡ games r xs + plays r y
games-append r [] y = omega arith
games-append r (x ∷ xs) y = omega (arith, games-append r xs y)

pub plays_own : (r : ℕ) → plays r (playing r ack none none) ≡ 1
plays_own r = rw ((==_iff r r).1 refl) refl

pub plays_other : (q r : ℕ) → q ≢ r → plays r (playing q ack none none) ≡ 0
plays_other q r n = elim (Bool-cases (q == r)) [
  | inl c ↦ absurd (n ((==_iff q r).0 c))
  | inr c ↦ rw c refl
]

-- A thread goes on without a game more than it had.
pub thread-IsExclusive :
    (s : ServerP2) (i : ℕ) (x y : Thread)
    → get_elem? s.threads i ≡ some x
    → ((r : ℕ) → plays r y ≤ plays r x)
    → IsExclusive s
    → IsExclusive (record s { threads = set s.threads i y })
thread-IsExclusive s i x y e l v r = omega (arith, v r, l r, games-set r s.threads i x y e)

-- A thread goes on and changes a room.
pub room-IsExclusive :
    (s : ServerP2) (i q : ℕ) (x y : Thread) (room room' : GameRoom)
    → get_elem? s.threads i ≡ some x
    → get_elem? s.rooms q ≡ some room
    → plays q y + allowance (some room') ≤ plays q x + allowance (some room)
    → ((r : ℕ) → q ≢ r → plays r y ≤ plays r x)
    → IsExclusive s
    → IsExclusive (record s { rooms = set s.rooms q room'; threads = set s.threads i y })
room-IsExclusive s i q x y room room' h k l m v r = elim (Bool-cases (q == r)) [
  | inl c ↦
      subst (λ j. games j (set s.threads i y) + allowance (get_elem? (set s.rooms q room') j) ≤ 1)
        ((==_iff q r).0 c)
        (omega (
          arith,
          v q,
          l,
          games-set q s.threads i x y h,
          ap allowance k,
          ap allowance (get_elem?-set_same s.rooms q room room' k),
        ))
  | inr c ↦
      let n : q ≢ r = λ f. false≢true (sym c ∙ (==_iff q r).1 f) in
      omega (
        arith,
        v r,
        m r n,
        games-set r s.threads i x y h,
        ap allowance (get_elem?-set_other s.rooms q r room' n),
      )
]
