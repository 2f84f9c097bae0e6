-- ===== src/Game/Play.antt =====
-- Moves: which are accepted, what they do, and what holds after any number of them.
use cmput.Base.{
  ℕ, zero, suc, ◌+◌, ◌-◌, ◌*◌, ◌/◌, ◌%◌, ◌≤◌, ◌<◌, ◌≡◌, ◌≢◌, ◌↔◌, refl, sym, ap, ◌∙◌, ◌⊎◌, inl, inr,
  Bool, true, false, not, ◌||◌, List, [], ◌∷◌, get_or, set, length, length-set, ltb, ◌==◌,
  if◌then◌else◌, Bool-cases, arith,
}
use mathlib.Core.Bool.{false≢true}
use cmput.Game.{
  TicTacToe, blank, player_x, player_o, ttt_new, make_move, check_win, has_winner, is_draw,
}

-- `convertMove` and the row-major layout take a move to the cell one below it.
convert_move-cell : (m : ℕ) → 3 * ((m - 1) / 3) + (m - 1) % 3 ≡ m - 1
convert_move-cell m = omega arith

-- How many cells hold `p`.
unfoldable pub count : ℕ → List ℕ → ℕ
count p [] = 0
count p (c ∷ cs) = if c == p then suc (count p cs) else count p cs

count-set_eq :
    (p q : ℕ) (b : List ℕ) (k : ℕ)
    → k < length b
    → get_or b k 0 ≡ q
    → p ≢ q
    → count p (set b k p) ≡ count p b + 1
unfolding count
count-set_eq p q [] k h e n = absurd (omega arith)
count-set_eq p q (c ∷ b) zero h e n = ground arith
count-set_eq p q (c ∷ b) (suc k) h e n = ground (arith, count-set_eq p q b k)

count-set_ne :
    (p q : ℕ) (b : List ℕ) (k : ℕ) → get_or b k 0 ≢ p → q ≢ p → count p (set b k q) ≡ count p b
unfolding count
count-set_ne p q [] k e n = refl
count-set_ne p q (c ∷ b) zero e n = ground arith
count-set_ne p q (c ∷ b) (suc k) e n = ground (arith, count-set_ne p q b k)

count-set_old :
    (p q : ℕ) (b : List ℕ) (k : ℕ)
    → k < length b
    → get_or b k 0 ≡ p
    → q ≢ p
    → count p (set b k q) + 1 ≡ count p b
unfolding count
count-set_old p q [] k h e n = absurd (omega arith)
count-set_old p q (c ∷ b) zero h e n = ground arith
count-set_old p q (c ∷ b) (suc k) h e n = ground (arith, count-set_old p q b k)

-- The cell that a move is about, and whether it is free.
abbrev pub IsFree : TicTacToe → ℕ → Type 0
IsFree t m = (1 ≤ m) × (m ≤ 9) × (get_or t.board (m - 1) 0 ≡ blank)

-- The game after a move that was accepted.
abbrev pub marked : TicTacToe → ℕ → TicTacToe
marked t m = record {
  board = set t.board (m - 1) t.current_player;
  current_player = if t.current_player == player_x then player_o else player_x;
  turn_count = t.turn_count + 1;
}

pub make_move_cases :
    (t : TicTacToe) (m : ℕ)
    → (IsFree t m × (make_move t m ≡ (marked t m, true)))
      ⊎ (¬ IsFree t m × (make_move t m ≡ (t, false)))
unfolding make_move
make_move_cases t m = rw (convert_move-cell m) (elim (Bool-cases (ltb m 1 || ltb 9 m)) [
  | inl e ↦ inr ((λ f. ground arith), rw e)
  | inr e ↦ elim (Bool-cases (get_or t.board (m - 1) 0 == blank)) [
    | inl f ↦ inl ((ground arith, ground arith, ground arith), rw (e, f))
    | inr f ↦ inr ((λ g. ground arith), rw (e, f))
  ]
])

-- `ttt_makeMove` accepts a move exactly when it is from 1 to 9 and its cell is free. It then marks
-- that cell for the player whose turn it is, counts the turn and passes the turn on; a move that
-- it refuses changes nothing.
pub make_move_lem :
    (t : TicTacToe) (m : ℕ)
    → (((make_move t m).1 ≡ true) ↔ IsFree t m)
      × (IsFree t m → make_move t m ≡ (marked t m, true))
      × (¬ IsFree t m → make_move t m ≡ (t, false))
make_move_lem t m = elim (make_move_cases t m) [
  | inl (f, e) ↦
      (((λ _. f), (λ _. ap (λ (x : TicTacToe × Bool). x.1) e)), (λ _. e), (λ n. absurd (n f)))
  | inr (n, e) ↦ (
    (
      (λ h. absurd (false≢true (sym (ap (λ (x : TicTacToe × Bool). x.1) e) ∙ h))),
      (λ f. absurd (n f)),
    ),
    (λ f. absurd (n f)),
    (λ _. e),
  )
]

-- A board of nine cells with nothing but marks, counted turns, and turns taken alternately with X
-- going first.
pub record IsValid (t : TicTacToe) : Type 0 where
  pub cells : length t.board ≡ 9
  pub marks : count player_x t.board + count player_o t.board + count blank t.board ≡ 9
  pub turns : t.turn_count ≡ count player_x t.board + count player_o t.board
  pub turn :
      ((t.current_player ≡ player_x) × (count player_x t.board ≡ count player_o t.board))
      ⊎ ((t.current_player ≡ player_o) × (count player_x t.board ≡ count player_o t.board + 1))

-- A new game is valid.
pub ttt_new-IsValid : IsValid ttt_new
unfolding ttt_new count
ttt_new-IsValid = ground arith

-- A mark of `p` on a free cell: one more of `p`, as many of `q`, one free cell less.
counts-set :
    (b : List ℕ) (k p q : ℕ)
    → k < length b
    → get_or b k 0 ≡ blank
    → p ≢ blank
    → q ≢ blank
    → p ≢ q
    → (count p (set b k p) ≡ count p b + 1)
      × (count q (set b k p) ≡ count q b)
      × (count blank (set b k p) + 1 ≡ count blank b)
counts-set b k p q h e n l d = (
  count-set_eq p blank b k h e n,
  count-set_ne q p b k (λ f. l (sym f ∙ e)) d,
  count-set_old blank p b k h e n,
)

marked-IsValid : (t : TicTacToe) (m : ℕ) → IsFree t m → IsValid t → IsValid (marked t m)
marked-IsValid t m f v = elim v.turn [
  | inl (x, e) ↦
      let c =
        counts-set t.board (m - 1) player_x player_o (omega arith) f.2 (omega arith) (omega arith)
          (omega arith) in
      rw x (record {
        cells = length-set t.board (m - 1) player_x ∙ v.cells;
        marks = omega arith;
        turns = omega arith;
        turn = inr (refl, omega arith);
      })
  | inr (o, e) ↦
      let c =
        counts-set t.board (m - 1) player_o player_x (omega arith) f.2 (omega arith) (omega arith)
          (omega arith) in
      rw o (record {
        cells = length-set t.board (m - 1) player_o ∙ v.cells;
        marks = omega arith;
        turns = omega arith;
        turn = inl (refl, omega arith);
      })
]

-- Every call of `ttt_makeMove` on a valid game leaves a valid game: nine cells, as many turns counted
-- as marks stand on the board, and X and O in turn with X going first.
pub make_move-IsValid : (t : TicTacToe) (m : ℕ) → IsValid t → IsValid (make_move t m).0
make_move-IsValid t m v = elim (make_move_cases t m) [
  | inl (f, e) ↦ rw e (marked-IsValid t m f v)
  | inr (n, e) ↦ rw e v
]

-- A valid game has counted at most nine turns, and when it has counted nine, every move is refused.
pub make_move_full :
    (t : TicTacToe) (m : ℕ)
    → IsValid t
    → (t.turn_count ≤ 9) × (t.turn_count ≡ 9 → make_move t m ≡ (t, false))
make_move_full t m v = (
  omega (arith, v.marks, v.turns),
  λ full. elim (make_move_cases t m) [ inl (f, e) ↦ absurd (no_room full f) | inr (n, e) ↦ e ],
)
  where
    no_room : t.turn_count ≡ 9 → IsFree t m → ⊥
    no_room full f = omega (
      arith,
      count-set_old blank player_x t.board (m - 1) (omega arith) f.2 (omega arith),
      v.marks,
      v.turns,
      v.cells,
    )

-- The bug: on a valid game with nine turns counted, `ttt_isDraw` says that it is drawn exactly when
-- O has no line, whether or not X, who made the last move, has one.
pub is_draw_full :
    (t : TicTacToe) → IsValid t → t.turn_count ≡ 9 → is_draw t ≡ not (check_win t player_o)
unfolding is_draw has_winner
is_draw_full t v full = elim v.turn [
  | inl (x, e) ↦ absurd (omega (arith, v.turns))
  | inr (o, e) ↦ rw (full, o)
]

pub is_draw_turns : (t : TicTacToe) → is_draw t ≡ true → t.turn_count ≡ 9
unfolding is_draw
is_draw_turns t h = ground arith
