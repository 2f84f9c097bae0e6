-- ===== src/Game/Win.antt =====
-- `ttt_checkWin` against the rule: three marks in one of the eight lines.
use cmput.Base.{ℕ, ◌≡◌, ◌↔◌, ◌⊎◌, true, List, [], ◌∷◌, get_or, arith, All}
use cmput.Game.{TicTacToe, is_win_row, is_win_col, is_win_fwd, is_win_bwd, check_win}

-- The eight lines of the board, as cells from 0 to 8.
abbrev pub lines : List (List ℕ)
lines =
    (0 ∷ 1 ∷ 2 ∷ [])
    ∷ (3 ∷ 4 ∷ 5 ∷ [])
    ∷ (6 ∷ 7 ∷ 8 ∷ [])
    ∷ (0 ∷ 3 ∷ 6 ∷ [])
    ∷ (1 ∷ 4 ∷ 7 ∷ [])
    ∷ (2 ∷ 5 ∷ 8 ∷ [])
    ∷ (0 ∷ 4 ∷ 8 ∷ [])
    ∷ (2 ∷ 4 ∷ 6 ∷ [])
    ∷ []

-- One of the lines holds nothing but `p`.
abbrev pub HasLineOf : List ℕ → ℕ → List (List ℕ) → Type 0
HasLineOf b p [] = ⊥
HasLineOf b p (l ∷ ls) = All (λ k. get_or b k 0 ≡ p) l ⊎ HasLineOf b p ls

abbrev pub HasLine : List ℕ → ℕ → Type 0
HasLine b p = HasLineOf b p lines

-- `ttt_checkWin` says that a player has won exactly when one of the eight lines is the player's.
pub check_win_iff : (t : TicTacToe) (p : ℕ) → (check_win t p ≡ true) ↔ HasLine t.board p
unfolding check_win is_win_row is_win_col is_win_fwd is_win_bwd
check_win_iff t p = (λ h. ground arith, λ h. ground arith)
