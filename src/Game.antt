-- ===== src/Game.antt =====
-- The tic-tac-toe rules of assignment-1/c/src/ttt.c and include/ttt.h. A `char` is its code; the
-- board is the nine cells in memory order, so the cell [row][col] is at 3 * row + col.
pub mod Play
pub mod Win
use cmput.Base.{
  ℕ, suc, ◌+◌, ◌-◌, ◌*◌, ◌/◌, ◌%◌, Bool, true, false, not, ◌&&◌, ◌||◌, List, [], ◌∷◌, replicate,
  get_or, set, ltb, ◌==◌, if◌then◌else◌,
}

abbrev pub blank : ℕ
blank = b' '

abbrev pub player_x : ℕ
player_x = b'X'

abbrev pub player_o : ℕ
player_o = b'O'

-- struct TicTacToe
pub record TicTacToe : Type 0 where
  pub board : List ℕ
  pub current_player : ℕ
  pub turn_count : ℕ

-- `convertMove`, for a move that is at least 1.
abbrev pub convert_move : ℕ → ℕ × ℕ
convert_move move = ((move - 1) / 3, (move - 1) % 3)

abbrev pub cell : List ℕ → ℕ → ℕ → ℕ
cell board row col = get_or board (3 * row + col) 0

unfoldable pub ttt_new : TicTacToe
ttt_new = record { board = replicate 9 blank; current_player = player_x; turn_count = 0 }

unfoldable pub switch_player : TicTacToe → TicTacToe
switch_player t = record t {
  current_player = if t.current_player == player_x then player_o else player_x;
}

-- `ttt_makeMove`: the game after the call, and what it returns. A move is an `int`; those below 1
-- are refused as 0 is.
unfoldable pub make_move : TicTacToe → ℕ → TicTacToe × Bool
unfolding switch_player
make_move t move =
    let (row, col) = convert_move move in
    if ltb move 1 || ltb 9 move
    then (t, false)
    else if not (cell t.board row col == blank)
    then (t, false)
    else (
      switch_player (record t {
        board = set t.board (3 * row + col) t.current_player;
        turn_count = t.turn_count + 1;
      }),
      true,
    )

-- The two loops of `ttt_checkWin`, unrolled to their three rounds each.
unfoldable pub is_win_row : List ℕ → ℕ → ℕ → Bool
is_win_row b p i = true && cell b i 0 == p && cell b i 1 == p && cell b i 2 == p

unfoldable pub is_win_col : List ℕ → ℕ → ℕ → Bool
is_win_col b p i = true && cell b 0 i == p && cell b 1 i == p && cell b 2 i == p

unfoldable pub is_win_fwd : List ℕ → ℕ → Bool
is_win_fwd b p = true && cell b 0 0 == p && cell b 1 1 == p && cell b 2 2 == p

unfoldable pub is_win_bwd : List ℕ → ℕ → Bool
is_win_bwd b p = true && cell b 2 0 == p && cell b 1 1 == p && cell b 0 2 == p

unfoldable pub check_win : TicTacToe → ℕ → Bool
check_win t player =
    if is_win_row t.board player 0 || is_win_col t.board player 0
    then true
    else if is_win_row t.board player 1 || is_win_col t.board player 1
    then true
    else if is_win_row t.board player 2 || is_win_col t.board player 2
    then true
    else is_win_fwd t.board player || is_win_bwd t.board player

unfoldable pub has_winner : TicTacToe → Bool
has_winner t = check_win t t.current_player

unfoldable pub is_draw : TicTacToe → Bool
is_draw t = t.turn_count == 9 && not (has_winner t)

-- `ttt_getBoardCell`, for a move from 1 to 9.
unfoldable pub get_board_cell : TicTacToe → ℕ → ℕ
get_board_cell t move = let (row, col) = convert_move move in cell t.board row col

-- The character that `ttt_drawBoard` prints for a cell: a free one shows its move.
abbrev pub shown : List ℕ → ℕ → ℕ → ℕ
shown b i j = let c = cell b i j in if c == blank then b'0' + (i * 3 + j + 1) else c

unfoldable pub draw_board : TicTacToe → List (List ℕ)
draw_board t =
    (shown t.board 0 0 ∷ shown t.board 0 1 ∷ shown t.board 0 2 ∷ [])
    ∷ (shown t.board 1 0 ∷ shown t.board 1 1 ∷ shown t.board 1 2 ∷ [])
    ∷ (shown t.board 2 0 ∷ shown t.board 2 1 ∷ shown t.board 2 2 ∷ [])
    ∷ []
