-- ===== src/Examples/Lost.antt =====
-- The client of the server with rooms on concrete inputs.
use cmput.Base.{◌≡◌, ◌≢◌, ◌++◌, ◌∷◌, [], refl, false, some, Bytes, All, arith}
use cmput.Game.{
  ttt_new, switch_player, make_move, is_win_row, is_win_col, is_win_fwd, is_win_bwd, check_win,
  has_winner, is_draw, TicTacToe, player_x, player_o,
}
use cmput.Text.{scan_command, word_of, span, scan_number, scan_digits, value, mark_word}
use cmput.Rooms.{turn_text}
use cmput.ClientP2.{ClientP2, waiting, typing, received, play}
use cmput.ClientP2.Messages.{lost_turn}

-- O waits for the first move.
abbrev client : ClientP2
client = record { phase = waiting; game = ttt_new; sent = [] }

-- "MARK 5" as the server passes it on.
abbrev move : Bytes
move = b'M' ∷ b'A' ∷ b'R' ∷ b'K' ∷ b' ' ∷ b'5' ∷ 10 ∷ []

understood : scan_command move ≡ some (mark_word, 5)
unfolding scan_command word_of span scan_number scan_digits value
understood = refl

no_nul : All (λ x. x ≢ 0) move
no_nul = (
  (λ e. omega (arith, e)),
  (
    (λ e. omega (arith, e)),
    (
      (λ e. omega (arith, e)),
      (
        (λ e. omega (arith, e)),
        ((λ e. omega (arith, e)), ((λ e. omega (arith, e)), ((λ e. omega (arith, e)), tt))),
      ),
    ),
  ),
)

-- The game after the move goes on.
abbrev after_move : TicTacToe
after_move = (make_move ttt_new 5).0

still_open :
    (check_win after_move player_x ≡ false)
    × (check_win after_move player_o ≡ false)
    × (is_draw after_move ≡ false)
unfolding make_move switch_player check_win is_draw has_winner is_win_row is_win_col is_win_fwd
    is_win_bwd ttt_new
still_open = (refl, refl, refl)

lost_turn_example :
    ((play client (received (move ++ (0 ∷ [])) ∷ received (turn_text ++ (0 ∷ [])) ∷ [])).phase
      ≡ typing)
    × (play client (received (move ++ (0 ∷ (turn_text ++ (0 ∷ [])))) ∷ [])
        ≡ play client (received (move ++ (0 ∷ [])) ∷ []))
    × ((play client (received (move ++ (0 ∷ (turn_text ++ (0 ∷ [])))) ∷ [])).phase ≡ waiting)
lost_turn_example =
    lost_turn client move 5 refl no_nul understood still_open.0 still_open.1 still_open.2
