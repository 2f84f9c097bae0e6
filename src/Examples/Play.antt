-- ===== src/Examples/Play.antt =====
-- Games on concrete boards.
use cmput.Base.{List, bytes_eq, [], ◌∷◌, ◌≡◌, ◌↔◌, refl, inr, true, false, not, ◌∷◌, []}
use cmput.Game.{
  TicTacToe, player_x, player_o, ttt_new, switch_player, make_move, is_win_row, is_win_col,
  is_win_fwd, is_win_bwd, check_win, has_winner, is_draw,
}
use cmput.Game.Win.{HasLine, check_win_iff}
use cmput.Game.Play.{IsFree, IsValid, marked, count, make_move_lem, is_draw_full}
use cmput.ServerP1.{
  Input, received, line, disconnected, resolution, send_game_state, end_client_move,
  after_client_move, is_timeout, take_words, run_client_move, end_server_move, after_server_move,
  run_server_move, step_in, serve,
}
use cmput.Text.{
  c_string, cut_newline, span, next_token, strtok_two, value, scan_digits, scan_number, atoi,
  scan_command, word_of,
}
use cmput.ServerP1.Verdicts.{IsSession, started, serve-IsSession}

-- X has the left column; O moves next on the full board.
abbrev finished : TicTacToe
finished = record {
  board = 88 ∷ 79 ∷ 79 ∷ 88 ∷ 79 ∷ 88 ∷ 88 ∷ 88 ∷ 79 ∷ [];
  current_player = player_o;
  turn_count = 9;
}

finished-IsValid : IsValid finished
unfolding count
finished-IsValid = record { cells = refl; marks = refl; turns = refl; turn = inr (refl, refl) }

check_win_iff_example : (check_win finished player_x ≡ true) ↔ HasLine finished.board player_x
check_win_iff_example = check_win_iff finished player_x

make_move_lem_example :
    (((make_move ttt_new 5).1 ≡ true) ↔ IsFree ttt_new 5)
    × (IsFree ttt_new 5 → make_move ttt_new 5 ≡ (marked ttt_new 5, true))
    × (¬ IsFree ttt_new 5 → make_move ttt_new 5 ≡ (ttt_new, false))
make_move_lem_example = make_move_lem ttt_new 5

is_draw_full_example : is_draw finished ≡ not (check_win finished player_o)
is_draw_full_example = is_draw_full finished finished-IsValid refl

-- X takes the middle, O the first cell, and the client leaves.
abbrev inputs : List Input
inputs =
    received (77 ∷ 79 ∷ 86 ∷ 69 ∷ 32 ∷ 53 ∷ 0 ∷ [])
    ∷ line (77 ∷ 79 ∷ 86 ∷ 69 ∷ 32 ∷ 49 ∷ 10 ∷ [])
    ∷ disconnected
    ∷ []

-- The cells that this leaves.
serve_test : (serve started inputs).game.board ≡ 79 ∷ 32 ∷ 32 ∷ 32 ∷ 88 ∷ 32 ∷ 32 ∷ 32 ∷ 32 ∷ []
unfolding serve step_in run_client_move take_words is_timeout after_client_move end_client_move
    resolution run_server_move after_server_move end_server_move send_game_state strtok_two
    next_token span c_string cut_newline atoi scan_number scan_digits value word_of scan_command
    make_move switch_player ttt_new check_win is_win_row is_win_col is_win_fwd is_win_bwd is_draw
    has_winner bytes_eq
serve_test = refl

serve-IsSession_example : IsSession (serve started inputs)
serve-IsSession_example = serve-IsSession inputs
