-- ===== src/Examples/Duel.antt =====
-- The client, and a game of the client and the server, on concrete inputs.
use cmput.Base.{List, [], ◌∷◌, ◌++◌, ◌≡◌, refl, set, none, some, false, bytes_eq, arith}
use cmput.Game.{
  ttt_new, switch_player, make_move, is_win_row, is_win_col, is_win_fwd, is_win_bwd, check_win,
  has_winner, is_draw,
}
use cmput.Game.Play.{IsFree, marked}
use cmput.Text.{
  c_string, cut_newline, span, next_token, strtok_two, value, scan_digits, scan_number, atoi,
  scan_command, word_of, same_text, mark_word,
}
use cmput.ServerP1
use cmput.ClientP1
use cmput.ClientP1.{ClientP1}
use cmput.ClientP1.Verdicts.{IsSession, play-IsSession}
use cmput.Duel.{
  Event, client_types, server_types, server_hears, client_hears, mark_text, hear_server,
  hear_client, step, run, started,
}
use cmput.Duel.Agree.{Agree}
use cmput.Duel.Steps.{run-Agree}

-- X takes the middle, O the first cell.
abbrev events : List Event
events = client_types 5 ∷ server_hears ∷ server_types 1 ∷ client_hears ∷ []

run-Agree_example : Agree (run started events)
run-Agree_example = run-Agree events (omega arith, (tt, (omega arith, (tt, tt))))

-- The client's user marks the middle, and the server answers.
abbrev inputs : List ClientP1.Input
inputs = ClientP1.line (mark_text 5 ++ (10 ∷ [])) ∷ ClientP1.received (mark_text 1 ++ (0 ∷ [])) ∷ []

play-IsSession_example : IsSession (ClientP1.play ClientP1.started inputs)
play-IsSession_example = play-IsSession inputs

-- After the first move of the user.
abbrev waiting : ClientP1
waiting = record {
  phase = ClientP1.waiting;
  game = marked ttt_new 5;
  armed = false;
  sent = mark_text 5 ∷ [];
}

waiting_open : ClientP1.resolution (marked ttt_new 5) ≡ none
unfolding ClientP1.resolution check_win is_draw has_winner is_win_row is_win_col is_win_fwd
    is_win_bwd ttt_new
waiting_open = refl

-- "HELLO"
unread : scan_command (c_string (72 ∷ 69 ∷ 76 ∷ 76 ∷ 79 ∷ [])) ≡ none
unfolding scan_command c_string word_of span scan_number scan_digits value
unread = refl

typed : scan_command (cut_newline (mark_text 1 ++ (10 ∷ []))) ≡ some (mark_word, 1)
unfolding scan_command cut_newline word_of span scan_number scan_digits value
typed = refl

first-IsFree : IsFree (marked ttt_new 5) 1
unfolding ttt_new
first-IsFree = (omega arith, omega arith, refl)

-- The boards after the two moves.
both_boards :
    ((run started events).client.game.board ≡ set (set ttt_new.board 4 88) 0 79)
    × ((run started events).server.game.board ≡ set (set ttt_new.board 4 88) 0 79)
unfolding run step hear_server hear_client ClientP1.step_in ClientP1.input_parser
    ClientP1.after_input ClientP1.receive_response ClientP1.play_response ClientP1.after_response
    ClientP1.resolution ClientP1.send_command ServerP1.step_in ServerP1.run_client_move
    ServerP1.take_words ServerP1.is_timeout ServerP1.after_client_move ServerP1.end_client_move
    ServerP1.run_server_move ServerP1.after_server_move ServerP1.end_server_move
    ServerP1.send_game_state ServerP1.resolution check_win is_draw has_winner is_win_row is_win_col
    is_win_fwd is_win_bwd ttt_new make_move switch_player scan_command cut_newline c_string word_of
    span scan_number scan_digits value next_token strtok_two atoi same_text bytes_eq
both_boards = (refl, refl)
