-- ===== src/ServerP1.antt =====
-- The game server of assignment-1/c/src/server-p1.c: X plays over the socket, O at the terminal.
-- What it prints is left out; the messages that it sends are kept.
pub mod Verdicts
use cmput.Base.{
  ℕ, Bool, true, false, List, [], ◌∷◌, ◌++◌, Option, none, some, Bytes, bytes_eq, length, ◌==◌,
  ◌&&◌, if◌then◌else◌,
}
use cmput.Game.{TicTacToe, player_x, player_o, make_move, check_win, is_draw}
use cmput.Text.{
  Words, no_words, one_word, two_words, c_string, strtok_two, atoi, cut_newline, scan_command,
}

-- How the process ended: by the game, by the client's "TIMEOUT", by a closed connection, or by a
-- null pointer given to `strcmp` or `atoi`.
pub data Ending : Type 0 where
  you_won you_lost you_drew client_timeout client_gone null_token : Ending

-- `client_turn` waits in `recv`, `server_turn` in `fgets`.
pub data Phase : Type 0 where
  client_turn server_turn : Phase
  ended : Ending → Phase

pub record ServerP1 : Type 0 where
  pub phase : Phase
  pub game : TicTacToe
  pub sent : List Bytes

-- What a blocking call returns: `recv` some bytes, fewer than 1024, or nothing; `fgets` a line, or
-- null.
pub data Input : Type 0 where
  received : Bytes → Input
  disconnected : Input
  line : Bytes → Input
  no_line : Input

-- The tests after an accepted move, in their order; `none` is their last branch.
unfoldable pub resolution : TicTacToe → Option Ending
resolution t =
    if check_win t player_o
    then some you_won
    else if check_win t player_x
    then some you_lost
    else if is_draw t
    then some you_drew
    else none

-- `server_sendGameState`: the text of the command and its NUL.
unfoldable pub send_game_state : Bytes → List Bytes → List Bytes
send_game_state cmd sent = sent ++ ((c_string cmd ++ (0 ∷ [])) ∷ [])

-- What follows an accepted move of the client, by what the tests found.
unfoldable pub end_client_move : ServerP1 → Bytes → TicTacToe → Option Ending → ServerP1
end_client_move s buffer t (some e) = record {
  phase = ended e;
  game = t;
  sent = send_game_state buffer s.sent;
}
end_client_move s buffer t none = record s { phase = server_turn; game = t }

-- The rest of a round of `server_runGame`, after `ttt_makeMove`.
unfoldable pub after_client_move : ServerP1 → Bytes → TicTacToe × Bool → ServerP1
after_client_move s buffer (t, false) = record s { game = t }
after_client_move s buffer (t, true) = end_client_move s buffer t (resolution t)

-- `!strcmp(token, "TIMEOUT")`
unfoldable pub is_timeout : Bytes → Bool
is_timeout w = length w == 7 && bytes_eq 7 w (84 ∷ 73 ∷ 77 ∷ 69 ∷ 79 ∷ 85 ∷ 84 ∷ [])

-- What a round of `server_runGame` does with the tokens of the message.
unfoldable pub take_words : ServerP1 → Words → ServerP1
take_words s no_words = record s { phase = ended null_token }
take_words s (one_word buffer w) = record s {
  phase = ended (if is_timeout w then client_timeout else null_token);
}
take_words s (two_words buffer w v) =
    if is_timeout w
    then record s { phase = ended client_timeout }
    else after_client_move s buffer (make_move s.game (atoi v))

-- A round of `server_runGame` for the bytes that `recv` returned.
unfoldable pub run_client_move : ServerP1 → Bytes → ServerP1
run_client_move s bytes = take_words s (strtok_two (c_string bytes))

-- What follows an accepted move at the terminal, the end of the loop included.
unfoldable pub end_server_move : ServerP1 → Bytes → TicTacToe → Option Ending → ServerP1
end_server_move s command t (some e) = record {
  phase = ended e;
  game = t;
  sent = send_game_state command s.sent;
}
end_server_move s command t none = record {
  phase = client_turn;
  game = t;
  sent = send_game_state command s.sent;
}

-- The rest of a round of the loop of `server_handleServerMove`, after `ttt_makeMove`.
unfoldable pub after_server_move : ServerP1 → Bytes → TicTacToe × Bool → ServerP1
after_server_move s command (t, false) = record s { game = t }
after_server_move s command (t, true) = end_server_move s command t (resolution t)

unfoldable pub run_server_move : ServerP1 → Bytes → ServerP1
run_server_move s text = elim (scan_command (cut_newline text)) [
  | none ↦ s
  | some (cmd, n) ↦ after_server_move s (cut_newline text) (make_move s.game n)
]

-- What the process does with what its blocking call returned. An input that it does not wait for
-- stays unread.
unfoldable pub step_in : Phase → ServerP1 → Input → ServerP1
step_in client_turn s (received bytes) = run_client_move s bytes
step_in client_turn s disconnected = record s { phase = ended client_gone }
step_in client_turn s (line text) = s
step_in client_turn s no_line = s
step_in server_turn s (line text) = run_server_move s text
step_in server_turn s no_line = s
step_in server_turn s (received bytes) = s
step_in server_turn s disconnected = s
step_in (ended e) s i = s

unfoldable pub serve : ServerP1 → List Input → ServerP1
serve s [] = s
serve s (i ∷ is) = serve (step_in s.phase s i) is
