-- ===== src/ClientP1.antt =====
-- The game client of assignment-1/c/src/client-p1.c: X plays at the terminal, O over the socket.
-- What it prints is left out; the messages that it sends are kept.
pub mod Verdicts
use cmput.Base.{Bool, true, false, List, [], ◌∷◌, ◌++◌, Option, none, some, Bytes, if◌then◌else◌}
use cmput.Game.{TicTacToe, player_x, player_o, ttt_new, make_move, check_win, is_draw}
use cmput.Text.{c_string, cut_newline, scan_command, same_text, mark_word}

-- How the process ended: by the game, by the time limit, or by a closed connection.
pub data Ending : Type 0 where
  you_won you_lost you_drew time_exceeded server_gone : Ending

-- `typing` waits in `fgets`, `waiting` in `recv`.
pub data Phase : Type 0 where
  typing waiting : Phase
  ended : Ending → Phase

-- `armed` says that `alarm(30)` runs.
pub record ClientP1 : Type 0 where
  pub phase : Phase
  pub game : TicTacToe
  pub armed : Bool
  pub sent : List Bytes

-- What a blocking call returns: `fgets` a line, null, or anything once the alarm rang; `recv` some
-- bytes, 1023 at most, or nothing.
pub data Input : Type 0 where
  line : Bytes → Input
  no_line alarm_rang : Input
  received : Bytes → Input
  disconnected : Input

-- The three tests after a move, of `input_parser` and of `main`; `none` is that all fail.
unfoldable pub resolution : TicTacToe → Option Ending
resolution t =
    if check_win t player_x
    then some you_won
    else if check_win t player_o
    then some you_lost
    else if is_draw t
    then some you_drew
    else none

-- `client_sendCommand`: the text without its NUL.
unfoldable pub send_command : Bytes → List Bytes → List Bytes
send_command cmd sent = sent ++ (c_string cmd ∷ [])

abbrev pub phase_of : Option Ending → Phase → Phase
phase_of none p = p
phase_of (some e) p = ended e

-- The rest of a round of `input_parser`, after `ttt_makeMove`: a move that is accepted is sent, on
-- every branch.
unfoldable pub after_input : ClientP1 → Bytes → TicTacToe × Bool → ClientP1
after_input c command (t, false) = record c { game = t }
after_input c command (t, true) = record c {
  phase = phase_of (resolution t) waiting;
  game = t;
  sent = send_command command c.sent;
}

-- A round of `input_parser` for the line that `fgets` returned.
unfoldable pub input_parser : ClientP1 → Bytes → ClientP1
input_parser c text = elim (scan_command (cut_newline text)) [
  | none ↦ c
  | some (cmd, n) ↦
      if same_text cmd mark_word
      then after_input (record c { armed = false }) (cut_newline text) (make_move c.game n)
      else c
]

-- What `client_receiveServerResponse` does to the game.
unfoldable pub play_response : TicTacToe → Bytes → TicTacToe
play_response t buffer = elim (scan_command buffer) [
  | none ↦ t
  | some (cmd, n) ↦ if same_text cmd mark_word then (make_move t n).0 else t
]

-- The rest of a round of the loop of `main`, the start of the next `input_parser` included: the
-- game after the response, and what the tests found.
unfoldable pub after_response : ClientP1 → Bytes → TicTacToe → Option Ending → ClientP1
after_response c buffer t none = record c { phase = typing; game = t; armed = true }
after_response c buffer t (some e) = record c {
  phase = ended e;
  game = t;
  sent = send_command buffer c.sent;
}

unfoldable pub receive_response : ClientP1 → Bytes → ClientP1
receive_response c bytes =
    let t = play_response c.game (c_string bytes) in
    after_response c (c_string bytes) t (resolution t)

-- "TIMEOUT -1"
abbrev pub timeout_command : Bytes
timeout_command = 84 ∷ 73 ∷ 77 ∷ 69 ∷ 79 ∷ 85 ∷ 84 ∷ 32 ∷ 45 ∷ 49 ∷ []

-- What the process does with what its blocking call returned. An input that it does not wait for
-- stays unread, and an alarm that is off does not ring.
unfoldable pub step_in : Phase → ClientP1 → Input → ClientP1
step_in typing c (line text) = input_parser c text
step_in typing c no_line = c
step_in typing c alarm_rang =
    if c.armed
    then record c { phase = ended time_exceeded; sent = send_command timeout_command c.sent }
    else c
step_in typing c (received bytes) = c
step_in typing c disconnected = c
step_in waiting c (received bytes) = receive_response c bytes
step_in waiting c disconnected = record c { phase = ended server_gone }
step_in waiting c (line text) = c
step_in waiting c no_line = c
step_in waiting c alarm_rang = c
step_in (ended e) c i = c

unfoldable pub play : ClientP1 → List Input → ClientP1
play c [] = c
play c (i ∷ is) = play (step_in c.phase c i) is

-- The client as `main` starts it.
abbrev pub started : ClientP1
started = record { phase = typing; game = ttt_new; armed = true; sent = [] }
