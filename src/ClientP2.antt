-- ===== src/ClientP2.antt =====
-- The client of the server with rooms, assignment-1/c/src/client-p2.c. What it prints is left out; the
-- messages that it sends are kept. `input_parser` is not called.
pub mod Messages
use cmput.Base.{
  ℕ, Bool, true, false, List, [], ◌∷◌, ◌++◌, Option, none, some, Bytes, drop, strncmp_eq,
  if◌then◌else◌,
}
use cmput.Game.{TicTacToe, player_x, player_o, ttt_new, make_move, check_win, is_draw}
use cmput.Text.{c_string, span, not_space, scan_number, scan_command, same_text, mark_word}
use cmput.Rooms.{win_text, lose_text, draw_text, turn_text}

-- How the process ended: by its own tests after a move, by what the server told it, by a closed
-- connection, or by the null pointer that stands for a failed `recv`.
pub data Ending : Type 0 where
  you_won you_lost you_drew told_won told_lost told_drew server_gone null_pointer : Ending

-- `choosing` and `typing` wait in `fgets`, of `client2_handleRoomSelection` and of
-- `client2_runGame`; `waiting` waits in `recv`.
pub data Phase : Type 0 where
  choosing waiting typing : Phase
  ended : Ending → Phase

pub record ClientP2 : Type 0 where
  pub phase : Phase
  pub game : TicTacToe
  pub sent : List Bytes

-- What a blocking call returns: `fgets` a line or null; `recv` bytes, nothing, or -1.
pub data Input : Type 0 where
  line : Bytes → Input
  no_line : Input
  received : Bytes → Input
  disconnected recv_failed : Input

-- "JOIN" and "ACK"
abbrev pub join_word : Bytes
join_word = b'J' ∷ b'O' ∷ b'I' ∷ b'N' ∷ []

abbrev pub ack_text : Bytes
ack_text = b'A' ∷ b'C' ∷ b'K' ∷ []

-- `sscanf(text, "MARK %d", &n)` and its like for another word of four letters: the number.
unfoldable pub scan_after : Bytes → Bytes → Option ℕ
scan_after word text =
    if strncmp_eq 4 text word then (scan_number (span not_space (drop 4 text)).1).0 else none

-- `client2_sendCommand`: the text without its NUL.
unfoldable pub send_command : Bytes → List Bytes → List Bytes
send_command cmd sent = sent ++ (c_string cmd ∷ [])

-- A round of `client2_handleRoomSelection` for the line that `fgets` returned.
unfoldable pub choose_room : ClientP2 → Bytes → ClientP2
choose_room c text = elim (scan_after join_word text) [
  | none ↦ c
  | some n ↦ record c { phase = waiting; sent = send_command text c.sent }
]

-- The tests at the end of a round of `client2_runGame`.
unfoldable pub next_phase : TicTacToe → Phase
next_phase t =
    if check_win t player_x
    then ended you_won
    else if check_win t player_o
    then ended you_lost
    else if is_draw t
    then ended you_drew
    else waiting

-- The loop that reads a move.
unfoldable pub read_move : ClientP2 → Bytes → ClientP2
read_move c text = elim (scan_after mark_word text) [
  | none ↦ c
  | some n ↦
      let t = (make_move c.game n).0 in
      record { phase = next_phase t; game = t; sent = send_command text c.sent }
]

-- What `client2_receiveServerResponse` does with a text that is no command and a number: it may
-- end the process.
unfoldable pub told : Bytes → Option Ending
told buffer =
    if same_text buffer win_text
    then some told_won
    else if same_text buffer lose_text
    then some told_lost
    else if same_text buffer draw_text
    then some told_drew
    else none

-- The rest of a round of `client2_runGame`, once the response is there.
unfoldable pub after_response : ClientP2 → Bytes → TicTacToe → ClientP2
after_response c response t = record {
  phase = if same_text response turn_text then typing else next_phase t;
  game = t;
  sent = send_command ack_text c.sent;
}

-- A round of `client2_runGame` for the text that `recv` returned.
unfoldable pub take_response : ClientP2 → Bytes → ClientP2
take_response c buffer = elim (scan_command buffer) [
  | some (cmd, n) ↦
      after_response c buffer (if same_text cmd mark_word then (make_move c.game n).0 else c.game)
  | none ↦ elim (told buffer) [
    | some e ↦ record c { phase = ended e }
    | none ↦ after_response c buffer c.game
  ]
]

-- What the process does with what its blocking call returned. An input that it does not wait for
-- stays unread.
unfoldable pub step_in : Phase → ClientP2 → Input → ClientP2
step_in choosing c (line text) = choose_room c (c_string text)
step_in choosing c no_line = c
step_in choosing c (received bytes) = c
step_in choosing c disconnected = c
step_in choosing c recv_failed = c
step_in waiting c (received bytes) = take_response c (c_string bytes)
step_in waiting c disconnected = record c { phase = ended server_gone }
step_in waiting c recv_failed = record c { phase = ended null_pointer }
step_in waiting c (line text) = c
step_in waiting c no_line = c
step_in typing c (line text) = read_move c (c_string text)
step_in typing c no_line = record c { phase = next_phase c.game }
step_in typing c (received bytes) = c
step_in typing c disconnected = c
step_in typing c recv_failed = c
step_in (ended e) c i = c

unfoldable pub play : ClientP2 → List Input → ClientP2
play c [] = c
play c (i ∷ is) = play (step_in c.phase c i) is

-- The client as `main` starts it.
abbrev pub started : ClientP2
started = record { phase = choosing; game = ttt_new; sent = [] }
