-- ===== src/Rooms.antt =====
-- The rooms of the game server assignment-1/c/src/server-p2.c, and what is done to one of them.
use cmput.Base.{
  ℕ, Bool, true, false, ◌||◌, List, [], ◌∷◌, ◌++◌, Option, none, some, Bytes, replicate, ltb, leb,
  ◌==◌, if◌then◌else◌,
}
use cmput.Game.{TicTacToe, blank, player_x, player_o, check_win, is_draw}
use cmput.Text.{c_string, atoi, below_zero}

-- A socket that is -1 is none. `fresh_count` is what `malloc` leaves in the count of the game that
-- the room will have, which nothing sets.
pub record GameRoom : Type 0 where
  pub player1_socket : Option ℕ
  pub player2_socket : Option ℕ
  pub num_active_players : ℕ
  pub game_running : Bool
  pub t : Option TicTacToe
  pub fresh_count : ℕ

pub data Verdict : Type 0 where
  x_won o_won drawn : Verdict

-- `server2_new`, on what `malloc` leaves in the fields that it does not set.
unfoldable pub new_room : Bool → ℕ → GameRoom
new_room running count = record {
  player1_socket = none;
  player2_socket = none;
  num_active_players = 0;
  game_running = running;
  t = none;
  fresh_count = count;
}

-- "JOIN ", "MARK ", and the words that the server sends.
abbrev pub join_text : Bytes
join_text = b'J' ∷ b'O' ∷ b'I' ∷ b'N' ∷ b' ' ∷ []

abbrev pub mark_text : Bytes
mark_text = b'M' ∷ b'A' ∷ b'R' ∷ b'K' ∷ b' ' ∷ []

abbrev pub turn_text : Bytes
turn_text = b'T' ∷ b'U' ∷ b'R' ∷ b'N' ∷ []

abbrev pub wait_text : Bytes
wait_text = b'W' ∷ b'A' ∷ b'I' ∷ b'T' ∷ []

abbrev pub win_text : Bytes
win_text = b'W' ∷ b'I' ∷ b'N' ∷ []

abbrev pub lose_text : Bytes
lose_text = b'L' ∷ b'O' ∷ b'S' ∷ b'E' ∷ []

abbrev pub draw_text : Bytes
draw_text = b'D' ∷ b'R' ∷ b'A' ∷ b'W' ∷ []

-- `server2_sendGameState`
abbrev pub message : Option ℕ → Bytes → Option ℕ × Bytes
message socket cmd = (socket, c_string cmd ++ (0 ∷ []))

-- The room of a JOIN command, if there is one.
unfoldable pub room_index : Bytes → Option ℕ
room_index id = if ltb 0 (below_zero id) || leb 5 (atoi id) then none else some (atoi id)

-- What `server2_createRoom` does under the lock.
unfoldable pub create_room : GameRoom → ℕ → GameRoom
create_room room socket = record room { player1_socket = some socket; num_active_players = 1 }

-- What `server2_joinRoom` does under the lock, and how it goes on: to create the room, to play, or
-- with the answer that the room is full.
pub data Joined : Type 0 where
  to_create to_play full : Joined

unfoldable pub join_room : GameRoom → ℕ → GameRoom × Joined
join_room room socket =
    if room.num_active_players == 0
    then (room, to_create)
    else if room.num_active_players == 1
    then if room.game_running
      then (record room { player2_socket = some socket; num_active_players = 2 }, full)
      else (
        record room { player2_socket = some socket; num_active_players = 2; game_running = true },
        to_play,
      )
    else (room, full)

-- The start of a round of `server2_runGame`: whose turn it is, and who waits.
unfoldable pub turn_sockets : GameRoom → TicTacToe → Option ℕ × Option ℕ
turn_sockets room t =
    if t.current_player == player_x
    then (room.player1_socket, room.player2_socket)
    else (room.player2_socket, room.player1_socket)

-- The game that `server2_runGame` allocates.
abbrev pub new_game : GameRoom → TicTacToe
new_game room = record {
  board = replicate 9 blank;
  current_player = player_x;
  turn_count = room.fresh_count;
}

-- The tests after a MARK command, in their order; `none` is that all fail.
unfoldable pub verdict : TicTacToe → Option Verdict
verdict t =
    if check_win t player_x
    then some x_won
    else if check_win t player_o
    then some o_won
    else if is_draw t
    then some drawn
    else none

-- What the two players are told.
abbrev pub results : GameRoom → Verdict → List (Option ℕ × Bytes)
results room x_won =
    message room.player1_socket win_text ∷ message room.player2_socket lose_text ∷ []
results room o_won =
    message room.player1_socket lose_text ∷ message room.player2_socket win_text ∷ []
results room drawn =
    message room.player1_socket draw_text ∷ message room.player2_socket draw_text ∷ []

-- The end of `server2_runGame`, which ends the process.
abbrev pub cleared : GameRoom → GameRoom
cleared room = record room {
  player1_socket = none;
  player2_socket = none;
  num_active_players = 0;
  game_running = false;
  t = none;
}
