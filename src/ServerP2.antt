-- ===== src/ServerP2.antt =====
-- The game server with rooms of assignment-1/c/src/server-p2.c: the server's threads, one for each
-- client, interleaved at the sections that a room's mutex guards and at the calls of `recv`.
pub mod Cells
pub mod Games
pub mod OneGame
pub mod Joins
pub mod Stuck
use cmput.Rooms.{
  GameRoom, Joined, Verdict, cleared, create_room, draw_text, drawn, full, join_room, join_text,
  lose_text, mark_text, message, new_game, new_room, o_won, results, room_index, to_create, to_play,
  turn_sockets, turn_text, verdict, wait_text, win_text, x_won,
}
use cmput.Base.{
  ℕ, ◌+◌, Bool, true, false, ◌||◌, List, [], ◌∷◌, ◌++◌, map, Option, none, some, Bytes, get_elem?,
  set, drop, replicate, ltb, leb, ◌==◌, strncmp_eq, if◌then◌else◌,
}
use cmput.Game.{TicTacToe, blank, player_x, player_o, make_move, check_win, is_draw}
use cmput.Text.{c_string, atoi, below_zero}

-- Where a playing thread waits: for the acknowledgement, or for the move.
pub data Wait : Type 0 where
  ack move : Wait

-- A thread of a client and its socket: before the command is read; in front of the lock of a room
-- in `server2_joinRoom` or in `server2_createRoom`; after its end, with the socket open or closed;
-- or in `server2_runGame` of a room, with the player whose turn it is and the opponent; or at the
-- end of that game.
pub data Thread : Type 0 where
  connected : ℕ → Thread
  joining creating : ℕ → ℕ → Thread
  returned closed : ℕ → Thread
  playing : ℕ → Wait → Option ℕ → Option ℕ → Thread
  played : ℕ → Thread

-- How the process ended.
pub data Ending : Type 0 where
  finished : ℕ → Verdict → Ending
  recv_failed null_pointer : Ending

pub record ServerP2 : Type 0 where
  pub rooms : List GameRoom
  pub threads : List Thread
  pub sent : List (Option ℕ × Bytes)
  pub ending : Option Ending

-- What `recv` returns, 255 bytes at most.
pub data Input : Type 0 where
  received : Bytes → Input
  failed : Input

unfoldable pub server2_new : (ℕ → Bool) → (ℕ → ℕ) → ServerP2
server2_new running count = record {
  rooms = map (λ i. new_room (running i) (count i)) (0 ∷ 1 ∷ 2 ∷ 3 ∷ 4 ∷ []);
  threads = [];
  sent = [];
  ending = none;
}

-- `server2_handleNewClient` up to the first lock.
unfoldable pub handle_new_client : ℕ → Bytes → Thread
handle_new_client socket buffer =
    if strncmp_eq 5 buffer join_text
    then elim (room_index (drop 5 buffer)) [ none ↦ closed socket | some r ↦ joining r socket ]
    else returned socket

-- Thread `i` enters a round of the game `t` of room `r`.
unfoldable pub begin_turn : ServerP2 → ℕ → ℕ → GameRoom → TicTacToe → ServerP2
begin_turn s i r room t =
    let (current, opponent) = turn_sockets room t in
    record s {
      rooms = set s.rooms r (record room { t = some t });
      threads = set s.threads i (playing r ack current opponent);
      sent = s.sent ++ (message current turn_text ∷ message opponent wait_text ∷ []);
    }

unfoldable pub after_join : ServerP2 → ℕ → ℕ → ℕ → GameRoom × Joined → ServerP2
after_join s i r socket (room, to_create) = record s {
  rooms = set s.rooms r room;
  threads = set s.threads i (creating r socket);
}
after_join s i r socket (room, to_play) = begin_turn s i r room (new_game room)
after_join s i r socket (room, full) = record s {
  rooms = set s.rooms r room;
  threads = set s.threads i (closed socket);
}

-- The rest of a round, once the move is played and sent to both players.
unfoldable pub after_mark : ServerP2 → ℕ → ℕ → GameRoom → TicTacToe → Option Verdict → ServerP2
after_mark s i r room t none = begin_turn s i r room t
after_mark s i r room t (some v) = record s {
  rooms = set s.rooms r (cleared room);
  threads = set s.threads i (played r);
  sent = s.sent ++ results room v;
  ending = some (finished r v);
}

-- The rest of a round of `server2_runGame` for the bytes of the move.
unfoldable pub take_move :
    ServerP2 → ℕ → ℕ → GameRoom → Option ℕ → Option ℕ → TicTacToe → Bytes → ServerP2
take_move s i r room current opponent t buffer =
    let t' = (make_move t (atoi (drop 5 buffer))).0 in
    if strncmp_eq 5 buffer mark_text
    then after_mark
        (record s { sent = s.sent ++ (message opponent buffer ∷ message current buffer ∷ []) }) i r
        room t' (verdict t')
    else begin_turn s i r room t

-- The game of a room: no game is a null pointer.
unfoldable pub with_game :
    ServerP2 → ℕ → ℕ → Option ℕ → Option ℕ → GameRoom → Option TicTacToe → Bytes → ServerP2
with_game s i r current opponent room none buffer = record s { ending = some null_pointer }
with_game s i r current opponent room (some t) buffer =
    take_move s i r room current opponent t buffer

unfoldable pub run_game :
    ServerP2 → ℕ → ℕ → Option ℕ → Option ℕ → Option GameRoom → Bytes → ServerP2
run_game s i r current opponent none buffer = record s { ending = some null_pointer }
run_game s i r current opponent (some room) buffer =
    with_game s i r current opponent room room.t buffer

unfoldable pub lock_join : ServerP2 → ℕ → ℕ → ℕ → Option GameRoom → ServerP2
lock_join s i r socket none = record s { ending = some null_pointer }
lock_join s i r socket (some room) = after_join s i r socket (join_room room socket)

unfoldable pub lock_create : ServerP2 → ℕ → ℕ → ℕ → Option GameRoom → ServerP2
lock_create s i r socket none = record s { ending = some null_pointer }
lock_create s i r socket (some room) = record s {
  rooms = set s.rooms r (create_room room socket);
  threads = set s.threads i (returned socket);
}

-- Thread `i` goes on: with what its `recv` returned, or through the section that it waits for.
unfoldable pub step_in : ServerP2 → ℕ → Thread → Input → ServerP2
step_in s i (connected socket) (received bytes) = record s {
  threads = set s.threads i (handle_new_client socket (c_string bytes));
}
step_in s i (connected socket) failed = record s { ending = some recv_failed }
step_in s i (joining r socket) input = lock_join s i r socket (get_elem? s.rooms r)
step_in s i (creating r socket) input = lock_create s i r socket (get_elem? s.rooms r)
step_in s i (returned socket) input = s
step_in s i (closed socket) input = s
step_in s i (played r) input = s
step_in s i (playing r ack current opponent) input = record s {
  threads = set s.threads i (playing r move current opponent);
}
step_in s i (playing r move current opponent) (received bytes) =
    run_game s i r current opponent (get_elem? s.rooms r) (c_string bytes)
step_in s i (playing r move current opponent) failed = record s { ending = some recv_failed }

-- `server2_start` accepts a connection, or a thread goes on.
pub data Event : Type 0 where
  accepts : ℕ → Event
  resumes : ℕ → Input → Event

unfoldable pub resume : ServerP2 → ℕ → Option Thread → Input → ServerP2
resume s i none input = s
resume s i (some thread) input = step_in s i thread input

unfoldable pub step : Option Ending → ServerP2 → Event → ServerP2
step none s (accepts socket) = record s { threads = s.threads ++ (connected socket ∷ []) }
step none s (resumes i input) = resume s i (get_elem? s.threads i) input
step (some e) s event = s

unfoldable pub run : ServerP2 → List Event → ServerP2
run s [] = s
run s (e ∷ es) = run (step s.ending s e) es
