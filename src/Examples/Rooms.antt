-- ===== src/Examples/Rooms.antt =====
-- Rooms on concrete inputs.
use cmput.Base.{
  ℕ, zero, suc, ◌-◌, ◌≤◌, ◌≡◌, ◌≢◌, refl, true, false, List, [], ◌∷◌, ◌++◌, none, some, Bytes,
  get_elem?, get_or, map, All, arith, strncmp_eq,
}
use cmput.Game.{
  TicTacToe, blank, player_x, player_o, is_win_row, is_win_col, is_win_fwd, is_win_bwd, check_win,
}
use cmput.Text.{c_string, span, value, scan_digits, scan_number, atoi, below_zero}
use cmput.ServerP1.Verdicts.{no_line-check_win}
use cmput.Rooms.{
  GameRoom, new_room, new_game, message, turn_text, wait_text, join_text, mark_text, room_index,
  create_room, join_room, turn_sockets,
}
use cmput.ServerP2.{
  ack, move, joining, returned, playing, ServerP2, received, failed, Event, accepts, resumes,
  server2_new, handle_new_client, begin_turn, after_join, lock_join, lock_create, step_in, resume,
  step, run,
}
use cmput.ServerP2.Games.{games}
use cmput.ServerP2.OneGame.{one_game}
use cmput.ServerP2.Joins.{at_once, in_order, lost_player, two_players}
use cmput.ServerP2.Stuck.{IsHopeless, IsPlaying, stuck_game}

abbrev empty : GameRoom
empty = record {
  player1_socket = none;
  player2_socket = none;
  num_active_players = 0;
  game_running = false;
  t = none;
  fresh_count = 100;
}

-- Two clients in front of an empty room.
abbrev at_the_door : ServerP2
at_the_door = record {
  rooms = empty ∷ empty ∷ [];
  threads = joining 1 7 ∷ joining 1 8 ∷ [];
  sent = [];
  ending = none;
}

lost_player_example :
    (get_elem? (at_once at_the_door 0 1 failed).rooms 1
      ≡ some (record empty { player1_socket = some 8; num_active_players = 1 }))
    × (get_elem? (at_once at_the_door 0 1 failed).threads 0 ≡ some (returned 7))
    × (get_elem? (at_once at_the_door 0 1 failed).threads 1 ≡ some (returned 8))
    × ((at_once at_the_door 0 1 failed).sent ≡ [])
    × ((k : ℕ)
        → k ≢ 1
        → get_elem? (at_once at_the_door 0 1 failed).rooms k ≡ get_elem? at_the_door.rooms k)
    × ((k : ℕ)
        → k ≢ 0
        → k ≢ 1
        → get_elem? (at_once at_the_door 0 1 failed).threads k ≡ get_elem? at_the_door.threads k)
lost_player_example =
    lost_player at_the_door 0 1 1 7 8 empty failed refl refl refl (λ e. omega (arith, e)) refl refl

two_players_example :
    (get_elem? (in_order at_the_door 0 1 failed).rooms 1
      ≡ some (record {
        player1_socket = some 7;
        player2_socket = some 8;
        num_active_players = 2;
        game_running = true;
        t = some (new_game empty);
        fresh_count = 100;
      }))
    × (get_elem? (in_order at_the_door 0 1 failed).threads 0 ≡ some (returned 7))
    × (get_elem? (in_order at_the_door 0 1 failed).threads 1
        ≡ some (playing 1 ack (some 7) (some 8)))
    × ((in_order at_the_door 0 1 failed).sent
        ≡ at_the_door.sent ++ (message (some 7) turn_text ∷ message (some 8) wait_text ∷ []))
two_players_example =
    two_players at_the_door 0 1 1 7 8 empty failed refl refl refl (λ e. omega (arith, e)) refl refl
      refl

-- Two clients connect and join room 1.
abbrev events : List Event
events =
    accepts 7
    ∷ accepts 8
    ∷ resumes 0 (received (join_text ++ (b'1' ∷ [])))
    ∷ resumes 0 failed
    ∷ resumes 0 failed
    ∷ resumes 1 (received (join_text ++ (b'1' ∷ [])))
    ∷ resumes 1 failed
    ∷ []

one_game_example : games 1 (run (server2_new (λ i. false) (λ i. i)) events).threads ≤ 1
one_game_example = one_game (λ i. false) (λ i. i) events 1

-- The second client's thread plays.
joined :
    (run (server2_new (λ i. false) (λ i. i)) events).threads
    ≡ returned 7 ∷ playing 1 ack (some 7) (some 8) ∷ []
unfolding run step resume step_in lock_join lock_create join_room create_room after_join begin_turn
    turn_sockets server2_new new_room handle_new_client room_index strncmp_eq c_string span value
    scan_digits scan_number atoi below_zero
joined = refl

-- Nine cells without a line, counted from 100 on.
abbrev drawn_board : TicTacToe
drawn_board = record {
  board = 88 ∷ 79 ∷ 88 ∷ 88 ∷ 79 ∷ 79 ∷ 79 ∷ 88 ∷ 88 ∷ [];
  current_player = player_o;
  turn_count = 109;
}

no_blank : (b : List ℕ) (k : ℕ) → All (λ c. c ≢ blank) b → get_or b k 0 ≢ blank
no_blank [] k a = λ e. omega (arith, e)
no_blank (c ∷ b) zero a = a.0
no_blank (c ∷ b) (suc k) a = no_blank b k a.1

x≢blank : player_x ≢ blank
x≢blank = λ e. omega (arith, e)

o≢blank : player_o ≢ blank
o≢blank = λ e. omega (arith, e)

drawn_board-IsHopeless : IsHopeless drawn_board
unfolding check_win is_win_row is_win_col is_win_fwd is_win_bwd
drawn_board-IsHopeless = record {
  no_cell = λ m f.
      no_blank drawn_board.board (m - 1)
        (
          x≢blank,
          (
            o≢blank,
            (x≢blank, (x≢blank, (o≢blank, (o≢blank, (o≢blank, (x≢blank, (x≢blank, tt))))))),
          ),
        )
        f.2;
  no_lines =
      (no_line-check_win drawn_board player_o refl, no_line-check_win drawn_board player_x refl);
  miscounted = λ e. omega (arith, e);
}

-- The game of room 0.
abbrev full_board : GameRoom
full_board = record empty {
  player1_socket = some 7;
  player2_socket = some 8;
  num_active_players = 2;
  game_running = true;
  t = some drawn_board;
}

abbrev last_round : ServerP2
last_round = record {
  rooms = full_board ∷ [];
  threads = returned 7 ∷ playing 0 move (some 8) (some 7) ∷ [];
  sent = [];
  ending = none;
}

last_round-IsPlaying : IsPlaying last_round 1 0 drawn_board
last_round-IsPlaying = record {
  room = full_board;
  found = refl;
  game = refl;
  wait = move;
  current = some 8;
  opponent = some 7;
  thread = refl;
  runs = refl;
}

-- "MARK 5" and an acknowledgement.
abbrev messages : List Bytes
messages = (mark_text ++ (b'5' ∷ [])) ∷ (b'A' ∷ b'C' ∷ b'K' ∷ []) ∷ []

stuck_game_example :
    IsPlaying (run last_round (map (λ b. resumes 1 (received b)) messages)) 1 0 drawn_board
stuck_game_example =
    stuck_game 1 0 drawn_board drawn_board-IsHopeless last_round messages last_round-IsPlaying
