-- ===== src/ServerP2/OneGame.antt =====
-- How many threads play in a room: what `gameRunning` is for.
use cmput.Base.{
  ℕ, ◌+◌, ◌≤◌, ◌≡◌, refl, inl, inr, Bool, List, [], ◌∷◌, Option, none, some, Bytes, get_elem?, ◌==◌,
  Bool-cases, Option-cases, arith, strncmp_eq, drop,
}
use cmput.Game.{TicTacToe}
use cmput.Text.{c_string}
use cmput.Rooms.{GameRoom, Verdict, room_index, create_room, join_room, join_text, mark_text}
use cmput.ServerP2.{
  Thread, ack, move, connected, joining, creating, returned, closed, playing, played, ServerP2,
  Input, received, failed, Event, accepts, resumes, Ending, server2_new, handle_new_client,
  begin_turn, after_join, after_mark, take_move, with_game, run_game, lock_join, lock_create,
  step_in, resume, step, run,
}
use cmput.ServerP2.Games.{
  plays, games, allowance, IsExclusive, games-append, plays_own, plays_other, thread-IsExclusive,
  room-IsExclusive,
}

begin_turn-IsExclusive :
    (s : ServerP2) (i r : ℕ) (x : Thread) (old room : GameRoom) (t : TicTacToe)
    → get_elem? s.threads i ≡ some x
    → get_elem? s.rooms r ≡ some old
    → 1 + allowance (some room) ≤ plays r x + allowance (some old)
    → IsExclusive s
    → IsExclusive (begin_turn s i r room t)
unfolding begin_turn
begin_turn-IsExclusive s i r x old room t h k l v =
    room-IsExclusive s i r x _ old _ h k (rw (plays_own r) l)
      (λ j n. rw (plays_other r j n) (omega arith)) v

after_join-IsExclusive :
    (s : ServerP2) (i r socket : ℕ) (room : GameRoom)
    → get_elem? s.threads i ≡ some (joining r socket)
    → get_elem? s.rooms r ≡ some room
    → IsExclusive s
    → IsExclusive (after_join s i r socket (join_room room socket))
unfolding join_room after_join
after_join-IsExclusive s i r socket room h k v = elim (Bool-cases (room.num_active_players == 0)) [
  | inl a ↦ rw a (room-IsExclusive s i r _ _ room _ h k (omega arith) (λ j n. omega arith) v)
  | inr a ↦ elim (Bool-cases (room.num_active_players == 1)) [
    | inr b ↦ rw (a, b) (room-IsExclusive s i r _ _ room _ h k (omega arith) (λ j n. omega arith) v)
    | inl b ↦ elim (Bool-cases room.game_running) [
      | inl c ↦
          rw (a, b, c) (room-IsExclusive s i r _ _ room _ h k (omega arith) (λ j n. omega arith) v)
      | inr c ↦ rw (a, b, c) (begin_turn-IsExclusive s i r _ room _ _ h k (rw c (omega arith)) v)
    ]
  ]
]

after_mark-IsExclusive :
    (s : ServerP2) (i r : ℕ) (current opponent : Option ℕ) (room : GameRoom) (t : TicTacToe)
    (o : Option Verdict)
    → get_elem? s.threads i ≡ some (playing r move current opponent)
    → get_elem? s.rooms r ≡ some room
    → IsExclusive s
    → IsExclusive (after_mark s i r room t o)
unfolding after_mark
after_mark-IsExclusive s i r current opponent room t none h k v =
    begin_turn-IsExclusive s i r _ room room t h k (rw (plays_own r) (omega arith)) v
after_mark-IsExclusive s i r current opponent room t (some w) h k v =
    room-IsExclusive s i r _ _ room _ h k (rw (plays_own r) (ground arith)) (λ j n. omega arith) v

take_move-IsExclusive :
    (s : ServerP2) (i r : ℕ) (current opponent : Option ℕ) (room : GameRoom) (t : TicTacToe)
    (buffer : Bytes)
    → get_elem? s.threads i ≡ some (playing r move current opponent)
    → get_elem? s.rooms r ≡ some room
    → IsExclusive s
    → IsExclusive (take_move s i r room current opponent t buffer)
unfolding take_move after_mark
take_move-IsExclusive s i r current opponent room t buffer h k v =
    elim (Bool-cases (strncmp_eq 5 buffer mark_text)) [
      | inl e ↦ rw e (after_mark-IsExclusive _ i r current opponent room _ _ h k v)
      | inr e ↦ rw e (after_mark-IsExclusive s i r current opponent room t none h k v)
    ]

with_game-IsExclusive :
    (s : ServerP2) (i r : ℕ) (current opponent : Option ℕ) (room : GameRoom) (o : Option TicTacToe)
    (buffer : Bytes)
    → get_elem? s.threads i ≡ some (playing r move current opponent)
    → get_elem? s.rooms r ≡ some room
    → IsExclusive s
    → IsExclusive (with_game s i r current opponent room o buffer)
unfolding with_game
with_game-IsExclusive s i r current opponent room none buffer h k v = v
with_game-IsExclusive s i r current opponent room (some t) buffer h k v =
    take_move-IsExclusive s i r current opponent room t buffer h k v

run_game-IsExclusive :
    (s : ServerP2) (i r : ℕ) (current opponent : Option ℕ) (o : Option GameRoom) (buffer : Bytes)
    → get_elem? s.threads i ≡ some (playing r move current opponent)
    → get_elem? s.rooms r ≡ o
    → IsExclusive s
    → IsExclusive (run_game s i r current opponent o buffer)
unfolding run_game
run_game-IsExclusive s i r current opponent none buffer h k v = v
run_game-IsExclusive s i r current opponent (some room) buffer h k v =
    with_game-IsExclusive s i r current opponent room room.t buffer h k v

lock_join-IsExclusive :
    (s : ServerP2) (i r socket : ℕ) (o : Option GameRoom)
    → get_elem? s.threads i ≡ some (joining r socket)
    → get_elem? s.rooms r ≡ o
    → IsExclusive s
    → IsExclusive (lock_join s i r socket o)
unfolding lock_join
lock_join-IsExclusive s i r socket none h k v = v
lock_join-IsExclusive s i r socket (some room) h k v =
    after_join-IsExclusive s i r socket room h k v

lock_create-IsExclusive :
    (s : ServerP2) (i r socket : ℕ) (o : Option GameRoom)
    → get_elem? s.threads i ≡ some (creating r socket)
    → get_elem? s.rooms r ≡ o
    → IsExclusive s
    → IsExclusive (lock_create s i r socket o)
unfolding lock_create create_room
lock_create-IsExclusive s i r socket none h k v = v
lock_create-IsExclusive s i r socket (some room) h k v =
    room-IsExclusive s i r _ _ room _ h k (omega arith) (λ j n. omega arith) v

new_thread_plays : (r socket : ℕ) (buffer : Bytes) → plays r (handle_new_client socket buffer) ≡ 0
unfolding handle_new_client
new_thread_plays r socket buffer = elim (Bool-cases (strncmp_eq 5 buffer join_text)) [
  | inr e ↦ rw e refl
  | inl e ↦ elim (Option-cases (room_index (drop 5 buffer))) [
    | inl f ↦ rw (e, f) refl
    | inr (q, f) ↦ rw (e, f) refl
  ]
]

step_in-IsExclusive :
    (s : ServerP2) (i : ℕ) (x : Thread) (input : Input)
    → get_elem? s.threads i ≡ some x
    → IsExclusive s
    → IsExclusive (step_in s i x input)
unfolding step_in
step_in-IsExclusive s i (connected socket) (received bytes) h v =
    thread-IsExclusive s i _ _ h (λ r. omega (arith, new_thread_plays r socket (c_string bytes))) v
step_in-IsExclusive s i (connected socket) failed h v = v
step_in-IsExclusive s i (joining r socket) input h v = lock_join-IsExclusive s i r socket _ h refl v
step_in-IsExclusive s i (creating r socket) input h v =
    lock_create-IsExclusive s i r socket _ h refl v
step_in-IsExclusive s i (returned socket) input h v = v
step_in-IsExclusive s i (closed socket) input h v = v
step_in-IsExclusive s i (played r) input h v = v
step_in-IsExclusive s i (playing r ack current opponent) input h v =
    thread-IsExclusive s i _ _ h (λ r. omega arith) v
step_in-IsExclusive s i (playing r move current opponent) (received bytes) h v =
    run_game-IsExclusive s i r current opponent _ (c_string bytes) h refl v
step_in-IsExclusive s i (playing r move current opponent) failed h v = v

resume-IsExclusive :
    (s : ServerP2) (i : ℕ) (o : Option Thread) (input : Input)
    → get_elem? s.threads i ≡ o
    → IsExclusive s
    → IsExclusive (resume s i o input)
unfolding resume
resume-IsExclusive s i none input h v = v
resume-IsExclusive s i (some x) input h v = step_in-IsExclusive s i x input h v

step-IsExclusive :
    (o : Option Ending) (s : ServerP2) (e : Event) → IsExclusive s → IsExclusive (step o s e)
unfolding step
step-IsExclusive none s (accepts socket) v =
    λ r. omega (arith, v r, games-append r s.threads (connected socket))
step-IsExclusive none s (resumes i input) v = resume-IsExclusive s i _ input refl v
step-IsExclusive (some x) s e v = v

run-IsExclusive : (s : ServerP2) (es : List Event) → IsExclusive s → IsExclusive (run s es)
unfolding run
run-IsExclusive s [] v = v
run-IsExclusive s (e ∷ es) v =
    run-IsExclusive (step s.ending s e) es (step-IsExclusive s.ending s e v)

allowance_bound : (o : Option GameRoom) → allowance o ≤ 1
allowance_bound none = omega arith
allowance_bound (some room) = ground arith

-- Two threads never play in the same room, whatever `malloc` leaves in the rooms, and in whatever
-- order clients connect and the threads go on.
pub one_game :
    (running : ℕ → Bool) (count : ℕ → ℕ) (es : List Event) (r : ℕ)
    → games r (run (server2_new running count) es).threads ≤ 1
unfolding server2_new
one_game running count es r =
    let v : IsExclusive (run (server2_new running count) es) =
      run-IsExclusive (server2_new running count) es
        (λ j. omega (arith, allowance_bound (get_elem? (server2_new running count).rooms j))) in
    omega (arith, v r)
