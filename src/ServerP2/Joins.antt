-- ===== src/ServerP2/Joins.antt =====
-- Two clients that join an empty room, one after the other and at the same time.
use cmput.Base.{
  ℕ, ◌≡◌, ◌≢◌, refl, sym, ◌∙◌, ap, true, false, List, [], ◌∷◌, ◌++◌, none, some, get_elem?, set,
  replicate,
}
use cmput.Game.{blank, player_x}
use cmput.Rooms.{
  GameRoom, Joined, to_create, to_play, create_room, join_room, turn_sockets, new_game, message,
  turn_text, wait_text,
}
use cmput.ServerP2.{
  Thread, ack, joining, creating, returned, playing, ServerP2, Input, Event, resumes, begin_turn,
  after_join, lock_join, lock_create, step_in, resume, step, run,
}
use cmput.ServerP2.Cells.{get_elem?-set_same, get_elem?-set_other}

abbrev put : ServerP2 → ℕ → GameRoom → ℕ → Thread → ServerP2
put s r room i x = record s { rooms = set s.rooms r room; threads = set s.threads i x }

-- Threads `i` and `j` join a room at once, and in order.
abbrev pub at_once : ServerP2 → ℕ → ℕ → Input → ServerP2
at_once s i j x = run s (resumes i x ∷ resumes j x ∷ resumes i x ∷ resumes j x ∷ [])

abbrev pub in_order : ServerP2 → ℕ → ℕ → Input → ServerP2
in_order s i j x = run s (resumes i x ∷ resumes i x ∷ resumes j x ∷ [])

run_joining :
    (s : ServerP2) (i r a : ℕ) (room : GameRoom) (p : GameRoom × Joined) (x : Input)
    (es : List Event)
    → s.ending ≡ none
    → get_elem? s.threads i ≡ some (joining r a)
    → get_elem? s.rooms r ≡ some room
    → join_room room a ≡ p
    → run s (resumes i x ∷ es) ≡ run (after_join s i r a p) es
unfolding run step resume step_in lock_join
run_joining s i r a room p x es e h k j =
    ap (λ t. run t es)
      (ap (λ o. step o s (resumes i x)) e
        ∙ ap (λ o. resume s i o x) h
        ∙ ap (lock_join s i r a) k
        ∙ ap (after_join s i r a) j)

run_creating :
    (s : ServerP2) (i r a : ℕ) (room : GameRoom) (x : Input) (es : List Event)
    → s.ending ≡ none
    → get_elem? s.threads i ≡ some (creating r a)
    → get_elem? s.rooms r ≡ some room
    → run s (resumes i x ∷ es) ≡ run (put s r (create_room room a) i (returned a)) es
unfolding run step resume step_in lock_create
run_creating s i r a room x es e h k =
    ap (λ t. run t es)
      (ap (λ o. step o s (resumes i x)) e ∙ ap (λ o. resume s i o x) h ∙ ap (lock_create s i r a) k)

join_empty :
    (room : GameRoom) (a : ℕ) → room.num_active_players ≡ 0 → join_room room a ≡ (room, to_create)
unfolding join_room
join_empty room a z = rw z refl

-- The room with a second player.
abbrev opened : GameRoom → ℕ → GameRoom
opened room b = record room { player2_socket = some b; num_active_players = 2; game_running = true }

join_created :
    (room : GameRoom) (a b : ℕ)
    → room.game_running ≡ false
    → join_room (create_room room a) b ≡ (opened (create_room room a) b, to_play)
unfolding join_room create_room
join_created room a b f = rw f refl

run_join_empty :
    (s : ServerP2) (i r a : ℕ) (room : GameRoom) (x : Input) (es : List Event)
    → s.ending ≡ none
    → get_elem? s.threads i ≡ some (joining r a)
    → get_elem? s.rooms r ≡ some room
    → room.num_active_players ≡ 0
    → run s (resumes i x ∷ es) ≡ run (put s r room i (creating r a)) es
unfolding after_join
run_join_empty s i r a room x es e h k z =
    run_joining s i r a room (room, to_create) x es e h k (join_empty room a z)

module _ (s : ServerP2) (i j r a b : ℕ) (room : GameRoom) (x : Input) (running : s.ending ≡ none)
    (first : get_elem? s.threads i ≡ some (joining r a))
    (second : get_elem? s.threads j ≡ some (joining r b)) (apart : i ≢ j)
    (found : get_elem? s.rooms r ≡ some room) (empty : room.num_active_players ≡ 0) where
  abbrev s1 : ServerP2
  s1 = put s r room i (creating r a)

  s1_room : get_elem? s1.rooms r ≡ some room
  s1_room = get_elem?-set_same s.rooms r room room found

  s1_first : get_elem? s1.threads i ≡ some (creating r a)
  s1_first = get_elem?-set_same s.threads i _ _ first

  s1_second : get_elem? s1.threads j ≡ some (joining r b)
  s1_second = get_elem?-set_other s.threads i j _ apart ∙ second

  abbrev s2 : ServerP2
  s2 = put s1 r room j (creating r b)

  s2_room : get_elem? s2.rooms r ≡ some room
  s2_room = get_elem?-set_same s1.rooms r room room s1_room

  s2_first : get_elem? s2.threads i ≡ some (creating r a)
  s2_first = get_elem?-set_other s1.threads j i _ (λ e. apart (sym e)) ∙ s1_first

  s2_second : get_elem? s2.threads j ≡ some (creating r b)
  s2_second = get_elem?-set_same s1.threads j _ _ s1_second

  abbrev s3 : ServerP2
  s3 = put s2 r (create_room room a) i (returned a)

  s3_room : get_elem? s3.rooms r ≡ some (create_room room a)
  s3_room = get_elem?-set_same s2.rooms r _ _ s2_room

  s3_first : get_elem? s3.threads i ≡ some (returned a)
  s3_first = get_elem?-set_same s2.threads i _ _ s2_first

  s3_second : get_elem? s3.threads j ≡ some (creating r b)
  s3_second = get_elem?-set_other s2.threads i j _ apart ∙ s2_second

  abbrev s4 : ServerP2
  s4 = put s3 r (create_room (create_room room a) b) j (returned b)

  race : at_once s i j x ≡ s4
  unfolding run
  race =
      run_join_empty s i r a room x (resumes j x ∷ resumes i x ∷ resumes j x ∷ []) running first
        found empty
      ∙ run_join_empty s1 j r b room x (resumes i x ∷ resumes j x ∷ []) running s1_second s1_room
          empty
      ∙ run_creating s2 i r a room x (resumes j x ∷ []) running s2_first s2_room
      ∙ run_creating s3 j r b (create_room room a) x [] running s3_second s3_room

  -- The race of two clients that create a room: when both have seen the room empty before either
  -- creates it, the second takes the place of the first. The room has one player, the second
  -- client, and both threads are over; nothing was sent, and no other room and no other thread has
  -- changed.
  pub lost_player :
      (get_elem? (at_once s i j x).rooms r
        ≡ some (record room { player1_socket = some b; num_active_players = 1 }))
      × (get_elem? (at_once s i j x).threads i ≡ some (returned a))
      × (get_elem? (at_once s i j x).threads j ≡ some (returned b))
      × ((at_once s i j x).sent ≡ s.sent)
      × ((k : ℕ) → k ≢ r → get_elem? (at_once s i j x).rooms k ≡ get_elem? s.rooms k)
      × ((k : ℕ) → k ≢ i → k ≢ j → get_elem? (at_once s i j x).threads k ≡ get_elem? s.threads k)
  unfolding create_room
  lost_player = rw race (
    get_elem?-set_same s3.rooms r _ _ s3_room,
    get_elem?-set_other s3.threads j i _ (λ e. apart (sym e)) ∙ s3_first,
    get_elem?-set_same s3.threads j _ _ s3_second,
    refl,
    (λ k n.
        let m : r ≢ k = λ e. n (sym e) in
        get_elem?-set_other s3.rooms r k _ m
        ∙ get_elem?-set_other s2.rooms r k _ m
        ∙ get_elem?-set_other s1.rooms r k _ m
        ∙ get_elem?-set_other s.rooms r k _ m),
    (λ k n o.
        let m : i ≢ k = λ e. n (sym e) in
        let l : j ≢ k = λ e. o (sym e) in
        get_elem?-set_other s3.threads j k _ l
        ∙ get_elem?-set_other s2.threads i k _ m
        ∙ get_elem?-set_other s1.threads j k _ l
        ∙ get_elem?-set_other s.threads i k _ m),
  )

  abbrev t2 : ServerP2
  t2 = put s1 r (create_room room a) i (returned a)

  t2_room : get_elem? t2.rooms r ≡ some (create_room room a)
  t2_room = get_elem?-set_same s1.rooms r _ _ s1_room

  t2_second : get_elem? t2.threads j ≡ some (joining r b)
  t2_second = get_elem?-set_other s1.threads i j _ apart ∙ s1_second

  abbrev full_room : GameRoom
  full_room = opened (create_room room a) b

  module _ (idle : room.game_running ≡ false) where
    in_turn : in_order s i j x ≡ begin_turn t2 j r full_room (new_game full_room)
    unfolding run after_join
    in_turn =
        run_join_empty s i r a room x (resumes i x ∷ resumes j x ∷ []) running first found empty
        ∙ run_creating s1 i r a room x (resumes j x ∷ []) running s1_first s1_room
        ∙ run_joining t2 j r b (create_room room a) (full_room, to_play) x [] running t2_second
            t2_room (join_created room a b idle)

    -- Two clients that join an empty room of which no game runs, the second after the first has
    -- created it: the room has both players and a game of X on a blank board, the first client's thread is
    -- over and the second's plays the game, the first client is told that it is its turn, and the
    -- second that it waits.
    pub two_players :
        (get_elem? (in_order s i j x).rooms r
          ≡ some (record room {
            player1_socket = some a;
            player2_socket = some b;
            num_active_players = 2;
            game_running = true;
            t = some (record {
              board = replicate 9 blank;
              current_player = player_x;
              turn_count = room.fresh_count;
            });
          }))
        × (get_elem? (in_order s i j x).threads i ≡ some (returned a))
        × (get_elem? (in_order s i j x).threads j ≡ some (playing r ack (some a) (some b)))
        × ((in_order s i j x).sent
            ≡ s.sent ++ (message (some a) turn_text ∷ message (some b) wait_text ∷ []))
    unfolding create_room begin_turn turn_sockets
    two_players = rw in_turn (
      get_elem?-set_same t2.rooms r _ _ t2_room,
      get_elem?-set_other t2.threads j i _ (λ e. apart (sym e))
          ∙ get_elem?-set_same s1.threads i _ _ s1_first,
      get_elem?-set_same t2.threads j _ _ t2_second,
      refl,
    )
