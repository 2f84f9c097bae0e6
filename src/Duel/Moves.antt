-- ===== src/Duel/Moves.antt =====
-- What one side does with the MARK command that its user types or that it receives.
use cmput.Base.{ℕ, ◌≤◌, ◌≡◌, refl, subst, true, false, [], ◌∷◌, ◌++◌, Option, none, some}
use cmput.Game.{TicTacToe, player_x, player_o}
use cmput.Game.Play.{IsFree, marked, make_move_lem}
use cmput.Text.{same_text, mark_word}
use cmput.ServerP1
use cmput.ServerP1.{ServerP1, is_timeout}
use cmput.ServerP1.Verdicts.{accepted-IsValid}
use cmput.ClientP1
use cmput.ClientP1.{ClientP1}
use cmput.ClientP1.Verdicts
use cmput.Duel.{mark_text}
use cmput.Duel.Reads.{mark_text-IsRead}
use cmput.Duel.Agree.{IsLive, server_phase}

-- The client after its user's move, and after the server's.
abbrev pub client_marked : ClientP1 → ℕ → ClientP1
client_marked c n = record c {
  phase = ClientP1.phase_of (ClientP1.resolution (marked c.game n)) ClientP1.waiting;
  game = marked c.game n;
  armed = false;
  sent = c.sent ++ (mark_text n ∷ []);
}

after_input_accepted :
    (c : ClientP1) (n : ℕ) (t : TicTacToe)
    → n ≤ 9
    → ClientP1.after_input c (mark_text n) (t, true) ≡ record c {
      phase = ClientP1.phase_of (ClientP1.resolution t) ClientP1.waiting;
      game = t;
      sent = c.sent ++ (mark_text n ∷ []);
    }
unfolding ClientP1.after_input ClientP1.send_command
after_input_accepted c n t h = rw ((mark_text-IsRead n h).sent) refl

pub input_parser-mark :
    (c : ClientP1) (n : ℕ)
    → n ≤ 9
    → IsFree c.game n
    → ClientP1.input_parser c (mark_text n ++ (10 ∷ [])) ≡ client_marked c n
unfolding ClientP1.input_parser same_text
input_parser-mark c n h f =
    let r = mark_text-IsRead n h in
    rw (r.cut, r.scanned, ClientP1.input_parser, (make_move_lem c.game n).1 f, r.cut)
      (after_input_accepted (record c { armed = false }) n _ h)

pub input_parser_refused :
    (c : ClientP1) (n : ℕ)
    → n ≤ 9
    → ¬ IsFree c.game n
    → ClientP1.input_parser c (mark_text n ++ (10 ∷ [])) ≡ record c { armed = false }
unfolding ClientP1.input_parser ClientP1.after_input same_text
input_parser_refused c n h f =
    let r = mark_text-IsRead n h in
    rw (r.cut, r.scanned, ClientP1.input_parser, (make_move_lem c.game n).2 f) refl

played_mark :
    (c : ClientP1) (n : ℕ)
    → n ≤ 9
    → IsFree c.game n
    → ClientP1.play_response c.game (mark_text n) ≡ marked c.game n
unfolding ClientP1.play_response same_text
played_mark c n h f =
    rw ((mark_text-IsRead n h).scanned, ClientP1.play_response, (make_move_lem c.game n).1 f) refl

pub receive_response-mark :
    (c : ClientP1) (n : ℕ)
    → n ≤ 9
    → IsFree c.game n
    → ClientP1.step_in ClientP1.waiting c (ClientP1.received (mark_text n ++ (0 ∷ [])))
      ≡ ClientP1.after_response c
          (mark_text n)
          (marked c.game n)
          (ClientP1.resolution (marked c.game n))
unfolding ClientP1.step_in ClientP1.receive_response
receive_response-mark c n h f = rw ((mark_text-IsRead n h).received, played_mark c n h f) refl

pub run_client_move-mark :
    (s : ServerP1) (n : ℕ)
    → n ≤ 9
    → IsFree s.game n
    → ServerP1.step_in ServerP1.client_turn s (ServerP1.received (mark_text n))
      ≡ ServerP1.end_client_move s mark_word
          (marked s.game n)
          (ServerP1.resolution (marked s.game n))
unfolding ServerP1.step_in ServerP1.run_client_move ServerP1.take_words is_timeout
    ServerP1.after_client_move
run_client_move-mark s n h f =
    let r = mark_text-IsRead n h in
    rw (r.sent, r.words, r.number, (make_move_lem s.game n).1 f) refl

-- The server after its user's move.
abbrev pub server_marked : ServerP1 → ℕ → ServerP1
server_marked s n = record {
  phase = server_phase (ServerP1.resolution (marked s.game n));
  game = marked s.game n;
  sent = s.sent ++ ((mark_text n ++ (0 ∷ [])) ∷ []);
}

end_server_move_lem :
    (s : ServerP1) (n : ℕ) (t : TicTacToe) (o : Option ServerP1.Ending)
    → n ≤ 9
    → ServerP1.end_server_move s (mark_text n) t o ≡ record {
      phase = server_phase o;
      game = t;
      sent = s.sent ++ ((mark_text n ++ (0 ∷ [])) ∷ []);
    }
unfolding ServerP1.end_server_move ServerP1.send_game_state
end_server_move_lem s n t none h = rw ((mark_text-IsRead n h).sent) refl
end_server_move_lem s n t (some e) h = rw ((mark_text-IsRead n h).sent) refl

pub run_server_move-mark :
    (s : ServerP1) (n : ℕ)
    → n ≤ 9
    → IsFree s.game n
    → ServerP1.run_server_move s (mark_text n ++ (10 ∷ [])) ≡ server_marked s n
unfolding ServerP1.run_server_move ServerP1.after_server_move
run_server_move-mark s n h f =
    let r = mark_text-IsRead n h in
    rw (r.cut, r.scanned, ServerP1.run_server_move, (make_move_lem s.game n).1 f, r.cut)
      (end_server_move_lem s n _ _ h)

pub run_server_move_refused :
    (s : ServerP1) (n : ℕ)
    → n ≤ 9
    → ¬ IsFree s.game n
    → ServerP1.run_server_move s (mark_text n ++ (10 ∷ [])) ≡ s
unfolding ServerP1.run_server_move ServerP1.after_server_move
run_server_move_refused s n h f =
    let r = mark_text-IsRead n h in
    rw (r.cut, r.scanned, ServerP1.run_server_move, (make_move_lem s.game n).2 f) refl

-- The game goes on after a move that decides nothing.
module _ (t : TicTacToe) (n : ℕ) (f : IsFree t n)
    (e : ClientP1.resolution (marked t n) ≡ none) where
  marked-NoLines : ClientP1.Verdicts.Resolved (marked t n) none
  marked-NoLines =
      subst (ClientP1.Verdicts.Resolved (marked t n)) e
        (ClientP1.Verdicts.resolution-Resolved (marked t n))

  pub marked_x-IsLive : IsLive t player_x → IsLive (marked t n) player_o
  marked_x-IsLive v = record {
    valid = accepted-IsValid t n v.valid ((make_move_lem t n).1 f);
    open_lines = marked-NoLines;
    turn = rw (v.turn) refl;
  }

  pub marked_o-IsLive : IsLive t player_o → IsLive (marked t n) player_x
  marked_o-IsLive v = record {
    valid = accepted-IsValid t n v.valid ((make_move_lem t n).1 f);
    open_lines = marked-NoLines;
    turn = rw (v.turn) refl;
  }
