-- ===== src/ServerP2/Stuck.antt =====
-- Games on a full board whose `turnCount`, which starts with what `malloc` left, is not 9.
use cmput.Base.{
  ℕ, ◌≡◌, ◌≢◌, refl, sym, subst, inl, inr, false, List, [], ◌∷◌, Option, none, some, Bytes,
  get_elem?, map, drop, strncmp_eq, Bool-cases, ==_iff, ◌==◌,
}
use cmput.Game.{TicTacToe, is_draw, check_win, player_x, player_o}
use cmput.Game.Play.{IsFree, make_move_lem}
use cmput.Game.Win.{HasLine, check_win_iff}
use cmput.Text.{c_string, atoi}
use cmput.ServerP1.Verdicts.{NoLines}
use cmput.Rooms.{GameRoom, verdict, turn_sockets, mark_text}
use cmput.ServerP2.{
  Thread, Wait, ack, move, playing, ServerP2, received, resumes, begin_turn, after_mark, take_move,
  with_game, run_game, step_in, resume, step, run,
}
use cmput.ServerP2.Cells.{get_elem?-set_same}

-- A full board without a line, whose count is not 9.
pub record IsHopeless (t : TicTacToe) : Type 0 where
  pub no_cell : (m : ℕ) → ¬ IsFree t m
  pub no_lines : NoLines t
  pub miscounted : t.turn_count ≢ 9

-- Thread `i` plays the game `t` of room `r`, and the server runs.
pub record IsPlaying (s : ServerP2) (i r : ℕ) (t : TicTacToe) : Type 0 where
  pub room : GameRoom
  pub found : get_elem? s.rooms r ≡ some room
  pub game : room.t ≡ some t
  pub wait : Wait
  pub current : Option ℕ
  pub opponent : Option ℕ
  pub thread : get_elem? s.threads i ≡ some (playing r wait current opponent)
  pub runs : s.ending ≡ none

no_line : (t : TicTacToe) (p : ℕ) → ¬ HasLine t.board p → check_win t p ≡ false
no_line t p n = elim (Bool-cases (check_win t p)) [
  | inl e ↦ absurd (n ((check_win_iff t p).0 e))
  | inr e ↦ e
]

hopeless_verdict : (t : TicTacToe) → IsHopeless t → verdict t ≡ none
unfolding verdict is_draw
hopeless_verdict t h = elim (Bool-cases (t.turn_count == 9)) [
  | inl c ↦ absurd (h.miscounted ((==_iff _ _).0 c))
  | inr c ↦ rw (no_line t player_x h.no_lines.1, no_line t player_o h.no_lines.0, c) refl
]

module _ (i r : ℕ) (t : TicTacToe) (h : IsHopeless t) where
  begin_turn-IsPlaying :
      (s : ServerP2) (x : Thread) (old room : GameRoom)
      → get_elem? s.threads i ≡ some x
      → get_elem? s.rooms r ≡ some old
      → s.ending ≡ none
      → IsPlaying (begin_turn s i r room t) i r t
  unfolding begin_turn
  begin_turn-IsPlaying s x old room a b c = record {
    room = record room { t = some t };
    found = get_elem?-set_same s.rooms r _ _ b;
    game = refl;
    wait = ack;
    current = (turn_sockets room t).0;
    opponent = (turn_sockets room t).1;
    thread = get_elem?-set_same s.threads i _ _ a;
    runs = c;
  }

  take_move-IsPlaying :
      (s : ServerP2) (x : Thread) (room : GameRoom) (current opponent : Option ℕ) (buffer : Bytes)
      → get_elem? s.threads i ≡ some x
      → get_elem? s.rooms r ≡ some room
      → s.ending ≡ none
      → IsPlaying (take_move s i r room current opponent t buffer) i r t
  unfolding take_move after_mark
  take_move-IsPlaying s x room current opponent buffer a b c =
      elim (Bool-cases (strncmp_eq 5 buffer mark_text)) [
        | inl e ↦
            rw (e, (make_move_lem t (atoi (drop 5 buffer))).2 (h.no_cell _), hopeless_verdict t h)
              (begin_turn-IsPlaying _ x room room a b c)
        | inr e ↦ rw e (begin_turn-IsPlaying s x room room a b c)
      ]

  step_in-IsPlaying :
      (s : ServerP2) (w : Wait) (room : GameRoom) (current opponent : Option ℕ) (bytes : Bytes)
      → get_elem? s.threads i ≡ some (playing r w current opponent)
      → get_elem? s.rooms r ≡ some room
      → room.t ≡ some t
      → s.ending ≡ none
      → IsPlaying (step_in s i (playing r w current opponent) (received bytes)) i r t
  unfolding step_in run_game with_game
  step_in-IsPlaying s ack room current opponent bytes a b g c = record {
    room = room;
    found = b;
    game = g;
    wait = move;
    current = current;
    opponent = opponent;
    thread = get_elem?-set_same s.threads i _ _ a;
    runs = c;
  }
  step_in-IsPlaying s move room current opponent bytes a b g c =
      subst (λ o. IsPlaying (run_game s i r current opponent o (c_string bytes)) i r t) (sym b)
        (subst (λ o. IsPlaying (with_game s i r current opponent room o (c_string bytes)) i r t)
          (sym g) (take_move-IsPlaying s _ room current opponent (c_string bytes) a b c))

  step-IsPlaying :
      (s : ServerP2) (bytes : Bytes)
      → IsPlaying s i r t
      → IsPlaying (step s.ending s (resumes i (received bytes))) i r t
  unfolding step resume
  step-IsPlaying s bytes v =
      subst (λ o. IsPlaying (step o s (resumes i (received bytes))) i r t) (sym v.runs)
        (subst (λ o. IsPlaying (resume s i o (received bytes)) i r t) (sym v.thread)
          (step_in-IsPlaying s v.wait v.room v.current v.opponent bytes v.thread v.found v.game
            v.runs))

  -- A game without end: on a full board without a line whose count is not 9, the game of a room
  -- goes on and stays as it is, whatever messages its thread receives and however many.
  pub stuck_game :
      (s : ServerP2) (messages : List Bytes)
      → IsPlaying s i r t
      → IsPlaying (run s (map (λ b. resumes i (received b)) messages)) i r t
  unfolding run
  stuck_game s [] v = v
  stuck_game s (m ∷ messages) v =
      stuck_game (step s.ending s (resumes i (received m))) messages (step-IsPlaying s m v)
