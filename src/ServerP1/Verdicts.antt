-- ===== src/ServerP1/Verdicts.antt =====
-- What the endings of the game say about the board.
use cmput.Base.{
  ℕ, ◌≡◌, refl, sym, ◌∙◌, subst, inl, inr, Bool, true, false, List, [], ◌∷◌, Option, none, some,
  Bytes, Bool-cases, Option-cases,
}
use mathlib.Core.Bool.{false≢true}
use cmput.Game.{
  TicTacToe, player_x, player_o, ttt_new, make_move, check_win, is_draw, is_win_row, is_win_col,
  is_win_fwd, is_win_bwd,
}
use cmput.Game.Win.{HasLine, check_win_iff}
use cmput.Game.Play.{
  IsValid, marked, make_move_cases, make_move-IsValid, ttt_new-IsValid, is_draw_turns,
}
use cmput.Text.{
  no_words, one_word, two_words, c_string, strtok_two, atoi, scan_command, cut_newline, Words,
}
use cmput.ServerP1.{
  Ending, you_won, you_lost, you_drew, client_timeout, client_gone, null_token, Phase, client_turn,
  server_turn, ended, ServerP1, Input, received, disconnected, line, no_line, resolution,
  after_client_move, run_client_move, take_words, is_timeout, end_client_move, end_server_move,
  after_server_move, run_server_move, step_in, serve,
}

-- Neither player has a line.
abbrev pub NoLines : TicTacToe → Type 0
NoLines t = ¬ HasLine t.board player_o × ¬ HasLine t.board player_x

-- What an ending says about the board.
abbrev pub IsVerdict : Ending → TicTacToe → Type 0
IsVerdict you_won t = HasLine t.board player_o
IsVerdict you_lost t = HasLine t.board player_x
IsVerdict you_drew t = NoLines t × (t.turn_count ≡ 9)
IsVerdict client_timeout t = NoLines t
IsVerdict client_gone t = NoLines t
IsVerdict null_token t = NoLines t

abbrev pub IsFair : Phase → TicTacToe → Type 0
IsFair client_turn t = NoLines t × (t.current_player ≡ player_x)
IsFair server_turn t = NoLines t × (t.current_player ≡ player_o)
IsFair (ended e) t = IsVerdict e t

-- A valid game, with a phase that fits it.
pub record IsSession (s : ServerP1) : Type 0 where
  pub valid : IsValid s.game
  pub fair : IsFair s.phase s.game

-- What the three tests find.
abbrev Resolved : TicTacToe → Option Ending → Type 0
Resolved t none = NoLines t
Resolved t (some e) = IsVerdict e t

pub no_line-check_win : (t : TicTacToe) (p : ℕ) → check_win t p ≡ false → ¬ HasLine t.board p
no_line-check_win t p e h = false≢true (sym e ∙ (check_win_iff t p).1 h)

resolution-Resolved : (t : TicTacToe) → Resolved t (resolution t)
unfolding resolution
resolution-Resolved t = elim (Bool-cases (check_win t player_o)) [
  | inl e ↦ rw e ((check_win_iff t player_o).0 e)
  | inr e ↦ elim (Bool-cases (check_win t player_x)) [
    | inl f ↦ rw (e, f) ((check_win_iff t player_x).0 f)
    | inr f ↦
        let clear : NoLines t = (no_line-check_win t player_o e, no_line-check_win t player_x f) in
        elim (Bool-cases (is_draw t)) [
          | inl g ↦ rw (e, f, g) (clear, is_draw_turns t g)
          | inr g ↦ rw (e, f, g) clear
        ]
  ]
]

pub accepted-IsValid :
    (t : TicTacToe) (m : ℕ) → IsValid t → make_move t m ≡ (marked t m, true) → IsValid (marked t m)
accepted-IsValid t m v e = subst (λ (r : TicTacToe × Bool). IsValid r.0) e (make_move-IsValid t m v)

end_client_move-IsSession :
    (s : ServerP1) (buffer : Bytes) (t : TicTacToe) (o : Option Ending)
    → IsValid t
    → t.current_player ≡ player_o
    → Resolved t o
    → IsSession (end_client_move s buffer t o)
unfolding end_client_move
end_client_move-IsSession s buffer t none v x f = record { valid = v; fair = (f, x) }
end_client_move-IsSession s buffer t (some e) v x f = record { valid = v; fair = f }

after_client_move-IsSession :
    (s : ServerP1) (buffer : Bytes) (m : ℕ)
    → IsSession s
    → s.game.current_player ≡ player_x
    → IsSession (after_client_move s buffer (make_move s.game m))
unfolding after_client_move
after_client_move-IsSession s buffer m v x = elim (make_move_cases s.game m) [
  | inr (n, e) ↦ rw e (record { valid = v.valid; fair = v.fair })
  | inl (f, e) ↦
      let t = marked s.game m in
      rw e (
        end_client_move-IsSession s buffer t (resolution t) (accepted-IsValid s.game m v.valid e)
          (rw x refl) (resolution-Resolved t))
]

end_server_move-IsSession :
    (s : ServerP1) (command : Bytes) (t : TicTacToe) (o : Option Ending)
    → IsValid t
    → t.current_player ≡ player_x
    → Resolved t o
    → IsSession (end_server_move s command t o)
unfolding end_server_move
end_server_move-IsSession s command t none v x f = record { valid = v; fair = (f, x) }
end_server_move-IsSession s command t (some e) v x f = record { valid = v; fair = f }

after_server_move-IsSession :
    (s : ServerP1) (command : Bytes) (m : ℕ)
    → IsSession s
    → s.game.current_player ≡ player_o
    → IsSession (after_server_move s command (make_move s.game m))
unfolding after_server_move
after_server_move-IsSession s command m v x = elim (make_move_cases s.game m) [
  | inr (n, e) ↦ rw e (record { valid = v.valid; fair = v.fair })
  | inl (f, e) ↦
      let t = marked s.game m in
      rw e (
        end_server_move-IsSession s command t (resolution t) (accepted-IsValid s.game m v.valid e)
          (rw x refl) (resolution-Resolved t))
]

take_words-IsSession :
    (s : ServerP1) (w : Words)
    → IsSession s
    → NoLines s.game
    → s.game.current_player ≡ player_x
    → IsSession (take_words s w)
unfolding take_words
take_words-IsSession s no_words v n x = record { valid = v.valid; fair = n }
take_words-IsSession s (one_word buffer w) v n x = elim (Bool-cases (is_timeout w)) [
  | inl e ↦ rw e (record { valid = v.valid; fair = n })
  | inr e ↦ rw e (record { valid = v.valid; fair = n })
]
take_words-IsSession s (two_words buffer w u) v n x = elim (Bool-cases (is_timeout w)) [
  | inl e ↦ rw e (record { valid = v.valid; fair = n })
  | inr e ↦ rw e (after_client_move-IsSession s buffer (atoi u) v x)
]

run_server_move-IsSession :
    (s : ServerP1) (text : Bytes)
    → IsSession s
    → s.game.current_player ≡ player_o
    → IsSession (run_server_move s text)
unfolding run_server_move
run_server_move-IsSession s text v x = elim (Option-cases (scan_command (cut_newline text))) [
  | inl e ↦ rw (e, run_server_move) v
  | inr ((w, m), e) ↦
      rw (e, run_server_move) (after_server_move-IsSession s (cut_newline text) m v x)
]

step_in-IsSession :
    (p : Phase) (s : ServerP1) (i : Input) → s.phase ≡ p → IsSession s → IsSession (step_in p s i)
unfolding step_in run_client_move
step_in-IsSession p s i e v = go p i (subst (λ q. IsFair q s.game) e v.fair)
  where
    go : (q : Phase) (j : Input) → IsFair q s.game → IsSession (step_in q s j)
    go client_turn (received bytes) (n, x) =
        take_words-IsSession s (strtok_two (c_string bytes)) v n x
    go client_turn disconnected (n, x) = record { valid = v.valid; fair = n }
    go client_turn (line text) f = v
    go client_turn no_line f = v
    go server_turn (line text) (n, x) = run_server_move-IsSession s text v x
    go server_turn no_line f = v
    go server_turn (received bytes) f = v
    go server_turn disconnected f = v
    go (ended e) j f = v

-- The server as `main` starts it.
abbrev pub started : ServerP1
started = record { phase = client_turn; game = ttt_new; sent = [] }

serve_step-IsSession : (s : ServerP1) (is : List Input) → IsSession s → IsSession (serve s is)
unfolding serve
serve_step-IsSession s [] v = v
serve_step-IsSession s (i ∷ is) v =
    serve_step-IsSession (step_in s.phase s i) is (step_in-IsSession s.phase s i refl v)

started-IsSession : IsSession started
unfolding ttt_new check_win is_win_row is_win_col is_win_fwd is_win_bwd
started-IsSession = record {
  valid = ttt_new-IsValid;
  fair = ((no_line-check_win ttt_new player_o refl, no_line-check_win ttt_new player_x refl), refl);
}

-- Whatever the client sends and whatever is typed at the terminal, at every point of a session that
-- started as `main` starts it the game is valid, it is X's turn when the server waits for the
-- client and O's when it waits for the terminal, with no line on the board in both; and an ending
-- says what the board shows: O has a line if the server won, X has one if it lost, and a draw is a
-- full board without a line of either.
pub serve-IsSession : (is : List Input) → IsSession (serve started is)
serve-IsSession is = serve_step-IsSession started is started-IsSession
