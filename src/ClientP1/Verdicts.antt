-- ===== src/ClientP1/Verdicts.antt =====
-- What the endings of the client say about its board, and what happens when a response is not
-- understood.
use cmput.Base.{
  ℕ, ◌≡◌, refl, ◌∙◌, ap, subst, inl, inr, Bool, true, false, List, [], ◌∷◌, Option, none, some,
  Bytes, Bool-cases, Option-cases, if◌then◌else◌, set, ◌-◌,
}
use cmput.Game.{
  TicTacToe, player_x, player_o, ttt_new, make_move, check_win, is_draw, is_win_row, is_win_col,
  is_win_fwd, is_win_bwd,
}
use cmput.Game.Win.{HasLine, check_win_iff}
use cmput.Game.Play.{
  IsFree, IsValid, marked, make_move_lem, make_move_cases, make_move-IsValid, ttt_new-IsValid,
  is_draw_turns,
}
use cmput.ServerP1.Verdicts.{NoLines, no_line-check_win}
use cmput.Text.{c_string, cut_newline, scan_command, same_text, mark_word}
use cmput.ClientP1.{
  Ending, you_won, you_lost, you_drew, time_exceeded, server_gone, Phase, typing, waiting, ended,
  ClientP1, Input, line, no_line, alarm_rang, received, disconnected, resolution, phase_of,
  after_input, input_parser, play_response, after_response, receive_response, step_in, play,
  started, send_command, timeout_command,
}

-- What an ending says about the board.
abbrev pub IsVerdict : Ending → TicTacToe → Type 0
IsVerdict you_won t = HasLine t.board player_x
IsVerdict you_lost t = HasLine t.board player_o
IsVerdict you_drew t = NoLines t × (t.turn_count ≡ 9)
IsVerdict time_exceeded t = NoLines t
IsVerdict server_gone t = NoLines t

abbrev pub IsFair : Phase → TicTacToe → Type 0
IsFair typing t = NoLines t
IsFair waiting t = NoLines t
IsFair (ended e) t = IsVerdict e t

pub record IsSession (c : ClientP1) : Type 0 where
  pub valid : IsValid c.game
  pub fair : IsFair c.phase c.game

abbrev pub Resolved : TicTacToe → Option Ending → Type 0
Resolved t none = NoLines t
Resolved t (some e) = IsVerdict e t

pub resolution-Resolved : (t : TicTacToe) → Resolved t (resolution t)
unfolding resolution
resolution-Resolved t = elim (Bool-cases (check_win t player_x)) [
  | inl e ↦ rw e ((check_win_iff t player_x).0 e)
  | inr e ↦ elim (Bool-cases (check_win t player_o)) [
    | inl f ↦ rw (e, f) ((check_win_iff t player_o).0 f)
    | inr f ↦
        let clear : NoLines t = (no_line-check_win t player_o f, no_line-check_win t player_x e) in
        elim (Bool-cases (is_draw t)) [
          | inl g ↦ rw (e, f, g) (clear, is_draw_turns t g)
          | inr g ↦ rw (e, f, g) clear
        ]
  ]
]

phase_of-IsFair : (t : TicTacToe) (o : Option Ending) → Resolved t o → IsFair (phase_of o waiting) t
phase_of-IsFair t none f = f
phase_of-IsFair t (some e) f = f

after_input-IsSession :
    (c : ClientP1) (command : Bytes) (n : ℕ)
    → IsSession c
    → IsSession (after_input c command (make_move c.game n))
unfolding after_input
after_input-IsSession c command n v = elim (make_move_cases c.game n) [
  | inr (k, e) ↦ rw e (record { valid = v.valid; fair = v.fair })
  | inl (f, e) ↦
      let t = marked c.game n in
      let valid =
        subst (λ (r : TicTacToe × Bool). IsValid r.0) e (make_move-IsValid c.game n v.valid) in
      rw e
        (record { valid = valid; fair = phase_of-IsFair t (resolution t) (resolution-Resolved t) })
]

input_parser-IsSession :
    (c : ClientP1) (text : Bytes) → IsSession c → IsSession (input_parser c text)
unfolding input_parser
input_parser-IsSession c text v = elim (Option-cases (scan_command (cut_newline text))) [
  | inl e ↦ rw (e, input_parser) v
  | inr ((cmd, n), e) ↦ elim (Bool-cases (same_text cmd mark_word)) [
    | inl f ↦
        rw (e, input_parser, f)
          (after_input-IsSession (record c { armed = false }) (cut_newline text) n
            (record { valid = v.valid; fair = v.fair }))
    | inr f ↦ rw (e, input_parser, f) v
  ]
]

play_response-IsValid :
    (t : TicTacToe) (buffer : Bytes) → IsValid t → IsValid (play_response t buffer)
unfolding play_response
play_response-IsValid t buffer v = elim (Option-cases (scan_command buffer)) [
  | inl e ↦ rw (e, play_response) v
  | inr ((cmd, n), e) ↦ elim (Bool-cases (same_text cmd mark_word)) [
    | inl f ↦ rw (e, play_response, f) (make_move-IsValid t n v)
    | inr f ↦ rw (e, play_response, f) v
  ]
]

after_response-IsSession :
    (c : ClientP1) (buffer : Bytes) (t : TicTacToe) (o : Option Ending)
    → IsValid t
    → Resolved t o
    → IsSession (after_response c buffer t o)
unfolding after_response
after_response-IsSession c buffer t none v f = record { valid = v; fair = f }
after_response-IsSession c buffer t (some e) v f = record { valid = v; fair = f }

step_in-IsSession :
    (p : Phase) (c : ClientP1) (i : Input) → c.phase ≡ p → IsSession c → IsSession (step_in p c i)
unfolding step_in receive_response
step_in-IsSession p c i e v = go p i (subst (λ q. IsFair q c.game) e v.fair)
  where
    rung : ClientP1
    rung = record c { phase = ended time_exceeded; sent = send_command timeout_command c.sent }

    go : (q : Phase) (j : Input) → IsFair q c.game → IsSession (step_in q c j)
    go typing (line text) f = input_parser-IsSession c text v
    go typing no_line f = v
    go typing alarm_rang f = elim (c.armed) as (λ b. IsSession (if b then rung else c)) [
      | true ↦ record { valid = v.valid; fair = f }
      | false ↦ v
    ]
    go typing (received bytes) f = v
    go typing disconnected f = v
    go waiting (received bytes) f =
        after_response-IsSession c (c_string bytes) (play_response c.game (c_string bytes)) _
          (play_response-IsValid c.game (c_string bytes) v.valid) (resolution-Resolved _)
    go waiting disconnected f = record { valid = v.valid; fair = f }
    go waiting (line text) f = v
    go waiting no_line f = v
    go waiting alarm_rang f = v
    go (ended e) j f = v

play_from-IsSession : (c : ClientP1) (is : List Input) → IsSession c → IsSession (play c is)
unfolding play
play_from-IsSession c [] v = v
play_from-IsSession c (i ∷ is) v =
    play_from-IsSession (step_in c.phase c i) is (step_in-IsSession c.phase c i refl v)

pub started-IsSession : IsSession started
unfolding ttt_new check_win is_win_row is_win_col is_win_fwd is_win_bwd
started-IsSession = record {
  valid = ttt_new-IsValid;
  fair = (no_line-check_win ttt_new player_o refl, no_line-check_win ttt_new player_x refl);
}

-- Whatever is typed, whenever the alarm rings and whatever the server sends, at every point of a
-- session of the client its game is valid, and no player has a line while it waits for the user or
-- for the server; and an ending says what its board shows: X has a line if the client won, O has
-- one if it lost, and a draw is a full board without a line of either.
pub play-IsSession : (is : List Input) → IsSession (play started is)
play-IsSession is = play_from-IsSession started is started-IsSession

play_response-none :
    (t : TicTacToe) (buffer : Bytes) → scan_command buffer ≡ none → play_response t buffer ≡ t
unfolding play_response
play_response-none t buffer e = rw (e, play_response) refl

unread_step :
    (c : ClientP1) (bytes : Bytes)
    → resolution c.game ≡ none
    → scan_command (c_string bytes) ≡ none
    → step_in waiting c (received bytes) ≡ record c { phase = typing; armed = true }
unfolding step_in receive_response after_response
unread_step c bytes r e = rw (play_response-none c.game (c_string bytes) e, r) refl

mark_step :
    (c : ClientP1) (text : Bytes) (m : ℕ)
    → scan_command (cut_newline text) ≡ some (mark_word, m)
    → IsFree c.game m
    → (step_in typing c (line text)).game ≡ marked c.game m
unfolding step_in input_parser after_input same_text
mark_step c text m f free = rw (f, input_parser, (make_move_lem c.game m).1 free) refl

-- The bug: a response without a MARK command that can be parsed, which comes when it is O's turn
-- and the game goes on, hands the turn to the user: the next line that holds a MARK command for a
-- free cell marks that cell for O.
pub unread_response :
    (c : ClientP1) (bytes text : Bytes) (m : ℕ)
    → c.phase ≡ waiting
    → c.game.current_player ≡ player_o
    → resolution c.game ≡ none
    → scan_command (c_string bytes) ≡ none
    → scan_command (cut_newline text) ≡ some (mark_word, m)
    → IsFree c.game m
    → (play c (received bytes ∷ line text ∷ [])).game.board ≡ set c.game.board (m - 1) player_o
unfolding play
unread_response c bytes text m w o r e f free =
    let first : step_in c.phase c (received bytes) ≡ record c { phase = typing; armed = true } =
      ap (λ p. step_in p c (received bytes)) w ∙ unread_step c bytes r e in
    ap (λ (d : ClientP1). (step_in d.phase d (line text)).game.board) first
    ∙ ap (λ (t : TicTacToe). t.board)
        (mark_step (record c { phase = typing; armed = true }) text m f free)
    ∙ ap (set c.game.board (m - 1)) o
