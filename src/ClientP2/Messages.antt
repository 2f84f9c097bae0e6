-- ===== src/ClientP2/Messages.antt =====
-- Two messages of the server that one call of `recv` returns.
use cmput.Base.{
  ℕ, ◌≡◌, ◌≢◌, refl, sym, ◌∙◌, ap, inl, inr, [], ◌∷◌, ◌++◌, none, some, Bytes, All, ◌==◌,
  Bool-cases, ==_iff, false,
}
use cmput.Game.{make_move, check_win, is_draw, player_x, player_o}
use cmput.Text.{
  c_string, scan_command, word_of, span, scan_number, scan_digits, value, same_text,
  same_text_sound, mark_word,
}
use cmput.Rooms.{turn_text}
use cmput.ClientP2.{
  ClientP2, waiting, typing, received, take_response, step_in, play, after_response, next_phase,
  send_command, ack_text, told,
}

c_string-append : (a b : Bytes) → All (λ c. c ≢ 0) a → c_string (a ++ (0 ∷ b)) ≡ a
unfolding c_string
c_string-append [] b v = refl
c_string-append (c ∷ a) b v = elim (Bool-cases (c == 0)) [
  | inl e ↦ absurd (v.0 ((==_iff c 0).0 e))
  | inr e ↦ rw (e, c_string-append a b v.1) refl
]

swallowed :
    (c : ClientP2) (a b : Bytes)
    → All (λ x. x ≢ 0) a
    → step_in waiting c (received (a ++ (0 ∷ b))) ≡ take_response c a
unfolding step_in
swallowed c a b v = ap (take_response c) (c_string-append a b v)

scan_command-turn_text : scan_command turn_text ≡ none
unfolding scan_command word_of span scan_number scan_digits value
scan_command-turn_text = refl

not_turn :
    (m : Bytes) (n : ℕ) → scan_command m ≡ some (mark_word, n) → same_text m turn_text ≡ false
not_turn m n e = elim (Bool-cases (same_text m turn_text)) [
  | inl f ↦
      let h : none ≡ some (mark_word, n) =
        sym scan_command-turn_text ∙ sym (ap scan_command (same_text_sound m turn_text f)) ∙ e in
      absurd (cc h)
  | inr f ↦ f
]

-- The client after a move of the server's.
abbrev moved : ClientP2 → Bytes → ℕ → ClientP2
moved c m n = record {
  phase = next_phase (make_move c.game n).0;
  game = (make_move c.game n).0;
  sent = send_command ack_text c.sent;
}

after_response-moved :
    (c : ClientP2) (m : Bytes) (n : ℕ)
    → same_text m turn_text ≡ false
    → after_response c m (make_move c.game n).0 ≡ moved c m n
unfolding after_response
after_response-moved c m n f = rw f refl

take_response-moved :
    (c : ClientP2) (m : Bytes) (n : ℕ)
    → scan_command m ≡ some (mark_word, n)
    → take_response c m ≡ moved c m n
unfolding take_response same_text
take_response-moved c m n e = rw (e, take_response) (after_response-moved c m n (not_turn m n e))

-- The response "TURN".
take_turn :
    (c : ClientP2)
    → step_in waiting c (received (turn_text ++ (0 ∷ [])))
      ≡ record c { phase = typing; sent = send_command ack_text c.sent }
unfolding step_in c_string take_response told same_text after_response scan_command word_of span
    scan_number scan_digits value
take_turn c = refl

module _ (c : ClientP2) (m : Bytes) (n : ℕ) (waits : c.phase ≡ waiting) (solid : All (λ x. x ≢ 0) m)
    (read : scan_command m ≡ some (mark_word, n))
    (no_win : check_win (make_move c.game n).0 player_x ≡ false)
    (no_loss : check_win (make_move c.game n).0 player_o ≡ false)
    (no_draw : is_draw (make_move c.game n).0 ≡ false) where
  open_game : next_phase (make_move c.game n).0 ≡ waiting
  unfolding next_phase
  open_game = rw (no_win, no_loss, no_draw) refl

  apart : step_in c.phase c (received (m ++ (0 ∷ []))) ≡ moved c m n
  apart =
      ap (λ p. step_in p c (received (m ++ (0 ∷ [])))) waits
      ∙ swallowed c m [] solid
      ∙ take_response-moved c m n read

  together : step_in c.phase c (received (m ++ (0 ∷ (turn_text ++ (0 ∷ []))))) ≡ moved c m n
  together =
      ap (λ p. step_in p c (received (m ++ (0 ∷ (turn_text ++ (0 ∷ [])))))) waits
      ∙ swallowed c m (turn_text ++ (0 ∷ [])) solid
      ∙ take_response-moved c m n read

  -- The bug: a move and then TURN are two messages. For a client that waits, and a move that it
  -- understands and that neither wins the game for either side nor draws it: when `recv` returns
  -- the two messages one by one, the client then reads a move of its user; when one `recv` returns
  -- both, the client is as if TURN had not come, and it still waits.
  pub lost_turn :
      ((play c (received (m ++ (0 ∷ [])) ∷ received (turn_text ++ (0 ∷ [])) ∷ [])).phase ≡ typing)
      × (play c (received (m ++ (0 ∷ (turn_text ++ (0 ∷ [])))) ∷ [])
          ≡ play c (received (m ++ (0 ∷ [])) ∷ []))
      × ((play c (received (m ++ (0 ∷ (turn_text ++ (0 ∷ [])))) ∷ [])).phase ≡ waiting)
  unfolding play
  lost_turn = (
    ap (λ (d : ClientP2). (step_in d.phase d (received (turn_text ++ (0 ∷ [])))).phase) apart
        ∙ ap (λ p. (step_in p (moved c m n) (received (turn_text ++ (0 ∷ [])))).phase) open_game
        ∙ ap (λ (d : ClientP2). d.phase) (take_turn (moved c m n)),
    together ∙ sym apart,
    ap (λ (d : ClientP2). d.phase) together ∙ open_game,
  )
