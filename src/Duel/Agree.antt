-- ===== src/Duel/Agree.antt =====
-- What client and server have in common at each point of a game.
use cmput.Base.{
  ℕ, ◌-◌, ◌≤◌, ◌≡◌, refl, inl, inr, List, [], ◌∷◌, ◌++◌, Option, none, some, Bytes, length,
  Bool-cases, arith,
}
use cmput.Game.{TicTacToe, player_x, player_o, check_win, is_draw}
use cmput.Game.Win.{HasLine, check_win_iff}
use cmput.Game.Play.{IsFree, IsValid, marked}
use cmput.ServerP1
use cmput.ServerP1.Verdicts.{NoLines}
use cmput.ClientP1
use cmput.Duel.{Duel, mark_text}
use cmput.Duel.Lines.{HasLine-set_other}

-- A game that goes on, in which it is the turn of `p`.
pub record IsLive (t : TicTacToe) (p : ℕ) : Type 0 where
  pub valid : IsValid t
  pub open_lines : NoLines t
  pub turn : t.current_player ≡ p

-- The client's ending against the server's.
abbrev pub Opposite : ClientP1.Ending → ServerP1.Ending → Type 0
Opposite ClientP1.you_won e = e ≡ ServerP1.you_lost
Opposite ClientP1.you_lost e = e ≡ ServerP1.you_won
Opposite ClientP1.you_drew e = e ≡ ServerP1.you_drew
Opposite ClientP1.time_exceeded e = ⊥
Opposite ClientP1.server_gone e = ⊥

abbrev pub Related : Option ClientP1.Ending → Option ServerP1.Ending → Type 0
Related none none = Unit {0}
Related none (some f) = ⊥
Related (some e) none = ⊥
Related (some e) (some f) = Opposite e f

-- The phase of the server after its own move.
abbrev pub server_phase : Option ServerP1.Ending → ServerP1.Phase
server_phase none = ServerP1.client_turn
server_phase (some e) = ServerP1.ended e

-- Each side sees the same game, or one of them waits for a single message that holds the one move
-- by which the games differ; or both are over, with opposite endings on the same board.
pub data Agree (d : Duel) : Type 0 where
  user_x :
      d.client.phase ≡ ClientP1.typing
      → d.server.phase ≡ ServerP1.client_turn
      → d.server.game ≡ d.client.game
      → IsLive d.client.game player_x
      → d.heard_by_server ≡ length d.client.sent
      → d.heard_by_client ≡ length d.server.sent
      → Agree d
  to_server :
      (old : List Bytes) (n : ℕ)
      → n ≤ 9
      → d.client.phase
        ≡ ClientP1.phase_of (ClientP1.resolution (marked d.server.game n)) ClientP1.waiting
      → d.server.phase ≡ ServerP1.client_turn
      → d.client.game ≡ marked d.server.game n
      → IsLive d.server.game player_x
      → IsFree d.server.game n
      → d.client.sent ≡ old ++ (mark_text n ∷ [])
      → d.heard_by_server ≡ length old
      → d.heard_by_client ≡ length d.server.sent
      → Agree d
  user_o :
      d.client.phase ≡ ClientP1.waiting
      → d.server.phase ≡ ServerP1.server_turn
      → d.server.game ≡ d.client.game
      → IsLive d.client.game player_o
      → d.heard_by_server ≡ length d.client.sent
      → d.heard_by_client ≡ length d.server.sent
      → Agree d
  to_client :
      (old : List Bytes) (n : ℕ)
      → n ≤ 9
      → d.client.phase ≡ ClientP1.waiting
      → d.server.phase ≡ server_phase (ServerP1.resolution (marked d.client.game n))
      → d.server.game ≡ marked d.client.game n
      → IsLive d.client.game player_o
      → IsFree d.client.game n
      → d.server.sent ≡ old ++ ((mark_text n ++ (0 ∷ [])) ∷ [])
      → d.heard_by_client ≡ length old
      → d.heard_by_server ≡ length d.client.sent
      → Agree d
  over :
      (e : ClientP1.Ending) (f : ServerP1.Ending)
      → d.client.phase ≡ ClientP1.ended e
      → d.server.phase ≡ ServerP1.ended f
      → Opposite e f
      → d.server.game ≡ d.client.game
      → Agree d

-- The tests of the two sides, on a board on which not both players have a line.
resolution-Related :
    (t : TicTacToe)
    → ¬ (HasLine t.board player_x × HasLine t.board player_o)
    → Related (ClientP1.resolution t) (ServerP1.resolution t)
unfolding ClientP1.resolution ServerP1.resolution
resolution-Related t n = elim (Bool-cases (check_win t player_x)) [
  | inl x ↦ elim (Bool-cases (check_win t player_o)) [
    | inl o ↦ absurd (n ((check_win_iff t player_x).0 x, (check_win_iff t player_o).0 o))
    | inr o ↦ rw (x, o) refl
  ]
  | inr x ↦ elim (Bool-cases (check_win t player_o)) [
    | inl o ↦ rw (x, o) refl
    | inr o ↦ elim (Bool-cases (is_draw t)) [ inl d ↦ rw (x, o, d) refl | inr d ↦ rw (x, o, d) tt ]
  ]
]

pub marked_x-Related :
    (t : TicTacToe) (n : ℕ)
    → IsLive t player_x
    → Related (ClientP1.resolution (marked t n)) (ServerP1.resolution (marked t n))
marked_x-Related t n v = resolution-Related (marked t n) (λ (x, o).
    v.open_lines.0
      (HasLine-set_other t.board (n - 1) player_o t.current_player (omega (arith, v.turn)) o))

pub marked_o-Related :
    (t : TicTacToe) (n : ℕ)
    → IsLive t player_o
    → Related (ClientP1.resolution (marked t n)) (ServerP1.resolution (marked t n))
marked_o-Related t n v = resolution-Related (marked t n) (λ (x, o).
    v.open_lines.1
      (HasLine-set_other t.board (n - 1) player_x t.current_player (omega (arith, v.turn)) x))
