-- ===== src/Duel/Steps.antt =====
-- The agreement of the two sides through a whole game.
use cmput.Base.{◌≤◌, refl, List, [], ◌∷◌, All}
use cmput.Duel.{
  Duel, Event, run, started, step, client_types, server_types, server_hears, client_hears,
}
use cmput.Duel.Agree.{Agree, user_x}
use cmput.Game.{ttt_new}
use cmput.Game.Play.{ttt_new-IsValid}
use cmput.ClientP1.Verdicts.{started-IsSession}
use cmput.Duel.Typing.{client_types-Agree, server_types-Agree}
use cmput.Duel.Hearing.{server_hears-Agree, client_hears-Agree}

-- The number that a typed MARK command names is one digit.
abbrev pub IsDigit : Event → Type 0
IsDigit (client_types n) = n ≤ 9
IsDigit (server_types n) = n ≤ 9
IsDigit server_hears = Unit {0}
IsDigit client_hears = Unit {0}

step-Agree : (d : Duel) (e : Event) → IsDigit e → Agree d → Agree (step d e)
step-Agree d (client_types n) l = client_types-Agree d n l
step-Agree d (server_types n) l = server_types-Agree d n l
step-Agree d server_hears l = server_hears-Agree d
step-Agree d client_hears l = client_hears-Agree d

started-Agree : Agree started
unfolding ttt_new
started-Agree =
    user_x refl refl refl
      (record { valid = ttt_new-IsValid; open_lines = started-IsSession.fair; turn = refl }) refl
      refl

steps-Agree : (d : Duel) (es : List Event) → All IsDigit es → Agree d → Agree (run d es)
unfolding run
steps-Agree d [] l a = a
steps-Agree d (e ∷ es) l a = steps-Agree (step d e) es l.1 (step-Agree d e l.0 a)

-- Client and server play one game: after any typed MARK commands with a digit and any deliveries,
-- in any order, both sides have the same game and one waits for its user, or the games differ in
-- one move whose message is the only one on the way, or both are over on the same board, one won
-- where the other lost or both drew.
pub run-Agree : (es : List Event) → All IsDigit es → Agree (run started es)
run-Agree es l = steps-Agree started es l started-Agree
