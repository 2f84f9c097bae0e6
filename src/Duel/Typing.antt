-- ===== src/Duel/Typing.antt =====
-- MARK commands that a user types, and the agreement of the two sides.
use cmput.Base.{ℕ, ◌≤◌, ◌≡◌, refl, sym, ◌∙◌, ap, subst, inl, inr, [], ◌∷◌, ◌++◌, none, some}
use cmput.Game.Play.{marked, make_move_cases}
use cmput.ServerP1
use cmput.ClientP1
use cmput.Duel.{Duel, mark_text, step, client_types, server_types}
use cmput.Duel.Agree.{Agree, user_x, to_server, user_o, to_client, over}
use cmput.Duel.Moves.{
  input_parser-mark, input_parser_refused, run_server_move-mark, run_server_move_refused,
}
use cmput.Duel.Ignored.{client_types_ignored, server_types_ignored}

pub kept : {d e : Duel} → e ≡ d → Agree d → Agree e
kept p = subst Agree (sym p)

typed :
    (d : Duel) (n : ℕ) {c : ClientP1.ClientP1}
    → d.client.phase ≡ ClientP1.typing
    → ClientP1.input_parser d.client (mark_text n ++ (10 ∷ [])) ≡ c
    → Agree (record d { client = c })
    → Agree (step d (client_types n))
unfolding step ClientP1.step_in
typed d n a m =
    subst (λ c. Agree (record d { client = c }))
      (sym (ap (λ p. ClientP1.step_in p d.client (ClientP1.line (mark_text n ++ (10 ∷ [])))) a ∙ m))

pub client_types-Agree : (d : Duel) (n : ℕ) → n ≤ 9 → Agree d → Agree (step d (client_types n))
client_types-Agree d n l (user_x a b g v i j) = elim (make_move_cases d.client.game n) [
  | inl (f, m) ↦
      typed d n a (input_parser-mark d.client n l f)
        (to_server d.client.sent n l (rw g refl) b (rw g refl) (rw g v) (rw g f) refl i j)
  | inr (f, m) ↦ typed d n a (input_parser_refused d.client n l f) (user_x a b g v i j)
]
client_types-Agree d n l (to_server old m h a b g v f s i j) =
    kept (client_types_ignored d n (ClientP1.resolution (marked d.server.game m)) a)
      (to_server old m h a b g v f s i j)
client_types-Agree d n l (user_o a b g v i j) =
    kept (client_types_ignored d n none a) (user_o a b g v i j)
client_types-Agree d n l (to_client old m h a b g v f s i j) =
    kept (client_types_ignored d n none a) (to_client old m h a b g v f s i j)
client_types-Agree d n l (over e f a b o g) =
    kept (client_types_ignored d n (some e) a) (over e f a b o g)

server_typed :
    (d : Duel) (n : ℕ) {s : ServerP1.ServerP1}
    → d.server.phase ≡ ServerP1.server_turn
    → ServerP1.run_server_move d.server (mark_text n ++ (10 ∷ [])) ≡ s
    → Agree (record d { server = s })
    → Agree (step d (server_types n))
unfolding step ServerP1.step_in
server_typed d n a m =
    subst (λ s. Agree (record d { server = s }))
      (sym (ap (λ p. ServerP1.step_in p d.server (ServerP1.line (mark_text n ++ (10 ∷ [])))) a ∙ m))

pub server_types-Agree : (d : Duel) (n : ℕ) → n ≤ 9 → Agree d → Agree (step d (server_types n))
server_types-Agree d n l (user_x a b g v i j) =
    kept (server_types_ignored d n none b) (user_x a b g v i j)
server_types-Agree d n l (to_server old m h a b g v f s i j) =
    kept (server_types_ignored d n none b) (to_server old m h a b g v f s i j)
server_types-Agree d n l (user_o a b g v i j) = elim (make_move_cases d.server.game n) [
  | inl (f, m) ↦
      server_typed d n b (run_server_move-mark d.server n l f)
        (to_client d.server.sent n l a (rw g refl) (rw g refl) v (rw (sym g) f) refl j i)
  | inr (f, m) ↦ server_typed d n b (run_server_move_refused d.server n l f) (user_o a b g v i j)
]
server_types-Agree d n l (to_client old m h a b g v f s i j) =
    kept (server_types_ignored d n (ServerP1.resolution (marked d.client.game m)) b)
      (to_client old m h a b g v f s i j)
server_types-Agree d n l (over e f a b o g) =
    kept (server_types_ignored d n (some f) b) (over e f a b o g)
