-- ===== src/Duel/Ignored.antt =====
-- Events that change nothing: a line that no one reads, and messages that are not there or that no
-- one waits for.
use cmput.Base.{
  ℕ, ◌≡◌, refl, ◌∙◌, ap, List, [], ◌∷◌, ◌++◌, Option, none, some, Bytes, length, get_elem?,
}
use cmput.ServerP1
use cmput.ClientP1
use cmput.Duel.{
  Duel, mark_text, hear_server, hear_client, step, client_types, server_types, server_hears,
  client_hears,
}
use cmput.Duel.Agree.{server_phase}

get_elem?-length : (xs : List Bytes) → get_elem? xs (length xs) ≡ none
get_elem?-length [] = refl
get_elem?-length (x ∷ xs) = get_elem?-length xs

pub get_elem?-append :
    (xs : List Bytes) (m : Bytes) → get_elem? (xs ++ (m ∷ [])) (length xs) ≡ some m
get_elem?-append [] m = refl
get_elem?-append (x ∷ xs) m = get_elem?-append xs m

client_line :
    (o : Option ClientP1.Ending) (c : ClientP1.ClientP1) (l : Bytes)
    → ClientP1.step_in (ClientP1.phase_of o ClientP1.waiting) c (ClientP1.line l) ≡ c
unfolding ClientP1.step_in
client_line none c l = refl
client_line (some e) c l = refl

pub client_types_ignored :
    (d : Duel) (n : ℕ) (o : Option ClientP1.Ending)
    → d.client.phase ≡ ClientP1.phase_of o ClientP1.waiting
    → step d (client_types n) ≡ d
unfolding step
client_types_ignored d n o e =
    ap (λ c. record d { client = c })
      (ap (λ p. ClientP1.step_in p d.client (ClientP1.line (mark_text n ++ (10 ∷ [])))) e
        ∙ client_line o d.client _)

server_line :
    (o : Option ServerP1.Ending) (s : ServerP1.ServerP1) (l : Bytes)
    → ServerP1.step_in (server_phase o) s (ServerP1.line l) ≡ s
unfolding ServerP1.step_in
server_line none s l = refl
server_line (some e) s l = refl

pub server_types_ignored :
    (d : Duel) (n : ℕ) (o : Option ServerP1.Ending)
    → d.server.phase ≡ server_phase o
    → step d (server_types n) ≡ d
unfolding step
server_types_ignored d n o e =
    ap (λ s. record d { server = s })
      (ap (λ p. ServerP1.step_in p d.server (ServerP1.line (mark_text n ++ (10 ∷ [])))) e
        ∙ server_line o d.server _)

hear_server-none : (p : ServerP1.Phase) (d : Duel) → hear_server p d none ≡ d
unfolding hear_server
hear_server-none ServerP1.client_turn d = refl
hear_server-none ServerP1.server_turn d = refl
hear_server-none (ServerP1.ended e) d = refl

pub server_hears_nothing :
    (d : Duel) → d.heard_by_server ≡ length d.client.sent → step d server_hears ≡ d
unfolding step
server_hears_nothing d e =
    ap (hear_server d.server.phase d)
      (ap (get_elem? d.client.sent) e ∙ get_elem?-length d.client.sent)
    ∙ hear_server-none d.server.phase d

pub server_hears_ended :
    (d : Duel) (f : ServerP1.Ending) → d.server.phase ≡ ServerP1.ended f → step d server_hears ≡ d
unfolding step hear_server
server_hears_ended d f e = ap (λ p. hear_server p d (get_elem? d.client.sent d.heard_by_server)) e

hear_client-none : (p : ClientP1.Phase) (d : Duel) → hear_client p d none ≡ d
unfolding hear_client
hear_client-none ClientP1.waiting d = refl
hear_client-none ClientP1.typing d = refl
hear_client-none (ClientP1.ended e) d = refl

pub client_hears_nothing :
    (d : Duel) → d.heard_by_client ≡ length d.server.sent → step d client_hears ≡ d
unfolding step
client_hears_nothing d e =
    ap (hear_client d.client.phase d)
      (ap (get_elem? d.server.sent) e ∙ get_elem?-length d.server.sent)
    ∙ hear_client-none d.client.phase d

pub client_hears_ended :
    (d : Duel) (f : ClientP1.Ending) → d.client.phase ≡ ClientP1.ended f → step d client_hears ≡ d
unfolding step hear_client
client_hears_ended d f e = ap (λ p. hear_client p d (get_elem? d.server.sent d.heard_by_client)) e
