-- ===== src/Duel/Hearing.antt =====
-- Messages that are delivered, and the agreement of the two sides.
use cmput.Base.{
  ℕ, ◌+◌, ◌≤◌, ◌≡◌, refl, sym, ◌∙◌, ap, subst, List, [], ◌∷◌, ◌++◌, Option, none, some, Bytes,
  length, get_elem?, length-append,
}
use cmput.Text.{mark_word}
use cmput.Game.{player_x, player_o}
use cmput.Game.Play.{marked}
use cmput.ServerP1
use cmput.ClientP1
use cmput.Duel.{Duel, mark_text, hear_server, hear_client, step, server_hears, client_hears}
use cmput.Duel.Agree.{
  Agree, user_x, to_server, user_o, to_client, over, Related, IsLive, server_phase,
  marked_x-Related, marked_o-Related,
}
use cmput.Duel.Moves.{receive_response-mark, run_client_move-mark, marked_x-IsLive, marked_o-IsLive}
use cmput.Duel.Ignored.{
  get_elem?-append, server_hears_nothing, server_hears_ended, client_hears_nothing,
  client_hears_ended,
}
use cmput.Duel.Typing.{kept}

-- The server hears the move of the client.
server_heard :
    (d : Duel) (old : List Bytes) (n : ℕ) (o : Option ClientP1.Ending) (r : Option ServerP1.Ending)
    → Related o r
    → ServerP1.resolution (marked d.server.game n) ≡ r
    → n ≤ 9
    → d.client.phase ≡ ClientP1.phase_of o ClientP1.waiting
    → d.client.game ≡ marked d.server.game n
    → (o ≡ none → IsLive d.client.game player_o)
    → d.heard_by_server + 1 ≡ length d.client.sent
    → d.heard_by_client ≡ length d.server.sent
    → Agree (record d {
      server = ServerP1.end_client_move d.server mark_word (marked d.server.game n) r;
      heard_by_server = d.heard_by_server + 1;
    })
unfolding ServerP1.end_client_move
server_heard d old n none none q e l a g v i j = user_o a refl (sym g) (v refl) i j
server_heard d old n none (some r) q e l a g v i j = absurd q
server_heard d old n (some o) none q e l a g v i j = absurd q
server_heard d old n (some o) (some r) q e l a g v i j = over o r a refl q (sym g)

-- The client hears the move of the server.
client_heard :
    (d : Duel) (b : Bytes) (n : ℕ) (o : Option ClientP1.Ending) (r : Option ServerP1.Ending)
    → Related o r
    → ClientP1.resolution (marked d.client.game n) ≡ o
    → d.server.phase ≡ server_phase r
    → d.server.game ≡ marked d.client.game n
    → (o ≡ none → IsLive d.server.game player_x)
    → d.heard_by_client + 1 ≡ length d.server.sent
    → d.heard_by_server ≡ length d.client.sent
    → Agree (record d {
      client = ClientP1.after_response d.client b (marked d.client.game n) o;
      heard_by_client = d.heard_by_client + 1;
    })
unfolding ClientP1.after_response
client_heard d b n none none q e a g v i j = user_x refl a g (rw (sym g) (v refl)) j i
client_heard d b n none (some r) q e a g v i j = absurd q
client_heard d b n (some o) none q e a g v i j = absurd q
client_heard d b n (some o) (some r) q e a g v i j = over o r refl a q g

counted :
    {h : ℕ} (old : List Bytes) {xs : List Bytes} (m : Bytes)
    → xs ≡ old ++ (m ∷ [])
    → h ≡ length old
    → h + 1 ≡ length xs
counted old m e l = rw (e, length-append old (m ∷ []), l) refl

found :
    {h : ℕ} (old : List Bytes) {xs : List Bytes} (m : Bytes)
    → xs ≡ old ++ (m ∷ [])
    → h ≡ length old
    → get_elem? xs h ≡ some m
found old m e l = rw (e, l) (get_elem?-append old m)

taken_by_server :
    (d : Duel) (m : Bytes) {s : ServerP1.ServerP1}
    → d.server.phase ≡ ServerP1.client_turn
    → get_elem? d.client.sent d.heard_by_server ≡ some m
    → ServerP1.step_in ServerP1.client_turn d.server (ServerP1.received m) ≡ s
    → Agree (record d { server = s; heard_by_server = d.heard_by_server + 1 })
    → Agree (step d server_hears)
unfolding step hear_server
taken_by_server d m a f e = subst Agree (
    sym (
      ap (λ p. hear_server p d (get_elem? d.client.sent d.heard_by_server)) a
      ∙ ap (hear_server ServerP1.client_turn d) f
      ∙ ap (λ s. record d { server = s; heard_by_server = d.heard_by_server + 1 }) e))

taken_by_client :
    (d : Duel) (m : Bytes) {c : ClientP1.ClientP1}
    → d.client.phase ≡ ClientP1.waiting
    → get_elem? d.server.sent d.heard_by_client ≡ some m
    → ClientP1.step_in ClientP1.waiting d.client (ClientP1.received m) ≡ c
    → Agree (record d { client = c; heard_by_client = d.heard_by_client + 1 })
    → Agree (step d client_hears)
unfolding step hear_client
taken_by_client d m a f e = subst Agree (
    sym (
      ap (λ p. hear_client p d (get_elem? d.server.sent d.heard_by_client)) a
      ∙ ap (hear_client ClientP1.waiting d) f
      ∙ ap (λ c. record d { client = c; heard_by_client = d.heard_by_client + 1 }) e))

pub server_hears-Agree : (d : Duel) → Agree d → Agree (step d server_hears)
server_hears-Agree d (user_x a b g v i j) = kept (server_hears_nothing d i) (user_x a b g v i j)
server_hears-Agree d (to_server old m h a b g v f s i j) =
    taken_by_server d (mark_text m) b (found old (mark_text m) s i)
      (run_client_move-mark d.server m h f)
      (server_heard d old m (ClientP1.resolution (marked d.server.game m))
        (ServerP1.resolution (marked d.server.game m)) (marked_x-Related d.server.game m v) refl h a
        g (λ e. rw g (marked_x-IsLive d.server.game m f e v)) (counted old (mark_text m) s i) j)
server_hears-Agree d (user_o a b g v i j) = kept (server_hears_nothing d i) (user_o a b g v i j)
server_hears-Agree d (to_client old m h a b g v f s i j) =
    kept (server_hears_nothing d j) (to_client old m h a b g v f s i j)
server_hears-Agree d (over e f a b o g) = kept (server_hears_ended d f b) (over e f a b o g)

pub client_hears-Agree : (d : Duel) → Agree d → Agree (step d client_hears)
client_hears-Agree d (user_x a b g v i j) = kept (client_hears_nothing d j) (user_x a b g v i j)
client_hears-Agree d (to_server old m h a b g v f s i j) =
    kept (client_hears_nothing d j) (to_server old m h a b g v f s i j)
client_hears-Agree d (user_o a b g v i j) = kept (client_hears_nothing d j) (user_o a b g v i j)
client_hears-Agree d (to_client old m h a b g v f s i j) =
    taken_by_client d (mark_text m ++ (0 ∷ [])) a (found old (mark_text m ++ (0 ∷ [])) s i)
      (receive_response-mark d.client m h f)
      (client_heard d (mark_text m) m (ClientP1.resolution (marked d.client.game m))
        (ServerP1.resolution (marked d.client.game m)) (marked_o-Related d.client.game m v) refl b g
        (λ e. rw g (marked_o-IsLive d.client.game m f e v))
        (counted old (mark_text m ++ (0 ∷ [])) s i) j)
client_hears-Agree d (over e f a b o g) = kept (client_hears_ended d e a) (over e f a b o g)
