-- ===== src/Duel.antt =====
-- The client and the server of the one game, client-p1.c and server-p1.c of assignment-1/c/src,
-- joined by a connection that delivers each message whole and in order.
pub mod Reads
pub mod Lines
pub mod Agree
pub mod Moves
pub mod Ignored
pub mod Typing
pub mod Hearing
pub mod Steps
use cmput.Base.{ℕ, ◌+◌, List, [], ◌∷◌, ◌++◌, Option, none, some, Bytes, length, get_elem?}
use cmput.Text.{mark_word}
use cmput.ServerP1
use cmput.ServerP1.{ServerP1}
use cmput.ServerP1.Verdicts
use cmput.ClientP1
use cmput.ClientP1.{ClientP1}

-- `heard_by_server` counts the messages of `client.sent` that the server has received, and the
-- other way round.
pub record Duel : Type 0 where
  pub client : ClientP1
  pub server : ServerP1
  pub heard_by_server : ℕ
  pub heard_by_client : ℕ

-- "MARK " and a digit.
abbrev pub mark_text : ℕ → Bytes
mark_text d = mark_word ++ (32 ∷ (48 + d) ∷ [])

-- The user of one side types a MARK command, or one side receives the next message.
pub data Event : Type 0 where
  client_types server_types : ℕ → Event
  server_hears client_hears : Event

-- The server takes its next message if it waits for one.
unfoldable pub hear_server : ServerP1.Phase → Duel → Option Bytes → Duel
hear_server ServerP1.client_turn d (some m) = record d {
  server = ServerP1.step_in ServerP1.client_turn d.server (ServerP1.received m);
  heard_by_server = d.heard_by_server + 1;
}
hear_server ServerP1.client_turn d none = d
hear_server ServerP1.server_turn d m = d
hear_server (ServerP1.ended e) d m = d

unfoldable pub hear_client : ClientP1.Phase → Duel → Option Bytes → Duel
hear_client ClientP1.waiting d (some m) = record d {
  client = ClientP1.step_in ClientP1.waiting d.client (ClientP1.received m);
  heard_by_client = d.heard_by_client + 1;
}
hear_client ClientP1.waiting d none = d
hear_client ClientP1.typing d m = d
hear_client (ClientP1.ended e) d m = d

unfoldable pub step : Duel → Event → Duel
step d (client_types n) = record d {
  client = ClientP1.step_in d.client.phase d.client (ClientP1.line (mark_text n ++ (10 ∷ [])));
}
step d (server_types n) = record d {
  server = ServerP1.step_in d.server.phase d.server (ServerP1.line (mark_text n ++ (10 ∷ [])));
}
step d server_hears = hear_server d.server.phase d (get_elem? d.client.sent d.heard_by_server)
step d client_hears = hear_client d.client.phase d (get_elem? d.server.sent d.heard_by_client)

unfoldable pub run : Duel → List Event → Duel
run d [] = d
run d (e ∷ es) = run (step d e) es

-- Both sides as their `main` starts them.
abbrev pub started : Duel
started = record {
  client = ClientP1.started;
  server = ServerP1.Verdicts.started;
  heard_by_server = 0;
  heard_by_client = 0;
}
