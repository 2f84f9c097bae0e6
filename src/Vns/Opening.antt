-- ===== src/Vns/Opening.antt =====
-- `sr_connect_to_server` with a server that keeps to the protocol.
use cmput.Base.{
  ℕ, ◌+◌, ◌≤◌, ◌≡◌, ap, ◌∙◌, true, List, [], ◌∷◌, ◌++◌, All, some, Bytes, length, ltb, arith, not,
  if_true, if_false,
}
use cmput.Vns.{next_command, vns_auth_request, vns_auth_status, vns_rtable}
use cmput.Vns.Stream.{Call, Socket}
use cmput.Vns.Framing.{IsNoFailure, progress}
use cmput.Vns.Session.{handle_auth_status, handle_rtable, written, open_session}
use cmput.Vns.Connect.{
  Settings, Surroundings, Session, replied, Progress, stepped, auth_answer, read_expect, or_fail,
  open_topology, connect_to_server,
}
use cmput.Vns.Loop.{framed, IsBody, stream, total, read_expect-framed}
use cmput.Vns.Handshake.{
  command_of, run_command-auth_request, run_command-auth_status, run_command-rtable,
}

-- The message that asks for the topology.
abbrev pub opening : Settings → Bytes
opening set = open_session set.template set.topo_id set.host set.user

-- The server asks for authentication, accepts the answer and sends the routing table, which can be
-- written; each message has its length in front and a body that the router takes. The router has a
-- template, can answer and can send.
pub record IsWelcome (w : Surroundings) (set : Settings)
    (request status table reply name text : Bytes) : Type 0 where
  pub connects : w.connects ≡ true
  pub template : 1 ≤ length set.template
  pub request_body : IsBody request
  pub status_body : IsBody status
  pub table_body : IsBody table
  pub asks : command_of (framed request) ≡ vns_auth_request
  pub judges : command_of (framed status) ≡ vns_auth_status
  pub routes : command_of (framed table) ≡ vns_rtable
  pub answer : auth_answer w set (framed request) ≡ some reply
  pub accepted : handle_auth_status (framed status) ≡ some true
  pub stored : handle_rtable w.opens (framed table) ≡ written name text
  pub reply_sent : w.sends reply ≡ true
  pub opening_sent : w.sends (opening set) ≡ true

-- The session afterwards.
abbrev pub opened : Settings → Bytes → Bytes → Bytes → Session → Session
opened set reply name text s = record s {
  sent = (s.sent ++ (reply ∷ [])) ++ (opening set ∷ []);
  files = s.files ++ ((name, text) ∷ []);
}

module _ (w : Surroundings) (set : Settings) (fuel now : ℕ) where
  pub or_fail-next :
      (p : Progress) (s : Session) (k : Socket) (f : Socket → Session → Progress)
      → p ≡ stepped (replied next_command s) k
      → or_fail w set p f ≡ f k s
  unfolding or_fail
  or_fail-next p s k f e = ap (λ q. or_fail w set q f) e

  connect_to_server-found :
      (k : Socket) (s : Session)
      → w.connects ≡ true
      → connect_to_server w set fuel now k s
        ≡ or_fail w set (read_expect w set fuel now vns_auth_request k s) (λ k s.
          or_fail w set
            (read_expect w set fuel now vns_auth_status k s)
            (open_topology w set fuel now))
  unfolding connect_to_server
  connect_to_server-found k s e = if_true w.connects _ _ e

  open_topology-template :
      (k : Socket) (s : Session)
      → w.sends (opening set) ≡ true
      → ltb 0 (length set.template) ≡ true
      → let s' = record s { sent = s.sent ++ (opening set ∷ []) } in
        open_topology w set fuel now k s
        ≡ or_fail w set
            (read_expect w set fuel now vns_rtable k s')
            (λ k s. stepped (replied next_command s) k)
  unfolding open_topology
  open_topology-template k s e f =
      if_false (not (w.sends (opening set))) _ _ (ap not e)
      ∙ if_true (ltb 0 (length set.template)) _ _ f

  pub connect_to_server_opens :
      (request status table reply name text rest : Bytes) (calls : List Call) (s : Session)
      → IsWelcome w set request status table reply name text
      → All IsNoFailure calls
      → total (request ∷ status ∷ table ∷ []) ≤ progress calls
      → (left : List Call) × (connect_to_server w set fuel now
            (record { pending = stream (request ∷ status ∷ table ∷ []) rest; calls = calls })
            s
          ≡ stepped
              (replied next_command (opened set reply name text s))
              (record { pending = rest; calls = left }))
        × All IsNoFailure left
        × (progress calls ≤ progress left + total (request ∷ status ∷ table ∷ []))
  connect_to_server_opens request status table reply name text rest calls s v clean h =
      let s1 : Session = record s { sent = s.sent ++ (reply ∷ []) } in
      let s2 : Session = record s1 { sent = s1.sent ++ (opening set ∷ []) } in
      let (c1, e1, v1, m1) =
        read_expect-framed w set fuel now vns_auth_request request
          (stream (status ∷ table ∷ []) rest) calls s v.request_body clean (omega (arith, h)) in
      let (c2, e2, v2, m2) =
        read_expect-framed w set fuel now vns_auth_status status (stream (table ∷ []) rest) c1 s1
          v.status_body v1 (omega (arith, h, m1)) in
      let (c3, e3, v3, m3) =
        read_expect-framed w set fuel now vns_rtable table rest c2 s2 v.table_body v2
          (omega (arith, h, m1, m2)) in
      let k1 : Socket = record { pending = stream (status ∷ table ∷ []) rest; calls = c1 } in
      let k2 : Socket = record { pending = stream (table ∷ []) rest; calls = c2 } in
      let k3 : Socket = record { pending = rest; calls = c3 } in
      (
        c3,
        connect_to_server-found _ s v.connects
            ∙ or_fail-next _ s1 k1 _ (
                e1
                ∙ ap (λ t. stepped t k1)
                    (run_command-auth_request w set fuel now request reply s v.request_body v.asks
                      v.answer v.reply_sent))
            ∙ or_fail-next _ s1 k2 _ (
                e2
                ∙ ap (λ t. stepped t k2)
                    (run_command-auth_status w set fuel now status s1 v.status_body v.judges
                      v.accepted))
            ∙ open_topology-template k2 s1 v.opening_sent (ground (arith, v.template))
            ∙ or_fail-next _ (opened set reply name text s) k3 _ (
                e3
                ∙ ap (λ t. stepped t k3)
                    (run_command-rtable w set fuel now table name text s2 v.table_body v.routes
                      v.stored)),
        v3,
        omega (arith, m1, m2, m3),
      )
