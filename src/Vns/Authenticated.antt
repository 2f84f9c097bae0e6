-- ===== src/Vns/Authenticated.antt =====
-- What a router that `sr_connect_to_server` has connected went through, whatever the server sent.
use cmput.Base.{
  ℕ, ◌≡◌, refl, sym, ap, ◌∙◌, inl, inr, Bool, true, false, not, [], ◌∷◌, ◌++◌, Option, some, none,
  Bytes, length, ltb, Bool-cases, if_true, if_false, arith,
}
use cmput.Router.{Router, done}
use cmput.Vns.{next_command, reply_of, vns_auth_request, vns_auth_status, vns_rtable}
use cmput.Vns.Stream.{Socket, message, read_message}
use cmput.Vns.Session.{handle_auth_status, RtableFile, handle_rtable, written, unopened, overrun}
use cmput.Vns.Connect.{
  Settings, Surroundings, Session, replied, stepped, handlers, auth_answer, auth_request_taken,
  auth_status_taken, rtable_taken, stored, after_handler, read_expect, open_topology,
  connect_to_server,
}
use cmput.Vns.Handshake.{
  command_of, handle_command-auth_request, handle_command-auth_status, handle_command-rtable,
}
use cmput.Vns.Opening.{opening}
use cmput.Vns.Inversion.{Took, or_fail-next_inv, read_expect-inv}

-- The first message on the socket was the server's request, which the router answered with the
-- digest; the second was the status, which accepted that; and then the router asked for its
-- topology. Its two messages are all that was sent, and the router's state is as it was.
pub record IsAuthenticated (w : Surroundings) (set : Settings) (k : Socket) (s s' : Session)
    : Type 0 where
  pub request : Bytes
  pub after_request : Socket
  pub reply : Bytes
  pub status : Bytes
  pub after_status : Socket
  pub read_request : read_message k ≡ message request after_request
  pub asks : command_of request ≡ vns_auth_request
  pub read_status : read_message after_request ≡ message status after_status
  pub tells : command_of status ≡ vns_auth_status
  pub answer : auth_answer w set request ≡ some reply
  pub reply_sent : w.sends reply ≡ true
  pub accepted : handle_auth_status status ≡ some true
  pub sent : s'.sent ≡ (s.sent ++ (reply ∷ [])) ++ (opening set ∷ [])
  pub router : s'.router ≡ s.router

reply_of-next :
    (b : Bool) (r r' : Router) → done (reply_of b) r ≡ done next_command r' → (b ≡ true) × (r' ≡ r)
reply_of-next true r r' e = (refl, cc e)
reply_of-next false r r' e = absurd (cc e)

module _ (w : Surroundings) (set : Settings) (fuel now : ℕ) where
  answered :
      (o : Option Bytes)
      → (elim o [ none ↦ false | some reply ↦ w.sends reply ]) ≡ true
      → (reply : Bytes) × (o ≡ some reply) × (w.sends reply ≡ true)
  answered none e = absurd (cc e)
  answered (some reply) e = (reply, refl, e)

  auth_request_taken-cases :
      (buf : Bytes)
      → auth_request_taken w set buf ≡ true
      → (reply : Bytes) × (auth_answer w set buf ≡ some reply) × (w.sends reply ≡ true)
  unfolding auth_request_taken
  auth_request_taken-cases buf e = answered (auth_answer w set buf) e

  accepts : (o : Option Bool) → (elim o [ none ↦ false | some ok ↦ ok ]) ≡ true → o ≡ some true
  accepts none e = absurd (cc e)
  accepts (some ok) e = ap some e

  auth_status_taken-cases :
      (buf : Bytes) → auth_status_taken w set buf ≡ true → handle_auth_status buf ≡ some true
  unfolding auth_status_taken
  auth_status_taken-cases buf e = accepts (handle_auth_status buf) e

  after_handler-auth_request :
      (buf reply : Bytes) (s : Session)
      → auth_answer w set buf ≡ some reply
      → after_handler w set vns_auth_request buf s ≡ record s { sent = s.sent ++ (reply ∷ []) }
  unfolding after_handler
  after_handler-auth_request buf reply s a = rw (a, after_handler) refl

  after_handler-auth_status :
      (buf : Bytes) (s : Session) → after_handler w set vns_auth_status buf s ≡ s
  unfolding after_handler
  after_handler-auth_status buf s = refl

  -- The routing table changes the files only.
  stored-same :
      (file : RtableFile) (s : Session)
      → ((stored file s).sent ≡ s.sent) × ((stored file s).router ≡ s.router)
  unfolding stored
  stored-same (written name text) s = (refl, refl)
  stored-same unopened s = (refl, refl)
  stored-same overrun s = (refl, refl)

  after_handler-rtable :
      (buf : Bytes) (s : Session)
      → after_handler w set vns_rtable buf s ≡ stored (handle_rtable w.opens buf) s
  unfolding after_handler
  after_handler-rtable buf s = refl

  module _ (buf : Bytes) (s s' : Session) where
    Took-auth_request :
        Took w set fuel now vns_auth_request buf s s'
        → (reply : Bytes) × (auth_answer w set buf ≡ some reply)
          × (w.sends reply ≡ true)
          × (s' ≡ record s { sent = s.sent ++ (reply ∷ []) })
    Took-auth_request v =
        let (t, same) = reply_of-next (auth_request_taken w set buf) s.router v.router (
          sym (
            handle_command-auth_request (handlers w set) w.fresh fuel now buf s.router
              (ground (arith, v.long)) v.command)
          ∙ v.handled) in
        let (reply, a, sends) = auth_request_taken-cases buf t in
        (
          reply,
          a,
          sends,
          v.after
              ∙ ap
                  (λ (r : Router). record (after_handler w set vns_auth_request buf s) {
                    router = r;
                  })
                  same
              ∙ ap (λ (t : Session). record t { router = s.router })
                  (after_handler-auth_request buf reply s a),
        )

    Took-auth_status :
        Took w set fuel now vns_auth_status buf s s'
        → (handle_auth_status buf ≡ some true) × (s' ≡ s)
    Took-auth_status v =
        let (t, same) = reply_of-next (auth_status_taken w set buf) s.router v.router (
          sym (
            handle_command-auth_status (handlers w set) w.fresh fuel now buf s.router
              (ground (arith, v.long)) v.command)
          ∙ v.handled) in
        (
          auth_status_taken-cases buf t,
          v.after
              ∙ ap
                  (λ (r : Router). record (after_handler w set vns_auth_status buf s) {
                    router = r;
                  })
                  same
              ∙ ap (λ (t : Session). record t { router = s.router })
                  (after_handler-auth_status buf s),
        )

    Took-rtable :
        Took w set fuel now vns_rtable buf s s' → (s'.sent ≡ s.sent) × (s'.router ≡ s.router)
    Took-rtable v =
        let (t, same) = reply_of-next (rtable_taken w set buf) s.router v.router (
          sym (
            handle_command-rtable (handlers w set) w.fresh fuel now buf s.router
              (ground (arith, v.long)) v.command)
          ∙ v.handled) in
        let (a, b) = stored-same (handle_rtable w.opens buf) s in
        (
          ap (λ t. t.sent) v.after ∙ ap (λ t. t.sent) (after_handler-rtable buf s) ∙ a,
          ap (λ t. t.router) v.after ∙ same,
        )

  -- The end of `sr_connect_to_server`.
  open_topology-inv :
      (k k' : Socket) (s s' : Session)
      → open_topology w set fuel now k s ≡ stepped (replied next_command s') k'
      → (s'.sent ≡ s.sent ++ (opening set ∷ [])) × (s'.router ≡ s.router)
  unfolding open_topology
  open_topology-inv k k' s s' e =
      let s1 : Session = record s { sent = s.sent ++ (opening set ∷ []) } in
      elim (Bool-cases (not (w.sends (opening set)))) [
        | inl f ↦ absurd (let g = sym (if_true (not (w.sends (opening set))) _ _ f) ∙ e in cc g)
        | inr f ↦
            let g = sym (if_false (not (w.sends (opening set))) _ _ f) ∙ e in
            elim (Bool-cases (ltb 0 (length set.template))) [
              | inr t ↦
                  let h = sym (if_false (ltb 0 (length set.template)) _ _ t) ∙ g in
                  let q : s1 ≡ s' = cc h in (sym (ap (λ t. t.sent) q), sym (ap (λ t. t.router) q))
              | inl t ↦
                  let h = sym (if_true (ltb 0 (length set.template)) _ _ t) ∙ g in
                  let (s2, k2, a, b) =
                    or_fail-next_inv w set (read_expect w set fuel now vns_rtable k s1) _ s' k' h in
                  let (buf, read, took) =
                    read_expect-inv w set fuel now vns_rtable k s1 s2 k2 (omega arith) a in
                  let (c, d) = Took-rtable buf s1 s2 took in
                  let q : s2 ≡ s' = cc b in
                  (sym (ap (λ t. t.sent) q) ∙ c, sym (ap (λ t. t.router) q) ∙ d)
            ]
      ]

  -- Whatever the server sends: if `sr_connect_to_server` returns 0, the router is authenticated.
  pub connect_to_server-IsAuthenticated :
      (k k' : Socket) (s s' : Session)
      → connect_to_server w set fuel now k s ≡ stepped (replied next_command s') k'
      → IsAuthenticated w set k s s'
  unfolding connect_to_server
  connect_to_server-IsAuthenticated k k' s s' e = elim (Bool-cases w.connects) [
    | inr f ↦ absurd (let g = sym (if_false w.connects _ _ f) ∙ e in cc g)
    | inl f ↦
        let g = sym (if_true w.connects _ _ f) ∙ e in
        let (s1, k1, a, b) = or_fail-next_inv w set _ _ s' k' g in
        let (s2, k2, c, d) = or_fail-next_inv w set _ _ s' k' b in
        let (request, read, took) =
          read_expect-inv w set fuel now vns_auth_request k s s1 k1 (omega arith) a in
        let (status, read2, took2) =
          read_expect-inv w set fuel now vns_auth_status k1 s1 s2 k2 (omega arith) c in
        let (reply, x, y, z) = Took-auth_request request s s1 took in
        let (ok, same) = Took-auth_status status s1 s2 took2 in
        let (sent, router) = open_topology-inv k2 k' s2 s' d in
        record {
          request = request;
          after_request = k1;
          reply = reply;
          status = status;
          after_status = k2;
          read_request = read;
          asks = took.command;
          read_status = read2;
          tells = took2.command;
          answer = x;
          reply_sent = y;
          accepted = ok;
          sent = sent ∙ ap (λ t. t.sent ++ (opening set ∷ [])) (same ∙ z);
          router = router ∙ ap (λ t. t.router) (same ∙ z);
        }
  ]
