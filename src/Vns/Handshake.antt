-- ===== src/Vns/Handshake.antt =====
-- How `sr_connect_to_server` gets a topology from the server.
use cmput.Base.{
  ℕ, ◌≤◌, ◌≡◌, refl, true, [], ◌∷◌, ◌++◌, some, Bytes, slice, le32, htonl, length, leb, arith,
}
use cmput.Router.{Router, done, ◌>>=◌, monad}
use cmput.Iface.{Iface}
use cmput.Vns.{
  Handlers, reply_of, next_command, handle_command, vns_auth_request, vns_auth_status, vns_rtable,
}
use cmput.Vns.Session.{handle_auth_status, handle_rtable, written}
use cmput.Vns.Connect.{
  Settings, Surroundings, Session, replied, handlers, auth_answer, auth_request_taken,
  auth_status_taken, rtable_taken, overruns, stored, after_handler, put_router, run_command,
}
use cmput.Vns.Loop.{framed, IsBody}

abbrev pub command_of : Bytes → ℕ
command_of buf = htonl (le32 (slice buf 4 4))

-- The three commands that `sr_connect_to_server` waits for.
module _ (hs : Handlers) (fresh : ℕ → Iface) (fuel now : ℕ) (buf : Bytes) (r : Router)
    (h : 8 ≤ length buf) where
  pub handle_command-auth_request :
      command_of buf ≡ vns_auth_request
      → handle_command hs fresh fuel now vns_auth_request buf r
        ≡ done (reply_of (hs.auth_request buf)) r
  unfolding handle_command monad
  handle_command-auth_request c =
      let long : leb 8 (length buf) ≡ true = ground arith in rw (long, c, ◌>>=◌) refl

  pub handle_command-auth_status :
      command_of buf ≡ vns_auth_status
      → handle_command hs fresh fuel now vns_auth_status buf r
        ≡ done (reply_of (hs.auth_status buf)) r
  unfolding handle_command monad
  handle_command-auth_status c =
      let long : leb 8 (length buf) ≡ true = ground arith in rw (long, c, ◌>>=◌) refl

  pub handle_command-rtable :
      command_of buf ≡ vns_rtable
      → handle_command hs fresh fuel now vns_rtable buf r ≡ done (reply_of (hs.rtable buf)) r
  unfolding handle_command monad
  handle_command-rtable c =
      let long : leb 8 (length buf) ≡ true = ground arith in rw (long, c, ◌>>=◌) refl

module _ (w : Surroundings) (set : Settings) (fuel now : ℕ) where
  auth_request_taken-sends :
      (buf reply : Bytes)
      → auth_answer w set buf ≡ some reply
      → w.sends reply ≡ true
      → auth_request_taken w set buf ≡ true
  unfolding auth_request_taken
  auth_request_taken-sends buf reply a t = rw (a, auth_request_taken) t

  auth_status_taken-accepts :
      (buf : Bytes) → handle_auth_status buf ≡ some true → auth_status_taken w set buf ≡ true
  unfolding auth_status_taken
  auth_status_taken-accepts buf a = rw (a, auth_status_taken) refl

  rtable_taken-written :
      (buf name text : Bytes)
      → handle_rtable w.opens buf ≡ written name text
      → rtable_taken w set buf ≡ true
  unfolding rtable_taken
  rtable_taken-written buf name text a = rw (a, rtable_taken) refl

  -- The salt comes, and the answer goes out.
  pub run_command-auth_request :
      (body reply : Bytes) (s : Session)
      → IsBody body
      → command_of (framed body) ≡ vns_auth_request
      → auth_answer w set (framed body) ≡ some reply
      → w.sends reply ≡ true
      → run_command w set fuel now vns_auth_request (framed body) s
        ≡ replied next_command (record s { sent = s.sent ++ (reply ∷ []) })
  unfolding run_command overruns after_handler put_router
  run_command-auth_request body reply s v c a t =
      rw
        (
          c,
          handle_command-auth_request (handlers w set) w.fresh fuel now (framed body) s.router
              (omega (arith, v.0)) c,
          auth_request_taken-sends (framed body) reply a t,
          a,
        )
        refl

  -- The server says that the user is known.
  pub run_command-auth_status :
      (body : Bytes) (s : Session)
      → IsBody body
      → command_of (framed body) ≡ vns_auth_status
      → handle_auth_status (framed body) ≡ some true
      → run_command w set fuel now vns_auth_status (framed body) s ≡ replied next_command s
  unfolding run_command overruns after_handler put_router
  run_command-auth_status body s v c a =
      rw
        (
          c,
          handle_command-auth_status (handlers w set) w.fresh fuel now (framed body) s.router
              (omega (arith, v.0)) c,
          auth_status_taken-accepts (framed body) a,
          a,
        )
        refl

  -- The routing table comes, and is written to its file.
  pub run_command-rtable :
      (body name text : Bytes) (s : Session)
      → IsBody body
      → command_of (framed body) ≡ vns_rtable
      → handle_rtable w.opens (framed body) ≡ written name text
      → run_command w set fuel now vns_rtable (framed body) s
        ≡ replied next_command (record s { files = s.files ++ ((name, text) ∷ []) })
  unfolding run_command overruns after_handler put_router stored
  run_command-rtable body name text s v c a =
      rw
        (
          c,
          handle_command-rtable (handlers w set) w.fresh fuel now (framed body) s.router
              (omega (arith, v.0)) c,
          rtable_taken-written (framed body) name text a,
          a,
        )
        refl
