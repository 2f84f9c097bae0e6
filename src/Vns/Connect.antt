-- ===== src/Vns/Connect.antt =====
-- A session of sr_vns_comm.c from the connection on: `sr_read_from_server_expect` with the handlers
-- of the authentication and of the routing table file, `sr_connect_to_server`, and the loop of
-- `main` (sr_main.c) over `sr_read_from_server`.
use cmput.Base.{
  ℕ, Bool, true, false, not, ◌&&◌, ◌||◌, List, [], ◌∷◌, ◌++◌, Option, none, some, Bytes, slice,
  le32, htonl, length, ltb, ◌==◌, if◌then◌else◌,
}
use cmput.Iface.{Iface}
use cmput.Router.{Router, Outcome, done, fault, Fault, out_of_bounds}
use cmput.Router.Handle.{timer_round}
use cmput.Vns.{
  Reply, next_command, session_closed, failed, Handlers, handle_command, vns_rtable,
  vns_auth_request, vns_auth_status,
}
use cmput.Vns.Stream.{
  Socket, Message, message, too_large, failed, overrun, unfinished, read_message,
}
use cmput.Vns.Session.{
  handle_auth_request, handle_auth_status, RtableFile, written, unopened, overrun, handle_rtable,
  open_session,
}

-- The fields of struct sr_instance that the command line sets, as texts.
pub record Settings : Type 0 where
  pub template : Bytes
  pub topo_id : ℕ
  pub host : Bytes
  pub user : Bytes

-- What the process finds around it: SHA-1; the line of the file `auth_key`, if it can be read, and
-- what the array held behind it; whether the file of the routing table can be opened, `send` takes
-- a whole message, and the server is found and connected to; the memory for new interfaces.
pub record Surroundings : Type 0 where
  pub sha1 : Bytes → Option (List ℕ)
  pub auth_key : Option Bytes
  pub junk : Bytes
  pub opens : Bool
  pub sends : Bytes → Bool
  pub connects : Bool
  pub fresh : ℕ → Iface

-- The router, what was passed to `send`, and the files that were written, both oldest first.
pub record Session : Type 0 where
  pub router : Router
  pub sent : List Bytes
  pub files : List (Bytes × Bytes)

-- The times at which the timer thread runs before a message is handled, and the time of that.
abbrev pub Round : Type 0
Round = List ℕ × ℕ

-- A function of sr_vns_comm.c returns, or the process breaks off.
pub data Step : Type 0 where
  replied : Reply → Session → Step
  broke : Fault → Session → Step

-- `endless`: the process still waits for bytes after all the calls of `recv` and `read`.
pub data Progress : Type 0 where
  stepped : Step → Socket → Progress
  endless : Progress

abbrev pub is_some : {A : Type 0} → Option A → Bool
is_some none = false
is_some (some a) = true

-- The file that `sr_handle_rtable` has written.
unfoldable pub stored : RtableFile → Session → Session
stored (written name text) s = record s { files = s.files ++ ((name, text) ∷ []) }
stored unopened s = s
stored overrun s = s

module _ (w : Surroundings) (set : Settings) where
  abbrev pub auth_answer : Bytes → Option Bytes
  auth_answer buf = handle_auth_request w.sha1 set.user w.auth_key w.junk buf

  -- `sr_handle_auth_request`, with the call of `send`.
  unfoldable pub auth_request_taken : Bytes → Bool
  auth_request_taken buf = elim (auth_answer buf) [ none ↦ false | some reply ↦ w.sends reply ]

  -- `sr_handle_auth_status`, where it reads its byte.
  unfoldable pub auth_status_taken : Bytes → Bool
  auth_status_taken buf = elim (handle_auth_status buf) [ none ↦ false | some ok ↦ ok ]

  -- `sr_handle_rtable`, where it stays inside its objects.
  unfoldable pub rtable_taken : Bytes → Bool
  rtable_taken buf = elim (handle_rtable w.opens buf) [
    | written name text ↦ true
    | unopened ↦ false
    | overrun ↦ false
  ]

  abbrev pub handlers : Handlers
  handlers = record {
    rtable = rtable_taken;
    auth_request = auth_request_taken;
    auth_status = auth_status_taken;
  }

  -- The handler of the command reads or writes behind an object.
  unfoldable pub overruns : ℕ → Bytes → Bool
  overruns command buf =
      if command == vns_rtable
      then elim (handle_rtable w.opens buf) [
        | written name text ↦ false
        | unopened ↦ false
        | overrun ↦ true
      ]
      else if command == vns_auth_status
      then not (is_some (handle_auth_status buf))
      else false

  -- What the handler of the command sends, and which file it writes.
  unfoldable pub after_handler : ℕ → Bytes → Session → Session
  after_handler command buf s =
      if command == vns_rtable
      then stored (handle_rtable w.opens buf) s
      else if command == vns_auth_request
      then elim (auth_answer buf) [
        | none ↦ s
        | some reply ↦ record s { sent = s.sent ++ (reply ∷ []) }
      ]
      else s

  unfoldable pub put_router : Outcome Reply → Session → Step
  put_router (done a r) s = replied a (record s { router = r })
  put_router (fault e r) s = broke e (record s { router = r })

  -- `sr_read_from_server_expect` from the command on; 0 expects no command in particular.
  unfoldable pub run_command : ℕ → ℕ → ℕ → Bytes → Session → Step
  run_command fuel now expected buf s =
      let command = htonl (le32 (slice buf 4 4)) in
      let wanted = expected == 0 || command == expected in
      if wanted && overruns command buf
      then broke out_of_bounds s
      else put_router (handle_command handlers w.fresh fuel now expected buf s.router)
          (if wanted then after_handler command buf s else s)

  -- With the message in front of it. The buffer of a length below 4 is too short for it.
  unfoldable pub run_message : ℕ → ℕ → ℕ → Socket → Message → Session → Progress
  run_message fuel now expected k (message buf rest) s =
      stepped (run_command fuel now expected buf s) rest
  run_message fuel now expected k too_large s = stepped (replied failed s) k
  run_message fuel now expected k failed s = stepped (replied failed s) k
  run_message fuel now expected k overrun s = stepped (broke out_of_bounds s) k
  run_message fuel now expected k unfinished s = endless

  unfoldable pub read_expect : ℕ → ℕ → ℕ → Socket → Session → Progress
  read_expect fuel now expected k s = run_message fuel now expected k (read_message k) s

  -- `if(sr_read_from_server_expect(...) != 1) return -1;`
  unfoldable pub or_fail : Progress → (Socket → Session → Progress) → Progress
  or_fail (stepped (replied next_command s) k) f = f k s
  or_fail (stepped (replied session_closed s) k) f = stepped (replied failed s) k
  or_fail (stepped (replied failed s) k) f = stepped (replied failed s) k
  or_fail (stepped (broke e s) k) f = stepped (broke e s) k
  or_fail endless f = endless

  -- The end of `sr_connect_to_server`: its message, and the routing table if there is a template.
  -- A return of 0 is written `next_command` here, one of -1 `failed`.
  unfoldable pub open_topology : ℕ → ℕ → Socket → Session → Progress
  open_topology fuel now k s =
      let buf = open_session set.template set.topo_id set.host set.user in
      let s' = record s { sent = s.sent ++ (buf ∷ []) } in
      if not (w.sends buf)
      then stepped (replied failed s') k
      else if ltb 0 (length set.template)
      then or_fail (read_expect fuel now vns_rtable k s')
          (λ k s. stepped (replied next_command s) k)
      else stepped (replied next_command s') k

  unfoldable pub connect_to_server : ℕ → ℕ → Socket → Session → Progress
  connect_to_server fuel now k s =
      if w.connects
      then or_fail (read_expect fuel now vns_auth_request k s)
          (λ k s. or_fail (read_expect fuel now vns_auth_status k s) (open_topology fuel now))
      else stepped (replied failed s) k

  -- `while( sr_read_from_server(&sr) == 1);`
  unfoldable pub again : Progress → (Socket → Session → Progress) → Progress
  again (stepped (replied next_command s) k) f = f k s
  again (stepped (replied session_closed s) k) f = stepped (replied session_closed s) k
  again (stepped (replied failed s) k) f = stepped (replied failed s) k
  again (stepped (broke e s) k) f = stepped (broke e s) k
  again endless f = endless

  -- The rounds that the timer thread makes at these times.
  unfoldable pub timer_rounds : ℕ → List ℕ → Session → Step
  timer_rounds fuel [] s = replied next_command s
  timer_rounds fuel (now ∷ ticks) s = elim (timer_round fuel now s.router) [
    | done u r ↦ timer_rounds fuel ticks (record s { router = r })
    | fault e r ↦ broke e (record s { router = r })
  ]

  -- The rounds of the loop, with those of the timer in front of each.
  unfoldable pub main_loop : ℕ → List Round → Socket → Session → Progress
  main_loop fuel [] k s = stepped (replied next_command s) k
  main_loop fuel ((ticks, now) ∷ rounds) k s =
      again (stepped (timer_rounds fuel ticks s) k)
        λ k s. again (read_expect fuel now 0 k s) (main_loop fuel rounds)
