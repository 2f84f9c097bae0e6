-- ===== src/Main/Welcome.antt =====
-- The whole run of the router process with a server that keeps to the protocol.
use cmput.Base.{
  ℕ, ◌+◌, ◌≤◌, ◌≡◌, refl, ap, ◌∙◌, true, not, List, [], ◌∷◌, ◌++◌, map, All, Option, some, none,
  Bytes, if_false, arith,
}
use cmput.Route.{RtEntry}
use cmput.Route.Load.{loaded, load_rt}
use cmput.Vns.{next_command}
use cmput.Vns.Stream.{Call, Socket}
use cmput.Vns.Framing.{IsNoFailure, progress}
use cmput.Vns.Connect.{Session, replied, stepped, again, Round, connect_to_server, main_loop}
use cmput.Vns.Loop.{IsBody, stream, total, run_commands, Leaves, main_loop_delivers}
use cmput.Vns.Opening.{IsWelcome, opened, connect_to_server_opens}
use cmput.Main.{
  Options, defaults, parse_options, System, serves, load_rt_wrap, settings, texts_fit, log_opens,
  init_instance, init_router, after_connect, connected, start, main,
}
use cmput.Main.Startup.{network_of, second_rtable-same}

-- The messages of the server: three to open the session, and more at these times.
pub record Talk : Type 0 where
  pub request : Bytes
  pub status : Bytes
  pub table : Bytes
  pub more : List (Round × Bytes)

abbrev pub bodies : List (Round × Bytes) → List Bytes
bodies = map (λ (m : Round × Bytes). m.1)

abbrev pub times : List (Round × Bytes) → List Round
times = map (λ (m : Round × Bytes). m.0)

module _ (sys : System) (o : Options) (fuel now : ℕ) where
  -- The options ask for a topology template, whose routing table is loaded.
  pub record IsPrepared (opts : List (ℕ × Bytes)) (reply name text : Bytes) (t : Talk)
      (routes : List RtEntry) : Type 0 where
    pub template : Bytes
    pub parsed : parse_options sys.atoi defaults opts ≡ some o
    pub templated : o.template ≡ some template
    pub logs : log_opens sys o.logfile ≡ true
    pub fits : texts_fit sys o ≡ true
    pub welcome :
        IsWelcome (network_of sys o) (settings sys o) t.request t.status t.table reply name text
    pub read :
        load_rt sys.inet_aton sys.arrays (sys.read_file ((name, text) ∷ []) o.rtable) []
        ≡ loaded routes
    pub others : All (λ (m : Round × Bytes). IsBody m.1) t.more

  -- The session that the loop begins with.
  abbrev pub first_session : Bytes → Bytes → Bytes → List RtEntry → Session
  first_session reply name text routes =
      init_router sys routes (opened (settings sys o) reply name text (init_instance sys []))

  after_connect-opened :
      (ts : List Round) (k : Socket) (s : Session) (routes : List RtEntry)
      → load_rt sys.inet_aton sys.arrays (sys.read_file s.files o.rtable) s.router.routing_table
        ≡ loaded routes
      → after_connect sys o fuel ts (stepped (replied next_command s) k)
        ≡ serves
            (main_loop (network_of sys o) (settings sys o) fuel ts k (init_router sys routes s))
  unfolding after_connect load_rt_wrap
  after_connect-opened ts k s routes e = rw (second_rtable-same sys o, e, load_rt_wrap) refl

  main-start :
      (opts : List (ℕ × Bytes)) (ts : List Round) (k : Socket)
      → parse_options sys.atoi defaults opts ≡ some o
      → main sys opts fuel now ts k ≡ start sys o fuel now ts k
  unfolding main
  main-start opts ts k e = rw (e, main) refl

  start-connected :
      (ts : List Round) (k : Socket) (template : Bytes)
      → o.template ≡ some template
      → start sys o fuel now ts k ≡ connected sys o fuel now ts k []
  unfolding start
  start-connected ts k template e =
      ap
        (λ (q : Option Bytes). elim q [
          | none ↦ load_rt_wrap sys [] o.rtable [] (connected sys o fuel now ts k)
          | some t ↦ connected sys o fuel now ts k []
        ])
        e

  connected-after_connect :
      (ts : List Round) (k : Socket)
      → log_opens sys o.logfile ≡ true
      → texts_fit sys o ≡ true
      → connected sys o fuel now ts k []
        ≡ after_connect sys o fuel ts (
            connect_to_server (network_of sys o) (settings sys o) fuel now k (init_instance sys []))
  unfolding connected
  connected-after_connect ts k e f =
      if_false (not (log_opens sys o.logfile)) _ _ (ap not e)
      ∙ if_false (not (texts_fit sys o)) _ _ (ap not f)

  -- The router process, from its start on. The options ask for a topology template, whose name and
  -- the user's are shorter than their arrays, the log file can be opened, the server is connected to, asks for authentication, accepts the answer and
  -- sends the routing table, `send` takes the two messages of the router, the table file that the
  -- options name can be loaded, and more messages follow, each with 4 to 9996 bytes behind its
  -- length; no call of `recv` or `read` fails, and as many give something as all the messages have
  -- bytes. Then the process gets to its loop, with the table, and the loop handles the further
  -- messages in their order, with any rounds of the timer thread before each, as `run_commands`
  -- does; if none of them ends it, it goes on with the
  -- bytes behind them.
  pub main_runs :
      (opts : List (ℕ × Bytes)) (reply name text : Bytes) (t : Talk) (routes : List RtEntry)
      (later : List Round) (rest : Bytes) (calls : List Call)
      → IsPrepared opts reply name text t routes
      → All IsNoFailure calls
      → total (t.request ∷ t.status ∷ t.table ∷ []) + total (bodies t.more) ≤ progress calls
      → let w = network_of sys o in
        let set = settings sys o in
        let end = run_commands w set fuel t.more (first_session reply name text routes) in
        (k : Socket) × (main sys opts fuel now (times t.more ++ later) (record {
          pending = stream (t.request ∷ t.status ∷ t.table ∷ []) (stream (bodies t.more) rest);
          calls = calls;
        })
          ≡ serves (again w set (stepped end k) (main_loop w set fuel later)))
        × Leaves w set fuel end rest k
  unfolding init_instance
  main_runs opts reply name text t routes later rest calls v clean h =
      let ts : List Round = times t.more ++ later in
      let more : Bytes = stream (bodies t.more) rest in
      let (left, e, c, m) =
        connect_to_server_opens (network_of sys o) (settings sys o) fuel now t.request t.status
          t.table reply name text more calls (init_instance sys []) v.welcome clean
          (omega (arith, h)) in
      let (k, a, b) =
        main_loop_delivers (network_of sys o) (settings sys o) fuel t.more later rest left
          (first_session reply name text routes) v.others c (omega (arith, h, m)) in
      (
        k,
        main-start opts ts _ v.parsed
            ∙ start-connected ts _ v.template v.templated
            ∙ connected-after_connect ts _ v.logs v.fits
            ∙ ap (after_connect sys o fuel ts) e
            ∙ after_connect-opened ts _ _ routes v.read
            ∙ ap serves a,
        b,
      )
