-- ===== src/Main.antt =====
-- The start of the router process (assignment-3/router/sr_main.c): the command line, the routing
-- table files, the connection and the loop.
pub mod Startup
pub mod Welcome
use cmput.Base.{
  ℕ, ◌%◌, ◌^◌, Bool, true, false, not, ◌&&◌, List, [], ◌∷◌, Option, none, some, Bytes, take, length,
  ltb, ◌==◌, if◌then◌else◌,
}
use cmput.ArpCache.{arpcache_init}
use cmput.Iface.{Iface}
use cmput.Route.{RtEntry}
use cmput.Text.{same_text}
use cmput.Route.Load.{Fields, Loaded, loaded, failed, overrun, load_rt}
use cmput.Router.{Router, Fault, out_of_bounds}
use cmput.Dump.{packet_dump_size, dump_open}
use cmput.Vns.{next_command, session_closed, failed}
use cmput.Vns.Stream.{Socket}
use cmput.Vns.Connect.{
  Settings, Surroundings, Session, Step, replied, broke, Progress, stepped, endless, Round, is_some,
  connect_to_server, main_loop,
}

-- What the command line sets; a pointer that may be null is an `Option`.
pub record Options : Type 0 where
  pub host : Bytes
  pub user : Option Bytes
  pub server : Bytes
  pub rtable : Bytes
  pub template : Option Bytes
  pub port : ℕ
  pub topo : ℕ
  pub logfile : Option Bytes

-- DEFAULT_HOST, DEFAULT_SERVER, DEFAULT_RTABLE, DEFAULT_PORT and DEFAULT_TOPO
abbrev pub defaults : Options
defaults = record {
  host = b'v' ∷ b'r' ∷ b'h' ∷ b'o' ∷ b's' ∷ b't' ∷ [];
  user = none;
  server = b'l' ∷ b'o' ∷ b'c' ∷ b'a' ∷ b'l' ∷ b'h' ∷ b'o' ∷ b's' ∷ b't' ∷ [];
  rtable = b'r' ∷ b't' ∷ b'a' ∷ b'b' ∷ b'l' ∷ b'e' ∷ [];
  template = none;
  port = 8888;
  topo = 0;
  logfile = none;
}

-- One round of the `switch`. `atoi` gives the `unsigned int` that its result is stored as; other
-- letters do nothing.
unfoldable pub take_option : (Bytes → ℕ) → Options → ℕ → Bytes → Options
take_option atoi o c optarg =
    if c == b'p'
    then record o { port = atoi optarg }
    else if c == b't'
    then record o { topo = atoi optarg }
    else if c == b'v'
    then record o { host = optarg }
    else if c == b'u'
    then record o { user = some optarg }
    else if c == b's'
    then record o { server = optarg }
    else if c == b'l'
    then record o { logfile = some optarg }
    else if c == b'r'
    then record o { rtable = optarg }
    else if c == b'T'
    then record o { template = some optarg }
    else o

-- The loop over what `getopt` returns, with its arguments; `none` if the usage is printed, after
-- which the process exits with status 0.
unfoldable pub parse_options : (Bytes → ℕ) → Options → List (ℕ × Bytes) → Option Options
parse_options atoi o [] = some o
parse_options atoi o ((c, optarg) ∷ more) =
    let rest = parse_options atoi (take_option atoi o c optarg) more in
    if c == b'h' then none else rest

-- "something_silly"
abbrev pub something_silly : Bytes
something_silly =
    b's' ∷ b'o' ∷ b'm' ∷ b'e' ∷ b't' ∷ b'h' ∷ b'i' ∷ b'n' ∷ b'g' ∷ b'_' ∷ b's' ∷ b'i' ∷ b'l' ∷ b'l'
    ∷ b'y' ∷ []

-- `sr_set_user`, with the name that `getpwuid` finds.
unfoldable pub set_user : Option Bytes → Bytes
set_user none = take 32 something_silly
set_user (some pw_name) = take 32 pw_name

-- "rtable.vrhost"
abbrev pub rtable_vrhost : Bytes
rtable_vrhost =
    b'r' ∷ b't' ∷ b'a' ∷ b'b' ∷ b'l' ∷ b'e' ∷ b'.' ∷ b'v' ∷ b'r' ∷ b'h' ∷ b'o' ∷ b's' ∷ b't' ∷ []

-- What the process finds: the `unsigned int` of a text, the name of the user, the lines of a file,
-- with the files written since the start, what the arrays of `sr_load_rt` hold, the addresses of
-- texts, whether `fopen` opens a file for writing, what is around the session with a server at a port, and
-- the memory of struct sr_instance before it is set.
pub record System : Type 0 where
  pub atoi : Bytes → ℕ
  pub pw_name : Option Bytes
  pub read_file : List (Bytes × Bytes) → Bytes → Option (List Bytes)
  pub arrays : Fields
  pub inet_aton : Bytes → Option ℕ
  pub fopens : Bytes → Bool
  pub network : Bytes → ℕ → Surroundings
  pub memory : Router

-- How `main` gets on: it exits before its loop, breaks off, waits for the server to answer, or is
-- in its loop.
pub data Run : Type 0 where
  exited : ℕ → Run
  crashed : Fault → Run
  waits : Run
  serves : Progress → Run

module _ (sys : System) where
  -- `sr_load_rt_wrap`, and what follows with the table.
  unfoldable pub load_rt_wrap :
      List (Bytes × Bytes) → Bytes → List RtEntry → (List RtEntry → Run) → Run
  load_rt_wrap files rtable table go =
      elim (load_rt sys.inet_aton sys.arrays (sys.read_file files rtable) table) [
        | loaded t ↦ go t
        | failed t ↦ exited 1
        | overrun ↦ crashed out_of_bounds
      ]

  abbrev has_room : ℕ → Option Bytes → Bool
  has_room n none = true
  has_room n (some text) = ltb (length text) n

  -- The texts whose ends `strlen` looks for, `sr.template` and `sr.user`, have a NUL in their arrays
  -- after `strncpy`.
  unfoldable pub texts_fit : Options → Bool
  texts_fit o =
      has_room 30 o.template
      && elim o.user [ none ↦ has_room 32 sys.pw_name | some u ↦ ltb (length u) 32 ]

  -- The copies into struct sr_instance, by `strncpy`.
  unfoldable pub settings : Options → Settings
  settings o = record {
    template = elim o.template [ none ↦ [] | some t ↦ take 30 t ];
    topo_id = o.topo % 2 ^ 16;
    host = take 32 o.host;
    user = elim o.user [ none ↦ set_user sys.pw_name | some u ↦ take 32 u ];
  }

  -- `sr_dump_open` for the log file, if there is to be one.
  unfoldable pub log_opens : Option Bytes → Bool
  log_opens none = true
  log_opens (some logfile) = is_some (dump_open sys.fopens logfile 0 packet_dump_size)

  -- `sr_init_instance`: no interface, and the routing table so far.
  unfoldable pub init_instance : List RtEntry → Session
  init_instance table = record {
    router = record sys.memory { if_list = []; routing_table = table };
    sent = [];
    files = [];
  }

  -- `sr_init`: the ARP cache. The timer thread that it starts makes its rounds in `main_loop`.
  unfoldable pub init_router : List RtEntry → Session → Session
  init_router table s = record s {
    router = record s.router { routing_table = table; cache = arpcache_init };
  }

  -- The file that is loaded once the session is open.
  unfoldable pub second_rtable : Options → Bytes
  second_rtable o =
      if is_some o.template && same_text o.rtable rtable_vrhost then rtable_vrhost else o.rtable

  -- From the connection on.
  unfoldable pub after_connect : Options → ℕ → List Round → Progress → Run
  after_connect o fuel times (stepped (replied next_command s) k) =
      load_rt_wrap s.files (second_rtable o) s.router.routing_table λ table.
        serves
          (main_loop (sys.network o.server o.port) (settings o) fuel times k (init_router table s))
  after_connect o fuel times (stepped (replied session_closed s) k) = exited 1
  after_connect o fuel times (stepped (replied failed s) k) = exited 1
  after_connect o fuel times (stepped (broke e s) k) = crashed e
  after_connect o fuel times endless = waits

  -- From the log file on. `strlen` runs on behind a text without its NUL, at the latest when the
  -- session is opened: such a process breaks off here.
  unfoldable pub connected : Options → ℕ → ℕ → List Round → Socket → List RtEntry → Run
  connected o fuel now times k table =
      if not (log_opens o.logfile)
      then exited 1
      else if not (texts_fit o)
      then crashed out_of_bounds
      else after_connect o fuel times (
          connect_to_server (sys.network o.server o.port) (settings o) fuel now k
            (init_instance table))

  unfoldable pub start : Options → ℕ → ℕ → List Round → Socket → Run
  start o fuel now times k = elim o.template [
    | none ↦ load_rt_wrap [] o.rtable [] (connected o fuel now times k)
    | some t ↦ connected o fuel now times k []
  ]

  -- `main`, for the options that `getopt` finds and a socket that is connected later.
  unfoldable pub main : List (ℕ × Bytes) → ℕ → ℕ → List Round → Socket → Run
  main opts fuel now times k = elim (parse_options sys.atoi defaults opts) [
    | none ↦ exited 0
    | some o ↦ start o fuel now times k
  ]
