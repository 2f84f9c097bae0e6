-- ===== src/Examples/Session.antt =====
-- A run of the router process with a server that sends five messages.
use cmput.Base.{
  ℕ, ◌≡◌, refl, true, List, [], ◌∷◌, ◌++◌, htonl, slice, some, All, Bytes, replicate, zero, suc,
  ◌+◌, ◌≤◌, arith,
}
use cmput.Text.{atoi, c_string}
use cmput.Route.{RtEntry}
use cmput.Route.Load.{loaded, load_rt}
use cmput.Route.File.{entry_of, load_rt_routes}
use cmput.Vns.Stream.{Call, gives, Socket}
use cmput.Vns.Framing.{IsNoFailure, progress}
use cmput.Vns.Session.{
  rtable_prefix, digest_bytes, auth_key, auth_reply, handle_auth_request, handle_auth_status,
  handle_rtable,
}
use cmput.Vns.Connect.{Round, Step, Surroundings, Progress, stepped, again, main_loop}
use cmput.Vns.Loop.{stream, total, run_commands, Leaves, main_loop_delivers}
use cmput.Vns.Opening.{IsWelcome}
use cmput.Dump.{dump_open}
use cmput.Main.{
  Options, defaults, parse_options, System, serves, take_option, log_opens, texts_fit, set_user,
  settings, init_instance, main,
}
use cmput.Main.Startup.{FirstTable, IsReady, main_serves}
use cmput.Main.Welcome.{Talk, bodies, times, IsPrepared, first_session, main_runs}
use cmput.Examples.Net.{idle}
use cmput.Examples.Messages.{memory}
use cmput.Examples.Login.{user, digest}
use cmput.Examples.Table.{one_blank, plain_line, fields, blank_fields, route, route-IsRoute}

abbrev around : Surroundings
around = record {
  sha1 = λ b. some digest;
  auth_key = some (b'k' ∷ []);
  junk = [];
  opens = true;
  sends = λ b. true;
  connects = true;
  fresh = memory;
}

abbrev sys : System
sys = record {
  atoi = atoi;
  pw_name = some user;
  read_file = λ files name. some (plain_line fields ∷ []);
  arrays = blank_fields;
  inet_aton = λ w. some (atoi w);
  fopens = λ name. true;
  network = λ server port. around;
  memory = idle;
}

-- -T ring
abbrev opts : List (ℕ × Bytes)
opts = (b'T', b'r' ∷ b'i' ∷ b'n' ∷ b'g' ∷ []) ∷ []

abbrev chosen : Options
chosen = record defaults { template = some (b'r' ∷ b'i' ∷ b'n' ∷ b'g' ∷ []) }

abbrev vrhost : Bytes
vrhost = b'v' ∷ b'r' ∷ b'h' ∷ b'o' ∷ b's' ∷ b't' ∷ []

-- The last two messages are a banner and the end of the session.
abbrev talk : Talk
talk = record {
  request = 0 ∷ 0 ∷ 0 ∷ 128 ∷ 7 ∷ 9 ∷ [];
  status = 0 ∷ 0 ∷ 2 ∷ 0 ∷ 1 ∷ [];
  table = 0 ∷ 0 ∷ 0 ∷ 32 ∷ (vrhost ++ replicate 26 0 ++ (b'x' ∷ []));
  more = ((98 ∷ 99 ∷ [], 100), 0 ∷ 0 ∷ 0 ∷ 4 ∷ []) ∷ (([], 101), 0 ∷ 0 ∷ 0 ∷ 2 ∷ []) ∷ [];
}

abbrev calls : List Call
calls = replicate 80 (gives 3)

replicate-clean : (n : ℕ) → All IsNoFailure (replicate n (gives 3))
replicate-clean zero = tt
replicate-clean (suc n) = (tt, replicate-clean n)

abbrev reply : Bytes
reply = auth_reply user digest

abbrev name : Bytes
name = rtable_prefix ++ vrhost

table_loaded :
    load_rt sys.inet_aton blank_fields (some (plain_line fields ∷ [])) []
    ≡ loaded (entry_of route ∷ [])
table_loaded =
    load_rt_routes sys.inet_aton one_blank one_blank one_blank blank_fields [] (route ∷ [])
      (route-IsRoute, tt)

talk-IsWelcome :
    IsWelcome around
      (settings sys chosen)
      talk.request
      talk.status
      talk.table
      reply
      name
      (b'x' ∷ [])
unfolding htonl slice handle_auth_request auth_reply digest_bytes auth_key handle_auth_status
    handle_rtable c_string settings set_user
talk-IsWelcome = record {
  connects = refl;
  template = omega arith;
  request_body = (omega arith, omega arith);
  status_body = (omega arith, omega arith);
  table_body = (omega arith, omega arith);
  asks = refl;
  judges = refl;
  routes = refl;
  answer = refl;
  accepted = refl;
  stored = refl;
  reply_sent = refl;
  opening_sent = refl;
}

talk-IsPrepared : IsPrepared sys chosen 2 90 opts reply name (b'x' ∷ []) talk (entry_of route ∷ [])
unfolding parse_options take_option log_opens dump_open texts_fit
talk-IsPrepared = record {
  template = b'r' ∷ b'i' ∷ b'n' ∷ b'g' ∷ [];
  parsed = refl;
  templated = refl;
  logs = refl;
  fits = refl;
  welcome = talk-IsWelcome;
  read = table_loaded;
  others = ((omega arith, omega arith), ((omega arith, omega arith), tt));
}

calls-enough :
    total (talk.request ∷ talk.status ∷ talk.table ∷ []) + total (bodies talk.more) ≤ progress calls
calls-enough = omega arith

-- Two more rounds of the loop, which the end of the session leaves out.
abbrev socket : Socket
socket = record {
  pending = stream (talk.request ∷ talk.status ∷ talk.table ∷ []) (stream (bodies talk.more) []);
  calls = calls;
}

abbrev result : Step
result =
    run_commands around (settings sys chosen) 2 talk.more
      (first_session sys chosen 2 90 reply name (b'x' ∷ []) (entry_of route ∷ []))

abbrev served : Socket → Progress
served k =
    again around (settings sys chosen) (stepped result k)
      (main_loop around (settings sys chosen) 2 (([], 102) ∷ (103 ∷ [], 103) ∷ []))

main_runs_example :
    (k : Socket) × (main sys opts 2 90
        (times talk.more ++ (([], 102) ∷ (103 ∷ [], 103) ∷ []))
        socket
      ≡ serves (served k))
    × Leaves around (settings sys chosen) 2 result [] k
main_runs_example =
    main_runs sys chosen 2 90 opts reply name (b'x' ∷ []) talk (entry_of route ∷ [])
      (([], 102) ∷ (103 ∷ [], 103) ∷ []) [] calls talk-IsPrepared (replicate-clean 80) calls-enough

main_loop_delivers_example :
    (k : Socket) × (main_loop around
        (settings sys chosen)
        2
        (times talk.more ++ ((101 ∷ [], 102) ∷ []))
        (record { pending = stream (bodies talk.more) []; calls = calls })
        (init_instance sys [])
      ≡ again around
          (settings sys chosen)
          (stepped (run_commands around (settings sys chosen) 2 talk.more (init_instance sys [])) k)
          (main_loop around (settings sys chosen) 2 ((101 ∷ [], 102) ∷ [])))
    × Leaves around
        (settings sys chosen)
        2
        (run_commands around (settings sys chosen) 2 talk.more (init_instance sys []))
        []
        k
main_loop_delivers_example =
    main_loop_delivers around (settings sys chosen) 2 talk.more ((101 ∷ [], 102) ∷ []) [] calls
      (init_instance sys []) talk-IsPrepared.others (replicate-clean 80) (omega arith)

abbrev all_rounds : List Round
all_rounds = (98 ∷ 99 ∷ [], 100) ∷ ([], 101) ∷ ([], 102) ∷ (103 ∷ [], 103) ∷ []

main_serves_example :
    (o : Options) × (first : List RtEntry) × (parse_options sys.atoi defaults opts ≡ some o)
    × FirstTable sys 2 90 all_rounds o.template o.rtable first
    × IsReady sys 2 90 all_rounds o socket first (served main_runs_example.0)
main_serves_example =
    main_serves sys 2 90 all_rounds opts socket (served main_runs_example.0) main_runs_example.1
