-- ===== src/Main/Startup.antt =====
-- What `main` has done when it is in its loop.
use cmput.Base.{
  ℕ, ◌≡◌, refl, sym, ap, ◌∙◌, inl, inr, Bool, true, false, not, ◌&&◌, List, [], Option, some, none,
  Bytes, Bool-cases, if_true, if_false,
}
use cmput.Text.{same_text, same_text_sound}
use cmput.Route.{RtEntry}
use cmput.Route.Load.{Loaded, loaded, failed, overrun, load_rt}
use cmput.Router.{Router, out_of_bounds}
use cmput.Vns.{next_command, session_closed, failed}
use cmput.Vns.Stream.{Socket}
use cmput.Vns.Connect.{
  Surroundings, Session, replied, broke, Progress, stepped, endless, Round, is_some,
  connect_to_server, main_loop,
}
use cmput.Vns.Authenticated.{IsAuthenticated, connect_to_server-IsAuthenticated}
use cmput.Main.{
  Options, defaults, parse_options, System, Run, exited, crashed, serves, rtable_vrhost,
  load_rt_wrap, settings, texts_fit, log_opens, init_instance, init_router, second_rtable,
  after_connect, connected, start, main,
}

not-false : (b : Bool) → not b ≡ false → b ≡ true
not-false true e = refl
not-false false e = absurd (cc e)

module _ (sys : System) where
  abbrev pub network_of : Options → Surroundings
  network_of o = sys.network o.server o.port

  -- Both branches of the test for "rtable.vrhost" load the file that the command line names.
  pub second_rtable-same : (o : Options) → second_rtable sys o ≡ o.rtable
  unfolding second_rtable
  second_rtable-same o =
      elim (Bool-cases (is_some o.template && same_text o.rtable rtable_vrhost)) [
        | inr f ↦ if_false (is_some o.template && same_text o.rtable rtable_vrhost) _ _ f
        | inl f ↦
            if_true (is_some o.template && same_text o.rtable rtable_vrhost) _ _ f
            ∙ sym (same_text_sound o.rtable rtable_vrhost (both (is_some o.template) _ f))
      ]
    where
      both : (a b : Bool) → (a && b) ≡ true → b ≡ true
      both true b e = e
      both false b e = absurd (cc e)

  load_rt_wrap-serves :
      (files : List (Bytes × Bytes)) (rtable : Bytes) (table : List RtEntry)
      (go : List RtEntry → Run) (p : Progress)
      → load_rt_wrap sys files rtable table go ≡ serves p
      → (t : List RtEntry) × (load_rt sys.inet_aton sys.arrays (sys.read_file files rtable) table
          ≡ loaded t)
        × (go t ≡ serves p)
  unfolding load_rt_wrap
  load_rt_wrap-serves files rtable table go p e =
      by_result (load_rt sys.inet_aton sys.arrays (sys.read_file files rtable) table) e
    where
      by_result :
          (l : Loaded)
          → (elim l [ loaded t ↦ go t | failed t ↦ exited 1 | overrun ↦ crashed out_of_bounds ])
            ≡ serves p
          → (t : List RtEntry) × (l ≡ loaded t) × (go t ≡ serves p)
      by_result (loaded t) f = (t, refl, f)
      by_result (failed t) f = absurd (cc f)
      by_result overrun f = absurd (cc f)

  module _ (fuel now : ℕ) (times : List Round) where
    -- The session that the loop begins with: the router has authenticated itself and asked for its
    -- topology, and has the table of the file that the command line names, and an empty ARP cache.
    pub record IsReady (o : Options) (k : Socket) (first : List RtEntry) (p : Progress)
        : Type 0 where
      pub fits : texts_fit sys o ≡ true
      pub session : Session
      pub socket : Socket
      pub table : List RtEntry
      pub authenticated :
          IsAuthenticated (network_of o) (settings sys o) k (init_instance sys first) session
      pub read :
          load_rt sys.inet_aton sys.arrays (sys.read_file session.files o.rtable) first
          ≡ loaded table
      pub loop :
          p
          ≡ main_loop
              (network_of o)
              (settings sys o)
              fuel
              times
              socket
              (init_router sys table session)

    after_connect-serves :
        (o : Options) (first : List RtEntry) (k : Socket) (q p : Progress)
        → texts_fit sys o ≡ true
        → connect_to_server (network_of o) (settings sys o) fuel now k (init_instance sys first) ≡ q
        → after_connect sys o fuel times q ≡ serves p
        → IsReady o k first p
    unfolding after_connect init_instance
    after_connect-serves o first k (stepped (replied next_command s) k') p u c e =
        let a =
          connect_to_server-IsAuthenticated (network_of o) (settings sys o) fuel now k k'
            (init_instance sys first) s c in
        let (t, l, g) =
          load_rt_wrap-serves s.files (second_rtable sys o) s.router.routing_table _ p e in
        record {
          fits = u;
          session = s;
          socket = k';
          table = t;
          authenticated = a;
          read =
              ap
                (λ (r : Router).
                  load_rt sys.inet_aton sys.arrays (sys.read_file s.files o.rtable) r.routing_table)
                (sym a.router)
              ∙ ap
                  (λ n.
                    load_rt sys.inet_aton sys.arrays (sys.read_file s.files n)
                      s.router.routing_table)
                  (sym (second_rtable-same o))
              ∙ l;
          loop = cc g;
        }
    after_connect-serves o first k (stepped (replied session_closed s) k') p u c e = absurd (cc e)
    after_connect-serves o first k (stepped (replied failed s) k') p u c e = absurd (cc e)
    after_connect-serves o first k (stepped (broke x s) k') p u c e = absurd (cc e)
    after_connect-serves o first k endless p u c e = absurd (cc e)

    connected-serves :
        (o : Options) (k : Socket) (first : List RtEntry) (p : Progress)
        → connected sys o fuel now times k first ≡ serves p
        → IsReady o k first p
    unfolding connected
    connected-serves o k first p e = elim (Bool-cases (not (log_opens sys o.logfile))) [
      | inl f ↦ absurd (let g = sym (if_true (not (log_opens sys o.logfile)) _ _ f) ∙ e in cc g)
      | inr f ↦
          let g = sym (if_false (not (log_opens sys o.logfile)) _ _ f) ∙ e in
          elim (Bool-cases (not (texts_fit sys o))) [
            | inl t ↦ absurd (let h = sym (if_true (not (texts_fit sys o)) _ _ t) ∙ g in cc h)
            | inr t ↦
                after_connect-serves o first k _ p (not-false _ t) refl
                  (sym (if_false (not (texts_fit sys o)) _ _ t) ∙ g)
          ]
    ]

    -- The first table: that of the file, or none if there is a template.
    abbrev pub FirstTable : Option Bytes → Bytes → List RtEntry → Type 0
    FirstTable none rtable first =
        load_rt sys.inet_aton sys.arrays (sys.read_file [] rtable) [] ≡ loaded first
    FirstTable (some t) rtable first = first ≡ []

    start-serves :
        (o : Options) (t : Option Bytes) (k : Socket) (p : Progress)
        → (elim t [
          | none ↦ load_rt_wrap sys [] o.rtable [] (connected sys o fuel now times k)
          | some t ↦ connected sys o fuel now times k []
        ])
          ≡ serves p
        → (first : List RtEntry) × FirstTable t o.rtable first × IsReady o k first p
    start-serves o none k p e =
        let (first, l, h) = load_rt_wrap-serves [] o.rtable [] _ p e in
        (first, l, connected-serves o k first p h)
    start-serves o (some t) k p e = ([], refl, connected-serves o k [] p e)

    -- `main` gets to its loop only if the options ask for no usage text, the texts for the template
    -- and the user are shorter than their arrays, the first message on the
    -- socket is the server's request for authentication, the router has sent the answer to that,
    -- the second message is the status that accepts it, and the file that the options name could
    -- be loaded, without a template also before. The router has then sent that answer and the message that asks for its topology, in this order, and
    -- nothing else; no frame was handled: but for the table and its new ARP cache it is as it was.
    pub main_serves :
        (opts : List (ℕ × Bytes)) (k : Socket) (p : Progress)
        → main sys opts fuel now times k ≡ serves p
        → (o : Options) × (first : List RtEntry) × (parse_options sys.atoi defaults opts ≡ some o)
          × FirstTable o.template o.rtable first
          × IsReady o k first p
    unfolding main start
    main_serves opts k p e = by_options (parse_options sys.atoi defaults opts) refl e
      where
        by_options :
            (q : Option Options)
            → parse_options sys.atoi defaults opts ≡ q
            → (elim q [ none ↦ exited 0 | some o ↦ start sys o fuel now times k ]) ≡ serves p
            → (o : Options) × (first : List RtEntry) × (parse_options sys.atoi defaults opts
                ≡ some o)
              × FirstTable o.template o.rtable first
              × IsReady o k first p
        by_options none f g = absurd (cc g)
        by_options (some o) f g =
            let (first, a, b) = start-serves o o.template k p g in (o, first, f, a, b)
