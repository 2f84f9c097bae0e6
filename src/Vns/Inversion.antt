-- ===== src/Vns/Inversion.antt =====
-- What must have happened when `sr_read_from_server_expect` returns 1.
use cmput.Base.{
  ℕ, ◌≡◌, ◌≢◌, refl, sym, ap, ◌∙◌, inl, inr, true, false, Bytes, length, leb, ◌==◌, ==_iff,
  Bool-cases, if_true, if_false, arith, if◌then◌else◌,
}
use cmput.Iface.{Iface}
use cmput.Router.{Router, Outcome, done, fault, out_of_bounds, ◌>>=◌, monad}
use cmput.Vns.{Reply, next_command, session_closed, failed, Handlers, handle_command, vnsclose}
use cmput.Vns.Stream.{
  Socket, Message, message, too_large, failed, overrun, unfinished, read_message,
}
use cmput.Vns.Connect.{
  Settings, Surroundings, Session, replied, broke, Progress, stepped, endless, handlers, overruns,
  after_handler, put_router, run_command, run_message, read_expect, or_fail,
}
use cmput.Vns.Handshake.{command_of}

module _ (hs : Handlers) (fresh : ℕ → Iface) (fuel now expected : ℕ) (buf : Bytes)
    (r : Router) where
  handle_command-short :
      leb 8 (length buf) ≡ false
      → handle_command hs fresh fuel now expected buf r ≡ fault out_of_bounds r
  unfolding handle_command monad
  handle_command-short h = rw (h, ◌>>=◌) refl

  -- Another command than the one expected closes the session or fails.
  handle_command-other :
      leb 8 (length buf) ≡ true
      → (expected == 0) ≡ false
      → (command_of buf == expected) ≡ false
      → handle_command hs fresh fuel now expected buf r
        ≡ done (if command_of buf == vnsclose then session_closed else failed) r
  unfolding handle_command monad
  handle_command-other h e c = elim (Bool-cases (command_of buf == vnsclose)) [
    | inl d ↦ let f = (==_iff (command_of buf) vnsclose).0 d in rw (h, e, c, d, f, ◌>>=◌) refl
    | inr d ↦ rw (h, e, c, d, ◌>>=◌) refl
  ]

module _ (w : Surroundings) (set : Settings) where
  pub or_fail-next_inv :
      (p : Progress) (f : Socket → Session → Progress) (s' : Session) (k' : Socket)
      → or_fail w set p f ≡ stepped (replied next_command s') k'
      → (s : Session) × (k : Socket) × (p ≡ stepped (replied next_command s) k)
        × (f k s ≡ stepped (replied next_command s') k')
  unfolding or_fail
  or_fail-next_inv (stepped (replied next_command s) k) f s' k' e = (s, k, refl, e)
  or_fail-next_inv (stepped (replied session_closed s) k) f s' k' e = absurd (cc e)
  or_fail-next_inv (stepped (replied failed s) k) f s' k' e = absurd (cc e)
  or_fail-next_inv (stepped (broke x s) k) f s' k' e = absurd (cc e)
  or_fail-next_inv endless f s' k' e = absurd (cc e)

  put_router-inv :
      (o : Outcome Reply) (s s' : Session)
      → put_router w set o s ≡ replied next_command s'
      → (r : Router) × (o ≡ done next_command r) × (s' ≡ record s { router = r })
  unfolding put_router
  put_router-inv (done a r) s s' e =
      (r, ap (λ b. done b r) (let f : a ≡ next_command = cc e in f), cc e)
  put_router-inv (fault x r) s s' e = absurd (cc e)

  module _ (fuel now expected : ℕ) where
    run_message-inv :
        (k : Socket) (m : Message) (s s' : Session) (k' : Socket)
        → run_message w set fuel now expected k m s ≡ stepped (replied next_command s') k'
        → (buf : Bytes) × (m ≡ message buf k')
          × (run_command w set fuel now expected buf s ≡ replied next_command s')
    unfolding run_message
    run_message-inv k (message buf rest) s s' k' e =
        (buf, ap (message buf) (let f : rest ≡ k' = cc e in f), cc e)
    run_message-inv k too_large s s' k' e = absurd (cc e)
    run_message-inv k failed s s' k' e = absurd (cc e)
    run_message-inv k overrun s s' k' e = absurd (cc e)
    run_message-inv k unfinished s s' k' e = absurd (cc e)

    -- What a message did that was taken as the expected one.
    pub record Took (buf : Bytes) (s s' : Session) : Type 0 where
      pub long : leb 8 (length buf) ≡ true
      pub command : command_of buf ≡ expected
      pub inside : overruns w set expected buf ≡ false
      pub router : Router
      pub handled :
          handle_command (handlers w set) w.fresh fuel now expected buf s.router
          ≡ done next_command router
      pub after : s' ≡ record (after_handler w set expected buf s) { router = router }

    run_command-wanted :
        (buf : Bytes) (s : Session)
        → (expected == 0) ≡ false
        → command_of buf ≡ expected
        → run_command w set fuel now expected buf s ≡ (
            if overruns w set expected buf
            then broke out_of_bounds s
            else put_router w set
                (handle_command (handlers w set) w.fresh fuel now expected buf s.router)
                (after_handler w set expected buf s))
    unfolding run_command
    run_command-wanted buf s e c =
        let here : (expected == expected) ≡ true = ground arith in rw (c, e, here) refl

    run_command-other :
        (buf : Bytes) (s : Session)
        → (expected == 0) ≡ false
        → (command_of buf == expected) ≡ false
        → run_command w set fuel now expected buf s
          ≡ put_router w set
              (handle_command (handlers w set) w.fresh fuel now expected buf s.router)
              s
    unfolding run_command
    run_command-other buf s e c = rw (e, c) refl

    not_other :
        (buf : Bytes) (r r' : Router)
        → (expected == 0) ≡ false
        → (command_of buf == expected) ≡ false
        → handle_command (handlers w set) w.fresh fuel now expected buf r ≢ done next_command r'
    not_other buf r r' e c h = elim (Bool-cases (leb 8 (length buf))) [
      | inl l ↦ elim (Bool-cases (command_of buf == vnsclose)) [
        | inl d ↦
            let f =
              sym (handle_command-other (handlers w set) w.fresh fuel now expected buf r l e c)
              ∙ h in
            let g =
              ap (λ b. done b r)
                (sym (if_true (command_of buf == vnsclose) session_closed failed d)) in
            cc (g ∙ f)
        | inr d ↦
            let f =
              sym (handle_command-other (handlers w set) w.fresh fuel now expected buf r l e c)
              ∙ h in
            let g =
              ap (λ b. done b r)
                (sym (if_false (command_of buf == vnsclose) session_closed failed d)) in
            cc (g ∙ f)
      ]
      | inr l ↦
          cc (sym (handle_command-short (handlers w set) w.fresh fuel now expected buf r l) ∙ h)
    ]

    pub run_command-inv :
        (buf : Bytes) (s s' : Session)
        → expected ≢ 0
        → run_command w set fuel now expected buf s ≡ replied next_command s'
        → Took buf s s'
    run_command-inv buf s s' n e =
        let z : (expected == 0) ≡ false = ground (arith, n) in
        elim (Bool-cases (command_of buf == expected)) [
          | inr c ↦
              let (r, f, g) = put_router-inv _ s s' (sym (run_command-other buf s z c) ∙ e) in
              absurd (not_other buf s.router r z c f)
          | inl c ↦
              let d = (==_iff (command_of buf) expected).0 c in
              let t = sym (run_command-wanted buf s z d) ∙ e in
              elim (Bool-cases (overruns w set expected buf)) [
                | inl o ↦
                    absurd (let u = sym (if_true (overruns w set expected buf) _ _ o) ∙ t in cc u)
                | inr o ↦
                    let (r, f, g) =
                      put_router-inv _ _ s'
                        (sym (if_false (overruns w set expected buf) _ _ o) ∙ t) in
                    elim (Bool-cases (leb 8 (length buf))) [
                      | inl l ↦ record {
                        long = l;
                        command = d;
                        inside = o;
                        router = r;
                        handled = f;
                        after = g;
                      }
                      | inr l ↦ absurd (
                          let u =
                            sym (
                              handle_command-short (handlers w set) w.fresh fuel now expected buf
                                s.router l)
                            ∙ f in
                          cc u)
                    ]
              ]
        ]

    pub read_expect-inv :
        (k : Socket) (s s' : Session) (k' : Socket)
        → expected ≢ 0
        → read_expect w set fuel now expected k s ≡ stepped (replied next_command s') k'
        → (buf : Bytes) × (read_message k ≡ message buf k') × Took buf s s'
    unfolding read_expect
    read_expect-inv k s s' k' n e =
        let (buf, m, f) = run_message-inv k (read_message k) s s' k' e in
        (buf, m, run_command-inv buf s s' n f)
