-- ===== src/Vns/Loop.antt =====
-- The loop of `main` over `sr_read_from_server`, against the messages one by one.
use cmput.Base.{
  ℕ, ◌+◌, ◌≤◌, ◌≡◌, refl, ap, ◌∙◌, List, [], ◌∷◌, ◌++◌, map, All, Bytes, bytes32, htonl, length,
  arith,
}
use cmput.Vns.{next_command, session_closed, failed}
use cmput.Vns.Stream.{Call, Socket, message, read_message}
use cmput.Vns.Framing.{IsNoFailure, progress}
use cmput.Vns.Delivery.{read_message-whole}
use cmput.Vns.Connect.{
  Settings, Surroundings, Session, Step, replied, broke, Progress, stepped, run_command,
  run_message, read_expect, again, Round, timer_rounds, main_loop,
}

-- A message: its length in front of its body.
abbrev pub framed : Bytes → Bytes
framed body = bytes32 (htonl (length body + 4)) ++ body

-- A body that the router takes: with a command, and not too long.
abbrev pub IsBody : Bytes → Type 0
IsBody body = (4 ≤ length body) × (length body ≤ 9996)

abbrev pub stream : List Bytes → Bytes → Bytes
stream [] rest = rest
stream (body ∷ bodies) rest = framed body ++ stream bodies rest

abbrev pub total : List Bytes → ℕ
total [] = 0
total (body ∷ bodies) = length body + 4 + total bodies

-- A message at the head of a stream is read whole.
pub read_message-framed :
    (body rest : Bytes) (calls : List Call)
    → IsBody body
    → All IsNoFailure calls
    → length body + 4 ≤ progress calls
    → (left : List Call) × (read_message (record { pending = framed body ++ rest; calls = calls })
        ≡ message (framed body) (record { pending = rest; calls = left }))
      × All IsNoFailure left
      × (progress calls ≤ progress left + (length body + 4))
read_message-framed body rest calls v clean h =
    let (left, e, c, m) =
      read_message-whole (length body + 4) body calls (omega (arith, v.0)) (omega (arith, v.1))
        clean rest (omega arith) h in
    (left, e, c, m)

module _ (w : Surroundings) (set : Settings) (fuel : ℕ) where
  -- What the messages do, with no connection between: each is handled at its time, after the rounds
  -- of the timer that come before it, until one of them ends the session or breaks the process off.
  abbrev pub proceed : Step → (Session → Step) → Step
  proceed (replied next_command s) f = f s
  proceed (replied session_closed s) f = replied session_closed s
  proceed (replied failed s) f = replied failed s
  proceed (broke e s) f = broke e s

  abbrev pub run_commands : List (Round × Bytes) → Session → Step
  run_commands [] s = replied next_command s
  run_commands (((ticks, now), body) ∷ ms) s =
      proceed (timer_rounds w set fuel ticks s)
        λ s. proceed (run_command w set fuel now 0 (framed body) s) (run_commands ms)

  -- The session goes on: everything in front of `rest` was read, and the calls left do not fail.
  abbrev pub Leaves : Step → Bytes → Socket → Type 0
  Leaves (replied next_command s) rest k = (k.pending ≡ rest) × All IsNoFailure k.calls
  Leaves (replied session_closed s) rest k = Unit {0}
  Leaves (replied failed s) rest k = Unit {0}
  Leaves (broke e s) rest k = Unit {0}

  abbrev Delivers : Progress → Step → Bytes → (Socket → Session → Progress) → Type 0
  Delivers p t rest f = (k : Socket) × (p ≡ again w set (stepped t k) f) × Leaves t rest k

  pub read_expect-framed :
      (now expected : ℕ) (body rest : Bytes) (calls : List Call) (s : Session)
      → IsBody body
      → All IsNoFailure calls
      → length body + 4 ≤ progress calls
      → (left : List Call) × (read_expect w set fuel now expected
            (record { pending = framed body ++ rest; calls = calls })
            s
          ≡ stepped
              (run_command w set fuel now expected (framed body) s)
              (record { pending = rest; calls = left }))
        × All IsNoFailure left
        × (progress calls ≤ progress left + (length body + 4))
  unfolding read_expect run_message
  read_expect-framed now expected body rest calls s v clean h =
      let k : Socket = record { pending = framed body ++ rest; calls = calls } in
      let (left, e, c, m) = read_message-framed body rest calls v clean h in
      (left, ap (λ q. run_message w set fuel now expected k q s) e, c, m)

  Delivers-step :
      (t : Step) (k : Socket) (f g : Socket → Session → Progress) (run : Session → Step)
      (rest : Bytes)
      → ((s : Session) → Delivers (f k s) (run s) rest g)
      → Delivers (again w set (stepped t k) f) (proceed t run) rest g
  unfolding again
  Delivers-step (replied next_command s) k f g run rest h = h s
  Delivers-step (replied session_closed s) k f g run rest h = (k, refl, tt)
  Delivers-step (replied failed s) k f g run rest h = (k, refl, tt)
  Delivers-step (broke e s) k f g run rest h = (k, refl, tt)

  -- The loop of `main` handles the messages of the server in their order, each whole, however the
  -- connection cuts their bytes. For messages whose bodies have 4 to 9996 bytes, calls of `recv` and
  -- `read` none of which fails and as many of which give something as the messages have bytes, and
  -- a round at the time of each message, with any rounds of the timer in front of it: the loop gets
  -- where `run_commands` gets, which handles the messages one after the other, with the rounds of
  -- the timer between them, until one of them ends the session or breaks the process off. If
  -- none does, it goes on with the bytes behind the messages.
  pub main_loop_delivers :
      (ms : List (Round × Bytes)) (later : List Round) (rest : Bytes) (calls : List Call)
      (s : Session)
      → All (λ (m : Round × Bytes). IsBody m.1) ms
      → All IsNoFailure calls
      → total (map (λ (m : Round × Bytes). m.1) ms) ≤ progress calls
      → (k : Socket) × (main_loop w set fuel
            (map (λ (m : Round × Bytes). m.0) ms ++ later)
            (record { pending = stream (map (λ (m : Round × Bytes). m.1) ms) rest; calls = calls })
            s
          ≡ again w set (stepped (run_commands ms s) k) (main_loop w set fuel later))
        × Leaves (run_commands ms s) rest k
  unfolding main_loop again
  main_loop_delivers [] later rest calls s v clean h =
      (record { pending = rest; calls = calls }, refl, (refl, clean))
  main_loop_delivers (((ticks, now), body) ∷ ms) later rest calls s v clean h =
      Delivers-step (timer_rounds w set fuel ticks s)
        (record {
          pending = framed body ++ stream (map (λ (m : Round × Bytes). m.1) ms) rest;
          calls = calls;
        })
        (λ k s.
          again w set (read_expect w set fuel now 0 k s)
            (main_loop w set fuel (map (λ (m : Round × Bytes). m.0) ms ++ later)))
        (main_loop w set fuel later)
        (λ s. proceed (run_command w set fuel now 0 (framed body) s) (run_commands ms)) rest
        (λ s.
          let (left, e, c, m) =
            read_expect-framed now 0 body (stream (map (λ (m : Round × Bytes). m.1) ms) rest) calls
              s v.0 clean (omega arith) in
          let (k, a, b) =
            Delivers-step (run_command w set fuel now 0 (framed body) s)
              (record { pending = stream (map (λ (m : Round × Bytes). m.1) ms) rest; calls = left })
              (main_loop w set fuel (map (λ (m : Round × Bytes). m.0) ms ++ later))
              (main_loop w set fuel later) (run_commands ms) rest
              (λ s. main_loop_delivers ms later rest left s v.1 c (omega (arith, m, h))) in
          (
            k,
            ap
                  (λ p.
                    again w set p
                      (main_loop w set fuel (map (λ (m : Round × Bytes). m.0) ms ++ later)))
                  e
                ∙ a,
            b,
          ))
