-- ===== src/Vns/Delivery.antt =====
-- Whole and truncated messages of the VNS server.
use cmput.Base.{
  ℕ, zero, suc, ◌+◌, ◌-◌, ◌≤◌, ◌<◌, ◌≡◌, ◌^◌, refl, sym, ◌∙◌, ap, inl, inr, false, List, [], ◌∷◌,
  ◌++◌, Bytes, take, drop, le32, bytes32, htonl, length, length-append, ltb, All, arith, take_all,
  le32-bytes32, htonl-htonl,
}
use cmput.Iface.{Iface}
use cmput.Router.{Router}
use cmput.Vns.{Handlers, handle_command}
use cmput.Vns.Stream.{
  Call, Socket, got, read_loop, message, unfinished, after_body, after_length, read_message,
  handled, dispatch, read_from_server_expect,
}
use cmput.Vns.Framing.{IsNoFailure, progress, read_loop-complete, read_loop-short, length-take}

pub htonl_bound : (v : ℕ) → htonl v < 2 ^ 32
unfolding htonl
htonl_bound v = omega arith

pub drop_all : (xs : Bytes) (n : ℕ) (ys : Bytes) → n ≡ length xs → drop n (xs ++ ys) ≡ ys
drop_all [] zero ys e = refl
drop_all [] (suc n) ys e = absurd (omega arith)
drop_all (x ∷ xs) zero ys e = absurd (omega arith)
drop_all (x ∷ xs) (suc n) ys e = drop_all xs n ys (omega arith)

-- The length of a message as it is read.
read_length : (n : ℕ) → n ≤ 10000 → htonl (le32 (bytes32 (htonl n))) ≡ n
read_length n h = ap htonl (le32-bytes32 (htonl n) (htonl_bound n)) ∙ htonl-htonl n (omega arith)

not_below : (a b : ℕ) → b ≤ a → ltb a b ≡ false
not_below a b h = ground arith

after_length-got :
    (n : ℕ) (s : Socket)
    → 8 ≤ n
    → n ≤ 10000
    → after_length (got (bytes32 (htonl n)) s)
      ≡ after_body (read_loop (bytes32 (htonl n)) (n - 4) s.pending s.calls)
unfolding after_length
after_length-got n s l h =
    rw (read_length n h) (rw (not_below 10000 n h, not_below n 4 (omega arith)) refl)

module _ (n : ℕ) (body : Bytes) (calls : List Call) (least : 8 ≤ n) (most : n ≤ 10000)
    (clean : All IsNoFailure calls) where
  -- The message is read, and the calls that are left can read what comes behind it.
  pub read_message-whole :
      (rest : Bytes)
      → length body ≡ n - 4
      → n ≤ progress calls
      → (left : List Call) × (read_message
            (record { pending = bytes32 (htonl n) ++ (body ++ rest); calls = calls })
          ≡ message (bytes32 (htonl n) ++ body) (record { pending = rest; calls = left }))
        × All IsNoFailure left
        × (progress calls ≤ progress left + n)
  unfolding read_message after_body
  read_message-whole rest e p =
      elim (read_loop-complete [] 4 (bytes32 (htonl n) ++ (body ++ rest)) calls clean
        (omega arith)) [
          | inl (a, b) ↦ absurd (omega (arith, b, p, least))
          | inr (cs, a, v, b) ↦
              elim (read_loop-complete (bytes32 (htonl n)) (n - 4) (body ++ rest) cs v
                (omega (arith, e, length-append body rest))) [
                  | inl (c, d) ↦ absurd (omega (arith, b, d, p, least))
                  | inr (left, c, w, d) ↦ (
                    left,
                    ap after_length a
                        ∙ after_length-got n _ least most
                        ∙ ap after_body c
                        ∙ (ap
                              (λ q.
                                message (bytes32 (htonl n) ++ q)
                                  (record { pending = drop (n - 4) (body ++ rest); calls = left }))
                              (take_all body (n - 4) rest (sym e))
                            ∙ ap
                                (λ q.
                                  message (bytes32 (htonl n) ++ body)
                                    (record { pending = q; calls = left }))
                                (drop_all body (n - 4) rest (sym e))),
                    w,
                    omega (arith, b, d, least),
                  )
                ]
        ]

  -- A message is read whole however the connection cuts it: with a length from 8 to 10000 in front
  -- and no call that fails, and as many calls that give something as the message has bytes, its
  -- command is handled as the message stands, and what is behind it waits for the next call.
  pub read_from_server_whole :
      (hs : Handlers) (fresh : ℕ → Iface) (fuel now expected : ℕ) (rest : Bytes) (r : Router)
      → length body ≡ n - 4
      → n ≤ progress calls
      → (left : List Call) × (read_from_server_expect hs fresh fuel now expected
            (record { pending = bytes32 (htonl n) ++ (body ++ rest); calls = calls })
            r
          ≡ handled
              (handle_command hs fresh fuel now expected (bytes32 (htonl n) ++ body) r)
              (record { pending = rest; calls = left }))
  unfolding read_from_server_expect dispatch
  read_from_server_whole hs fresh fuel now expected rest r e p =
      let (left, q, clean_left, enough) = read_message-whole rest e p in
      (left, ap (dispatch (λ buf. handle_command hs fresh fuel now expected buf r)) q)

  truncated :
      (m : ℕ)
      → m < n - 4
      → length body ≡ n - 4
      → read_message (record { pending = bytes32 (htonl n) ++ take m body; calls = calls })
        ≡ unfinished
  unfolding read_message after_body after_length
  truncated m l e =
      elim (read_loop-complete [] 4 (bytes32 (htonl n) ++ take m body) calls clean (omega arith)) [
        | inl (a, b) ↦ ap after_length a
        | inr (cs, a, v, b) ↦
            ap after_length a
            ∙ after_length-got n _ least most
            ∙ ap after_body (
                read_loop-short (bytes32 (htonl n)) (n - 4) (take m body) cs v
                  (omega (arith, l, length-take m body (omega (arith, l, e)))))
      ]

  -- The bug: when the connection closes within a message, the router calls `recv` or `read` for
  -- ever. With no more than the first `k` bytes of a message, and no call that fails, the loop
  -- still runs after any number of calls.
  pub read_message_truncated :
      (k : ℕ)
      → k < n
      → length body ≡ n - 4
      → read_message (record { pending = take k (bytes32 (htonl n) ++ body); calls = calls })
        ≡ unfinished
  unfolding read_message after_length
  read_message_truncated zero l e =
      ap after_length (read_loop-short [] 4 _ calls clean (omega arith))
  read_message_truncated (suc zero) l e =
      ap after_length (read_loop-short [] 4 _ calls clean (omega arith))
  read_message_truncated (suc (suc zero)) l e =
      ap after_length (read_loop-short [] 4 _ calls clean (omega arith))
  read_message_truncated (suc (suc (suc zero))) l e =
      ap after_length (read_loop-short [] 4 _ calls clean (omega arith))
  read_message_truncated (suc (suc (suc (suc m)))) l e = truncated m (omega (arith, l)) e
