-- ===== src/Vns/Stream.antt =====
-- How sr_vns_comm.c reads a message from the connection: the loops of
-- `sr_read_from_server_expect` over `recv` and `read`.
use cmput.Base.{
  ℕ, zero, suc, ◌-◌, List, [], ◌∷◌, ◌++◌, Bytes, take, drop, le32, bytes32, htonl, length, ltb, leb,
  if◌then◌else◌,
}
use cmput.Iface.{Iface}
use cmput.Router.{Router, Outcome}
use cmput.Vns.{Reply, Handlers, handle_command}

-- What a call of `recv` or `read` does: it takes bytes, as many as there are, as were asked for
-- and as the number says at most, none of them when the connection is closed; or a signal breaks
-- it off; or it fails.
pub data Call : Type 0 where
  gives : ℕ → Call
  interrupted fails : Call

-- The bytes that the server has sent and that are not read yet, and what the calls to come do.
pub record Socket : Type 0 where
  pub pending : Bytes
  pub calls : List Call

-- A loop comes to its end, or a call fails, or the loop still runs after all the calls.
pub data Loop : Type 0 where
  got : Bytes → Socket → Loop
  broken running : Loop

-- A loop that still needs `n` bytes behind those of `read`.
unfoldable pub read_loop : Bytes → ℕ → Bytes → List Call → Loop
read_loop read zero pending calls = got read (record { pending = pending; calls = calls })
read_loop read (suc n) pending [] = running
read_loop read (suc n) pending (gives k ∷ calls) =
    let part = take (if leb k (suc n) then k else suc n) pending in
    read_loop (read ++ part) (suc n - length part) (drop (length part) pending) calls
read_loop read (suc n) pending (interrupted ∷ calls) = read_loop read (suc n) pending calls
read_loop read (suc n) pending (fails ∷ calls) = broken

-- A message with its length in front, or why there is none: `overrun` is a write behind the
-- buffer that `malloc` returned, when the length is below 4.
pub data Message : Type 0 where
  message : Bytes → Socket → Message
  too_large failed overrun unfinished : Message

-- The end of the second loop.
unfoldable pub after_body : Loop → Message
after_body (got buf s) = message buf s
after_body broken = failed
after_body running = unfinished

-- A length of 2 ^ 31 and more is a negative `int`.
unfoldable pub after_length : Loop → Message
after_length (got word s) =
    let len = htonl (le32 word) in
    let rest = after_body (read_loop (bytes32 (htonl len)) (len - 4) s.pending s.calls) in
    if ltb 10000 len then too_large else if ltb len 4 then overrun else rest
after_length broken = failed
after_length running = unfinished

unfoldable pub read_message : Socket → Message
read_message s = after_length (read_loop [] 4 s.pending s.calls)

-- `sr_read_from_server_expect`: what the command did to the router and how the connection goes
-- on, or why there was no command.
pub data Served : Type 0 where
  handled : Outcome Reply → Socket → Served
  no_command : Message → Served

unfoldable pub dispatch : (Bytes → Outcome Reply) → Message → Served
dispatch handle (message buf s) = handled (handle buf) s
dispatch handle too_large = no_command too_large
dispatch handle failed = no_command failed
dispatch handle overrun = no_command overrun
dispatch handle unfinished = no_command unfinished

unfoldable pub read_from_server_expect :
    Handlers → (ℕ → Iface) → ℕ → ℕ → ℕ → Socket → Router → Served
read_from_server_expect hs fresh fuel now expected s r =
    dispatch (λ buf. handle_command hs fresh fuel now expected buf r) (read_message s)
