-- ===== src/Examples/Connection.antt =====
-- Messages of the VNS server in a byte stream, on concrete inputs.
use cmput.Base.{◌≡◌, refl, List, [], ◌∷◌, ◌++◌, Bytes, bytes32, htonl, take, drop, arith}
use cmput.Vns.Stream.{
  Call, gives, interrupted, read_loop, message, unfinished, after_body, after_length, read_message,
}
use cmput.Vns.Delivery.{read_message_truncated}

-- VNSCLOSE behind its length.
abbrev body : Bytes
body = 0 ∷ 0 ∷ 0 ∷ 2 ∷ []

abbrev calls : List Call
calls =
    gives 3
    ∷ interrupted
    ∷ gives 100
    ∷ gives 1
    ∷ gives 2
    ∷ gives 2
    ∷ gives 2
    ∷ gives 2
    ∷ gives 2
    ∷ []

read_message_truncated_example :
    read_message (record { pending = take 6 (bytes32 (htonl 8) ++ body); calls = calls })
    ≡ unfinished
read_message_truncated_example =
    read_message_truncated 8 body calls (omega arith) (omega arith)
      (tt, (tt, (tt, (tt, (tt, (tt, (tt, (tt, (tt, tt))))))))) 6 (omega arith) refl

-- What is read, in six calls.
read :
    read_message (record { pending = 0 ∷ 0 ∷ 0 ∷ 8 ∷ 0 ∷ 0 ∷ 0 ∷ 2 ∷ 7 ∷ []; calls = calls })
    ≡ message
        (0 ∷ 0 ∷ 0 ∷ 8 ∷ 0 ∷ 0 ∷ 0 ∷ 2 ∷ [])
        (record { pending = 7 ∷ []; calls = drop 6 calls })
unfolding read_message after_length after_body read_loop htonl
read = refl
