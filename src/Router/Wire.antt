-- ===== src/Router/Wire.antt =====
-- The messages in which frames go to the server, as the server reads them (c_packet_header of
-- assignment-3/router/vnscommand.h).
use cmput.Base.{
  ℕ, ◌+◌, ◌-◌, ◌^◌, ◌≤◌, ◌<◌, ◌≡◌, refl, ap, ◌∙◌, [], ◌∷◌, ◌++◌, Bytes, replicate, slice, take,
  take_all, zero, suc, sym, drop, length, length-append, le32, htonl, arith,
}
use cmput.Vns.Delivery.{drop_all}
use cmput.Vns.Session.Reply.{field_word}
use cmput.Router.Send.{packet_message, interface_name}

-- What the server reads in a message: its length, the type VNSPACKET, the interface, with NULs
-- behind it up to 16 bytes, and the frame.
pub record IsPacket (frame name msg : Bytes) : Type 0 where
  pub size : htonl (le32 msg) ≡ length msg
  pub type : htonl (le32 (drop 4 msg)) ≡ 4
  pub interface : slice msg 8 16 ≡ name ++ replicate (16 - length name) 0
  pub content : drop 24 msg ≡ frame

take_zeros : (k m : ℕ) → k ≤ m → take {A = ℕ} k (replicate m 0) ≡ replicate k 0
take_zeros zero m h = refl
take_zeros (suc k) zero h = absurd (omega arith)
take_zeros (suc k) (suc m) h = ap (λ b. 0 ∷ b) (take_zeros k m (omega arith))

take_padded :
    (k m : ℕ) (w : Bytes)
    → length w ≤ k
    → k ≤ m + length w
    → take k (w ++ replicate m 0) ≡ w ++ replicate (k - length w) 0
take_padded k m [] h l =
    take_zeros k m (omega arith) ∙ ap (λ j. replicate j 0) (let e : k ≡ k - 0 = omega arith in e)
take_padded zero m (c ∷ w) h l = absurd (omega arith)
take_padded (suc k) m (c ∷ w) h l =
    ap (λ b. c ∷ b)
      (take_padded k m w (omega arith) (omega arith)
        ∙ ap (λ j. w ++ replicate j 0)
            (let e : k - length w ≡ suc k - suc (length w) = omega arith in e))

length-replicate : (k : ℕ) → length {A = ℕ} (replicate k 0) ≡ k
length-replicate zero = refl
length-replicate (suc k) = ap suc (length-replicate k)

-- The message that `sr_send_packet` makes of a frame of less than 2 ^ 31 bytes for an interface with
-- a name of at most 16 bytes: the server can take it apart, and finds that name and that frame.
pub packet_message_lem :
    (frame name : Bytes)
    → length frame < 2 ^ 31
    → length name ≤ 16
    → IsPacket frame name (packet_message frame name)
unfolding packet_message interface_name slice
packet_message_lem frame name h n = record {
  size =
      field_word (length frame + 24) (omega (arith, h))
      ∙ omega (arith, length-append (interface_name name) frame, sixteen);
  type = refl;
  interface = take_all (interface_name name) 16 frame (sym sixteen) ∙ padded;
  content = drop_all (interface_name name) 16 frame (sym sixteen);
}
  where
    padded : interface_name name ≡ name ++ replicate (16 - length name) 0
    padded = take_padded 16 16 name n (omega arith)

    sixteen : length (interface_name name) ≡ 16
    sixteen =
        ap length padded
        ∙ omega (
          arith,
          n,
          length-append name (replicate (16 - length name) 0),
          length-replicate (16 - length name),
        )
