-- ===== src/Router/NextHop.antt =====
-- The frame that `sr_forward_ip_packet` sends to the next hop.
use cmput.Base.{
  ℕ, ◌+◌, ◌-◌, ◌%◌, ◌≤◌, ◌<◌, ◌≡◌, refl, sym, subst, ap, le8, le8-lt, ◌∙◌, [], ◌∷◌, Bytes, bytes16,
  slice, splice, length, length-splice, slice-splice, slice-splice_before, slice-splice_after,
  AreBytes, length-slice, slice-AreBytes, splice-AreBytes, slice-splice_inside, arith,
}
use cmput.Checksum.{cksum}
use cmput.Checksum.Laws.{word_sum, receiver_test}
use cmput.Packet.{stores, ether_dhost, ether_shost, ip_ttl}
use cmput.Router.Frames.{address_frame}
use cmput.Router.Address.{
  length-address_frame, slice-address_frame_behind, slice-address_frame_dhost,
  slice-address_frame_shost,
}
use cmput.Router.Handle.{next_hop_frame}

-- `frame` is `packet` on its way to the next hop: new MAC addresses, a TTL one smaller, a checksum
-- that the next hop's test accepts, and every other byte as it was.
pub record IsForwarded (packet frame mac addr : Bytes) : Type 0 where
  pub size : length frame ≡ length packet
  pub dhost : ether_dhost frame ≡ mac
  pub shost : ether_shost frame ≡ addr
  pub type_to_offset : slice frame 12 10 ≡ slice packet 12 10
  pub ttl : ip_ttl frame ≡ ip_ttl packet - 1
  pub protocol : slice frame 23 1 ≡ slice packet 23 1
  pub addresses_on : (n : ℕ) → slice frame 26 n ≡ slice packet 26 n
  pub checksum : word_sum (slice frame 14 20) % 0xffff ≡ 0

-- The frame with a new TTL and no checksum, and with a checksum.
abbrev pub lowered : Bytes → ℕ → Bytes
lowered b t = splice (splice b 22 (t ∷ [])) 24 (0 ∷ 0 ∷ [])

abbrev pub summed : Bytes → ℕ → ℕ → Bytes
summed b t c = splice (lowered b t) 24 (bytes16 c)

module _ (b : Bytes) (t c : ℕ) where
  pub slice-summed_before : (o n : ℕ) → o + n ≤ 22 → slice (summed b t c) o n ≡ slice b o n
  slice-summed_before o n h =
      slice-splice_before (lowered b t) 24 (bytes16 c) o n (omega arith)
      ∙ slice-splice_before (splice b 22 (t ∷ [])) 24 (0 ∷ 0 ∷ []) o n (omega arith)
      ∙ slice-splice_before b 22 (t ∷ []) o n h

  slice-summed_protocol : slice (summed b t c) 23 1 ≡ slice b 23 1
  slice-summed_protocol =
      slice-splice_before (lowered b t) 24 (bytes16 c) 23 1 (omega arith)
      ∙ slice-splice_before (splice b 22 (t ∷ [])) 24 (0 ∷ 0 ∷ []) 23 1 (omega arith)
      ∙ slice-splice_after b 22 (t ∷ []) 23 1 (omega arith)

  pub slice-summed_after : (o n : ℕ) → 26 ≤ o → slice (summed b t c) o n ≡ slice b o n
  slice-summed_after o n h =
      slice-splice_after (lowered b t) 24 (bytes16 c) o n (omega arith)
      ∙ slice-splice_after (splice b 22 (t ∷ [])) 24 (0 ∷ 0 ∷ []) o n (omega arith)
      ∙ slice-splice_after b 22 (t ∷ []) o n (omega arith)

  slice-summed_ttl : 34 ≤ length b → slice (summed b t c) 22 1 ≡ t ∷ []
  slice-summed_ttl h =
      slice-splice_before (lowered b t) 24 (bytes16 c) 22 1 (omega arith)
      ∙ slice-splice_before (splice b 22 (t ∷ [])) 24 (0 ∷ 0 ∷ []) 22 1 (omega arith)
      ∙ slice-splice b 22 (t ∷ []) 1 refl (omega arith)

  pub length-summed : length (summed b t c) ≡ length b
  length-summed =
      length-splice (lowered b t) 24 (bytes16 c)
      ∙ length-splice (splice b 22 (t ∷ [])) 24 (0 ∷ 0 ∷ [])
      ∙ length-splice b 22 (t ∷ [])

-- The header of the frame whose checksum field was filled with the checksum of its header.
header_test :
    (b : Bytes) (t : ℕ)
    → AreBytes b
    → 34 ≤ length b
    → t < 256
    → word_sum (slice (summed b t (cksum (slice (lowered b t) 14 20))) 14 20) % 0xffff ≡ 0
header_test b t v h lt =
    let u : Bytes = splice b 22 (t ∷ []) in
    let k : Bytes = slice u 14 20 in
    let e : slice (lowered b t) 14 20 ≡ splice k 10 (0 ∷ 0 ∷ []) =
      slice-splice_inside u 24 (0 ∷ 0 ∷ []) 14 20 10 refl (omega arith) in
    let n : length k ≡ 20 = length-slice u 14 20 (omega (arith, length-splice b 22 (t ∷ []))) in
    rw
      (
        slice-splice_inside (lowered b t) 24 (bytes16 (cksum (slice (lowered b t) 14 20))) 14 20 10
            refl (omega arith),
        e,
      )
      (receiver_test k (slice-AreBytes u 14 20 (splice-AreBytes b 22 (t ∷ []) v (lt, tt)))
        (omega arith) (omega arith))

-- `ip_ttl--` and the new checksum, after the checksum field was cleared.
pub next_hop_frame-summed :
    (b : Bytes)
    → next_hop_frame b ≡ summed b (ip_ttl b - 1) (cksum (slice (lowered b (ip_ttl b - 1)) 14 20))
unfolding next_hop_frame stores
next_hop_frame-summed b = refl

-- `frame` is `packet` with a TTL one smaller and a checksum that the next hop's test accepts.
pub record IsLowered (packet frame : Bytes) : Type 0 where
  pub size : length frame ≡ length packet
  pub front : slice frame 0 22 ≡ slice packet 0 22
  pub ttl : ip_ttl frame ≡ ip_ttl packet - 1
  pub protocol : slice frame 23 1 ≡ slice packet 23 1
  pub addresses_on : (n : ℕ) → slice frame 26 n ≡ slice packet 26 n
  pub checksum : word_sum (slice frame 14 20) % 0xffff ≡ 0

pub next_hop_frame-IsLowered :
    (packet : Bytes)
    → AreBytes packet
    → 34 ≤ length packet
    → IsLowered packet (next_hop_frame (splice packet 24 (bytes16 0)))
next_hop_frame-IsLowered packet v h =
    subst (IsLowered packet) (sym (next_hop_frame-summed b)) (record {
      size = length-summed b t c ∙ length-splice packet 24 (0 ∷ 0 ∷ []);
      front =
          slice-summed_before b t c 0 22 (omega arith)
          ∙ slice-splice_before packet 24 (0 ∷ 0 ∷ []) 0 22 (omega arith);
      ttl =
          ap le8 (slice-summed_ttl b t c tall)
          ∙ ap (λ x. le8 x - 1) (slice-splice_before packet 24 (0 ∷ 0 ∷ []) 22 1 (omega arith));
      protocol =
          slice-summed_protocol b t c
          ∙ slice-splice_before packet 24 (0 ∷ 0 ∷ []) 23 1 (omega arith);
      addresses_on = λ n.
          slice-summed_after b t c 26 n (omega arith)
          ∙ slice-splice_after packet 24 (0 ∷ 0 ∷ []) 26 n (omega arith);
      checksum =
          header_test b t (splice-AreBytes packet 24 (0 ∷ 0 ∷ []) v (omega arith)) tall
            (omega (arith, le8-lt (slice b 22 1) (slice-AreBytes b 22 1 zeroed)));
    })
  where
    b : Bytes
    b = splice packet 24 (0 ∷ 0 ∷ [])

    zeroed : AreBytes b
    zeroed = splice-AreBytes packet 24 (0 ∷ 0 ∷ []) v (omega arith)

    t : ℕ
    t = ip_ttl b - 1

    c : ℕ
    c = cksum (slice (lowered b t) 14 20)

    tall : 34 ≤ length b
    tall = omega (arith, length-splice packet 24 (0 ∷ 0 ∷ []))

-- The frame that `sr_forward_ip_packet` sends.
abbrev pub forwarded : Bytes → Bytes → Bytes → Bytes
forwarded packet mac addr = address_frame (next_hop_frame (splice packet 24 (bytes16 0))) mac addr

pub forwarded-IsForwarded :
    (packet mac addr : Bytes)
    → AreBytes packet
    → 34 ≤ length packet
    → length mac ≡ 6
    → length addr ≡ 6
    → IsForwarded packet (forwarded packet mac addr) mac addr
forwarded-IsForwarded packet mac addr v h m a = record {
  size = length-address_frame s mac addr m a ∙ low.size;
  dhost = slice-address_frame_dhost s mac addr m a long;
  shost = slice-address_frame_shost s mac addr m a long;
  type_to_offset =
      moved 12 10 (omega arith)
      ∙ slice-next_hop_front
      ∙ slice-splice_before packet 24 (0 ∷ 0 ∷ []) 12 10 (omega arith);
  ttl = ap le8 (moved 22 1 (omega arith)) ∙ low.ttl;
  protocol = moved 23 1 (omega arith) ∙ low.protocol;
  addresses_on = λ n. moved 26 n (omega arith) ∙ low.addresses_on n;
  checksum = ap (λ x. word_sum x % 0xffff) (moved 14 20 (omega arith)) ∙ low.checksum;
}
  where
    b : Bytes
    b = splice packet 24 (0 ∷ 0 ∷ [])

    s : Bytes
    s = next_hop_frame b

    low : IsLowered packet s
    low = next_hop_frame-IsLowered packet v h

    long : 12 ≤ length s
    long = omega (arith, low.size)

    slice-next_hop_front : slice s 12 10 ≡ slice b 12 10
    slice-next_hop_front =
        ap (λ f. slice f 12 10) (next_hop_frame-summed b)
        ∙ slice-summed_before b _ _ 12 10 (omega arith)

    moved : (o n : ℕ) → 12 ≤ o → slice (address_frame s mac addr) o n ≡ slice s o n
    moved = slice-address_frame_behind s mac addr m a
