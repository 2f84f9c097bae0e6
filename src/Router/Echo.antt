-- ===== src/Router/Echo.antt =====
-- The reply to an echo request for one of the router's own addresses.
use cmput.Base.{
  ℕ, ◌+◌, ◌%◌, ◌^◌, ◌≤◌, ◌<◌, ◌≡◌, refl, sym, ap, ◌∙◌, inr, [], ◌∷◌, ◌++◌, Bytes, bytes16, slice,
  splice, length, length-splice, slice-splice_before, slice-splice_after, slice-splice_inside,
  slice-append, length-slice, AreBytes, splice-AreBytes, slice-AreBytes, arith,
}
use cmput.Checksum.{cksum}
use cmput.Checksum.Laws.{word_sum, double, receiver_test_at, word_sum-append}
use cmput.Packet.{stores}
use cmput.Packet.Stores.{slice-stores-Apart, slice-stores_nth, length-stores}
use cmput.Router.Frames.{no_mac, swap_addresses, icmp_header}

-- The header of the packet at `o`, before and after its checksum is filled in.
abbrev pub blank_reply : Bytes → ℕ → Bytes
blank_reply packet o = icmp_header (swap_addresses packet) o 0 0

abbrev pub reply_packet : Bytes → ℕ → ℕ → Bytes
reply_packet packet o n =
    splice (blank_reply packet o) (o + 2) (bytes16 (cksum (slice (blank_reply packet o) o n)))

module _ (packet : Bytes) (l : 34 ≤ length packet) where
  pub length-swap : length (swap_addresses packet) ≡ length packet
  unfolding swap_addresses
  length-swap = length-stores packet _

  pub slice-swap_middle :
      (o n : ℕ) → 12 ≤ o → o + n ≤ 26 → slice (swap_addresses packet) o n ≡ slice packet o n
  unfolding swap_addresses
  slice-swap_middle o n h k = slice-stores-Apart packet _ o n (omega arith)

  pub slice-swap_behind : (o n : ℕ) → 34 ≤ o → slice (swap_addresses packet) o n ≡ slice packet o n
  unfolding swap_addresses
  slice-swap_behind o n h =
      slice-stores-Apart packet _ o n
        (omega (arith, length-slice packet 26 4 (omega arith), length-slice packet 30 4 l))

  pub slice-swap_src : slice (swap_addresses packet) 26 4 ≡ slice packet 30 4
  unfolding swap_addresses
  slice-swap_src =
      let s = length-slice packet 30 4 l in slice-stores_nth packet _ 3 4 (sym s) tt (omega arith)

  pub slice-swap_dst : slice (swap_addresses packet) 30 4 ≡ slice packet 26 4
  unfolding swap_addresses
  slice-swap_dst =
      let s = length-slice packet 26 4 (omega arith) in
      let t = length-slice packet 30 4 l in
      slice-stores_nth packet _ 2 4 (sym s) (inr (omega arith), tt) (omega arith)

swap_addresses-AreBytes : (packet : Bytes) → AreBytes packet → AreBytes (swap_addresses packet)
unfolding swap_addresses stores
swap_addresses-AreBytes packet v =
    let src = slice-AreBytes packet 26 4 v in
    let dst = slice-AreBytes packet 30 4 v in
    splice-AreBytes _ 26 (slice packet 30 4)
      (splice-AreBytes _ 30 (slice packet 26 4)
        (splice-AreBytes _ 0 no_mac (splice-AreBytes packet 6 no_mac v (omega arith)) (omega arith))
        src)
      dst

-- The sum of the words of the IP header: swapping the addresses does not change it.
module _ (packet : Bytes) (k : ℕ) (l : 34 + double k ≤ length packet) where
  parts :
      (b : Bytes)
      → length b ≡ length packet
      → word_sum (slice b 14 (20 + double k))
        ≡ word_sum (slice b 14 12)
          + (word_sum (slice b 26 4) + (word_sum (slice b 30 4) + word_sum (slice b 34 (double k))))
  parts b e =
      ap word_sum (
        slice-append b 14 12 (8 + double k) (20 + double k) 26 (omega (arith, e)) (omega arith)
          refl)
      ∙ word_sum-append 6 (slice b 14 12) (slice b 26 (8 + double k))
          (length-slice b 14 12 (omega (arith, e)))
      ∙ ap (λ s. word_sum (slice b 14 12) + s)
          (ap word_sum (
              slice-append b 26 4 (4 + double k) (8 + double k) 30 (omega (arith, e)) (omega arith)
                refl)
            ∙ word_sum-append 2 (slice b 26 4) (slice b 30 (4 + double k))
                (length-slice b 26 4 (omega (arith, e)))
            ∙ ap (λ s. word_sum (slice b 26 4) + s)
                (ap word_sum
                    (slice-append b 30 4 (double k) (4 + double k) 34 (omega (arith, e)) refl refl)
                  ∙ word_sum-append 2 (slice b 30 4) (slice b 34 (double k))
                      (length-slice b 30 4 (omega (arith, e)))))

  pub word_sum-swap :
      word_sum (slice (swap_addresses packet) 14 (20 + double k))
      ≡ word_sum (slice packet 14 (20 + double k))
  word_sum-swap =
      parts (swap_addresses packet) (length-swap packet (omega arith))
      ∙ rw
          (
            slice-swap_middle packet (omega arith) 14 12 (omega arith) (omega arith),
            slice-swap_src packet (omega arith),
            slice-swap_dst packet (omega arith),
            slice-swap_behind packet (omega arith) 34 (double k) (omega arith),
          )
          (omega (arith, parts packet refl))

-- The reply, seen through the stores into the ICMP header at `o`; its checksum is over `n` bytes.
module _ (packet : Bytes) (o n : ℕ) (h : 34 ≤ o) (l : 4 ≤ n) (k : o + n ≤ length packet) where
  pub length-blank : length (blank_reply packet o) ≡ length packet
  unfolding icmp_header
  length-blank = length-stores (swap_addresses packet) _ ∙ length-swap packet (omega arith)

  pub slice-blank_header :
      (p m : ℕ) → 12 ≤ p → p + m ≤ 26 → slice (blank_reply packet o) p m ≡ slice packet p m
  unfolding icmp_header
  slice-blank_header p m e f =
      slice-stores-Apart (swap_addresses packet) _ p m (omega arith)
      ∙ slice-swap_middle packet (omega arith) p m e f

  pub length-reply : length (reply_packet packet o n) ≡ length packet
  unfolding icmp_header
  length-reply =
      length-splice (blank_reply packet o) (o + 2)
        (bytes16 (cksum (slice (blank_reply packet o) o n)))
      ∙ length-blank

  pub slice-reply_front :
      (p m : ℕ)
      → p + m ≤ o
      → slice (reply_packet packet o n) p m ≡ slice (swap_addresses packet) p m
  unfolding icmp_header
  slice-reply_front p m e =
      slice-splice_before (blank_reply packet o) (o + 2) _ p m (omega arith)
      ∙ slice-stores-Apart (swap_addresses packet) _ p m (omega arith)

  pub slice-reply_data :
      (p m : ℕ) → o + 4 ≤ p → slice (reply_packet packet o n) p m ≡ slice packet p m
  unfolding icmp_header
  slice-reply_data p m e =
      slice-splice_after (blank_reply packet o) (o + 2) (bytes16 _) p m (omega arith)
      ∙ slice-stores-Apart (swap_addresses packet) _ p m (omega arith)
      ∙ slice-swap_behind packet (omega arith) p m (omega arith)

  pub slice-reply_head : slice (reply_packet packet o n) o 2 ≡ 0 ∷ 0 ∷ []
  unfolding icmp_header
  slice-reply_head =
      slice-splice_before (blank_reply packet o) (o + 2) _ o 2 (omega arith)
      ∙ slice-append (blank_reply packet o) o 1 1 2 (o + 1) (omega (arith, long)) refl refl
      ∙ ap (λ b. b ++ slice (blank_reply packet o) (o + 1) 1)
          (slice-stores_nth (swap_addresses packet) _ 0 1 refl (omega arith)
            (omega (arith, swapped)))
      ∙ ap (λ b. 0 ∷ b)
          (slice-stores_nth (swap_addresses packet) _ 1 1 refl (omega arith)
            (omega (arith, swapped)))
    where
      swapped : length (swap_addresses packet) ≡ length packet
      swapped = length-swap packet (omega arith)

      long : length (blank_reply packet o) ≡ length packet
      long = length-blank

  pub reply_checksum :
      AreBytes packet → n < 2 ^ 16 → word_sum (slice (reply_packet packet o n) o n) % 0xffff ≡ 0
  unfolding icmp_header swap_addresses stores
  reply_checksum v small =
      rw
        (
          slice-splice_inside (blank_reply packet o) (o + 2)
              (bytes16 (cksum (slice (blank_reply packet o) o n))) o n 2 refl (omega arith),
          slice-splice_inside typed (o + 2) (0 ∷ 0 ∷ []) o n 2 refl (omega arith),
        )
        (receiver_test_at 1 (slice typed o n) (slice-AreBytes typed o n typed-AreBytes)
          (omega (arith, size)) (omega (arith, size)))
    where
      swapped : Bytes
      swapped = swap_addresses packet

      typed : Bytes
      typed = splice (splice swapped o (0 ∷ [])) (o + 1) (0 ∷ [])

      size : length (slice typed o n) ≡ n
      size = length-slice typed o n (
          omega (
            arith,
            length-splice (splice swapped o (0 ∷ [])) (o + 1) (0 ∷ []),
            length-splice swapped o (0 ∷ []),
            length-swap packet (omega arith),
          ))

      swapped-AreBytes : AreBytes swapped
      swapped-AreBytes = swap_addresses-AreBytes packet v

      typed-AreBytes : AreBytes typed
      typed-AreBytes =
          splice-AreBytes (splice swapped o (0 ∷ [])) (o + 1) (0 ∷ [])
            (splice-AreBytes swapped o (0 ∷ []) swapped-AreBytes (omega arith)) (omega arith)
