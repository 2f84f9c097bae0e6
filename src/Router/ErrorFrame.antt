-- ===== src/Router/ErrorFrame.antt =====
-- The ICMP errors that `send_icmp_msg` makes, as bytes on the wire.
use cmput.Base.{
  ℕ, ◌+◌, ◌≤◌, ◌≡◌, suc, refl, sym, ap, ◌∙◌, List, [], ◌∷◌, Bytes, bytes16, htons, slice, splice,
  length, length-splice, slice-splice_before, slice-splice_inside, length-slice, arith, joined,
  joined_all, joined_size, get_or, drop, replicate, slice-joined,
}
use cmput.Checksum.{cksum}
use cmput.Packet.{stores, ip_hl}
use cmput.Packet.Stores.{Apart, slice-stores-Apart, slice-stores_nth, length-stores}
use cmput.Router.Address.{
  length-address_frame, slice-address_frame_behind, slice-address_frame_dhost,
  slice-address_frame_shost,
}
use cmput.Router.Frames.{address_frame, error_ip_header, error_icmp_header, error_packet}

-- A header with its checksum at offset `k`.
abbrev pub sealed : ℕ → Bytes → Bytes
sealed k h = splice h k (bytes16 (cksum h))

-- The fields of the IP header: version 4 and 5 words, length 56, don't fragment, TTL 255, ICMP.
abbrev error_ip_fields : Bytes → Bytes → List Bytes
error_ip_fields src dst =
    (0x45 ∷ [])
    ∷ (0 ∷ [])
    ∷ (0 ∷ 56 ∷ [])
    ∷ (0 ∷ 0 ∷ [])
    ∷ (0x40 ∷ 0 ∷ [])
    ∷ (255 ∷ [])
    ∷ (1 ∷ [])
    ∷ (0 ∷ 0 ∷ [])
    ∷ src
    ∷ dst
    ∷ []

abbrev pub error_ip : Bytes → Bytes → Bytes
error_ip src dst = joined (error_ip_fields src dst)

abbrev error_icmp_fields : ℕ → ℕ → Bytes → List Bytes
error_icmp_fields type code quote =
    (type ∷ []) ∷ (code ∷ []) ∷ (0 ∷ 0 ∷ []) ∷ (0 ∷ 0 ∷ []) ∷ (0 ∷ 0 ∷ []) ∷ quote ∷ []

abbrev pub error_icmp : ℕ → ℕ → Bytes → Bytes
error_icmp type code quote = joined (error_icmp_fields type code quote)

-- The whole frame.
abbrev pub error_frame : Bytes → Bytes → Bytes → Bytes → ℕ → ℕ → Bytes → Bytes
error_frame mac addr src dst type code quote = joined (
    mac
    ∷ addr
    ∷ (8 ∷ 0 ∷ [])
    ∷ sealed 10 (error_ip src dst)
    ∷ sealed 2 (error_icmp type code quote)
    ∷ [])

-- The stores into a header without options, in program order.
abbrev ip_writes : Bytes → Bytes → List (ℕ × Bytes)
ip_writes src dst =
    (6, replicate 6 0)
    ∷ (0, replicate 6 0)
    ∷ (12, 8 ∷ 0 ∷ [])
    ∷ (14, 0x45 ∷ [])
    ∷ (15, 0 ∷ [])
    ∷ (16, 0 ∷ 56 ∷ [])
    ∷ (18, 0 ∷ 0 ∷ [])
    ∷ (20, 0x40 ∷ 0 ∷ [])
    ∷ (22, 255 ∷ [])
    ∷ (23, 1 ∷ [])
    ∷ (26, src)
    ∷ (30, dst)
    ∷ (24, 0 ∷ 0 ∷ [])
    ∷ []

abbrev icmp_writes : ℕ → ℕ → Bytes → List (ℕ × Bytes)
icmp_writes type code quote =
    (34, type ∷ [])
    ∷ (35, code ∷ [])
    ∷ (38, 0 ∷ 0 ∷ [])
    ∷ (40, 0 ∷ 0 ∷ [])
    ∷ (42, quote)
    ∷ (36, 0 ∷ 0 ∷ [])
    ∷ []

module _ (p src dst : Bytes) (size : length p ≡ 70) (s : length src ≡ 4) (d : length dst ≡ 4) where
  slice-ip_writes : slice (stores p (ip_writes src dst)) 14 20 ≡ error_ip src dst
  slice-ip_writes =
      ap (λ n. slice (stores p (ip_writes src dst)) 14 n)
        (let e : 20 ≡ joined_size (error_ip_fields src dst) = omega arith in e)
      ∙ slice-joined (stores p (ip_writes src dst)) 14 (error_ip_fields src dst)
          (
            nth 3 1 refl (omega arith) (omega arith),
            (
              nth 4 1 refl (omega arith) (omega arith),
              (
                nth 5 2 refl (omega arith) (omega arith),
                (
                  nth 6 2 refl (omega arith) (omega arith),
                  (
                    nth 7 2 refl (omega arith) (omega arith),
                    (
                      nth 8 1 refl (omega arith) (omega arith),
                      (
                        nth 9 1 refl (omega arith) (omega arith),
                        (
                          nth 12 2 refl tt (omega arith),
                          (
                            nth 10 (length src) refl (omega arith) (omega arith),
                            (rw s (nth 11 (length dst) refl (omega arith) (omega arith)), tt),
                          ),
                        ),
                      ),
                    ),
                  ),
                ),
              ),
            ),
          )
          (omega (arith, length-stores p (ip_writes src dst)))
    where
      nth :
          (k n : ℕ)
          → let (o, xs) = get_or (ip_writes src dst) k (0, []) in
            n ≡ length xs
            → Apart o n (drop (suc k) (ip_writes src dst))
            → o + n ≤ length p
            → slice (stores p (ip_writes src dst)) o n ≡ xs
      nth = slice-stores_nth p (ip_writes src dst)

module _ (p quote : Bytes) (type code : ℕ) (size : length p ≡ 70) (q : length quote ≡ 28) where
  slice-icmp_writes :
      slice (stores p (icmp_writes type code quote)) 34 36 ≡ error_icmp type code quote
  slice-icmp_writes =
      ap (λ n. slice (stores p (icmp_writes type code quote)) 34 n)
        (let e : 36 ≡ joined_size (error_icmp_fields type code quote) = omega arith in e)
      ∙ slice-joined (stores p (icmp_writes type code quote)) 34 (error_icmp_fields type code quote)
          (
            nth 0 1 refl (omega arith) (omega arith),
            (
              nth 1 1 refl (omega arith) (omega arith),
              (
                nth 5 2 refl tt (omega arith),
                (
                  nth 2 2 refl (omega arith) (omega arith),
                  (
                    nth 3 2 refl (omega arith) (omega arith),
                    (nth 4 (length quote) refl (omega arith) (omega arith), tt),
                  ),
                ),
              ),
            ),
          )
          (omega (arith, length-stores p (icmp_writes type code quote)))
    where
      nth :
          (k n : ℕ)
          → let (o, xs) = get_or (icmp_writes type code quote) k (0, []) in
            n ≡ length xs
            → Apart o n (drop (suc k) (icmp_writes type code quote))
            → o + n ≤ length p
            → slice (stores p (icmp_writes type code quote)) o n ≡ xs
      nth = slice-stores_nth p (icmp_writes type code quote)

-- The packet that the stores and the two checksums make.
abbrev ip_part : Bytes → Bytes → Bytes → Bytes
ip_part p src dst =
    let q = stores p (ip_writes src dst) in splice q 24 (bytes16 (cksum (slice q 14 20)))

abbrev built : Bytes → Bytes → Bytes → ℕ → ℕ → Bytes → Bytes
built p src dst type code quote =
    let e = stores (ip_part p src dst) (icmp_writes type code quote) in
    splice e 36 (bytes16 (cksum (slice e 34 36)))

error_packet-built :
    (packet p src : Bytes) (type code : ℕ)
    → ip_hl packet ≡ 5
    → error_packet packet p src type code
      ≡ built p src (slice packet 26 4) type code (slice packet 14 28)
unfolding error_packet error_ip_header error_icmp_header htons
error_packet-built packet p src type code hl = rw hl refl

module _ (p src dst : Bytes) (type code : ℕ) (quote : Bytes) (size : length p ≡ 70)
    (s : length src ≡ 4) (d : length dst ≡ 4) (l : length quote ≡ 28) where
  length-ip_part : length (ip_part p src dst) ≡ 70
  length-ip_part =
      length-splice (stores p (ip_writes src dst)) 24 _ ∙ length-stores p (ip_writes src dst) ∙ size

  length-built : length (built p src dst type code quote) ≡ 70
  length-built =
      length-splice (stores (ip_part p src dst) (icmp_writes type code quote)) 36 _
      ∙ length-stores (ip_part p src dst) (icmp_writes type code quote)
      ∙ length-ip_part

  slice-built_front :
      (o n : ℕ)
      → o + n ≤ 34
      → slice (built p src dst type code quote) o n ≡ slice (ip_part p src dst) o n
  slice-built_front o n h =
      slice-splice_before (stores (ip_part p src dst) (icmp_writes type code quote)) 36 _ o n
        (omega arith)
      ∙ slice-stores-Apart (ip_part p src dst) (icmp_writes type code quote) o n (omega arith)

  slice-built_type : slice (built p src dst type code quote) 12 2 ≡ 8 ∷ 0 ∷ []
  slice-built_type =
      slice-built_front 12 2 (omega arith)
      ∙ slice-splice_before (stores p (ip_writes src dst)) 24 _ 12 2 (omega arith)
      ∙ slice-stores_nth p (ip_writes src dst) 2 2 refl (omega arith) (omega arith)

  slice-built_ip : slice (built p src dst type code quote) 14 20 ≡ sealed 10 (error_ip src dst)
  slice-built_ip =
      slice-built_front 14 20 (omega arith)
      ∙ slice-splice_inside (stores p (ip_writes src dst)) 24 (bytes16 _) 14 20 10 refl
          (omega arith)
      ∙ ap (sealed 10) (slice-ip_writes p src dst size s d)

  slice-built_icmp :
      slice (built p src dst type code quote) 34 36 ≡ sealed 2 (error_icmp type code quote)
  slice-built_icmp =
      slice-splice_inside (stores (ip_part p src dst) (icmp_writes type code quote)) 36 (bytes16 _)
        34 36 2 refl (omega arith)
      ∙ ap (sealed 2) (slice-icmp_writes (ip_part p src dst) quote type code length-ip_part l)

  built_frame :
      (mac addr : Bytes)
      → length mac ≡ 6
      → length addr ≡ 6
      → address_frame (built p src dst type code quote) mac addr
        ≡ error_frame mac addr src dst type code quote
  built_frame mac addr m a =
      joined_all frame (mac ∷ addr ∷ (8 ∷ 0 ∷ []) ∷ ip ∷ icmp ∷ [])
        (
          rw m (slice-address_frame_dhost b mac addr m a (omega (arith, length-built))),
          (
            rw (m, a) (slice-address_frame_shost b mac addr m a (omega (arith, length-built))),
            (
              rw (m, a) (moved 12 2 (omega arith) ∙ slice-built_type),
              (
                rw (m, a, ip_size) (moved 14 20 (omega arith) ∙ slice-built_ip),
                (rw (m, a, ip_size, icmp_size) (moved 34 36 (omega arith) ∙ slice-built_icmp), tt),
              ),
            ),
          ),
        )
        (omega (arith, length-address_frame b mac addr m a, length-built, ip_size, icmp_size))
    where
      b : Bytes
      b = built p src dst type code quote

      frame : Bytes
      frame = address_frame b mac addr

      ip : Bytes
      ip = sealed 10 (error_ip src dst)

      icmp : Bytes
      icmp = sealed 2 (error_icmp type code quote)

      moved : (o n : ℕ) → 12 ≤ o → slice frame o n ≡ slice b o n
      moved = slice-address_frame_behind b mac addr m a

      ip_size : length ip ≡ 20
      ip_size = sym (ap length slice-built_ip) ∙ length-slice b 14 20 (omega (arith, length-built))

      icmp_size : length icmp ≡ 36
      icmp_size =
          sym (ap length slice-built_icmp) ∙ length-slice b 34 36 (omega (arith, length-built))

-- What `send_icmp_msg` makes of a packet without IP options in 70 bytes of memory: nothing of what
-- the memory held is left.
pub error_packet_frame :
    (packet p src mac addr : Bytes) (type code : ℕ)
    → ip_hl packet ≡ 5
    → 42 ≤ length packet
    → length p ≡ 70
    → length src ≡ 4
    → length mac ≡ 6
    → length addr ≡ 6
    → address_frame (error_packet packet p src type code) mac addr
      ≡ error_frame mac addr src (slice packet 26 4) type code (slice packet 14 28)
error_packet_frame packet p src mac addr type code hl long size s m a =
    ap (λ b. address_frame b mac addr) (error_packet-built packet p src type code hl)
    ∙ built_frame p src (slice packet 26 4) type code (slice packet 14 28) size s
        (length-slice packet 26 4 (omega arith)) (length-slice packet 14 28 long) mac addr m a

pub length-error_packet :
    (packet p src : Bytes) (type code : ℕ)
    → ip_hl packet ≡ 5
    → 42 ≤ length packet
    → length p ≡ 70
    → length src ≡ 4
    → length (error_packet packet p src type code) ≡ 70
length-error_packet packet p src type code hl long size s =
    ap length (error_packet-built packet p src type code hl)
    ∙ length-built p src (slice packet 26 4) type code (slice packet 14 28) size s
        (length-slice packet 26 4 (omega arith)) (length-slice packet 14 28 long)
