-- ===== src/Print/Bounds.antt =====
-- Printing stays inside the frame.
use Prim.Native.String.{String}
use cmput.Base.{
  ℕ, zero, suc, ◌+◌, ◌≤◌, ◌≡◌, refl, List, [], ◌∷◌, none, some, All, Bytes, length, leb, ltb, Bool,
  true, false, if◌then◌else◌, le16, htons, slice, arith, ◌==◌, bit_and,
}
use cmput.Print.{
  Fprintf, Printed, ethertype, ip_protocol, in_turn, show, addr_bytes, print_addr_eth, print_ip_at,
  print_hdr_eth, fragment_flag, print_hdr_ip, print_hdr_icmp, print_hdr_arp, print_ip_hdrs,
  print_arp_hdrs, print_hdrs,
}

-- Something is printed: no read was behind the buffer.
abbrev pub IsPrinted : Printed → Type 0
IsPrinted p = (out : List Fprintf) × (p ≡ some out)

in_turn-IsPrinted : (ps : List Printed) → All IsPrinted ps → IsPrinted (in_turn ps)
unfolding in_turn
in_turn-IsPrinted [] v = ([], refl)
in_turn-IsPrinted (none ∷ ps) v = absurd (cc v.0.1)
in_turn-IsPrinted (some out ∷ ps) v =
    let (more, e) = in_turn-IsPrinted ps v.1 in rw (e, in_turn) (_, refl)

if-IsPrinted :
    (b : Bool) {p q : Printed}
    → (b ≡ true → IsPrinted p)
    → (b ≡ false → IsPrinted q)
    → IsPrinted (if b then p else q)
if-IsPrinted true h k = h refl
if-IsPrinted false h k = k refl

fragment_flag-IsPrinted : (off : ℕ) → IsPrinted (fragment_flag off)
unfolding fragment_flag
fragment_flag-IsPrinted off =
    if-IsPrinted (ltb 0 (bit_and off 0x4000)) (λ e. (_, refl))
      (λ e.
        if-IsPrinted (ltb 0 (bit_and off 0x2000)) (λ e. (_, refl))
          (λ e. if-IsPrinted (ltb 0 (bit_and off 0x8000)) (λ e. (_, refl)) (λ e. (_, refl))))

module _ (buf : Bytes) where
  show-IsPrinted :
      (o n : ℕ) (format : String) (get : Bytes → ℕ)
      → o + n ≤ length buf
      → IsPrinted (show buf o n format get)
  unfolding show
  show-IsPrinted o n format get h =
      if-IsPrinted (leb (o + n) (length buf)) (λ e. (_, refl)) (λ e. absurd (ground (arith, h, e)))

  print_ip_at-IsPrinted : (o : ℕ) → o + 4 ≤ length buf → IsPrinted (print_ip_at buf o)
  unfolding print_ip_at
  print_ip_at-IsPrinted o h =
      if-IsPrinted (leb (o + 4) (length buf)) (λ e. (_, refl)) (λ e. absurd (ground (arith, h, e)))

  addr_bytes-IsPrinted :
      (o pos n : ℕ) → o + pos + n ≤ length buf → IsPrinted (addr_bytes buf o pos n)
  unfolding addr_bytes
  addr_bytes-IsPrinted o pos zero h = ([], refl)
  addr_bytes-IsPrinted o pos (suc n) h = in_turn-IsPrinted _ (
    if-IsPrinted (ltb 0 pos) (λ e. (_, refl)) (λ e. (_, refl)),
    (
      show-IsPrinted (o + pos) 1 _ _ (omega arith),
      (addr_bytes-IsPrinted o (suc pos) n (omega arith), tt),
    ),
  )

  print_addr_eth-IsPrinted : (o : ℕ) → o + 6 ≤ length buf → IsPrinted (print_addr_eth buf o)
  unfolding print_addr_eth
  print_addr_eth-IsPrinted o h =
      in_turn-IsPrinted _ (addr_bytes-IsPrinted o 0 6 (omega arith), ((_, refl), tt))

  print_hdr_eth-IsPrinted : (o : ℕ) → o + 14 ≤ length buf → IsPrinted (print_hdr_eth buf o)
  unfolding print_hdr_eth
  print_hdr_eth-IsPrinted o h = in_turn-IsPrinted _ (
    (_, refl),
    (
      (_, refl),
      (
        print_addr_eth-IsPrinted o (omega arith),
        (
          (_, refl),
          (
            print_addr_eth-IsPrinted (o + 6) (omega arith),
            (show-IsPrinted (o + 12) 2 _ _ (omega arith), tt),
          ),
        ),
      ),
    ),
  )

  print_hdr_ip-IsPrinted : (o : ℕ) → o + 20 ≤ length buf → IsPrinted (print_hdr_ip buf o)
  unfolding print_hdr_ip
  print_hdr_ip-IsPrinted o h = in_turn-IsPrinted _ (
    (_, refl),
    (
      show-IsPrinted o 1 _ _ (omega arith),
      (
        show-IsPrinted o 1 _ _ (omega arith),
        (
          show-IsPrinted (o + 1) 1 _ _ (omega arith),
          (
            show-IsPrinted (o + 2) 2 _ _ (omega arith),
            (
              show-IsPrinted (o + 4) 2 _ _ (omega arith),
              (
                flag,
                (
                  show-IsPrinted (o + 6) 2 _ _ (omega arith),
                  (
                    show-IsPrinted (o + 8) 1 _ _ (omega arith),
                    (
                      show-IsPrinted (o + 9) 1 _ _ (omega arith),
                      (
                        show-IsPrinted (o + 10) 2 _ _ (omega arith),
                        (
                          (_, refl),
                          (
                            print_ip_at-IsPrinted (o + 12) (omega arith),
                            ((_, refl), (print_ip_at-IsPrinted (o + 16) (omega arith), tt)),
                          ),
                        ),
                      ),
                    ),
                  ),
                ),
              ),
            ),
          ),
        ),
      ),
    ),
  )
    where
      flag : IsPrinted (
          if leb (o + 8) (length buf)
          then fragment_flag (htons (le16 (slice buf (o + 6) 2)))
          else none)
      flag =
          if-IsPrinted (leb (o + 8) (length buf)) (λ e. fragment_flag-IsPrinted _)
            (λ e. absurd (ground (arith, h, e)))

  print_hdr_icmp-IsPrinted : (o : ℕ) → o + 4 ≤ length buf → IsPrinted (print_hdr_icmp buf o)
  unfolding print_hdr_icmp
  print_hdr_icmp-IsPrinted o h = in_turn-IsPrinted _ (
    (_, refl),
    (
      show-IsPrinted o 1 _ _ (omega arith),
      (
        show-IsPrinted (o + 1) 1 _ _ (omega arith),
        (show-IsPrinted (o + 2) 2 _ _ (omega arith), tt),
      ),
    ),
  )

  print_hdr_arp-IsPrinted : (o : ℕ) → o + 28 ≤ length buf → IsPrinted (print_hdr_arp buf o)
  unfolding print_hdr_arp
  print_hdr_arp-IsPrinted o h = in_turn-IsPrinted _ (
    (_, refl),
    (
      show-IsPrinted o 2 _ _ (omega arith),
      (
        show-IsPrinted (o + 2) 2 _ _ (omega arith),
        (
          show-IsPrinted (o + 4) 1 _ _ (omega arith),
          (
            show-IsPrinted (o + 5) 1 _ _ (omega arith),
            (
              show-IsPrinted (o + 6) 2 _ _ (omega arith),
              (
                (_, refl),
                (
                  print_addr_eth-IsPrinted (o + 8) (omega arith),
                  (
                    (_, refl),
                    (
                      print_ip_at-IsPrinted (o + 14) (omega arith),
                      (
                        (_, refl),
                        (
                          print_addr_eth-IsPrinted (o + 18) (omega arith),
                          ((_, refl), (print_ip_at-IsPrinted (o + 24) (omega arith), tt)),
                        ),
                      ),
                    ),
                  ),
                ),
              ),
            ),
          ),
        ),
      ),
    ),
  )

  -- `print_hdrs`, for any frame and any length that is not above the frame's, reads nothing behind
  -- the frame and comes to its end, with some output.
  pub print_hdrs_inside : (size : ℕ) → size ≤ length buf → IsPrinted (print_hdrs buf size)
  unfolding print_hdrs print_ip_hdrs print_arp_hdrs
  print_hdrs_inside size h =
      if-IsPrinted (ltb size 14) (λ e. (_, refl))
        (λ e. in_turn-IsPrinted _ (
          print_hdr_eth-IsPrinted 0 (ground (arith, h, e)),
          (
            if-IsPrinted (ethertype buf == 0x800)
                (λ f.
                  if-IsPrinted (ltb size 34) (λ g. (_, refl))
                    (λ g. in_turn-IsPrinted _ (
                      print_hdr_ip-IsPrinted 14 (ground (arith, h, g)),
                      (
                        if-IsPrinted (ip_protocol buf 14 == 1)
                            (λ k.
                              if-IsPrinted (ltb size 38) (λ j. (_, refl))
                                (λ j. print_hdr_icmp-IsPrinted 34 (ground (arith, h, j))))
                            (λ k. (_, refl)),
                        tt,
                      ),
                    )))
                (λ f.
                  if-IsPrinted (ethertype buf == 0x806)
                    (λ g.
                      if-IsPrinted (ltb size 42) (λ j. (_, refl))
                        (λ j. print_hdr_arp-IsPrinted 14 (ground (arith, h, j))))
                    (λ g. (_, refl))),
            tt,
          ),
        ))
