-- ===== src/Print/Dotted.antt =====
-- The text of an IP address.
use cmput.Base.{
  ℕ, zero, suc, ◌/◌, ◌%◌, ◌^◌, ◌≤◌, ◌<◌, ◌≡◌, refl, sym, ap, ◌∙◌, Bool, true, false, ◌&&◌, inl, inr,
  Bool-cases, List, [], ◌∷◌, ◌++◌, Bytes, length, length-append, leb, ◌==◌, ==_iff, if◌then◌else◌,
  arith,
}
use cmput.Text.{span, value}
use cmput.Print.{octet, digits, decimal, ip_int_to_str}

abbrev is_dot : ℕ → Bool
is_dot c = c == 46

abbrev behind_dot : Bytes → Bytes
behind_dot [] = []
behind_dot (c ∷ s) = s

-- The `n` numbers between dots that a text begins with.
abbrev pub numbers : ℕ → Bytes → List ℕ
numbers zero s = []
numbers (suc n) s = value 0 (span is_dot s).0 ∷ numbers n (behind_dot (span is_dot s).1)

-- The numbers under `n`, and a test on the numbers of a list.
abbrev under : ℕ → List ℕ
under zero = []
under (suc n) = n ∷ under n

abbrev passes : (ℕ → Bool) → List ℕ → Bool
passes test [] = true
passes test (x ∷ xs) = test x && passes test xs

abbrev no_dot : Bytes → Bool
no_dot [] = true
no_dot (c ∷ s) = let rest = no_dot s in if c == 46 then false else rest

-- Each octet has one to three digits, which are read back as the octet.
abbrev good : ℕ → Bool
good x = (value 0 (decimal x) == x) && (no_dot (decimal x) && leb (length (decimal x)) 3)

octets_good : passes good (under 256) ≡ true
unfolding decimal digits value
octets_good = refl

record IsOctet (x : ℕ) (w : Bytes) : Type 0 where
  number : value 0 w ≡ x
  dotless : no_dot w ≡ true
  short : length w ≤ 3

and_true : (a b : Bool) → (a && b) ≡ true → (a ≡ true) × (b ≡ true)
and_true true b e = (refl, e)
and_true false b e = absurd (cc e)

passes-good : (x : ℕ) (n : ℕ) → x < n → passes good (under n) ≡ true → good x ≡ true
passes-good x zero h e = absurd (omega arith)
passes-good x (suc n) h e =
    let (now, later) = and_true (good n) (passes good (under n)) e in
    elim (Bool-cases (x == n)) [
      | inl f ↦ ap good ((==_iff x n).0 f) ∙ now
      | inr f ↦ passes-good x n (ground (arith, h, f)) later
    ]

decimal-IsOctet : (x : ℕ) → x < 256 → IsOctet x (decimal x)
decimal-IsOctet x h =
    let (a, r) = and_true (value 0 (decimal x) == x) _ (passes-good x 256 h octets_good) in
    let (b, c) = and_true (no_dot (decimal x)) (leb (length (decimal x)) 3) r in
    record { number = (==_iff _ x).0 a; dotless = b; short = ground (arith, c) }

span-dot : (w s : Bytes) → no_dot w ≡ true → span is_dot (w ++ (46 ∷ s)) ≡ (w, 46 ∷ s)
unfolding span
span-dot [] s e = refl
span-dot (c ∷ w) s e = elim (Bool-cases (c == 46)) [
  | inl f ↦ absurd (let g : no_dot (c ∷ w) ≡ false = rw f refl in let h = sym g ∙ e in cc h)
  | inr f ↦ let g : no_dot (c ∷ w) ≡ no_dot w = rw f refl in rw (f, span-dot w s (sym g ∙ e)) refl
]

span-end : (w : Bytes) → no_dot w ≡ true → span is_dot w ≡ (w, [])
unfolding span
span-end [] e = refl
span-end (c ∷ w) e = elim (Bool-cases (c == 46)) [
  | inl f ↦ absurd (let g : no_dot (c ∷ w) ≡ false = rw f refl in let h = sym g ∙ e in cc h)
  | inr f ↦ let g : no_dot (c ∷ w) ≡ no_dot w = rw f refl in rw (f, span-end w (sym g ∙ e)) refl
]

numbers-dot :
    (n x : ℕ) (w s : Bytes) → IsOctet x w → numbers (suc n) (w ++ (46 ∷ s)) ≡ x ∷ numbers n s
numbers-dot n x w s v =
    ap (λ (p : Bytes × Bytes). value 0 p.0 ∷ numbers n (behind_dot p.1)) (span-dot w s v.dotless)
    ∙ ap (λ y. y ∷ numbers n s) v.number

numbers-end : (x : ℕ) (w : Bytes) → IsOctet x w → numbers 1 w ≡ x ∷ []
numbers-end x w v =
    ap (λ (p : Bytes × Bytes). value 0 p.0 ∷ []) (span-end w v.dotless) ∙ ap (λ y. y ∷ []) v.number

-- `ip_int_to_str`, for any `uint32_t`: the text has the four octets, the highest first, in decimal
-- with dots between them, and its 15 characters at most fit an array of INET_ADDRSTRLEN, 16 bytes,
-- with the NUL.
pub ip_int_to_str_lem :
    (ip : ℕ)
    → ip < 2 ^ 32
    → (numbers 4 (ip_int_to_str ip)
        ≡ ip / 2 ^ 24 ∷ ip / 2 ^ 16 % 256 ∷ ip / 2 ^ 8 % 256 ∷ ip % 256 ∷ [])
      × (length (ip_int_to_str ip) ≤ 15)
unfolding ip_int_to_str
ip_int_to_str_lem ip h = (
  numbers-dot 3 _ (decimal (octet ip 0)) _ a
      ∙ ap (λ r. octet ip 0 ∷ r)
          (numbers-dot 2 _ (decimal (octet ip 8)) _ b
            ∙ ap (λ r. octet ip 8 ∷ r)
                (numbers-dot 1 _ (decimal (octet ip 16)) _ c
                  ∙ ap (λ r. octet ip 16 ∷ r) (numbers-end _ (decimal (octet ip 24)) d)))
      ∙ cc (
        let e : octet ip 0 ≡ ip / 2 ^ 24 = omega arith in e,
        let e : octet ip 8 ≡ ip / 2 ^ 16 % 256 = omega arith in e,
        let e : octet ip 16 ≡ ip / 2 ^ 8 % 256 = omega arith in e,
        let e : octet ip 24 ≡ ip % 256 = omega arith in e,
      ),
  omega (
    arith,
    a.short,
    b.short,
    c.short,
    d.short,
    length-append (decimal (octet ip 0))
        (46 ∷ decimal (octet ip 8) ++ (46 ∷ decimal (octet ip 16) ++ (46 ∷ decimal (octet ip 24)))),
    length-append (decimal (octet ip 8))
        (46 ∷ decimal (octet ip 16) ++ (46 ∷ decimal (octet ip 24))),
    length-append (decimal (octet ip 16)) (46 ∷ decimal (octet ip 24)),
  ),
)
  where
    a : IsOctet (octet ip 0) (decimal (octet ip 0))
    a = decimal-IsOctet (octet ip 0) (omega (arith, h))

    b : IsOctet (octet ip 8) (decimal (octet ip 8))
    b = decimal-IsOctet (octet ip 8) (omega arith)

    c : IsOctet (octet ip 16) (decimal (octet ip 16))
    c = decimal-IsOctet (octet ip 16) (omega arith)

    d : IsOctet (octet ip 24) (decimal (octet ip 24))
    d = decimal-IsOctet (octet ip 24) (omega arith)
