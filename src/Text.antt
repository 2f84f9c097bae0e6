-- ===== src/Text.antt =====
-- The calls of the C library by which the programs of assignment-1/c/src read commands. A text is
-- its bytes, without the NUL. A number below 0 is taken as 0, which no move is either; one beyond
-- the range of `int`, which the C standard leaves open, is taken as it is.
use cmput.Base.{
  ℕ, zero, suc, ◌+◌, ◌-◌, ◌*◌, Bool, true, false, [], ◌∷◌, ◌++◌, Option, none, some, Bytes, leb,
  ◌==◌, ==_iff, ◌&&◌, ◌||◌, if◌then◌else◌, ◌≡◌, refl, sym, ◌∙◌, inl, inr, Bool-cases,
}

-- The text in front of the NUL.
unfoldable pub c_string : Bytes → Bytes
c_string [] = []
c_string (c ∷ s) = let rest = c_string s in if c == 0 then [] else c ∷ rest

-- `command[strcspn(command, "\n")] = '\0'`
unfoldable pub cut_newline : Bytes → Bytes
cut_newline [] = []
cut_newline (c ∷ s) = let rest = cut_newline s in if c == 10 then [] else c ∷ rest

-- The first part of a text, up to a byte that passes the test, and the rest.
unfoldable pub span : (ℕ → Bool) → Bytes → Bytes × Bytes
span stop [] = ([], [])
span stop (c ∷ s) = let rest = span stop s in if stop c then ([], c ∷ s) else (c ∷ rest.0, rest.1)

-- `strtok(buffer, " ")` and then `strtok(NULL, " ")`: the tokens, and the text that `buffer` is
-- afterwards.
pub data Words : Type 0 where
  no_words : Words
  one_word : Bytes → Bytes → Words
  two_words : Bytes → Bytes → Bytes → Words

abbrev is_blank : ℕ → Bool
is_blank c = c == 32

abbrev not_blank : ℕ → Bool
not_blank c = if c == 32 then false else true

-- The delimiters in front of a token, the token, and what follows it.
unfoldable pub next_token : Bytes → Bytes × Bytes × Bytes
next_token s =
    let (blanks, t) = span not_blank s in let (word, rest) = span is_blank t in (blanks, word, rest)

unfoldable pub strtok_two : Bytes → Words
strtok_two s =
    let (blanks, word, rest) = next_token s in
    let (more, second, end) = next_token rest in
    elim word [
      | [] ↦ no_words
      | c ∷ w ↦ elim second [
        | [] ↦ one_word (blanks ++ (c ∷ w)) (c ∷ w)
        | d ∷ v ↦ two_words (blanks ++ (c ∷ w)) (c ∷ w) (d ∷ v)
      ]
    ]

-- `isspace` and `isdigit`.
abbrev pub is_space : ℕ → Bool
is_space c = c == 32 || (leb 9 c && leb c 13)

abbrev pub not_space : ℕ → Bool
not_space c = if is_space c then false else true

abbrev is_digit : ℕ → Bool
is_digit c = leb 48 c && leb c 57

abbrev not_digit : ℕ → Bool
not_digit c = if is_digit c then false else true

unfoldable pub value : ℕ → Bytes → ℕ
value n [] = n
value n (c ∷ s) = value (n * 10 + (c - 48)) s

-- A number, at the start of a text: none if there is no digit. What follows it is the second part.
unfoldable pub scan_digits : Bool → Bytes → Option ℕ × Bytes
scan_digits minus s =
    let (ds, rest) = span not_digit s in
    (elim ds [ [] ↦ none | d ∷ es ↦ some (if minus then 0 else value 0 (d ∷ es)) ], rest)

unfoldable pub scan_number : Bytes → Option ℕ × Bytes
scan_number [] = (none, [])
scan_number (c ∷ s) =
    if c == 45
    then scan_digits true s
    else if c == 43
    then scan_digits false s
    else scan_digits false (c ∷ s)

unfoldable pub atoi : Bytes → ℕ
atoi s = elim (scan_number (span not_space s).1).0 [ none ↦ 0 | some n ↦ n ]

-- How far the number that `atoi` reads is below 0.
unfoldable pub below_zero : Bytes → ℕ
below_zero s = elim (span not_space s).1 [
  | [] ↦ 0
  | c ∷ d ↦ if c == 45 then value 0 (span not_digit d).0 else 0
]

-- The first `n` bytes of a word at most, and the rest: `%16s` is `word_of 16`, behind the blanks.
unfoldable pub word_of : ℕ → Bytes → Bytes × Bytes
word_of zero s = ([], s)
word_of (suc n) [] = ([], [])
word_of (suc n) (c ∷ s) =
    let rest = word_of n s in if is_space c then ([], c ∷ s) else (c ∷ rest.0, rest.1)

-- `sscanf(command, "%16s %d %99s", cmd, &n, extra) == 2`, and then `cmd` and `n`.
unfoldable pub scan_command : Bytes → Option (Bytes × ℕ)
scan_command s =
    let (word, rest) = word_of 16 (span not_space s).1 in
    let (n, end) = scan_number (span not_space rest).1 in
    elim word [
      | [] ↦ none
      | c ∷ w ↦ elim (span not_space end).1 [
        | [] ↦ elim n [ none ↦ none | some m ↦ some (c ∷ w, m) ]
        | d ∷ e ↦ none
      ]
    ]

-- `!strcmp(a, b)`, for texts without a NUL in them.
unfoldable pub same_text : Bytes → Bytes → Bool
same_text [] [] = true
same_text [] (d ∷ b) = false
same_text (c ∷ a) [] = false
same_text (c ∷ a) (d ∷ b) = let rest = same_text a b in if c == d then rest else false

pub same_text_sound : (a b : Bytes) → same_text a b ≡ true → a ≡ b
unfolding same_text
same_text_sound [] [] e = refl
same_text_sound [] (d ∷ b) e = absurd (cc e)
same_text_sound (c ∷ a) [] e = absurd (cc e)
same_text_sound (c ∷ a) (d ∷ b) e = elim (Bool-cases (c == d)) [
  | inl f ↦
      let h : same_text (c ∷ a) (d ∷ b) ≡ same_text a b = rw f refl in
      ap_cons ((==_iff c d).0 f) (same_text_sound a b (sym h ∙ e))
  | inr f ↦
      let h : same_text (c ∷ a) (d ∷ b) ≡ false = rw f refl in absurd (let g = sym h ∙ e in cc g)
]
  where
    ap_cons : {x y : ℕ} {u w : Bytes} → x ≡ y → u ≡ w → x ∷ u ≡ y ∷ w
    ap_cons p q = cc (p, q)

-- "MARK"
abbrev pub mark_word : Bytes
mark_word = 77 ∷ 65 ∷ 82 ∷ 75 ∷ []
