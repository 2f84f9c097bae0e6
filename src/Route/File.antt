-- ===== src/Route/File.antt =====
-- The table that a file of routes makes.
use cmput.Base.{
  ℕ, zero, suc, ◌<◌, ◌≡◌, ◌≢◌, refl, sym, ◌∙◌, ap, Bool, true, false, List, [], ◌∷◌, ◌++◌, map,
  Option, none, some, All, All-append, Bytes, take, length, leb, ◌==◌, if◌then◌else◌, arith,
}
use mathlib.Core.List.{append_assoc, append-nil}
use cmput.Text.{c_string, span, is_space, not_space}
use cmput.Route.{RtEntry, add_rt_entry}
use cmput.Route.Load.{
  Fields, next_word, put_word, addresses, words, assign, too_long, Loaded, loaded, failed, overrun,
  load_lines, load_rt,
}

-- A word, without a NUL, that `%s` reads and that an array of 32 bytes holds.
pub record IsWord (w : Bytes) : Type 0 where
  pub solid : All (λ c. is_space c ≡ false) w
  pub text : All (λ c. c ≢ 0) w
  pub some_byte : length w ≢ 0
  pub fits : length w < 32

-- White space between two words.
pub record Gap : Type 0 where
  pub byte : ℕ
  pub more : Bytes
  pub blank : is_space byte ≡ true
  pub blanks : All (λ c. is_space c ≡ true) more

-- A line of four words with these gaps, and a newline behind them.
abbrev pub line_of : Gap → Gap → Gap → Fields → Bytes
line_of a b c f =
    f.dest
    ++ (a.byte
        ∷ (a.more
            ++ (f.gw
                ++ (b.byte
                    ∷ (b.more ++ (f.mask ++ (c.byte ∷ (c.more ++ (f.iface ++ (10 ∷ []))))))))))

span-word :
    (w : Bytes) (c : ℕ) (s : Bytes)
    → All (λ c. is_space c ≡ false) w
    → is_space c ≡ true
    → span is_space (w ++ (c ∷ s)) ≡ (w, c ∷ s)
unfolding span
span-word [] c s v e = rw e refl
span-word (x ∷ w) c s v e = rw (v.0, span-word w c s v.1 e) refl

span-blanks : (w s : Bytes) → IsWord w → span not_space (w ++ s) ≡ ([], w ++ s)
unfolding span
span-blanks [] s v = absurd (v.some_byte refl)
span-blanks (x ∷ w) s v = rw (v.solid.0) refl

next_word-word :
    (w : Bytes) (c : ℕ) (s : Bytes)
    → IsWord w
    → is_space c ≡ true
    → next_word (w ++ (c ∷ s)) ≡ (w, c ∷ s)
unfolding next_word
next_word-word w c s v e =
    ap (λ p. span is_space p.1) (span-blanks w (c ∷ s) v) ∙ span-word w c s v.solid e

put_word-word : (w : Bytes) (ws : List Bytes) → IsWord w → put_word w ws ≡ w ∷ ws
unfolding put_word
put_word-word [] ws v = absurd (v.some_byte refl)
put_word-word (c ∷ w) ws v = refl

words-word :
    (n : ℕ) (w : Bytes) (c : ℕ) (s : Bytes)
    → IsWord w
    → is_space c ≡ true
    → words (suc n) (w ++ (c ∷ s)) ≡ w ∷ words n (c ∷ s)
unfolding words
words-word n w c s v e =
    ap (λ (p : Bytes × Bytes). put_word p.0 (words n p.1)) (next_word-word w c s v e)
    ∙ put_word-word w (words n (c ∷ s)) v

-- White space in front of a word.
words-space : (n c : ℕ) (s : Bytes) → is_space c ≡ true → words n (c ∷ s) ≡ words n s
unfolding words next_word span
words-space zero c s e = refl
words-space (suc n) c s e = rw (e) refl

words-gap : (n : ℕ) (cs s : Bytes) → All (λ c. is_space c ≡ true) cs → words n (cs ++ s) ≡ words n s
words-gap n [] s v = refl
words-gap n (c ∷ cs) s v = words-space n c (cs ++ s) v.0 ∙ words-gap n cs s v.1

-- The four words of a line.
pub record IsLine (f : Fields) : Type 0 where
  pub dest : IsWord f.dest
  pub gw : IsWord f.gw
  pub mask : IsWord f.mask
  pub iface : IsWord f.iface

words-line :
    (a b c : Gap) (f : Fields)
    → IsLine f
    → words 4 (line_of a b c f) ≡ f.dest ∷ f.gw ∷ f.mask ∷ f.iface ∷ []
unfolding words
words-line a b c f v =
    words-word 3 f.dest a.byte _ v.dest a.blank
    ∙ ap (λ ws. f.dest ∷ ws)
        (words-gap 3 (a.byte ∷ a.more) _ (a.blank, a.blanks)
          ∙ words-word 2 f.gw b.byte _ v.gw b.blank
          ∙ ap (λ ws. f.gw ∷ ws)
              (words-gap 2 (b.byte ∷ b.more) _ (b.blank, b.blanks)
                ∙ words-word 1 f.mask c.byte _ v.mask c.blank
                ∙ ap (λ ws. f.mask ∷ ws)
                    (words-gap 1 (c.byte ∷ c.more) _ (c.blank, c.blanks)
                      ∙ words-word 0 f.iface 10 _ v.iface refl)))

c_string-text : (s : Bytes) → All (λ c. c ≢ 0) s → c_string s ≡ s
unfolding c_string
c_string-text [] v = refl
c_string-text (c ∷ s) v =
    let e : (c == 0) ≡ false = ground (arith, v.0) in rw (e, c_string-text s v.1) refl

-- White space is no NUL.
blank_text : (s : Bytes) → All (λ c. is_space c ≡ true) s → All (λ c. c ≢ 0) s
blank_text [] v = tt
blank_text (c ∷ s) v = ((λ e. ground (arith, e, v.0)), blank_text s v.1)

gap_text : (g : Gap) (s : Bytes) → All (λ c. c ≢ 0) s → All (λ c. c ≢ 0) (g.byte ∷ (g.more ++ s))
gap_text g s v =
    All-append (λ c. c ≢ 0) (g.byte ∷ g.more) s (blank_text (g.byte ∷ g.more) (g.blank, g.blanks)) v

c_string-line : (a b c : Gap) (f : Fields) → IsLine f → c_string (line_of a b c f) ≡ line_of a b c f
c_string-line a b c f v = c_string-text (line_of a b c f) (
    All-append (λ c. c ≢ 0) f.dest _ v.dest.text
      (gap_text a _ (
        All-append (λ c. c ≢ 0) f.gw _ v.gw.text
          (gap_text b _ (
            All-append (λ c. c ≢ 0) f.mask _ v.mask.text
              (gap_text c _
                (All-append (λ c. c ≢ 0) f.iface _ v.iface.text ((λ e. omega (arith, e)), tt))))))))

too_long-line : (f : Fields) → IsLine f → too_long (f.dest ∷ f.gw ∷ f.mask ∷ f.iface ∷ []) ≡ false
unfolding too_long
too_long-line f v = rw (short v.dest, short v.gw, short v.mask, short v.iface) refl
  where
    short : {w : Bytes} → IsWord w → leb 32 (length w) ≡ false
    short u = let l = u.fits in ground arith

-- A line of a route, and the entry that it makes.
pub record Route : Type 0 where
  pub fields : Fields
  pub dest : ℕ
  pub gw : ℕ
  pub mask : ℕ

abbrev pub entry_of : Route → RtEntry
entry_of q = record { dest = q.dest; gw = q.gw; mask = q.mask; interface = take 32 q.fields.iface }

add_rt_entry-end :
    (table : List RtEntry) (q : Route)
    → add_rt_entry table q.dest q.gw q.mask q.fields.iface ≡ table ++ (entry_of q ∷ [])
unfolding add_rt_entry
add_rt_entry-end [] q = refl
add_rt_entry-end (e ∷ table) q = ap (λ t. e ∷ t) (add_rt_entry-end table q)

module _ (inet_aton : Bytes → Option ℕ) where
  -- Four words, the first three of which `inet_aton` takes for these addresses.
  pub record IsRoute (q : Route) : Type 0 where
    pub line : IsLine q.fields
    pub dest : inet_aton q.fields.dest ≡ some q.dest
    pub gw : inet_aton q.fields.gw ≡ some q.gw
    pub mask : inet_aton q.fields.mask ≡ some q.mask

  addresses-route :
      (q : Route) → IsRoute q → addresses inet_aton q.fields ≡ some (q.dest, q.gw, q.mask)
  unfolding addresses
  addresses-route q v = rw (v.dest, addresses, v.gw, addresses, v.mask) refl

  -- The rest of the loop, once the words of a line are read.
  abbrev with_words : Fields → Bool → List RtEntry → List Bytes → List Bytes → Loaded
  with_words f first table lines ws =
      if too_long ws then overrun else elim (addresses inet_aton (assign f ws)) [
        | none ↦ failed table
        | some (d, g, m) ↦
            load_lines inet_aton (assign f ws) false
              (add_rt_entry (if first then [] else table) d g m (assign f ws).iface) lines
      ]

module _ (inet_aton : Bytes → Option ℕ) (a b c : Gap) where
  load_line :
      (f : Fields) (first : Bool) (table : List RtEntry) (q : Route) (lines : List Bytes)
      → IsRoute inet_aton q
      → load_lines inet_aton f first table (line_of a b c q.fields ∷ lines)
        ≡ load_lines inet_aton q.fields false
            ((if first then [] else table) ++ (entry_of q ∷ []))
            lines
  unfolding load_lines assign
  load_line f first table q lines v =
      ap (with_words inet_aton f first table lines)
        (ap (words 4) (c_string-line a b c q.fields v.line) ∙ words-line a b c q.fields v.line)
      ∙ rw (too_long-line q.fields v.line, addresses-route inet_aton q v)
          (ap (λ t. load_lines inet_aton q.fields false t lines)
            (add_rt_entry-end (if first then [] else table) q))

  load_more :
      (f : Fields) (table : List RtEntry) (qs : List Route)
      → All (IsRoute inet_aton) qs
      → load_lines inet_aton f false table (map (λ q. line_of a b c q.fields) qs)
        ≡ loaded (table ++ map entry_of qs)
  unfolding load_lines
  load_more f table [] v = ap loaded (sym (append-nil table))
  load_more f table (q ∷ qs) v =
      load_line f false table q (map (λ q. line_of a b c q.fields) qs) v.0
      ∙ load_more q.fields (table ++ (entry_of q ∷ [])) qs v.1
      ∙ ap loaded (append_assoc table (entry_of q ∷ []) (map entry_of qs))

  -- A file of lines with four words each, of less than 32 bytes and with the same white space
  -- between them in every line, of which `inet_aton` takes the first three, makes the table that has
  -- their routes in the order of the lines, in place of what was there; a file without a line leaves
  -- the table as it is. What the arrays of the function hold at first does not matter.
  pub load_rt_routes :
      (f : Fields) (table : List RtEntry) (qs : List Route)
      → All (IsRoute inet_aton) qs
      → load_rt inet_aton f (some (map (λ q. line_of a b c q.fields) qs)) table
        ≡ loaded (elim qs [ [] ↦ table | q ∷ more ↦ map entry_of (q ∷ more) ])
  unfolding load_rt load_lines
  load_rt_routes f table [] v = refl
  load_rt_routes f table (q ∷ qs) v =
      load_line f true table q (map (λ q. line_of a b c q.fields) qs) v.0
      ∙ load_more q.fields (entry_of q ∷ []) qs v.1
