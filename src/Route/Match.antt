-- ===== src/Route/Match.antt =====
-- `longest_prefix_matching` against its specification.
use cmput.Base.{
  ℕ, ◌≤◌, ◌<◌, ◌≡◌, refl, sym, ap, subst, ◌⊎◌, inl, inr, true, ◌&&◌, List, [], ◌∷◌, ◌++◌, Option,
  none, some, All, htonl, ltb, Bool-cases, arith,
}
use cmput.Route.{RtEntry, covers, match_from, longest_prefix_matching}

-- The mask in host byte order: of two prefixes the longer has the larger one.
abbrev pub prefix : RtEntry → ℕ
prefix e = htonl e.mask

-- The entries that cover `ip` have masks at most, or below, `m`.
abbrev pub AtMost : ℕ → ℕ → List RtEntry → Type 0
AtMost ip m = All (λ e. covers e ip ≡ true → prefix e ≤ m)

abbrev pub Below : ℕ → ℕ → List RtEntry → Type 0
Below ip m = All (λ e. covers e ip ≡ true → prefix e < m)

-- `e` is the first of the longest matches of `ip` in `es`, and longer than `m`.
pub record IsLongest (ip m : ℕ) (es : List RtEntry) (e : RtEntry) : Type 0 where
  pub before : List RtEntry
  pub after : List RtEntry
  pub split : es ≡ before ++ (e ∷ after)
  pub covered : covers e ip ≡ true
  pub longer : m < prefix e
  pub first : Below ip (prefix e) before
  pub longest : AtMost ip (prefix e) after

-- What the loop returns when it starts with `best` and its mask.
abbrev Found : ℕ → ℕ → Option RtEntry → List RtEntry → Option RtEntry → Type 0
Found ip m best es r =
    ((r ≡ best) × AtMost ip m es) ⊎ ((e : RtEntry) × (r ≡ some e) × IsLongest ip m es e)

Found-skip :
    (ip m : ℕ) (best : Option RtEntry) (x : RtEntry) (es : List RtEntry) (r : Option RtEntry)
    → (covers x ip ≡ true → prefix x ≤ m)
    → Found ip m best es r
    → Found ip m best (x ∷ es) r
Found-skip ip m best x es r h (inl (p, q)) = inl (p, (h, q))
Found-skip ip m best x es r h (inr (e, p, l)) = inr (
  e,
  p,
  record {
    before = x ∷ l.before;
    after = l.after;
    split = ap (λ t. x ∷ t) l.split;
    covered = l.covered;
    longer = l.longer;
    first = ((λ c. omega (arith, h c, l.longer)), l.first);
    longest = l.longest;
  },
)

Found-take :
    (ip m : ℕ) (best : Option RtEntry) (x : RtEntry) (es : List RtEntry) (r : Option RtEntry)
    → covers x ip ≡ true
    → m < prefix x
    → Found ip (prefix x) (some x) es r
    → Found ip m best (x ∷ es) r
Found-take ip m best x es r c h (inl (p, q)) = inr (
  x,
  p,
  record {
    before = [];
    after = es;
    split = refl;
    covered = c;
    longer = h;
    first = tt;
    longest = q;
  },
)
Found-take ip m best x es r c h (inr (e, p, l)) = inr (
  e,
  p,
  record {
    before = x ∷ l.before;
    after = l.after;
    split = ap (λ t. x ∷ t) l.split;
    covered = l.covered;
    longer = omega (arith, l.longer);
    first = ((λ _. l.longer), l.first);
    longest = l.longest;
  },
)

match_from-Found :
    (ip : ℕ) (es : List RtEntry) (best : Option RtEntry) (mask : ℕ)
    → Found ip (htonl mask) best es (match_from ip es best mask)
unfolding match_from
match_from-Found ip [] best mask = inl (refl, tt)
match_from-Found ip (x ∷ es) best mask =
    elim (Bool-cases (covers x ip && ltb (htonl mask) (htonl x.mask))) [
      | inl e ↦ rw e (
          Found-take ip (htonl mask) best x es _ (ground arith) (ground arith)
            (match_from-Found ip es (some x) x.mask))
      | inr e ↦ rw e (
          Found-skip ip (htonl mask) best x es _ (λ c. ground arith)
            (match_from-Found ip es best mask))
    ]

-- What the table's answer for `ip` means: `none` says that every entry that covers `ip` has the
-- empty mask, `some e` that `e` is the first of the longest matches.
abbrev pub Chosen : ℕ → List RtEntry → Option RtEntry → Type 0
Chosen ip es none = AtMost ip 0 es
Chosen ip es (some e) = IsLongest ip 0 es e

Found-Chosen :
    (ip : ℕ) (es : List RtEntry) (r : Option RtEntry) → Found ip 0 none es r → Chosen ip es r
Found-Chosen ip es none (inl (p, q)) = q
Found-Chosen ip es none (inr (e, p, l)) = cc
Found-Chosen ip es (some x) (inl (p, q)) = cc
Found-Chosen ip es (some x) (inr (e, p, l)) =
    let q : x ≡ e = cc in subst (λ t. IsLongest ip 0 es t) (sym q) l

-- `longest_prefix_matching` returns the first entry, in list order, with the greatest mask among
-- those that cover the address, and null exactly when no entry with a non-zero mask covers it.
pub longest_prefix_matching-Chosen :
    (ip : ℕ) (es : List RtEntry) → Chosen ip es (longest_prefix_matching es ip)
unfolding longest_prefix_matching htonl
longest_prefix_matching-Chosen ip es = Found-Chosen ip es _ (match_from-Found ip es none 0)
