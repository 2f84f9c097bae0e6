-- ===== src/ArpCache/Lookup.antt =====
-- What a lookup finds, after an insertion and after a timeout.
use cmput.Base.{
  ℕ, ◌+◌, ◌≡◌, refl, sym, subst, ap, ◌⊎◌, inl, inr, Bool, true, false, ◌&&◌, List, [], ◌∷◌, ◌++◌,
  Option, none, some, All, Bytes, take, map, leb, Bool-cases, arith,
}
use cmput.ArpCache.{
  ArpCache, ArpEntry, arpcache_to, is_for, lookup_from, arpcache_lookup, fill_entry,
  arpcache_insert, expire, expire_entries,
}

-- `e` is the last entry of `es` that passes the test.
pub record IsLast (test : ArpEntry → Bool) (es : List ArpEntry) (e : ArpEntry) : Type 0 where
  pub before : List ArpEntry
  pub after : List ArpEntry
  pub split : es ≡ before ++ (e ∷ after)
  pub fits : test e ≡ true
  pub no_later : All (λ x. test x ≡ false) after

abbrev pub Finds : (ArpEntry → Bool) → List ArpEntry → Option ArpEntry → Type 0
Finds test es none = All (λ e. test e ≡ false) es
Finds test es (some e) = IsLast test es e

-- What a loop returns that started with `o`.
abbrev Keeps : (ArpEntry → Bool) → List ArpEntry → Option ArpEntry → Option ArpEntry → Type 0
Keeps test es o r =
    ((r ≡ o) × All (λ e. test e ≡ false) es) ⊎ ((e : ArpEntry) × (r ≡ some e) × IsLast test es e)

module _ (test : ArpEntry → Bool) (x : ArpEntry) (es : List ArpEntry) where
  IsLast-cons : (e : ArpEntry) → IsLast test es e → IsLast test (x ∷ es) e
  IsLast-cons e l = record {
    before = x ∷ l.before;
    after = l.after;
    split = ap (λ t. x ∷ t) l.split;
    fits = l.fits;
    no_later = l.no_later;
  }

  Keeps-hit :
      (o r : Option ArpEntry) → test x ≡ true → Keeps test es (some x) r → Keeps test (x ∷ es) o r
  Keeps-hit o r f (inl (p, q)) =
      inr (x, p, record { before = []; after = es; split = refl; fits = f; no_later = q })
  Keeps-hit o r f (inr (e, p, l)) = inr (e, p, IsLast-cons e l)

  Keeps-miss :
      (o r : Option ArpEntry) → test x ≡ false → Keeps test es o r → Keeps test (x ∷ es) o r
  Keeps-miss o r f (inl (p, q)) = inl (p, (f, q))
  Keeps-miss o r f (inr (e, p, l)) = inr (e, p, IsLast-cons e l)

Keeps-Finds :
    (test : ArpEntry → Bool) (es : List ArpEntry) (r : Option ArpEntry)
    → Keeps test es none r
    → Finds test es r
Keeps-Finds test es r (inl (p, q)) = rw p q
Keeps-Finds test es r (inr (e, p, l)) = rw p l

lookup_from-Keeps :
    (ip : ℕ) (es : List ArpEntry) (o : Option ArpEntry)
    → Keeps (is_for ip) es o (lookup_from ip es o)
unfolding lookup_from
lookup_from-Keeps ip [] o = inl (refl, tt)
lookup_from-Keeps ip (x ∷ es) o = elim (Bool-cases (is_for ip x)) [
  | inl f ↦
      let step : lookup_from ip (x ∷ es) o ≡ lookup_from ip es (some x) = rw f in
      subst (Keeps (is_for ip) (x ∷ es) o) (sym step)
        (Keeps-hit (is_for ip) x es o _ f (lookup_from-Keeps ip es (some x)))
  | inr f ↦
      let step : lookup_from ip (x ∷ es) o ≡ lookup_from ip es o = rw f in
      subst (Keeps (is_for ip) (x ∷ es) o) (sym step)
        (Keeps-miss (is_for ip) x es o _ f (lookup_from-Keeps ip es o))
]

-- `sr_arpcache_lookup` returns the last valid entry for the address, and null exactly when there
-- is no valid one.
pub arpcache_lookup-Finds :
    (c : ArpCache) (ip : ℕ) → Finds (is_for ip) c.entries (arpcache_lookup c ip)
unfolding arpcache_lookup
arpcache_lookup-Finds c ip = Keeps-Finds _ c.entries _ (lookup_from-Keeps ip c.entries none)

-- Valid, for the address, and not older than SR_ARPCACHE_TO seconds.
abbrev pub is_young : ℕ → ℕ → ArpEntry → Bool
is_young now ip e = is_for ip e && leb now (e.added + arpcache_to)

lookup_from_skip :
    (ip : ℕ) (y : ArpEntry) (es : List ArpEntry) (o : Option ArpEntry)
    → is_for ip y ≡ false
    → lookup_from ip (y ∷ es) o ≡ lookup_from ip es o
unfolding lookup_from
lookup_from_skip ip y es o f = rw f

lookup_from-expire :
    (now ip : ℕ) (es : List ArpEntry) (o : Option ArpEntry)
    → Keeps (is_young now ip) es o (lookup_from ip (map (expire now) es) o)
unfolding lookup_from
lookup_from-expire now ip [] o = inl (refl, tt)
lookup_from-expire now ip (x ∷ es) o = elim (Bool-cases (is_young now ip x)) [
  | inl f ↦
      let same : expire now x ≡ x = ground arith in
      let fits : is_for ip x ≡ true = ground arith in
      let step : lookup_from ip (map (expire now) (x ∷ es)) o
          ≡ lookup_from ip (map (expire now) es) (some x) =
        rw same (rw fits) in
      subst (Keeps (is_young now ip) (x ∷ es) o) (sym step)
        (Keeps-hit (is_young now ip) x es o _ f (lookup_from-expire now ip es (some x)))
  | inr f ↦
      let gone : is_for ip (expire now x) ≡ false = ground arith in
      let step : lookup_from ip (map (expire now) (x ∷ es)) o
          ≡ lookup_from ip (map (expire now) es) o =
        lookup_from_skip ip (expire now x) (map (expire now) es) o gone in
      subst (Keeps (is_young now ip) (x ∷ es) o) (sym step)
        (Keeps-miss (is_young now ip) x es o _ f (lookup_from-expire now ip es o))
]

-- After a round of the timer the cache answers with the last valid entry for the address that was
-- added at most 15 seconds ago, unchanged, and with null exactly when there is none.
pub arpcache_lookup-expire_entries :
    (now ip : ℕ) (c : ArpCache)
    → Finds (is_young now ip) c.entries (arpcache_lookup (expire_entries now c) ip)
unfolding arpcache_lookup expire_entries
arpcache_lookup-expire_entries now ip c =
    Keeps-Finds _ c.entries _ (lookup_from-expire now ip c.entries none)

-- An entry is free.
abbrev pub HasRoom : List ArpEntry → Type 0
HasRoom [] = ⊥
HasRoom (e ∷ es) = (e.valid ≡ false) ⊎ HasRoom es

lookup_from_miss :
    (ip : ℕ) (es : List ArpEntry) (o : Option ArpEntry)
    → All (λ e. is_for ip e ≡ false) es
    → lookup_from ip es o ≡ o
unfolding lookup_from
lookup_from_miss ip [] o q = refl
lookup_from_miss ip (e ∷ es) o q = rw q.0 (lookup_from_miss ip es o q.1)

fill_entry-valid :
    (new e : ArpEntry) (es : List ArpEntry)
    → e.valid ≡ true
    → fill_entry new (e ∷ es) ≡ e ∷ fill_entry new es
unfolding fill_entry
fill_entry-valid new e es f = ground arith

fill_entry-free :
    (new e : ArpEntry) (es : List ArpEntry) → e.valid ≡ false → fill_entry new (e ∷ es) ≡ new ∷ es
unfolding fill_entry
fill_entry-free new e es f = ground arith

lookup_from-fill_entry :
    (new : ArpEntry) (es : List ArpEntry) (o : Option ArpEntry)
    → new.valid ≡ true
    → HasRoom es
    → All (λ e. is_for new.ip e ≡ false) es
    → lookup_from new.ip (fill_entry new es) o ≡ some new
unfolding lookup_from fill_entry
lookup_from-fill_entry new [] o v room q = elim room [ ]
lookup_from-fill_entry new (e ∷ es) o v room q = elim (Bool-cases e.valid) [
  | inl f ↦ elim room [
    | inl g ↦ absurd (ground arith)
    | inr g ↦
        rw (fill_entry-valid new e es f, lookup_from, q.0) (lookup_from-fill_entry new es _ v g q.1)
  ]
  | inr f ↦
      let fits : is_for new.ip new ≡ true = ground arith in
      rw (fill_entry-free new e es f, lookup_from, fits) (lookup_from_miss new.ip es (some new) q.1)
]

-- A mapping that `sr_arpcache_insert` puts into a table with room, and with no valid entry for the
-- address, is the one that a lookup finds.
pub arpcache_lookup-arpcache_insert :
    (now : ℕ) (c : ArpCache) (mac : Bytes) (ip : ℕ)
    → HasRoom c.entries
    → All (λ e. is_for ip e ≡ false) c.entries
    → arpcache_lookup (arpcache_insert now c mac ip).0 ip
      ≡ some (record { mac = take 6 mac; ip = ip; added = now; valid = true })
unfolding arpcache_lookup arpcache_insert
arpcache_lookup-arpcache_insert now c mac ip room q =
    lookup_from-fill_entry _ c.entries none refl room q

-- An entry is valid and for the address.
abbrev pub HasFit : ℕ → List ArpEntry → Type 0
HasFit ip [] = ⊥
HasFit ip (e ∷ es) = (is_for ip e ≡ true) ⊎ HasFit ip es

-- A valid entry for the address stands behind the first free one.
abbrev pub IsShadowed : ℕ → List ArpEntry → Type 0
IsShadowed ip [] = ⊥
IsShadowed ip (e ∷ es) = ((e.valid ≡ true) × IsShadowed ip es) ⊎ ((e.valid ≡ false) × HasFit ip es)

lookup_from_fit :
    (ip : ℕ) (es : List ArpEntry) (o p : Option ArpEntry)
    → HasFit ip es
    → lookup_from ip es o ≡ lookup_from ip es p
unfolding lookup_from
lookup_from_fit ip [] o p h = elim h [ ]
lookup_from_fit ip (e ∷ es) o p (inl f) = rw f
lookup_from_fit ip (e ∷ es) o p (inr h) = lookup_from_fit ip es _ _ h

lookup_from_shadowed :
    (new : ArpEntry) (ip : ℕ) (es : List ArpEntry) (o : Option ArpEntry)
    → IsShadowed ip es
    → lookup_from ip (fill_entry new es) o ≡ lookup_from ip es o
unfolding lookup_from fill_entry
lookup_from_shadowed new ip [] o h = elim h [ ]
lookup_from_shadowed new ip (e ∷ es) o (inl (f, h)) = rw f (lookup_from_shadowed new ip es _ h)
lookup_from_shadowed new ip (e ∷ es) o (inr (f, h)) = rw f (lookup_from_fit ip es _ _ h)

-- A new mapping for an address is not seen while an older valid entry for it stands behind the
-- first free one: the lookup answers as before the insertion, whatever the new MAC address is.
pub arpcache_lookup_shadowed :
    (now : ℕ) (c : ArpCache) (mac : Bytes) (ip : ℕ)
    → IsShadowed ip c.entries
    → arpcache_lookup (arpcache_insert now c mac ip).0 ip ≡ arpcache_lookup c ip
unfolding arpcache_lookup arpcache_insert
arpcache_lookup_shadowed now c mac ip h = lookup_from_shadowed _ ip c.entries none h
