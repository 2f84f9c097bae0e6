-- ===== src/Route/Load.antt =====
-- `sr_load_rt` of assignment-3/router/sr_rt.c. A file is the lines that `fgets` returns, each of
-- them shorter than its buffer; `inet_aton` is an argument.
use cmput.Base.{
  ℕ, zero, suc, Bool, true, false, ◌||◌, List, [], ◌∷◌, Option, none, some, Bytes, length, leb,
  if◌then◌else◌,
}
use cmput.Text.{c_string, span, is_space, not_space}
use cmput.Route.{RtEntry, add_rt_entry}

-- The arrays that `sscanf` writes to, which keep what they held when a line has fewer words.
pub record Fields : Type 0 where
  pub dest : Bytes
  pub gw : Bytes
  pub mask : Bytes
  pub iface : Bytes

-- A word as `%s` reads it, and what is behind it.
unfoldable pub next_word : Bytes → Bytes × Bytes
next_word s = span is_space (span not_space s).1

unfoldable pub put_word : Bytes → List Bytes → List Bytes
put_word [] ws = []
put_word (c ∷ w) ws = (c ∷ w) ∷ ws

-- The first `n` words of a text at most.
unfoldable pub words : ℕ → Bytes → List Bytes
words zero s = []
words (suc n) s = put_word (next_word s).0 (words n (next_word s).1)

-- `sscanf(line, "%s %s %s %s", dest, gw, mask, iface)`
unfoldable pub assign : Fields → List Bytes → Fields
assign f [] = f
assign f (a ∷ []) = record f { dest = a }
assign f (a ∷ b ∷ []) = record f { dest = a; gw = b }
assign f (a ∷ b ∷ c ∷ []) = record f { dest = a; gw = b; mask = c }
assign f (a ∷ b ∷ c ∷ d ∷ more) = record { dest = a; gw = b; mask = c; iface = d }

-- A word that does not fit into an array of 32 bytes.
unfoldable pub too_long : List Bytes → Bool
too_long [] = false
too_long (w ∷ ws) = leb 32 (length w) || too_long ws

-- The table afterwards, for a return of 0 and of -1; or a write behind an array.
pub data Loaded : Type 0 where
  loaded failed : List RtEntry → Loaded
  overrun : Loaded

module _ (inet_aton : Bytes → Option ℕ) where
  -- The three calls of `inet_aton`: the destination, the gateway and the mask.
  unfoldable pub addresses : Fields → Option (ℕ × ℕ × ℕ)
  addresses f = elim (inet_aton f.dest) [
    | none ↦ none
    | some d ↦ elim (inet_aton f.gw) [
      | none ↦ none
      | some g ↦ elim (inet_aton f.mask) [ none ↦ none | some m ↦ some (d, g, m) ]
    ]
  ]

  -- The loop over the lines. The table is cleared with the first route; `first` says that it is
  -- still to come.
  unfoldable pub load_lines : Fields → Bool → List RtEntry → List Bytes → Loaded
  load_lines f first table [] = loaded table
  load_lines f first table (line ∷ lines) =
      let ws = words 4 (c_string line) in
      let f' = assign f ws in
      let kept = if first then [] else table in
      if too_long ws then overrun else elim (addresses f') [
        | none ↦ failed table
        | some (d, g, m) ↦ load_lines f' false (add_rt_entry kept d g m f'.iface) lines
      ]

  -- No file that can be read is `none`; `f` is what the arrays hold at first.
  unfoldable pub load_rt : Fields → Option (List Bytes) → List RtEntry → Loaded
  load_rt f none table = failed table
  load_rt f (some lines) table = load_lines f true table lines
