-- ===== src/Route/Listing.antt =====
-- The routing table as `sr_print_routing_table` of assignment-3/router/sr_rt.c prints it, and what
-- `sr_load_rt` makes of the lines of routes. `inet_ntoa` and `inet_aton` are arguments.
use cmput.Base.{
  ℕ, ◌≡◌, ◌∙◌, ap, List, [], ◌∷◌, ◌++◌, map, Option, some, All, Bytes, take, length, refl, zero,
  suc, ◌≤◌, arith,
}
use cmput.Route.{RtEntry}
use cmput.Route.Load.{Fields, loaded, load_rt}
use cmput.Route.File.{IsWord, Gap, line_of, Route, IsRoute, entry_of, load_rt_routes}

-- "Destination\tGateway\t\tMask\tIface\n"
abbrev pub heading : Bytes
heading =
    b'D' ∷ b'e' ∷ b's' ∷ b't' ∷ b'i' ∷ b'n' ∷ b'a' ∷ b't' ∷ b'i' ∷ b'o' ∷ b'n' ∷ 9 ∷ b'G' ∷ b'a'
    ∷ b't' ∷ b'e' ∷ b'w' ∷ b'a' ∷ b'y' ∷ 9 ∷ 9 ∷ b'M' ∷ b'a' ∷ b's' ∷ b'k' ∷ 9 ∷ b'I' ∷ b'f' ∷ b'a'
    ∷ b'c' ∷ b'e' ∷ 10 ∷ []

-- " *warning* Routing table empty \n"
abbrev empty_warning : Bytes
empty_warning =
    32 ∷ b'*' ∷ b'w' ∷ b'a' ∷ b'r' ∷ b'n' ∷ b'i' ∷ b'n' ∷ b'g' ∷ b'*' ∷ 32 ∷ b'R' ∷ b'o' ∷ b'u'
    ∷ b't' ∷ b'i' ∷ b'n' ∷ b'g' ∷ 32 ∷ b't' ∷ b'a' ∷ b'b' ∷ b'l' ∷ b'e' ∷ 32 ∷ b'e' ∷ b'm' ∷ b'p'
    ∷ b't' ∷ b'y' ∷ 32 ∷ 10 ∷ []

module _ (inet_ntoa : ℕ → Bytes) where
  -- `sr_print_routing_entry`: a line.
  unfoldable pub print_routing_entry : RtEntry → Bytes
  print_routing_entry entry =
      inet_ntoa entry.dest
      ++ (9
          ∷ 9
          ∷ (inet_ntoa entry.gw
              ++ (9 ∷ (inet_ntoa entry.mask ++ (9 ∷ (entry.interface ++ (10 ∷ [])))))))

  -- The loop over the nodes.
  unfoldable pub print_entries : List RtEntry → List Bytes
  print_entries [] = []
  print_entries (entry ∷ rest) = print_routing_entry entry ∷ print_entries rest

  -- `sr_print_routing_table`: the lines.
  unfoldable pub print_routing_table : List RtEntry → List Bytes
  print_routing_table [] = empty_warning ∷ []
  print_routing_table (entry ∷ rest) = heading ∷ print_routing_entry entry ∷ print_entries rest

-- A route whose addresses are printed as words, which `inet_aton` takes for these addresses, and
-- whose interface has a name without white space.
pub record IsPrintable (inet_ntoa : ℕ → Bytes) (inet_aton : Bytes → Option ℕ) (e : RtEntry)
    : Type 0 where
  pub dest_word : IsWord (inet_ntoa e.dest)
  pub gw_word : IsWord (inet_ntoa e.gw)
  pub mask_word : IsWord (inet_ntoa e.mask)
  pub name_word : IsWord e.interface
  pub dest : inet_aton (inet_ntoa e.dest) ≡ some e.dest
  pub gw : inet_aton (inet_ntoa e.gw) ≡ some e.gw
  pub mask : inet_aton (inet_ntoa e.mask) ≡ some e.mask

take_whole : (n : ℕ) (w : Bytes) → length w ≤ n → take n w ≡ w
take_whole zero [] h = refl
take_whole zero (c ∷ w) h = absurd (omega arith)
take_whole (suc n) [] h = refl
take_whole (suc n) (c ∷ w) h = ap (λ r. c ∷ r) (take_whole n w (omega arith))

abbrev tab : Gap
tab = record { byte = 9; more = []; blank = refl; blanks = tt }

abbrev two_tabs : Gap
two_tabs = record { byte = 9; more = 9 ∷ []; blank = refl; blanks = (refl, tt) }

module _ (inet_ntoa : ℕ → Bytes) (inet_aton : Bytes → Option ℕ) where
  -- The line of a route, in words.
  abbrev printed : RtEntry → Route
  printed e = record {
    fields = record {
      dest = inet_ntoa e.dest;
      gw = inet_ntoa e.gw;
      mask = inet_ntoa e.mask;
      iface = e.interface;
    };
    dest = e.dest;
    gw = e.gw;
    mask = e.mask;
  }

  printed-IsRoute :
      (e : RtEntry) → IsPrintable inet_ntoa inet_aton e → IsRoute inet_aton (printed e)
  printed-IsRoute e v = record {
    line = record { dest = v.dest_word; gw = v.gw_word; mask = v.mask_word; iface = v.name_word };
    dest = v.dest;
    gw = v.gw;
    mask = v.mask;
  }

  print_routing_entry-line :
      (e : RtEntry) → print_routing_entry inet_ntoa e ≡ line_of two_tabs tab tab (printed e).fields
  unfolding print_routing_entry
  print_routing_entry-line e = refl

  print_entries-lines :
      (es : List RtEntry)
      → print_entries inet_ntoa es ≡ map (λ q. line_of two_tabs tab tab q.fields) (map printed es)
  unfolding print_entries
  print_entries-lines [] = refl
  print_entries-lines (e ∷ es) =
      ap (λ l. l ∷ print_entries inet_ntoa es) (print_routing_entry-line e)
      ∙ ap (λ ls. line_of two_tabs tab tab (printed e).fields ∷ ls) (print_entries-lines es)

  printed-routes :
      (es : List RtEntry)
      → All (IsPrintable inet_ntoa inet_aton) es
      → All (IsRoute inet_aton) (map printed es)
  printed-routes [] v = tt
  printed-routes (e ∷ es) v = (printed-IsRoute e v.0, printed-routes es v.1)

  entry_of-printed :
      (es : List RtEntry)
      → All (IsPrintable inet_ntoa inet_aton) es
      → map entry_of (map printed es) ≡ es
  entry_of-printed [] v = refl
  entry_of-printed (e ∷ es) v =
      ap (λ w. record e { interface = w } ∷ map entry_of (map printed es))
        (take_whole 32 e.interface (omega (arith, v.0.name_word.fits)))
      ∙ ap (λ t. e ∷ t) (entry_of-printed es v.1)

  -- `sr_print_routing_table` prints a table with a route, whose addresses are printed as words of
  -- less than 32 bytes that `inet_aton` takes for them and whose interfaces have names of less than
  -- 32 bytes without white space, in such a way that `sr_load_rt` makes that table again of the
  -- lines behind the heading, whatever the table was before.
  pub print_routing_table-load_rt :
      (f : Fields) (table : List RtEntry) (e : RtEntry) (es : List RtEntry)
      → All (IsPrintable inet_ntoa inet_aton) (e ∷ es)
      → (lines : List Bytes) × (print_routing_table inet_ntoa (e ∷ es) ≡ heading ∷ lines)
        × (load_rt inet_aton f (some lines) table ≡ loaded (e ∷ es))
  unfolding print_routing_table print_entries
  print_routing_table-load_rt f table e es v = (
    print_entries inet_ntoa (e ∷ es),
    refl,
    ap (λ ls. load_rt inet_aton f (some ls) table) (print_entries-lines (e ∷ es))
        ∙ load_rt_routes inet_aton two_tabs tab tab f table (map printed (e ∷ es))
            (printed-routes (e ∷ es) v)
        ∙ ap loaded (entry_of-printed (e ∷ es) v),
  )
