-- ===== src/Examples/Table.antt =====
-- A file of routes, with `atoi` for `inet_aton`.
use cmput.Base.{ℕ, ◌≡◌, ◌≢◌, refl, false, List, [], ◌∷◌, some, Bytes, arith}
use cmput.Text.{c_string, is_space, atoi, scan_number, scan_digits, span, value}
use cmput.Route.{add_rt_entry}
use cmput.Route.Load.{
  Fields, load_rt, load_lines, addresses, assign, words, next_word, put_word, too_long, loaded,
}
use cmput.Print.{decimal, digits}
use cmput.Route.File.{IsWord, Gap, Route, IsRoute, entry_of, line_of, load_rt_routes}
use cmput.Route.Listing.{IsPrintable, heading, print_routing_table, print_routing_table-load_rt}

-- "10 20 30 eth1"
abbrev pub fields : Fields
fields = record {
  dest = b'1' ∷ b'0' ∷ [];
  gw = b'2' ∷ b'0' ∷ [];
  mask = b'3' ∷ b'0' ∷ [];
  iface = b'e' ∷ b't' ∷ b'h' ∷ b'1' ∷ [];
}

abbrev pub blank_fields : Fields
blank_fields = record { dest = []; gw = []; mask = []; iface = [] }

abbrev pub route : Route
route = record { fields = fields; dest = 10; gw = 20; mask = 30 }

abbrev pub one_blank : Gap
one_blank = record { byte = 32; more = []; blank = refl; blanks = tt }

abbrev pub plain_line : Fields → Bytes
plain_line f = line_of one_blank one_blank one_blank f

two_bytes-IsWord :
    (c d : ℕ) → is_space c ≡ false → is_space d ≡ false → c ≢ 0 → d ≢ 0 → IsWord (c ∷ d ∷ [])
two_bytes-IsWord c d e f g h = record {
  solid = (e, (f, tt));
  text = (g, (h, tt));
  some_byte = λ g. omega (arith, g);
  fits = omega arith;
}

pub route-IsRoute : IsRoute (λ w. some (atoi w)) route
unfolding atoi scan_number scan_digits span value
route-IsRoute = record {
  line = record {
    dest = two_bytes-IsWord _ _ refl refl (λ g. omega (arith, g)) (λ g. omega (arith, g));
    gw = two_bytes-IsWord _ _ refl refl (λ g. omega (arith, g)) (λ g. omega (arith, g));
    mask = two_bytes-IsWord _ _ refl refl (λ g. omega (arith, g)) (λ g. omega (arith, g));
    iface = record {
      solid = (refl, (refl, (refl, (refl, tt))));
      text = (
        (λ g. omega (arith, g)),
        ((λ g. omega (arith, g)), ((λ g. omega (arith, g)), ((λ g. omega (arith, g)), tt))),
      );
      some_byte = λ g. omega (arith, g);
      fits = omega arith;
    };
  };
  dest = refl;
  gw = refl;
  mask = refl;
}

load_rt_routes_example :
    load_rt (λ w. some (atoi w)) blank_fields (some (plain_line fields ∷ [])) (entry_of route ∷ [])
    ≡ loaded (entry_of route ∷ [])
load_rt_routes_example =
    load_rt_routes (λ w. some (atoi w)) one_blank one_blank one_blank blank_fields
      (entry_of route ∷ []) (route ∷ []) (route-IsRoute, tt)

-- A second line with one word takes the rest from the first.
short_line :
    load_rt (λ w. some (atoi w)) blank_fields (some (plain_line fields ∷ (b'7' ∷ 10 ∷ []) ∷ [])) []
    ≡ loaded (entry_of route ∷ record (entry_of route) { dest = 7 } ∷ [])
unfolding load_rt load_lines c_string addresses assign words next_word put_word too_long
    add_rt_entry atoi scan_number scan_digits span value
short_line = refl

route-IsPrintable : IsPrintable decimal (λ w. some (atoi w)) (entry_of route)
unfolding atoi scan_number scan_digits span value decimal digits
route-IsPrintable = record {
  dest_word = two_bytes-IsWord _ _ refl refl (λ g. omega (arith, g)) (λ g. omega (arith, g));
  gw_word = two_bytes-IsWord _ _ refl refl (λ g. omega (arith, g)) (λ g. omega (arith, g));
  mask_word = two_bytes-IsWord _ _ refl refl (λ g. omega (arith, g)) (λ g. omega (arith, g));
  name_word = route-IsRoute.line.iface;
  dest = refl;
  gw = refl;
  mask = refl;
}

print_routing_table-load_rt_example :
    (lines : List Bytes) × (print_routing_table decimal (entry_of route ∷ entry_of route ∷ [])
      ≡ heading ∷ lines)
    × (load_rt (λ w. some (atoi w)) blank_fields (some lines) []
        ≡ loaded (entry_of route ∷ entry_of route ∷ []))
print_routing_table-load_rt_example =
    print_routing_table-load_rt decimal (λ w. some (atoi w)) blank_fields [] (entry_of route)
      (entry_of route ∷ []) (route-IsPrintable, (route-IsPrintable, tt))
