-- ===== src/Examples/Printing.antt =====
-- Printing a frame and an address.
use cmput.Base.{◌/◌, ◌%◌, ◌^◌, ◌≤◌, ◌≡◌, refl, [], ◌∷◌, length, arith}
use cmput.Print.{ip_int_to_str, digits, decimal, print_hdrs}
use cmput.Print.Bounds.{IsPrinted, print_hdrs_inside}
use cmput.Print.Dotted.{numbers, ip_int_to_str_lem}
use cmput.Examples.Net.{arp_frame}

print_hdrs_inside_example : IsPrinted (print_hdrs arp_frame 42)
print_hdrs_inside_example = print_hdrs_inside arp_frame 42 (omega arith)

ip_int_to_str_lem_example :
    (numbers 4 (ip_int_to_str 0x0a000101)
      ≡ 0x0a000101 / 2 ^ 24
        ∷ 0x0a000101 / 2 ^ 16 % 256
        ∷ 0x0a000101 / 2 ^ 8 % 256
        ∷ 0x0a000101 % 256
        ∷ [])
    × (length (ip_int_to_str 0x0a000101) ≤ 15)
ip_int_to_str_lem_example = ip_int_to_str_lem 0x0a000101 (omega arith)

-- 10.0.1.1
dotted : ip_int_to_str 0x0a000101 ≡ b'1' ∷ b'0' ∷ b'.' ∷ b'0' ∷ b'.' ∷ b'1' ∷ b'.' ∷ b'1' ∷ []
unfolding ip_int_to_str decimal digits
dotted = refl
