-- ===== src/Print.antt =====
-- What assignment-3/router/sr_utils.c prints, as the calls of `fprintf` that it makes.
pub mod Bounds
pub mod Dotted
use Prim.Native.String.{String}
use cmput.Base.{
  ℕ, zero, suc, ◌+◌, ◌*◌, ◌/◌, ◌%◌, ◌^◌, List, [], ◌∷◌, ◌++◌, Option, none, some, Bytes, slice, le8,
  le16, le32, htons, htonl, length, leb, ltb, ◌==◌, bit_and, if◌then◌else◌,
}
use cmput.Packet.{
  eth_size, ip_size, arp_size, ethertype_arp, ethertype_ip, ip_protocol_icmp, ether_addr_len,
}

-- A format with its arguments.
pub data Fprintf : Type 0 where
  fprintf : String → List ℕ → Fprintf

-- What a function prints, oldest first; `none` if it reads behind the buffer.
abbrev pub Printed : Type 0
Printed = Option (List Fprintf)

-- One function after the other.
unfoldable pub in_turn : List Printed → Printed
in_turn [] = some []
in_turn (none ∷ ps) = none
in_turn (some out ∷ ps) = elim (in_turn ps) [ none ↦ none | some more ↦ some (out ++ more) ]

abbrev pub line : String → Printed
line format = some (fprintf format [] ∷ [])

-- A call with the number that `get` makes of the `n` bytes at `o`.
unfoldable pub show : Bytes → ℕ → ℕ → String → (Bytes → ℕ) → Printed
show buf o n format get =
    if leb (o + n) (length buf) then some (fprintf format (get (slice buf o n) ∷ []) ∷ []) else none

-- sizeof(sr_icmp_hdr_t)
abbrev pub icmp_size : ℕ
icmp_size = 4

-- `ethertype`; `print_hdr_eth` reads these bytes, too.
unfoldable pub ethertype : Bytes → ℕ
ethertype buf = htons (le16 (slice buf 12 2))

-- `ip_protocol`, of the IP header at an offset; `print_hdr_ip` reads this byte, too.
unfoldable pub ip_protocol : Bytes → ℕ → ℕ
ip_protocol buf o = le8 (slice buf (o + 9) 1)

-- The octets by shifts of a `uint32_t`.
abbrev pub octet : ℕ → ℕ → ℕ
octet ip k = ip * 2 ^ k % 2 ^ 32 / 2 ^ 24

abbrev pub print_addr_ip_int : ℕ → Printed
print_addr_ip_int ip = some (
    fprintf "%d." (octet ip 0 ∷ [])
    ∷ fprintf "%d." (octet ip 8 ∷ [])
    ∷ fprintf "%d." (octet ip 16 ∷ [])
    ∷ fprintf "%d\n" (octet ip 24 ∷ [])
    ∷ [])

-- The decimal digits of a number, in front of a text; ten are enough for a `uint32_t`.
unfoldable pub digits : ℕ → ℕ → Bytes → Bytes
digits zero n text = text
digits (suc k) n text =
    let longer = (48 + n % 10) ∷ text in
    let rest = digits k (n / 10) longer in if n / 10 == 0 then longer else rest

unfoldable pub decimal : ℕ → Bytes
decimal n = digits 10 n []

-- `ip_int_to_str`: what `sprintf` writes, without the NUL.
unfoldable pub ip_int_to_str : ℕ → Bytes
ip_int_to_str ip =
    decimal (octet ip 0)
    ++ (46 ∷ decimal (octet ip 8) ++ (46 ∷ decimal (octet ip 16) ++ (46 ∷ decimal (octet ip 24))))

-- IP_DF, IP_MF and IP_RF
unfoldable pub fragment_flag : ℕ → Printed
fragment_flag off =
    if ltb 0 (bit_and off 0x4000)
    then line "\tfragment flag: DF\n"
    else if ltb 0 (bit_and off 0x2000)
    then line "\tfragment flag: MF\n"
    else if ltb 0 (bit_and off 0x8000)
    then line "\tfragment flag: R\n"
    else some []

module _ (buf : Bytes) where
  -- The loop from `pos` on, over the `n` bytes that are left.
  unfoldable pub addr_bytes : ℕ → ℕ → ℕ → Printed
  addr_bytes o pos zero = some []
  addr_bytes o pos (suc n) = in_turn (
      (if ltb 0 pos then line ":" else some [])
      ∷ show buf (o + pos) 1 "%02X" le8
      ∷ addr_bytes o (suc pos) n
      ∷ [])

  -- `print_addr_eth`, of the address at an offset.
  unfoldable pub print_addr_eth : ℕ → Printed
  print_addr_eth o = in_turn (addr_bytes o 0 ether_addr_len ∷ line "\n" ∷ [])

  -- The address at an offset, by `print_addr_ip_int(ntohl(...))`.
  unfoldable pub print_ip_at : ℕ → Printed
  print_ip_at o =
      if leb (o + 4) (length buf) then print_addr_ip_int (htonl (le32 (slice buf o 4))) else none

  unfoldable pub print_hdr_eth : ℕ → Printed
  print_hdr_eth o = in_turn (
      line "ETHERNET header:\n"
      ∷ line "\tdestination: "
      ∷ print_addr_eth o
      ∷ line "\tsource: "
      ∷ print_addr_eth (o + 6)
      ∷ show buf (o + 12) 2 "\ttype: %d\n" (λ b. htons (le16 b))
      ∷ [])

  unfoldable pub print_hdr_ip : ℕ → Printed
  print_hdr_ip o = in_turn (
      line "IP header:\n"
      ∷ show buf o 1 "\tversion: %d\n" (λ b. le8 b / 16)
      ∷ show buf o 1 "\theader length: %d\n" (λ b. le8 b % 16)
      ∷ show buf (o + 1) 1 "\ttype of service: %d\n" le8
      ∷ show buf (o + 2) 2 "\tlength: %d\n" (λ b. htons (le16 b))
      ∷ show buf (o + 4) 2 "\tid: %d\n" (λ b. htons (le16 b))
      ∷ (if leb (o + 8) (length buf)
          then fragment_flag (htons (le16 (slice buf (o + 6) 2)))
          else none)
      ∷ show buf (o + 6) 2 "\tfragment offset: %d\n" (λ b. bit_and (htons (le16 b)) 0x1fff)
      ∷ show buf (o + 8) 1 "\tTTL: %d\n" le8
      ∷ show buf (o + 9) 1 "\tprotocol: %d\n" le8
      ∷ show buf (o + 10) 2 "\tchecksum: %d\n" le16
      ∷ line "\tsource: "
      ∷ print_ip_at (o + 12)
      ∷ line "\tdestination: "
      ∷ print_ip_at (o + 16)
      ∷ [])

  unfoldable pub print_hdr_icmp : ℕ → Printed
  print_hdr_icmp o = in_turn (
      line "ICMP header:\n"
      ∷ show buf o 1 "\ttype: %d\n" le8
      ∷ show buf (o + 1) 1 "\tcode: %d\n" le8
      ∷ show buf (o + 2) 2 "\tchecksum: %d\n" le16
      ∷ [])

  unfoldable pub print_hdr_arp : ℕ → Printed
  print_hdr_arp o = in_turn (
      line "ARP header\n"
      ∷ show buf o 2 "\thardware type: %d\n" (λ b. htons (le16 b))
      ∷ show buf (o + 2) 2 "\tprotocol type: %d\n" (λ b. htons (le16 b))
      ∷ show buf (o + 4) 1 "\thardware address length: %d\n" le8
      ∷ show buf (o + 5) 1 "\tprotocol address length: %d\n" le8
      ∷ show buf (o + 6) 2 "\topcode: %d\n" (λ b. htons (le16 b))
      ∷ line "\tsender hardware address: "
      ∷ print_addr_eth (o + 8)
      ∷ line "\tsender ip address: "
      ∷ print_ip_at (o + 14)
      ∷ line "\ttarget hardware address: "
      ∷ print_addr_eth (o + 18)
      ∷ line "\ttarget ip address: "
      ∷ print_ip_at (o + 24)
      ∷ [])

  -- `print_hdrs`, from the Ethernet header on.
  unfoldable pub print_ip_hdrs : ℕ → Printed
  print_ip_hdrs size =
      if ltb size (eth_size + ip_size)
      then line "Failed to print IP header, insufficient length\n"
      else in_turn (
          print_hdr_ip eth_size
          ∷ (if ip_protocol buf eth_size == ip_protocol_icmp
              then if ltb size (eth_size + ip_size + icmp_size)
                then line "Failed to print ICMP header, insufficient length\n"
                else print_hdr_icmp (eth_size + ip_size)
              else some [])
          ∷ [])

  unfoldable pub print_arp_hdrs : ℕ → Printed
  print_arp_hdrs size =
      if ltb size (eth_size + arp_size)
      then line "Failed to print ARP header, insufficient length\n"
      else print_hdr_arp eth_size

  unfoldable pub print_hdrs : ℕ → Printed
  print_hdrs size =
      if ltb size eth_size
      then line "Failed to print ETHERNET header, insufficient length\n"
      else in_turn (
          print_hdr_eth 0
          ∷ (if ethertype buf == ethertype_ip
              then print_ip_hdrs size
              else if ethertype buf == ethertype_arp
              then print_arp_hdrs size
              else some (fprintf "Unrecognized Ethernet Type: %d\n" (ethertype buf ∷ []) ∷ []))
          ∷ [])
