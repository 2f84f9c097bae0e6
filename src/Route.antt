-- ===== src/Route.antt =====
-- The routing table of assignment-3/router/sr_rt.c and sr_rt.h: a linked list, head first.
pub mod Match
pub mod Load
pub mod File
pub mod Listing
use cmput.Base.{
  ℕ, Bool, List, [], ◌∷◌, Option, none, some, Bytes, take, htonl, bit_and, ltb, ◌==◌, if◌then◌else◌,
  ◌&&◌,
}

-- struct sr_rt; the addresses are in network byte order, read as the host reads them.
pub record RtEntry : Type 0 where
  pub dest : ℕ
  pub gw : ℕ
  pub mask : ℕ
  pub interface : Bytes

-- `(host_ip & mask) == (dest_ip & mask)`, each taken through `ntohl`.
unfoldable pub covers : RtEntry → ℕ → Bool
covers e ip = let mask = htonl e.mask in bit_and (htonl ip) mask == bit_and (htonl e.dest) mask

-- The loop of `longest_prefix_matching`, with its two variables.
unfoldable pub match_from : ℕ → List RtEntry → Option RtEntry → ℕ → Option RtEntry
match_from ip [] longest_prefix_match longest_mask = longest_prefix_match
match_from ip (entry ∷ rest) longest_prefix_match longest_mask =
    let better = covers entry ip && ltb (htonl longest_mask) (htonl entry.mask) in
    match_from ip rest (if better then some entry else longest_prefix_match)
      (if better then entry.mask else longest_mask)

unfoldable pub longest_prefix_matching : List RtEntry → ℕ → Option RtEntry
unfolding match_from covers
longest_prefix_matching table ip = match_from ip table none 0

-- The new node goes to the end of the list.
unfoldable pub add_rt_entry : List RtEntry → ℕ → ℕ → ℕ → Bytes → List RtEntry
add_rt_entry [] dest gw mask if_name =
    record { dest = dest; gw = gw; mask = mask; interface = take 32 if_name } ∷ []
add_rt_entry (e ∷ es) dest gw mask if_name = e ∷ add_rt_entry es dest gw mask if_name
