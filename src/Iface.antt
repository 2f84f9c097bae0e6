-- ===== src/Iface.antt =====
-- The interface list of assignment-3/router/sr_if.c and sr_if.h: a linked list, head first.
pub mod Laws
use cmput.Base.{
  ℕ, Bool, List, [], ◌∷◌, Option, none, some, Bytes, take, strncmp_eq, bytes_eq, ◌==◌,
  if◌then◌else◌,
}

-- struct sr_if; `ip` is in network byte order, read as the host reads it.
pub record Iface : Type 0 where
  pub name : Bytes
  pub addr : Bytes
  pub ip : ℕ
  pub speed : ℕ

-- sr_IFACE_NAMELEN
abbrev pub iface_namelen : ℕ
iface_namelen = 32

-- `none` is the null pointer.
unfoldable pub get_interface : List Iface → Bytes → Option Iface
get_interface [] name = none
get_interface (i ∷ is) name =
    if strncmp_eq iface_namelen i.name name then some i else get_interface is name

-- The walk behind the two assertions; the router asserts that `ip` is not 0.
unfoldable pub get_interface_by_ip : List Iface → ℕ → Option Iface
get_interface_by_ip [] ip = none
get_interface_by_ip (i ∷ is) ip = if i.ip == ip then some i else get_interface_by_ip is ip

-- `memcmp(if_walker->addr, addr, ETHER_ADDR_LEN) == 0`
unfoldable pub get_interface_by_mac : List Iface → Bytes → Option Iface
get_interface_by_mac [] addr = none
get_interface_by_mac (i ∷ is) addr =
    if bytes_eq 6 i.addr addr then some i else get_interface_by_mac is addr

-- The new node goes to the end of the list. `fresh` is what `malloc` returned: only the name is
-- written, by `strncpy(..., sr_IFACE_NAMELEN)`.
unfoldable pub add_interface : Iface → List Iface → Bytes → List Iface
add_interface fresh [] name = record fresh { name = take iface_namelen name } ∷ []
add_interface fresh (i ∷ is) name = i ∷ add_interface fresh is name

-- The last interface takes the address; `none` is the failed assertion on an empty list.
unfoldable pub set_ether_addr : List Iface → Bytes → Option (List Iface)
set_ether_addr [] addr = none
set_ether_addr (i ∷ []) addr = some (record i { addr = take 6 addr } ∷ [])
set_ether_addr (i ∷ j ∷ is) addr = elim (set_ether_addr (j ∷ is) addr) [
  | none ↦ none
  | some js ↦ some (i ∷ js)
]

unfoldable pub set_ether_ip : List Iface → ℕ → Option (List Iface)
set_ether_ip [] ip_nbo = none
set_ether_ip (i ∷ []) ip_nbo = some (record i { ip = ip_nbo } ∷ [])
set_ether_ip (i ∷ j ∷ is) ip_nbo = elim (set_ether_ip (j ∷ is) ip_nbo) [
  | none ↦ none
  | some js ↦ some (i ∷ js)
]
