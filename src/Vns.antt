-- ===== src/Vns.antt =====
-- What the router does with a message of the VNS server: assignment-3/router/sr_vns_comm.c from the
-- command on, with the messages of vnscommand.h, and `sr_verify_routing_table` of sr_main.c.
pub mod Interfaces
pub mod Routes
pub mod Commands
pub mod Stream
pub mod Framing
pub mod Delivery
pub mod Session
pub mod Connect
pub mod Loop
pub mod Handshake
pub mod Opening
pub mod Inversion
pub mod Authenticated
use cmput.Base.{
  ℕ, zero, suc, ◌+◌, ◌-◌, ◌*◌, ◌/◌, Bool, true, false, not, ◌&&◌, ◌||◌, List, [], ◌∷◌, Option, none,
  some, Bytes, slice, drop, take, le32, htons, htonl, length, ltb, ◌==◌, if◌then◌else◌, strncmp_eq,
}
use cmput.Packet.{ether_type, ar_op, ar_tip, eth_size, arp_size, ethertype_arp, arp_op_request}
use cmput.Iface.{Iface, iface_namelen, get_interface, add_interface, set_ether_addr, set_ether_ip}
use cmput.Route.{RtEntry}
use cmput.Router.{
  Router, M, Outcome, done, fault, assert_failed, ◌>>=◌, ◌>>◌, return, abort, reads, need, deref,
  if_null,
}
use cmput.Router.Send.{vnspacket, c_packet_header_size}
use cmput.Router.Handle.{handle_packet}

-- VNSCLOSE, VNSBANNER, VNSHWINFO, VNS_RTABLE, VNS_AUTH_REQUEST, VNS_AUTH_STATUS
abbrev pub vnsclose : ℕ
vnsclose = 2

abbrev pub vnshwinfo : ℕ
vnshwinfo = 16

abbrev pub vns_rtable : ℕ
vns_rtable = 32

abbrev pub vns_auth_request : ℕ
vns_auth_request = 128

abbrev pub vns_auth_status : ℕ
vns_auth_status = 512

-- HWINTERFACE, HWETHER, HWETHIP
abbrev pub hwinterface : ℕ
hwinterface = 1

abbrev pub hwether : ℕ
hwether = 32

abbrev pub hwethip : ℕ
hwethip = 64

-- c_hw_entry, with its key in host order.
pub record HwEntry : Type 0 where
  pub key : ℕ
  pub value : Bytes

-- The `n` entries of `mHWInfo` that begin at an offset.
unfoldable pub hw_entries : Bytes → ℕ → ℕ → List HwEntry
hw_entries buf off zero = []
hw_entries buf off (suc n) =
    record { key = htonl (le32 (slice buf off 4)); value = slice buf (off + 4) 32 }
    ∷ hw_entries buf (off + 36) n

-- One round of the loop of `sr_handle_hwinfo`; `none` is a failed assertion of a setter, which ends
-- the process. `fresh`
-- is the memory for a new interface.
unfoldable pub take_hw_entry : Iface → List Iface → HwEntry → Option (List Iface)
take_hw_entry fresh is e =
    if e.key == hwinterface
    then some (add_interface fresh is e.value)
    else if e.key == hwethip
    then set_ether_ip is (le32 (take 4 e.value))
    else if e.key == hwether
    then set_ether_addr is e.value
    else some is

unfoldable pub take_hw_entries : (ℕ → Iface) → ℕ → List Iface → List HwEntry → Option (List Iface)
take_hw_entries fresh i is [] = some is
take_hw_entries fresh i is (e ∷ es) = elim (take_hw_entry (fresh i) is e) [
  | none ↦ none
  | some js ↦ take_hw_entries fresh (suc i) js es
]

-- `sr_handle_hwinfo`, for a message of at least 8 bytes, whose length is its `mLen`.
unfoldable pub handle_hwinfo : (ℕ → Iface) → Bytes → M (Unit {0})
handle_hwinfo fresh buf r =
    elim (take_hw_entries fresh 0 r.if_list (hw_entries buf 8 ((length buf - 8) / 36))) [
      | none ↦ fault assert_failed r
      | some is ↦ done tt (record r { if_list = is })
    ]

-- The inner loop of `sr_verify_routing_table`: an interface has the name.
unfoldable pub has_name : List Iface → Bytes → Bool
has_name [] name = false
has_name (i ∷ is) name =
    let rest = has_name is name in if strncmp_eq iface_namelen i.name name then true else rest

unfoldable pub count_missing : List Iface → List RtEntry → ℕ
count_missing is [] = 0
count_missing is (e ∷ es) =
    let rest = count_missing is es in if has_name is e.interface then rest else suc rest

-- `sr_verify_routing_table`: the number of routes without an interface, or 999.
unfoldable pub verify_routing_table : List Iface → List RtEntry → ℕ
verify_routing_table [] es = 999
verify_routing_table (i ∷ is) [] = 999
verify_routing_table (i ∷ is) (e ∷ es) = count_missing (i ∷ is) (e ∷ es)

-- `sr_arp_req_not_for_us`
unfoldable pub arp_req_not_for_us : Bytes → Bytes → M Bool
arp_req_not_for_us packet interface = do
  iface ← reads λ r. get_interface r.if_list interface
  if ltb (length packet) (eth_size + arp_size) then return false else (do
    i ← deref assert_failed iface
    return (
        ether_type packet == htons ethertype_arp
        && ar_op packet == htons arp_op_request
        && not (ar_tip packet == i.ip)))

-- What `sr_read_from_server_expect` returns: 1, 0 and -1.
pub data Reply : Type 0 where
  next_command session_closed failed : Reply

-- The handlers of the routing table file and of the authentication: whether they succeed.
pub record Handlers : Type 0 where
  pub rtable : Bytes → Bool
  pub auth_request : Bytes → Bool
  pub auth_status : Bytes → Bool

abbrev pub reply_of : Bool → Reply
reply_of b = if b then next_command else failed

-- A VNSPACKET message: the name of the interface stands behind `c_base`, the frame behind
-- `c_packet_header`.
unfoldable pub take_packet : ℕ → ℕ → Bytes → M Reply
take_packet fuel now buf = do
  need c_packet_header_size buf
  drops ← arp_req_not_for_us (drop c_packet_header_size buf) (drop 8 buf)
  if drops then return next_command else (do
    handle_packet fuel now (drop c_packet_header_size buf) (drop 8 buf)
    return next_command)

-- `sr_read_from_server_expect` from the command on, for the message `buf` that was read; 0 expects
-- no command in particular.
unfoldable pub handle_command : Handlers → (ℕ → Iface) → ℕ → ℕ → ℕ → Bytes → M Reply
handle_command hs fresh fuel now expected buf = do
  need 8 buf
  let command = htonl (le32 (slice buf 4 4))
  if not (expected == 0) && not (command == expected) && not (command == vnsclose)
      then return failed
      else if command == vnspacket
      then take_packet fuel now buf
      else if command == vnsclose
      then return session_closed
      else if command == vnshwinfo
      then (do
        handle_hwinfo fresh buf
        missing ← reads λ r. verify_routing_table r.if_list r.routing_table
        return (if missing == 0 then next_command else failed))
      else if command == vns_rtable
      then return (reply_of (hs.rtable buf))
      else if command == vns_auth_request
      then return (reply_of (hs.auth_request buf))
      else if command == vns_auth_status
      then return (reply_of (hs.auth_status buf))
      else return next_command
