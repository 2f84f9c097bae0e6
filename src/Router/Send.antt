-- ===== src/Router/Send.antt =====
-- `sr_send_packet` and `sr_ether_addrs_match_interface` of assignment-3/router/sr_vns_comm.c, with
-- the message header of vnscommand.h.
use cmput.Base.{
  ℕ, ◌+◌, Bool, true, false, [], ◌∷◌, ◌++◌, none, some, Bytes, bytes32, htonl, take, replicate,
  length, bytes_eq, ltb, if◌then◌else◌,
}
use cmput.Packet.{eth_size, ether_shost}
use cmput.Iface.{get_interface}
use cmput.Router.{Router, M, done}

-- VNSPACKET
abbrev pub vnspacket : ℕ
vnspacket = 4

-- sizeof(c_packet_header): `mLen`, `mType` and `mInterfaceName[16]`.
abbrev pub c_packet_header_size : ℕ
c_packet_header_size = 24

-- `strncpy(mInterfaceName, iface, 16)`: cut, or padded with NULs.
unfoldable pub interface_name : Bytes → Bytes
interface_name iface = take 16 (iface ++ replicate 16 0)

-- The message around a frame.
unfoldable pub packet_message : Bytes → Bytes → Bytes
unfolding interface_name htonl
packet_message buf iface =
    bytes32 (htonl (length buf + c_packet_header_size))
    ++ (bytes32 (htonl vnspacket) ++ (interface_name iface ++ buf))

-- The source address of the frame is that of the interface.
unfoldable pub ether_addrs_match_interface : Router → Bytes → Bytes → Bool
ether_addrs_match_interface r buf name = elim (get_interface r.if_list name) [
  | none ↦ false
  | some i ↦ bytes_eq 6 (ether_shost buf) i.addr
]

-- `true` for a return of 0, `false` for -1. The log file of the run is left out.
unfoldable pub send_packet : Bytes → Bytes → M Bool
unfolding ether_addrs_match_interface packet_message
send_packet buf iface r =
    let msg = packet_message buf iface in
    let sent = record r { wire = r.wire ++ (msg ∷ []) } in
    if ltb (length buf) eth_size
    then done false r
    else if ether_addrs_match_interface r buf iface
    then done (if ltb (r.written (length msg)) (length msg) then false else true) sent
    else done false r
