-- ===== src/Examples/Messages.antt =====
-- Messages of the VNS server on concrete inputs.
use cmput.Base.{
  ℕ, ◌++◌, ◌∷◌, [], ◌≡◌, ◌↔◌, ◌≢◌, refl, List, some, Bytes, All, replicate, false, splice, arith,
}
use cmput.Iface.{Iface}
use cmput.Router.Program.{program}
use cmput.Vns.{Handlers, take_hw_entries, verify_routing_table}
use cmput.Vns.Interfaces.{Hardware, described, built_from, take_hw_entries-described}
use cmput.Vns.Routes.{HasIface, verify_routing_table_iff}
use cmput.Vns.Commands.{IsArpRequest}
use cmput.Examples.Net.{eth3, eth1, idle, arp_frame}

-- Handlers that fail, and memory that is the interface eth1.
abbrev pub handlers : Handlers
handlers = record { rtable = λ b. false; auth_request = λ b. false; auth_status = λ b. false }

abbrev pub memory : ℕ → Iface
memory i = eth1

-- A VNSPACKET message that came in on eth3.
abbrev pub vns_message : Bytes → Bytes
vns_message frame =
    (0 ∷ 0 ∷ 0 ∷ 66 ∷ 0 ∷ 0 ∷ 0 ∷ 4 ∷ 101 ∷ 116 ∷ 104 ∷ 51 ∷ []) ++ (replicate 12 0 ++ frame)

-- 10.0.1.100 asks for 192.168.2.1.
abbrev other_arp_frame : Bytes
other_arp_frame = splice arp_frame 38 (192 ∷ 168 ∷ 2 ∷ 1 ∷ [])

message-IsArpRequest : IsArpRequest (vns_message arp_frame) idle eth3
unfolding program
message-IsArpRequest = record {
  command = refl;
  long = omega arith;
  whole = omega arith;
  type = refl;
  op = refl;
  came_in = refl;
}

other-IsArpRequest : IsArpRequest (vns_message other_arp_frame) idle eth3
unfolding program
other-IsArpRequest = record {
  command = refl;
  long = omega arith;
  whole = omega arith;
  type = refl;
  op = refl;
  came_in = refl;
}

abbrev hardware : List Hardware
hardware =
    record { name = eth3.name; addr = eth3.addr; ip = 10 ∷ 0 ∷ 1 ∷ 1 ∷ [] }
    ∷ record { name = eth1.name; addr = eth1.addr; ip = 192 ∷ 168 ∷ 2 ∷ 1 ∷ [] }
    ∷ []

take_hw_entries-described_example :
    take_hw_entries memory 0 [] (described hardware) ≡ some ([] ++ built_from memory 0 hardware)
take_hw_entries-described_example = take_hw_entries-described memory 0 [] hardware

verify_routing_table_iff_example : (verify_routing_table idle.if_list idle.routing_table ≡ 0) ↔ (
    (idle.if_list ≢ [])
    × (idle.routing_table ≢ [])
    × All (HasIface idle.if_list) idle.routing_table)
verify_routing_table_iff_example = verify_routing_table_iff idle.if_list idle.routing_table
