-- ===== src/Router/Messages.antt =====
-- What `sr_send_packet` writes, and when.
use cmput.Base.{
  ◌≤◌, ◌≡◌, refl, ◌⊎◌, inl, inr, Bool, true, false, List, [], ◌∷◌, ◌++◌, some, Bytes, bytes_eq,
  bytes_eq_refl, length, ltb, Bool-cases, Option-cases, arith, if◌then◌else◌,
}
use cmput.Packet.{eth_size, ether_shost}
use cmput.Iface.{Iface, get_interface}
use cmput.Iface.Laws.{get_interface-name}
use cmput.Router.{Router, done}
use cmput.Router.Send.{packet_message, ether_addrs_match_interface, send_packet}

-- A message that `sr_send_packet` may write: a frame with a whole Ethernet header, whose source
-- address is that of an interface of the router with the name given.
pub record IsMessage (is : List Iface) (msg : Bytes) : Type 0 where
  pub frame : Bytes
  pub name : Bytes
  pub interface : Iface
  pub packed : msg ≡ packet_message frame name
  pub whole : eth_size ≤ length frame
  pub known : get_interface is name ≡ some interface
  pub source : bytes_eq 6 (ether_shost frame) interface.addr ≡ true

-- What a call of `sr_send_packet` does: nothing, or one message more.
pub record Sends (buf name : Bytes) (r s : Router) : Type 0 where
  pub message : IsMessage r.if_list (packet_message buf name)
  pub grown : s ≡ record r { wire = r.wire ++ (packet_message buf name ∷ []) }

pub send_packet_cases :
    (buf name : Bytes) (r : Router)
    → (send_packet buf name r ≡ done false r)
      ⊎ ((b : Bool) × (s : Router) × (send_packet buf name r ≡ done b s) × Sends buf name r s)
unfolding send_packet ether_addrs_match_interface
send_packet_cases buf name r = elim (Bool-cases (ltb (length buf) eth_size)) [
  | inl e ↦ inl (rw e)
  | inr e ↦ elim (Option-cases (get_interface r.if_list name)) [
    | inl f ↦ inl (rw (e, f, ether_addrs_match_interface))
    | inr (i, f) ↦ elim (Bool-cases (bytes_eq 6 (ether_shost buf) i.addr)) [
      | inl g ↦ inr (
        took,
        after,
        rw (e, f, ether_addrs_match_interface, g),
        record {
          message = record {
            frame = buf;
            name = name;
            interface = i;
            packed = refl;
            whole = ground arith;
            known = f;
            source = g;
          };
          grown = refl;
        },
      )
      | inr g ↦ inl (rw (e, f, ether_addrs_match_interface, g))
    ]
  ]
]
  where
    msg : Bytes
    msg = packet_message buf name

    took : Bool
    took = if ltb (r.written (length msg)) (length msg) then false else true

    after : Router
    after = record r { wire = r.wire ++ (msg ∷ []) }

abbrev pub with_message : Bytes → Bytes → Router → Router
with_message buf name r = record r { wire = r.wire ++ (packet_message buf name ∷ []) }

-- A whole frame with the source address of an interface goes out under that interface's name.
pub send_packet_done :
    (buf name : Bytes) (r : Router) (i : Iface)
    → get_interface r.if_list name ≡ some i
    → eth_size ≤ length buf
    → ether_shost buf ≡ i.addr
    → length i.addr ≡ 6
    → (b : Bool) × (send_packet buf i.name r ≡ done b (with_message buf i.name r))
unfolding send_packet ether_addrs_match_interface
send_packet_done buf name r i g h s a =
    let whole : ltb (length buf) eth_size ≡ false = ground arith in
    (
      if ltb (r.written (length (packet_message buf i.name))) (length (packet_message buf i.name))
          then false
          else true,
      rw (
        whole,
        get_interface-name r.if_list name i g,
        ether_addrs_match_interface,
        s,
        bytes_eq_refl 6 i.addr (omega arith),
      ),
    )
