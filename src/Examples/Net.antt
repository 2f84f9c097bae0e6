-- ===== src/Examples/Net.antt =====
-- A router with two interfaces and two routes, and frames for it.
use cmput.Base.{ℕ, true, [], ◌∷◌, Bytes, bytes16, slice, splice, replicate}
use cmput.Checksum.{cksum}
use cmput.Iface.{Iface}
use cmput.Route.{RtEntry}
use cmput.ArpCache.{QueuedPacket, ArpEntry, ArpReq, blank_entry}
use cmput.Router.{Router}

-- 10.0.1.1 on eth3 and 192.168.2.1 on eth1, as `s_addr` holds them on a little-endian host.
abbrev pub eth3 : Iface
eth3 = record {
  name = 101 ∷ 116 ∷ 104 ∷ 51 ∷ [];
  addr = 2 ∷ 0 ∷ 0 ∷ 0 ∷ 0 ∷ 3 ∷ [];
  ip = 0x0101000a;
  speed = 0;
}

abbrev pub eth1 : Iface
eth1 = record {
  name = 101 ∷ 116 ∷ 104 ∷ 49 ∷ [];
  addr = 2 ∷ 0 ∷ 0 ∷ 0 ∷ 0 ∷ 1 ∷ [];
  ip = 0x0102a8c0;
  speed = 0;
}

-- 10.0.1.0/24 by 10.0.1.100 on eth3; 192.168.2.2/32 on eth1.
abbrev pub lan : RtEntry
lan = record { dest = 0x0001000a; gw = 0x6401000a; mask = 0x00ffffff; interface = eth3.name }

abbrev pub host : RtEntry
host = record { dest = 0x0202a8c0; gw = 0x0202a8c0; mask = 0xffffffff; interface = eth1.name }

abbrev pub host_mac : Bytes
host_mac = 4 ∷ 0 ∷ 0 ∷ 0 ∷ 0 ∷ 2 ∷ []

abbrev pub known_host : ArpEntry
known_host = record { mac = host_mac; ip = 0x0202a8c0; added = 90; valid = true }

abbrev pub idle : Router
idle = record {
  if_list = eth3 ∷ eth1 ∷ [];
  routing_table = lan ∷ host ∷ [];
  cache = record { entries = known_host ∷ replicate 99 blank_entry; requests = []; next_addr = 0 };
  wire = [];
  written = λ n. n;
  junk = λ _. 0;
}

-- 10.0.1.100 to 192.168.2.2, 20 bytes of header, 8 of ICMP echo request, TTL 64.
abbrev pub ip_frame_blank : Bytes
ip_frame_blank =
    2 ∷ 0 ∷ 0 ∷ 0 ∷ 0 ∷ 3 ∷ 4 ∷ 0 ∷ 0 ∷ 0 ∷ 0 ∷ 1 ∷ 8 ∷ 0 ∷ 0x45 ∷ 0 ∷ 0 ∷ 28 ∷ 0 ∷ 1 ∷ 0 ∷ 0 ∷ 64
    ∷ 1 ∷ 0 ∷ 0 ∷ 10 ∷ 0 ∷ 1 ∷ 100 ∷ 192 ∷ 168 ∷ 2 ∷ 2 ∷ 8 ∷ 0 ∷ 0 ∷ 0 ∷ 0 ∷ 0 ∷ 0 ∷ 0 ∷ []

abbrev pub ip_frame : Bytes
ip_frame = splice ip_frame_blank 24 (bytes16 (cksum (slice ip_frame_blank 14 20)))

-- 10.0.1.100 asks for the MAC address of 10.0.1.1.
abbrev pub arp_frame : Bytes
arp_frame =
    255 ∷ 255 ∷ 255 ∷ 255 ∷ 255 ∷ 255 ∷ 4 ∷ 0 ∷ 0 ∷ 0 ∷ 0 ∷ 1 ∷ 8 ∷ 6 ∷ 0 ∷ 1 ∷ 8 ∷ 0 ∷ 6 ∷ 4 ∷ 0
    ∷ 1 ∷ 4 ∷ 0 ∷ 0 ∷ 0 ∷ 0 ∷ 1 ∷ 10 ∷ 0 ∷ 1 ∷ 100 ∷ 0 ∷ 0 ∷ 0 ∷ 0 ∷ 0 ∷ 0 ∷ 10 ∷ 0 ∷ 1 ∷ 1 ∷ []

-- A packet that waits for 10.0.1.100 on eth3, and its request, sent `times` times, last at 90.
abbrev pub waiting : QueuedPacket
waiting = record { buf = ip_frame; iface = eth3.name }

abbrev pub request : ℕ → ArpReq
request times = record {
  addr = 0;
  ip = 0x6401000a;
  sent = 90;
  times_sent = times;
  packets = waiting ∷ [];
}

abbrev pub asking : ℕ → Router
asking times = record idle {
  cache = record { entries = idle.cache.entries; requests = request times ∷ []; next_addr = 1 };
}
