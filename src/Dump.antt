-- ===== src/Dump.antt =====
-- The packet log: the file that sr_dumper.c and `sr_log_packet` of sr_vns_comm.c (both in
-- assignment-3/router) write, as a little-endian host does.
pub mod Reading
use cmput.Base.{
  ℕ, Bool, true, false, ◌&&◌, List, [], ◌∷◌, ◌++◌, Option, none, some, Bytes, bytes16, bytes32,
  take, length, ltb, ◌==◌, if◌then◌else◌,
}

-- TCPDUMP_MAGIC, PCAP_VERSION_MAJOR, PCAP_VERSION_MINOR, LINKTYPE_ETHERNET
abbrev pub tcpdump_magic : ℕ
tcpdump_magic = 0xa1b2c3d4

abbrev pub pcap_version_major : ℕ
pcap_version_major = 2

abbrev pub pcap_version_minor : ℕ
pcap_version_minor = 4

abbrev pub linktype_ethernet : ℕ
linktype_ethernet = 1

-- PACKET_DUMP_SIZE
abbrev pub packet_dump_size : ℕ
packet_dump_size = 1024

-- `sf_write_header`: struct pcap_file_header.
unfoldable pub sf_write_header : ℕ → ℕ → ℕ → Bytes
sf_write_header linktype thiszone snaplen =
    bytes32 tcpdump_magic
    ++ bytes16 pcap_version_major
    ++ bytes16 pcap_version_minor
    ++ bytes32 thiszone
    ++ bytes32 0
    ++ bytes32 snaplen
    ++ bytes32 linktype

-- "-"
abbrev is_dash : Bytes → Bool
is_dash [] = false
is_dash (c ∷ more) = c == b'-' && (length more == 0)

-- `sr_dump_open`: what the file has then, if it can be opened; the name "-" is `stdout`.
unfoldable pub dump_open : (Bytes → Bool) → Bytes → ℕ → ℕ → Option Bytes
dump_open opens fname thiszone snaplen =
    if is_dash fname
    then some (sf_write_header linktype_ethernet thiszone snaplen)
    else if opens fname
    then some (sf_write_header linktype_ethernet thiszone snaplen)
    else none

-- struct pcap_pkthdr
pub record PcapPkthdr : Type 0 where
  pub tv_sec : ℕ
  pub tv_usec : ℕ
  pub caplen : ℕ
  pub len : ℕ

-- `sr_dump`: struct pcap_sf_pkthdr and the bytes of the packet.
unfoldable pub dump : Bytes → PcapPkthdr → Bytes → Bytes
dump file h sp =
    file
    ++ (bytes32 h.tv_sec
        ++ bytes32 h.tv_usec
        ++ bytes32 h.caplen
        ++ bytes32 h.len
        ++ take h.caplen sp)

-- `sr_log_packet`, at a time of `gettimeofday`, for a frame with its length; there may be no file.
unfoldable pub log_packet : Option Bytes → ℕ → ℕ → Bytes → Option Bytes
log_packet none sec usec buf = none
log_packet (some file) sec usec buf =
    let len = length buf in
    let size = if ltb packet_dump_size len then packet_dump_size else len in
    let h : PcapPkthdr = record {
      tv_sec = sec;
      tv_usec = usec;
      caplen = size;
      len = if ltb size packet_dump_size then size else packet_dump_size;
    } in
    some (dump file h buf)
