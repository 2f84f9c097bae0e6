-- ===== src/Dump/Reading.antt =====
-- The log, read back.
use cmput.Base.{
  ℕ, zero, suc, ◌^◌, ◌≤◌, ◌<◌, ◌≡◌, refl, sym, ap, ◌∙◌, List, [], ◌∷◌, ◌++◌, map, All, Option, some,
  Bytes, take, drop, le32, bytes32, le32-bytes32, take_all, length, ltb, if◌then◌else◌, arith,
}
use mathlib.Core.List.{append_assoc, append-nil}
use cmput.Vns.Delivery.{drop_all}
use cmput.Vns.Framing.{length-take}
use cmput.Dump.{PcapPkthdr, packet_dump_size, dump, log_packet}

-- A frame that is logged, and when.
pub record Logged : Type 0 where
  pub sec : ℕ
  pub usec : ℕ
  pub frame : Bytes

-- A record that a reader of the format finds: its header, and as many bytes as that says.
pub record Found : Type 0 where
  pub header : PcapPkthdr
  pub content : Bytes

abbrev header_at : Bytes → PcapPkthdr
header_at b = record {
  tv_sec = le32 b;
  tv_usec = le32 (drop 4 b);
  caplen = le32 (drop 8 b);
  len = le32 (drop 12 b);
}

-- The `n` records that the bytes behind the file header begin with.
abbrev pub read_records : ℕ → Bytes → List Found
read_records zero b = []
read_records (suc n) b =
    let h = header_at b in
    record { header = h; content = take h.caplen (drop 16 b) }
    ∷ read_records n (drop h.caplen (drop 16 b))

abbrev pub log_all : Option Bytes → List Logged → Option Bytes
log_all file [] = file
log_all file (p ∷ ps) = log_all (log_packet file p.sec p.usec p.frame) ps

-- What is kept of a frame: its first 1024 bytes.
abbrev pub kept : Logged → ℕ
kept p = if ltb packet_dump_size (length p.frame) then packet_dump_size else length p.frame

abbrev pub found : Logged → Found
found p = record {
  header = record { tv_sec = p.sec; tv_usec = p.usec; caplen = kept p; len = kept p };
  content = take (kept p) p.frame;
}

-- The bytes of one record.
abbrev entry : Logged → Bytes
entry p =
    bytes32 p.sec ++ bytes32 p.usec ++ bytes32 (kept p) ++ bytes32 (kept p) ++ take (kept p) p.frame

abbrev entries : List Logged → Bytes
entries [] = []
entries (p ∷ ps) = entry p ++ entries ps

kept-le : (p : Logged) → (kept p ≤ length p.frame) × (kept p ≤ 1024)
kept-le p = ground arith

same_len : (n : ℕ) → n ≤ 1024 → (if ltb n 1024 then n else 1024) ≡ n
same_len n h = ground arith

log_packet-entry :
    (file : Bytes) (p : Logged)
    → log_packet (some file) p.sec p.usec p.frame ≡ some (file ++ entry p)
unfolding log_packet dump
log_packet-entry file p =
    ap
      (λ l. some (
        file
        ++ (bytes32 p.sec
            ++ bytes32 p.usec
            ++ bytes32 (kept p)
            ++ bytes32 l
            ++ take (kept p) p.frame)))
      (same_len (kept p) (kept-le p).1)

log_all-entries :
    (file : Bytes) (ps : List Logged) → log_all (some file) ps ≡ some (file ++ entries ps)
log_all-entries file [] = ap some (sym (append-nil file))
log_all-entries file (p ∷ ps) =
    ap (λ f. log_all f ps) (log_packet-entry file p)
    ∙ log_all-entries (file ++ entry p) ps
    ∙ ap some (append_assoc file (entry p) (entries ps))

-- A time that fits its fields.
abbrev pub IsTimed : Logged → Type 0
IsTimed p = (p.sec < 2 ^ 32) × (p.usec < 2 ^ 32)

header_at-entry :
    (p : Logged) (rest : Bytes) → IsTimed p → header_at (entry p ++ rest) ≡ (found p).header
header_at-entry p rest v =
    let k : kept p < 2 ^ 32 = omega (arith, (kept-le p).1) in
    cc (le32-bytes32 p.sec v.0, le32-bytes32 p.usec v.1, le32-bytes32 (kept p) k)

read_records-entries :
    (ps : List Logged) → All IsTimed ps → read_records (length ps) (entries ps) ≡ map found ps
read_records-entries [] v = refl
read_records-entries (p ∷ ps) v =
    let size = length-take (kept p) p.frame (kept-le p).0 in
    ap
      (λ (h : PcapPkthdr).
        record { header = h; content = take h.caplen (take (kept p) p.frame ++ entries ps) }
        ∷ read_records (length ps) (drop h.caplen (take (kept p) p.frame ++ entries ps)))
      (header_at-entry p (entries ps) v.0)
    ∙ ap
        (λ c.
          record { header = (found p).header; content = c }
          ∷ read_records (length ps) (drop (kept p) (take (kept p) p.frame ++ entries ps)))
        (take_all (take (kept p) p.frame) (kept p) (entries ps) (sym size))
    ∙ ap (λ b. found p ∷ read_records (length ps) b)
        (drop_all (take (kept p) p.frame) (kept p) (entries ps) (sym size))
    ∙ ap (λ fs. found p ∷ fs) (read_records-entries ps v.1)

-- A log to which frames are written, at times that fit its fields of 32 bits, holds behind what it
-- held a record for each frame, in their order: a reader finds the time, the first 1024 bytes of
-- the frame, and as both lengths how many those are, so that the length of a longer frame is lost.
pub log_all-read :
    (file : Bytes) (ps : List Logged)
    → All IsTimed ps
    → (more : Bytes) × (log_all (some file) ps ≡ some (file ++ more))
      × (read_records (length ps) more ≡ map found ps)
log_all-read file ps v = (entries ps, log_all-entries file ps, read_records-entries ps v)
