-- ===== src/Examples/Logging.antt =====
-- Logging a frame.
use cmput.Base.{◌≡◌, [], ◌∷◌, ◌++◌, map, List, some, Bytes, arith}
use cmput.Dump.{sf_write_header, linktype_ethernet, packet_dump_size}
use cmput.Dump.Reading.{Logged, found, log_all, read_records, log_all-read}
use cmput.Examples.Net.{arp_frame}

abbrev new_log : Bytes
new_log = sf_write_header linktype_ethernet 0 packet_dump_size

abbrev twice_logged : List Logged
twice_logged =
    record { sec = 1; usec = 2; frame = arp_frame }
    ∷ record { sec = 3; usec = 4; frame = arp_frame ++ arp_frame }
    ∷ []

log_all-read_example :
    (more : Bytes) × (log_all (some new_log) twice_logged ≡ some (new_log ++ more))
    × (read_records 2 more ≡ map found twice_logged)
log_all-read_example =
    log_all-read new_log twice_logged ((omega arith, omega arith), ((omega arith, omega arith), tt))
