-- ===== src/Examples/Cache.antt =====
-- The ARP cache, the routing table and the checksum on concrete inputs.
use cmput.Base.{◌+◌, ◌%◌, ◌≡◌, refl, inl, true, [], ◌∷◌, some, AreBytes, htons, take, arith}
use cmput.Checksum.{cksum}
use cmput.Checksum.Laws.{word_sum, cksum_complement}
use cmput.Route.{longest_prefix_matching}
use cmput.Route.Match.{Chosen, longest_prefix_matching-Chosen}
use cmput.ArpCache.{ArpCache, blank_entry, arpcache_lookup, arpcache_insert, expire_entries}
use cmput.ArpCache.Lookup.{
  Finds, is_young, arpcache_lookup-expire_entries, arpcache_lookup-arpcache_insert,
}
use cmput.Router.Program.{program}
use cmput.Examples.Net.{lan, host, known_host, idle, host_mac, ip_frame}

ip_frame-AreBytes : AreBytes ip_frame
unfolding program
ip_frame-AreBytes = ground arith

cksum_complement_example : (word_sum ip_frame + htons (cksum ip_frame)) % 0xffff ≡ 0
unfolding program
cksum_complement_example = cksum_complement ip_frame ip_frame-AreBytes (omega arith)

-- 192.168.2.2
longest_prefix_matching-Chosen_example :
    Chosen 0x0202a8c0 (lan ∷ host ∷ []) (longest_prefix_matching (lan ∷ host ∷ []) 0x0202a8c0)
longest_prefix_matching-Chosen_example = longest_prefix_matching-Chosen 0x0202a8c0 (lan ∷ host ∷ [])

arpcache_lookup-expire_entries_example :
    Finds
      (is_young 106 0x0202a8c0)
      idle.cache.entries
      (arpcache_lookup (expire_entries 106 idle.cache) 0x0202a8c0)
arpcache_lookup-expire_entries_example = arpcache_lookup-expire_entries 106 0x0202a8c0 idle.cache

-- Two free entries.
abbrev small : ArpCache
small = record { entries = blank_entry ∷ blank_entry ∷ []; requests = []; next_addr = 0 }

arpcache_lookup-arpcache_insert_example :
    arpcache_lookup (arpcache_insert 100 small host_mac 7).0 7
    ≡ some (record { mac = take 6 host_mac; ip = 7; added = 100; valid = true })
arpcache_lookup-arpcache_insert_example =
    arpcache_lookup-arpcache_insert 100 small host_mac 7 (inl refl) (refl, (refl, tt))

-- A free entry, and the known host behind it.
abbrev stale : ArpCache
stale = record { entries = blank_entry ∷ known_host ∷ []; requests = []; next_addr = 0 }
