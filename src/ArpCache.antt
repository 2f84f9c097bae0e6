-- ===== src/ArpCache.antt =====
-- The ARP cache and request queue of assignment-3/router/sr_arpcache.c and sr_arpcache.h: the data
-- and the operations that need nothing of the router. Each runs under the cache's recursive lock.
pub mod Lookup
pub mod Queue
use cmput.Base.{
  ℕ, zero, suc, ◌+◌, Bool, true, false, List, [], ◌∷◌, Option, none, some, Bytes, take, replicate,
  map, length, ltb, ◌==◌, if◌then◌else◌, ◌&&◌,
}

-- struct sr_packet. The buffer was allocated with `len` bytes, so `len` is its length.
pub record QueuedPacket : Type 0 where
  pub buf : Bytes
  pub iface : Bytes

-- struct sr_arpentry
pub record ArpEntry : Type 0 where
  pub mac : Bytes
  pub ip : ℕ
  pub added : ℕ
  pub valid : Bool

-- struct sr_arpreq. `addr` stands for the address of the allocated node: no two nodes that are
-- allocated at once have the same.
pub record ArpReq : Type 0 where
  pub addr : ℕ
  pub ip : ℕ
  pub sent : ℕ
  pub times_sent : ℕ
  pub packets : List QueuedPacket

-- struct sr_arpcache; `next_addr` is the address that the next `calloc` returns.
pub record ArpCache : Type 0 where
  pub entries : List ArpEntry
  pub requests : List ArpReq
  pub next_addr : ℕ

-- SR_ARPCACHE_SZ and SR_ARPCACHE_TO
abbrev pub arpcache_sz : ℕ
arpcache_sz = 100

abbrev pub arpcache_to : ℕ
arpcache_to = 15

abbrev pub blank_entry : ArpEntry
blank_entry = record { mac = replicate 6 0; ip = 0; added = 0; valid = false }

unfoldable pub arpcache_init : ArpCache
arpcache_init = record { entries = replicate arpcache_sz blank_entry; requests = []; next_addr = 0 }

abbrev pub is_for : ℕ → ArpEntry → Bool
is_for ip e = e.valid && e.ip == ip

-- The loop of `sr_arpcache_lookup` runs through all entries: the last match stays.
unfoldable pub lookup_from : ℕ → List ArpEntry → Option ArpEntry → Option ArpEntry
lookup_from ip [] entry = entry
lookup_from ip (e ∷ es) entry = lookup_from ip es (if is_for ip e then some e else entry)

unfoldable pub arpcache_lookup : ArpCache → ℕ → Option ArpEntry
arpcache_lookup c ip = lookup_from ip c.entries none

-- The first request for `ip`.
unfoldable pub find_request : ℕ → List ArpReq → Option ArpReq
find_request ip [] = none
find_request ip (r ∷ rs) = if r.ip == ip then some r else find_request ip rs

-- The node at an address; `none` says that no live node is there.
unfoldable pub request_at : ℕ → List ArpReq → Option ArpReq
request_at a [] = none
request_at a (r ∷ rs) = if r.addr == a then some r else request_at a rs

-- A store through a pointer to a node.
unfoldable pub update_request : ℕ → (ArpReq → ArpReq) → List ArpReq → List ArpReq
update_request a f [] = []
update_request a f (r ∷ rs) =
    let rest = update_request a f rs in if r.addr == a then f r ∷ rs else r ∷ rest

-- `new_pkt` goes to the head of the request's packets.
abbrev pub push_packet : QueuedPacket → ArpReq → ArpReq
push_packet p r = record r { packets = p ∷ r.packets }

abbrev pub new_request : ℕ → ℕ → ArpReq
new_request addr ip = record { addr = addr; ip = ip; sent = 0; times_sent = 0; packets = [] }

-- The request for `ip`, put at the head of the queue if there was none, and its address.
unfoldable pub ensure_request : ArpCache → ℕ → ArpCache × ℕ
ensure_request c ip = elim (find_request ip c.requests) [
  | some r ↦ (c, r.addr)
  | none ↦ (
    record c { requests = new_request c.next_addr ip ∷ c.requests; next_addr = suc c.next_addr },
    c.next_addr,
  )
]

-- `sr_arpcache_queuereq` for a packet and an interface name that are not null; a packet of length
-- 0 is not queued. The result's second part is the address of the request.
unfoldable pub arpcache_queuereq : ArpCache → ℕ → Bytes → Bytes → ArpCache × ℕ
arpcache_queuereq c ip packet iface =
    let (c', a) = ensure_request c ip in
    if length packet == 0 then (c', a) else (
      record c' {
        requests =
            update_request a (push_packet (record { buf = packet; iface = take 32 iface }))
              c'.requests;
      },
      a,
    )

-- The first request that passes the test leaves the queue.
unfoldable pub unlink_first : (ArpReq → Bool) → List ArpReq → List ArpReq
unlink_first test [] = []
unlink_first test (r ∷ rs) = let rest = unlink_first test rs in if test r then rs else r ∷ rest

-- The first entry that is not valid takes the mapping; a full table stays as it is.
unfoldable pub fill_entry : ArpEntry → List ArpEntry → List ArpEntry
fill_entry new [] = []
fill_entry new (e ∷ es) = let rest = fill_entry new es in if e.valid then e ∷ rest else new ∷ es

-- `sr_arpcache_insert` at the time `now`: the new cache, and the request that was waiting.
unfoldable pub arpcache_insert : ℕ → ArpCache → Bytes → ℕ → ArpCache × Option ArpReq
arpcache_insert now c mac ip = (
  record c {
    requests = unlink_first (λ r. r.ip == ip) c.requests;
    entries =
        fill_entry (record { mac = take 6 mac; ip = ip; added = now; valid = true }) c.entries;
  },
  find_request ip c.requests,
)

-- The node at the address leaves the queue, if it is there, and is freed with its packets.
unfoldable pub arpreq_destroy : ArpCache → ℕ → ArpCache
arpreq_destroy c a = record c { requests = unlink_first (λ r. r.addr == a) c.requests }

-- One round of the loop of `sr_arpcache_timeout`, in front of the sweep: an entry that was added
-- more than SR_ARPCACHE_TO seconds ago is no longer valid.
abbrev pub expire : ℕ → ArpEntry → ArpEntry
expire now e = if e.valid && ltb (e.added + arpcache_to) now then record e { valid = false } else e

unfoldable pub expire_entries : ℕ → ArpCache → ArpCache
expire_entries now c = record c { entries = map (expire now) c.entries }
