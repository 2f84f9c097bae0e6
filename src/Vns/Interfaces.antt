-- ===== src/Vns/Interfaces.antt =====
-- The interface list that a hardware message sets up.
use mathlib.Core.List.{append_assoc, append-nil}
use cmput.Base.{ℕ, suc, ◌≡◌, refl, sym, ◌∙◌, ap, List, [], ◌∷◌, ◌++◌, some, Bytes, take, le32}
use cmput.Iface.{Iface, iface_namelen, add_interface, set_ether_addr, set_ether_ip}
use cmput.Vns.{HwEntry, hwinterface, hwether, hwethip, take_hw_entry, take_hw_entries}

-- An interface as the server describes it: the values of three entries.
pub record Hardware : Type 0 where
  pub name : Bytes
  pub addr : Bytes
  pub ip : Bytes

-- The entries for it, in the server's order.
abbrev pub described : List Hardware → List HwEntry
described [] = []
described (h ∷ hs) =
    record { key = hwinterface; value = h.name }
    ∷ record { key = hwether; value = h.addr }
    ∷ record { key = hwethip; value = h.ip }
    ∷ described hs

-- The interface for it, in memory that held `old`.
abbrev pub built : Iface → Hardware → Iface
built old h = record old {
  name = take iface_namelen h.name;
  addr = take 6 h.addr;
  ip = le32 (take 4 h.ip);
}

-- The interfaces for them; the one of the entry `i` is in the memory `fresh i`.
abbrev pub built_from : (ℕ → Iface) → ℕ → List Hardware → List Iface
built_from fresh i [] = []
built_from fresh i (h ∷ hs) = built (fresh i) h ∷ built_from fresh (suc (suc (suc i))) hs

add_interface_end :
    (fresh : Iface) (is : List Iface) (name : Bytes)
    → add_interface fresh is name ≡ is ++ (record fresh { name = take iface_namelen name } ∷ [])
unfolding add_interface
add_interface_end fresh [] name = refl
add_interface_end fresh (i ∷ is) name = ap (λ js. i ∷ js) (add_interface_end fresh is name)

set_ether_addr_end :
    (is : List Iface) (x : Iface) (addr : Bytes)
    → set_ether_addr (is ++ (x ∷ [])) addr ≡ some (is ++ (record x { addr = take 6 addr } ∷ []))
unfolding set_ether_addr
set_ether_addr_end [] x addr = refl
set_ether_addr_end (i ∷ []) x addr = refl
set_ether_addr_end (i ∷ j ∷ is) x addr = rw (set_ether_addr_end (j ∷ is) x addr)

set_ether_ip_end :
    (is : List Iface) (x : Iface) (ip : ℕ)
    → set_ether_ip (is ++ (x ∷ [])) ip ≡ some (is ++ (record x { ip = ip } ∷ []))
unfolding set_ether_ip
set_ether_ip_end [] x ip = refl
set_ether_ip_end (i ∷ []) x ip = refl
set_ether_ip_end (i ∷ j ∷ is) x ip = rw (set_ether_ip_end (j ∷ is) x ip)

hw_entry_then :
    (fresh : ℕ → Iface) (i : ℕ) (is js : List Iface) (e : HwEntry) (es : List HwEntry)
    → take_hw_entry (fresh i) is e ≡ some js
    → take_hw_entries fresh i is (e ∷ es) ≡ take_hw_entries fresh (suc i) js es
unfolding take_hw_entries
hw_entry_then fresh i is js e es h = rw (h, take_hw_entries) refl

-- The three entries of one interface.
one_interface :
    (fresh : ℕ → Iface) (i : ℕ) (is : List Iface) (h : Hardware) (es : List HwEntry)
    → take_hw_entries fresh i is (
        record { key = hwinterface; value = h.name }
        ∷ record { key = hwether; value = h.addr }
        ∷ record { key = hwethip; value = h.ip }
        ∷ es)
      ≡ take_hw_entries fresh (suc (suc (suc i))) (is ++ (built (fresh i) h ∷ [])) es
unfolding take_hw_entry
one_interface fresh i is h es =
    hw_entry_then fresh i is _ _ _ (ap some (add_interface_end (fresh i) is h.name))
    ∙ hw_entry_then fresh (suc i) _ _ _ _ (set_ether_addr_end is _ h.addr)
    ∙ hw_entry_then fresh (suc (suc i)) _ _ _ es (set_ether_ip_end is _ (le32 (take 4 h.ip)))

-- The entries that describe interfaces, a name, a MAC and an IP address for each in this order,
-- append these interfaces to the list, in the order of the message, and no setter's assertion
-- fails.
pub take_hw_entries-described :
    (fresh : ℕ → Iface) (i : ℕ) (is : List Iface) (hs : List Hardware)
    → take_hw_entries fresh i is (described hs) ≡ some (is ++ built_from fresh i hs)
unfolding take_hw_entries
take_hw_entries-described fresh i is [] = ap some (sym (append-nil is))
take_hw_entries-described fresh i is (h ∷ hs) =
    one_interface fresh i is h (described hs)
    ∙ take_hw_entries-described fresh (suc (suc (suc i))) (is ++ (built (fresh i) h ∷ [])) hs
    ∙ ap some (append_assoc is (built (fresh i) h ∷ []) (built_from fresh (suc (suc (suc i))) hs))
