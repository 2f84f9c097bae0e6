-- ===== src/Vns/Routes.antt =====
-- What `sr_verify_routing_table` promises to the forwarding of packets.
use cmput.Base.{
  ℕ, ◌≡◌, ◌≢◌, ◌↔◌, refl, sym, ◌∙◌, subst, inl, inr, true, List, [], ◌∷◌, ◌++◌, some, All,
  Bool-cases, arith, strncmp_eq,
}
use mathlib.Core.Bool.{false≢true}
use cmput.Iface.{Iface, iface_namelen, get_interface}
use cmput.Route.{RtEntry, longest_prefix_matching}
use cmput.Route.Match.{Chosen, IsLongest, longest_prefix_matching-Chosen}
use cmput.Vns.{has_name, count_missing, verify_routing_table}

-- `sr_get_interface` finds the interface of the route.
abbrev pub HasIface : List Iface → RtEntry → Type 0
HasIface is e = (i : Iface) × (get_interface is e.interface ≡ some i)

has_name-HasIface :
    (is : List Iface) (e : RtEntry) → (has_name is e.interface ≡ true) ↔ HasIface is e
unfolding has_name get_interface
has_name-HasIface [] e = (λ h. absurd (ground arith), λ (i, h). cc)
has_name-HasIface (i ∷ is) e = elim (Bool-cases (strncmp_eq iface_namelen i.name e.interface)) [
  | inl f ↦ (λ h. (i, rw f refl), λ h. rw f)
  | inr f ↦ rw f (has_name-HasIface is e)
]

count_missing-HasIface :
    (is : List Iface) (es : List RtEntry) → (count_missing is es ≡ 0) ↔ All (HasIface is) es
unfolding count_missing
count_missing-HasIface is [] = (λ h. tt, λ h. refl)
count_missing-HasIface is (e ∷ es) = elim (Bool-cases (has_name is e.interface)) [
  | inl f ↦ rw f (
    (λ h. ((has_name-HasIface is e).0 f, (count_missing-HasIface is es).0 h)),
    λ h. (count_missing-HasIface is es).1 h.1,
  )
  | inr f ↦ rw f (
    (λ h. absurd (omega arith)),
    λ h. absurd (false≢true (sym f ∙ (has_name-HasIface is e).1 h.0)),
  )
]

-- `sr_verify_routing_table` returns 0 exactly when there is an interface, there is a route, and
-- `sr_get_interface` finds an interface for every route.
pub verify_routing_table_iff :
    (is : List Iface) (es : List RtEntry)
    → (verify_routing_table is es ≡ 0) ↔ ((is ≢ []) × (es ≢ []) × All (HasIface is) es)
unfolding verify_routing_table
verify_routing_table_iff [] es = (λ h. absurd (omega arith), λ h. absurd (h.0 refl))
verify_routing_table_iff (i ∷ is) [] = (λ h. absurd (omega arith), λ h. absurd (h.1 refl))
verify_routing_table_iff (i ∷ is) (e ∷ es) = (
  (λ h. ((λ n. cc), (λ n. cc), (count_missing-HasIface (i ∷ is) (e ∷ es)).0 h)),
  λ h. (count_missing-HasIface (i ∷ is) (e ∷ es)).1 h.2,
)

All-middle : {A : Type 0} (P : A → Type 0) (xs ys : List A) (x : A) → All P (xs ++ (x ∷ ys)) → P x
All-middle P [] ys x h = h.0
All-middle P (z ∷ xs) ys x h = All-middle P xs ys x h.1

-- On a table that `sr_verify_routing_table` accepted, `sr_get_interface` finds an interface for the
-- route that `longest_prefix_matching` chooses.
pub verified_route-HasIface :
    (is : List Iface) (es : List RtEntry) (ip : ℕ) (e : RtEntry)
    → verify_routing_table is es ≡ 0
    → longest_prefix_matching es ip ≡ some e
    → HasIface is e
verified_route-HasIface is es ip e v h =
    let l : IsLongest ip 0 es e = subst (Chosen ip es) h (longest_prefix_matching-Chosen ip es) in
    All-middle (HasIface is) l.before l.after e
      (subst (All (HasIface is)) l.split ((verify_routing_table_iff is es).0 v).2)
