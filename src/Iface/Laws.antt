-- ===== src/Iface/Laws.antt =====
-- What the walks over the interface list find.
use cmput.Base.{ℕ, zero, suc, ◌≡◌, refl, ◌∙◌, true, List, [], ◌∷◌, some, Bytes, strncmp_eq, arith}
use cmput.Iface.{Iface, iface_namelen, get_interface}

-- Equal names are equal to the same names.
strncmp_eq-cong :
    (n : ℕ) (c a b : Bytes) → strncmp_eq n a b ≡ true → strncmp_eq n c a ≡ strncmp_eq n c b
unfolding strncmp_eq
strncmp_eq-cong zero c a b h = refl
strncmp_eq-cong (suc n) c [] [] h = refl
strncmp_eq-cong (suc n) [] [] (y ∷ b) h = ground arith
strncmp_eq-cong (suc n) [] (x ∷ a) [] h = ground arith
strncmp_eq-cong (suc n) [] (x ∷ a) (y ∷ b) h = ground arith
strncmp_eq-cong (suc n) (z ∷ c) [] (y ∷ b) h = ground arith
strncmp_eq-cong (suc n) (z ∷ c) (x ∷ a) [] h = ground arith
strncmp_eq-cong (suc n) (z ∷ c) (x ∷ a) (y ∷ b) h = ground (arith, strncmp_eq-cong n c a b)

pub get_interface-strncmp_eq :
    (is : List Iface) (a b : Bytes)
    → strncmp_eq iface_namelen a b ≡ true
    → get_interface is a ≡ get_interface is b
unfolding get_interface
get_interface-strncmp_eq [] a b h = refl
get_interface-strncmp_eq (i ∷ is) a b h =
    rw (strncmp_eq-cong iface_namelen i.name a b h, get_interface-strncmp_eq is a b h)

get_interface-found :
    (is : List Iface) (name : Bytes) (i : Iface)
    → get_interface is name ≡ some i
    → strncmp_eq iface_namelen i.name name ≡ true
unfolding get_interface
get_interface-found [] name i h = cc
get_interface-found (j ∷ is) name i h = ground (arith, get_interface-found is name i)

-- An interface that is found by a name is found by its own name too.
pub get_interface-name :
    (is : List Iface) (name : Bytes) (i : Iface)
    → get_interface is name ≡ some i
    → get_interface is i.name ≡ some i
get_interface-name is name i h =
    get_interface-strncmp_eq is i.name name (get_interface-found is name i h) ∙ h
