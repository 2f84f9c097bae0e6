-- ===== src/Router.antt =====
-- The state of one virtual router (assignment-3/router/sr_router.h) and the monad in which its
-- handlers run.
pub mod Send
pub mod Frames
pub mod Icmp
pub mod Handle
pub mod Program
pub mod Keeps
pub mod Messages
pub mod Invariant
pub mod Ask
pub mod Resolve
pub mod Address
pub mod NextHop
pub mod Forward
pub mod Reach
pub mod Echo
pub mod Arrival
pub mod Ping
pub mod ErrorFrame
pub mod Errors
pub mod Miss
pub mod Wire
pub mod Transit
pub mod Flush
pub mod Fuel
pub mod Timer
pub mod Sweep
use cmput.Base.{
  ℕ, zero, suc, ◌≤◌, Bool, true, false, not, List, [], ◌∷◌, Option, none, some, Bytes, length, leb,
}
use cmput.Iface.{Iface}
use cmput.Route.{RtEntry}
use cmput.ArpCache.{ArpCache}

-- The part of struct sr_instance that the handlers use. `wire` holds the buffers that were passed
-- to `write(sockfd, ...)`, oldest first; `written n` is what such a call returns for n bytes;
-- `junk` is what freshly allocated memory holds.
pub record Router : Type 0 where
  pub if_list : List Iface
  pub routing_table : List RtEntry
  pub cache : ArpCache
  pub wire : List Bytes
  pub written : ℕ → ℕ
  pub junk : ℕ → ℕ

-- How a run can break off: a read or write outside an object, a null pointer used, freed memory
-- used, a failed `assert`, and a recursion deeper than the fuel.
pub data Fault : Type 0 where
  out_of_bounds null_deref use_after_free assert_failed out_of_fuel : Fault

-- A run keeps the state that it had reached when it broke off.
pub data Outcome {ℓ} (A : Type ℓ) : Type ℓ where
  done : A → Router → Outcome A
  fault : Fault → Router → Outcome A

abbrev pub M : Type 0 → Type 0
M A = Router → Outcome A

infixl 5 ◌>>=◌ ◌>>◌
unfoldable pub ◌>>=◌ : {A B : Type 0} → M A → (A → M B) → M B
◌>>=◌ m f r = elim (m r) [ done a s ↦ f a s | fault e s ↦ fault e s ]

abbrev pub ◌>>◌ : {B : Type 0} → M (Unit {0}) → M B → M B
m >> k = m >>= λ _. k

unfoldable pub return : {A : Type 0} → A → M A
return a r = done a r

unfoldable pub abort : {A : Type 0} → Fault → M A
abort e r = fault e r

-- A read of the state.
unfoldable pub reads : {A : Type 0} → (Router → A) → M A
reads f r = done (f r) r

-- A call that works on the ARP cache.
unfoldable pub on_cache : {A : Type 0} → (ArpCache → ArpCache × A) → M A
on_cache f r = done (f r.cache).1 (record r { cache = (f r.cache).0 })

unfoldable pub change_cache : (ArpCache → ArpCache) → M (Unit {0})
change_cache f r = done tt (record r { cache = f r.cache })

-- A test of a pointer against null.
unfoldable pub if_null : {A B : Type 0} → Option A → M B → (A → M B) → M B
if_null none m f = m
if_null (some a) m f = f a

-- The object has at least `n` bytes.
unfoldable pub need : ℕ → Bytes → M (Unit {0})
need n b r = elim (leb n (length b)) [ true ↦ done tt r | false ↦ fault out_of_bounds r ]

-- A pointer that the code follows without a test.
unfoldable pub deref : {A : Type 0} → Fault → Option A → M A
deref e none r = fault e r
deref e (some a) r = done a r

-- The operations of the monad, under one name: `unfolding monad` opens them all.
unfoldable pub monad : Unit {0}
unfolding ◌>>=◌ return abort reads on_cache change_cache need deref if_null
monad = tt

-- `malloc(n)`, never null.
unfoldable pub alloc_from : (ℕ → ℕ) → ℕ → ℕ → Bytes
alloc_from junk i zero = []
alloc_from junk i (suc n) = junk i ∷ alloc_from junk (suc i) n

unfoldable pub malloc : Router → ℕ → Bytes
unfolding alloc_from
malloc r n = alloc_from r.junk 0 n
