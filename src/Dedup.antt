-- ===== src/Dedup.antt =====
-- server/broker.h and server/broker.cpp: message ids, the open-addressed set of them, and the two
-- rotating windows of `isDuplicate`.
pub mod Probe
pub mod Write
pub mod Set
pub mod Window
pub mod Recall
use Prim.Native.Nat.{bit_xor}
use wisp.Prelude.{
  ℕ, zero, suc, ◌+◌, ◌*◌, ◌%◌, ◌^◌, ◌≡◌, ◌↔◌, Bool, true, false, ◌&&◌, ◌||◌, Option, none, some,
  List, [], ◌∷◌, Eq, ◌==◌, nat_eq, leb, if◌then◌else◌, arith, Bytes, length, get_or, set, take,
  drop, replicate,
}

pub record MessageId : Type 0 where
  pub hi : ℕ
  pub lo : ℕ

unfoldable pub id_beq : MessageId → MessageId → Bool
id_beq a b = a.hi == b.hi && a.lo == b.lo

pub id_beq_iff : (a b : MessageId) → (id_beq a b ≡ true) ↔ (a ≡ b)
unfolding id_beq
id_beq_iff a b = (λ h. ground arith, λ h. ground arith)

instance abbrev pub id_eq : Eq MessageId
id_eq = record { same = id_beq; same_iff = id_beq_iff }

abbrev pub u64 : ℕ
u64 = 2 ^ 64

-- `memcpy` of eight bytes into a word, on a little-endian host.
unfoldable pub word_of : Bytes → ℕ
word_of [] = 0
word_of (c ∷ s) = c + 256 * word_of s

-- `h = (h ^ c) * prime` for each byte.
unfoldable pub fnv : ℕ → ℕ → Bytes → ℕ
fnv prime h [] = h
fnv prime h (c ∷ s) = fnv prime (bit_xor h c * prime % u64) s

unfoldable pub message_id_from : Bytes → MessageId
unfolding word_of fnv
message_id_from uuid =
    if length uuid == 16
    then record { hi = word_of (take 8 uuid); lo = word_of (drop 8 uuid) }
    else record {
      hi = fnv 1099511628211 14695981039346656037 uuid;
      lo = fnv 0x9e3779b97f4a7c15 0x2545f4914f6cdd1d uuid;
    }

unfoldable pub hash : MessageId → ℕ
hash id = bit_xor id.hi (id.lo * 0x9e3779b97f4a7c15 % u64)

unfoldable pub is_empty_slot : MessageId → Bool
is_empty_slot id = id.hi == 0 && id.lo == 0

abbrev pub no_id : MessageId
no_id = record { hi = 0; lo = 0 }

pub record MessageIdSet : Type 0 where
  pub slots : List MessageId
  pub count : ℕ

-- `m_slots(capacity), m_count(0)`
pub fresh : ℕ → MessageIdSet
fresh capacity = record { slots = replicate capacity no_id; count = 0 }

-- Where the loop that `contains` and `insert` share comes to rest.
pub data Rest : Type 0 where
  found vacant : ℕ → Rest
  spinning : Rest

-- `idx & (size - 1)` is `idx % size`, the size being a power of two. A pass over every slot is
-- fuel enough: the loop that goes round twice goes round for ever.
unfoldable pub probe : ℕ → List MessageId → MessageId → ℕ → Rest
probe zero slots id i = spinning
probe (suc fuel) slots id i =
    let slot = get_or slots i no_id in
    let rest = probe fuel slots id ((i + 1) % length slots) in
    if is_empty_slot slot then vacant i else if slot == id then found i else rest

unfoldable pub seek : List MessageId → MessageId → Rest
unfolding hash
seek slots id = probe (length slots) slots id (hash id % length slots)

-- `none`: the loop does not end.
pub contains : MessageIdSet → MessageId → Option Bool
contains s id = elim (seek s.slots id) [
  | found i ↦ some true
  | vacant i ↦ some false
  | spinning ↦ none
]

pub insert : MessageIdSet → MessageId → Option MessageIdSet
insert s id = elim (seek s.slots id) [
  | found i ↦ some s
  | vacant i ↦ some (record { slots = set s.slots i id; count = s.count + 1 })
  | spinning ↦ none
]

-- `std::fill` with the empty id.
pub clear : MessageIdSet → MessageIdSet
clear s = record { slots = replicate (length s.slots) no_id; count = 0 }

abbrev pub max_history_size : ℕ
max_history_size = 10000

abbrev pub dedup_set_capacity : ℕ
dedup_set_capacity = 32768

-- `m_seenCurrent` and `m_seenPrevious`.
pub record Windows : Type 0 where
  pub current : MessageIdSet
  pub previous : MessageIdSet

-- The id {0,0} marks an empty slot, so it is moved to {0,1}.
unfoldable pub remap : MessageId → MessageId
unfolding is_empty_slot
remap id = if is_empty_slot id then record id { lo = 1 } else id

-- `std::swap` and `clear` once the current window is full.
unfoldable pub rotate : Windows → Windows
rotate w =
    if leb max_history_size w.current.count
    then record { current = clear w.previous; previous = w.current }
    else w

infixl 5 ◌>>=◌
abbrev pub ◌>>=◌ {ℓ κ} : {A : Type ℓ} {B : Type κ} → Option A → (A → Option B) → Option B
none >>= f = none
some a >>= f = f a

pub note_id : Windows → MessageId → Option (Windows × Bool)
unfolding rotate
note_id w id = do
  in_current ← contains w.current id
  in_previous ← contains w.previous id
  if in_current || in_previous
      then some (w, true)
      else do current ← insert w.current id; some (rotate (record w { current = current }), false)

pub is_duplicate : Windows → Bytes → Option (Windows × Bool)
unfolding note_id remap message_id_from
is_duplicate w uuid = note_id w (remap (message_id_from uuid))

pub initial : Windows
initial = record { current = fresh dedup_set_capacity; previous = fresh dedup_set_capacity }
