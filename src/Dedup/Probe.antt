-- ===== src/Dedup/Probe.antt =====
-- server/broker.h: the probing loop of MessageIdSet.
use wisp.Prelude.{
  ℕ, zero, suc, ◌+◌, ◌-◌, ◌%◌, ◌≤◌, ◌<◌, ◌≡◌, ◌≢◌, refl, inl, inr, Bool-cases, true, false, List,
  [], ◌∷◌, ◌==◌, nat_eq, leb, if◌then◌else◌, arith, length, get_or, set,
}
use wisp.Dedup.{MessageId, is_empty_slot, no_id, id_eq, probe, spinning}

-- The slots in use.
unfoldable pub filled : List MessageId → ℕ
filled [] = 0
filled (s ∷ slots) = if is_empty_slot s then filled slots else suc (filled slots)

pub filled-le : (slots : List MessageId) → filled slots ≤ length slots
unfolding filled
filled-le [] = omega arith
filled-le (s ∷ slots) = ground (arith, filled-le slots)

pub empty_slot_of :
    (slots : List MessageId)
    → filled slots < length slots
    → (k : ℕ) × (k < length slots) × (is_empty_slot (get_or slots k no_id) ≡ true)
unfolding filled
empty_slot_of [] h = absurd (omega arith)
empty_slot_of (s ∷ slots) h = elim (Bool-cases (is_empty_slot s)) [
  | inl e ↦ (0, omega arith, e)
  | inr e ↦ let (k, lt, p) = empty_slot_of slots (ground arith) in (suc k, omega arith, p)
]

pub filled-set :
    (slots : List MessageId) (j : ℕ) (id : MessageId)
    → j < length slots
    → is_empty_slot (get_or slots j no_id) ≡ true
    → is_empty_slot id ≡ false
    → filled (set slots j id) ≡ suc (filled slots)
unfolding filled
filled-set [] j id lt e n = absurd (omega arith)
filled-set (s ∷ slots) zero id lt e n = ground arith
filled-set (s ∷ slots) (suc j) id lt e n = ground (arith, filled-set slots j id)

pub get_or-set :
    (slots : List MessageId) (i j : ℕ) (id : MessageId)
    → j < length slots
    → get_or (set slots j id) i no_id ≡ (if i == j then id else get_or slots i no_id)
get_or-set [] i j id lt = absurd (omega arith)
get_or-set (s ∷ slots) zero zero id lt = refl
get_or-set (s ∷ slots) (suc i) zero id lt = ground arith
get_or-set (s ∷ slots) zero (suc j) id lt = ground arith
get_or-set (s ∷ slots) (suc i) (suc j) id lt = ground (arith, get_or-set slots i j id)

pub next_slot : (i n : ℕ) → i < n → (i + 1) % n ≡ (if i + 1 == n then 0 else i + 1)
next_slot i n h = grind arith

-- How many steps the loop takes from slot `i` to slot `k`.
abbrev pub steps_to : ℕ → ℕ → ℕ → ℕ
steps_to n i k = if leb i k then k - i else k + n - i

pub probe-halts :
    (fuel : ℕ) (slots : List MessageId) (id : MessageId) (i k : ℕ)
    → i < length slots
    → k < length slots
    → is_empty_slot (get_or slots k no_id) ≡ true
    → steps_to (length slots) i k < fuel
    → probe fuel slots id i ≢ spinning
unfolding probe
probe-halts zero slots id i k hi hk e m = absurd (omega arith)
probe-halts (suc fuel) slots id i k hi hk e m = elim (Bool-cases (i == k)) [
  | inl same ↦ let q : i ≡ k = ground arith in rw q (rw e λ bad. cc)
  | inr other ↦ λ bad.
      ground
        (arith, next_slot i (length slots) hi, probe-halts fuel slots id ((i + 1) % length slots) k)
]
