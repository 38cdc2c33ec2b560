-- ===== src/Dedup/Write.antt =====
-- server/broker.h: what the probing loop of MessageIdSet ends at, before and after a slot is written.
use native.Mathlib.Nat.{mod-lt}
use wisp.Prelude.{
  ℕ, zero, suc, ◌+◌, ◌%◌, ◌<◌, ◌≡◌, true, false, List, nat_eq, arith, length, get_or, set,
  length-set,
}
use wisp.Dedup.{MessageId, is_empty_slot, no_id, id_eq, id_beq_iff, probe, found, vacant}
use wisp.Dedup.Probe.{get_or-set}

pub home_lt : (slots : List MessageId) (x : ℕ) → 0 < length slots → x % length slots < length slots
home_lt slots x h = mod-lt x h

pub probe-found :
    (fuel : ℕ) (slots : List MessageId) (id : MessageId) (i k : ℕ)
    → i < length slots
    → probe fuel slots id i ≡ found k
    → (k < length slots) × (get_or slots k no_id ≡ id) × (is_empty_slot id ≡ false)
unfolding probe
probe-found zero slots id i k hi h = cc
probe-found (suc fuel) slots id i k hi h = ground (
  arith,
  probe-found fuel slots id ((i + 1) % length slots) k,
  id_beq_iff (get_or slots i no_id) id,
  home_lt slots (i + 1),
)

pub probe-vacant :
    (fuel : ℕ) (slots : List MessageId) (id : MessageId) (i k : ℕ)
    → i < length slots
    → probe fuel slots id i ≡ vacant k
    → (k < length slots) × (is_empty_slot (get_or slots k no_id) ≡ true)
unfolding probe
probe-vacant zero slots id i k hi h = cc
probe-vacant (suc fuel) slots id i k hi h =
    ground (arith, probe-vacant fuel slots id ((i + 1) % length slots) k, home_lt slots (i + 1))

-- A write to an empty slot leaves every loop that found its id as it was.
pub probe-set_found :
    (fuel : ℕ) (slots : List MessageId) (x id : MessageId) (i j k : ℕ)
    → j < length slots
    → is_empty_slot (get_or slots j no_id) ≡ true
    → probe fuel slots x i ≡ found k
    → probe fuel (set slots j id) x i ≡ found k
unfolding probe
probe-set_found zero slots x id i j k hj e h = cc
probe-set_found (suc fuel) slots x id i j k hj e h = ground (
  arith,
  get_or-set slots i j id hj,
  length-set slots j id,
  probe-set_found fuel slots x id ((i + 1) % length slots) j k,
)

-- The loop that came to rest at an empty slot finds the id that is written there.
pub probe-set_vacant :
    (fuel : ℕ) (slots : List MessageId) (id : MessageId) (i j : ℕ)
    → j < length slots
    → is_empty_slot id ≡ false
    → is_empty_slot (get_or slots j no_id) ≡ true
    → probe fuel slots id i ≡ vacant j
    → probe fuel (set slots j id) id i ≡ found j
unfolding probe
probe-set_vacant zero slots id i j hj n e h = cc
probe-set_vacant (suc fuel) slots id i j hj n e h = ground (
  arith,
  get_or-set slots i j id hj,
  length-set slots j id,
  id_beq_iff id id,
  probe-set_vacant fuel slots id ((i + 1) % length slots) j,
)
