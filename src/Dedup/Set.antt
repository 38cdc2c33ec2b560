-- ===== src/Dedup/Set.antt =====
-- server/broker.h: MessageIdSet against the list of the ids that were inserted.
use wisp.Prelude.{
  ℕ, zero, suc, ◌+◌, ◌%◌, ◌<◌, ◌≡◌, ◌≢◌, refl, sym, ◌∙◌, ◌⊎◌, inl, inr, Bool-cases, true, false,
  Bool, some, List, [], ◌∷◌, ◌==◌, nat_eq, if◌then◌else◌, arith, length, get_or, set, length-set,
  replicate, length-replicate,
}
use wisp.Dedup.{
  MessageId, MessageIdSet, is_empty_slot, no_id, id_eq, id_beq_iff, probe, seek, hash, Rest, found,
  vacant, spinning, contains, insert,
}
use wisp.Dedup.Write.{home_lt, probe-found, probe-vacant, probe-set_found, probe-set_vacant}
use wisp.Dedup.Probe.{filled, empty_slot_of, filled-set, get_or-set, probe-halts}

-- Every id in a slot is found from its home slot, and there is an empty slot left.
pub record IsProbing (s : MessageIdSet) : Type 0 where
  pub counted : s.count ≡ filled s.slots
  pub room : s.count < length s.slots
  pub reached :
      (i : ℕ)
      → i < length s.slots
      → is_empty_slot (get_or s.slots i no_id) ≡ false
      → seek s.slots (get_or s.slots i no_id) ≡ found i

seek-halts : (s : MessageIdSet) (id : MessageId) → IsProbing s → seek s.slots id ≢ spinning
unfolding seek
seek-halts s id v =
    let (k, lt, e) = empty_slot_of s.slots (omega (arith, v.counted, v.room)) in
    let home = home_lt s.slots (hash id) (omega (arith, lt)) in
    probe-halts (length s.slots) s.slots id (hash id % length s.slots) k home lt e (ground arith)

Rest-cases : (r : Rest) → ((i : ℕ) × (r ≡ found i)) ⊎ ((i : ℕ) × (r ≡ vacant i)) ⊎ (r ≡ spinning)
Rest-cases (found i) = inl (i, refl)
Rest-cases (vacant i) = inr (inl (i, refl))
Rest-cases spinning = inr (inr refl)

unfoldable pub member : MessageId → List MessageId → Bool
member x [] = false
member x (id ∷ ids) = if x == id then true else member x ids

-- The set answers for the ids of a list, which holds each once.
pub record Models (s : MessageIdSet) (ids : List MessageId) : Type 0 where
  pub probing : IsProbing s
  pub size : s.count ≡ length ids
  pub answers : (x : MessageId) → is_empty_slot x ≡ false → contains s x ≡ some (member x ids)

contains_found :
    (s : MessageIdSet) (x : MessageId) (k : ℕ) → seek s.slots x ≡ found k → contains s x ≡ some true
unfolding contains
contains_found s x k h = rw (h, contains)

contains_vacant :
    (s : MessageIdSet) (x : MessageId) (k : ℕ)
    → seek s.slots x ≡ vacant k
    → contains s x ≡ some false
unfolding contains
contains_vacant s x k h = rw (h, contains)

module _ (s : MessageIdSet) (id : MessageId) (j : ℕ) where
  written : MessageIdSet
  written = record { slots = set s.slots j id; count = s.count + 1 }

  module _ (v : IsProbing s) (room : s.count + 1 < length s.slots)
      (solid : is_empty_slot id ≡ false) (rests : seek s.slots id ≡ vacant j) where
    open_slot : (j < length s.slots) × (is_empty_slot (get_or s.slots j no_id) ≡ true)
    unfolding seek
    open_slot =
        probe-vacant (length s.slots) s.slots id (hash id % length s.slots) j
          (home_lt s.slots (hash id) (omega (arith, room))) rests

    finds_new : seek written.slots id ≡ found j
    unfolding seek written
    finds_new = rw (length-set s.slots j id) (
        probe-set_vacant (length s.slots) s.slots id (hash id % length s.slots) j open_slot.0 solid
          open_slot.1 rests)

    finds_old : (x : MessageId) (k : ℕ) → seek s.slots x ≡ found k → seek written.slots x ≡ found k
    unfolding seek written
    finds_old x k h = rw (length-set s.slots j id) (
        probe-set_found (length s.slots) s.slots x id (hash x % length s.slots) j k open_slot.0
          open_slot.1 h)

    slot_of :
        (i : ℕ) → get_or written.slots i no_id ≡ (if i == j then id else get_or s.slots i no_id)
    unfolding written
    slot_of i = get_or-set s.slots i j id open_slot.0

    reached_after :
        (i : ℕ)
        → i < length written.slots
        → is_empty_slot (get_or written.slots i no_id) ≡ false
        → seek written.slots (get_or written.slots i no_id) ≡ found i
    reached_after i lt n = elim (Bool-cases (i == j)) [
      | inl e ↦ let same : i ≡ j = ground arith in rw (slot_of i) (rw (e, same) finds_new)
      | inr e ↦
          let same : get_or written.slots i no_id ≡ get_or s.slots i no_id = slot_of i ∙ (rw e) in
          rw same (
            finds_old (get_or s.slots i no_id) i (
              v.reached i (unfold written in omega (arith, lt, length-set s.slots j id))
                (ground (arith, same, n))))
    ]

    written-IsProbing : IsProbing written
    unfolding written
    written-IsProbing = record {
      counted = omega (arith, filled-set s.slots j id open_slot.0 open_slot.1 solid, v.counted);
      room = omega (arith, length-set s.slots j id, room);
      reached = reached_after;
    }

    not_found :
        (x : MessageId) (k : ℕ) → x ≢ id → seek written.slots x ≡ found k → seek s.slots x ≡ found k
    not_found x k other h =
        let home =
          home_lt written.slots (hash x)
            (unfold written in omega (arith, room, length-set s.slots j id)) in
        let (lt, at, n) =
          probe-found (length written.slots) written.slots x (hash x % length written.slots) k home
            (unfold seek in h) in
        elim (Bool-cases (k == j)) [
          | inl e ↦ absurd (other (sym at ∙ slot_of k ∙ (rw e)))
          | inr e ↦
              let same : get_or s.slots k no_id ≡ x = sym (slot_of k ∙ (rw e)) ∙ at in
              rw same at (
                v.reached k (unfold written in omega (arith, lt, length-set s.slots j id))
                  (rw same n))
        ]

    written-answers :
        (x : MessageId) (b : Bool)
        → contains s x ≡ some b
        → contains written x ≡ some (if x == id then true else b)
    written-answers x b h = elim (Bool-cases (x == id)) [
      | inl e ↦
          let same : x ≡ id = ground (arith, id_beq_iff x id) in
          rw e (rw same (contains_found written id j finds_new))
      | inr e ↦
          let other : x ≢ id = λ q. ground (arith, id_beq_iff x id) in
          rw e (elim (Rest-cases (seek s.slots x)) [
            | inl (k, q) ↦
                contains_found written x k (finds_old x k q) ∙ sym (contains_found s x k q) ∙ h
            | inr (inl (k, q)) ↦ elim (Rest-cases (seek written.slots x)) [
              | inl (m, r) ↦ absurd (ground (arith, not_found x m other r, q))
              | inr (inl (m, r)) ↦ contains_vacant written x m r ∙ sym (contains_vacant s x k q) ∙ h
              | inr (inr r) ↦ absurd (seek-halts written x written-IsProbing r)
            ]
            | inr (inr q) ↦ absurd (seek-halts s x v q)
          ])
    ]

-- An insertion of an id that is not there ends, and adds that id and no other.
pub insert-Models :
    (s : MessageIdSet) (id : MessageId) (ids : List MessageId)
    → Models s ids
    → is_empty_slot id ≡ false
    → member id ids ≡ false
    → s.count + 1 < length s.slots
    → (t : MessageIdSet) × (insert s id ≡ some t)
      × Models t (id ∷ ids)
      × (length t.slots ≡ length s.slots)
unfolding insert member
insert-Models s id ids m solid absent room = elim (Rest-cases (seek s.slots id)) [
  | inl (k, q) ↦ absurd (ground (arith, m.answers id solid, contains_found s id k q))
  | inr (inl (j, q)) ↦ (
    written s id j,
    rw (q, insert) (unfold written in refl),
    record {
      probing = written-IsProbing s id j m.probing room solid q;
      size = unfold written in omega (arith, m.size);
      answers = λ x n. written-answers s id j m.probing room solid q x _ (m.answers x n);
    },
    (unfold written in length-set s.slots j id),
  )
  | inr (inr q) ↦ absurd (seek-halts s id m.probing q)
]

empty_filled : (n : ℕ) → filled (replicate n no_id) ≡ 0
unfolding filled is_empty_slot
empty_filled zero = refl
empty_filled (suc n) = empty_filled n

empty_slots : (n i : ℕ) → is_empty_slot (get_or (replicate n no_id) i no_id) ≡ true
unfolding is_empty_slot
empty_slots zero i = refl
empty_slots (suc n) zero = refl
empty_slots (suc n) (suc i) = empty_slots n i

probe_empty :
    (fuel n i : ℕ) (x : MessageId) → 0 < fuel → probe fuel (replicate n no_id) x i ≡ vacant i
unfolding probe
probe_empty zero n i x h = absurd (omega arith)
probe_empty (suc fuel) n i x h = rw (empty_slots n i)

pub replicate-Models : (n : ℕ) → 0 < n → Models (record { slots = replicate n no_id; count = 0 }) []
unfolding member seek
replicate-Models n h = record {
  probing = record {
    counted = omega (arith, empty_filled n);
    room = omega (arith, length-replicate n no_id);
    reached = λ i lt solid. absurd (ground (arith, empty_slots n i));
  };
  size = refl;
  answers = λ x solid.
      contains_vacant (record { slots = replicate n no_id; count = 0 }) x _
        (probe_empty (length (replicate n no_id)) n (hash x % length (replicate n no_id)) x
          (omega (arith, length-replicate n no_id)));
}
