-- ===== src/Dedup/Window.antt =====
-- server/broker.cpp: `isDuplicate` against two windows of recent ids.
use wisp.Prelude.{
  ℕ, ◌+◌, ◌<◌, ◌≡◌, ◌∙◌, inl, inr, Bool-cases, true, false, ◌||◌, Bool, some, List, [], ◌∷◌, leb,
  if◌then◌else◌, arith, length, Bytes, length-replicate,
}
use wisp.Dedup.{
  MessageId, MessageIdSet, Windows, is_empty_slot, no_id, fresh, clear, initial, max_history_size,
  dedup_set_capacity, remap, rotate, note_id, is_duplicate, message_id_from,
}
use wisp.Dedup.Set.{Models, member, insert-Models, replicate-Models}

-- The specification: the ids accepted since the windows last rotated, and those of the window
-- before.
pub record Recent : Type 0 where
  pub current : List MessageId
  pub previous : List MessageId

unfoldable pub remembers : Recent → MessageId → Bool
remembers r id = member id r.current || member id r.previous

unfoldable pub accept : Recent → MessageId → Recent
accept r id =
    if leb max_history_size (length r.current + 1)
    then record { current = []; previous = id ∷ r.current }
    else record r { current = id ∷ r.current }

unfoldable pub note : Recent → MessageId → Recent
unfolding remembers accept
note r id = if remembers r id then r else accept r id

pub record Tracks (w : Windows) (r : Recent) : Type 0 where
  pub current : Models w.current r.current
  pub previous : Models w.previous r.previous
  pub short : length r.current < max_history_size
  pub current_capacity : length w.current.slots ≡ dedup_set_capacity
  pub previous_capacity : length w.previous.slots ≡ dedup_set_capacity

fresh-Models : (n : ℕ) → 0 < n → Models (fresh n) []
unfolding fresh
fresh-Models n h = replicate-Models n h

length-fresh : (n : ℕ) → length (fresh n).slots ≡ n
unfolding fresh
length-fresh n = length-replicate n no_id

pub initial-Tracks : Tracks initial (record { current = []; previous = [] })
unfolding initial
initial-Tracks = record {
  current = fresh-Models dedup_set_capacity (omega arith);
  previous = fresh-Models dedup_set_capacity (omega arith);
  short = omega arith;
  current_capacity = length-fresh dedup_set_capacity;
  previous_capacity = length-fresh dedup_set_capacity;
}

clear-Models : (s : MessageIdSet) → 0 < length s.slots → Models (clear s) []
unfolding clear
clear-Models s h = replicate-Models (length s.slots) h

length-clear : (s : MessageIdSet) → length (clear s).slots ≡ length s.slots
unfolding clear
length-clear s = length-replicate (length s.slots) no_id

module _ (w : Windows) (r : Recent) (t : Tracks w r) (id : MessageId) where
  module _ (s : MessageIdSet) where
    abbrev pushed : Windows
    pushed = record w { current = s }

    rotate-Tracks :
        Models s (id ∷ r.current)
        → length s.slots ≡ dedup_set_capacity
        → Tracks (rotate pushed) (accept r id)
    unfolding rotate accept
    rotate-Tracks m cap = elim (Bool-cases (leb max_history_size (length r.current + 1))) [
      | inl full ↦
          let test : leb max_history_size s.count ≡ true = ground (arith, m.size) in
          rw (full, test)
            (record {
              current = clear-Models w.previous (omega (arith, t.previous_capacity));
              previous = m;
              short = omega arith;
              current_capacity = length-clear w.previous ∙ t.previous_capacity;
              previous_capacity = cap;
            })
      | inr room ↦
          let test : leb max_history_size s.count ≡ false = ground (arith, m.size) in
          rw (room, test)
            (record {
              current = m;
              previous = t.previous;
              short = ground (arith, t.short);
              current_capacity = cap;
              previous_capacity = t.previous_capacity;
            })
    ]

  -- The test ends, its answer is whether one of the windows holds the id, and a new id is
  -- entered.
  pub note_id-Tracks :
      is_empty_slot id ≡ false
      → (w' : Windows) × (note_id w id ≡ some (w', remembers r id)) × Tracks w' (note r id)
  unfolding note_id
  note_id-Tracks solid = elim (Bool-cases (remembers r id)) [
    | inl old ↦ (
      w,
      rw (t.current.answers id solid, t.previous.answers id solid) (unfold remembers in rw old),
      (unfold note in rw old t),
    )
    | inr new ↦
        let absent : member id r.current ≡ false = unfold remembers in ground arith in
        let (s, e, m, cap) =
          insert-Models w.current id r.current t.current solid absent
            (omega (arith, t.current.size, t.short, t.current_capacity)) in
        (
          rotate (pushed s),
          rw (t.current.answers id solid, t.previous.answers id solid)
              (unfold remembers in rw (new, e)),
          (unfold note in rw new (rotate-Tracks s m (cap ∙ t.current_capacity))),
        )
  ]

remap-solid : (id : MessageId) → is_empty_slot (remap id) ≡ false
unfolding remap is_empty_slot
remap-solid id = ground arith

-- The id by which a message is known.
unfoldable pub known_as : Bytes → MessageId
known_as uuid = remap (message_id_from uuid)

-- From tracked windows `isDuplicate` always returns: its answer is whether the id is among those
-- the windows remember, and the windows afterwards are tracked again.
pub is_duplicate-Tracks :
    (w : Windows) (r : Recent) (uuid : Bytes)
    → Tracks w r
    → (w' : Windows) × (is_duplicate w uuid ≡ some (w', remembers r (known_as uuid)))
      × Tracks w' (note r (known_as uuid))
unfolding is_duplicate known_as
is_duplicate-Tracks w r uuid t =
    note_id-Tracks w r t (remap (message_id_from uuid)) (remap-solid (message_id_from uuid))
