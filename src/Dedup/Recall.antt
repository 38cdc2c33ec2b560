-- ===== src/Dedup/Recall.antt =====
-- server/broker.cpp: `isDuplicate` over sequences of messages.
use wisp.Prelude.{
  ℕ, zero, suc, ◌+◌, ◌-◌, ◌≤◌, ◌<◌, ◌≡◌, ◌≢◌, ◌⊎◌, refl, true, false, Option, some, List, [], ◌∷◌,
  arith, length, Bytes,
}
use wisp.Dedup.{
  MessageId, Windows, id_eq, id_beq_iff, is_duplicate, max_history_size, ◌>>=◌, initial,
}
use wisp.Dedup.Set.{member}
use wisp.Dedup.Window.{
  Recent, Tracks, remembers, note, known_as, is_duplicate-Tracks, initial-Tracks,
}

-- The windows after a run of messages.
pub after : Windows → List Bytes → Option Windows
after w [] = some w
after w (uuid ∷ uuids) = do seen ← is_duplicate w uuid; after seen.0 uuids

unfoldable pub noted : Recent → List Bytes → Recent
noted r [] = r
noted r (uuid ∷ uuids) = noted (note r (known_as uuid)) uuids

pub after-Tracks :
    (w : Windows) (r : Recent) (uuids : List Bytes)
    → Tracks w r
    → (w' : Windows) × (after w uuids ≡ some w') × Tracks w' (noted r uuids)
unfolding after noted
after-Tracks w r [] t = (w, refl, t)
after-Tracks w r (uuid ∷ uuids) t =
    let (w₁, e, t₁) = is_duplicate-Tracks w r uuid t in
    let (w₂, e₂, t₂) = after-Tracks w₁ (note r (known_as uuid)) uuids t₁ in (w₂, rw e e₂, t₂)

-- The id outlasts `n` more messages.
Lasts : Recent → MessageId → ℕ → Type 0
Lasts r id n =
    (length r.current < max_history_size)
    × ((member id r.current ≡ true) × (n + length r.current < max_history_size + max_history_size)
        ⊎ (member id r.previous ≡ true) × (n + length r.current < max_history_size))

Lasts-note : (r : Recent) (id x : MessageId) (n : ℕ) → Lasts r id (suc n) → Lasts (note r x) id n
unfolding Lasts note member
Lasts-note r id x n h = ground arith

Lasts-accept :
    (r : Recent) (id : MessageId)
    → length r.current < max_history_size
    → remembers r id ≡ false
    → Lasts (note r id) id (max_history_size - 1)
unfolding Lasts note member
Lasts-accept r id h new = ground (arith, id_beq_iff id id)

Lasts-remembers : (r : Recent) (id : MessageId) (n : ℕ) → Lasts r id n → remembers r id ≡ true
unfolding Lasts remembers
Lasts-remembers r id n h = ground arith

Lasts-noted :
    (r : Recent) (id : MessageId) (uuids : List Bytes) (n : ℕ)
    → Lasts r id n
    → length uuids ≤ n
    → remembers (noted r uuids) id ≡ true
unfolding noted
Lasts-noted r id [] n h le = Lasts-remembers r id n h
Lasts-noted r id (uuid ∷ uuids) zero h le = absurd (omega arith)
Lasts-noted r id (uuid ∷ uuids) (suc n) h le =
    Lasts-noted (note r (known_as uuid)) id uuids n (Lasts-note r id (known_as uuid) n h)
      (omega arith)

-- A message that was accepted is recognised after any run of fewer than MaxHistorySize further
-- messages, however the windows rotate meanwhile.
pub is_duplicate_recall :
    (w w₁ : Windows) (r : Recent) (uuid : Bytes) (uuids : List Bytes)
    → Tracks w r
    → is_duplicate w uuid ≡ some (w₁, false)
    → length uuids < max_history_size
    → (w₂ w₃ : Windows) × (after w₁ uuids ≡ some w₂) × (is_duplicate w₂ uuid ≡ some (w₃, true))
is_duplicate_recall w w₁ r uuid uuids t fresh short =
    let (w', e, t') = is_duplicate-Tracks w r uuid t in
    let id = known_as uuid in
    let same : w' ≡ w₁ = ground (arith, e, fresh) in
    let new : remembers r id ≡ false = ground (arith, e, fresh) in
    let (w₂, e₂, t₂) = after-Tracks w' (note r id) uuids t' in
    let (w₃, e₃, t₃) = is_duplicate-Tracks w₂ (noted (note r id) uuids) uuid t₂ in
    let kept =
      Lasts-noted (note r id) id uuids (max_history_size - 1) (Lasts-accept r id t.short new)
        (omega arith) in
    (w₂, w₃, rw (← same) e₂, rw kept at e₃)

-- None of the ids is this one.
abbrev pub Unseen : MessageId → List Bytes → Type 0
Unseen id [] = Unit {0}
Unseen id (uuid ∷ uuids) = (known_as uuid ≢ id) × Unseen id uuids

note-Unseen :
    (r : Recent) (id x : MessageId)
    → x ≢ id
    → remembers r id ≡ false
    → remembers (note r x) id ≡ false
unfolding note remembers member
note-Unseen r id x other h = ground (arith, id_beq_iff id x)

noted-Unseen :
    (r : Recent) (id : MessageId) (uuids : List Bytes)
    → Unseen id uuids
    → remembers r id ≡ false
    → remembers (noted r uuids) id ≡ false
unfolding noted
noted-Unseen r id [] u h = h
noted-Unseen r id (uuid ∷ uuids) u h =
    noted-Unseen (note r (known_as uuid)) id uuids u.1 (note-Unseen r id (known_as uuid) u.0 h)

-- From the start of the broker, a message whose 128-bit id no earlier message had is not taken
-- for a duplicate, however many messages came before.
pub is_duplicate_fresh :
    (uuid : Bytes) (uuids : List Bytes)
    → Unseen (known_as uuid) uuids
    → (w w' : Windows) × (after initial uuids ≡ some w) × (is_duplicate w uuid ≡ some (w', false))
unfolding remembers member
is_duplicate_fresh uuid uuids u =
    let start : Recent = record { current = []; previous = [] } in
    let (w, e, t) = after-Tracks initial start uuids initial-Tracks in
    let (w', e', t') = is_duplicate-Tracks w (noted start uuids) uuid t in
    let new : remembers (noted start uuids) (known_as uuid) ≡ false =
      noted-Unseen start (known_as uuid) uuids u refl in
    (w, w', e, rw new at e')
