-- ===== src/Registry/Count.antt =====
-- server/subscriptionregistry.h: how many topics a client holds.
use wisp.Prelude.{
  ◌≡◌, refl, inl, inr, Option-cases, Option, none, some, [], ◌∷◌, ◌==◌, Bytes, bytes_eq,
  bytes_beq_iff, if◌then◌else◌, arith, ℕ, suc, ◌+◌, ◌≤◌, length,
}
use wisp.Prelude.Map.{Map, lookup, insert, insert_ordered, erase, lookup-insert}
use wisp.Keys.{Origin}
use wisp.Registry.{Registry, subscribe, unsubscribe, topics_at}
use wisp.Registry.Topics.{lookup-store_topics}
use wisp.Registry.Consistent.{held}

-- An entry that is not there adds one.
unfoldable pub added : Option Origin → ℕ
added none = 1
added (some s) = 0

length-insert :
    (k : Bytes) (v : Origin) (m : Map Origin)
    → length (insert k v m) ≡ length m + added (lookup k m)
unfolding insert lookup added
length-insert k v [] = refl
length-insert k v ((j, u) ∷ m) = ground (arith, length-insert k v m)

length-insert_ordered :
    (k : Bytes) (v : Origin) (m : Map Origin) → length (insert_ordered k v m) ≤ suc (length m)
unfolding insert_ordered
length-insert_ordered k v [] = ground arith
length-insert_ordered k v ((j, u) ∷ m) = ground (arith, length-insert_ordered k v m)

module _ (r : Registry) (client topic : Bytes) (scope : Origin) (c : Bytes) where
  -- A subscription to a topic that the client holds adds no topic, another adds at most one, and
  -- other clients' topics are as they were.
  pub length-subscribe :
      length (topics_at (subscribe r client topic scope).0 c)
      ≤ length (topics_at r c) + (if client == c then added (held r client topic) else 0)
  unfolding subscribe added
  length-subscribe = elim (Option-cases (held r client topic)) [
    | inl e ↦
        rw (e, subscribe)
          (ground (
            arith,
            lookup-insert client c (insert_ordered topic scope (topics_at r client))
                r.client_topics,
            length-insert_ordered topic scope (topics_at r client),
            bytes_beq_iff client c,
          ))
    | inr (s, e) ↦
        rw (e, subscribe)
          (ground (
            arith,
            lookup-insert client c (insert topic scope (topics_at r client)) r.client_topics,
            length-insert topic scope (topics_at r client),
            e,
            bytes_beq_iff client c,
          ))
  ]

length-erase : (k : Bytes) (m : Map Origin) → length (erase k m) ≤ length m
unfolding erase
length-erase k [] = ground arith
length-erase k ((j, u) ∷ m) = ground (arith, length-erase k m)

-- An unsubscription adds no topic to any client.
pub length-unsubscribe :
    (r : Registry) (client topic c : Bytes)
    → length (topics_at (unsubscribe r client topic).0 c) ≤ length (topics_at r c)
unfolding unsubscribe
length-unsubscribe r client topic c = elim (Option-cases (held r client topic)) [
  | inl e ↦ rw (e, unsubscribe) (ground arith)
  | inr (s, e) ↦
      rw (e, unsubscribe)
        (ground (
          arith,
          lookup-store_topics client c (erase topic (topics_at r client)) r.client_topics,
          length-erase topic (topics_at r client),
          bytes_beq_iff client c,
        ))
]
