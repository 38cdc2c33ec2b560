-- ===== src/Registry/Topics.antt =====
-- server/subscriptionregistry.h: what each write to one of the two maps does to what is read.
use wisp.Prelude.{
  ◌≡◌, ◌≢◌, refl, inl, inr, Option-cases, Bool-cases, ◌&&◌, none, some, List, [], ◌∷◌, ◌==◌, Bytes,
  bytes_eq, bytes_beq_iff, if◌then◌else◌, arith, is_some,
}
use wisp.Prelude.Map.{Map, lookup, lookup-insert, lookup-erase}
use wisp.Keys.{Origin}
use wisp.Registry.{
  Subscriber, store_topics, store_subscribers, drop_subscriber, change_scope, drop_all, set_scope,
  take_out, or_empty, subscribers_at,
}
use wisp.Registry.Subscribers.{scope_in, IsUnique, scope_in-take_out, take_out-IsUnique}

pub lookup-store_topics :
    (client c : Bytes) (topics : Map Origin) (m : Map (Map Origin))
    → or_empty (lookup c (store_topics client topics m))
      ≡ (if client == c then topics else or_empty (lookup c m))
unfolding store_topics
lookup-store_topics client c [] m = ground (arith, lookup-erase client c m)
lookup-store_topics client c (t ∷ topics) m = ground (arith, lookup-insert client c (t ∷ topics) m)

pub store_topics-ne :
    (client c : Bytes) (topics : Map Origin) (m : Map (Map Origin))
    → lookup c m ≢ some []
    → lookup c (store_topics client topics m) ≢ some []
unfolding store_topics
store_topics-ne client c [] m h e = ground (arith, lookup-erase client c m)
store_topics-ne client c (t ∷ topics) m h e = ground (arith, lookup-insert client c (t ∷ topics) m)

pub subscribers_at-store :
    (topic t : Bytes) (subs : List Subscriber) (m : Map (List Subscriber))
    → subscribers_at (store_subscribers topic subs m) t
      ≡ (if topic == t then subs else subscribers_at m t)
unfolding store_subscribers
subscribers_at-store topic t [] m = ground (arith, lookup-erase topic t m)
subscribers_at-store topic t (s ∷ subs) m = ground (arith, lookup-insert topic t (s ∷ subs) m)

store_subscribers-ne :
    (topic t : Bytes) (subs : List Subscriber) (m : Map (List Subscriber))
    → lookup t m ≢ some []
    → lookup t (store_subscribers topic subs m) ≢ some []
unfolding store_subscribers
store_subscribers-ne topic t [] m h e = ground (arith, lookup-erase topic t m)
store_subscribers-ne topic t (s ∷ subs) m h e = ground (arith, lookup-insert topic t (s ∷ subs) m)

pub subscribers_at-drop :
    (topic client t : Bytes) (m : Map (List Subscriber))
    → subscribers_at (drop_subscriber topic client m) t
      ≡ (if topic == t then take_out client (subscribers_at m t) else subscribers_at m t)
unfolding drop_subscriber take_out
subscribers_at-drop topic client t m = elim (Option-cases (lookup topic m)) [
  | inl e ↦ rw (e, drop_subscriber) (ground (arith, bytes_beq_iff topic t))
  | inr (subs, e) ↦
      rw (e, drop_subscriber)
        (ground
          (arith, subscribers_at-store topic t (take_out client subs) m, bytes_beq_iff topic t))
]

pub drop_subscriber-ne :
    (topic client t : Bytes) (m : Map (List Subscriber))
    → lookup t m ≢ some []
    → lookup t (drop_subscriber topic client m) ≢ some []
unfolding drop_subscriber
drop_subscriber-ne topic client t m h = elim (Option-cases (lookup topic m)) [
  | inl e ↦ rw (e, drop_subscriber) h
  | inr (subs, e) ↦
      rw (e, drop_subscriber) (store_subscribers-ne topic t (take_out client subs) m h)
]

pub subscribers_at-change :
    (topic client t : Bytes) (scope : Origin) (m : Map (List Subscriber))
    → subscribers_at (change_scope topic client scope m) t
      ≡ (if topic == t then set_scope client scope (subscribers_at m t) else subscribers_at m t)
unfolding change_scope set_scope
subscribers_at-change topic client t scope m = elim (Option-cases (lookup topic m)) [
  | inl e ↦ rw (e, change_scope) (ground (arith, bytes_beq_iff topic t))
  | inr (subs, e) ↦
      rw (e, change_scope)
        (ground
          (arith, lookup-insert topic t (set_scope client scope subs) m, bytes_beq_iff topic t))
]

set_scope-ne :
    (client : Bytes) (scope : Origin) (subs : List Subscriber)
    → subs ≢ []
    → set_scope client scope subs ≢ []
unfolding set_scope
set_scope-ne client scope [] h e = h refl
set_scope-ne client scope (s ∷ subs) h e = ground arith

pub change_scope-ne :
    (topic client t : Bytes) (scope : Origin) (m : Map (List Subscriber))
    → ((u : Bytes) → lookup u m ≢ some [])
    → lookup t (change_scope topic client scope m) ≢ some []
unfolding change_scope
change_scope-ne topic client t scope m h = elim (Option-cases (lookup topic m)) [
  | inl e ↦ rw (e, change_scope) (h t)
  | inr (subs, e) ↦
      rw (e, change_scope)
        λ bad. ground (
          arith,
          lookup-insert topic t (set_scope client scope subs) m,
          set_scope-ne client scope subs,
          h t,
          h topic,
        )
]

-- No topic lists a client twice.
abbrev pub AllUnique : Map (List Subscriber) → Type 0
AllUnique m = (t : Bytes) → IsUnique (subscribers_at m t)

pub drop_subscriber-AllUnique :
    (topic client : Bytes) (m : Map (List Subscriber))
    → AllUnique m
    → AllUnique (drop_subscriber topic client m)
drop_subscriber-AllUnique topic client m u t =
    rw (subscribers_at-drop topic client t m) (elim (Bool-cases (topic == t)) [
      | inl e ↦ rw e (take_out-IsUnique client (subscribers_at m t) (u t))
      | inr e ↦ rw e (u t)
    ])

pub drop_all-AllUnique :
    (client : Bytes) (topics : Map Origin) (m : Map (List Subscriber))
    → AllUnique m
    → AllUnique (drop_all client topics m)
unfolding drop_all
drop_all-AllUnique client [] m u = u
drop_all-AllUnique client ((topic, scope) ∷ topics) m u =
    drop_all-AllUnique client topics (drop_subscriber topic client m)
      (drop_subscriber-AllUnique topic client m u)

pub drop_all-ne :
    (client : Bytes) (topics : Map Origin) (m : Map (List Subscriber)) (t : Bytes)
    → lookup t m ≢ some []
    → lookup t (drop_all client topics m) ≢ some []
unfolding drop_all
drop_all-ne client [] m t h = h
drop_all-ne client ((topic, scope) ∷ topics) m t h =
    drop_all-ne client topics (drop_subscriber topic client m) t
      (drop_subscriber-ne topic client t m h)

-- The client is listed no more under any topic that it held, and all else is as it was.
pub scope_in-drop_all :
    (client : Bytes) (topics : Map Origin) (m : Map (List Subscriber)) (c t : Bytes)
    → AllUnique m
    → scope_in c (subscribers_at (drop_all client topics m) t)
      ≡ (if client == c && is_some (lookup t topics) then none else scope_in c (subscribers_at m t))
unfolding drop_all lookup
scope_in-drop_all client [] m c t u = ground arith
scope_in-drop_all client ((topic, scope) ∷ topics) m c t u = ground (
  arith,
  scope_in-drop_all client topics (drop_subscriber topic client m) c t
      (drop_subscriber-AllUnique topic client m u),
  subscribers_at-drop topic client t m,
  scope_in-take_out c client (subscribers_at m t) (u t),
)
