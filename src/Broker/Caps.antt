-- ===== src/Broker/Caps.antt =====
-- server/broker.cpp, `canSubscribe` and the subscribe case of `handleClientMessage`: the limits on
-- what a client may subscribe to.
use wisp.Prelude.{
  ◌≡◌, refl, ap, ◌∙◌, inl, inr, Option-cases, true, false, not, ◌&&◌, Bool, some, [], ◌==◌, Bytes,
  bytes_eq, bytes_beq_iff, if◌then◌else◌, arith, ◌+◌, ◌≤◌, ◌<◌, suc, ltb, length,
}
use wisp.Prelude.Map.{lookup, contains}
use wisp.Keys.{decode_subscribe_scope}
use wisp.Registry
use wisp.Registry.{Registry, subscriptions_of, topics_at}
use wisp.Registry.Consistent.{held, held-subscribe}
use wisp.Registry.Count.{added, length-subscribe}
use wisp.Broker.State.{Broker}
use wisp.Broker.Session.{
  on_subscribe, on_unsubscribe, can_subscribe, note_rejected_subscription, with_registry,
  max_topic_length_bytes, max_subscriptions_per_client,
}
use wisp.Broker.Invariant.{IsValid}

-- The limits let this subscription through: the topic is named and no longer than 512 bytes, and
-- the client holds it or holds fewer than 10000.
abbrev pub is_allowed : Broker → Bytes → Bytes → Bool
is_allowed b client topic =
    not (topic == [])
    && (not (ltb max_topic_length_bytes (length topic)) && can_subscribe b client topic)

with_registry-subscriptions :
    (b : Broker) (topic : Bytes) (p : Registry × Bool)
    → (with_registry b topic p).subscriptions ≡ p.0
unfolding with_registry
with_registry-subscriptions b topic (r, true) = refl
with_registry-subscriptions b topic (r, false) = refl

on_subscribe-subscriptions :
    (b : Broker) (client topic payload : Bytes)
    → (on_subscribe b client topic payload).subscriptions ≡ (
        if is_allowed b client topic
        then (Registry.subscribe b.subscriptions client topic (decode_subscribe_scope payload)).0
        else b.subscriptions)
unfolding on_subscribe note_rejected_subscription
on_subscribe-subscriptions b client topic payload =
    ground (arith, with_registry-subscriptions b topic)

-- In a valid broker, a subscribe message within the limits leaves the client holding the topic with
-- the scope that the payload says, one outside them leaves every subscription as it is, and
-- neither touches what other clients hold or other topics.
pub held-on_subscribe :
    (b : Broker) (client topic payload c t : Bytes)
    → IsValid b
    → held (on_subscribe b client topic payload).subscriptions c t ≡ (
        if is_allowed b client topic && (client == c && topic == t)
        then some (decode_subscribe_scope payload)
        else held b.subscriptions c t)
held-on_subscribe b client topic payload c t v =
    ap (λ r. held r c t) (on_subscribe-subscriptions b client topic payload)
    ∙ ground (
      arith,
      held-subscribe b.subscriptions client topic (decode_subscribe_scope payload) v.consistent c t,
    )

can_subscribe-room :
    (b : Broker) (client topic : Bytes)
    → can_subscribe b client topic ≡ true
    → length (topics_at b.subscriptions client) ≤ max_subscriptions_per_client
    → length (topics_at b.subscriptions client) + added (held b.subscriptions client topic)
      ≤ max_subscriptions_per_client
unfolding can_subscribe contains added subscriptions_of lookup
can_subscribe-room b client topic ok h =
    elim (Option-cases (lookup client b.subscriptions.client_topics)) [
      | inl e ↦ ground arith
      | inr (topics, e) ↦ elim (Option-cases (lookup topic topics)) [
        | inl f ↦ ground arith
        | inr (s, f) ↦ ground arith
      ]
    ]

-- A subscribe message brings no client that holds at most 10000 topics above 10000.
pub on_subscribe-cap :
    (b : Broker) (client topic payload c : Bytes)
    → length (topics_at b.subscriptions c) ≤ max_subscriptions_per_client
    → length (topics_at (on_subscribe b client topic payload).subscriptions c)
      ≤ max_subscriptions_per_client
on_subscribe-cap b client topic payload c h =
    rw (on_subscribe-subscriptions b client topic payload) (
      ground (
        arith,
        length-subscribe b.subscriptions client topic (decode_subscribe_scope payload) c,
        can_subscribe-room b client topic,
        bytes_beq_iff client c,
      ))

pub on_unsubscribe-subscriptions :
    (b : Broker) (client topic : Bytes)
    → (on_unsubscribe b client topic).subscriptions
      ≡ (Registry.unsubscribe b.subscriptions client topic).0
unfolding on_unsubscribe
on_unsubscribe-subscriptions b client topic =
    with_registry-subscriptions b topic (Registry.unsubscribe b.subscriptions client topic)

-- A subscribe message adds at most one topic to its client.
pub length-on_subscribe :
    (b : Broker) (client topic payload : Bytes)
    → length (topics_at (on_subscribe b client topic payload).subscriptions client)
      ≤ suc (length (topics_at b.subscriptions client))
unfolding added
length-on_subscribe b client topic payload =
    rw (on_subscribe-subscriptions b client topic payload) (
      ground (
        arith,
        length-subscribe b.subscriptions client topic (decode_subscribe_scope payload) client,
      ))

-- A client with room may subscribe.
pub can_subscribe-of_room :
    (b : Broker) (client topic : Bytes)
    → length (topics_at b.subscriptions client) < max_subscriptions_per_client
    → can_subscribe b client topic ≡ true
unfolding can_subscribe subscriptions_of
can_subscribe-of_room b client topic h =
    elim (Option-cases (lookup client b.subscriptions.client_topics)) [
      | inl e ↦ ground arith
      | inr (topics, e) ↦ ground arith
    ]
