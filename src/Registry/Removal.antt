-- ===== src/Registry/Removal.antt =====
-- server/subscriptionregistry.h: `unsubscribe` and `removeClient`.
use wisp.Prelude.{
  ◌≡◌, ◌∙◌, inl, inr, Option-cases, false, ◌&&◌, none, some, ◌==◌, Bytes, bytes_eq, bytes_beq_iff,
  if◌then◌else◌, arith, is_some,
}
use wisp.Prelude.Map.{Map, lookup, erase, lookup-erase}
use wisp.Keys.{Origin}
use wisp.Registry.{
  Registry, store_topics, drop_subscriber, drop_all, topics_at, subscribers_at, unsubscribe,
  remove_client,
}
use wisp.Registry.Subscribers.{scope_in-take_out}
use wisp.Registry.Topics.{
  lookup-store_topics, store_topics-ne, subscribers_at-drop, drop_subscriber-ne,
  drop_subscriber-AllUnique, drop_all-AllUnique, drop_all-ne, scope_in-drop_all,
}
use wisp.Registry.Consistent.{held, listed, IsConsistent}

module _ (r : Registry) (client topic : Bytes) where
  removed : Registry
  removed = record {
    client_topics = store_topics client (erase topic (topics_at r client)) r.client_topics;
    topic_subscribers = drop_subscriber topic client r.topic_subscribers;
  }

  held-removed :
      (c t : Bytes) → held removed c t ≡ (if client == c && topic == t then none else held r c t)
  unfolding removed
  held-removed c t = ground (
    arith,
    lookup-store_topics client c (erase topic (topics_at r client)) r.client_topics,
    lookup-erase topic t (topics_at r client),
    bytes_beq_iff client c,
  )

  -- After an unsubscription the client does not hold the topic, and every other client and topic is
  -- as it was.
  pub held-unsubscribe :
      (c t : Bytes)
      → held (unsubscribe r client topic).0 c t
        ≡ (if client == c && topic == t then none else held r c t)
  unfolding unsubscribe
  held-unsubscribe c t = elim (Option-cases (held r client topic)) [
    | inl e ↦ rw (e, unsubscribe) (ground (arith, e, bytes_beq_iff client c, bytes_beq_iff topic t))
    | inr (s, e) ↦ rw (e, unsubscribe) (unfold removed in held-removed c t)
  ]

  pub unsubscribe-is_some : (unsubscribe r client topic).1 ≡ is_some (held r client topic)
  unfolding unsubscribe
  unsubscribe-is_some = elim (Option-cases (held r client topic)) [
    | inl e ↦ rw (e, unsubscribe)
    | inr (s, e) ↦ rw (e, unsubscribe)
  ]

  module _ (v : IsConsistent r) where
    listed-removed :
        (c t : Bytes)
        → listed removed c t ≡ (if client == c && topic == t then none else listed r c t)
    unfolding removed
    listed-removed c t = ground (
      arith,
      subscribers_at-drop topic client t r.topic_subscribers,
      scope_in-take_out c client (subscribers_at r.topic_subscribers t) (v.unique t),
    )

    removed-IsConsistent : IsConsistent removed
    unfolding removed
    removed-IsConsistent = record {
      agree = λ c t. held-removed c t ∙ ground (arith, v.agree c t, listed-removed c t);
      unique = drop_subscriber-AllUnique topic client r.topic_subscribers v.unique;
      no_empty_client = λ c.
          store_topics-ne client c (erase topic (topics_at r client)) r.client_topics
            (v.no_empty_client c);
      no_empty_topic =
          λ t. drop_subscriber-ne topic client t r.topic_subscribers (v.no_empty_topic t);
    }

    pub unsubscribe-IsConsistent : IsConsistent (unsubscribe r client topic).0
    unfolding unsubscribe
    unsubscribe-IsConsistent = elim (Option-cases (held r client topic)) [
      | inl e ↦ rw (e, unsubscribe) v
      | inr (s, e) ↦ rw (e, unsubscribe) (unfold removed in removed-IsConsistent)
    ]

module _ (r : Registry) (client : Bytes) (v : IsConsistent r) where
  cleared : Map Origin → Registry
  cleared topics = record {
    client_topics = erase client r.client_topics;
    topic_subscribers = drop_all client topics r.topic_subscribers;
  }

  held-cleared :
      (topics : Map Origin) (c t : Bytes)
      → held (cleared topics) c t ≡ (if client == c then none else held r c t)
  unfolding cleared lookup
  held-cleared topics c t = ground (arith, lookup-erase client c r.client_topics)

  listed-cleared :
      (topics : Map Origin)
      → lookup client r.client_topics ≡ some topics
      → (c t : Bytes) → listed (cleared topics) c t ≡ (if client == c then none else listed r c t)
  unfolding cleared
  listed-cleared topics e c t = ground (
    arith,
    scope_in-drop_all client topics r.topic_subscribers c t v.unique,
    v.agree c t,
    bytes_beq_iff client c,
  )

  -- In a registry whose two maps agree, a removed client holds nothing afterwards, and what the
  -- others hold is as it was.
  pub held-remove_client :
      (c t : Bytes) → held (remove_client r client) c t ≡ (if client == c then none else held r c t)
  unfolding remove_client lookup
  held-remove_client c t = elim (Option-cases (lookup client r.client_topics)) [
    | inl e ↦ rw (e, remove_client) (ground (arith, bytes_beq_iff client c))
    | inr (topics, e) ↦ rw (e, remove_client) (unfold cleared in held-cleared topics c t)
  ]

  pub remove_client-IsConsistent : IsConsistent (remove_client r client)
  unfolding remove_client
  remove_client-IsConsistent = elim (Option-cases (lookup client r.client_topics)) [
    | inl e ↦ rw (e, remove_client) v
    | inr (topics, e) ↦
        rw (e, remove_client)
          (unfold cleared in
            record {
              agree = λ c t.
                  held-cleared topics c t
                  ∙ ground (arith, v.agree c t, listed-cleared topics e c t);
              unique = drop_all-AllUnique client topics r.topic_subscribers v.unique;
              no_empty_client = λ c bad.
                  ground (arith, lookup-erase client c r.client_topics, v.no_empty_client c);
              no_empty_topic =
                  λ t. drop_all-ne client topics r.topic_subscribers t (v.no_empty_topic t);
            })
  ]

pub unsubscribe-unchanged :
    (r : Registry) (client topic : Bytes)
    → (unsubscribe r client topic).1 ≡ false
    → (unsubscribe r client topic).0 ≡ r
unfolding unsubscribe
unsubscribe-unchanged r client topic h = ground arith
