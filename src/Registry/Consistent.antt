-- ===== src/Registry/Consistent.antt =====
-- server/subscriptionregistry.h: the agreement of the two maps, and `subscribe`.
use wisp.Prelude.{
  ◌≡◌, ◌≢◌, refl, sym, ◌∙◌, inl, inr, Option-cases, Bool-cases, false, ◌&&◌, Option, none, some,
  List, [], ◌∷◌, ◌++◌, ◌==◌, Bytes, bytes_eq, bytes_beq_iff, if◌then◌else◌, arith,
}
use wisp.Prelude.Map.{
  lookup, insert, insert_ordered, lookup-insert, lookup-insert_ordered, insert-ne-nil,
  insert_ordered-ne-nil,
}
use wisp.Keys.{Origin, origin_beq_iff, origin_eq}
use wisp.Registry.{Registry, Subscriber, empty, change_scope, topics_at, subscribers_at, subscribe}
use wisp.Registry.Subscribers.{
  scope_in, scope_in-push_back, push_back-IsUnique, scope_in-set_scope, set_scope-IsUnique,
}
use wisp.Registry.Topics.{AllUnique, subscribers_at-change, change_scope-ne}

-- The scope that a client holds on a topic, by the client's side of the mapping.
abbrev pub held : Registry → Bytes → Bytes → Option Origin
held r client topic = lookup topic (topics_at r client)

-- The same, by the topic's side.
abbrev pub listed : Registry → Bytes → Bytes → Option Origin
listed r client topic = scope_in client (subscribers_at r.topic_subscribers topic)

pub record IsConsistent (r : Registry) : Type 0 where
  pub agree : (client topic : Bytes) → held r client topic ≡ listed r client topic
  pub unique : AllUnique r.topic_subscribers
  pub no_empty_client : (client : Bytes) → lookup client r.client_topics ≢ some []
  pub no_empty_topic : (topic : Bytes) → lookup topic r.topic_subscribers ≢ some []

push_back-ne-nil : (subs : List Subscriber) (s : Subscriber) → subs ++ s ∷ [] ≢ []
push_back-ne-nil [] s e = cc
push_back-ne-nil (x ∷ subs) s e = cc

pub empty-IsConsistent : IsConsistent empty
unfolding lookup scope_in
empty-IsConsistent = record {
  agree = λ c t. refl;
  unique = λ t. tt;
  no_empty_client = λ c e. cc;
  no_empty_topic = λ t e. cc;
}

module _ (r : Registry) (client topic : Bytes) (scope : Origin) where
  added : Registry
  added = record {
    client_topics = insert client (insert_ordered topic scope (topics_at r client)) r.client_topics;
    topic_subscribers =
        insert topic
          (subscribers_at r.topic_subscribers topic
            ++ record { client_id = client; scope = scope } ∷ [])
          r.topic_subscribers;
  }

  rescoped : Registry
  rescoped = record {
    client_topics = insert client (insert topic scope (topics_at r client)) r.client_topics;
    topic_subscribers = change_scope topic client scope r.topic_subscribers;
  }

  held-added :
      (c t : Bytes)
      → held added c t ≡ (if client == c && topic == t then some scope else held r c t)
  unfolding added
  held-added c t = ground (
    arith,
    lookup-insert client c (insert_ordered topic scope (topics_at r client)) r.client_topics,
    lookup-insert_ordered topic t scope (topics_at r client),
    bytes_beq_iff client c,
  )

  held-rescoped :
      (c t : Bytes)
      → held rescoped c t ≡ (if client == c && topic == t then some scope else held r c t)
  unfolding rescoped
  held-rescoped c t = ground (
    arith,
    lookup-insert client c (insert topic scope (topics_at r client)) r.client_topics,
    lookup-insert topic t scope (topics_at r client),
    bytes_beq_iff client c,
  )

  module _ (v : IsConsistent r) where
    listed-added :
        held r client topic ≡ none
        → (c t : Bytes)
        → listed added c t ≡ (if client == c && topic == t then some scope else listed r c t)
    unfolding added
    listed-added h c t = ground (
      arith,
      lookup-insert topic t
          (subscribers_at r.topic_subscribers topic
            ++ record { client_id = client; scope = scope } ∷ [])
          r.topic_subscribers,
      scope_in-push_back c (record { client_id = client; scope = scope })
          (subscribers_at r.topic_subscribers topic) (sym (v.agree client topic) ∙ h),
      bytes_beq_iff topic t,
    )

    listed-rescoped :
        (s : Origin)
        → held r client topic ≡ some s
        → (c t : Bytes)
        → listed rescoped c t ≡ (if client == c && topic == t then some scope else listed r c t)
    unfolding rescoped
    listed-rescoped s h c t = ground (
      arith,
      subscribers_at-change topic client t scope r.topic_subscribers,
      scope_in-set_scope c client scope (subscribers_at r.topic_subscribers t),
      v.agree client topic,
      bytes_beq_iff topic t,
    )

    added-IsConsistent : held r client topic ≡ none → IsConsistent added
    unfolding added
    added-IsConsistent h = record {
      agree = λ c t. held-added c t ∙ ground (arith, v.agree c t, listed-added h c t);
      unique = λ t.
          rw (lookup-insert topic t _ r.topic_subscribers) (elim (Bool-cases (topic == t)) [
            | inl e ↦ rw e (
                push_back-IsUnique (record { client_id = client; scope = scope })
                  (subscribers_at r.topic_subscribers topic) (sym (v.agree client topic) ∙ h)
                  (v.unique topic))
            | inr e ↦ rw e (v.unique t)
          ]);
      no_empty_client = λ c e. ground (
        arith,
        lookup-insert client c (insert_ordered topic scope (topics_at r client)) r.client_topics,
        insert_ordered-ne-nil topic scope (topics_at r client),
        v.no_empty_client c,
      );
      no_empty_topic = λ t e. ground (
        arith,
        lookup-insert topic t
            (subscribers_at r.topic_subscribers topic
              ++ record { client_id = client; scope = scope } ∷ [])
            r.topic_subscribers,
        push_back-ne-nil (subscribers_at r.topic_subscribers topic)
            (record { client_id = client; scope = scope }),
        v.no_empty_topic t,
      );
    }

    rescoped-IsConsistent : (s : Origin) → held r client topic ≡ some s → IsConsistent rescoped
    unfolding rescoped
    rescoped-IsConsistent s h = record {
      agree = λ c t. held-rescoped c t ∙ ground (arith, v.agree c t, listed-rescoped s h c t);
      unique = λ t.
          rw (subscribers_at-change topic client t scope r.topic_subscribers)
            (elim (Bool-cases (topic == t)) [
              | inl e ↦ rw e (
                  set_scope-IsUnique client scope (subscribers_at r.topic_subscribers t)
                    (v.unique t))
              | inr e ↦ rw e (v.unique t)
            ]);
      no_empty_client = λ c e. ground (
        arith,
        lookup-insert client c (insert topic scope (topics_at r client)) r.client_topics,
        insert-ne-nil topic scope (topics_at r client),
        v.no_empty_client c,
      );
      no_empty_topic =
          λ t. change_scope-ne topic client t scope r.topic_subscribers v.no_empty_topic;
    }

    -- In a registry whose two maps agree, a subscription, new, repeated or with another scope, keeps
    -- them together.
    pub subscribe-IsConsistent : IsConsistent (subscribe r client topic scope).0
    unfolding subscribe
    subscribe-IsConsistent = elim (Option-cases (held r client topic)) [
      | inl e ↦ rw (e, subscribe) (unfold added in added-IsConsistent e)
      | inr (s, e) ↦ elim (Bool-cases (s == scope)) [
        | inl same ↦ rw (e, subscribe) (rw same v)
        | inr other ↦ rw (e, subscribe) (rw other (unfold rescoped in rescoped-IsConsistent s e))
      ]
    ]

    -- In a registry whose two maps agree, the client holds the topic with that scope after a
    -- subscription, and nothing else has changed.
    pub held-subscribe :
        (c t : Bytes)
        → held (subscribe r client topic scope).0 c t
          ≡ (if client == c && topic == t then some scope else held r c t)
    unfolding subscribe
    held-subscribe c t = elim (Option-cases (held r client topic)) [
      | inl e ↦ rw (e, subscribe) (unfold added in held-added c t)
      | inr (s, e) ↦ elim (Bool-cases (s == scope)) [
        | inl same ↦
            rw (e, subscribe)
              (rw same (
                ground
                  (arith, origin_beq_iff s scope, bytes_beq_iff client c, bytes_beq_iff topic t)))
        | inr other ↦ rw (e, subscribe) (rw other (unfold rescoped in held-rescoped c t))
      ]
    ]

-- A subscription that is reported unchanged changes nothing.
pub subscribe-unchanged :
    (r : Registry) (client topic : Bytes) (scope : Origin)
    → (subscribe r client topic scope).1 ≡ false
    → (subscribe r client topic scope).0 ≡ r
unfolding subscribe
subscribe-unchanged r client topic scope h = ground arith
