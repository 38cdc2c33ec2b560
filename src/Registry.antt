-- ===== src/Registry.antt =====
-- server/subscriptionregistry.h: the two maps between clients and topics, and the operations
-- that keep them together.
pub mod Subscribers
pub mod Topics
pub mod Consistent
pub mod Removal
pub mod Mesh
pub mod Count
use wisp.Prelude.{
  Bool, true, false, ◌||◌, Option, none, some, List, [], ◌∷◌, ◌++◌, ◌==◌, Bytes, bytes_eq,
  if◌then◌else◌, length, ◌≡◌,
}
use wisp.Prelude.Map.{Map, lookup, insert, insert_ordered, erase}
use wisp.Keys.{Origin, origin_eq, scope_accepts}

pub record Subscriber : Type 0 where
  pub client_id : Bytes
  pub scope : Origin

pub record Registry : Type 0 where
  pub client_topics : Map (Map Origin)
  pub topic_subscribers : Map (List Subscriber)

abbrev pub empty : Registry
empty = record { client_topics = []; topic_subscribers = [] }

-- `std::find_if` over one topic's subscribers, in `findSubscriber` and in the broker.
unfoldable pub find_in : Bytes → List Subscriber → Option Subscriber
find_in client [] = none
find_in client (s ∷ subs) = if s.client_id == client then some s else find_in client subs

-- `subscriber->scope = scope` through the pointer that `findSubscriber` found.
unfoldable pub set_scope : Bytes → Origin → List Subscriber → List Subscriber
set_scope client scope [] = []
set_scope client scope (s ∷ subs) =
    if s.client_id == client
    then record s { scope = scope } ∷ subs
    else s ∷ set_scope client scope subs

-- `subs.back()` of a vector that begins with `s`, and what `pop_back` leaves of it.
unfoldable pub back : Subscriber → List Subscriber → Subscriber
back s [] = s
back s (t ∷ subs) = back t subs

unfoldable pub without_back : Subscriber → List Subscriber → List Subscriber
without_back s [] = []
without_back s (t ∷ subs) = s ∷ without_back t subs

-- `*pos = subs.back(); subs.pop_back();` where `subs` stands behind `pos`.
unfoldable pub swap_with_back : List Subscriber → List Subscriber
unfolding back without_back
swap_with_back [] = []
swap_with_back (s ∷ subs) = back s subs ∷ without_back s subs

unfoldable pub take_out : Bytes → List Subscriber → List Subscriber
unfolding swap_with_back
take_out client [] = []
take_out client (s ∷ subs) =
    if s.client_id == client then swap_with_back subs else s ∷ take_out client subs

-- `if (subs.empty()) m_topicSubscribers.erase(it);`
unfoldable pub store_subscribers :
    Bytes → List Subscriber → Map (List Subscriber) → Map (List Subscriber)
store_subscribers topic [] m = erase topic m
store_subscribers topic (s ∷ subs) m = insert topic (s ∷ subs) m

unfoldable pub drop_subscriber : Bytes → Bytes → Map (List Subscriber) → Map (List Subscriber)
unfolding store_subscribers
drop_subscriber topic client m = elim (lookup topic m) [
  | none ↦ m
  | some subs ↦ store_subscribers topic (take_out client subs) m
]

unfoldable pub change_scope : Bytes → Bytes → Origin → Map (List Subscriber) → Map (List Subscriber)
change_scope topic client scope m = elim (lookup topic m) [
  | none ↦ m
  | some subs ↦ insert topic (set_scope client scope subs) m
]

abbrev pub or_empty {ℓ} : {A : Type ℓ} → Option (List A) → List A
or_empty none = []
or_empty (some l) = l

unfoldable pub subscribers_of : Registry → Bytes → Option (List Subscriber)
subscribers_of r topic = lookup topic r.topic_subscribers

unfoldable pub subscriptions_of : Registry → Bytes → Option (Map Origin)
subscriptions_of r client = lookup client r.client_topics

-- `m_clientTopics[clientId]` and `m_topicSubscribers[topic]`, which are made empty if missing.
abbrev pub topics_at : Registry → Bytes → Map Origin
topics_at r client = or_empty (lookup client r.client_topics)

abbrev pub subscribers_at : Map (List Subscriber) → Bytes → List Subscriber
subscribers_at m topic = or_empty (lookup topic m)

-- The result says whether a subscription was made or its scope changed.
pub subscribe : Registry → Bytes → Bytes → Origin → Registry × Bool
unfolding change_scope
subscribe r client topic scope =
    let topics = topics_at r client in
    elim (lookup topic topics) [
      | none ↦ (
        record {
          client_topics = insert client (insert_ordered topic scope topics) r.client_topics;
          topic_subscribers =
              insert topic
                (subscribers_at r.topic_subscribers topic
                  ++ record { client_id = client; scope = scope } ∷ [])
                r.topic_subscribers;
        },
        true,
      )
      | some held ↦ if held == scope then (r, false) else (
        record {
          client_topics = insert client (insert topic scope topics) r.client_topics;
          topic_subscribers = change_scope topic client scope r.topic_subscribers;
        },
        true,
      )
    ]

-- `if (it->second.empty()) m_clientTopics.erase(it);`
unfoldable pub store_topics : Bytes → Map Origin → Map (Map Origin) → Map (Map Origin)
store_topics client [] m = erase client m
store_topics client (t ∷ topics) m = insert client (t ∷ topics) m

-- The result says whether the subscription existed.
pub unsubscribe : Registry → Bytes → Bytes → Registry × Bool
unfolding store_topics drop_subscriber
unsubscribe r client topic = elim (lookup topic (topics_at r client)) [
  | none ↦ (r, false)
  | some held ↦ (
    record {
      client_topics = store_topics client (erase topic (topics_at r client)) r.client_topics;
      topic_subscribers = drop_subscriber topic client r.topic_subscribers;
    },
    true,
  )
]

-- `for (entry : it->second) dropSubscriber(entry.first, clientId);`
unfoldable pub drop_all : Bytes → Map Origin → Map (List Subscriber) → Map (List Subscriber)
drop_all client [] m = m
drop_all client ((topic, scope) ∷ topics) m =
    drop_all client topics (drop_subscriber topic client m)

pub remove_client : Registry → Bytes → Registry
unfolding drop_all
remove_client r client = elim (lookup client r.client_topics) [
  | none ↦ r
  | some topics ↦ record {
    client_topics = erase client r.client_topics;
    topic_subscribers = drop_all client topics r.topic_subscribers;
  }
]

unfoldable pub any_mesh : List Subscriber → Bool
any_mesh [] = false
any_mesh (s ∷ subs) = scope_accepts s.scope false || any_mesh subs

unfoldable pub has_mesh_subscriber : Registry → Bytes → Bool
unfolding any_mesh subscribers_of
has_mesh_subscriber r topic = elim (subscribers_of r topic) [
  | none ↦ false
  | some subs ↦ any_mesh subs
]
