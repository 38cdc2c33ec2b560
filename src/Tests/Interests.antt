-- ===== src/Tests/Interests.antt =====
-- The subscriptions, the interest and the dedup history at concrete inputs.
use wisp.Prelude.{
  ◌≡◌, ◌≢◌, ◌↔◌, refl, true, false, none, some, [], ◌∷◌, ◌==◌, bytes_eq, Bytes, ◌&&◌, codes, arith,
  if◌then◌else◌, bytes_beq, ap,
}
use wisp.Prelude.Map.{lookup, contains, insert_ordered}
use wisp.Keys.{Origin, is_reserved_key, wildcard_topic}
use wisp.Registry.{Registry, empty, subscribe, unsubscribe, has_mesh_subscriber}
use wisp.Registry.Consistent.{
  held, IsConsistent, empty-IsConsistent, subscribe-IsConsistent, held-subscribe,
}
use wisp.Registry.Removal.{held-unsubscribe}
use wisp.Registry.Mesh.{WantsMesh, has_mesh_subscriber_iff}
use wisp.Dedup.{Windows, initial, is_duplicate, id_beq, remap, message_id_from, word_of}
use wisp.Dedup.Set.{member}
use wisp.Dedup.Window.{
  Recent, Tracks, remembers, note, known_as, initial-Tracks, is_duplicate-Tracks,
}
use wisp.Dedup.Recall.{after, is_duplicate_recall, is_duplicate_fresh}
use wisp.Interest.{
  Links, PeerLink, note_mesh_interest_change, add_peer, is_propagatable_topic, has_address,
}
use wisp.Interest.Asked.{asked}
use wisp.Interest.Follows.{interested}
use wisp.Interest.Coverage.{IsCovering, add_peer-IsCovering}
use wisp.Interest.Wanted.{Reflects, update, note_mesh_interest_change-Reflects}
use wisp.Interest.Race.{race, race_loses_topic}
use wisp.Tests.Fixtures.{alice, bob, news, uuid, new_broker, new_broker-IsValid}

-- Alice holds the news.
abbrev one_subscription : Registry
one_subscription = (subscribe empty alice news Origin.any).0

abbrev one_subscription-IsConsistent : IsConsistent one_subscription
one_subscription-IsConsistent =
    subscribe-IsConsistent empty alice news Origin.any empty-IsConsistent

subscribe-IsConsistent_example : IsConsistent (subscribe one_subscription bob news Origin.local).0
subscribe-IsConsistent_example =
    subscribe-IsConsistent one_subscription bob news Origin.local one_subscription-IsConsistent

held-subscribe_example :
    held (subscribe one_subscription bob news Origin.local).0 bob news
    ≡ (if bob == bob && news == news then some Origin.local else held one_subscription bob news)
held-subscribe_example =
    held-subscribe one_subscription bob news Origin.local one_subscription-IsConsistent bob news

held-unsubscribe_example :
    held (unsubscribe one_subscription alice news).0 alice news
    ≡ (if alice == alice && news == news then none else held one_subscription alice news)
held-unsubscribe_example = held-unsubscribe one_subscription alice news alice news

has_mesh_subscriber_iff_example :
    (has_mesh_subscriber one_subscription news ≡ true)
    ↔ WantsMesh (λ c. held one_subscription c news)
has_mesh_subscriber_iff_example =
    has_mesh_subscriber_iff one_subscription news one_subscription-IsConsistent

abbrev no_ids : Recent
no_ids = record { current = []; previous = [] }

is_duplicate-Tracks_example :
    (w' : Windows) × (is_duplicate initial uuid ≡ some (w', remembers no_ids (known_as uuid)))
    × Tracks w' (note no_ids (known_as uuid))
is_duplicate-Tracks_example = is_duplicate-Tracks initial no_ids uuid initial-Tracks

-- The windows once one id was accepted.
abbrev first_windows : Windows
first_windows = (is_duplicate-Tracks initial no_ids uuid initial-Tracks).0

is_duplicate_recall_example :
    (w₂ w₃ : Windows) × (after first_windows (alice ∷ bob ∷ []) ≡ some w₂)
    × (is_duplicate w₂ uuid ≡ some (w₃, true))
unfolding remembers member
is_duplicate_recall_example =
    is_duplicate_recall initial first_windows no_ids uuid (alice ∷ bob ∷ []) initial-Tracks
      (is_duplicate-Tracks initial no_ids uuid initial-Tracks).1 (omega arith)

abbrev other_uuid : Bytes
other_uuid = codes "fedcba9876543210"

false-ne-true : false ≢ true
false-ne-true e = cc

other_id : known_as other_uuid ≢ known_as uuid
unfolding known_as remap message_id_from word_of id_beq
other_id e = false-ne-true (ap (λ i. id_beq i (known_as uuid)) e)

is_duplicate_fresh_example :
    (w w' : Windows) × (after initial (other_uuid ∷ []) ≡ some w)
    × (is_duplicate w uuid ≡ some (w', false))
is_duplicate_fresh_example = is_duplicate_fresh uuid (other_uuid ∷ []) (other_id, tt)

-- A broker's links, with one peer, that want nothing yet.
abbrev one_link : Links
one_link =
    add_peer new_broker.links (codes "peer") (codes "tcp://10.0.0.2:5555") (codes "BrokerLink-1")

add_peer-IsCovering_example : IsCovering one_link
add_peer-IsCovering_example =
    add_peer-IsCovering new_broker.links (codes "peer") (codes "tcp://10.0.0.2:5555")
      (codes "BrokerLink-1") new_broker-IsValid.covering

note_mesh_interest_change-Reflects_example :
    Reflects
      (note_mesh_interest_change new_broker.links news false true).demand
      (update (has_mesh_subscriber new_broker.subscriptions) news true)
note_mesh_interest_change-Reflects_example =
    note_mesh_interest_change-Reflects new_broker.links
      (has_mesh_subscriber new_broker.subscriptions) new_broker-IsValid.reflects news false true
      (λ e. cc)

race_loses_topic_example :
    (link : PeerLink) × (lookup
        (codes "peer")
        (race new_broker.links
          (codes "peer")
          (codes "tcp://10.0.0.2:5555")
          (codes "BrokerLink-1")
          news).peers
      ≡ some link)
    × (interested
          (race new_broker.links
            (codes "peer")
            (codes "tcp://10.0.0.2:5555")
            (codes "BrokerLink-1")
            news).demand
          news
        ≡ true)
    × (asked link.control news ≡ false)
    × (asked link.control wildcard_topic ≡ false)
unfolding is_propagatable_topic contains lookup has_address is_reserved_key insert_ordered bytes_beq
race_loses_topic_example =
    race_loses_topic new_broker.links news refl refl refl (omega arith) (codes "peer")
      (codes "tcp://10.0.0.2:5555") (codes "BrokerLink-1") new_broker-IsValid.covering refl refl
