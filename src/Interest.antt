-- ===== src/Interest.antt =====
-- server/broker.cpp: what a broker asks of its peer links. The interest set, the wildcard and the
-- saturation flag, and the SUBSCRIBE and UNSUBSCRIBE messages that carry their changes.
pub mod Asked
pub mod Follows
pub mod Coverage
pub mod Wanted
pub mod Race
use wisp.Prelude.{
  ℕ, Bool, true, false, not, ◌&&◌, ◌||◌, Option, none, some, List, [], ◌∷◌, ◌++◌, ◌==◌, nat_eq, ltb,
  Bytes, bytes_eq, if◌then◌else◌, length,
}
use wisp.Prelude.Map.{Map, lookup, insert, insert_ordered, erase, contains, keys}
use wisp.Keys
use wisp.Keys.{is_reserved_key, wildcard_topic}
use wisp.Wire.{Envelope, WireMessage, make_control}

-- A link to a peer broker, with what was handed to its worker, the newest first: the control
-- messages, and the messages that the worker's queue took.
pub record PeerLink : Type 0 where
  pub address : Bytes
  pub link_id : Bytes
  pub active : Bool
  pub control : List Envelope
  pub encoded : List WireMessage

-- `m_interest`, `m_interestSaturated` and `m_interestWildcard`.
pub record Demand : Type 0 where
  pub interest : Map (Unit {0})
  pub saturated : Bool
  pub wildcard : Bool

-- With `m_peers`.
pub record Links : Type 0 where
  pub demand : Demand
  pub open demand use *
  pub peers : Map PeerLink

abbrev pub max_interest_topics : ℕ
max_interest_topics = 1000

unfoldable pub is_propagatable_topic : Bytes → Bool
unfolding is_reserved_key
is_propagatable_topic topic =
    not (topic == []) && (not (topic == wildcard_topic) && not (is_reserved_key topic))

-- `peer.worker->writeControlMessage(...)`
abbrev pub write_control : PeerLink → Envelope → PeerLink
write_control link e = record link { control = e ∷ link.control }

abbrev pub ask : Bytes → PeerLink → PeerLink
ask topic link = write_control link (make_control Keys.subscribe link.link_id topic)

abbrev pub withdraw : Bytes → PeerLink → PeerLink
withdraw topic link = write_control link (make_control Keys.unsubscribe link.link_id topic)

-- `for (topic : topics) writeControlMessage(makeControl(SUBSCRIBE, linkId, topic))`
unfoldable pub ask_all : List Bytes → PeerLink → PeerLink
ask_all [] link = link
ask_all (topic ∷ topics) link = ask_all topics (ask topic link)

-- `for (auto& [key, peer] : m_peers)`
unfoldable pub each_peer : (PeerLink → PeerLink) → Map PeerLink → Map PeerLink
each_peer f [] = []
each_peer f ((key, link) ∷ peers) = (key, f link) ∷ each_peer f peers

-- `noteTopicSubscribed`, for the wildcard and for a topic.
subscribe_wildcard : Links → Links
unfolding each_peer
subscribe_wildcard l = if l.wildcard then l else record l {
  demand = record l.demand { wildcard = true };
  peers = each_peer (ask wildcard_topic) l.peers;
}

subscribe_topic : Links → Bytes → Links
unfolding each_peer
subscribe_topic l topic =
    let grown = insert_ordered topic tt l.interest in
    if l.saturated || contains topic l.interest
    then l
    else if ltb max_interest_topics (length grown)
    then record l {
      demand = record l.demand { interest = grown; saturated = true };
      peers = each_peer (ask wildcard_topic) l.peers;
    }
    else record l {
      demand = record l.demand { interest = grown };
      peers = each_peer (ask topic) l.peers;
    }

pub note_topic_subscribed : Links → Bytes → Links
unfolding subscribe_wildcard subscribe_topic is_propagatable_topic
note_topic_subscribed l topic =
    if topic == wildcard_topic
    then subscribe_wildcard l
    else if is_propagatable_topic topic
    then subscribe_topic l topic
    else l

-- `noteTopicUnsubscribed`, for the wildcard and for a topic.
unsubscribe_wildcard : Links → Links
unfolding each_peer ask_all
unsubscribe_wildcard l =
    if not l.wildcard
    then l
    else if l.saturated
    then record l { demand = record l.demand { wildcard = false } }
    else record l {
      demand = record l.demand { wildcard = false };
      peers = each_peer (λ link. ask_all (keys l.interest) (withdraw wildcard_topic link)) l.peers;
    }

unsubscribe_topic : Links → Bytes → Links
unfolding each_peer
unsubscribe_topic l topic = if l.saturated || not (contains topic l.interest) then l else record l {
  demand = record l.demand { interest = erase topic l.interest };
  peers = each_peer (withdraw topic) l.peers;
}

pub note_topic_unsubscribed : Links → Bytes → Links
unfolding unsubscribe_wildcard unsubscribe_topic is_propagatable_topic
note_topic_unsubscribed l topic =
    if topic == wildcard_topic
    then unsubscribe_wildcard l
    else if is_propagatable_topic topic
    then unsubscribe_topic l topic
    else l

-- `wanted_now` is what the registry answers after the change.
pub note_mesh_interest_change : Links → Bytes → Bool → Bool → Links
unfolding note_topic_subscribed note_topic_unsubscribed
note_mesh_interest_change l topic wanted_before wanted_now =
    if wanted_now
    then (if wanted_before then l else note_topic_subscribed l topic)
    else (if wanted_before then note_topic_unsubscribed l topic else l)

-- The whole interest, for a new link or one whose remote asked for a reset.
pub send_interest_to : Demand → PeerLink → PeerLink
unfolding ask_all
send_interest_to l link =
    if l.saturated || l.wildcard then ask wildcard_topic link else ask_all (keys l.interest) link

-- `for (existing : m_peers) if (existing.address == peerAddress)`
unfoldable pub has_address : Bytes → Map PeerLink → Bool
has_address address [] = false
has_address address ((key, link) ∷ peers) = link.address == address || has_address address peers

-- `addPeer` writes the interest to a link of its own first, and adds it to the peers later.
abbrev pub new_link : Bytes → Bytes → PeerLink
new_link address link_id = record {
  address = address;
  link_id = link_id;
  active = true;
  control = [];
  encoded = [];
}

pub publish_link : Bytes → PeerLink → Links → Links
unfolding has_address
publish_link key link l =
    if contains key l.peers
    then l
    else if has_address link.address l.peers
    then l
    else record l { peers = insert key link l.peers }

pub add_peer : Links → Bytes → Bytes → Bytes → Links
unfolding publish_link send_interest_to
add_peer l key address link_id =
    publish_link key (send_interest_to l.demand (new_link address link_id)) l

-- `removePeer`: a DISCONNECT through the link, which is then stopped and gone.
pub remove_peer : Links → Bytes → Bytes → Links × Option PeerLink
remove_peer l broker_id key = elim (lookup key l.peers) [
  | none ↦ (l, none)
  | some link ↦ (
    record l { peers = erase key l.peers },
    some (write_control link (make_control Keys.disconnect broker_id [])),
  )
]
