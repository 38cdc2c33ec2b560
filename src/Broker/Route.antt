-- ===== src/Broker/Route.antt =====
-- server/broker.cpp: `processMessage`, the fan-out to subscribers and the flood to peers.
use wisp.Prelude.{
  ℕ, ◌+◌, Bool, false, not, ◌&&◌, Option, none, some, List, [], ◌∷◌, ◌==◌, Bytes, bytes_eq,
  if◌then◌else◌, length, suc,
}
use wisp.Prelude.Map.{Map, contains}
use wisp.Keys.{wildcard_topic, is_reserved_key, scope_accepts}
use wisp.Registry.{Subscriber, subscribers_of, find_in, or_empty}
use wisp.Dedup.{Windows, is_duplicate}
use wisp.Wire.{Header, WireMessage, encode_header}
use wisp.Interest.{PeerLink}
use wisp.Broker.State.{Broker, Outside, send_to, note_dropped_to, plus64}
use wisp.Broker.Session.{handle_client_message}

-- `isFromPeer`: the message came over a link, or from a client.
unfoldable pub deliver : Outside → Header → Bytes → Bytes → Bool → Broker → Subscriber → Broker
deliver o header payload sender is_from_peer b s =
    let (b', taken) = send_to o b s.client_id header payload in
    if not is_from_peer && s.client_id == sender
    then b
    else if not (scope_accepts s.scope (not is_from_peer))
    then b
    else if not (contains s.client_id b.clients)
    then b
    else if taken
    then b'
    else note_dropped_to b' s.client_id

unfoldable pub deliver_exact :
    Outside → Header → Bytes → Bytes → Bool → List Subscriber → Broker → Broker
unfolding deliver
deliver_exact o header payload sender is_from_peer [] b = b
deliver_exact o header payload sender is_from_peer (s ∷ subs) b =
    deliver_exact o header payload sender is_from_peer subs
      (deliver o header payload sender is_from_peer b s)

-- `exact && scopeAccepts(exact->scope, isLocal)`
unfoldable pub is_served : List Subscriber → Bytes → Bool → Bool
is_served exact client is_local = elim (find_in client exact) [
  | none ↦ false
  | some s ↦ scope_accepts s.scope is_local
]

-- Wildcard subscribers that their exact subscription has served are passed over.
unfoldable pub deliver_wildcard :
    Outside → Header → Bytes → Bytes → Bool → List Subscriber → List Subscriber → Broker → Broker
unfolding deliver is_served
deliver_wildcard o header payload sender is_from_peer exact [] b = b
deliver_wildcard o header payload sender is_from_peer exact (s ∷ subs) b =
    deliver_wildcard o header payload sender is_from_peer exact subs (
      if is_served exact s.client_id (not is_from_peer)
      then b
      else deliver o header payload sender is_from_peer b s)

-- A topic that nobody subscribes to has no subscribers, as the null pointer has none.
abbrev pub exact_subscribers : Broker → Bytes → List Subscriber
exact_subscribers b topic = or_empty (subscribers_of b.subscriptions topic)

abbrev pub wildcard_subscribers : Broker → Bytes → List Subscriber
wildcard_subscribers b topic =
    if topic == wildcard_topic then [] else or_empty (subscribers_of b.subscriptions wildcard_topic)

unfoldable pub deliver_to_subscribers : Outside → Broker → Header → Bytes → Bytes → Bool → Broker
unfolding deliver_exact deliver_wildcard
deliver_to_subscribers o b header payload sender is_from_peer =
    let exact = exact_subscribers b header.topic in
    deliver_wildcard o header payload sender is_from_peer exact
      (wildcard_subscribers b header.topic)
      (deliver_exact o header payload sender is_from_peer exact b)

-- The links after a flood, and how many of them refused.
unfoldable pub flood : Outside → WireMessage → Map PeerLink → Map PeerLink × ℕ
flood o msg [] = ([], 0)
flood o msg ((key, link) ∷ peers) =
    let (rest, dropped) = flood o msg peers in
    if not link.active
    then ((key, link) ∷ rest, dropped)
    else if o.link_accepts key link.encoded
    then ((key, record link { encoded = msg ∷ link.encoded }) ∷ rest, dropped)
    else ((key, link) ∷ rest, suc dropped)

unfoldable pub flood_peers : Outside → Broker → Header → Bytes → Broker
unfolding flood
flood_peers o b header payload =
    let msg : WireMessage = record {
      header_bytes = encode_header o.codec header;
      payload = payload;
    } in
    let (peers, dropped) = flood o msg b.links.peers in
    record b {
      links = record b.links { peers = peers };
      total_dropped = plus64 b.total_dropped dropped;
    }

-- A message with no id is stamped as this broker's.
unfoldable pub stamp : Broker → Bytes → Header → Header
stamp b fresh_uuid header =
    if header.message_uuid == []
    then record header { message_uuid = fresh_uuid; origin_broker_id = b.broker_id }
    else header

unfoldable pub count : Broker → ℕ → Broker
count b bytes = record b {
  total_messages = plus64 b.total_messages 1;
  msgs_interval = plus64 b.msgs_interval 1;
  bytes_interval = plus64 b.bytes_interval bytes;
}

-- The delivery path.
unfoldable pub route : Outside → Broker → Header → Bytes → Bytes → Bool → Broker
unfolding deliver_to_subscribers flood_peers
route o b header payload sender is_from_peer =
    flood_peers o (deliver_to_subscribers o b header payload sender is_from_peer) header payload

-- Behind the session handling: what it did not take and is not reserved is routed.
unfoldable pub pass_on : Outside → Broker × Bool → Header → Bytes → Bytes → Bool → Broker
unfolding route
pass_on o (b, handled) header payload sender is_from_peer =
    if handled
    then b
    else if is_reserved_key header.handler_key
    then b
    else route o b header payload sender is_from_peer

-- Behind the loop protection: the tap, the session of a local client, and the rest.
unfoldable pub admit : Outside → Broker → Header → Bytes → Bytes → Bool → ℕ → Broker
unfolding pass_on
admit o b header payload sender is_from_peer now =
    let tapped = record b { tapped = record { header = header; payload = payload } ∷ b.tapped } in
    pass_on o
      (if is_from_peer
        then (tapped, false)
        else handle_client_message o tapped header payload sender now)
      header payload sender is_from_peer

-- The loop protection's answer for a message that is not reserved.
unfoldable pub after_dedup :
    Outside → Broker → Header → Bytes → Bytes → Bool → ℕ → Windows × Bool → Broker
unfolding admit
after_dedup o b header payload sender is_from_peer now (seen, duplicate) =
    let b' = record b { seen = seen } in
    if duplicate then b' else admit o b' header payload sender is_from_peer now

-- `none` is a dedup loop that does not end.
unfoldable pub after_answer :
    Outside → Broker → Header → Bytes → Bytes → Bool → ℕ → Option (Windows × Bool) → Option Broker
unfolding after_dedup
after_answer o b header payload sender is_from_peer now none = none
after_answer o b header payload sender is_from_peer now (some answer) =
    some (after_dedup o b header payload sender is_from_peer now answer)

-- The loop protection: a reserved key never goes through it.
unfoldable pub protect : Outside → Broker → Header → Bytes → Bytes → Bool → ℕ → Option Broker
unfolding after_answer
protect o b header payload sender is_from_peer now =
    if is_reserved_key header.handler_key
    then some (admit o b header payload sender is_from_peer now)
    else after_answer o b header payload sender is_from_peer now
        (is_duplicate b.seen header.message_uuid)

unfoldable pub process_message :
    Outside → Broker → Header → Bytes → Bytes → Bool → Bytes → ℕ → Option Broker
unfolding stamp count protect
process_message o b header payload sender is_from_peer fresh_uuid now =
    let stamped = stamp b fresh_uuid header in
    let bytes = length (encode_header o.codec stamped) + length payload in
    protect o (if is_from_peer then count b bytes else b) stamped payload sender is_from_peer now
