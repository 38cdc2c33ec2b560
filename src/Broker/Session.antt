-- ===== src/Broker/Session.antt =====
-- server/broker.cpp, `handleClientMessage`: keep-alive, the unknown session's RESET, and the
-- (un)subscribe, disconnect and cluster-swap keys of local clients.
use wisp.Prelude.{
  ℕ, Bool, true, false, not, ◌&&◌, ◌||◌, none, some, List, [], ◌∷◌, ◌==◌, ltb, Bytes, bytes_eq,
  codes, starts_with, if◌then◌else◌, length,
}
use wisp.Prelude.Map.{Map, lookup, insert, contains}
use wisp.Keys
use wisp.Keys.{decode_subscribe_scope}
use wisp.Registry
use wisp.Registry.{has_mesh_subscriber, subscriptions_of}
use wisp.Wire.{Header, make_control_header}
use wisp.Interest.{note_mesh_interest_change}
use wisp.Beacon.{is_valid_cluster_name}
use wisp.Discovery
use wisp.Discovery.{Discovery, PeerCall, drop, dial}
use wisp.Broker.Dialing.{enter_cluster}
use wisp.Broker.State.{Broker, ClientState, Outside, send_to, forget_client, plus64}

abbrev pub max_topic_length_bytes : ℕ
max_topic_length_bytes = 512

abbrev pub max_subscriptions_per_client : ℕ
max_subscriptions_per_client = 10000

-- A topic that is held already always passes.
unfoldable pub can_subscribe : Broker → Bytes → Bytes → Bool
can_subscribe b client topic = elim (subscriptions_of b.subscriptions client) [
  | none ↦ true
  | some topics ↦ contains topic topics || ltb (length topics) max_subscriptions_per_client
]

unfoldable pub note_rejected_subscription : Broker → Broker
note_rejected_subscription b = record b {
  rejected_subscriptions = plus64 b.rejected_subscriptions 1;
}

-- The registry after a change of one topic, with what that means for the links.
unfoldable pub with_registry : Broker → Bytes → Registry.Registry × Bool → Broker
with_registry b topic (r, changed) =
    if changed
    then record b {
      subscriptions = r;
      links =
          note_mesh_interest_change b.links topic (has_mesh_subscriber b.subscriptions topic)
            (has_mesh_subscriber r topic);
    }
    else record b { subscriptions = r }

unfoldable pub on_subscribe : Broker → Bytes → Bytes → Bytes → Broker
unfolding can_subscribe note_rejected_subscription with_registry
on_subscribe b client topic payload =
    if topic == []
    then b
    else if ltb max_topic_length_bytes (length topic)
    then note_rejected_subscription b
    else if not (can_subscribe b client topic)
    then note_rejected_subscription b
    else with_registry b topic
        (Registry.subscribe b.subscriptions client topic (decode_subscribe_scope payload))

unfoldable pub on_unsubscribe : Broker → Bytes → Bytes → Broker
unfolding with_registry
on_unsubscribe b client topic =
    with_registry b topic (Registry.unsubscribe b.subscriptions client topic)

abbrev pub broker_link : Bytes
broker_link = codes "BrokerLink-"

-- The clients that are links dialed by other brokers.
unfoldable pub inbound_links : Map ClientState → List Bytes
inbound_links [] = []
inbound_links ((client, state) ∷ clients) =
    let rest = inbound_links clients in
    if starts_with broker_link client then client ∷ rest else rest

unfoldable pub unlink_each : Outside → List Bytes → Broker → Broker
unlink_each o [] b = b
unlink_each o (client ∷ rest) b = unlink_each o rest (
    forget_client (send_to o b client (make_control_header Keys.unlink b.broker_id []) []).0 client)

unfoldable pub unlink_inbound_peers : Outside → Broker → Broker
unfolding inbound_links unlink_each
unlink_inbound_peers o b = unlink_each o (inbound_links b.clients) b

unfoldable pub on_set_cluster : Outside → Broker → Bytes → Broker
unfolding unlink_inbound_peers enter_cluster
on_set_cluster o b name = if not (is_valid_cluster_name name) then b else elim b.discovery [
  | none ↦ b
  | some d ↦
      if name == b.cluster_name
      then b
      else enter_cluster (unlink_inbound_peers o (record b { cluster_name = name }))
          (Discovery.set_cluster d name)
]

-- `client.lastSeen = now` on the entry, which is made if missing.
unfoldable pub touch : Broker → Bytes → ℕ → Broker
touch b client now = elim (lookup client b.clients) [
  | none ↦ record b {
    clients = insert client (record { last_seen = now; dropped_messages = 0 }) b.clients;
  }
  | some c ↦ record b { clients = insert client (record c { last_seen = now }) b.clients }
]

-- An unknown session that does not lead with CONNECT is asked to rebuild.
unfoldable pub greet : Outside → Broker → Bytes → Bytes → ℕ → Broker
unfolding touch
greet o b client key now =
    let known = touch b client now in
    if not (contains client b.clients) && not (key == Keys.connect)
    then (send_to o known client (make_control_header Keys.reset b.broker_id []) []).0
    else known

-- The keys that follow the greeting; the Boolean says that the message was fully handled.
unfoldable pub dispatch : Outside → Broker → Header → Bytes → Bytes → Broker × Bool
unfolding on_subscribe on_unsubscribe on_set_cluster
dispatch o b header payload client =
    let key = header.handler_key in
    if key == Keys.connect
    then (b, true)
    else if key == Keys.heartbeat
    then ((send_to o b client (make_control_header Keys.heartbeat_ack b.broker_id []) []).0, true)
    else if key == Keys.subscribe
    then (on_subscribe b client header.topic payload, true)
    else if key == Keys.unsubscribe
    then (on_unsubscribe b client header.topic, true)
    else if key == Keys.set_cluster
    then (on_set_cluster o b payload, true)
    else (b, false)

unfoldable pub handle_client_message : Outside → Broker → Header → Bytes → Bytes → ℕ → Broker × Bool
unfolding greet dispatch
handle_client_message o b header payload client now =
    if header.handler_key == Keys.disconnect
    then (forget_client b client, true)
    else dispatch o (greet o b client header.handler_key now) header payload client
