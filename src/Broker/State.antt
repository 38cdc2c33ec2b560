-- ===== src/Broker/State.antt =====
-- server/broker.h and server/broker.cpp: the state of the broker, what lies outside it, and the
-- small steps that its handlers share.
use wisp.Prelude.{
  ℕ, ◌+◌, ◌%◌, ◌^◌, Bool, true, false, Option, none, some, List, [], ◌∷◌, Bytes, bytes_eq,
  if◌then◌else◌,
}
use wisp.Prelude.Map.{Map, lookup, insert, erase}
use wisp.Keys.{Origin}
use wisp.Registry.{Registry, empty, has_mesh_subscriber, subscriptions_of, remove_client}
use wisp.Dedup.{Windows, initial}
use wisp.Wire.{Header, Envelope, WireMessage, Codec}
use wisp.Interest.{Links, note_mesh_interest_change}
use wisp.Discovery.{Discovery}

pub record ClientState : Type 0 where
  pub last_seen : ℕ
  pub dropped_messages : ℕ

-- A group that the ROUTER socket took: its identity frame, header and payload.
pub record Sent : Type 0 where
  pub to : Bytes
  pub header : Header
  pub payload : Bytes

-- What the broker does not decide: whether the ROUTER takes a group for a client, after all that
-- it has taken, whether a link's worker takes a message into its queue, and the header codec.
pub record Outside : Type 0 where
  pub accepts : List Sent → Bytes → Bool
  pub link_accepts : Bytes → List WireMessage → Bool
  pub codec : Codec

-- What was sent and tapped stands with the newest first.
pub record Broker : Type 0 where
  pub broker_id : Bytes
  pub client_timeout : ℕ
  pub clients : Map ClientState
  pub subscriptions : Registry
  pub links : Links
  pub seen : Windows
  pub cluster_name : Bytes
  pub discovery : Option Discovery
  pub total_messages : ℕ
  pub total_dropped : ℕ
  pub rejected_subscriptions : ℕ
  pub msgs_interval : ℕ
  pub bytes_interval : ℕ
  pub sent : List Sent
  pub tapped : List Envelope

-- The constructor, for a broker with no discovery and no peers yet.
abbrev pub start : Bytes → ℕ → Broker
start broker_id client_timeout = record {
  broker_id = broker_id;
  client_timeout = client_timeout;
  clients = [];
  subscriptions = empty;
  links = record {
    demand = record { interest = []; saturated = false; wildcard = false };
    peers = [];
  };
  seen = initial;
  cluster_name = [];
  discovery = none;
  total_messages = 0;
  total_dropped = 0;
  rejected_subscriptions = 0;
  msgs_interval = 0;
  bytes_interval = 0;
  sent = [];
  tapped = [];
}

-- `uint64_t` counters.
abbrev pub plus64 : ℕ → ℕ → ℕ
plus64 n k = (n + k) % 2 ^ 64

-- `Wire::sendTo`
unfoldable pub send_to : Outside → Broker → Bytes → Header → Bytes → Broker × Bool
send_to o b to header payload =
    if o.accepts b.sent to
    then (record b { sent = record { to = to; header = header; payload = payload } ∷ b.sent }, true)
    else (b, false)

unfoldable pub note_dropped_to : Broker → Bytes → Broker
note_dropped_to b client = elim (lookup client b.clients) [
  | none ↦ record b { total_dropped = plus64 b.total_dropped 1 }
  | some c ↦ record b {
    clients = insert client (record c { dropped_messages = plus64 c.dropped_messages 1 }) b.clients;
    total_dropped = plus64 b.total_dropped 1;
  }
]

-- The topics of a client that some subscriber, it or another, wants from the mesh.
unfoldable pub mesh_topics : Registry → Map Origin → List Bytes
mesh_topics r [] = []
mesh_topics r ((topic, scope) ∷ held) =
    let rest = mesh_topics r held in if has_mesh_subscriber r topic then topic ∷ rest else rest

-- `for (topic : meshTopics) noteMeshInterestChange(topic, true)`
unfoldable pub revisit : Registry → List Bytes → Links → Links
revisit r [] l = l
revisit r (topic ∷ topics) l =
    revisit r topics (note_mesh_interest_change l topic true (has_mesh_subscriber r topic))

abbrev pub held_topics : Registry → Bytes → Map Origin
held_topics r client = elim (subscriptions_of r client) [ none ↦ [] | some held ↦ held ]

unfoldable pub forget_client : Broker → Bytes → Broker
unfolding mesh_topics revisit
forget_client b client =
    let after = remove_client b.subscriptions client in
    record b {
      subscriptions = after;
      clients = erase client b.clients;
      links =
          revisit after (mesh_topics b.subscriptions (held_topics b.subscriptions client)) b.links;
    }
