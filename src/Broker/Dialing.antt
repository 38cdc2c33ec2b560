-- ===== src/Broker/Dialing.antt =====
-- server/broker.cpp: discovery's part in the broker. `enableDiscovery` and `start` set it up, and its
-- dial and drop calls add and remove links (`peerLinkId`, `parseTcpPort`).
use wisp.Prelude.{
  ℕ, zero, suc, ◌+◌, ◌-◌, ◌*◌, ◌/◌, ◌%◌, ◌^◌, false, not, Option, none, some, List, [], ◌∷◌, ◌++◌,
  ◌==◌, nat_eq, ltb, Bytes, bytes_eq, codes, starts_with, take, if◌then◌else◌,
}
use wisp.Dedup.{fnv}
use wisp.Interest.{Links, add_peer, remove_peer}
use wisp.Beacon.{parse_port, is_valid_cluster_name}
use wisp.Discovery
use wisp.Discovery.{Discovery, PeerCall, drop, dial, on_datagram, expire_stale}
use wisp.Broker.State.{Broker}

abbrev pub hex_char : ℕ → ℕ
hex_char n = if ltb n 10 then 48 + n else 87 + n

-- `hexChars[(hash >> (60 - i * 4)) & 0xf]`, for so many digits from the i-th on.
unfoldable pub hex_digits : ℕ → ℕ → ℕ → Bytes
hex_digits zero i hash = []
hex_digits (suc n) i hash = hex_char (hash / 2 ^ (60 - i * 4) % 16) ∷ hex_digits n (i + 1) hash

unfoldable pub peer_link_id : Bytes → Bytes → Bytes
unfolding hex_digits
peer_link_id broker_id key =
    codes "BrokerLink-"
    ++ take 8 broker_id
    ++ codes "-"
    ++ hex_digits 8 0 (fnv 1099511628211 14695981039346656037 key)

-- What follows the last of these bytes.
unfoldable pub after_last : ℕ → Bytes → Option Bytes
after_last c [] = none
after_last c (x ∷ s) = elim (after_last c s) [
  | none ↦ if x == c then some s else none
  | some t ↦ some t
]

unfoldable pub tcp_port_of : Bytes → Option ℕ
unfolding after_last
tcp_port_of address =
    if starts_with (codes "tcp://") address
    then elim (after_last 58 address) [ none ↦ none | some text ↦ parse_port text false ]
    else none

-- The first usable port, or 0.
unfoldable pub parse_tcp_port : List Bytes → ℕ
unfolding tcp_port_of
parse_tcp_port [] = 0
parse_tcp_port (address ∷ addresses) = elim (tcp_port_of address) [
  | none ↦ parse_tcp_port addresses
  | some port ↦ port
]

-- `m_discoveryEnabled` is set together with the name, which is never empty then.
unfoldable pub enable_discovery : Broker → Bytes → Broker
enable_discovery b cluster =
    if not (is_valid_cluster_name cluster) then b else record b { cluster_name = cluster }

unfoldable pub start_discovery : Broker → List Bytes → ℕ → Broker
unfolding parse_tcp_port
start_discovery b addresses tap_port =
    let router_port = parse_tcp_port addresses in
    if b.cluster_name == [] then b else if router_port == 0 then b else record b {
      discovery = some (Discovery.start b.cluster_name b.broker_id router_port tap_port);
    }

-- The calls that discovery makes: `addPeer(uuid, address)` and `removePeer(uuid)`.
unfoldable pub apply_calls : Bytes → List PeerCall → Links → Links
unfolding peer_link_id
apply_calls broker_id [] l = l
apply_calls broker_id (drop uuid ∷ calls) l =
    apply_calls broker_id calls (remove_peer l broker_id uuid).0
apply_calls broker_id (dial uuid address ∷ calls) l =
    apply_calls broker_id calls (add_peer l uuid address (peer_link_id broker_id uuid))

-- The state of discovery after a step of it, with its calls carried out.
unfoldable pub enter_cluster : Broker → Discovery × List PeerCall → Broker
unfolding apply_calls
enter_cluster b (d, calls) = record b {
  discovery = some d;
  links = apply_calls b.broker_id calls b.links;
}

unfoldable pub hear : Broker → Bytes → Bytes → ℕ → Broker
unfolding enter_cluster
hear b sender_ip datagram now = elim b.discovery [
  | none ↦ b
  | some d ↦ enter_cluster b (on_datagram d sender_ip datagram now)
]

unfoldable pub expire : Broker → ℕ → Broker
unfolding enter_cluster
expire b now = elim b.discovery [ none ↦ b | some d ↦ enter_cluster b (expire_stale d now) ]
