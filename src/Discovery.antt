-- ===== src/Discovery.antt =====
-- server/discovery.cpp: which peers a broker dials, refreshes and drops by their beacons. Time is
-- an argument, in milliseconds; the calls of the dial and drop functions are the results.
pub mod Roster
pub mod Threads
pub mod Links
pub mod Race
pub mod Pair
use wisp.Prelude.{
  ℕ, ◌+◌, ◌-◌, ◌*◌, Bool, true, false, not, Option, none, some, List, [], ◌∷◌, ◌++◌, ◌==◌, ltb, leb,
  Bytes, bytes_eq, codes, before, if◌then◌else◌, length,
}
use wisp.Prelude.Map.{Map, lookup, insert, erase, keys}
use wisp.Beacon
use wisp.Beacon.{Beacon, to_string}

pub record PeerEntry : Type 0 where
  pub address : Bytes
  pub last_seen : ℕ

pub record Discovery : Type 0 where
  pub cluster : Bytes
  pub self_uuid : Bytes
  pub router_port : ℕ
  pub tap_port : ℕ
  pub dialed : Map PeerEntry

-- `m_dial(uuid, address)` and `m_drop(uuid)`.
pub data PeerCall : Type 0 where
  dial : Bytes → Bytes → PeerCall
  drop : Bytes → PeerCall

abbrev pub max_dialed_peers : ℕ
max_dialed_peers = 64

abbrev pub beacon_interval : ℕ
beacon_interval = 1000

-- `BeaconInterval * MissedBeaconsBeforeDrop`
abbrev pub peer_timeout : ℕ
peer_timeout = beacon_interval * 5

abbrev pub start : Bytes → Bytes → ℕ → ℕ → Discovery
start cluster self_uuid router_port tap_port = record {
  cluster = cluster;
  self_uuid = self_uuid;
  router_port = router_port;
  tap_port = tap_port;
  dialed = [];
}

unfoldable pub address_of : Bytes → ℕ → Bytes
address_of sender_ip port = codes "tcp://" ++ (sender_ip ++ (b':' ∷ to_string port))

-- A new peer is dialed while there is room, a known one is refreshed.
unfoldable pub meet : Discovery → Bytes → PeerEntry → Discovery × List PeerCall
meet d uuid entry = elim (lookup uuid d.dialed) [
  | none ↦
      if leb max_dialed_peers (length d.dialed)
      then (d, [])
      else (record d { dialed = insert uuid entry d.dialed }, dial uuid entry.address ∷ [])
  | some known ↦ (record d { dialed = insert uuid entry d.dialed }, [])
]

-- What is done with a decoded beacon.
unfoldable pub on_beacon : Discovery → Bytes → Beacon → ℕ → Discovery × List PeerCall
unfolding address_of meet
on_beacon d sender_ip heard now =
    if heard.uuid == d.self_uuid
    then (d, [])
    else if not (before d.self_uuid heard.uuid)
    then (d, [])
    else if not (heard.cluster == d.cluster)
    then (d, [])
    else meet d heard.uuid
        (record { address = address_of sender_ip heard.router_port; last_seen = now })

pub on_datagram : Discovery → Bytes → Bytes → ℕ → Discovery × List PeerCall
unfolding on_beacon
on_datagram d sender_ip data' now = elim (Beacon.decode data') [
  | none ↦ (d, [])
  | some heard ↦ on_beacon d sender_ip heard now
]

unfoldable pub drops : List Bytes → List PeerCall
drops [] = []
drops (uuid ∷ uuids) = drop uuid ∷ drops uuids

-- The state as the lock is released, and the calls that the thread makes after that, while beacons may
-- be heard.
pub set_cluster : Discovery → Bytes → Discovery × List PeerCall
unfolding drops
set_cluster d cluster =
    if cluster == d.cluster
    then (d, [])
    else (record d { cluster = cluster; dialed = [] }, drops (keys d.dialed))

-- `now - lastSeen > m_peerTimeout`
abbrev pub is_stale : ℕ → PeerEntry → Bool
is_stale now entry = ltb peer_timeout (now - entry.last_seen)

unfoldable pub live : ℕ → Map PeerEntry → Map PeerEntry
live now [] = []
live now ((uuid, entry) ∷ dialed) =
    let rest = live now dialed in if is_stale now entry then rest else (uuid, entry) ∷ rest

unfoldable pub lost : ℕ → Map PeerEntry → List Bytes
lost now [] = []
lost now ((uuid, entry) ∷ dialed) =
    let rest = lost now dialed in if is_stale now entry then uuid ∷ rest else rest

-- The drop calls come after the lock here too, but from the thread that hears the beacons.
pub expire_stale : Discovery → ℕ → Discovery × List PeerCall
unfolding drops live lost
expire_stale d now = (record d { dialed = live now d.dialed }, drops (lost now d.dialed))

-- The datagram that `run` broadcasts.
pub announce : Discovery → Bytes
announce d = Beacon.encode d.cluster d.self_uuid d.router_port d.tap_port
