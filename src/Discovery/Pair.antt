-- ===== src/Discovery/Pair.antt =====
-- server/discovery.cpp: two brokers that hear each other's announcements.
use wisp.Prelude.{
  ℕ, ◌≤◌, ◌<◌, ◌≡◌, ◌≢◌, ◌⊎◌, sym, inl, inr, true, false, none, List, [], ◌∷◌, Bytes, bytes_eq,
  bytes_beq_iff, before, before_total, before_asymm, has_byte, arith, length,
}
use wisp.Prelude.Map.{lookup}
use wisp.Beacon.{Beacon, bar}
use wisp.Beacon.RoundTrip.{decode-encode}
use wisp.Discovery.{
  Discovery, PeerCall, dial, max_dialed_peers, address_of, meet, on_beacon, on_datagram, announce,
}

-- A broker whose beacons can be read.
pub record IsAnnouncing (d : Discovery) : Type 0 where
  pub cluster_plain : has_byte bar d.cluster ≡ false
  pub uuid_plain : has_byte bar d.self_uuid ≡ false
  pub router_low : 1 ≤ d.router_port
  pub router_high : d.router_port ≤ 65535
  pub tap_high : d.tap_port ≤ 65535

abbrev beacon_of : Discovery → Beacon
beacon_of d = record {
  cluster = d.cluster;
  uuid = d.self_uuid;
  router_port = d.router_port;
  tap_port = d.tap_port;
}

on_datagram-announce :
    (d e : Discovery) (ip : Bytes) (now : ℕ)
    → IsAnnouncing e
    → on_datagram d ip (announce e) now ≡ on_beacon d ip (beacon_of e) now
unfolding on_datagram announce
on_datagram-announce d e ip now v = rw (
  decode-encode e.cluster e.self_uuid e.router_port e.tap_port v.cluster_plain v.uuid_plain
      v.router_low v.router_high v.tap_high,
  on_datagram,
)

-- The calls that hearing another broker's announcement leads to.
pub heard_calls : Discovery → Discovery → Bytes → ℕ → List PeerCall
heard_calls d e ip now = (on_datagram d ip (announce e) now).1

-- The two have room for a peer, and neither knows the other yet.
pub record AreStrangers (d e : Discovery) : Type 0 where
  pub same_cluster : e.cluster ≡ d.cluster
  pub unknown : lookup e.self_uuid d.dialed ≡ none
  pub room : length d.dialed < max_dialed_peers

dials :
    (d e : Discovery) (ip : Bytes) (now : ℕ)
    → IsAnnouncing e
    → AreStrangers d e
    → before d.self_uuid e.self_uuid ≡ true
    → e.self_uuid ≢ d.self_uuid
    → heard_calls d e ip now ≡ dial e.self_uuid (address_of ip e.router_port) ∷ []
unfolding heard_calls on_beacon meet
dials d e ip now v s lt other =
    rw (on_datagram-announce d e ip now v, heard_calls)
      (ground (
        arith,
        bytes_beq_iff e.self_uuid d.self_uuid,
        bytes_beq_iff e.cluster d.cluster,
        s.same_cluster,
        s.unknown,
        s.room,
      ))

waits :
    (d e : Discovery) (ip : Bytes) (now : ℕ)
    → IsAnnouncing e
    → before d.self_uuid e.self_uuid ≡ false
    → heard_calls d e ip now ≡ []
unfolding heard_calls on_beacon
waits d e ip now v ge = rw (on_datagram-announce d e ip now v, heard_calls) (ground arith)

-- Two brokers of one cluster with different uuids, neither with the other or with 64 peers on its
-- roster, whose announcements can be read (no bar in the cluster's name or in the uuid, a router port
-- from 1 to 65535, a tap port of at most 65535), form one link when they hear each other: exactly one
-- of them dials, the other one's address.
pub one_side_dials :
    (d e : Discovery) (ip_d ip_e : Bytes) (now_d now_e : ℕ)
    → IsAnnouncing d
    → IsAnnouncing e
    → AreStrangers d e
    → AreStrangers e d
    → d.self_uuid ≢ e.self_uuid
    → (heard_calls d e ip_e now_d ≡ dial e.self_uuid (address_of ip_e e.router_port) ∷ [])
        × (heard_calls e d ip_d now_e ≡ [])
      ⊎ (heard_calls d e ip_e now_d ≡ [])
        × (heard_calls e d ip_d now_e ≡ dial d.self_uuid (address_of ip_d d.router_port) ∷ [])
one_side_dials d e ip_d ip_e now_d now_e vd ve sd se other =
    elim (before_total d.self_uuid e.self_uuid) [
      | inl lt ↦ inl (
        dials d e ip_e now_d ve sd lt (λ q. other (sym q)),
        waits e d ip_d now_e vd (before_asymm d.self_uuid e.self_uuid lt),
      )
      | inr (inl same) ↦ absurd (other same)
      | inr (inr gt) ↦ inr (
        waits d e ip_e now_d ve (before_asymm e.self_uuid d.self_uuid gt),
        dials e d ip_d now_e vd se gt other,
      )
    ]
