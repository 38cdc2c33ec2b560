-- ===== src/Discovery/Race.antt =====
-- server/discovery.cpp: a beacon between `setCluster` and its drop calls.
use wisp.Prelude.{
  ◌≡◌, refl, true, false, some, [], ◌∷◌, ◌==◌, Bytes, bytes_eq, bytes_beq_iff, before, ℕ, arith,
}
use wisp.Prelude.Map.{Map, lookup, contains, keys, insert}
use wisp.Beacon
use wisp.Beacon.{Beacon}
use wisp.Discovery.{
  Discovery, PeerEntry, address_of, dial, drop, on_beacon, on_datagram, meet, set_cluster, drops,
}
use wisp.Discovery.Roster.{open_after}
use wisp.Discovery.Threads.{Threads, Event, to_drop, drop_first, step, run}

module _ (t : Threads) (cluster sender_ip data' : Bytes) (heard : Beacon) (now : ℕ)
    (entry : PeerEntry) (others : Map PeerEntry) where
  abbrev emptied : Discovery
  emptied = record t.roster { cluster = cluster; dialed = [] }

  abbrev known_as : PeerEntry
  known_as = record { address = address_of sender_ip heard.router_port; last_seen = now }

  abbrev remet : Discovery
  remet = record t.roster { cluster = cluster; dialed = (heard.uuid, known_as) ∷ [] }

  module _ (is : Beacon.decode data' ≡ some heard)
      (other : (heard.uuid == t.roster.self_uuid) ≡ false)
      (lt : before t.roster.self_uuid heard.uuid ≡ true) (same : heard.cluster ≡ cluster) where
    meets : on_datagram emptied sender_ip data' now ≡ (remet, dial heard.uuid known_as.address ∷ [])
    unfolding on_datagram on_beacon meet lookup insert
    meets =
        rw (is, on_datagram)
          (rw (other, lt) (ground (arith, bytes_beq_iff heard.cluster cluster, same)))

    refreshes : on_datagram remet sender_ip data' now ≡ (remet, [])
    unfolding on_datagram on_beacon meet lookup insert
    refreshes =
        rw (is, on_datagram)
          (rw (other, lt)
            (ground (
              arith,
              bytes_beq_iff heard.cluster cluster,
              same,
              bytes_beq_iff heard.uuid heard.uuid,
            )))

    clears :
        (cluster == t.roster.cluster) ≡ false
        → t.roster.dialed ≡ (heard.uuid, entry) ∷ others
        → set_cluster t.roster cluster ≡ (emptied, drop heard.uuid ∷ drops (keys others))
    unfolding set_cluster drops keys
    clears moved first = rw (moved, first) refl

  -- The broker's cluster is changed while this peer is the first on its roster; the peer, which has
  -- changed its cluster too, is heard before it is dropped, and once more afterwards.
  abbrev pub crossed : Threads
  crossed = run t (
      Event.joins cluster
      ∷ Event.hears sender_ip data' now
      ∷ Event.drops_next
      ∷ Event.hears sender_ip data' now
      ∷ [])

  -- A peer that stands first on the roster while no drop call is owed, whose uuid is the larger one, and
  -- that is heard in the new cluster between the change of the cluster and its drop call: it ends without
  -- a link though it is on the roster, and its next beacon does not dial it.
  pub race_drops_dialed :
      (cluster == t.roster.cluster) ≡ false
      → t.roster.dialed ≡ (heard.uuid, entry) ∷ others
      → t.owed ≡ []
      → Beacon.decode data' ≡ some heard
      → (heard.uuid == t.roster.self_uuid) ≡ false
      → before t.roster.self_uuid heard.uuid ≡ true
      → heard.cluster ≡ cluster
      → (contains heard.uuid crossed.roster.dialed ≡ true) × (crossed.links heard.uuid ≡ false)
  unfolding run step to_drop drop_first open_after contains lookup
  race_drops_dialed moved first idle is other lt same =
      rw
        (
          clears is other lt same moved first,
          idle,
          meets is other lt same,
          refreshes is other lt same,
        )
        (ground (arith, bytes_beq_iff heard.uuid heard.uuid))
