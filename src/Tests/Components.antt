-- ===== src/Tests/Components.antt =====
-- Keys, header frames, beacons, discovery, queues and recordings at concrete inputs.
use wisp.Prelude.{
  not, ◌||◌, before, ◌≡◌, ◌≢◌, ◌⊎◌, refl, true, false, Bool, Option, none, some, List, [], ◌∷◌,
  ◌++◌, ◌==◌, bytes_eq, Bytes, ℕ, ◌≤◌, ◌<◌, length, codes, arith, if◌then◌else◌, has_byte,
}
use wisp.Prelude.Map.{lookup, contains}
use wisp.Keys.{
  origin_eq, decode_subscribe_scope, encode_subscribe_scope, Origin, is_control_message,
  is_reserved_key, heartbeat, scope_accepts, widen,
}
use wisp.Keys.Scope.{is_control_message-reserved, decode-encode_subscribe_scope}
use wisp.Beacon.{Beacon, parse_peer_list, encode, decode, parse_port, to_string, is_digit}
use wisp.Beacon.Port.{parse_port-to_string}
use wisp.Beacon.RoundTrip.{decode-encode, decode-IsUsable, IsUsable}
use wisp.Discovery.{Discovery, PeerEntry, dial, start, address_of, max_dialed_peers}
use wisp.Discovery.Roster.{listed}
use wisp.Discovery.Links.{run-idle-Tracks}
use wisp.Discovery.Threads.{Event, Threads, run, idle, undisturbed}
use wisp.Discovery.Race.{crossed, race_drops_dialed}
use wisp.Discovery.Pair.{heard_calls, one_side_dials}
use wisp.Queue.{Patience}
use wisp.Queue.Trace
use wisp.Queue.Trace.{Call, unused, fifo}
use wisp.Tests.Fixtures.{alice, bob}

is_control_message-reserved_example : is_reserved_key heartbeat ≡ true
unfolding is_control_message wisp.Keys.is_system_packet wisp.Prelude.bytes_beq
is_control_message-reserved_example = is_control_message-reserved heartbeat refl

decode-encode_subscribe_scope_example :
    decode_subscribe_scope (encode_subscribe_scope Origin.local)
    ≡ (if Origin.local == Origin.nowhere then Origin.any else Origin.local)
decode-encode_subscribe_scope_example = decode-encode_subscribe_scope Origin.local

abbrev lab : Bytes
lab = codes "lab"

decode-encode_example :
    decode (encode lab alice 5555 5556)
    ≡ some (record { cluster = lab; uuid = alice; router_port = 5555; tap_port = 5556 })
unfolding has_byte
decode-encode_example =
    decode-encode lab alice 5555 5556 refl refl (omega arith) (omega arith) (omega arith)

decode-IsUsable_example :
    IsUsable (record { cluster = lab; uuid = alice; router_port = 5555; tap_port = 5556 })
unfolding has_byte
decode-IsUsable_example =
    decode-IsUsable (encode lab alice 5555 5556) _
      (decode-encode lab alice 5555 5556 refl refl (omega arith) (omega arith) (omega arith))

parse_port-to_string_example : parse_port (to_string 80 ++ codes "abc") false ≡ some 80
unfolding is_digit
parse_port-to_string_example =
    parse_port-to_string 80 (codes "abc") false refl (omega arith) (omega arith)

-- Bob is heard, the cluster changes, and he is dropped after that.
abbrev moves : List Event
moves =
    Event.hears (codes "10.0.0.2") (encode lab bob 5555 5556) 1
    ∷ Event.joins (codes "hall")
    ∷ Event.drops_next
    ∷ Event.ticks 9
    ∷ []

run-idle-Tracks_example :
    let first = idle lab alice 5555 5556 in
    let after = run first moves in
    (length after.roster.dialed ≤ max_dialed_peers)
    × ((not (after.links bob) || (contains bob after.roster.dialed || listed after.owed bob))
        ≡ true)
    × ((not (undisturbed first moves)
          || (not (contains bob after.roster.dialed) || after.links bob))
        ≡ true)
run-idle-Tracks_example = run-idle-Tracks lab alice 5555 5556 moves bob

abbrev known_bob : PeerEntry
known_bob = record { address = codes "tcp://10.0.0.2:5555"; last_seen = 1 }

-- Alice's threads, with a link to bob.
abbrev linked_bob : Threads
linked_bob = record {
  roster = record (start lab alice 5555 5556) { dialed = (bob, known_bob) ∷ [] };
  links = λ u. u == bob;
  owed = [];
}

abbrev bob_in_hall : Beacon
bob_in_hall = record { cluster = codes "hall"; uuid = bob; router_port = 5555; tap_port = 5556 }

moved_facts : ((codes "hall" == lab) ≡ false) × ((bob == alice) ≡ false) × (before alice bob ≡ true)
unfolding wisp.Prelude.bytes_beq before
moved_facts = (refl, refl, refl)

race_drops_dialed_example :
    let after =
      crossed linked_bob
        (codes "hall")
        (codes "10.0.0.2")
        (encode (codes "hall") bob 5555 5556)
        bob_in_hall
        2
        known_bob
        [] in
    (contains bob after.roster.dialed ≡ true) × (after.links bob ≡ false)
unfolding has_byte
race_drops_dialed_example =
    race_drops_dialed linked_bob (codes "hall") (codes "10.0.0.2")
      (encode (codes "hall") bob 5555 5556) bob_in_hall 2 known_bob [] moved_facts.0 refl refl
      (decode-encode (codes "hall") bob 5555 5556 refl refl (omega arith) (omega arith)
        (omega arith))
      moved_facts.1 moved_facts.2 refl

abbrev here : Discovery
here = start lab alice 5555 5556

abbrev there : Discovery
there = start lab bob 6666 6667

one_side_dials_example :
    (heard_calls here there (codes "10.0.0.2") 1
        ≡ dial bob (address_of (codes "10.0.0.2") 6666) ∷ [])
      × (heard_calls there here (codes "10.0.0.1") 1 ≡ [])
    ⊎ (heard_calls here there (codes "10.0.0.2") 1 ≡ [])
      × (heard_calls there here (codes "10.0.0.1") 1
          ≡ dial alice (address_of (codes "10.0.0.1") 5555) ∷ [])
unfolding has_byte lookup
one_side_dials_example =
    one_side_dials here there (codes "10.0.0.1") (codes "10.0.0.2") 1 1
      (record {
        cluster_plain = refl;
        uuid_plain = refl;
        router_low = omega arith;
        router_high = omega arith;
        tap_high = omega arith;
      })
      (record {
        cluster_plain = refl;
        uuid_plain = refl;
        router_low = omega arith;
        router_high = omega arith;
        tap_high = omega arith;
      })
      (record { same_cluster = refl; unknown = refl; room = omega arith })
      (record { same_cluster = refl; unknown = refl; room = omega arith }) (λ e. cc)

abbrev calls : List (Call ℕ)
calls = Call.pushes 7 Patience.forever ∷ Call.pushes 8 Patience.forever ∷ Call.pops ∷ []

fifo_example :
    let l = Trace.run (unused ℕ 2) calls in
    (l.taken ++ l.queue.queue ≡ l.accepted) × (length l.queue.queue ≤ l.queue.max_size)
fifo_example = fifo ℕ 2 calls

-- An empty entry, and spaces around two others.
parse_peer_list_test :
    parse_peer_list (codes " tcp://a:5555 ,,ipc:///b  ")
    ≡ codes "tcp://a:5555" ∷ codes "ipc:///b" ∷ []
unfolding parse_peer_list wisp.Prelude.bytes_beq
parse_peer_list_test = refl
