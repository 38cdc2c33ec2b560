-- ===== src/Discovery/Threads.antt =====
-- server/discovery.cpp: the discovery thread and the thread that changes the cluster, and the links that
-- their dial and drop calls leave open.
use wisp.Prelude.{ℕ, true, false, ◌&&◌, Bool, List, [], ◌∷◌, ◌++◌, Bytes, bytes_eq}
use wisp.Discovery.{Discovery, PeerCall, dial, drop, start, on_datagram, set_cluster, expire_stale}
use wisp.Discovery.Roster.{open_after}

-- A beacon is handled under the lock, with its dial call. A change of the cluster leaves its drop calls
-- to be made one by one. An expiry is one step: no beacon is handled before its drop calls are made,
-- and what the other thread does meanwhile concerns other peers.
pub data Event : Type 0 where
  hears : Bytes → Bytes → ℕ → Event
  joins : Bytes → Event
  drops_next : Event
  ticks : ℕ → Event

-- The roster, the open links, and the peers whose drop calls are still to be made.
pub record Threads : Type 0 where
  pub roster : Discovery
  pub links : Bytes → Bool
  pub owed : List Bytes

unfoldable pub to_drop : List PeerCall → List Bytes
to_drop [] = []
to_drop (dial uuid address ∷ calls) = to_drop calls
to_drop (drop uuid ∷ calls) = uuid ∷ to_drop calls

-- The calls are made at once.
abbrev pub made : Threads → Discovery × List PeerCall → Threads
made t r = record t { roster = r.0; links = open_after t.links r.1 }

unfoldable pub drop_first : List Bytes → Threads → Threads
unfolding open_after
drop_first [] t = t
drop_first (uuid ∷ owed) t = record t { links = open_after t.links (drop uuid ∷ []); owed = owed }

unfoldable pub step : Threads → Event → Threads
unfolding to_drop drop_first open_after
step t (hears sender_ip data' now) = made t (on_datagram t.roster sender_ip data' now)
step t (joins cluster) = record t {
  roster = (set_cluster t.roster cluster).0;
  owed = t.owed ++ to_drop (set_cluster t.roster cluster).1;
}
step t drops_next = drop_first t.owed t
step t (ticks now) = made t (expire_stale t.roster now)

unfoldable pub run : Threads → List Event → Threads
unfolding step
run t [] = t
run t (e ∷ events) = run (step t e) events

abbrev pub none_owed : List Bytes → Bool
none_owed [] = true
none_owed (uuid ∷ owed) = false

abbrev pub is_undisturbed : List Bytes → Event → Bool
is_undisturbed owed (hears sender_ip data' now) = none_owed owed
is_undisturbed owed _ = true

-- No beacon is handled before the drop calls of a change of the cluster are made.
unfoldable pub undisturbed : Threads → List Event → Bool
unfolding step
undisturbed t [] = true
undisturbed t (e ∷ events) =
    let rest = undisturbed (step t e) events in is_undisturbed t.owed e && rest

abbrev pub idle : Bytes → Bytes → ℕ → ℕ → Threads
idle cluster self_uuid router_port tap_port = record {
  roster = start cluster self_uuid router_port tap_port;
  links = λ u. false;
  owed = [];
}
