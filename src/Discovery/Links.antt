-- ===== src/Discovery/Links.antt =====
-- server/discovery.cpp: which links the two threads leave open.
use wisp.Prelude.{
  ℕ, ◌≡◌, refl, ap, inl, inr, Bool-cases, true, false, not, ◌&&◌, ◌||◌, Bool, List, [], ◌∷◌, ◌++◌,
  ◌==◌, Bytes, bytes_eq, if◌then◌else◌, arith, length, ◌≤◌,
}
use wisp.Prelude.Map.{lookup, keys, contains}
use wisp.Discovery.{
  Discovery, PeerCall, dial, drop, max_dialed_peers, on_datagram, drops, expire_stale,
}
use wisp.Discovery.Roster.{
  open_after, listed, listed-keys, IsRoster, Keeps, on_datagram-Keeps, set_cluster-Keeps,
  set_cluster_cases, expire_stale-Keeps, contains-live,
}
use wisp.Discovery.Threads.{
  Event, hears, joins, drops_next, ticks, Threads, to_drop, made, drop_first, step, run, none_owed,
  is_undisturbed, undisturbed, idle,
}

-- Calls treat what is open and what is on the roster alike.
open_after-le :
    (links others : Bytes → Bool) (calls : List PeerCall) (u : Bytes) (x : Bool)
    → (not (links u) || (others u || x)) ≡ true
    → (not (open_after links calls u) || (open_after others calls u || x)) ≡ true
unfolding open_after
open_after-le links others [] u x h = h
open_after-le links others (dial uuid address ∷ calls) u x h =
    open_after-le (λ v. if uuid == v then true else links v)
      (λ v. if uuid == v then true else others v) calls u x (ground (arith, h))
open_after-le links others (drop uuid ∷ calls) u x h =
    open_after-le (λ v. if uuid == v then false else links v)
      (λ v. if uuid == v then false else others v) calls u x (ground (arith, h))

to_drop-drops : (uuids : List Bytes) → to_drop (drops uuids) ≡ uuids
unfolding to_drop drops
to_drop-drops [] = refl
to_drop-drops (x ∷ uuids) = rw (to_drop-drops uuids) refl

listed-append :
    (xs ys : List Bytes) (u : Bytes) → listed (xs ++ ys) u ≡ (listed xs u || listed ys u)
listed-append [] ys u = refl
listed-append (x ∷ xs) ys u = ground (arith, listed-append xs ys u)

-- Every open link is on the roster or about to be dropped.
abbrev pub NoneLost : Threads → Bytes → Type 0
NoneLost t u = (not (t.links u) || (contains u t.roster.dialed || listed t.owed u)) ≡ true

-- Every peer on the roster has its link, and none is about to be dropped.
abbrev pub AllLinked : Threads → Bytes → Type 0
AllLinked t u =
    ((not (contains u t.roster.dialed) || t.links u) ≡ true)
    × ((contains u t.roster.dialed && listed t.owed u) ≡ false)

none_owed-listed : (owed : List Bytes) (u : Bytes) → none_owed owed ≡ true → listed owed u ≡ false
none_owed-listed [] u h = refl
none_owed-listed (x ∷ owed) u h = ground (arith, h)

module _ (t : Threads) (u : Bytes) where
  made-NoneLost :
      (r : Discovery × List PeerCall) → Keeps t.roster r → NoneLost t u → NoneLost (made t r) u
  made-NoneLost r k h = ground (
    arith,
    open_after-le t.links (λ v. contains v t.roster.dialed) r.1 u (listed t.owed u) h,
    k.tracks (λ v. contains v t.roster.dialed) (λ v. refl) u,
  )

  made-linked :
      (r : Discovery × List PeerCall)
      → Keeps t.roster r
      → (not (contains u t.roster.dialed) || t.links u) ≡ true
      → (not (contains u r.0.dialed) || open_after t.links r.1 u) ≡ true
  made-linked r k h = ground (
    arith,
    open_after-le (λ v. contains v t.roster.dialed) t.links r.1 u false (ground (arith, h)),
    k.tracks (λ v. contains v t.roster.dialed) (λ v. refl) u,
  )

  joins-NoneLost : (cluster : Bytes) → NoneLost t u → NoneLost (step t (joins cluster)) u
  unfolding step
  joins-NoneLost cluster h = elim (set_cluster_cases t.roster cluster) [
    | inl e ↦ rw e (ground (arith, h, listed-append t.owed [] u))
    | inr e ↦
        rw (e, to_drop-drops (keys t.roster.dialed))
          (ground (
            arith,
            h,
            listed-append t.owed (keys t.roster.dialed) u,
            listed-keys t.roster.dialed u,
          ))
  ]

  joins-AllLinked : (cluster : Bytes) → AllLinked t u → AllLinked (step t (joins cluster)) u
  unfolding step to_drop
  joins-AllLinked cluster h = elim (set_cluster_cases t.roster cluster) [
    | inl e ↦ rw e (h.0, ground (arith, h.1, listed-append t.owed [] u))
    | inr e ↦ rw e (unfold contains lookup in (refl, refl))
  ]

  ticks-AllLinked : (now : ℕ) → IsRoster t.roster → AllLinked t u → AllLinked (step t (ticks now)) u
  unfolding step expire_stale
  ticks-AllLinked now v h = (
    made-linked (expire_stale t.roster now) (expire_stale-Keeps now t.roster v) h.0,
    ground (arith, h.1, contains-live now t.roster.dialed u),
  )

  hears-AllLinked :
      (sender_ip data' : Bytes) (now : ℕ)
      → IsRoster t.roster
      → none_owed t.owed ≡ true
      → AllLinked t u
      → AllLinked (step t (hears sender_ip data' now)) u
  unfolding step
  hears-AllLinked sender_ip data' now v quiet h = (
    made-linked (on_datagram t.roster sender_ip data' now)
        (on_datagram-Keeps t.roster sender_ip data' now v) h.0,
    ground (arith, none_owed-listed t.owed u quiet),
  )

  drop_first-NoneLost :
      (owed : List Bytes) → t.owed ≡ owed → NoneLost t u → NoneLost (drop_first owed t) u
  unfolding drop_first open_after
  drop_first-NoneLost [] e h = h
  drop_first-NoneLost (uuid ∷ owed) e h = ground (arith, h, ap (λ l. listed l u) e)

  drop_first-AllLinked :
      (owed : List Bytes) → t.owed ≡ owed → AllLinked t u → AllLinked (drop_first owed t) u
  unfolding drop_first open_after
  drop_first-AllLinked [] e h = h
  drop_first-AllLinked (uuid ∷ owed) e h =
      (ground (arith, h, ap (λ l. listed l u) e), ground (arith, h, ap (λ l. listed l u) e))

drop_first-IsRoster :
    (t : Threads) (owed : List Bytes) → IsRoster t.roster → IsRoster (drop_first owed t).roster
unfolding drop_first
drop_first-IsRoster t [] v = v
drop_first-IsRoster t (uuid ∷ owed) v = v

step-IsRoster : (t : Threads) (e : Event) → IsRoster t.roster → IsRoster (step t e).roster
unfolding step
step-IsRoster t (hears sender_ip data' now) v =
    (on_datagram-Keeps t.roster sender_ip data' now v).roster
step-IsRoster t (joins cluster) v = (set_cluster-Keeps t.roster cluster v).roster
step-IsRoster t drops_next v = drop_first-IsRoster t t.owed v
step-IsRoster t (ticks now) v = (expire_stale-Keeps now t.roster v).roster

step-NoneLost :
    (t : Threads) (u : Bytes) (e : Event) → IsRoster t.roster → NoneLost t u → NoneLost (step t e) u
unfolding step
step-NoneLost t u (hears sender_ip data' now) v h =
    made-NoneLost t u _ (on_datagram-Keeps t.roster sender_ip data' now v) h
step-NoneLost t u (joins cluster) v h = unfold step in joins-NoneLost t u cluster h
step-NoneLost t u drops_next v h = drop_first-NoneLost t u t.owed refl h
step-NoneLost t u (ticks now) v h = made-NoneLost t u _ (expire_stale-Keeps now t.roster v) h

step-AllLinked :
    (t : Threads) (u : Bytes) (e : Event)
    → IsRoster t.roster
    → is_undisturbed t.owed e ≡ true
    → AllLinked t u
    → AllLinked (step t e) u
unfolding step
step-AllLinked t u (hears sender_ip data' now) v quiet h =
    unfold step in hears-AllLinked t u sender_ip data' now v quiet h
step-AllLinked t u (joins cluster) v quiet h = unfold step in joins-AllLinked t u cluster h
step-AllLinked t u drops_next v quiet h = drop_first-AllLinked t u t.owed refl h
step-AllLinked t u (ticks now) v quiet h = unfold step in ticks-AllLinked t u now v h

-- What holds after a run, whatever comes between a change of the cluster and its drop calls.
run-NoneLost :
    (t : Threads) (u : Bytes) (events : List Event)
    → IsRoster t.roster
    → NoneLost t u
    → IsRoster (run t events).roster × NoneLost (run t events) u
unfolding run
run-NoneLost t u [] v h = (v, h)
run-NoneLost t u (e ∷ events) v h =
    run-NoneLost (step t e) u events (step-IsRoster t e v) (step-NoneLost t u e v h)

run-AllLinked :
    (t : Threads) (u : Bytes) (events : List Event)
    → IsRoster t.roster
    → AllLinked t u
    → (not (undisturbed t events)
        || (not (contains u (run t events).roster.dialed) || (run t events).links u))
      ≡ true
unfolding run undisturbed
run-AllLinked t u [] v h = ground (arith, h.0)
run-AllLinked t u (e ∷ events) v h = elim (Bool-cases (is_undisturbed t.owed e)) [
  | inl quiet ↦
      rw quiet
        (run-AllLinked (step t e) u events (step-IsRoster t e v) (step-AllLinked t u e v quiet h))
  | inr noise ↦ rw noise refl
]

-- After any beacons, cluster changes and expiries, with the drop calls of a cluster change made at any
-- time after it: at most MaxDialedPeers stand on the roster, and every link that the dial and drop calls
-- leave open is to a peer on the roster or to one whose drop call is still to come. When no beacon was
-- handled before the drop calls of a cluster change were made, every peer on the roster has its link.
pub run-idle-Tracks :
    (cluster self_uuid : Bytes) (router_port tap_port : ℕ) (events : List Event) (u : Bytes)
    → let first = idle cluster self_uuid router_port tap_port in
      let after = run first events in
      (length after.roster.dialed ≤ max_dialed_peers)
      × ((not (after.links u) || (contains u after.roster.dialed || listed after.owed u)) ≡ true)
      × ((not (undisturbed first events) || (not (contains u after.roster.dialed) || after.links u))
          ≡ true)
run-idle-Tracks cluster self_uuid router_port tap_port events u =
    let first = idle cluster self_uuid router_port tap_port in
    let v : IsRoster first.roster = record { distinct = tt; bounded = omega arith } in
    let (k, n) = run-NoneLost first u events v refl in
    (k.bounded, n, run-AllLinked first u events v (unfold contains lookup in (refl, refl)))
