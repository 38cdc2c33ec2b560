-- ===== src/Discovery/Roster.antt =====
-- server/discovery.cpp: the roster against the links that the dial and drop calls leave open, and
-- what an expiry keeps.
use wisp.Prelude.{
  ℕ, ◌≡◌, refl, ◌∙◌, inl, inr, ◌⊎◌, Bool-cases, Option-cases, true, false, not, Bool, Option, none,
  some, List, [], ◌∷◌, ◌==◌, leb, Bytes, bytes_eq, bytes_beq_iff, before, if◌then◌else◌, arith,
  length, is_some, if_both, ◌≤◌,
}
use wisp.Prelude.Map.{
  Map, lookup, keys, contains, Distinct, contains-insert, insert-Distinct, length-insert,
}
use wisp.Beacon
use wisp.Beacon.{Beacon}
use wisp.Discovery.{
  Discovery, PeerEntry, PeerCall, dial, drop, max_dialed_peers, on_beacon, on_datagram, drops, meet,
  set_cluster, is_stale, live, lost, expire_stale,
}

-- Which links are open after the calls, from those that were open before.
unfoldable pub open_after : (Bytes → Bool) → List PeerCall → Bytes → Bool
open_after links [] u = links u
open_after links (dial uuid address ∷ calls) u =
    open_after (λ v. if uuid == v then true else links v) calls u
open_after links (drop uuid ∷ calls) u =
    open_after (λ v. if uuid == v then false else links v) calls u

abbrev pub listed : List Bytes → Bytes → Bool
listed [] u = false
listed (x ∷ xs) u = if x == u then true else listed xs u

open_after-drops :
    (links : Bytes → Bool) (uuids : List Bytes) (u : Bytes)
    → open_after links (drops uuids) u ≡ (if listed uuids u then false else links u)
unfolding open_after drops
open_after-drops links [] u = refl
open_after-drops links (x ∷ xs) u =
    ground (arith, open_after-drops (λ v. if x == v then false else links v) xs u)

pub listed-keys {ℓ} : {V : Type ℓ} (m : Map V) (u : Bytes) → listed (keys m) u ≡ contains u m
unfolding keys contains lookup
listed-keys [] u = refl
listed-keys ((k, v) ∷ m) u = ground (arith, listed-keys m u)

-- The roster names a peer once, and no more peers than the cap.
pub record IsRoster (d : Discovery) : Type 0 where
  pub distinct : Distinct d.dialed
  pub bounded : length d.dialed ≤ max_dialed_peers

-- The open links are the peers on the roster.
abbrev pub Tracks : Discovery → (Bytes → Bool) → Type 0
Tracks d links = (u : Bytes) → links u ≡ contains u d.dialed

-- What an operation promises: a roster, and calls that keep the open links on it.
pub record Keeps (d : Discovery) (r : Discovery × List PeerCall) : Type 0 where
  pub roster : IsRoster r.0
  pub tracks :
      (links : Bytes → Bool)
      → Tracks d links
      → (u : Bytes) → open_after links r.1 u ≡ contains u r.0.dialed

idle-Keeps : (d : Discovery) → IsRoster d → Keeps d (d, [])
unfolding open_after
idle-Keeps d v = record { roster = v; tracks = λ links h u. h u }

contains_of {ℓ} :
    {V : Type ℓ} (k : Bytes) (m : Map V) (o : Option V) → lookup k m ≡ o → contains k m ≡ is_some o
unfolding contains
contains_of k m o e = rw e

meet-Keeps :
    (d : Discovery) (uuid : Bytes) (entry : PeerEntry) → IsRoster d → Keeps d (meet d uuid entry)
unfolding meet open_after
meet-Keeps d uuid entry v = elim (Option-cases (lookup uuid d.dialed)) [
  | inl e ↦
      rw (e, meet)
        (if_both (Keeps d) (leb max_dialed_peers (length d.dialed)) _ _ (λ _. idle-Keeps d v)
          λ room. record {
            roster = record {
              distinct = insert-Distinct uuid entry d.dialed v.distinct;
              bounded =
                  ground
                    (arith, length-insert uuid entry d.dialed, contains_of uuid d.dialed none e);
            };
            tracks = λ links h u. ground (arith, h u, contains-insert uuid u entry d.dialed);
          })
  | inr (known, e) ↦
      rw (e, meet)
        (record {
          roster = record {
            distinct = insert-Distinct uuid entry d.dialed v.distinct;
            bounded = ground (
              arith,
              length-insert uuid entry d.dialed,
              contains_of uuid d.dialed (some known) e,
              v.bounded,
            );
          };
          tracks = λ links h u. ground (
            arith,
            h u,
            contains-insert uuid u entry d.dialed,
            contains_of uuid d.dialed (some known) e,
            bytes_beq_iff uuid u,
          );
        })
]

-- A beacon leaves a roster within the cap, on which exactly the linked peers stand.
pub on_beacon-Keeps :
    (d : Discovery) (sender_ip : Bytes) (heard : Beacon) (now : ℕ)
    → IsRoster d
    → Keeps d (on_beacon d sender_ip heard now)
unfolding on_beacon
on_beacon-Keeps d sender_ip heard now v =
    if_both (Keeps d) (heard.uuid == d.self_uuid) _ _ (λ _. idle-Keeps d v)
      λ _.
        if_both (Keeps d) (not (before d.self_uuid heard.uuid)) _ _ (λ _. idle-Keeps d v)
          λ _.
            if_both (Keeps d) (not (heard.cluster == d.cluster)) _ _ (λ _. idle-Keeps d v)
              λ _. meet-Keeps d heard.uuid _ v

-- The same of any datagram, one that is no beacon included.
pub on_datagram-Keeps :
    (d : Discovery) (sender_ip data' : Bytes) (now : ℕ)
    → IsRoster d
    → Keeps d (on_datagram d sender_ip data' now)
unfolding on_datagram
on_datagram-Keeps d sender_ip data' now v = elim (Option-cases (Beacon.decode data')) [
  | inl e ↦ rw (e, on_datagram) (idle-Keeps d v)
  | inr (heard, e) ↦ rw (e, on_datagram) (on_beacon-Keeps d sender_ip heard now v)
]

module _ (now : ℕ) where
  pub contains-live :
      (m : Map PeerEntry) (u : Bytes) → contains u m ≡ false → contains u (live now m) ≡ false
  unfolding contains lookup live
  contains-live [] u h = refl
  contains-live ((k, e) ∷ m) u h = ground (arith, contains-live m u)

  live-Distinct : (m : Map PeerEntry) → Distinct m → Distinct (live now m)
  unfolding live
  live-Distinct [] d = tt
  live-Distinct ((k, e) ∷ m) d = ground (arith, live-Distinct m d.1, contains-live m k d.0)

  length-live-le : (m : Map PeerEntry) → length (live now m) ≤ length m
  unfolding live
  length-live-le [] = omega arith
  length-live-le ((k, e) ∷ m) = ground (arith, length-live-le m)

  listed-lost-absent :
      (m : Map PeerEntry) (u : Bytes) → contains u m ≡ false → listed (lost now m) u ≡ false
  unfolding contains lookup lost
  listed-lost-absent [] u h = refl
  listed-lost-absent ((k, e) ∷ m) u h = ground (arith, listed-lost-absent m u)

  -- The peers that are dropped are those that leave the roster.
  dropped_or_kept :
      (m : Map PeerEntry) (u : Bytes)
      → Distinct m
      → (if listed (lost now m) u then false else contains u m) ≡ contains u (live now m)
  unfolding contains lookup lost live
  dropped_or_kept [] u d = refl
  dropped_or_kept ((k, e) ∷ m) u d = ground (
    arith,
    dropped_or_kept m u d.1,
    listed-lost-absent m k d.0,
    contains-live m k d.0,
    bytes_beq_iff k u,
  )

  -- An expiry keeps exactly the peers that were heard within the timeout, with their entries.
  pub lookup-live :
      (m : Map PeerEntry) (u : Bytes)
      → Distinct m
      → lookup u (live now m)
        ≡ elim (lookup u m) [ none ↦ none | some e ↦ if is_stale now e then none else some e ]
  unfolding lookup live contains
  lookup-live [] u d = refl
  lookup-live ((k, e) ∷ m) u d =
      ground (arith, lookup-live m u d.1, contains-live m k d.0, bytes_beq_iff k u)

  pub expire_stale-Keeps : (d : Discovery) → IsRoster d → Keeps d (expire_stale d now)
  unfolding expire_stale
  expire_stale-Keeps d v = record {
    roster = record {
      distinct = live-Distinct d.dialed v.distinct;
      bounded = omega (arith, length-live-le d.dialed, v.bounded);
    };
    tracks = λ links h u.
        open_after-drops links (lost now d.dialed) u
        ∙ ground (arith, h u, dropped_or_kept d.dialed u v.distinct);
  }

-- Where the drop calls come before anything else.
pub set_cluster-Keeps :
    (d : Discovery) (cluster : Bytes) → IsRoster d → Keeps d (set_cluster d cluster)
unfolding set_cluster open_after
set_cluster-Keeps d cluster v =
    if_both (Keeps d) (cluster == d.cluster) _ _ (λ _. idle-Keeps d v)
      λ _. record {
        roster = record { distinct = tt; bounded = omega arith };
        tracks = λ links h u.
            open_after-drops links (keys d.dialed) u
            ∙ unfold contains lookup in ground (arith, h u, listed-keys d.dialed u);
      }

-- Either nothing happens, or the roster is cleared and everything on it is to be dropped.
pub set_cluster_cases :
    (d : Discovery) (cluster : Bytes)
    → (set_cluster d cluster ≡ (d, []))
      ⊎ (set_cluster d cluster
          ≡ (record d { cluster = cluster; dialed = [] }, drops (keys d.dialed)))
unfolding set_cluster
set_cluster_cases d cluster = elim (Bool-cases (cluster == d.cluster)) [
  | inl e ↦ inl (rw e refl)
  | inr e ↦ inr (rw e refl)
]
