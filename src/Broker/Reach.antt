-- ===== src/Broker/Reach.antt =====
-- server/broker.cpp: the broker as a sequence of turns: a message it takes from a client or a link, a
-- sweep, a link that the command line adds or removes, a link whose remote asks for no more traffic or for the interest again,
-- discovery enabled or started, a datagram it hears, and an expiry of its peers.
use wisp.Prelude.{
  ◌≡◌, ◌⊎◌, refl, sym, subst, true, false, Option, none, some, List, [], ◌∷◌, Bytes, ℕ, ◌&&◌, codes,
  bytes_eq,
}
use wisp.Prelude.Map.{lookup}
use wisp.Keys.{wildcard_topic}
use wisp.Registry.{has_mesh_subscriber}
use wisp.Interest.{PeerLink, add_peer, remove_peer, is_propagatable_topic}
use wisp.Interest.Asked.{asked}
use wisp.Interest.Coverage.{
  star-plain, add_peer-IsCovering, remove_peer-IsCovering, add_peer-demand, remove_peer-demand,
}
use wisp.Interest.Wanted.{Reflects, wanted-asked, asked-iff_wanted}
use wisp.Wire.{Envelope}
use wisp.Interest.Follows.{Follows}
use wisp.Broker.State.{Broker, Outside, start}
use wisp.Broker.Intake.{take_client_message, take_peer_message, deactivate, ask_again}
use wisp.Broker.Dialing.{enable_discovery, start_discovery, hear, expire}
use wisp.Broker.Invariant.Dialing.{
  enable_discovery-IsValid, start_discovery-IsValid, hear-IsValid, expire-IsValid,
}
use wisp.Broker.Upkeep.{sweep}
use wisp.Broker.Invariant.{IsValid, start-IsValid}
use wisp.Broker.Invariant.Process.{IsHandled, process_message-IsHandled}
use wisp.Broker.Invariant.Intake.{
  deactivate-control, ask_again-Follows, take_client_message-IsHandled,
}
use wisp.Broker.Invariant.Sweep.{sweep-IsValid}

pub data Turn : Type 0 where
  from_client : Bytes → Bytes → Bytes → Bytes → ℕ → Turn
  from_peer : Envelope → Bytes → ℕ → Turn
  cleanup : ℕ → Turn
  link : Bytes → Bytes → Bytes → Turn
  unlink : Bytes → Turn
  told_to_unlink : Bytes → Turn
  told_to_reset : Bytes → Turn
  enabled : Bytes → Turn
  started : List Bytes → ℕ → Turn
  beacon : Bytes → Bytes → ℕ → Turn
  expired : ℕ → Turn

unfoldable pub turn : Outside → Broker → Turn → Option Broker
unfolding deactivate
turn o b (from_client identity frame payload fresh_uuid now) =
    take_client_message o b identity frame payload fresh_uuid now
turn o b (from_peer envelope fresh_uuid now) = take_peer_message o b envelope fresh_uuid now
turn o b (cleanup now) = some (sweep b now)
turn o b (link key address link_id) =
    some (record b { links = add_peer b.links key address link_id })
turn o b (unlink key) = some (record b { links = (remove_peer b.links b.broker_id key).0 })
turn o b (told_to_unlink key) =
    some (record b { links = record b.links { peers = deactivate key b.links.peers } })
turn o b (told_to_reset key) =
    some
      (record b { links = record b.links { peers = ask_again key b.links.demand b.links.peers } })
turn o b (enabled cluster) = some (enable_discovery b cluster)
turn o b (started addresses tap_port) = some (start_discovery b addresses tap_port)
turn o b (beacon sender_ip datagram now) = some (hear b sender_ip datagram now)
turn o b (expired now) = some (expire b now)

unfoldable pub turns : Outside → List Turn → Broker → Option Broker
unfolding turn
turns o [] b = some b
turns o (t ∷ ts) b = elim (turn o b t) [ none ↦ none | some b' ↦ turns o ts b' ]

turn-IsHandled : (o : Outside) (b : Broker) (t : Turn) → IsValid b → IsHandled (turn o b t)
unfolding turn take_peer_message
turn-IsHandled o b (from_client identity frame payload fresh_uuid now) v =
    take_client_message-IsHandled o b identity frame payload fresh_uuid now v
turn-IsHandled o b (from_peer envelope fresh_uuid now) v =
    process_message-IsHandled o b envelope.header envelope.payload (codes "PEER") true fresh_uuid
      now v
turn-IsHandled o b (told_to_unlink key) v = (
  record b { links = record b.links { peers = deactivate key b.links.peers } },
  refl,
  record {
    consistent = v.consistent;
    covering = record {
      follow = λ k peer h.
          let (old, p, q) = deactivate-control key b.links.peers k peer h in
          subst (Follows b.links.demand) q (v.covering.follow k old p);
      plain = v.covering.plain;
    };
    reflects = record { wild = v.reflects.wild; exact = v.reflects.exact };
    recent = v.recent;
    tracked = v.tracked;
  },
)
turn-IsHandled o b (cleanup now) v = (sweep b now, refl, sweep-IsValid b now v)
turn-IsHandled o b (link key address link_id) v = (
  record b { links = add_peer b.links key address link_id },
  refl,
  record {
    consistent = v.consistent;
    covering = add_peer-IsCovering b.links key address link_id v.covering;
    reflects =
        subst (λ x. Reflects x (has_mesh_subscriber b.subscriptions))
          (sym (add_peer-demand b.links key address link_id)) v.reflects;
    recent = v.recent;
    tracked = v.tracked;
  },
)
turn-IsHandled o b (unlink key) v = (
  record b { links = (remove_peer b.links b.broker_id key).0 },
  refl,
  record {
    consistent = v.consistent;
    covering = remove_peer-IsCovering b.links b.broker_id key v.covering;
    reflects =
        subst (λ x. Reflects x (has_mesh_subscriber b.subscriptions))
          (sym (remove_peer-demand b.links b.broker_id key)) v.reflects;
    recent = v.recent;
    tracked = v.tracked;
  },
)
turn-IsHandled o b (told_to_reset key) v = (
  record b { links = record b.links { peers = ask_again key b.links.demand b.links.peers } },
  refl,
  record {
    consistent = v.consistent;
    covering = record {
      follow =
          ask_again-Follows key b.links.demand b.links.peers (star-plain b.links v.covering)
            v.covering.follow;
      plain = v.covering.plain;
    };
    reflects = record { wild = v.reflects.wild; exact = v.reflects.exact };
    recent = v.recent;
    tracked = v.tracked;
  },
)
turn-IsHandled o b (enabled cluster) v = (_, refl, enable_discovery-IsValid b cluster v)
turn-IsHandled o b (started addresses tap_port) v =
    (_, refl, start_discovery-IsValid b addresses tap_port v)
turn-IsHandled o b (beacon sender_ip datagram now) v =
    (_, refl, hear-IsValid b sender_ip datagram now v)
turn-IsHandled o b (expired now) v = (_, refl, expire-IsValid b now v)

turns-IsHandled : (o : Outside) (ts : List Turn) (b : Broker) → IsValid b → IsHandled (turns o ts b)
unfolding turns
turns-IsHandled o [] b v = (b, refl, v)
turns-IsHandled o (t ∷ ts) b v =
    let (b', e, v') = turn-IsHandled o b t v in
    let (b'', e', v'') = turns-IsHandled o ts b' v' in (b'', rw (e, turns) e', v'')

-- Every link was asked, as its control messages stand, for exactly the topics that may cross it
-- and that some client takes from the mesh, unless the interest is saturated or some client takes
-- everything from the mesh.
abbrev pub AsksForWhatIsWanted : Broker → Type 0
AsksForWhatIsWanted b =
    (key : Bytes) (peer : PeerLink) (t : Bytes)
    → lookup key b.links.peers ≡ some peer
    → b.links.saturated ≡ false
    → has_mesh_subscriber b.subscriptions wildcard_topic ≡ false
    → asked peer.control t ≡ (is_propagatable_topic t && has_mesh_subscriber b.subscriptions t)

-- Every link was asked for each topic that some client takes from the mesh, by name or for
-- everything; the reserved topics do not cross links.
abbrev pub HearsWhatIsWanted : Broker → Type 0
HearsWhatIsWanted b =
    (key : Bytes) (peer : PeerLink) (t : Bytes)
    → lookup key b.links.peers ≡ some peer
    → has_mesh_subscriber b.subscriptions t ≡ true
    → (is_propagatable_topic t ≡ true) ⊎ (t ≡ wildcard_topic)
    → (asked peer.control t ≡ true) ⊎ (asked peer.control wildcard_topic ≡ true)

-- A broker that has just started gets through any turns, each run to its end before the next, to a
-- valid state. In it every link was asked, as its control messages stand, for each topic that may
-- cross it, or the wildcard, that some client takes from the mesh, by name or for everything; and
-- for nothing else, unless the interest is saturated or some client takes everything from the
-- mesh.
pub turns-start :
    (o : Outside) (broker_id : Bytes) (client_timeout : ℕ) (ts : List Turn)
    → (b : Broker) × (turns o ts (start broker_id client_timeout) ≡ some b)
      × IsValid b
      × HearsWhatIsWanted b
      × AsksForWhatIsWanted b
turns-start o broker_id client_timeout ts =
    let (b, e, v) =
      turns-IsHandled o ts (start broker_id client_timeout)
        (start-IsValid broker_id client_timeout) in
    (
      b,
      e,
      v,
      λ key peer t h wants may.
          wanted-asked b.links (has_mesh_subscriber b.subscriptions) key peer t v.covering
            v.reflects h wants may,
      λ key peer t h open_ quiet.
          asked-iff_wanted b.links (has_mesh_subscriber b.subscriptions) key peer t v.covering
            v.reflects h open_ quiet,
    )
