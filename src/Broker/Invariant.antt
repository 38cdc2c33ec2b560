-- ===== src/Broker/Invariant.antt =====
-- server/broker.cpp: the invariant of the broker's thread. Its parts are that the registry's maps
-- agree, every link was asked for the interest, the interest is what the subscribers want from the
-- mesh, and the dedup windows are sound.
pub mod Forget
pub mod Dialing
pub mod Handlers
pub mod Process
pub mod Intake
pub mod Sweep
use wisp.Prelude.{
  ℕ, ◌≡◌, refl, sym, ap, ◌∙◌, subst, inl, inr, Bool-cases, Option-cases, true, false, not, Bool,
  Option, none, some, List, [], ◌∷◌, ◌==◌, Bytes, bytes_eq, bytes_beq_iff, if◌then◌else◌, arith,
  if_both,
}
use wisp.Prelude.Map.{Map, lookup}
use wisp.Registry.{Registry, has_mesh_subscriber, any_mesh, empty}
use wisp.Registry.Consistent.{IsConsistent, empty-IsConsistent}
use wisp.Dedup.{Windows, initial}
use wisp.Dedup.Window.{Recent, Tracks, initial-Tracks}
use wisp.Wire.{Header}
use wisp.Interest.{Links, PeerLink, is_propagatable_topic}
use wisp.Interest.Follows.{Follows, AllFollow}
use wisp.Interest.Coverage.{IsCovering}
use wisp.Interest.Wanted.{Reflects}
use wisp.Broker.State.{Broker, Outside, send_to, note_dropped_to, start}

-- Over the parts of the state that the invariant reads.
pub record Sound (r : Registry) (l : Links) (w : Windows) : Type 0 where
  pub consistent : IsConsistent r
  pub covering : IsCovering l
  pub reflects : Reflects l.demand (has_mesh_subscriber r)
  pub recent : Recent
  pub tracked : Tracks w recent

abbrev pub IsValid : Broker → Type 0
IsValid b = Sound b.subscriptions b.links b.seen

-- A step that leaves those parts alone.
pub record SameCore (a b : Broker) : Type 0 where
  pub subscriptions : a.subscriptions ≡ b.subscriptions
  pub links : a.links ≡ b.links
  pub seen : a.seen ≡ b.seen

pub SameCore-IsValid : (a b : Broker) → SameCore a b → IsValid a → IsValid b
SameCore-IsValid a b c v =
    subst (λ w. Sound b.subscriptions b.links w) c.seen
      (subst (λ l. Sound b.subscriptions l a.seen) c.links
        (subst (λ r. Sound r a.links a.seen) c.subscriptions v))

pub send_to-SameCore :
    (o : Outside) (b : Broker) (to : Bytes) (header : Header) (payload : Bytes)
    → SameCore b (send_to o b to header payload).0
unfolding send_to
send_to-SameCore o b to header payload = ground arith

pub note_dropped_to-SameCore : (b : Broker) (client : Bytes) → SameCore b (note_dropped_to b client)
unfolding note_dropped_to
note_dropped_to-SameCore b client = ground arith

pub SameCore-trans : (a b c : Broker) → SameCore a b → SameCore b c → SameCore a c
SameCore-trans a b c h k = record {
  subscriptions = h.subscriptions ∙ k.subscriptions;
  links = h.links ∙ k.links;
  seen = h.seen ∙ k.seen;
}

-- A broker that has just started is valid.
pub start-IsValid :
    (broker_id : Bytes) (client_timeout : ℕ) → IsValid (start broker_id client_timeout)
unfolding has_mesh_subscriber lookup is_propagatable_topic wisp.Prelude.Map.contains
start-IsValid broker_id client_timeout = record {
  consistent = empty-IsConsistent;
  covering = record { follow = λ k link h. cc; plain = λ t h. cc };
  reflects = record { wild = refl; exact = λ s t. ground arith };
  recent = record { current = []; previous = [] };
  tracked = initial-Tracks;
}
