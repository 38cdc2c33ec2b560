-- ===== src/Broker/Invariant/Intake.antt =====
-- server/broker.cpp: the invariant under what `run` takes in and what a link's callback does.
use wisp.Prelude.{
  ◌≡◌, ◌⊎◌, inl, inr, refl, subst, false, some, [], ◌∷◌, Bytes, ℕ, Bool-cases, Option-cases, ◌+◌,
  length, arith, ◌==◌, bytes_eq,
}
use wisp.Prelude.Map.{Map, lookup}
use wisp.Keys.{wildcard_topic}
use wisp.Interest.{Demand, send_interest_to, PeerLink}
use wisp.Wire.{decode_header_frame}
use wisp.Interest.Follows.{Follows, interested, send_again-Follows}
use wisp.Broker.State.{Broker, Outside}
use wisp.Broker.Route.{count}
use wisp.Broker.Intake.{take_client_message, deactivate, ask_again}
use wisp.Broker.Invariant.{IsValid}
use wisp.Broker.Invariant.Process.{IsHandled, process_message-IsHandled}

pub count-IsValid : (b : Broker) (bytes : ℕ) → IsValid b → IsValid (count b bytes)
unfolding count
count-IsValid b bytes v = record {
  consistent = v.consistent;
  covering = v.covering;
  reflects = v.reflects;
  recent = v.recent;
  tracked = v.tracked;
}

-- Only the flag of a link changes.
pub deactivate-control :
    (key : Bytes) (m : Map PeerLink) (k : Bytes) (peer : PeerLink)
    → lookup k (deactivate key m) ≡ some peer
    → (old : PeerLink) × (lookup k m ≡ some old) × (old.control ≡ peer.control)
unfolding deactivate lookup
deactivate-control key [] k peer h = absurd (ground arith)
deactivate-control key ((j, old) ∷ m) k peer h = elim (Bool-cases (j == k)) [
  | inl e ↦ (old, rw e, ground arith)
  | inr e ↦ elim (Bool-cases (j == key)) [
    | inl f ↦ (peer, ground arith, refl)
    | inr f ↦
        let (found, p, q) = deactivate-control key m k peer (ground arith) in (found, rw e p, q)
  ]
]

ask_again-cases :
    (key : Bytes) (demand : Demand) (m : Map PeerLink) (k : Bytes) (peer : PeerLink)
    → lookup k (ask_again key demand m) ≡ some peer
    → (lookup k m ≡ some peer)
      ⊎ ((old : PeerLink) × (lookup k m ≡ some old) × (send_interest_to demand old ≡ peer))
unfolding ask_again lookup
ask_again-cases key demand [] k peer h = absurd (ground arith)
ask_again-cases key demand ((j, old) ∷ m) k peer h = elim (Bool-cases (j == key)) [
  | inl f ↦ elim (Bool-cases (j == k)) [
    | inl e ↦ inr (old, rw e, ground arith)
    | inr e ↦ inl (ground arith)
  ]
  | inr f ↦ elim (Bool-cases (j == k)) [
    | inl e ↦ inl (ground arith)
    | inr e ↦ rw e (ask_again-cases key demand m k peer (ground arith))
  ]
]

pub ask_again-Follows :
    (key : Bytes) (demand : Demand) (m : Map PeerLink)
    → interested demand wildcard_topic ≡ false
    → ((k : Bytes) (peer : PeerLink) → lookup k m ≡ some peer → Follows demand peer.control)
    → (k : Bytes) (peer : PeerLink) → lookup k (ask_again key demand m) ≡ some peer
    → Follows demand peer.control
unfolding ask_again
ask_again-Follows key demand m plain all k peer h = elim (ask_again-cases key demand m k peer h) [
  | inl e ↦ all k peer e
  | inr (old, e, same) ↦
      subst (λ x. Follows demand x.control) same (send_again-Follows demand old plain (all k old e))
]

pub take_client_message-IsHandled :
    (o : Outside) (b : Broker) (identity frame payload fresh_uuid : Bytes) (now : ℕ)
    → IsValid b
    → IsHandled (take_client_message o b identity frame payload fresh_uuid now)
unfolding take_client_message
take_client_message-IsHandled o b identity frame payload fresh_uuid now v =
    elim (Option-cases (decode_header_frame o.codec frame)) [
      | inl e ↦ rw (e, take_client_message) (b, refl, v)
      | inr (header, e) ↦
          rw (e, take_client_message)
            (process_message-IsHandled o (count b (length frame + length payload)) header payload
              identity false fresh_uuid now (count-IsValid b (length frame + length payload) v))
    ]
