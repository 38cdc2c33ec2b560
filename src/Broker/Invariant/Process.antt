-- ===== src/Broker/Invariant/Process.antt =====
-- server/broker.cpp: the invariant under `processMessage`.
use wisp.Prelude.{
  ◌≡◌, refl, sym, subst, inl, inr, Bool-cases, true, false, not, ◌&&◌, Bool, Option, some, List, [],
  ◌∷◌, ◌==◌, Bytes, bytes_eq, if◌then◌else◌, arith, if_both, ℕ, ◌+◌, length,
}
use wisp.Prelude.Map.{Map, lookup, contains}
use wisp.Keys.{is_reserved_key, scope_accepts}
use wisp.Registry.{Subscriber}
use wisp.Dedup.{Windows}
use wisp.Dedup.Window.{Tracks, is_duplicate-Tracks, note, remembers, known_as, Recent}
use wisp.Wire.{Header, WireMessage, encode_header}
use wisp.Interest.{PeerLink}
use wisp.Interest.Follows.{Follows}
use wisp.Broker.State.{Broker, Outside, send_to}
use wisp.Broker.Session.{handle_client_message}
use wisp.Broker.Route.{
  deliver, deliver_exact, deliver_wildcard, deliver_to_subscribers, is_served, flood, flood_peers,
  stamp, count, route, pass_on, admit, after_dedup, after_answer, protect, process_message,
  exact_subscribers, wildcard_subscribers,
}
use wisp.Broker.Invariant.{
  IsValid, Sound, SameCore, SameCore-IsValid, SameCore-trans, send_to-SameCore,
  note_dropped_to-SameCore,
}
use wisp.Broker.Invariant.Handlers.{handle_client_message-IsValid}

same_core : (b : Broker) → SameCore b b
same_core b = record { subscriptions = refl; links = refl; seen = refl }

module _ (o : Outside) (header : Header) (payload sender : Bytes) (is_from_peer : Bool) where
  deliver-SameCore :
      (b : Broker) (s : Subscriber) → SameCore b (deliver o header payload sender is_from_peer b s)
  unfolding deliver
  deliver-SameCore b s =
      if_both (SameCore b) (not is_from_peer && s.client_id == sender) _ _ (λ _. same_core b)
        λ _.
          if_both (SameCore b) (not (scope_accepts s.scope (not is_from_peer))) _ _
            (λ _. same_core b)
            λ _.
              if_both (SameCore b) (not (contains s.client_id b.clients)) _ _ (λ _. same_core b)
                λ _.
                  if_both (SameCore b) (send_to o b s.client_id header payload).1 _ _ (λ _. sent)
                    λ _.
                      SameCore-trans b (send_to o b s.client_id header payload).0 _ sent
                        (note_dropped_to-SameCore _ s.client_id)
    where
      sent : SameCore b (send_to o b s.client_id header payload).0
      sent = send_to-SameCore o b s.client_id header payload

  deliver_exact-SameCore :
      (subs : List Subscriber) (b : Broker)
      → SameCore b (deliver_exact o header payload sender is_from_peer subs b)
  unfolding deliver_exact
  deliver_exact-SameCore [] b = same_core b
  deliver_exact-SameCore (s ∷ subs) b =
      SameCore-trans b (deliver o header payload sender is_from_peer b s) _ (deliver-SameCore b s)
        (deliver_exact-SameCore subs (deliver o header payload sender is_from_peer b s))

  deliver_wildcard-SameCore :
      (exact subs : List Subscriber) (b : Broker)
      → SameCore b (deliver_wildcard o header payload sender is_from_peer exact subs b)
  unfolding deliver_wildcard
  deliver_wildcard-SameCore exact [] b = same_core b
  deliver_wildcard-SameCore exact (s ∷ subs) b =
      SameCore-trans b next _
        (if_both (SameCore b) (is_served exact s.client_id (not is_from_peer)) _ _
          (λ _. same_core b) (λ _. deliver-SameCore b s))
        (deliver_wildcard-SameCore exact subs next)
    where
      next : Broker
      next =
          if is_served exact s.client_id (not is_from_peer)
          then b
          else deliver o header payload sender is_from_peer b s

  deliver_to_subscribers-SameCore :
      (b : Broker) → SameCore b (deliver_to_subscribers o b header payload sender is_from_peer)
  unfolding deliver_to_subscribers
  deliver_to_subscribers-SameCore b =
      SameCore-trans b (deliver_exact o header payload sender is_from_peer exact b) _
        (deliver_exact-SameCore exact b)
        (deliver_wildcard-SameCore exact (wildcard_subscribers b header.topic) _)
    where
      exact : List Subscriber
      exact = exact_subscribers b header.topic

-- A flood changes no link's control sequence and no link's key.
flood-control :
    (o : Outside) (msg : WireMessage) (m : Map PeerLink) (k : Bytes) (link : PeerLink)
    → lookup k (flood o msg m).0 ≡ some link
    → (old : PeerLink) × (lookup k m ≡ some old) × (old.control ≡ link.control)
unfolding flood lookup
flood-control o msg [] k link h = absurd (ground arith)
flood-control o msg ((key, old) ∷ m) k link h = elim (Bool-cases (key == k)) [
  | inl e ↦ (old, rw e, ground arith)
  | inr e ↦ let (found, p, q) = flood-control o msg m k link (ground arith) in (found, rw e p, q)
]

flood_peers-IsValid :
    (o : Outside) (b : Broker) (header : Header) (payload : Bytes)
    → IsValid b
    → IsValid (flood_peers o b header payload)
unfolding flood_peers
flood_peers-IsValid o b header payload v = record {
  consistent = v.consistent;
  covering = record {
    follow = λ k link h.
        let (old, p, q) = flood-control o _ b.links.peers k link h in
        subst (Follows b.links.demand) q (v.covering.follow k old p);
    plain = v.covering.plain;
  };
  reflects = record { wild = v.reflects.wild; exact = v.reflects.exact };
  recent = v.recent;
  tracked = v.tracked;
}

pass_on-IsValid :
    (o : Outside) (p : Broker × Bool) (header : Header) (payload sender : Bytes)
    (is_from_peer : Bool)
    → IsValid p.0
    → IsValid (pass_on o p header payload sender is_from_peer)
unfolding pass_on route
pass_on-IsValid o (b, true) header payload sender is_from_peer v = v
pass_on-IsValid o (b, false) header payload sender is_from_peer v =
    if_both IsValid (is_reserved_key header.handler_key) _ _ (λ _. v)
      (λ _.
        flood_peers-IsValid o (deliver_to_subscribers o b header payload sender is_from_peer) header
          payload
          (SameCore-IsValid b _
            (deliver_to_subscribers-SameCore o header payload sender is_from_peer b) v))

abbrev with_tap : Broker → Header → Bytes → Broker
with_tap b header payload = record b {
  tapped = record { header = header; payload = payload } ∷ b.tapped;
}

admit-IsValid :
    (o : Outside) (b : Broker) (header : Header) (payload sender : Bytes) (is_from_peer : Bool)
    (now : ℕ)
    → IsValid b
    → IsValid (admit o b header payload sender is_from_peer now)
unfolding admit
admit-IsValid o b header payload sender true now v =
    pass_on-IsValid o (with_tap b header payload, false) header payload sender true v
admit-IsValid o b header payload sender false now v =
    pass_on-IsValid o
      (handle_client_message o (with_tap b header payload) header payload sender now) header payload
      sender false
      (handle_client_message-IsValid o (with_tap b header payload) header payload sender now v)

after_dedup-IsValid :
    (o : Outside) (b : Broker) (header : Header) (payload sender : Bytes) (is_from_peer : Bool)
    (now : ℕ) (w : Windows) (r : Recent) (duplicate : Bool)
    → IsValid b
    → Tracks w r
    → IsValid (after_dedup o b header payload sender is_from_peer now (w, duplicate))
unfolding after_dedup
after_dedup-IsValid o b header payload sender is_from_peer now w r duplicate v t =
    if_both IsValid duplicate _ _ (λ _. moved)
      (λ _. admit-IsValid o (record b { seen = w }) header payload sender is_from_peer now moved)
  where
    moved : Sound b.subscriptions b.links w
    moved = record {
      consistent = v.consistent;
      covering = v.covering;
      reflects = v.reflects;
      recent = r;
      tracked = t;
    }

-- There is a next state, and it is valid.
abbrev pub IsHandled : Option Broker → Type 0
IsHandled result = (b : Broker) × (result ≡ some b) × IsValid b

protect-IsHandled :
    (o : Outside) (b : Broker) (header : Header) (payload sender : Bytes) (is_from_peer : Bool)
    (now : ℕ)
    → IsValid b
    → IsHandled (protect o b header payload sender is_from_peer now)
unfolding protect after_answer
protect-IsHandled o b header payload sender is_from_peer now v =
    let (w, p, t) = is_duplicate-Tracks b.seen v.recent header.message_uuid v.tracked in
    if_both IsHandled (is_reserved_key header.handler_key) _ _
      (λ _. (
        admit o b header payload sender is_from_peer now,
        refl,
        admit-IsValid o b header payload sender is_from_peer now v,
      ))
      λ _.
        subst (λ x. IsHandled (after_answer o b header payload sender is_from_peer now x)) (sym p)
          (
            after_dedup o b header payload sender is_from_peer now
                (w, remembers v.recent (known_as header.message_uuid)),
            refl,
            after_dedup-IsValid o b header payload sender is_from_peer now w
                (note v.recent (known_as header.message_uuid)) _ v t,
          )

-- A valid broker handles every message of a client or a peer to the end: its dedup loops stop,
-- there is a next state, and that state is valid.
pub process_message-IsHandled :
    (o : Outside) (b : Broker) (header : Header) (payload sender : Bytes) (is_from_peer : Bool)
    (fresh_uuid : Bytes) (now : ℕ)
    → IsValid b
    → IsHandled (process_message o b header payload sender is_from_peer fresh_uuid now)
unfolding process_message
process_message-IsHandled o b header payload sender true fresh_uuid now v =
    protect-IsHandled o (count b (length (encode_header o.codec stamped) + length payload)) stamped
      payload sender true now
      (unfold count in
        record {
          consistent = v.consistent;
          covering = v.covering;
          reflects = v.reflects;
          recent = v.recent;
          tracked = v.tracked;
        })
  where
    stamped : Header
    stamped = stamp b fresh_uuid header
process_message-IsHandled o b header payload sender false fresh_uuid now v =
    protect-IsHandled o b (stamp b fresh_uuid header) payload sender false now v
