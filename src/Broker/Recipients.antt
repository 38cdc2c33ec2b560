-- ===== src/Broker/Recipients.antt =====
-- server/broker.cpp, `deliverToSubscribers`: which clients a routed message reaches, and how often,
-- while the ROUTER socket takes what it is given.
use wisp.Prelude.{
  ◌≡◌, refl, sym, ap, ◌∙◌, inl, inr, Bool-cases, Option-cases, true, false, not, ◌&&◌, ◌||◌, Bool,
  Option, none, some, List, [], ◌∷◌, ◌==◌, Bytes, bytes_eq, bytes_beq_iff, if◌then◌else◌, arith,
  if_both, ℕ, zero, suc,
}
use wisp.Prelude.Map.{lookup, contains}
use wisp.Keys.{Origin, scope_accepts, wildcard_topic}
use wisp.Registry.{Subscriber, find_in, subscribers_of, subscribers_at}
use wisp.Registry.Subscribers.{scope_in, IsUnique, scope_in-find_in}
use wisp.Registry.Consistent.{held}
use wisp.Wire.{Header}
use wisp.Broker.State.{Broker, Outside, Sent, send_to}
use wisp.Broker.Route.{
  deliver, deliver_exact, deliver_wildcard, deliver_to_subscribers, is_served, exact_subscribers,
  wildcard_subscribers,
}
use wisp.Broker.Invariant.{IsValid}

abbrev pub copies : Bytes → List Sent → ℕ
copies c [] = zero
copies c (g ∷ gs) = let rest = copies c gs in if g.to == c then suc rest else rest

abbrev pub suc_if : Bool → ℕ → ℕ
suc_if true n = suc n
suc_if false n = n

-- The socket takes every group.
abbrev pub TakesAll : Outside → Type 0
TakesAll o = (sent : List Sent) (to : Bytes) → o.accepts sent to ≡ true

-- A subscription with this scope, if there is one, takes the message: the client is connected, is
-- not the local sender, and its scope takes where the message came from.
abbrev pub takes : Bytes → Bool → Broker → Bytes → Option Origin → Bool
takes sender is_from_peer b c none = false
takes sender is_from_peer b c (some scope) =
    not (not is_from_peer && c == sender)
    && (scope_accepts scope (not is_from_peer) && contains c b.clients)

-- From the first list to the second, only groups with this header and payload were added.
pub data Carries (header : Header) (payload : Bytes) : List Sent → List Sent → Type 0 where
  same : {a : List Sent} → Carries header payload a a
  more :
      {a b : List Sent} (to : Bytes)
      → Carries header payload a b
      → Carries header payload a (record { to = to; header = header; payload = payload } ∷ b)

Carries-trans :
    {header : Header} {payload : Bytes} {a b c : List Sent}
    → Carries header payload a b
    → Carries header payload b c
    → Carries header payload a c
Carries-trans h same = h
Carries-trans h (more to k) = more to (Carries-trans h k)

module _ (o : Outside) (header : Header) (payload sender : Bytes) (is_from_peer : Bool) where
  module _ (all : TakesAll o) (c : Bytes) where
    deliver-clients :
        (b : Broker) (s : Subscriber)
        → (deliver o header payload sender is_from_peer b s).clients ≡ b.clients
    unfolding deliver send_to
    deliver-clients b s = ground (arith, all b.sent s.client_id)

    deliver-copies :
        (b : Broker) (s : Subscriber)
        → copies c (deliver o header payload sender is_from_peer b s).sent
          ≡ suc_if
              (s.client_id == c && takes sender is_from_peer b c (some s.scope))
              (copies c b.sent)
    unfolding deliver send_to
    deliver-copies b s = ground (
      arith,
      all b.sent s.client_id,
      bytes_beq_iff s.client_id c,
      bytes_beq_iff s.client_id sender,
      bytes_beq_iff c sender,
    )

    takes-same :
        (b b' : Broker) (scope : Option Origin)
        → b'.clients ≡ b.clients
        → takes sender is_from_peer b' c scope ≡ takes sender is_from_peer b c scope
    takes-same b b' none e = refl
    takes-same b b' (some scope) e = rw e

    deliver-Carries :
        (b : Broker) (s : Subscriber)
        → Carries header payload b.sent (deliver o header payload sender is_from_peer b s).sent
    unfolding deliver send_to
    deliver-Carries b s = rw (all b.sent s.client_id) (
        if_both Good (not is_from_peer && s.client_id == sender) _ _ (λ _. same)
          λ _.
            if_both Good (not (scope_accepts s.scope (not is_from_peer))) _ _ (λ _. same)
              λ _.
                if_both Good (not (contains s.client_id b.clients)) _ _ (λ _. same)
                  (λ _. more s.client_id same))
      where
        Good : Broker → Type 0
        Good x = Carries header payload b.sent x.sent

    deliver_exact-Carries :
        (subs : List Subscriber) (b : Broker)
        → Carries header payload b.sent
            (deliver_exact o header payload sender is_from_peer subs b).sent
    unfolding deliver_exact
    deliver_exact-Carries [] b = same
    deliver_exact-Carries (s ∷ subs) b =
        Carries-trans (deliver-Carries b s)
          (deliver_exact-Carries subs (deliver o header payload sender is_from_peer b s))

    deliver_wildcard-Carries :
        (exact subs : List Subscriber) (b : Broker)
        → Carries header payload b.sent
            (deliver_wildcard o header payload sender is_from_peer exact subs b).sent
    unfolding deliver_wildcard
    deliver_wildcard-Carries exact [] b = same
    deliver_wildcard-Carries exact (s ∷ subs) b =
        if_both
          (λ (x : Broker).
            Carries header payload b.sent
              (deliver_wildcard o header payload sender is_from_peer exact subs x).sent)
          (is_served exact s.client_id (not is_from_peer)) _ _
          (λ _. deliver_wildcard-Carries exact subs b)
          (λ _. Carries-trans (deliver-Carries b s) (
            deliver_wildcard-Carries exact subs (deliver o header payload sender is_from_peer b s)))

    deliver_exact-clients :
        (subs : List Subscriber) (b : Broker)
        → (deliver_exact o header payload sender is_from_peer subs b).clients ≡ b.clients
    unfolding deliver_exact
    deliver_exact-clients [] b = refl
    deliver_exact-clients (s ∷ subs) b =
        deliver_exact-clients subs (deliver o header payload sender is_from_peer b s)
        ∙ deliver-clients b s

    deliver_exact-copies :
        (subs : List Subscriber) (b : Broker)
        → IsUnique subs
        → copies c (deliver_exact o header payload sender is_from_peer subs b).sent
          ≡ suc_if (takes sender is_from_peer b c (scope_in c subs)) (copies c b.sent)
    unfolding deliver_exact scope_in
    deliver_exact-copies [] b u = refl
    deliver_exact-copies (s ∷ subs) b u = elim (Bool-cases (s.client_id == c)) [
      | inl e ↦
          let gone : scope_in c subs ≡ none = ground (arith, bytes_beq_iff s.client_id c, e, u.0) in
          rw e (deliver_exact-copies subs next u.1 ∙ rw gone (deliver-copies b s ∙ rw e))
      | inr e ↦ rw e (
          deliver_exact-copies subs next u.1
          ∙ rw (takes-same b next (scope_in c subs) (deliver-clients b s)) (
              ap (suc_if (takes sender is_from_peer b c (scope_in c subs)))
                (deliver-copies b s ∙ rw e)))
    ]
      where
        next : Broker
        next = deliver o header payload sender is_from_peer b s

    -- A subscription with this scope takes what comes from there.
    accepted : Option Origin → Bool
    accepted none = false
    accepted (some scope) = scope_accepts scope (not is_from_peer)

    is_served-scope_in :
        (d : Bytes) (exact : List Subscriber)
        → is_served exact d (not is_from_peer) ≡ accepted (scope_in d exact)
    unfolding is_served accepted
    is_served-scope_in d exact = elim (Option-cases (find_in d exact)) [
      | inl e ↦ rw (scope_in-find_in d exact, e, is_served)
      | inr (s, e) ↦ rw (scope_in-find_in d exact, e, is_served)
    ]

    -- One wildcard subscriber, before others that do as they should.
    deliver_wildcard-step :
        (exact subs : List Subscriber) (s : Subscriber) (b : Broker)
        → scope_in s.client_id subs ≡ none
        → ((b' : Broker)
            → copies c (deliver_wildcard o header payload sender is_from_peer exact subs b').sent
              ≡ suc_if
                  (not (is_served exact c (not is_from_peer))
                    && takes sender is_from_peer b' c (scope_in c subs))
                  (copies c b'.sent))
        → copies c (deliver_wildcard o header payload sender is_from_peer exact (s ∷ subs) b).sent
          ≡ suc_if
              (not (is_served exact c (not is_from_peer))
                && takes sender is_from_peer b c (scope_in c (s ∷ subs)))
              (copies c b.sent)
    unfolding deliver_wildcard scope_in
    deliver_wildcard-step exact subs s b fresh rest = elim (Bool-cases (s.client_id == c)) [
      | inl e ↦
          let same : s.client_id ≡ c = ground (arith, bytes_beq_iff s.client_id c, e) in
          let gone : scope_in c subs ≡ none = ap (λ d. scope_in d subs) (sym same) ∙ fresh in
          let is : is_served exact s.client_id (not is_from_peer)
              ≡ is_served exact c (not is_from_peer) =
            ap (λ d. is_served exact d (not is_from_peer)) same in
          if_both Good (is_served exact s.client_id (not is_from_peer)) b next
            (λ served. rest b ∙ rw (sym is, served))
            (λ open_. rest next ∙ rw (gone, sym is, open_) (deliver-copies b s ∙ rw e))
      | inr e ↦
          if_both Good (is_served exact s.client_id (not is_from_peer)) b next
            (λ served. rw e (rest b))
            (λ open_. rw e (
              rest next
              ∙ rw (takes-same b next (scope_in c subs) (deliver-clients b s)) (
                  ap
                    (suc_if (
                      not (is_served exact c (not is_from_peer))
                      && takes sender is_from_peer b c (scope_in c subs)))
                    (deliver-copies b s ∙ rw e))))
    ]
      where
        next : Broker
        next = deliver o header payload sender is_from_peer b s

        Good : Broker → Type 0
        Good x =
            copies c (deliver_wildcard o header payload sender is_from_peer exact subs x).sent
            ≡ suc_if
                (not (is_served exact c (not is_from_peer))
                  && takes sender is_from_peer b c
                      (if s.client_id == c then some s.scope else scope_in c subs))
                (copies c b.sent)

    deliver_wildcard-copies :
        (exact subs : List Subscriber) (b : Broker)
        → IsUnique subs
        → copies c (deliver_wildcard o header payload sender is_from_peer exact subs b).sent
          ≡ suc_if
              (not (is_served exact c (not is_from_peer))
                && takes sender is_from_peer b c (scope_in c subs))
              (copies c b.sent)
    unfolding deliver_wildcard scope_in
    deliver_wildcard-copies exact [] b u = ground arith
    deliver_wildcard-copies exact (s ∷ subs) b u =
        deliver_wildcard-step exact subs s b u.0 (λ b'. deliver_wildcard-copies exact subs b' u.1)

    served_once :
        (b : Broker) (exact wild : Option Origin) (n : ℕ)
        → suc_if
            (not (accepted exact) && takes sender is_from_peer b c wild)
            (suc_if (takes sender is_from_peer b c exact) n)
          ≡ suc_if (takes sender is_from_peer b c exact || takes sender is_from_peer b c wild) n
    unfolding accepted
    served_once b none wild n = ground arith
    served_once b (some scope) none n = ground arith
    served_once b (some scope) (some other) n = ground arith

    takes_wild :
        (b : Broker) (star : Bool) (subs : List Subscriber)
        → takes sender is_from_peer b c (scope_in c (if star then [] else subs))
          ≡ (not star && takes sender is_from_peer b c (scope_in c subs))
    unfolding scope_in
    takes_wild b true subs = refl
    takes_wild b false subs = refl

    both-copies :
        (exact wild : List Subscriber) (b : Broker)
        → IsUnique exact
        → IsUnique wild
        → copies c
            (deliver_wildcard o header payload sender is_from_peer exact wild
              (deliver_exact o header payload sender is_from_peer exact b)).sent
          ≡ suc_if
              (takes sender is_from_peer b c (scope_in c exact)
                || takes sender is_from_peer b c (scope_in c wild))
              (copies c b.sent)
    both-copies exact wild b u w =
        deliver_wildcard-copies exact wild served w
        ∙ rw
            (
              is_served-scope_in c exact,
              takes-same b served (scope_in c wild) (deliver_exact-clients exact b),
              deliver_exact-copies exact b u,
            )
            (served_once b (scope_in c exact) (scope_in c wild) (copies c b.sent))
      where
        served : Broker
        served = deliver_exact o header payload sender is_from_peer exact b

-- While the socket takes every group, a message routed in a valid broker adds one copy for each
-- connected client that holds the topic, or the wildcard when the topic is not the wildcard, with
-- a scope that takes where the message came from, except for its local sender; no client gets two,
-- and nothing is added but groups with the message's header and payload.
pub deliver_to_subscribers-copies :
    (o : Outside) (b : Broker) (header : Header) (payload sender : Bytes) (is_from_peer : Bool)
    (client : Bytes)
    → TakesAll o
    → IsValid b
    → (copies client (deliver_to_subscribers o b header payload sender is_from_peer).sent
        ≡ suc_if
            (takes sender is_from_peer b client (held b.subscriptions client header.topic)
              || (not (header.topic == wildcard_topic)
                  && takes sender is_from_peer b client
                      (held b.subscriptions client wildcard_topic)))
            (copies client b.sent))
      × Carries header payload b.sent
          (deliver_to_subscribers o b header payload sender is_from_peer).sent
unfolding deliver_to_subscribers subscribers_of lookup
deliver_to_subscribers-copies o b header payload sender is_from_peer client all v = (
  both-copies o header payload sender is_from_peer all client (exact_subscribers b header.topic)
        (wildcard_subscribers b header.topic) b (v.consistent.unique header.topic)
        (if_both IsUnique (header.topic == wildcard_topic) _ _ (λ _. tt)
          (λ _. v.consistent.unique wildcard_topic))
      ∙ ap (λ x. suc_if x (copies client b.sent))
          (rw (
            v.consistent.agree client header.topic,
            v.consistent.agree client wildcard_topic,
            takes_wild o header payload sender is_from_peer all client b
                (header.topic == wildcard_topic)
                (subscribers_at b.subscriptions.topic_subscribers wildcard_topic),
          )),
  Carries-trans
      (deliver_exact-Carries o header payload sender is_from_peer all client
        (exact_subscribers b header.topic) b)
      (deliver_wildcard-Carries o header payload sender is_from_peer all client
        (exact_subscribers b header.topic) (wildcard_subscribers b header.topic) _),
)
