-- ===== src/Client/Served.antt =====
-- common/connectionmanager.cpp and server/broker.cpp together: a broker that handles a client's
-- control messages in the order in which they were sent.
use wisp.Prelude.{
  ◌≡◌, refl, sym, ap, ◌∙◌, inl, inr, Bool-cases, Bool, true, not, ◌&&◌, ◌||◌, List, [], ◌∷◌, ◌==◌,
  Bytes, bytes_eq, bytes_beq, bytes_beq_iff, arith, ℕ, suc, ◌≤◌, ltb, length,
}
use mathlib.Core.Option
use wisp.Prelude.Map.{lookup}
use wisp.Keys
use wisp.Keys.{Origin, decode_subscribe_scope}
use wisp.Wire.{Header, Envelope}
use wisp.Registry.{topics_at}
use wisp.Registry.Consistent.{held}
use wisp.Registry.Removal.{held-unsubscribe}
use wisp.Registry.Count.{length-unsubscribe}
use wisp.Broker.State.{Broker, Outside}
use wisp.Broker.Session.{
  handle_client_message, dispatch, greet, on_subscribe, on_unsubscribe, max_topic_length_bytes,
  max_subscriptions_per_client,
}
use wisp.Broker.Invariant.{IsValid, SameCore-IsValid}
use wisp.Broker.Invariant.Handlers.{greet-SameCore, handle_client_message-IsValid}
use wisp.Broker.Caps.{
  is_allowed, held-on_subscribe, length-on_subscribe, can_subscribe-of_room,
  on_unsubscribe-subscriptions,
}
use wisp.Client.Announced.{asked_scope, needed, TakesControl}
use wisp.Client.Told.{Steps, told}
use wisp.Client.State.{Client, Worker, start}

-- The broker after a client's control messages, which stand with the newest first.
abbrev pub receive : Outside → Bytes → ℕ → Broker → List Envelope → Broker
receive o client now b [] = b
receive o client now b (e ∷ log) =
    (handle_client_message o (receive o client now b log) e.header e.payload client now).0

-- A control message about a topic whose length the broker allows.
abbrev pub is_within : Envelope → Bool
is_within e =
    e.header.handler_key == Keys.connect
    || (e.header.handler_key == Keys.subscribe || e.header.handler_key == Keys.unsubscribe)
      && (not (e.header.topic == []) && not (ltb max_topic_length_bytes (length e.header.topic)))

abbrev pub all_within : List Envelope → Bool
all_within [] = true
all_within (e ∷ log) = is_within e && all_within log

module _ (o : Outside) (client : Bytes) (now : ℕ) where
  -- The broker knows of the client what the log says, and holds no more topics than it has messages.
  record Knows (b : Broker) (log : List Envelope) : Type 0 where
    valid : IsValid b
    knows : (t : Bytes) → held b.subscriptions client t ≡ asked_scope log t
    few : length (topics_at b.subscriptions client) ≤ length log

  handle-connect :
      (b : Broker) (header : Header) (payload : Bytes)
      → header.handler_key ≡ Keys.connect
      → (handle_client_message o b header payload client now).0 ≡ greet o b client Keys.connect now
  unfolding handle_client_message dispatch bytes_beq
  handle-connect b header payload e = rw e refl

  handle-subscribe :
      (b : Broker) (header : Header) (payload : Bytes)
      → header.handler_key ≡ Keys.subscribe
      → (handle_client_message o b header payload client now).0
        ≡ on_subscribe (greet o b client Keys.subscribe now) client header.topic payload
  unfolding handle_client_message dispatch bytes_beq
  handle-subscribe b header payload e = rw e refl

  handle-unsubscribe :
      (b : Broker) (header : Header) (payload : Bytes)
      → header.handler_key ≡ Keys.unsubscribe
      → (handle_client_message o b header payload client now).0
        ≡ on_unsubscribe (greet o b client Keys.unsubscribe now) client header.topic
  unfolding handle_client_message dispatch bytes_beq
  handle-unsubscribe b header payload e = rw e refl

  greet-subscriptions :
      (b : Broker) (key : Bytes) → (greet o b client key now).subscriptions ≡ b.subscriptions
  greet-subscriptions b key = sym (greet-SameCore o b client key now).subscriptions

  module _ (b : Broker) (log : List Envelope) (e : Envelope) (k : Knows b log) where
    after : Broker
    after = (handle_client_message o b e.header e.payload client now).0

    after-IsValid : IsValid after
    unfolding after
    after-IsValid = handle_client_message-IsValid o b e.header e.payload client now k.valid

    connect-Knows : e.header.handler_key ≡ Keys.connect → Knows after (e ∷ log)
    unfolding after asked_scope bytes_beq
    connect-Knows h = record {
      valid = unfold after in after-IsValid;
      knows = λ t.
          rw (handle-connect b e.header e.payload h, greet-subscriptions b Keys.connect, h)
            (ground (arith, k.knows t));
      few =
          rw (handle-connect b e.header e.payload h, greet-subscriptions b Keys.connect)
            (ground (arith, k.few));
    }

    unsubscribe-Knows : e.header.handler_key ≡ Keys.unsubscribe → Knows after (e ∷ log)
    unfolding after asked_scope bytes_beq
    unsubscribe-Knows h = record {
      valid = unfold after in after-IsValid;
      knows = λ t.
          rw
            (
              handle-unsubscribe b e.header e.payload h,
              on_unsubscribe-subscriptions (greet o b client Keys.unsubscribe now) client
                  e.header.topic,
              greet-subscriptions b Keys.unsubscribe,
              held-unsubscribe b.subscriptions client e.header.topic client t,
              h,
            )
            (ground (arith, k.knows t, bytes_beq_iff client client));
      few =
          rw
            (
              handle-unsubscribe b e.header e.payload h,
              on_unsubscribe-subscriptions (greet o b client Keys.unsubscribe now) client
                  e.header.topic,
              greet-subscriptions b Keys.unsubscribe,
            )
            (ground
              (arith, k.few, length-unsubscribe b.subscriptions client e.header.topic client));
    }

    subscribe-Knows :
        e.header.handler_key ≡ Keys.subscribe
        → is_within e ≡ true
        → suc (length log) ≤ max_subscriptions_per_client
        → Knows after (e ∷ log)
    unfolding after asked_scope bytes_beq
    subscribe-Knows h ok room = record {
      valid = unfold after in after-IsValid;
      knows = λ t.
          rw
            (
              handle-subscribe b e.header e.payload h,
              held-on_subscribe greeted client e.header.topic e.payload client t greeted-IsValid,
              allowed,
              greet-subscriptions b Keys.subscribe,
              h,
            )
            (ground (arith, k.knows t, bytes_beq_iff client client));
      few = rw (handle-subscribe b e.header e.payload h) (
          ground (
            arith,
            k.few,
            greet-subscriptions b Keys.subscribe,
            length-on_subscribe greeted client e.header.topic e.payload,
          ));
    }
      where
        greeted : Broker
        greeted = greet o b client Keys.subscribe now

        greeted-IsValid : IsValid greeted
        greeted-IsValid =
            SameCore-IsValid b greeted (greet-SameCore o b client Keys.subscribe now) k.valid

        allowed : is_allowed greeted client e.header.topic ≡ true
        allowed = ground (
          arith,
          can_subscribe-of_room greeted client e.header.topic,
          k.few,
          ap (λ r. length (topics_at r client)) (greet-subscriptions b Keys.subscribe),
          rw h at ok,
        )

    after-Knows :
        is_within e ≡ true → suc (length log) ≤ max_subscriptions_per_client → Knows after (e ∷ log)
    after-Knows ok room = elim (Bool-cases (e.header.handler_key == Keys.connect)) [
      | inl h ↦ connect-Knows ((bytes_beq_iff e.header.handler_key Keys.connect).0 h)
      | inr other ↦ elim (Bool-cases (e.header.handler_key == Keys.subscribe)) [
        | inl h ↦ subscribe-Knows ((bytes_beq_iff e.header.handler_key Keys.subscribe).0 h) ok room
        | inr neither ↦ unsubscribe-Knows (
            ground (arith, bytes_beq_iff e.header.handler_key Keys.unsubscribe, ok, other, neither))
      ]
    ]

  receive-Knows :
      (b : Broker) (log : List Envelope)
      → Knows b []
      → all_within log ≡ true
      → length log ≤ max_subscriptions_per_client
      → Knows (receive o client now b log) log
  unfolding after
  receive-Knows b [] k ok room = k
  receive-Knows b (e ∷ log) k ok room =
      after-Knows (receive o client now b log) log e
        (receive-Knows b log k (ground (arith, ok)) (omega (arith, room))) (ground (arith, ok)) room

-- A client that is online, whose worker takes its control messages, and a valid broker that knew no
-- topic of that client and has handled those messages, at most 10000 and about topics of 1 to 512
-- bytes: the broker holds for the client just the topics that have callbacks, each with the scope
-- that those callbacks need.
pub served :
    (o : Outside) (w : Worker) (configured fresh_uuid : Bytes) (c : Client) (now : ℕ) (b : Broker)
    (t : Bytes)
    → TakesControl w
    → Steps w (start configured fresh_uuid) c
    → c.is_connected ≡ true
    → IsValid b
    → topics_at b.subscriptions c.client_id ≡ []
    → all_within c.control ≡ true
    → length c.control ≤ max_subscriptions_per_client
    → held (receive o c.client_id now b c.control).subscriptions c.client_id t
      ≡ Option.map needed (lookup t c.handlers)
unfolding asked_scope lookup
served o w configured fresh_uuid c now b t all steps on v fresh ok few =
    (receive-Knows o c.client_id now b c.control unknown ok few).knows t
    ∙ told w configured fresh_uuid c t all steps on
  where
    unknown : Knows o c.client_id now b []
    unknown = record { valid = v; knows = λ s. rw fresh refl; few = rw fresh (ground arith) }
