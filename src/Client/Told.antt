-- ===== src/Client/Told.antt =====
-- common/connectionmanager.cpp: what the broker was told of a client's topics, after the
-- registrations, unregistrations and changes of the connection that a client goes through.
use wisp.Prelude.{
  ◌≡◌, refl, sym, subst, ◌∙◌, inl, inr, Bool-cases, Option-cases, Bool, true, false, not, ◌&&◌,
  Option, none, some, List, [], ◌∷◌, ◌++◌, ◌==◌, Bytes, bytes_eq, bytes_beq, bytes_beq_iff, arith,
  if_both, ℕ, is_some,
}
use mathlib.Core.Option
use wisp.Prelude.Map.{
  Map, lookup, keys, insert_ordered, erase, lookup-insert_ordered, lookup-erase, contains,
}
use wisp.Keys
use wisp.Keys.{Origin, is_control_message, origin_eq, origin_beq_iff}
use wisp.Wire.{Envelope}
use wisp.Interest.Asked.{in_list, in_list-keys}
use wisp.Client.State.{
  CallbackEntry, Client, Worker, union_scope, create_control_envelope, send_raw_envelope, start,
  learn_broker_id,
}
use wisp.Client.Registration.{
  callbacks_at, with_callback, announce, withdraw, narrow, settle, announce_each,
  perform_registration, perform_unregistration, resubscribe_all, on_status, without_instance,
  uncount_scoped,
}
use wisp.Client.Announced.{
  asked_scope, needed, TakesControl, TopicInStep, InStep, send_raw_envelope-control,
  announce-TopicInStep, announce-handlers,
}

module _ (w : Worker) (all : TakesControl w) where
  perform_registration-InStep :
      (c : Client) (key : Bytes) (entry : CallbackEntry)
      → InStep c
      → InStep (perform_registration w c key entry)
  unfolding perform_registration with_callback
  perform_registration-InStep c key entry s =
      if_both InStep c.is_connected _ _
        (λ on t.
          announce-TopicInStep w all registered key next t
            (λ other. rw (lookup-insert_ordered key t next c.handlers, other) (s t))
            (rw (lookup-insert_ordered key key next c.handlers)
              (ground (arith, bytes_beq_iff key key))))
        (λ off t. rw (lookup-insert_ordered key t next c.handlers) (elim (Bool-cases (key == t)) [
          | inl same ↦ rw same (λ on. ground (arith, on, off))
          | inr other ↦ rw other (s t)
        ]))
    where
      next : List CallbackEntry
      next = callbacks_at c key ++ entry ∷ []

      registered : Client
      registered = with_callback c key entry

  withdraw-InStep : (c : Client) (key : Bytes) → InStep c → InStep (withdraw w c key)
  unfolding withdraw is_control_message bytes_beq asked_scope
  withdraw-InStep c key s t =
      rw
        (
          send_raw_envelope-control w all (record c { handlers = erase key c.handlers })
              (create_control_envelope c Keys.unsubscribe key) refl,
          lookup-erase key t c.handlers,
        )
        (elim (Bool-cases (key == t)) [ inl same ↦ rw same refl | inr other ↦ rw other (s t) ])

  narrow-InStep :
      (c : Client) (key : Bytes) (callbacks next : List CallbackEntry)
      → InStep c
      → lookup key c.handlers ≡ some callbacks
      → InStep (narrow w c key (union_scope callbacks) next)
  unfolding narrow
  narrow-InStep c key callbacks next s e =
      if_both InStep (c.is_connected && not (union_scope next == union_scope callbacks)) _ _
        (λ on t.
          announce-TopicInStep w all (record c { handlers = insert_ordered key next c.handlers })
            key next t (λ other. rw (lookup-insert_ordered key t next c.handlers, other) (s t))
            (rw (lookup-insert_ordered key key next c.handlers)
              (ground (arith, bytes_beq_iff key key))))
        (λ off t. rw (lookup-insert_ordered key t next c.handlers) (elim (Bool-cases (key == t)) [
          | inl same ↦ rw same (λ on.
              unmoved (λ t'. asked_scope c.control t') (same_topic t same)
                (ground (arith, off, on, origin_beq_iff (union_scope next) (union_scope callbacks)))
                (subst (λ o. TopicInStep c.is_connected o (asked_scope c.control key)) e (s key)
                  on))
          | inr other ↦ rw other (s t)
        ]))
    where
      same_topic : (t : Bytes) → (key == t) ≡ true → key ≡ t
      same_topic t h = (bytes_beq_iff key t).0 h

      unmoved :
          (f : Bytes → Option Origin) {t : Bytes}
          → key ≡ t
          → union_scope next ≡ union_scope callbacks
          → f key ≡ some (needed callbacks)
          → f t ≡ some (needed next)
      unmoved f p u h = rw (sym p, u) h

  settle-InStep :
      (c : Client) (key : Bytes) (callbacks next : List CallbackEntry)
      → InStep c
      → lookup key c.handlers ≡ some callbacks
      → InStep (settle w c key (union_scope callbacks) next)
  unfolding settle
  settle-InStep c key callbacks [] s e = withdraw-InStep c key s
  settle-InStep c key callbacks (entry ∷ next) s e =
      narrow-InStep c key callbacks (entry ∷ next) s e

  perform_unregistration-InStep :
      (c : Client) (key : Bytes) (instance_key : ℕ)
      → InStep c
      → InStep (perform_unregistration w c key instance_key)
  unfolding perform_unregistration
  perform_unregistration-InStep c key instance_key s = elim (Option-cases (lookup key c.handlers)) [
    | inl e ↦ rw (e, perform_unregistration) s
    | inr (hs, e) ↦
        rw (e, perform_unregistration)
          (settle-InStep
            (record c { scoped_handlers = uncount_scoped instance_key hs c.scoped_handlers }) key hs
            (without_instance instance_key hs) s e)
  ]

  -- What is still to be announced may be out of step.
  announce_each-InStep :
      (topics : List Bytes) (c : Client)
      → ((t : Bytes) → in_list t topics ≡ true → is_some (lookup t c.handlers) ≡ true)
      → ((t : Bytes)
          → in_list t topics ≡ false
          → TopicInStep c.is_connected (lookup t c.handlers) (asked_scope c.control t))
      → InStep (announce_each w topics c)
  unfolding announce_each in_list
  announce_each-InStep [] c known s = λ t. s t refl
  announce_each-InStep (x ∷ topics) c known s = elim (Option-cases (lookup x c.handlers)) [
    | inl e ↦ absurd (ground (arith, e, known x, bytes_beq_iff x x))
    | inr (hs, e) ↦
        announce_each-InStep topics (announce w c x)
          (λ t h. rw (announce-handlers w all c x) (known t (ground (arith, h))))
          (λ t h. announce-TopicInStep w all c x hs t (λ other. s t (rw other h)) e)
  ]

  resubscribe_all-InStep :
      (c : Client)
      → ((t : Bytes) → lookup t c.handlers ≡ none → asked_scope c.control t ≡ none)
      → InStep (resubscribe_all w c)
  unfolding resubscribe_all contains
  resubscribe_all-InStep c s =
      announce_each-InStep (keys c.handlers) c
        (λ t h. sym (contains_lem t c.handlers) ∙ sym (in_list-keys t c.handlers) ∙ h)
        (λ t h. forgotten t (sym (contains_lem t c.handlers) ∙ sym (in_list-keys t c.handlers) ∙ h))
    where
      contains_lem :
          (t : Bytes) (m : Map (List CallbackEntry)) → contains t m ≡ is_some (lookup t m)
      contains_lem t m = refl

      forgotten :
          (t : Bytes)
          → is_some (lookup t c.handlers) ≡ false
          → TopicInStep c.is_connected (lookup t c.handlers) (asked_scope c.control t)
      forgotten t h = elim (Option-cases (lookup t c.handlers)) [
        | inl e ↦ rw e (s t e)
        | inr (hs, e) ↦ absurd (ground (arith, e, h))
      ]

  withdrawn :
      (c : Client) (t : Bytes)
      → InStep c
      → lookup t c.handlers ≡ none
      → asked_scope c.control t ≡ none
  withdrawn c t s e = subst (λ o. TopicInStep c.is_connected o (asked_scope c.control t)) e (s t)

  on_status-InStep : (c : Client) (online : Bool) → InStep c → InStep (on_status w c online)
  unfolding on_status is_control_message bytes_beq asked_scope
  on_status-InStep c online s =
      if_both InStep online _ _
        (λ on. resubscribe_all-InStep (send_raw_envelope w noted hello).0 (
          rw (send_raw_envelope-control w all noted hello refl)
            (λ t e. ground (arith, withdrawn c t s e))))
        (λ off t. elim (Option-cases (lookup t c.handlers)) [
          | inl e ↦ rw e (withdrawn c t s e)
          | inr (hs, e) ↦ rw e (λ on. ground (arith, on, off))
        ])
    where
      noted : Client
      noted = record c { is_connected = online }

      hello : Envelope
      hello = create_control_envelope noted Keys.connect []

  publish-InStep :
      (c : Client) (e : Envelope)
      → (e.header.handler_key == Keys.subscribe) ≡ false
      → (e.header.handler_key == Keys.unsubscribe) ≡ false
      → InStep c
      → InStep (send_raw_envelope w c e).0
  unfolding send_raw_envelope asked_scope
  publish-InStep c e h k s =
      if_both (λ (p : Client × Bool). InStep p.0) (is_control_message e.header.handler_key) _ _
        (λ control.
          if_both (λ (p : Client × Bool). InStep p.0) (w.takes_control c.control) _ _
            (λ on t.
              rw (h, k)
                (if_both (λ scope. TopicInStep c.is_connected (lookup t c.handlers) scope)
                  (e.header.topic == t) _ _ (λ same. s t) (λ other. s t)))
            (λ off. s))
        (λ data'.
          if_both (λ (p : Client × Bool). InStep p.0) (w.takes_data c.published) _ _ (λ on. s)
            (λ off. s))

-- What happens to a client: callbacks come and go, the connection goes up and down, the broker asks
-- for everything anew, a message that is no subscription is sent, a request is at hand or not, and the
-- worker learns the broker's name from its heartbeat acks and resets, `noteBrokerId`.
pub data Step (w : Worker) : Client → Client → Type 0 where
  registers :
      {c : Client} (key : Bytes) (entry : CallbackEntry)
      → Step w c (perform_registration w c key entry)
  unregisters :
      {c : Client} (key : Bytes) (instance_key : ℕ)
      → Step w c (perform_unregistration w c key instance_key)
  turns : {c : Client} (online : Bool) → Step w c (on_status w c online)
  resets : {c : Client} → Step w c (resubscribe_all w c)
  publishes :
      {c : Client} (e : Envelope)
      → (e.header.handler_key == Keys.subscribe) ≡ false
      → (e.header.handler_key == Keys.unsubscribe) ≡ false
      → Step w c (send_raw_envelope w c e).0
  attends :
      {c : Client} (reply_topic : Bytes) → Step w c (record c { current_reply_topic = reply_topic })
  learns : {c : Client} (broker_id : Bytes) → Step w c (learn_broker_id c broker_id)

pub data Steps (w : Worker) : Client → Client → Type 0 where
  still : {c : Client} → Steps w c c
  step : {a b c : Client} → Step w a b → Steps w b c → Steps w a c

Step-InStep : (w : Worker) (all : TakesControl w) {a b : Client} → Step w a b → InStep a → InStep b
unfolding learn_broker_id
Step-InStep w all (Step.registers {c} key entry) s = perform_registration-InStep w all c key entry s
Step-InStep w all (Step.unregisters {c} key instance_key) s =
    perform_unregistration-InStep w all c key instance_key s
Step-InStep w all (Step.turns {c} online) s = on_status-InStep w all c online s
Step-InStep w all (Step.resets {c}) s =
    resubscribe_all-InStep w all c (λ t e. withdrawn w all c t s e)
Step-InStep w all (Step.publishes {c} e h k) s = publish-InStep w all c e h k s
Step-InStep w all (Step.attends {c} t) s = s
Step-InStep w all (Step.learns {c} broker_id) s =
    if_both InStep (broker_id == []) _ _ (λ nameless. s) (λ named. s)

Steps-InStep :
    (w : Worker) (all : TakesControl w) {a b : Client} → Steps w a b → InStep a → InStep b
Steps-InStep w all Steps.still s = s
Steps-InStep w all (Steps.step one more) s = Steps-InStep w all more (Step-InStep w all one s)

-- While the worker takes its control messages, whatever a new client goes through: once it is
-- online, the broker was last told to subscribe it to each topic that has callbacks, with the scope
-- that those callbacks need, and was told to drop every other topic or never told of it.
pub told :
    (w : Worker) (configured fresh_uuid : Bytes) (c : Client) (t : Bytes)
    → TakesControl w
    → Steps w (start configured fresh_uuid) c
    → c.is_connected ≡ true
    → asked_scope c.control t ≡ Option.map needed (lookup t c.handlers)
unfolding asked_scope lookup
told w configured fresh_uuid c t all steps on = elim (Option-cases (lookup t c.handlers)) [
  | inl e ↦ rw e (withdrawn w all c t now e)
  | inr (hs, e) ↦
      rw e (subst (λ o. TopicInStep c.is_connected o (asked_scope c.control t)) e (now t) on)
]
  where
    now : InStep c
    now = Steps-InStep w all steps (λ s. refl)
