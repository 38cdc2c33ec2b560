-- ===== src/Client/Announced.antt =====
-- common/connectionmanager.cpp: what the broker was last told of each topic, and what the
-- registrations of a client stand for.
use wisp.Prelude.{
  ◌≡◌, refl, sym, inl, inr, Bool-cases, Option-cases, Bool, true, false, Option, none, some, List,
  [], ◌∷◌, ◌==◌, Bytes, bytes_eq, bytes_beq, bytes_beq_iff, if◌then◌else◌,
}
use wisp.Prelude.Map.{lookup}
use wisp.Keys
use wisp.Keys.{
  Origin, decode_subscribe_scope, encode_subscribe_scope, is_control_message, origin_eq,
  origin_beq_iff,
}
use wisp.Wire.{Envelope, make_control}
use wisp.Client.State.{
  CallbackEntry, Client, Worker, union_scope, create_subscribe_envelope, send_raw_envelope,
}
use wisp.Client.Registration.{announce}

-- The scope that a log of control messages, newest first, last gave a topic.
unfoldable pub asked_scope : List Envelope → Bytes → Option Origin
asked_scope [] t = none
asked_scope (e ∷ log) t =
    let earlier = asked_scope log t in
    if e.header.topic == t
    then if e.header.handler_key == Keys.subscribe
      then some (decode_subscribe_scope e.payload)
      else if e.header.handler_key == Keys.unsubscribe
      then none
      else earlier
    else earlier

-- The scope that a topic's callbacks need, as the broker reads it.
abbrev pub needed : List CallbackEntry → Origin
needed callbacks = decode_subscribe_scope (encode_subscribe_scope (union_scope callbacks))

-- The worker's control lane takes every message.
abbrev pub TakesControl : Worker → Type 0
TakesControl w = (log : List Envelope) → w.takes_control log ≡ true

-- A topic without callbacks is not asked for; one with callbacks is, while the client is online,
-- with the scope that the callbacks need.
abbrev pub TopicInStep : Bool → Option (List CallbackEntry) → Option Origin → Type 0
TopicInStep online none scope = scope ≡ none
TopicInStep online (some callbacks) scope = online ≡ true → scope ≡ some (needed callbacks)

abbrev pub InStep : Client → Type 0
InStep c = (t : Bytes) → TopicInStep c.is_connected (lookup t c.handlers) (asked_scope c.control t)

create_subscribe_envelope-header :
    (c : Client) (key : Bytes)
    → (create_subscribe_envelope c key).header
      ≡ (make_control Keys.subscribe c.client_id key).header
unfolding create_subscribe_envelope
create_subscribe_envelope-header c key = elim (Option-cases (lookup key c.handlers)) [
  | inl e ↦ rw (e, create_subscribe_envelope) refl
  | inr (hs, e) ↦ rw (e, create_subscribe_envelope) refl
]

create_subscribe_envelope-payload :
    (c : Client) (key : Bytes) (callbacks : List CallbackEntry)
    → lookup key c.handlers ≡ some callbacks
    → (create_subscribe_envelope c key).payload ≡ encode_subscribe_scope (union_scope callbacks)
unfolding create_subscribe_envelope
create_subscribe_envelope-payload c key callbacks e = rw (e, create_subscribe_envelope) refl

module _ (w : Worker) (all : TakesControl w) where
  -- A control message is written to the log, and nothing else changes.
  pub send_raw_envelope-control :
      (c : Client) (e : Envelope)
      → is_control_message e.header.handler_key ≡ true
      → (send_raw_envelope w c e).0 ≡ record c { control = e ∷ c.control }
  unfolding send_raw_envelope
  send_raw_envelope-control c e h = rw (h, all c.control) refl

  announce_lem :
      (c : Client) (key : Bytes)
      → announce w c key ≡ record c { control = create_subscribe_envelope c key ∷ c.control }
  unfolding announce is_control_message bytes_beq
  announce_lem c key =
      send_raw_envelope-control c (create_subscribe_envelope c key)
        (rw (create_subscribe_envelope-header c key) refl)

  pub announce-handlers : (c : Client) (key : Bytes) → (announce w c key).handlers ≡ c.handlers
  announce-handlers c key = rw (announce_lem c key) refl

  pub announce-is_connected :
      (c : Client) (key : Bytes) → (announce w c key).is_connected ≡ c.is_connected
  announce-is_connected c key = rw (announce_lem c key) refl

  pub asked_scope-announce :
      (c : Client) (key t : Bytes) (callbacks : List CallbackEntry)
      → lookup key c.handlers ≡ some callbacks
      → asked_scope (announce w c key).control t
        ≡ (if key == t then some (needed callbacks) else asked_scope c.control t)
  unfolding asked_scope bytes_beq
  asked_scope-announce c key t callbacks e =
      rw
        (
          announce_lem c key,
          create_subscribe_envelope-header c key,
          create_subscribe_envelope-payload c key callbacks e,
        )
        refl

  -- The topic that is announced is in step, and every other stays so.
  pub announce-TopicInStep :
      (c : Client) (key : Bytes) (hs : List CallbackEntry) (t : Bytes)
      → ((key == t) ≡ false
          → TopicInStep c.is_connected (lookup t c.handlers) (asked_scope c.control t))
      → lookup key c.handlers ≡ some hs
      → TopicInStep
          (announce w c key).is_connected
          (lookup t (announce w c key).handlers)
          (asked_scope (announce w c key).control t)
  announce-TopicInStep c key hs t s e =
      rw (announce-handlers c key, announce-is_connected c key, asked_scope-announce c key t hs e)
        (elim (Bool-cases (key == t)) [
          | inl same ↦ rw (same, sym ((bytes_beq_iff key t).0 same), e) (λ _. refl)
          | inr other ↦ rw other (s other)
        ])
