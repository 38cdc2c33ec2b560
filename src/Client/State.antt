-- ===== src/Client/State.antt =====
-- common/connectionmanager.h and common/connectionmanager.cpp: the state of a client, the worker that
-- sends for it, and the envelopes it makes.
use wisp.Prelude.{
  ℕ, ◌+◌, ◌-◌, ◌%◌, ◌^◌, Bool, true, false, none, some, List, [], ◌∷◌, ◌++◌, ◌==◌, ltb, Bytes,
  bytes_eq, codes, if◌then◌else◌, length, take,
}
use wisp.Prelude.Map.{Map, lookup}
use wisp.Keys
use wisp.Keys.{Origin, widen, is_control_message, encode_subscribe_scope}
use wisp.Wire.{Envelope, make_control}

-- A registration. Instances and functions are known by number; no instance is 0, the null pointer.
pub record CallbackEntry : Type 0 where
  pub instance_key : ℕ
  pub func : ℕ
  pub scope : Origin

-- What the worker accepted on its control lane and on its data lane stands with the newest first.
-- `broker_id` is what the worker answers; `current_reply_topic` is the processing thread's.
pub record Client : Type 0 where
  pub client_id : Bytes
  pub handlers : Map (List CallbackEntry)
  pub scoped_handlers : ℕ
  pub is_running : Bool
  pub is_connected : Bool
  pub broker_id : Bytes
  pub current_reply_topic : Bytes
  pub control : List Envelope
  pub published : List Envelope

-- Whether the worker's queues take another message, after all that they have taken.
pub record Worker : Type 0 where
  pub takes_control : List Envelope → Bool
  pub takes_data : List Envelope → Bool

-- `size_t` counters.
abbrev pub increment : ℕ → ℕ
increment n = (n + 1) % 2 ^ 64

abbrev pub decrement : ℕ → ℕ
decrement n = (n + (2 ^ 64 - 1)) % 2 ^ 64

-- The id that the constructor connects as: a routing id of 1 to 255 bytes.
unfoldable pub corrected_id : Bytes → Bytes → Bytes
corrected_id configured fresh_uuid =
    if configured == []
    then codes "wisp-" ++ take 8 fresh_uuid
    else if ltb 255 (length configured)
    then take 255 configured
    else configured

-- The constructor.
abbrev pub start : Bytes → Bytes → Client
start configured fresh_uuid = record {
  client_id = corrected_id configured fresh_uuid;
  handlers = [];
  scoped_handlers = 0;
  is_running = true;
  is_connected = false;
  broker_id = [];
  current_reply_topic = [];
  control = [];
  published = [];
}

-- `noteBrokerId` of the client's worker: a sender that names itself.
unfoldable pub learn_broker_id : Client → Bytes → Client
learn_broker_id c broker_id = if broker_id == [] then c else record c { broker_id = broker_id }

-- `unionScope`
unfoldable pub union_scope : List CallbackEntry → Origin
union_scope [] = Origin.nowhere
union_scope (entry ∷ callbacks) = widen entry.scope (union_scope callbacks)

abbrev pub create_control_envelope : Client → Bytes → Bytes → Envelope
create_control_envelope c control_key topic = make_control control_key c.client_id topic

unfoldable pub create_subscribe_envelope : Client → Bytes → Envelope
create_subscribe_envelope c key = elim (lookup key c.handlers) [
  | none ↦ make_control Keys.subscribe c.client_id key
  | some callbacks ↦ record (make_control Keys.subscribe c.client_id key) {
    payload = encode_subscribe_scope (union_scope callbacks);
  }
]

-- Control keys go by the control lane, all else by the data lane.
unfoldable pub send_raw_envelope : Worker → Client → Envelope → Client × Bool
send_raw_envelope w c envelope =
    if is_control_message envelope.header.handler_key
    then (if w.takes_control c.control
        then (record c { control = envelope ∷ c.control }, true)
        else (c, false))
    else if w.takes_data c.published
    then (record c { published = envelope ∷ c.published }, true)
    else (c, false)
