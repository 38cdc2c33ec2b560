-- ===== src/Client/Dispatch.antt =====
-- common/connectionmanager.cpp: `processingLoop` and `handleMessage`, and the answer to the sender of
-- the message in hand.
use wisp.Prelude.{
  ◌&&◌, ℕ, Bool, true, false, not, ◌||◌, none, some, List, [], ◌∷◌, ◌==◌, nat_eq, ltb, Bytes,
  bytes_eq, if◌then◌else◌,
}
use wisp.Prelude.Map.{lookup, contains}
use wisp.Keys
use wisp.Keys.{wildcard_topic, scope_accepts}
use wisp.Wire.{Header, Envelope}
use wisp.Client.State.{CallbackEntry, Client, Worker, send_raw_envelope}
use wisp.Client.Registration.{resubscribe_all}

-- The user's functions, by number: what a call with these bytes does to the client.
abbrev pub User : Type 0
User = ℕ → Bytes → Client → Client

-- Where a message entered the mesh, asked only when some registration cares.
unfoldable pub is_local : Client → Header → Bool
is_local c header =
    if ltb 0 c.scoped_handlers
    then c.broker_id == [] || header.origin_broker_id == c.broker_id
    else true

-- The functions that a snapshot of registrations calls; 0 is an empty function.
unfoldable pub triggered : Bool → List CallbackEntry → List ℕ
triggered local_message [] = []
triggered local_message (entry ∷ callbacks) =
    let rest = triggered local_message callbacks in
    if not (scope_accepts entry.scope local_message)
    then rest
    else if entry.func == 0
    then rest
    else entry.func ∷ rest

unfoldable pub call_each : User → Bytes → List ℕ → Client → Client
call_each user payload [] c = c
call_each user payload (func ∷ funcs) c = call_each user payload funcs (user func payload c)

-- The snapshots, which later registrations do not change.
unfoldable pub exact_callbacks : Client → Bytes → List CallbackEntry
exact_callbacks c topic = elim (lookup topic c.handlers) [ none ↦ [] | some callbacks ↦ callbacks ]

unfoldable pub wildcard_callbacks : Client → Bytes → List CallbackEntry
unfolding exact_callbacks
wildcard_callbacks c topic =
    if topic == wildcard_topic then [] else exact_callbacks c wildcard_topic

-- `callbacks || wildcardCallbacks`
unfoldable pub has_callbacks : Client → Bytes → Bool
has_callbacks c topic =
    contains topic c.handlers
    || (not (topic == wildcard_topic) && contains wildcard_topic c.handlers)

-- Both dispatches, with the reply topic at hand while they run.
unfoldable pub dispatch : User → Client → Envelope → Client
unfolding triggered call_each exact_callbacks wildcard_callbacks is_local
dispatch user c envelope =
    let topic = envelope.header.topic in
    let local_message = is_local c envelope.header in
    let named =
      call_each user envelope.payload (triggered local_message (exact_callbacks c topic))
        (record c { current_reply_topic = envelope.header.reply_topic }) in
    let all =
      call_each user envelope.payload (triggered local_message (wildcard_callbacks c topic))
        named in
    record all { current_reply_topic = [] }

unfoldable pub handle_message : User → Client → Envelope → Client
unfolding has_callbacks dispatch
handle_message user c envelope =
    if has_callbacks c envelope.header.topic then dispatch user c envelope else c

unfoldable pub handle_one : User → Worker → Client → Envelope → Client
unfolding handle_message
handle_one user w c envelope =
    if envelope.header.handler_key == Keys.reset
    then resubscribe_all w c
    else handle_message user c envelope

-- The messages in the order of the queue, until the client is shut down.
unfoldable pub process_each : User → Worker → List Envelope → Client → Client
unfolding handle_one
process_each user w [] c = c
process_each user w (envelope ∷ envelopes) c = elim c.is_running [
  | true ↦ process_each user w envelopes (handle_one user w c envelope)
  | false ↦ c
]

-- Outside of a request there is nobody to answer.
unfoldable pub reply_to_sender : Worker → Client → Bytes → Client × Bool
unfolding send_raw_envelope
reply_to_sender w c payload =
    if c.current_reply_topic == []
    then (c, false)
    else send_raw_envelope w c (record {
      header = record {
        handler_key = c.current_reply_topic;
        sender_id = c.client_id;
        topic = c.current_reply_topic;
        origin_broker_id = [];
        message_uuid = [];
        reply_topic = [];
      };
      payload = payload;
    })
