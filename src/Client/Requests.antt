-- ===== src/Client/Requests.antt =====
-- common/connectionmanager.cpp: publishing, with and without a reply topic, and `sendRequest`.
use wisp.Prelude.{
  ℕ, ◌-◌, Bool, true, false, not, Option, none, [], ◌++◌, ◌==◌, ltb, Bytes, bytes_eq, codes,
  if◌then◌else◌, length, take,
}
use wisp.Keys
use wisp.Keys.{Origin, is_reserved_key}
use wisp.Wire.{Envelope}
use wisp.Beacon.{is_valid_cluster_name}
use wisp.Client.State.{Client, Worker, send_raw_envelope}
use wisp.Client.Registration.{perform_registration, perform_unregistration}

abbrev pub max_topic_length_bytes : ℕ
max_topic_length_bytes = 512

-- The envelope of a publish on `key`; no reply topic is an empty one.
abbrev pub message_for : Client → Bytes → Bytes → Bytes → Envelope
message_for c key payload reply_topic = record {
  header = record {
    handler_key = key;
    sender_id = c.client_id;
    topic = key;
    origin_broker_id = [];
    message_uuid = [];
    reply_topic = reply_topic;
  };
  payload = payload;
}

unfoldable pub send_data_internal : Worker → Client → Bytes → Bytes → Client × Bool
unfolding send_raw_envelope
send_data_internal w c key payload = send_raw_envelope w c (message_for c key payload [])

-- A reply topic that no reply could come back on is refused.
unfoldable pub is_usable_reply_topic : Bytes → Bool
is_usable_reply_topic reply_topic =
    if reply_topic == []
    then false
    else if is_reserved_key reply_topic
    then false
    else not (ltb max_topic_length_bytes (length reply_topic))

unfoldable pub send_encoded_with_reply : Worker → Client → Bytes → Bytes → Bytes → Client × Bool
unfolding is_usable_reply_topic send_raw_envelope
send_encoded_with_reply w c key payload reply_topic =
    if is_usable_reply_topic reply_topic
    then send_raw_envelope w c (message_for c key payload reply_topic)
    else (c, false)

-- `MAX_TOPIC_LENGTH_BYTES > suffix.size() ? … : 0`
unfoldable pub make_reply_topic : Bytes → Bytes → Bytes
make_reply_topic request_topic fresh_uuid =
    let suffix = codes "." ++ fresh_uuid in
    let room : ℕ =
      if ltb (length suffix) max_topic_length_bytes
      then max_topic_length_bytes - length suffix
      else 0 in
    take room request_topic ++ suffix

unfoldable pub set_cluster : Worker → Client → Bytes → Client × Bool
unfolding send_data_internal
set_cluster w c name =
    if not (is_valid_cluster_name name)
    then (c, false)
    else send_data_internal w c Keys.set_cluster name

-- What the other threads do to the client while the caller waits, and the answer, if one comes in
-- time.
abbrev pub Wait : Type 0
Wait = Client → Client × Option Bytes

-- The wait of a request that was queued; one that was not is given up at once.
unfoldable pub await_reply : Wait → Client × Bool → Client × Option Bytes
await_reply wait (c, true) = wait c
await_reply wait (c, false) = (c, none)

-- `promise` is the instance key of the temporary registration, `func` its function.
unfoldable pub send_request :
    Worker → Wait → Bool → Bytes → ℕ → ℕ → Client → Bytes → Bytes → Client × Option Bytes
unfolding await_reply send_raw_envelope make_reply_topic
send_request w wait on_processing_thread fresh_uuid promise func c request_topic payload =
    if on_processing_thread
    then (c, none)
    else let reply_topic = make_reply_topic request_topic fresh_uuid in
      let waiting =
        perform_registration w c reply_topic
          (record { instance_key = promise; func = func; scope = Origin.any }) in
      let (after, answer) =
        await_reply wait
          (send_raw_envelope w waiting (message_for waiting request_topic payload reply_topic)) in
      (perform_unregistration w after reply_topic promise, answer)
