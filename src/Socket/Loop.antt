-- ===== src/Socket/Loop.antt =====
-- common/zmqworker.cpp, `runLoop`: one iteration, a step at a time. A step is one access to a queue or
-- to the state under `m_syncMutex`, with what the thread does by itself up to the next one.
use wisp.Prelude.{
  ◌+◌, ◌-◌, ◌%◌, ◌^◌, Bool, true, false, not, ◌&&◌, ◌||◌, none, some, List, [], ◌∷◌, ◌++◌, ◌==◌,
  ltb, Bytes, bytes_eq, if◌then◌else◌,
}
use wisp.Keys
use wisp.Wire.{Envelope}
use wisp.Queue.{drain_to, is_empty}
use wisp.Socket.State.{
  ZmqWorker, Item, Place, Moment, control_backlog_limit, data_backlog_limit, send_batch,
  flush_control, over, trim, send_heartbeat, heartbeat_interval, server_timeout,
}

abbrev pub none_held : List Item → Bool
none_held [] = true
none_held (item ∷ items) = false

unfoldable pub note_broker_id : Bytes → ZmqWorker → ZmqWorker
note_broker_id broker_id s = if broker_id == [] then s else record s { broker_id = broker_id }

-- A message came in. What is no answer to a heartbeat goes on to the inbound queue or the callback.
unfoldable pub receive : Moment → Envelope → ZmqWorker → ZmqWorker
unfolding note_broker_id
receive m e s =
    let key = e.header.handler_key in
    let seen = record s { last_rx = m.now } in
    let named =
      if key == Keys.heartbeat_ack || key == Keys.reset
      then note_broker_id e.header.sender_id seen
      else seen in
    let online =
      if named.is_online
      then named
      else record named { is_online = true; statuses = true ∷ named.statuses } in
    if key == Keys.heartbeat_ack
    then record online { acks_received = (online.acks_received + 1) % 2 ^ 64 }
    else online

unfoldable pub poll : Moment → ZmqWorker → ZmqWorker
unfolding receive
poll m s = elim m.received [ none ↦ s | some e ↦ receive m e s ]

-- The backlog takes what the queue held, loses its oldest beyond the limit, and goes out.
unfoldable pub drain_control : Moment → ZmqWorker → ZmqWorker
unfolding trim over flush_control
drain_control m s =
    let waiting = s.control_backlog ++ (drain_to s.control_queue).0 in
    flush_control m (trim control_backlog_limit waiting) (record s {
      control_queue = (drain_to s.control_queue).1;
      dropped_sends = (s.dropped_sends + over control_backlog_limit waiting) % 2 ^ 64;
    })

unfoldable pub drain_data : ZmqWorker → ZmqWorker
drain_data s = if not s.is_online then record s { place = Place.held_gate } else record s {
  batch = (drain_to s.outbound_queue).0;
  outbound_queue = (drain_to s.outbound_queue).1;
  place = if none_held (drain_to s.outbound_queue).0 then Place.held_gate else Place.placing;
}

-- Straight from the drain when there is nothing to be ordered against.
unfoldable pub place_data : ZmqWorker → ZmqWorker
unfolding trim over
place_data s =
    let held = s.data_backlog ++ s.batch in
    if none_held s.data_backlog && (none_held s.control_backlog && is_empty s.control_queue)
    then record s { place = Place.sending }
    else record s {
      data_backlog = trim data_backlog_limit held;
      dropped_sends = (s.dropped_sends + over data_backlog_limit held) % 2 ^ 64;
      batch = [];
      place = Place.held_gate;
    }

unfoldable pub gate_held : ZmqWorker → ZmqWorker
gate_held s = record s {
  place =
      if not (none_held s.data_backlog) && (none_held s.control_backlog && is_empty s.control_queue)
      then Place.sending_held
      else Place.encoded_gate;
}

unfoldable pub gate_encoded : ZmqWorker → ZmqWorker
gate_encoded s = record s {
  place =
      if s.is_online && (none_held s.control_backlog && (is_empty s.control_queue && s.has_encoded))
      then Place.draining_encoded
      else Place.sync_control;
}

-- Whether everything has gone out: the queues are asked one after the other.
unfoldable pub ask_control : ZmqWorker → ZmqWorker
ask_control s = record s {
  mark = s.clock;
  place =
      if s.is_online
        && (none_held s.control_backlog && (none_held s.data_backlog && is_empty s.control_queue))
      then Place.sync_outbound
      else Place.timing;
}

unfoldable pub ask_outbound : ZmqWorker → ZmqWorker
ask_outbound s = record s {
  place = if is_empty s.outbound_queue then Place.sync_encoded else Place.timing;
}

unfoldable pub ask_encoded : ZmqWorker → ZmqWorker
ask_encoded s = record s {
  place = if is_empty s.encoded_queue then Place.sync_lock else Place.timing;
}

unfoldable pub answer_sync : Moment → ZmqWorker → ZmqWorker
unfolding send_heartbeat
answer_sync m s =
    if s.sync_requested
    then record (send_heartbeat m (record s { sync_requested = false; last_heartbeat = m.now })) {
      sync_target = (s.heartbeats_sent + 1) % 2 ^ 64;
      place = Place.timing;
    }
    else record s { place = Place.timing }

-- The times are points of a steady clock, which never runs backwards.
unfoldable pub beat_when_due : Moment → ZmqWorker → ZmqWorker
unfolding send_heartbeat heartbeat_interval
beat_when_due m s =
    if ltb (heartbeat_interval s.config) (m.now - s.last_heartbeat)
    then record (send_heartbeat m s) { last_heartbeat = m.now }
    else s

unfoldable pub notice_silence : Moment → ZmqWorker → ZmqWorker
unfolding server_timeout
notice_silence m s =
    if s.is_online && ltb (server_timeout s.config) (m.now - s.last_rx)
    then record s { is_online = false; statuses = false ∷ s.statuses }
    else s

unfoldable pub keep_alive : Moment → ZmqWorker → ZmqWorker
unfolding beat_when_due notice_silence
keep_alive m s = record (notice_silence m (beat_when_due m s)) { place = Place.polling }

-- The drain before the socket closes: one of its attempts to flush.
unfoldable pub close : Moment → ZmqWorker → ZmqWorker
unfolding flush_control
close m s =
    flush_control m (s.control_backlog ++ (drain_to s.control_queue).0)
      (record s { control_queue = (drain_to s.control_queue).1; place = Place.closed })

-- The step that the loop takes at a place.
unfoldable pub advance_at : Place → Moment → ZmqWorker → ZmqWorker
unfolding poll drain_control drain_data place_data send_batch gate_held gate_encoded ask_control
    ask_outbound ask_encoded answer_sync keep_alive close
advance_at Place.polling m s =
    if s.running then record (poll m s) { place = Place.draining_control } else close m s
advance_at Place.draining_control m s = record (drain_control m s) { place = Place.draining_data }
advance_at Place.draining_data m s = drain_data s
advance_at Place.placing m s = place_data s
advance_at Place.sending m s = record (send_batch m s.batch s) {
  batch = [];
  place = Place.held_gate;
}
advance_at Place.held_gate m s = gate_held s
advance_at Place.sending_held m s = record (send_batch m s.data_backlog s) {
  data_backlog = [];
  place = Place.encoded_gate;
}
advance_at Place.encoded_gate m s = gate_encoded s
advance_at Place.draining_encoded m s =
    record (send_batch m (drain_to s.encoded_queue).0
      (record s { encoded_queue = (drain_to s.encoded_queue).1 })) { place = Place.sync_control }
advance_at Place.sync_control m s = ask_control s
advance_at Place.sync_outbound m s = ask_outbound s
advance_at Place.sync_encoded m s = ask_encoded s
advance_at Place.sync_lock m s = answer_sync m s
advance_at Place.timing m s = keep_alive m s
advance_at Place.closed m s = flush_control m s.control_backlog s

unfoldable pub advance : Moment → ZmqWorker → ZmqWorker
unfolding advance_at
advance m s = advance_at s.place m s
