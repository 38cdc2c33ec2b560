-- ===== src/Socket/Run.antt =====
-- common/zmqworker.cpp: the calls of other threads, and every order in which they and the steps of the
-- loop may come.
use wisp.Prelude.{◌+◌, ◌-◌, Bool, true, false, ◌&&◌, [], ◌∷◌, if◌then◌else◌, ltb, leb}
use wisp.Keys
use wisp.Wire.{Envelope, WireMessage, make_control}
use wisp.Queue.{SafeQueue, PushResult, Patience, push, empty}
use wisp.Socket.State.{
  ZmqWorker, Item, Lane, Message, Place, Moment, Config, send, control_backlog_limit,
  heartbeat_interval,
}
use wisp.Socket.Loop.{advance}

-- The message with the next number.
abbrev pub numbered : Lane → ZmqWorker → Message → Item
numbered lane s message = record { lane = lane; stamp = s.clock; message = message }

-- What a push leaves, where it was taken.
unfoldable pub after_push :
    (SafeQueue Item → ZmqWorker) → ZmqWorker → PushResult Item → ZmqWorker × Bool
after_push store s (PushResult.pushed was_empty q) = (store q, true)
after_push store s (PushResult.timed_out) = (s, false)
after_push store s (PushResult.refused) = (s, false)
after_push store s (PushResult.waits) = (s, false)

unfoldable pub write_message : ZmqWorker → Envelope → ZmqWorker × Bool
unfolding after_push
write_message s e =
    after_push (λ q. record s { outbound_queue = q; clock = s.clock + 1 }) s
      (push s.outbound_queue (numbered Lane.data_ s (Message.envelope e)) Patience.expired)

unfoldable pub write_control_message : ZmqWorker → Envelope → ZmqWorker × Bool
unfolding after_push
write_control_message s e =
    after_push (λ q. record s { control_queue = q; clock = s.clock + 1 }) s
      (push s.control_queue (numbered Lane.control s (Message.envelope e)) Patience.expired)

-- Never waits for room.
unfoldable pub write_encoded : ZmqWorker → WireMessage → ZmqWorker × Bool
unfolding after_push
write_encoded s msg =
    let flagged = record s { has_encoded = true } in
    after_push (λ q. record flagged { encoded_queue = q; clock = s.clock + 1 }) flagged
      (push s.encoded_queue (numbered Lane.encoded s (Message.raw msg)) Patience.expired)

-- The first part of `sync`, before it waits, and what it does when no heartbeat went out in time.
unfoldable pub request_sync : ZmqWorker → ZmqWorker
request_sync s = if s.running then record s { sync_target = 0; sync_requested = true } else s

unfoldable pub withdraw_sync : ZmqWorker → ZmqWorker
withdraw_sync s = if ltb 0 s.sync_target then s else record s { sync_requested = false }

unfoldable pub stop : ZmqWorker → ZmqWorker
stop s = record s { running = false }

-- The constructor, `start`, and the run up to the loop, for queues of 5000 messages.
unfoldable pub start : Config → Moment → ZmqWorker
unfolding send
start config m = record {
  config = config;
  control_queue = empty control_backlog_limit;
  outbound_queue = empty 5000;
  encoded_queue = empty 5000;
  has_encoded = false;
  running = true;
  place = Place.polling;
  batch = [];
  control_backlog = [];
  data_backlog = [];
  wire =
      send m
        (record {
          lane = Lane.own;
          stamp = 0;
          message = Message.envelope (make_control Keys.connect config.client_id []);
        })
        [];
  is_online = false;
  statuses = false ∷ [];
  last_heartbeat = m.now - heartbeat_interval config;
  last_rx = m.now;
  broker_id = [];
  heartbeats_sent = 0;
  acks_received = 0;
  sync_requested = false;
  sync_target = 0;
  dropped_sends = 0;
  clock = 0;
  mark = 0;
}

-- What `sync` returns when its second wait is over.
abbrev pub sync_result : ZmqWorker → Bool
sync_result s = ltb 0 s.sync_target && leb s.sync_target s.acks_received

pub data Step : ZmqWorker → ZmqWorker → Type 0 where
  advances : {s : ZmqWorker} (m : Moment) → Step s (advance m s)
  writes : {s : ZmqWorker} (e : Envelope) → Step s (write_message s e).0
  controls : {s : ZmqWorker} (e : Envelope) → Step s (write_control_message s e).0
  encodes : {s : ZmqWorker} (msg : WireMessage) → Step s (write_encoded s msg).0
  syncs : {s : ZmqWorker} → Step s (request_sync s)
  gives_up : {s : ZmqWorker} → Step s (withdraw_sync s)
  stops : {s : ZmqWorker} → Step s (stop s)

pub data Run : ZmqWorker → ZmqWorker → Type 0 where
  done : {s : ZmqWorker} → Run s s
  then_ : {a b c : ZmqWorker} → Step a b → Run b c → Run a c
