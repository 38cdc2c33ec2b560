-- ===== src/Socket/Accounted.antt =====
-- common/zmqworker.cpp: what becomes of every message that was queued.
pub mod Steps
use wisp.Prelude.{
  ◌≡◌, refl, ap, subst, true, false, not, ◌&&◌, Bool, List, [], ◌∷◌, ◌++◌, if◌then◌else◌, if_both,
  arith, ℕ, zero, suc, ◌+◌, ◌%◌, ◌^◌, ltb, length, length-append,
}
use wisp.Wire.{Envelope, WireMessage}
use wisp.Queue.{SafeQueue, is_empty, empty, drain_to}
use wisp.Socket.State.{
  ZmqWorker, Item, Lane, Message, Place, Moment, Config, send, put, refused, flush, over, trim,
  send_batch, flush_control, send_heartbeat, control_backlog_limit, data_backlog_limit,
}
use wisp.Socket.Loop.{
  none_held, note_broker_id, receive, poll, drain_control, drain_data, place_data, gate_held,
  gate_encoded, ask_control, ask_outbound, ask_encoded, answer_sync, keep_alive, beat_when_due,
  notice_silence, close, advance_at, advance,
}
use wisp.Socket.Run.{
  Run, Step, numbered, write_message, write_control_message, write_encoded, request_sync,
  withdraw_sync, stop, start,
}
use wisp.Socket.Order.Calls.{after_push-cases}
use wisp.Socket.Drained.{InHand, IsSeen}
use wisp.Socket.Drained.Calls.{Step-IsSeen, start-IsSeen}

abbrev pub is_queued : Lane → Bool
is_queued Lane.own = false
is_queued _ = true

-- How many of these came by a queue, and whether all did.
unfoldable pub handed : List Item → ℕ
handed [] = 0
handed (item ∷ items) = let rest = handed items in if is_queued item.lane then suc rest else rest

unfoldable pub all_queued : List Item → Bool
all_queued [] = true
all_queued (item ∷ items) = is_queued item.lane && all_queued items

pub all_queued-append :
    (xs ys : List Item) → all_queued (xs ++ ys) ≡ (all_queued xs && all_queued ys)
unfolding all_queued
all_queued-append [] ys = refl
all_queued-append (x ∷ xs) ys = ground (arith, all_queued-append xs ys)

pub put_balance :
    (m : Moment) (items wire : List Item)
    → all_queued items ≡ true
    → handed (put m items wire) + refused m items wire ≡ handed wire + length items
unfolding put refused handed all_queued send
put_balance m [] wire h = omega arith
put_balance m (item ∷ items) wire h =
    ground (arith, h, put_balance m items wire, put_balance m items (item ∷ wire))

pub flush_balance :
    (m : Moment) (items wire : List Item)
    → all_queued items ≡ true
    → length (flush m items wire).0 + handed (flush m items wire).1 ≡ handed wire + length items
unfolding flush handed all_queued
flush_balance m [] wire h = omega arith
flush_balance m (item ∷ items) wire h = ground (arith, h, flush_balance m items (item ∷ wire))

pub flush-all_queued :
    (m : Moment) (items wire : List Item)
    → all_queued items ≡ true
    → all_queued (flush m items wire).0 ≡ true
unfolding flush all_queued
flush-all_queued m [] wire h = refl
flush-all_queued m (item ∷ items) wire h = ground (arith, h, flush-all_queued m items (item ∷ wire))

pub trim_balance :
    (limit : ℕ) (items : List Item) → length (trim limit items) + over limit items ≡ length items
unfolding trim over
trim_balance limit [] = omega arith
trim_balance limit (item ∷ items) = ground (arith, trim_balance limit items)

pub trim-all_queued :
    (limit : ℕ) (items : List Item) → all_queued items ≡ true → all_queued (trim limit items) ≡ true
unfolding trim all_queued
trim-all_queued limit [] h = refl
trim-all_queued limit (item ∷ items) h = ground (arith, h, trim-all_queued limit items)

-- What waits anywhere in the worker.
abbrev pub waiting : ZmqWorker → ℕ
waiting s =
    length s.control_queue.queue
    + length s.outbound_queue.queue
    + length s.encoded_queue.queue
    + length s.batch
    + length s.control_backlog
    + length s.data_backlog

-- The clock has counted what came by a queue; all of it was handed to the socket, still waits, or
-- was counted as dropped.
pub record IsAccounted (s : ZmqWorker) : Type 0 where
  pub even : (handed s.wire + waiting s + s.dropped_sends) % 2 ^ 64 ≡ s.clock % 2 ^ 64
  pub control_queued : all_queued s.control_queue.queue ≡ true
  pub outbound_queued : all_queued s.outbound_queue.queue ≡ true
  pub encoded_queued : all_queued s.encoded_queue.queue ≡ true
  pub batch_queued : all_queued s.batch ≡ true
  pub control_held : all_queued s.control_backlog ≡ true
  pub data_held : all_queued s.data_backlog ≡ true

-- Steps that move nothing but messages of the worker's own.
pub record Same (s t : ZmqWorker) : Type 0 where
  pub wire : handed t.wire ≡ handed s.wire
  pub control_queue : t.control_queue ≡ s.control_queue
  pub outbound_queue : t.outbound_queue ≡ s.outbound_queue
  pub encoded_queue : t.encoded_queue ≡ s.encoded_queue
  pub batch : t.batch ≡ s.batch
  pub control_backlog : t.control_backlog ≡ s.control_backlog
  pub data_backlog : t.data_backlog ≡ s.data_backlog
  pub dropped : t.dropped_sends ≡ s.dropped_sends
  pub clock : t.clock ≡ s.clock

pub Same-IsAccounted : (s t : ZmqWorker) → Same s t → IsAccounted s → IsAccounted t
Same-IsAccounted s t e k = record {
  even =
      rw
        (
          e.wire, e.control_queue, e.outbound_queue, e.encoded_queue, e.batch, e.control_backlog,
          e.data_backlog, e.dropped, e.clock,
        )
        k.even;
  control_queued = rw e.control_queue k.control_queued;
  outbound_queued = rw e.outbound_queue k.outbound_queued;
  encoded_queued = rw e.encoded_queue k.encoded_queued;
  batch_queued = rw e.batch k.batch_queued;
  control_held = rw e.control_backlog k.control_held;
  data_held = rw e.data_backlog k.data_held;
}

pub poll-Same :
    (m : Moment) (s : ZmqWorker) → Same s (record (poll m s) { place = Place.draining_control })
unfolding poll receive note_broker_id
poll-Same m s = ground arith

pub keep_alive-Same : (m : Moment) (s : ZmqWorker) → Same s (keep_alive m s)
unfolding keep_alive beat_when_due notice_silence send_heartbeat send handed
keep_alive-Same m s = ground arith

pub answer_sync-Same : (m : Moment) (s : ZmqWorker) → Same s (answer_sync m s)
unfolding answer_sync send_heartbeat send handed
answer_sync-Same m s = ground arith

pub asks-Same :
    (s : ZmqWorker)
    → Same s (ask_control s)
      × Same s (ask_outbound s)
      × Same s (ask_encoded s)
      × Same s (gate_held s)
      × Same s (gate_encoded s)
unfolding ask_control ask_outbound ask_encoded gate_held gate_encoded
asks-Same s = ground arith
