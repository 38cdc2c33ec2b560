-- ===== src/Socket/Accounted/Steps.antt =====
-- common/zmqworker.cpp: the account of the messages under the steps of the loop and the calls of other
-- threads.
use wisp.Prelude.{
  ◌≡◌, refl, ap, true, not, ◌&&◌, [], ◌∷◌, ◌++◌, if_both, arith, length, length-append,
}
use wisp.Wire.{Envelope, WireMessage}
use wisp.Queue.{is_empty, empty, drain_to}
use wisp.Socket.State.{
  ZmqWorker, Lane, Message, Place, Moment, Config, send, trim, send_batch, flush_control,
  control_backlog_limit, data_backlog_limit,
}
use wisp.Socket.Loop.{none_held, drain_control, drain_data, place_data, close, advance_at, advance}
use wisp.Socket.Run.{
  Run, Step, numbered, write_message, write_control_message, write_encoded, request_sync,
  withdraw_sync, stop, start,
}
use wisp.Socket.Order.Calls.{after_push-cases}
use wisp.Socket.Drained.{InHand, IsSeen}
use wisp.Socket.Drained.Calls.{Step-IsSeen, start-IsSeen}
use wisp.Socket.Accounted.{
  all_queued, handed, all_queued-append, put_balance, flush_balance, flush-all_queued, trim_balance,
  trim-all_queued, IsAccounted, Same-IsAccounted, poll-Same, keep_alive-Same, answer_sync-Same,
  asks-Same,
}

drain_control-IsAccounted :
    (m : Moment) (s : ZmqWorker)
    → IsAccounted s
    → IsAccounted (record (drain_control m s) { place = Place.draining_data })
unfolding drain_control flush_control drain_to all_queued
drain_control-IsAccounted m s k =
    let found = s.control_backlog ++ s.control_queue.queue in
    let kept = trim control_backlog_limit found in
    let all : all_queued found ≡ true = ground (
      arith,
      all_queued-append s.control_backlog s.control_queue.queue,
      k.control_queued,
      k.control_held,
    ) in
    let left : all_queued kept ≡ true = trim-all_queued control_backlog_limit found all in
    record {
      even = omega (
        arith,
        k.even,
        flush_balance m kept s.wire left,
        trim_balance control_backlog_limit found,
        length-append s.control_backlog s.control_queue.queue,
      );
      control_queued = refl;
      outbound_queued = k.outbound_queued;
      encoded_queued = k.encoded_queued;
      batch_queued = k.batch_queued;
      control_held = flush-all_queued m kept s.wire left;
      data_held = k.data_held;
    }

-- What the socket did not take of a backlog stays in it.
flush_control-IsAccounted :
    (m : Moment) (s : ZmqWorker) → IsAccounted s → IsAccounted (flush_control m s.control_backlog s)
unfolding flush_control
flush_control-IsAccounted m s k = record {
  even = omega (arith, k.even, flush_balance m s.control_backlog s.wire k.control_held);
  control_queued = k.control_queued;
  outbound_queued = k.outbound_queued;
  encoded_queued = k.encoded_queued;
  batch_queued = k.batch_queued;
  control_held = flush-all_queued m s.control_backlog s.wire k.control_held;
  data_held = k.data_held;
}

close-IsAccounted : (m : Moment) (s : ZmqWorker) → IsAccounted s → IsAccounted (close m s)
unfolding close flush_control drain_to all_queued
close-IsAccounted m s k =
    let found = s.control_backlog ++ s.control_queue.queue in
    let all : all_queued found ≡ true = ground (
      arith,
      all_queued-append s.control_backlog s.control_queue.queue,
      k.control_queued,
      k.control_held,
    ) in
    record {
      even = omega (
        arith,
        k.even,
        flush_balance m found s.wire all,
        length-append s.control_backlog s.control_queue.queue,
      );
      control_queued = refl;
      outbound_queued = k.outbound_queued;
      encoded_queued = k.encoded_queued;
      batch_queued = k.batch_queued;
      control_held = flush-all_queued m found s.wire all;
      data_held = k.data_held;
    }

drain_data-IsAccounted : (s : ZmqWorker) → s.batch ≡ [] → IsAccounted s → IsAccounted (drain_data s)
unfolding drain_data drain_to all_queued
drain_data-IsAccounted s none_in_hand k =
    if_both IsAccounted (not s.is_online) _ _
      (λ off. record {
        even = k.even;
        control_queued = k.control_queued;
        outbound_queued = k.outbound_queued;
        encoded_queued = k.encoded_queued;
        batch_queued = k.batch_queued;
        control_held = k.control_held;
        data_held = k.data_held;
      })
      (λ on. record {
        even = omega (arith, k.even, ap length none_in_hand);
        control_queued = k.control_queued;
        outbound_queued = refl;
        encoded_queued = k.encoded_queued;
        batch_queued = k.outbound_queued;
        control_held = k.control_held;
        data_held = k.data_held;
      })

place_data-IsAccounted : (s : ZmqWorker) → IsAccounted s → IsAccounted (place_data s)
unfolding place_data all_queued
place_data-IsAccounted s k =
    let held = s.data_backlog ++ s.batch in
    let all : all_queued held ≡ true =
      ground (arith, all_queued-append s.data_backlog s.batch, k.data_held, k.batch_queued) in
    if_both IsAccounted
      (none_held s.data_backlog && (none_held s.control_backlog && is_empty s.control_queue)) _ _
      (λ clear. record {
        even = k.even;
        control_queued = k.control_queued;
        outbound_queued = k.outbound_queued;
        encoded_queued = k.encoded_queued;
        batch_queued = k.batch_queued;
        control_held = k.control_held;
        data_held = k.data_held;
      })
      (λ waits. record {
        even = omega (
          arith,
          k.even,
          trim_balance data_backlog_limit held,
          length-append s.data_backlog s.batch,
        );
        control_queued = k.control_queued;
        outbound_queued = k.outbound_queued;
        encoded_queued = k.encoded_queued;
        batch_queued = refl;
        control_held = k.control_held;
        data_held = trim-all_queued data_backlog_limit held all;
      })

-- The three places that send a batch, each with what it sends.
sends-IsAccounted :
    (m : Moment) (s : ZmqWorker)
    → IsAccounted s
    → IsAccounted (advance_at Place.sending m s)
      × IsAccounted (advance_at Place.sending_held m s)
      × IsAccounted (advance_at Place.draining_encoded m s)
unfolding advance_at send_batch drain_to all_queued
sends-IsAccounted m s k = (
  record {
    even = omega (arith, k.even, put_balance m s.batch s.wire k.batch_queued);
    control_queued = k.control_queued;
    outbound_queued = k.outbound_queued;
    encoded_queued = k.encoded_queued;
    batch_queued = refl;
    control_held = k.control_held;
    data_held = k.data_held;
  },
  record {
    even = omega (arith, k.even, put_balance m s.data_backlog s.wire k.data_held);
    control_queued = k.control_queued;
    outbound_queued = k.outbound_queued;
    encoded_queued = k.encoded_queued;
    batch_queued = k.batch_queued;
    control_held = k.control_held;
    data_held = refl;
  },
  record {
    even = omega (arith, k.even, put_balance m s.encoded_queue.queue s.wire k.encoded_queued);
    control_queued = k.control_queued;
    outbound_queued = k.outbound_queued;
    encoded_queued = refl;
    batch_queued = k.batch_queued;
    control_held = k.control_held;
    data_held = k.data_held;
  },
)

advance_at-IsAccounted :
    (m : Moment) (s : ZmqWorker) (p : Place)
    → InHand p s.batch
    → IsAccounted s
    → IsAccounted (advance_at p m s)
unfolding advance_at
advance_at-IsAccounted m s Place.polling b k =
    if_both IsAccounted s.running _ _ (λ on. Same-IsAccounted s _ (poll-Same m s) k)
      (λ off. close-IsAccounted m s k)
advance_at-IsAccounted m s Place.draining_control b k = drain_control-IsAccounted m s k
advance_at-IsAccounted m s Place.draining_data b k = drain_data-IsAccounted s b k
advance_at-IsAccounted m s Place.placing b k = place_data-IsAccounted s k
advance_at-IsAccounted m s Place.sending b k = unfold advance_at in (sends-IsAccounted m s k).0
advance_at-IsAccounted m s Place.held_gate b k = Same-IsAccounted s _ (asks-Same s).3 k
advance_at-IsAccounted m s Place.sending_held b k = unfold advance_at in (sends-IsAccounted m s k).1
advance_at-IsAccounted m s Place.encoded_gate b k = Same-IsAccounted s _ (asks-Same s).4 k
advance_at-IsAccounted m s Place.draining_encoded b k =
    unfold advance_at in (sends-IsAccounted m s k).2
advance_at-IsAccounted m s Place.sync_control b k = Same-IsAccounted s _ (asks-Same s).0 k
advance_at-IsAccounted m s Place.sync_outbound b k = Same-IsAccounted s _ (asks-Same s).1 k
advance_at-IsAccounted m s Place.sync_encoded b k = Same-IsAccounted s _ (asks-Same s).2 k
advance_at-IsAccounted m s Place.sync_lock b k = Same-IsAccounted s _ (answer_sync-Same m s) k
advance_at-IsAccounted m s Place.timing b k = Same-IsAccounted s _ (keep_alive-Same m s) k
advance_at-IsAccounted m s Place.closed b k = flush_control-IsAccounted m s k

module _ (s : ZmqWorker) (k : IsAccounted s) where
  write_message-IsAccounted : (e : Envelope) → IsAccounted (write_message s e).0
  unfolding write_message all_queued
  write_message-IsAccounted e =
      let item = numbered Lane.data_ s (Message.envelope e) in
      after_push-cases IsAccounted _ s s.outbound_queue item k (record {
        even = omega (arith, k.even, length-append s.outbound_queue.queue (item ∷ []));
        control_queued = k.control_queued;
        outbound_queued =
            ground (arith, all_queued-append s.outbound_queue.queue (item ∷ []), k.outbound_queued);
        encoded_queued = k.encoded_queued;
        batch_queued = k.batch_queued;
        control_held = k.control_held;
        data_held = k.data_held;
      })

  write_control_message-IsAccounted : (e : Envelope) → IsAccounted (write_control_message s e).0
  unfolding write_control_message all_queued
  write_control_message-IsAccounted e =
      let item = numbered Lane.control s (Message.envelope e) in
      after_push-cases IsAccounted _ s s.control_queue item k (record {
        even = omega (arith, k.even, length-append s.control_queue.queue (item ∷ []));
        control_queued =
            ground (arith, all_queued-append s.control_queue.queue (item ∷ []), k.control_queued);
        outbound_queued = k.outbound_queued;
        encoded_queued = k.encoded_queued;
        batch_queued = k.batch_queued;
        control_held = k.control_held;
        data_held = k.data_held;
      })

  write_encoded-IsAccounted : (msg : WireMessage) → IsAccounted (write_encoded s msg).0
  unfolding write_encoded all_queued
  write_encoded-IsAccounted msg =
      let item = numbered Lane.encoded s (Message.raw msg) in
      after_push-cases IsAccounted _ (record s { has_encoded = true }) s.encoded_queue item
        (Same-IsAccounted s (record s { has_encoded = true }) (ground arith) k)
        (record {
          even = omega (arith, k.even, length-append s.encoded_queue.queue (item ∷ []));
          control_queued = k.control_queued;
          outbound_queued = k.outbound_queued;
          encoded_queued =
              ground (arith, all_queued-append s.encoded_queue.queue (item ∷ []), k.encoded_queued);
          batch_queued = k.batch_queued;
          control_held = k.control_held;
          data_held = k.data_held;
        })

Step-IsAccounted : {a b : ZmqWorker} → Step a b → IsSeen a → IsAccounted a → IsAccounted b
unfolding advance request_sync withdraw_sync stop
Step-IsAccounted (Step.advances {s} m) seen k = advance_at-IsAccounted m s s.place seen.in_hand k
Step-IsAccounted (Step.writes {s} e) seen k = write_message-IsAccounted s k e
Step-IsAccounted (Step.controls {s} e) seen k = write_control_message-IsAccounted s k e
Step-IsAccounted (Step.encodes {s} msg) seen k = write_encoded-IsAccounted s k msg
Step-IsAccounted (Step.syncs {s}) seen k = Same-IsAccounted s _ (ground arith) k
Step-IsAccounted (Step.gives_up {s}) seen k = Same-IsAccounted s _ (ground arith) k
Step-IsAccounted (Step.stops {s}) seen k = Same-IsAccounted s _ (ground arith) k

Run-IsAccounted : {a b : ZmqWorker} → Run a b → IsSeen a → IsAccounted a → IsAccounted b
Run-IsAccounted Run.done seen k = k
Run-IsAccounted (Run.then_ one more) seen k =
    Run-IsAccounted more (Step-IsSeen one seen) (Step-IsAccounted one seen k)

start-IsAccounted : (config : Config) (m : Moment) → IsAccounted (start config m)
unfolding start send empty handed all_queued
start-IsAccounted config m = ground arith

-- In every order of the loop's steps and the other threads' calls, the messages that the socket took,
-- those that wait in a queue, in a backlog or in hand, and those that were counted as dropped are
-- together as many as were ever queued, modulo 2 ^ 64.
pub Run-start-IsAccounted :
    (config : Config) (m : Moment) (s : ZmqWorker) → Run (start config m) s → IsAccounted s
Run-start-IsAccounted config m s r =
    Run-IsAccounted r (start-IsSeen config m) (start-IsAccounted config m)
