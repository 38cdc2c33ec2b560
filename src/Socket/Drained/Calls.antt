-- ===== src/Socket/Drained/Calls.antt =====
-- common/zmqworker.cpp: what waits in the queues while other threads go on queueing.
use wisp.Prelude.{◌≡◌, refl, true, false, List, [], ◌∷◌, ◌++◌, arith, if_both, ◌+◌, ◌≤◌, ltb}
use wisp.Wire.{Envelope, WireMessage}
use wisp.Socket.State.{ZmqWorker, Item, Lane, Message, Place, Moment, Config}
use wisp.Socket.Loop.{advance}
use wisp.Socket.Run.{
  Run, Step, numbered, write_message, write_control_message, write_encoded, request_sync,
  withdraw_sync, stop, start,
}
use wisp.Socket.Order.{All-append}
use wisp.Socket.Order.Calls.{after_push-cases}
use wisp.Socket.Drained.{Since, Asked, IsSeen, advance_at-IsSeen}

module _ (s : ZmqWorker) (k : IsSeen s) where
  -- A message that is queued now is no earlier than the mark.
  Since-push :
      (items : List Item) (item : Item)
      → item.stamp ≡ s.clock
      → Since s.mark items
      → Since s.mark (items ++ item ∷ [])
  Since-push items item e h =
      All-append (λ i. s.mark ≤ i.stamp) items (item ∷ []) h (rw e k.marked, tt)

  Asked-write :
      (e : Envelope) (p : Place)
      → Asked p s
      → Asked p (record s {
        outbound_queue = record s.outbound_queue {
          queue = s.outbound_queue.queue ++ numbered Lane.data_ s (Message.envelope e) ∷ [];
        };
        clock = s.clock + 1;
      })
  Asked-write e Place.sync_outbound a = a
  Asked-write e Place.sync_encoded (c, d, q, o) =
      (c, d, q, Since-push s.outbound_queue.queue _ refl o)
  Asked-write e Place.sync_lock (c, d, q, o, n) =
      (c, d, q, Since-push s.outbound_queue.queue _ refl o, n)
  Asked-write e _ a = tt

  Asked-control :
      (e : Envelope) (p : Place)
      → Asked p s
      → Asked p (record s {
        control_queue = record s.control_queue {
          queue = s.control_queue.queue ++ numbered Lane.control s (Message.envelope e) ∷ [];
        };
        clock = s.clock + 1;
      })
  Asked-control e Place.sync_outbound (c, d, q) = (c, d, Since-push s.control_queue.queue _ refl q)
  Asked-control e Place.sync_encoded (c, d, q, o) =
      (c, d, Since-push s.control_queue.queue _ refl q, o)
  Asked-control e Place.sync_lock (c, d, q, o, n) =
      (c, d, Since-push s.control_queue.queue _ refl q, o, n)
  Asked-control e _ a = tt

  Asked-encoded :
      (msg : WireMessage) (p : Place)
      → Asked p s
      → Asked p (record s {
        has_encoded = true;
        encoded_queue = record s.encoded_queue {
          queue = s.encoded_queue.queue ++ numbered Lane.encoded s (Message.raw msg) ∷ [];
        };
        clock = s.clock + 1;
      })
  Asked-encoded msg Place.sync_outbound a = a
  Asked-encoded msg Place.sync_encoded a = a
  Asked-encoded msg Place.sync_lock (c, d, q, o, n) =
      (c, d, q, o, Since-push s.encoded_queue.queue _ refl n)
  Asked-encoded msg _ a = tt

  -- What `Asked` does not read.
  Asked-flags :
      (p : Place) (t : ZmqWorker)
      → t.mark ≡ s.mark
      → t.control_backlog ≡ s.control_backlog
      → t.data_backlog ≡ s.data_backlog
      → t.control_queue ≡ s.control_queue
      → t.outbound_queue ≡ s.outbound_queue
      → t.encoded_queue ≡ s.encoded_queue
      → Asked p s
      → Asked p t
  Asked-flags Place.sync_outbound t m c d q o n a = rw (m, c, d, q) a
  Asked-flags Place.sync_encoded t m c d q o n a = rw (m, c, d, q, o) a
  Asked-flags Place.sync_lock t m c d q o n a = rw (m, c, d, q, o, n) a
  Asked-flags _ t m c d q o n a = tt

  write_message-IsSeen : (e : Envelope) → IsSeen (write_message s e).0
  unfolding write_message
  write_message-IsSeen e = after_push-cases IsSeen _ s s.outbound_queue _ k (record {
    marked = omega (arith, k.marked);
    in_hand = k.in_hand;
    asked = Asked-write e s.place k.asked;
  })

  write_control_message-IsSeen : (e : Envelope) → IsSeen (write_control_message s e).0
  unfolding write_control_message
  write_control_message-IsSeen e = after_push-cases IsSeen _ s s.control_queue _ k (record {
    marked = omega (arith, k.marked);
    in_hand = k.in_hand;
    asked = Asked-control e s.place k.asked;
  })

  write_encoded-IsSeen : (msg : WireMessage) → IsSeen (write_encoded s msg).0
  unfolding write_encoded
  write_encoded-IsSeen msg =
      after_push-cases IsSeen _ (record s { has_encoded = true }) s.encoded_queue _
        (record {
          marked = k.marked;
          in_hand = k.in_hand;
          asked =
              Asked-flags s.place (record s { has_encoded = true }) refl refl refl refl refl refl
                k.asked;
        })
        (record {
          marked = omega (arith, k.marked);
          in_hand = k.in_hand;
          asked = Asked-encoded msg s.place k.asked;
        })

  request_sync-IsSeen : IsSeen (request_sync s)
  unfolding request_sync
  request_sync-IsSeen =
      if_both IsSeen s.running _ _
        (λ on. record {
          marked = k.marked;
          in_hand = k.in_hand;
          asked =
              Asked-flags s.place (record s { sync_target = 0; sync_requested = true }) refl refl
                refl refl refl refl k.asked;
        })
        (λ off. k)

  withdraw_sync-IsSeen : IsSeen (withdraw_sync s)
  unfolding withdraw_sync
  withdraw_sync-IsSeen =
      if_both IsSeen (ltb 0 s.sync_target) _ _ (λ set. k)
        (λ unset. record {
          marked = k.marked;
          in_hand = k.in_hand;
          asked =
              Asked-flags s.place (record s { sync_requested = false }) refl refl refl refl refl
                refl k.asked;
        })

  stop-IsSeen : IsSeen (stop s)
  unfolding stop
  stop-IsSeen = record {
    marked = k.marked;
    in_hand = k.in_hand;
    asked =
        Asked-flags s.place (record s { running = false }) refl refl refl refl refl refl k.asked;
  }

pub Step-IsSeen : {a b : ZmqWorker} → Step a b → IsSeen a → IsSeen b
unfolding advance
Step-IsSeen (Step.advances {s} m) k = advance_at-IsSeen s k m s.place refl
Step-IsSeen (Step.writes {s} e) k = write_message-IsSeen s k e
Step-IsSeen (Step.controls {s} e) k = write_control_message-IsSeen s k e
Step-IsSeen (Step.encodes {s} msg) k = write_encoded-IsSeen s k msg
Step-IsSeen (Step.syncs {s}) k = request_sync-IsSeen s k
Step-IsSeen (Step.gives_up {s}) k = withdraw_sync-IsSeen s k
Step-IsSeen (Step.stops {s}) k = stop-IsSeen s k

pub Run-IsSeen : {a b : ZmqWorker} → Run a b → IsSeen a → IsSeen b
Run-IsSeen Run.done k = k
Run-IsSeen (Run.then_ one more) k = Run-IsSeen more (Step-IsSeen one k)

pub start-IsSeen : (config : Config) (m : Moment) → IsSeen (start config m)
unfolding start
start-IsSeen config m = record { marked = omega arith; in_hand = refl; asked = tt }
