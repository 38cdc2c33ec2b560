-- ===== src/Socket/Order/Batches.antt =====
-- common/zmqworker.cpp: the order that draining, placing and sending keep.
use wisp.Prelude.{◌≡◌, refl, true, false, not, ◌&&◌, List, [], ◌∷◌, ◌++◌, arith, if_both}
use wisp.Queue.{drain_to, is_empty}
use wisp.Socket.State.{
  ZmqWorker, Item, Lane, Message, Place, Moment, send, put, trim, send_batch, flush_control,
  control_backlog_limit, data_backlog_limit,
}
use wisp.Socket.Loop.{none_held, drain_control, drain_data, place_data, gate_held, close}
use wisp.Socket.Order.{All, Behind, NotData, Follow, All-append, trim-All}
use wisp.Socket.Order.Kept.{
  Early, Follows, Gate, IsKept, Early-Behind, Early-NotControl, send-Follows, Forwarded-NotControl,
  Forwarded-Behind, Follow-forwarded, flush-Follows,
}

module _ (s : ZmqWorker) (k : IsKept s) where
  lanes : All NotData (s.control_backlog ++ s.control_queue.queue)
  lanes =
      All-append NotData s.control_backlog s.control_queue.queue k.follows.backlog_lane
        k.follows.control_lane

  after : Follow (s.control_backlog ++ s.control_queue.queue) s.wire
  after =
      All-append (λ i. All (Behind i.stamp) s.wire) s.control_backlog s.control_queue.queue
        k.follows.backlog_after k.follows.control_after

  pub drain_control-IsKept :
      (m : Moment) → IsKept (record (drain_control m s) { place = Place.draining_data })
  unfolding drain_control flush_control drain_to
  drain_control-IsKept m = record {
    follows =
        flush-Follows m s.wire []
          (trim control_backlog_limit (s.control_backlog ++ s.control_queue.queue)) s.clock
          (trim-All NotData control_backlog_limit (s.control_backlog ++ s.control_queue.queue)
            lanes)
          (trim-All (λ i. All (Behind i.stamp) s.wire) control_backlog_limit
            (s.control_backlog ++ s.control_queue.queue) after)
          tt tt k.follows.ordered k.follows.past;
    waiting = k.waiting;
    gate = tt;
  }

  pub close-IsKept : (m : Moment) → IsKept (close m s)
  unfolding close flush_control drain_to
  close-IsKept m = record {
    follows =
        flush-Follows m s.wire [] (s.control_backlog ++ s.control_queue.queue) s.clock lanes after
          tt tt k.follows.ordered k.follows.past;
    waiting = k.waiting;
    gate = tt;
  }

  pub drain_data-IsKept : IsKept (drain_data s)
  unfolding drain_data drain_to
  drain_data-IsKept =
      if_both IsKept (not s.is_online) _ _
        (λ off. record { follows = k.follows; waiting = k.waiting; gate = tt })
        (λ on. record {
          follows = k.follows;
          waiting = record {
            outbound_early = tt;
            encoded_lane = k.waiting.encoded_lane;
            batch_early = k.waiting.outbound_early;
            held_early = k.waiting.held_early;
          };
          gate =
              if_both
                (λ p.
                  Gate p s.control_queue.queue s.control_backlog s.outbound_queue.queue
                    s.data_backlog)
                (none_held s.outbound_queue.queue) Place.held_gate Place.placing (λ e. tt)
                (λ e. tt);
        })

  none_held_lem : (items : List Item) → none_held items ≡ true → items ≡ []
  none_held_lem [] h = refl
  none_held_lem (x ∷ items) h = absurd (ground (arith, h))

  -- The control queue is empty at this moment.
  nothing_waits : is_empty s.control_queue ≡ true → s.control_queue.queue ≡ []
  unfolding is_empty
  nothing_waits h = by_queue s.control_queue.queue h
    where
      by_queue : (items : List Item) → elim items [ [] ↦ true | x ∷ xs ↦ false ] ≡ true → items ≡ []
      by_queue [] h = refl
      by_queue (x ∷ items) h = absurd (ground (arith, h))

  pub place_data-IsKept : IsKept (place_data s)
  unfolding place_data
  place_data-IsKept =
      if_both IsKept
        (none_held s.data_backlog && (none_held s.control_backlog && is_empty s.control_queue)) _ _
        (λ clear. record {
          follows = k.follows;
          waiting = k.waiting;
          gate = (
            none_held_lem s.control_backlog (ground (arith, clear)),
            rw (nothing_waits (ground (arith, clear))) tt,
          );
        })
        (λ wait. record {
          follows = k.follows;
          waiting = record {
            outbound_early = k.waiting.outbound_early;
            encoded_lane = k.waiting.encoded_lane;
            batch_early = tt;
            held_early = trim-All (Early s.clock) data_backlog_limit (s.data_backlog ++ s.batch) (
                All-append (Early s.clock) s.data_backlog s.batch k.waiting.held_early
                  k.waiting.batch_early);
          };
          gate = tt;
        })

  pub gate_held-IsKept : IsKept (gate_held s)
  unfolding gate_held
  gate_held-IsKept = record {
    follows = k.follows;
    waiting = k.waiting;
    gate =
        if_both (λ p. Gate p s.control_queue.queue s.control_backlog s.batch s.data_backlog)
          (not (none_held s.data_backlog)
            && (none_held s.control_backlog && is_empty s.control_queue))
          Place.sending_held Place.encoded_gate
          (λ clear. (
            none_held_lem s.control_backlog (ground (arith, clear)),
            rw (nothing_waits (ground (arith, clear))) tt,
          ))
          (λ wait. tt);
  }

  pub sending-IsKept :
      (m : Moment)
      → (s.control_backlog ≡ []) × Follow s.control_queue.queue s.batch
      → IsKept (record (send_batch m s.batch s) { batch = []; place = Place.held_gate })
  unfolding send_batch
  sending-IsKept m (e, f) = record {
    follows =
        send-Follows m s.wire s.control_queue.queue s.control_backlog s.batch s.clock k.follows
          (Early-NotControl s.clock s.batch k.waiting.batch_early)
          (Early-Behind s.clock s.batch k.waiting.batch_early) f (rw e tt);
    waiting = record {
      outbound_early = k.waiting.outbound_early;
      encoded_lane = k.waiting.encoded_lane;
      batch_early = tt;
      held_early = k.waiting.held_early;
    };
    gate = tt;
  }

  pub sending_held-IsKept :
      (m : Moment)
      → (s.control_backlog ≡ []) × Follow s.control_queue.queue s.data_backlog
      → IsKept
          (record (send_batch m s.data_backlog s) { data_backlog = []; place = Place.encoded_gate })
  unfolding send_batch
  sending_held-IsKept m (e, f) = record {
    follows =
        send-Follows m s.wire s.control_queue.queue s.control_backlog s.data_backlog s.clock
          k.follows (Early-NotControl s.clock s.data_backlog k.waiting.held_early)
          (Early-Behind s.clock s.data_backlog k.waiting.held_early) f (rw e tt);
    waiting = record {
      outbound_early = k.waiting.outbound_early;
      encoded_lane = k.waiting.encoded_lane;
      batch_early = k.waiting.batch_early;
      held_early = tt;
    };
    gate = tt;
  }

  pub draining_encoded-IsKept :
      (m : Moment)
      → IsKept
          (record (send_batch m
            (drain_to s.encoded_queue).0
            (record s { encoded_queue = (drain_to s.encoded_queue).1 })) {
              place = Place.sync_control;
            })
  unfolding send_batch drain_to
  draining_encoded-IsKept m = record {
    follows =
        send-Follows m s.wire s.control_queue.queue s.control_backlog s.encoded_queue.queue s.clock
          k.follows (Forwarded-NotControl s.encoded_queue.queue k.waiting.encoded_lane)
          (Forwarded-Behind s.clock s.encoded_queue.queue k.waiting.encoded_lane)
          (Follow-forwarded s.control_queue.queue s.encoded_queue.queue k.waiting.encoded_lane)
          (Follow-forwarded s.control_backlog s.encoded_queue.queue k.waiting.encoded_lane);
    waiting = record {
      outbound_early = k.waiting.outbound_early;
      encoded_lane = tt;
      batch_early = k.waiting.batch_early;
      held_early = k.waiting.held_early;
    };
    gate = tt;
  }

  -- A message of the worker's own goes out at any time.
  pub own-Follows :
      (m : Moment) (message : Message)
      → Follows
          (send m (record { lane = Lane.own; stamp = s.clock; message = message }) s.wire)
          s.control_queue.queue
          s.control_backlog
          s.clock
  unfolding put
  own-Follows m message =
      send-Follows m s.wire s.control_queue.queue s.control_backlog (beat ∷ []) s.clock k.follows
        (tt, tt) (tt, tt) (trivial s.control_queue.queue) (trivial s.control_backlog)
    where
      beat : Item
      beat = record { lane = Lane.own; stamp = s.clock; message = message }

      trivial : (items : List Item) → Follow items (beat ∷ [])
      trivial [] = tt
      trivial (x ∷ items) = ((tt, tt), trivial items)
