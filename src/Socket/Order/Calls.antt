-- ===== src/Socket/Order/Calls.antt =====
-- common/zmqworker.cpp: the order that the calls of other threads keep, and that of every run.
use wisp.Prelude.{true, List, [], ◌∷◌, ◌++◌, arith, if_both, ℕ, ◌+◌, ltb}
use wisp.Wire.{Envelope, WireMessage}
use wisp.Queue.{SafeQueue, Patience, push, has_room, empty}
use wisp.Socket.State.{ZmqWorker, Item, Lane, Message, Place, Moment, Config, send}
use wisp.Socket.Run.{
  Run, Step, numbered, after_push, write_message, write_control_message, write_encoded,
  request_sync, withdraw_sync, stop, start,
}
use wisp.Socket.Order.{All, Behind, NotData, InOrder, Follow, All-append, All-map, Behind-mono}
use wisp.Socket.Order.Kept.{Early, Forwarded, Follows, Waiting, Gate, IsKept, Early-Behind}
use wisp.Socket.Order.Steps.{advance-IsKept}

-- A push either changes nothing or puts the message at the end of its queue.
pub after_push-cases :
    (P : ZmqWorker → Type 0) (store : SafeQueue Item → ZmqWorker) (s : ZmqWorker)
    (q : SafeQueue Item) (item : Item)
    → P s
    → P (store (record q { queue = q.queue ++ item ∷ [] }))
    → P (after_push store s (push q item Patience.expired)).0
unfolding after_push push
after_push-cases P store s q item same stored =
    if_both (λ r. P (after_push store s r).0) (has_room q) _ _
      (λ room.
        if_both (λ r. P (after_push store s r).0) q.stopped _ _ (λ stopped. same) (λ open_. stored))
      (λ full. same)

Early-mono : (n : ℕ) (items : List Item) → All (Early n) items → All (Early (n + 1)) items
Early-mono n items h = All-map (Early n) (Early (n + 1)) items (λ i e. (e.0, Behind-mono n i e.1)) h

Waiting-mono :
    (outbound encoded batch held : List Item) (n : ℕ)
    → Waiting outbound encoded batch held n
    → Waiting outbound encoded batch held (n + 1)
Waiting-mono outbound encoded batch held n w = record {
  outbound_early = Early-mono n outbound w.outbound_early;
  encoded_lane = w.encoded_lane;
  batch_early = Early-mono n batch w.batch_early;
  held_early = Early-mono n held w.held_early;
}

Follows-mono :
    (wire control backlog : List Item) (n : ℕ)
    → Follows wire control backlog n
    → Follows wire control backlog (n + 1)
Follows-mono wire control backlog n k = record {
  ordered = k.ordered;
  past = All-map (Behind n) (Behind (n + 1)) wire (Behind-mono n) k.past;
  control_lane = k.control_lane;
  backlog_lane = k.backlog_lane;
  control_after = k.control_after;
  backlog_after = k.backlog_after;
}

module _ (s : ZmqWorker) (k : IsKept s) where
  Gate-push :
      (p : Place) (item : Item)
      → All (Behind item.stamp) s.batch
      → All (Behind item.stamp) s.data_backlog
      → Gate p s.control_queue.queue s.control_backlog s.batch s.data_backlog
      → Gate p (s.control_queue.queue ++ item ∷ []) s.control_backlog s.batch s.data_backlog
  Gate-push Place.sending item b h g = (
    g.0,
    All-append (λ i. All (Behind i.stamp) s.batch) s.control_queue.queue (item ∷ []) g.1 (b, tt),
  )
  Gate-push Place.sending_held item b h g = (
    g.0,
    All-append (λ i. All (Behind i.stamp) s.data_backlog) s.control_queue.queue (item ∷ []) g.1
        (h, tt),
  )
  Gate-push _ item b h g = tt

  write_control_message-IsKept : (e : Envelope) → IsKept (write_control_message s e).0
  unfolding write_control_message
  write_control_message-IsKept e = after_push-cases IsKept _ s s.control_queue item k (record {
    follows = record {
      ordered = k.follows.ordered;
      past = (Follows-mono _ _ _ s.clock k.follows).past;
      control_lane =
          All-append NotData s.control_queue.queue (item ∷ []) k.follows.control_lane (tt, tt);
      backlog_lane = k.follows.backlog_lane;
      control_after =
          All-append (λ i. All (Behind i.stamp) s.wire) s.control_queue.queue (item ∷ [])
            k.follows.control_after (k.follows.past, tt);
      backlog_after = k.follows.backlog_after;
    };
    waiting = Waiting-mono _ _ _ _ s.clock k.waiting;
    gate =
        Gate-push s.place item (Early-Behind s.clock s.batch k.waiting.batch_early)
          (Early-Behind s.clock s.data_backlog k.waiting.held_early) k.gate;
  })
    where
      item : Item
      item = numbered Lane.control s (Message.envelope e)

  write_message-IsKept : (e : Envelope) → IsKept (write_message s e).0
  unfolding write_message
  write_message-IsKept e = after_push-cases IsKept _ s s.outbound_queue item k (record {
    follows = Follows-mono _ _ _ s.clock k.follows;
    waiting = record {
      outbound_early =
          All-append (Early (s.clock + 1)) s.outbound_queue.queue (item ∷ [])
            (Early-mono s.clock s.outbound_queue.queue k.waiting.outbound_early)
            ((tt, omega arith), tt);
      encoded_lane = k.waiting.encoded_lane;
      batch_early = Early-mono s.clock s.batch k.waiting.batch_early;
      held_early = Early-mono s.clock s.data_backlog k.waiting.held_early;
    };
    gate = k.gate;
  })
    where
      item : Item
      item = numbered Lane.data_ s (Message.envelope e)

  write_encoded-IsKept : (msg : WireMessage) → IsKept (write_encoded s msg).0
  unfolding write_encoded
  write_encoded-IsKept msg =
      after_push-cases IsKept _ (record s { has_encoded = true }) s.encoded_queue item
        (record { follows = k.follows; waiting = k.waiting; gate = k.gate })
        (record {
          follows = Follows-mono _ _ _ s.clock k.follows;
          waiting = record {
            outbound_early = Early-mono s.clock s.outbound_queue.queue k.waiting.outbound_early;
            encoded_lane =
                All-append Forwarded s.encoded_queue.queue (item ∷ []) k.waiting.encoded_lane
                  ((tt, tt), tt);
            batch_early = Early-mono s.clock s.batch k.waiting.batch_early;
            held_early = Early-mono s.clock s.data_backlog k.waiting.held_early;
          };
          gate = k.gate;
        })
    where
      item : Item
      item = numbered Lane.encoded s (Message.raw msg)

  request_sync-IsKept : IsKept (request_sync s)
  unfolding request_sync
  request_sync-IsKept =
      if_both IsKept s.running _ _
        (λ on. record { follows = k.follows; waiting = k.waiting; gate = k.gate }) (λ off. k)

  withdraw_sync-IsKept : IsKept (withdraw_sync s)
  unfolding withdraw_sync
  withdraw_sync-IsKept =
      if_both IsKept (ltb 0 s.sync_target) _ _ (λ set. k)
        (λ unset. record { follows = k.follows; waiting = k.waiting; gate = k.gate })

  stop-IsKept : IsKept (stop s)
  unfolding stop
  stop-IsKept = record { follows = k.follows; waiting = k.waiting; gate = k.gate }

Step-IsKept : {a b : ZmqWorker} → Step a b → IsKept a → IsKept b
Step-IsKept (Step.advances {s} m) k = advance-IsKept s k m
Step-IsKept (Step.writes {s} e) k = write_message-IsKept s k e
Step-IsKept (Step.controls {s} e) k = write_control_message-IsKept s k e
Step-IsKept (Step.encodes {s} msg) k = write_encoded-IsKept s k msg
Step-IsKept (Step.syncs {s}) k = request_sync-IsKept s k
Step-IsKept (Step.gives_up {s}) k = withdraw_sync-IsKept s k
Step-IsKept (Step.stops {s}) k = stop-IsKept s k

Run-IsKept : {a b : ZmqWorker} → Run a b → IsKept a → IsKept b
Run-IsKept Run.done k = k
Run-IsKept (Run.then_ one more) k = Run-IsKept more (Step-IsKept one k)

start-IsKept : (config : Config) (m : Moment) → IsKept (start config m)
unfolding start send empty
start-IsKept config m = record {
  follows =
      if_both (λ wire. Follows wire [] [] 0) (m.takes []) _ _ (λ on. nothing ((tt, tt)) (tt, tt))
        (λ off. nothing tt tt);
  waiting = record { outbound_early = tt; encoded_lane = tt; batch_early = tt; held_early = tt };
  gate = tt;
}
  where
    nothing : {wire : List Item} → InOrder wire → All (Behind 0) wire → Follows wire [] [] 0
    nothing o p = record {
      ordered = o;
      past = p;
      control_lane = tt;
      backlog_lane = tt;
      control_after = tt;
      backlog_after = tt;
    }

-- In every order in which the loop's steps and the calls of other threads may come, whatever the
-- socket takes and refuses: every data message of the outbound queue that the socket took before a
-- control message had been queued before it, and so had every one that it took while a control message
-- still waits in the queue or in the backlog. Of the messages that were queued already encoded, which
-- only peer links use, it says nothing.
pub in_order :
    (config : Config) (m : Moment) (s : ZmqWorker)
    → Run (start config m) s
    → InOrder s.wire × Follow s.control_queue.queue s.wire × Follow s.control_backlog s.wire
in_order config m s r = (k.follows.ordered, k.follows.control_after, k.follows.backlog_after)
  where
    k : IsKept s
    k = Run-IsKept r (start-IsKept config m)
