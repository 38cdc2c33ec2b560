-- ===== src/Socket/Order/Kept.antt =====
-- common/zmqworker.cpp: the order that every step of the worker and every call keeps.
use wisp.Prelude.{◌≡◌, List, [], ◌∷◌, ℕ}
use wisp.Socket.State.{ZmqWorker, Item, Place, Moment, put, flush}
use wisp.Socket.Order.{
  All, Behind, NotControl, NotData, InOrder, Follow, All-map, NotData-Behind, put-InOrder, put-All,
  put-Follow, flush-InOrder, flush-Behind, flush-All, flush-Follow,
}

-- Waiting data, which is no control and arrived before this number.
abbrev pub Early : ℕ → Item → Type 0
Early n item = NotControl item × Behind n item

-- Forwarded messages, which are neither control nor data.
abbrev pub Forwarded : Item → Type 0
Forwarded item = NotControl item × NotData item

-- What the socket took, and the control messages that wait in the queue and in the backlog.
pub record Follows (wire control backlog : List Item) (clock : ℕ) : Type 0 where
  pub ordered : InOrder wire
  pub past : All (Behind clock) wire
  pub control_lane : All NotData control
  pub backlog_lane : All NotData backlog
  pub control_after : Follow control wire
  pub backlog_after : Follow backlog wire

-- What waits in the other queues, in hand and in the data backlog.
pub record Waiting (outbound encoded batch held : List Item) (clock : ℕ) : Type 0 where
  pub outbound_early : All (Early clock) outbound
  pub encoded_lane : All Forwarded encoded
  pub batch_early : All (Early clock) batch
  pub held_early : All (Early clock) held

-- While data is being sent, the control backlog is empty and the control queue holds later messages.
abbrev pub Gate : Place → List Item → List Item → List Item → List Item → Type 0
Gate Place.sending control backlog batch held = (backlog ≡ []) × Follow control batch
Gate Place.sending_held control backlog batch held = (backlog ≡ []) × Follow control held
Gate _ control backlog batch held = Unit {0}

pub record IsKept (s : ZmqWorker) : Type 0 where
  pub follows : Follows s.wire s.control_queue.queue s.control_backlog s.clock
  pub waiting : Waiting s.outbound_queue.queue s.encoded_queue.queue s.batch s.data_backlog s.clock
  pub gate : Gate s.place s.control_queue.queue s.control_backlog s.batch s.data_backlog

pub Early-Behind : (n : ℕ) (items : List Item) → All (Early n) items → All (Behind n) items
Early-Behind n items h = All-map (Early n) (Behind n) items (λ i e. e.1) h

pub Early-NotControl : (n : ℕ) (items : List Item) → All (Early n) items → All NotControl items
Early-NotControl n items h = All-map (Early n) NotControl items (λ i e. e.0) h

-- A batch of data goes out, which everything that waits for control follows.
pub send-Follows :
    (m : Moment) (wire control backlog items : List Item) (clock : ℕ)
    → Follows wire control backlog clock
    → All NotControl items
    → All (Behind clock) items
    → Follow control items
    → Follow backlog items
    → Follows (put m items wire) control backlog clock
send-Follows m wire control backlog items clock k n p f g = record {
  ordered = put-InOrder m items wire n k.ordered;
  past = put-All (Behind clock) m items wire p k.past;
  control_lane = k.control_lane;
  backlog_lane = k.backlog_lane;
  control_after = put-Follow m control items wire f k.control_after;
  backlog_after = put-Follow m backlog items wire g k.backlog_after;
}

pub Forwarded-NotControl : (items : List Item) → All Forwarded items → All NotControl items
Forwarded-NotControl items h = All-map Forwarded NotControl items (λ i e. e.0) h

pub Forwarded-Behind : (n : ℕ) (items : List Item) → All Forwarded items → All (Behind n) items
Forwarded-Behind n items h = All-map Forwarded (Behind n) items (λ i e. NotData-Behind n i e.1) h

pub Follow-forwarded : (rest items : List Item) → All Forwarded items → Follow rest items
Follow-forwarded [] items h = tt
Follow-forwarded (x ∷ rest) items h =
    (Forwarded-Behind x.stamp items h, Follow-forwarded rest items h)

flush-Follow-rest :
    (m : Moment) (rest items wire : List Item)
    → All NotData items
    → Follow rest wire
    → Follow rest (flush m items wire).1
flush-Follow-rest m [] items wire n f = tt
flush-Follow-rest m (x ∷ rest) items wire n f =
    (flush-Behind x.stamp m items wire n f.0, flush-Follow-rest m rest items wire n f.1)

-- A backlog is flushed while the rest of the control messages wait in the queue.
pub flush-Follows :
    (m : Moment) (wire rest items : List Item) (clock : ℕ)
    → All NotData items
    → Follow items wire
    → All NotData rest
    → Follow rest wire
    → InOrder wire
    → All (Behind clock) wire
    → Follows (flush m items wire).1 rest (flush m items wire).0 clock
flush-Follows m wire rest items clock lane after rest_lane rest_after ordered past = record {
  ordered = flush-InOrder m items wire lane after ordered;
  past = flush-Behind clock m items wire lane past;
  control_lane = rest_lane;
  backlog_lane = flush-All NotData m items wire lane;
  control_after = flush-Follow-rest m rest items wire lane rest_after;
  backlog_after = flush-Follow m items wire lane after;
}
