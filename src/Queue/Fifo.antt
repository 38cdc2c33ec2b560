-- ===== src/Queue/Fifo.antt =====
-- common/safequeue.h: what each call answers, in every state of the queue.
use wisp.Prelude.{
  ◌≤◌, ◌<◌, ◌≡◌, ◌↔◌, true, false, [], ◌∷◌, ◌++◌, arith, length, length-append, Bool,
}
use wisp.Queue.{
  SafeQueue, Patience, forever, pushed, refused, closed, sleeps, has_room, is_empty, push, pop,
  stop,
}

module _ {ℓ} {T : Type ℓ} (q : SafeQueue T) where
  -- A push succeeds exactly when the queue is open and has room; then the value is last, and the
  -- answer tells whether the consumer may be asleep.
  pub push-pushed :
      (value : T) (patience : Patience)
      → q.stopped ≡ false
      → length q.queue < q.max_size
      → push q value patience ≡ pushed (is_empty q) (record q { queue = q.queue ++ value ∷ [] })
  unfolding push has_room
  push-pushed value patience s h = ground arith

  -- A stopped queue refuses, full or not, and without a wait.
  pub push-stop : (value : T) (patience : Patience) → push (stop q) value patience ≡ refused
  unfolding push has_room stop
  push-stop value patience = ground arith

  -- No push takes a queue past its limit.
  pub push_bounded :
      (value : T) (patience : Patience) (was_empty : Bool) (r : SafeQueue T)
      → push q value patience ≡ pushed was_empty r
      → length r.queue ≤ r.max_size
  unfolding push has_room
  push_bounded value forever was_empty r h = ground (arith, length-append q.queue (value ∷ []))
  push_bounded value _ was_empty r h = ground (arith, length-append q.queue (value ∷ []))

-- A caller sleeps in `pop` only at an open queue that holds nothing, so no value is left behind
-- by a stop: the rest is handed out before the queue reports that it is closed.
pub pop_iff {ℓ} :
    {T : Type ℓ} (q : SafeQueue T)
    → ((pop q ≡ sleeps) ↔ ((q.queue ≡ []) × (q.stopped ≡ false)))
      × ((pop q ≡ closed) ↔ ((q.queue ≡ []) × (q.stopped ≡ true)))
unfolding pop
pop_iff q = ((λ h. ground arith, λ h. ground arith), (λ h. ground arith, λ h. ground arith))
