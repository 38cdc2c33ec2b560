-- ===== src/Queue.antt =====
-- common/safequeue.h: the bounded queue between threads. Each call runs under the mutex, so a call
-- is one step; `waits` is a call that stays in its condition variable until the state changes.
pub mod Fifo
pub mod Trace
use wisp.Prelude.{
  ℕ, Bool, true, false, not, ◌||◌, ◌&&◌, Option, none, some, List, [], ◌∷◌, ◌++◌, ltb,
  if◌then◌else◌, length,
}

pub record SafeQueue {ℓ} (T : Type ℓ) : Type ℓ where
  pub queue : List T
  pub stopped : Bool
  pub max_size : ℕ

-- How long a caller waits for room: for ever, until a timeout that has passed, or one that has not.
pub data Patience : Type 0 where
  forever expired pending : Patience

pub data PushResult {ℓ} (T : Type ℓ) : Type ℓ where
  pushed : Bool → SafeQueue T → PushResult T
  timed_out : PushResult T
  refused : PushResult T
  waits : PushResult T

pub data PopResult {ℓ} (T : Type ℓ) : Type ℓ where
  popped : T → SafeQueue T → PopResult T
  closed : PopResult T
  sleeps : PopResult T

module _ {ℓ} {T : Type ℓ} where
  unfoldable pub is_empty : SafeQueue T → Bool
  is_empty q = elim q.queue [ [] ↦ true | x ∷ xs ↦ false ]

  -- `m_queue.size() < m_maxSize || m_stop`
  unfoldable pub has_room : SafeQueue T → Bool
  has_room q = ltb (length q.queue) q.max_size || q.stopped

  -- `pushInternal`; the Boolean is `wasEmpty`.
  unfoldable pub push : SafeQueue T → T → Patience → PushResult T
  unfolding has_room is_empty
  push q value patience =
      if has_room q
      then if q.stopped
        then refused
        else pushed (is_empty q) (record q { queue = q.queue ++ value ∷ [] })
      else elim patience [ forever ↦ waits | expired ↦ timed_out | pending ↦ waits ]

  pub pop : SafeQueue T → PopResult T
  pop q = elim q.queue [
    | [] ↦ if q.stopped then closed else sleeps
    | x ∷ xs ↦ popped x (record q { queue = xs })
  ]

  pub try_pop : SafeQueue T → Option (T × SafeQueue T)
  try_pop q = elim q.queue [ [] ↦ none | x ∷ xs ↦ some (x, record q { queue = xs }) ]

  -- The swap with the cleared `out`.
  unfoldable pub drain_to : SafeQueue T → List T × SafeQueue T
  drain_to q = (q.queue, record q { queue = [] })

  pub stop : SafeQueue T → SafeQueue T
  stop q = record q { stopped = true }

  pub reset : SafeQueue T → SafeQueue T
  reset q = record q { stopped = false }

  unfoldable pub empty : ℕ → SafeQueue T
  empty max_size = record { queue = []; stopped = false; max_size = max_size }
