-- ===== src/Queue/Trace.antt =====
-- common/safequeue.h: interleavings of calls by several threads.
use wisp.Prelude.{
  ℕ, ◌≤◌, ◌≡◌, refl, sym, ap, ◌∙◌, Bool, Option, none, some, List, [], ◌∷◌, ◌++◌, append_assoc,
  append-nil, arith, length, length-append, if_both,
}
use wisp.Queue.{
  SafeQueue, Patience, forever, expired, pending, PushResult, pushed, timed_out, refused, waits,
  PopResult, popped, closed, sleeps, push, pop, try_pop, drain_to, stop, reset, empty, has_room,
}

-- The calls, as the mutex orders them.
pub data Call {ℓ} (T : Type ℓ) : Type ℓ where
  pushes : T → Patience → Call T
  pops : Call T
  tries : Call T
  drains : Call T
  stops : Call T
  resets : Call T

-- The queue, what has been accepted and what has been handed out, each oldest first.
pub record Ledger {ℓ} (T : Type ℓ) : Type ℓ where
  pub queue : SafeQueue T
  pub accepted : List T
  pub taken : List T

module _ {ℓ} {T : Type ℓ} where
  after_push : Ledger T → T → PushResult T → Ledger T
  after_push l v (pushed was_empty q) = record l { queue = q; accepted = l.accepted ++ v ∷ [] }
  after_push l v timed_out = l
  after_push l v refused = l
  after_push l v waits = l

  after_pop : Ledger T → PopResult T → Ledger T
  after_pop l (popped x q) = record l { queue = q; taken = l.taken ++ x ∷ [] }
  after_pop l closed = l
  after_pop l sleeps = l

  after_try : Ledger T → Option (T × SafeQueue T) → Ledger T
  after_try l none = l
  after_try l (some (x, q)) = record l { queue = q; taken = l.taken ++ x ∷ [] }

  after_drain : Ledger T → List T × SafeQueue T → Ledger T
  after_drain l (xs, q) = record l { queue = q; taken = l.taken ++ xs }

  pub step : Ledger T → Call T → Ledger T
  unfolding after_push after_pop after_try after_drain
  step l (pushes v patience) = after_push l v (push l.queue v patience)
  step l pops = after_pop l (pop l.queue)
  step l tries = after_try l (try_pop l.queue)
  step l drains = after_drain l (drain_to l.queue)
  step l stops = record l { queue = stop l.queue }
  step l resets = record l { queue = reset l.queue }

  pub run : Ledger T → List (Call T) → Ledger T
  unfolding step
  run l [] = l
  run l (c ∷ cs) = run (step l c) cs

  -- What was handed out, then what is queued, is what was accepted; and the queue is in its limit.
  pub record IsKept (l : Ledger T) : Type ℓ where
    pub kept : l.taken ++ l.queue.queue ≡ l.accepted
    pub bounded : length l.queue.queue ≤ l.queue.max_size

  push-IsKept :
      (l : Ledger T) (v : T) (patience : Patience)
      → IsKept l
      → IsKept (after_push l v (push l.queue v patience))
  unfolding push after_push has_room
  push-IsKept l v patience k =
      if_both (λ r. IsKept (after_push l v r)) (has_room l.queue) _ _
        (λ room.
          if_both (λ r. IsKept (after_push l v r)) l.queue.stopped _ _ (λ _. k)
            λ going. record {
              kept =
                  sym (append_assoc l.taken l.queue.queue (v ∷ []))
                  ∙ ap (λ xs. xs ++ v ∷ []) k.kept;
              bounded = ground (arith, length-append l.queue.queue (v ∷ []), room, going);
            })
        λ _.
          elim patience
            as (λ p. IsKept (
              after_push l v
                (elim p [ forever ↦ waits | expired ↦ timed_out | pending ↦ waits ]))) [
                  | forever ↦ k
                  | expired ↦ k
                  | pending ↦ k
                ]

  module _ (s : Bool) (m : ℕ) (accepted taken : List T) where
    abbrev ledger : List T → Ledger T
    ledger xs = record {
      queue = record { queue = xs; stopped = s; max_size = m };
      accepted = accepted;
      taken = taken;
    }

    pop-IsKept :
        (xs : List T) → IsKept (ledger xs) → IsKept (after_pop (ledger xs) (pop (ledger xs).queue))
    unfolding pop after_pop
    pop-IsKept [] k = if_both (λ r. IsKept (after_pop (ledger []) r)) s _ _ (λ _. k) (λ _. k)
    pop-IsKept (x ∷ xs) k = record {
      kept = append_assoc taken (x ∷ []) xs ∙ k.kept;
      bounded = omega (arith, k.bounded);
    }

    try-IsKept :
        (xs : List T)
        → IsKept (ledger xs)
        → IsKept (after_try (ledger xs) (try_pop (ledger xs).queue))
    unfolding try_pop after_try
    try-IsKept [] k = k
    try-IsKept (x ∷ xs) k = record {
      kept = append_assoc taken (x ∷ []) xs ∙ k.kept;
      bounded = omega (arith, k.bounded);
    }

  step-IsKept : (l : Ledger T) (c : Call T) → IsKept l → IsKept (step l c)
  unfolding step drain_to stop reset
  step-IsKept l (pushes v patience) k = push-IsKept l v patience k
  step-IsKept l pops k =
      pop-IsKept l.queue.stopped l.queue.max_size l.accepted l.taken l.queue.queue k
  step-IsKept l tries k =
      try-IsKept l.queue.stopped l.queue.max_size l.accepted l.taken l.queue.queue k
  step-IsKept l drains k = record { kept = rw append-nil k.kept; bounded = omega arith }
  step-IsKept l stops k = record { kept = k.kept; bounded = k.bounded }
  step-IsKept l resets k = record { kept = k.kept; bounded = k.bounded }

  run-IsKept : (l : Ledger T) (cs : List (Call T)) → IsKept l → IsKept (run l cs)
  unfolding run
  run-IsKept l [] k = k
  run-IsKept l (c ∷ cs) k = run-IsKept (step l c) cs (step-IsKept l c k)

-- A queue that nobody has used yet.
abbrev pub unused {ℓ} : (T : Type ℓ) → ℕ → Ledger T
unused T max_size = record { queue = empty max_size; accepted = []; taken = [] }

-- Whatever calls the threads make and however the mutex orders them, the values handed out, in
-- the order in which they were, followed by those still queued are the values accepted, in the
-- order in which they were; and the queue never holds more than its limit.
pub fifo {ℓ} :
    (T : Type ℓ) (max_size : ℕ) (cs : List (Call T))
    → let l = run (unused T max_size) cs in
      (l.taken ++ l.queue.queue ≡ l.accepted) × (length l.queue.queue ≤ l.queue.max_size)
unfolding empty
fifo T max_size cs =
    let k = run-IsKept (unused T max_size) cs (record { kept = refl; bounded = omega arith }) in
    (k.kept, k.bounded)
