-- ===== src/Socket/Flush.antt =====
-- common/zmqworker.cpp: how soon what waits on the control lane goes out.
use wisp.Prelude.{
  ◌≡◌, ◌≢◌, refl, sym, ap, ◌∙◌, subst, inl, inr, ◌⊎◌, Bool, true, false, List, [], ◌∷◌, ◌++◌,
  if◌then◌else◌, arith, if_both, ℕ, zero, suc, ◌<◌, ◌≤◌, length,
}
use wisp.Queue.{SafeQueue, drain_to}
use wisp.Socket.State.{
  ZmqWorker, Item, Place, Moment, trim, flush, send_batch, flush_control, send_heartbeat,
  control_backlog_limit,
}
use wisp.Socket.Loop.{
  note_broker_id, receive, poll, drain_control, drain_data, place_data, gate_held, gate_encoded,
  ask_control, ask_outbound, ask_encoded, answer_sync, keep_alive, beat_when_due, notice_silence,
  advance_at, advance,
}

-- How many steps it takes at most to drain the control queue.
abbrev pub rank : Place → ℕ
rank Place.draining_control = 1
rank Place.polling = 2
rank Place.timing = 3
rank Place.sync_lock = 4
rank Place.sync_encoded = 5
rank Place.sync_outbound = 6
rank Place.sync_control = 7
rank Place.draining_encoded = 8
rank Place.encoded_gate = 9
rank Place.sending_held = 10
rank Place.held_gate = 11
rank Place.sending = 12
rank Place.placing = 13
rank Place.draining_data = 14
rank Place.closed = 0

-- The control lane waits, the worker runs on, and the drain comes closer.
record Nears (s t : ZmqWorker) (r : ℕ) : Type 0 where
  queue : t.control_queue ≡ s.control_queue
  backlog : t.control_backlog ≡ s.control_backlog
  running : t.running ≡ s.running
  nearer : rank t.place < r
  open_ : 0 < rank t.place

poll-Nears :
    (m : Moment) (s : ZmqWorker) → Nears s (record (poll m s) { place = Place.draining_control }) 2
unfolding poll receive note_broker_id
poll-Nears m s = record {
  queue = ground arith;
  backlog = ground arith;
  running = ground arith;
  nearer = omega arith;
  open_ = omega arith;
}

keep_alive-Nears : (m : Moment) (s : ZmqWorker) → Nears s (keep_alive m s) 3
unfolding keep_alive beat_when_due notice_silence send_heartbeat
keep_alive-Nears m s = record {
  queue = ground arith;
  backlog = ground arith;
  running = ground arith;
  nearer = omega arith;
  open_ = omega arith;
}

either :
    (b : Bool) (p q : Place) (r : ℕ)
    → (rank p < r) × (0 < rank p)
    → (rank q < r) × (0 < rank q)
    → (rank (if b then p else q) < r) × (0 < rank (if b then p else q))
either true p q r h k = h
either false p q r h k = k

advance_at-Nears :
    (m : Moment) (s : ZmqWorker) (p : Place)
    → p ≢ Place.draining_control
    → p ≢ Place.closed
    → s.running ≡ true
    → Nears s (advance_at p m s) (rank p)
unfolding advance_at drain_data place_data gate_held gate_encoded ask_control ask_outbound
    ask_encoded answer_sync send_batch send_heartbeat
advance_at-Nears m s Place.polling d c r =
    if_both (λ t. Nears s t 2) s.running _ _ (λ on. poll-Nears m s)
      (λ off. absurd (ground (arith, r, off)))
advance_at-Nears m s Place.draining_control d c r = absurd (d refl)
advance_at-Nears m s Place.closed d c r = absurd (c refl)
advance_at-Nears m s Place.timing d c r = keep_alive-Nears m s
advance_at-Nears m s Place.sending d c r = record {
  queue = refl;
  backlog = refl;
  running = refl;
  nearer = omega arith;
  open_ = omega arith;
}
advance_at-Nears m s Place.sending_held d c r = record {
  queue = refl;
  backlog = refl;
  running = refl;
  nearer = omega arith;
  open_ = omega arith;
}
advance_at-Nears m s Place.draining_encoded d c r = record {
  queue = refl;
  backlog = refl;
  running = refl;
  nearer = omega arith;
  open_ = omega arith;
}
advance_at-Nears m s _ d c r = record {
  queue = ground arith;
  backlog = ground arith;
  running = ground arith;
  nearer = ground arith;
  open_ = ground arith;
}

-- Steps of the loop, with no call of another thread among them.
abbrev pub work : ℕ → (ℕ → Moment) → ZmqWorker → ZmqWorker
work zero moments s = s
work (suc n) moments s = work n (λ i. moments (suc i)) (advance (moments 0) s)

-- The socket takes everything.
abbrev pub TakesAlways : (ℕ → Moment) → Type 0
TakesAlways moments = (n : ℕ) (wire : List Item) → (moments n).takes wire ≡ true

-- These messages after that wire, each newer than the one before.
abbrev pub prepend : List Item → List Item → List Item
prepend [] wire = wire
prepend (item ∷ items) wire = prepend items (item ∷ wire)

flush_all :
    (m : Moment) (items wire : List Item)
    → ((w : List Item) → m.takes w ≡ true)
    → flush m items wire ≡ ([], prepend items wire)
unfolding flush
flush_all m [] wire h = refl
flush_all m (item ∷ items) wire h = rw (h wire) (flush_all m items (item ∷ wire) h)

trim-fits : (limit : ℕ) (items : List Item) → length items ≤ limit → trim limit items ≡ items
unfolding trim
trim-fits limit [] h = refl
trim-fits limit (item ∷ items) h = ground arith

-- The state after a flush of what waited.
abbrev pub Gone : List Item → ZmqWorker → Type 0
Gone waiting t =
    (t.control_queue.queue ≡ [])
    × (t.control_backlog ≡ [])
    × ((wire : List Item) × (t.wire ≡ prepend waiting wire))

drain-Gone :
    (m : Moment) (s : ZmqWorker)
    → ((w : List Item) → m.takes w ≡ true)
    → length (s.control_backlog ++ s.control_queue.queue) ≤ control_backlog_limit
    → Gone (s.control_backlog ++ s.control_queue.queue) (advance_at Place.draining_control m s)
unfolding advance_at drain_control flush_control drain_to
drain-Gone m s h few = (
  refl,
  rw (trim-fits control_backlog_limit waiting few, flush_all m waiting s.wire h) refl,
  (s.wire, rw (trim-fits control_backlog_limit waiting few, flush_all m waiting s.wire h) refl),
)
  where
    waiting : List Item
    waiting = s.control_backlog ++ s.control_queue.queue

Place-cases : (p : Place) → (p ≡ Place.draining_control) ⊎ (p ≢ Place.draining_control)
Place-cases Place.draining_control = inl refl
Place-cases _ = inr (λ e. cc)

rank-closed : (p : Place) → 0 < rank p → p ≢ Place.closed
rank-closed p h e = ground (arith, ap rank e, h)

still :
    (a b : ZmqWorker)
    → a.control_backlog ≡ b.control_backlog
    → a.control_queue ≡ b.control_queue
    → a.control_backlog ++ a.control_queue.queue ≡ b.control_backlog ++ b.control_queue.queue
still a b e f =
    ap (λ l. l ++ a.control_queue.queue) e
    ∙ ap (λ (q : SafeQueue Item). b.control_backlog ++ q.queue) f

ranked : (p : Place) → p ≢ Place.closed → (0 < rank p) × (rank p ≤ 14)
ranked Place.closed h = absurd (h refl)
ranked _ h = (omega arith, omega arith)

leaves :
    (r : ℕ) (moments : ℕ → Moment) (s : ZmqWorker)
    → TakesAlways moments
    → s.running ≡ true
    → 0 < rank s.place
    → rank s.place ≤ r
    → length (s.control_backlog ++ s.control_queue.queue) ≤ control_backlog_limit
    → (n : ℕ) × (n ≤ r) × Gone (s.control_backlog ++ s.control_queue.queue) (work n moments s)
unfolding advance
leaves zero moments s all on open_ near few = absurd (ground (arith, open_, near))
leaves (suc r) moments s all on open_ near few = elim (Place-cases s.place) [
  | inl e ↦ (
    1,
    omega arith,
    subst (λ p. Gone (s.control_backlog ++ s.control_queue.queue) (advance_at p (moments 0) s))
        (sym e) (drain-Gone (moments 0) s (all 0) few),
  )
  | inr far ↦
      let t = advance_at-Nears (moments 0) s s.place far (rank-closed s.place open_) on in
      let same = still (advance (moments 0) s) s t.backlog t.queue in
      let (n, small, gone) =
        leaves r (λ i. moments (suc i)) (advance (moments 0) s) (λ i w. all (suc i) w)
          (t.running ∙ on) t.open_ (omega (arith, t.nearer, near))
          (subst (λ l. length l ≤ control_backlog_limit) (sym same) few) in
      (
        suc n,
        omega (arith, small),
        subst (λ l. Gone l (work n (λ i. moments (suc i)) (advance (moments 0) s))) same gone,
      )
]

-- A loop that is running, wherever it stands, and a socket that takes what it is given: where the
-- backlog and the control queue hold at most 11024 messages together, within 14 steps, while no other thread calls, the control queue and the control backlog are empty, and what
-- waited in the backlog and then what waited in the queue are on the wire, in this order.
pub control_leaves :
    (moments : ℕ → Moment) (s : ZmqWorker)
    → TakesAlways moments
    → s.running ≡ true
    → s.place ≢ Place.closed
    → length (s.control_backlog ++ s.control_queue.queue) ≤ control_backlog_limit
    → (n : ℕ) × (n ≤ 14) × Gone (s.control_backlog ++ s.control_queue.queue) (work n moments s)
control_leaves moments s all on open_ few =
    leaves 14 moments s all on (ranked s.place open_).0 (ranked s.place open_).1 few
