-- ===== src/Socket/Order/Steps.antt =====
-- common/zmqworker.cpp: the order that every step of the worker and every call keeps.
use wisp.Prelude.{
  ◌≡◌, refl, sym, subst, Bool, true, false, ◌&&◌, if◌then◌else◌, arith, if_both, ◌-◌, ltb,
}
use wisp.Queue.{is_empty}
use wisp.Socket.State.{
  ZmqWorker, Place, Moment, flush, flush_control, send_heartbeat, heartbeat_interval,
}
use wisp.Socket.Loop.{
  none_held, note_broker_id, receive, poll, gate_encoded, ask_control, ask_outbound, ask_encoded,
  answer_sync, keep_alive, beat_when_due, notice_silence, advance_at, advance,
}
use wisp.Socket.Order.Kept.{Follows, Waiting, Gate, IsKept, flush-Follows}
use wisp.Socket.Order.Batches.{
  drain_control-IsKept, close-IsKept, drain_data-IsKept, place_data-IsKept, gate_held-IsKept,
  sending-IsKept, sending_held-IsKept, draining_encoded-IsKept, own-Follows,
}

-- What the order is about.
abbrev Pieces : ZmqWorker → Type 0
Pieces s =
    Follows s.wire s.control_queue.queue s.control_backlog s.clock
    × Waiting s.outbound_queue.queue s.encoded_queue.queue s.batch s.data_backlog s.clock

poll-Pieces : (m : Moment) (s : ZmqWorker) → Pieces s → Pieces (poll m s)
unfolding poll receive note_broker_id
poll-Pieces m s p = ground arith

notice_silence-Pieces : (m : Moment) (s : ZmqWorker) → Pieces s → Pieces (notice_silence m s)
unfolding notice_silence
notice_silence-Pieces m s p = ground arith

module _ (s : ZmqWorker) (k : IsKept s) where
  -- One of two places where nothing is being sent.
  idle :
      (t : ZmqWorker) (b : Bool) (p q : Place)
      → Gate p t.control_queue.queue t.control_backlog t.batch t.data_backlog
      → Gate q t.control_queue.queue t.control_backlog t.batch t.data_backlog
      → Gate (if b then p else q) t.control_queue.queue t.control_backlog t.batch t.data_backlog
  idle t true p q h g = h
  idle t false p q h g = g

  answer_sync-IsKept : (m : Moment) → IsKept (answer_sync m s)
  unfolding answer_sync send_heartbeat
  answer_sync-IsKept m =
      if_both IsKept s.sync_requested _ _
        (λ asked. record { follows = own-Follows s k m _; waiting = k.waiting; gate = tt })
        (λ quiet. record { follows = k.follows; waiting = k.waiting; gate = tt })

  keep_alive-IsKept : (m : Moment) → IsKept (keep_alive m s)
  unfolding keep_alive beat_when_due notice_silence send_heartbeat
  keep_alive-IsKept m = record { follows = settled.0; waiting = settled.1; gate = tt }
    where
      beaten : Pieces (beat_when_due m s)
      beaten =
          if_both Pieces (ltb (heartbeat_interval s.config) (m.now - s.last_heartbeat)) _ _
            (λ due. (own-Follows s k m _, k.waiting)) (λ early. (k.follows, k.waiting))

      settled : Pieces (notice_silence m (beat_when_due m s))
      settled = notice_silence-Pieces m (beat_when_due m s) beaten

  advance_at-IsKept : (m : Moment) (p : Place) → s.place ≡ p → IsKept (advance_at p m s)
  unfolding advance_at gate_encoded ask_control ask_outbound ask_encoded flush_control
  advance_at-IsKept m Place.polling e =
      if_both IsKept s.running _ _
        (λ on. record {
          follows = (poll-Pieces m s (k.follows, k.waiting)).0;
          waiting = (poll-Pieces m s (k.follows, k.waiting)).1;
          gate = tt;
        })
        (λ off. close-IsKept s k m)
  advance_at-IsKept m Place.draining_control e = drain_control-IsKept s k m
  advance_at-IsKept m Place.draining_data e = drain_data-IsKept s k
  advance_at-IsKept m Place.placing e = place_data-IsKept s k
  advance_at-IsKept m Place.sending e =
      sending-IsKept s k m (
        subst (λ p. Gate p s.control_queue.queue s.control_backlog s.batch s.data_backlog) e k.gate)
  advance_at-IsKept m Place.held_gate e = gate_held-IsKept s k
  advance_at-IsKept m Place.sending_held e =
      sending_held-IsKept s k m (
        subst (λ p. Gate p s.control_queue.queue s.control_backlog s.batch s.data_backlog) e k.gate)
  advance_at-IsKept m Place.encoded_gate e = record {
    follows = k.follows;
    waiting = k.waiting;
    gate =
        idle s
          (s.is_online
            && (none_held s.control_backlog && (is_empty s.control_queue && s.has_encoded)))
          Place.draining_encoded Place.sync_control tt tt;
  }
  advance_at-IsKept m Place.draining_encoded e = draining_encoded-IsKept s k m
  advance_at-IsKept m Place.sync_control e = record {
    follows = k.follows;
    waiting = k.waiting;
    gate =
        idle s
          (s.is_online
            && (none_held s.control_backlog
                && (none_held s.data_backlog && is_empty s.control_queue)))
          Place.sync_outbound Place.timing tt tt;
  }
  advance_at-IsKept m Place.sync_outbound e = record {
    follows = k.follows;
    waiting = k.waiting;
    gate = idle s (is_empty s.outbound_queue) Place.sync_encoded Place.timing tt tt;
  }
  advance_at-IsKept m Place.sync_encoded e = record {
    follows = k.follows;
    waiting = k.waiting;
    gate = idle s (is_empty s.encoded_queue) Place.sync_lock Place.timing tt tt;
  }
  advance_at-IsKept m Place.sync_lock e = answer_sync-IsKept m
  advance_at-IsKept m Place.timing e = keep_alive-IsKept m
  advance_at-IsKept m Place.closed e = record {
    follows =
        flush-Follows m s.wire s.control_queue.queue s.control_backlog s.clock
          k.follows.backlog_lane k.follows.backlog_after k.follows.control_lane
          k.follows.control_after k.follows.ordered k.follows.past;
    waiting = k.waiting;
    gate =
        subst
          (λ p.
            Gate p s.control_queue.queue (flush m s.control_backlog s.wire).0 s.batch
              s.data_backlog)
          (sym e) tt;
  }

  pub advance-IsKept : (m : Moment) → IsKept (advance m s)
  unfolding advance
  advance-IsKept m = advance_at-IsKept m s.place refl
