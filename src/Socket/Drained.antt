-- ===== src/Socket/Drained.antt =====
-- common/zmqworker.cpp: what still waits when the heartbeat of a `sync` goes out.
pub mod Calls
pub mod Answer
use wisp.Prelude.{
  ◌≡◌, refl, sym, ap, ◌∙◌, subst, inl, inr, Bool-cases, Bool, true, false, not, ◌&&◌, Option, none,
  some, List, [], ◌∷◌, ◌++◌, if◌then◌else◌, arith, if_both, ℕ, ◌+◌, ◌-◌, ◌<◌, ◌≤◌, ◌%◌, ◌^◌, ltb,
  Bytes, length,
}
use wisp.Keys
use wisp.Wire.{Envelope, WireMessage, make_control}
use wisp.Queue.{SafeQueue, PushResult, Patience, push, is_empty, has_room, empty, drain_to}
use wisp.Socket.State.{
  ZmqWorker, Item, Lane, Message, Place, Moment, Config, send, trim, send_batch, flush_control,
  send_heartbeat, heartbeat_interval,
}
use wisp.Socket.Loop.{
  none_held, note_broker_id, receive, poll, drain_control, drain_data, place_data, gate_held,
  gate_encoded, ask_control, ask_outbound, ask_encoded, answer_sync, keep_alive, beat_when_due,
  notice_silence, close, advance_at, advance,
}
use wisp.Socket.Run.{
  Run, Step, numbered, after_push, write_message, write_control_message, write_encoded,
  request_sync, withdraw_sync, stop, start,
}
use wisp.Socket.Order.{All, All-append}
use wisp.Socket.Order.Calls.{after_push-cases}

-- Queued no earlier than this number.
abbrev pub Since : ℕ → List Item → Type 0
Since n items = All (λ (item : Item). n ≤ item.stamp) items

-- A batch is in hand only from its drain until it is placed or sent.
abbrev pub InHand : Place → List Item → Type 0
InHand Place.placing batch = Unit {0}
InHand Place.sending batch = Unit {0}
InHand _ batch = batch ≡ []

-- What the loop has seen to be gone, by the question it stands at.
abbrev pub Asked : Place → ZmqWorker → Type 0
Asked Place.sync_outbound s =
    (s.control_backlog ≡ []) × (s.data_backlog ≡ []) × Since s.mark s.control_queue.queue
Asked Place.sync_encoded s =
    (s.control_backlog ≡ [])
    × (s.data_backlog ≡ [])
    × Since s.mark s.control_queue.queue
    × Since s.mark s.outbound_queue.queue
Asked Place.sync_lock s =
    (s.control_backlog ≡ [])
    × (s.data_backlog ≡ [])
    × Since s.mark s.control_queue.queue
    × Since s.mark s.outbound_queue.queue
    × Since s.mark s.encoded_queue.queue
Asked _ s = Unit {0}

pub record IsSeen (s : ZmqWorker) : Type 0 where
  pub marked : s.mark ≤ s.clock
  pub in_hand : InHand s.place s.batch
  pub asked : Asked s.place s

none_held-nil : (items : List Item) → none_held items ≡ true → items ≡ []
none_held-nil [] h = refl
none_held-nil (x ∷ items) h = absurd (ground (arith, h))

is_empty-nil : (q : SafeQueue Item) → is_empty q ≡ true → q.queue ≡ []
unfolding is_empty
is_empty-nil q h = by_queue q.queue h
  where
    by_queue : (items : List Item) → elim items [ [] ↦ true | x ∷ xs ↦ false ] ≡ true → items ≡ []
    by_queue [] h = refl
    by_queue (x ∷ items) h = absurd (ground (arith, h))

poll-IsSeen :
    (m : Moment) (s : ZmqWorker)
    → s.mark ≤ s.clock
    → s.batch ≡ []
    → IsSeen (record (poll m s) { place = Place.draining_control })
unfolding poll receive note_broker_id
poll-IsSeen m s h b = record { marked = ground arith; in_hand = ground arith; asked = tt }

keep_alive-IsSeen :
    (m : Moment) (s : ZmqWorker) → s.mark ≤ s.clock → s.batch ≡ [] → IsSeen (keep_alive m s)
unfolding keep_alive beat_when_due notice_silence send_heartbeat
keep_alive-IsSeen m s h b = record { marked = ground arith; in_hand = ground arith; asked = tt }

module _ (s : ZmqWorker) (k : IsSeen s) where
  ask_control-IsSeen : s.batch ≡ [] → IsSeen (ask_control s)
  unfolding ask_control
  ask_control-IsSeen b =
      if_both (λ p. IsSeen (record s { mark = s.clock; place = p }))
        (s.is_online
          && (none_held s.control_backlog
              && (none_held s.data_backlog && is_empty s.control_queue)))
        _ _
        (λ gone. record {
          marked = omega arith;
          in_hand = b;
          asked = (
            none_held-nil s.control_backlog (ground (arith, gone)),
            none_held-nil s.data_backlog (ground (arith, gone)),
            rw (is_empty-nil s.control_queue (ground (arith, gone))) tt,
          );
        })
        (λ waits. record { marked = omega arith; in_hand = b; asked = tt })

  ask_outbound-IsSeen :
      s.batch ≡ []
      → (s.control_backlog ≡ []) × (s.data_backlog ≡ []) × Since s.mark s.control_queue.queue
      → IsSeen (ask_outbound s)
  unfolding ask_outbound
  ask_outbound-IsSeen b (c, d, q) =
      if_both (λ p. IsSeen (record s { place = p })) (is_empty s.outbound_queue) _ _
        (λ gone. record {
          marked = k.marked;
          in_hand = b;
          asked = (c, d, q, rw (is_empty-nil s.outbound_queue gone) tt);
        })
        (λ waits. record { marked = k.marked; in_hand = b; asked = tt })

  ask_encoded-IsSeen :
      s.batch ≡ []
      → (s.control_backlog ≡ [])
        × (s.data_backlog ≡ [])
        × Since s.mark s.control_queue.queue
        × Since s.mark s.outbound_queue.queue
      → IsSeen (ask_encoded s)
  unfolding ask_encoded
  ask_encoded-IsSeen b (c, d, q, o) =
      if_both (λ p. IsSeen (record s { place = p })) (is_empty s.encoded_queue) _ _
        (λ gone. record {
          marked = k.marked;
          in_hand = b;
          asked = (c, d, q, o, rw (is_empty-nil s.encoded_queue gone) tt);
        })
        (λ waits. record { marked = k.marked; in_hand = b; asked = tt })

  drain_data-IsSeen : s.batch ≡ [] → IsSeen (drain_data s)
  unfolding drain_data drain_to
  drain_data-IsSeen b =
      if_both IsSeen (not s.is_online) _ _
        (λ off. record { marked = k.marked; in_hand = b; asked = tt })
        (λ on.
          if_both
            (λ p. IsSeen (record s {
              batch = s.outbound_queue.queue;
              outbound_queue = record s.outbound_queue { queue = [] };
              place = p;
            }))
            (none_held s.outbound_queue.queue) _ _
            (λ nothing. record {
              marked = k.marked;
              in_hand = none_held-nil s.outbound_queue.queue nothing;
              asked = tt;
            })
            (λ some_. record { marked = k.marked; in_hand = tt; asked = tt }))

  place_data-IsSeen : IsSeen (place_data s)
  unfolding place_data
  place_data-IsSeen =
      if_both IsSeen
        (none_held s.data_backlog && (none_held s.control_backlog && is_empty s.control_queue)) _ _
        (λ clear. record { marked = k.marked; in_hand = tt; asked = tt })
        (λ waits. record { marked = k.marked; in_hand = refl; asked = tt })

  hand : {p : Place} → s.place ≡ p → InHand p s.batch
  hand e = subst (λ p. InHand p s.batch) e k.in_hand

  seen : {p : Place} → s.place ≡ p → Asked p s
  seen e = subst (λ p. Asked p s) e k.asked

  pub advance_at-IsSeen : (m : Moment) (p : Place) → s.place ≡ p → IsSeen (advance_at p m s)
  unfolding advance_at drain_control flush_control send_batch gate_held gate_encoded answer_sync
      send_heartbeat close
  advance_at-IsSeen m Place.polling e =
      if_both IsSeen s.running _ _ (λ on. poll-IsSeen m s k.marked (hand e))
        (λ off. record { marked = k.marked; in_hand = hand e; asked = tt })
  advance_at-IsSeen m Place.draining_control e = record {
    marked = k.marked;
    in_hand = hand e;
    asked = tt;
  }
  advance_at-IsSeen m Place.draining_data e = drain_data-IsSeen (hand e)
  advance_at-IsSeen m Place.placing e = place_data-IsSeen
  advance_at-IsSeen m Place.sending e = record { marked = k.marked; in_hand = refl; asked = tt }
  advance_at-IsSeen m Place.held_gate e =
      if_both (λ p. IsSeen (record s { place = p }))
        (not (none_held s.data_backlog)
          && (none_held s.control_backlog && is_empty s.control_queue))
        Place.sending_held Place.encoded_gate
        (λ clear. record { marked = k.marked; in_hand = hand e; asked = tt })
        (λ waits. record { marked = k.marked; in_hand = hand e; asked = tt })
  advance_at-IsSeen m Place.sending_held e = record {
    marked = k.marked;
    in_hand = hand e;
    asked = tt;
  }
  advance_at-IsSeen m Place.encoded_gate e =
      if_both (λ p. IsSeen (record s { place = p }))
        (s.is_online
          && (none_held s.control_backlog && (is_empty s.control_queue && s.has_encoded)))
        Place.draining_encoded Place.sync_control
        (λ clear. record { marked = k.marked; in_hand = hand e; asked = tt })
        (λ waits. record { marked = k.marked; in_hand = hand e; asked = tt })
  advance_at-IsSeen m Place.draining_encoded e = record {
    marked = k.marked;
    in_hand = hand e;
    asked = tt;
  }
  advance_at-IsSeen m Place.sync_control e = ask_control-IsSeen (hand e)
  advance_at-IsSeen m Place.sync_outbound e = ask_outbound-IsSeen (hand e) (seen e)
  advance_at-IsSeen m Place.sync_encoded e = ask_encoded-IsSeen (hand e) (seen e)
  advance_at-IsSeen m Place.sync_lock e =
      if_both IsSeen s.sync_requested _ _
        (λ asked. record { marked = k.marked; in_hand = hand e; asked = tt })
        (λ quiet. record { marked = k.marked; in_hand = hand e; asked = tt })
  advance_at-IsSeen m Place.timing e = keep_alive-IsSeen m s k.marked (hand e)
  advance_at-IsSeen m Place.closed e = record {
    marked = k.marked;
    in_hand = subst (λ p. InHand p s.batch) (sym e) (hand e);
    asked = subst (λ p. Asked p (flush_control m s.control_backlog s)) (sym e) tt;
  }
