-- ===== src/Socket/Drained/Answer.antt =====
-- common/zmqworker.cpp: the heartbeat of a `sync`, in `runLoop`.
use wisp.Prelude.{◌≡◌, refl, ap, subst, true, false, [], ◌∷◌, ◌++◌, arith, ◌+◌, ◌%◌, ◌^◌, length}
use wisp.Keys
use wisp.Wire.{Envelope, make_control}
use wisp.Queue.{push, has_room}
use wisp.Socket.State.{ZmqWorker, Lane, Message, Place, Moment, Config, send, send_heartbeat}
use wisp.Socket.Loop.{answer_sync, advance_at, advance}
use wisp.Socket.Run.{Run, numbered, after_push, write_message, request_sync, start}
use wisp.Socket.Drained.{Since, InHand, Asked, IsSeen}
use wisp.Socket.Accounted.{handed}
use wisp.Socket.Accounted.Steps.{Run-start-IsAccounted}
use wisp.Socket.Drained.Calls.{Run-IsSeen, start-IsSeen}

-- In every order of the loop's steps and the other threads' calls: where the loop is about to send
-- the heartbeat of a `sync`, both backlogs are empty, no batch is in hand, and every message that
-- waits in a queue was queued after the loop had begun to ask whether all were empty. Modulo 2 ^ 64,
-- the messages that came by a queue and that the socket took, those that were counted as dropped, and
-- those that wait in the queues are together as many as were ever queued.
pub sync_covers :
    (config : Config) (m : Moment) (s : ZmqWorker)
    → Run (start config m) s
    → s.place ≡ Place.sync_lock
    → (s.batch ≡ [])
      × (s.control_backlog ≡ [])
      × (s.data_backlog ≡ [])
      × Since s.mark s.control_queue.queue
      × Since s.mark s.outbound_queue.queue
      × Since s.mark s.encoded_queue.queue
      × ((handed s.wire
              + length s.control_queue.queue
              + length s.outbound_queue.queue
              + length s.encoded_queue.queue
              + s.dropped_sends)
            % 2 ^ 64
          ≡ s.clock % 2 ^ 64)
sync_covers config m s r e =
    let (c, d, q, o, n) = subst (λ p. Asked p s) e k.asked in
    let b : s.batch ≡ [] = subst (λ p. InHand p s.batch) e k.in_hand in
    (
      b,
      c,
      d,
      q,
      o,
      n,
      omega
          (arith, (Run-start-IsAccounted config m s r).even, ap length b, ap length c, ap length d),
    )
  where
    k : IsSeen s
    k = Run-IsSeen r (start-IsSeen config m)

-- Where the loop has asked every queue and is about to look for a request, with room in the queue of a
-- running worker and in the socket: a thread that publishes a message and then calls `sync` gets the
-- heartbeat of its `sync` on the wire, and its count as what `sync` waits for, while its message still
-- waits in the queue.
pub sync-overtakes :
    (m : Moment) (s : ZmqWorker) (e : Envelope)
    → s.place ≡ Place.sync_lock
    → s.running ≡ true
    → has_room s.outbound_queue ≡ true
    → s.outbound_queue.stopped ≡ false
    → m.takes s.wire ≡ true
    → let t = advance m (request_sync (write_message s e).0) in
      (t.outbound_queue.queue
        ≡ s.outbound_queue.queue ++ numbered Lane.data_ s (Message.envelope e) ∷ [])
      × (t.wire
          ≡ record {
            lane = Lane.own;
            stamp = s.clock + 1;
            message = Message.envelope (make_control Keys.heartbeat s.config.client_id []);
          }
            ∷ s.wire)
      × (t.sync_target ≡ (s.heartbeats_sent + 1) % 2 ^ 64)
unfolding advance advance_at answer_sync send_heartbeat request_sync write_message after_push push
    send
sync-overtakes m s e p r room open_ takes =
    rw (room, open_) (rw (r, p) (rw takes (refl, refl, refl)))
