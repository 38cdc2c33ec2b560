-- ===== src/Tests/Workers.antt =====
-- A worker that subscribes, publishes and answers a `sync`.
use wisp.Prelude.{
  ◌≡◌, ◌≢◌, refl, true, false, some, [], ◌∷◌, ◌++◌, bytes_beq, ℕ, zero, suc, ◌+◌, ◌≤◌, ◌%◌, ◌^◌,
  length, codes, arith,
}
use wisp.Keys
use wisp.Wire.{Envelope, make_control}
use wisp.Queue.{is_empty, has_room, push, empty, drain_to}
use wisp.Socket.State.{
  ZmqWorker, Lane, Message, Place, Moment, Config, control_backlog_limit, flush, flush_control,
  trim, over,
}
use wisp.Socket.Loop.{
  advance, advance_at, poll, receive, note_broker_id, drain_control, drain_data, gate_held,
  gate_encoded, ask_control, ask_outbound, ask_encoded,
}
use wisp.Socket.Run.{
  Run, Step, start, write_message, write_control_message, request_sync, after_push, numbered,
}
use wisp.Socket.Order.{InOrder, Follow}
use wisp.Socket.Order.Calls.{in_order}
use wisp.Socket.Drained.{Since}
use wisp.Socket.Accounted.{handed}
use wisp.Socket.Drained.Answer.{sync_covers, sync-overtakes}
use wisp.Socket.Flush.{work, TakesAlways, Gone, control_leaves}
use wisp.Tests.Fixtures.{alice, news, bulletin}

abbrev config : Config
config = record { client_id = alice; keep_alive_time = 0; keep_alive_timeout = 0 }

-- The broker's answer has come in, and the socket takes everything.
abbrev moment : Moment
moment = record {
  now = 1;
  received = some (make_control Keys.heartbeat_ack (codes "broker-1") []);
  takes = λ wire. true;
}

abbrev begun : ZmqWorker
begun = start config moment

abbrev ticks : ℕ → ZmqWorker → ZmqWorker
ticks zero s = s
ticks (suc n) s = ticks n (advance moment s)

ticks-Run : (n : ℕ) (s : ZmqWorker) → Run s (ticks n s)
ticks-Run zero s = Run.done
ticks-Run (suc n) s = Run.then_ (Step.advances {s = s} moment) (ticks-Run n (advance moment s))

abbrev subscription : Envelope
subscription = make_control Keys.subscribe alice news

abbrev publication : Envelope
publication = record { header = bulletin; payload = codes "hi" }

abbrev subscribed : ZmqWorker
subscribed = (write_control_message begun subscription).0

abbrev both : ZmqWorker
both = (write_message subscribed publication).0

-- The subscription and then the publication, and an iteration of the loop.
in_order_example :
    InOrder (ticks 6 both).wire
    × Follow (ticks 6 both).control_queue.queue (ticks 6 both).wire
    × Follow (ticks 6 both).control_backlog (ticks 6 both).wire
in_order_example = in_order config moment (ticks 6 both) (
    Run.then_ (Step.controls {s = begun} subscription)
      (Run.then_ (Step.writes {s = subscribed} publication) (ticks-Run 6 both)))

-- Everything has gone out, and the loop is about to look for a request.
abbrev asking : ZmqWorker
asking = ticks 8 begun

asking_facts :
    (asking.place ≡ Place.sync_lock)
    × (asking.running ≡ true)
    × (has_room asking.outbound_queue ≡ true)
    × (asking.outbound_queue.stopped ≡ false)
unfolding start advance advance_at poll receive note_broker_id drain_control flush_control flush
    trim over drain_data drain_to gate_held gate_encoded ask_control ask_outbound ask_encoded
    is_empty empty bytes_beq has_room
asking_facts = (refl, refl, refl, refl)

sync_covers_example :
    (asking.batch ≡ [])
    × (asking.control_backlog ≡ [])
    × (asking.data_backlog ≡ [])
    × Since asking.mark asking.control_queue.queue
    × Since asking.mark asking.outbound_queue.queue
    × Since asking.mark asking.encoded_queue.queue
    × ((handed asking.wire
            + length asking.control_queue.queue
            + length asking.outbound_queue.queue
            + length asking.encoded_queue.queue
            + asking.dropped_sends)
          % 2 ^ 64
        ≡ asking.clock % 2 ^ 64)
sync_covers_example = sync_covers config moment asking (ticks-Run 8 begun) asking_facts.0

sync-overtakes_example :
    let t = advance moment (request_sync (write_message asking publication).0) in
    (t.outbound_queue.queue
      ≡ asking.outbound_queue.queue
        ++ numbered Lane.data_ asking (Message.envelope publication) ∷ [])
    × (t.wire
        ≡ record {
          lane = Lane.own;
          stamp = asking.clock + 1;
          message = Message.envelope (make_control Keys.heartbeat asking.config.client_id []);
        }
          ∷ asking.wire)
    × (t.sync_target ≡ (asking.heartbeats_sent + 1) % 2 ^ 64)
sync-overtakes_example =
    sync-overtakes moment asking publication asking_facts.0 asking_facts.1 asking_facts.2
      asking_facts.3 refl

abbrev moments : ℕ → Moment
moments n = moment

moments-TakesAlways : TakesAlways moments
moments-TakesAlways n wire = refl

subscribed_facts :
    (subscribed.running ≡ true)
    × (subscribed.place ≢ Place.closed)
    × (length (subscribed.control_backlog ++ subscribed.control_queue.queue)
        ≤ control_backlog_limit)
unfolding start write_control_message after_push push empty has_room
subscribed_facts = (refl, λ e. cc, omega arith)

control_leaves_example :
    (n : ℕ) × (n ≤ 14)
    × Gone
        (subscribed.control_backlog ++ subscribed.control_queue.queue)
        (work n moments subscribed)
control_leaves_example =
    control_leaves moments subscribed moments-TakesAlways subscribed_facts.0 subscribed_facts.1
      subscribed_facts.2
