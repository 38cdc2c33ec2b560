-- ===== src/Socket/State.antt =====
-- common/zmqworker.h and common/zmqworker.cpp: the state of a worker, and what its loop sends.
use wisp.Prelude.{
  ℕ, ◌+◌, ◌*◌, ◌%◌, ◌^◌, Bool, Option, List, [], ◌∷◌, ltb, leb, Bytes, if◌then◌else◌, length,
}
use wisp.Keys
use wisp.Wire.{Envelope, WireMessage, make_control}
use wisp.Queue.{SafeQueue}

-- Which way a message came: the three queues, or the worker itself.
pub data Lane : Type 0 where
  control data_ encoded own : Lane

-- `deref` serves both.
pub data Message : Type 0 where
  envelope : Envelope → Message
  raw : WireMessage → Message

-- `stamp` numbers the messages by their arrival in the queues; the code keeps no such number.
pub record Item : Type 0 where
  pub lane : Lane
  pub stamp : ℕ
  pub message : Message

-- Where the loop stands, between two accesses to what other threads share.
pub data Place : Type 0 where
  polling : Place
  draining_control : Place
  draining_data : Place
  placing : Place
  sending : Place
  held_gate : Place
  sending_held : Place
  encoded_gate : Place
  draining_encoded : Place
  sync_control : Place
  sync_outbound : Place
  sync_encoded : Place
  sync_lock : Place
  timing : Place
  closed : Place

-- `int` values that are not positive count as 0.
pub record Config : Type 0 where
  pub client_id : Bytes
  pub keep_alive_time : ℕ
  pub keep_alive_timeout : ℕ

-- `wire` is what the socket took and `statuses` what the status callback was told, newest first.
-- Two numbers are not the code's: `clock` stamps the next message, and `mark` was the clock when the
-- loop last began to ask whether everything has gone out.
pub record ZmqWorker : Type 0 where
  pub config : Config
  pub control_queue : SafeQueue Item
  pub outbound_queue : SafeQueue Item
  pub encoded_queue : SafeQueue Item
  pub has_encoded : Bool
  pub running : Bool
  pub place : Place
  pub batch : List Item
  pub control_backlog : List Item
  pub data_backlog : List Item
  pub wire : List Item
  pub is_online : Bool
  pub statuses : List Bool
  pub last_heartbeat : ℕ
  pub last_rx : ℕ
  pub broker_id : Bytes
  pub heartbeats_sent : ℕ
  pub acks_received : ℕ
  pub sync_requested : Bool
  pub sync_target : ℕ
  pub dropped_sends : ℕ
  pub clock : ℕ
  pub mark : ℕ

-- What a step of the loop finds: the time, a message that came in, and whether the socket takes
-- another message after all that it has taken.
pub record Moment : Type 0 where
  pub now : ℕ
  pub received : Option Envelope
  pub takes : List Item → Bool

abbrev pub control_backlog_limit : ℕ
control_backlog_limit = 10000 + 1024

abbrev pub data_backlog_limit : ℕ
data_backlog_limit = 5000

abbrev pub or_default : ℕ → ℕ → ℕ
or_default n d = if ltb 0 n then n else d

unfoldable pub heartbeat_interval : Config → ℕ
heartbeat_interval config = or_default config.keep_alive_time 3000

-- A window that does not exceed the interval is raised.
unfoldable pub server_timeout : Config → ℕ
unfolding heartbeat_interval
server_timeout config =
    let timeout = or_default config.keep_alive_timeout 10000 in
    if leb timeout (heartbeat_interval config) then heartbeat_interval config * 3 else timeout

-- `Wire::send` without waiting: what the socket has taken afterwards.
unfoldable pub send : Moment → Item → List Item → List Item
send m item wire = if m.takes wire then item ∷ wire else wire

-- `sendBatch`: what the socket has taken afterwards, and how many it refused.
unfoldable pub put : Moment → List Item → List Item → List Item
unfolding send
put m [] wire = wire
put m (item ∷ items) wire = put m items (send m item wire)

unfoldable pub refused : Moment → List Item → List Item → ℕ
unfolding send
refused m [] wire = 0
refused m (item ∷ items) wire =
    let rest = refused m items (send m item wire) in if m.takes wire then rest else rest + 1

unfoldable pub send_batch : Moment → List Item → ZmqWorker → ZmqWorker
unfolding put refused
send_batch m items s = record s {
  wire = put m items s.wire;
  dropped_sends = (s.dropped_sends + refused m items s.wire) % 2 ^ 64;
}

-- `flushControl` of a backlog: what is left of it, and what the socket has taken.
unfoldable pub flush : Moment → List Item → List Item → List Item × List Item
flush m [] wire = ([], wire)
flush m (item ∷ items) wire =
    let rest = flush m items (item ∷ wire) in if m.takes wire then rest else (item ∷ items, wire)

unfoldable pub flush_control : Moment → List Item → ZmqWorker → ZmqWorker
unfolding flush
flush_control m backlog s = record s {
  control_backlog = (flush m backlog s.wire).0;
  wire = (flush m backlog s.wire).1;
}

-- `while (backlog.size() > limit) { backlog.pop_front(); noteDroppedSend(); }`, on the backlog in hand.
unfoldable pub over : ℕ → List Item → ℕ
over limit [] = 0
over limit (item ∷ items) =
    let rest = over limit items in if ltb limit (length (item ∷ items)) then rest + 1 else 0

unfoldable pub trim : ℕ → List Item → List Item
trim limit [] = []
trim limit (item ∷ items) =
    let rest = trim limit items in if ltb limit (length (item ∷ items)) then rest else item ∷ items

unfoldable pub send_heartbeat : Moment → ZmqWorker → ZmqWorker
unfolding send
send_heartbeat m s =
    let beat : Item = record {
      lane = Lane.own;
      stamp = s.clock;
      message = Message.envelope (make_control Keys.heartbeat s.config.client_id []);
    } in
    record s { wire = send m beat s.wire; heartbeats_sent = (s.heartbeats_sent + 1) % 2 ^ 64 }
