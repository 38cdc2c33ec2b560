-- ===== src/Broker/Upkeep.antt =====
-- server/broker.cpp, `run` and `broadcastStats`: the zombie sweep and the statistics.
use wisp.Prelude.{ℕ, zero, suc, ◌-◌, true, not, List, [], ◌∷◌, ltb, Bytes, if◌then◌else◌}
use wisp.Prelude.Map.{Map}
use wisp.Keys
use wisp.Keys.{scope_accepts}
use wisp.Registry.{Subscriber, subscribers_of, or_empty}
use wisp.Wire.{Header, make_control_header}
use wisp.Broker.State.{Broker, ClientState, Outside, send_to, note_dropped_to, forget_client}
use wisp.Prelude.{codes}

abbrev pub max_removals_per_sweep : ℕ
max_removals_per_sweep = 16

-- The clients to remove, in the order of the walk: silent for longer than the timeout, and no
-- more than the sweep may remove.
unfoldable pub zombies : ℕ → ℕ → ℕ → Map ClientState → List Bytes
zombies zero timeout now clients = []
zombies (suc room) timeout now [] = []
zombies (suc room) timeout now ((client, state) ∷ clients) =
    let after = zombies room timeout now clients in
    let rest = zombies (suc room) timeout now clients in
    if ltb timeout (now - state.last_seen) then client ∷ after else rest

unfoldable pub forget_each : List Bytes → Broker → Broker
forget_each [] b = b
forget_each (client ∷ clients) b = forget_each clients (forget_client b client)

unfoldable pub sweep : Broker → ℕ → Broker
unfolding zombies forget_each
sweep b now = forget_each (zombies max_removals_per_sweep b.client_timeout now b.clients) b

-- Exact subscribers that take local messages; no test that they are still connected.
unfoldable pub report_to : Outside → Header → Bytes → List Subscriber → Broker → Broker
report_to o header payload [] b = b
report_to o header payload (s ∷ subs) b =
    let (b', taken) = send_to o b s.client_id header payload in
    report_to o header payload subs (
      if not (scope_accepts s.scope true)
      then b
      else if taken
      then b'
      else note_dropped_to b' s.client_id)

abbrev pub stats_header : Header
stats_header = make_control_header Keys.sys_stats (codes "BROKER_SYSTEM") Keys.sys_stats

-- The packed report is an argument; the interval counters start again, as `run` resets them.
pub broadcast_stats : Outside → Broker → Bytes → Broker
unfolding report_to
broadcast_stats o b packed_stats =
    let reported =
      report_to o stats_header packed_stats
        (or_empty (subscribers_of b.subscriptions Keys.sys_stats))
        (record b {
          tapped = record { header = stats_header; payload = packed_stats } ∷ b.tapped;
        }) in
    record reported { msgs_interval = 0; bytes_interval = 0 }
