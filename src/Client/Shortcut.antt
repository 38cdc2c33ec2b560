-- ===== src/Client/Shortcut.antt =====
-- common/connectionmanager.cpp, `handleMessage`: the callbacks that a message calls.
use wisp.Prelude.{Bool, ◌||◌, List, [], ◌++◌, ◌==◌, nat_eq, bytes_eq, ℕ}
use wisp.Prelude.Map.{Map}
use wisp.Keys.{origin_eq}
use wisp.Wire.{Header, Envelope}
use wisp.Client.State.{Client}
use wisp.Client.Dispatch.{triggered, exact_callbacks, wildcard_callbacks}

-- Where the message entered the mesh: a broker that has not said its name is taken for the only one.
abbrev pub came_from_here : Client → Header → Bool
came_from_here c header = c.broker_id == [] || header.origin_broker_id == c.broker_id

-- The callbacks of the topic and then those of the wildcard, each where its scope accepts that.
abbrev pub called : Client → Envelope → List ℕ
called c e =
    let here = came_from_here c e.header in
    triggered here (exact_callbacks c e.header.topic)
    ++ triggered here (wildcard_callbacks c e.header.topic)
