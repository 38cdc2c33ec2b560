-- ===== src/Broker/Intake.antt =====
-- server/broker.cpp: where messages come in. `run` takes groups from the ROUTER socket and
-- envelopes that the links queued; a link's own callback answers UNLINK and RESET itself.
use wisp.Prelude.{
  ℕ, ◌+◌, true, false, Option, none, some, [], ◌∷◌, ◌==◌, Bytes, bytes_eq, codes, if◌then◌else◌,
  length,
}
use wisp.Prelude.Map.{Map}
use wisp.Wire.{Envelope, decode_header_frame}
use wisp.Interest.{PeerLink, Demand, send_interest_to}
use wisp.Broker.State.{Broker, Outside}
use wisp.Broker.Route.{count, process_message}

-- The body of the drain loop, for a group with its identity, header frame and payload: a frame
-- that does not decode is dropped uncounted.
unfoldable pub take_client_message :
    Outside → Broker → Bytes → Bytes → Bytes → Bytes → ℕ → Option Broker
unfolding count
take_client_message o b identity frame payload fresh_uuid now =
    elim (decode_header_frame o.codec frame) [
      | none ↦ some b
      | some header ↦
          process_message o (count b (length frame + length payload)) header payload identity false
            fresh_uuid now
    ]

unfoldable pub take_peer_message : Outside → Broker → Envelope → Bytes → ℕ → Option Broker
take_peer_message o b envelope fresh_uuid now =
    process_message o b envelope.header envelope.payload (codes "PEER") true fresh_uuid now

-- `active->exchange(false)` on the link of this key.
unfoldable pub deactivate : Bytes → Map PeerLink → Map PeerLink
deactivate key [] = []
deactivate key ((k, link) ∷ peers) =
    if k == key
    then (k, record link { active = false }) ∷ peers
    else (k, link) ∷ deactivate key peers

-- `sendInterestTo(*link, linkId)` on the link of this key, whose remote sent RESET.
unfoldable pub ask_again : Bytes → Demand → Map PeerLink → Map PeerLink
ask_again key demand [] = []
ask_again key demand ((k, link) ∷ peers) =
    if k == key
    then (k, send_interest_to demand link) ∷ peers
    else (k, link) ∷ ask_again key demand peers
