-- ===== src/Tests/Serving.antt =====
-- What the broker does for its clients, at concrete messages.
use wisp.Prelude.{
  nat_eq, none, ◌≡◌, refl, true, false, some, List, [], ◌∷◌, ◌==◌, bytes_eq, ◌≤◌, ◌&&◌, ◌||◌, not,
  length, codes, arith, if◌then◌else◌,
}
use wisp.Prelude.Map.{lookup}
use wisp.Keys
use wisp.Keys.{decode_subscribe_scope, is_reserved_key}
use wisp.Registry.{topics_at}
use wisp.Registry.Consistent.{held}
use wisp.Dedup.{initial, id_beq, remap, message_id_from, word_of}
use wisp.Dedup.Set.{member}
use wisp.Dedup.Window.{
  Recent, remembers, note, accept, known_as, initial-Tracks, is_duplicate-Tracks,
}
use wisp.Broker.State.{Broker, forget_client, start}
use wisp.Broker.Session.{on_subscribe, max_subscriptions_per_client, handle_client_message}
use wisp.Broker.Route.{process_message, deliver_to_subscribers}
use wisp.Broker.Upkeep.{sweep}
use wisp.Broker.Invariant.{IsValid}
use wisp.Broker.Invariant.Forget.{forget_client-forgets}
use wisp.Broker.Invariant.Handlers.{handle_client_message-IsValid}
use wisp.Broker.Invariant.Process.{IsHandled, process_message-IsHandled}
use wisp.Broker.Invariant.Sweep.{swept, is_silent, sweep-sweeps}
use wisp.Discovery.Roster.{listed}
use wisp.Broker.Recipients.{Carries, copies, suc_if, takes, deliver_to_subscribers-copies}
use wisp.Broker.Loops.{IsIgnored, process_message-IsIgnored}
use wisp.Broker.Caps.{is_allowed, held-on_subscribe, on_subscribe-cap}
use wisp.Broker.Reach.{Turn, turns, turns-start, AsksForWhatIsWanted, HearsWhatIsWanted}
use wisp.Wire.{encode_header}
use wisp.Tests.Fixtures.{
  codec, open_house, alice, bob, news, uuid, subscribe_news, bulletin, new_broker, served,
  served-IsValid,
}

process_message-IsHandled_example :
    IsHandled (process_message open_house served bulletin (codes "hi") bob false [] 2)
process_message-IsHandled_example =
    process_message-IsHandled open_house served bulletin (codes "hi") bob false [] 2 served-IsValid

abbrev busy_day : List Turn
busy_day =
    Turn.enabled (codes "lab")
    ∷ Turn.started (codes "tcp://*:5555" ∷ []) 5556
    ∷ Turn.beacon (codes "10.0.0.3") (codes "WISP|1|lab|zeta|6666|6667") 1
    ∷ Turn.link (codes "peer") (codes "tcp://10.0.0.2:5555") (codes "BrokerLink-1")
    ∷ Turn.from_client alice (encode_header codec subscribe_news) [] [] 1
    ∷ Turn.from_peer (record { header = bulletin; payload = codes "hi" }) [] 2
    ∷ Turn.told_to_reset (codes "peer")
    ∷ Turn.told_to_unlink (codes "peer")
    ∷ Turn.cleanup 20000
    ∷ Turn.unlink (codes "peer")
    ∷ []

turns-start_example :
    (b : Broker) × (turns open_house busy_day (start (codes "broker-1") 10000) ≡ some b)
    × IsValid b
    × HearsWhatIsWanted b
    × AsksForWhatIsWanted b
turns-start_example = turns-start open_house (codes "broker-1") 10000 busy_day

forget_client-forgets_example :
    IsValid (forget_client served alice)
    × (lookup alice (forget_client served alice).clients
        ≡ (if alice == alice then none else lookup alice served.clients))
    × (held (forget_client served alice).subscriptions alice news
        ≡ (if alice == alice then none else held served.subscriptions alice news))
forget_client-forgets_example = forget_client-forgets served alice alice news served-IsValid

handle_client_message-IsValid_example :
    IsValid (handle_client_message open_house served subscribe_news (1 ∷ []) bob 3).0
handle_client_message-IsValid_example =
    handle_client_message-IsValid open_house served subscribe_news (1 ∷ []) bob 3 served-IsValid

sweep-sweeps_example :
    IsValid (sweep served 20000)
    × (lookup alice (sweep served 20000).clients
        ≡ (if listed (swept served 20000) alice then none else lookup alice served.clients))
    × (length (swept served 20000) ≤ 16)
    × ((not (listed (swept served 20000) alice)
          || is_silent served.client_timeout 20000 alice served.clients)
        ≡ true)
    × ((not (is_silent served.client_timeout 20000 alice served.clients)
          || (listed (swept served 20000) alice || length (swept served 20000) == 16))
        ≡ true)
sweep-sweeps_example = sweep-sweeps served 20000 alice served-IsValid

deliver_to_subscribers-copies_example :
    (copies alice (deliver_to_subscribers open_house served bulletin (codes "hi") bob false).sent
      ≡ suc_if
          (takes bob false served alice (held served.subscriptions alice news)
            || (not (news == Keys.wildcard_topic)
                && takes bob false served alice
                    (held served.subscriptions alice Keys.wildcard_topic)))
          (copies alice served.sent))
    × Carries bulletin
        (codes "hi")
        served.sent
        (deliver_to_subscribers open_house served bulletin (codes "hi") bob false).sent
deliver_to_subscribers-copies_example =
    deliver_to_subscribers-copies open_house served bulletin (codes "hi") bob false alice
      (λ s t. refl) served-IsValid

-- The broker once the bulletin's id is in its history.
abbrev nothing_seen : Recent
nothing_seen = record { current = []; previous = [] }

abbrev informed : Broker
informed = record served { seen = (is_duplicate-Tracks initial nothing_seen uuid initial-Tracks).0 }

abbrev informed-IsValid : IsValid informed
informed-IsValid = record {
  consistent = served-IsValid.consistent;
  covering = served-IsValid.covering;
  reflects = served-IsValid.reflects;
  recent = note nothing_seen (known_as uuid);
  tracked = (is_duplicate-Tracks initial nothing_seen uuid initial-Tracks).2;
}

process_message-IsIgnored_example :
    IsIgnored informed (process_message open_house informed bulletin (codes "hi") bob true [] 3)
unfolding remembers note known_as is_reserved_key member id_beq remap message_id_from word_of accept
process_message-IsIgnored_example =
    process_message-IsIgnored open_house informed bulletin (codes "hi") bob true [] 3
      informed-IsValid (λ e. cc) refl refl

held-on_subscribe_example : held (on_subscribe served bob news (1 ∷ [])).subscriptions bob news ≡ (
    if is_allowed served bob news && (bob == bob && news == news)
    then some (decode_subscribe_scope (1 ∷ []))
    else held served.subscriptions bob news)
held-on_subscribe_example = held-on_subscribe served bob news (1 ∷ []) bob news served-IsValid

on_subscribe-cap_example :
    length (topics_at (on_subscribe new_broker bob news (1 ∷ [])).subscriptions bob)
    ≤ max_subscriptions_per_client
unfolding lookup
on_subscribe-cap_example = on_subscribe-cap new_broker bob news (1 ∷ []) bob (omega arith)
