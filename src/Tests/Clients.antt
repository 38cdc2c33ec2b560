-- ===== src/Tests/Clients.antt =====
-- A client that registers callbacks, and a broker that handles what it is told.
use wisp.Prelude.{◌≡◌, refl, true, false, some, [], bytes_beq, ◌≤◌, length, codes, arith}
use mathlib.Core.Option
use wisp.Prelude.Map.{lookup, insert_ordered, keys}
use wisp.Keys
use wisp.Keys.{Origin, is_control_message, is_reserved_key}
use wisp.Wire.{Envelope}
use wisp.Registry.{topics_at}
use wisp.Registry.Consistent.{held}
use wisp.Broker.Session.{max_subscriptions_per_client}
use wisp.Client.State.{
  CallbackEntry, Client, Worker, start, create_subscribe_envelope, send_raw_envelope, union_scope,
  learn_broker_id,
}
use wisp.Client.Registration.{
  perform_registration, perform_unregistration, on_status, with_callback, announce, resubscribe_all,
  announce_each, settle, narrow, withdraw, without_instance, uncount_scoped,
}
use wisp.Client.Dispatch.{User}
use wisp.Client.Requests.{
  Wait, send_data_internal, make_reply_topic, is_usable_reply_topic, send_request,
}
use wisp.Client.Announced.{asked_scope, needed, TakesControl}
use wisp.Client.Told.{Step, Steps, told}
use wisp.Client.Served.{receive, all_within, served}
use wisp.Client.Replies.{waits, make_reply_topic-usable, send_request-leaves_none}
use wisp.Tests.Fixtures.{open_house, alice, news, uuid, bulletin, new_broker, new_broker-IsValid}

abbrev generous : Worker
generous = record { takes_control = λ log. true; takes_data = λ log. true }

generous-TakesControl : TakesControl generous
generous-TakesControl log = refl

abbrev meshed : CallbackEntry
meshed = record { instance_key = 1; func = 7; scope = Origin.mesh }

abbrev local_one : CallbackEntry
local_one = record { instance_key = 2; func = 8; scope = Origin.local }

abbrev newcomer : Client
newcomer = start alice uuid

abbrev online : Client
online = on_status generous newcomer true

abbrev one_callback : Client
one_callback = perform_registration generous online news meshed

abbrev two_callbacks : Client
two_callbacks = perform_registration generous one_callback news local_one

-- Online, with one of two callbacks left.
abbrev subscriber : Client
subscriber = perform_unregistration generous two_callbacks news 2

subscriber-Steps : Steps generous newcomer subscriber
subscriber-Steps = Steps.step (Step.turns {c = newcomer} true) (
    Steps.step (Step.registers {c = online} news meshed) (
      Steps.step (Step.registers {c = one_callback} news local_one)
        (Steps.step (Step.unregisters {c = two_callbacks} news 2) Steps.still)))

subscriber_facts :
    (subscriber.is_connected ≡ true)
    × (all_within subscriber.control ≡ true)
    × (length subscriber.control ≤ max_subscriptions_per_client)
unfolding perform_registration with_callback announce create_subscribe_envelope send_raw_envelope
    is_control_message bytes_beq insert_ordered lookup on_status resubscribe_all announce_each keys
    perform_unregistration settle narrow withdraw without_instance uncount_scoped union_scope
    Keys.origin_beq Keys.widen
subscriber_facts = (refl, refl, omega arith)

told_example :
    asked_scope subscriber.control news ≡ Option.map needed (lookup news subscriber.handlers)
told_example =
    told generous alice uuid subscriber news generous-TakesControl subscriber-Steps
      subscriber_facts.0

unknown_client : topics_at new_broker.subscriptions subscriber.client_id ≡ []
unfolding lookup
unknown_client = refl

served_example :
    held
      (receive open_house subscriber.client_id 1 new_broker subscriber.control).subscriptions
      subscriber.client_id
      news
    ≡ Option.map needed (lookup news subscriber.handlers)
served_example =
    served open_house generous alice uuid subscriber 1 new_broker news generous-TakesControl
      subscriber-Steps subscriber_facts.0 new_broker-IsValid unknown_client subscriber_facts.1
      subscriber_facts.2

-- A callback that publishes what it is given.
abbrev echo : User
echo func payload c = (send_data_internal generous c news payload).0

abbrev arrived : Envelope
arrived = record { header = bulletin; payload = codes "hi" }

-- The broker has named itself, as another one than the bulletin's.
abbrev placed : Client
placed = learn_broker_id subscriber (codes "broker-1")

make_reply_topic-usable_example : is_usable_reply_topic (make_reply_topic news uuid) ≡ true
unfolding is_reserved_key
make_reply_topic-usable_example = make_reply_topic-usable news uuid refl (omega arith)

abbrev quick : Wait
quick c = (c, some (codes "ok"))

nothing_waits : waits 9 (lookup (make_reply_topic news uuid) newcomer.handlers) ≡ false
unfolding lookup
nothing_waits = refl

send_request-leaves_none_example :
    waits 9 (
      lookup
        (make_reply_topic news uuid)
        (send_request generous quick false uuid 9 7 newcomer news (codes "hi")).0.handlers)
    ≡ false
send_request-leaves_none_example =
    send_request-leaves_none generous quick false uuid 9 7 newcomer news (codes "hi") nothing_waits
