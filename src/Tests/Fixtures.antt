-- ===== src/Tests/Fixtures.antt =====
-- The broker, the clients and the codec that the examples run on.
use wisp.Prelude.{
  ◌≡◌, refl, ap, true, Option, none, some, List, [], ◌∷◌, ◌++◌, Bytes, ℕ, zero, suc, length, take,
  drop, take-append, drop-append, codes,
}
use wisp.Keys
use wisp.Wire.{Header, Codec, IsFaithful, make_control_header}
use wisp.Broker.State.{Broker, Outside, start}
use wisp.Broker.Session.{handle_client_message}
use wisp.Broker.Invariant.{IsValid, start-IsValid}
use wisp.Broker.Invariant.Handlers.{handle_client_message-IsValid}

-- Each field behind its length.
abbrev join_fields : List Bytes → Bytes
join_fields [] = []
join_fields (x ∷ xs) = length x ∷ (x ++ join_fields xs)

abbrev cut_fields : ℕ → Bytes → List Bytes
cut_fields zero s = []
cut_fields (suc n) [] = []
cut_fields (suc n) (k ∷ s) = take k s ∷ cut_fields n (drop k s)

abbrev header_of : List Bytes → Option Header
header_of (a ∷ b ∷ c ∷ d ∷ e ∷ f ∷ xs) = some (record {
  handler_key = a;
  sender_id = b;
  topic = c;
  origin_broker_id = d;
  message_uuid = e;
  reply_topic = f;
})
header_of xs = none

abbrev pub codec : Codec
codec = record {
  serialize = λ h. join_fields (
      h.handler_key ∷ h.sender_id ∷ h.topic ∷ h.origin_broker_id ∷ h.message_uuid ∷ h.reply_topic
      ∷ []);
  parse = λ s. header_of (cut_fields 6 s);
}

cut-join : (xs : List Bytes) → cut_fields (length xs) (join_fields xs) ≡ xs
cut-join [] = refl
cut-join (x ∷ xs) = rw (take-append x (join_fields xs), drop-append x (join_fields xs), cut-join xs)

pub codec-IsFaithful : IsFaithful codec
codec-IsFaithful = record {
  parses = λ h. ap header_of (
      cut-join (
        h.handler_key ∷ h.sender_id ∷ h.topic ∷ h.origin_broker_id ∷ h.message_uuid ∷ h.reply_topic
        ∷ []));
}

-- Sockets and links that take everything.
abbrev pub open_house : Outside
open_house = record { accepts = λ s t. true; link_accepts = λ k s. true; codec = codec }

abbrev pub alice : Bytes
alice = codes "alice"

abbrev pub bob : Bytes
bob = codes "bob"

abbrev pub news : Bytes
news = codes "news"

abbrev pub uuid : Bytes
uuid = codes "0123456789abcdef"

abbrev pub subscribe_news : Header
subscribe_news = make_control_header Keys.subscribe alice news

-- Bob's message.
abbrev pub bulletin : Header
bulletin = record {
  handler_key = codes "text";
  sender_id = bob;
  topic = news;
  origin_broker_id = codes "broker-2";
  message_uuid = uuid;
  reply_topic = [];
}

abbrev pub new_broker : Broker
new_broker = start (codes "broker-1") 10000

pub new_broker-IsValid : IsValid new_broker
new_broker-IsValid = start-IsValid (codes "broker-1") 10000

-- Alice has subscribed to the news.
abbrev pub served : Broker
served = (handle_client_message open_house new_broker subscribe_news [] alice 1).0

pub served-IsValid : IsValid served
served-IsValid =
    handle_client_message-IsValid open_house new_broker subscribe_news [] alice 1
      (start-IsValid (codes "broker-1") 10000)
