-- ===== src/Broker/Loops.antt =====
-- server/broker.cpp: the loop protection of `processMessage`, for a message that comes round
-- again.
use wisp.Prelude.{
  ◌≡◌, ◌≢◌, refl, sym, ap, ◌∙◌, subst, true, false, Bool, Option, some, [], Bytes, bytes_eq,
  bytes_beq_iff, if◌then◌else◌, arith, if_both, ℕ, ◌+◌, length,
}
use wisp.Keys.{is_reserved_key}
use wisp.Dedup.{Windows, is_duplicate}
use wisp.Dedup.Window.{is_duplicate-Tracks, remembers, known_as}
use wisp.Wire.{Header, encode_header}
use wisp.Broker.State.{Broker, Outside}
use wisp.Broker.Route.{stamp, count, after_dedup, after_answer, protect, process_message}
use wisp.Broker.Invariant.{IsValid}

-- Nothing was sent, tapped or written to a link, and no client, subscription or cluster changed.
pub record Ignored (b b' : Broker) : Type 0 where
  pub sent : b'.sent ≡ b.sent
  pub tapped : b'.tapped ≡ b.tapped
  pub links : b'.links ≡ b.links
  pub clients : b'.clients ≡ b.clients
  pub subscriptions : b'.subscriptions ≡ b.subscriptions
  pub discovery : b'.discovery ≡ b.discovery

-- The message was handled, by ignoring it.
abbrev pub IsIgnored : Broker → Option Broker → Type 0
IsIgnored b result = (b' : Broker) × (result ≡ some b') × Ignored b b'

protect-IsIgnored :
    (o : Outside) (b c : Broker) (header : Header) (payload sender : Bytes) (is_from_peer : Bool)
    (now : ℕ) (w : Windows)
    → is_reserved_key header.handler_key ≡ false
    → is_duplicate c.seen header.message_uuid ≡ some (w, true)
    → Ignored b c
    → IsIgnored b (protect o c header payload sender is_from_peer now)
unfolding protect after_answer after_dedup
protect-IsIgnored o b c header payload sender is_from_peer now w open_ again same = (
  record c { seen = w },
  rw open_ (ap (after_answer o c header payload sender is_from_peer now) again),
  record {
    sent = same.sent;
    tapped = same.tapped;
    links = same.links;
    clients = same.clients;
    subscriptions = same.subscriptions;
    discovery = same.discovery;
  },
)

stamp-named :
    (b : Broker) (fresh_uuid : Bytes) (header : Header)
    → header.message_uuid ≢ []
    → stamp b fresh_uuid header ≡ header
unfolding stamp
stamp-named b fresh_uuid header named = ground (arith, bytes_beq_iff header.message_uuid [])

counted-Ignored : (b : Broker) (bytes : ℕ) → Ignored b (count b bytes)
unfolding count
counted-Ignored b bytes = record {
  sent = refl;
  tapped = refl;
  links = refl;
  clients = refl;
  subscriptions = refl;
  discovery = refl;
}

-- In a valid broker, a message that has an id, is not reserved, and whose id is in the recent
-- history is dropped: nothing is sent, tapped or flooded for it and no session changes.
pub process_message-IsIgnored :
    (o : Outside) (b : Broker) (header : Header) (payload sender : Bytes) (is_from_peer : Bool)
    (fresh_uuid : Bytes) (now : ℕ) (v : IsValid b)
    → header.message_uuid ≢ []
    → is_reserved_key header.handler_key ≡ false
    → remembers v.recent (known_as header.message_uuid) ≡ true
    → IsIgnored b (process_message o b header payload sender is_from_peer fresh_uuid now)
unfolding process_message
process_message-IsIgnored o b header payload sender is_from_peer fresh_uuid now v named open_
      known =
    let (w, p, t) = is_duplicate-Tracks b.seen v.recent header.message_uuid v.tracked in
    subst
      (λ h. IsIgnored b (
        protect o
          (if is_from_peer then count b (length (encode_header o.codec h) + length payload) else b)
          h payload sender is_from_peer now))
      (sym (stamp-named b fresh_uuid header named))
      (if_both (λ c. IsIgnored b (protect o c header payload sender is_from_peer now)) is_from_peer
        _ _
        (λ _.
          protect-IsIgnored o b (count b bytes) header payload sender is_from_peer now w open_
            (unfold count in (p ∙ ap (λ x. some (w, x)) known)) (counted-Ignored b bytes))
        (λ _.
          protect-IsIgnored o b b header payload sender is_from_peer now w open_
            (p ∙ ap (λ x. some (w, x)) known)
            (record {
              sent = refl;
              tapped = refl;
              links = refl;
              clients = refl;
              subscriptions = refl;
              discovery = refl;
            })))
  where
    bytes : ℕ
    bytes = length (encode_header o.codec header) + length payload
