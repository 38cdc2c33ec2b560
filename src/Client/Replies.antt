-- ===== src/Client/Replies.antt =====
-- common/connectionmanager.cpp: the topic that a reply comes back on, and the registration that waits
-- for it.
use wisp.Prelude.{
  ◌≡◌, refl, inl, inr, Option-cases, Bool, true, false, not, ◌&&◌, Option, none, some, List, [],
  ◌∷◌, ◌++◌, ◌==◌, nat_eq, Bytes, bytes_eq, bytes_beq, beq_refl, codes, if◌then◌else◌, arith,
  if_both, ℕ, zero, suc, ◌+◌, ◌-◌, ◌<◌, ◌≤◌, ltb, length, take, length-append, length-take-le,
}
use wisp.Prelude.Map.{lookup, insert_ordered, erase, lookup-insert_ordered, lookup-erase}
use wisp.Keys
use wisp.Keys.{Origin, is_reserved_key, origin_eq}
use wisp.Wire.{Envelope}
use wisp.Client.State.{
  CallbackEntry, Client, Worker, union_scope, send_raw_envelope, create_control_envelope,
}
use wisp.Client.Registration.{
  announce, withdraw, narrow, settle, perform_unregistration, without_instance, uncount_scoped,
}
use wisp.Client.Requests.{
  Wait, is_usable_reply_topic, make_reply_topic, send_request, max_topic_length_bytes,
}

reserved-append :
    (n : ℕ) (topic rest : Bytes)
    → is_reserved_key topic ≡ false
    → is_reserved_key (take n topic ++ (codes "." ++ rest)) ≡ false
unfolding is_reserved_key
reserved-append zero topic rest h = ground arith
reserved-append (suc n) [] rest h = ground arith
reserved-append (suc zero) (a ∷ topic) rest h = ground arith
reserved-append (suc (suc n)) (a ∷ []) rest h = ground arith
reserved-append (suc (suc n)) (a ∷ b ∷ topic) rest h = ground (arith, h)

append-test : (xs ys : Bytes) (y : ℕ) → bytes_beq (xs ++ y ∷ ys) [] ≡ false
unfolding bytes_beq
append-test [] ys y = refl
append-test (x ∷ xs) ys y = refl

usable-take :
    (topic rest : Bytes) (n : ℕ)
    → is_reserved_key topic ≡ false
    → n + length (codes "." ++ rest) ≤ max_topic_length_bytes
    → is_usable_reply_topic (take n topic ++ (codes "." ++ rest)) ≡ true
unfolding is_usable_reply_topic
usable-take topic rest n h fits = ground (
  arith,
  append-test (take n topic) rest b'.',
  reserved-append n topic rest h,
  fits,
  length-append (take n topic) (codes "." ++ rest),
  length-take-le n topic,
)

-- A request on a topic that is not reserved asks for its reply on a topic that a reply can come back
-- on: one that is not empty, not reserved and at most 512 bytes long, however long the request's own
-- topic is, while the fresh id leaves room for its dot.
pub make_reply_topic-usable :
    (request_topic fresh_uuid : Bytes)
    → is_reserved_key request_topic ≡ false
    → length fresh_uuid < max_topic_length_bytes
    → is_usable_reply_topic (make_reply_topic request_topic fresh_uuid) ≡ true
unfolding make_reply_topic
make_reply_topic-usable request_topic fresh_uuid h few =
    if_both (λ n. is_usable_reply_topic (take n request_topic ++ (codes "." ++ fresh_uuid)) ≡ true)
      (ltb (length (codes "." ++ fresh_uuid)) max_topic_length_bytes)
      (max_topic_length_bytes - length (codes "." ++ fresh_uuid)) 0
      (λ room. usable-take request_topic fresh_uuid _ h (ground (arith, room)))
      (λ none_. usable-take request_topic fresh_uuid 0 h (omega (arith, few)))

-- Of some instance.
unfoldable pub has_instance : ℕ → List CallbackEntry → Bool
has_instance i [] = false
has_instance i (entry ∷ callbacks) =
    let rest = has_instance i callbacks in if entry.instance_key == i then true else rest

-- Among the callbacks of a topic, if there are any.
abbrev pub waits : ℕ → Option (List CallbackEntry) → Bool
waits i none = false
waits i (some callbacks) = has_instance i callbacks

without_instance-none :
    (i : ℕ) (callbacks : List CallbackEntry) → has_instance i (without_instance i callbacks) ≡ false
unfolding has_instance without_instance
without_instance-none i [] = refl
without_instance-none i (entry ∷ callbacks) = ground (arith, without_instance-none i callbacks)

send_raw_envelope-handlers :
    (w : Worker) (c : Client) (e : Envelope) → (send_raw_envelope w c e).0.handlers ≡ c.handlers
unfolding send_raw_envelope
send_raw_envelope-handlers w c e = ground arith

announce-handlers :
    (w : Worker) (c : Client) (key : Bytes) → (announce w c key).handlers ≡ c.handlers
unfolding announce
announce-handlers w c key = send_raw_envelope-handlers w c _

settle-waits :
    (w : Worker) (c : Client) (key : Bytes) (i : ℕ) (scope_before : Origin)
    (next : List CallbackEntry)
    → has_instance i next ≡ false
    → waits i (lookup key (settle w c key scope_before next).handlers) ≡ false
unfolding settle withdraw narrow
settle-waits w c key i scope_before [] h =
    rw
      (
        send_raw_envelope-handlers w (record c { handlers = erase key c.handlers })
            (create_control_envelope c Keys.unsubscribe key),
        lookup-erase key key c.handlers,
        beq_refl key,
      )
      refl
settle-waits w c key i scope_before (entry ∷ rest) h =
    if_both (λ (t : Client). waits i (lookup key t.handlers) ≡ false)
      (c.is_connected && not (union_scope (entry ∷ rest) == scope_before)) _ _
      (λ on. rw (announce-handlers w narrowed key) stored) (λ off. stored)
  where
    narrowed : Client
    narrowed = record c { handlers = insert_ordered key (entry ∷ rest) c.handlers }

    stored : waits i (lookup key (insert_ordered key (entry ∷ rest) c.handlers)) ≡ false
    stored = rw (lookup-insert_ordered key key (entry ∷ rest) c.handlers, beq_refl key) h

perform_unregistration-waits :
    (w : Worker) (c : Client) (key : Bytes) (i : ℕ)
    → waits i (lookup key (perform_unregistration w c key i).handlers) ≡ false
unfolding perform_unregistration
perform_unregistration-waits w c key i = elim (Option-cases (lookup key c.handlers)) [
  | inl e ↦ rw (e, perform_unregistration) (rw e refl)
  | inr (hs, e) ↦
      rw (e, perform_unregistration)
        (settle-waits w (record c { scoped_handlers = uncount_scoped i hs c.scoped_handlers }) key i
          (union_scope hs) (without_instance i hs) (without_instance-none i hs))
]

-- Whatever the other threads do to the client while a request waits, and whether it was queued,
-- answered or neither: afterwards no callback of the request stands at its reply topic, if none stood
-- there before.
pub send_request-leaves_none :
    (w : Worker) (wait : Wait) (on_processing_thread : Bool) (fresh_uuid : Bytes) (promise func : ℕ)
    (c : Client) (request_topic payload : Bytes)
    → waits promise (lookup (make_reply_topic request_topic fresh_uuid) c.handlers) ≡ false
    → waits promise (
        lookup
          (make_reply_topic request_topic fresh_uuid)
          (send_request w wait on_processing_thread fresh_uuid promise func c request_topic
            payload).0.handlers)
      ≡ false
unfolding send_request
send_request-leaves_none w wait true fresh_uuid promise func c request_topic payload h = h
send_request-leaves_none w wait false fresh_uuid promise func c request_topic payload h =
    perform_unregistration-waits w _ (make_reply_topic request_topic fresh_uuid) promise
