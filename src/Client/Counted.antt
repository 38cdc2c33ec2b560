-- ===== src/Client/Counted.antt =====
-- common/connectionmanager.cpp, `m_scopedHandlers`: how many registrations care where a message
-- entered the mesh.
use wisp.Prelude.{
  ◌≡◌, refl, sym, ap, ◌∙◌, inl, inr, Bool-cases, Option-cases, Bool, not, ◌&&◌, Option, none, some,
  List, [], ◌∷◌, ◌++◌, ◌==◌, nat_eq, Bytes, bytes_eq, if◌then◌else◌, arith, if_both, ℕ, suc, ◌+◌,
  ◌%◌, ◌^◌,
}
use wisp.Prelude.Map.{Map, lookup, keys, insert_ordered, erase}
use wisp.Prelude.Sorted.{
  Ordered, total, at, insert_ordered-Ordered, erase-Ordered, total-insert_ordered, total-erase,
}
use wisp.Keys.{Origin, origin_eq}
use wisp.Wire.{Envelope}
use wisp.Client.State.{
  CallbackEntry, Client, Worker, increment, decrement, union_scope, send_raw_envelope,
}
use wisp.Client.Registration.{
  callbacks_at, with_callback, announce, withdraw, narrow, settle, announce_each,
  perform_registration, perform_unregistration, resubscribe_all, on_status, without_instance,
  uncount_scoped,
}
use wisp.Client.Told.{Step, Steps}

-- The registrations of one topic that care.
abbrev pub scoped : List CallbackEntry → ℕ
scoped [] = 0
scoped (entry ∷ callbacks) =
    let rest = scoped callbacks in if entry.scope == Origin.any then rest else suc rest

-- The handlers in the order of their topics, and the counter at their number, modulo 2 ^ 64.
abbrev pub Counts : Map (List CallbackEntry) → ℕ → Type 0
Counts handlers n = Ordered handlers × (n ≡ total scoped handlers % 2 ^ 64)

abbrev pub IsCounted : Client → Type 0
IsCounted c = Counts c.handlers c.scoped_handlers

scoped-append :
    (callbacks : List CallbackEntry) (entry : CallbackEntry)
    → scoped (callbacks ++ entry ∷ []) ≡ scoped callbacks + scoped (entry ∷ [])
scoped-append [] entry = omega arith
scoped-append (x ∷ callbacks) entry = ground (arith, scoped-append callbacks entry)

increment_lem : (x : ℕ) → increment (x % 2 ^ 64) ≡ (x + 1) % 2 ^ 64
increment_lem x = omega arith

decrement_lem : (x n : ℕ) → decrement ((x + suc n) % 2 ^ 64) ≡ (x + n) % 2 ^ 64
decrement_lem x n = omega arith

-- The loop of an unregistration takes the entries that it drops off the counter.
uncount_scoped_lem :
    (i : ℕ) (callbacks : List CallbackEntry) (x : ℕ)
    → uncount_scoped i callbacks ((x + scoped callbacks) % 2 ^ 64)
      ≡ (x + scoped (without_instance i callbacks)) % 2 ^ 64
unfolding uncount_scoped without_instance
uncount_scoped_lem i [] x = refl
uncount_scoped_lem i (entry ∷ callbacks) x = elim (Bool-cases (entry.instance_key == i)) [
  | inl gone ↦ elim (Bool-cases (entry.scope == Origin.any)) [
    | inl any ↦ rw (gone, any) (uncount_scoped_lem i callbacks x)
    | inr cares ↦
        rw (gone, cares, decrement_lem x (scoped callbacks)) (uncount_scoped_lem i callbacks x)
  ]
  | inr kept ↦ elim (Bool-cases (entry.scope == Origin.any)) [
    | inl any ↦ rw (kept, any) (uncount_scoped_lem i callbacks x)
    | inr cares ↦
        rw (kept, cares)
          (ap (λ n. uncount_scoped i callbacks (n % 2 ^ 64)) (shift (scoped callbacks))
            ∙ uncount_scoped_lem i callbacks (suc x)
            ∙ ap (λ n. n % 2 ^ 64) (sym (shift (scoped (without_instance i callbacks)))))
  ]
]
  where
    shift : (n : ℕ) → x + suc n ≡ suc x + n
    shift n = omega arith

-- Sending changes neither the handlers nor the counter.
send_raw_envelope-IsCounted :
    (w : Worker) (c : Client) (e : Envelope) → IsCounted c → IsCounted (send_raw_envelope w c e).0
unfolding send_raw_envelope
send_raw_envelope-IsCounted w c e h = ground arith

announce-IsCounted :
    (w : Worker) (c : Client) (key : Bytes) → IsCounted c → IsCounted (announce w c key)
unfolding announce
announce-IsCounted w c key h = send_raw_envelope-IsCounted w c _ h

announce_each-IsCounted :
    (w : Worker) (topics : List Bytes) (c : Client)
    → IsCounted c
    → IsCounted (announce_each w topics c)
unfolding announce_each
announce_each-IsCounted w [] c h = h
announce_each-IsCounted w (t ∷ topics) c h =
    announce_each-IsCounted w topics (announce w c t) (announce-IsCounted w c t h)

stored-total :
    (key : Bytes) (next : List CallbackEntry) (m : Map (List CallbackEntry))
    → Ordered m
    → total scoped (insert_ordered key next m) ≡ total scoped (erase key m) + scoped next
stored-total key next m o =
    omega (arith, total-insert_ordered scoped key next m o, total-erase scoped key m o)

callbacks_at-total :
    (c : Client) (key : Bytes)
    → Ordered c.handlers
    → total scoped c.handlers ≡ total scoped (erase key c.handlers) + scoped (callbacks_at c key)
callbacks_at-total c key o =
    sym (total-erase scoped key c.handlers o)
    ∙ ap (λ n. total scoped (erase key c.handlers) + n) (at-or_empty (lookup key c.handlers))
  where
    at-or_empty :
        (found : Option (List CallbackEntry))
        → at scoped found ≡ scoped (elim found [ none ↦ [] | some callbacks ↦ callbacks ])
    at-or_empty none = refl
    at-or_empty (some callbacks) = refl

with_callback-IsCounted :
    (c : Client) (key : Bytes) (entry : CallbackEntry)
    → IsCounted c
    → IsCounted (with_callback c key entry)
unfolding with_callback
with_callback-IsCounted c key entry h = (insert_ordered-Ordered key next c.handlers h.0, counted)
  where
    next : List CallbackEntry
    next = callbacks_at c key ++ entry ∷ []

    grown :
        total scoped (insert_ordered key next c.handlers)
        ≡ total scoped c.handlers + scoped (entry ∷ [])
    grown = omega (
      arith,
      stored-total key next c.handlers h.0,
      callbacks_at-total c key h.0,
      scoped-append (callbacks_at c key) entry,
    )

    counted :
        (if entry.scope == Origin.any then c.scoped_handlers else increment c.scoped_handlers)
        ≡ total scoped (insert_ordered key next c.handlers) % 2 ^ 64
    counted = elim (Bool-cases (entry.scope == Origin.any)) [
      | inl any ↦ rw (grown, any) (omega (arith, h.1))
      | inr cares ↦ rw (grown, cares, h.1) (omega arith)
    ]

perform_registration-IsCounted :
    (w : Worker) (c : Client) (key : Bytes) (entry : CallbackEntry)
    → IsCounted c
    → IsCounted (perform_registration w c key entry)
unfolding perform_registration
perform_registration-IsCounted w c key entry h =
    if_both IsCounted c.is_connected _ _
      (λ on. announce-IsCounted w _ key (with_callback-IsCounted c key entry h))
      (λ off. with_callback-IsCounted c key entry h)

-- The handlers and the counter that an unregistration leaves, by what is left of the topic.
settle-IsCounted :
    (w : Worker) (c : Client) (key : Bytes) (scope_before : Origin) (next : List CallbackEntry)
    → Ordered c.handlers
    → c.scoped_handlers ≡ (total scoped (erase key c.handlers) + scoped next) % 2 ^ 64
    → IsCounted (settle w c key scope_before next)
unfolding settle withdraw narrow
settle-IsCounted w c key scope_before [] o h =
    send_raw_envelope-IsCounted w _ _ (erase-Ordered key c.handlers o, omega (arith, h))
settle-IsCounted w c key scope_before (entry ∷ rest) o h =
    if_both IsCounted (c.is_connected && not (union_scope (entry ∷ rest) == scope_before)) _ _
      (λ on. announce-IsCounted w _ key narrowed) (λ off. narrowed)
  where
    narrowed : Counts (insert_ordered key (entry ∷ rest) c.handlers) c.scoped_handlers
    narrowed = (
      insert_ordered-Ordered key (entry ∷ rest) c.handlers o,
      omega (arith, h, stored-total key (entry ∷ rest) c.handlers o),
    )

perform_unregistration-IsCounted :
    (w : Worker) (c : Client) (key : Bytes) (i : ℕ)
    → IsCounted c
    → IsCounted (perform_unregistration w c key i)
unfolding perform_unregistration
perform_unregistration-IsCounted w c key i h = elim (Option-cases (lookup key c.handlers)) [
  | inl e ↦ rw (e, perform_unregistration) h
  | inr (hs, e) ↦
      rw (e, perform_unregistration)
        (settle-IsCounted w (record c { scoped_handlers = uncount_scoped i hs c.scoped_handlers })
          key (union_scope hs) (without_instance i hs) h.0
          (rw (h.1, sym (total-erase scoped key c.handlers h.0), e)
            (uncount_scoped_lem i hs (total scoped (erase key c.handlers)))))
]

resubscribe_all-IsCounted :
    (w : Worker) (c : Client) → IsCounted c → IsCounted (resubscribe_all w c)
unfolding resubscribe_all
resubscribe_all-IsCounted w c h = announce_each-IsCounted w (keys c.handlers) c h

on_status-IsCounted :
    (w : Worker) (c : Client) (online : Bool) → IsCounted c → IsCounted (on_status w c online)
unfolding on_status
on_status-IsCounted w c online h =
    if_both IsCounted online _ _
      (λ on.
        resubscribe_all-IsCounted w _
          (send_raw_envelope-IsCounted w (record c { is_connected = online }) _ h))
      (λ off. h)

Step-IsCounted : (w : Worker) {a b : Client} → Step w a b → IsCounted a → IsCounted b
unfolding wisp.Client.State.learn_broker_id
Step-IsCounted w (Step.registers {c} key entry) h = perform_registration-IsCounted w c key entry h
Step-IsCounted w (Step.unregisters {c} key i) h = perform_unregistration-IsCounted w c key i h
Step-IsCounted w (Step.turns {c} online) h = on_status-IsCounted w c online h
Step-IsCounted w (Step.resets {c}) h = resubscribe_all-IsCounted w c h
Step-IsCounted w (Step.publishes {c} e plain other) h = send_raw_envelope-IsCounted w c e h
Step-IsCounted w (Step.attends {c} t) h = h
Step-IsCounted w (Step.learns {c} broker_id) h =
    if_both IsCounted (broker_id == []) _ _ (λ nameless. h) (λ named. h)

-- Whatever a client goes through, and whether or not its worker takes the messages: the counter
-- stays the number of the registrations with a narrowed scope, modulo 2 ^ 64.
pub Steps-IsCounted : (w : Worker) {a b : Client} → Steps w a b → IsCounted a → IsCounted b
Steps-IsCounted w Steps.still h = h
Steps-IsCounted w (Steps.step one more) h = Steps-IsCounted w more (Step-IsCounted w one h)
