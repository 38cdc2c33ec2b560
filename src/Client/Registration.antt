-- ===== src/Client/Registration.antt =====
-- common/connectionmanager.cpp: `performRegistration`, `performUnregistration`, `resubscribeAll` and
-- the status handler, each under the lock of the handlers.
use wisp.Prelude.{
  ℕ, Bool, not, ◌&&◌, none, some, List, [], ◌∷◌, ◌++◌, ◌==◌, nat_eq, Bytes, bytes_eq, if◌then◌else◌,
}
use wisp.Prelude.Map.{lookup, insert_ordered, erase, keys}
use wisp.Keys
use wisp.Keys.{Origin, origin_eq}
use wisp.Client.State.{
  CallbackEntry, Client, Worker, increment, decrement, union_scope, create_control_envelope,
  create_subscribe_envelope, send_raw_envelope,
}

-- `slot ? *slot : CallbackList()`
abbrev pub callbacks_at : Client → Bytes → List CallbackEntry
callbacks_at c key = elim (lookup key c.handlers) [ none ↦ [] | some callbacks ↦ callbacks ]

-- The registration, before it is announced.
unfoldable pub with_callback : Client → Bytes → CallbackEntry → Client
with_callback c key entry = record c {
  handlers = insert_ordered key (callbacks_at c key ++ entry ∷ []) c.handlers;
  scoped_handlers =
      if entry.scope == Origin.any then c.scoped_handlers else increment c.scoped_handlers;
}

-- `sendRawEnvelope(createSubscribeEnvelope(key))`
unfoldable pub announce : Worker → Client → Bytes → Client
unfolding create_subscribe_envelope send_raw_envelope
announce w c key = (send_raw_envelope w c (create_subscribe_envelope c key)).0

unfoldable pub perform_registration : Worker → Client → Bytes → CallbackEntry → Client
unfolding with_callback announce
perform_registration w c key entry =
    let registered = with_callback c key entry in
    if c.is_connected then announce w registered key else registered

-- The loop over the old list: the entries of other instances, and the counter of scoped ones.
unfoldable pub without_instance : ℕ → List CallbackEntry → List CallbackEntry
without_instance instance_key [] = []
without_instance instance_key (entry ∷ callbacks) =
    let rest = without_instance instance_key callbacks in
    if entry.instance_key == instance_key then rest else entry ∷ rest

unfoldable pub uncount_scoped : ℕ → List CallbackEntry → ℕ → ℕ
uncount_scoped instance_key [] n = n
uncount_scoped instance_key (entry ∷ callbacks) n = uncount_scoped instance_key callbacks (
    if entry.instance_key == instance_key && not (entry.scope == Origin.any)
    then decrement n
    else n)

-- Nobody is left: the topic is forgotten, and withdrawn whether or not the client is online.
unfoldable pub withdraw : Worker → Client → Bytes → Client
unfolding send_raw_envelope
withdraw w c key =
    let forgotten = record c { handlers = erase key c.handlers } in
    (send_raw_envelope w forgotten (create_control_envelope forgotten Keys.unsubscribe key)).0

-- Somebody is left: the broker hears of it if the union of scopes has changed.
unfoldable pub narrow : Worker → Client → Bytes → Origin → List CallbackEntry → Client
unfolding announce union_scope
narrow w c key scope_before next =
    let narrowed = record c { handlers = insert_ordered key next c.handlers } in
    if c.is_connected && not (union_scope next == scope_before)
    then announce w narrowed key
    else narrowed

-- By what the loop has left.
unfoldable pub settle : Worker → Client → Bytes → Origin → List CallbackEntry → Client
unfolding withdraw narrow
settle w c key scope_before [] = withdraw w c key
settle w c key scope_before (entry ∷ next) = narrow w c key scope_before (entry ∷ next)

unfoldable pub perform_unregistration : Worker → Client → Bytes → ℕ → Client
unfolding without_instance uncount_scoped settle union_scope
perform_unregistration w c key instance_key = elim (lookup key c.handlers) [
  | none ↦ c
  | some callbacks ↦
      settle w
        (record c { scoped_handlers = uncount_scoped instance_key callbacks c.scoped_handlers }) key
        (union_scope callbacks) (without_instance instance_key callbacks)
]

-- `for (topic : m_msgHandlers) sendRawEnvelope(createSubscribeEnvelope(topic))`
unfoldable pub announce_each : Worker → List Bytes → Client → Client
unfolding announce
announce_each w [] c = c
announce_each w (topic ∷ topics) c = announce_each w topics (announce w c topic)

unfoldable pub resubscribe_all : Worker → Client → Client
unfolding announce_each keys
resubscribe_all w c = announce_each w (keys c.handlers) c

-- The worker's status callback.
unfoldable pub on_status : Worker → Client → Bool → Client
unfolding resubscribe_all send_raw_envelope
on_status w c online =
    let noted = record c { is_connected = online } in
    if online
    then resubscribe_all w
        (send_raw_envelope w noted (create_control_envelope noted Keys.connect [])).0
    else noted
