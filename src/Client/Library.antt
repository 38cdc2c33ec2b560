-- ===== src/Client/Library.antt =====
-- common/connectionmanager.cpp: the one instance, and the registrations that wait for it.
use wisp.Prelude.{
  ℕ, Bool, false, ◌&&◌, Option, none, some, List, [], ◌∷◌, ◌++◌, ◌==◌, nat_eq, Bytes, bytes_eq,
  if◌then◌else◌,
}
use wisp.Keys
use wisp.Client.State.{
  Client, CallbackEntry, Worker, start, send_raw_envelope, create_control_envelope,
}
use wisp.Client.Registration.{perform_registration, perform_unregistration}

-- `s_instance` and `s_pendingMsgCallbacks`.
pub record Library : Type 0 where
  pub instance_ptr : Option Client
  pub pending : List (Bytes × CallbackEntry)

unfoldable pub register_each : Worker → List (Bytes × CallbackEntry) → Client → Client
register_each w [] c = c
register_each w ((key, entry) ∷ pending) c =
    register_each w pending (perform_registration w c key entry)

unfoldable pub init : Worker → Library → Bytes → Bytes → Library
unfolding register_each
init w l configured_id fresh_uuid = elim l.instance_ptr [
  | some c ↦ l
  | none ↦ record {
    instance_ptr = some (register_each w l.pending (start configured_id fresh_uuid));
    pending = [];
  }
]

unfoldable pub register_internal : Worker → Library → Bytes → CallbackEntry → Library
register_internal w l key entry = elim l.instance_ptr [
  | none ↦ record l { pending = l.pending ++ (key, entry) ∷ [] }
  | some c ↦ record l { instance_ptr = some (perform_registration w c key entry) }
]

-- `std::remove_if` over what waits.
unfoldable pub drop_pending :
    Bytes → ℕ → List (Bytes × CallbackEntry) → List (Bytes × CallbackEntry)
drop_pending key instance_key [] = []
drop_pending key instance_key ((k, entry) ∷ pending) =
    let rest = drop_pending key instance_key pending in
    if k == key && entry.instance_key == instance_key then rest else (k, entry) ∷ rest

unfoldable pub unregister_callback : Worker → Library → Bytes → ℕ → Library
unfolding drop_pending
unregister_callback w l key instance_key = elim l.instance_ptr [
  | none ↦ record l { pending = drop_pending key instance_key l.pending }
  | some c ↦ record l { instance_ptr = some (perform_unregistration w c key instance_key) }
]

-- The instance that is torn down, with the DISCONNECT that it leaves to its worker.
unfoldable pub stopped : Worker → Client → Client
unfolding send_raw_envelope
stopped w c =
    let halted = record c { is_running = false } in
    if halted.is_connected
    then (send_raw_envelope w halted (create_control_envelope halted Keys.disconnect [])).0
    else halted

-- Refused inside a message callback.
unfoldable pub shutdown : Worker → Library → Bool → Library × Option Client
unfolding stopped
shutdown w l on_processing_thread = elim l.instance_ptr [
  | none ↦ (l, none)
  | some c ↦
      if on_processing_thread
      then (l, none)
      else (record l { instance_ptr = none }, some (stopped w c))
]
