-- ===== src/Keys/Scope.antt =====
-- common/messagekeys.h: what scopes accept, and how a scope travels in a SUBSCRIBE.
use wisp.Prelude.{
  ◌≢◌, ◌≡◌, refl, Bool, true, ◌||◌, [], ◌∷◌, arith, Bytes, bytes_eq, bytes_beq_iff, ◌==◌,
  if◌then◌else◌,
}
use wisp.Keys.{
  Origin, scope_accepts, widen, origin_beq, is_control_message, is_reserved_key,
  encode_subscribe_scope, decode_subscribe_scope, connect, disconnect, reset, heartbeat, origin_eq,
  heartbeat_ack, subscribe, unsubscribe, set_cluster,
}

-- A union of scopes accepts what either scope accepts.
pub scope_accepts-widen :
    (a b : Origin) (is_local : Bool)
    → scope_accepts (widen a b) is_local ≡ (scope_accepts a is_local || scope_accepts b is_local)
unfolding scope_accepts widen
scope_accepts-widen Origin.nowhere b is_local = ground arith
scope_accepts-widen _ b is_local = ground arith

pub widen_assoc : (a b c : Origin) → widen (widen a b) c ≡ widen a (widen b c)
unfolding widen
widen_assoc Origin.nowhere b c = ground arith
widen_assoc _ b c = ground arith

-- A decoded scope accepts something, whatever bytes arrived.
pub decode_subscribe_scope-ne-nowhere : (s : Bytes) → decode_subscribe_scope s ≢ Origin.nowhere
unfolding decode_subscribe_scope
decode_subscribe_scope-ne-nowhere [] h = cc
decode_subscribe_scope-ne-nowhere (c ∷ s) h = ground arith

-- The scope of a SUBSCRIBE survives its payload, but the scope without an origin is read as both.
pub decode-encode_subscribe_scope :
    (s : Origin)
    → decode_subscribe_scope (encode_subscribe_scope s)
      ≡ (if s == Origin.nowhere then Origin.any else s)
unfolding decode_subscribe_scope encode_subscribe_scope origin_beq
decode-encode_subscribe_scope Origin.nowhere = refl
decode-encode_subscribe_scope _ = refl

-- Every key that goes by the control queue is reserved, so no broker routes it on.
pub is_control_message-reserved :
    (key : Bytes) → is_control_message key ≡ true → is_reserved_key key ≡ true
unfolding is_control_message is_reserved_key
is_control_message-reserved key h = ground (
  arith,
  bytes_beq_iff key heartbeat,
  bytes_beq_iff key heartbeat_ack,
  bytes_beq_iff key connect,
  bytes_beq_iff key disconnect,
  bytes_beq_iff key reset,
  bytes_beq_iff key subscribe,
  bytes_beq_iff key unsubscribe,
  bytes_beq_iff key set_cluster,
)
