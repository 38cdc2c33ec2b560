-- ===== src/Keys.antt =====
-- common/messagekeys.h: message origins and subscription scopes, the control keys, and the scope
-- that a SUBSCRIBE carries as its payload.
pub mod Scope
use Prim.Native.Nat.{bit_and, bit_or}
use wisp.Prelude.{
  ℕ, ◌%◌, Bool, true, false, not, ◌&&◌, ◌||◌, [], ◌∷◌, Eq, ◌==◌, ◌≡◌, ◌↔◌, arith, Bytes, codes,
  bytes_eq, nat_eq, if◌then◌else◌,
}

-- The enumeration's values 1, 2, 3, and the cast of 0 that a union of no scopes starts from.
pub data Origin : Type 0 where
  nowhere local mesh any : Origin

abbrev pub bits : Origin → ℕ
bits Origin.nowhere = 0
bits Origin.local = 1
bits Origin.mesh = 2
bits Origin.any = 3

-- `static_cast<Origin>` of a value below 4.
unfoldable pub of_bits : ℕ → Origin
of_bits b =
    if b == 0
    then Origin.nowhere
    else if b == 1
    then Origin.local
    else if b == 2
    then Origin.mesh
    else Origin.any

unfoldable pub origin_beq : Origin → Origin → Bool
origin_beq a b = bits a == bits b

pub origin_beq_iff : (a b : Origin) → (origin_beq a b ≡ true) ↔ (a ≡ b)
unfolding origin_beq
origin_beq_iff a b = (λ h. ground arith, λ h. ground arith)

instance abbrev pub origin_eq : Eq Origin
origin_eq = record { same = origin_beq; same_iff = origin_beq_iff }

-- `isLocal ? Origin::Local : Origin::Mesh`
abbrev pub origin_of : Bool → Origin
origin_of is_local = if is_local then Origin.local else Origin.mesh

unfoldable pub scope_accepts : Origin → Bool → Bool
scope_accepts scope is_local = not (bit_and (bits scope) (bits (origin_of is_local)) == 0)

unfoldable pub widen : Origin → Origin → Origin
unfolding of_bits
widen left right = of_bits (bit_or (bits left) (bits right))

abbrev pub connect : Bytes
connect = codes "__CONNECT__"

abbrev pub disconnect : Bytes
disconnect = codes "__DISCONNECT__"

abbrev pub reset : Bytes
reset = codes "__RESET__"

abbrev pub heartbeat : Bytes
heartbeat = codes "__HEARTBEAT__"

abbrev pub heartbeat_ack : Bytes
heartbeat_ack = codes "__HEARTBEAT_ACK__"

abbrev pub subscribe : Bytes
subscribe = codes "__SUBSCRIBE__"

abbrev pub unsubscribe : Bytes
unsubscribe = codes "__UNSUBSCRIBE__"

abbrev pub sys_stats : Bytes
sys_stats = codes "__SYS_STATS__"

abbrev pub unlink : Bytes
unlink = codes "__UNLINK__"

abbrev pub set_cluster : Bytes
set_cluster = codes "__SET_CLUSTER__"

abbrev pub wildcard_topic : Bytes
wildcard_topic = codes "*"

unfoldable pub is_reserved_key : Bytes → Bool
is_reserved_key [] = false
is_reserved_key (a ∷ []) = false
is_reserved_key (a ∷ b ∷ key) = a == b'_' && b == b'_'

unfoldable pub is_system_packet : Bytes → Bool
is_system_packet key =
    key == heartbeat || key == heartbeat_ack || key == connect || key == disconnect || key == reset

unfoldable pub is_control_message : Bytes → Bool
unfolding is_system_packet
is_control_message key =
    is_system_packet key || key == subscribe || key == unsubscribe || key == set_cluster

unfoldable pub encode_subscribe_scope : Origin → Bytes
encode_subscribe_scope scope = if scope == Origin.any then [] else bits scope ∷ []

-- `c & 3` of a byte is its remainder by 4.
unfoldable pub decode_subscribe_scope : Bytes → Origin
unfolding of_bits
decode_subscribe_scope [] = Origin.any
decode_subscribe_scope (c ∷ data') =
    let masked = c % 4 in if masked == 0 then Origin.any else of_bits masked
