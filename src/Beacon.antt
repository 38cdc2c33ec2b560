-- ===== src/Beacon.antt =====
-- common/beacon.cpp and common/config.h: presence beacons, cluster names and port numbers.
pub mod Port
pub mod Fields
pub mod RoundTrip
use wisp.Prelude.{
  ℕ, zero, suc, ◌+◌, ◌-◌, ◌*◌, ◌/◌, ◌%◌, ◌^◌, Bool, true, false, not, ◌&&◌, ◌||◌, Option, none,
  some, List, [], ◌∷◌, ◌++◌, ◌==◌, nat_eq, ltb, leb, Bytes, bytes_eq, codes, has_byte,
  if◌then◌else◌, length,
}

-- `std::isspace` in the C locale.
unfoldable pub is_space : ℕ → Bool
is_space c = c == 32 || (leb 9 c && leb c 13)

unfoldable pub is_digit : ℕ → Bool
is_digit c = leb b'0' c && leb c b'9'

unfoldable pub skip_spaces : Bytes → Bytes
unfolding is_space
skip_spaces [] = []
skip_spaces (c ∷ s) = if is_space c then skip_spaces s else c ∷ s

-- The number that the leading digits write, after the digits that were read already.
unfoldable pub digits_value : ℕ → Bytes → ℕ
unfolding is_digit
digits_value acc [] = acc
digits_value acc (c ∷ s) =
    let rest = digits_value (acc * 10 + (c - b'0')) s in if is_digit c then rest else acc

abbrev pub int_max : ℕ
int_max = 2 ^ 31 - 1

-- An `int`: whether it was written with a minus, and its magnitude.
pub record Parsed : Type 0 where
  pub negative : Bool
  pub magnitude : ℕ

-- `std::stoi`: leading whitespace, a sign, digits; what follows the digits is not looked at.
-- `none` is `std::invalid_argument` or `std::out_of_range`.
unfoldable pub stoi_digits : Bool → Bytes → Option Parsed
unfolding is_digit digits_value
stoi_digits negative [] = none
stoi_digits negative (c ∷ s) =
    if is_digit c
    then (let value = digits_value 0 (c ∷ s) in
        if leb value (if negative then int_max + 1 else int_max)
        then some (record { negative = negative; magnitude = value })
        else none)
    else none

unfoldable pub stoi_sign : Bytes → Option Parsed
unfolding stoi_digits
stoi_sign [] = none
stoi_sign (c ∷ s) =
    if c == b'-'
    then stoi_digits true s
    else if c == b'+'
    then stoi_digits false s
    else stoi_digits false (c ∷ s)

unfoldable pub stoi : Bytes → Option Parsed
unfolding stoi_sign skip_spaces
stoi s = stoi_sign (skip_spaces s)

-- `value < (zeroAllowed ? 0 : 1) || value > 65535`
unfoldable pub port_of : Bool → Parsed → Option ℕ
port_of zero_allowed p =
    if p.negative && not (p.magnitude == 0)
    then none
    else if ltb p.magnitude (if zero_allowed then 0 else 1) || ltb 65535 p.magnitude
    then none
    else some p.magnitude

infixl 5 ◌>>=◌
abbrev pub ◌>>=◌ {ℓ κ} : {A : Type ℓ} {B : Type κ} → Option A → (A → Option B) → Option B
none >>= f = none
some a >>= f = f a

pub parse_port : Bytes → Bool → Option ℕ
unfolding stoi port_of
parse_port text zero_allowed = do value ← stoi text; port_of zero_allowed value

-- `std::to_string`, on fuel: a number has no more digits than its value and one.
unfoldable pub digits_of : ℕ → ℕ → Bytes
digits_of zero n = []
digits_of (suc fuel) n = elim (ltb n 10) [
  | true ↦ (b'0' + n) ∷ []
  | false ↦ digits_of fuel (n / 10) ++ (b'0' + n % 10) ∷ []
]

unfoldable pub to_string : ℕ → Bytes
unfolding digits_of
to_string n = digits_of (suc n) n

pub record Beacon : Type 0 where
  pub cluster : Bytes
  pub uuid : Bytes
  pub router_port : ℕ
  pub tap_port : ℕ

abbrev pub bar : ℕ
bar = b'|'

pub is_valid_cluster_name : Bytes → Bool
unfolding has_byte
is_valid_cluster_name cluster =
    not (cluster == []) && (leb (length cluster) 64 && not (has_byte bar cluster))

abbrev pub magic : Bytes
magic = codes "WISP"

abbrev pub wire_version : Bytes
wire_version = codes "1"

pub encode : Bytes → Bytes → ℕ → ℕ → Bytes
unfolding to_string
encode cluster uuid router_port tap_port =
    magic
    ++ (bar
        ∷ (wire_version
            ++ (bar
                ∷ (cluster
                    ++ (bar
                        ∷ (uuid
                            ++ (bar ∷ (to_string router_port ++ (bar ∷ to_string tap_port)))))))))

abbrev pub extend : ℕ → List Bytes → List Bytes
extend c [] = (c ∷ []) ∷ []
extend c (field ∷ fields) = (c ∷ field) ∷ fields

-- The loop of `find('|', start)` and `substr`.
unfoldable pub fields_of : Bytes → List Bytes
fields_of [] = [] ∷ []
fields_of (c ∷ s) = let fields = fields_of s in if c == bar then [] ∷ fields else extend c fields

-- The router port must be usable; the tap port may be 0.
unfoldable pub read_ports : Bytes → Bytes → Bytes → Bytes → Option Beacon
unfolding parse_port
read_ports cluster uuid router tap = do
  router_port ← parse_port router false
  tap_port ← parse_port tap true
  some (record { cluster = cluster; uuid = uuid; router_port = router_port; tap_port = tap_port })

-- `fields.size() != 6 || fields[0] != MAGIC || fields[1] != WIRE_VERSION`, then the ports.
unfoldable pub read_fields : List Bytes → Option Beacon
unfolding read_ports
read_fields (m ∷ v ∷ cluster ∷ uuid ∷ router ∷ tap ∷ []) =
    if m == magic && v == wire_version then read_ports cluster uuid router tap else none
read_fields other = none

pub decode : Bytes → Option Beacon
unfolding fields_of read_fields
decode s = read_fields (fields_of s)

-- The entries that the commas of `WISP_PEERS` set apart.
unfoldable entries_of : Bytes → List Bytes
entries_of [] = [] ∷ []
entries_of (c ∷ s) =
    let entries = entries_of s in if c == b',' then [] ∷ entries else extend c entries

unfoldable trim_end : Bytes → Bytes
unfolding is_space
trim_end [] = []
trim_end (c ∷ s) = let rest = trim_end s in if is_space c && rest == [] then [] else c ∷ rest

unfoldable keep_peers : List Bytes → List Bytes
unfolding skip_spaces trim_end
keep_peers [] = []
keep_peers (entry ∷ entries) =
    let peers = keep_peers entries in
    let peer = trim_end (skip_spaces entry) in if peer == [] then peers else peer ∷ peers

unfoldable pub parse_peer_list : Bytes → List Bytes
unfolding entries_of keep_peers
parse_peer_list text = keep_peers (entries_of text)
