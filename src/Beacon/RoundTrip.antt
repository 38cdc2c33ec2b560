-- ===== src/Beacon/RoundTrip.antt =====
-- common/beacon.cpp: `encode` against `decode`, and what `decode` accepts.
use wisp.Prelude.{
  ℕ, zero, suc, ◌+◌, ◌/◌, ◌%◌, ◌≤◌, ◌≡◌, refl, inl, inr, Bool-cases, Option-cases, true, false,
  Bool, ltb, some, List, [], ◌∷◌, append-nil, if◌then◌else◌, arith, Bytes, bytes_beq, bytes_eq,
  nat_eq, has_byte,
}
use wisp.Beacon.{
  Beacon, fields_of, bar, digits_of, to_string, encode, decode, read_fields, read_ports, parse_port,
  magic, wire_version,
}
use wisp.Beacon.Port.{parse_port-to_string, parse_port_range, digits_of_small, digits_of_large}
use wisp.Beacon.Fields.{has_byte-append, fields_of-bar, fields_of-last, NoBars, fields_of-NoBars}

digits_of-bar : (fuel n : ℕ) → has_byte bar (digits_of fuel n) ≡ false
unfolding has_byte digits_of
digits_of-bar zero n = refl
digits_of-bar (suc fuel) n = elim (Bool-cases (ltb n 10)) [
  | inl small ↦ rw (digits_of_small fuel n small) (ground arith)
  | inr large ↦ rw (digits_of_large fuel n large) (
      ground (
        arith,
        has_byte-append bar (digits_of fuel (n / 10)) ((b'0' + n % 10) ∷ []),
        digits_of-bar fuel (n / 10),
      ))
]

to_string-bar : (n : ℕ) → has_byte bar (to_string n) ≡ false
unfolding to_string
to_string-bar n = digits_of-bar (suc n) n

parse_whole :
    (n : ℕ) (zero_allowed : Bool)
    → n ≤ 65535
    → (if zero_allowed then 0 else 1) ≤ n
    → parse_port (to_string n) zero_allowed ≡ some n
parse_whole n zero_allowed hi lo =
    rw append-nil at (parse_port-to_string n [] zero_allowed tt hi lo)

-- What a broker announces is what its peers read: cluster, uuid and both ports, where the names
-- hold no bar, the router port is usable and both ports fit 16 bits.
pub decode-encode :
    (cluster uuid : Bytes) (router_port tap_port : ℕ)
    → has_byte bar cluster ≡ false
    → has_byte bar uuid ≡ false
    → 1 ≤ router_port
    → router_port ≤ 65535
    → tap_port ≤ 65535
    → decode (encode cluster uuid router_port tap_port)
      ≡ some (record {
        cluster = cluster;
        uuid = uuid;
        router_port = router_port;
        tap_port = tap_port;
      })
unfolding decode encode read_fields read_ports bytes_beq has_byte
decode-encode cluster uuid router_port tap_port c u lo hi tap = rw (
  fields_of-bar magic _ refl,
  fields_of-bar wire_version _ refl,
  fields_of-bar cluster _ c,
  fields_of-bar uuid _ u,
  fields_of-bar (to_string router_port) _ (to_string-bar router_port),
  fields_of-last (to_string tap_port) (to_string-bar tap_port),
  parse_whole router_port false hi lo,
  parse_whole tap_port true tap (omega arith),
)

-- What a decoded beacon promises its reader.
pub record IsUsable (b : Beacon) : Type 0 where
  pub router_low : 1 ≤ b.router_port
  pub router_high : b.router_port ≤ 65535
  pub tap_high : b.tap_port ≤ 65535
  pub cluster_plain : has_byte bar b.cluster ≡ false
  pub uuid_plain : has_byte bar b.uuid ≡ false

read_ports-IsUsable :
    (cluster uuid router tap : Bytes) (b : Beacon)
    → has_byte bar cluster ≡ false
    → has_byte bar uuid ≡ false
    → read_ports cluster uuid router tap ≡ some b
    → IsUsable b
unfolding read_ports
read_ports-IsUsable cluster uuid router tap b c u h =
    elim (Option-cases (parse_port router false)) [
      | inl e ↦ absurd (ground (arith, e, h))
      | inr (r, e) ↦ elim (Option-cases (parse_port tap true)) [
        | inl f ↦ absurd (ground (arith, e, f, h))
        | inr (t, f) ↦
            ground (arith, e, f, parse_port_range router false r e, parse_port_range tap true t f)
      ]
    ]

read_fields-IsUsable :
    (fs : List Bytes) (b : Beacon) → NoBars fs → read_fields fs ≡ some b → IsUsable b
unfolding read_fields
read_fields-IsUsable (m ∷ v ∷ cluster ∷ uuid ∷ router ∷ tap ∷ []) b n h =
    read_ports-IsUsable cluster uuid router tap b n.1.1.0 n.1.1.1.0 (ground arith)
read_fields-IsUsable _ b n h = cc

-- Whatever datagram is accepted, its ports are in range and its names hold no bar.
pub decode-IsUsable : (s : Bytes) (b : Beacon) → decode s ≡ some b → IsUsable b
unfolding decode
decode-IsUsable s b h = read_fields-IsUsable (fields_of s) b (fields_of-NoBars s) h
