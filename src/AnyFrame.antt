-- ===== src/AnyFrame.antt =====
-- common/anyframe.h, and `appendLengthDelimited` and the protobuf case of `encodePayload` of
-- common/connectionmanager.h: the frame that names the type of a payload.
pub mod Varint
pub mod RoundTrip
use wisp.Prelude.{
  ℕ, zero, suc, ◌+◌, ◌*◌, ◌/◌, ◌%◌, ◌^◌, Bool, true, false, Option, none, some, List, [], ◌∷◌, ◌++◌,
  ◌==◌, nat_eq, bytes_eq, ltb, Bytes, codes, if◌then◌else◌, length, take, drop, starts_with,
}

abbrev pub type_url_prefix : Bytes
type_url_prefix = codes "type.googleapis.com/"

-- `readVarint` on the bytes behind `pos`: as many bytes as `shift` allows. `weight` is `1 << shift`, and
-- the bits of a byte are added, since `out` holds only lower ones; what does not fit is lost.
unfoldable pub read_varint_from : ℕ → ℕ → Bytes → ℕ → Option (ℕ × Bytes)
read_varint_from zero weight raw out = none
read_varint_from (suc fuel) weight [] out = none
read_varint_from (suc fuel) weight (byte ∷ raw) out =
    let sum = out + (byte % 128) * weight % 2 ^ 64 in
    let rest = read_varint_from fuel (weight * 128) raw sum in
    if ltb byte 128 then some (sum, raw) else rest

unfoldable pub read_varint : Bytes → Option (ℕ × Bytes)
unfolding read_varint_from
read_varint raw = read_varint_from 10 1 raw 0

-- `typeUrl` and `valueBytes`.
pub record Any : Type 0 where
  pub type_url : Bytes
  pub value_bytes : Bytes

abbrev pub set_field : ℕ → Bytes → Any → Any
set_field number field any_ =
    if number == 1
    then record any_ { type_url = field }
    else if number == 2
    then record any_ { value_bytes = field }
    else any_

unfoldable pub skip : ℕ → Bytes → Any → Option (Bytes × Any)
skip n raw any_ = if ltb (length raw) n then none else some (drop n raw, any_)

-- The cases of `switch (key & 7)`.
unfoldable pub read_value : ℕ → Bytes → Any → Option (Bytes × Any)
unfolding skip
read_value key raw any_ =
    if key % 8 == 0
    then elim (read_varint raw) [ none ↦ none | some (skipped, rest) ↦ some (rest, any_) ]
    else if key % 8 == 1
    then skip 8 raw any_
    else if key % 8 == 2
    then elim (read_varint raw) [
      | none ↦ none
      | some (len, rest) ↦
          if ltb (length rest) len
          then none
          else some (drop len rest, set_field (key / 8) (take len rest) any_)
    ]
    else if key % 8 == 5
    then skip 4 raw any_
    else none

unfoldable pub read_field : Bytes → Any → Option (Bytes × Any)
unfolding read_value
read_field raw any_ = elim (read_varint raw) [
  | none ↦ none
  | some (key, rest) ↦ read_value key rest any_
]

-- The loop: every field takes a byte at least, so the number of bytes is enough fuel.
unfoldable pub read_fields : ℕ → Bytes → Any → Option Any
unfolding read_field
read_fields fuel [] any_ = some any_
read_fields zero (byte ∷ raw) any_ = none
read_fields (suc fuel) (byte ∷ raw) any_ = elim (read_field (byte ∷ raw) any_) [
  | none ↦ none
  | some (rest, next) ↦ read_fields fuel rest next
]

unfoldable pub read : Bytes → Option Any
unfolding read_fields
read raw = read_fields (length raw) raw (record { type_url = []; value_bytes = [] })

-- The name, empty where there is none, and the packed bytes.
unfoldable pub type_name_of : Bytes → Bytes × Bytes
unfolding read
type_name_of payload = elim (read payload) [
  | none ↦ ([], [])
  | some any_ ↦
      if take (length type_url_prefix) any_.type_url == type_url_prefix
      then (drop (length type_url_prefix) any_.type_url, any_.value_bytes)
      else ([], [])
]

-- The length of a field, on fuel: a `uint64_t` has at most ten groups of seven bits.
unfoldable pub varint : ℕ → ℕ → Bytes
varint zero n = []
varint (suc fuel) n =
    let rest = varint fuel (n / 128) in if ltb n 128 then n ∷ [] else (n % 128 + 128) ∷ rest

unfoldable pub append_length_delimited : ℕ → Bytes → Bytes
unfolding varint
append_length_delimited tag bytes = tag ∷ (varint 10 (length bytes) ++ bytes)

-- A message of this type name and body, packed.
unfoldable pub encode_payload : Bytes → Bytes → Bytes
unfolding append_length_delimited
encode_payload type_name body =
    append_length_delimited 10 (type_url_prefix ++ type_name) ++ append_length_delimited 18 body
