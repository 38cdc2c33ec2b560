-- ===== src/AnyFrame/RoundTrip.antt =====
-- common/anyframe.h, `typeNameOf`, on what `encodePayload` of common/connectionmanager.h packs.
use wisp.Prelude.{
  ◌≡◌, refl, sym, ap, ◌∙◌, ℕ, zero, suc, ◌/◌, ◌%◌, ◌^◌, ◌<◌, ◌≤◌, some, [], ◌∷◌, ◌++◌, nat_eq, ltb,
  Bytes, bytes_eq, beq_refl, arith, false, length, take-append, drop-append, length-append,
  append_assoc, append-nil,
}
use wisp.AnyFrame.{
  Any, type_url_prefix, set_field, read_value, read_field, read_fields, read, type_name_of, varint,
  append_length_delimited, encode_payload,
}
use wisp.AnyFrame.Varint.{read_varint-varint}

-- A length-delimited field behind its key.
read_value-delimited :
    (key : ℕ) (bytes rest : Bytes) (any_ : Any)
    → key % 8 ≡ 2
    → length bytes < 2 ^ 64
    → read_value key ((varint 10 (length bytes) ++ bytes) ++ rest) any_
      ≡ some (rest, set_field (key / 8) bytes any_)
unfolding read_value
read_value-delimited key bytes rest any_ k h =
    rw
      (
        k,
        append_assoc (varint 10 (length bytes)) bytes rest,
        read_varint-varint (length bytes) (bytes ++ rest) h,
        drop-append bytes rest,
        take-append bytes rest,
        fits,
      )
      refl
  where
    fits : ltb (length (bytes ++ rest)) (length bytes) ≡ false
    fits = ground (arith, length-append bytes rest)

read_field-type_url :
    (bytes rest : Bytes) (any_ : Any)
    → length bytes < 2 ^ 64
    → read_field (append_length_delimited 10 bytes ++ rest) any_
      ≡ some (rest, record any_ { type_url = bytes })
unfolding read_field append_length_delimited varint
read_field-type_url bytes rest any_ h =
    rw
      (
        read_varint-varint 10 ((varint 10 (length bytes) ++ bytes) ++ rest) (omega arith),
        read_field,
      )
      (read_value-delimited 10 bytes rest any_ refl h)

read_field-value_bytes :
    (bytes rest : Bytes) (any_ : Any)
    → length bytes < 2 ^ 64
    → read_field (append_length_delimited 18 bytes ++ rest) any_
      ≡ some (rest, record any_ { value_bytes = bytes })
unfolding read_field append_length_delimited varint
read_field-value_bytes bytes rest any_ h =
    rw
      (
        read_varint-varint 18 ((varint 10 (length bytes) ++ bytes) ++ rest) (omega arith),
        read_field,
      )
      (read_value-delimited 18 bytes rest any_ refl h)

read_fields-step :
    (fuel byte : ℕ) (raw rest : Bytes) (any_ next : Any)
    → read_field (byte ∷ raw) any_ ≡ some (rest, next)
    → read_fields (suc fuel) (byte ∷ raw) any_ ≡ read_fields fuel rest next
unfolding read_fields
read_fields-step fuel byte raw rest any_ next e = rw (e, read_fields) refl

-- The last field, with fuel for one.
read_fields-last :
    (fuel : ℕ) (body : Bytes) (any_ : Any)
    → 1 ≤ fuel
    → length body < 2 ^ 64
    → read_fields fuel (append_length_delimited 18 body) any_
      ≡ some (record any_ { value_bytes = body })
unfolding read_fields append_length_delimited
read_fields-last zero body any_ enough h = absurd (omega (arith, enough))
read_fields-last (suc fuel) body any_ enough h =
    read_fields-step fuel 18 (varint 10 (length body) ++ body) [] any_
      (record any_ { value_bytes = body })
      (ap (λ raw. read_field raw any_) (sym (append-nil (append_length_delimited 18 body)))
        ∙ read_field-value_bytes body [] any_ h)

read-encode_payload :
    (type_name body : Bytes)
    → length (type_url_prefix ++ type_name) < 2 ^ 64
    → length body < 2 ^ 64
    → read (encode_payload type_name body)
      ≡ some (record { type_url = type_url_prefix ++ type_name; value_bytes = body })
unfolding read encode_payload append_length_delimited
read-encode_payload type_name body h k =
    read_fields-step (length (front ++ append_length_delimited 18 body)) 10
      (front ++ append_length_delimited 18 body) (append_length_delimited 18 body)
      (record { type_url = []; value_bytes = [] })
      (record { type_url = type_url_prefix ++ type_name; value_bytes = [] })
      (read_field-type_url (type_url_prefix ++ type_name) (append_length_delimited 18 body)
        (record { type_url = []; value_bytes = [] }) h)
    ∙ read_fields-last (length (front ++ append_length_delimited 18 body)) body
        (record { type_url = type_url_prefix ++ type_name; value_bytes = [] })
        (omega (arith, length-append front (append_length_delimited 18 body))) k
  where
    front : Bytes
    front = varint 10 (length (type_url_prefix ++ type_name)) ++ (type_url_prefix ++ type_name)

-- The name and the body of a packed message, each within 64 bits of length, are read off the payload
-- as they were packed: whatever bytes they hold, the loop over the fields gets to its end.
pub type_name_of-encode_payload :
    (type_name body : Bytes)
    → length (type_url_prefix ++ type_name) < 2 ^ 64
    → length body < 2 ^ 64
    → type_name_of (encode_payload type_name body) ≡ (type_name, body)
unfolding type_name_of
type_name_of-encode_payload type_name body h k =
    rw
      (
        read-encode_payload type_name body h k,
        type_name_of,
        take-append type_url_prefix type_name,
        drop-append type_url_prefix type_name,
        beq_refl type_url_prefix,
      )
      refl
