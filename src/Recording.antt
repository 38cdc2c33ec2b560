-- ===== src/Recording.antt =====
-- cli/recording.cpp: the capture file. A file is its bytes and a position; the clock and the
-- generated header codec are arguments.
pub mod Words
pub mod Capture
use wisp.Prelude.{
  ℕ, zero, suc, ◌+◌, ◌-◌, ◌*◌, ◌/◌, ◌%◌, ◌^◌, Bool, true, false, ◌||◌, Option, none, some, List, [],
  ◌∷◌, ◌++◌, ◌==◌, nat_eq, ltb, Bytes, bytes_eq, codes, if◌then◌else◌, length, take, drop,
}
use wisp.Wire.{Header, Envelope, Codec, encode_header, decode_header_frame}

abbrev pub magic : Bytes
magic = codes "WISPREC1"

abbrev pub max_message_size_bytes : ℕ
max_message_size_bytes = 16 * 1024 * 1024

-- `for (shift = 0; shift < 8 * n; shift += 8) out += (value >> shift) & 0xff`
unfoldable pub le_bytes : ℕ → ℕ → Bytes
le_bytes zero value = []
le_bytes (suc n) value = (value % 256) ∷ le_bytes n (value / 256)

-- `value |= bytes[i] << (i * 8)`
unfoldable pub le_value : Bytes → ℕ
le_value [] = 0
le_value (c ∷ s) = c + 256 * le_value s

-- An offset is an `int64_t`, here its 64-bit pattern.
unfoldable pub append_le64 : ℕ → Bytes
unfolding le_bytes
append_le64 value = le_bytes 8 (value % 2 ^ 64)

unfoldable pub append_le32 : ℕ → Bytes
unfolding le_bytes
append_le32 value = le_bytes 4 (value % 2 ^ 32)

-- `RecordWriter`: the file while it is open, with what was written to it.
pub record Writer : Type 0 where
  pub file : Option Bytes
  pub count : ℕ
  pub start_micros : ℕ

-- `open`, where the file can be created.
pub open_writer : Writer
open_writer = record { file = some magic; count = 0; start_micros = 0 }

unfoldable pub record_bytes : Codec → ℕ → Envelope → Bytes
unfolding append_le64 append_le32
record_bytes codec offset envelope =
    let frame = encode_header codec envelope.header in
    append_le64 offset
    ++ (append_le32 (length frame)
        ++ (append_le32 (length envelope.payload) ++ (frame ++ envelope.payload)))

-- `write`, where the disk takes the record: `none` is a file that is not open. The difference of
-- the clocks is taken modulo 2 ^ 64, as its bytes are.
pub write : Codec → Writer → ℕ → Envelope → Option Writer
unfolding record_bytes
write codec w timestamp envelope = elim w.file [
  | none ↦ none
  | some bytes ↦
      let started = if w.count == 0 then timestamp else w.start_micros in
      some (record {
        file =
            some (bytes ++ record_bytes codec ((timestamp + 2 ^ 64 - started) % 2 ^ 64) envelope);
        count = w.count + 1;
        start_micros = started;
      })
]

pub data ReadError : Type 0 where
  mid_record implausible_size inside_header inside_payload undecodable : ReadError

-- `read`: a record with its offset and the bytes behind it, the end of the file, or an error.
pub data ReadResult : Type 0 where
  got : Envelope → ℕ → Bytes → ReadResult
  end_of_file : ReadResult
  failed : ReadError → ReadResult

-- `open` of the reader: the bytes behind the magic.
pub open_reader : Bytes → Option Bytes
open_reader file = if take 8 file == magic then some (drop 8 file) else none

-- `fread` of `n` bytes falls short exactly when the file does.
abbrev pub falls_short : Bytes → ℕ → Bool
falls_short s n = ltb (length s) n

unfoldable pub implausible : ℕ → ℕ → Bool
implausible header_length payload_length =
    header_length == 0
    || ltb max_message_size_bytes header_length
    || ltb max_message_size_bytes payload_length

-- `outEnvelope`, once the header frame has been decoded or not.
unfoldable pub hand_out : Option Header → Bytes → ℕ → Bytes → ReadResult
hand_out none payload offset rest = failed undecodable
hand_out (some header) payload offset rest =
    got (record { header = header; payload = payload }) offset rest

unfoldable pub read_frames : Codec → ℕ → ℕ → ℕ → Bytes → ReadResult
unfolding hand_out
read_frames codec offset header_length payload_length s =
    let behind = drop header_length s in
    if falls_short s header_length
    then failed inside_header
    else if falls_short behind payload_length
    then failed inside_payload
    else hand_out (decode_header_frame codec (take header_length s)) (take payload_length behind)
        offset (drop payload_length behind)

pub read : Codec → Bytes → ReadResult
unfolding le_value read_frames implausible
read codec s =
    let header_length = le_value (take 4 (drop 8 s)) in
    let payload_length = le_value (take 4 (drop 12 s)) in
    if length s == 0
    then end_of_file
    else if falls_short s 16
    then failed mid_record
    else if implausible header_length payload_length
    then failed implausible_size
    else read_frames codec (le_value (take 8 s)) header_length payload_length (drop 16 s)
