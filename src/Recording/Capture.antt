-- ===== src/Recording/Capture.antt =====
-- cli/recording.cpp: what `RecordWriter::write` lays out against `RecordReader::read`.
use wisp.Prelude.{
  [], ◌∷◌, some, ℕ, ◌+◌, ◌%◌, ◌^◌, ◌≤◌, ◌<◌, ◌≡◌, refl, ◌∙◌, false, List, ◌++◌, append_assoc,
  nat_eq, arith, Bytes, length, length-append, take, drop, take-append, drop-append,
}
use wisp.Wire.{Envelope, Codec, IsFaithful, encode_header, decode-encode_header}
use wisp.Recording.{
  append_le64, append_le32, magic, open_reader, record_bytes, ReadResult, got, end_of_file, failed,
  mid_record, read, read_frames, implausible, max_message_size_bytes,
}
use wisp.Recording.Words.{length-le_bytes, le_value-append_le32, le_value-append_le64}

-- A record that the transport's cap lets through.
pub record Fits (codec : Codec) (envelope : Envelope) : Type 0 where
  pub header : length (encode_header codec envelope.header) ≤ max_message_size_bytes
  pub payload : length envelope.payload ≤ max_message_size_bytes

length-append_le64 : (v : ℕ) → length (append_le64 v) ≡ 8
unfolding append_le64
length-append_le64 v = length-le_bytes 8 (v % 2 ^ 64)

length-append_le32 : (v : ℕ) → length (append_le32 v) ≡ 4
unfolding append_le32
length-append_le32 v = length-le_bytes 4 (v % 2 ^ 32)

module _ {ℓ} {A : Type ℓ} where
  take_past : (n : ℕ) (a s : List A) → length a ≡ n → take n (a ++ s) ≡ a
  take_past n a s e = rw (← e) (take-append a s)

  drop_past : (n : ℕ) (a s : List A) → length a ≡ n → drop n (a ++ s) ≡ s
  drop_past n a s e = rw (← e) (drop-append a s)

  drop_two : (n : ℕ) (a b s : List A) → length a + length b ≡ n → drop n (a ++ (b ++ s)) ≡ s
  drop_two n a b s e = rw (← append_assoc a b s) (drop_past n (a ++ b) s (length-append a b ∙ e))

  drop_three :
      (n : ℕ) (a b c s : List A)
      → length a + length b + length c ≡ n
      → drop n (a ++ (b ++ (c ++ s))) ≡ s
  drop_three n a b c s e =
      rw (← append_assoc a b (c ++ s))
        (drop_two n (a ++ b) c s (omega (arith, length-append a b, e)))

module _ (codec : Codec) (offset : ℕ) (envelope : Envelope) where
  abbrev frame : Bytes
  frame = encode_header codec envelope.header

  abbrev head_length : Bytes
  head_length = append_le32 (length frame)

  abbrev payload_length : Bytes
  payload_length = append_le32 (length envelope.payload)

  -- A record in front of what follows it, bracketed to the right.
  laid_out : (rest : Bytes) → Bytes
  laid_out rest =
      append_le64 offset
      ++ (head_length ++ (payload_length ++ (frame ++ (envelope.payload ++ rest))))

  record_bytes-append : (rest : Bytes) → record_bytes codec offset envelope ++ rest ≡ laid_out rest
  unfolding record_bytes laid_out
  record_bytes-append rest = simp append_assoc

  module _ (faithful : IsFaithful codec) (fits : Fits codec envelope)
      (in_range : offset < 2 ^ 64) where
    read_frames-laid_out :
        (rest : Bytes)
        → read_frames codec offset
            (length frame)
            (length envelope.payload)
            (frame ++ (envelope.payload ++ rest))
          ≡ got envelope offset rest
    unfolding read_frames
    read_frames-laid_out rest =
        rw
          (
            take_past (length frame) frame (envelope.payload ++ rest) refl,
            drop_past (length frame) frame (envelope.payload ++ rest) refl,
            take_past (length envelope.payload) envelope.payload rest refl,
            drop_past (length envelope.payload) envelope.payload rest refl,
            decode-encode_header codec faithful envelope.header,
          )
          (ground (
            arith,
            length-append frame (envelope.payload ++ rest),
            length-append envelope.payload rest,
          ))

    plausible : implausible (length frame) (length envelope.payload) ≡ false
    unfolding implausible encode_header
    plausible = ground (arith, fits.header, fits.payload)

    small_header : length frame < 2 ^ 32
    small_header = omega (arith, fits.header)

    small_payload : length envelope.payload < 2 ^ 32
    small_payload = omega (arith, fits.payload)

    length-laid_out : (rest : Bytes) → 16 ≤ length (laid_out rest)
    unfolding laid_out
    length-laid_out rest = omega (
      arith,
      length-append (append_le64 offset)
          (head_length ++ (payload_length ++ (frame ++ (envelope.payload ++ rest)))),
      length-append head_length (payload_length ++ (frame ++ (envelope.payload ++ rest))),
      length-append payload_length (frame ++ (envelope.payload ++ rest)),
      length-append_le64 offset,
      length-append_le32 (length frame),
      length-append_le32 (length envelope.payload),
    )

    read-laid_out : (rest : Bytes) → read codec (laid_out rest) ≡ got envelope offset rest
    unfolding read laid_out
    read-laid_out rest =
        let tail = frame ++ (envelope.payload ++ rest) in
        let a = length-append_le64 offset in
        let b = length-append_le32 (length frame) in
        let c = length-append_le32 (length envelope.payload) in
        rw
          (
            take_past 8 (append_le64 offset) (head_length ++ (payload_length ++ tail)) a,
            drop_past 8 (append_le64 offset) (head_length ++ (payload_length ++ tail)) a,
            drop_two 12 (append_le64 offset) head_length (payload_length ++ tail)
                (omega (arith, a, b)),
            drop_three 16 (append_le64 offset) head_length payload_length tail
                (omega (arith, a, b, c)),
            take_past 4 head_length (payload_length ++ tail) b,
            take_past 4 payload_length tail c,
            le_value-append_le64 offset in_range,
            le_value-append_le32 (length frame) small_header,
            le_value-append_le32 (length envelope.payload) small_payload,
            plausible,
            read_frames-laid_out rest,
          )
          (ground (arith, length-laid_out rest))

    -- With a codec that reads back what it wrote, frames within the transport's limit and an offset
    -- within 64 bits, a record is read back with its offset, its header and its payload, and the
    -- bytes behind it are left for the next.
    pub read-record_bytes :
        (rest : Bytes)
        → read codec (record_bytes codec offset envelope ++ rest) ≡ got envelope offset rest
    read-record_bytes rest = rw (record_bytes-append rest) (read-laid_out rest)

-- A file that ends within the fixed part of a record.
pub read-short :
    (codec : Codec) (c : ℕ) (s : Bytes)
    → length (c ∷ s) < 16
    → read codec (c ∷ s) ≡ failed mid_record
unfolding read
read-short codec c s h = ground (arith, h)

pub read-nothing : (codec : Codec) → read codec [] ≡ end_of_file
unfolding read
read-nothing codec = refl

pub record_bytes-long :
    (codec : Codec) (offset : ℕ) (envelope : Envelope)
    → 0 < length (record_bytes codec offset envelope)
unfolding record_bytes append_le64 wisp.Recording.le_bytes
record_bytes-long codec offset envelope = omega arith

pub open_reader-magic : (rest : Bytes) → open_reader (magic ++ rest) ≡ some rest
unfolding open_reader wisp.Prelude.bytes_beq
open_reader-magic rest = refl
