-- ===== src/Tool/Shown.antt =====
-- cli/payloadformat.cpp: which bytes reach the terminal.
use wisp.Prelude.{
  ◌≡◌, refl, inl, inr, Bool-cases, ℕ, zero, suc, ◌+◌, ◌-◌, ◌*◌, ◌/◌, ◌%◌, ◌<◌, Bool, true, not,
  ◌&&◌, [], ◌∷◌, ◌++◌, ◌==◌, nat_eq, bytes_eq, ltb, leb, Bytes, codes, if_both, length, take, min,
  arith,
}
use wisp.Beacon.{to_string, digits_of}
use wisp.Tool.Options.{PayloadFormat}
use wisp.Tool.Payload.{
  hex_digit, escaped, escape_control_characters, truncation_note, looks_like_text, hex_pairs,
  hex_row, to_hex, Printer, render_packed_any, render_text, render_decoded, render_payload,
}

-- No control character: neither below a space nor the delete character.
abbrev pub shows : ℕ → Bool
shows c = leb 32 c && not (c == 127)

unfoldable pub all_shown : Bytes → Bool
all_shown [] = true
all_shown (c ∷ s) = shows c && all_shown s

all_shown-append :
    (s t : Bytes) → all_shown s ≡ true → all_shown t ≡ true → all_shown (s ++ t) ≡ true
unfolding all_shown
all_shown-append [] t h k = k
all_shown-append (c ∷ s) t h k = ground (arith, all_shown-append s t, h, k)

hex_digit-shows : (d : ℕ) → d < 16 → shows (hex_digit d) ≡ true
unfolding hex_digit
hex_digit-shows d h = ground arith

digits_of-shown : (fuel n : ℕ) → all_shown (digits_of fuel n) ≡ true
unfolding digits_of all_shown
digits_of-shown zero n = refl
digits_of-shown (suc fuel) n = elim (Bool-cases (ltb n 10)) [
  | inl e ↦ rw (e, digits_of) (ground (arith, e))
  | inr e ↦
      rw (e, digits_of)
        (all_shown-append (digits_of fuel (n / 10)) ((b'0' + n % 10) ∷ [])
          (digits_of-shown fuel (n / 10)) (ground arith))
]

escaped-shown : (c : ℕ) → all_shown (escaped c) ≡ true
unfolding escaped all_shown hex_digit
escaped-shown c = ground arith

escape_control_characters-shown : (s : Bytes) → all_shown (escape_control_characters s) ≡ true
unfolding escape_control_characters all_shown
escape_control_characters-shown [] = refl
escape_control_characters-shown (c ∷ s) =
    all_shown-append (escaped c) (escape_control_characters s) (escaped-shown c)
      (escape_control_characters-shown s)

truncation_note-shown : (total shown : ℕ) → all_shown (truncation_note total shown) ≡ true
unfolding truncation_note all_shown to_string
truncation_note-shown total shown =
    if_both (λ s. all_shown s ≡ true) (leb total shown) _ _ (λ fits. refl)
      (λ cut.
        all_shown-append (to_string (total - shown)) (codes " bytes)")
          (digits_of-shown (suc (total - shown)) (total - shown)) refl)

-- Bytes are numbers below 256.
unfoldable pub all_bytes : Bytes → Bool
all_bytes [] = true
all_bytes (c ∷ s) = ltb c 256 && all_bytes s

all_bytes-take : (n : ℕ) (s : Bytes) → all_bytes s ≡ true → all_bytes (take n s) ≡ true
unfolding all_bytes
all_bytes-take zero s h = refl
all_bytes-take (suc n) [] h = refl
all_bytes-take (suc n) (c ∷ s) h = ground (arith, all_bytes-take n s)

hex_pairs-shown : (s : Bytes) → all_bytes s ≡ true → all_shown (hex_pairs s) ≡ true
unfolding hex_pairs all_shown all_bytes
hex_pairs-shown [] h = refl
hex_pairs-shown (c ∷ s) h =
    ground (arith, h, hex_pairs-shown s, hex_digit-shows (c / 16), hex_digit-shows (c % 16))

hex_row-shown : (s : Bytes) → all_bytes s ≡ true → all_shown (hex_row s) ≡ true
unfolding hex_row all_shown all_bytes
hex_row-shown [] h = refl
hex_row-shown (c ∷ s) h =
    ground (arith, h, hex_pairs-shown s, hex_digit-shows (c / 16), hex_digit-shows (c % 16))

to_hex-shown : (s : Bytes) (n : ℕ) → all_bytes s ≡ true → all_shown (to_hex s n) ≡ true
unfolding to_hex
to_hex-shown s n h =
    all_shown-append (hex_row (take (min (length s) n) s))
      (truncation_note (length s) (min (length s) n))
      (hex_row-shown (take (min (length s) n) s) (all_bytes-take (min (length s) n) s h))
      (truncation_note-shown (length s) (min (length s) n))

render_text-shown : (s : Bytes) (n : ℕ) → all_shown (render_text s n) ≡ true
unfolding render_text
render_text-shown s n =
    all_shown-append (escape_control_characters (take (min (length s) n) s))
      (truncation_note (length s) (min (length s) n))
      (escape_control_characters-shown (take (min (length s) n) s))
      (truncation_note-shown (length s) (min (length s) n))

render_decoded-shown : (s : Bytes) (n : ℕ) → all_shown (render_decoded s n) ≡ true
unfolding render_decoded all_shown
render_decoded-shown s n =
    all_shown-append (escape_control_characters (take (min (length s) (n * 4)) s)) _
      (escape_control_characters-shown (take (min (length s) (n * 4)) s))
      (if_both (λ t. all_shown t ≡ true) (ltb (min (length s) (n * 4)) (length s)) _ _ (λ cut. refl)
        (λ whole. refl))

-- Whatever bytes a payload holds, in every format, and whatever text protobuf prints of it: what
-- `renderPayload` makes of it has no control character, so neither a line break nor a terminal escape.
pub render_payload-shown :
    (printer : Printer) (payload : Bytes) (format : PayloadFormat) (max_bytes : ℕ)
    → all_bytes payload ≡ true
    → all_shown (render_payload printer payload format max_bytes) ≡ true
unfolding render_payload all_shown
render_payload-shown printer [] format max_bytes h = refl
render_payload-shown printer (c ∷ payload) PayloadFormat.hex max_bytes h =
    to_hex-shown (c ∷ payload) max_bytes h
render_payload-shown printer (c ∷ payload) PayloadFormat.auto max_bytes h =
    if_both (λ s. all_shown s ≡ true) (not (render_packed_any printer (c ∷ payload) == [])) _ _
      (λ packed. render_decoded-shown (render_packed_any printer (c ∷ payload)) max_bytes)
      λ unpacked.
        if_both (λ s. all_shown s ≡ true) (not (looks_like_text (c ∷ payload))) _ _
          (λ binary. to_hex-shown (c ∷ payload) max_bytes h)
          (λ plain. render_text-shown (c ∷ payload) max_bytes)
render_payload-shown printer (c ∷ payload) PayloadFormat.text max_bytes h =
    render_text-shown (c ∷ payload) max_bytes
render_payload-shown printer (c ∷ payload) PayloadFormat.raw max_bytes h =
    render_text-shown (c ∷ payload) max_bytes
