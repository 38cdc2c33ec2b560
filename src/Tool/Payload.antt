-- ===== src/Tool/Payload.antt =====
-- cli/payloadformat.cpp: how a payload is printed.
use wisp.Prelude.{
  ℕ, ◌+◌, ◌-◌, ◌*◌, ◌/◌, ◌%◌, Bool, true, not, ◌&&◌, ◌||◌, Option, none, some, [], ◌∷◌, ◌++◌, ◌==◌,
  nat_eq, bytes_eq, ltb, leb, Bytes, codes, if◌then◌else◌, length, take, min,
}
use wisp.Beacon.{to_string}
use wisp.AnyFrame.{type_name_of}
use wisp.Tool.Options.{PayloadFormat}

unfoldable pub is_displayable : ℕ → Bool
is_displayable c = leb 32 c || (c == 9 || (c == 10 || c == 13))

-- `HEX_DIGITS[d]`
unfoldable pub hex_digit : ℕ → ℕ
hex_digit d = if ltb d 10 then b'0' + d else b'a' + (d - 10)

unfoldable pub escaped : ℕ → Bytes
unfolding hex_digit
escaped c =
    if c == 10
    then codes "\\n"
    else if c == 13
    then codes "\\r"
    else if c == 9
    then codes "\\t"
    else if ltb c 32 || c == 127
    then codes "\\x" ++ (hex_digit (c / 16) ∷ hex_digit (c % 16) ∷ [])
    else c ∷ []

unfoldable pub escape_control_characters : Bytes → Bytes
unfolding escaped
escape_control_characters [] = []
escape_control_characters (c ∷ text_) = escaped c ++ escape_control_characters text_

-- The character "…" in UTF-8.
abbrev pub ellipsis : Bytes
ellipsis = 226 ∷ 128 ∷ 166 ∷ []

unfoldable pub truncation_note : ℕ → ℕ → Bytes
truncation_note total shown =
    if leb total shown
    then []
    else codes " " ++ (ellipsis ++ (codes " (+" ++ (to_string (total - shown) ++ codes " bytes)")))

unfoldable pub looks_like_text : Bytes → Bool
unfolding is_displayable
looks_like_text [] = true
looks_like_text (c ∷ payload) = is_displayable c && looks_like_text payload

unfoldable pub hex_pairs : Bytes → Bytes
unfolding hex_digit
hex_pairs [] = []
hex_pairs (c ∷ bytes) = b' ' ∷ hex_digit (c / 16) ∷ hex_digit (c % 16) ∷ hex_pairs bytes

-- No space before the first.
unfoldable pub hex_row : Bytes → Bytes
unfolding hex_digit hex_pairs
hex_row [] = []
hex_row (c ∷ bytes) = hex_digit (c / 16) ∷ hex_digit (c % 16) ∷ hex_pairs bytes

unfoldable pub to_hex : Bytes → ℕ → Bytes
unfolding hex_row truncation_note
to_hex bytes max_bytes =
    let shown = min (length bytes) max_bytes in
    hex_row (take shown bytes) ++ truncation_note (length bytes) shown

-- Protobuf's registry and text format: the text of a body of this type, if the type is known and the
-- body parses.
abbrev pub Printer : Type 0
Printer = Bytes → Bytes → Option Bytes

unfoldable pub render_packed_any : Printer → Bytes → Bytes
render_packed_any printer payload =
    let (type_name, value_bytes) = type_name_of payload in
    if type_name == [] then [] else elim (printer type_name value_bytes) [
      | none ↦ []
      | some printed ↦ type_name ++ (codes " { " ++ (printed ++ codes "}"))
    ]

-- Text, in the format that asks for it and in the one that found nothing better.
unfoldable pub render_text : Bytes → ℕ → Bytes
unfolding escape_control_characters truncation_note
render_text payload max_bytes =
    let shown = min (length payload) max_bytes in
    escape_control_characters (take shown payload) ++ truncation_note (length payload) shown

-- What a decoded message is cut to: four times the bytes.
unfoldable pub render_decoded : Bytes → ℕ → Bytes
unfolding escape_control_characters
render_decoded decoded max_bytes =
    let shown = min (length decoded) (max_bytes * 4) in
    escape_control_characters (take shown decoded)
    ++ (if ltb shown (length decoded) then codes " " ++ ellipsis else [])

unfoldable pub render_payload : Printer → Bytes → PayloadFormat → ℕ → Bytes
unfolding render_packed_any render_decoded looks_like_text to_hex render_text
render_payload printer [] format max_bytes = codes "(empty)"
render_payload printer (c ∷ payload) PayloadFormat.hex max_bytes = to_hex (c ∷ payload) max_bytes
render_payload printer (c ∷ payload) PayloadFormat.auto max_bytes =
    let decoded = render_packed_any printer (c ∷ payload) in
    if not (decoded == [])
    then render_decoded decoded max_bytes
    else if not (looks_like_text (c ∷ payload))
    then to_hex (c ∷ payload) max_bytes
    else render_text (c ∷ payload) max_bytes
render_payload printer (c ∷ payload) PayloadFormat.text max_bytes =
    render_text (c ∷ payload) max_bytes
render_payload printer (c ∷ payload) PayloadFormat.raw max_bytes =
    render_text (c ∷ payload) max_bytes
