-- ===== src/Tests/Tools.antt =====
-- Command lines and packed payloads.
use wisp.Prelude.{
  ◌++◌, none, true, refl, ◌≡◌, ℕ, false, some, List, [], ◌∷◌, Bytes, codes, arith, length,
}
use wisp.Wire.{encode_header}
use wisp.Recording.{magic}
use wisp.Tests.Fixtures.{codec, codec-IsFaithful, subscribe_news, bulletin}
use wisp.Tool.Replay.{Session, run_replay, is_left_out}
use wisp.Tool.Replayed.{
  Captured, captured, AllFit, no_records, one_more, published, left_out, at_end,
  run_replay-captured,
}
use wisp.AnyFrame.{type_name_of, encode_payload}
use wisp.AnyFrame.RoundTrip.{type_name_of-encode_payload}
use wisp.Tool.Payload.{Printer, render_payload, escape_control_characters}
use wisp.Tool.Shown.{all_bytes, all_shown, render_payload-shown}
use wisp.Tool.Options.{PayloadFormat, Doubles, Options, defaults, parse_arguments}
use wisp.Tool.Reasons.{words, IsJustified}
use wisp.Tool.Parsed.{parse_arguments-IsJustified}

-- Whole numbers in the place of `double`.
abbrev wholes : Doubles ℕ
wholes = record { stod = λ s. some (length s); is_negative = λ d. false; one = 1 }

abbrev command_line : List Bytes
command_line =
    codes "sub" ∷ codes "news" ∷ codes "--origin" ∷ codes "local" ∷ codes "-n" ∷ codes "x" ∷ []

parse_arguments-IsJustified_example :
    IsJustified wholes
      (words false command_line)
      command_line
      (parse_arguments wholes (codes "tcp://h:1") command_line)
parse_arguments-IsJustified_example =
    parse_arguments-IsJustified wholes (codes "tcp://h:1") command_line

type_name_of-encode_payload_example :
    type_name_of (encode_payload (codes "broker.SystemStats") (codes "hi"))
    ≡ (codes "broker.SystemStats", codes "hi")
type_name_of-encode_payload_example =
    type_name_of-encode_payload (codes "broker.SystemStats") (codes "hi") (omega arith)
      (omega arith)

-- A terminal escape sequence.
abbrev red : Bytes
red = 27 ∷ codes "[31m"

-- A registry that knows no type.
abbrev no_printer : Printer
no_printer type_name value_bytes = none

red_bytes : all_bytes red ≡ true
unfolding all_bytes
red_bytes = refl

render_payload-shown_example :
    all_shown (render_payload no_printer red PayloadFormat.text 64) ≡ true
render_payload-shown_example = render_payload-shown no_printer red PayloadFormat.text 64 red_bytes

escaped_test : escape_control_characters red ≡ codes "\\x1b[31m"
unfolding escape_control_characters
escaped_test = refl

abbrev plain : Options ℕ
plain = defaults wholes

-- A worker that takes and confirms everything.
abbrev willing : Session
willing = record { takes = λ sent env. true; confirms = λ sent. true }

abbrev a_subscription : Captured
a_subscription = record { offset = 0; envelope = record { header = subscribe_news; payload = [] } }

abbrev a_bulletin : Captured
a_bulletin = record { offset = 1500; envelope = record { header = bulletin; payload = codes "hi" } }

abbrev capture : List Captured
capture = a_subscription ∷ a_bulletin ∷ []

capture-AllFit : AllFit codec capture
unfolding encode_header
capture-AllFit =
    one_more (record { header = omega arith; payload = omega arith }) (omega arith)
      (one_more (record { header = omega arith; payload = omega arith }) (omega arith) no_records)

-- The subscription stays out, and the capture was cut off behind the bulletin.
run_replay-captured_example :
    run_replay codec plain willing (magic ++ (captured codec capture ++ codes "cut"))
    ≡ some (
        at_end codec plain willing
          (codes "cut")
          (published codec plain willing capture)
          (left_out codec plain willing capture))
run_replay-captured_example =
    run_replay-captured codec plain willing codec-IsFaithful (λ sent env. refl) (codes "cut")
      (omega arith) capture capture-AllFit

left_out_test : left_out codec plain willing capture ≡ 1
unfolding left_out is_left_out wisp.Keys.is_reserved_key
left_out_test = refl
