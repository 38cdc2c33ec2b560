-- ===== src/Wire.antt =====
-- common/wireframe.h: the routing header, the envelope, control messages, and the header frame
-- with its format byte. The header's own encoding is protobuf's generated code: a parameter.
use wisp.Prelude.{ℕ, ◌≡◌, Option, none, some, [], ◌∷◌, ◌==◌, nat_eq, Bytes, if◌then◌else◌}

-- common/proto/broker.proto, MessageHeader.
pub record Header : Type 0 where
  pub handler_key : Bytes
  pub sender_id : Bytes
  pub topic : Bytes
  pub origin_broker_id : Bytes
  pub message_uuid : Bytes
  pub reply_topic : Bytes

pub record Envelope : Type 0 where
  pub header : Header
  pub payload : Bytes

pub record WireMessage : Type 0 where
  pub header_bytes : Bytes
  pub payload : Bytes

abbrev pub make_control_header : Bytes → Bytes → Bytes → Header
make_control_header handler_key sender_id topic = record {
  handler_key = handler_key;
  sender_id = sender_id;
  topic = topic;
  origin_broker_id = [];
  message_uuid = [];
  reply_topic = [];
}

abbrev pub make_control : Bytes → Bytes → Bytes → Envelope
make_control handler_key sender_id topic = record {
  header = make_control_header handler_key sender_id topic;
  payload = [];
}

-- `SerializeWithCachedSizesToArray` and `ParseFromArray` of the generated MessageHeader.
pub record Codec : Type 0 where
  pub serialize : Header → Bytes
  pub parse : Bytes → Option Header

-- Protobuf reads back what it wrote.
pub record IsFaithful (codec : Codec) : Type 0 where
  pub parses : (h : Header) → codec.parse (codec.serialize h) ≡ some h

-- `Format::Protobuf`
abbrev pub format_protobuf : ℕ
format_protobuf = 1

unfoldable pub encode_header : Codec → Header → Bytes
encode_header codec h = format_protobuf ∷ codec.serialize h

-- `none`: no format byte, an unknown one, or bytes that do not parse.
unfoldable pub decode_header_frame : Codec → Bytes → Option Header
decode_header_frame codec [] = none
decode_header_frame codec (tag ∷ body) = if tag == format_protobuf then codec.parse body else none

pub decode-encode_header :
    (codec : Codec)
    → IsFaithful codec
    → (h : Header) → decode_header_frame codec (encode_header codec h) ≡ some h
unfolding decode_header_frame encode_header
decode-encode_header codec f h = f.parses h
