-- ===== src/WireProtocol.antt =====
-- node/src/wire-protocol.ts: frames of magic, type, length and payload. Bytes are numbers.
pub mod Frames
pub mod Decoder
pub mod Examples
use coc.Prelude.{
  ℕ, zero, suc, ◌∷◌, [], none, some, ◌*◌, List, Option, if◌then◌else◌, ◌/◌, ◌++◌, length, ◌+◌, ◌==◌,
  ◌%◌, ltb, take, not, nat_eq, drop,
}

abbrev pub wire_magic : ℕ
wire_magic = 0xC0C1

abbrev pub header_size : ℕ
header_size = 7

abbrev pub max_payload_size : ℕ
max_payload_size = 16 * 1024 * 1024

pub data MessageType : Type 0 where
  handshake handshake_ack block transaction block_request block_response snapshot : MessageType
  snapshot_request bft_prepare bft_commit find_node find_node_response ping pong : MessageType

pub code : MessageType → ℕ
code handshake = 0x01
code handshake_ack = 0x02
code block = 0x10
code transaction = 0x11
code block_request = 0x12
code block_response = 0x13
code snapshot = 0x20
code snapshot_request = 0x21
code bft_prepare = 0x30
code bft_commit = 0x31
code find_node = 0x40
code find_node_response = 0x41
code ping = 0xF0
code pong = 0xF1

abbrev pub valid_message_types : List MessageType
valid_message_types =
    handshake ∷ handshake_ack ∷ block ∷ transaction ∷ block_request ∷ block_response ∷ snapshot
    ∷ snapshot_request ∷ bft_prepare ∷ bft_commit ∷ find_node ∷ find_node_response ∷ ping ∷ pong
    ∷ []

type_among : ℕ → List MessageType → Option MessageType
type_among raw [] = none
type_among raw (t ∷ ts) = let rest = type_among raw ts in if code t == raw then some t else rest

-- The type with a code, `none` where VALID_MESSAGE_TYPES does not have it.
pub type_of : ℕ → Option MessageType
unfolding type_among
type_of raw = type_among raw valid_message_types

pub record WireFrame : Type 0 where
  pub type : MessageType
  pub payload : List ℕ

-- `setUint16` and `setUint32`, big-endian
unfoldable pub u16_bytes : ℕ → List ℕ
u16_bytes n = (n / 256 % 256) ∷ (n % 256) ∷ []

pub u32_bytes : ℕ → List ℕ
u32_bytes n = (n / 16_777_216 % 256) ∷ (n / 65_536 % 256) ∷ (n / 256 % 256) ∷ (n % 256) ∷ []

unfoldable pub header : MessageType → ℕ → List ℕ
header type payload_len = u16_bytes wire_magic ++ code type ∷ u32_bytes payload_len

-- `none` is the thrown error on a payload that is too long.
pub encode_frame : WireFrame → Option (List ℕ)
encode_frame frame =
    let payload_len = length frame.payload in
    if ltb max_payload_size payload_len
    then none
    else some (header frame.type payload_len ++ frame.payload)

-- `buf[i]`, in range.
pub byte_at : ℕ → List ℕ → ℕ
byte_at i [] = 0
byte_at zero (b ∷ buf) = b
byte_at (suc i) (b ∷ buf) = byte_at i buf

-- `getUint16` and `getUint32`, big-endian
pub read_u16 : ℕ → List ℕ → ℕ
read_u16 i buf = byte_at i buf * 256 + byte_at (i + 1) buf

pub read_u32 : ℕ → List ℕ → ℕ
read_u32 i buf =
    byte_at i buf * 16_777_216
    + byte_at (i + 1) buf * 65_536
    + byte_at (i + 2) buf * 256
    + byte_at (i + 3) buf

pub data DecodeError : Type 0 where
  invalid_magic unknown_type payload_too_long : DecodeError

-- null, a frame with the bytes consumed, or a thrown error
pub data Decoded : Type 0 where
  incomplete : Decoded
  complete : WireFrame → ℕ → Decoded
  invalid : DecodeError → Decoded

-- The part after the type has been read.
pub decode_payload : MessageType → List ℕ → Decoded
decode_payload type buf =
    let payload_len = read_u32 3 buf in
    let total_len = header_size + payload_len in
    if ltb max_payload_size payload_len
    then invalid payload_too_long
    else if ltb (length buf) total_len
    then incomplete
    else complete (record { type = type; payload = take payload_len (drop header_size buf) })
        total_len

pub decode_frame : List ℕ → Decoded
decode_frame buf =
    if ltb (length buf) header_size
    then incomplete
    else if not (read_u16 0 buf == wire_magic)
    then invalid invalid_magic
    else elim (type_of (byte_at 2 buf)) [
      | none ↦ invalid unknown_type
      | some type ↦ decode_payload type buf
    ]
