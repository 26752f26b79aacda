-- ===== src/WireProtocol/Frames.antt =====
-- node/src/wire-protocol.ts: encodeFrame and decodeFrame against each other.
use coc.Prelude.{
  ◌≡◌, ℕ, some, List, arith, ◌++◌, ◌≤◌, length, drop, refl, ◌+◌, if◌then◌else◌, ltb, take, false,
  ◌<◌, true,
}
use coc.WireProtocol.{
  MessageType, type_of, read_u16, header, read_u32, decode_frame, code, u16_bytes, decode_payload,
  byte_at, u32_bytes, wire_magic, max_payload_size, header_size, incomplete, complete,
}

type_of-code : (t : MessageType) → type_of (code t) ≡ some t
unfolding type_of code
type_of-code t = ground arith

read_u16-header :
    (t : MessageType) (n : ℕ) (rest : List ℕ) → read_u16 0 (header t n ++ rest) ≡ wire_magic
unfolding read_u16 header u16_bytes byte_at
read_u16-header t n rest = refl

byte_at-header : (t : MessageType) (n : ℕ) (rest : List ℕ) → byte_at 2 (header t n ++ rest) ≡ code t
unfolding header u16_bytes byte_at
byte_at-header t n rest = refl

read_u32-header :
    (t : MessageType) (n : ℕ) (rest : List ℕ)
    → n ≤ max_payload_size
    → read_u32 3 (header t n ++ rest) ≡ n
unfolding read_u32 header u16_bytes u32_bytes byte_at
read_u32-header t n rest h = omega arith

pub length-header :
    (t : MessageType) (n : ℕ) (rest : List ℕ)
    → length (header t n ++ rest) ≡ header_size + length rest
unfolding header u16_bytes u32_bytes
length-header t n rest = omega arith

pub length-of_header : (t : MessageType) (n : ℕ) → length (header t n) ≡ header_size
unfolding header u16_bytes u32_bytes
length-of_header t n = omega arith

pub less : (a b : ℕ) → a < b → ltb a b ≡ true
less a b h = ground arith

drop-header :
    (t : MessageType) (n : ℕ) (rest : List ℕ) → drop header_size (header t n ++ rest) ≡ rest
unfolding header u16_bytes u32_bytes
drop-header t n rest = refl

pub not_shorter : (k n : ℕ) → ltb (n + k) n ≡ false
not_shorter k n = ground arith

pub not_greater : (n m : ℕ) → n ≤ m → ltb m n ≡ false
not_greater n m h = ground arith

ltb-add : (m k n : ℕ) → ltb (m + k) (m + n) ≡ ltb k n
ltb-add m k n = ground arith

-- What a header with some bytes after it is decoded to: nothing yet, or the frame.
pub decode_frame-header :
    (t : MessageType) (n : ℕ) (rest : List ℕ)
    → n ≤ max_payload_size
    → decode_frame (header t n ++ rest) ≡ (
        if ltb (length rest) n
        then incomplete
        else complete (record { type = t; payload = take n rest }) (header_size + n))
unfolding decode_frame decode_payload
decode_frame-header t n rest h =
    rw
      (
        length-header t n rest,
        not_shorter (length rest) header_size,
        read_u16-header t n rest,
        byte_at-header t n rest,
        type_of-code t,
        read_u32-header t n rest h,
        not_greater n max_payload_size h,
        length-header t n rest,
        ltb-add header_size (length rest) n,
        drop-header t n rest,
      )
      refl
