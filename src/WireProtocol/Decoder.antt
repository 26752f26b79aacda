-- ===== src/WireProtocol/Decoder.antt =====
-- node/src/wire-protocol.ts: FrameDecoder, its buffer and its loop.
pub mod Loop
pub mod Feed
pub mod Streams
pub mod Chunks
pub mod Failure
use coc.Prelude.{
  ℕ, zero, suc, ◌∷◌, [], none, some, ◌*◌, List, Option, if◌then◌else◌, ◌/◌, ◌++◌, length, ◌+◌, ltb,
  take, drop, ◌-◌, min, max,
}
use coc.WireProtocol.{
  WireFrame, DecodeError, header_size, decode_frame, incomplete, complete, invalid,
}

-- `used` is the number of buffered bytes, at the front of `buffer`.
pub record FrameDecoder : Type 0 where
  pub buffer : List ℕ
  pub used : ℕ
  pub max_buffer_size : ℕ

unfoldable pub new_decoder : ℕ → FrameDecoder
new_decoder max_buffer_size = record { buffer = []; used = 0; max_buffer_size = max_buffer_size }

-- `new Uint8Array(n)`
unfoldable pub zeros : ℕ → List ℕ
zeros zero = []
zeros (suc n) = 0 ∷ zeros n

-- `a.set(chunk, at)`
unfoldable pub set_at : ℕ → List ℕ → List ℕ → List ℕ
set_at at chunk buf = take at buf ++ chunk ++ drop (at + length chunk) buf

-- `buf.copyWithin(0, offset, used)`
unfoldable pub copy_to_front : ℕ → ℕ → List ℕ → List ℕ
copy_to_front offset used buf = take (used - offset) (drop offset buf) ++ drop (used - offset) buf

-- The buffer with room for `needed` bytes.
unfoldable pub grow : ℕ → FrameDecoder → List ℕ
grow needed dec =
    let new_cap = min (max (max needed (length dec.buffer * 2)) 4096) dec.max_buffer_size in
    if ltb (length dec.buffer) needed
    then set_at 0 (take dec.used dec.buffer) (zeros new_cap)
    else dec.buffer

-- What the loop ends with: the frames, the offset, and what decodeFrame threw.
pub record Drained : Type 0 where
  pub frames : List WireFrame
  pub offset : ℕ
  pub failure : Option DecodeError

pub push_front : WireFrame → Drained → Drained
push_front frame rest = record {
  frames = frame ∷ rest.frames;
  offset = rest.offset;
  failure = rest.failure;
}

-- The loop of feed over the first `used` bytes of `buf`, on fuel.
unfoldable pub drain : ℕ → List ℕ → ℕ → ℕ → Drained
drain zero buf used offset = record { frames = []; offset = offset; failure = none }
drain (suc fuel) buf used offset =
    if ltb used (offset + header_size)
    then record { frames = []; offset = offset; failure = none }
    else elim (decode_frame (take (used - offset) (drop offset buf))) [
      | incomplete ↦ record { frames = []; offset = offset; failure = none }
      | invalid err ↦ record { frames = []; offset = offset; failure = some err }
      | complete frame bytes_consumed ↦
          push_front frame (drain fuel buf used (offset + bytes_consumed))
    ]

-- The unconsumed bytes moved to the front.
unfoldable pub compact : ℕ → FrameDecoder → FrameDecoder
compact offset dec =
    if ltb 0 offset
    then record {
      buffer = copy_to_front offset dec.used dec.buffer;
      used = dec.used - offset;
      max_buffer_size = dec.max_buffer_size;
    }
    else dec

abbrev pub shrink_threshold : ℕ
shrink_threshold = 65_536

-- `used < length / 4` is a division of floats.
pub shrink : FrameDecoder → FrameDecoder
shrink dec =
    let shrunk_cap = max (dec.used * 2) shrink_threshold in
    if ltb shrink_threshold (length dec.buffer)
    then if ltb (dec.used * 4) (length dec.buffer)
      then if ltb shrunk_cap (length dec.buffer)
        then record {
          buffer = set_at 0 (take dec.used dec.buffer) (zeros shrunk_cap);
          used = dec.used;
          max_buffer_size = dec.max_buffer_size;
        }
        else dec
      else dec
    else dec

-- What feed returns or throws.
pub data Fed : Type 0 where
  fed : List WireFrame → Fed
  bad_frame : DecodeError → Fed
  buffer_overflow : Fed

-- The part after the loop.
unfoldable pub finish_feed : FrameDecoder → Drained → FrameDecoder × Fed
finish_feed dec drained =
    let rest = compact drained.offset dec in
    elim drained.failure [
      | some err ↦ (rest, bad_frame err)
      | none ↦ (shrink rest, fed drained.frames)
    ]

-- The decoder with the chunk written behind its bytes.
unfoldable pub append_data : List ℕ → FrameDecoder → FrameDecoder
append_data chunk dec = record {
  buffer = set_at dec.used chunk (grow (dec.used + length chunk) dec);
  used = dec.used + length chunk;
  max_buffer_size = dec.max_buffer_size;
}

unfoldable pub reset : FrameDecoder → FrameDecoder
reset dec = new_decoder dec.max_buffer_size

unfoldable pub feed : List ℕ → FrameDecoder → FrameDecoder × Fed
feed chunk dec =
    let needed = dec.used + length chunk in
    let filled = append_data chunk dec in
    if ltb dec.max_buffer_size needed
    then (reset dec, buffer_overflow)
    else finish_feed filled (drain (suc needed) filled.buffer needed 0)

pub buffered_bytes : FrameDecoder → ℕ
buffered_bytes dec = dec.used
