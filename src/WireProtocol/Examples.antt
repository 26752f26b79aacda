-- ===== src/WireProtocol/Examples.antt =====
-- Small runs of the frame decoder, and the theorems on concrete streams.
use coc.Prelude.{◌≡◌, ℕ, ◌∷◌, [], some, List, refl, arith, ◌*◌}
use coc.WireProtocol.{
  WireFrame, ping, block, encode_frame, decode_frame, unknown_type, header, u16_bytes, u32_bytes,
  code, read_u16, byte_at, type_of, type_among,
}
use coc.WireProtocol.Decoder.{
  FrameDecoder, new_decoder, feed, bad_frame, append_data, grow, set_at, zeros, drain, finish_feed,
  compact, copy_to_front,
}
use coc.WireProtocol.Decoder.Loop.{parse}
use coc.WireProtocol.Decoder.Feed.{Agrees, unread, feed-parse, IsValid}
use coc.WireProtocol.Decoder.Chunks.{encode_all, feed_all, feed_all-encode_all, HasRoom, glue}
use coc.WireProtocol.Decoder.Failure.{Refuses, feed_again-bad_frame}

abbrev ping_frame : WireFrame
ping_frame = record { type = ping; payload = 1 ∷ 2 ∷ [] }

abbrev block_frame : WireFrame
block_frame = record { type = block; payload = 9 ∷ [] }

abbrev ping_bytes : List ℕ
ping_bytes = 192 ∷ 193 ∷ 0xF0 ∷ 0 ∷ 0 ∷ 0 ∷ 2 ∷ 1 ∷ 2 ∷ []

abbrev two_frames : List WireFrame
two_frames = ping_frame ∷ block_frame ∷ []

-- The second chunk ends the first frame and begins the second one.
abbrev three_chunks : List (List ℕ)
three_chunks =
    (192 ∷ 193 ∷ 0xF0 ∷ [])
    ∷ (0 ∷ 0 ∷ 0 ∷ 2 ∷ 1 ∷ 2 ∷ 192 ∷ [])
    ∷ (193 ∷ 0x10 ∷ 0 ∷ 0 ∷ 0 ∷ 1 ∷ 9 ∷ [])
    ∷ []

abbrev default_size : ℕ
default_size = 32 * 1024 * 1024

ping_encoded : encode_frame ping_frame ≡ some ping_bytes
unfolding encode_frame header u16_bytes u32_bytes code
ping_encoded = refl

two_encoded : encode_all two_frames ≡ some (glue three_chunks)
unfolding encode_all encode_frame header u16_bytes u32_bytes code
two_encoded = refl

feed_all-encode_all_example : feed_all three_chunks (new_decoder default_size) ≡ some two_frames
unfolding HasRoom
feed_all-encode_all_example =
    feed_all-encode_all two_frames three_chunks default_size two_encoded
      (omega arith, (omega arith, (omega arith, tt)))

-- A buffer of sixteen bytes with three of them in use
abbrev small_decoder : FrameDecoder
small_decoder = record { buffer = 192 ∷ 193 ∷ 0x99 ∷ 0 ∷ []; used = 3; max_buffer_size = 16 }

small_decoder-IsValid : IsValid small_decoder
unfolding IsValid
small_decoder-IsValid = (omega arith, omega arith)

feed-parse_example :
    Agrees small_decoder (feed (0 ∷ 0 ∷ []) small_decoder) (parse 6 (192 ∷ 193 ∷ 0x99 ∷ 0 ∷ 0 ∷ []))
unfolding unread
feed-parse_example = feed-parse (0 ∷ 0 ∷ []) small_decoder small_decoder-IsValid (omega arith)

abbrev bad_chunk : List ℕ
bad_chunk = 0 ∷ 0 ∷ 0 ∷ 0 ∷ []

bad_chunk_refused : (feed bad_chunk small_decoder).1 ≡ bad_frame unknown_type
unfolding feed append_data grow set_at zeros drain finish_feed compact copy_to_front decode_frame
    read_u16 byte_at type_of type_among code
bad_chunk_refused = refl

feed_again-bad_frame_example :
    Refuses unknown_type (feed bad_chunk small_decoder).0 ((5 ∷ []) ∷ [] ∷ (6 ∷ 7 ∷ []) ∷ [])
feed_again-bad_frame_example =
    feed_again-bad_frame bad_chunk ((5 ∷ []) ∷ [] ∷ (6 ∷ 7 ∷ []) ∷ []) small_decoder unknown_type
      small_decoder-IsValid bad_chunk_refused
