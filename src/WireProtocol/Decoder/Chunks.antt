-- ===== src/WireProtocol/Decoder/Chunks.antt =====
-- node/src/wire-protocol.ts: FrameDecoder fed with the chunks of a stream, one after the other.
use coc.Prelude.{
  ◌≡◌, ℕ, suc, ◌∷◌, [], none, some, List, Option, arith, ◌++◌, ◌≤◌, ◌<◌, length, refl, ◌+◌, All,
  sym, ap, ◌∙◌, append_assoc, Option-cases, length-append, length-take-le, subst, length-take, inl,
  inr,
}
use coc.WireProtocol.{WireFrame, header_size, max_payload_size, encode_frame}
use coc.WireProtocol.Decoder.{FrameDecoder, new_decoder, feed, fed, bad_frame, buffer_overflow}
use coc.WireProtocol.Decoder.Loop.{parse}
use coc.WireProtocol.Decoder.Feed.{IsValid, Agrees, unread, outcome, feed-parse}
use coc.WireProtocol.Decoder.Streams.{
  IsSendable, encoded, stream, Progress, parse-stream, length-encoded, encode_frame-some,
}

-- The encodings of some frames in a row, `none` where a payload is too long.
unfoldable pub encode_all : List WireFrame → Option (List ℕ)
encode_all [] = some []
encode_all (frame ∷ frames) =
    let rest = encode_all frames in
    elim (encode_frame frame) [
      | none ↦ none
      | some first ↦ elim rest [ none ↦ none | some behind ↦ some (first ++ behind) ]
    ]

abbrev pub glue : List (List ℕ) → List ℕ
glue [] = []
glue (chunk ∷ chunks) = chunk ++ glue chunks

abbrev pub put_before : List WireFrame → Option (List WireFrame) → Option (List WireFrame)
put_before frames none = none
put_before frames (some more) = some (frames ++ more)

-- The frames of one call of feed after another, `none` where a call throws.
unfoldable pub feed_all : List (List ℕ) → FrameDecoder → Option (List WireFrame)
feed_all [] dec = some []
feed_all (chunk ∷ chunks) dec =
    let more = feed_all chunks (feed chunk dec).0 in
    elim ((feed chunk dec).1) [
      | fed frames ↦ put_before frames more
      | bad_frame err ↦ none
      | buffer_overflow ↦ none
    ]

-- A chunk for which there is room behind an unfinished frame.
unfoldable pub HasRoom : ℕ → List ℕ → Type 0
HasRoom max_buffer_size chunk = length chunk + header_size + max_payload_size ≤ max_buffer_size

encode_all-stream :
    (frames : List WireFrame) (bytes : List ℕ)
    → encode_all frames ≡ some bytes
    → All IsSendable frames × (stream frames ≡ bytes)
unfolding encode_all stream
encode_all-stream [] bytes h = (tt, ground arith)
encode_all-stream (frame ∷ frames) bytes h = elim (Option-cases (encode_frame frame)) [
  | inl refused ↦ absurd (ground arith)
  | inr (first, e1) ↦ elim (Option-cases (encode_all frames)) [
    | inl refused ↦ absurd (ground arith)
    | inr (behind, e2) ↦
        let (fits, front) = encode_frame-some frame first e1 in
        let (all, rest) = encode_all-stream frames behind e2 in
        let joined : first ++ behind ≡ bytes = ground arith in
        ((fits, all), rw (front, rest) joined)
  ]
]

stream-nil : (frames : List WireFrame) → stream frames ≡ [] → frames ≡ []
unfolding stream
stream-nil [] h = refl
stream-nil (frame ∷ frames) h = absurd (
    omega (arith, ap length h, length-append (encoded frame) (stream frames), length-encoded frame))

-- The state between two chunks: the bytes that are buffered and those that come are the stream.
pub record Between (dec : FrameDecoder) (chunks : List (List ℕ)) (frames : List WireFrame)
    : Type 0 where
  pub valid : IsValid dec
  pub sendable : All IsSendable frames
  pub ahead : unread dec ++ glue chunks ≡ stream frames
  pub small : dec.used < header_size + max_payload_size
  pub last : glue chunks ≡ [] → frames ≡ []

-- After a chunk the state is again one between two chunks, and feed has returned frames of the stream.
feed-Between :
    (chunk : List ℕ) (chunks : List (List ℕ)) (dec : FrameDecoder) (frames : List WireFrame)
    → Between dec (chunk ∷ chunks) frames
    → HasRoom dec.max_buffer_size chunk
    → (now : List WireFrame) × (todo : List WireFrame) × ((frames ≡ now ++ todo)
        × (((feed chunk dec).1 ≡ fed now)
            × (((feed chunk dec).0.max_buffer_size ≡ dec.max_buffer_size)
                × Between (feed chunk dec).0 chunks todo)))
unfolding HasRoom Agrees outcome unread IsValid
feed-Between chunk chunks dec frames h k =
    let before = unread dec in
    let held = length-take-le dec.used dec.buffer in
    let seen = length-append before chunk in
    let fuel = suc (dec.used + length chunk) in
    let small = h.small in
    let (valid, (rest, (bound, result))) = feed-parse chunk dec h.valid (omega (arith, k, small)) in
    let p = parse fuel (before ++ chunk) in
    let g : Progress frames (glue chunks) p =
      parse-stream fuel frames (before ++ chunk) (glue chunks) h.sendable
        (append_assoc before chunk (glue chunks) ∙ h.ahead) (omega (arith, held, seen)) in
    let next = (feed chunk dec).0 in
    let used = length-take next.used next.buffer valid.0 in
    let returned : outcome p ≡ fed p.frames = rw (g.sound) refl in
    (
      p.frames,
      g.todo,
      (
        g.split,
        (
          result ∙ returned,
          (
            bound,
            record {
              valid = valid;
              sendable = g.sendable;
              ahead = ap (λ bytes. bytes ++ glue chunks) rest ∙ g.ahead;
              small = omega (arith, used, ap length rest, g.small);
              last = g.last;
            },
          ),
        ),
      ),
    )

feed_all-Between :
    (chunks : List (List ℕ)) (dec : FrameDecoder) (frames : List WireFrame)
    → Between dec chunks frames
    → All (HasRoom dec.max_buffer_size) chunks
    → feed_all chunks dec ≡ some frames
unfolding feed_all
feed_all-Between [] dec frames h k = ap some (sym (h.last refl))
feed_all-Between (chunk ∷ chunks) dec frames h k =
    let (now, todo, (split, (returned, (bound, after)))) =
      feed-Between chunk chunks dec frames h k.0 in
    let next = (feed chunk dec).0 in
    let room = subst (λ n. All (HasRoom n) chunks) (sym bound) k.1 in
    rw (feed_all, returned, feed_all-Between chunks next todo after room) (ap some (sym split))

-- A stream of encoded frames, cut into chunks in any way, is decoded to exactly these frames, where every chunk
-- leaves room for an unfinished frame in the buffer.
pub feed_all-encode_all :
    (frames : List WireFrame) (chunks : List (List ℕ)) (max_buffer_size : ℕ)
    → encode_all frames ≡ some (glue chunks)
    → All (HasRoom max_buffer_size) chunks
    → feed_all chunks (new_decoder max_buffer_size) ≡ some frames
unfolding new_decoder IsValid unread
feed_all-encode_all frames chunks max_buffer_size h k =
    let (sendable, same) = encode_all-stream frames (glue chunks) h in
    feed_all-Between chunks (new_decoder max_buffer_size) frames
      record {
        valid = (omega arith, omega arith);
        sendable = sendable;
        ahead = sym same;
        small = omega arith;
        last = λ none_left. stream-nil frames (same ∙ none_left);
      }
      k
