-- ===== src/WireProtocol/Decoder/Streams.antt =====
-- node/src/wire-protocol.ts: FrameDecoder against encodeFrame, on a stream that arrives in chunks.
use coc.Prelude.{
  ◌≡◌, ℕ, zero, suc, ◌∷◌, [], none, List, arith, ◌++◌, ◌≤◌, ◌<◌, length, drop, take, refl, ◌+◌, ◌-◌,
  ltb, Bool-cases, inl, inr, All, sym, ap, ◌∙◌, append_assoc, length-append, take-append,
  take-append-le, length-take-le, drop-append-le, ltb→lt, take-append-ge, drop-append, length-drop,
  take-append-drop, some,
}
use coc.WireProtocol.{
  WireFrame, header, header_size, max_payload_size, decode_frame, incomplete, complete,
  encode_frame,
}
use coc.WireProtocol.Frames.{
  decode_frame-header, length-header, length-of_header, not_shorter, less,
}
use coc.WireProtocol.Decoder.Loop.{Parsed, parse, put_first, decode_frame-short, parse-short}

unfoldable pub IsSendable : WireFrame → Type 0
IsSendable frame = length frame.payload ≤ max_payload_size

unfoldable pub encoded : WireFrame → List ℕ
encoded frame = header frame.type (length frame.payload) ++ frame.payload

unfoldable pub stream : List WireFrame → List ℕ
stream [] = []
stream (frame ∷ frames) = encoded frame ++ stream frames

pub length-encoded :
    (frame : WireFrame) → length (encoded frame) ≡ header_size + length frame.payload
unfolding encoded
length-encoded frame = length-header frame.type (length frame.payload) frame.payload

-- An encoding with bytes behind it is decoded to the frame.
pub decode_frame-encoded :
    (frame : WireFrame) (more : List ℕ)
    → IsSendable frame
    → decode_frame (encoded frame ++ more) ≡ complete frame (length (encoded frame))
unfolding encoded IsSendable
decode_frame-encoded frame more h =
    let n = length frame.payload in
    rw
      (
        append_assoc (header frame.type n) frame.payload more,
        decode_frame-header frame.type n (frame.payload ++ more) h,
        length-append frame.payload more,
        not_shorter (length more) n,
        take-append n frame.payload more refl,
        length-header frame.type n frame.payload,
      )
      refl

pub encode_frame-some :
    (frame : WireFrame) (bytes : List ℕ)
    → encode_frame frame ≡ some bytes
    → IsSendable frame × (encoded frame ≡ bytes)
unfolding encode_frame IsSendable encoded
encode_frame-some frame bytes h = ground arith

-- A frame that encode_frame accepts is decoded from its encoding, whatever follows, and the bytes consumed are the
-- encoding's.
pub decode_frame-encode_frame :
    (frame : WireFrame) (bytes more : List ℕ)
    → encode_frame frame ≡ some bytes
    → decode_frame (bytes ++ more) ≡ complete frame (length bytes)
decode_frame-encode_frame frame bytes more h =
    let (fits, same) = encode_frame-some frame bytes h in
    rw (sym same) (decode_frame-encoded frame more fits)

-- A proper prefix of an encoding is not decoded yet.
decode_frame-prefix :
    (frame : WireFrame) (n : ℕ)
    → IsSendable frame
    → n < length (encoded frame)
    → decode_frame (take n (encoded frame)) ≡ incomplete
unfolding encoded IsSendable
decode_frame-prefix frame n h k =
    let total = length frame.payload in
    let cut = take n (header frame.type total ++ frame.payload) in
    let long = length-of_header frame.type total in
    let all = length-header frame.type total frame.payload in
    elim (Bool-cases (ltb n header_size)) [
      | inl short ↦ decode_frame-short cut (
          omega (
            arith,
            length-take-le n (header frame.type total ++ frame.payload),
            ltb→lt n header_size short,
          ))
      | inr longer ↦
          let part = take (n - length (header frame.type total)) frame.payload in
          let over : length (header frame.type total) ≤ n = ground arith in
          let missing : length part < total =
            omega (arith, length-take-le (n - length (header frame.type total)) frame.payload) in
          rw
            (
              take-append-ge n (header frame.type total) frame.payload over,
              decode_frame-header frame.type total part h,
              less (length part) total missing,
            )
            refl
    ]

-- What parsing makes of some first bytes of a stream, when the bytes of `later` are still to come.
pub record Progress (frames : List WireFrame) (later : List ℕ) (p : Parsed) : Type 0 where
  pub todo : List WireFrame
  pub split : frames ≡ p.frames ++ todo
  pub sendable : All IsSendable todo
  pub sound : p.failure ≡ none
  pub ahead : p.rest ++ later ≡ stream todo
  pub small : length p.rest < header_size + max_payload_size
  pub last : later ≡ [] → todo ≡ []

put_first-Progress :
    (frame : WireFrame) (frames : List WireFrame) (later : List ℕ) (p : Parsed)
    → Progress frames later p
    → Progress (frame ∷ frames) later (put_first frame p)
unfolding put_first
put_first-Progress frame frames later p g = record {
  todo = g.todo;
  split = ap (◌∷◌ frame) g.split;
  sendable = g.sendable;
  sound = g.sound;
  ahead = g.ahead;
  small = g.small;
  last = g.last;
}

parse-waits :
    (fuel : ℕ) (frame : WireFrame) (frames : List WireFrame) (now later : List ℕ)
    → All IsSendable (frame ∷ frames)
    → now ++ later ≡ stream (frame ∷ frames)
    → length now < length (encoded frame)
    → Progress (frame ∷ frames) later (parse (suc fuel) now)
unfolding stream parse IsSendable
parse-waits fuel frame frames now later h e k =
    let size = length now in
    let total = length (now ++ later) in
    let cut : now ≡ take size (encoded frame) =
      sym (take-append size now later refl)
      ∙ ap (take size) e
      ∙ take-append-le size (encoded frame) (stream frames) (omega (arith, k)) in
    let waiting = ap decode_frame cut ∙ decode_frame-prefix frame size h.0 k in
    let joined = length-append now later in
    let streamed = ap length e ∙ length-append (encoded frame) (stream frames) in
    rw (parse, waiting)
      record {
        todo = frame ∷ frames;
        split = refl;
        sendable = h;
        sound = refl;
        ahead = e;
        small = omega (arith, k, h.0, length-encoded frame);
        last = λ none_left. absurd (omega (arith, k, joined, streamed, ap length none_left));
      }

parse-advances :
    (fuel : ℕ) (frame : WireFrame) (frames : List WireFrame) (now later : List ℕ)
    → All IsSendable (frame ∷ frames)
    → now ++ later ≡ stream (frame ∷ frames)
    → length (encoded frame) ≤ length now
    → (drop (length (encoded frame)) now ++ later ≡ stream frames)
      × (parse (suc fuel) now ≡ put_first frame (parse fuel (drop (length (encoded frame)) now)))
unfolding stream parse
parse-advances fuel frame frames now later h e k =
    let size = length (encoded frame) in
    let front : take size now ≡ encoded frame =
      sym (take-append-le size now later k)
      ∙ ap (take size) e
      ∙ take-append size (encoded frame) (stream frames) refl in
    let behind =
      sym (drop-append-le size now later k)
      ∙ ap (drop size) e
      ∙ drop-append size (encoded frame) (stream frames) refl in
    let parts = sym (take-append-drop size now) ∙ ap (λ bytes. bytes ++ drop size now) front in
    let decoded = ap decode_frame parts ∙ decode_frame-encoded frame (drop size now) h.0 in
    (behind, rw (parse, decoded) refl)

-- Some first bytes of a stream are parsed to its first frames.
pub parse-stream :
    (fuel : ℕ) (frames : List WireFrame) (now later : List ℕ)
    → All IsSendable frames
    → now ++ later ≡ stream frames
    → length now < fuel
    → Progress frames later (parse fuel now)
unfolding stream
parse-stream zero frames now later h e k = absurd (omega arith)
parse-stream (suc fuel) [] [] later h e k = rw (parse-short (suc fuel) [] (omega arith)) record {
  todo = [];
  split = refl;
  sendable = tt;
  sound = refl;
  ahead = e;
  small = omega arith;
  last = λ _. refl;
}
parse-stream (suc fuel) [] (b ∷ now) later h e k = absurd (omega (arith, ap length e))
parse-stream (suc fuel) (frame ∷ frames) now later h e k =
    elim (Bool-cases (ltb (length now) (length (encoded frame)))) [
      | inl waiting ↦
          parse-waits fuel frame frames now later h e
            (ltb→lt (length now) (length (encoded frame)) waiting)
      | inr ready ↦
          let size = length (encoded frame) in
          let enough : size ≤ length now = ground arith in
          let (behind, parsed) = parse-advances fuel frame frames now later h e enough in
          let shorter = length-drop size now in
          rw parsed (
            put_first-Progress frame frames later (parse fuel (drop size now)) (
              parse-stream fuel frames (drop size now) later h.1 behind
                (omega (arith, shorter, length-encoded frame))))
    ]
