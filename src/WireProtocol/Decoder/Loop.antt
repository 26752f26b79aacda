-- ===== src/WireProtocol/Decoder/Loop.antt =====
-- node/src/wire-protocol.ts: the loop of FrameDecoder.feed, as parsing of a list of bytes.
use coc.Prelude.{
  ◌≡◌, ℕ, zero, suc, ◌∷◌, [], none, some, List, Option, arith, ◌≤◌, ◌<◌, length, drop, take, refl,
  ◌+◌, ◌-◌, ltb, Bool-cases, inl, inr, ◌⊎◌, length-drop, drop-take, false, ltb→lt, length-take,
  drop-drop, ap,
}
use coc.WireProtocol.{
  WireFrame, DecodeError, Decoded, decode_frame, header_size, incomplete, complete, invalid,
  decode_payload, MessageType, type_of, unknown_type, byte_at,
}
use coc.WireProtocol.Decoder.{Drained, drain, push_front}

-- What a list of bytes is parsed to: its frames, the bytes that are left, and the first error.
pub record Parsed : Type 0 where
  pub frames : List WireFrame
  pub rest : List ℕ
  pub failure : Option DecodeError

unfoldable pub put_first : WireFrame → Parsed → Parsed
put_first frame p = record { frames = frame ∷ p.frames; rest = p.rest; failure = p.failure }

unfoldable pub parse : ℕ → List ℕ → Parsed
parse zero bytes = record { frames = []; rest = bytes; failure = none }
parse (suc fuel) bytes = elim (decode_frame bytes) [
  | incomplete ↦ record { frames = []; rest = bytes; failure = none }
  | invalid err ↦ record { frames = []; rest = bytes; failure = some err }
  | complete frame n ↦ put_first frame (parse fuel (drop n bytes))
]

-- The bytes between two positions.
abbrev pub between : ℕ → ℕ → List ℕ → List ℕ
between offset used buf = take (used - offset) (drop offset buf)

-- The outcome of the loop from an offset, read as a parse of the bytes there.
unfoldable pub reading : List ℕ → ℕ → Drained → Parsed
reading buf used d = record {
  frames = d.frames;
  rest = between d.offset used buf;
  failure = d.failure;
}

pub decode_frame-short :
    (bytes : List ℕ) → length bytes < header_size → decode_frame bytes ≡ incomplete
unfolding decode_frame
decode_frame-short bytes h = ground arith

pub parse-short :
    (fuel : ℕ) (bytes : List ℕ)
    → length bytes < header_size
    → parse fuel bytes ≡ record { frames = []; rest = bytes; failure = none }
unfolding parse
parse-short zero bytes h = refl
parse-short (suc fuel) bytes h = rw (parse, decode_frame-short bytes h) refl

decode_payload-complete :
    (t : MessageType) (bytes : List ℕ) (frame : WireFrame) (n : ℕ)
    → decode_payload t bytes ≡ complete frame n
    → (n ≤ length bytes) × (header_size ≤ n)
unfolding decode_payload
decode_payload-complete t bytes frame n h = ground arith

type_of-cases :
    (bytes : List ℕ) (frame : WireFrame) (n : ℕ) (o : Option MessageType)
    → (elim o [ none ↦ invalid unknown_type | some t ↦ decode_payload t bytes ]) ≡ complete frame n
    → (n ≤ length bytes) × (header_size ≤ n)
type_of-cases bytes frame n none h = absurd (ground arith)
type_of-cases bytes frame n (some t) h = decode_payload-complete t bytes frame n h

pub decode_frame-complete :
    (bytes : List ℕ) (frame : WireFrame) (n : ℕ)
    → decode_frame bytes ≡ complete frame n
    → (n ≤ length bytes) × (header_size ≤ n)
unfolding decode_frame
decode_frame-complete bytes frame n h =
    let rest = type_of-cases bytes frame n (type_of (byte_at 2 bytes)) in ground arith

pub Decoded-cases :
    (d : Decoded)
    → (d ≡ incomplete)
      ⊎ (((err : DecodeError) × (d ≡ invalid err))
          ⊎ ((frame : WireFrame) × (n : ℕ) × (d ≡ complete frame n)))
Decoded-cases incomplete = inl refl
Decoded-cases (invalid err) = inr (inl (err, refl))
Decoded-cases (complete frame n) = inr (inr (frame, n, refl))

pub length-between :
    (offset used : ℕ) (buf : List ℕ)
    → offset ≤ used
    → used ≤ length buf
    → length (between offset used buf) ≡ used - offset
length-between offset used buf h k =
    let long : length (drop offset buf) ≡ length buf - offset = length-drop offset buf in
    length-take (used - offset) (drop offset buf) (omega (arith, long))

drop-between :
    (n offset used : ℕ) (buf : List ℕ)
    → drop n (between offset used buf) ≡ between (offset + n) used buf
drop-between n offset used buf =
    let parts : used - offset - n ≡ used - (offset + n) = omega arith in
    rw (drop-take n (used - offset) (drop offset buf), drop-drop n offset buf, parts) refl

drain-parse-step :
    (fuel : ℕ) (buf : List ℕ) (used offset : ℕ)
    → offset ≤ used
    → used ≤ length buf
    → ((n : ℕ)
        → offset + n ≤ used
        → reading buf used (drain fuel buf used (offset + n))
          ≡ parse fuel (between (offset + n) used buf))
    → ltb used (offset + header_size) ≡ false
    → reading buf used (drain (suc fuel) buf used offset)
      ≡ parse (suc fuel) (between offset used buf)
unfolding drain parse reading push_front put_first
drain-parse-step fuel buf used offset h k ih more =
    elim (Decoded-cases (decode_frame (between offset used buf))) [
      | inl short ↦ rw (more, parse, short) refl
      | inr (inl (err, bad)) ↦ rw (more, parse, bad) refl
      | inr (inr (frame, n, whole)) ↦
          let (fits, _) = decode_frame-complete (between offset used buf) frame n whole in
          let long = length-between offset used buf h k in
          rw (more, parse, whole, drop-between n offset used buf)
            (ap (put_first frame) (ih n (omega (arith, fits, long))))
    ]

-- The loop parses the bytes between the offset and `used`.
pub drain-parse :
    (fuel : ℕ) (buf : List ℕ) (used offset : ℕ)
    → offset ≤ used
    → used ≤ length buf
    → reading buf used (drain fuel buf used offset) ≡ parse fuel (between offset used buf)
unfolding drain parse reading
drain-parse zero buf used offset h k = refl
drain-parse (suc fuel) buf used offset h k = elim (Bool-cases (ltb used (offset + header_size))) [
  | inl over ↦
      let long = length-between offset used buf h k in
      let few = ltb→lt used (offset + header_size) over in
      rw (over, parse-short (suc fuel) (between offset used buf) (omega (arith, long, few))) refl
  | inr more ↦
      drain-parse-step fuel buf used offset h k
        (λ n le. drain-parse fuel buf used (offset + n) le k) more
]

drain-offset-step :
    (fuel : ℕ) (buf : List ℕ) (used offset : ℕ)
    → offset ≤ used
    → used ≤ length buf
    → ((n : ℕ) → offset + n ≤ used → (drain fuel buf used (offset + n)).offset ≤ used)
    → ltb used (offset + header_size) ≡ false
    → (drain (suc fuel) buf used offset).offset ≤ used
unfolding drain push_front
drain-offset-step fuel buf used offset h k ih more =
    elim (Decoded-cases (decode_frame (between offset used buf))) [
      | inl short ↦ rw (more, short) h
      | inr (inl (err, bad)) ↦ rw (more, bad) h
      | inr (inr (frame, n, whole)) ↦
          let (fits, _) = decode_frame-complete (between offset used buf) frame n whole in
          let long = length-between offset used buf h k in
          rw (more, whole) (ih n (omega (arith, fits, long)))
    ]

-- The offset stays within the bytes in use.
pub drain-offset :
    (fuel : ℕ) (buf : List ℕ) (used offset : ℕ)
    → offset ≤ used
    → used ≤ length buf
    → (drain fuel buf used offset).offset ≤ used
unfolding drain
drain-offset zero buf used offset h k = h
drain-offset (suc fuel) buf used offset h k = elim (Bool-cases (ltb used (offset + header_size))) [
  | inl over ↦ rw over h
  | inr more ↦
      drain-offset-step fuel buf used offset h k
        (λ n le. drain-offset fuel buf used (offset + n) le k) more
]
