-- ===== src/WireProtocol/Decoder/Failure.antt =====
-- node/src/wire-protocol.ts: the bytes that decodeFrame refuses stay in front of a FrameDecoder's buffer.
use coc.Prelude.{
  ◌≡◌, ℕ, zero, suc, ◌∷◌, [], none, some, List, Option, arith, ◌++◌, ◌≤◌, ◌<◌, length, refl, ◌+◌,
  sym, ap, ◌∙◌, ◌⊎◌, inl, inr, Bool-cases, ltb, ◌≢◌, false, Option-cases, true, nat_beq, ltb→lt,
  drop, length-append,
}
use coc.WireProtocol.{
  WireFrame, header_size, max_payload_size, decode_frame, decode_payload, byte_at, read_u16,
  read_u32, DecodeError, invalid, type_of, MessageType, unknown_type, Decoded, incomplete, complete,
  wire_magic, invalid_magic,
}
use coc.WireProtocol.Decoder.{FrameDecoder, feed, bad_frame, buffer_overflow}
use coc.WireProtocol.Decoder.Loop.{Parsed, parse, put_first, decode_frame-short, Decoded-cases}
use coc.WireProtocol.Decoder.Feed.{IsValid, Agrees, unread, outcome, feed-parse}

incomplete≢invalid : (err : DecodeError) → incomplete ≢ invalid err
incomplete≢invalid err e = absurd (ground arith)

none≢some : (err : DecodeError) → none ≢ some err
none≢some err e = absurd (ground arith)

overflow≢bad_frame : (err : DecodeError) → buffer_overflow ≢ bad_frame err
overflow≢bad_frame err e = absurd (ground arith)

some-inj : {err other : DecodeError} → some err ≡ some other → err ≡ other
some-inj e = ground arith

byte_at-append :
    (i : ℕ) (bytes more : List ℕ) → i < length bytes → byte_at i (bytes ++ more) ≡ byte_at i bytes
unfolding byte_at
byte_at-append i [] more h = absurd (omega arith)
byte_at-append zero (b ∷ bytes) more h = refl
byte_at-append (suc i) (b ∷ bytes) more h = byte_at-append i bytes more (omega arith)

read_u16-append :
    (bytes more : List ℕ)
    → header_size ≤ length bytes
    → read_u16 0 (bytes ++ more) ≡ read_u16 0 bytes
unfolding read_u16
read_u16-append bytes more h =
    rw (byte_at-append 0 bytes more (omega arith), byte_at-append (0 + 1) bytes more (omega arith))
      refl

read_u32-append :
    (bytes more : List ℕ)
    → header_size ≤ length bytes
    → read_u32 3 (bytes ++ more) ≡ read_u32 3 bytes
unfolding read_u32
read_u32-append bytes more h =
    rw
      (
        byte_at-append 3 bytes more (omega arith),
        byte_at-append (3 + 1) bytes more (omega arith),
        byte_at-append (3 + 2) bytes more (omega arith),
        byte_at-append (3 + 3) bytes more (omega arith),
      )
      refl

decode_payload-append :
    (t : MessageType) (bytes more : List ℕ) (err : DecodeError)
    → header_size ≤ length bytes
    → decode_payload t bytes ≡ invalid err
    → decode_payload t (bytes ++ more) ≡ invalid err
unfolding decode_payload
decode_payload-append t bytes more err h e =
    let same = read_u32-append bytes more h in
    elim (Bool-cases (ltb max_payload_size (read_u32 3 bytes))) [
      | inl over ↦ rw (same, over) (ground arith)
      | inr within ↦ absurd (ground arith)
    ]

by_type : List ℕ → Option MessageType → Decoded
by_type bytes o = elim o [ none ↦ invalid unknown_type | some t ↦ decode_payload t bytes ]

by_type-append :
    (o : Option MessageType) (bytes more : List ℕ) (err : DecodeError)
    → header_size ≤ length bytes
    → by_type bytes o ≡ invalid err
    → by_type (bytes ++ more) o ≡ invalid err
unfolding by_type
by_type-append none bytes more err h e = e
by_type-append (some t) bytes more err h e = decode_payload-append t bytes more err h e

decode_frame-magic :
    (bytes : List ℕ)
    → ltb (length bytes) header_size ≡ false
    → nat_beq (read_u16 0 bytes) wire_magic ≡ true
    → decode_frame bytes ≡ by_type bytes (type_of (byte_at 2 bytes))
unfolding decode_frame by_type
decode_frame-magic bytes long same = rw (long, same) refl

decode_frame-bad_magic :
    (bytes : List ℕ)
    → ltb (length bytes) header_size ≡ false
    → nat_beq (read_u16 0 bytes) wire_magic ≡ false
    → decode_frame bytes ≡ invalid invalid_magic
unfolding decode_frame
decode_frame-bad_magic bytes long other = rw (long, other) refl

-- More bytes do not repair a frame that is refused.
decode_frame-append :
    (bytes more : List ℕ) (err : DecodeError)
    → decode_frame bytes ≡ invalid err
    → decode_frame (bytes ++ more) ≡ invalid err
decode_frame-append bytes more err e = elim (Bool-cases (ltb (length bytes) header_size)) [
  | inl short ↦ absurd (
      incomplete≢invalid err
        (sym (decode_frame-short bytes (ltb→lt (length bytes) header_size short)) ∙ e))
  | inr whole ↦
      let enough : header_size ≤ length bytes = ground arith in
      let total = length-append bytes more in
      let long : ltb (length (bytes ++ more)) header_size ≡ false = ground (arith, total) in
      let magic = ap (λ n. nat_beq n wire_magic) (read_u16-append bytes more enough) in
      let type = byte_at-append 2 bytes more (omega (arith, enough)) in
      elim (Bool-cases (nat_beq (read_u16 0 bytes) wire_magic)) [
        | inl same ↦
            decode_frame-magic (bytes ++ more) long (magic ∙ same)
            ∙ ap (λ b. by_type (bytes ++ more) (type_of b)) type
            ∙ by_type-append (type_of (byte_at 2 bytes)) bytes more err enough
                (sym (decode_frame-magic bytes whole same) ∙ e)
        | inr other ↦
            decode_frame-bad_magic (bytes ++ more) long (magic ∙ other)
            ∙ (sym (decode_frame-bad_magic bytes whole other) ∙ e)
      ]
]

parse-complete :
    (fuel : ℕ) (bytes : List ℕ) (frame : WireFrame) (n : ℕ)
    → decode_frame bytes ≡ complete frame n
    → parse (suc fuel) bytes ≡ put_first frame (parse fuel (drop n bytes))
unfolding parse
parse-complete fuel bytes frame n h = rw (parse, h) refl

parse-refused :
    (fuel : ℕ) (bytes : List ℕ) (err : DecodeError)
    → decode_frame bytes ≡ invalid err
    → parse (suc fuel) bytes ≡ record { frames = []; rest = bytes; failure = some err }
unfolding parse
parse-refused fuel bytes err h = rw (parse, h) refl

-- The bytes that are left by an error are refused with that error.
parse-invalid :
    (fuel : ℕ) (bytes : List ℕ) (err : DecodeError)
    → (parse fuel bytes).failure ≡ some err
    → decode_frame (parse fuel bytes).rest ≡ invalid err
unfolding parse put_first
parse-invalid zero bytes err e = absurd (ground arith)
parse-invalid (suc fuel) bytes err e = elim (Decoded-cases (decode_frame bytes)) [
  | inl short ↦
      let stop : parse (suc fuel) bytes ≡ record { frames = []; rest = bytes; failure = none } =
        rw (parse, short) refl in
      absurd (none≢some err (sym (ap (λ p. p.failure) stop) ∙ e))
  | inr (inl (other, bad)) ↦
      let stop = parse-refused fuel bytes other bad in
      let same : other ≡ err = some-inj (sym (ap (λ p. p.failure) stop) ∙ e) in
      ap (λ p. decode_frame p.rest) stop ∙ bad ∙ ap invalid same
  | inr (inr (frame, n, whole)) ↦
      let go = parse-complete fuel bytes frame n whole in
      ap (λ p. decode_frame p.rest) go
      ∙ parse-invalid fuel (drop n bytes) err (sym (ap (λ p. p.failure) go) ∙ e)
]

outcome-bad_frame :
    (p : Parsed) (err : DecodeError) → outcome p ≡ bad_frame err → p.failure ≡ some err
unfolding outcome
outcome-bad_frame p err e = elim (Option-cases p.failure) [
  | inl fine ↦ absurd (ground arith)
  | inr (other, bad) ↦ ground arith
]

feed-overflow :
    (chunk : List ℕ) (dec : FrameDecoder)
    → ltb dec.max_buffer_size (dec.used + length chunk) ≡ true
    → (feed chunk dec).1 ≡ buffer_overflow
unfolding feed
feed-overflow chunk dec over = rw over refl

-- Every call throws the error, and leaves the rest of the calls to do so, until one whose bytes
-- exceed the bound, which throws for that.
unfoldable pub Refuses : DecodeError → FrameDecoder → List (List ℕ) → Type 0
Refuses err dec [] = Unit
Refuses err dec (more ∷ chunks) =
    ((dec.used + length more ≤ dec.max_buffer_size)
      × ((feed more dec).1 ≡ bad_frame err)
      × Refuses err (feed more dec).0 chunks)
    ⊎ ((dec.max_buffer_size < dec.used + length more) × ((feed more dec).1 ≡ buffer_overflow))

-- Where the buffered bytes are refused, a call within the bound is, and they stay in the buffer.
feed-refused :
    (more : List ℕ) (dec : FrameDecoder) (err : DecodeError)
    → IsValid dec
    → decode_frame (unread dec) ≡ invalid err
    → dec.used + length more ≤ dec.max_buffer_size
    → ((feed more dec).1 ≡ bad_frame err)
      × IsValid (feed more dec).0
      × (decode_frame (unread (feed more dec).0) ≡ invalid err)
unfolding Agrees outcome
feed-refused more dec err h bad enough =
    let (valid, (rest, (_, result))) = feed-parse more dec h enough in
    let still = decode_frame-append (unread dec) more err bad in
    let refused = parse-refused (dec.used + length more) (unread dec ++ more) err still in
    (result ∙ ap outcome refused, valid, ap decode_frame (rest ∙ ap (λ p. p.rest) refused) ∙ still)

Refuses-invalid :
    (chunks : List (List ℕ)) (dec : FrameDecoder) (err : DecodeError)
    → IsValid dec
    → decode_frame (unread dec) ≡ invalid err
    → Refuses err dec chunks
unfolding Refuses
Refuses-invalid [] dec err h bad = tt
Refuses-invalid (more ∷ chunks) dec err h bad =
    elim (Bool-cases (ltb dec.max_buffer_size (dec.used + length more))) [
      | inl over ↦
          inr
            (ltb→lt dec.max_buffer_size (dec.used + length more) over, feed-overflow more dec over)
      | inr room ↦
          let enough : dec.used + length more ≤ dec.max_buffer_size = ground arith in
          let (result, valid, still) = feed-refused more dec err h bad enough in
          inl (enough, result, Refuses-invalid chunks (feed more dec).0 err valid still)
    ]

-- After an error on a frame every later call throws the same error, up to the first call whose bytes
-- exceed the bound together with those in the buffer, which throws for that.
pub feed_again-bad_frame :
    (chunk : List ℕ) (chunks : List (List ℕ)) (dec : FrameDecoder) (err : DecodeError)
    → IsValid dec
    → (feed chunk dec).1 ≡ bad_frame err
    → Refuses err (feed chunk dec).0 chunks
unfolding Agrees
feed_again-bad_frame chunk chunks dec err h e =
    elim (Bool-cases (ltb dec.max_buffer_size (dec.used + length chunk))) [
      | inl over ↦ absurd (overflow≢bad_frame err (sym (feed-overflow chunk dec over) ∙ e))
      | inr room ↦
          let enough : dec.used + length chunk ≤ dec.max_buffer_size = ground arith in
          let (valid, (rest, (_, result))) = feed-parse chunk dec h enough in
          let p = parse (suc (dec.used + length chunk)) (unread dec ++ chunk) in
          let failed = outcome-bad_frame p err (sym result ∙ e) in
          Refuses-invalid chunks (feed chunk dec).0 err valid (
            ap decode_frame rest
            ∙ parse-invalid (suc (dec.used + length chunk)) (unread dec ++ chunk) err failed)
    ]
