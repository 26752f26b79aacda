-- ===== src/WireProtocol/Decoder/Feed.antt =====
-- node/src/wire-protocol.ts: what FrameDecoder.feed does to the buffered bytes, against parsing them.
use coc.WireProtocol.Frames.{not_greater}
use coc.Prelude.{
  ◌≡◌, ℕ, zero, suc, none, some, List, arith, ◌++◌, ◌≤◌, length, drop, take, refl, ◌+◌, ◌-◌, ltb,
  Bool-cases, inl, inr, min, max, ◌*◌, ap, length-append, length-take, length-drop, take-append,
  ◌∙◌, sym, ltb→lt, Option-cases, subst,
}
use coc.WireProtocol.Decoder.{
  FrameDecoder, Drained, drain, grow, set_at, zeros, compact, shrink, append_data, finish_feed, Fed,
  fed, bad_frame, feed, copy_to_front, shrink_threshold,
}
use coc.WireProtocol.Decoder.Loop.{
  Parsed, parse, between, reading, drain-parse, length-between, drain-offset,
}

-- The bytes that a decoder holds.
unfoldable pub unread : FrameDecoder → List ℕ
unread dec = take dec.used dec.buffer

-- The bytes are in the buffer, and the buffer is within its bound.
unfoldable pub IsValid : FrameDecoder → Type 0
IsValid dec = (dec.used ≤ length dec.buffer) × (length dec.buffer ≤ dec.max_buffer_size)

length-zeros : (n : ℕ) → length (zeros n) ≡ n
unfolding zeros
length-zeros zero = refl
length-zeros (suc n) = ap suc (length-zeros n)

length-set_at :
    (at : ℕ) (chunk buf : List ℕ)
    → at + length chunk ≤ length buf
    → length (set_at at chunk buf) ≡ length buf
unfolding set_at
length-set_at at chunk buf h =
    let parts : length (take at buf ++ chunk ++ drop (at + length chunk) buf) ≡ length buf = omega (
      arith,
      length-append (take at buf ++ chunk) (drop (at + length chunk) buf),
      length-append (take at buf) chunk,
      length-take at buf (omega arith),
      length-drop (at + length chunk) buf,
    ) in
    parts

-- Written behind `at` bytes, a chunk is read behind them.
take-set_at :
    (at : ℕ) (chunk buf : List ℕ)
    → at ≤ length buf
    → take (at + length chunk) (set_at at chunk buf) ≡ take at buf ++ chunk
unfolding set_at
take-set_at at chunk buf h =
    let long = length-append (take at buf) chunk in
    let front = length-take at buf h in
    (take-append (at + length chunk) (take at buf ++ chunk) (drop (at + length chunk) buf)
      (omega (arith, long, front)))

-- A copy into a new buffer keeps the bytes.
moved :
    (used size : ℕ) (buf : List ℕ)
    → used ≤ length buf
    → used ≤ size
    → (take used (set_at 0 (take used buf) (zeros size)) ≡ take used buf)
      × (length (set_at 0 (take used buf) (zeros size)) ≡ size)
unfolding set_at
moved used size buf h k =
    let long = length-take used buf h in
    let copied =
      length-set_at 0 (take used buf) (zeros size) (omega (arith, long, length-zeros size)) in
    (
      take-append used (take used buf) (drop (0 + length (take used buf)) (zeros size))
          (omega (arith, long)),
      omega (arith, copied, length-zeros size),
    )

grow_lem :
    (dec : FrameDecoder) (needed : ℕ)
    → IsValid dec
    → needed ≤ dec.max_buffer_size
    → dec.used ≤ needed
    → (take dec.used (grow needed dec) ≡ unread dec)
      × ((needed ≤ length (grow needed dec)) × (length (grow needed dec) ≤ dec.max_buffer_size))
unfolding grow IsValid unread
grow_lem dec needed h k l =
    let size = min (max (max needed (length dec.buffer * 2)) 4096) dec.max_buffer_size in
    let enough : needed ≤ size = omega arith in
    let (same, long) = moved dec.used size dec.buffer h.0 (omega (arith, enough)) in
    elim (Bool-cases (ltb (length dec.buffer) needed)) [
      | inl short ↦ rw short (same, (omega (arith, long, enough), omega (arith, long)))
      | inr room ↦ rw room (refl, (ground arith, h.1))
    ]

-- The chunk is behind the bytes that were there.
append_data_lem :
    (chunk : List ℕ) (dec : FrameDecoder)
    → IsValid dec
    → dec.used + length chunk ≤ dec.max_buffer_size
    → IsValid (append_data chunk dec) × (unread (append_data chunk dec) ≡ unread dec ++ chunk)
unfolding IsValid unread append_data
append_data_lem chunk dec h k =
    let needed = dec.used + length chunk in
    let (same, (enough, bounded)) = grow_lem dec needed h k (omega arith) in
    let long = length-set_at dec.used chunk (grow needed dec) enough in
    let written = take-set_at dec.used chunk (grow needed dec) (omega (arith, enough)) in
    (
      (omega (arith, long, enough), omega (arith, long, bounded)),
      written ∙ ap (λ bytes. bytes ++ chunk) same,
    )

compact_lem :
    (offset : ℕ) (dec : FrameDecoder)
    → IsValid dec
    → offset ≤ dec.used
    → IsValid (compact offset dec)
      × ((unread (compact offset dec) ≡ between offset dec.used dec.buffer)
          × ((compact offset dec).max_buffer_size ≡ dec.max_buffer_size))
unfolding IsValid unread compact copy_to_front
compact_lem offset dec h k =
    let part = between offset dec.used dec.buffer in
    let behind = drop (dec.used - offset) dec.buffer in
    let long = length-between offset dec.used dec.buffer k h.0 in
    let total = length-append part behind in
    let other = length-drop (dec.used - offset) dec.buffer in
    elim (Bool-cases (ltb 0 offset)) [
      | inr none_read ↦
          let start : offset ≡ 0 = ground arith in
          let whole : dec.used - 0 ≡ dec.used = omega arith in
          rw none_read (h, (rw (start, whole) refl, refl))
      | inl some_read ↦ rw some_read (
        (omega (arith, total, long, other), omega (arith, total, long, other, h.1)),
        (take-append (dec.used - offset) part behind (sym long), refl),
      )
    ]

shrink_lem :
    (dec : FrameDecoder)
    → IsValid dec
    → IsValid (shrink dec)
      × ((unread (shrink dec) ≡ unread dec) × ((shrink dec).max_buffer_size ≡ dec.max_buffer_size))
unfolding IsValid unread shrink
shrink_lem dec h =
    let size = max (dec.used * 2) shrink_threshold in
    let (same, long) = moved dec.used size dec.buffer h.0 (omega arith) in
    elim (Bool-cases (ltb shrink_threshold (length dec.buffer))) [
      | inr small ↦ rw small (h, (refl, refl))
      | inl large ↦ elim (Bool-cases (ltb (dec.used * 4) (length dec.buffer))) [
        | inr full ↦ rw (large, full) (h, (refl, refl))
        | inl sparse ↦ elim (Bool-cases (ltb size (length dec.buffer))) [
          | inr wide ↦ rw (large, sparse, wide) (h, (refl, refl))
          | inl less ↦
              let fewer = ltb→lt size (length dec.buffer) less in
              rw (large, sparse, less)
                ((omega (arith, long), omega (arith, long, fewer, h.1)), (same, refl))
        ]
      ]
    ]

-- What a parse is reported as.
unfoldable pub outcome : Parsed → Fed
outcome p = elim p.failure [ none ↦ fed p.frames | some err ↦ bad_frame err ]

-- The decoder and the result of feed agree with a parse of the bytes.
unfoldable pub Agrees : FrameDecoder → FrameDecoder × Fed → Parsed → Type 0
Agrees dec out p =
    IsValid out.0
    × ((unread out.0 ≡ p.rest)
        × ((out.0.max_buffer_size ≡ dec.max_buffer_size) × (out.1 ≡ outcome p)))

finish_feed_lem :
    (dec : FrameDecoder) (drained : Drained)
    → IsValid dec
    → drained.offset ≤ dec.used
    → Agrees dec (finish_feed dec drained) (reading dec.buffer dec.used drained)
unfolding finish_feed Agrees outcome reading
finish_feed_lem dec drained h k =
    let (good, (part, bound)) = compact_lem drained.offset dec h k in
    let (small, (same, kept)) = shrink_lem (compact drained.offset dec) good in
    elim (Option-cases drained.failure) [
      | inl fine ↦ rw fine (small, (same ∙ part, (kept ∙ bound, refl)))
      | inr (err, bad) ↦ rw bad (good, (part, (bound, refl)))
    ]

-- Within the bound feed is a parse of the bytes that were there and the chunk.
pub feed-parse :
    (chunk : List ℕ) (dec : FrameDecoder)
    → IsValid dec
    → dec.used + length chunk ≤ dec.max_buffer_size
    → Agrees dec (feed chunk dec) (parse (suc (dec.used + length chunk)) (unread dec ++ chunk))
unfolding feed append_data unread Agrees IsValid
feed-parse chunk dec h k =
    let needed = dec.used + length chunk in
    let filled = append_data chunk dec in
    let drained = drain (suc needed) filled.buffer needed 0 in
    let (good, view) = append_data_lem chunk dec h k in
    let all : needed - 0 ≡ needed = omega arith in
    let start = ap (λ n. take n filled.buffer) all in
    let parsed = drain-parse (suc needed) filled.buffer needed 0 (omega arith) good.0 in
    let read = drain-offset (suc needed) filled.buffer needed 0 (omega arith) good.0 in
    rw (not_greater needed dec.max_buffer_size k) (
      subst (λ p. Agrees dec (finish_feed filled drained) p)
        (parsed ∙ ap (parse (suc needed)) (start ∙ view))
        (finish_feed_lem filled drained good read))
