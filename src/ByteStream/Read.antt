-- ===== src/ByteStream/Read.antt =====
-- src/byte_stream_helpers.cc: the `read` loop over peek and pop.
use cs144_2024_winter.Base.{
  ℕ, zero, suc, ◌-◌, ◌≤◌, ◌<◌, min, ◌≡◌, ◌∙◌, [], ◌++◌, arith, ◌&&◌, ltb, ◌==◌, not, if◌then◌else◌,
  sub64, sub64_small, add64_lem, ltb_cases, ◌⊎◌, inl, inr, length, take, substr, length-take, Bytes,
}
use cs144_2024_winter.ByteStream.{ByteStream, peek, pop, bytes_buffered}
use cs144_2024_winter.ByteStream.Invariant.{
  IsValid, contents, length-contents, max_size, peek_lem, bytes_buffered_lem,
}
use cs144_2024_winter.ByteStream.Refine.{pop_lem, pop-IsValid}

-- The bytes and the stream, the exception on an empty `peek`, or no fuel left.
pub data ReadResult : Type 0 where
  done : Bytes → ByteStream → ReadResult
  threw : ReadResult
  out_of_fuel : ReadResult

unfoldable pub read_loop : ℕ → ℕ → Bytes → ByteStream → ReadResult
read_loop zero len out s = out_of_fuel
read_loop (suc fuel) len out s =
    let piece = substr (peek s) 0 (sub64 len (length out)) in
    let rest = read_loop fuel len (out ++ piece) (pop (length piece) s) in
    if not (bytes_buffered s == 0) && ltb (length out) len
    then (if length (peek s) == 0 then threw else rest)
    else done out s

-- Each round reads at least one byte, so `len` rounds and the last test are enough.
unfoldable pub read : ℕ → ByteStream → ReadResult
read len s = read_loop (suc len) len [] s

-- A round that starts with nothing left to do stops.
read_loop_stops :
    (fuel len : ℕ) (out : Bytes) (s : ByteStream)
    → (bytes_buffered s ≡ 0) ⊎ (len ≤ length out)
    → read_loop (suc fuel) len out s ≡ done out s
unfolding read_loop
read_loop_stops fuel len out s h = ground arith

-- A round that finds bytes takes all it wants at once.
read_loop_round :
    (fuel len : ℕ) {s : ByteStream}
    → IsValid s
    → s.begin < s.end
    → 0 < len
    → len < max_size
    → read_loop (suc fuel) len [] s
      ≡ read_loop fuel len (take len (contents s)) (pop (length (take len (contents s))) s)
unfolding read_loop
read_loop_round fuel len {s} v some_ h k =
    let whole : sub64 len 0 ≡ len = omega (arith, sub64_small len 0) in
    rw (peek_lem v, bytes_buffered_lem v, whole) (ground (arith, length-contents v))

-- What is buffered after a pop that the buffer covers.
buffered_after :
    (n : ℕ) {s : ByteStream}
    → IsValid s
    → n ≤ s.end - s.begin
    → bytes_buffered (pop n s) ≡ s.end - s.begin - n
buffered_after n {s} v h =
    bytes_buffered_lem (pop-IsValid n v (omega arith))
    ∙ rw (pop_lem n v (omega arith)) (ground arith)

-- A pop of nothing.
pop_zero : {s : ByteStream} → IsValid s → pop 0 s ≡ s
pop_zero {s} v = rw (pop_lem 0 v (omega arith)) (ground (arith, add64_lem s.popped_cnt 0))

-- On a valid stream `read` returns the first `len` bytes buffered, or all of them, and pops them.
pub read_lem :
    (len : ℕ) {s : ByteStream}
    → IsValid s
    → len < max_size
    → read len s ≡ done (take len (contents s)) (pop (min len (s.end - s.begin)) s)
unfolding read
read_lem zero {s} v h =
    let e : min 0 (s.end - s.begin) ≡ 0 = omega arith in
    read_loop_stops 0 0 [] s (inr (omega arith)) ∙ rw (e, pop_zero v)
read_lem (suc n) {s} v h = elim (ltb_cases s.begin s.end) [
  | inl (some_, _) ↦ more some_
  | inr (none_, _) ↦ nothing none_
]
  where
    len : ℕ
    len = suc n

    piece : Bytes
    piece = take len (contents s)

    width : length piece ≡ min len (s.end - s.begin)
    width = omega (arith, length-take len (contents s), length-contents v)

    more :
        s.begin < s.end
        → read_loop (suc len) len [] s ≡ done piece (pop (min len (s.end - s.begin)) s)
    more some_ =
        read_loop_round len len v some_ (omega arith) h
        ∙ read_loop_stops n len piece (pop (length piece) s)
            (ground (arith, width, buffered_after (length piece) v))
        ∙ rw width

    nothing :
        s.end ≤ s.begin
        → read_loop (suc len) len [] s ≡ done piece (pop (min len (s.end - s.begin)) s)
    nothing none_ =
        let e : min len (s.end - s.begin) ≡ 0 = omega arith in
        let f : s.end - s.begin ≡ 0 = omega arith in
        read_loop_stops len len [] s (inl (bytes_buffered_lem v ∙ f))
        ∙ rw (e, pop_zero v) (ground (arith, width))
