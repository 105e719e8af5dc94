-- ===== src/ByteStream/Refine.antt =====
-- src/byte_stream.cc: the stream over its flat buffer against the queue of `ByteStream.Spec`.
use cs144_2024_winter.Base.{
  ℕ, ◌+◌, ◌-◌, ◌≤◌, ◌<◌, ◌≡◌, ap, ap₂, sym, ◌∙◌, List, [], ◌∷◌, arith, leb, leb_cases, inl, inr,
  if◌then◌else◌, add64, add64_small, add64_lem, sub64_small, length, take, drop, drop-take,
  drop-drop, length-take, append-nil, Bytes,
}
use cs144_2024_winter.ByteStream.{ByteStream, pop, push, peek, bytes_popped}
use cs144_2024_winter.ByteStream.Invariant.{
  IsValid, contents, length-contents, max_size, push-Pushed, room,
}
use cs144_2024_winter.ByteStream.Spec.{Queue, Call, pushes, pops, closes, fails}
use cs144_2024_winter.ByteStream.Spec

-- The queue that a stream stands for.
pub view : ByteStream → Queue
view s = record {
  capacity = s.capacity;
  bytes = contents s;
  pushed_cnt = s.pushed_cnt;
  popped_cnt = s.popped_cnt;
  is_closed = s.is_closed;
  error = s.error;
}

-- The sizes that a call may have: a std::string is shorter than 2 ^ 63 bytes, and a pop must not
-- wrap `begin_ + len`.
abbrev pub IsSized : Call → Type 0
IsSized (pushes new) = length new < max_size
IsSized (pops len) = len < max_size
IsSized closes = 0 < max_size
IsSized fails = 0 < max_size

abbrev pub AllSized : List Call → Type 0
AllSized [] = 0 < max_size
AllSized (c ∷ cs) = IsSized c × AllSized cs

-- `pop` without the wrap.
pub pop_lem :
    (len : ℕ) {s : ByteStream}
    → IsValid s
    → len < max_size
    → pop len s ≡ (
        if leb len (s.end - s.begin)
        then record s { begin = s.begin + len; popped_cnt = add64 s.popped_cnt len }
        else record s { begin = s.end })
unfolding pop
pop_lem len {s} v h =
    ground (arith, add64_small s.begin len, sub64_small s.end s.end, add64_lem s.popped_cnt 0)

pub pop-is_closed : (len : ℕ) (s : ByteStream) → (pop len s).is_closed ≡ s.is_closed
unfolding pop
pop-is_closed len s = ground arith

pub pop-error : (len : ℕ) (s : ByteStream) → (pop len s).error ≡ s.error
unfolding pop
pop-error len s = ground arith

pub pop-capacity : (len : ℕ) (s : ByteStream) → (pop len s).capacity ≡ s.capacity
unfolding pop
pop-capacity len s = ground arith

pub pop-IsValid : (len : ℕ) {s : ByteStream} → IsValid s → len < max_size → IsValid (pop len s)
pop-IsValid len {s} v h = rw (pop_lem len v h) (ground (arith, add64_lem s.popped_cnt len))

-- What is left of the buffer after `begin_` has moved.
pub contents_after :
    (len : ℕ) {s : ByteStream}
    → IsValid s
    → len ≤ s.end - s.begin
    → contents (record s { begin = s.begin + len; popped_cnt = add64 s.popped_cnt len })
      ≡ drop len (contents s)
unfolding contents
contents_after len {s} v h =
    ap₂ (λ n d. take n d) {x = s.end - (s.begin + len)} {y = s.end - s.begin - len} (omega arith)
      (sym (drop-drop len s.begin s.content))
    ∙ sym (drop-take len (s.end - s.begin) (drop s.begin s.content))

contents_end : (s : ByteStream) → contents (record s { begin = s.end }) ≡ []
unfolding contents
contents_end s = ap (λ n. take n (drop s.end s.content)) {x = s.end - s.end} {y = 0} (omega arith)

pub pop_refines :
    (len : ℕ) {s : ByteStream}
    → IsValid s
    → len < max_size
    → view (pop len s) ≡ Spec.pop len (view s)
unfolding view Spec.pop
pop_refines len {s} v h =
    rw (pop_lem len v h, length-contents v)
      (elim (leb_cases len (s.end - s.begin)) [
        | inl (some_, e) ↦ rw e (ground (arith, contents_after len v some_))
        | inr (all, e) ↦ rw e (ground (arith, contents_end s))
      ])

pub push_refines :
    (new : Bytes) {s : ByteStream}
    → IsValid s
    → length new < max_size
    → view (push new s) ≡ Spec.push new (view s)
unfolding view Spec.push
push_refines new {s} v h = ground (
  arith,
  push-Pushed new v h,
  length-contents v,
  append-nil (contents s),
  length-take (room s) new,
  add64_lem s.pushed_cnt 0,
)

-- What is left after a pop that the buffer covers.
pub contents-pop :
    (n : ℕ) {s : ByteStream}
    → IsValid s
    → n ≤ s.end - s.begin
    → (contents (pop n s) ≡ drop n (contents s))
      × ((pop n s).end - (pop n s).begin ≡ s.end - s.begin - n)
      × ((pop n s).end < (pop n s).begin + 1 → s.end - s.begin ≡ n)
contents-pop n {s} v h = rw (pop_lem n v (omega arith)) (ground (arith, contents_after n v h))

-- A pop of more bytes than there are leaves nothing buffered, and none of the bytes that it takes
-- off is counted as popped.
pop_overlong :
    (len : ℕ) {s : ByteStream}
    → IsValid s
    → s.end - s.begin < len
    → len < max_size
    → (peek (pop len s) ≡ []) × (bytes_popped (pop len s) ≡ s.popped_cnt)
unfolding peek bytes_popped
pop_overlong len {s} v more h =
    rw (pop_lem len v h) (ground (arith, contents_end s, sub64_small s.end s.end))
