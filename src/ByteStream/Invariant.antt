-- ===== src/ByteStream/Invariant.antt =====
-- The buffer's bounds, and what each operation does to the bytes between `begin_` and `end_`.
use cs144_2024_winter.Base.{
  ℕ, ◌+◌, ◌-◌, ◌^◌, ◌≤◌, ◌<◌, ◌≡◌, ◌++◌, arith, leb, ltb, if◌then◌else◌, leb_cases, ltb_cases,
  Bool-cases, true, false, ◌⊎◌, inl, inr, add64, sub64, add64_small, sub64_small, u64_mod, Bytes,
  substr, replace, length, take, [], append-nil, add64_lem, length-replace, length-substr,
  length-take, substr-replace_end, substr-replace_front, take_all, length-replicate,
}
use cs144_2024_winter.ByteStream.{
  ByteStream, byte_stream, bytes_buffered, peek, available_capacity, move_to_head, copy_in, push,
}

-- A std::string holds fewer than 2 ^ 63 bytes.
abbrev pub max_size : ℕ
max_size = 2 ^ 63

pub record IsValid (s : ByteStream) : Type 0 where
  pub ordered : s.begin ≤ s.end
  pub within : s.end ≤ s.capacity
  pub stored : length s.content ≡ s.capacity + 1
  pub small : s.capacity + 1 < max_size
  pub pushed_word : s.pushed_cnt < u64_mod
  pub popped_word : s.popped_cnt < u64_mod

-- The bytes in the buffer, oldest first.
unfoldable pub contents : ByteStream → Bytes
contents s = substr s.content s.begin (s.end - s.begin)

pub length-contents : {s : ByteStream} → IsValid s → length (contents s) ≡ s.end - s.begin
unfolding contents
length-contents {s} v = length-substr s.content s.begin (s.end - s.begin) (omega arith)

pub byte_stream-IsValid : (capacity : ℕ) → capacity + 1 < max_size → IsValid (byte_stream capacity)
unfolding byte_stream
byte_stream-IsValid capacity h =
    omega (arith, add64_small capacity 1, length-replicate {A = ℕ} (add64 capacity 1) b' ')

-- The 64-bit sums and differences of a valid stream do not wrap.
pub no_wrap :
    (new : Bytes) {s : ByteStream}
    → IsValid s
    → length new < max_size
    → (add64 s.end (length new) ≡ s.end + length new)
      × (sub64 s.end s.begin ≡ s.end - s.begin)
      × (sub64 s.capacity s.end ≡ s.capacity - s.end)
no_wrap new {s} v h = (
  add64_small s.end (length new) (omega arith),
  sub64_small s.end s.begin v.ordered (omega arith),
  sub64_small s.capacity s.end v.within (omega arith),
)

-- `move_to_head` without the wrap.
pub move_to_head_lem :
    (new : Bytes) {s : ByteStream}
    → IsValid s
    → length new < max_size
    → move_to_head new s ≡ (
        if ltb s.capacity (s.end + length new)
        then record s {
          content = replace s.content 0 (s.end - s.begin) (contents s);
          end = s.end - s.begin;
          begin = 0;
        }
        else s)
unfolding move_to_head contents
move_to_head_lem new v h = let (a, b, c) = no_wrap new v h in rw (a, b)

pub copy_in_lem :
    (new : Bytes) {s : ByteStream}
    → IsValid s
    → length new < max_size
    → copy_in new s ≡ (
        if leb (s.end + length new) s.capacity
        then record s {
          content = replace s.content s.end (length new) new;
          pushed_cnt = add64 s.pushed_cnt (length new);
          end = s.end + length new;
        }
        else record s {
          content = replace s.content s.end (s.capacity - s.end) (take (s.capacity - s.end) new);
          pushed_cnt = add64 s.pushed_cnt (s.capacity - s.end);
          end = s.capacity;
        })
unfolding copy_in
copy_in_lem new v h = let (a, b, c) = no_wrap new v h in rw (a, c)

-- What moving to the front and copying do to a valid stream.
pub record Moved (new : Bytes) (s t : ByteStream) : Type 0 where
  pub valid : IsValid t
  pub same : contents t ≡ contents s
  pub width : t.end - t.begin ≡ s.end - s.begin
  pub capacity : t.capacity ≡ s.capacity
  pub closed : t.is_closed ≡ s.is_closed
  pub error : t.error ≡ s.error
  pub pushed : t.pushed_cnt ≡ s.pushed_cnt
  pub popped : t.popped_cnt ≡ s.popped_cnt
  pub room : (t.end + length new ≤ t.capacity) ⊎ (t.begin ≡ 0)

pub move_to_head-Moved :
    (new : Bytes) {s : ByteStream}
    → IsValid s
    → length new < max_size
    → Moved new s (move_to_head new s)
unfolding contents
move_to_head-Moved new {s} v h =
    rw (move_to_head_lem new v h) (elim (ltb_cases s.capacity (s.end + length new)) [
      | inl (full, e) ↦ rw e (
          ground (
            arith,
            length-replace s.content 0 (s.end - s.begin) (contents s),
            length-contents v,
            substr-replace_front s.content (s.end - s.begin) (contents s),
          ))
      | inr (fits, e) ↦ rw e (ground arith)
    ])

-- What `push` makes of the stream `s`: it takes the bytes `taken`.
pub record Pushed (taken : Bytes) (s t : ByteStream) : Type 0 where
  pub valid : IsValid t
  pub bytes : contents t ≡ contents s ++ taken
  pub width : t.end - t.begin ≡ s.end - s.begin + length taken
  pub capacity : t.capacity ≡ s.capacity
  pub closed : t.is_closed ≡ s.is_closed
  pub error : t.error ≡ s.error
  pub pushed : t.pushed_cnt ≡ add64 s.pushed_cnt (length taken)
  pub popped : t.popped_cnt ≡ s.popped_cnt

-- How many bytes there is room for.
abbrev pub room : ByteStream → ℕ
room s = s.capacity - (s.end - s.begin)

copy_in-Pushed :
    (new : Bytes) {s : ByteStream}
    → IsValid s
    → length new < max_size
    → (s.end + length new ≤ s.capacity) ⊎ (s.begin ≡ 0)
    → Pushed (take (room s) new) s (copy_in new s)
unfolding contents
copy_in-Pushed new {s} v h r =
    rw (copy_in_lem new v h) (elim (leb_cases (s.end + length new) s.capacity) [
      | inl (fits, e) ↦
          rw (e, take_all (room s) new (omega arith))
            (ground (
              arith,
              add64_lem s.pushed_cnt (length new),
              length-replace s.content s.end (length new) new,
              substr-replace_end s.content s.begin s.end (length new) (s.end + length new - s.begin)
                  new,
            ))
      | inr (full, e) ↦
          let left = s.capacity - s.end in
          let part = take left new in
          let cut : left ≡ room s = omega arith in
          rw (e, ← cut)
            (ground (
              arith,
              length-take left new,
              add64_lem s.pushed_cnt left,
              length-replace s.content s.end left part,
              substr-replace_end s.content s.begin s.end left (s.capacity - s.begin) part,
            ))
    ])

pub push-Pushed_open :
    (new : Bytes) {s : ByteStream}
    → IsValid s
    → length new < max_size
    → s.is_closed ≡ false
    → Pushed (take (room s) new) s (push new s)
unfolding push
push-Pushed_open new v h open_ =
    let m = move_to_head-Moved new v h in
    ground (arith, m, open_, copy_in-Pushed new m.valid h m.room)

pub push-Pushed :
    (new : Bytes) {s : ByteStream}
    → IsValid s
    → length new < max_size
    → Pushed (if s.is_closed then [] else take (room s) new) s (push new s)
unfolding push
push-Pushed new {s} v h = elim (Bool-cases s.is_closed) [
  | inl shut ↦ rw shut (ground (arith, append-nil (contents s), add64_lem s.pushed_cnt 0))
  | inr open_ ↦ ground (arith, open_, push-Pushed_open new v h open_)
]

pub push_closed : (new : Bytes) (s : ByteStream) → s.is_closed ≡ true → push new s ≡ s
unfolding push
push_closed new s shut = ground arith

-- The accessors without the wrap.
pub peek_lem : {s : ByteStream} → IsValid s → peek s ≡ contents s
unfolding peek contents
peek_lem {s} v = rw (sub64_small s.end s.begin v.ordered (omega arith))

pub bytes_buffered_lem : {s : ByteStream} → IsValid s → bytes_buffered s ≡ s.end - s.begin
unfolding bytes_buffered
bytes_buffered_lem {s} v = sub64_small s.end s.begin v.ordered (omega arith)

pub available_capacity-room : {s : ByteStream} → IsValid s → available_capacity s ≡ room s
unfolding available_capacity
available_capacity-room {s} v =
    rw (sub64_small s.end s.begin v.ordered (omega arith))
      (sub64_small s.capacity (s.end - s.begin) (omega arith) (omega arith))

-- Writing leaves the error flag alone, whatever the state.
pub error-push : (new : Bytes) (s : ByteStream) → (push new s).error ≡ s.error
unfolding push copy_in move_to_head
error-push new s = ground arith

pub is_closed-push : (new : Bytes) (s : ByteStream) → (push new s).is_closed ≡ s.is_closed
unfolding push copy_in move_to_head
is_closed-push new s = ground arith
