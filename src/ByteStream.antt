-- ===== src/ByteStream.antt =====
-- src/byte_stream.hh and src/byte_stream.cc: a bounded byte stream over one flat buffer, with its
-- Writer and Reader sides.
pub mod Invariant
pub mod Spec
pub mod Refine
pub mod Read
mod Tests
use cs144_2024_winter.Base.{
  ℕ, ◌+◌, ◌-◌, Bool, true, false, ◌&&◌, leb, ltb, ◌==◌, if◌then◌else◌, add64, sub64, Bytes, substr,
  replace, length, take, replicate,
}

pub record ByteStream : Type 0 where
  pub capacity : ℕ
  pub error : Bool
  pub begin : ℕ
  pub end : ℕ
  pub content : Bytes
  pub pushed_cnt : ℕ
  pub popped_cnt : ℕ
  pub is_closed : Bool

-- The constructor. The buffer has one byte more than the capacity.
unfoldable pub byte_stream : ℕ → ByteStream
byte_stream capacity = record {
  capacity = capacity;
  error = add64 capacity 1 == 0;
  begin = 0;
  end = 0;
  content = replicate (add64 capacity 1) b' ';
  pushed_cnt = 0;
  popped_cnt = 0;
  is_closed = false;
}

unfoldable pub set_error : ByteStream → ByteStream
set_error s = record s { error = true }

unfoldable pub has_error : ByteStream → Bool
has_error s = s.error

-- Reader
unfoldable pub bytes_buffered : ByteStream → ℕ
bytes_buffered s = sub64 s.end s.begin

pub bytes_popped : ByteStream → ℕ
bytes_popped s = s.popped_cnt

unfoldable pub is_finished : ByteStream → Bool
is_finished s = s.is_closed && (s.begin == s.end)

unfoldable pub peek : ByteStream → Bytes
peek s = substr s.content s.begin (sub64 s.end s.begin)

-- In the second branch `begin_` is moved before the difference is taken.
unfoldable pub pop : ℕ → ByteStream → ByteStream
pop len s =
    if leb (add64 s.begin len) s.end
    then record s { begin = add64 s.begin len; popped_cnt = add64 s.popped_cnt len }
    else (let moved = record s { begin = s.end } in
        record moved { popped_cnt = add64 moved.popped_cnt (sub64 moved.end moved.begin) })

-- Writer
unfoldable pub close : ByteStream → ByteStream
close s = record s { is_closed = true }

unfoldable pub available_capacity : ByteStream → ℕ
available_capacity s = sub64 s.capacity (sub64 s.end s.begin)

pub bytes_pushed : ByteStream → ℕ
bytes_pushed s = s.pushed_cnt

-- The first half of `push`: move the buffered bytes to the front if the new ones do not fit behind.
unfoldable pub move_to_head : Bytes → ByteStream → ByteStream
move_to_head new s =
    if ltb s.capacity (add64 s.end (length new))
    then record s {
      content =
          replace s.content 0 (sub64 s.end s.begin)
            (substr s.content s.begin (sub64 s.end s.begin));
      end = sub64 s.end s.begin;
      begin = 0;
    }
    else s

-- The second half: copy all of the new bytes, or as many as fit.
unfoldable pub copy_in : Bytes → ByteStream → ByteStream
copy_in new s =
    if leb (add64 s.end (length new)) s.capacity
    then record s {
      content = replace s.content s.end (length new) new;
      pushed_cnt = add64 s.pushed_cnt (length new);
      end = add64 s.end (length new);
    }
    else record s {
      content =
          replace s.content s.end (sub64 s.capacity s.end) (substr new 0 (sub64 s.capacity s.end));
      pushed_cnt = add64 s.pushed_cnt (sub64 s.capacity s.end);
      end = s.capacity;
    }

unfoldable pub push : Bytes → ByteStream → ByteStream
push new s = if s.is_closed then s else copy_in new (move_to_head new s)
