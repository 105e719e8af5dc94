-- ===== src/ByteStream/Spec.antt =====
-- What a byte stream promises: a first-in first-out queue of at most `capacity` bytes with two
-- 64-bit counters. A client sees it through the accessors of Reader and Writer.
use cs144_2024_winter.Base.{
  ℕ, ◌-◌, min, Bool, true, ◌&&◌, List, [], ◌∷◌, ◌++◌, leb, ◌==◌, if◌then◌else◌, add64, Bytes,
  length, take, drop,
}
use cs144_2024_winter.ByteStream.{
  ByteStream, set_error, has_error, bytes_buffered, bytes_popped, is_finished, peek, close,
  available_capacity, bytes_pushed,
}
use cs144_2024_winter.ByteStream

pub record Queue : Type 0 where
  pub capacity : ℕ
  pub bytes : Bytes
  pub pushed_cnt : ℕ
  pub popped_cnt : ℕ
  pub is_closed : Bool
  pub error : Bool

-- A push takes the bytes that fit, unless the queue is closed.
unfoldable pub push : Bytes → Queue → Queue
push new q = if q.is_closed then q else record q {
  bytes = q.bytes ++ take (q.capacity - length q.bytes) new;
  pushed_cnt = add64 q.pushed_cnt (min (q.capacity - length q.bytes) (length new));
}

-- A pop of more than there is empties the queue and is not counted.
unfoldable pub pop : ℕ → Queue → Queue
pop len q =
    if leb len (length q.bytes)
    then record q { bytes = drop len q.bytes; popped_cnt = add64 q.popped_cnt len }
    else record q { bytes = [] }

-- The calls that change a stream.
pub data Call : Type 0 where
  pushes : Bytes → Call
  pops : ℕ → Call
  closes : Call
  fails : Call

unfoldable pub step : Queue → Call → Queue
step q (pushes new) = push new q
step q (pops len) = pop len q
step q closes = record q { is_closed = true }
step q fails = record q { error = true }

unfoldable pub run : Queue → List Call → Queue
run q [] = q
run q (c ∷ cs) = run (step q c) cs

-- What a client can see.
pub record Observation : Type 0 where
  pub peeked : Bytes
  pub buffered : ℕ
  pub available : ℕ
  pub pushed : ℕ
  pub popped : ℕ
  pub finished : Bool
  pub error : Bool

unfoldable pub observe : Queue → Observation
observe q = record {
  peeked = q.bytes;
  buffered = length q.bytes;
  available = q.capacity - length q.bytes;
  pushed = q.pushed_cnt;
  popped = q.popped_cnt;
  finished = q.is_closed && (length q.bytes == 0);
  error = q.error;
}

-- The same calls and accessors on the stream itself.
unfoldable pub stream_step : ByteStream → Call → ByteStream
stream_step s (pushes new) = ByteStream.push new s
stream_step s (pops len) = ByteStream.pop len s
stream_step s closes = close s
stream_step s fails = set_error s

unfoldable pub stream_run : ByteStream → List Call → ByteStream
stream_run s [] = s
stream_run s (c ∷ cs) = stream_run (stream_step s c) cs

unfoldable pub stream_observe : ByteStream → Observation
stream_observe s = record {
  peeked = peek s;
  buffered = bytes_buffered s;
  available = available_capacity s;
  pushed = bytes_pushed s;
  popped = bytes_popped s;
  finished = is_finished s;
  error = has_error s;
}
