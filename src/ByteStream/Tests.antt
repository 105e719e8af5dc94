-- ===== src/ByteStream/Tests.antt =====
-- Runs of src/byte_stream.cc and src/byte_stream_helpers.cc on small streams, and instances of the
-- theorems on them.
use cs144_2024_winter.Base.{
  ◌-◌, min, ◌≡◌, refl, arith, List, [], ◌∷◌, false, take, add64, sub64, replace,
}
use cs144_2024_winter.ByteStream.{
  ByteStream, byte_stream, push, pop, peek, close, copy_in, move_to_head,
}
use cs144_2024_winter.ByteStream.Invariant.{IsValid, contents, byte_stream-IsValid}
use cs144_2024_winter.ByteStream.Spec.{Call, pushes, pops, closes, stream_run, stream_step}
use cs144_2024_winter.ByteStream.Read.{done, read, read_lem}

abbrev fresh : ByteStream
fresh = byte_stream 4

abbrev calls : List Call
calls = pushes (1 ∷ 2 ∷ 3 ∷ []) ∷ pops 2 ∷ pushes (4 ∷ 5 ∷ 6 ∷ 7 ∷ []) ∷ closes ∷ []

abbrev three : ByteStream
three = record {
  capacity = 4;
  error = false;
  begin = 1;
  end = 4;
  content = 9 ∷ 1 ∷ 2 ∷ 3 ∷ 0 ∷ [];
  pushed_cnt = 4;
  popped_cnt = 1;
  is_closed = false;
}

abbrev fresh-IsValid : IsValid fresh
fresh-IsValid = byte_stream-IsValid 4 (omega arith)

abbrev three-IsValid : IsValid three
three-IsValid = record {
  ordered = omega arith;
  within = omega arith;
  stored = refl;
  small = omega arith;
  pushed_word = omega arith;
  popped_word = omega arith;
}

run_peek : peek (stream_run fresh calls) ≡ 3 ∷ 4 ∷ 5 ∷ 6 ∷ []
unfolding peek push pop stream_run sub64 stream_step close add64 byte_stream copy_in move_to_head
    replace
run_peek = refl

read_lem_example : read 2 three ≡ done (take 2 (contents three)) (pop (min 2 (4 - 1)) three)
read_lem_example = read_lem 2 three-IsValid (omega arith)
