-- ===== src/Reassembler/Tests.antt =====
-- Runs of src/reassembler.cc on a stream of five bytes that arrive out of order, and instances of
-- the theorems on it.
use cs144_2024_winter.Base.{
  ℕ, ◌+◌, ◌-◌, ◌≤◌, ◌<◌, ◌≡◌, min, refl, arith, [], ◌∷◌, ◌++◌, true, false, Bytes, length, take,
  inl, inr, sub64, add64, replace,
}
use cs144_2024_winter.ByteStream.{
  byte_stream, push, peek, copy_in, move_to_head, available_capacity, close,
}
use cs144_2024_winter.ByteStream.Invariant.{IsValid, byte_stream-IsValid, max_size, room}
use cs144_2024_winter.Reassembler.{
  Reassembler, Seg, reassembler, insert, absorb, bytes_pending, note_last, place, avail_cap, write,
  drain, finish, emplace, whole_seg, less, seg_text,
}
use cs144_2024_winter.Reassembler.Slice.{slice}
use cs144_2024_winter.Reassembler.Inv.{edge}
use cs144_2024_winter.Reassembler.Insert.{insert_progress, insert_closes}
use cs144_2024_winter.Reassembler.Place.{IsPart, Fits}
use cs144_2024_winter.Reassembler.Order.{
  Reach, start, inserted, reads, Reach-Inv, read_out, in_order,
}
use cs144_2024_winter.Reassembler.Pending.{bytes_pending-count, count_range, covers}
use cs144_2024_winter.Reassembler.Limits.{insert_late_last, absorb_overruns}

-- The bytes 0, 1, 2, 3, 4.
abbrev stream : ℕ → ℕ
stream i = i

abbrev small : 5 < max_size
small = omega arith

abbrev empty : Reassembler
empty = reassembler (byte_stream 8)

abbrev tail : Bytes
tail = 2 ∷ 3 ∷ 4 ∷ []

abbrev head : Bytes
head = 0 ∷ 1 ∷ []

abbrev whole : Bytes
whole = 0 ∷ 1 ∷ 2 ∷ 3 ∷ 4 ∷ []

tail-IsPart : IsPart stream 5 small 2 tail true
tail-IsPart = record { text = refl; within = omega arith; last = λ _. refl }

head-IsPart : IsPart stream 5 small 0 head false
head-IsPart = record { text = refl; within = omega arith; last = λ e. cc }

whole-IsPart : IsPart stream 5 small 0 whole true
whole-IsPart = record { text = refl; within = omega arith; last = λ _. refl }

tail-Fits : Fits stream 5 small empty 2 tail
unfolding reassembler byte_stream
tail-Fits = inr (omega arith)

after_tail : Reach stream 5 small (insert 2 tail true empty) []
after_tail = inserted 2 tail true (start 8 (omega arith)) tail-IsPart tail-Fits

after_head : Reach stream 5 small (insert 0 head false (insert 2 tail true empty)) []
after_head = inserted 0 head false after_tail head-IsPart (inl (omega arith))

abbrev full : Reassembler
full = insert 0 head false (insert 2 tail true empty)

three_there : 3 ≤ full.output.end - full.output.begin
unfolding insert bytes_pending place note_last reassembler add64 sub64 avail_cap available_capacity
    byte_stream push copy_in move_to_head replace write drain absorb finish emplace whole_seg less
    seg_text close
three_there = omega arith

pending_tail : bytes_pending (insert 2 tail true empty) ≡ 3
unfolding insert bytes_pending place note_last reassembler add64 sub64 avail_cap available_capacity
    byte_stream push copy_in move_to_head replace write drain absorb finish emplace whole_seg less
    seg_text close
pending_tail = refl

in_order_example :
    (([] ++ take 3 (peek full.output)) ++ peek (read_out 3 full).output
      ≡ slice stream 0 (read_out 3 full).next)
    × ((read_out 3 full).output.pushed_cnt ≡ (read_out 3 full).next)
in_order_example = in_order stream 5 small (reads 3 after_head three_there)

insert_progress_example :
    let p = insert 0 head false (insert 2 tail true empty) in
    ((insert 2 tail true empty).next ≤ p.next) × (min 2 (edge (insert 2 tail true empty)) ≤ p.next)
insert_progress_example =
    insert_progress stream 5 small 0 head false (Reach-Inv stream 5 small after_tail) head-IsPart
      (inl (omega arith)) (omega arith)

empty_room : (0 < 5) × (empty.next < 5) × (5 ≤ edge empty)
unfolding reassembler byte_stream
empty_room = omega arith

insert_closes_example :
    let p = insert 0 whole true empty in (p.next ≡ 5) × (p.output.is_closed ≡ true)
insert_closes_example =
    insert_closes stream 5 small 0 whole (Reach-Inv stream 5 small (start 8 (omega arith)))
      whole-IsPart (omega arith) empty_room.1 empty_room.2

bytes_pending-count_example :
    bytes_pending (insert 2 tail true empty)
    ≡ count_range (covers (insert 2 tail true empty).segs) 0 5
bytes_pending-count_example =
    bytes_pending-count stream 5 small (Reach-Inv stream 5 small after_tail)

-- Two bytes were written, and then they arrive again as the stream's end.
abbrev two_written : Reassembler
two_written = record empty { next = 2 }

insert_late_last_example :
    let p = insert 0 head true two_written in
    (p.output ≡ two_written.output) × (p.has_last ≡ true) × (p.last ≡ p.next)
insert_late_last_example = insert_late_last 0 head two_written (omega arith) refl (omega arith)

-- A segment of three bytes that was cut to one.
abbrev cut : Seg
cut = record { begin = 2; end = 3; bytes = 2 ∷ 3 ∷ 4 ∷ []; index = 0 }

two_written-IsValid : IsValid two_written.output
unfolding reassembler
two_written-IsValid = byte_stream-IsValid 8 (omega arith)

two_written_facts :
    (two_written.output.is_closed ≡ false)
    × (cut.end - cut.begin < room two_written.output)
    × (two_written.output.pushed_cnt + length cut.bytes < max_size)
unfolding reassembler byte_stream
two_written_facts = (refl, omega arith, omega arith)

absorb_overruns_example :
    let p = absorb cut two_written in
    (p.next ≡ 2 + (3 - 2)) × (two_written.output.pushed_cnt + (3 - 2) < p.output.pushed_cnt)
absorb_overruns_example =
    let (open_, wide, counted) = two_written_facts in
    absorb_overruns cut two_written two_written-IsValid open_ refl refl (omega arith) (omega arith)
      wide (omega arith) counted
