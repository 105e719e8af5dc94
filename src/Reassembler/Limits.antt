-- ===== src/Reassembler/Limits.antt =====
-- src/reassembler.cc: two kinds of input at the limits of `insert`.
use cs144_2024_winter.Base.{
  ℕ, ◌+◌, ◌-◌, ◌≤◌, ◌<◌, min, ◌≡◌, refl, ◌∙◌, Bool, none, true, false, arith, Bytes, length, add64,
  add64_small, le→leb, lt→ltb, length-take, u64_mod,
}
use cs144_2024_winter.ByteStream.Invariant.{IsValid, room, max_size, push-Pushed_open}
use cs144_2024_winter.Reassembler.{
  Reassembler, Seg, insert, note_last, place, absorb, seg_text, write,
}

-- A substring with nothing new makes `insert` return early.
place_old :
    (first_index : ℕ) (new : Bytes) (r : Reassembler)
    → first_index < r.next
    → first_index + length new ≤ r.next
    → r.next < u64_mod
    → place first_index new r ≡ none
unfolding place
place_old first_index new r h e small = rw (
  lt→ltb first_index r.next h,
  add64_small first_index (length new) (omega arith),
  le→leb (first_index + length new) r.next e,
)

insert_early :
    (first_index : ℕ) (new : Bytes) (is_last : Bool) (r : Reassembler)
    → place first_index new (note_last first_index new is_last r) ≡ none
    → insert first_index new is_last r ≡ note_last first_index new is_last r
unfolding insert
insert_early first_index new is_last r e = rw (e, insert)

-- A last substring whose bytes were all written before is noted and then dropped: the output stays
-- as it was, so the stream is not closed although `next_` has reached its end.
pub insert_late_last :
    (first_index : ℕ) (new : Bytes) (r : Reassembler)
    → first_index < r.next
    → first_index + length new ≡ r.next
    → r.next < u64_mod
    → let p = insert first_index new true r in
      (p.output ≡ r.output) × (p.has_last ≡ true) × (p.last ≡ p.next)
unfolding note_last
insert_late_last first_index new r h e small =
    let sum : add64 first_index (length new) ≡ r.next =
      add64_small first_index (length new) (omega arith) ∙ e in
    rw
      (insert_early first_index new true r
        (place_old first_index new (note_last first_index new true r) h (omega arith) small))
      (refl, refl, sum)

-- A stored segment that was cut at the output's capacity keeps its whole text. Once a read has made
-- room, the loop writes more bytes than it moves `next_` by.
pub absorb_overruns :
    (t : Seg) (r : Reassembler)
    → IsValid r.output
    → r.output.is_closed ≡ false
    → t.begin ≡ r.next
    → t.index ≡ 0
    → r.next < t.end
    → t.end - t.begin < length t.bytes
    → t.end - t.begin < room r.output
    → length t.bytes < max_size
    → r.output.pushed_cnt + length t.bytes < max_size
    → let p = absorb t r in
      (p.next ≡ r.next + (t.end - t.begin))
      × (r.output.pushed_cnt + (t.end - t.begin) < p.output.pushed_cnt)
unfolding absorb seg_text write
absorb_overruns t r v open_ b i more long wide small small' = ground (
  arith,
  push-Pushed_open t.bytes v small open_,
  length-take (room r.output) t.bytes,
  add64_small r.output.pushed_cnt (min (room r.output) (length t.bytes)),
)
