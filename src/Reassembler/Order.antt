-- ===== src/Reassembler/Order.antt =====
-- src/reassembler.cc: histories of inserted parts and of reads.
use cs144_2024_winter.Base.{
  ℕ, ◌+◌, ◌-◌, ◌≤◌, ◌<◌, min, ◌≡◌, refl, add64_small, ap, ap₂, sym, ◌∙◌, Bool, [], ◌++◌, arith,
  Bytes, take,
}
use cs144_2024_winter.ByteStream.{byte_stream, pop, peek}
use cs144_2024_winter.ByteStream.Invariant.{contents, max_size, byte_stream-IsValid, peek_lem}
use cs144_2024_winter.ByteStream.Refine.{pop_lem, pop-is_closed, pop-capacity}
use cs144_2024_winter.Reassembler.{Reassembler, reassembler, insert}
use cs144_2024_winter.Reassembler.Slice.{slice, slice_front, take-slice}
use cs144_2024_winter.Reassembler.Output.{pop-Delivers}
use cs144_2024_winter.Reassembler.Inv.{Inv, edge}
use cs144_2024_winter.Reassembler.Segments.{AllPieces-le}
use cs144_2024_winter.Reassembler.Insert.{insert-Inv, popped_cnt-insert}
use cs144_2024_winter.Reassembler.Place.{IsPart, Fits}

-- The reader takes `n` bytes.
unfoldable pub read_out : ℕ → Reassembler → Reassembler
read_out n r = record r { output = pop n r.output }

module _ (stream : ℕ → ℕ) (total : ℕ) (small : total < max_size) where
  -- The states that a history of inserted parts and reads can reach, with the bytes read so far.
  pub data Reach : Reassembler → Bytes → Type 0 where
    start : (capacity : ℕ) → capacity + 1 < max_size → Reach (reassembler (byte_stream capacity)) []
    inserted :
        (first_index : ℕ) (new : Bytes) (is_last : Bool) {r : Reassembler} {out : Bytes}
        → Reach r out
        → IsPart stream total small first_index new is_last
        → Fits stream total small r first_index new
        → Reach (insert first_index new is_last r) out
    reads :
        (n : ℕ) {r : Reassembler} {out : Bytes}
        → Reach r out
        → n ≤ r.output.end - r.output.begin
        → Reach (read_out n r) (out ++ take n (peek r.output))

  pub start-Inv :
      (capacity : ℕ)
      → capacity + 1 < max_size
      → Inv stream total (reassembler (byte_stream capacity))
  unfolding reassembler byte_stream contents
  start-Inv capacity h = record {
    core = record {
      delivers = record {
        valid = byte_stream-IsValid capacity h;
        behind = omega arith;
        held = omega arith;
        counted = omega arith;
        bytes = refl;
        bounded = omega arith;
      };
      reach = omega arith;
      finished = λ e. cc;
      ends = λ e. cc;
    };
    pieces = tt;
    gap = tt;
  }

  popped_cnt-pop :
      (n : ℕ) {r : Reassembler}
      → Inv stream total r
      → n ≤ r.output.end - r.output.begin
      → (pop n r.output).popped_cnt ≡ r.output.popped_cnt + n
  popped_cnt-pop n {r} v h =
      let d = v.core.delivers in
      rw (pop_lem n d.valid (omega arith)) (ground (arith, add64_small r.output.popped_cnt n))

  pub edge-read_out :
      (n : ℕ) {r : Reassembler}
      → Inv stream total r
      → n ≤ r.output.end - r.output.begin
      → edge (read_out n r) ≡ edge r + n
  unfolding read_out
  edge-read_out n {r} v h = omega (arith, popped_cnt-pop n v h, pop-capacity n r.output)

  edge_grows :
      (n : ℕ) {r : Reassembler}
      → Inv stream total r
      → n ≤ r.output.end - r.output.begin
      → min (edge r) total ≤ min (edge (read_out n r)) total
  edge_grows n {r} v h = omega (arith, edge-read_out n v h)

  pub read_out-Inv :
      (n : ℕ) {r : Reassembler}
      → Inv stream total r
      → n ≤ r.output.end - r.output.begin
      → Inv stream total (read_out n r)
  unfolding read_out
  read_out-Inv n {r} v h =
      let d = v.core.delivers in
      let e = pop_lem n d.valid (omega arith) in
      record {
        core = record {
          delivers = pop-Delivers stream n d h;
          reach = v.core.reach;
          finished = λ shut. v.core.finished (sym (pop-is_closed n r.output) ∙ shut);
          ends = v.core.ends;
        };
        pieces =
            AllPieces-le stream (min (edge r) total) (min (edge (read_out n r)) total) r.segs
              (edge_grows n v h) v.pieces;
        gap = v.gap;
      }

  pub Reach-Inv : {r : Reassembler} {out : Bytes} → Reach r out → Inv stream total r
  Reach-Inv (start capacity h) = start-Inv capacity h
  Reach-Inv (inserted i new l h p f) = insert-Inv stream total small i new l (Reach-Inv h) p f
  Reach-Inv (reads n h k) = read_out-Inv n (Reach-Inv h) k

  -- A read goes on where the last one stopped.
  pub read_out-slice :
      (n : ℕ) {r : Reassembler} {out : Bytes}
      → Inv stream total r
      → n ≤ r.output.end - r.output.begin
      → out ≡ slice stream 0 r.output.popped_cnt
      → out ++ take n (peek r.output) ≡ slice stream 0 (read_out n r).output.popped_cnt
  unfolding read_out
  read_out-slice n {r} {out} v k e =
      let d = v.core.delivers in
      let popped = r.output.popped_cnt in
      let n' : min n (r.next - popped) ≡ n = omega arith in
      ap₂ (λ x y. x ++ y) e
        (ap (take n) (peek_lem d.valid ∙ d.bytes)
          ∙ take-slice stream n popped (r.next - popped)
          ∙ ap (slice stream popped) n')
      ∙ slice_front stream popped n
      ∙ ap (slice stream 0) (sym (popped_cnt-pop n v k))

  -- What was read is the stream up to the bytes popped.
  Reach-read :
      {r : Reassembler} {out : Bytes} → Reach r out → out ≡ slice stream 0 r.output.popped_cnt
  unfolding reassembler byte_stream
  Reach-read (start capacity h) = refl
  Reach-read (inserted i new l h p f) =
      Reach-read h
      ∙ ap (slice stream 0) (sym (popped_cnt-insert stream total small i new l (Reach-Inv h) p f))
  Reach-read (reads n h k) = read_out-slice n (Reach-Inv h) k (Reach-read h)

  -- After any history the bytes read and those buffered are the first `next` bytes of the stream, in
  -- order, and the writer has counted as many.
  pub in_order :
      {r : Reassembler} {out : Bytes}
      → Reach r out
      → (out ++ peek r.output ≡ slice stream 0 r.next) × (r.output.pushed_cnt ≡ r.next)
  in_order {r} {out} h =
      let d = (Reach-Inv h).core.delivers in
      (
        ap₂ (λ x y. x ++ y) (Reach-read h) (peek_lem d.valid ∙ d.bytes)
            ∙ slice_front stream r.output.popped_cnt (r.next - r.output.popped_cnt)
            ∙ ap (slice stream 0) {x = r.output.popped_cnt + (r.next - r.output.popped_cnt)}
                {y = r.next} (omega arith),
        d.counted,
      )
