-- ===== src/Reassembler/Insert.antt =====
-- src/reassembler.cc: what `insert` of a part of one stream comes to.
use cs144_2024_winter.Base.{
  ℕ, ◌+◌, ◌≤◌, ◌<◌, min, ◌≡◌, refl, ap, sym, subst, ◌∙◌, Bool, true, false, arith, ◌==◌, Bytes,
  Option, none, some, length, Bool-cases, inl, inr, add64_small, ◌&&◌,
}
use cs144_2024_winter.ByteStream.{ByteStream, close}
use cs144_2024_winter.ByteStream.Invariant.{max_size}
use cs144_2024_winter.Reassembler.{Reassembler, place, drain, finish, insert, note_last}
use cs144_2024_winter.Reassembler.Slice.{slice}
use cs144_2024_winter.Reassembler.Segments.{From, From-le, AllPieces}
use cs144_2024_winter.Reassembler.Output.{close-Delivers}
use cs144_2024_winter.Reassembler.Inv.{edge, Core, Inv, avail_cap-room, drain-Drained}
use cs144_2024_winter.Reassembler.Place.{IsPart, Fits, Placed, Result, place-Result}

module _ (stream : ℕ → ℕ) (total : ℕ) (small : total < max_size) where
  -- The note on the stream's end is true of a part.
  note_last-Core :
      (first_index : ℕ) (new : Bytes) (is_last : Bool) {r : Reassembler}
      → Core stream total r
      → IsPart stream total small first_index new is_last
      → Core stream total (note_last first_index new is_last r)
  unfolding note_last
  note_last-Core first_index new true c p =
      let e = add64_small first_index (length new) (omega arith) in
      record {
        delivers = c.delivers;
        reach = c.reach;
        finished = c.finished;
        ends = λ _. e ∙ p.last refl;
      }
  note_last-Core first_index new false c p = c

  pub note_last_keeps :
      (first_index : ℕ) (new : Bytes) (is_last : Bool) (r : Reassembler)
      → let n = note_last first_index new is_last r in
        (n.segs ≡ r.segs) × (n.next ≡ r.next) × (n.output ≡ r.output)
  unfolding note_last
  note_last_keeps first_index new true r = (refl, refl, refl)
  note_last_keeps first_index new false r = (refl, refl, refl)

  finish-Inv : {r : Reassembler} → Inv stream total r → Inv stream total (finish r)
  unfolding finish close
  finish-Inv {r} v = elim (Bool-cases (r.has_last && (r.next == r.last))) [
    | inl done ↦ rw done (ground (arith, v, done, close-Delivers stream v.core.delivers))
    | inr more ↦ rw more v
  ]

  finish_next : (r : Reassembler) → ((finish r).next ≡ r.next) × (edge (finish r) ≡ edge r)
  unfolding finish close
  finish_next r = ground arith

  finish-has_last : (r : Reassembler) → (finish r).has_last ≡ r.has_last
  unfolding finish
  finish-has_last r = ground arith

  finish-popped_cnt : (r : Reassembler) → (finish r).output.popped_cnt ≡ r.output.popped_cnt
  unfolding finish close
  finish-popped_cnt r = ground arith

  finish_closes :
      (r : Reassembler) → r.has_last ≡ true → r.next ≡ r.last → (finish r).output.is_closed ≡ true
  unfolding finish close
  finish_closes r h e = ground arith

  -- What `insert` of a part does, on the state `r` that has the note.
  pub record Inserted (first_index : ℕ) (new : Bytes) (r p : Reassembler) : Type 0 where
    pub inv : Inv stream total p
    pub forward : r.next ≤ p.next
    pub same_edge : edge p ≡ edge r
    pub popped : p.output.popped_cnt ≡ r.output.popped_cnt
    pub noted : p.has_last ≡ r.has_last
    pub closes : r.next < p.next → p.has_last ≡ true → p.next ≡ total → p.output.is_closed ≡ true
    pub progress : first_index ≤ r.next → min (first_index + length new) (edge r) ≤ p.next

  Placed-Inserted :
      (first_index : ℕ) (new : Bytes) {r p : Reassembler}
      → Placed stream total small r p
      → (first_index ≤ r.next → min (first_index + length new) (edge r) ≤ p.next)
      → Inserted first_index new r (finish (drain p.segs p))
  Placed-Inserted first_index new {r} {p} a progress =
      let bound : min (edge r) total ≡ min (edge p) total =
        ap (λ x. min x total) (sym a.advance.edge) in
      let d =
        drain-Drained stream total p.segs a.advance.core
          (subst (λ x. AllPieces stream x p.segs) bound a.pieces) a.ordered small in
      let q = drain p.segs p in
      let bound' : min (edge p) total ≡ min (edge q) total =
        ap (λ x. min x total) (sym d.advance.edge) in
      let inv : Inv stream total q = record {
        core = d.advance.core;
        pieces = subst (λ x. AllPieces stream x q.segs) bound' d.pieces;
        gap = d.gap;
      } in
      record {
        inv = finish-Inv inv;
        forward = omega (arith, finish_next q);
        same_edge = omega (arith, finish_next q);
        popped = finish-popped_cnt q ∙ d.advance.popped ∙ a.advance.popped;
        noted = finish-has_last q ∙ d.advance.has_last ∙ a.advance.has_last;
        closes = λ _ h e.
            let ended = sym (finish-has_last q) ∙ h in
            finish_closes q ended (omega (arith, finish_next q, d.advance.core.ends ended));
        progress = λ h. omega (arith, finish_next q, progress h);
      }

  -- The rest of `insert` after `place`, on the state `n` with the note.
  after_place :
      (first_index : ℕ) (new : Bytes) {n : Reassembler} (v : Inv stream total n)
      (text : new ≡ slice stream first_index (length new))
      (within : first_index + length new ≤ total) (f : From 0 n.segs) (q : Option Reassembler)
      → Result stream total small first_index new v.core v.pieces f text within q
      → Inserted first_index new n
          (elim q [ none ↦ n | some placed ↦ finish (drain placed.segs placed) ])
  after_place first_index new {n} v text within f none h =
      let c' = avail_cap-room stream total v.core in
      record {
        inv = v;
        forward = omega arith;
        same_edge = refl;
        popped = refl;
        noted = refl;
        closes = λ k _ _. absurd (omega arith);
        progress = λ k. omega (arith, h, c');
      }
  after_place first_index new {n} v text within f (some p) h =
      Placed-Inserted first_index new h.0 h.1

  note_last-Inserted :
      (first_index : ℕ) (new : Bytes) (n : Reassembler)
      → Inv stream total n
      → new ≡ slice stream first_index (length new)
      → first_index + length new ≤ total
      → Fits stream total small n first_index new
      → Inserted first_index new n (elim (place first_index new n) [
        | none ↦ n
        | some placed ↦ finish (drain placed.segs placed)
      ])
  note_last-Inserted first_index new n v text within fits =
      let f = From-le (n.next + 1) 0 n.segs (omega arith) v.gap in
      after_place first_index new v text within f (place first_index new n) (
        place-Result stream total small first_index new v.core v.pieces f text within fits
          (omega arith))

  -- `insert` of a part that fits is this.
  pub insert-Inserted :
      (first_index : ℕ) (new : Bytes) (is_last : Bool) {r : Reassembler}
      → Inv stream total r
      → IsPart stream total small first_index new is_last
      → Fits stream total small r first_index new
      → Inserted first_index new
          (note_last first_index new is_last r)
          (insert first_index new is_last r)
  unfolding insert note_last
  insert-Inserted first_index new true {r} v p fits =
      let n = note_last first_index new true r in
      let w : Inv stream total n = record {
        core = note_last-Core first_index new true v.core p;
        pieces = v.pieces;
        gap = v.gap;
      } in
      note_last-Inserted first_index new n w p.text p.within fits
  insert-Inserted first_index new false {r} v p fits =
      note_last-Inserted first_index new r v p.text p.within fits

  pub insert-Inv :
      (first_index : ℕ) (new : Bytes) (is_last : Bool) {r : Reassembler}
      → Inv stream total r
      → IsPart stream total small first_index new is_last
      → Fits stream total small r first_index new
      → Inv stream total (insert first_index new is_last r)
  insert-Inv first_index new is_last v p fits =
      (insert-Inserted first_index new is_last v p fits).inv

  -- A part that starts at `next_` or before moves the output up to the part's end or to the end of
  -- the capacity, and never back.
  pub insert_progress :
      (first_index : ℕ) (new : Bytes) (is_last : Bool) {r : Reassembler}
      → Inv stream total r
      → IsPart stream total small first_index new is_last
      → Fits stream total small r first_index new
      → first_index ≤ r.next
      → let p = insert first_index new is_last r in
        (r.next ≤ p.next) × (min (first_index + length new) (edge r) ≤ p.next)
  insert_progress first_index new is_last {r} v p fits h =
      let i = insert-Inserted first_index new is_last v p fits in
      let k = note_last_keeps first_index new is_last r in
      let e : edge (note_last first_index new is_last r) ≡ edge r =
        ap (λ (o : ByteStream). o.popped_cnt + o.capacity) k.2 in
      (omega (arith, i.forward, k), omega (arith, e, i.progress (omega (arith, k))))

  -- Inserting reads nothing.
  pub popped_cnt-insert :
      (first_index : ℕ) (new : Bytes) (is_last : Bool) {r : Reassembler}
      → Inv stream total r
      → IsPart stream total small first_index new is_last
      → Fits stream total small r first_index new
      → (insert first_index new is_last r).output.popped_cnt ≡ r.output.popped_cnt
  popped_cnt-insert first_index new is_last {r} v p fits =
      (insert-Inserted first_index new is_last v p fits).popped
      ∙ ap (λ (o : ByteStream). o.popped_cnt) (note_last_keeps first_index new is_last r).2

  -- The last part, if it brings the output up to the stream's end, closes it.
  pub insert_closes :
      (first_index : ℕ) (new : Bytes) {r : Reassembler}
      → Inv stream total r
      → IsPart stream total small first_index new true
      → first_index ≤ r.next
      → r.next < total
      → total ≤ edge r
      → let p = insert first_index new true r in (p.next ≡ total) × (p.output.is_closed ≡ true)
  unfolding note_last
  insert_closes first_index new {r} v p h more room_ =
      let i = insert-Inserted first_index new true v p (inl h) in
      let e : (insert first_index new true r).next ≡ total =
        omega (arith, i.progress h, i.inv.core.reach, p.last refl) in
      (e, i.closes (omega arith) i.noted e)
