-- ===== src/Reassembler/Inv.antt =====
-- The invariant of a reassembler that is given pieces of one stream of `total` bytes, and the parts
-- of `insert` that write.
use cs144_2024_winter.Base.{
  ℕ, ◌+◌, ◌-◌, ◌≤◌, ◌<◌, min, ◌≡◌, ap, sym, subst, ◌∙◌, true, List, [], ◌∷◌, arith, Bytes, length,
  take, Bool-cases, inl, inr, ltb_cases, leb_cases, take_all,
}
use cs144_2024_winter.ByteStream.{push}
use cs144_2024_winter.ByteStream.Invariant.{
  room, max_size, available_capacity-room, push-Pushed_open, push_closed,
}
use cs144_2024_winter.Reassembler.{Reassembler, Seg, avail_cap, write, absorb, drain, seg_text}
use cs144_2024_winter.Reassembler.Slice.{slice, length-slice}
use cs144_2024_winter.Reassembler.Output.{Delivers, push-Delivers}
use cs144_2024_winter.Reassembler.Segments.{From, From-le, IsPiece, AllPieces, seg_text-slice}

-- The first index that does not fit into the output yet.
abbrev pub edge : Reassembler → ℕ
edge r = r.output.popped_cnt + r.output.capacity

module _ (stream : ℕ → ℕ) (total : ℕ) where
  -- What holds of the output and of the notes on the stream's end.
  pub record Core (r : Reassembler) : Type 0 where
    pub delivers : Delivers stream r.output r.next
    pub reach : r.next ≤ total
    pub finished : r.output.is_closed ≡ true → r.next ≡ total
    pub ends : r.has_last ≡ true → r.last ≡ total

  -- The stored segments lie beyond `next_`.
  pub record Inv (r : Reassembler) : Type 0 where
    pub core : Core r
    pub pieces : AllPieces stream (min (edge r) total) r.segs
    pub gap : From (r.next + 1) r.segs

  -- A step that only moves the output forward.
  pub record Advance (r p : Reassembler) : Type 0 where
    pub core : Core p
    pub forward : r.next ≤ p.next
    pub edge : edge p ≡ edge r
    pub popped : p.output.popped_cnt ≡ r.output.popped_cnt
    pub has_last : p.has_last ≡ r.has_last
    pub last : p.last ≡ r.last
    pub closed : p.output.is_closed ≡ r.output.is_closed

  pub avail_cap-room :
      {r : Reassembler} → Core r → (avail_cap r ≡ room r.output) × (r.next + room r.output ≡ edge r)
  unfolding avail_cap
  avail_cap-room c = let d = c.delivers in (available_capacity-room d.valid, omega arith)

  pub write-Advance :
      (new : Bytes) (e : ℕ) {r : Reassembler}
      → Core r
      → length new < max_size
      → r.next ≤ e
      → e ≤ total
      → total < max_size
      → take (room r.output) new ≡ slice stream r.next (e - r.next)
      → Advance r (write new e r)
  unfolding write
  write-Advance new e {r} c small h k t text = elim (Bool-cases r.output.is_closed) [
    | inl shut ↦ rw (push_closed new r.output shut) (
        let e' : r.next ≡ e = omega (arith, c.finished shut) in
        ground (arith, e', c, subst (Delivers stream r.output) e' c.delivers))
    | inr open_ ↦
        let p = push-Pushed_open new c.delivers.valid small open_ in
        let e' : r.next + (e - r.next) ≡ e = omega arith in
        ground (
          arith,
          c,
          open_,
          p.capacity,
          p.closed,
          p.popped,
          subst (Delivers stream (push new r.output)) e'
              (push-Delivers stream new (e - r.next) c.delivers open_ small text (omega arith)),
        )
  ]

  -- A text that fits is taken whole.
  pub write_fits :
      (new : Bytes) (e : ℕ) {r : Reassembler}
      → Core r
      → r.next ≤ e
      → e ≤ edge r
      → e ≤ total
      → total < max_size
      → new ≡ slice stream r.next (e - r.next)
      → Advance r (write new e r)
  write_fits new e {r} c h f k t text =
      let size : length new ≡ e - r.next =
        ap length text ∙ length-slice stream r.next (e - r.next) in
      write-Advance new e c (omega arith) h k t
        (take_all (room r.output) new (omega (arith, avail_cap-room c)) ∙ text)

  absorb-Advance :
      {t : Seg} {r : Reassembler}
      → Core r
      → IsPiece stream (min (edge r) total) t
      → total < max_size
      → t.begin ≤ r.next
      → Advance r (absorb t r)
  unfolding absorb
  absorb-Advance {t} {r} c p small h = elim (leb_cases t.end r.next) [
    | inl (old, e) ↦ rw e (ground (arith, c))
    | inr (new, e) ↦ rw e (
        write_fits (seg_text r.next t) t.end c (omega arith) (omega arith) (omega arith) small
          (seg_text-slice stream (min (edge r) total) r.next p (omega arith) h new))
  ]

  pub Advance-trans : {r p q : Reassembler} → Advance r p → Advance p q → Advance r q
  Advance-trans a b = record {
    core = b.core;
    forward = omega arith;
    edge = b.edge ∙ a.edge;
    popped = b.popped ∙ a.popped;
    has_last = b.has_last ∙ a.has_last;
    last = b.last ∙ a.last;
    closed = b.closed ∙ a.closed;
  }

  -- What the loop leaves: the output moved forward up to a gap.
  pub record Drained (r p : Reassembler) : Type 0 where
    pub advance : Advance r p
    pub pieces : AllPieces stream (min (edge r) total) p.segs
    pub gap : From (p.next + 1) p.segs

  pub drain-Drained :
      (ts : List Seg) {r : Reassembler}
      → Core r
      → AllPieces stream (min (edge r) total) ts
      → From 0 ts
      → total < max_size
      → Drained r (drain ts r)
  unfolding drain
  drain-Drained [] {r} c ps f small = ground (arith, c)
  drain-Drained (t ∷ ts) {r} c ps f small = elim (ltb_cases r.next t.begin) [
    | inl (far, e) ↦ rw e (ground (arith, c, ps, f))
    | inr (near, e) ↦
        let a = absorb-Advance c ps.0 small near in
        let bound : min (edge r) total ≡ min (edge (absorb t r)) total =
          ap (λ x. min x total) (sym a.edge) in
        let d =
          drain-Drained ts a.core (subst (λ x. AllPieces stream x ts) bound ps.1)
            (From-le t.begin 0 ts (omega arith) f.1) small in
        rw e (record {
          advance = Advance-trans a d.advance;
          pieces =
              subst (λ x. AllPieces stream x (drain ts (absorb t r)).segs) (sym bound) d.pieces;
          gap = d.gap;
        })
  ]
