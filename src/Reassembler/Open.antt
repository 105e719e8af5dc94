-- ===== src/Reassembler/Open.antt =====
-- src/reassembler.cc: a stream that goes on. No end was noted, so more may be written than was known
-- of so far.
use cs144_2024_winter.Base.{
  ℕ, leb_cases, inl, inr, ◌≤◌, ◌<◌, min, ◌≡◌, ◌∙◌, false, List, [], ◌∷◌, Option, none, some, arith,
  Bytes,
}
use cs144_2024_winter.ByteStream.{close}
use cs144_2024_winter.ByteStream.Invariant.{is_closed-push, max_size}
use cs144_2024_winter.Reassembler.Inv.{Inv, edge}
use cs144_2024_winter.Reassembler.Segments.{AllPieces-le}
use cs144_2024_winter.Reassembler.Insert.{insert-Inserted}
use cs144_2024_winter.Reassembler.Place.{IsPart, Fits}
use cs144_2024_winter.Reassembler.{
  Reassembler, Seg, write, place, absorb, drain, finish, insert, note_last, seg_text,
}

abbrev pub GoesOn : Reassembler → Type 0
GoesOn r = (r.has_last ≡ false) × (r.output.is_closed ≡ false)

GoesOn-write : (new : Bytes) (n : ℕ) (r : Reassembler) → GoesOn r → GoesOn (write new n r)
unfolding write
GoesOn-write new n r g = (g.0, is_closed-push new r.output ∙ g.1)

GoesOn-absorb : (t : Seg) (r : Reassembler) → GoesOn r → GoesOn (absorb t r)
unfolding absorb
GoesOn-absorb t r g = elim (leb_cases t.end r.next) [
  | inl (_, e) ↦ rw e g
  | inr (_, e) ↦ rw e (GoesOn-write (seg_text r.next t) t.end r g)
]

GoesOn-drain : (ts : List Seg) (r : Reassembler) → GoesOn r → GoesOn (drain ts r)
unfolding drain
GoesOn-drain [] r g = g
GoesOn-drain (t ∷ ts) r g = ground (arith, g, GoesOn-drain ts (absorb t r) (GoesOn-absorb t r g))

GoesOn-finish : (r : Reassembler) → GoesOn r → GoesOn (finish r)
unfolding finish close
GoesOn-finish r g = ground (arith, g)

-- Of what `place` returns, if anything.
abbrev AllGoOn : Option Reassembler → Type 0
AllGoOn none = Unit {0}
AllGoOn (some p) = GoesOn p

GoesOn-place : (i : ℕ) (new : Bytes) (r : Reassembler) → GoesOn r → AllGoOn (place i new r)
unfolding place write
GoesOn-place i new r g = grind (arith, g, is_closed-push)

after_place :
    (n : Reassembler) (q : Option Reassembler)
    → GoesOn n
    → AllGoOn q
    → GoesOn (elim q [ none ↦ n | some p ↦ finish (drain p.segs p) ])
after_place n none g h = g
after_place n (some p) g h = GoesOn-finish (drain p.segs p) (GoesOn-drain p.segs p h)

pub GoesOn-insert :
    (i : ℕ) (new : Bytes) (r : Reassembler) → GoesOn r → GoesOn (insert i new false r)
unfolding insert note_last
GoesOn-insert i new r g = after_place r (place i new r) g (GoesOn-place i new r g)

module _ (stream : ℕ → ℕ) where
  -- More of the stream becomes known.
  pub Inv-le :
      (total later : ℕ) {r : Reassembler}
      → total ≤ later
      → GoesOn r
      → Inv stream total r
      → Inv stream later r
  Inv-le total later {r} h g v = record {
    core = record {
      delivers = v.core.delivers;
      reach = omega (arith, v.core.reach, h);
      finished = λ e. absurd (cc);
      ends = λ e. absurd (cc);
    };
    pieces =
        AllPieces-le stream (min (edge r) total) (min (edge r) later) r.segs (omega (arith, h))
          v.pieces;
    gap = v.gap;
  }

  -- An insertion never takes `next_` back, and reads nothing.
  pub insert_keeps :
      (total : ℕ) (small : total < max_size) (i : ℕ) (new : Bytes) {r : Reassembler}
      → Inv stream total r
      → IsPart stream total small i new false
      → Fits stream total small r i new
      → let p = insert i new false r in
        (r.next ≤ p.next) × (edge p ≡ edge r) × (p.output.popped_cnt ≡ r.output.popped_cnt)
  unfolding note_last
  insert_keeps total small i new {r} v p fits =
      let k = insert-Inserted stream total small i new false v p fits in
      (k.forward, k.same_edge, k.popped)
