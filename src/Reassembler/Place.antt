-- ===== src/Reassembler/Place.antt =====
-- src/reassembler.cc: the branches of `insert` on where a part of the stream lies.
use cs144_2024_winter.Base.{
  ℕ, ◌+◌, ◌-◌, ◌≤◌, ◌<◌, min, ◌≡◌, ap, ap₂, ◌∙◌, Bool, true, List, [], arith, ltb, Bytes, Option,
  none, some, length, take, ◌⊎◌, inl, inr, ltb_cases, leb_cases, le→ltb, ==_iff, ne→==, add64,
  add64_small, sub64_small, substr,
}
use cs144_2024_winter.ByteStream.{push}
use cs144_2024_winter.ByteStream.Invariant.{room, max_size}
use cs144_2024_winter.Reassembler.{Reassembler, Seg, avail_cap, write, place, whole_seg}
use cs144_2024_winter.Reassembler.Slice.{slice, substr-slice, take-slice}
use cs144_2024_winter.Reassembler.Segments.{
  From, AllPieces, emplace-From, emplace-AllPieces, whole_seg-IsPiece,
}
use cs144_2024_winter.Reassembler.Inv.{
  edge, Core, Advance, avail_cap-room, write-Advance, write_fits,
}

module _ (stream : ℕ → ℕ) (total : ℕ) (small : total < max_size) where
  -- The substring is a piece of the stream, and the last one says so.
  pub record IsPart (first_index : ℕ) (new : Bytes) (is_last : Bool) : Type 0 where
    pub text : new ≡ slice stream first_index (length new)
    pub within : first_index + length new ≤ total
    pub last : is_last ≡ true → first_index + length new ≡ total

  -- A substring that would be stored ends where the output's capacity ends, or before.
  abbrev pub Fits : Reassembler → ℕ → Bytes → Type 0
  Fits r first_index new = (first_index ≤ r.next) ⊎ (first_index + length new ≤ edge r)

  -- What `place` does where it does not return.
  pub record Placed (r p : Reassembler) : Type 0 where
    pub advance : Advance stream total r p
    pub pieces : AllPieces stream (min (edge r) total) p.segs
    pub ordered : From 0 p.segs

  module _ (first_index : ℕ) (new : Bytes) {r : Reassembler} (c : Core stream total r)
      (ps : AllPieces stream (min (edge r) total) r.segs) (f : From 0 r.segs)
      (text : new ≡ slice stream first_index (length new))
      (within : first_index + length new ≤ total) where
    -- All the 64-bit terms of `place`.
    place_no_wrap :
        (add64 first_index (length new) ≡ first_index + length new)
        × (add64 (length new) first_index ≡ first_index + length new)
        × (add64 r.next (length new) ≡ r.next + length new)
        × (add64 r.next (avail_cap r) ≡ edge r)
        × (avail_cap r ≡ room r.output)
    place_no_wrap =
        let d = c.delivers in
        let (a, b) = avail_cap-room stream total c in
        (
          add64_small first_index (length new) (omega arith),
          omega (arith, add64_small (length new) first_index),
          add64_small r.next (length new) (omega arith),
          rw a (add64_small r.next (room r.output) (omega arith) ∙ b),
          a,
        )

    -- The text of a substring that starts at or before `next_`, cut to `n` bytes.
    cut_text :
        (n : ℕ)
        → first_index ≤ r.next
        → r.next + n ≤ first_index + length new
        → substr new (r.next - first_index) n ≡ slice stream r.next n
    cut_text n h k =
        ap (λ b. substr b (r.next - first_index) n) text
        ∙ substr-slice stream first_index (length new) (r.next - first_index) n (omega arith)
        ∙ ap (λ i. slice stream i n) {x = first_index + (r.next - first_index)} {y = r.next}
            (omega arith)

    front_text :
        (n : ℕ) → first_index ≡ r.next → n ≤ length new → take n new ≡ slice stream r.next n
    front_text n h k =
        ap (take n) text
        ∙ take-slice stream n first_index (length new)
        ∙ ap₂ (slice stream) {x = first_index} {y = r.next} {u = min n (length new)} {v = n} h
            (omega arith)

    -- `place` returns early only for a substring with nothing new that fits.
    abbrev pub Result : Option Reassembler → Type 0
    Result none = (first_index + length new ≤ r.next) ⊎ (edge r ≤ first_index)
    Result (some p) =
        Placed r p × (first_index ≤ r.next → min (first_index + length new) (edge r) ≤ p.next)

    -- The branches that write and those that store.
    write-Placed :
        (text' : Bytes) (e : ℕ) (segs : List Seg)
        → r.next ≤ e
        → e ≤ edge r
        → e ≤ total
        → text' ≡ slice stream r.next (e - r.next)
        → AllPieces stream (min (edge r) total) segs
        → From 0 segs
        → Placed r (record (write text' e r) { segs = segs })
    unfolding write
    write-Placed text' e segs h k t e' ps' f' =
        ground (arith, ps', f', write_fits stream total text' e c h k t small e')

    before_next :
        first_index < r.next → ltb first_index r.next ≡ true → Result (place first_index new r)
    unfolding place write
    before_next h t =
        let (sum, sum', _, full, avail) = place_no_wrap in
        let back = sub64_small r.next first_index (omega arith) (omega arith) in
        let left = sub64_small (length new) (r.next - first_index) in
        let c' = avail_cap-room stream total c in
        rw (t, sum, sum', full, avail, back)
          (elim (leb_cases (first_index + length new) r.next) [
            | inl (old, t1) ↦ rw t1 (inl old)
            | inr (new_, t1) ↦ rw t1 (elim (leb_cases (edge r) (first_index + length new)) [
              | inl (over, t2) ↦ rw t2 (
                write-Placed (substr new (r.next - first_index) (room r.output)) (edge r) []
                    (omega arith) (omega arith) (omega arith)
                    (ap (λ n. substr new (r.next - first_index) n) {x = room r.output}
                        {y = edge r - r.next} (omega arith)
                      ∙ cut_text (edge r - r.next) (omega arith) (omega arith))
                    tt tt,
                λ _. omega arith,
              )
              | inr (inside, t2) ↦
                  rw (t2, left (omega arith) (omega arith))
                    (
                      write-Placed
                          (substr new (r.next - first_index) (length new - (r.next - first_index)))
                          (first_index + length new) r.segs (omega arith) (omega arith) within
                          (ap (λ n. substr new (r.next - first_index) n)
                              {x = length new - (r.next - first_index)}
                              {y = first_index + length new - r.next} (omega arith)
                            ∙ cut_text (first_index + length new - r.next) (omega arith)
                                (omega arith))
                          ps f,
                      λ _. omega arith,
                    )
            ])
          ])

    at_next : first_index ≡ r.next → length new < max_size → Result (place first_index new r)
    unfolding place write
    at_next h long =
        let (_, _, sum, full, avail) = place_no_wrap in
        let c' = avail_cap-room stream total c in
        let t = le→ltb first_index r.next (omega arith) in
        rw (t, (==_iff first_index r.next).1 h, sum, full, avail)
          (elim (leb_cases (length new) (room r.output)) [
            | inl (fits, t2) ↦ rw t2 (
              write-Placed new (r.next + length new) r.segs (omega arith) (omega arith)
                  (omega arith)
                  (text
                    ∙ ap₂ (slice stream) {x = first_index} {y = r.next} {u = length new}
                        {v = r.next + length new - r.next} h (omega arith))
                  ps f,
              λ _. omega arith,
            )
            | inr (over, t2) ↦ rw t2 (cut_short long (omega arith), λ _. omega arith)
          ])
      where
        cut_short :
            length new < max_size
            → room r.output ≤ length new
            → Placed r (record r { output = push new r.output; next = edge r; segs = [] })
        cut_short long over =
            let c' = avail_cap-room stream total c in
            let taken =
              front_text (room r.output) h over
              ∙ ap (slice stream r.next) {x = room r.output} {y = edge r - r.next} (omega arith) in
            ground (
              arith,
              write-Advance stream total new (edge r) c long (omega arith) (omega arith) small
                  taken,
            )

    after_next :
        r.next < first_index → first_index + length new ≤ edge r → Result (place first_index new r)
    unfolding place
    after_next h fits =
        let (sum, _, _, full, avail) = place_no_wrap in
        let c' = avail_cap-room stream total c in
        let piece =
          whole_seg-IsPiece stream (min (edge r) total) first_index new text (omega arith)
            (omega arith) in
        rw (le→ltb first_index r.next (omega arith), full, sum)
          (elim (ltb_cases first_index (edge r)) [
            | inl (inside, t) ↦
                rw
                  (
                    t,
                    le→ltb (edge r) (first_index + length new) fits,
                    ne→== first_index r.next (omega arith),
                  )
                  (ground (
                    arith,
                    c,
                    emplace-AllPieces stream (min (edge r) total) (whole_seg first_index new) r.segs
                        piece ps,
                    emplace-From (whole_seg first_index new) r.segs 0 (omega arith) f,
                  ))
            | inr (beyond, t) ↦ rw (t, ne→== first_index r.next (omega arith)) (inr beyond)
          ])

    pub place-Result :
        Fits r first_index new → length new < max_size → Result (place first_index new r)
    place-Result fits long = elim (ltb_cases first_index r.next) [
      | inl (h, t) ↦ before_next h t
      | inr (h, t) ↦ elim (ltb_cases r.next first_index) [
        | inl (k, _) ↦ after_next k (omega arith)
        | inr (k, _) ↦ at_next (omega arith) long
      ]
    ]
