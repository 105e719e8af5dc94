-- ===== src/Reassembler/Pending.antt =====
-- src/reassembler.cc: `bytes_pending` and the indices that are stored.
use cs144_2024_winter.Base.{
  ℕ, zero, suc, ◌+◌, ◌-◌, ◌≤◌, ◌<◌, min, ◌≡◌, refl, ap, ap₂, sym, ◌∙◌, Bool, true, false, ◌&&◌,
  ◌||◌, bit, List, [], ◌∷◌, arith, leb, ltb, if◌then◌else◌, leb_cases, inl, inr, add64, sub64,
  add64_small, sub64_small,
}
use cs144_2024_winter.ByteStream.Invariant.{max_size}
use cs144_2024_winter.Reassembler.{Reassembler, Seg, pending_from, stored_bytes, bytes_pending}
use cs144_2024_winter.Reassembler.Segments.{From, From-le, AllPieces}
use cs144_2024_winter.Reassembler.Inv.{Inv, edge}

-- Index `i` is stored by some segment.
pub covers : List Seg → ℕ → Bool
covers [] i = false
covers (t ∷ ts) i = (leb t.begin i && ltb i t.end) || covers ts i

-- How many of the `n` indices from `b` on pass a test.
pub count_range : (ℕ → Bool) → ℕ → ℕ → ℕ
count_range test b zero = 0
count_range test b (suc n) = bit (test b) + count_range test (b + 1) n

count_range-le : (test : ℕ → Bool) (b n : ℕ) → count_range test b n ≤ n
unfolding count_range
count_range-le test b zero = omega arith
count_range-le test b (suc n) = ground (arith, count_range-le test (b + 1) n)

count_range_split :
    (test : ℕ → Bool) (b m n : ℕ)
    → count_range test b (m + n) ≡ count_range test b m + count_range test (b + m) n
unfolding count_range
count_range_split test b zero n = omega (
  arith,
  ap₂ (count_range test) {x = b} {y = b + 0} {u = 0 + n} {v = n} (omega arith) (omega arith),
)
count_range_split test b (suc m) n = omega (
  arith,
  count_range_split test (b + 1) m n,
  ap (count_range test b) {x = suc m + n} {y = suc (m + n)} (omega arith),
  ap (λ c. count_range test c n) {x = b + 1 + m} {y = b + suc m} (omega arith),
)

-- A range cut at `m`.
count_range_cut :
    (test : ℕ → Bool) (a m z : ℕ)
    → a ≤ m
    → m ≤ z
    → count_range test a (z - a) ≡ count_range test a (m - a) + count_range test m (z - m)
count_range_cut test a m z h k =
    ap (count_range test a) {x = z - a} {y = m - a + (z - m)} (omega arith)
    ∙ count_range_split test a (m - a) (z - m)
    ∙ ap (λ c. count_range test a (m - a) + count_range test c (z - m)) {x = a + (m - a)} {y = m}
        (omega arith)

-- Tests that agree on the range count alike.
count_range_ext :
    (p q : ℕ → Bool) (b n : ℕ)
    → ((i : ℕ) → b ≤ i → i < b + n → p i ≡ q i)
    → count_range p b n ≡ count_range q b n
unfolding count_range
count_range_ext p q b zero h = refl
count_range_ext p q b (suc n) h = ground (
  arith,
  h b (omega arith) (omega arith),
  count_range_ext p q (b + 1) n (λ i l u. h i (omega arith) (omega arith)),
)

count_range_all : (b n : ℕ) → count_range (λ i. true) b n ≡ n
unfolding count_range
count_range_all b zero = refl
count_range_all b (suc n) = omega (arith, count_range_all (b + 1) n)

count_range_none : (b n : ℕ) → count_range (λ i. false) b n ≡ 0
unfolding count_range
count_range_none b zero = refl
count_range_none b (suc n) = omega (arith, count_range_none (b + 1) n)

-- Every segment ends by `bound`.
abbrev pub AllWithin : ℕ → List Seg → Type 0
AllWithin bound [] = Unit {0}
AllWithin bound (t ∷ ts) = (t.begin ≤ t.end) × (t.end ≤ bound) × AllWithin bound ts

-- No segment covers an index before the first.
covers_before : (b i : ℕ) (ts : List Seg) → From b ts → i < b → covers ts i ≡ false
unfolding covers
covers_before b i [] f h = refl
covers_before b i (t ∷ ts) f h = ground (arith, covers_before t.begin i ts)

module _ (t : Seg) (ts : List Seg) where
  -- From inside the first segment to its end every index counts.
  count_inside :
      (e : ℕ) → t.begin ≤ e → e ≤ t.end → count_range (covers (t ∷ ts)) e (t.end - e) ≡ t.end - e
  unfolding covers
  count_inside e h k =
      count_range_ext (covers (t ∷ ts)) (λ i. true) e (t.end - e) (λ i l u. ground arith)
      ∙ count_range_all e (t.end - e)

  -- From its end on only the others count.
  count_beyond :
      (e n : ℕ) → t.end ≤ e → count_range (covers (t ∷ ts)) e n ≡ count_range (covers ts) e n
  unfolding covers
  count_beyond e n h = count_range_ext (covers (t ∷ ts)) (covers ts) e n (λ i l u. ground arith)

  -- Before its start none counts.
  count_before :
      (e : ℕ) → From t.begin ts → e ≤ t.begin → count_range (covers (t ∷ ts)) e (t.begin - e) ≡ 0
  count_before e f h =
      count_range_ext (covers (t ∷ ts)) (λ i. false) e (t.begin - e)
        (λ i l u. covers_before t.begin i (t ∷ ts) (omega arith, f) (omega arith))
      ∙ count_range_none e (t.begin - e)

  -- The indices from `e` on, where the first segment reaches beyond `e`.
  count_cons :
      (e bound : ℕ)
      → From t.begin ts
      → t.begin ≤ t.end
      → t.end ≤ bound
      → e < t.end
      → count_range (covers (t ∷ ts)) e (bound - e)
        ≡ (if leb t.begin e then t.end - e else t.end - t.begin)
          + count_range (covers ts) t.end (bound - t.end)
  count_cons e bound f o w h =
      let past = count_beyond t.end (bound - t.end) (omega arith) in
      elim (leb_cases t.begin e) [
        | inl (k, c) ↦ rw c (
            omega (
              arith,
              count_range_cut (covers (t ∷ ts)) e t.end bound (omega arith) w,
              count_inside e k (omega arith),
              past,
            ))
        | inr (k, c) ↦ rw c (
            omega (
              arith,
              count_range_cut (covers (t ∷ ts)) e t.begin bound (omega arith) (omega arith),
              count_range_cut (covers (t ∷ ts)) t.begin t.end bound o w,
              count_before e f (omega arith),
              count_inside t.begin (omega arith) o,
              past,
            ))
      ]

-- The loop adds the indices at `end` and beyond that the rest of the list covers.
pending_from-count :
    (end res bound : ℕ) (ts : List Seg) (b : ℕ)
    → From b ts
    → AllWithin bound ts
    → res ≤ end
    → bound < max_size
    → end ≤ bound
    → pending_from end res ts ≡ res + count_range (covers ts) end (bound - end)
unfolding pending_from
pending_from-count end res bound [] b f w h k l = omega (
  arith,
  count_range_ext (covers []) (λ i. false) end (bound - end)
      (λ i _ _. covers_before (suc i) i [] tt (omega arith)),
  count_range_none end (bound - end),
)
pending_from-count end res bound (t ∷ ts) b f w h k l = elim (leb_cases t.end end) [
  | inl (old, c) ↦ rw c (
      pending_from-count end res bound ts t.begin f.1 w.2 h k l
      ∙ ap (λ n. res + n) (sym (count_beyond t ts end (bound - end) old)))
  | inr (new, c) ↦ rw c (elim (leb_cases t.begin end) [
    | inl (meets, d) ↦
        let sum : add64 res (sub64 t.end end) ≡ res + (t.end - end) = omega (
          arith,
          sub64_small t.end end (omega arith) (omega arith),
          add64_small res (sub64 t.end end) (omega (arith, sub64_small t.end end)),
        ) in
        rw (d, sum)
          (pending_from-count t.end (res + (t.end - end)) bound ts t.begin f.1 w.2 (omega arith) k
              w.1
            ∙ omega (arith, rw d at (count_cons t ts end bound f.1 w.0 w.1 new)))
    | inr (apart, d) ↦
        let sum : add64 res (sub64 t.end t.begin) ≡ res + (t.end - t.begin) = omega (
          arith,
          sub64_small t.end t.begin w.0 (omega arith),
          add64_small res (sub64 t.end t.begin) (omega (arith, sub64_small t.end t.begin)),
        ) in
        rw (d, sum)
          (pending_from-count t.end (res + (t.end - t.begin)) bound ts t.begin f.1 w.2 (omega arith)
              k w.1
            ∙ omega (arith, rw d at (count_cons t ts end bound f.1 w.0 w.1 new)))
  ])
]

-- What `bytes_pending` reports is the number of indices below `bound` that are stored.
pub stored_bytes-count :
    (bound : ℕ) (ts : List Seg)
    → From 0 ts
    → AllWithin bound ts
    → bound < max_size
    → stored_bytes ts ≡ count_range (covers ts) 0 bound
unfolding stored_bytes
stored_bytes-count bound [] f w k = omega (
  arith,
  count_range_ext (covers []) (λ i. false) 0 bound
      (λ i _ _. covers_before (suc i) i [] tt (omega arith)),
  count_range_none 0 bound,
)
stored_bytes-count bound (t ∷ ts) f w k = rw (sub64_small t.end t.begin w.0 (omega arith)) (
    pending_from-count t.end (t.end - t.begin) bound ts t.begin f.1 w.2 (omega arith) k w.1
    ∙ omega (
      arith,
      count_range_cut (covers (t ∷ ts)) 0 t.begin bound (omega arith) (omega arith),
      count_range_cut (covers (t ∷ ts)) t.begin t.end bound w.0 w.1,
      count_before t ts 0 f.1 (omega arith),
      count_inside t ts t.begin (omega arith) w.0,
      count_beyond t ts t.end (bound - t.end) (omega arith),
      ap (count_range (covers (t ∷ ts)) 0) {x = bound - 0} {y = bound} (omega arith),
    ))

Pieces-Within :
    (stream : ℕ → ℕ) (edge total : ℕ) (ts : List Seg)
    → AllPieces stream (min edge total) ts
    → AllWithin total ts
Pieces-Within stream edge total [] ps = tt
Pieces-Within stream edge total (t ∷ ts) ps =
    (ps.0.ordered, omega (arith, ps.0.within), Pieces-Within stream edge total ts ps.1)

-- In a reassembler that holds its invariant, `bytes_pending` is the number of indices of the stream
-- that some stored segment covers, each counted once however the segments overlap.
pub bytes_pending-count :
    (stream : ℕ → ℕ) (total : ℕ) {r : Reassembler}
    → total < max_size
    → Inv stream total r
    → bytes_pending r ≡ count_range (covers r.segs) 0 total
unfolding bytes_pending
bytes_pending-count stream total {r} small v =
    stored_bytes-count total r.segs (From-le (r.next + 1) 0 r.segs (omega arith) v.gap)
      (Pieces-Within stream (edge r) total r.segs v.pieces) small

pub bytes_pending_none : (r : Reassembler) → r.segs ≡ [] → bytes_pending r ≡ 0
unfolding bytes_pending stored_bytes
bytes_pending_none r e = ap stored_bytes e
