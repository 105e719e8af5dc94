-- ===== src/Reassembler/Segments.antt =====
-- The stored segments: each holds its piece of the sender's stream, in order of their starts.
use cs144_2024_winter.Base.{
  ℕ, ◌+◌, ◌-◌, ◌≤◌, ◌<◌, ◌≡◌, refl, ap, ◌∙◌, List, [], ◌∷◌, arith, Bytes, length, add64, sub64,
  add64_small, sub64_small, substr,
}
use cs144_2024_winter.Reassembler.{Seg, whole_seg, emplace, seg_text}
use cs144_2024_winter.Reassembler.Slice.{slice, substr-slice}
use cs144_2024_winter.ByteStream.Invariant.{max_size}

-- Every segment starts at `b` or later, and each no earlier than the one before it.
abbrev pub From : ℕ → List Seg → Type 0
From b [] = Unit {0}
From b (t ∷ ts) = (b ≤ t.begin) × From t.begin ts

pub emplace-From :
    (s : Seg) (ts : List Seg) (b : ℕ) → b ≤ s.begin → From b ts → From b (emplace s ts)
unfolding emplace
emplace-From s [] b h f = (h, tt)
emplace-From s (t ∷ ts) b h f = ground (arith, emplace-From s ts t.begin)

pub From-le : (b c : ℕ) (ts : List Seg) → c ≤ b → From b ts → From c ts
From-le b c [] h f = tt
From-le b c (t ∷ ts) h f = (omega arith, f.1)

module _ (stream : ℕ → ℕ) (edge : ℕ) where
  -- Segment `t` holds its piece of the stream, which ends at `edge` or before.
  pub record IsPiece (t : Seg) : Type 0 where
    pub ordered : t.begin ≤ t.end
    pub within : t.end ≤ edge
    pub whole : t.index ≡ 0
    pub text : t.bytes ≡ slice stream t.begin (t.end - t.begin)

  abbrev pub AllPieces : List Seg → Type 0
  AllPieces [] = Unit {0}
  AllPieces (t ∷ ts) = IsPiece t × AllPieces ts

  pub emplace-AllPieces :
      (s : Seg) (ts : List Seg) → IsPiece s → AllPieces ts → AllPieces (emplace s ts)
  unfolding emplace
  emplace-AllPieces s [] p ps = (p, tt)
  emplace-AllPieces s (t ∷ ts) p ps = ground (arith, emplace-AllPieces s ts)

  -- What the loop writes of a piece is the stream from `next` to the piece's end.
  pub seg_text-slice :
      (next : ℕ) {t : Seg}
      → IsPiece t
      → edge < max_size
      → t.begin ≤ next
      → next < t.end
      → seg_text next t ≡ slice stream next (t.end - next)
  unfolding seg_text
  seg_text-slice next {t} p e h k = ground (arith, p.text, cut, piece)
    where
      cut :
          (add64 (sub64 next t.begin) t.index ≡ next - t.begin) × (sub64 t.end next ≡ t.end - next)
      cut =
          let a = sub64_small next t.begin h (omega arith) in
          (
            rw (a, p.whole) (omega (arith, add64_small (next - t.begin) 0)),
            sub64_small t.end next (omega arith) (omega arith),
          )

      piece : substr t.bytes (next - t.begin) (t.end - next) ≡ slice stream next (t.end - next)
      piece =
          ap (λ b. substr b (next - t.begin) (t.end - next)) p.text
          ∙ substr-slice stream t.begin (t.end - t.begin) (next - t.begin) (t.end - next)
              (omega arith)
          ∙ ap (λ c. slice stream c (t.end - next)) {x = t.begin + (next - t.begin)} {y = next}
              (omega arith)

-- A larger edge admits the same pieces.
pub AllPieces-le :
    (stream : ℕ → ℕ) (e f : ℕ) (ts : List Seg)
    → e ≤ f
    → AllPieces stream e ts
    → AllPieces stream f ts
AllPieces-le stream e f [] h ps = tt
AllPieces-le stream e f (t ∷ ts) h ps = (ground arith, AllPieces-le stream e f ts h ps.1)

-- A substring of the stream makes a piece.
pub whole_seg-IsPiece :
    (stream : ℕ → ℕ) (edge first_index : ℕ) (new : Bytes)
    → new ≡ slice stream first_index (length new)
    → first_index + length new ≤ edge
    → edge < max_size
    → IsPiece stream edge (whole_seg first_index new)
unfolding whole_seg
whole_seg-IsPiece stream edge first_index new e h k =
    let size = length new in
    let end : add64 first_index size ≡ first_index + size =
      omega (arith, add64_small first_index size) in
    record {
      ordered = omega (arith, end);
      within = omega (arith, end);
      whole = refl;
      text = e ∙ ap (slice stream first_index) (omega (arith, end));
    }
