-- ===== src/Link/Pushed.antt =====
-- The segments that `push` transmits, against what is known of a segment.
use cs144_2024_winter.Base.{
  ℕ, ◌+◌, ◌-◌, ◌≤◌, ◌≡◌, ◌⊎◌, inl, inr, refl, sym, ap, ap₂, ◌∙◌, arith, true, false, ◌==◌, bit,
  List, [], ◌∷◌, ◌++◌, Bytes, length, take, drop, max, min, append_assoc, length-append, Bool,
}
use cs144_2024_winter.WrappingIntegers.{Wrap32}
use cs144_2024_winter.ByteStream.{ByteStream}
use cs144_2024_winter.Reassembler.Slice.{slice, take-slice, drop-slice, length-slice}
use cs144_2024_winter.TcpMessage.{SenderMessage, sequence_length}
use cs144_2024_winter.TcpSender.Sequences.{Consecutive, AllPlain, payloads, sequence_length-used}
use cs144_2024_winter.Link.Sent.{Bounds, IsSent, AllSent}

Consecutive-le : (isn : Wrap32) (a z : ℕ) (ms : List SenderMessage) → Consecutive isn a z ms → a ≤ z
Consecutive-le isn a z [] c = omega arith
Consecutive-le isn a z (m ∷ ms) c =
    omega (arith, Consecutive-le isn (a + sequence_length m) z ms c.1)

take-front : (a b : Bytes) → take (length a) (a ++ b) ≡ a
take-front [] b = refl
take-front (x ∷ a) b = ap (λ t. x ∷ t) (take-front a b)

drop-front : (a b : Bytes) → drop (length a) (a ++ b) ≡ b
drop-front [] b = refl
drop-front (x ∷ a) b = drop-front a b

not_true : (b : Bool) → (b ≡ true → false ≡ true) → b ≡ false
not_true true h = sym (h refl)
not_true false h = refl

module _ (stream : ℕ → ℕ) where
  -- A piece in two parts.
  split_slice :
      (a b : Bytes) (p n : ℕ)
      → a ++ b ≡ slice stream p n
      → (length a ≤ n)
        × (a ≡ slice stream p (length a))
        × (b ≡ slice stream (p + length a) (n - length a))
  split_slice a b p n e =
      let size : length a + length b ≡ n =
        sym (length-append a b) ∙ ap length e ∙ length-slice stream p n in
      let whole : min (length a) n ≡ length a = omega (arith, size) in
      (
        omega (arith, size),
        sym (take-front a b)
            ∙ ap (take (length a)) e
            ∙ take-slice stream (length a) p n
            ∙ ap (slice stream p) whole,
        sym (drop-front a b) ∙ ap (drop (length a)) e ∙ drop-slice stream (length a) p n,
      )

  module _ (isn : Wrap32) (b : Bounds) (input : ByteStream) (last limit e : ℕ) (rest : Bytes)
      (open_ : input.is_closed ≡ false) (fine : input.error ≡ false)
      (room : (limit ≤ 1 + b.edge) ⊎ ((limit ≡ last + 1) × (last ≤ b.next + 1)))
      (begun : (limit ≤ 1) ⊎ (b.is_init ≡ true)) where
    -- Where the segments start, and what is left to send from there on.
    pub record Sending (z : ℕ) (ms : List SenderMessage) : Type 0 where
      pub numbers : Consecutive isn z e ms
      pub plain : AllPlain input ms
      pub bytes : payloads ms ++ rest ≡ slice stream (z - 1) (b.written - (z - 1))
      pub known : z - 1 ≤ b.written
      pub above : last ≤ z
      pub below : e ≤ max z limit

    first-IsSent :
        (z : ℕ) (m : SenderMessage) (ms : List SenderMessage)
        → Sending z (m ∷ ms)
        → IsSent stream isn b z m × Sending (z + sequence_length m) ms
    unfolding payloads
    first-IsSent z m ms s =
        let g = s.numbers.0 in
        let fin : m.fin ≡ false = not_true m.fin (λ f. sym open_ ∙ s.plain.0.0 f) in
        let (short, text, later) =
          split_slice m.payload (payloads ms ++ rest) (z - 1) (b.written - (z - 1))
            (sym (append_assoc m.payload (payloads ms) rest) ∙ s.bytes) in
        let size : sequence_length m ≡ bit (z == 0) + length m.payload =
          sequence_length-used m g.sized
          ∙ ap₂ (λ x y. bit x + length m.payload + bit y) g.first fin
          ∙ omega arith in
        let step : z + sequence_length m - 1 ≡ z - 1 + length m.payload = ground (arith, size) in
        let ends = Consecutive-le isn (z + sequence_length m) e ms s.numbers.1 in
        (
          record {
            seq = g.seq;
            first = g.first;
            no_fin = fin;
            no_rst = s.plain.0.1 ∙ fine;
            text = text;
            within = omega (arith, short, s.known);
            fits = omega (arith, step, ends, s.below, g.positive, room);
            begun = elim begun [
              | inl small ↦ inl (omega (arith, small, ends, s.below, g.positive))
              | inr init ↦ inr init
            ];
          },
          record {
            numbers = s.numbers.1;
            plain = s.plain.1;
            bytes = later ∙ ap₂ (slice stream) (sym step) (omega (arith, step));
            known = omega (arith, step, short, s.known);
            above = omega (arith, s.above);
            below = omega (arith, s.below);
          },
        )

    pub all_sent :
        (z : ℕ) (ms : List SenderMessage)
        → Sending z ms
        → AllSent stream isn b ms
          × (rest ≡ slice stream (e - 1) (b.written - (e - 1)))
          × (e - 1 ≤ b.written)
    unfolding payloads
    all_sent z [] s = (
      tt,
      s.bytes ∙ ap (λ k. slice stream (k - 1) (b.written - (k - 1))) s.numbers,
      omega (arith, s.known, s.numbers),
    )
    all_sent z (m ∷ ms) s =
        let (f, t) = first-IsSent z m ms s in
        let (fs, r, k) = all_sent (z + sequence_length m) ms t in (((z, f), fs), r, k)
