-- ===== src/TcpSender/Outstanding.antt =====
-- The outstanding segments: consecutive in sequence numbers, from the first not acknowledged in full
-- up to the next one to send.
use cs144_2024_winter.Base.{
  ℕ, ◌+◌, ◌≤◌, ◌<◌, ◌≡◌, refl, subst, sym, Bool, true, false, List, [], ◌∷◌, ◌++◌, ap, ◌∙◌, arith,
  ◌==◌, leb_cases, le→ltb, ne→==, inl, inr, add64_small, length,
}
use cs144_2024_winter.ByteStream.Invariant.{max_size}
use cs144_2024_winter.WrappingIntegers.{Wrap32, wrap}
use cs144_2024_winter.TcpMessage.{SenderMessage, sequence_length, max_payload_size}
use cs144_2024_winter.TcpSender.{ost_insert, drop_acked}

abbrev pub Segments : Type 0
Segments = List (ℕ × SenderMessage)

-- A segment that starts at the absolute number `k`.
pub record IsSegment (isn : Wrap32) (k : ℕ) (m : SenderMessage) : Type 0 where
  pub seq : m.seqno ≡ wrap k isn
  pub first : m.syn ≡ (k == 0)
  pub positive : 0 < sequence_length m
  pub sized : length m.payload ≤ max_payload_size

-- The segments run from `a` to `z` without a gap.
abbrev pub Chain : Wrap32 → ℕ → ℕ → Segments → Type 0
Chain isn a z [] = a ≡ z
Chain isn a z ((k, m) ∷ rest) =
    (k ≡ a) × IsSegment isn k m × Chain isn (a + sequence_length m) z rest

-- The number at which the segments start.
abbrev pub start : ℕ → Segments → ℕ
start z [] = z
start z ((k, m) ∷ rest) = k

-- The first segment is not acknowledged in full by `ack`.
abbrev pub Front : ℕ → ℕ → Segments → Type 0
Front ack z [] = ack ≡ z
Front ack z ((k, m) ∷ rest) = (k ≤ ack) × (ack < k + sequence_length m)

pub Chain-le : (isn : Wrap32) (a z : ℕ) (segs : Segments) → Chain isn a z segs → a ≤ z
Chain-le isn a z [] c = omega arith
Chain-le isn a z ((k, m) ∷ rest) c = omega (arith, Chain-le isn (a + sequence_length m) z rest c.2)

-- A number beyond the first goes behind it.
ost_insert_behind :
    (z k : ℕ) (m n : SenderMessage) (rest : Segments)
    → k < z
    → ost_insert z m ((k, n) ∷ rest) ≡ (k, n) ∷ ost_insert z m rest
unfolding ost_insert
ost_insert_behind z k m n rest h = rw (le→ltb z k (omega arith), ne→== z k (omega arith))

-- The first of a chain lies before its end.
Chain-lt :
    (isn : Wrap32) (a z k : ℕ) (n : SenderMessage) (rest : Segments)
    → Chain isn a z ((k, n) ∷ rest)
    → k < z
Chain-lt isn a z k n rest c =
    omega (arith, Chain-le isn (a + sequence_length n) z rest c.2, c.1.positive)

-- A new segment at the end.
pub ost_insert-Chain :
    (isn : Wrap32) (a z : ℕ) (m : SenderMessage) (segs : Segments)
    → Chain isn a z segs
    → IsSegment isn z m
    → Chain isn a (z + sequence_length m) (ost_insert z m segs)
unfolding ost_insert
ost_insert-Chain isn a z m [] c s = (omega arith, s, omega arith)
ost_insert-Chain isn a z m ((k, n) ∷ rest) c s =
    rw (ost_insert_behind z k m n rest (Chain-lt isn a z k n rest c))
      (c.0, c.1, ost_insert-Chain isn (a + sequence_length n) z m rest c.2 s)

pub start-ost_insert :
    (isn : Wrap32) (a z : ℕ) (m : SenderMessage) (segs : Segments)
    → Chain isn a z segs
    → start (z + sequence_length m) (ost_insert z m segs) ≡ start z segs
unfolding ost_insert
start-ost_insert isn a z m [] c = refl
start-ost_insert isn a z m ((k, n) ∷ rest) c =
    rw (ost_insert_behind z k m n rest (Chain-lt isn a z k n rest c))

pub ost_insert-Front :
    (isn : Wrap32) (a z ack : ℕ) (m : SenderMessage) (segs : Segments)
    → Chain isn a z segs
    → 0 < sequence_length m
    → Front ack z segs
    → Front ack (z + sequence_length m) (ost_insert z m segs)
unfolding ost_insert
ost_insert-Front isn a z ack m [] c p f = (omega arith, omega arith)
ost_insert-Front isn a z ack m ((k, n) ∷ rest) c p f =
    rw (ost_insert_behind z k m n rest (Chain-lt isn a z k n rest c)) f

-- What an acknowledgement leaves: the segments from the first that it does not cover.
pub drop_acked-Chain :
    (isn : Wrap32) (a z ack : ℕ) (segs : Segments)
    → Chain isn a z segs
    → a ≤ ack
    → ack ≤ z
    → z < max_size
    → let rest = drop_acked ack segs in Chain isn (start z rest) z rest × Front ack z rest
unfolding drop_acked
drop_acked-Chain isn a z ack [] c h k l = (refl, omega arith)
drop_acked-Chain isn a z ack ((j, m) ∷ rest) c h k l =
    let z' = Chain-le isn (a + sequence_length m) z rest c.2 in
    let end = add64_small j (sequence_length m) (omega arith) in
    rw end (elim (leb_cases (j + sequence_length m) ack) [
      | inl (covered, e) ↦
          rw e (drop_acked-Chain isn (a + sequence_length m) z ack rest c.2 (omega arith) k l)
      | inr (kept, e) ↦ rw e (subst (λ b. Chain isn b z ((j, m) ∷ rest)) (sym c.0) c, omega arith)
    ])

pub start-le : (ack z : ℕ) (segs : Segments) → Front ack z segs → start z segs ≤ ack
start-le ack z [] f = omega arith
start-le ack z ((k, m) ∷ rest) f = f.0

abbrev pub is_empty : Segments → Bool
is_empty [] = true
is_empty (_ ∷ _) = false

pub is_empty-ost_insert :
    (k : ℕ) (m : SenderMessage) (segs : Segments) → is_empty (ost_insert k m segs) ≡ false
unfolding ost_insert
is_empty-ost_insert k m [] = refl
is_empty-ost_insert k m ((j, n) ∷ rest) = ground arith

-- Segments with the numbers at which they start, one after the other from `z` on.
abbrev pub numbered : ℕ → List SenderMessage → Segments
numbered z [] = []
numbered z (m ∷ ms) = (z, m) ∷ numbered (z + sequence_length m) ms

-- A new segment goes to the end.
pub ost_insert-append :
    (isn : Wrap32) (a z : ℕ) (m : SenderMessage) (segs : Segments)
    → Chain isn a z segs
    → ost_insert z m segs ≡ segs ++ (z, m) ∷ []
unfolding ost_insert
ost_insert-append isn a z m [] c = refl
ost_insert-append isn a z m ((k, n) ∷ rest) c =
    ost_insert_behind z k m n rest (Chain-lt isn a z k n rest c)
    ∙ ap (λ t. (k, n) ∷ t) (ost_insert-append isn (a + sequence_length n) z m rest c.2)
