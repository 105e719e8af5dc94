-- ===== src/TcpSender/Sequences.antt =====
-- src/tcp_sender.cc: sequences of segments that were transmitted.
use cs144_2024_winter.Base.{
  ℕ, ◌+◌, ◌≤◌, ◌≡◌, subst, sym, ap, ◌∙◌, true, List, [], ◌∷◌, ◌++◌, arith, bit, add64_small, length,
  append_assoc, append-nil, Bytes,
}
use cs144_2024_winter.ByteStream.{ByteStream}
use cs144_2024_winter.WrappingIntegers.{Wrap32}
use cs144_2024_winter.TcpMessage.{SenderMessage, sequence_length, max_payload_size}
use cs144_2024_winter.TcpSender.Outstanding.{IsSegment, numbered}
use cs144_2024_winter.TcpSender.Fill.{used}

-- The payloads of segments, joined.
unfoldable pub payloads : List SenderMessage → Bytes
payloads [] = []
payloads (m ∷ ms) = m.payload ++ payloads ms

pub payloads-snoc :
    (ms : List SenderMessage) (m : SenderMessage)
    → payloads (ms ++ m ∷ []) ≡ payloads ms ++ m.payload
unfolding payloads
payloads-snoc [] m = append-nil m.payload
payloads-snoc (n ∷ ms) m =
    ap (λ b. n.payload ++ b) (payloads-snoc ms m)
    ∙ sym (append_assoc n.payload (payloads ms) m.payload)

-- Segments that take up the numbers from `a` to `z`, one after the other.
abbrev pub Consecutive : Wrap32 → ℕ → ℕ → List SenderMessage → Type 0
Consecutive isn a z [] = a ≡ z
Consecutive isn a z (m ∷ ms) = IsSegment isn a m × Consecutive isn (a + sequence_length m) z ms

pub Consecutive-snoc :
    (isn : Wrap32) (a z : ℕ) (ms : List SenderMessage) (m : SenderMessage)
    → Consecutive isn a z ms
    → IsSegment isn z m
    → Consecutive isn a (z + sequence_length m) (ms ++ m ∷ [])
Consecutive-snoc isn a z [] m c s = (subst (λ k. IsSegment isn k m) (sym c) s, omega arith)
Consecutive-snoc isn a z (n ∷ ms) m c s =
    (c.0, Consecutive-snoc isn (a + sequence_length n) z ms m c.1 s)

-- A FIN needs an input that was closed, and RST tells of its error.
abbrev pub AllPlain : ByteStream → List SenderMessage → Type 0
AllPlain input [] = Unit {0}
AllPlain input (m ∷ ms) =
    ((m.fin ≡ true → input.is_closed ≡ true) × (m.rst ≡ input.error)) × AllPlain input ms

pub AllPlain-snoc :
    (input : ByteStream) (ms : List SenderMessage) (m : SenderMessage)
    → AllPlain input ms
    → (m.fin ≡ true → input.is_closed ≡ true)
    → m.rst ≡ input.error
    → AllPlain input (ms ++ m ∷ [])
AllPlain-snoc input [] m p f r = ((f, r), tt)
AllPlain-snoc input (n ∷ ms) m p f r = (p.0, AllPlain-snoc input ms m p.1 f r)

pub numbered-snoc :
    (isn : Wrap32) (a z : ℕ) (ms : List SenderMessage) (m : SenderMessage)
    → Consecutive isn a z ms
    → numbered a (ms ++ m ∷ []) ≡ numbered a ms ++ (z, m) ∷ []
numbered-snoc isn a z [] m c = ap (λ k. (k, m) ∷ []) c
numbered-snoc isn a z (n ∷ ms) m c =
    ap (λ t. (a, n) ∷ t) (numbered-snoc isn (a + sequence_length n) z ms m c.1)

pub sequence_length-used :
    (m : SenderMessage) → length m.payload ≤ max_payload_size → sequence_length m ≡ used m
unfolding sequence_length
sequence_length-used m h = ground (
  arith,
  add64_small (bit m.syn) (length m.payload),
  add64_small (bit m.syn + length m.payload) (bit m.fin),
)
