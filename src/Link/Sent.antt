-- ===== src/Link/Sent.antt =====
-- What is known of a segment that was transmitted.
use cs144_2024_winter.Base.{
  ℕ, get_elem?, some, leb_cases, zero, suc, ◌+◌, ◌-◌, ◌≤◌, ◌≡◌, ◌⊎◌, inl, inr, subst, arith, true,
  false, ◌==◌, List, [], ◌∷◌, ◌++◌, length, add64, Bool,
}
use cs144_2024_winter.WrappingIntegers.{Wrap32, wrap}
use cs144_2024_winter.Reassembler.Slice.{slice}
use cs144_2024_winter.TcpMessage.{SenderMessage, sequence_length}
use cs144_2024_winter.TcpSender.Outstanding.{Segments, numbered}
use cs144_2024_winter.TcpSender.{drop_acked}

-- Where the receiver stands, as far as the segments depend on it.
pub record Bounds : Type 0 where
  pub next : ℕ
  pub edge : ℕ
  pub is_init : Bool
  pub written : ℕ

-- One that stands no further back.
pub record Later (b c : Bounds) : Type 0 where
  pub next : b.next ≤ c.next
  pub edge : b.edge ≤ c.edge
  pub is_init : b.is_init ≡ true → c.is_init ≡ true
  pub written : b.written ≤ c.written

module _ (stream : ℕ → ℕ) (isn : Wrap32) where
  -- A segment of the stream, from the absolute number `number` on, that the receiver has room for
  -- or has already read past, and that is not ahead of the SYN.
  pub record IsSent (b : Bounds) (number : ℕ) (m : SenderMessage) : Type 0 where
    pub seq : m.seqno ≡ wrap number isn
    pub first : m.syn ≡ (number == 0)
    pub no_fin : m.fin ≡ false
    pub no_rst : m.rst ≡ false
    pub text : m.payload ≡ slice stream (number - 1) (length m.payload)
    pub within : number - 1 + length m.payload ≤ b.written
    pub fits : (number - 1 ≤ b.next) ⊎ (number - 1 + length m.payload ≤ b.edge)
    pub begun : (number ≡ 0) ⊎ (b.is_init ≡ true)

  pub IsSent-Later :
      {b c : Bounds} {number : ℕ} {m : SenderMessage}
      → Later b c
      → IsSent b number m
      → IsSent c number m
  IsSent-Later l s = record {
    seq = s.seq;
    first = s.first;
    no_fin = s.no_fin;
    no_rst = s.no_rst;
    text = s.text;
    within = omega (arith, s.within, l.written);
    fits = omega (arith, s.fits, l.next, l.edge);
    begun = elim s.begun [ inl z ↦ inl z | inr i ↦ inr (l.is_init i) ];
  }

  abbrev pub AllSent : Bounds → List SenderMessage → Type 0
  AllSent b [] = Unit {0}
  AllSent b (m ∷ ms) = ((number : ℕ) × IsSent b number m) × AllSent b ms

  -- The same of outstanding segments.
  abbrev pub AllQueued : Bounds → Segments → Type 0
  AllQueued b [] = Unit {0}
  AllQueued b ((k, m) ∷ rest) = ((number : ℕ) × IsSent b number m) × AllQueued b rest

  pub AllSent-Later :
      {b c : Bounds} (ms : List SenderMessage) → Later b c → AllSent b ms → AllSent c ms
  AllSent-Later [] l s = tt
  AllSent-Later (m ∷ ms) l ((n, s), rest) = ((n, IsSent-Later l s), AllSent-Later ms l rest)

  pub AllQueued-Later : {b c : Bounds} (q : Segments) → Later b c → AllQueued b q → AllQueued c q
  AllQueued-Later [] l s = tt
  AllQueued-Later ((k, m) ∷ q) l ((n, s), rest) = ((n, IsSent-Later l s), AllQueued-Later q l rest)

  pub AllSent-append :
      (b : Bounds) (ms ns : List SenderMessage) → AllSent b ms → AllSent b ns → AllSent b (ms ++ ns)
  AllSent-append b [] ns s t = t
  AllSent-append b (m ∷ ms) ns s t = (s.0, AllSent-append b ms ns s.1 t)

  pub AllQueued-append :
      (b : Bounds) (q r : Segments) → AllQueued b q → AllQueued b r → AllQueued b (q ++ r)
  AllQueued-append b [] r s t = t
  AllQueued-append b ((k, m) ∷ q) r s t = (s.0, AllQueued-append b q r s.1 t)

  pub AllQueued-numbered :
      (b : Bounds) (z : ℕ) (ms : List SenderMessage) → AllSent b ms → AllQueued b (numbered z ms)
  AllQueued-numbered b z [] s = tt
  AllQueued-numbered b z (m ∷ ms) s = (s.0, AllQueued-numbered b (z + sequence_length m) ms s.1)

  pub AllQueued-drop_acked :
      (b : Bounds) (ack : ℕ) (q : Segments) → AllQueued b q → AllQueued b (drop_acked ack q)
  unfolding drop_acked
  AllQueued-drop_acked b ack [] s = tt
  AllQueued-drop_acked b ack ((k, m) ∷ q) s = elim (leb_cases (add64 k (sequence_length m)) ack) [
    | inl (_, e) ↦ rw e (AllQueued-drop_acked b ack q s.1)
    | inr (_, e) ↦ rw e s
  ]

  -- A member of a list of them is one.
  pub member :
      (b : Bounds) (i : ℕ) (m : SenderMessage) (ms : List SenderMessage)
      → get_elem? ms i ≡ some m
      → AllSent b ms
      → (number : ℕ) × IsSent b number m
  member b zero m (n ∷ ms) e s = subst (λ x. (number : ℕ) × IsSent b number x) (cc) s.0
  member b zero m [] e s = absurd (cc)
  member b (suc i) m (n ∷ ms) e s = member b i m ms e s.1
  member b (suc i) m [] e s = absurd (cc)
