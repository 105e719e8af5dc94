-- ===== src/Parser/Strings.antt =====
-- util/parser.hh: a parser over several strings, and what it hands out at its end.
use cs144_2024_winter.Base.{
  ℕ, ◌+◌, ◌<◌, ◌≡◌, refl, sym, ap, ◌∙◌, arith, List, [], ◌∷◌, ◌++◌, append-nil, append_assoc, Bytes,
  length, length-append, length-drop, drop, ◌==◌, Bool-cases, inl, inr, add64_small, u64_mod,
}
use cs144_2024_winter.Parser.{
  BufferList, append, append_all, buffer_list, remove_prefix, dump_all, Parser, parser,
  all_remaining,
}
use cs144_2024_winter.Parser.Buffer.{joined, remaining, AllFilled, IsOpen, IsValid, remove_none}
use cs144_2024_winter.Parser.Integer.{Holds}

append_all_sizes :
    (ss : List Bytes) (size : ℕ) (buffer : List Bytes)
    → size + length (joined ss) < u64_mod
    → append_all ss (record { size = size; buffer = buffer; skip = 0 })
      ≡ record { size = size + length (joined ss); buffer = buffer ++ ss; skip = 0 }
unfolding append_all append joined
append_all_sizes [] size buffer h =
    let text = append-nil buffer in
    rw text (ap (λ n. record { size = n; buffer = buffer; skip = 0 }) (omega arith))
append_all_sizes (s ∷ ss) size buffer h =
    let whole = length-append s (joined ss) in
    let now = add64_small size (length s) (omega (arith, whole)) in
    rw
      (
        now,
        append_all_sizes ss (size + length s) (buffer ++ s ∷ []) (omega (arith, whole)),
        append_assoc buffer (s ∷ []) ss,
      )
      (ap (λ n. record { size = n; buffer = buffer ++ s ∷ ss; skip = 0 })
        {x = size + length s + length (joined ss)} {y = size + length (s ++ joined ss)}
        (omega (arith, whole)))

remaining_whole :
    (ss : List Bytes) (n : ℕ) → remaining (record { size = n; buffer = ss; skip = 0 }) ≡ joined ss
unfolding remaining joined
remaining_whole [] n = refl
remaining_whole (s ∷ ss) n = refl

AllFilled-IsOpen : (ss : List Bytes) → AllFilled ss → IsOpen 0 ss
AllFilled-IsOpen [] f = refl
AllFilled-IsOpen (s ∷ ss) f = f

-- Strings none of which is empty.
pub parser-Holds_all :
    (ss : List Bytes) → AllFilled ss → length (joined ss) < u64_mod → Holds (parser ss) (joined ss)
unfolding parser buffer_list
parser-Holds_all ss f h =
    let n = 0 + length (joined ss) in
    rw (append_all_sizes ss 0 [] (omega (arith, h))) (record {
      valid = record {
        size = omega (arith, ap (λ t. length t) (remaining_whole ss n));
        bounded = omega (arith, h);
        filled = AllFilled-IsOpen ss f;
      };
      rest = remaining_whole ss n;
      fine = refl;
    })

-- Nothing is removed.
pub remove_prefix-zero : (b : BufferList) → remove_prefix 0 b ≡ b
unfolding remove_prefix
remove_prefix-zero b = remove_none b.buffer b

empty_of_length : (s : Bytes) → length s ≡ 0 → s ≡ []
empty_of_length [] h = refl
empty_of_length (x ∷ s) h = absurd (omega arith)

dumped :
    (n skip : ℕ) (buffer : List Bytes)
    → IsValid (record { size = n; buffer = buffer; skip = skip })
    → (joined (dump_all (record { size = n; buffer = buffer; skip = skip }))
        ≡ remaining (record { size = n; buffer = buffer; skip = skip }))
      × AllFilled (dump_all (record { size = n; buffer = buffer; skip = skip }))
unfolding dump_all remaining joined
dumped n skip [] v = elim (Bool-cases (n == 0)) [
  | inl e ↦ (rw e refl, rw e tt)
  | inr e ↦ (rw e refl, rw e tt)
]
dumped n skip (s ∷ ss) v = elim (Bool-cases (n == 0)) [
  | inl e ↦
      (rw e (sym (empty_of_length (drop skip s ++ joined ss) (ground (arith, v.size, e)))), rw e tt)
  | inr e ↦ (rw e refl, rw e (omega (arith, length-drop skip s, v.filled.0), v.filled.1))
]

pub joined-dump_all : {p : Parser} (tail : Bytes) → Holds p tail → joined (dump_all p.input) ≡ tail
joined-dump_all {p} tail h = (dumped p.input.size p.input.skip p.input.buffer h.valid).0 ∙ h.rest

-- `all_remaining` hands out what was not read, and no empty string.
pub joined-all_remaining :
    {p : Parser} (tail : Bytes) → Holds p tail → joined (all_remaining p) ≡ tail
unfolding all_remaining
joined-all_remaining tail h = joined-dump_all tail h

pub AllFilled-all_remaining :
    {p : Parser} (tail : Bytes) → Holds p tail → AllFilled (all_remaining p)
unfolding all_remaining
AllFilled-all_remaining {p} tail h = (dumped p.input.size p.input.skip p.input.buffer h.valid).1
