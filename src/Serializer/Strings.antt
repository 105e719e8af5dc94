-- ===== src/Serializer/Strings.antt =====
-- util/parser.hh: what the serializer puts out, as one string.
use cs144_2024_winter.Base.{
  ℕ, ◌≡◌, refl, sym, ap, ◌∙◌, arith, List, [], ◌∷◌, ◌++◌, append-nil, append_assoc, Bytes, length,
  ne→==,
}
use cs144_2024_winter.Parser.Buffer.{joined, AllFilled}
use cs144_2024_winter.Serializer.{Serializer, flush, output, buffer_string, buffer_strings}

pub joined-append : (ss ts : List Bytes) → joined (ss ++ ts) ≡ joined ss ++ joined ts
unfolding joined
joined-append [] ts = refl
joined-append (s ∷ ss) ts =
    ap (λ t. s ++ t) (joined-append ss ts) ∙ sym (append_assoc s (joined ss) (joined ts))

pub AllFilled-append : (ss ts : List Bytes) → AllFilled ss → AllFilled ts → AllFilled (ss ++ ts)
AllFilled-append [] ts f g = g
AllFilled-append (s ∷ ss) ts f g = (f.0, AllFilled-append ss ts f.1 g)

flush_filled :
    (out : List Bytes) (x : ℕ) (old : Bytes)
    → flush (record { output = out; buffer = x ∷ old })
      ≡ record { output = out ++ (x ∷ old) ∷ []; buffer = [] }
unfolding flush
flush_filled out x old = rw (flush, ne→== (length (x ∷ old)) 0 (omega arith)) refl

buffer_string_filled :
    (b : ℕ) (buf : Bytes) (s : Serializer)
    → buffer_string (b ∷ buf) s ≡ record (flush s) { output = (flush s).output ++ (b ∷ buf) ∷ [] }
unfolding buffer_string
buffer_string_filled b buf s = rw (buffer_string, ne→== (length (b ∷ buf)) 0 (omega arith)) refl

output_empty : (out : List Bytes) → output (record { output = out; buffer = [] }) ≡ out
unfolding output flush
output_empty out = refl

output_filled :
    (out : List Bytes) (x : ℕ) (old : Bytes)
    → output (record { output = out; buffer = x ∷ old }) ≡ out ++ (x ∷ old) ∷ []
unfolding output
output_filled out x old = ap (λ t. t.output) (flush_filled out x old)

-- After `flush` nothing is held back.
output_flushed :
    (out : List Bytes) (old : Bytes) (bs : List Bytes)
    → output (record (flush (record { output = out; buffer = old })) {
      output = (flush (record { output = out; buffer = old })).output ++ bs;
    })
      ≡ output (record { output = out; buffer = old }) ++ bs
unfolding flush
output_flushed out [] bs = output_empty (out ++ bs) ∙ ap (λ t. t ++ bs) (sym (output_empty out))
output_flushed out (x ∷ old) bs = rw (flush_filled out x old) (
    output_empty ((out ++ (x ∷ old) ∷ []) ++ bs)
    ∙ ap (λ t. t ++ bs) (sym (output_filled out x old)))

output_again :
    (out : List Bytes) (old : Bytes)
    → output (flush (record { output = out; buffer = old }))
      ≡ output (record { output = out; buffer = old })
unfolding flush
output_again out [] = refl
output_again out (x ∷ old) =
    ap output (flush_filled out x old) ∙ output_empty _ ∙ sym (output_filled out x old)

joined-output_string :
    (b : Bytes) (s : Serializer) → joined (output (buffer_string b s)) ≡ joined (output s) ++ b
unfolding joined buffer_string
joined-output_string [] s =
    ap joined (output_again s.output s.buffer) ∙ sym (append-nil (joined (output s)))
joined-output_string (b ∷ buf) s =
    ap (λ t. joined (output t)) (buffer_string_filled b buf s)
    ∙ ap joined (output_flushed s.output s.buffer ((b ∷ buf) ∷ []))
    ∙ joined-append (output s) ((b ∷ buf) ∷ [])
    ∙ ap (λ t. joined (output s) ++ t) (append-nil (b ∷ buf))

pub joined-output :
    (bs : List Bytes) (s : Serializer)
    → joined (output (buffer_strings bs s)) ≡ joined (output s) ++ joined bs
unfolding buffer_strings joined
joined-output [] s = sym (append-nil (joined (output s)))
joined-output (b ∷ bs) s =
    joined-output bs (buffer_string b s)
    ∙ ap (λ t. t ++ joined bs) (joined-output_string b s)
    ∙ append_assoc (joined (output s)) b (joined bs)
