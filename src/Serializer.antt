-- ===== src/Serializer.antt =====
-- The Serializer of util/parser.hh: big-endian integers and strings, appended.
pub mod Strings
use cs144_2024_winter.Base.{
  ℕ, zero, suc, ◌*◌, ◌/◌, ◌%◌, ◌^◌, List, [], ◌∷◌, ◌++◌, Bytes, length, ◌==◌, if◌then◌else◌, ◌≡◌,
  ◌<◌, refl, sym, ap, ◌∙◌, ap₂, arith, append-nil, append_assoc, ne→==,
}

pub record Serializer : Type 0 where
  pub output : List Bytes
  pub buffer : Bytes

unfoldable pub serializer : Serializer
serializer = record { output = []; buffer = [] }

-- The bytes that `integer` appends for a type of so many bytes, the highest first.
unfoldable pub big_endian : ℕ → ℕ → Bytes
big_endian zero val = []
big_endian (suc n) val = val / 2 ^ (8 * n) % 256 ∷ big_endian n val

pub integer : ℕ → ℕ → Serializer → Serializer
integer width val s = record s { buffer = s.buffer ++ big_endian width val }

-- Calls of `integer` one after the other, as pairs of a width and a value.
pub integers : List (ℕ × ℕ) → Serializer → Serializer
integers [] s = s
integers ((width, val) ∷ rest) s = integers rest (integer width val s)

-- `integer` on each byte of an array.
pub octets : Bytes → List (ℕ × ℕ)
octets [] = []
octets (b ∷ bs) = (1, b) ∷ octets bs

unfoldable pub flush : Serializer → Serializer
flush s =
    if length s.buffer == 0 then s else record { output = s.output ++ s.buffer ∷ []; buffer = [] }

-- `buffer`, for one string and for several.
unfoldable pub buffer_string : Bytes → Serializer → Serializer
buffer_string buf s =
    if length buf == 0 then flush s else record (flush s) { output = (flush s).output ++ buf ∷ [] }

unfoldable pub buffer_strings : List Bytes → Serializer → Serializer
buffer_strings [] s = s
buffer_strings (b ∷ bs) s = buffer_strings bs (buffer_string b s)

unfoldable pub output : Serializer → List Bytes
output s = (flush s).output

-- The bytes of calls of `integer`.
abbrev pub written : List (ℕ × ℕ) → Bytes
written [] = []
written ((width, val) ∷ rest) = big_endian width val ++ written rest

pub integers-written :
    (fields : List (ℕ × ℕ)) (s : Serializer)
    → integers fields s ≡ record s { buffer = s.buffer ++ written fields }
unfolding integers integer
integers-written [] s = ap (λ b. record s { buffer = b }) (sym (append-nil s.buffer))
integers-written ((width, val) ∷ rest) s =
    integers-written rest (integer width val s)
    ∙ ap (λ b. record s { buffer = b })
        (append_assoc s.buffer (big_endian width val) (written rest))

-- A fresh serializer puts out one string, of all the bytes that were appended.
pub output-integers :
    (fields : List (ℕ × ℕ))
    → 0 < length (written fields)
    → output (integers fields serializer) ≡ written fields ∷ []
unfolding output flush serializer
output-integers fields h =
    rw
      (
        integers-written fields serializer,
        output,
        flush,
        ne→== (length (written fields)) 0 (omega arith),
      )
      refl

-- Every byte of an array is a byte.
abbrev pub AllBytes : Bytes → Type 0
AllBytes [] = Unit {0}
AllBytes (b ∷ bs) = (b < 256) × AllBytes bs

pub written-octets :
    (bs : Bytes) (rest : List (ℕ × ℕ))
    → AllBytes bs
    → written (octets bs ++ rest) ≡ bs ++ written rest
unfolding octets big_endian
written-octets [] rest a = refl
written-octets (b ∷ bs) rest a =
    ap₂ (λ x t. x ∷ t) {x = b / 2 ^ (8 * 0) % 256} {y = b} (omega (arith, a.0))
      (written-octets bs rest a.1)

pub written-append : (xs ys : List (ℕ × ℕ)) → written (xs ++ ys) ≡ written xs ++ written ys
written-append [] ys = refl
written-append ((width, val) ∷ xs) ys =
    ap (λ t. big_endian width val ++ t) (written-append xs ys)
    ∙ sym (append_assoc (big_endian width val) (written xs) (written ys))

AllBytes-append : (s t : Bytes) → AllBytes s → AllBytes t → AllBytes (s ++ t)
AllBytes-append [] t a b = b
AllBytes-append (x ∷ s) t a b = (a.0, AllBytes-append s t a.1 b)

AllBytes-big_endian : (n v : ℕ) → AllBytes (big_endian n v)
unfolding big_endian
AllBytes-big_endian zero v = tt
AllBytes-big_endian (suc n) v = (omega arith, AllBytes-big_endian n v)

pub AllBytes-written : (fields : List (ℕ × ℕ)) → AllBytes (written fields)
AllBytes-written [] = tt
AllBytes-written ((width, val) ∷ rest) =
    AllBytes-append (big_endian width val) (written rest) (AllBytes-big_endian width val)
      (AllBytes-written rest)

-- A header and a payload are put out as two strings, or as one where the payload is empty.
pub output-payload :
    (buf : Bytes) (fields : List (ℕ × ℕ))
    → 0 < length (written fields)
    → output (buffer_string buf (integers fields serializer))
      ≡ written fields ∷ (if length buf == 0 then [] else buf ∷ [])
unfolding output flush serializer buffer_string
output-payload [] fields h =
    rw
      (
        integers-written fields serializer,
        output,
        flush,
        buffer_string,
        ne→== (length (written fields)) 0 (omega arith),
      )
      refl
output-payload (b ∷ buf) fields h =
    let some_ = ne→== (length (b ∷ buf)) 0 (omega arith) in
    rw
      (
        integers-written fields serializer,
        output,
        flush,
        buffer_string,
        ne→== (length (written fields)) 0 (omega arith),
        some_,
      )
      refl
