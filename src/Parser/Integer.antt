-- ===== src/Parser/Integer.antt =====
-- util/parser.hh: `integer` of the parser against `integer` of the serializer.
use native.Mathlib.Nat.{div-div-eq-div-mul, div-le_self, div-eq_of_lt}
use cs144_2024_winter.Base.{
  ℕ, zero, suc, ◌+◌, ◌*◌, ◌/◌, ◌%◌, ◌^◌, ◌<◌, ◌≡◌, refl, sym, ap, subst, ◌∙◌, arith, false, [], ◌∷◌,
  ◌++◌, some, Bytes, length, length-append, ◌==◌, ltb, if◌then◌else◌, Bool-cases, inl, inr, le→ltb,
  u64_mod,
}
use cs144_2024_winter.Base.Bits.{pow_add, mod_small}
use cs144_2024_winter.Serializer.{big_endian, AllBytes}
use cs144_2024_winter.Parser.{
  Parser, Reads, ◌>>=◌, returns, next_byte, shift_in, integer as read_integer, bytes, check_size,
  remove_prefix, parser,
}
use cs144_2024_winter.Parser.Buffer.{IsValid, remaining, remove_prefix-Advanced, buffer_list_one}

-- A parser without an error that has these bytes to go.
pub record Holds (p : Parser) (tail : Bytes) : Type 0 where
  pub valid : IsValid p.input
  pub rest : remaining p.input ≡ tail
  pub fine : p.error ≡ false

-- A parser of one string.
pub parser-Holds : (s : Bytes) → 0 < length s → length s < u64_mod → Holds (parser (s ∷ [])) s
unfolding parser
parser-Holds s h k =
    let (v, e) = buffer_list_one s h k in record { valid = v; rest = e; fine = refl }

-- The read returns `a` and leaves `tail`.
abbrev pub Returns : {A : Type 0} → Reads A → Parser → A → Bytes → Type 0
Returns m p a tail = (q : Parser) × (m p ≡ some (a, q)) × Holds q tail

next_byte-Returns :
    {p : Parser} (x : ℕ) (tail : Bytes) → Holds p (x ∷ tail) → Returns next_byte p x tail
unfolding next_byte
next_byte-Returns {p} x tail h =
    let a = remove_prefix-Advanced x tail h.valid h.rest in
    (
      record p { input = remove_prefix 1 p.input },
      rw (next_byte, a.first) refl,
      record { valid = a.valid; rest = a.rest; fine = h.fine },
    )

-- The number so far, shifted, and the next byte.
shift_step :
    (n width v : ℕ)
    → v < 2 ^ (8 * width)
    → v / 2 ^ (8 * suc n) * 256 % 2 ^ (8 * width) + v / 2 ^ (8 * n) % 256 ≡ v / 2 ^ (8 * n)
shift_step n width v h =
    let q = v / 2 ^ (8 * n) in
    let up : v / 2 ^ (8 * suc n) ≡ q / 256 =
      ap (λ k. v / 2 ^ k) {x = 8 * suc n} {y = 8 * n + 8} (omega arith)
      ∙ ap (λ d. v / d) (pow_add (8 * n) 8)
      ∙ sym (div-div-eq-div-mul v (2 ^ (8 * n)) 256) in
    omega (
      arith,
      up,
      mod_small (q / 256 * 256) (2 ^ (8 * width)) (omega (arith, div-le_self v (2 ^ (8 * n)), h)),
      ap (λ k. k * 256 % 2 ^ (8 * width)) up,
    )

-- Reads one after the other.
pub bind-Returns :
    {A B : Type 0} (m : Reads A) (f : A → Reads B) {p : Parser} (a : A) (t : Bytes) (b : B)
    (u : Bytes)
    → Returns m p a t
    → ((q : Parser) → Holds q t → Returns (f a) q b u)
    → Returns (m >>= f) p b u
bind-Returns m f {p} a t b u (q, e, h) k = let (r, e', h') = k q h in (r, rw (◌>>=◌, e) e', h')

shift_in-Returns :
    (n width v : ℕ) {p : Parser} (tail : Bytes)
    → v < 2 ^ (8 * width)
    → Holds p (big_endian n v ++ tail)
    → Returns (shift_in n width (v / 2 ^ (8 * n))) p v tail
unfolding shift_in big_endian
shift_in-Returns zero width v {p} tail h k =
    (p, ap (λ a. some (a, p)) {x = v / 2 ^ (8 * 0)} {y = v} (omega arith), k)
shift_in-Returns (suc n) width v {p} tail h k =
    bind-Returns next_byte (λ x. shift_in n width (v / 2 ^ (8 * suc n) * 256 % 2 ^ (8 * width) + x))
      (v / 2 ^ (8 * n) % 256) (big_endian n v ++ tail) v tail
      (next_byte-Returns (v / 2 ^ (8 * n) % 256) (big_endian n v ++ tail) k)
      (λ q held.
        subst (λ out. Returns (shift_in n width out) q v tail) (sym (shift_step n width v h))
          (shift_in-Returns n width v tail h held))

length-big_endian : (n v : ℕ) → length (big_endian n v) ≡ n
unfolding big_endian
length-big_endian zero v = refl
length-big_endian (suc n) v = ap suc (length-big_endian n v)

checked :
    (width : ℕ) (s tail : Bytes) {p : Parser}
    → Holds p (s ++ tail)
    → length s ≡ width
    → check_size width p ≡ p
unfolding check_size
checked width s tail {p} h e =
    let enough : ltb p.input.size width ≡ false =
      le→ltb p.input.size width
        (omega (arith, h.valid.size, ap (λ t. length t) h.rest, length-append s tail, e)) in
    rw (enough, h.fine) refl

integer_checked :
    (width out v : ℕ) (tail : Bytes) {p : Parser}
    → Holds p (big_endian width v ++ tail)
    → read_integer width out p ≡ (if width == 1 then next_byte p else shift_in width width 0 p)
unfolding read_integer
integer_checked width out v tail {p} k =
    ap
      (λ (q : Parser).
        if q.error
        then some (out, q)
        else if width == 1
        then next_byte q
        else shift_in width width 0 q)
      (checked width (big_endian width v) tail k (length-big_endian width v))
    ∙ ap
        (λ b.
          if b then some (out, p) else if width == 1 then next_byte p else shift_in width width 0 p)
        k.fine

one_byte :
    (out v : ℕ) {p : Parser} (tail : Bytes)
    → v < 2 ^ (8 * 1)
    → Holds p (big_endian 1 v ++ tail)
    → Returns (read_integer 1 out) p v tail
unfolding big_endian
one_byte out v {p} tail h k =
    let low : v / 2 ^ (8 * 0) % 256 ≡ v = omega (arith, h) in
    let (q, e, held) = next_byte-Returns v tail (subst (λ x. Holds p (x ∷ tail)) low k) in
    (q, integer_checked 1 out v tail k ∙ e, held)

-- A parser that has the bytes which the serializer writes for a number of `width` bytes reads that
-- number, and goes on behind it.
pub integer-Returns :
    (width out v : ℕ) {p : Parser} (tail : Bytes)
    → v < 2 ^ (8 * width)
    → Holds p (big_endian width v ++ tail)
    → Returns (read_integer width out) p v tail
integer-Returns width out v {p} tail h k = elim (Bool-cases (width == 1)) [
  | inl one ↦
      let e : width ≡ 1 = ground (arith, one) in
      subst
        (λ w.
          v < 2 ^ (8 * w)
          → Holds p (big_endian w v ++ tail)
          → Returns (read_integer w out) p v tail)
        (sym e) (one_byte out v tail) h k
  | inr more ↦
      let start : v / 2 ^ (8 * width) ≡ 0 = div-eq_of_lt h in
      let (q, e, held) =
        subst (λ a. Returns (shift_in width width a) p v tail) start
          (shift_in-Returns width width v tail h k) in
      (q, integer_checked width out v tail k ∙ rw more e, held)
]

byte_Holds :
    (b : ℕ) (tail : Bytes) {p : Parser}
    → b < 256
    → Holds p (b ∷ tail)
    → Holds p (big_endian 1 b ++ tail)
unfolding big_endian
byte_Holds b tail {p} h k =
    subst (λ x. Holds p (x ∷ tail)) {x = b} {y = b / 2 ^ (8 * 0) % 256} (omega (arith, h)) k

-- An array is read back.
pub bytes-Returns :
    (old bs : Bytes) {p : Parser} (tail : Bytes)
    → length old ≡ length bs
    → AllBytes bs
    → Holds p (bs ++ tail)
    → Returns (bytes old) p bs tail
unfolding bytes
bytes-Returns [] [] {p} tail e a k = (p, refl, k)
bytes-Returns [] (b ∷ bs) tail e a k = absurd (omega arith)
bytes-Returns (o ∷ old) [] tail e a k = absurd (omega arith)
bytes-Returns (o ∷ old) (b ∷ bs) {p} tail e a k =
    bind-Returns (read_integer 1 o) (λ c. bytes old >>= (λ cs. returns (c ∷ cs))) b (bs ++ tail)
      (b ∷ bs) tail
      (integer-Returns 1 o b (bs ++ tail) (omega (arith, a.0)) (byte_Holds b (bs ++ tail) a.0 k))
      (λ q held.
        bind-Returns (bytes old) (λ cs. returns (b ∷ cs)) bs tail (b ∷ bs) tail
          (bytes-Returns old bs tail (omega arith) a.1 held) (λ r left. (r, refl, left)))
