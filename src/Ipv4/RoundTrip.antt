-- ===== src/Ipv4/RoundTrip.antt =====
-- util/ipv4_header.cc: `serialize` and `parse` against one another.
use Prim.Native.Nat.{bit_and, bit_or}
use cs144_2024_winter.Base.{
  ℕ, ◌+◌, ◌*◌, ◌/◌, ◌%◌, ◌^◌, ◌<◌, ◌≡◌, refl, sym, ap, ap₂, subst, ◌∙◌, arith, Bool, true, false,
  not, [], ◌∷◌, ◌++◌, some, Bytes, length, if◌then◌else◌, ◌==◌, sub64, ltb,
}
use cs144_2024_winter.Base.Bits.{bit_and_mask}
use cs144_2024_winter.Base.BitFields.{bit_or_field, bit_and_shift}
use cs144_2024_winter.Parser.{Parser, ◌>>=◌, remove_prefix}
use cs144_2024_winter.Parser.Strings.{remove_prefix-zero}
use cs144_2024_winter.Parser.Integer.{Holds, Returns, bind-Returns, integer-Returns}
use cs144_2024_winter.Checksum.{internet_checksum, add_all, value}
use cs144_2024_winter.Checksum.Value.{value_le}
use cs144_2024_winter.Serializer.{
  Serializer, integers, big_endian, written, serializer, output, output-integers,
}
use cs144_2024_winter.Ipv4.{
  Ipv4Header, serialize, compute_checksum, parse, parse_fields, check_header, first_byte, fo_val,
  fields,
}

-- A header of five words, with fields that fit their widths.
pub record IsValid (h : Ipv4Header) : Type 0 where
  pub ver : h.ver ≡ 4
  pub hlen : h.hlen ≡ 5
  pub tos : h.tos < 2 ^ 8
  pub len : h.len < 2 ^ 16
  pub id : h.id < 2 ^ 16
  pub offset : h.offset < 2 ^ 13
  pub ttl : h.ttl < 2 ^ 8
  pub proto : h.proto < 2 ^ 8
  pub cksum : h.cksum < 2 ^ 16
  pub src : h.src < 2 ^ 32
  pub dst : h.dst < 2 ^ 32

first_byte_lem : (h : Ipv4Header) → h.ver ≡ 4 → h.hlen ≡ 5 → first_byte h ≡ 0x45
unfolding first_byte
first_byte_lem h v l = ap₂ (λ a b. bit_or (a * 2 ^ 4) (bit_and b 0xf) % 256) v l

-- The two flags, from digit 13 on.
flag_bits : Bool → Bool → ℕ
flag_bits df mf = (if df then 2 else 0) + (if mf then 1 else 0)

flag_bits_or :
    (df mf : Bool)
    → bit_or (if df then 0x4000 else 0) (if mf then 0x2000 else 0) ≡ flag_bits df mf * 2 ^ 13
unfolding flag_bits
flag_bits_or false false = refl
flag_bits_or false true = refl
flag_bits_or true false = refl
flag_bits_or true true = refl

fo_val_lem :
    (h : Ipv4Header) → h.offset < 2 ^ 13 → fo_val h ≡ flag_bits h.df h.mf * 2 ^ 13 + h.offset
unfolding fo_val
fo_val_lem h o =
    ap₂ bit_or {u = bit_and h.offset 0x1fff} {v = h.offset} (flag_bits_or h.df h.mf)
      (omega (arith, bit_and_mask 13 h.offset, o))
    ∙ bit_or_field 13 (flag_bits h.df h.mf) h.offset o

flag_bits_lt : (df mf : Bool) → flag_bits df mf < 4
unfolding flag_bits
flag_bits_lt df mf = ground arith

df_read : (df mf : Bool) → not (bit_and (flag_bits df mf) 2 * 2 ^ 13 == 0) ≡ df
unfolding flag_bits
df_read false false = refl
df_read false true = refl
df_read true false = refl
df_read true true = refl

mf_read : (df mf : Bool) → not (bit_and (flag_bits df mf) 1 * 2 ^ 13 == 0) ≡ mf
unfolding flag_bits
mf_read false false = refl
mf_read false true = refl
mf_read true false = refl
mf_read true true = refl

-- What `parse` reads from the field of the flags.
flags_read :
    (df mf : Bool) (offset v : ℕ)
    → offset < 2 ^ 13
    → v ≡ flag_bits df mf * 2 ^ 13 + offset
    → (not (bit_and v 0x4000 == 0) ≡ df)
      × (not (bit_and v 0x2000 == 0) ≡ mf)
      × (bit_and v 0x1fff ≡ offset)
flags_read df mf offset v o e =
    let high : v / 2 ^ 13 ≡ flag_bits df mf = omega (arith, e, o) in
    (
      ap (λ n. not (n == 0)) (bit_and_shift 13 2 v ∙ ap (λ n. bit_and n 2 * 2 ^ 13) high)
          ∙ df_read df mf,
      ap (λ n. not (n == 0)) (bit_and_shift 13 1 v ∙ ap (λ n. bit_and n 1 * 2 ^ 13) high)
          ∙ mf_read df mf,
      omega (arith, bit_and_mask 13 v, e, o),
    )

-- The bytes of a header.
header_bytes : Ipv4Header → Bytes → Bytes
header_bytes h tail =
    big_endian 1 (first_byte h)
    ++ (big_endian 1 h.tos
        ++ (big_endian 2 h.len
            ++ (big_endian 2 h.id
                ++ (big_endian 2 (fo_val h)
                    ++ (big_endian 1 h.ttl
                        ++ (big_endian 1 h.proto
                            ++ (big_endian 2 h.cksum
                                ++ (big_endian 4 h.src ++ (big_endian 4 h.dst ++ tail)))))))))

parse_fields-Returns :
    (old h : Ipv4Header) {p : Parser} (tail : Bytes)
    → IsValid h
    → Holds p (header_bytes h tail)
    → Returns (parse_fields old) p h tail
unfolding parse_fields header_bytes
parse_fields-Returns old h {p} tail v held =
    let first = first_byte_lem h v.ver v.hlen in
    let fo = fo_val_lem h v.offset in
    let (df, mf, offset) = flags_read h.df h.mf h.offset (fo_val h) v.offset fo in
    let small = flag_bits_lt h.df h.mf in
    let hlen : bit_and (first_byte h) 0x0f ≡ h.hlen = ap (λ b. bit_and b 0x0f) first ∙ sym v.hlen in
    let ver : first_byte h / 2 ^ 4 ≡ h.ver = omega (arith, first, v.ver) in
    let (q1, e1, h1) = integer-Returns 1 0 (first_byte h) _ (omega (arith, first)) held in
    let (q2, e2, h2) = integer-Returns 1 old.tos h.tos _ v.tos h1 in
    let (q3, e3, h3) = integer-Returns 2 old.len h.len _ v.len h2 in
    let (q4, e4, h4) = integer-Returns 2 old.id h.id _ v.id h3 in
    let (q5, e5, h5) = integer-Returns 2 0 (fo_val h) _ (omega (arith, fo, v.offset, small)) h4 in
    let (q6, e6, h6) = integer-Returns 1 old.ttl h.ttl _ v.ttl h5 in
    let (q7, e7, h7) = integer-Returns 1 old.proto h.proto _ v.proto h6 in
    let (q8, e8, h8) = integer-Returns 2 old.cksum h.cksum _ v.cksum h7 in
    let (q9, e9, h9) = integer-Returns 4 old.src h.src _ v.src h8 in
    let (q10, e10, h10) = integer-Returns 4 old.dst h.dst tail v.dst h9 in
    (
      q10,
      rw (◌>>=◌, e1, e2, e3, e4, e5, e6, e7, e8, e9, e10) (rw (ver, hlen, df, mf, offset) refl),
      h10,
    )

-- The serializer after `serialize`, and the header after `compute_checksum`, where the version is 4.
abbrev pub serialized : Ipv4Header → Serializer
serialized h = integers (fields h) serializer

abbrev pub checked : Ipv4Header → Ipv4Header
checked h = record h {
  cksum = value (add_all (output (serialized (record h { cksum = 0 }))) (internet_checksum 0));
}

pub serialize_lem : (h : Ipv4Header) → h.ver ≡ 4 → serialize h serializer ≡ some (serialized h)
unfolding serialize
serialize_lem h v = rw v refl

pub compute_checksum_lem : (h : Ipv4Header) → h.ver ≡ 4 → compute_checksum h ≡ some (checked h)
unfolding compute_checksum
compute_checksum_lem h v = rw (compute_checksum, serialize_lem (record h { cksum = 0 }) v) refl

pub checked-IsValid : {h : Ipv4Header} → IsValid h → IsValid (checked h)
checked-IsValid {h} v =
    let low =
      value_le (add_all (output (serialized (record h { cksum = 0 }))) (internet_checksum 0)) in
    record {
      ver = v.ver;
      hlen = v.hlen;
      tos = v.tos;
      len = v.len;
      id = v.id;
      offset = v.offset;
      ttl = v.ttl;
      proto = v.proto;
      cksum = omega (arith, low);
      src = v.src;
      dst = v.dst;
    }

check_header-Returns :
    (h : Ipv4Header) {p : Parser} (tail : Bytes)
    → IsValid h
    → Holds p tail
    → Returns (check_header (checked h)) p (checked h) tail
unfolding check_header sub64
check_header-Returns h {p} tail v held =
    let skipped : remove_prefix (sub64 (h.hlen * 4) 20) p.input ≡ p.input =
      ap (λ n. remove_prefix (sub64 (n * 4) 20) p.input) v.hlen ∙ remove_prefix-zero p.input in
    let again : compute_checksum (checked h) ≡ some (checked h) =
      compute_checksum_lem (checked h) v.ver in
    let enough : ltb h.hlen 5 ≡ false = ground (arith, v.hlen) in
    (
      record p { input = remove_prefix (sub64 (h.hlen * 4) 20) p.input; error = false },
      ground (arith, v.ver, held.fine, again, enough),
      rw skipped (record { valid = held.valid; rest = held.rest; fine = refl }),
    )

written-fields : (h : Ipv4Header) → written (fields h) ≡ header_bytes h []
unfolding fields header_bytes
written-fields h = refl

header_bytes-append :
    (h : Ipv4Header) (tail : Bytes) → header_bytes h [] ++ tail ≡ header_bytes h tail
unfolding header_bytes big_endian
header_bytes-append h tail = refl

pub length-header_bytes : (h : Ipv4Header) → length (written (fields h)) ≡ 20
unfolding fields big_endian
length-header_bytes h = refl

pub output-serialized : (h : Ipv4Header) → output (serialized h) ≡ written (fields h) ∷ []
output-serialized h = output-integers (fields h) (omega (arith, length-header_bytes h))

-- `parse` reads a header back and leaves what follows it.
pub parse-Returns :
    (old h : Ipv4Header) {p : Parser} (tail : Bytes)
    → IsValid h
    → Holds p (written (fields (checked h)) ++ tail)
    → Returns (parse old) p (checked h) tail
unfolding parse
parse-Returns old h {p} tail v held =
    bind-Returns (parse_fields old) check_header (checked h) tail (checked h) tail
      (parse_fields-Returns old (checked h) tail (checked-IsValid v) (
        subst (Holds p)
          (ap (λ t. t ++ tail) (written-fields (checked h)) ∙ header_bytes-append (checked h) tail)
          held))
      (λ q left. check_header-Returns h tail v left)
