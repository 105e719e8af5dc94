-- ===== src/TcpSegment/Check.antt =====
-- util/tcp_segment.cc: the computed checksum and the check of `parse`.
use cs144_2024_winter.Base.{
  ℕ, ◌+◌, ◌*◌, ◌/◌, ◌%◌, ◌^◌, ◌<◌, ◌≡◌, refl, ap, ◌∙◌, arith, false, List, [], ◌∷◌, ◌++◌, length,
  length-append,
}
use cs144_2024_winter.Serializer.{
  serializer, big_endian, output, written, written-append, AllBytes-written, output-payload,
  AllBytes,
}
use cs144_2024_winter.Checksum.{InternetChecksum, internet_checksum, add, add_all, value}
use cs144_2024_winter.Checksum.Value.{
  sum-add_le, sum-internet_checksum, sum_grows, add_shift, add-append, value_le, value_complete,
  sum_field, add_all-payload,
}
use cs144_2024_winter.TcpSegment.{TcpSegment, serialize, compute_checksum, head_fields, flags}

length-head : (t : TcpSegment) → length (written (head_fields t)) ≡ 16
unfolding head_fields big_endian
length-head t = refl

parity-head :
    (base : ℕ) (t : TcpSegment)
    → (add (written (head_fields t)) (internet_checksum base)).parity ≡ false
unfolding head_fields big_endian add internet_checksum
parity-head base t = refl

-- The checksum's own field is not among those before it.
sum-head :
    (base k : ℕ) (t : TcpSegment)
    → (add
        (written (head_fields (record t { udinfo = record (t.udinfo) { cksum = k } })))
        (internet_checksum base)).sum
      ≡ (add (written (head_fields t)) (internet_checksum base)).sum
unfolding head_fields flags
sum-head base k t = refl

field_bytes :
    (k : ℕ) (c : InternetChecksum)
    → k < 2 ^ 16
    → c.parity ≡ false
    → c.sum + 0xffff < 2 ^ 32
    → add (written ((2, k) ∷ (2, 0) ∷ [])) c ≡ record { sum = c.sum + k; parity = false }
unfolding big_endian
field_bytes k c h e l =
    ap (λ b. add (b ∷ k / 2 ^ (8 * 0) % 256 ∷ 0 ∷ 0 ∷ []) c) {x = k / 2 ^ (8 * 1) % 256}
      {y = k / 256 % 256} (omega arith)
    ∙ ap (λ b. add (k / 256 % 256 ∷ b ∷ 0 ∷ 0 ∷ []) c) {x = k / 2 ^ (8 * 0) % 256} {y = k % 256}
        (omega arith)
    ∙ sum_field k c h e l

-- The checksum over what `serialize` writes is that over the payload, started with the sum of the
-- fields before the checksum and the checksum itself.
sum_serialized :
    (base : ℕ) (t : TcpSegment)
    → base + 65280 * 16 < 2 ^ 31
    → t.udinfo.cksum < 2 ^ 16
    → add_all (output (serialize t serializer)) (internet_checksum base)
      ≡ add t.message.sender.payload (record {
        sum = (add (written (head_fields t)) (internet_checksum base)).sum + t.udinfo.cksum;
        parity = false;
      })
unfolding serialize
sum_serialized base t h k =
    let head = written (head_fields t) in
    let tail : List (ℕ × ℕ) = (2, t.udinfo.cksum) ∷ (2, 0) ∷ [] in
    let split = written-append (head_fields t) tail in
    let wide : 0 < length (written (head_fields t ++ tail)) =
      omega (arith, ap (λ w. length w) split, length-append head (written tail), length-head t) in
    let c = add head (internet_checksum base) in
    let room : c.sum + 0xffff < 2 ^ 32 = omega (
      arith,
      h,
      sum-add_le head (internet_checksum base) (AllBytes-written (head_fields t)),
      length-head t,
      sum-internet_checksum base,
    ) in
    ap (λ o. add_all o (internet_checksum base))
      (output-payload t.message.sender.payload (head_fields t ++ tail) wide)
    ∙ add_all-payload (written (head_fields t ++ tail)) t.message.sender.payload
        (internet_checksum base)
    ∙ ap (λ w. add t.message.sender.payload (add w (internet_checksum base))) split
    ∙ ap (add t.message.sender.payload) (
        add-append head (written tail) (internet_checksum base)
        ∙ field_bytes t.udinfo.cksum c k (parity-head base t) room)

-- With a pseudo-header's sum that is not 0 and a payload as long as an IP datagram's at most, the
-- words of a segment whose checksum was computed, the checksum included, have the checksum 0, which
-- is what `parse` demands.
pub compute_checksum_accepted :
    (base : ℕ) (t : TcpSegment)
    → 0 < base
    → base < 2 ^ 20
    → length t.message.sender.payload < 60000
    → AllBytes t.message.sender.payload
    → value
        (add_all (output (serialize (compute_checksum base t) serializer)) (internet_checksum base))
      ≡ 0
unfolding compute_checksum
compute_checksum_accepted base t pos h l a =
    let buf = t.message.sender.payload in
    let head = add (written (head_fields t)) (internet_checksum base) in
    let start : ℕ → InternetChecksum = λ z. record { sum = z; parity = false } in
    let bare : TcpSegment = record t { udinfo = record (t.udinfo) { cksum = 0 } } in
    let c = add buf (start head.sum) in
    let ck = value c in
    let low =
      sum_grows (written (head_fields t)) (internet_checksum base)
        (AllBytes-written (head_fields t))
        (omega (arith, h, length-head t, sum-internet_checksum base)) in
    let high =
      sum-add_le (written (head_fields t)) (internet_checksum base)
        (AllBytes-written (head_fields t)) in
    let c_high = sum-add_le buf (start head.sum) a in
    let c_low =
      sum_grows buf (start head.sum) a
        (omega (arith, high, h, l, length-head t, sum-internet_checksum base)) in
    let plain : value (add_all (output (serialize bare serializer)) (internet_checksum base)) ≡ ck =
      ap value (
        sum_serialized base bare (omega (arith, h)) (omega arith)
        ∙ ap (λ z. add buf (start z))
            {x = (add (written (head_fields bare)) (internet_checksum base)).sum + 0} {y = head.sum}
            (omega (arith, sum-head base 0 t))) in
    let found = value (add_all (output (serialize bare serializer)) (internet_checksum base)) in
    let checked : TcpSegment = record t { udinfo = record (t.udinfo) { cksum = found } } in
    let d =
      add buf
        (start ((add (written (head_fields checked)) (internet_checksum base)).sum + found)) in
    let whole : d.sum ≡ c.sum + ck =
      ap (λ z. (add buf (start z)).sum) {y = head.sum + ck}
        (omega (arith, sum-head base found t, plain))
      ∙ add_shift buf head.sum ck false a
          (omega (arith, value_le c, high, h, l, length-head t, sum-internet_checksum base)) in
    ap value (sum_serialized base checked (omega (arith, h)) (omega (arith, plain, value_le c)))
    ∙ value_complete c d (omega (arith, low, c_low, pos, sum-internet_checksum base))
        (omega (arith, c_high, high, h, l, length-head t, sum-internet_checksum base)) whole
