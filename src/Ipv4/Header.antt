-- ===== src/Ipv4/Header.antt =====
-- util/ipv4_header.cc: the computed checksum and the checks of `parse`.
use cs144_2024_winter.Base.{ℕ, ◌*◌, sub64, ◌≤◌, ◌≡◌, refl, ◌∙◌, arith, false, some, ltb, le→ltb}
use cs144_2024_winter.Parser.{Parser, remove_prefix}
use cs144_2024_winter.Serializer.{serializer, output}
use cs144_2024_winter.Checksum.{internet_checksum, add_all, value}
use cs144_2024_winter.Ipv4.{Ipv4Header, compute_checksum, check_header, header_serializes}

-- The checksum does not depend on the one that stood there.
compute_checksum_again :
    (h : Ipv4Header) (c : ℕ) → compute_checksum (record h { cksum = c }) ≡ compute_checksum h
unfolding compute_checksum
compute_checksum_again h c = refl

computed :
    (h : Ipv4Header) → h.ver ≡ 4 → (c : ℕ) × (compute_checksum h ≡ some (record h { cksum = c }))
unfolding compute_checksum
computed h v =
    let (s, e) = header_serializes (record h { cksum = 0 }) serializer v in
    (value (add_all (output s) (internet_checksum 0)), rw (compute_checksum, e) refl)

-- `check_header` accepts a header of version 4 and of at least five words whose checksum was computed,
-- leaves it as it is and raises no error.
pub check_header-compute_checksum :
    (h : Ipv4Header) (p : Parser)
    → h.ver ≡ 4
    → 5 ≤ h.hlen
    → p.error ≡ false
    → (k : Ipv4Header) × (q : Parser) × (compute_checksum h ≡ some k)
      × (check_header k p ≡ some (k, q))
      × (q.error ≡ false)
unfolding check_header
check_header-compute_checksum h p v l e =
    let (c, done) = computed h v in
    let again : compute_checksum (record h { cksum = c }) ≡ some (record h { cksum = c }) =
      compute_checksum_again h c ∙ done in
    let enough : ltb h.hlen 5 ≡ false = le→ltb h.hlen 5 l in
    (
      record h { cksum = c },
      record p { input = remove_prefix (sub64 (h.hlen * 4) 20) p.input; error = false },
      done,
      ground (arith, v, l, e, again, enough),
      refl,
    )
