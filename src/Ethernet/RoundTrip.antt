-- ===== src/Ethernet/RoundTrip.antt =====
-- util/ethernet_header.cc: `serialize` and `parse` against one another.
use cs144_2024_winter.Base.{
  ℕ, ◌^◌, ◌<◌, ◌≡◌, refl, sym, ap, ◌∙◌, arith, false, List, [], ◌∷◌, ◌++◌, some, Bytes, length,
  length-append,
}
use cs144_2024_winter.Parser.{Parser, parser, ◌>>=◌}
use cs144_2024_winter.Parser.Integer.{parser-Holds, Holds, Returns, integer-Returns, bytes-Returns}
use cs144_2024_winter.Serializer.{
  serializer, big_endian, octets, integers, output, written, output-integers, written-octets,
  AllBytes,
}
use cs144_2024_winter.Ethernet.{EthernetHeader, parse, serialize}

-- Fields that fit their widths.
pub record IsValid (h : EthernetHeader) : Type 0 where
  pub dst_length : length h.dst ≡ 6
  pub dst_bytes : AllBytes h.dst
  pub src_length : length h.src ≡ 6
  pub src_bytes : AllBytes h.src
  pub type : h.type < 2 ^ 16

header_bytes : EthernetHeader → Bytes
header_bytes h = h.dst ++ (h.src ++ (big_endian 2 h.type ++ []))

length-header_bytes : (h : EthernetHeader) → IsValid h → length (header_bytes h) ≡ 14
unfolding header_bytes big_endian
length-header_bytes h v = omega (
  arith,
  v.dst_length,
  v.src_length,
  length-append h.dst (h.src ++ (big_endian 2 h.type ++ [])),
  length-append h.src (big_endian 2 h.type ++ []),
)

parse-Returns :
    (old h : EthernetHeader) {p : Parser}
    → length old.dst ≡ 6
    → length old.src ≡ 6
    → IsValid h
    → Holds p (header_bytes h)
    → Returns (parse old) p h []
unfolding parse header_bytes
parse-Returns old h {p} d s v k =
    let (q1, e1, h1) = bytes-Returns old.dst h.dst _ (d ∙ sym v.dst_length) v.dst_bytes k in
    let (q2, e2, h2) = bytes-Returns old.src h.src _ (s ∙ sym v.src_length) v.src_bytes h1 in
    let (q3, e3, h3) = integer-Returns 2 old.type h.type [] v.type h2 in
    (q3, rw (◌>>=◌, e1, e2, e3) refl, h3)

-- Whatever the fields held before, parsing what a header was serialized to gives the header back,
-- without an error.
pub header_parse-serialize :
    (old h : EthernetHeader)
    → length old.dst ≡ 6
    → length old.src ≡ 6
    → IsValid h
    → (p : Parser) × (parse old (parser (output (serialize h serializer))) ≡ some (h, p))
      × (p.error ≡ false)
unfolding serialize header_bytes
header_parse-serialize old h d s v =
    let fields : List (ℕ × ℕ) = octets h.dst ++ (octets h.src ++ (2, h.type) ∷ []) in
    let same : written fields ≡ header_bytes h =
      written-octets h.dst (octets h.src ++ (2, h.type) ∷ []) v.dst_bytes
      ∙ ap (λ t. h.dst ++ t) (written-octets h.src ((2, h.type) ∷ []) v.src_bytes) in
    let width = length-header_bytes h v in
    let out : output (integers fields serializer) ≡ header_bytes h ∷ [] =
      output-integers fields (omega (arith, ap (λ t. length t) same, width))
      ∙ ap (λ t. t ∷ []) same in
    let (p, e, k) =
      parse-Returns old h d s v (parser-Holds (header_bytes h) (omega arith) (omega arith)) in
    (p, ap (λ o. parse old (parser o)) out ∙ e, k.fine)
