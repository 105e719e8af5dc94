-- ===== src/Arp/RoundTrip.antt =====
-- util/arp_message.cc: `serialize` and `parse` against one another.
use cs144_2024_winter.Base.{
  ℕ, ◌+◌, ◌^◌, ◌<◌, ◌≡◌, refl, sym, ap, subst, ◌∙◌, arith, true, false, List, [], ◌∷◌, ◌++◌, some,
  Bytes, length, length-append, if◌then◌else◌,
}
use cs144_2024_winter.Parser.{Parser, parser, ◌>>=◌, set_error}
use cs144_2024_winter.Parser.Integer.{
  parser-Holds, Holds, Returns, bind-Returns, integer-Returns, bytes-Returns,
}
use cs144_2024_winter.Serializer.{
  Serializer, serializer, big_endian, octets, integers, output, written, output-integers,
  written-octets, AllBytes,
}
use cs144_2024_winter.Arp.{
  ArpMessage, arp_message, supported, parse, parse_kind, parse_addresses, serialize,
}

-- Fields that fit their widths.
pub record IsValid (m : ArpMessage) : Type 0 where
  pub supported : supported m ≡ true
  pub hardware_type : m.hardware_type < 2 ^ 16
  pub protocol_type : m.protocol_type < 2 ^ 16
  pub hardware_address_size : m.hardware_address_size < 2 ^ 8
  pub protocol_address_size : m.protocol_address_size < 2 ^ 8
  pub opcode : m.opcode < 2 ^ 16
  pub sender_length : length m.sender_ethernet_address ≡ 6
  pub sender_bytes : AllBytes m.sender_ethernet_address
  pub sender_ip : m.sender_ip_address < 2 ^ 32
  pub target_length : length m.target_ethernet_address ≡ 6
  pub target_bytes : AllBytes m.target_ethernet_address
  pub target_ip : m.target_ip_address < 2 ^ 32

-- The bytes of the five fields, and those of the addresses.
kind_bytes : ArpMessage → Bytes → Bytes
kind_bytes m tail =
    big_endian 2 m.hardware_type
    ++ (big_endian 2 m.protocol_type
        ++ (big_endian 1 m.hardware_address_size
            ++ (big_endian 1 m.protocol_address_size ++ (big_endian 2 m.opcode ++ tail))))

address_bytes : ArpMessage → Bytes → Bytes
address_bytes m tail =
    m.sender_ethernet_address
    ++ (big_endian 4 m.sender_ip_address
        ++ (m.target_ethernet_address ++ (big_endian 4 m.target_ip_address ++ tail)))

parse_kind-Returns :
    (old m : ArpMessage) {p : Parser} (tail : Bytes)
    → IsValid m
    → Holds p (kind_bytes m tail)
    → Returns
        (parse_kind old)
        p
        (record old {
          hardware_type = m.hardware_type;
          protocol_type = m.protocol_type;
          hardware_address_size = m.hardware_address_size;
          protocol_address_size = m.protocol_address_size;
          opcode = m.opcode;
        })
        tail
unfolding parse_kind kind_bytes
parse_kind-Returns old m {p} tail v h =
    let (q1, e1, h1) = integer-Returns 2 old.hardware_type m.hardware_type _ v.hardware_type h in
    let (q2, e2, h2) = integer-Returns 2 old.protocol_type m.protocol_type _ v.protocol_type h1 in
    let (q3, e3, h3) =
      integer-Returns 1 old.hardware_address_size m.hardware_address_size _ v.hardware_address_size
        h2 in
    let (q4, e4, h4) =
      integer-Returns 1 old.protocol_address_size m.protocol_address_size _ v.protocol_address_size
        h3 in
    let (q5, e5, h5) = integer-Returns 2 old.opcode m.opcode tail v.opcode h4 in
    (q5, rw (◌>>=◌, e1, e2, e3, e4, e5) refl, h5)

parse_addresses-Returns :
    (old m : ArpMessage) {p : Parser} (tail : Bytes)
    → length old.sender_ethernet_address ≡ 6
    → length old.target_ethernet_address ≡ 6
    → IsValid m
    → Holds p (address_bytes m tail)
    → Returns
        (parse_addresses old)
        p
        (record old {
          sender_ethernet_address = m.sender_ethernet_address;
          sender_ip_address = m.sender_ip_address;
          target_ethernet_address = m.target_ethernet_address;
          target_ip_address = m.target_ip_address;
        })
        tail
unfolding parse_addresses address_bytes
parse_addresses-Returns old m {p} tail s t v h =
    let (q1, e1, h1) =
      bytes-Returns old.sender_ethernet_address m.sender_ethernet_address _
        (s ∙ sym v.sender_length) v.sender_bytes h in
    let (q2, e2, h2) =
      integer-Returns 4 old.sender_ip_address m.sender_ip_address _ v.sender_ip h1 in
    let (q3, e3, h3) =
      bytes-Returns old.target_ethernet_address m.target_ethernet_address _
        (t ∙ sym v.target_length) v.target_bytes h2 in
    let (q4, e4, h4) =
      integer-Returns 4 old.target_ip_address m.target_ip_address tail v.target_ip h3 in
    (q4, rw (◌>>=◌, e1, e2, e3, e4) refl, h4)

parse-Returns :
    (m : ArpMessage) {p : Parser}
    → IsValid m
    → Holds p (kind_bytes m (address_bytes m []))
    → Returns (parse arp_message) p m []
unfolding parse supported
parse-Returns m {p} v h =
    let k : ArpMessage = record arp_message {
      hardware_type = m.hardware_type;
      protocol_type = m.protocol_type;
      hardware_address_size = m.hardware_address_size;
      protocol_address_size = m.protocol_address_size;
      opcode = m.opcode;
    } in
    bind-Returns (parse_kind arp_message)
      (λ k. if supported k then parse_addresses k else (λ p. some (k, set_error p))) k
      (address_bytes m []) m [] (parse_kind-Returns arp_message m (address_bytes m []) v h)
      (λ q held.
        subst (λ b. Returns (if b then parse_addresses k else (λ p. some (k, set_error p))) q m [])
          (sym v.supported) (parse_addresses-Returns k m [] refl refl v held))

-- The calls of `integer` in `serialize`.
fields : ArpMessage → List (ℕ × ℕ)
fields m =
    (2, m.hardware_type)
    ∷ (2, m.protocol_type)
    ∷ (1, m.hardware_address_size)
    ∷ (1, m.protocol_address_size)
    ∷ (2, m.opcode)
    ∷ (octets m.sender_ethernet_address
        ++ (4, m.sender_ip_address)
          ∷ (octets m.target_ethernet_address ++ (4, m.target_ip_address) ∷ []))

written-fields :
    (m : ArpMessage) → IsValid m → written (fields m) ≡ kind_bytes m (address_bytes m [])
unfolding fields kind_bytes address_bytes
written-fields m v =
    let target =
      written-octets m.target_ethernet_address ((4, m.target_ip_address) ∷ []) v.target_bytes in
    let sender =
      written-octets m.sender_ethernet_address
        ((4, m.sender_ip_address)
          ∷ (octets m.target_ethernet_address ++ (4, m.target_ip_address) ∷ []))
        v.sender_bytes in
    rw (sender, target) refl

length-kind_bytes : (m : ArpMessage) (tail : Bytes) → length (kind_bytes m tail) ≡ 8 + length tail
unfolding kind_bytes big_endian
length-kind_bytes m tail = omega arith

length-address_bytes : (m : ArpMessage) → IsValid m → length (address_bytes m []) ≡ 20
unfolding address_bytes big_endian
length-address_bytes m v = omega (
  arith,
  v.sender_length,
  v.target_length,
  length-append m.sender_ethernet_address (
      big_endian 4 m.sender_ip_address
      ++ (m.target_ethernet_address ++ (big_endian 4 m.target_ip_address ++ []))),
  length-append m.target_ethernet_address (big_endian 4 m.target_ip_address ++ []),
)

-- A supported message whose fields fit their widths is serialized without an exception, and parsing
-- the strings that come out gives the message back, without an error.
pub parse-serialize :
    (m : ArpMessage)
    → IsValid m
    → (s : Serializer) × (serialize m serializer ≡ some s)
      × (p : Parser) × (parse arp_message (parser (output s)) ≡ some (m, p))
      × (p.error ≡ false)
unfolding serialize fields
parse-serialize m v =
    let text = kind_bytes m (address_bytes m []) in
    let width : length text ≡ 28 =
      omega (arith, length-kind_bytes m (address_bytes m []), length-address_bytes m v) in
    let same = written-fields m v in
    let out : output (integers (fields m) serializer) ≡ text ∷ [] =
      output-integers (fields m) (omega (arith, ap (λ t. length t) same, width))
      ∙ ap (λ t. t ∷ []) same in
    let (p, e, h) = parse-Returns m v (parser-Holds text (omega arith) (omega arith)) in
    (
      integers (fields m) serializer,
      rw v.supported refl,
      p,
      ap (λ o. parse arp_message (parser o)) out ∙ e,
      h.fine,
    )
