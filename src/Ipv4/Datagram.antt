-- ===== src/Ipv4/Datagram.antt =====
-- util/ipv4_datagram.hh: `serialize` and `parse` against one another.
use cs144_2024_winter.Base.{
  ◌<◌, ◌≡◌, refl, ap, subst, ◌∙◌, false, List, ◌++◌, append-nil, some, Bytes, length, u64_mod,
}
use cs144_2024_winter.Parser.{Parser, parser, ◌>>=◌, all_remaining}
use cs144_2024_winter.Parser.Buffer.{joined, AllFilled}
use cs144_2024_winter.Parser.Strings.{
  parser-Holds_all, joined-all_remaining, AllFilled-all_remaining,
}
use cs144_2024_winter.Parser.Integer.{Holds}
use cs144_2024_winter.Serializer.{Serializer, serializer, output, written, buffer_strings}
use cs144_2024_winter.Serializer.Strings.{joined-output}
use cs144_2024_winter.Ipv4.{
  Ipv4Datagram, serialize_datagram, parse_datagram, compute_checksum, fields,
}
use cs144_2024_winter.Ipv4.RoundTrip.{
  IsValid, serialized, checked, serialize_lem, compute_checksum_lem, output-serialized,
  parse-Returns,
}

-- The datagram with its header's checksum computed, and what its serializer puts out.
abbrev pub checked_datagram : Ipv4Datagram → Ipv4Datagram
checked_datagram d = record d { header = checked d.header }

abbrev pub wire : Ipv4Datagram → List Bytes
wire d = output (buffer_strings d.payload (serialized (checked d.header)))

pub joined-wire :
    (d : Ipv4Datagram) → joined (wire d) ≡ written (fields (checked d.header)) ++ joined d.payload
unfolding joined
joined-wire d =
    joined-output d.payload (serialized (checked d.header))
    ∙ ap (λ o. joined o ++ joined d.payload) (output-serialized (checked d.header))
    ∙ ap (λ o. o ++ joined d.payload) (append-nil (written (fields (checked d.header))))

-- A parser that read this datagram without an error: the same header, and the payload's bytes in
-- strings that are not empty.
abbrev pub ReadsBack : Ipv4Datagram → List Bytes → Ipv4Datagram → Type 0
ReadsBack old ss d =
    (r : Ipv4Datagram) × (p : Parser) × (parse_datagram old (parser ss) ≡ some (r, p))
    × (p.error ≡ false)
    × (r.header ≡ checked d.header)
    × (joined r.payload ≡ joined d.payload)
    × AllFilled r.payload

-- A header of five words whose fields fit their widths is serialized without an exception once its
-- checksum is computed, and however the datagram's bytes are cut into strings that are not empty,
-- parsing them gives the header back, and the payload's bytes, without an error.
pub datagram_parse-serialize :
    (old d : Ipv4Datagram) (ss : List Bytes)
    → IsValid d.header
    → AllFilled ss
    → length (joined ss) < u64_mod
    → joined ss ≡ joined (wire d)
    → (compute_checksum d.header ≡ some (checked d.header))
      × (s : Serializer) × (serialize_datagram (checked_datagram d) serializer ≡ some s)
      × (output s ≡ wire d)
      × ReadsBack old ss d
unfolding serialize_datagram parse_datagram
datagram_parse-serialize old d ss v filled short same =
    let text : joined ss ≡ written (fields (checked d.header)) ++ joined d.payload =
      same ∙ joined-wire d in
    let held = subst (Holds (parser ss)) text (parser-Holds_all ss filled short) in
    let (q, e, left) = parse-Returns old.header d.header (joined d.payload) v held in
    (
      compute_checksum_lem d.header v.ver,
      buffer_strings d.payload (serialized (checked d.header)),
      rw (serialize_datagram, serialize_lem (checked d.header) v.ver) refl,
      refl,
      (
        record { header = checked d.header; payload = all_remaining q },
        q,
        rw (◌>>=◌, e) refl,
        left.fine,
        refl,
        joined-all_remaining (joined d.payload) left,
        AllFilled-all_remaining (joined d.payload) left,
      ),
    )

pub serialize_datagram_lem :
    (d : Ipv4Datagram)
    → d.header.ver ≡ 4
    → serialize_datagram (checked_datagram d) serializer
      ≡ some (buffer_strings d.payload (serialized (checked d.header)))
unfolding serialize_datagram
serialize_datagram_lem d v = rw (serialize_datagram, serialize_lem (checked d.header) v) refl
