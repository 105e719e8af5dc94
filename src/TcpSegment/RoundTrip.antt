-- ===== src/TcpSegment/RoundTrip.antt =====
-- util/tcp_segment.cc: `serialize` and `parse` against one another.
use Prim.Native.Nat.{bit_and, bit_or}
use cs144_2024_winter.Base.{
  ne→==, append-nil, ℕ, ◌+◌, ◌^◌, ◌<◌, ◌≡◌, refl, sym, ap, subst, ◌∙◌, arith, Bool, true, false,
  not, ◌||◌, List, [], ◌∷◌, ◌++◌, Option, none, some, Bytes, length, if◌then◌else◌, ◌==◌,
}
use cs144_2024_winter.WrappingIntegers.{Wrap32}
use cs144_2024_winter.Parser.{Parser, parser, ◌>>=◌, remove_prefix, dump_all}
use cs144_2024_winter.Parser.Buffer.{joined, AllFilled}
use cs144_2024_winter.Parser.Strings.{remove_prefix-zero, parser-Holds_all, joined-dump_all}
use cs144_2024_winter.Parser.Integer.{Holds, Returns, integer-Returns}
use cs144_2024_winter.Serializer.{big_endian, written, serializer, output, output-payload, AllBytes}
use cs144_2024_winter.Checksum.{internet_checksum, add, add_all, value}
use cs144_2024_winter.Checksum.Value.{add_all-joined, value_le}
use cs144_2024_winter.TcpSegment.{
  TcpSegment, serialize, compute_checksum, parse, parse_fields, make_segment, head_fields, flags,
  flag, ackno_raw,
}
use cs144_2024_winter.TcpSegment.Check.{compute_checksum_accepted}

-- Fields that fit their widths.
pub record IsValid (t : TcpSegment) : Type 0 where
  pub src_port : t.udinfo.src_port < 2 ^ 16
  pub dst_port : t.udinfo.dst_port < 2 ^ 16
  pub cksum : t.udinfo.cksum < 2 ^ 16
  pub seqno : t.message.sender.seqno.raw_value < 2 ^ 32
  pub ackno : ackno_raw t.message.receiver.ackno < 2 ^ 32
  pub window_size : t.message.receiver.window_size < 2 ^ 16

-- A segment has one RST flag, for the sender and the receiver.
abbrev pub one_rst : TcpSegment → TcpSegment
one_rst t =
    let rst = t.message.sender.rst || t.message.receiver.rst in
    record t {
      message = record {
        sender = record (t.message.sender) { rst = rst };
        receiver = record (t.message.receiver) { rst = rst };
      };
    }

flag_byte : Option Wrap32 → Bool → Bool → Bool → ℕ
flag_byte o r s f =
    bit_or
      (bit_or (bit_or (elim o [ none ↦ 0 | some a ↦ 0b00010000 ]) (flag r 0b00000100))
        (flag s 0b00000010))
      (flag f 0b00000001)

-- What `parse` reads from the byte of the flags.
flags_read :
    (o : Option Wrap32) (r s f : Bool)
    → (not (bit_and (flag_byte o r s f) 0b00000100 == 0) ≡ r)
      × (not (bit_and (flag_byte o r s f) 0b00000010 == 0) ≡ s)
      × (not (bit_and (flag_byte o r s f) 0b00000001 == 0) ≡ f)
      × ((if bit_and (flag_byte o r s f) 0b00010000 == 0
            then none
            else some (record { raw_value = ackno_raw o }))
          ≡ o)
      × (flag_byte o r s f < 256)
unfolding flag_byte ackno_raw
flags_read none false false false = (refl, refl, refl, refl, omega arith)
flags_read none false false true = (refl, refl, refl, refl, omega arith)
flags_read none false true false = (refl, refl, refl, refl, omega arith)
flags_read none false true true = (refl, refl, refl, refl, omega arith)
flags_read none true false false = (refl, refl, refl, refl, omega arith)
flags_read none true false true = (refl, refl, refl, refl, omega arith)
flags_read none true true false = (refl, refl, refl, refl, omega arith)
flags_read none true true true = (refl, refl, refl, refl, omega arith)
flags_read (some w) false false false = (refl, refl, refl, refl, omega arith)
flags_read (some w) false false true = (refl, refl, refl, refl, omega arith)
flags_read (some w) false true false = (refl, refl, refl, refl, omega arith)
flags_read (some w) false true true = (refl, refl, refl, refl, omega arith)
flags_read (some w) true false false = (refl, refl, refl, refl, omega arith)
flags_read (some w) true false true = (refl, refl, refl, refl, omega arith)
flags_read (some w) true true false = (refl, refl, refl, refl, omega arith)
flags_read (some w) true true true = (refl, refl, refl, refl, omega arith)

segment_flags :
    (t : TcpSegment)
    → (not (bit_and (flags t) 0b00000100 == 0) ≡ (t.message.sender.rst || t.message.receiver.rst))
      × (not (bit_and (flags t) 0b00000010 == 0) ≡ t.message.sender.syn)
      × (not (bit_and (flags t) 0b00000001 == 0) ≡ t.message.sender.fin)
      × ((if bit_and (flags t) 0b00010000 == 0
            then none
            else some (record { raw_value = ackno_raw t.message.receiver.ackno }))
          ≡ t.message.receiver.ackno)
      × (flags t < 256)
unfolding flags flag_byte
segment_flags t =
    flags_read t.message.receiver.ackno (t.message.sender.rst || t.message.receiver.rst)
      t.message.sender.syn t.message.sender.fin

-- The bytes of a segment.
pub segment_bytes : TcpSegment → Bytes
segment_bytes t =
    big_endian 2 t.udinfo.src_port
    ++ (big_endian 2 t.udinfo.dst_port
        ++ (big_endian 4 t.message.sender.seqno.raw_value
            ++ (big_endian 4 (ackno_raw t.message.receiver.ackno)
                ++ (big_endian 1 80
                    ++ (big_endian 1 (flags t)
                        ++ (big_endian 2 t.message.receiver.window_size
                            ++ (big_endian 2 t.udinfo.cksum
                                ++ (big_endian 2 0 ++ t.message.sender.payload))))))))

make_segment-Returns :
    (t : TcpSegment) {p : Parser}
    → Holds p t.message.sender.payload
    → Returns
        (make_segment t.udinfo t.message.sender.seqno.raw_value
          (ackno_raw t.message.receiver.ackno)
          80
          (flags t)
          t.message.receiver.window_size)
        p
        (one_rst t)
        t.message.sender.payload
unfolding make_segment
make_segment-Returns t {p} held =
    let (rst, syn, fin, ackno, small) = segment_flags t in
    let none_left = remove_prefix-zero p.input in
    let text : joined (dump_all p.input) ≡ t.message.sender.payload =
      joined-dump_all t.message.sender.payload held in
    (
      record p { input = remove_prefix 0 p.input; error = false },
      rw (none_left, text, rst, syn, fin, ackno, held.fine) refl,
      rw none_left (record { valid = held.valid; rest = held.rest; fine = refl }),
    )

parse_fields-Returns :
    (old t : TcpSegment) {p : Parser}
    → IsValid t
    → Holds p (segment_bytes t)
    → Returns (parse_fields old) p (one_rst t) t.message.sender.payload
unfolding parse_fields segment_bytes
parse_fields-Returns old t {p} v held =
    let (rst, syn, fin, ackno, small) = segment_flags t in
    let (q1, e1, h1) = integer-Returns 2 old.udinfo.src_port t.udinfo.src_port _ v.src_port held in
    let (q2, e2, h2) = integer-Returns 2 old.udinfo.dst_port t.udinfo.dst_port _ v.dst_port h1 in
    let (q3, e3, h3) = integer-Returns 4 0 t.message.sender.seqno.raw_value _ v.seqno h2 in
    let (q4, e4, h4) =
      integer-Returns 4 t.message.sender.seqno.raw_value (ackno_raw t.message.receiver.ackno) _
        v.ackno h3 in
    let (q5, e5, h5) = integer-Returns 1 0 80 _ (omega arith) h4 in
    let (q6, e6, h6) = integer-Returns 1 80 (flags t) _ (omega (arith, small)) h5 in
    let (q7, e7, h7) =
      integer-Returns 2 old.message.receiver.window_size t.message.receiver.window_size _
        v.window_size h6 in
    let (q8, e8, h8) = integer-Returns 2 old.udinfo.cksum t.udinfo.cksum _ v.cksum h7 in
    let (q9, e9, h9) = integer-Returns 2 0 0 t.message.sender.payload (omega arith) h8 in
    let (q10, e10, h10) = make_segment-Returns t h9 in
    (q10, rw (◌>>=◌, e1, e2, e3, e4, e5, e6, e7, e8, e9) e10, h10)

joined-pair :
    (head buf : Bytes) → joined (head ∷ (if length buf == 0 then [] else buf ∷ [])) ≡ head ++ buf
unfolding joined
joined-pair head [] = refl
joined-pair head (b ∷ buf) =
    rw (ne→== (length (b ∷ buf)) 0 (omega arith)) (ap (λ t. head ++ t) (append-nil (b ∷ buf)))

pub joined-serialize : (t : TcpSegment) → joined (output (serialize t serializer)) ≡ segment_bytes t
unfolding serialize head_fields segment_bytes big_endian
joined-serialize t =
    let fields : List (ℕ × ℕ) = head_fields t ++ (2, t.udinfo.cksum) ∷ (2, 0) ∷ [] in
    ap joined (output-payload t.message.sender.payload fields (omega arith))
    ∙ joined-pair (written fields) t.message.sender.payload

pub length-segment_bytes :
    (t : TcpSegment) → length (segment_bytes t) ≡ 20 + length t.message.sender.payload
unfolding segment_bytes big_endian
length-segment_bytes t = omega arith

pub message-compute_checksum :
    (base : ℕ) (t : TcpSegment) → (compute_checksum base t).message ≡ t.message
unfolding compute_checksum
message-compute_checksum base t = refl

pub ports-compute_checksum :
    (base : ℕ) (t : TcpSegment)
    → ((compute_checksum base t).udinfo.src_port ≡ t.udinfo.src_port)
      × ((compute_checksum base t).udinfo.dst_port ≡ t.udinfo.dst_port)
unfolding compute_checksum
ports-compute_checksum base t = (refl, refl)

pub compute_checksum-IsValid :
    (base : ℕ) {t : TcpSegment} → IsValid t → IsValid (compute_checksum base t)
unfolding compute_checksum
compute_checksum-IsValid base {t} v = record {
  src_port = v.src_port;
  dst_port = v.dst_port;
  cksum = omega (
    arith,
    value_le (
        add_all
          (output (serialize (record t { udinfo = record (t.udinfo) { cksum = 0 } }) serializer))
          (internet_checksum base)),
  );
  seqno = v.seqno;
  ackno = v.ackno;
  window_size = v.window_size;
}

-- With a pseudo-header's sum that is not 0 and a payload of less than 60000 bytes, a segment whose
-- fields fit their widths and whose checksum was computed comes back from `parse` without an error,
-- however its bytes are cut into strings that are not empty. Its two RST flags come back as one.
pub segment_parse-serialize :
    (base : ℕ) (old t : TcpSegment) (ss : List Bytes)
    → 0 < base
    → base < 2 ^ 20
    → length t.message.sender.payload < 60000
    → AllBytes t.message.sender.payload
    → IsValid t
    → AllFilled ss
    → joined ss ≡ joined (output (serialize (compute_checksum base t) serializer))
    → (p : Parser) × (parse base old (parser ss) ≡ some (one_rst (compute_checksum base t), p))
      × (p.error ≡ false)
unfolding parse
segment_parse-serialize base old t ss pos h l a v filled same =
    let sent = compute_checksum base t in
    let text : joined ss ≡ segment_bytes sent = same ∙ joined-serialize sent in
    let held = parser-Holds_all ss filled (
      omega (
        arith,
        ap (λ s. length s) text,
        length-segment_bytes sent,
        ap (λ m. length m.sender.payload) (message-compute_checksum base t),
      )) in
    let accepted : value (add_all (dump_all (parser ss).input) (internet_checksum base)) ≡ 0 =
      ap value (
        add_all-joined (dump_all (parser ss).input) (internet_checksum base)
        ∙ ap (λ w. add w (internet_checksum base)) (joined-dump_all (joined ss) held ∙ same)
        ∙ sym (add_all-joined (output (serialize sent serializer)) (internet_checksum base)))
      ∙ compute_checksum_accepted base t pos h l a in
    let (p, e, left) =
      parse_fields-Returns old sent (compute_checksum-IsValid base v)
        (subst (Holds (parser ss)) text held) in
    (p, rw accepted e, left.fine)
