-- ===== src/TcpSegment.antt =====
-- util/tcp_segment.hh, util/tcp_segment.cc and util/udinfo.hh: a TCP message with its header.
pub mod Check
pub mod RoundTrip
mod Tests
use Prim.Native.Nat.{bit_and, bit_or}
use cs144_2024_winter.Base.{
  ℕ, ◌++◌, ◌*◌, ◌/◌, ◌^◌, List, [], ◌∷◌, Bool, not, ◌||◌, ltb, ◌==◌, if◌then◌else◌, Option, none,
  some, sub32,
}
use cs144_2024_winter.WrappingIntegers.{Wrap32}
use cs144_2024_winter.TcpMessage.{SenderMessage, ReceiverMessage}
use cs144_2024_winter.TcpPeer.{TcpMessage}
use cs144_2024_winter.Parser.{Parser, Reads, ◌>>=◌, returns, set_error, remove_prefix, dump_all}
use cs144_2024_winter.Parser
use cs144_2024_winter.Parser.Buffer.{joined}
use cs144_2024_winter.Serializer.{Serializer, serializer, integers, output, buffer_string}
use cs144_2024_winter.Checksum.{internet_checksum, add_all, value}

pub record UserDatagramInfo : Type 0 where
  pub src_port : ℕ
  pub dst_port : ℕ
  pub cksum : ℕ

pub record TcpSegment : Type 0 where
  pub message : TcpMessage
  pub udinfo : UserDatagramInfo

-- The smallest header, in 32-bit words.
abbrev pub tcp_header_min_len : ℕ
tcp_header_min_len = 5

abbrev pub flag : Bool → ℕ → ℕ
flag b n = if b then n else 0

unfoldable pub ackno_raw : Option Wrap32 → ℕ
ackno_raw none = 0
ackno_raw (some w) = w.raw_value

pub flags : TcpSegment → ℕ
flags t =
    bit_or
      (bit_or
        (bit_or (elim t.message.receiver.ackno [ none ↦ 0 | some a ↦ 0b00010000 ])
          (flag (t.message.sender.rst || t.message.receiver.rst) 0b00000100))
        (flag t.message.sender.syn 0b00000010))
      (flag t.message.sender.fin 0b00000001)

-- The fields before the checksum.
pub head_fields : TcpSegment → List (ℕ × ℕ)
head_fields t =
    (2, t.udinfo.src_port)
    ∷ (2, t.udinfo.dst_port)
    ∷ (4, t.message.sender.seqno.raw_value)
    ∷ (4, ackno_raw t.message.receiver.ackno)
    ∷ (1, tcp_header_min_len * 2 ^ 4)
    ∷ (1, flags t)
    ∷ (2, t.message.receiver.window_size)
    ∷ []

pub serialize : TcpSegment → Serializer → Serializer
serialize t s =
    buffer_string t.message.sender.payload
      (integers (head_fields t ++ (2, t.udinfo.cksum) ∷ (2, 0) ∷ []) s)

pub compute_checksum : ℕ → TcpSegment → TcpSegment
compute_checksum datagram_layer_pseudo_checksum t =
    let cleared : TcpSegment = record t { udinfo = record (t.udinfo) { cksum = 0 } } in
    record t {
      udinfo = record (t.udinfo) {
        cksum = value (
            add_all (output (serialize cleared serializer))
              (internet_checksum datagram_layer_pseudo_checksum));
      };
    }

-- What is made of the fields once they are read, and the payload behind the header's options. A
-- header's size below the least one is an error, and the difference then wraps.
pub make_segment : UserDatagramInfo → ℕ → ℕ → ℕ → ℕ → ℕ → Reads TcpSegment
make_segment udinfo seqno ackno offset flags window_size p =
    let data_offset = offset / 2 ^ 4 in
    let rst = not (bit_and flags 0b00000100 == 0) in
    let checked : Parser = record p { error = p.error || ltb data_offset tcp_header_min_len } in
    let rest = remove_prefix (sub32 (data_offset * 4) (tcp_header_min_len * 4)) checked.input in
    some (
      record {
        message = record {
          sender = record {
            seqno = record { raw_value = seqno };
            syn = not (bit_and flags 0b00000010 == 0);
            payload = joined (dump_all rest);
            fin = not (bit_and flags 0b00000001 == 0);
            rst = rst;
          };
          receiver = record {
            ackno =
                if bit_and flags 0b00010000 == 0 then none else some (record { raw_value = ackno });
            window_size = window_size;
            rst = rst;
          };
        };
        udinfo = udinfo;
      },
      record checked { input = rest },
    )

-- The header's fields, in the order in which they are read.
pub parse_fields : TcpSegment → Reads TcpSegment
parse_fields t = do
  src_port ← Parser.integer 2 t.udinfo.src_port
  dst_port ← Parser.integer 2 t.udinfo.dst_port
  seqno ← Parser.integer 4 0
  ackno ← Parser.integer 4 seqno
  offset ← Parser.integer 1 0
  flags ← Parser.integer 1 offset
  window_size ← Parser.integer 2 t.message.receiver.window_size
  cksum ← Parser.integer 2 t.udinfo.cksum
  urgent ← Parser.integer 2 0
  make_segment (record { src_port = src_port; dst_port = dst_port; cksum = cksum }) seqno ackno
      offset flags window_size

-- `buffer()` of the parser is what is left, string by string.
pub parse : ℕ → TcpSegment → Reads TcpSegment
parse datagram_layer_pseudo_checksum t p =
    if value (add_all (dump_all p.input) (internet_checksum datagram_layer_pseudo_checksum)) == 0
    then parse_fields t p
    else some (t, set_error p)
