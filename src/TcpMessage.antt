-- ===== src/TcpMessage.antt =====
-- util/tcp_sender_message.hh, util/tcp_receiver_message.hh and the constants of util/tcp_config.hh:
-- what a TCP sender and a TCP receiver tell one another.
use cs144_2024_winter.Base.{ℕ, Bool, false, Option, [], bit, add64, Bytes, length}
use cs144_2024_winter.WrappingIntegers.{Wrap32}

pub record SenderMessage : Type 0 where
  pub seqno : Wrap32
  pub syn : Bool
  pub payload : Bytes
  pub fin : Bool
  pub rst : Bool

-- A message as it is declared, with no field set.
abbrev pub empty_message : SenderMessage
empty_message = record {
  seqno = record { raw_value = 0 };
  syn = false;
  payload = [];
  fin = false;
  rst = false;
}

unfoldable pub sequence_length : SenderMessage → ℕ
sequence_length m = add64 (add64 (bit m.syn) (length m.payload)) (bit m.fin)

pub record ReceiverMessage : Type 0 where
  pub ackno : Option Wrap32
  pub window_size : ℕ
  pub rst : Bool

abbrev pub max_payload_size : ℕ
max_payload_size = 1000
