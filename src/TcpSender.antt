-- ===== src/TcpSender.antt =====
-- src/tcp_sender.hh and src/tcp_sender.cc: the sending half of a connection.
pub mod RetxTimer
pub mod Outstanding
pub mod Valid
pub mod Fill
pub mod Sequences
pub mod Rounds
pub mod Push
pub mod Syn
pub mod Keeps
pub mod Retransmit
mod Tests
use cs144_2024_winter.Base.{
  ℕ, zero, suc, ◌+◌, ◌%◌, min, Bool, true, false, not, ◌&&◌, ◌||◌, Option, none, some, List, [],
  ◌∷◌, ◌++◌, bit, leb, ltb, ◌==◌, if◌then◌else◌, add64, sub64, u32_mod, u64_mod, Bytes, length,
}
use cs144_2024_winter.WrappingIntegers.{Wrap32, wrap, unwrap}
use cs144_2024_winter.TcpMessage.{
  SenderMessage, ReceiverMessage, empty_message, sequence_length, max_payload_size,
}
use cs144_2024_winter.ByteStream.{ByteStream, bytes_buffered, is_finished, has_error, set_error}
use cs144_2024_winter.ByteStream.Read.{ReadResult, read}
use RetxTimer.{Timer, timer as stopped_timer, grow, reset, turnoff}

pub record TcpSender : Type 0 where
  pub input : ByteStream
  pub isn : Wrap32
  pub initial_rto_ms : ℕ
  pub cur_rto_ms : ℕ
  pub abs_last_ackno : ℕ
  pub abs_exp_ackno : ℕ
  pub has_fin_sent : Bool
  pub is_fin_acked : Bool
  pub retx_cnt : ℕ
  pub is_con_retx : Bool
  pub timer : Timer
  pub wnd_size : ℕ
  pub ost_segs : List (ℕ × SenderMessage)

unfoldable pub tcp_sender : ByteStream → Wrap32 → ℕ → TcpSender
tcp_sender input isn initial_rto_ms = record {
  input = input;
  isn = isn;
  initial_rto_ms = initial_rto_ms;
  cur_rto_ms = initial_rto_ms;
  abs_last_ackno = 0;
  abs_exp_ackno = 0;
  has_fin_sent = false;
  is_fin_acked = false;
  retx_cnt = 0;
  is_con_retx = false;
  timer = stopped_timer;
  wnd_size = 1;
  ost_segs = [];
}

unfoldable pub sequence_numbers_in_flight : TcpSender → ℕ
sequence_numbers_in_flight s = sub64 s.abs_exp_ackno s.abs_last_ackno

pub consecutive_retransmissions : TcpSender → ℕ
consecutive_retransmissions s = s.retx_cnt

-- `std::map::insert`: in the order of the keys, and an entry that is there stays.
unfoldable pub ost_insert : ℕ → SenderMessage → List (ℕ × SenderMessage) → List (ℕ × SenderMessage)
ost_insert k m [] = (k, m) ∷ []
ost_insert k m ((j, n) ∷ rest) =
    let later = ost_insert k m rest in
    if ltb k j then (k, m) ∷ (j, n) ∷ rest else if k == j then (j, n) ∷ rest else (j, n) ∷ later

-- The variables of the loop in `push`, with what was transmitted so far.
pub record Loop : Type 0 where
  pub sender : TcpSender
  pub abs_cur_seqno : ℕ
  pub remain_data_size : ℕ
  pub remain_wnd_size : ℕ
  pub has_syn_sent : Bool
  pub sent : List SenderMessage

-- A round: the SYN flag, on the first segment.
unfoldable pub add_syn : Loop → SenderMessage × Loop
add_syn l =
    if (l.abs_cur_seqno == 0) && not l.has_syn_sent
    then (
      record msg { syn = true; seqno = l.sender.isn },
      record l {
        remain_data_size = sub64 l.remain_data_size 1;
        remain_wnd_size = sub64 l.remain_wnd_size 1;
        has_syn_sent = true;
      },
    )
    else (msg, l)
  where
    msg : SenderMessage
    msg = record empty_message { seqno = wrap l.abs_cur_seqno l.sender.isn }

-- The FIN flag, once the input has ended and the window has room for it.
unfoldable pub add_fin : SenderMessage × Loop → SenderMessage × Loop
add_fin (m, l) =
    if ltb 0 l.remain_wnd_size && is_finished l.sender.input
    then (
      record m { fin = true },
      record l {
        remain_wnd_size = sub64 l.remain_wnd_size 1;
        remain_data_size = 0;
        sender = record sender { has_fin_sent = true };
      },
    )
    else (m, l)
  where
    open l use {sender}

-- The payload, as far as the input, the window and the maximum payload go. `none` is an exception.
unfoldable pub add_payload : SenderMessage × Loop → Option (SenderMessage × Loop)
unfolding add_fin
add_payload (m, l) =
    if l.remain_wnd_size == 0
    then some (m, l)
    else elim (read (min (min (bytes_buffered l.sender.input) l.remain_wnd_size) max_payload_size)
        l.sender.input) [
          | ReadResult.done payload input ↦ some (
              add_fin (
                record m { payload = payload },
                record l {
                  remain_wnd_size = sub64 l.remain_wnd_size (length payload);
                  remain_data_size = sub64 l.remain_data_size (length payload);
                  sender = record sender { input = input };
                },
              ))
          | _ ↦ none
        ]
  where
    open l use {sender}

-- The end of a round: transmit, remember, and start the timer.
unfoldable pub dispatch : SenderMessage × Loop → Loop
unfolding ost_insert
dispatch (m, l) = record l {
  sender = record sender {
    ost_segs = ost_insert l.abs_cur_seqno msg sender.ost_segs;
    abs_exp_ackno = add64 sender.abs_exp_ackno (sequence_length msg);
    timer =
        if not sender.timer.is_running then reset sender.cur_rto_ms sender.timer else sender.timer;
  };
  abs_cur_seqno = add64 l.abs_cur_seqno (sequence_length msg);
  sent = l.sent ++ msg ∷ [];
}
  where
    open l use {sender}

    msg : SenderMessage
    msg = record m { rst = has_error sender.input }

pub data PushResult : Type 0 where
  done : TcpSender → List SenderMessage → PushResult
  threw : PushResult
  out_of_fuel : PushResult

-- `while ( remain_data_size > 0 && remain_wnd_size > 0 )`
unfoldable pub push_loop : ℕ → Loop → PushResult
push_loop zero l = out_of_fuel
push_loop (suc fuel) l =
    let rest : PushResult = elim (add_payload (add_syn l)) [
      | none ↦ threw
      | some filled ↦ push_loop fuel (dispatch filled)
    ] in
    if ltb 0 l.remain_data_size && ltb 0 l.remain_wnd_size then rest else done l.sender l.sent

-- The window that the loop starts with.
unfoldable pub effective_wnd : TcpSender → ℕ
effective_wnd s = if s.wnd_size == 0 then 1 else s.wnd_size

unfoldable pub start_loop : TcpSender → Loop
start_loop s = record {
  sender = s;
  abs_cur_seqno = s.abs_exp_ackno;
  remain_data_size =
      add64 (add64 (bit (s.abs_exp_ackno == 0)) (bytes_buffered s.input))
        (bit (s.input.is_closed && not s.has_fin_sent));
  remain_wnd_size = sub64 (add64 s.abs_last_ackno (effective_wnd s)) s.abs_exp_ackno;
  has_syn_sent = false;
  sent = [];
}

-- Every round lessens `remain_data_size`, so that many rounds and the last test are enough.
unfoldable pub push : TcpSender → PushResult
push s =
    if s.is_fin_acked
    then done s []
    else if leb (add64 s.abs_last_ackno (effective_wnd s)) s.abs_exp_ackno
    then done s []
    else if (start_loop s).remain_wnd_size == 0
    then done s []
    else push_loop (suc (start_loop s).remain_data_size) (start_loop s)

pub make_empty_message : TcpSender → SenderMessage
make_empty_message s = record empty_message {
  seqno = wrap s.abs_exp_ackno s.isn;
  rst = has_error s.input;
}

-- The loop of `receive` that drops the segments acknowledged in full.
unfoldable pub drop_acked : ℕ → List (ℕ × SenderMessage) → List (ℕ × SenderMessage)
drop_acked ack [] = []
drop_acked ack ((k, m) ∷ rest) =
    let later = drop_acked ack rest in
    if leb (add64 k (sequence_length m)) ack then later else (k, m) ∷ rest

-- The two branches of `receive` on the acknowledged number.
unfoldable pub old_ack : ℕ → ℕ → TcpSender → TcpSender
old_ack ack window_size s = record s {
  wnd_size =
      if ltb s.abs_last_ackno (add64 ack window_size)
      then sub64 (add64 ack window_size) s.abs_last_ackno
      else 0;
}

unfoldable pub new_ack : ℕ → ℕ → TcpSender → TcpSender
unfolding drop_acked
new_ack ack window_size s = record s {
  cur_rto_ms = s.initial_rto_ms;
  retx_cnt = 0;
  is_con_retx = false;
  abs_last_ackno = ack;
  wnd_size = window_size;
  ost_segs = drop_acked ack s.ost_segs;
}

-- The end of `receive`: the timer stops when nothing is outstanding, and restarts on new data.
unfoldable pub settle_timer : Bool → TcpSender → TcpSender
settle_timer has_new_data_acked s = elim s.ost_segs [
  | [] ↦ record s { timer = turnoff s.timer }
  | _ ∷ _ ↦ if has_new_data_acked then record s { timer = reset s.cur_rto_ms s.timer } else s
]

-- `receive` from the test on an impossible acknowledgement on.
unfoldable pub accept_ack : ℕ → ℕ → TcpSender → TcpSender
unfolding old_ack new_ack settle_timer
accept_ack ack window_size s =
    if ltb s.abs_exp_ackno ack
    then s
    else settle_timer (ltb s.abs_last_ackno ack) (
        if leb ack s.abs_last_ackno
        then old_ack ack window_size noted
        else new_ack ack window_size noted)
  where
    noted : TcpSender
    noted = record s { is_fin_acked = s.has_fin_sent && (ack == s.abs_exp_ackno) }

unfoldable pub receive : ReceiverMessage → TcpSender → TcpSender
unfolding accept_ack
receive m s = if m.rst then record s { input = set_error s.input } else elim m.ackno [
  | none ↦
      accept_ack 0 m.window_size (record s {
        abs_last_ackno = 0;
        abs_exp_ackno = 0;
        wnd_size = m.window_size;
        ost_segs = [];
      })
  | some ackno ↦ accept_ack (unwrap ackno s.isn s.abs_last_ackno) m.window_size s
]

-- What `tick` does for the first outstanding segment, once the timer has expired. The backoff is
-- left out where the receiver has announced no window. `retx_cnt_` is a 32-bit number.
pub back_off : TcpSender → TcpSender
back_off s = if s.wnd_size == 0 then s else record s {
  retx_cnt = if s.is_con_retx then (s.retx_cnt + 1) % u32_mod else 1;
  is_con_retx = true;
  cur_rto_ms = add64 s.cur_rto_ms s.cur_rto_ms;
}

pub retransmit : TcpSender → TcpSender × List SenderMessage
unfolding back_off
retransmit s = elim s.ost_segs [
  | [] ↦ (record s { timer = turnoff s.timer }, [])
  | (k, m) ∷ _ ↦ let t = back_off s in (record t { timer = reset t.cur_rto_ms t.timer }, m ∷ [])
]

pub tick : ℕ → TcpSender → TcpSender × List SenderMessage
unfolding retransmit
tick ms s =
    if not s.timer.is_running
    then (s, [])
    else if not (grow ms s.timer).is_expired
    then (record s { timer = grow ms s.timer }, [])
    else retransmit (record s { timer = grow ms s.timer })
