-- ===== src/TcpSender/Fill.antt =====
-- One round of the loop in `push` up to the point where the segment is transmitted.
use cs144_2024_winter.Base.{
  ℕ, ◌+◌, ◌-◌, ◌≤◌, ◌<◌, min, ◌≡◌, subst, sym, ap, ◌∙◌, true, false, ◌&&◌, [], ◌++◌, some, arith,
  ltb, ◌==◌, bit, ltb_cases, ne→==, Bool-cases, inl, inr, ◌⊎◌, sub64, sub64_small, length,
  length-take, take-append-drop, take,
}
use cs144_2024_winter.ByteStream.{ByteStream, is_finished, pop}
use cs144_2024_winter.ByteStream.Invariant.{max_size, contents, length-contents, bytes_buffered_lem}
use cs144_2024_winter.ByteStream.Invariant
use cs144_2024_winter.ByteStream.Refine.{pop-IsValid, pop-is_closed, pop-error, contents-pop}
use cs144_2024_winter.ByteStream.Read.{ReadResult, read, read_lem}
use cs144_2024_winter.WrappingIntegers.{wrap}
use cs144_2024_winter.WrappingIntegers.RoundTrip.{wrap_zero}
use cs144_2024_winter.TcpMessage.{SenderMessage, max_payload_size}
use cs144_2024_winter.TcpSender.Valid.{IsSound}
use cs144_2024_winter.TcpSender.{TcpSender, Loop, add_syn, add_payload, add_fin}

-- The sequence numbers that a segment takes up.
abbrev pub used : SenderMessage → ℕ
used m = bit m.syn + length m.payload + bit m.fin

abbrev pub buffered : Loop → ℕ
buffered l = l.sender.input.end - l.sender.input.begin

-- What the round finds.
pub record Ready (l : Loop) : Type 0 where
  pub sound : IsSound l.sender
  pub cur : l.abs_cur_seqno ≡ l.sender.abs_exp_ackno
  pub syn : l.has_syn_sent ≡ true → 0 < l.abs_cur_seqno
  pub wnd_left : 0 < l.remain_wnd_size
  pub data_left : 0 < l.remain_data_size
  pub covered : bit (l.abs_cur_seqno == 0) + buffered l ≤ l.remain_data_size
  pub exact :
      l.remain_data_size ≤ bit (l.abs_cur_seqno == 0) + buffered l + bit l.sender.input.is_closed
  pub wnd_word : l.remain_wnd_size < max_size
  pub data_word : l.remain_data_size < max_size

-- After the SYN flag.
record SynAdded (l : Loop) (m : SenderMessage) (n : Loop) : Type 0 where
  cur : n.abs_cur_seqno ≡ l.abs_cur_seqno
  sent : n.sent ≡ l.sent
  sender : n.sender ≡ l.sender
  wnd : n.remain_wnd_size + bit (l.abs_cur_seqno == 0) ≡ l.remain_wnd_size
  rest : n.remain_data_size + bit (l.abs_cur_seqno == 0) ≡ l.remain_data_size
  seq : m.seqno ≡ wrap l.abs_cur_seqno l.sender.isn
  syn : m.syn ≡ (l.abs_cur_seqno == 0)
  payload : m.payload ≡ []
  fin : m.fin ≡ false

add_syn-SynAdded : {l : Loop} → Ready l → SynAdded l (add_syn l).0 (add_syn l).1
unfolding add_syn
add_syn-SynAdded {l} r = ground (
  arith,
  r,
  sub64_small l.remain_data_size 1,
  sub64_small l.remain_wnd_size 1,
  wrap_zero l.abs_cur_seqno l.sender.isn r.sound.zero_point,
)

-- What a round leaves to be transmitted.
pub record Filled (l : Loop) (m : SenderMessage) (n : Loop) : Type 0 where
  pub cur : n.abs_cur_seqno ≡ l.abs_cur_seqno
  pub sent : n.sent ≡ l.sent
  pub input : Invariant.IsValid n.sender.input
  pub same :
      n.sender ≡ record l.sender { input = n.sender.input; has_fin_sent = n.sender.has_fin_sent }
  pub closed : n.sender.input.is_closed ≡ l.sender.input.is_closed
  pub seq : m.seqno ≡ wrap l.abs_cur_seqno l.sender.isn
  pub syn : m.syn ≡ (l.abs_cur_seqno == 0)
  pub fin : m.fin ≡ true → l.sender.input.is_closed ≡ true
  pub error : n.sender.input.error ≡ l.sender.input.error
  pub sized : length m.payload ≤ max_payload_size
  pub bytes : m.payload ++ contents n.sender.input ≡ contents l.sender.input
  pub positive : 0 < used m
  pub wnd : n.remain_wnd_size + used m ≡ l.remain_wnd_size
  pub less : n.remain_data_size < l.remain_data_size
  pub progress :
      ((n.remain_data_size ≡ 0) × (used m ≤ l.remain_data_size + 1))
      ⊎ ((n.remain_data_size + used m ≡ l.remain_data_size)
          × (buffered n ≤ n.remain_data_size)
          × (n.remain_data_size ≤ buffered n + bit n.sender.input.is_closed))

-- With the payload of `k` bytes, where there is a window left.
record PayloadAdded (l : Loop) (k : ℕ) (m : SenderMessage) (n : Loop) : Type 0 where
  cur : n.abs_cur_seqno ≡ l.abs_cur_seqno
  sent : n.sent ≡ l.sent
  input : Invariant.IsValid n.sender.input
  same : n.sender ≡ record l.sender { input = n.sender.input }
  closed : n.sender.input.is_closed ≡ l.sender.input.is_closed
  seq : m.seqno ≡ wrap l.abs_cur_seqno l.sender.isn
  syn : m.syn ≡ (l.abs_cur_seqno == 0)
  fin : m.fin ≡ false
  error : n.sender.input.error ≡ l.sender.input.error
  sized : k ≤ max_payload_size
  taken : length m.payload ≡ k
  bytes : m.payload ++ contents n.sender.input ≡ contents l.sender.input
  left : buffered n + k ≡ buffered l
  wnd : n.remain_wnd_size + k + bit (l.abs_cur_seqno == 0) ≡ l.remain_wnd_size
  rest : n.remain_data_size + k + bit (l.abs_cur_seqno == 0) ≡ l.remain_data_size
  most : (k ≡ buffered l) ⊎ ((n.remain_wnd_size ≡ 0) ⊎ (k ≡ max_payload_size))

is_finished_lem :
    {o : ByteStream} → Invariant.IsValid o → is_finished o ≡ (o.is_closed && (o.end - o.begin == 0))
unfolding is_finished
is_finished_lem v = ground (arith, v)

add_fin-Filled :
    (k : ℕ) {l : Loop} (m : SenderMessage) (n : Loop)
    → Ready l
    → PayloadAdded l k m n
    → Filled l (add_fin (m, n)).0 (add_fin (m, n)).1
unfolding add_fin
add_fin-Filled k {l} m n r p =
    elim (Bool-cases (ltb 0 n.remain_wnd_size && is_finished n.sender.input)) [
      | inl ends ↦
          rw ends
            (ground (arith, r, p, ends, is_finished_lem p.input, sub64_small n.remain_wnd_size 1))
      | inr goes_on ↦ rw goes_on (ground (arith, r, p, goes_on, is_finished_lem p.input))
    ]

add_payload_full :
    (m : SenderMessage) (n : Loop) → n.remain_wnd_size ≡ 0 → add_payload (m, n) ≡ some (m, n)
unfolding add_payload
add_payload_full m n h = ground (arith, h)

-- A full window after the SYN flag: the segment is the flag alone.
full-Filled :
    {l : Loop} (m : SenderMessage) (n : Loop)
    → Ready l
    → SynAdded l m n
    → n.remain_wnd_size ≡ 0
    → Filled l m n
full-Filled {l} m n r a h = ground (arith, r, a, h)

-- How much a round reads.
abbrev amount : Loop → ℕ
amount n = min (min (buffered n) n.remain_wnd_size) max_payload_size

-- The state after reading.
abbrev read_state : SenderMessage → Loop → SenderMessage × Loop
read_state m n =
    let k = amount n in
    let payload = take k (contents n.sender.input) in
    (
      record m { payload = payload },
      record n {
        remain_wnd_size = sub64 n.remain_wnd_size (length payload);
        remain_data_size = sub64 n.remain_data_size (length payload);
        sender = record sender { input = pop k n.sender.input };
      },
    )
  where
    open n use {sender}

add_payload_reads :
    (m : SenderMessage) (n : Loop)
    → 0 < n.remain_wnd_size
    → Invariant.IsValid n.sender.input
    → add_payload (m, n) ≡ some (add_fin (read_state m n))
unfolding add_payload
add_payload_reads m n h v =
    let same : min (amount n) (buffered n) ≡ amount n = omega arith in
    let got : read (amount n) n.sender.input
        ≡ ReadResult.done (take (amount n) (contents n.sender.input))
            (pop (amount n) n.sender.input) =
      rw same at (read_lem (amount n) v (omega arith)) in
    rw (ne→== n.remain_wnd_size 0 (omega arith), bytes_buffered_lem v, got)

read-PayloadAdded :
    {l : Loop} (m : SenderMessage) (n : Loop)
    → Ready l
    → SynAdded l m n
    → 0 < n.remain_wnd_size
    → let (m', n') = read_state m n in PayloadAdded l (amount n) m' n'
read-PayloadAdded {l} m n r a h =
    let o = n.sender.input in
    let v = subst (λ (s : TcpSender). Invariant.IsValid s.input) (sym a.sender) r.sound.input in
    let k = amount n in
    let same : buffered n ≡ buffered l =
      ap (λ (s : TcpSender). s.input.end - s.input.begin) a.sender in
    let size : length (take k (contents o)) ≡ k =
      omega (arith, length-take k (contents o), length-contents v) in
    let less_wnd : sub64 n.remain_wnd_size (length (take k (contents o))) ≡ n.remain_wnd_size - k =
      rw size (sub64_small n.remain_wnd_size k (omega arith) (omega arith)) in
    let less_data : sub64 n.remain_data_size (length (take k (contents o)))
        ≡ n.remain_data_size - k =
      rw size (sub64_small n.remain_data_size k (omega arith) (omega arith)) in
    let c = contents-pop k v (omega arith) in
    record {
      cur = a.cur;
      sent = a.sent;
      input = pop-IsValid k v (omega arith);
      same = ap (λ (s : TcpSender). record s { input = pop k o }) a.sender;
      closed = pop-is_closed k o ∙ ap (λ (s : TcpSender). s.input.is_closed) a.sender;
      seq = a.seq;
      syn = a.syn;
      fin = a.fin;
      error = pop-error k o ∙ ap (λ (s : TcpSender). s.input.error) a.sender;
      sized = omega arith;
      taken = size;
      bytes =
          ap (λ b. take k (contents o) ++ b) c.0
          ∙ take-append-drop k (contents o)
          ∙ ap (λ (s : TcpSender). contents s.input) a.sender;
      left = omega (arith, c.1);
      wnd = omega (arith, less_wnd, a.wnd);
      rest = omega (arith, less_data, a.rest);
      most = ground (arith, less_wnd);
    }

-- The round neither throws nor does nothing.
pub fill-Filled :
    {l : Loop}
    → Ready l
    → (m : SenderMessage) × (n : Loop) × (add_payload (add_syn l) ≡ some (m, n)) × Filled l m n
fill-Filled {l} r =
    let a = add_syn-SynAdded r in
    let (m, n) = add_syn l in
    let v = subst (λ (s : TcpSender). Invariant.IsValid s.input) (sym a.sender) r.sound.input in
    elim (ltb_cases 0 n.remain_wnd_size) [
      | inl (open_, _) ↦
          let q = read_state m n in
          (
            (add_fin q).0,
            (add_fin q).1,
            add_payload_reads m n open_ v,
            add_fin-Filled (amount n) q.0 q.1 r (read-PayloadAdded m n r a open_),
          )
      | inr (full, _) ↦
          let h : n.remain_wnd_size ≡ 0 = omega arith in
          (m, n, add_payload_full m n h, full-Filled m n r a h)
    ]
