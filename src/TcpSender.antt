-- ===== src/TcpSender.antt =====
-- libsponge/tcp_sender.hh and tcp_sender.cc: the half of a connection that cuts a byte stream into
-- segments, sends them within the peer's window and sends them again when a timer runs out. The
-- queues are lists, front first. Where `ByteStream::read` throws, the model takes no bytes.
pub mod Flight
pub mod Window
pub mod Validity
pub mod Retransmission
pub mod Runs
use computer_network.Base.{
  ℕ, zero, suc, ◌+◌, ◌-◌, ◌%◌, ◌^◌, Bool, true, false, not, ◌&&◌, ◌||◌, Option, none, some, List,
  [], ◌∷◌, ◌++◌, length, min, ltb, leb, ◌==◌, if◌then◌else◌,
}
use computer_network.Words.{add64, sub64}
use computer_network.WrappingIntegers.{WrappingInt32, wrap, unwrap}
use computer_network.ByteStream.{ByteStream}
use computer_network.ByteStream
use computer_network.TcpSegment.{TcpSegment, length_in_sequence_space}
use computer_network.TcpSegment
use computer_network.RetransmissionTimer.{RetransmissionTimer}
use computer_network.RetransmissionTimer

-- `TCPConfig::MAX_PAYLOAD_SIZE`.
abbrev pub max_payload_size : ℕ
max_payload_size = 1000

pub record TcpSender : Type 0 where
  pub isn : WrappingInt32
  pub segments_out : List TcpSegment
  pub segments_track : List TcpSegment
  pub initial_retransmission_timeout : ℕ
  pub timer : RetransmissionTimer
  pub stream : ByteStream
  pub next_seqno_absolute : ℕ
  pub abs_ackno : ℕ
  pub window_size : ℕ
  pub bytes_in_flight : ℕ

-- The initial sequence number is `fixed_isn`, or else what `random_device` gives.
unfoldable pub init : ℕ → ℕ → Option WrappingInt32 → WrappingInt32 → TcpSender
init capacity retx_timeout fixed_isn random = record {
  isn = elim fixed_isn [ none ↦ random | some isn ↦ isn ];
  segments_out = [];
  segments_track = [];
  initial_retransmission_timeout = retx_timeout;
  timer = RetransmissionTimer.init retx_timeout;
  stream = ByteStream.init capacity;
  next_seqno_absolute = 0;
  abs_ackno = 0;
  window_size = 1;
  bytes_in_flight = 0;
}

unfoldable pub next_seqno : TcpSender → WrappingInt32
next_seqno s = wrap s.next_seqno_absolute s.isn

unfoldable pub consecutive_retransmissions : TcpSender → ℕ
consecutive_retransmissions s = s.timer.consecutive_retransmissions

abbrev with_seqno : WrappingInt32 → TcpSegment → TcpSegment
with_seqno n segment = record segment { header = record segment.header { seqno = n } }

unfoldable pub send_empty_segment : TcpSender → TcpSender
unfolding next_seqno
send_empty_segment s = record s {
  segments_out = s.segments_out ++ with_seqno (next_seqno s) TcpSegment.init ∷ [];
}

unfoldable pub send_no_empty_segment : TcpSegment → TcpSender → TcpSender
unfolding next_seqno
send_no_empty_segment segment s =
    let segment' = with_seqno (next_seqno s) segment in
    let size = length_in_sequence_space segment' in
    record s {
      next_seqno_absolute = add64 s.next_seqno_absolute size;
      bytes_in_flight = add64 s.bytes_in_flight size;
      segments_out = s.segments_out ++ segment' ∷ [];
      segments_track = s.segments_track ++ segment' ∷ [];
      timer = if s.timer.running then s.timer else RetransmissionTimer.start s.timer;
    }

abbrev pub syn_segment : TcpSegment
syn_segment =
    let h = TcpSegment.init.header in record { header = record h { syn = true }; payload = [] }

abbrev pub fin_segment : TcpSegment
fin_segment =
    let h = TcpSegment.init.header in record { header = record h { fin = true }; payload = [] }

unfoldable pub payload_of : Option (List ℕ) → List ℕ
payload_of none = []
payload_of (some bytes) = bytes

-- The next segment of the stream, and the sender after the read. It carries the end of the stream if
-- that is reached and there is room for it.
unfoldable pub next_segment : ℕ → TcpSender → TcpSegment × TcpSender
unfolding payload_of
next_segment remain s =
    let (bytes, stream) = ByteStream.read (min remain max_payload_size) s.stream in
    let h = TcpSegment.init.header in
    let segment : TcpSegment = record { header = h; payload = payload_of bytes } in
    let fin = ByteStream.eof stream && ltb 0 (sub64 remain (length_in_sequence_space segment)) in
    (record segment { header = record h { fin = fin } }, record s { stream = stream })

-- The loop of `fill_window`, on fuel: each round but the last sends at least one sequence number.
unfoldable pub fill_loop : ℕ → ℕ → TcpSender → TcpSender
unfolding next_segment send_no_empty_segment
fill_loop zero window s = s
fill_loop (suc fuel) window s =
    let flight = sub64 s.next_seqno_absolute s.abs_ackno in
    let (segment, s') = next_segment (sub64 window flight) s in
    let more = fill_loop fuel window (send_no_empty_segment segment s') in
    if not (ltb flight window)
    then s
    else if not (ByteStream.eof s.stream)
    then (if length_in_sequence_space segment == 0 then s' else more)
    else if ltb s.next_seqno_absolute (add64 s.stream.bytes_written 2)
    then send_no_empty_segment fin_segment s
    else s

-- A window of no size counts as one of size one.
abbrev pub open_window : ℕ → ℕ
open_window window = if window == 0 then 1 else window

unfoldable pub fill : TcpSender → TcpSender
unfolding fill_loop
fill s = fill_loop (suc (open_window s.window_size)) (open_window s.window_size) s

unfoldable pub fill_window : TcpSender → TcpSender
unfolding fill send_no_empty_segment
fill_window s =
    if s.next_seqno_absolute == 0
    then fill (send_no_empty_segment syn_segment s)
    else if s.next_seqno_absolute == s.bytes_in_flight
    then s
    else fill s

-- The loop that takes acknowledged segments off the queue: what is left of it and of the bytes in
-- flight.
unfoldable pub remove_acknowledged : WrappingInt32 → ℕ → List TcpSegment → ℕ → List TcpSegment × ℕ
remove_acknowledged isn ackno [] flight = ([], flight)
remove_acknowledged isn ackno (segment ∷ track) flight =
    let size = length_in_sequence_space segment in
    let rest = remove_acknowledged isn ackno track (sub64 flight size) in
    if ltb ackno (add64 (unwrap segment.header.seqno isn ackno) size)
    then (segment ∷ track, flight)
    else rest

abbrev pub is_empty : List TcpSegment → Bool
is_empty [] = true
is_empty (x ∷ xs) = false

-- After a new acknowledgment: the queue, the timer and the window.
unfoldable pub acknowledge : ℕ → TcpSender → TcpSender
unfolding remove_acknowledged is_empty fill_window
acknowledge ackno s =
    let (track, flight) = remove_acknowledged s.isn ackno s.segments_track s.bytes_in_flight in
    fill_window (record s {
      abs_ackno = ackno;
      segments_track = track;
      bytes_in_flight = flight;
      timer =
          if is_empty track
          then RetransmissionTimer.close s.timer
          else RetransmissionTimer.start s.timer;
    })

unfoldable pub ack_received : WrappingInt32 → ℕ → TcpSender → TcpSender
unfolding acknowledge
ack_received ackno window_size s =
    let abs_ackno = unwrap ackno s.isn s.abs_ackno in
    let s' = record s { window_size = window_size } in
    if ltb s.next_seqno_absolute abs_ackno
    then s
    else if leb abs_ackno s.abs_ackno
    then s'
    else acknowledge abs_ackno s'

-- The timer has run out: the oldest segment goes out again.
unfoldable pub retransmit : List TcpSegment → TcpSender → TcpSender
retransmit [] s = record s { timer = RetransmissionTimer.close s.timer }
retransmit (segment ∷ track) s = record s {
  segments_out = s.segments_out ++ segment ∷ [];
  timer = RetransmissionTimer.reset_timer s.window_size s.timer;
}

unfoldable pub tick : ℕ → TcpSender → TcpSender
unfolding retransmit
tick ms_since_last_tick s =
    let (expired, timer) = RetransmissionTimer.timeout ms_since_last_tick s.timer in
    if not s.timer.running
    then s
    else if not expired
    then record s { timer = timer }
    else retransmit s.segments_track (record s { timer = timer })
