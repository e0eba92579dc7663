-- ===== src/TcpConnection.antt =====
-- libsponge/tcp_connection.hh and tcp_connection.cc: a sender and a receiver as one end of a
-- connection. `remaining_outbound_capacity`, `bytes_in_flight`, `unassembled_bytes` and
-- `time_since_last_segment_received` read one field each.
pub mod Inbound
pub mod Answer
pub mod Runs
use computer_network.Base.{
  ℕ, zero, suc, ◌+◌, ◌*◌, ◌%◌, ◌^◌, Bool, true, false, not, ◌&&◌, Option, none, some, List, [], ◌∷◌,
  ◌++◌, map, length, min, ltb, leb, ◌==◌, if◌then◌else◌,
}
use computer_network.Words.{add64, u16_mod}
use computer_network.WrappingIntegers.{WrappingInt32}
use computer_network.ByteStream
use computer_network.TcpSegment.{TcpSegment, length_in_sequence_space}
use computer_network.TcpSender.{TcpSender}
use computer_network.TcpSender
use computer_network.TcpReceiver.{TcpReceiver}
use computer_network.TcpReceiver

-- `TCPConfig`, with its defaults, and `MAX_RETX_ATTEMPTS`.
pub record TcpConfig : Type 0 where
  pub rt_timeout : ℕ
  pub recv_capacity : ℕ
  pub send_capacity : ℕ
  pub fixed_isn : Option WrappingInt32

abbrev pub default_config : TcpConfig
default_config = record {
  rt_timeout = 1000;
  recv_capacity = 64000;
  send_capacity = 64000;
  fixed_isn = none;
}

abbrev pub max_retx_attempts : ℕ
max_retx_attempts = 8

pub record TcpConnection : Type 0 where
  pub cfg : TcpConfig
  pub receiver : TcpReceiver
  pub sender : TcpSender
  pub segments_out : List TcpSegment
  pub linger_after_streams_finish : Bool
  pub time_since_last_segment_received : ℕ
  pub active : Bool

unfoldable pub init : TcpConfig → WrappingInt32 → TcpConnection
init cfg random = record {
  cfg = cfg;
  receiver = TcpReceiver.init cfg.recv_capacity;
  sender = TcpSender.init cfg.send_capacity cfg.rt_timeout cfg.fixed_isn random;
  segments_out = [];
  linger_after_streams_finish = true;
  time_since_last_segment_received = 0;
  active = true;
}

-- The acknowledgment that a segment carries, if there is one.
unfoldable pub with_ackno : Option WrappingInt32 → TcpSegment → TcpSegment
with_ackno none segment = segment
with_ackno (some ackno) segment = record segment {
  header = record segment.header { ackno = ackno; ack = true };
}

abbrev with_win : ℕ → TcpSegment → TcpSegment
with_win win segment = record segment { header = record segment.header { win = win } }

abbrev with_rst : TcpSegment → TcpSegment
with_rst segment = record segment { header = record segment.header { rst = true } }

-- Takes the front off the sender's queue; `front` of an empty queue is undefined, and the queue is
-- never empty where this is called.
unfoldable pub rst_segment : List TcpSegment → TcpConnection → TcpConnection
unfolding with_ackno
rst_segment [] c = c
rst_segment (segment ∷ rest) c = record c {
  sender = record c.sender { segments_out = rest };
  segments_out =
      c.segments_out
      ++ with_win (TcpReceiver.window_size c.receiver % u16_mod)
          (with_ackno (TcpReceiver.ackno c.receiver) (with_rst segment))
        ∷ [];
}

unfoldable pub send_rst_segment : TcpConnection → TcpConnection
unfolding rst_segment
send_rst_segment c =
    let sender = TcpSender.send_empty_segment c.sender in
    rst_segment sender.segments_out (record c { sender = sender })

-- What `send_segments` adds to a segment of the sender.
unfoldable pub complete : TcpReceiver → TcpSegment → TcpSegment
unfolding with_ackno
complete r segment =
    with_win (min (TcpReceiver.window_size r) 0xffff % u16_mod)
      (with_ackno (TcpReceiver.ackno r) segment)

has_segments : List TcpSegment → Bool
has_segments [] = false
has_segments (x ∷ xs) = true

-- Whether any segment was sent, and the connection with all of them sent.
unfoldable pub send_segments : TcpConnection → Bool × TcpConnection
unfolding complete has_segments
send_segments c = (
  has_segments c.sender.segments_out,
  record c {
    sender = record c.sender { segments_out = [] };
    segments_out = c.segments_out ++ map (complete c.receiver) c.sender.segments_out;
  },
)

unfoldable pub check_inbound_ended : TcpConnection → Bool
check_inbound_ended c =
    TcpReceiver.unassembled_bytes c.receiver == 0 && c.receiver.reassembler.output.input_ended

unfoldable pub check_outbound_ended : TcpConnection → Bool
check_outbound_ended c =
    ByteStream.eof c.sender.stream
    && (c.sender.next_seqno_absolute == add64 c.sender.stream.bytes_written 2)
    && (c.sender.bytes_in_flight == 0)

unfoldable pub passive_close : TcpConnection → TcpConnection
passive_close c =
    let reassembler = c.receiver.reassembler in
    record c {
      sender = record c.sender { stream = ByteStream.set_error c.sender.stream };
      receiver = record c.receiver {
        reassembler = record reassembler { output = ByteStream.set_error reassembler.output };
      };
      active = false;
    }

-- `10 * _cfg.rt_timeout` is an `int`.
unfoldable pub test_end : TcpConnection → TcpConnection
unfolding check_inbound_ended check_outbound_ended
test_end c =
    if check_inbound_ended c && not (ByteStream.eof c.sender.stream)
    then record c { linger_after_streams_finish = false }
    else if check_inbound_ended c && check_outbound_ended c
    then (if not c.linger_after_streams_finish
        then record c { active = false }
        else if leb (10 * c.cfg.rt_timeout) c.time_since_last_segment_received
        then record c { active = false }
        else c)
    else c

abbrev pub in_sender : (TcpSender → TcpSender) → TcpConnection → TcpConnection
in_sender f c = record c { sender = f c.sender }

-- The steps of `segment_received` behind the test for a reset.
unfoldable pub take_ack : TcpSegment → TcpConnection → TcpConnection
unfolding send_segments
take_ack segment c =
    if segment.header.ack
    then (send_segments
        (in_sender (TcpSender.ack_received segment.header.ackno segment.header.win) c)).1
    else c

-- At least one segment answers a segment that takes up sequence numbers.
unfoldable pub answer : TcpSegment → TcpConnection → TcpConnection
unfolding send_segments
answer segment c =
    let (is_send, c') = send_segments (in_sender TcpSender.fill_window c) in
    if ltb 0 (length_in_sequence_space segment)
    then (if is_send then c' else (send_segments (in_sender TcpSender.send_empty_segment c')).1)
    else c

unfoldable pub segment_received : TcpSegment → TcpConnection → TcpConnection
unfolding take_ack answer test_end passive_close
segment_received segment c =
    let c1 = record c { time_since_last_segment_received = 0 } in
    let c2 = record c1 { receiver = TcpReceiver.segment_received segment c1.receiver } in
    if segment.header.rst then passive_close c1 else test_end (answer segment (take_ack segment c2))

unfoldable pub write : List ℕ → TcpConnection → ℕ × TcpConnection
unfolding send_segments
write bytes c =
    let size = ByteStream.write_count bytes c.sender.stream in
    let written : TcpSender = record c.sender { stream = ByteStream.write bytes c.sender.stream } in
    if length bytes == 0
    then (0, c)
    else (size, (send_segments (record c { sender = TcpSender.fill_window written })).1)

unfoldable pub tick : ℕ → TcpConnection → TcpConnection
unfolding passive_close send_rst_segment send_segments test_end
tick ms_since_last_tick c =
    let c' = record c {
      time_since_last_segment_received =
          add64 c.time_since_last_segment_received ms_since_last_tick;
      sender = TcpSender.tick ms_since_last_tick c.sender;
    } in
    if ltb max_retx_attempts (TcpSender.consecutive_retransmissions c'.sender)
    then send_rst_segment (passive_close c')
    else test_end (send_segments c').1

unfoldable pub end_input_stream : TcpConnection → TcpConnection
unfolding send_segments
end_input_stream c =
    let ended : TcpSender = record c.sender { stream = ByteStream.end_input c.sender.stream } in
    (send_segments (record c { sender = TcpSender.fill_window ended })).1

unfoldable pub connect : TcpConnection → TcpConnection
unfolding send_segments
connect c =
    if not (c.sender.next_seqno_absolute == 0)
    then c
    else record (send_segments (in_sender TcpSender.fill_window c)).1 { active = true }

-- What the destructor sends, while the connection is active.
unfoldable pub destroy : TcpConnection → TcpConnection
unfolding passive_close send_rst_segment
destroy c = if c.active then send_rst_segment (passive_close c) else c
