-- ===== src/TcpState/Official.antt =====
-- What the events of a connection do to its state in the words of the TCP specification.
use computer_network.Base.{ℕ, ◌<◌, ◌≡◌, refl, ◌∙◌, true, ltb, List, [], ◌∷◌, arith}
use computer_network.ByteStream
use computer_network.ByteStream.{set_error}
use computer_network.ByteStream.Validity.{held}
use computer_network.StreamReassembler
use computer_network.TcpHeader
use computer_network.TcpSegment
use computer_network.Words.{add64, sub64}
use computer_network.WrappingIntegers.{WrappingInt32}
use computer_network.TcpSegment.{TcpSegment, length_in_sequence_space}
use computer_network.TcpSender
use computer_network.TcpSender.{send_empty_segment}
use computer_network.TcpReceiver
use computer_network.TcpConnection.{
  TcpConfig, TcpConnection, max_retx_attempts, init, segment_received, tick, connect, passive_close,
  send_rst_segment, rst_segment,
}
use computer_network.TcpState.{State, of_state, state, sender_summary, receiver_summary}

passive_close-reset : (c : TcpConnection) → state (passive_close c) ≡ of_state State.reset
unfolding state passive_close of_state set_error sender_summary receiver_summary
passive_close-reset c = refl

rst_segment-state :
    (segments : List TcpSegment) (c : TcpConnection) → state (rst_segment segments c) ≡ state c
unfolding state rst_segment
rst_segment-state [] c = refl
rst_segment-state (x ∷ rest) c = refl

send_rst_segment-state : (c : TcpConnection) → state (send_rst_segment c) ≡ state c
unfolding send_rst_segment state sender_summary send_empty_segment
send_rst_segment-state c =
    let sender = send_empty_segment c.sender in
    rst_segment-state sender.segments_out (record c { sender = sender })

-- A connection that receives a segment with the reset flag is reset, in whatever state it was, LISTEN and
-- SYN_SENT included: it sends nothing in answer, and what was written to its inbound stream and not
-- read stays there.
pub segment_received-reset :
    (segment : TcpSegment) (c : TcpConnection)
    → segment.header.rst ≡ true
    → (state (segment_received segment c) ≡ of_state State.reset)
      × ((segment_received segment c).segments_out ≡ c.segments_out)
      × ((segment_received segment c).sender.segments_out ≡ c.sender.segments_out)
      × (held (segment_received segment c).receiver.reassembler.output
          ≡ held c.receiver.reassembler.output)
unfolding segment_received passive_close set_error
segment_received-reset segment c h =
    rw h (passive_close-reset (record c { time_since_last_segment_received = 0 }), refl, refl, refl)

-- A connection whose clock ticks with more retransmissions in a row than the limit is reset.
tick-reset :
    (ms_since_last_tick : ℕ) (c : TcpConnection)
    → max_retx_attempts
      < TcpSender.consecutive_retransmissions (TcpSender.tick ms_since_last_tick c.sender)
    → state (tick ms_since_last_tick c) ≡ of_state State.reset
unfolding tick
tick-reset ms_since_last_tick c h =
    let c' : TcpConnection = record c {
      time_since_last_segment_received =
          add64 c.time_since_last_segment_received ms_since_last_tick;
      sender = TcpSender.tick ms_since_last_tick c.sender;
    } in
    let above : ltb max_retx_attempts (TcpSender.consecutive_retransmissions c'.sender) ≡ true =
      grind arith in
    rw above (send_rst_segment-state (passive_close c') ∙ passive_close-reset c')

-- A fresh connection listens.
pub init-listen :
    (cfg : TcpConfig) (random : WrappingInt32) → state (init cfg random) ≡ of_state State.listen
unfolding init state of_state TcpSender.init TcpReceiver.init ByteStream.init StreamReassembler.init
    TcpReceiver.ackno
init-listen cfg random = refl

-- A fresh connection that connects has sent its SYN.
connect-syn_sent :
    (cfg : TcpConfig) (random : WrappingInt32)
    → state (connect (init cfg random)) ≡ of_state State.syn_sent
unfolding init connect state of_state TcpSender.init TcpSender.fill_window TcpReceiver.init sub64
    add64 length_in_sequence_space TcpSegment.init TcpHeader.init ByteStream.init
    StreamReassembler.init TcpReceiver.ackno
connect-syn_sent cfg random = refl
