-- ===== src/TcpConnection/Inbound.antt =====
-- What the methods of a connection do to its inbound stream.
use computer_network.Base.{ℕ, ◌≡◌, List, refl, true, [], ◌∷◌, ltb, if_holds, arith}
use computer_network.Words.{add64}
use computer_network.ByteStream.{ByteStream}
use computer_network.ByteStream.Appends.{Appends, Appends-refl, set_error-Appends}
use computer_network.StreamReassembler.Kept.{push_substring-Pushed}
use computer_network.TcpSegment.{TcpSegment}
use computer_network.TcpReceiver.{TcpReceiver, accept, stream_index}
use computer_network.TcpReceiver
use computer_network.TcpSender.{TcpSender}
use computer_network.TcpSender
use computer_network.TcpConnection.{
  TcpConnection, max_retx_attempts, rst_segment, send_rst_segment, send_segments, passive_close,
  test_end, in_sender, take_ack, answer, segment_received, write, end_input_stream, tick, connect,
}

abbrev output_of : TcpReceiver → ByteStream
output_of r = r.reassembler.output

-- The connection has only been given more, from a receiver on.
abbrev After : TcpReceiver → TcpConnection → Type 0
After r c = Appends (output_of r) (output_of c.receiver)

accept-Appends :
    (seg : TcpSegment) (r : TcpReceiver) → Appends (output_of r) (output_of (accept seg r))
unfolding accept
accept-Appends seg r =
    (push_substring-Pushed seg.payload (stream_index seg r) seg.header.fin r.reassembler).appends

receiver-Appends :
    (seg : TcpSegment) (r : TcpReceiver)
    → Appends (output_of r) (output_of (TcpReceiver.segment_received seg r))
unfolding TcpReceiver.segment_received
receiver-Appends seg r =
    let P = λ (s : TcpReceiver). Appends (output_of r) (output_of s) in
    if_holds P r.syn (λ _. accept-Appends seg r)
      (λ _.
        if_holds P seg.header.syn
          (λ _. accept-Appends seg (record r { syn = true; isn = seg.header.seqno }))
          (λ _. Appends-refl (output_of r)))

passive_close-Appends : (c : TcpConnection) → After c.receiver (passive_close c)
unfolding passive_close
passive_close-Appends c = set_error-Appends (output_of c.receiver)

-- Sending leaves the receiver alone.
same_receiver-test_end : (c : TcpConnection) → (test_end c).receiver ≡ c.receiver
unfolding test_end
same_receiver-test_end c = ground arith

same_receiver-rst_segment :
    (segs : List TcpSegment) (c : TcpConnection) → (rst_segment segs c).receiver ≡ c.receiver
unfolding rst_segment
same_receiver-rst_segment [] c = refl
same_receiver-rst_segment (seg ∷ segs) c = refl

same_receiver-send_rst_segment : (c : TcpConnection) → (send_rst_segment c).receiver ≡ c.receiver
unfolding send_rst_segment
same_receiver-send_rst_segment c =
    let c' = in_sender TcpSender.send_empty_segment c in
    same_receiver-rst_segment c'.sender.segments_out c'

same_receiver-take_ack :
    (seg : TcpSegment) (c : TcpConnection) → (take_ack seg c).receiver ≡ c.receiver
unfolding take_ack send_segments
same_receiver-take_ack seg c = ground arith

same_receiver-answer : (seg : TcpSegment) (c : TcpConnection) → (answer seg c).receiver ≡ c.receiver
unfolding answer send_segments
same_receiver-answer seg c = ground arith

pub segment_received-Appends :
    (seg : TcpSegment) (c : TcpConnection) → After c.receiver (segment_received seg c)
unfolding segment_received
segment_received-Appends seg c =
    let c1 : TcpConnection = record c { time_since_last_segment_received = 0 } in
    let c2 : TcpConnection = record c1 { receiver = TcpReceiver.segment_received seg c.receiver } in
    if_holds (After c.receiver) seg.header.rst (λ _. passive_close-Appends c1)
      (λ _.
        rw
          (
            same_receiver-test_end (answer seg (take_ack seg c2)),
            same_receiver-answer seg (take_ack seg c2),
            same_receiver-take_ack seg c2,
          )
          (receiver-Appends seg c.receiver))

pub tick-Appends : (ms : ℕ) (c : TcpConnection) → After c.receiver (tick ms c)
unfolding tick send_segments
tick-Appends ms c =
    let c' : TcpConnection = record c {
      time_since_last_segment_received = add64 c.time_since_last_segment_received ms;
      sender = TcpSender.tick ms c.sender;
    } in
    if_holds (After c.receiver)
      (ltb max_retx_attempts (TcpSender.consecutive_retransmissions c'.sender))
      (λ _. rw (same_receiver-send_rst_segment (passive_close c')) (passive_close-Appends c'))
      (λ _. rw (same_receiver-test_end (send_segments c').1) (Appends-refl (output_of c.receiver)))

pub same_receiver-write :
    (bytes : List ℕ) (c : TcpConnection) → (write bytes c).1.receiver ≡ c.receiver
unfolding write send_segments
same_receiver-write bytes c = ground arith

pub same_receiver-end_input_stream :
    (c : TcpConnection) → (end_input_stream c).receiver ≡ c.receiver
unfolding end_input_stream send_segments
same_receiver-end_input_stream c = refl

pub same_receiver-connect : (c : TcpConnection) → (connect c).receiver ≡ c.receiver
unfolding connect send_segments
same_receiver-connect c = ground arith
