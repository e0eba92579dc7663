-- ===== src/TcpConnection/Answer.antt =====
-- The answer to a segment: what waits to be sent before and after it.
use computer_network.Base.{
  ℕ, suc, ◌+◌, ◌*◌, ◌≤◌, ◌<◌, ◌≡◌, refl, ap, true, false, not, ◌&&◌, List, [], ◌∷◌, map, length,
  length-append, ltb, leb, if_holds, arith,
}
use computer_network.TcpSegment.{TcpSegment, length_in_sequence_space}
use computer_network.ByteStream
use computer_network.TcpReceiver
use computer_network.TcpSender
use computer_network.TcpSender.{send_empty_segment}
use computer_network.TcpConnection.{
  TcpConnection, complete, has_segments, send_segments, take_ack, answer, test_end, in_sender,
  segment_received, check_inbound_ended, check_outbound_ended,
}

-- What waits to be sent, of the connection and of its sender.
length-map : (f : TcpSegment → TcpSegment) (xs : List TcpSegment) → length (map f xs) ≡ length xs
length-map f [] = refl
length-map f (x ∷ xs) = ap suc (length-map f xs)

pub length-send_segments :
    (c : TcpConnection)
    → length (send_segments c).1.segments_out ≡ length c.segments_out + length c.sender.segments_out
unfolding send_segments
length-send_segments c = omega (
  arith,
  length-append c.segments_out (map (complete c.receiver) c.sender.segments_out),
  length-map (complete c.receiver) c.sender.segments_out,
)

has_segments_iff : (xs : List TcpSegment) → has_segments xs ≡ true → 0 < length xs
unfolding has_segments
has_segments_iff [] h = absurd (ground arith)
has_segments_iff (x ∷ xs) h = omega arith

-- The queue of the connection is no shorter, or longer, than `k`.
abbrev Long : ℕ → TcpConnection → Type 0
Long k c = k ≤ length c.segments_out

take_ack-Long :
    (k : ℕ) (segment : TcpSegment) (c : TcpConnection) → Long k c → Long k (take_ack segment c)
unfolding take_ack
take_ack-Long k segment c h =
    let acked = in_sender (TcpSender.ack_received segment.header.ackno segment.header.win) c in
    if_holds (Long k) segment.header.ack (λ _. omega (arith, length-send_segments acked)) (λ _. h)

empty_sent-Long :
    (k : ℕ) (c : TcpConnection)
    → Long k c
    → Long (suc k) (send_segments (in_sender send_empty_segment c)).1
unfolding send_empty_segment
empty_sent-Long k c h = omega (
  arith,
  length-send_segments (in_sender send_empty_segment c),
  length-append c.sender.segments_out
      ((send_empty_segment (record c.sender { segments_out = [] })).segments_out),
)

answer-Long :
    (k : ℕ) (segment : TcpSegment) (c : TcpConnection)
    → 0 < length_in_sequence_space segment
    → Long k c
    → Long (suc k) (answer segment c)
unfolding answer send_segments
answer-Long k segment c l h =
    let filled = in_sender TcpSender.fill_window c in
    let grown = length-send_segments filled in
    if_holds (Long (suc k)) (ltb 0 (length_in_sequence_space segment))
      (λ _.
        if_holds (Long (suc k)) (send_segments filled).0
          (λ e. omega (arith, grown, has_segments_iff filled.sender.segments_out e))
          (λ _. empty_sent-Long k (send_segments filled).1 (omega (arith, grown))))
      (λ e. absurd (ground arith))

test_end-Long : (k : ℕ) (c : TcpConnection) → Long k c → Long k (test_end c)
unfolding test_end
test_end-Long k c h =
    if_holds (Long k) (check_inbound_ended c && not (ByteStream.eof c.sender.stream)) (λ _. h)
      (λ _.
        if_holds (Long k) (check_inbound_ended c && check_outbound_ended c)
          (λ _.
            if_holds (Long k) (not c.linger_after_streams_finish) (λ _. h)
              (λ _.
                if_holds (Long k) (leb (10 * c.cfg.rt_timeout) c.time_since_last_segment_received)
                  (λ _. h) (λ _. h)))
          (λ _. h))

-- Where a segment takes up sequence numbers and does not reset the connection, at least one segment
-- more waits to be sent once it is received, in whatever state the connection is, LISTEN and SYN_SENT
-- included.
pub segment_received-answers :
    (segment : TcpSegment) (c : TcpConnection)
    → segment.header.rst ≡ false
    → 0 < length_in_sequence_space segment
    → length c.segments_out < length (segment_received segment c).segments_out
unfolding segment_received
segment_received-answers segment c h l =
    let k = length c.segments_out in
    let c2 : TcpConnection = record c {
      time_since_last_segment_received = 0;
      receiver = TcpReceiver.segment_received segment c.receiver;
    } in
    if_holds (Long (suc k)) segment.header.rst (λ e. absurd (ground arith))
      (λ _.
        test_end-Long (suc k) (answer segment (take_ack segment c2)) (
          answer-Long k segment (take_ack segment c2) l (take_ack-Long k segment c2 (omega arith))))
