-- ===== src/Link/Methods.antt =====
-- Every method of TCPConnection keeps what holds of an end.
use computer_network.Base.{
  ℕ, ◌^◌, ◌<◌, ◌≡◌, refl, true, not, List, [], ◌∷◌, map, length, All, All-append, ltb, ◌==◌,
  if_holds, arith,
}
use computer_network.Words.{add64}
use computer_network.TcpSegment.{TcpSegment, length_in_sequence_space}
use computer_network.TcpReceiver.{TcpReceiver}
use computer_network.TcpReceiver
use computer_network.TcpSender.{TcpSender}
use computer_network.TcpSender
use computer_network.TcpConnection.{
  TcpConnection, max_retx_attempts, with_ackno, complete, rst_segment, send_rst_segment,
  send_segments, passive_close, test_end, in_sender, take_ack, answer, segment_received, tick,
  connect, destroy,
}
use computer_network.Link.Half.{Course, SentOn, Half, SentOn-same, with_ackno-SentOn, All-complete}
use computer_network.Session.Sending.{Sending}
use computer_network.Session.Operations.{
  ack_received-Sending, tick-Sending, send_empty_segment-Sending, queued-Sending, failed-Sending,
  collected-Sending,
}
use computer_network.Session.Filling.{fill_window-Sending}
use computer_network.Session.Receiving.{failed-Receiving}
use computer_network.Session.Arrival.{segment_received-Receiving}

module _ (mine theirs : Course) (delivered : List ℕ) where
  abbrev Holds : TcpConnection → Type 0
  Holds = Half mine theirs delivered

  queue-SentOn : (c : TcpConnection) → Holds c → All (SentOn mine) c.sender.segments_out
  queue-SentOn c v = let (_, cutting, _) = v.sends in cutting.out

  in_sender-Half :
      (f : TcpSender → TcpSender) (c : TcpConnection)
      → Sending mine.isn mine.accepted mine.ended (f c.sender)
      → Holds c
      → Holds (in_sender f c)
  in_sender-Half f c sends v = record { sends = sends; out = v.out; receives = v.receives }

  pub fill_window-Half : (c : TcpConnection) → Holds c → Holds (in_sender TcpSender.fill_window c)
  fill_window-Half c v =
      in_sender-Half TcpSender.fill_window c
        (fill_window-Sending mine.isn mine.accepted mine.ended c.sender v.sends) v

  empty-Half : (c : TcpConnection) → Holds c → Holds (in_sender TcpSender.send_empty_segment c)
  empty-Half c v =
      in_sender-Half TcpSender.send_empty_segment c
        (send_empty_segment-Sending mine.isn mine.accepted mine.ended c.sender v.sends) v

  pub send_segments-Half : (c : TcpConnection) → Holds c → Holds (send_segments c).1
  unfolding send_segments
  send_segments-Half c v = record {
    sends = collected-Sending mine.isn mine.accepted mine.ended c.sender v.sends;
    out =
        All-append (SentOn mine) c.segments_out (map (complete c.receiver) c.sender.segments_out)
          v.out (All-complete mine c.receiver c.sender.segments_out (queue-SentOn c v));
    receives = v.receives;
  }

  -- The segment at the front goes out with the reset flag.
  rst_segment-Half :
      (segs : List TcpSegment) (c : TcpConnection)
      → All (SentOn mine) segs
      → Holds c
      → Holds (rst_segment segs c)
  unfolding rst_segment
  rst_segment-Half [] c h v = v
  rst_segment-Half (seg ∷ rest) c h v =
      let reset = SentOn-same mine seg seg.header.ack true seg.header.ackno seg.header.win h.0 in
      let ackno = TcpReceiver.ackno c.receiver in
      let seg' = with_ackno ackno (record seg { header = record seg.header { rst = true } }) in
      record {
        sends = queued-Sending mine.isn mine.accepted mine.ended rest c.sender h.1 v.sends;
        out = All-append (SentOn mine) c.segments_out _ v.out (
          SentOn-same mine seg' seg'.header.ack seg'.header.rst seg'.header.ackno _
              (with_ackno-SentOn mine ackno _ reset),
          tt,
        );
        receives = v.receives;
      }

  send_rst_segment-Half : (c : TcpConnection) → Holds c → Holds (send_rst_segment c)
  unfolding send_rst_segment
  send_rst_segment-Half c v =
      let c' = in_sender TcpSender.send_empty_segment c in
      let v' = empty-Half c v in rst_segment-Half c'.sender.segments_out c' (queue-SentOn c' v') v'

  passive_close-Half : (c : TcpConnection) → Holds c → Holds (passive_close c)
  unfolding passive_close
  passive_close-Half c v = record {
    sends = failed-Sending mine.isn mine.accepted mine.ended c.sender v.sends;
    out = v.out;
    receives =
        failed-Receiving theirs.isn theirs.accepted theirs.ended delivered c.receiver v.receives;
  }

  -- The timers and flags of a connection do not matter.
  same-Half :
      (c c' : TcpConnection)
      → c'.sender ≡ c.sender
      → c'.segments_out ≡ c.segments_out
      → c'.receiver ≡ c.receiver
      → Holds c
      → Holds c'
  same-Half c c' sender out receiver v = record {
    sends = rw sender v.sends;
    out = rw out v.out;
    receives = rw receiver v.receives;
  }

  test_end-Half : (c : TcpConnection) → Holds c → Holds (test_end c)
  unfolding test_end
  test_end-Half c v = same-Half c (test_end c) (ground arith) (ground arith) (ground arith) v

  take_ack-Half : (seg : TcpSegment) (c : TcpConnection) → Holds c → Holds (take_ack seg c)
  unfolding take_ack
  take_ack-Half seg c v =
      let acked = in_sender (TcpSender.ack_received seg.header.ackno seg.header.win) c in
      if_holds Holds seg.header.ack
        (λ _. send_segments-Half acked (
          in_sender-Half (TcpSender.ack_received seg.header.ackno seg.header.win) c
            (ack_received-Sending mine.isn mine.accepted mine.ended seg.header.ackno seg.header.win
              c.sender v.sends)
            v))
        (λ _. v)

  answer-Half : (seg : TcpSegment) (c : TcpConnection) → Holds c → Holds (answer seg c)
  unfolding answer
  answer-Half seg c v =
      let filled = in_sender TcpSender.fill_window c in
      let sent = send_segments-Half filled (fill_window-Half c v) in
      let c' = (send_segments filled).1 in
      if_holds Holds (ltb 0 (length_in_sequence_space seg))
        (λ _.
          if_holds Holds (send_segments filled).0 (λ _. sent)
            (λ _.
              send_segments-Half (in_sender TcpSender.send_empty_segment c') (empty-Half c' sent)))
        (λ _. v)

  pub segment_received-Half :
      (seg : TcpSegment) (c : TcpConnection)
      → length theirs.accepted < 2 ^ 31
      → theirs.isn.raw_value < 2 ^ 32
      → SentOn theirs seg
      → Holds c
      → Holds (segment_received seg c)
  unfolding segment_received
  segment_received-Half seg c short small sent v =
      let c1 : TcpConnection = record c { time_since_last_segment_received = 0 } in
      let c2 : TcpConnection = record c1 {
        receiver = TcpReceiver.segment_received seg c.receiver;
      } in
      let v2 : Holds c2 = record {
        sends = v.sends;
        out = v.out;
        receives =
            segment_received-Receiving theirs.isn theirs.accepted theirs.ended delivered seg
              c.receiver short small sent v.receives;
      } in
      if_holds Holds seg.header.rst (λ _. passive_close-Half c1 (same-Half c c1 refl refl refl v))
        (λ _.
          test_end-Half (answer seg (take_ack seg c2))
            (answer-Half seg (take_ack seg c2) (take_ack-Half seg c2 v2)))

  pub tick-Half : (ms : ℕ) (c : TcpConnection) → Holds c → Holds (tick ms c)
  unfolding tick
  tick-Half ms c v =
      let c' : TcpConnection = record c {
        time_since_last_segment_received = add64 c.time_since_last_segment_received ms;
        sender = TcpSender.tick ms c.sender;
      } in
      let v' : Holds c' = record {
        sends = tick-Sending mine.isn mine.accepted mine.ended ms c.sender v.sends;
        out = v.out;
        receives = v.receives;
      } in
      if_holds Holds (ltb max_retx_attempts (TcpSender.consecutive_retransmissions c'.sender))
        (λ _. send_rst_segment-Half (passive_close c') (passive_close-Half c' v'))
        (λ _. test_end-Half (send_segments c').1 (send_segments-Half c' v'))

  pub connect-Half : (c : TcpConnection) → Holds c → Holds (connect c)
  unfolding connect
  connect-Half c v =
      let sent = send_segments-Half (in_sender TcpSender.fill_window c) (fill_window-Half c v) in
      if_holds Holds (not (c.sender.next_seqno_absolute == 0)) (λ _. v)
        (λ _. same-Half (send_segments (in_sender TcpSender.fill_window c)).1 _ refl refl refl sent)

  pub destroy-Half : (c : TcpConnection) → Holds c → Holds (destroy c)
  unfolding destroy
  destroy-Half c v =
      if_holds Holds c.active
        (λ _. send_rst_segment-Half (passive_close c) (passive_close-Half c v)) (λ _. v)
