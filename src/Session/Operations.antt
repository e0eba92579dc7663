-- ===== src/Session/Operations.antt =====
-- Every operation of the sender keeps what it has put into segments.
use computer_network.Base.{
  ℕ, ◌≡◌, refl, ap, ◌∙◌, inl, Bool, true, not, List, [], ◌∷◌, All, All-append, ltb, leb, if_holds,
  if◌then◌else◌, arith,
}
use computer_network.Words.{add64, sub64}
use computer_network.ByteStream.{ByteStream}
use computer_network.ByteStream
use computer_network.ByteStream.Order.{end_input-IsValid, set_error-IsValid}
use computer_network.RetransmissionTimer
use computer_network.WrappingIntegers.{WrappingInt32, unwrap}
use computer_network.TcpHeader
use computer_network.TcpSegment.{TcpSegment, length_in_sequence_space}
use computer_network.TcpSegment
use computer_network.TcpSender.{
  TcpSender, send_empty_segment, remove_acknowledged, is_empty, acknowledge, ack_received,
  retransmit, tick,
}
use computer_network.Session.Cut.{IsSent, All-ended}
use computer_network.Session.Sending.{Cutting, Sending, unopened, in_stream, finished}
use computer_network.Session.Filling.{fill_window-Sending}

module _ (isn : WrappingInt32) (accepted : List ℕ) (ended : Bool) where
  -- What the acknowledgment leaves on the queue was there before.
  remove_acknowledged-All :
      (s_isn : WrappingInt32) (ackno : ℕ) (track : List TcpSegment) (flight : ℕ)
      → All (IsSent isn accepted ended) track
      → All (IsSent isn accepted ended) (remove_acknowledged s_isn ackno track flight).0
  unfolding remove_acknowledged
  remove_acknowledged-All s_isn ackno [] flight h = h
  remove_acknowledged-All s_isn ackno (segment ∷ track) flight h =
      let size = length_in_sequence_space segment in
      if_holds {A = List TcpSegment × ℕ} (λ r. All (IsSent isn accepted ended) r.0)
        (ltb ackno (add64 (unwrap segment.header.seqno s_isn ackno) size)) (λ _. h)
        (λ _. remove_acknowledged-All s_isn ackno track (sub64 flight size) h.1)

  -- An operation that leaves the stream alone.
  Cutting-queues :
      (taken : List ℕ) (s t : TcpSender)
      → Cutting isn accepted ended taken s
      → t.stream ≡ s.stream
      → t.isn ≡ s.isn
      → All (IsSent isn accepted ended) t.segments_out
      → All (IsSent isn accepted ended) t.segments_track
      → Cutting isn accepted ended taken t
  Cutting-queues taken s t v stream same out track = record {
    valid = rw stream v.valid;
    same_isn = same ∙ v.same_isn;
    same_ended = ap (λ z. z.input_ended) stream ∙ v.same_ended;
    short = v.short;
    count = ap (λ z. z.bytes_written) stream ∙ v.count;
    split = rw stream v.split;
    out = out;
    track = track;
  }

  acknowledge-Sending :
      (ackno : ℕ) (s : TcpSender)
      → Sending isn accepted ended s
      → Sending isn accepted ended (acknowledge ackno s)
  unfolding acknowledge
  acknowledge-Sending ackno s (taken, v, place) =
      let (track, flight) = remove_acknowledged s.isn ackno s.segments_track s.bytes_in_flight in
      fill_window-Sending isn accepted ended
        (record s {
          abs_ackno = ackno;
          segments_track = track;
          bytes_in_flight = flight;
          timer =
              if is_empty track
              then RetransmissionTimer.close s.timer
              else RetransmissionTimer.start s.timer;
        })
        (
          taken,
          Cutting-queues taken s _ v refl refl v.out
              (remove_acknowledged-All s.isn ackno s.segments_track s.bytes_in_flight v.track),
          place,
        )

  pub ack_received-Sending :
      (ackno : WrappingInt32) (window_size : ℕ) (s : TcpSender)
      → Sending isn accepted ended s
      → Sending isn accepted ended (ack_received ackno window_size s)
  unfolding ack_received
  ack_received-Sending ackno window_size s v =
      let abs_ackno = unwrap ackno s.isn s.abs_ackno in
      let (taken, c, place) = v in
      let windowed : Sending isn accepted ended (record s { window_size = window_size }) = (
        taken,
        Cutting-queues taken s (record s { window_size = window_size }) c refl refl c.out c.track,
        place,
      ) in
      if_holds (Sending isn accepted ended) (ltb s.next_seqno_absolute abs_ackno) (λ _. v)
        (λ _.
          if_holds (Sending isn accepted ended) (leb abs_ackno s.abs_ackno) (λ _. windowed)
            (λ _. acknowledge-Sending abs_ackno (record s { window_size = window_size }) windowed))

  retransmit-Sending :
      (track : List TcpSegment) (s : TcpSender)
      → All (IsSent isn accepted ended) track
      → Sending isn accepted ended s
      → Sending isn accepted ended (retransmit track s)
  unfolding retransmit
  retransmit-Sending [] s h (taken, v, place) =
      (taken, Cutting-queues taken s _ v refl refl v.out v.track, place)
  retransmit-Sending (segment ∷ track) s h (taken, v, place) = (
    taken,
    Cutting-queues taken s _ v refl refl
        (All-append (IsSent isn accepted ended) s.segments_out (segment ∷ []) v.out (h.0, tt))
        v.track,
    place,
  )

  pub tick-Sending :
      (ms : ℕ) (s : TcpSender)
      → Sending isn accepted ended s
      → Sending isn accepted ended (tick ms s)
  unfolding tick
  tick-Sending ms s v =
      let (expired, timer) = RetransmissionTimer.timeout ms s.timer in
      let (taken, c, place) = v in
      let timed : Sending isn accepted ended (record s { timer = timer }) = (
        taken,
        Cutting-queues taken s (record s { timer = timer }) c refl refl c.out c.track,
        place,
      ) in
      if_holds (Sending isn accepted ended) (not s.timer.running) (λ _. v)
        (λ _.
          if_holds (Sending isn accepted ended) (not expired) (λ _. timed)
            (λ _. retransmit-Sending s.segments_track (record s { timer = timer }) c.track timed))

  -- A segment without a payload, and the queue taken away.
  pub send_empty_segment-Sending :
      (s : TcpSender)
      → Sending isn accepted ended s
      → Sending isn accepted ended (send_empty_segment s)
  unfolding send_empty_segment TcpSegment.init TcpHeader.init
  send_empty_segment-Sending s (taken, v, place) = (
    taken,
    Cutting-queues taken s _ v refl refl
        (All-append (IsSent isn accepted ended) s.segments_out _ v.out (
          record {
            syn_first = λ h. absurd (ground arith);
            carries = inl refl;
            last = λ h. absurd (ground arith);
          },
          tt,
        ))
        v.track,
    place,
  )

  -- Another queue of segments that were sent.
  pub queued-Sending :
      (segments : List TcpSegment) (s : TcpSender)
      → All (IsSent isn accepted ended) segments
      → Sending isn accepted ended s
      → Sending isn accepted ended (record s { segments_out = segments })
  queued-Sending segments s h (taken, v, place) =
      (taken, Cutting-queues taken s _ v refl refl h v.track, place)

  pub collected-Sending :
      (s : TcpSender)
      → Sending isn accepted ended s
      → Sending isn accepted ended (record s { segments_out = [] })
  collected-Sending s v = queued-Sending [] s tt v

  pub failed-Sending :
      (s : TcpSender)
      → Sending isn accepted ended s
      → Sending isn accepted ended (record s { stream = ByteStream.set_error s.stream })
  unfolding ByteStream.set_error
  failed-Sending s (taken, v, place) = (
    taken,
    record {
      valid = unfold ByteStream.set_error in set_error-IsValid s.stream v.valid;
      same_isn = v.same_isn;
      same_ended = v.same_ended;
      short = v.short;
      count = v.count;
      split = v.split;
      out = v.out;
      track = v.track;
    },
    elim place [
      | unopened e n ↦ unopened e n
      | in_stream e ↦ in_stream e
      | finished e n f ↦ finished e n f
    ],
  )

  pub ended-Sending :
      (s : TcpSender)
      → Sending isn accepted ended s
      → Sending isn accepted true (record s { stream = ByteStream.end_input s.stream })
  unfolding ByteStream.end_input
  ended-Sending s (taken, v, place) = (
    taken,
    record {
      valid = unfold ByteStream.end_input in end_input-IsValid s.stream v.valid;
      same_isn = v.same_isn;
      same_ended = refl;
      short = v.short;
      count = v.count;
      split = v.split;
      out = All-ended isn accepted ended s.segments_out v.out;
      track = All-ended isn accepted ended s.segments_track v.track;
    },
    elim place [
      | unopened e n ↦ unopened e n
      | in_stream e ↦ in_stream e
      | finished e n f ↦ finished e n refl
    ],
  )
