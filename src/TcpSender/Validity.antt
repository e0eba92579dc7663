-- ===== src/TcpSender/Validity.antt =====
-- The stream of a sender, as the sender's operations leave it.
use computer_network.Base.{
  ℕ, zero, suc, ◌^◌, ◌<◌, ◌≡◌, ap, not, Option, some, List, [], ◌∷◌, take, ltb, leb, ◌==◌,
  if◌then◌else◌, if_holds,
}
use computer_network.Words.{add64, sub64, sub64-lt}
use computer_network.WrappingIntegers.{WrappingInt32, unwrap}
use computer_network.ByteStream
use computer_network.ByteStream.{ByteStream}
use computer_network.ByteStream.Validity.{IsValid, held, init-IsValid, write-IsValid, read_lem}
use computer_network.ByteStream.Order.{end_input-IsValid, set_error-IsValid}
use computer_network.RetransmissionTimer
use computer_network.TcpSegment.{TcpSegment, length_in_sequence_space}
use computer_network.TcpSender.{
  TcpSender, init, send_empty_segment, send_no_empty_segment, next_segment, fill_loop, fill,
  fill_window, fin_segment, syn_segment, open_window, is_empty, remove_acknowledged, acknowledge,
  ack_received, retransmit, tick,
}
use computer_network.TcpSender.Flight.{
  Step, Reach, filled, acknowledged, ticked, emptied, written, ended, failed, collected, here, next,
}
use computer_network.TcpSender.Window.{next_segment_lem}

abbrev Sound : TcpSender → Type 0
Sound s = IsValid s.stream

send_no_empty_segment-Sound :
    (segment : TcpSegment) (s : TcpSender) → Sound s → Sound (send_no_empty_segment segment s)
unfolding send_no_empty_segment
send_no_empty_segment-Sound segment s v = v

fill_loop-Sound : (fuel window : ℕ) (s : TcpSender) → Sound s → Sound (fill_loop fuel window s)
unfolding fill_loop
fill_loop-Sound zero window s v = v
fill_loop-Sound (suc fuel) window s v =
    let flight = sub64 s.next_seqno_absolute s.abs_ackno in
    let taken = next_segment (sub64 window flight) s in
    let (_, valid) = next_segment_lem (sub64 window flight) s v (sub64-lt window flight) in
    let sent = send_no_empty_segment-Sound taken.0 taken.1 valid in
    let more = fill_loop-Sound fuel window (send_no_empty_segment taken.0 taken.1) sent in
    let last = send_no_empty_segment-Sound fin_segment s v in
    if_holds Sound (not (ltb flight window)) (λ _. v)
      (λ _.
        if_holds Sound (not (ByteStream.eof s.stream))
          (λ _. if_holds Sound (length_in_sequence_space taken.0 == 0) (λ _. valid) (λ _. more))
          (λ _.
            if_holds Sound (ltb s.next_seqno_absolute (add64 s.stream.bytes_written 2)) (λ _. last)
              (λ _. v)))

fill_window-Sound : (s : TcpSender) → Sound s → Sound (fill_window s)
unfolding fill_window fill
fill_window-Sound s v =
    let opened = send_no_empty_segment-Sound syn_segment s v in
    let window = open_window s.window_size in
    if_holds Sound (s.next_seqno_absolute == 0)
      (λ _. fill_loop-Sound (suc window) window (send_no_empty_segment syn_segment s) opened)
      (λ _.
        if_holds Sound (s.next_seqno_absolute == s.bytes_in_flight) (λ _. v)
          (λ _. fill_loop-Sound (suc window) window s v))

acknowledge-Sound : (ackno : ℕ) (s : TcpSender) → Sound s → Sound (acknowledge ackno s)
unfolding acknowledge
acknowledge-Sound ackno s v =
    let (track, flight) = remove_acknowledged s.isn ackno s.segments_track s.bytes_in_flight in
    fill_window-Sound
      (record s {
        abs_ackno = ackno;
        segments_track = track;
        bytes_in_flight = flight;
        timer =
            if is_empty track
            then RetransmissionTimer.close s.timer
            else RetransmissionTimer.start s.timer;
      })
      v

retransmit-Sound : (track : List TcpSegment) (s : TcpSender) → Sound s → Sound (retransmit track s)
unfolding retransmit
retransmit-Sound [] s v = v
retransmit-Sound (segment ∷ track) s v = v

ack_received-Sound :
    (ackno : WrappingInt32) (window_size : ℕ) (s : TcpSender)
    → Sound s
    → Sound (ack_received ackno window_size s)
unfolding ack_received
ack_received-Sound ackno window_size s v =
    let abs_ackno = unwrap ackno s.isn s.abs_ackno in
    if_holds Sound (ltb s.next_seqno_absolute abs_ackno) (λ _. v)
      (λ _.
        if_holds Sound (leb abs_ackno s.abs_ackno) (λ _. v)
          (λ _. acknowledge-Sound abs_ackno (record s { window_size = window_size }) v))

tick-Sound : (ms : ℕ) (s : TcpSender) → Sound s → Sound (tick ms s)
unfolding tick
tick-Sound ms s v =
    let (expired, timer) = RetransmissionTimer.timeout ms s.timer in
    if_holds Sound (not s.timer.running) (λ _. v)
      (λ _.
        if_holds Sound (not expired) (λ _. v)
          (λ _. retransmit-Sound s.segments_track (record s { timer = timer }) v))

Step-Sound : (s t : TcpSender) → Step s t → Sound s → Sound t
unfolding send_empty_segment
Step-Sound s _ filled v = fill_window-Sound s v
Step-Sound s _ (acknowledged ackno window_size) v = ack_received-Sound ackno window_size s v
Step-Sound s _ (ticked ms) v = tick-Sound ms s v
Step-Sound s _ emptied v = v
Step-Sound s _ (written bytes) v = write-IsValid bytes s.stream v
Step-Sound s _ ended v = end_input-IsValid s.stream v
Step-Sound s _ failed v = set_error-IsValid s.stream v
Step-Sound s _ collected v = v

Reach-Sound : (s t : TcpSender) → Reach s t → Sound s → Sound t
Reach-Sound s _ here v = v
Reach-Sound s _ (next {t} {u} r step) v = Step-Sound t u step (Reach-Sound s t r v)

-- After any sequence of operations on a fresh sender of a capacity below 2^64, a read from its stream
-- returns bytes: as many as asked for, where they are there.
pub read-init :
    (capacity retx_timeout len : ℕ) (fixed_isn : Option WrappingInt32) (random : WrappingInt32)
    (s : TcpSender)
    → capacity < 2 ^ 64
    → Reach (init capacity retx_timeout fixed_isn random) s
    → (ByteStream.read len s.stream).0 ≡ some (take len (held s.stream))
unfolding init
read-init capacity retx_timeout len fixed_isn random s h r =
    let v =
      Reach-Sound (init capacity retx_timeout fixed_isn random) s r (init-IsValid capacity h) in
    let (_, e, _) = read_lem len s.stream v in ap (λ x. x.0) e
