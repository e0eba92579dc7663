-- ===== src/TcpSender/Flight.antt =====
-- What is in flight: the segments that wait for an acknowledgment.
use computer_network.Base.{
  ℕ, zero, suc, ◌+◌, ◌%◌, ◌^◌, ◌≡◌, refl, not, Option, List, [], ◌∷◌, ◌++◌, ltb, leb, ◌==◌,
  if◌then◌else◌, if_holds, arith,
}
use computer_network.Words.{add64, sub64}
use computer_network.WrappingIntegers.{WrappingInt32, unwrap}
use computer_network.ByteStream
use computer_network.TcpSegment.{TcpSegment, length_in_sequence_space}
use computer_network.RetransmissionTimer
use computer_network.TcpSender.{
  TcpSender, init, send_empty_segment, send_no_empty_segment, next_segment, next_seqno, fill_loop,
  fill, fill_window, fin_segment, syn_segment, open_window, remove_acknowledged, is_empty,
  acknowledge, ack_received, retransmit, tick,
}

-- The sequence numbers that a queue of segments takes up.
unfoldable pub total : List TcpSegment → ℕ
total [] = 0
total (segment ∷ track) = length_in_sequence_space segment + total track

total-append :
    (track track' : List TcpSegment) → total (track ++ track') ≡ total track + total track'
unfolding total
total-append [] track' = omega arith
total-append (segment ∷ track) track' = omega (arith, total-append track track')

-- The count of the bytes in flight is that of the segments that wait for an acknowledgment.
abbrev pub Counted : TcpSender → Type 0
Counted s = s.bytes_in_flight ≡ total s.segments_track % 2 ^ 64

send_no_empty_segment-Counted :
    (segment : TcpSegment) (s : TcpSender) → Counted s → Counted (send_no_empty_segment segment s)
unfolding send_no_empty_segment add64 total length_in_sequence_space
send_no_empty_segment-Counted segment s h =
    let more =
      total-append s.segments_track
        (record segment { header = record segment.header { seqno = next_seqno s } } ∷ []) in
    omega (arith, more, h)

fill_loop-Counted :
    (fuel window : ℕ) (s : TcpSender) → Counted s → Counted (fill_loop fuel window s)
unfolding fill_loop
fill_loop-Counted zero window s h = h
fill_loop-Counted (suc fuel) window s h =
    let flight = sub64 s.next_seqno_absolute s.abs_ackno in
    let taken = next_segment (sub64 window flight) s in
    let sent = send_no_empty_segment-Counted taken.0 taken.1 h in
    let more = fill_loop-Counted fuel window (send_no_empty_segment taken.0 taken.1) sent in
    let last = send_no_empty_segment-Counted fin_segment s h in
    if_holds Counted (not (ltb flight window)) (λ _. h)
      (λ _.
        if_holds Counted (not (ByteStream.eof s.stream))
          (λ _. if_holds Counted (length_in_sequence_space taken.0 == 0) (λ _. h) (λ _. more))
          (λ _.
            if_holds Counted (ltb s.next_seqno_absolute (add64 s.stream.bytes_written 2))
              (λ _. last) (λ _. h)))

pub fill_window-Counted : (s : TcpSender) → Counted s → Counted (fill_window s)
unfolding fill_window fill
fill_window-Counted s h =
    let opened = send_no_empty_segment-Counted syn_segment s h in
    let window = open_window s.window_size in
    if_holds Counted (s.next_seqno_absolute == 0)
      (λ _. fill_loop-Counted (suc window) window (send_no_empty_segment syn_segment s) opened)
      (λ _.
        if_holds Counted (s.next_seqno_absolute == s.bytes_in_flight) (λ _. h)
          (λ _. fill_loop-Counted (suc window) window s h))

remove_acknowledged-total :
    (isn : WrappingInt32) (ackno : ℕ) (track : List TcpSegment) (flight : ℕ)
    → flight ≡ total track % 2 ^ 64
    → (remove_acknowledged isn ackno track flight).1
      ≡ total (remove_acknowledged isn ackno track flight).0 % 2 ^ 64
unfolding remove_acknowledged total sub64
remove_acknowledged-total isn ackno [] flight h = h
remove_acknowledged-total isn ackno (segment ∷ track) flight h = ground (
  arith,
  remove_acknowledged-total isn ackno track (sub64 flight (length_in_sequence_space segment)),
)

-- What may happen to a sender.
pub data Step (s : TcpSender) : TcpSender → Type 0 where
  filled : Step s (fill_window s)
  acknowledged :
      (ackno : WrappingInt32) (window_size : ℕ) → Step s (ack_received ackno window_size s)
  ticked : (ms : ℕ) → Step s (tick ms s)
  emptied : Step s (send_empty_segment s)
  written : (bytes : List ℕ) → Step s (record s { stream = ByteStream.write bytes s.stream })
  ended : Step s (record s { stream = ByteStream.end_input s.stream })
  failed : Step s (record s { stream = ByteStream.set_error s.stream })
  collected : Step s (record s { segments_out = [] })

acknowledge-Counted : (ackno : ℕ) (s : TcpSender) → Counted s → Counted (acknowledge ackno s)
unfolding acknowledge
acknowledge-Counted ackno s h =
    let (track, flight) = remove_acknowledged s.isn ackno s.segments_track s.bytes_in_flight in
    fill_window-Counted
      (record s {
        abs_ackno = ackno;
        segments_track = track;
        bytes_in_flight = flight;
        timer =
            if is_empty track
            then RetransmissionTimer.close s.timer
            else RetransmissionTimer.start s.timer;
      })
      (remove_acknowledged-total s.isn ackno s.segments_track s.bytes_in_flight h)

ack_received-Counted :
    (ackno : WrappingInt32) (window_size : ℕ) (s : TcpSender)
    → Counted s
    → Counted (ack_received ackno window_size s)
unfolding ack_received
ack_received-Counted ackno window_size s h =
    let abs_ackno = unwrap ackno s.isn s.abs_ackno in
    if_holds Counted (ltb s.next_seqno_absolute abs_ackno) (λ _. h)
      (λ _.
        if_holds Counted (leb abs_ackno s.abs_ackno) (λ _. h)
          (λ _. acknowledge-Counted abs_ackno (record s { window_size = window_size }) h))

retransmit-Counted :
    (track : List TcpSegment) (s : TcpSender) → Counted s → Counted (retransmit track s)
unfolding retransmit
retransmit-Counted [] s h = h
retransmit-Counted (segment ∷ track) s h = h

tick-Counted : (ms : ℕ) (s : TcpSender) → Counted s → Counted (tick ms s)
unfolding tick
tick-Counted ms s h =
    let (expired, timer) = RetransmissionTimer.timeout ms s.timer in
    if_holds Counted (not s.timer.running) (λ _. h)
      (λ _.
        if_holds Counted (not expired) (λ _. h)
          (λ _. retransmit-Counted s.segments_track (record s { timer = timer }) h))

step-Counted : (s t : TcpSender) → Step s t → Counted s → Counted t
unfolding send_empty_segment
step-Counted s _ filled h = fill_window-Counted s h
step-Counted s _ (acknowledged ackno window_size) h = ack_received-Counted ackno window_size s h
step-Counted s _ (ticked ms) h = tick-Counted ms s h
step-Counted s _ emptied h = h
step-Counted s _ (written bytes) h = h
step-Counted s _ ended h = h
step-Counted s _ failed h = h
step-Counted s _ collected h = h

pub data Reach (s : TcpSender) : TcpSender → Type 0 where
  here : Reach s s
  next : {t u : TcpSender} → Reach s t → Step t u → Reach s u

kept-Counted : (s t : TcpSender) → Reach s t → Counted s → Counted t
kept-Counted s _ here h = h
kept-Counted s _ (next {t} {u} r step) h = step-Counted t u step (kept-Counted s t r h)

-- After any sequence of operations on a fresh sender, the count of the bytes in flight is the number of
-- sequence numbers that the segments waiting for an acknowledgment take up, modulo 2^64.
pub init-Counted :
    (capacity retx_timeout : ℕ) (fixed_isn : Option WrappingInt32) (random : WrappingInt32)
    (s : TcpSender)
    → Reach (init capacity retx_timeout fixed_isn random) s
    → s.bytes_in_flight ≡ total s.segments_track % 2 ^ 64
unfolding init total
init-Counted capacity retx_timeout fixed_isn random s r =
    kept-Counted (init capacity retx_timeout fixed_isn random) s r refl
