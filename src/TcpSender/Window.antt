-- ===== src/TcpSender/Window.antt =====
-- `fill_window` and the peer's window, and the fuel of its loop.
use computer_network.Base.{
  ℕ, zero, suc, ◌+◌, ◌-◌, ◌^◌, ◌≤◌, ◌<◌, ◌≡◌, ◌⊎◌, refl, sym, ap, subst, true, false, not,
  Bool-cases, inl, inr, length, take, length-take, min, ltb, leb, ◌==◌, if_holds, arith,
}
use computer_network.Words.{add64, sub64, sub64_le}
use computer_network.ByteStream
use computer_network.ByteStream.{ByteStream}
use computer_network.ByteStream.Validity.{IsValid, held, read_lem}
use computer_network.TcpSegment.{TcpSegment, length_in_sequence_space}
use computer_network.TcpSegment
use computer_network.TcpHeader
use computer_network.TcpSender.{
  TcpSender, max_payload_size, send_no_empty_segment, next_segment, payload_of, fill_loop, fill,
  fill_window, fin_segment, syn_segment, open_window,
}

-- A segment of the stream fits in what remains of the window, and the stream stays valid.
pub next_segment_lem :
    (remain : ℕ) (s : TcpSender)
    → IsValid s.stream
    → remain < 2 ^ 64
    → (length_in_sequence_space (next_segment remain s).0 ≤ remain)
      × IsValid (next_segment remain s).1.stream
unfolding next_segment length_in_sequence_space TcpSegment.init TcpHeader.init payload_of sub64
next_segment_lem remain s v h =
    let n = min remain max_payload_size in
    let (s', e, p) = read_lem n s.stream v in
    let read_bytes : length (take n (held s.stream)) ≤ remain =
      omega (arith, length-take n (held s.stream)) in
    rw e (ground arith, p.valid)

-- A valid stream, and numbers that do not come near 2^64.
abbrev pub Ready : ℕ → TcpSender → Type 0
Ready window s =
    IsValid s.stream
    × (s.abs_ackno ≤ s.next_seqno_absolute)
    × (s.next_seqno_absolute < 2 ^ 64)
    × (s.abs_ackno + window < 2 ^ 64)

pub sent_lem :
    (segment : TcpSegment) (s : TcpSender)
    → s.next_seqno_absolute + length_in_sequence_space segment < 2 ^ 64
    → (send_no_empty_segment segment s).next_seqno_absolute
      ≡ s.next_seqno_absolute + length_in_sequence_space segment
unfolding send_no_empty_segment length_in_sequence_space add64
sent_lem segment s h = omega arith

-- What remains of the window, and one round of the loop that sends a segment of the stream.
abbrev remaining : ℕ → TcpSender → ℕ
remaining window s = sub64 window (sub64 s.next_seqno_absolute s.abs_ackno)

abbrev taken : ℕ → TcpSender → TcpSegment × TcpSender
taken window s = next_segment (remaining window s) s

abbrev sent : ℕ → TcpSender → TcpSender
sent window s = send_no_empty_segment (taken window s).0 (taken window s).1

record Round (window : ℕ) (s : TcpSender) : Type 0 where
  stays : (taken window s).1.next_seqno_absolute ≡ s.next_seqno_absolute
  same : (sent window s).abs_ackno ≡ s.abs_ackno
  moves :
      (sent window s).next_seqno_absolute
      ≡ s.next_seqno_absolute + length_in_sequence_space (taken window s).0
  inside : (sent window s).next_seqno_absolute ≤ s.abs_ackno + window
  ready : Ready window (sent window s)

remaining_lem :
    (window : ℕ) (s : TcpSender)
    → Ready window s
    → s.next_seqno_absolute ≤ s.abs_ackno + window
    → remaining window s ≡ s.abs_ackno + window - s.next_seqno_absolute
unfolding sub64
remaining_lem window s (v, a, b, c) l = omega arith

round_lem :
    (window : ℕ) (s : TcpSender)
    → Ready window s
    → s.next_seqno_absolute ≤ s.abs_ackno + window
    → Round window s
unfolding next_segment send_no_empty_segment
round_lem window s (v, a, b, c) l =
    let remain = remaining_lem window s (v, a, b, c) l in
    let (fits, valid) = next_segment_lem (remaining window s) s v (omega arith) in
    let moves = sent_lem (taken window s).0 (taken window s).1 (omega arith) in
    record {
      stays = refl;
      same = refl;
      moves = moves;
      inside = omega arith;
      ready = (valid, omega arith, omega arith, omega arith);
    }

inside_sent :
    (window : ℕ) (s : TcpSender)
    → Round window s
    → (sent window s).next_seqno_absolute ≤ (sent window s).abs_ackno + window
inside_sent window s round =
    subst (λ a. (sent window s).next_seqno_absolute ≤ a + window) (sym round.same) round.inside

within :
    (window : ℕ) (s t : TcpSender)
    → Round window s
    → t.next_seqno_absolute ≤ (sent window s).abs_ackno + window
    → t.next_seqno_absolute ≤ s.abs_ackno + window
within window s t round l = subst (λ a. t.next_seqno_absolute ≤ a + window) round.same l

last_fits :
    (window : ℕ) (s : TcpSender)
    → Ready window s
    → not (ltb (sub64 s.next_seqno_absolute s.abs_ackno) window) ≡ false
    → (send_no_empty_segment fin_segment s).next_seqno_absolute ≤ s.abs_ackno + window
unfolding sub64 length_in_sequence_space TcpSegment.init TcpHeader.init
last_fits window s (v, a, b, c) room =
    let there : s.next_seqno_absolute < s.abs_ackno + window = ground arith in
    omega (arith, sent_lem fin_segment s (omega arith))

fill_loop-Window :
    (fuel window : ℕ) (s : TcpSender)
    → Ready window s
    → s.next_seqno_absolute ≤ s.abs_ackno + window
    → (fill_loop fuel window s).next_seqno_absolute ≤ s.abs_ackno + window
unfolding fill_loop
fill_loop-Window zero window s r l = l
fill_loop-Window (suc fuel) window s r l =
    let round = round_lem window s r l in
    let P : TcpSender → Type 0 = λ t. t.next_seqno_absolute ≤ s.abs_ackno + window in
    if_holds P (not (ltb (sub64 s.next_seqno_absolute s.abs_ackno) window)) (λ _. l)
      (λ room.
        if_holds P (not (ByteStream.eof s.stream))
          (λ _.
            if_holds P (length_in_sequence_space (taken window s).0 == 0) (λ _. l)
              (λ _. within window s (fill_loop fuel window (sent window s)) round (
                fill_loop-Window fuel window (sent window s) round.ready
                  (inside_sent window s round))))
          (λ _.
            if_holds P (ltb s.next_seqno_absolute (add64 s.stream.bytes_written 2))
              (λ _. last_fits window s r room) (λ _. l)))

further :
    (window : ℕ) (s : TcpSender) (f : ℕ)
    → Round window s
    → 0 < length_in_sequence_space (taken window s).0
    → s.abs_ackno + window < s.next_seqno_absolute + suc f
    → (sent window s).abs_ackno + window < (sent window s).next_seqno_absolute + f
further window s f round pos l =
    subst (λ a. a + window < (sent window s).next_seqno_absolute + f) (sym round.same)
      (subst (λ n. s.abs_ackno + window < n + f) (sym round.moves) (omega arith))

-- Where the window is full the loop does nothing.
fill_loop_full :
    (fuel window : ℕ) (s : TcpSender)
    → Ready window s
    → s.abs_ackno + window ≤ s.next_seqno_absolute
    → fill_loop fuel window s ≡ s
unfolding fill_loop
fill_loop_full zero window s r l = refl
fill_loop_full (suc fuel) window s (v, a, b, c) l =
    let flight = sub64_le s.next_seqno_absolute s.abs_ackno a b in
    let full : ltb (sub64 s.next_seqno_absolute s.abs_ackno) window ≡ false =
      grind (arith, flight) in
    rw full refl

-- More fuel than what remains of the window changes nothing: on a valid stream, as long as the
-- sequence numbers are below 2^64.
pub fill_loop_fuel :
    (f g window : ℕ) (s : TcpSender)
    → Ready window s
    → s.abs_ackno + window < s.next_seqno_absolute + f
    → f ≤ g
    → fill_loop g window s ≡ fill_loop f window s
unfolding fill_loop
fill_loop_fuel zero g window s r l k = fill_loop_full g window s r (omega arith)
fill_loop_fuel (suc f) zero window s r l k = absurd (omega arith)
fill_loop_fuel (suc f) (suc g) window s (v, a, b, c) l k =
    let flight = sub64_le s.next_seqno_absolute s.abs_ackno a b in
    elim (Bool-cases (not (ltb (sub64 s.next_seqno_absolute s.abs_ackno) window))) [
      | inl full ↦ rw full refl
      | inr room ↦ elim (Bool-cases (length_in_sequence_space (taken window s).0 == 0)) [
        | inl stops ↦ rw (room, stops) refl
        | inr moves ↦
            let round = round_lem window s (v, a, b, c) (grind (arith, flight)) in
            let more : fill_loop g window (sent window s) ≡ fill_loop f window (sent window s) =
              fill_loop_fuel f g window (sent window s) round.ready
                (further window s f round (grind arith) l) (omega arith) in
            rw (room, moves, more) refl
      ]
    ]

loop_lem :
    (window : ℕ) (s : TcpSender)
    → Ready window s
    → ((fill_loop (suc window) window s).next_seqno_absolute ≤ s.abs_ackno + window)
      ⊎ ((fill_loop (suc window) window s).next_seqno_absolute ≡ s.next_seqno_absolute)
loop_lem window s r = elim (Bool-cases (leb s.next_seqno_absolute (s.abs_ackno + window))) [
  | inl e ↦ inl (fill_loop-Window (suc window) window s r (grind arith))
  | inr e ↦
      inr (ap (λ t. t.next_seqno_absolute) (fill_loop_full (suc window) window s r (grind arith)))
]

opened_lem :
    (s : TcpSender)
    → Ready (open_window s.window_size) s
    → s.next_seqno_absolute == 0 ≡ true
    → (fill_loop
        (suc (open_window s.window_size))
        (open_window s.window_size)
        (send_no_empty_segment syn_segment s)).next_seqno_absolute
      ≤ s.abs_ackno + open_window s.window_size
unfolding send_no_empty_segment length_in_sequence_space TcpSegment.init TcpHeader.init
opened_lem s (v, a, b, c) e =
    let window = open_window s.window_size in
    let fresh : s.next_seqno_absolute ≡ 0 = grind arith in
    let wide : 0 < window = ground arith in
    let one = sent_lem syn_segment s (omega arith) in
    fill_loop-Window (suc window) window (send_no_empty_segment syn_segment s)
      (v, omega arith, omega arith, c) (omega arith)

-- On a valid stream, with the sequence numbers below 2^64, `fill_window` sends nothing beyond the
-- window: the next sequence number is at most as far from the acknowledged one as the window is wide,
-- where a window of size 0 counts as one of size 1, or it stays where it was.
pub fill_window-Window :
    (s : TcpSender)
    → Ready (open_window s.window_size) s
    → ((fill_window s).next_seqno_absolute ≤ s.abs_ackno + open_window s.window_size)
      ⊎ ((fill_window s).next_seqno_absolute ≡ s.next_seqno_absolute)
unfolding fill_window fill send_no_empty_segment
fill_window-Window s (v, a, b, c) =
    let window = open_window s.window_size in
    let P : TcpSender → Type 0 = λ t.
      (t.next_seqno_absolute ≤ s.abs_ackno + window)
      ⊎ (t.next_seqno_absolute ≡ s.next_seqno_absolute) in
    if_holds P (s.next_seqno_absolute == 0) (λ e. inl (opened_lem s (v, a, b, c) e))
      (λ _.
        if_holds P (s.next_seqno_absolute == s.bytes_in_flight) (λ _. inr refl)
          (λ _. loop_lem window s (v, a, b, c)))
