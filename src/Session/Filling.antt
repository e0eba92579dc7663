-- ===== src/Session/Filling.antt =====
-- What `fill_window` cuts off the stream, segment by segment.
use computer_network.Base.{
  ℕ, zero, suc, ◌+◌, ◌≤◌, ◌<◌, ◌≡◌, refl, sym, ap, ◌∙◌, inl, inr, Bool, true, false, not, List,
  ◌++◌, append_assoc, append-nil, length, take, length-append, take-append-drop, min, ltb, ◌==◌,
  if◌then◌else◌, if_holds, Bool-cases, arith,
}
use computer_network.Words.{add64, sub64}
use computer_network.ByteStream.{ByteStream}
use computer_network.ByteStream
use computer_network.ByteStream.Validity.{IsValid, held, read_lem, eof_iff}
use computer_network.WrappingIntegers.{WrappingInt32}
use computer_network.TcpHeader
use computer_network.TcpSegment.{TcpSegment, length_in_sequence_space}
use computer_network.TcpSegment
use computer_network.TcpSender.{
  TcpSender, max_payload_size, send_no_empty_segment, next_segment, payload_of, fill_loop, fill,
  fill_window, syn_segment, open_window,
}
use computer_network.TcpSender.Window.{sent_lem}
use computer_network.Session.Sending.{
  Place, unopened, in_stream, finished, Cutting, Sending, same_stream, taken-short, send-Cutting,
  numbered, syn-Sending, fin-Sending,
}

abbrev count_of : Bool → ℕ
count_of b = if b then 1 else 0

fin_size : (fin : Bool) → fin ≡ true → count_of fin ≡ 1
fin_size fin h = ground arith

no_fin_size : (fin : Bool) → fin ≡ false → count_of fin ≡ 0
no_fin_size fin h = ground arith

module _ (isn : WrappingInt32) (accepted : List ℕ) (ended : Bool) where
  -- What `next_segment` takes off the stream.
  pub record Taken (taken : List ℕ) (segment : TcpSegment) (s s' : TcpSender) : Type 0 where
    pub cutting : Cutting isn accepted ended (taken ++ segment.payload) s'
    pub same_next : s'.next_seqno_absolute ≡ s.next_seqno_absolute
    pub no_syn : segment.header.syn ≡ false
    pub rest : accepted ≡ taken ++ (segment.payload ++ held s'.stream)
    pub last : segment.header.fin ≡ true → ByteStream.eof s'.stream ≡ true

  next_segment-Taken :
      (remain : ℕ) (taken : List ℕ) (s : TcpSender)
      → Cutting isn accepted ended taken s
      → Taken taken (next_segment remain s).0 s (next_segment remain s).1
  unfolding next_segment payload_of TcpSegment.init TcpHeader.init
  next_segment-Taken remain taken s v =
      let n : ℕ = min remain max_payload_size in
      let (s', e, p) = read_lem n s.stream v.valid in
      let whole : accepted ≡ taken ++ (take n (held s.stream) ++ held s') =
        rw p.dropped (v.split ∙ ap (◌++◌ taken) (sym (take-append-drop n (held s.stream)))) in
      rw e (record {
        cutting = record {
          valid = p.valid;
          same_isn = v.same_isn;
          same_ended = p.same_ended ∙ v.same_ended;
          short = v.short;
          count = p.same_written ∙ v.count;
          split = whole ∙ sym (append_assoc taken (take n (held s.stream)) (held s'));
          out = v.out;
          track = v.track;
        };
        same_next = refl;
        no_syn = refl;
        rest = whole;
        last = λ h. ground arith;
      })

  size-no_syn :
      (segment : TcpSegment)
      → segment.header.syn ≡ false
      → length_in_sequence_space segment
        ≡ length segment.payload + (if segment.header.fin then 1 else 0)
  unfolding length_in_sequence_space
  size-no_syn segment e = rw e (omega arith)

  behind_fin :
      (taken : List ℕ) (segment : TcpSegment) (s : TcpSender)
      → (send_no_empty_segment segment s).next_seqno_absolute
        ≡ length (taken ++ segment.payload) + 1 + 1
      → IsValid s.stream
      → ByteStream.eof s.stream ≡ true
      → Place
          (send_no_empty_segment segment s).next_seqno_absolute
          (send_no_empty_segment segment s).stream
          (taken ++ segment.payload)
  behind_fin taken segment s e v at_end =
      let (fin, none_held) = (eof_iff s.stream v).0 at_end in
      finished (omega (arith, e)) (ap held (same_stream segment s) ∙ none_held)
        (ap (λ z. z.input_ended) (same_stream segment s) ∙ fin)

  -- The segment of that round, sent.
  Taken-Sending :
      (taken : List ℕ) (segment : TcpSegment) (s s' : TcpSender)
      → Taken taken segment s s'
      → s.next_seqno_absolute ≡ length taken + 1
      → Sending isn accepted ended (send_no_empty_segment segment s')
        × (0 < (send_no_empty_segment segment s').next_seqno_absolute)
  Taken-Sending taken segment s s' t e =
      let sent =
        send-Cutting isn accepted ended (taken ++ segment.payload) segment s' t.cutting (record {
          syn_first = λ h. absurd (ground (arith, t.no_syn));
          carries = inr (record {
            before = taken;
            after = held s'.stream;
            split = t.rest;
            place =
                numbered isn accepted ended (taken ++ segment.payload) s' (length taken + 1)
                  t.cutting (t.same_next ∙ e);
            no_syn = t.no_syn;
          });
          last = λ h.
              let (fin, none_held) = (eof_iff s'.stream t.cutting.valid).0 (t.last h) in
              (
                sym t.cutting.same_ended ∙ fin,
                record {
                  before = taken;
                  split =
                      t.rest
                      ∙ ap (λ w. taken ++ (segment.payload ++ w)) none_held
                      ∙ ap (◌++◌ taken) (append-nil segment.payload);
                  place =
                      numbered isn accepted ended (taken ++ segment.payload) s' (length taken + 1)
                        t.cutting (t.same_next ∙ e);
                  no_syn = t.no_syn;
                },
              );
        }) in
      let size = size-no_syn segment t.no_syn in
      let short = taken-short isn accepted ended (taken ++ segment.payload) s' t.cutting in
      let more = length-append taken segment.payload in
      let bound : (if segment.header.fin then 1 else 0) ≤ 1 = ground arith in
      let moved = sent_lem segment s' (omega (arith, size, short, more, t.same_next, e, bound)) in
      let here : (send_no_empty_segment segment s').next_seqno_absolute
          ≡ length (taken ++ segment.payload) + 1 + (if segment.header.fin then 1 else 0) =
        omega (arith, moved, size, more, t.same_next, e) in
      (
        (
          taken ++ segment.payload,
          sent,
          elim (Bool-cases segment.header.fin) [
            | inl fin ↦
                behind_fin taken segment s' (omega (arith, here, fin_size segment.header.fin fin))
                  t.cutting.valid (t.last fin)
            | inr fin ↦ in_stream (omega (arith, here, no_fin_size segment.header.fin fin))
          ],
        ),
        omega (arith, here),
      )

  -- A round that takes nothing leaves the sender where it was.
  nothing-Sending :
      (taken : List ℕ) (segment : TcpSegment) (s s' : TcpSender)
      → Taken taken segment s s'
      → s.next_seqno_absolute ≡ length taken + 1
      → length_in_sequence_space segment ≡ 0
      → Sending isn accepted ended s'
  nothing-Sending taken segment s s' t e z =
      let size = size-no_syn segment t.no_syn in
      let more = length-append taken segment.payload in
      (
        taken ++ segment.payload,
        t.cutting,
        in_stream (omega (arith, size, z, more, t.same_next, e)),
      )

  -- Not at the end of the stream, an opened sender stands in it.
  standing :
      (taken : List ℕ) (s : TcpSender)
      → Cutting isn accepted ended taken s
      → Place s.next_seqno_absolute s.stream taken
      → 0 < s.next_seqno_absolute
      → ByteStream.eof s.stream ≡ false
      → s.next_seqno_absolute ≡ length taken + 1
  standing taken s v (unopened e _) positive more = absurd (omega arith)
  standing taken s v (in_stream e) positive more = e
  standing taken s v (finished e none_held fin) positive more =
      absurd (ground (arith, (eof_iff s.stream v.valid).1 (fin, none_held)))

  pub fill_loop-Sending :
      (fuel window : ℕ) (s : TcpSender)
      → Sending isn accepted ended s
      → 0 < s.next_seqno_absolute
      → Sending isn accepted ended (fill_loop fuel window s)
  unfolding fill_loop
  fill_loop-Sending zero window s v positive = v
  fill_loop-Sending (suc fuel) window s v positive =
      let flight = sub64 s.next_seqno_absolute s.abs_ackno in
      let (taken, cut, place) = v in
      let round = next_segment (sub64 window flight) s in
      let t = next_segment-Taken (sub64 window flight) taken s cut in
      if_holds (Sending isn accepted ended) (not (ltb flight window)) (λ _. v)
        (λ _.
          if_holds (Sending isn accepted ended) (not (ByteStream.eof s.stream))
            (λ more.
              let e = standing taken s cut place positive (ground (arith, more)) in
              if_holds (Sending isn accepted ended) (length_in_sequence_space round.0 == 0)
                (λ z. nothing-Sending taken round.0 s round.1 t e (ground (arith, z)))
                (λ _.
                  let (next, further) = Taken-Sending taken round.0 s round.1 t e in
                  fill_loop-Sending fuel window (send_no_empty_segment round.0 round.1) next
                    further))
            (λ at_end.
              if_holds (Sending isn accepted ended)
                (ltb s.next_seqno_absolute (add64 s.stream.bytes_written 2))
                (λ before.
                  (fin-Sending isn accepted ended s v positive (ground (arith, at_end))
                    (ground (arith, before))).0)
                (λ _. v)))

  pub fill_window-Sending :
      (s : TcpSender) → Sending isn accepted ended s → Sending isn accepted ended (fill_window s)
  unfolding fill_window fill
  fill_window-Sending s v =
      let window = open_window s.window_size in
      if_holds (Sending isn accepted ended) (s.next_seqno_absolute == 0)
        (λ z.
          let (opened, positive) = syn-Sending isn accepted ended s v (ground (arith, z)) in
          fill_loop-Sending (suc window) window (send_no_empty_segment syn_segment s) opened
            positive)
        (λ z.
          if_holds (Sending isn accepted ended) (s.next_seqno_absolute == s.bytes_in_flight)
            (λ _. v) (λ _. fill_loop-Sending (suc window) window s v (ground (arith, z))))
