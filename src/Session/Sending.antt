-- ===== src/Session/Sending.antt =====
-- What the sender has put into segments is what was written to it, from the start on.
use computer_network.Base.{
  ℕ, ◌+◌, ◌^◌, ◌<◌, ◌≡◌, refl, sym, ap, ◌∙◌, inl, Bool, true, List, [], ◌++◌, length, length-append,
  All, All-append, arith,
}
use computer_network.Words.{add64, add64_small}
use computer_network.ByteStream.{ByteStream}
use computer_network.ByteStream
use computer_network.ByteStream.Validity.{IsValid, held, eof_iff}
use computer_network.WrappingIntegers.{WrappingInt32, wrap}
use computer_network.TcpHeader
use computer_network.TcpSegment.{TcpSegment, length_in_sequence_space}
use computer_network.TcpSegment
use computer_network.TcpSender.{
  TcpSender, next_seqno, send_no_empty_segment, fin_segment, syn_segment,
}
use computer_network.TcpSender.Window.{sent_lem}
use computer_network.Session.Cut.{IsSent}

-- Where the sender stands after `taken` bytes: before its SYN, in the stream, or behind its FIN.
pub data Place (next_seqno_absolute : ℕ) (stream : ByteStream) (taken : List ℕ) : Type 0 where
  unopened : next_seqno_absolute ≡ 0 → taken ≡ [] → Place next_seqno_absolute stream taken
  in_stream : next_seqno_absolute ≡ length taken + 1 → Place next_seqno_absolute stream taken
  finished :
      next_seqno_absolute ≡ length taken + 2
      → held stream ≡ []
      → stream.input_ended ≡ true
      → Place next_seqno_absolute stream taken

-- The stream has taken the bytes, and the sender has taken some of them off the stream.
pub record Cutting (isn : WrappingInt32) (accepted : List ℕ) (ended : Bool) (taken : List ℕ)
    (s : TcpSender) : Type 0 where
  pub valid : IsValid s.stream
  pub same_isn : s.isn ≡ isn
  pub same_ended : s.stream.input_ended ≡ ended
  pub short : length accepted < 2 ^ 31
  pub count : s.stream.bytes_written ≡ length accepted
  pub split : accepted ≡ taken ++ held s.stream
  pub out : All (IsSent isn accepted ended) s.segments_out
  pub track : All (IsSent isn accepted ended) s.segments_track

abbrev pub Sending : WrappingInt32 → List ℕ → Bool → TcpSender → Type 0
Sending isn accepted ended s =
    (taken : List ℕ) × Cutting isn accepted ended taken s
    × Place s.next_seqno_absolute s.stream taken

pub same_stream :
    (segment : TcpSegment) (s : TcpSender) → (send_no_empty_segment segment s).stream ≡ s.stream
unfolding send_no_empty_segment
same_stream segment s = refl

module _ (isn : WrappingInt32) (accepted : List ℕ) (ended : Bool) where
  -- What is taken, and what more is held, are not more than the bytes.
  pub taken-short :
      (taken : List ℕ) (s : TcpSender)
      → Cutting isn accepted ended taken s
      → (length taken < 2 ^ 31) × (length accepted ≡ length taken + length (held s.stream))
  taken-short taken s v =
      let e = ap length v.split in
      let more = length-append taken (held s.stream) in
      (omega (arith, e, more, v.short), omega (arith, e, more))

  -- A segment put on both queues.
  pub send-Cutting :
      (taken : List ℕ) (segment : TcpSegment) (s : TcpSender)
      → Cutting isn accepted ended taken s
      → IsSent isn accepted ended
          (record segment { header = record segment.header { seqno = next_seqno s } })
      → Cutting isn accepted ended taken (send_no_empty_segment segment s)
  unfolding send_no_empty_segment
  send-Cutting taken segment s v sent = record {
    valid = v.valid;
    same_isn = v.same_isn;
    same_ended = v.same_ended;
    short = v.short;
    count = v.count;
    split = v.split;
    out = All-append (IsSent isn accepted ended) s.segments_out _ v.out (sent, tt);
    track = All-append (IsSent isn accepted ended) s.segments_track _ v.track (sent, tt);
  }

  -- A sequence number of the sender is the wrapped number of the segment.
  pub numbered :
      (taken : List ℕ) (s : TcpSender) (n : ℕ)
      → Cutting isn accepted ended taken s
      → s.next_seqno_absolute ≡ n
      → next_seqno s ≡ wrap n isn
  unfolding next_seqno
  numbered taken s n v e = rw (v.same_isn, e) refl

  pub syn-Sending :
      (s : TcpSender)
      → Sending isn accepted ended s
      → s.next_seqno_absolute ≡ 0
      → Sending isn accepted ended (send_no_empty_segment syn_segment s)
        × (0 < (send_no_empty_segment syn_segment s).next_seqno_absolute)
  unfolding length_in_sequence_space TcpSegment.init TcpHeader.init
  syn-Sending s (taken, v, unopened _ e) zeroth =
      let sent = send-Cutting taken syn_segment s v (record {
        syn_first = λ _. numbered taken s 0 v zeroth;
        carries = inl refl;
        last = λ h. absurd (ground arith);
      }) in
      let moved = sent_lem syn_segment s (omega (arith, zeroth)) in
      (
        (taken, sent, in_stream (omega (arith, moved, zeroth, ap length e))),
        omega (arith, moved, zeroth),
      )
  syn-Sending s (taken, v, in_stream e) zeroth = absurd (omega arith)
  syn-Sending s (taken, v, finished e _ _) zeroth = absurd (omega arith)

  -- The FIN of a segment of its own, once all is taken.
  pub fin-Sending :
      (s : TcpSender)
      → Sending isn accepted ended s
      → 0 < s.next_seqno_absolute
      → ByteStream.eof s.stream ≡ true
      → s.next_seqno_absolute < add64 s.stream.bytes_written 2
      → Sending isn accepted ended (send_no_empty_segment fin_segment s)
        × (0 < (send_no_empty_segment fin_segment s).next_seqno_absolute)
  unfolding length_in_sequence_space TcpSegment.init TcpHeader.init
  fin-Sending s (taken, v, unopened e _) positive at_end before = absurd (omega arith)
  fin-Sending s (taken, v, in_stream e) positive at_end before =
      let (fin, none_held) = (eof_iff s.stream v.valid).0 at_end in
      let sent = send-Cutting taken fin_segment s v (record {
        syn_first = λ h. absurd (ground arith);
        carries = inl refl;
        last = λ _. (
          sym v.same_ended ∙ fin,
          record {
            before = taken;
            split = v.split ∙ ap (◌++◌ taken) none_held;
            place = numbered taken s (length taken + 1) v e;
            no_syn = refl;
          },
        );
      }) in
      let short = taken-short taken s v in
      let moved = sent_lem fin_segment s (omega (arith, e, short)) in
      (
        (
          taken,
          sent,
          finished (omega (arith, moved, e)) (ap held (same_stream fin_segment s) ∙ none_held)
              (ap (λ z. z.input_ended) (same_stream fin_segment s) ∙ fin),
        ),
        omega (arith, moved),
      )
  fin-Sending s (taken, v, finished e none_held _) positive at_end before =
      let short = taken-short taken s v in
      absurd (
        omega (
          arith,
          e,
          short,
          ap length none_held,
          v.count,
          add64_small s.stream.bytes_written 2 (omega (arith, v.count, v.short)),
        ))
