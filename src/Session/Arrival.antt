-- ===== src/Session/Arrival.antt =====
-- The arrival of a segment keeps what the receiver puts together.
use computer_network.Base.{
  ℕ, ◌^◌, ◌≤◌, ◌<◌, ◌≡◌, ap, ◌∙◌, inl, inr, Bool, true, List, length, if_holds, arith,
}
use computer_network.Words.{add64, add32, add64_small, add64-lt}
use computer_network.WrappingIntegers.{WrappingInt32, wrap, plus}
use computer_network.StreamReassembler.{StreamReassembler}
use computer_network.StreamReassembler.Invariant.{Agrees, Inv}
use computer_network.StreamReassembler.Written.{next_pos_lem}
use computer_network.StreamReassembler.Output.{push_substring-Inv}
use computer_network.StreamReassembler.Kept.{Pushed, push_substring-Pushed}
use computer_network.TcpSegment.{TcpSegment}
use computer_network.TcpReceiver.{TcpReceiver, stream_index, accept, segment_received}
use computer_network.TcpReceiver.Delivery.{stream_index-wrap}
use computer_network.Session.Cut.{Last, IsSent, Agrees-Cut, length-Cut, length-Last}
use computer_network.Session.Prefix.{stream_of, stream_of-Agrees}
use computer_network.Session.Receiving.{Receiving, written_lem}

wrap_zero : (isn : WrappingInt32) → isn.raw_value < 2 ^ 32 → wrap 0 isn ≡ isn
unfolding wrap plus add32
wrap_zero isn h = ap (λ k. record { raw_value = k }) (omega arith)

module _ (isn : WrappingInt32) (accepted : List ℕ) (ended : Bool) (delivered : List ℕ)
    (seg : TcpSegment) where
  -- The payload goes where it stands in the bytes.
  accept-Inv :
      (source : ℕ → ℕ) (r : TcpReceiver)
      → length accepted < 2 ^ 31
      → IsSent isn accepted ended seg
      → r.isn ≡ isn
      → r.reassembler.output.bytes_written ≤ length accepted
      → Agrees source 0 accepted
      → Inv source r.reassembler
      → Inv source (accept seg r).reassembler
  unfolding accept stream_index
  accept-Inv source r short sent same behind a inv = elim sent.carries [
    | inl e ↦
        push_substring-Inv source r.reassembler seg.payload (stream_index seg r) seg.header.fin inv
          (rw e (omega (arith, add64-lt _ _))) (rw e tt)
    | inr c ↦
        let len = length-Cut isn accepted seg c in
        let there : stream_index seg r ≡ length c.before =
          stream_index-wrap (length c.before) seg r (rw (c.no_syn, same) c.place)
            (omega (arith, behind, short)) (omega (arith, len, short))
            (omega (arith, behind, short)) in
        push_substring-Inv source r.reassembler seg.payload (stream_index seg r) seg.header.fin inv
          (omega (arith, there, len, short)) (rw there (Agrees-Cut source isn accepted seg c a))
  ]

  accept-Pushed :
      (r : TcpReceiver)
      → Pushed seg.payload
          (stream_index seg r)
          seg.header.fin
          r.reassembler
          (accept seg r).reassembler
  unfolding accept
  accept-Pushed r =
      push_substring-Pushed seg.payload (stream_index seg r) seg.header.fin r.reassembler

  -- The index of the end, as the push notes it.
  Last-stream_index :
      (r : TcpReceiver)
      → length accepted < 2 ^ 31
      → r.isn ≡ isn
      → r.reassembler.output.bytes_written ≤ length accepted
      → Last isn accepted seg
      → add64 (stream_index seg r) (length seg.payload) ≡ length accepted
  Last-stream_index r short same behind l =
      let len = length-Last isn accepted seg l in
      let there : stream_index seg r ≡ length l.before =
        stream_index-wrap (length l.before) seg r (rw (l.no_syn, same) l.place)
          (omega (arith, behind, short)) (omega (arith, len, short))
          (omega (arith, behind, short)) in
      rw there (
        omega (
          arith,
          add64_small (length l.before) (length seg.payload) (omega (arith, len, short)),
          len,
        ))

  -- The first position that was not written only moves on.
  next_pos_mono :
      (r r' : StreamReassembler)
      → Inv (stream_of 0 accepted) r
      → Inv (stream_of 0 accepted) r'
      → r'.output.bytes_read ≡ r.output.bytes_read
      → r.output.buffer_size ≤ r'.output.buffer_size
      → r.next_pos ≤ r'.next_pos
  next_pos_mono r r' v v' e more =
      let source = stream_of 0 accepted in
      omega (arith, next_pos_lem source r v, next_pos_lem source r' v', e, more)

  accept-Receiving :
      (r : TcpReceiver)
      → length accepted < 2 ^ 31
      → IsSent isn accepted ended seg
      → r.isn ≡ isn
      → Receiving isn accepted ended delivered r
      → Receiving isn accepted ended delivered (accept seg r)
  accept-Receiving r short sent same v =
      let p = accept-Pushed r in
      let (behind, _) = written_lem isn accepted ended delivered r v in
      let after =
        accept-Inv (stream_of 0 accepted) r short sent same behind (stream_of-Agrees 0 accepted) in
      let (inv, _) = v.streams (stream_of 0 accepted) (stream_of-Agrees 0 accepted) in
      let at_end : (accept seg r).reassembler.eof_appear_sign ≡ true
          → (ended ≡ true) × ((accept seg r).reassembler.eof_index ≡ length accepted) =
        λ e. elim (p.noted e) [
          | inl (fin, index) ↦
              let (all, l) = sent.last fin in (all, index ∙ Last-stream_index r short same behind l)
          | inr (before, index) ↦ let (all, there) = v.noted before in (all, index ∙ there)
        ] in
      record {
        same_isn = λ _. unfold accept in same;
        room = omega (arith, p.same_capacity, v.room);
        count = p.same_read ∙ v.count;
        streams = λ source a.
            let (before, read) = v.streams source a in
            (accept-Inv source r short sent same behind a before, read);
        noted = at_end;
        finished = λ e. elim (p.finished e) [
          | inl before ↦
              let (all, there) = v.finished before in
              let moved =
                next_pos_mono r.reassembler (accept seg r).reassembler inv (after inv) p.same_read
                  (p.grows inv.out_valid) in
              (all, omega (arith, there, moved))
          | inr (sign, there) ↦ let (all, index) = at_end sign in (all, omega (arith, index, there))
        ];
      }

  pub segment_received-Receiving :
      (r : TcpReceiver)
      → length accepted < 2 ^ 31
      → isn.raw_value < 2 ^ 32
      → IsSent isn accepted ended seg
      → Receiving isn accepted ended delivered r
      → Receiving isn accepted ended delivered (segment_received seg r)
  unfolding segment_received
  segment_received-Receiving r short small sent v =
      if_holds (Receiving isn accepted ended delivered) r.syn
        (λ opened. accept-Receiving r short sent (v.same_isn opened) v)
        (λ _.
          if_holds (Receiving isn accepted ended delivered) seg.header.syn
            (λ first.
              let same : seg.header.seqno ≡ isn = sent.syn_first first ∙ wrap_zero isn small in
              accept-Receiving (record r { syn = true; isn = seg.header.seqno }) short sent same
                (record {
                  same_isn = λ _. same;
                  room = v.room;
                  count = v.count;
                  streams = v.streams;
                  noted = v.noted;
                  finished = v.finished;
                }))
            (λ _. v))
