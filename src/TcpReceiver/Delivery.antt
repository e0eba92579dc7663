-- ===== src/TcpReceiver/Delivery.antt =====
-- The place of a segment in the stream, and the acknowledgment for it.
use computer_network.Base.{
  ℕ, ◌+◌, ◌^◌, ◌≤◌, ◌<◌, ◌≡◌, ap, Bool, true, false, some, length, if◌then◌else◌, arith,
}
use computer_network.Words.{add64, sub64, add32, add64_small}
use computer_network.WrappingIntegers.{WrappingInt32, plus, wrap, unwrap}
use computer_network.WrappingIntegers.RoundTrip.{unwrap-wrap}
use computer_network.StreamReassembler.Invariant.{Agrees, Inv}
use computer_network.StreamReassembler.Output.{push_substring-Inv}
use computer_network.TcpSegment.{TcpSegment}
use computer_network.TcpReceiver.{TcpReceiver, stream_index, accept, segment_received, ackno}

-- The number of the sequence number that a segment with its payload at `index` has: the SYN comes
-- before the stream.
abbrev absolute : ℕ → TcpSegment → ℕ
absolute index seg = if seg.header.syn then index else index + 1

placed :
    (index : ℕ) (syn : Bool)
    → index + 1 < 2 ^ 64
    → add64 (sub64 (if syn then index else index + 1) 1) (if syn then 1 else 0) ≡ index
unfolding add64 sub64
placed index true h = omega arith
placed index false h = omega arith

-- Where the sequence number of a segment is that of a place in the stream within 2^31 - 2 of what is
-- written, that place is found; a SYN stands before the start.
pub stream_index-wrap :
    (index : ℕ) (seg : TcpSegment) (r : TcpReceiver)
    → seg.header.seqno ≡ wrap (absolute index seg) r.isn
    → r.reassembler.output.bytes_written + 1 < 2 ^ 63
    → index < r.reassembler.output.bytes_written + 2 ^ 31
    → r.reassembler.output.bytes_written + 1 ≤ index + 2 ^ 31
    → stream_index seg r ≡ index
unfolding stream_index
stream_index-wrap index seg r e small ahead behind =
    let checkpoint : add64 r.reassembler.output.bytes_written 1
        ≡ r.reassembler.output.bytes_written + 1 =
      add64_small r.reassembler.output.bytes_written 1 (omega arith) in
    let found : unwrap (wrap (absolute index seg) r.isn) r.isn
          (r.reassembler.output.bytes_written + 1)
        ≡ absolute index seg =
      unwrap-wrap (absolute index seg) (r.reassembler.output.bytes_written + 1) r.isn small
        (ground arith) (ground arith) in
    rw (e, checkpoint, found) (placed index seg.header.syn (omega arith))

-- A receiver that has its peer's initial sequence number keeps the invariant of a reassembler that delivers
-- the peer's stream, when a segment comes whose payload is the stream's at an index and whose sequence
-- number is that of the index. The index is less than 2^31 ahead of the number of bytes written and at
-- most 2^31 - 1 behind it, that number is below 2^63 - 1, and the payload ends below 2^64.
pub segment_received-Inv :
    (source : ℕ → ℕ) (index : ℕ) (seg : TcpSegment) (r : TcpReceiver)
    → r.syn ≡ true
    → Inv source r.reassembler
    → Agrees source index seg.payload
    → index + length seg.payload < 2 ^ 64
    → seg.header.seqno ≡ wrap (absolute index seg) r.isn
    → r.reassembler.output.bytes_written + 1 < 2 ^ 63
    → index < r.reassembler.output.bytes_written + 2 ^ 31
    → r.reassembler.output.bytes_written + 1 ≤ index + 2 ^ 31
    → Inv source (segment_received seg r).reassembler
unfolding segment_received accept
segment_received-Inv source index seg r syn v a b e small ahead behind =
    rw (syn, stream_index-wrap index seg r e small ahead behind)
      (push_substring-Inv source r.reassembler seg.payload index seg.header.fin v b a)

abbrev raw : ℕ → WrappingInt32
raw n = record { raw_value = n }

-- The acknowledgment is the wrapped number of the first byte that is not written, counted from the SYN, and one more once
-- the stream has ended.
ackno_lem :
    (r : TcpReceiver)
    → r.syn ≡ true
    → r.isn.raw_value < 2 ^ 32
    → r.reassembler.output.bytes_written + 1 < 2 ^ 64
    → ackno r
      ≡ some (
          wrap
            (r.reassembler.output.bytes_written
              + 1
              + (if r.reassembler.output.input_ended then 1 else 0))
            r.isn)
unfolding ackno wrap plus add32 add64
ackno_lem r syn h k = rw syn (ap (λ n. some (raw n)) (ground arith))
