-- ===== src/Session/Written.antt =====
-- A write to the sender's stream keeps what the sender has put into segments.
use computer_network.Base.{
  ℕ, ◌+◌, ◌^◌, ◌<◌, ◌≡◌, refl, sym, ap, ◌∙◌, false, List, ◌++◌, append_assoc, length, take,
  length-append, length-take, arith,
}
use computer_network.Words.{add64}
use computer_network.ByteStream.{ByteStream}
use computer_network.ByteStream
use computer_network.ByteStream.Validity.{IsValid, held, held-write, write-IsValid, write_count_lem}
use computer_network.WrappingIntegers.{WrappingInt32}
use computer_network.TcpSender.{TcpSender}
use computer_network.Session.Cut.{All-more}
use computer_network.Session.Sending.{Sending, unopened, in_stream, finished}

written_count :
    (bytes : List ℕ) (s : ByteStream) (accepted : List ℕ)
    → IsValid s
    → s.bytes_written ≡ length accepted
    → length (accepted ++ take (ByteStream.write_count bytes s) bytes) < 2 ^ 31
    → (ByteStream.write bytes s).bytes_written
      ≡ length (accepted ++ take (ByteStream.write_count bytes s) bytes)
unfolding ByteStream.write add64
written_count bytes s accepted v e short = omega (
  arith,
  e,
  short,
  length-append accepted (take (ByteStream.write_count bytes s) bytes),
  length-take (ByteStream.write_count bytes s) bytes,
  write_count_lem bytes s v,
)

write-ended :
    (bytes : List ℕ) (s : ByteStream) → (ByteStream.write bytes s).input_ended ≡ s.input_ended
unfolding ByteStream.write
write-ended bytes s = refl

-- A write, before the input has ended.
pub written-Sending :
    (isn : WrappingInt32) (accepted bytes : List ℕ) (s : TcpSender)
    → Sending isn accepted false s
    → length accepted + length bytes < 2 ^ 31
    → Sending isn
        (accepted ++ take (ByteStream.write_count bytes s.stream) bytes)
        false
        (record s { stream = ByteStream.write bytes s.stream })
written-Sending isn accepted bytes s (taken, v, place) room =
    let n = ByteStream.write_count bytes s.stream in
    let more = take n bytes in
    let len = length-append accepted more in
    let part = length-take n bytes in
    let short : length (accepted ++ more) < 2 ^ 31 = omega (arith, len, part, room) in
    (
      taken,
      record {
        valid = write-IsValid bytes s.stream v.valid;
        same_isn = v.same_isn;
        same_ended = write-ended bytes s.stream ∙ v.same_ended;
        short = short;
        count = written_count bytes s.stream accepted v.valid v.count short;
        split =
            ap (λ b. b ++ more) v.split
            ∙ append_assoc taken (held s.stream) more
            ∙ ap (◌++◌ taken) (sym (held-write bytes s.stream));
        out = All-more isn accepted more s.segments_out v.out;
        track = All-more isn accepted more s.segments_track v.track;
      },
      elim place [
        | unopened e n ↦ unopened e n
        | in_stream e ↦ in_stream e
        | finished e n f ↦ absurd (ground (arith, v.same_ended))
      ],
    )
