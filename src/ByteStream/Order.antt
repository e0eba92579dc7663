-- ===== src/ByteStream/Order.antt =====
-- A byte stream against its specification: a queue. Any sequence of calls delivers the bytes that it
-- accepted, in order, and the counters count them.
use computer_network.Base.{
  ℕ, ◌<◌, ◌≡◌, ◌^◌, ◌%◌, refl, sym, ap, ◌∙◌, true, false, Option, some, none, List, [], ◌∷◌, ◌++◌,
  length, take, append_assoc, take-append-drop, length-append, length-take, arith,
}
use computer_network.Words.{add64}
use computer_network.ByteStream.{
  ByteStream, init, write_count, write, end_input, set_error, read, eof,
}
use computer_network.ByteStream.Validity.{
  IsValid, held, init-IsValid, held-write, write-IsValid, read_lem, write_count_lem,
}
use computer_network.BufferList.Contents.{contents-empty}

pub data Call : Type 0 where
  writes : List ℕ → Call
  reads : ℕ → Call
  ends : Call
  fails : Call

-- What the writer's calls have put in, what the reader's calls have got, and the stream.
pub record History : Type 0 where
  pub accepted : List ℕ
  pub delivered : List ℕ
  pub stream : ByteStream

delivery : Option (List ℕ) → List ℕ
delivery none = []
delivery (some bytes) = bytes

unfoldable pub step : History → Call → History
unfolding delivery
step h (writes bytes) = record h {
  accepted = h.accepted ++ take (write_count bytes h.stream) bytes;
  stream = write bytes h.stream;
}
step h (reads len) =
    let (bytes, s) = read len h.stream in
    record h { delivered = h.delivered ++ delivery bytes; stream = s }
step h ends = record h { stream = end_input h.stream }
step h fails = record h { stream = set_error h.stream }

unfoldable pub run : History → List Call → History
run h [] = h
run h (c ∷ cs) = run (step h c) cs

unfoldable pub start : ℕ → History
start capacity = record { accepted = []; delivered = []; stream = init capacity }

-- The queue: what went in is what came out, then what is held.
pub record IsQueue (h : History) : Type 0 where
  pub valid : IsValid h.stream
  pub order : h.accepted ≡ h.delivered ++ held h.stream
  pub counter : h.stream.bytes_written ≡ length h.accepted % 2 ^ 64

pub end_input-IsValid : (s : ByteStream) → IsValid s → IsValid (end_input s)
unfolding end_input
end_input-IsValid s v = record {
  word = v.word;
  counted = v.counted;
  fits = v.fits;
  written_word = v.written_word;
  balance = v.balance;
}

pub set_error-IsValid : (s : ByteStream) → IsValid s → IsValid (set_error s)
unfolding set_error
set_error-IsValid s v = record {
  word = v.word;
  counted = v.counted;
  fits = v.fits;
  written_word = v.written_word;
  balance = v.balance;
}

read-IsQueue : (h : History) (len : ℕ) → IsQueue h → IsQueue (step h (reads len))
unfolding step
read-IsQueue h len q =
    let (s', e, p) = read_lem len h.stream q.valid in
    rw e (record {
      valid = p.valid;
      order = q.order ∙ (rw (p.dropped, append_assoc, take-append-drop len (held h.stream)));
      counter = p.same_written ∙ q.counter;
    })

written :
    (bytes : List ℕ) (s : ByteStream)
    → (write bytes s).bytes_written ≡ add64 s.bytes_written (write_count bytes s)
unfolding write
written bytes s = refl

write-IsQueue : (h : History) (bytes : List ℕ) → IsQueue h → IsQueue (step h (writes bytes))
unfolding step add64
write-IsQueue h bytes q =
    let k = write_count bytes h.stream in
    record {
      valid = write-IsValid bytes h.stream q.valid;
      order =
          ap (λ l. l ++ take k bytes) q.order
          ∙ append_assoc h.delivered (held h.stream) (take k bytes)
          ∙ ap (◌++◌ h.delivered) (sym (held-write bytes h.stream));
      counter = omega (
        arith,
        written bytes h.stream,
        write_count_lem bytes h.stream q.valid,
        q.counter,
        length-append h.accepted (take k bytes),
        length-take k bytes,
      );
    }

pub step-IsQueue : (h : History) (c : Call) → IsQueue h → IsQueue (step h c)
step-IsQueue h (writes bytes) q = write-IsQueue h bytes q
step-IsQueue h (reads len) q = read-IsQueue h len q
step-IsQueue h ends q =
    unfold step end_input in
    record { valid = end_input-IsValid h.stream q.valid; order = q.order; counter = q.counter }
step-IsQueue h fails q =
    unfold step set_error in
    record { valid = set_error-IsValid h.stream q.valid; order = q.order; counter = q.counter }

run-IsQueue : (h : History) (cs : List Call) → IsQueue h → IsQueue (run h cs)
unfolding run
run-IsQueue h [] q = q
run-IsQueue h (c ∷ cs) q = run-IsQueue (step h c) cs (step-IsQueue h c q)

-- For a capacity below 2^64 and any sequence of calls on a fresh stream: the accounting stays valid,
-- the accepted bytes are the delivered ones followed by those still held, and `bytes_written` is
-- their number modulo 2^64.
pub run-start-IsQueue :
    (capacity : ℕ) (cs : List Call) → capacity < 2 ^ 64 → IsQueue (run (start capacity) cs)
unfolding start init
run-start-IsQueue capacity cs h =
    run-IsQueue (start capacity) cs
      (record { valid = init-IsValid capacity h; order = sym contents-empty; counter = refl })

-- `write` does not look at `input_ended`: a stream at its end that has room takes the bytes of a
-- further `write`, and is then no longer at its end.
pub eof-write :
    (bytes : List ℕ) (s : ByteStream)
    → IsValid s
    → 0 < s.capacity
    → eof s ≡ true
    → 0 < length bytes
    → (eof (write bytes s) ≡ false) × (0 < length (held (write bytes s)))
unfolding eof write add64
eof-write bytes s v room ended more =
    let k = write_count_lem bytes s v in
    (
      ground (arith, k, v.fits, v.word),
      omega (
        arith,
        k,
        none_held,
        ap length (held-write bytes s),
        length-append (held s) (take (write_count bytes s) bytes),
        length-take (write_count bytes s) bytes,
      ),
    )
  where
    none_held : s.buffer_size ≡ 0
    none_held = ground arith
