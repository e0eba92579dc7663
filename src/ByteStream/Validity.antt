-- ===== src/ByteStream/Validity.antt =====
-- The accounting of a stream agrees with the bytes it holds, in every reachable state.
use computer_network.Base.{
  ℕ, ◌-◌, ◌≤◌, ◌<◌, ◌≡◌, ◌↔◌, ◌^◌, refl, sym, ap, ◌∙◌, true, some, List, [], ◌++◌, length, take,
  drop, min, returned, length-append, length-take, length-drop, take-min, drop-min, eq_nil, arith,
}
use computer_network.Words.{add64, sub64, sub64_le}
use computer_network.BufferList.{BufferList}
use computer_network.BufferList.Contents.{
  contents, contents-append, contents-of_string, contents-empty, concatenate_first-contents,
  remove_prefix_le,
}
use computer_network.ByteStream.{
  ByteStream, init, remaining_capacity, write_count, write, peek_output, popped, pop_output, read,
  eof,
}

-- The bytes that wait for the reader.
abbrev pub held : ByteStream → List ℕ
held s = contents s.buffer

pub record IsValid (s : ByteStream) : Type 0 where
  pub word : s.capacity < 2 ^ 64
  pub counted : s.buffer_size ≡ length (held s)
  pub fits : s.buffer_size ≤ s.capacity
  pub written_word : s.bytes_written < 2 ^ 64
  pub balance : s.bytes_written ≡ add64 s.bytes_read s.buffer_size

pub init-IsValid : (capacity : ℕ) → capacity < 2 ^ 64 → IsValid (init capacity)
unfolding init add64
init-IsValid c h = record {
  word = h;
  counted = ap length (sym contents-empty);
  fits = omega arith;
  written_word = omega arith;
  balance = refl;
}

pub write_count_lem :
    (bytes : List ℕ) (s : ByteStream)
    → IsValid s
    → write_count bytes s ≡ min (s.capacity - s.buffer_size) (length bytes)
unfolding write_count
write_count_lem bytes s v = rw (sub64_le s.capacity s.buffer_size v.fits v.word)

-- `write` appends the bytes for which there is room, and no others.
pub held-write :
    (bytes : List ℕ) (s : ByteStream)
    → held (write bytes s) ≡ held s ++ take (write_count bytes s) bytes
unfolding write
held-write bytes s =
    rw (contents-append s.buffer _, contents-of_string (take (write_count bytes s) bytes))

pub write-IsValid : (bytes : List ℕ) (s : ByteStream) → IsValid s → IsValid (write bytes s)
unfolding write add64
write-IsValid bytes s v =
    let k = write_count_lem bytes s v in
    record {
      word = v.word;
      counted = omega (
        arith,
        k,
        v.fits,
        v.word,
        v.counted,
        ap length (held-write bytes s),
        length-append (held s) (take (write_count bytes s) bytes),
        length-take (write_count bytes s) bytes,
      );
      fits = omega (arith, k, v.fits, v.word);
      written_word = omega arith;
      balance = omega (arith, k, v.fits, v.word, v.balance);
    }

-- The effect of `pop_output` on a valid stream.
pub record Popped (len : ℕ) (s s' : ByteStream) : Type 0 where
  pub dropped : held s' ≡ drop len (held s)
  pub valid : IsValid s'
  pub same_capacity : s'.capacity ≡ s.capacity
  pub same_written : s'.bytes_written ≡ s.bytes_written
  pub same_ended : s'.input_ended ≡ s.input_ended
  pub same_error : s'.error ≡ s.error
  pub read_count : s'.bytes_read ≡ add64 s.bytes_read (min len s.buffer_size)

-- The stream once `b` is what `_buffer.remove_prefix(count)` has left.
abbrev after : ℕ → BufferList → ByteStream → ByteStream
after count b s = record s {
  buffer = b;
  bytes_read = add64 s.bytes_read count;
  buffer_size = sub64 s.buffer_size count;
}

after-IsValid :
    (count : ℕ) (b : BufferList) (s : ByteStream)
    → IsValid s
    → count ≤ s.buffer_size
    → contents b ≡ drop count (held s)
    → IsValid (after count b s)
unfolding add64
after-IsValid count b s v h e =
    let less = sub64_le s.buffer_size count h (omega (arith, v.word, v.fits)) in
    record {
      word = v.word;
      counted = omega (arith, less, v.counted, ap length e, length-drop count (held s));
      fits = omega (arith, less, v.fits);
      written_word = v.written_word;
      balance = omega (arith, less, v.balance);
    }

-- `pop_output` never throws on a valid stream. It drops as many of the bytes as are there.
pub pop_output_lem :
    (len : ℕ) (s : ByteStream)
    → IsValid s
    → (s' : ByteStream) × (pop_output len s ≡ returned s') × Popped len s s'
unfolding pop_output
pop_output_lem len s v =
    let count = min len s.buffer_size in
    let (b, e1, e2) = remove_prefix_le count s.buffer (omega (arith, v.counted)) in
    (
      after count b s,
      rw (e1, popped),
      record {
        dropped = e2 ∙ (rw v.counted (drop-min len (held s)));
        valid = after-IsValid count b s v (omega arith) e2;
        same_capacity = refl;
        same_written = refl;
        same_ended = refl;
        same_error = refl;
        read_count = refl;
      },
    )

-- `peek_output` gives the next bytes, as many as are there.
pub peek_output_lem : (len : ℕ) (s : ByteStream) → IsValid s → peek_output len s ≡ take len (held s)
unfolding peek_output
peek_output_lem len s v =
    concatenate_first-contents (min len s.buffer_size) s.buffer
    ∙ (rw v.counted (take-min len (held s)))

-- `read` never throws on a valid stream: it returns the next bytes and takes them off.
pub read_lem :
    (len : ℕ) (s : ByteStream)
    → IsValid s
    → (s' : ByteStream) × (read len s ≡ (some (take len (held s)), s')) × Popped len s s'
unfolding read
read_lem len s v =
    let (s', e, p) = pop_output_lem len s v in (s', rw (e, read, peek_output_lem len s v) refl, p)

pub remaining_capacity_lem :
    (s : ByteStream) → IsValid s → remaining_capacity s ≡ s.capacity - s.buffer_size
unfolding remaining_capacity
remaining_capacity_lem s v = sub64_le s.capacity s.buffer_size v.fits v.word

-- `eof` holds exactly when the input has ended and nothing waits for the reader.
pub eof_iff :
    (s : ByteStream) → IsValid s → (eof s ≡ true) ↔ ((s.input_ended ≡ true) × (held s ≡ []))
unfolding eof
eof_iff s v = (
  λ h. (ground (arith, v.counted), eq_nil (held s) (ground (arith, v.counted))),
  λ h. ground (arith, v.counted, ap length h.1),
)
