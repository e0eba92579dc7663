-- ===== src/ByteStream.antt =====
-- libsponge/byte_stream.hh and byte_stream.cc: a flow-controlled queue of bytes with a writer's and
-- a reader's side. A method is a function that returns the object after the call, and its result.
-- The accessors that read a field (`bytes_written`, `bytes_read`, `error`, `input_ended`,
-- `buffer_size`) are the fields of the record.
pub mod Appends
pub mod Validity
pub mod Order
mod Runs
use computer_network.Base.{
  ℕ, ◌+◌, Bool, true, false, ◌&&◌, Option, none, some, List, [], length, take, min, ◌==◌, Outcome,
  returned, threw,
}
use computer_network.Words.{add64, sub64}
use computer_network.BufferList.{BufferList}
use computer_network.BufferList

pub record ByteStream : Type 0 where
  pub capacity : ℕ
  pub bytes_written : ℕ
  pub bytes_read : ℕ
  pub buffer : BufferList
  pub buffer_size : ℕ
  pub input_ended : Bool
  pub error : Bool

unfoldable pub init : ℕ → ByteStream
init capacity = record {
  capacity = capacity;
  bytes_written = 0;
  bytes_read = 0;
  buffer = BufferList.empty;
  buffer_size = 0;
  input_ended = false;
  error = false;
}

unfoldable pub remaining_capacity : ByteStream → ℕ
remaining_capacity s = sub64 s.capacity s.buffer_size

-- What `write` accepts.
unfoldable pub write_count : List ℕ → ByteStream → ℕ
write_count bytes s = min (sub64 s.capacity s.buffer_size) (length bytes)

-- The result of the call is `write_count`.
unfoldable pub write : List ℕ → ByteStream → ByteStream
unfolding write_count
write bytes s =
    let count = write_count bytes s in
    record s {
      buffer = BufferList.append s.buffer (BufferList.of_string (take count bytes));
      buffer_size = add64 s.buffer_size count;
      bytes_written = add64 s.bytes_written count;
    }

unfoldable pub end_input : ByteStream → ByteStream
end_input s = record s { input_ended = true }

unfoldable pub set_error : ByteStream → ByteStream
set_error s = record s { error = true }

unfoldable pub peek_output : ℕ → ByteStream → List ℕ
peek_output len s = BufferList.concatenate_first (min len s.buffer_size) s.buffer

-- After `_buffer.remove_prefix(count)`, which may throw.
popped : ℕ → ByteStream → Outcome BufferList → Outcome ByteStream
popped count s (returned b) = returned (record s {
  buffer = b;
  bytes_read = add64 s.bytes_read count;
  buffer_size = sub64 s.buffer_size count;
})
popped count s (threw b) = threw (record s { buffer = b })

unfoldable pub pop_output : ℕ → ByteStream → Outcome ByteStream
unfolding popped
pop_output len s =
    let count = min len s.buffer_size in popped count s (BufferList.remove_prefix count s.buffer)

-- The bytes that `read` returns, and the object after it; no bytes where `pop_output` throws.
unfoldable pub read : ℕ → ByteStream → Option (List ℕ) × ByteStream
read len s = elim (pop_output len s) [
  | returned s' ↦ (some (peek_output len s), s')
  | threw s' ↦ (none, s')
]

unfoldable pub buffer_empty : ByteStream → Bool
buffer_empty s = s.buffer_size == 0

unfoldable pub eof : ByteStream → Bool
eof s = s.input_ended && s.buffer_size == 0
