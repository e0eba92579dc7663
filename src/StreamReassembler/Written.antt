-- ===== src/StreamReassembler/Written.antt =====
-- What becomes of the invariant when the string at `next_pos` goes to the output.
use computer_network.Base.{ℕ, ◌+◌, ◌%◌, ◌≤◌, ◌≡◌, ◌^◌, ap, List, length, take_all, arith}
use computer_network.Words.{add64}
use computer_network.ByteStream.{ByteStream}
use computer_network.ByteStream
use computer_network.ByteStream.Validity.{held, held-write, write-IsValid, write_count_lem}
use computer_network.StreamReassembler.{StreamReassembler}
use computer_network.StreamReassembler.OrderedMap.{Entries, total}
use computer_network.StreamReassembler.Invariant.{Agrees, Stored, Inv, Agrees-append}

-- The state after the write, with the entries and their count as the caller leaves them.
abbrev pub wrote : List ℕ → Entries → ℕ → StreamReassembler → StreamReassembler
wrote s m u r = record r {
  output = ByteStream.write s r.output;
  next_pos = add64 r.next_pos (ByteStream.write_count s r.output);
  unassemble_buffer = m;
  unassembled_bytes = u;
}

module _ (source : ℕ → ℕ) where
  -- `next_pos` is `bytes_read` plus what the output holds.
  pub next_pos_lem :
      (r : StreamReassembler)
      → Inv source r
      → r.next_pos ≡ r.output.bytes_read + r.output.buffer_size
  unfolding add64
  next_pos_lem r v = omega arith

  -- The output takes the whole string, if it ends inside the window.
  pub write_count_all :
      (r : StreamReassembler) (s : List ℕ)
      → Inv source r
      → r.next_pos + length s ≤ r.output.bytes_read + r.capacity
      → ByteStream.write_count s r.output ≡ length s
  write_count_all r s v h = omega (arith, write_count_lem s r.output v.out_valid, next_pos_lem r v)

  held_after :
      (r : StreamReassembler) (s : List ℕ)
      → Inv source r
      → r.next_pos + length s ≤ r.output.bytes_read + r.capacity
      → Agrees source r.next_pos s
      → Agrees source r.output.bytes_read (held (ByteStream.write s r.output))
  held_after r s v h a =
      let here : r.next_pos ≡ r.output.bytes_read + length (held r.output) =
        omega (arith, next_pos_lem r v) in
      rw (held-write s r.output, write_count_all r s v h, take_all (length s) s (omega arith))
        (Agrees-append source r.output.bytes_read (held r.output) s v.in_order (rw here at a))

  pub wrote-Inv :
      (r : StreamReassembler) (s : List ℕ) (m : Entries) (u : ℕ)
      → Inv source r
      → r.next_pos + length s ≤ r.output.bytes_read + r.capacity
      → Agrees source r.next_pos s
      → Stored source (r.next_pos + length s) (r.output.bytes_read + r.capacity) m
      → u ≡ total m
      → Inv source (wrote s m u r)
  unfolding ByteStream.write add64
  wrote-Inv r s m u v h a st e =
      let all = write_count_all r s v h in
      let next : (r.next_pos + length s)
          ≡ (r.next_pos + ByteStream.write_count s r.output) % 2 ^ 64 =
        omega (arith, all, v.limit) in
      record {
        out_valid = write-IsValid s r.output v.out_valid;
        in_order = held_after r s v h a;
        same_capacity = v.same_capacity;
        limit = v.limit;
        next_written = ap (λ k. (k + ByteStream.write_count s r.output) % 2 ^ 64) v.next_written;
        stored = rw (← next) st;
        counted = e;
      }
