-- ===== src/StreamReassembler/Runs.antt =====
-- A concrete reassembly, and the theorems of this component at concrete inputs.
use computer_network.Base.{
  ℕ, ◌+◌, ◌≤◌, ◌≡◌, refl, ◌||◌, ◌&&◌, ltb, true, false, some, List, [], ◌∷◌, length, min, arith,
}
use computer_network.Words.{add64, sub64}
use computer_network.Buffer
use computer_network.BufferList
use computer_network.ByteStream
use computer_network.StreamReassembler.{StreamReassembler, init, push_substring}
use computer_network.StreamReassembler.OrderedMap.{
  total, from_upper_bound, before_upper_bound, last_entry, emplace,
}
use computer_network.StreamReassembler.Invariant.{Agrees}
use computer_network.StreamReassembler.Known.{between, known}
use computer_network.StreamReassembler.Progress.{push_substring-known}
use computer_network.StreamReassembler.Reach.{
  init-Inv, Reach, here, next, push, read-Reach, bounded-Reach,
}

abbrev letters : ℕ → ℕ
letters i = b'a' + i

-- "cd" arrives before "ab", then "bcde" overlaps both.
abbrev early : StreamReassembler
early = push_substring (b'c' ∷ b'd' ∷ []) 2 false (init 8)

abbrev whole : StreamReassembler
whole =
    push_substring (b'b' ∷ b'c' ∷ b'd' ∷ b'e' ∷ []) 1 true
      (push_substring (b'a' ∷ b'b' ∷ []) 0 false early)

whole_runs : (ByteStream.read 9 whole.output).0 ≡ some (b'a' ∷ b'b' ∷ b'c' ∷ b'd' ∷ b'e' ∷ [])
unfolding init push_substring ByteStream.init ByteStream.write ByteStream.read ByteStream.pop_output
    ByteStream.peek_output ByteStream.remaining_capacity ByteStream.end_input BufferList.empty
    BufferList.append BufferList.of_string BufferList.remove_prefix BufferList.concatenate_first
    Buffer.of_string Buffer.str Buffer.size Buffer.remove_prefix add64 sub64 from_upper_bound
    before_upper_bound last_entry emplace
whole_runs = refl

early-Reach : Reach letters (init 8) early
early-Reach = next here (push (b'c' ∷ b'd' ∷ []) 2 false (omega arith) (omega arith))

whole-Reach : Reach letters (init 8) whole
whole-Reach =
    next (next early-Reach (push (b'a' ∷ b'b' ∷ []) 0 false (omega arith) (omega arith)))
      (push (b'b' ∷ b'c' ∷ b'd' ∷ b'e' ∷ []) 1 true (omega arith) (omega arith))

read-Reach_example :
    (bytes : List ℕ) × ((ByteStream.read 3 whole.output).0 ≡ some bytes)
    × (length bytes ≡ min 3 whole.output.buffer_size)
    × Agrees letters whole.output.bytes_read bytes
read-Reach_example = read-Reach letters 8 3 whole (omega arith) whole-Reach

bounded-Reach_example :
    (early.unassembled_bytes ≡ total early.unassemble_buffer)
    × (early.output.buffer_size + early.unassembled_bytes ≤ early.capacity)
bounded-Reach_example = bounded-Reach letters 8 early (omega arith) early-Reach

-- The window of this reassembler ends in the string.
abbrev small : StreamReassembler
small = push_substring (b'c' ∷ b'd' ∷ b'e' ∷ []) 2 false (init 4)

push_substring-known_example :
    ((p : ℕ)
      → known small p ≡ (
          known (init 4) p
          || (between 2 5 p && ltb p ((init 4).output.bytes_read + (init 4).capacity))))
    × (known small small.next_pos ≡ false)
push_substring-known_example =
    push_substring-known letters (init 4) (b'c' ∷ b'd' ∷ b'e' ∷ []) 2 false
      (init-Inv letters 4 (omega arith)) (omega arith) (omega arith)
