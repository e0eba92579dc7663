-- ===== src/StreamReassembler.antt =====
-- libsponge/stream_reassembler.hh and stream_reassembler.cc: excerpts of a stream, in any order and
-- overlapping, put together into the output stream.
pub mod OrderedMap
pub mod Invariant
pub mod Written
pub mod Merge
pub mod Insert
pub mod Output
pub mod Reach
pub mod Kept
pub mod Known
pub mod Complete
pub mod Inserted
pub mod Progress
mod Runs
use computer_network.Base.{
  ℕ, zero, suc, ◌+◌, Bool, true, false, ◌&&◌, ◌||◌, Option, none, some, List, [], ◌∷◌, ◌++◌, length,
  take, drop, min, ltb, leb, ◌==◌, if◌then◌else◌,
}
use computer_network.Words.{add64, sub64}
use computer_network.ByteStream.{ByteStream}
use computer_network.ByteStream
use OrderedMap.{Entries, from_upper_bound, before_upper_bound, last_entry, emplace, total}

pub record StreamReassembler : Type 0 where
  pub output : ByteStream
  pub capacity : ℕ
  pub unassemble_buffer : Entries
  pub next_pos : ℕ
  pub unassembled_bytes : ℕ
  pub eof_index : ℕ
  pub eof_appear_sign : Bool

unfoldable pub init : ℕ → StreamReassembler
init capacity = record {
  output = ByteStream.init capacity;
  capacity = capacity;
  unassemble_buffer = [];
  next_pos = 0;
  unassembled_bytes = 0;
  eof_index = 0;
  eof_appear_sign = false;
}

unfoldable pub is_empty : StreamReassembler → Bool
is_empty r = r.unassembled_bytes == 0

-- `new_index`, from the entry before `upper_bound(index)`. Where that iterator is `begin()` it stays,
-- and points to no entry or to one whose key is above `index`.
unfoldable pub start_after : ℕ → ℕ → Option (ℕ × List ℕ) → ℕ
start_after next_pos index (some (pre_idx, s)) =
    if ltb index (add64 pre_idx (length s)) then add64 pre_idx (length s) else index
start_after next_pos index none = if ltb index next_pos then next_pos else index

unfoldable pub start_index : StreamReassembler → ℕ → ℕ
unfolding start_after
start_index r index =
    start_after r.next_pos index (last_entry (before_upper_bound index r.unassemble_buffer))

unfoldable pub first_unacceptable_idx : StreamReassembler → ℕ
first_unacceptable_idx r = sub64 (add64 r.next_pos r.capacity) r.output.buffer_size

-- What the loop over the entries behind the new string leaves: `new_length`, `_unassembled_bytes` and
-- the entries from `post_iter` on.
pub record Merged : Type 0 where
  pub new_length : ℕ
  pub unassembled : ℕ
  pub rest : Entries

unfoldable pub merge_post : ℕ → ℕ → ℕ → Entries → Merged
merge_post new_index new_length unassembled [] = record {
  new_length = new_length;
  unassembled = unassembled;
  rest = [];
}
merge_post new_index new_length unassembled ((k, s) ∷ post) =
    let data_end_pos = add64 new_index new_length in
    let erased = merge_post new_index new_length (sub64 unassembled (length s)) post in
    let kept : Merged = record {
      new_length = new_length;
      unassembled = unassembled;
      rest = (k, s) ∷ post;
    } in
    if ltb k new_index || leb data_end_pos k
    then kept
    else if ltb data_end_pos (add64 k (length s))
    then record kept { new_length = sub64 k new_index }
    else erased

-- `_unassemble_buffer.emplace(new_index, new_data)`, and the count of `new_length` bytes.
unfoldable pub store : ℕ → List ℕ → ℕ → StreamReassembler → StreamReassembler
store new_index new_data new_length r = record r {
  unassemble_buffer = emplace new_index new_data r.unassemble_buffer;
  unassembled_bytes = add64 r.unassembled_bytes new_length;
}

-- The part of `insert_pair` behind the loop: a string for the front goes to the output, and what the
-- output does not take, or a string for later, is stored.
unfoldable pub place : ℕ → List ℕ → ℕ → StreamReassembler → StreamReassembler
unfolding store
place new_index new_data new_length r =
    let write_bytes = ByteStream.write_count new_data r.output in
    let written = record r {
      output = ByteStream.write new_data r.output;
      next_pos = add64 r.next_pos write_bytes;
    } in
    if new_index == r.next_pos
    then (if write_bytes == length new_data
        then written
        else store (add64 new_index write_bytes) (drop write_bytes new_data) new_length written)
    else store new_index new_data new_length r

-- The loop is entered with the entries behind `index`; then empty strings are dropped and long ones
-- cut to the capacity.
unfoldable pub insert_after : List ℕ → ℕ → ℕ → ℕ → StreamReassembler → StreamReassembler
unfolding place merge_post
insert_after bytes index new_index limit r =
    let front = before_upper_bound index r.unassemble_buffer in
    let merged =
      merge_post new_index (sub64 (length bytes) (sub64 new_index index)) r.unassembled_bytes
        (from_upper_bound index r.unassemble_buffer) in
    let r' = record r {
      unassemble_buffer = front ++ merged.rest;
      unassembled_bytes = merged.unassembled;
    } in
    let new_length = min (sub64 limit new_index) merged.new_length in
    let new_data = take new_length (drop (sub64 new_index index) bytes) in
    if merged.new_length == 0 then r' else place new_index new_data new_length r'

unfoldable pub insert_pair : List ℕ → ℕ → StreamReassembler → StreamReassembler
unfolding start_index first_unacceptable_idx insert_after
insert_pair bytes index r =
    let new_index = start_index r index in
    let limit = first_unacceptable_idx r in
    if leb (add64 index (length bytes)) new_index || leb limit new_index
    then r
    else insert_after bytes index new_index limit r

-- One round of the loop of `write_output` on the first entry; what the output does not take stays as
-- an entry. The flag is the `return` on a write of no bytes.
unfoldable pub write_front : ℕ → List ℕ → Entries → StreamReassembler → StreamReassembler
write_front k s m r =
    let write_bytes = ByteStream.write_count s r.output in
    let next = add64 r.next_pos write_bytes in
    record r {
      output = ByteStream.write s r.output;
      unassembled_bytes = sub64 r.unassembled_bytes write_bytes;
      next_pos = next;
      unassemble_buffer =
          if write_bytes == length s
          then m
          else if write_bytes == 0
          then (k, s) ∷ m
          else emplace next (drop write_bytes s) m;
    }

-- Whether the loop goes on: an entry stands first at `_next_pos`, and the output has room.
unfoldable pub front_ready : StreamReassembler → Entries → Bool
front_ready r [] = false
front_ready r ((k, s) ∷ m) = k == r.next_pos && ltb 0 (ByteStream.remaining_capacity r.output)

-- The `return` in the loop: the output took nothing of a string that is not empty.
unfoldable pub stuck : List ℕ → StreamReassembler → Bool
stuck s r = ByteStream.write_count s r.output == 0 && ltb 0 (length s)

pub round : Entries → StreamReassembler → StreamReassembler
unfolding write_front
round [] r = r
round ((k, s) ∷ m) r = write_front k s m r

pub returns : Entries → StreamReassembler → Bool
unfolding stuck
returns [] r = false
returns ((k, s) ∷ m) r = stuck s r

-- The loop of `write_output`, on fuel.
write_loop : ℕ → StreamReassembler → StreamReassembler
unfolding round returns front_ready
write_loop zero r = r
write_loop (suc fuel) r =
    let r' = round r.unassemble_buffer r in
    let more = write_loop fuel r' in
    if front_ready r r.unassemble_buffer
    then (if returns r.unassemble_buffer r then r' else more)
    else r

-- Each round erases an entry or shortens one, so that this fuel is not used up.
unfoldable pub write_output : StreamReassembler → StreamReassembler
unfolding write_loop total
write_output r = write_loop (suc (length r.unassemble_buffer + total r.unassemble_buffer)) r

unfoldable pub note_eof : ℕ → Bool → StreamReassembler → StreamReassembler
note_eof end eof r = if eof then record r { eof_index = end; eof_appear_sign = true } else r

unfoldable pub finish : StreamReassembler → StreamReassembler
finish r =
    if r.eof_appear_sign && leb r.eof_index r.next_pos
    then record r { output = ByteStream.end_input r.output }
    else r

unfoldable pub push_substring : List ℕ → ℕ → Bool → StreamReassembler → StreamReassembler
unfolding insert_pair write_output note_eof finish
push_substring bytes index eof r =
    finish (note_eof (add64 index (length bytes)) eof (write_output (insert_pair bytes index r)))
