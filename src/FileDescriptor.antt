-- ===== src/FileDescriptor.antt =====
-- libsponge/util/file_descriptor.hh and file_descriptor.cc: a handle on a kernel's descriptor. The
-- handles of one descriptor share one `FDWrapper`, and the model is that wrapper. What the system calls
-- do is a parameter: `none` is a negative result, on which `SystemCall` throws.
pub mod Writing
pub mod Partial
mod Runs
use computer_network.Base.{
  ℕ, zero, suc, ◌+◌, ◌*◌, ◌^◌, Bool, true, false, not, ◌&&◌, ◌||◌, Option, none, some, List, [],
  length, min, leb, ltb, ◌==◌, if◌then◌else◌, Outcome, returned, threw,
}
use computer_network.Words.{add32, add64}
use computer_network.BufferViewList.{BufferViewList}
use computer_network.BufferViewList

-- `FDWrapper`; its counts are `unsigned`.
pub record FdWrapper : Type 0 where
  pub fd : ℕ
  pub eof : Bool
  pub closed : Bool
  pub read_count : ℕ
  pub write_count : ℕ

unfoldable pub init : ℕ → FdWrapper
init fd = record { fd = fd; eof = false; closed = false; read_count = 0; write_count = 0 }

unfoldable pub register_read : FdWrapper → FdWrapper
register_read f = record f { read_count = add32 f.read_count 1 }

unfoldable pub register_write : FdWrapper → FdWrapper
register_write f = record f { write_count = add32 f.write_count 1 }

-- Whether `::close` succeeded.
unfoldable pub close : Bool → FdWrapper → Outcome FdWrapper
close ok f = if ok then returned (record f { eof = true; closed = true }) else threw f

-- `1024 * 1024`.
abbrev pub buffer_size : ℕ
buffer_size = 1024 * 1024

-- The string, and the descriptor after the call; `result` is what `::read` gave for at most the least
-- of the buffer's size and the limit.
unfoldable pub read : ℕ → Option (List ℕ) → FdWrapper → List ℕ × Outcome FdWrapper
unfolding register_read
read limit none f = ([], threw f)
read limit (some bytes) f =
    let f' = if ltb 0 limit && length bytes == 0 then record f { eof = true } else f in
    if ltb (min buffer_size limit) (length bytes)
    then ([], threw f')
    else (bytes, returned (register_read f'))

-- `::writev`: the count, or an error, and the system afterwards.
abbrev pub Writev : Type 0 → Type 0
Writev System = List (List ℕ) → System → Option ℕ × System

-- The total, or an exception, the descriptor and the system after a write.
pub record Written (System : Type 0) : Type 0 where
  pub total : Option ℕ
  pub file : FdWrapper
  pub system : System

-- `bytes_written > ssize_t(size)`: a size from 2^63 on becomes a negative number.
unfoldable pub exceeds : ℕ → ℕ → Bool
exceeds size n = leb (2 ^ 63) size || ltb size n

module _ {System : Type 0} (writev : Writev System) where
  -- The do-while loop, on fuel.
  unfoldable pub write_loop : ℕ → BufferViewList → Bool → ℕ → FdWrapper → System → Written System
  unfolding register_write exceeds
  write_loop zero buffer write_all total f s = record { total = some total; file = f; system = s }
  write_loop (suc fuel) buffer write_all total f s =
      let (result, s') = writev buffer.views s in
      let fail : FdWrapper → Written System =
        λ f'. record { total = none; file = f'; system = s' } in
      elim result [
        | none ↦ fail f
        | some n ↦
            let f' = register_write f in
            if n == 0 && not (BufferViewList.size buffer == 0)
            then fail f
            else if exceeds (BufferViewList.size buffer) n
            then fail f
            else elim (BufferViewList.remove_prefix n buffer) [
              | threw _ ↦ fail f'
              | returned buffer' ↦
                  let more = write_loop fuel buffer' write_all (add64 total n) f' s' in
                  if write_all && not (BufferViewList.size buffer' == 0)
                  then more
                  else record { total = some (add64 total n); file = f'; system = s' }
            ]
      ]

  -- Each round but the last writes a byte, so that this fuel is not used up.
  unfoldable pub write : BufferViewList → Bool → FdWrapper → System → Written System
  unfolding write_loop
  write buffer write_all f s = write_loop (suc (BufferViewList.size buffer)) buffer write_all 0 f s
