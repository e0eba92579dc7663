-- ===== src/BufferList.antt =====
-- libsponge/util/buffer.hh and buffer.cc, class BufferList: strings in pieces,
-- shortened from the front.
pub mod Contents
use computer_network.Base.{
  ℕ, ◌+◌, ◌-◌, Option, none, some, List, [], ◌∷◌, ◌++◌, map, length, take, drop, ltb, leb, ◌==◌,
  if◌then◌else◌, Outcome, returned, threw,
}
use computer_network.Buffer.{Buffer}
use computer_network.Buffer

pub record BufferList : Type 0 where
  pub buffers : List Buffer

unfoldable pub empty : BufferList
empty = record { buffers = [] }

unfoldable pub of_buffer : Buffer → BufferList
of_buffer b = record { buffers = b ∷ [] }

unfoldable pub append : BufferList → BufferList → BufferList
append l other = record { buffers = l.buffers ++ other.buffers }

-- `BufferList(std::string &&)` appends the one buffer to an empty list.
unfoldable pub of_string : List ℕ → BufferList
unfolding append empty of_buffer
of_string s = append empty (of_buffer (Buffer.of_string s))

-- `operator Buffer`, which throws on more than one piece.
to_buffer_cases : List Buffer → Option Buffer
to_buffer_cases [] = some Buffer.empty
to_buffer_cases (b ∷ []) = some b
to_buffer_cases (b ∷ c ∷ rest) = none

unfoldable pub to_buffer : BufferList → Option Buffer
unfolding to_buffer_cases
to_buffer l = to_buffer_cases l.buffers

concatenate_loop : List ℕ → List Buffer → List ℕ
concatenate_loop ret [] = ret
concatenate_loop ret (b ∷ rest) = concatenate_loop (ret ++ Buffer.str b) rest

unfoldable pub concatenate : BufferList → List ℕ
unfolding concatenate_loop
concatenate l = concatenate_loop [] l.buffers

-- `concatenate(size_t n)`. What is in `ret` never has more than n bytes.
first_loop : ℕ → List ℕ → List Buffer → List ℕ
first_loop n ret [] = ret
first_loop n ret (b ∷ rest) =
    first_loop n
      (if leb (length ret + Buffer.size b) n
        then ret ++ Buffer.str b
        else ret ++ take (n - length ret) (Buffer.str b))
      rest

unfoldable pub concatenate_first : ℕ → BufferList → List ℕ
unfolding first_loop
concatenate_first n l = first_loop n [] l.buffers

size_loop : ℕ → List Buffer → ℕ
size_loop ret [] = ret
size_loop ret (b ∷ rest) = size_loop (ret + Buffer.size b) rest

unfoldable pub size : BufferList → ℕ
unfolding size_loop
size l = size_loop 0 l.buffers

-- The front buffer is shortened in place, and the loop ends with `n = 0`.
shorten_front : List Buffer → Outcome Buffer → Outcome (List Buffer)
shorten_front rest (returned b) = returned (b ∷ rest)
shorten_front rest (threw b) = threw (b ∷ rest)

prefix_loop : ℕ → List Buffer → Outcome (List Buffer)
prefix_loop n [] = if n == 0 then returned [] else threw []
prefix_loop n (b ∷ rest) =
    let popped = prefix_loop (n - Buffer.size b) rest in
    if n == 0
    then returned (b ∷ rest)
    else if ltb n (Buffer.size b)
    then shorten_front rest (Buffer.remove_prefix n b)
    else popped

wrap_buffers : Outcome (List Buffer) → Outcome BufferList
wrap_buffers (returned bs) = returned (record { buffers = bs })
wrap_buffers (threw bs) = threw (record { buffers = bs })

unfoldable pub remove_prefix : ℕ → BufferList → Outcome BufferList
unfolding prefix_loop wrap_buffers shorten_front
remove_prefix n l = wrap_buffers (prefix_loop n l.buffers)
