-- ===== src/BufferViewList.antt =====
-- libsponge/util/buffer.hh and buffer.cc, class BufferViewList: views of strings, shortened from the
-- front. A view is its characters; `as_iovecs` gives the same views to the system.
pub mod Contents
use computer_network.Base.{
  ℕ, ◌+◌, ◌-◌, List, [], ◌∷◌, ◌++◌, map, length, drop, ltb, ◌==◌, if◌then◌else◌, Outcome, returned,
  threw,
}
use computer_network.Buffer
use computer_network.BufferList.{BufferList}

pub record BufferViewList : Type 0 where
  pub views : List (List ℕ)

-- The constructors from one string, and from a list of buffers.
unfoldable pub of_view : List ℕ → BufferViewList
of_view str = record { views = str ∷ [] }

unfoldable pub of_buffers : BufferList → BufferViewList
of_buffers l = record { views = map Buffer.str l.buffers }

size_loop : ℕ → List (List ℕ) → ℕ
size_loop ret [] = ret
size_loop ret (v ∷ rest) = size_loop (ret + length v) rest

unfoldable pub size : BufferViewList → ℕ
unfolding size_loop
size l = size_loop 0 l.views

-- The front view is shortened in place, and the loop ends with `n = 0`.
prefix_loop : ℕ → List (List ℕ) → Outcome (List (List ℕ))
prefix_loop n [] = if n == 0 then returned [] else threw []
prefix_loop n (v ∷ rest) =
    let popped = prefix_loop (n - length v) rest in
    if n == 0
    then returned (v ∷ rest)
    else if ltb n (length v)
    then returned (drop n v ∷ rest)
    else popped

as_list : Outcome (List (List ℕ)) → Outcome BufferViewList
as_list (returned views) = returned (record { views = views })
as_list (threw views) = threw (record { views = views })

unfoldable pub remove_prefix : ℕ → BufferViewList → Outcome BufferViewList
unfolding prefix_loop as_list
remove_prefix n l = as_list (prefix_loop n l.views)
