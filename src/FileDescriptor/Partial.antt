-- ===== src/FileDescriptor/Partial.antt =====
-- A read, and a write of as much as the system takes.
use computer_network.Base.{
  ℕ, zero, suc, ◌^◌, ◌≤◌, ◌<◌, ◌≡◌, refl, ap, ◌∙◌, true, false, not, ◌&&◌, Option, none, some, List,
  [], ◌∷◌, ◌++◌, append-nil, length, take, min, ltb, ◌==◌, if◌then◌else◌, if_holds, returned, arith,
}
use computer_network.FileDescriptor.{
  FdWrapper, Writev, Written, buffer_size, register_read, write, write_loop, exceeds,
}
use computer_network.BufferViewList.{BufferViewList, of_view}
use computer_network.BufferViewList
use computer_network.Words.{add64_small}
use computer_network.BufferViewList.Contents.{joined, size_lem, remove_prefix_lem}
use computer_network.FileDescriptor

-- A read that gives no more than was asked for does not throw.
pub read_within :
    (limit : ℕ) (bytes : List ℕ) (file : FdWrapper)
    → length bytes ≤ min buffer_size limit
    → (f : FdWrapper) × (FileDescriptor.read limit (some bytes) file ≡ (bytes, returned f))
unfolding FileDescriptor.read
read_within limit bytes file h =
    let f =
      register_read
        (if ltb 0 limit && length bytes == 0 then record file { eof = true } else file) in
    (
      f,
      if_holds (λ r. r ≡ (bytes, returned f)) (ltb (min buffer_size limit) (length bytes))
          (λ excess. absurd (ground (arith, excess, h))) (λ _. refl),
    )

pub take-take : (n k : ℕ) (xs : List ℕ) → n ≤ k → take n (take k xs) ≡ take n xs
take-take zero k xs h = refl
take-take (suc n) zero xs h = absurd (omega (arith, h))
take-take (suc n) (suc k) [] h = refl
take-take (suc n) (suc k) (x ∷ xs) h = ap (◌∷◌ x) (take-take n k xs (omega (arith, h)))

-- A pipe that does not block, as `writev(2)` has it: a call fails, or takes some of the bytes in order.
-- `output` is what the system has taken so far.
pub record IsPipe {System : Type 0} (output : System → List ℕ) (writev : Writev System)
    : Type 0 where
  pub fails :
      (views : List (List ℕ)) (s : System)
      → (writev views s).0 ≡ none
      → output (writev views s).1 ≡ output s
  pub takes :
      (views : List (List ℕ)) (s : System) (n : ℕ)
      → (writev views s).0 ≡ some n
      → (n ≤ length (joined views))
        × (output (writev views s).1 ≡ output s ++ take n (joined views))

-- A count within the size, and a size below 2^63, pass the test.
pub within : (size n : ℕ) → n ≤ size → size < 2 ^ 63 → exceeds size n ≡ false
unfolding exceeds
within size n h k = ground arith

-- What a write of as much as the system takes does.
pub data Once {System : Type 0} (output : System → List ℕ) (bytes : List ℕ) (s : System)
    (w : Written System) : Type 0 where
  failed : w.total ≡ none → output w.system ≡ output s → Once output bytes s w
  took :
      (n : ℕ)
      → w.total ≡ some n
      → n ≤ length bytes
      → output w.system ≡ output s ++ take n bytes
      → Once output bytes s w

module _ {System : Type 0} (output : System → List ℕ) (writev : Writev System)
    (pipe : IsPipe output writev) where
  write_loop-Once :
      (bytes : List ℕ) (f : FdWrapper) (s : System) (fuel : ℕ) (result : Option ℕ)
      → (writev (bytes ∷ []) s).0 ≡ result
      → length bytes < 2 ^ 63
      → Once output bytes s (write_loop writev (suc fuel) (of_view bytes) false 0 f s)
  unfolding write_loop of_view joined
  write_loop-Once bytes f s fuel none e h =
      failed (rw (write_loop, e) refl) (rw (write_loop, e) (pipe.fails (bytes ∷ []) s e))
  write_loop-Once bytes f s fuel (some n) e h =
      let buffer = of_view bytes in
      let whole : joined buffer.views ≡ bytes = append-nil bytes in
      let (less', written') = pipe.takes (bytes ∷ []) s n e in
      let less : n ≤ length bytes = omega (arith, less', ap length whole) in
      let s' = (writev (bytes ∷ []) s).1 in
      let written : output s' ≡ output s ++ take n bytes =
        written' ∙ ap (λ l. output s ++ take n l) whole in
      let len = size_lem buffer in
      let (buffer', e', rest) = remove_prefix_lem n buffer less' in
      let no_excess : exceeds (BufferViewList.size buffer) n ≡ false =
        within (BufferViewList.size buffer) n (omega (arith, len, less'))
          (omega (arith, len, h, ap length whole)) in
      let sum = add64_small 0 n (omega (arith, less, h)) in
      rw (write_loop, e, no_excess, e')
        (if_holds (Once output bytes s) (n == 0 && not (BufferViewList.size buffer == 0))
          (λ nothing.
            let zero_n : n ≡ 0 = ground (arith, nothing) in
            failed refl
              (written ∙ ap (λ k. output s ++ take k bytes) zero_n ∙ append-nil (output s)))
          (λ _. took n (ap some (omega (arith, sum))) less written))

  pub write-Once :
      (bytes : List ℕ) (f : FdWrapper) (s : System)
      → length bytes < 2 ^ 63
      → Once output bytes s (write writev (of_view bytes) false f s)
  unfolding write
  write-Once bytes f s h = write_loop-Once bytes f s (BufferViewList.size (of_view bytes)) _ refl h

-- A write of as much as the system takes is one call.
pub system-write :
    {System : Type 0} (writev : Writev System) (bytes : List ℕ) (f : FdWrapper) (s : System)
    → (write writev (of_view bytes) false f s).system ≡ (writev (bytes ∷ []) s).1
unfolding write write_loop of_view
system-write writev bytes f s = ground arith
