-- ===== src/FileDescriptor/Writing.antt =====
-- A write of everything.
use computer_network.Base.{
  ℕ, zero, suc, ◌+◌, ◌-◌, ◌^◌, ◌<◌, ◌≡◌, ◌⊎◌, inl, inr, refl, sym, ap, ◌∙◌, true, not, ◌&&◌, Option,
  none, some, List, [], ◌++◌, append-nil, append_assoc, length, take, take-append-drop, length-drop,
  ◌==◌, if_holds, eq_nil, arith,
}
use computer_network.Words.{add64, add64_small}
use computer_network.BufferViewList.{BufferViewList}
use computer_network.BufferViewList
use computer_network.BufferViewList.Contents.{joined, size_lem, remove_prefix_lem}
use computer_network.FileDescriptor.{FdWrapper, Writev, Written, register_write, write_loop, write}
use computer_network.FileDescriptor.Partial.{IsPipe, within}

module _ {System : Type 0} (output : System → List ℕ) (writev : Writev System) where
  -- What a call of `writev` does that ends the loop: it fails, or takes none of some bytes.
  abbrev pub Stuck : List (List ℕ) → System → Type 0
  Stuck views t =
      ((writev views t).0 ≡ none) ⊎ (((writev views t).0 ≡ some 0) × (0 < length (joined views)))

  -- What a write of everything gives: all of it is taken and counted, or some call is stuck on what is
  -- left, and the write throws.
  pub data WroteAll (bytes : List ℕ) (total : ℕ) (s : System) (w : Written System) : Type 0 where
    whole :
        w.total ≡ some (total + length bytes)
        → output w.system ≡ output s ++ bytes
        → WroteAll bytes total s w
    stopped :
        (taken : List ℕ) (views : List (List ℕ)) (t : System)
        → bytes ≡ taken ++ joined views
        → output t ≡ output s ++ taken
        → Stuck views t
        → w.total ≡ none
        → w.system ≡ (writev views t).1
        → WroteAll bytes total s w

  -- A first call took `first`, and the rest was written from there.
  after_first :
      (first rest bytes : List ℕ) (total total' : ℕ) (s s' : System) (w : Written System)
      → bytes ≡ first ++ rest
      → output s' ≡ output s ++ first
      → total' + length rest ≡ total + length bytes
      → WroteAll rest total' s' w
      → WroteAll bytes total s w
  after_first first rest bytes total total' s s' w e o sum (whole counted written) =
      whole (counted ∙ ap some sum) (
        written
        ∙ ap (λ l. l ++ rest) o
        ∙ append_assoc (output s) first rest
        ∙ ap (◌++◌ (output s)) (sym e))
  after_first first rest bytes total total' s s' w e o sum
        (stopped taken views t split there stuck failed same) =
      stopped (first ++ taken) views t
        (e ∙ ap (◌++◌ first) split ∙ sym (append_assoc first taken (joined views)))
        (there ∙ ap (λ l. l ++ taken) o ∙ append_assoc (output s) first taken) stuck failed same

module _ {System : Type 0} (output : System → List ℕ) (writev : Writev System)
    (pipe : IsPipe output writev) where
  abbrev LoopFrom : ℕ → Type 0
  LoopFrom fuel =
      (buffer : BufferViewList) (total : ℕ) (f : FdWrapper) (s : System)
      → length (joined buffer.views) < fuel
      → length (joined buffer.views) < 2 ^ 63
      → total + length (joined buffer.views) < 2 ^ 64
      → WroteAll output writev (joined buffer.views) total s
          (write_loop writev fuel buffer true total f s)

  -- A round, by what its call gives.
  round_lem :
      (fuel : ℕ) (result : Option ℕ)
      → LoopFrom fuel
      → (buffer : BufferViewList) (total : ℕ) (f : FdWrapper) (s : System)
      → (writev buffer.views s).0 ≡ result
      → length (joined buffer.views) < suc fuel
      → length (joined buffer.views) < 2 ^ 63
      → total + length (joined buffer.views) < 2 ^ 64
      → WroteAll output writev
          (joined buffer.views)
          total
          s
          (write_loop writev (suc fuel) buffer true total f s)
  unfolding write_loop
  round_lem fuel none again buffer total f s e h small k =
      rw (write_loop, e)
        (stopped [] buffer.views s refl (sym (append-nil (output s))) (inl e) refl refl)
  round_lem fuel (some n) again buffer total f s e h small k =
      let len = size_lem buffer in
      let (less, taken) = pipe.takes buffer.views s n e in
      let (buffer', e', rest) = remove_prefix_lem n buffer less in
      let all = joined buffer.views in
      let P = WroteAll output writev all total s in
      let left : length (joined buffer'.views) ≡ length all - n =
        ap length rest ∙ length-drop n all in
      let len' = size_lem buffer' in
      let sum = add64_small total n (omega (arith, less, k)) in
      let no_excess =
        within (BufferViewList.size buffer) n (omega (arith, len, less))
          (omega (arith, len, small)) in
      let s' = (writev buffer.views s).1 in
      let f' = register_write f in
      let split : all ≡ take n all ++ joined buffer'.views =
        sym (take-append-drop n all) ∙ ap (◌++◌ (take n all)) (sym rest) in
      let counted : add64 total n + length (joined buffer'.views) ≡ total + length all =
        omega (arith, sum, left, less) in
      rw (write_loop, e, no_excess, e')
        (if_holds P (n == 0 && not (BufferViewList.size buffer == 0))
          (λ nothing.
            let zero_n : n ≡ 0 = ground (arith, nothing) in
            stopped [] buffer.views s refl (sym (append-nil (output s)))
              (inr (e ∙ ap some zero_n, ground (arith, nothing, len))) refl refl)
          (λ something.
            if_holds P (not (BufferViewList.size buffer' == 0))
              (λ more.
                let shorter : length (joined buffer'.views) < fuel =
                  ground (arith, something, more, left, len, len', h, less) in
                after_first output writev (take n all) (joined buffer'.views) all total
                  (add64 total n) s s' _ split taken counted
                  (again buffer' (add64 total n) f' s' shorter (omega (arith, left, small))
                    (omega (arith, counted, k))))
              (λ last.
                let nothing : joined buffer'.views ≡ [] =
                  eq_nil (joined buffer'.views) (ground (arith, last, len')) in
                whole (ap some (omega (arith, counted, ap length nothing))) (
                  taken
                  ∙ ap (◌++◌ (output s)) (
                      sym (append-nil (take n all))
                      ∙ ap (◌++◌ (take n all)) (sym nothing)
                      ∙ sym split)))))

  loop_lem : (fuel : ℕ) → LoopFrom fuel
  loop_lem zero buffer total f s h small k = absurd (omega arith)
  loop_lem (suc fuel) buffer total f s h small k =
      round_lem fuel (writev buffer.views s).0 (loop_lem fuel) buffer total f s refl h small k

  -- A write of everything, for a string shorter than 2^63, where a call of `writev` fails and takes nothing,
  -- or takes some of the bytes in order: it returns the length of the string, with all of it taken by
  -- the system, in order; or it throws, after the system has taken a first part of the string, in order,
  -- at a call for the rest that fails, or that takes no byte where some are left.
  pub write-all :
      (buffer : BufferViewList) (f : FdWrapper) (s : System)
      → length (joined buffer.views) < 2 ^ 63
      → WroteAll output writev (joined buffer.views) 0 s (write writev buffer true f s)
  unfolding write
  write-all buffer f s h =
      loop_lem (suc (BufferViewList.size buffer)) buffer 0 f s (omega (arith, size_lem buffer)) h
        (omega (arith, h))
