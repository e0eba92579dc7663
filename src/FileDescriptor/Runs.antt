-- ===== src/FileDescriptor/Runs.antt =====
-- A system that takes two bytes at a time.
use computer_network.Base.{ℕ, ap, true, some, List, [], ◌∷◌, ◌++◌, length, take, min, arith}
use computer_network.BufferViewList.{BufferViewList}
use computer_network.BufferViewList.Contents.{joined}
use computer_network.FileDescriptor.{init, Writev, write}
use computer_network.FileDescriptor.Writing.{WroteAll, write-all}
use computer_network.FileDescriptor.Partial.{IsPipe}
use mathlib.Core.Option.{some-injective, some-ne-none}

abbrev two_at_a_time : Writev (List ℕ)
two_at_a_time views taken = (
  some (min 2 (length (joined views))),
  taken ++ take (min 2 (length (joined views))) (joined views),
)

two_at_a_time-IsPipe : IsPipe (λ taken. taken) two_at_a_time
two_at_a_time-IsPipe = record {
  fails = λ views taken e. absurd (some-ne-none _ e);
  takes = λ views taken n e.
      let q = some-injective (min 2 (length (joined views))) n e in
      (omega (arith, q), ap (λ k. taken ++ take k (joined views)) q);
}

abbrev letters : BufferViewList
letters = record { views = (104 ∷ 101 ∷ 108 ∷ []) ∷ [] ∷ (108 ∷ 111 ∷ []) ∷ [] }

write-all_example :
    WroteAll
      (λ taken. taken)
      two_at_a_time
      (joined letters.views)
      0
      []
      (write two_at_a_time letters true (init 3) [])
write-all_example =
    write-all (λ taken. taken) two_at_a_time two_at_a_time-IsPipe letters (init 3) []
      (unfold joined in omega arith)
