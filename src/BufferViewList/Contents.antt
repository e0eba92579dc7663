-- ===== src/BufferViewList/Contents.antt =====
-- The string that the views make up.
use computer_network.Base.{
  ℕ, ◌+◌, ◌-◌, ◌≤◌, ◌≡◌, refl, sym, ◌∙◌, List, [], ◌∷◌, ◌++◌, length, drop, length-append,
  drop-append_le, drop-append_ge, ltb, ◌==◌, if_holds, returned, arith,
}
use computer_network.BufferViewList.{
  BufferViewList, size, size_loop, remove_prefix, prefix_loop, as_list,
}

unfoldable pub joined : List (List ℕ) → List ℕ
joined [] = []
joined (v ∷ rest) = v ++ joined rest

size_loop_lem :
    (ret : ℕ) (views : List (List ℕ)) → size_loop ret views ≡ ret + length (joined views)
unfolding size_loop joined
size_loop_lem ret [] = omega arith
size_loop_lem ret (v ∷ rest) =
    omega (arith, size_loop_lem (ret + length v) rest, length-append v (joined rest))

pub size_lem : (l : BufferViewList) → size l ≡ length (joined l.views)
unfolding size
size_lem l = omega (arith, size_loop_lem 0 l.views)

-- Where the loop returns, and with what.
prefix_loop_lem :
    (n : ℕ) (views : List (List ℕ))
    → n ≤ length (joined views)
    → (views' : List (List ℕ)) × (prefix_loop n views ≡ returned views')
      × (joined views' ≡ drop n (joined views))
unfolding prefix_loop joined
prefix_loop_lem n [] h = let z : n ≡ 0 = omega arith in rw z ([], refl, refl)
prefix_loop_lem n (v ∷ rest) h =
    let len = length-append v (joined rest) in
    if_holds
      (λ o.
        (views' : List (List ℕ)) × (o ≡ returned views')
        × (joined views' ≡ drop n (v ++ joined rest)))
      (n == 0) (λ z. let zeroth : n ≡ 0 = ground (arith, z) in (v ∷ rest, refl, rw zeroth refl))
      (λ _.
        if_holds
          (λ o.
            (views' : List (List ℕ)) × (o ≡ returned views')
            × (joined views' ≡ drop n (v ++ joined rest)))
          (ltb n (length v))
          (λ less.
            (drop n v ∷ rest, refl, sym (drop-append_le n v (joined rest) (ground (arith, less)))))
          (λ more.
            let (views', e, same) = prefix_loop_lem (n - length v) rest (omega (arith, len)) in
            (views', e, same ∙ sym (drop-append_ge n v (joined rest) (ground (arith, more))))))

-- Removing no more than there is returns normally, and drops that much from the front.
pub remove_prefix_lem :
    (n : ℕ) (l : BufferViewList)
    → n ≤ length (joined l.views)
    → (l' : BufferViewList) × (remove_prefix n l ≡ returned l')
      × (joined l'.views ≡ drop n (joined l.views))
unfolding remove_prefix as_list
remove_prefix_lem n l h =
    let (views, e, same) = prefix_loop_lem n l.views h in
    (record { views = views }, rw e refl, same)
