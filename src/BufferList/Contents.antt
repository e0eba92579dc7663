-- ===== src/BufferList/Contents.antt =====
-- A BufferList as the one string that it stands for.
use computer_network.Base.{
  ℕ, zero, suc, ◌+◌, ◌-◌, ◌≤◌, ◌<◌, ◌≡◌, refl, sym, ◌∙◌, inl, inr, false, List, [], ◌∷◌, ◌++◌,
  length, take, drop, ltb, leb, ◌==◌, returned, threw, Bool-cases, length-append, length-take,
  take-append_le, take-append_ge, drop-append_le, drop-append_ge, append_assoc, take-nil,
  append-nil, leb→le, leb→lt, ltb→lt, ltb→le, arith,
}
use computer_network.Buffer.{Buffer}
use computer_network.Buffer
use computer_network.BufferList.{
  BufferList, empty, append, of_string, concatenate, concatenate_loop, first_loop,
  concatenate_first, size_loop, size, shorten_front, prefix_loop, remove_prefix,
}

pub joined : List Buffer → List ℕ
joined [] = []
joined (b ∷ bs) = Buffer.str b ++ joined bs

-- The string that the list stands for.
unfoldable pub contents : BufferList → List ℕ
unfolding joined
contents l = joined l.buffers

joined-append : (xs ys : List Buffer) → joined (xs ++ ys) ≡ joined xs ++ joined ys
unfolding joined
joined-append [] ys = refl
joined-append (x ∷ xs) ys = rw (joined-append xs ys) (sym (append_assoc (Buffer.str x) _ _))

pub contents-append : (l m : BufferList) → contents (append l m) ≡ contents l ++ contents m
unfolding contents append
contents-append l m = joined-append l.buffers m.buffers

pub contents-empty : contents empty ≡ []
unfolding contents empty
contents-empty = refl

pub contents-of_string : (s : List ℕ) → contents (of_string s) ≡ s
unfolding contents of_string Buffer.of_string Buffer.str
contents-of_string s = append-nil s

concatenate_loop-joined :
    (ret : List ℕ) (bs : List Buffer) → concatenate_loop ret bs ≡ ret ++ joined bs
unfolding concatenate_loop joined
concatenate_loop-joined ret [] = sym (append-nil ret)
concatenate_loop-joined ret (b ∷ bs) =
    concatenate_loop-joined (ret ++ Buffer.str b) bs ∙ append_assoc ret (Buffer.str b) (joined bs)

pub concatenate-contents : (l : BufferList) → concatenate l ≡ contents l
unfolding concatenate contents
concatenate-contents l = concatenate_loop-joined [] l.buffers

size_loop-joined : (k : ℕ) (bs : List Buffer) → size_loop k bs ≡ k + length (joined bs)
unfolding size_loop joined
size_loop-joined k [] = omega arith
size_loop-joined k (b ∷ bs) = omega (
  arith,
  size_loop-joined (k + Buffer.size b) bs,
  Buffer.size-str b,
  length-append (Buffer.str b) (joined bs),
)

pub size-contents : (l : BufferList) → size l ≡ length (contents l)
unfolding size contents
size-contents l = omega (arith, size_loop-joined 0 l.buffers)

-- `m` is the room left in `ret`.
first_loop-joined :
    (n m : ℕ) (ret : List ℕ) (bs : List Buffer)
    → length ret + m ≡ n
    → first_loop n ret bs ≡ ret ++ take m (joined bs)
unfolding first_loop joined
first_loop-joined n m ret [] h = rw (take-nil m) (sym (append-nil ret))
first_loop-joined n m ret (b ∷ bs) h = elim (Bool-cases (leb (length ret + Buffer.size b) n)) [
  | inl e ↦
      let room = leb→le _ _ e in
      let s = Buffer.str b in
      rw (e, take-append_ge m s (joined bs) (omega (arith, Buffer.size-str b)))
        (first_loop-joined n (m - length s) (ret ++ s) bs
            (omega (arith, length-append ret s, Buffer.size-str b))
          ∙ append_assoc ret s _)
  | inr e ↦
      let full = leb→lt _ _ e in
      let s = Buffer.str b in
      let same : n - length ret ≡ m = omega arith in
      rw (e, same, take-append_le m s (joined bs) (omega (arith, Buffer.size-str b)))
        (first_loop-joined n 0 (ret ++ take m s) bs
            (omega (arith, length-append ret (take m s), length-take m s, Buffer.size-str b))
          ∙ append-nil _)
]

pub concatenate_first-contents :
    (n : ℕ) (l : BufferList) → concatenate_first n l ≡ take n (contents l)
unfolding concatenate_first contents
concatenate_first-contents n l = first_loop-joined n n [] l.buffers (omega arith)

suc-== : (n : ℕ) → (suc n == 0) ≡ false
suc-== n = ground arith

prefix_loop_le :
    (n : ℕ) (bs : List Buffer)
    → n ≤ length (joined bs)
    → (bs' : List Buffer) × (prefix_loop n bs ≡ returned bs') × (joined bs' ≡ drop n (joined bs))
unfolding prefix_loop joined
prefix_loop_le zero [] h = ([], refl, refl)
prefix_loop_le (suc n) [] h = absurd (omega arith)
prefix_loop_le zero (b ∷ bs) h = (b ∷ bs, refl, refl)
prefix_loop_le (suc n) (b ∷ bs) h = elim (Bool-cases (ltb (suc n) (Buffer.size b))) [
  | inl e ↦
      let (b', e1, e2) = Buffer.remove_prefix_le (suc n) b (omega (arith, ltb→lt _ _ e)) in
      (
        b' ∷ bs,
        rw (suc-==, e, e1) (unfold shorten_front in refl),
        rw e2 (
            sym (
              drop-append_le (suc n) (Buffer.str b) (joined bs)
                (omega (arith, ltb→lt _ _ e, Buffer.size-str b)))),
      )
  | inr e ↦
      let (bs', e1, e2) =
        prefix_loop_le (suc n - Buffer.size b) bs
          (omega (arith, length-append (Buffer.str b) (joined bs), Buffer.size-str b)) in
      (
        bs',
        rw (suc-==, e) e1,
        e2
            ∙ rw (Buffer.size-str b) (
                sym (
                  drop-append_ge (suc n) (Buffer.str b) (joined bs)
                    (omega (arith, ltb→le _ _ e, Buffer.size-str b)))),
      )
]

prefix_loop_gt : (n : ℕ) (bs : List Buffer) → length (joined bs) < n → prefix_loop n bs ≡ threw []
unfolding prefix_loop joined
prefix_loop_gt zero bs h = absurd (omega arith)
prefix_loop_gt (suc n) [] h = rw suc-== refl
prefix_loop_gt (suc n) (b ∷ bs) h = ground (
  arith,
  prefix_loop_gt (suc n - Buffer.size b) bs,
  length-append (Buffer.str b) (joined bs),
  Buffer.size-str b,
)

-- Removing a prefix that is there returns, and drops it from the string.
pub remove_prefix_le :
    (n : ℕ) (l : BufferList)
    → n ≤ length (contents l)
    → (l' : BufferList) × (remove_prefix n l ≡ returned l') × (contents l' ≡ drop n (contents l))
unfolding contents remove_prefix
remove_prefix_le n l h =
    let (bs, e1, e2) = prefix_loop_le n l.buffers h in (record { buffers = bs }, rw e1 refl, e2)

-- Removing more than there is throws, and leaves the list empty.
pub remove_prefix_gt :
    (n : ℕ) (l : BufferList) → length (contents l) < n → remove_prefix n l ≡ threw empty
unfolding contents remove_prefix empty
remove_prefix_gt n l h = rw (prefix_loop_gt n l.buffers h) refl
