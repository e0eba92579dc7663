-- ===== src/StreamReassembler/Known.antt =====
-- The positions of the stream that a reassembler has: those that were written and those of the entries.
use computer_network.Base.{
  ℕ, ◌+◌, ◌<◌, ◌≡◌, ◌^◌, refl, Bool, true, false, ◌&&◌, ◌||◌, [], ◌∷◌, ◌++◌, length, ltb, leb,
  Bool-cases, inl, inr, arith,
}
use computer_network.Words.{sub64, add64_small, sub64_le}
use computer_network.StreamReassembler.{StreamReassembler, merge_post}
use computer_network.StreamReassembler.OrderedMap.{Entries, from_upper_bound, before_upper_bound}
use computer_network.StreamReassembler.Invariant.{Stored, Stored-lower}
use computer_network.StreamReassembler.Merge.{reach}

abbrev pub between : ℕ → ℕ → ℕ → Bool
between lo hi p = leb lo p && ltb p hi

unfoldable pub covers : Entries → ℕ → Bool
covers [] p = false
covers ((k, s) ∷ m) p = between k (k + length s) p || covers m p

unfoldable pub known : StreamReassembler → ℕ → Bool
unfolding covers
known r p = ltb p r.next_pos || covers r.unassemble_buffer p

pub covers-append : (m m' : Entries) (p : ℕ) → covers (m ++ m') p ≡ (covers m p || covers m' p)
unfolding covers
covers-append [] m' p = refl
covers-append ((k, s) ∷ m) m' p = ground (arith, covers-append m m' p)

pub covers-split :
    (index : ℕ) (m : Entries) (p : ℕ)
    → covers m p ≡ (covers (before_upper_bound index m) p || covers (from_upper_bound index m) p)
unfolding covers before_upper_bound from_upper_bound
covers-split index [] p = refl
covers-split index ((k, s) ∷ m) p = ground (arith, covers-split index m p)

-- From `index` to where a new string starts, all is written or stored.
pub reach-covers :
    (lo index : ℕ) (m : Entries) (p : ℕ)
    → between index (reach lo index (before_upper_bound index m)) p ≡ true
    → (ltb p lo || covers (before_upper_bound index m) p) ≡ true
unfolding covers before_upper_bound reach
reach-covers lo index [] p h = ground arith
reach-covers lo index ((k, s) ∷ m) p h = ground (arith, reach-covers (k + length s) index m p)

module _ (source : ℕ → ℕ) where
  pub covers-below :
      (lo hi : ℕ) (m : Entries) (p : ℕ)
      → Stored source lo hi m
      → covers m p ≡ true
      → between lo hi p ≡ true
  unfolding covers
  covers-below lo hi [] p st e = cc
  covers-below lo hi ((k, s) ∷ m) p st e = ground (arith, covers-below (k + length s) hi m p st.4)

  -- What the loop over the later entries erases lies in the new string.
  pub merge-covers :
      (start len u hi : ℕ) (m : Entries) (p : ℕ)
      → Stored source start hi m
      → start + len < 2 ^ 64
      → hi < 2 ^ 64
      → let g = merge_post start len u m in
        (covers g.rest p || between start (start + g.new_length) p)
        ≡ (covers m p || between start (start + len) p)
  unfolding merge_post covers
  merge-covers start len u hi [] p st h h' = refl
  merge-covers start len u hi ((k, s) ∷ m) p st h h' =
      let rest =
        merge-covers start len (sub64 u (length s)) hi m p
          (Stored-lower source (k + length s) start hi m (omega arith) st.4) h h' in
      rw
        (
          add64_small start len h,
          add64_small k (length s) (omega arith),
          sub64_le k start st.0 (omega arith),
        )
        (elim (Bool-cases (ltb k start || leb (start + len) k)) [
          | inl e1 ↦ rw e1 refl
          | inr e1 ↦ rw e1 (elim (Bool-cases (ltb (start + len) (k + length s))) [
            | inl e2 ↦ rw e2 (ground arith)
            | inr e2 ↦ rw e2 (ground (arith, rest))
          ])
        ])
