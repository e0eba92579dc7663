-- ===== src/StreamReassembler/Merge.antt =====
-- Where a new string starts, and what the strings behind it lose to it.
use computer_network.Base.{
  ℕ, ◌+◌, ◌-◌, ◌≤◌, ◌<◌, ◌≡◌, ◌^◌, refl, inl, inr, true, ◌||◌, some, List, [], ◌∷◌, length, ltb,
  leb, ◌==◌, if◌then◌else◌, Bool-cases, arith,
}
use computer_network.Words.{add64, sub64, add64_small, sub64_le}
use computer_network.StreamReassembler.{
  StreamReassembler, start_after, start_index, first_unacceptable_idx, merge_post, Merged,
}
use computer_network.StreamReassembler.OrderedMap.{
  Entries, from_upper_bound, before_upper_bound, last_entry, total,
}
use computer_network.StreamReassembler.Invariant.{Stored, Inv, Stored-lower}

-- The end of the last of the entries, or `lo`; at least `index`.
unfoldable pub reach : ℕ → ℕ → Entries → ℕ
reach lo index [] = if ltb index lo then lo else index
reach lo index ((k, s) ∷ m) = reach (k + length s) index m

pub ==_self : {a b : ℕ} → a ≡ b → (a == b) ≡ true
==_self h = ground arith

pub total-split :
    (index : ℕ) (m : Entries)
    → total (before_upper_bound index m) + total (from_upper_bound index m) ≡ total m
unfolding before_upper_bound from_upper_bound total
total-split index [] = omega arith
total-split index ((k, s) ∷ m) = ground (arith, total-split index m)

last_some : (e : ℕ × List ℕ) (m : Entries) → (x : ℕ × List ℕ) × (last_entry (e ∷ m) ≡ some x)
unfolding last_entry
last_some e [] = (e, refl)
last_some e (e' ∷ m) = last_some e' m

module _ (source : ℕ → ℕ) where
  -- The entries before `upper_bound(index)` end by the start index, and the others begin there.
  pub split_lem :
      (lo hi index : ℕ) (m : Entries)
      → Stored source lo hi m
      → let start = reach lo index (before_upper_bound index m) in
        (lo ≤ start)
        × (index ≤ start)
        × Stored source lo start (before_upper_bound index m)
        × Stored source start hi (from_upper_bound index m)
  unfolding before_upper_bound from_upper_bound reach
  split_lem lo hi index [] st = (ground arith, ground arith, tt, tt)
  split_lem lo hi index ((k, s) ∷ m) st = elim (Bool-cases (ltb index k)) [
    | inl e ↦ rw e (ground arith, ground arith, tt, (ground arith, st.1, st.2, st.3, st.4))
    | inr e ↦
        let (a, b, c, d) = split_lem (k + length s) hi index m st.4 in
        rw e (omega arith, b, (st.0, st.1, a, st.3, c), d)
  ]

  pub Stored-before :
      (lo hi index : ℕ) (m : Entries)
      → Stored source lo hi m
      → Stored source lo hi (before_upper_bound index m)
  unfolding before_upper_bound
  Stored-before lo hi index [] st = tt
  Stored-before lo hi index ((k, s) ∷ m) st =
      ground (arith, Stored-before (k + length s) hi index m st.4)

  -- The start index that the code finds from the last of these entries.
  pub start_reach :
      (lo hi index : ℕ) (m : Entries)
      → hi < 2 ^ 64
      → Stored source lo hi m
      → start_after lo index (last_entry m) ≡ reach lo index m
  unfolding last_entry reach start_after
  start_reach lo hi index [] h st = refl
  start_reach lo hi index ((k, s) ∷ []) h st = rw (add64_small k (length s) (omega arith))
  start_reach lo hi index ((k, s) ∷ e ∷ m) h st =
      let (x, same) = last_some e m in
      rw same (rw same at (start_reach (k + length s) hi index (e ∷ m) h st.4))

  pub start_index_lem :
      (r : StreamReassembler) (index : ℕ)
      → Inv source r
      → start_index r index ≡ reach r.next_pos index (before_upper_bound index r.unassemble_buffer)
  unfolding start_index
  start_index_lem r index v =
      start_reach r.next_pos (r.output.bytes_read + r.capacity) index
        (before_upper_bound index r.unassemble_buffer) v.limit
        (Stored-before r.next_pos _ index r.unassemble_buffer v.stored)

  -- The window: its end is `bytes_read` plus the capacity.
  pub first_unacceptable_lem :
      (r : StreamReassembler)
      → Inv source r
      → (first_unacceptable_idx r ≡ r.output.bytes_read + r.capacity)
        × (r.next_pos ≡ r.output.bytes_read + r.output.buffer_size)
  unfolding first_unacceptable_idx add64 sub64
  first_unacceptable_lem r v = omega arith

  -- What the loop over the later entries leaves: the new string ends where they begin.
  abbrev pub MergeOk : ℕ → ℕ → ℕ → ℕ → Merged → Type 0
  MergeOk start len front hi g =
      (g.new_length ≤ len)
      × Stored source (start + g.new_length) hi g.rest
      × (g.unassembled ≡ front + total g.rest)

  pub merge_lem :
      (start len u front hi : ℕ) (m : Entries)
      → Stored source start hi m
      → start + len < 2 ^ 64
      → hi < 2 ^ 64
      → u ≡ front + total m
      → u < 2 ^ 64
      → MergeOk start len front hi (merge_post start len u m)
  unfolding merge_post total
  merge_lem start len u front hi [] st h h' e eu = (omega arith, tt, e)
  merge_lem start len u front hi ((k, s) ∷ m) st h h' e eu =
      let less = sub64_le u (length s) (omega arith) eu in
      let rest =
        merge_lem start len (u - length s) front hi m
          (Stored-lower source (k + length s) start hi m (omega arith) st.4) h h' (omega arith)
          (omega arith) in
      rw
        (
          add64_small start len h,
          add64_small k (length s) (omega arith),
          sub64_le k start st.0 (omega arith),
          less,
        )
        (elim (Bool-cases (ltb k start || leb (start + len) k)) [
          | inl e1 ↦ rw e1 (omega arith, (ground arith, st.1, st.2, st.3, st.4), e)
          | inr e1 ↦ rw e1 (elim (Bool-cases (ltb (start + len) (k + length s))) [
            | inl e2 ↦ rw e2 (ground arith, (omega arith, st.1, st.2, st.3, st.4), e)
            | inr e2 ↦ rw e2 rest
          ])
        ])
