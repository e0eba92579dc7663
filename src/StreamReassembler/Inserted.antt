-- ===== src/StreamReassembler/Inserted.antt =====
-- What `insert_pair` does to the positions that a reassembler has.
use computer_network.Base.{
  ℕ, ◌+◌, ◌-◌, ◌≤◌, ◌<◌, ◌≡◌, ◌^◌, refl, ap, ◌∙◌, inl, inr, ◌&&◌, ◌||◌, List, ◌∷◌, ◌++◌, length,
  take, drop, min, ltb, leb, ◌==◌, Bool-cases, length-take, length-drop, arith,
}
use computer_network.Words.{add64_small, sub64_le}
use computer_network.StreamReassembler.{
  StreamReassembler, merge_post, store, place, insert_after, insert_pair,
}
use computer_network.StreamReassembler.OrderedMap.{
  Entries, from_upper_bound, before_upper_bound, emplace, total,
}
use computer_network.StreamReassembler.Invariant.{Agrees, Stored, Inv, total-le}
use computer_network.StreamReassembler.Written.{next_pos_lem, write_count_all}
use computer_network.StreamReassembler.Merge.{
  reach, ==_self, split_lem, start_index_lem, first_unacceptable_lem, merge_lem, MergeOk,
  total-split,
}
use computer_network.StreamReassembler.Insert.{emplace_between, trimmed, trimmed-Inv, shorter}
use computer_network.StreamReassembler.Known.{
  between, covers, known, covers-append, covers-split, reach-covers, covers-below, merge-covers,
}
use computer_network.StreamReassembler.Complete.{wrote-known}

module _ (source : ℕ → ℕ) (p : ℕ) where
  store-known :
      (r : StreamReassembler) (start : ℕ) (s : List ℕ) (size : ℕ) (front rest : Entries)
      → r.unassemble_buffer ≡ front ++ rest
      → emplace start s r.unassemble_buffer ≡ front ++ (start, s) ∷ rest
      → known (store start s size r) p ≡ (known r p || between start (start + length s) p)
  unfolding store known covers
  store-known r start s size front rest e placed =
      let more = covers-append front ((start, s) ∷ rest) p in
      let before = ap (λ m. covers m p) e ∙ covers-append front rest p in
      rw placed (ground (arith, more, before))

  -- A string for the front or for later, between the entries before it and those behind it.
  place-known :
      (r : StreamReassembler) (start : ℕ) (s : List ℕ) (size : ℕ) (front rest : Entries)
      → Inv source r
      → r.unassemble_buffer ≡ front ++ rest
      → 0 < length s
      → start + length s ≤ r.output.bytes_read + r.capacity
      → Stored source r.next_pos start front
      → Stored source (start + length s) (r.output.bytes_read + r.capacity) rest
      → known (place start s size r) p ≡ (known r p || between start (start + length s) p)
  unfolding place
  place-known r start s size front rest v e some_bytes high st st' =
      elim (Bool-cases (start == r.next_pos)) [
        | inl e1 ↦
            let here : start ≡ r.next_pos = ground arith in
            let all = write_count_all source r s v (omega arith) in
            rw (e1, ==_self all)
              (wrote-known source p r s r.unassemble_buffer r.unassembled_bytes v (omega arith)
                ∙ (unfold known in ground (arith, here)))
        | inr e1 ↦
            let placed : emplace start s r.unassemble_buffer ≡ front ++ (start, s) ∷ rest = rw e (
              emplace_between source r.next_pos start (r.output.bytes_read + r.capacity) s front
                rest st st' some_bytes) in
            rw e1 (store-known r start s size front rest e placed)
      ]

  -- The cut at the end of the window takes off only what no entry may hold either.
  cut-covers :
      (start new_length hi : ℕ) (rest : Entries)
      → Stored source (start + new_length) hi rest
      → start ≤ hi
      → (covers rest p || between start (start + min (hi - start) new_length) p)
        ≡ ((covers rest p || between start (start + new_length) p) && ltb p hi)
  cut-covers start new_length hi rest st k = elim (Bool-cases (covers rest p)) [
    | inl e ↦ rw e (ground (arith, covers-below source (start + new_length) hi rest p st e))
    | inr e ↦ rw e (ground arith)
  ]

  -- The entries before the new string, the new string, and what is left of the entries behind it.
  trimmed-known :
      (r : StreamReassembler) (index start len u : ℕ)
      → Inv source r
      → start ≤ r.output.bytes_read + r.capacity
      → start + len < 2 ^ 64
      → Stored source start
          (r.output.bytes_read + r.capacity)
          (from_upper_bound index r.unassemble_buffer)
      → (let hi = r.output.bytes_read + r.capacity in
          let g = merge_post start len u (from_upper_bound index r.unassemble_buffer) in
          Stored source (start + g.new_length) hi g.rest
          → (known (trimmed source index g r) p
              || between start (start + min (hi - start) g.new_length) p)
            ≡ (known r p || (between start (start + len) p && ltb p hi)))
  unfolding known
  trimmed-known r index start len u v high word st' st'' =
      let front = before_upper_bound index r.unassemble_buffer in
      let post = from_upper_bound index r.unassemble_buffer in
      let hi = r.output.bytes_read + r.capacity in
      let g = merge_post start len u post in
      let parts = covers-split index r.unassemble_buffer p in
      let joined = covers-append front g.rest p in
      let merged = merge-covers source start len u hi post p st' word v.limit in
      let cut = cut-covers start g.new_length hi g.rest st'' high in
      ground (
        arith,
        parts,
        joined,
        merged,
        cut,
        next_pos_lem source r v,
        covers-below source start hi post p st',
      )

  insert_after-known :
      (r : StreamReassembler) (bytes : List ℕ) (index start : ℕ)
      → Inv source r
      → r.next_pos ≤ start
      → index ≤ start
      → start < r.output.bytes_read + r.capacity
      → start < index + length bytes
      → index + length bytes < 2 ^ 64
      → Agrees source index bytes
      → Stored source r.next_pos start (before_upper_bound index r.unassemble_buffer)
      → Stored source start
          (r.output.bytes_read + r.capacity)
          (from_upper_bound index r.unassemble_buffer)
      → known (insert_after bytes index start (r.output.bytes_read + r.capacity) r) p ≡ (
          known r p
          || (between start (index + length bytes) p && ltb p (r.output.bytes_read + r.capacity)))
  unfolding insert_after
  insert_after-known r bytes index start v low ge room more word a st st' =
      let front = before_upper_bound index r.unassemble_buffer in
      let post = from_upper_bound index r.unassemble_buffer in
      let hi = r.output.bytes_read + r.capacity in
      let skip : ℕ = start - index in
      let len : ℕ = length bytes - skip in
      let u = r.unassembled_bytes in
      let g = merge_post start len u post in
      let all = total-le source r.next_pos hi r.unassemble_buffer (omega arith) v.stored in
      let ok : MergeOk source start len (total front) hi g =
        merge_lem source start len u (total front) hi post st' (omega arith) v.limit
          (omega (arith, total-split index r.unassemble_buffer, v.counted))
          (omega (arith, v.counted, v.limit)) in
      let kept = trimmed-Inv source r index start len g v low (omega arith) st ok in
      let count : ℕ = min (hi - start) g.new_length in
      let s = take count (drop skip bytes) in
      let size : length s ≡ count =
        omega (arith, length-take count (drop skip bytes), length-drop skip bytes, ok.0) in
      let end : start + len ≡ index + length bytes = omega arith in
      let parts : (known (trimmed source index g r) p || between start (start + count) p)
          ≡ (known r p || (between start (index + length bytes) p && ltb p hi)) =
        rw (← end)
          (trimmed-known r index start len u v (omega arith) (omega (arith, end, word)) st' ok.1) in
      rw
        (
          sub64_le start index ge (omega arith),
          sub64_le (length bytes) skip (omega arith) (omega arith),
          sub64_le hi start (omega arith) v.limit,
        )
        (elim (Bool-cases (g.new_length == 0)) [
          | inl e ↦ rw e (ground (arith, parts))
          | inr e ↦ rw e (
              place-known (trimmed source index g r) start s count front g.rest kept refl
                (ground (arith, size)) (omega (arith, size)) st
                (shorter source start count hi g s size (omega arith) ok.1)
              ∙ (rw size parts))
        ])

  -- What lies before the start of a new string is known already.
  start-known :
      (r : StreamReassembler) (index end hi : ℕ)
      → index ≤ reach r.next_pos index (before_upper_bound index r.unassemble_buffer)
      → (let start = reach r.next_pos index (before_upper_bound index r.unassemble_buffer) in
          (known r p || (between start end p && ltb p hi))
          ≡ (known r p || (between index end p && ltb p hi)))
  unfolding known
  start-known r index end hi h = ground (
    arith,
    reach-covers r.next_pos index r.unassemble_buffer p,
    covers-split index r.unassemble_buffer p,
  )

  pub insert_pair-known :
      (r : StreamReassembler) (bytes : List ℕ) (index : ℕ)
      → Inv source r
      → index + length bytes < 2 ^ 64
      → Agrees source index bytes
      → known (insert_pair bytes index r) p ≡ (
          known r p
          || (between index (index + length bytes) p && ltb p (r.output.bytes_read + r.capacity)))
  unfolding insert_pair
  insert_pair-known r bytes index v word a =
      let (low, ge, st, st') =
        split_lem source r.next_pos (r.output.bytes_read + r.capacity) index r.unassemble_buffer
          v.stored in
      let start = reach r.next_pos index (before_upper_bound index r.unassemble_buffer) in
      let hi = r.output.bytes_read + r.capacity in
      let same = start-known r index (index + length bytes) hi ge in
      rw
        (
          start_index_lem source r index v,
          (first_unacceptable_lem source r v).0,
          add64_small index (length bytes) word,
        )
        (elim (Bool-cases (leb (index + length bytes) start || leb hi start)) [
          | inl e ↦ rw e (ground (arith, same))
          | inr e ↦ rw e (
              insert_after-known r bytes index start v low ge (ground arith) (ground arith) word a
                st st'
              ∙ same)
        ])
