-- ===== src/StreamReassembler/Insert.antt =====
-- `insert_pair` keeps the invariant.
use computer_network.Base.{
  ℕ, ◌+◌, ◌-◌, ◌≤◌, ◌<◌, ◌≡◌, ◌^◌, refl, sym, ap, ◌∙◌, inl, inr, ◌||◌, List, [], ◌∷◌, ◌++◌, length,
  take, drop, min, leb, ◌==◌, Bool-cases, length-take, length-drop, arith,
}
use native.Mathlib.Nat.{le_refl}
use computer_network.Words.{add64_small, sub64_le}
use computer_network.StreamReassembler.{
  StreamReassembler, merge_post, Merged, store, place, insert_after, insert_pair,
}
use computer_network.StreamReassembler.Written.{wrote-Inv, write_count_all}
use computer_network.StreamReassembler.OrderedMap.{
  Entries, from_upper_bound, before_upper_bound, emplace, total,
}
use computer_network.StreamReassembler.Invariant.{
  Agrees, Stored, Inv, Agrees-take, Agrees-drop, Stored-lower, Stored-append, Stored-none,
  total-append, total-le,
}
use computer_network.StreamReassembler.Merge.{
  total-split, split_lem, start_index_lem, reach, ==_self, MergeOk, first_unacceptable_lem,
  merge_lem,
}

module _ (source : ℕ → ℕ) where
  -- Where the key lies behind the first entries and before the others, it goes between them.
  pub emplace_between :
      (lo key hi : ℕ) (v : List ℕ) (m m' : Entries)
      → Stored source lo key m
      → Stored source (key + length v) hi m'
      → 0 < length v
      → emplace key v (m ++ m') ≡ m ++ (key, v) ∷ m'
  unfolding emplace
  emplace_between lo key hi v [] [] st st' h = refl
  emplace_between lo key hi v [] ((k, s) ∷ m') st st' h = ground arith
  emplace_between lo key hi v ((k, s) ∷ m) m' st st' h =
      ground (arith, emplace_between (k + length s) key hi v m m' st.4 st' h)

  store_lem :
      (r : StreamReassembler) (start : ℕ) (s : List ℕ) (front rest : Entries)
      → Inv source r
      → r.unassemble_buffer ≡ front ++ rest
      → r.next_pos ≤ start
      → 0 < length s
      → start + length s ≤ r.output.bytes_read + r.capacity
      → Agrees source start s
      → Stored source r.next_pos start front
      → Stored source (start + length s) (r.output.bytes_read + r.capacity) rest
      → Inv source (store start s (length s) r)
  unfolding store total
  store_lem r start s front rest v e low some_bytes high a st st' =
      let hi = r.output.bytes_read + r.capacity in
      let between : emplace start s r.unassemble_buffer ≡ front ++ (start, s) ∷ rest =
        rw e (emplace_between r.next_pos start hi s front rest st st' some_bytes) in
      let room = total-le source r.next_pos start front low st in
      let room' = total-le source (start + length s) hi rest high st' in
      let sum : r.unassembled_bytes ≡ total front + total rest =
        v.counted ∙ ap total e ∙ total-append front rest in
      record {
        out_valid = v.out_valid;
        in_order = v.in_order;
        same_capacity = v.same_capacity;
        limit = v.limit;
        next_written = v.next_written;
        stored = rw between (
            Stored-append source r.next_pos start hi front ((start, s) ∷ rest) low (omega arith) st
              (le_refl start, some_bytes, high, a, st'));
        counted =
            rw (between, add64_small r.unassembled_bytes (length s) (omega (arith, v.limit)))
              (omega (arith, total-append front ((start, s) ∷ rest)));
      }

  -- A string of the window, between the entries before it and the entries behind it.
  place_lem :
      (r : StreamReassembler) (start : ℕ) (s : List ℕ) (size : ℕ) (front rest : Entries)
      → size ≡ length s
      → Inv source r
      → r.unassemble_buffer ≡ front ++ rest
      → r.next_pos ≤ start
      → 0 < length s
      → start + length s ≤ r.output.bytes_read + r.capacity
      → Agrees source start s
      → Stored source r.next_pos start front
      → Stored source (start + length s) (r.output.bytes_read + r.capacity) rest
      → Inv source (place start s size r)
  unfolding place
  place_lem r start s size front rest sized v e low some_bytes high a st st' =
      elim (Bool-cases (start == r.next_pos)) [
        | inl e1 ↦
            let here : start ≡ r.next_pos = ground arith in
            let nothing = Stored-none source r.next_pos start front (omega arith) st in
            rw (e1, ==_self (write_count_all source r s v (omega arith)))
              (wrote-Inv source r s r.unassemble_buffer r.unassembled_bytes v (omega arith)
                (rw here at a) (rw (e, nothing) (rw here at st')) v.counted)
        | inr e1 ↦ rw (e1, sized) (store_lem r start s front rest v e low some_bytes high a st st')
      ]

  -- The state between the loop over the later entries and the new string.
  abbrev pub trimmed : ℕ → Merged → StreamReassembler → StreamReassembler
  trimmed index g r = record r {
    unassemble_buffer = before_upper_bound index r.unassemble_buffer ++ g.rest;
    unassembled_bytes = g.unassembled;
  }

  pub trimmed-Inv :
      (r : StreamReassembler) (index start len : ℕ) (g : Merged)
      → Inv source r
      → r.next_pos ≤ start
      → start ≤ r.output.bytes_read + r.capacity
      → Stored source r.next_pos start (before_upper_bound index r.unassemble_buffer)
      → MergeOk source start len
          (total (before_upper_bound index r.unassemble_buffer))
          (r.output.bytes_read + r.capacity)
          g
      → Inv source (trimmed index g r)
  trimmed-Inv r index start len g v low high st ok = record {
    out_valid = v.out_valid;
    in_order = v.in_order;
    same_capacity = v.same_capacity;
    limit = v.limit;
    next_written = v.next_written;
    stored =
        Stored-append source r.next_pos start _ (before_upper_bound index r.unassemble_buffer)
          g.rest low high st
          (Stored-lower source (start + g.new_length) start _ g.rest (omega arith) ok.1);
    counted = ok.2 ∙ sym (total-append (before_upper_bound index r.unassemble_buffer) g.rest);
  }

  -- A string that is cut at the end of the window: behind the cut nothing is stored.
  pub shorter :
      (start count hi : ℕ) (g : Merged) (s : List ℕ)
      → length s ≡ count
      → count ≤ g.new_length
      → Stored source (start + g.new_length) hi g.rest
      → Stored source (start + length s) hi g.rest
  shorter start count hi g s e h st =
      Stored-lower source (start + g.new_length) (start + length s) hi g.rest (omega arith) st

  insert_after_lem :
      (r : StreamReassembler) (bytes : List ℕ) (index start : ℕ)
      → Inv source r
      → r.next_pos ≤ start
      → index ≤ start
      → start < r.output.bytes_read + r.capacity
      → start < index + length bytes
      → index + length bytes < 2 ^ 64
      → Agrees source index bytes
      → Stored source r.next_pos start (before_upper_bound index r.unassemble_buffer)
      → Stored source start
          (r.output.bytes_read + r.capacity)
          (from_upper_bound index r.unassemble_buffer)
      → Inv source (insert_after bytes index start (r.output.bytes_read + r.capacity) r)
  unfolding insert_after
  insert_after_lem r bytes index start v low ge room more word a st st' =
      let front = before_upper_bound index r.unassemble_buffer in
      let post = from_upper_bound index r.unassemble_buffer in
      let hi = r.output.bytes_read + r.capacity in
      let skip : ℕ = start - index in
      let len : ℕ = length bytes - skip in
      let u = r.unassembled_bytes in
      let g = merge_post start len u post in
      let all = total-le source r.next_pos hi r.unassemble_buffer (omega arith) v.stored in
      let ok : MergeOk source start len (total front) hi g =
        merge_lem source start len u (total front) hi post st' (omega arith) v.limit
          (omega (arith, total-split index r.unassemble_buffer, v.counted))
          (omega (arith, v.counted, v.limit)) in
      let kept = trimmed-Inv r index start len g v low (omega arith) st ok in
      let count : ℕ = min (hi - start) g.new_length in
      let s = take count (drop skip bytes) in
      let size : length s ≡ count =
        omega (arith, length-take count (drop skip bytes), length-drop skip bytes, ok.0) in
      let place_at : index + skip ≡ start = omega arith in
      let agrees = Agrees-drop source skip index bytes a in
      rw
        (
          sub64_le start index ge (omega arith),
          sub64_le (length bytes) skip (omega arith) (omega arith),
          sub64_le hi start (omega arith) v.limit,
        )
        (elim (Bool-cases (g.new_length == 0)) [
          | inl e ↦ rw e kept
          | inr e ↦ rw e (
              place_lem (trimmed index g r) start s count front g.rest (sym size) kept refl low
                (ground (arith, size)) (omega (arith, size))
                (Agrees-take source count start (drop skip bytes) (rw place_at at agrees)) st
                (shorter start count hi g s size (omega arith) ok.1))
        ])

  -- A string of the stream, anywhere, keeps the invariant.
  pub insert_pair-Inv :
      (r : StreamReassembler) (bytes : List ℕ) (index : ℕ)
      → Inv source r
      → index + length bytes < 2 ^ 64
      → Agrees source index bytes
      → Inv source (insert_pair bytes index r)
  unfolding insert_pair
  insert_pair-Inv r bytes index v word a =
      let (low, ge, st, st') =
        split_lem source r.next_pos (r.output.bytes_read + r.capacity) index r.unassemble_buffer
          v.stored in
      let start = reach r.next_pos index (before_upper_bound index r.unassemble_buffer) in
      let hi = r.output.bytes_read + r.capacity in
      rw
        (
          start_index_lem source r index v,
          (first_unacceptable_lem source r v).0,
          add64_small index (length bytes) word,
        )
        (elim (Bool-cases (leb (index + length bytes) start || leb hi start)) [
          | inl e ↦ rw e v
          | inr e ↦ rw e (
              insert_after_lem r bytes index start v low ge (ground arith) (ground arith) word a st
                st')
        ])
