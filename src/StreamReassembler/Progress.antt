-- ===== src/StreamReassembler/Progress.antt =====
-- A reassembler keeps every byte for which it has room, and writes all that it can.
use computer_network.Base.{
  ℕ, ◌+◌, ◌<◌, ◌≡◌, subst, sym, ◌≢◌, ◌^◌, refl, ◌∙◌, Bool, false, ◌&&◌, ◌||◌, List, [], ◌∷◌, length,
  ltb, arith,
}
use computer_network.Words.{add64}
use computer_network.ByteStream.Validity.{remaining_capacity_lem}
use computer_network.StreamReassembler.{
  StreamReassembler, front_ready, write_output, note_eof, finish, insert_pair, push_substring,
}
use computer_network.StreamReassembler.OrderedMap.{Entries}
use computer_network.StreamReassembler.Invariant.{Agrees, Stored, Inv}
use computer_network.StreamReassembler.Written.{next_pos_lem}
use computer_network.StreamReassembler.Insert.{insert_pair-Inv}
use computer_network.StreamReassembler.Output.{write_output-Inv}
use computer_network.StreamReassembler.Known.{between, covers, known, covers-below}
use computer_network.StreamReassembler.Complete.{write_output-known}
use computer_network.StreamReassembler.Inserted.{insert_pair-known}

module _ (source : ℕ → ℕ) (p : ℕ) where
  finish-known : (r : StreamReassembler) → known (finish r) p ≡ known r p
  unfolding finish known
  finish-known r = ground arith

  note_eof-known :
      (end : ℕ) (eof : Bool) (r : StreamReassembler) → known (note_eof end eof r) p ≡ known r p
  unfolding note_eof known
  note_eof-known end eof r = ground arith

  push-known :
      (r : StreamReassembler) (bytes : List ℕ) (index : ℕ) (eof : Bool)
      → Inv source r
      → index + length bytes < 2 ^ 64
      → Agrees source index bytes
      → known (push_substring bytes index eof r) p ≡ (
          known r p
          || (between index (index + length bytes) p && ltb p (r.output.bytes_read + r.capacity)))
  unfolding push_substring
  push-known r bytes index eof v word a =
      let r1 = insert_pair bytes index r in
      let r2 = write_output r1 in
      finish-known (note_eof (add64 index (length bytes)) eof r2)
      ∙ note_eof-known (add64 index (length bytes)) eof r2
      ∙ write_output-known source p r1 (insert_pair-Inv source r bytes index v word a)
      ∙ insert_pair-known source p r bytes index v word a

module _ (source : ℕ → ℕ) where
  -- Where the loop has ended, the next position is in no entry.
  next-unknown :
      (r : StreamReassembler) (m : Entries)
      → Inv source r
      → r.unassemble_buffer ≡ m
      → front_ready r m ≡ false
      → known r r.next_pos ≡ false
  unfolding known front_ready covers
  next-unknown r [] v e ready = rw e (ground arith)
  next-unknown r ((k, s) ∷ m) v e ready =
      let hi = r.output.bytes_read + r.capacity in
      let st : Stored source r.next_pos hi ((k, s) ∷ m) = rw e at v.stored in
      let behind : k ≢ r.next_pos = λ here. absurd (
        ground (
          arith,
          here,
          remaining_capacity_lem r.output v.out_valid,
          next_pos_lem source r v,
          v.same_capacity,
        )) in
      rw e (ground (arith, behind, covers-below source (k + length s) hi m r.next_pos st.4))
      -- The end of the stream is noted, and the output is ended: nothing is written.

  next_pos-finish :
      (end : ℕ) (eof : Bool) (r : StreamReassembler)
      → (finish (note_eof end eof r)).next_pos ≡ r.next_pos
  unfolding finish note_eof
  next_pos-finish end eof r = ground arith

  finish-unknown :
      (end : ℕ) (eof : Bool) (r : StreamReassembler)
      → known r r.next_pos ≡ false
      → known (finish (note_eof end eof r)) (finish (note_eof end eof r)).next_pos ≡ false
  finish-unknown end eof r h =
      let r' = note_eof end eof r in
      subst (λ n. known (finish r') n ≡ false) (sym (next_pos-finish end eof r))
        (finish-known source r.next_pos r' ∙ note_eof-known source r.next_pos end eof r ∙ h)

  -- What a reassembler has after a push is what it had before and all of the string that lies before the
  -- end of its window, wherever the string lies and whatever it overlaps; and it has written all up to
  -- the first position that it does not have. The string is an excerpt of the stream whose end is below
  -- 2^64, and the reassembler satisfies the invariant of that stream.
  pub push_substring-known :
      (r : StreamReassembler) (bytes : List ℕ) (index : ℕ) (eof : Bool)
      → Inv source r
      → index + length bytes < 2 ^ 64
      → Agrees source index bytes
      → ((p : ℕ)
          → known (push_substring bytes index eof r) p ≡ (
              known r p
              || (between index (index + length bytes) p
                  && ltb p (r.output.bytes_read + r.capacity))))
        × (known (push_substring bytes index eof r) (push_substring bytes index eof r).next_pos
            ≡ false)
  push_substring-known r bytes index eof v word a = (
    λ p. push-known source p r bytes index eof v word a,
    unfold push_substring in
        let r1 = insert_pair bytes index r in
        let (v2, ended) =
          write_output-Inv source r1 (insert_pair-Inv source r bytes index v word a) in
        finish-unknown (add64 index (length bytes)) eof (write_output r1)
          (next-unknown (write_output r1) (write_output r1).unassemble_buffer v2 refl ended),
  )
