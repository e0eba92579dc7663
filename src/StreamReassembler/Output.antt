-- ===== src/StreamReassembler/Output.antt =====
-- `write_output` and `push_substring` keep the invariant, and leave no entry at `next_pos`.
use computer_network.Base.{
  ℕ, zero, suc, ◌+◌, ◌<◌, ◌≡◌, ◌^◌, refl, sym, ap, subst, ◌∙◌, inl, inr, Bool, true, false, ◌&&◌,
  List, [], ◌∷◌, length, ltb, leb, ◌==◌, Bool-cases, arith,
}
use computer_network.Words.{sub64, sub64_le}
use computer_network.ByteStream.{ByteStream}
use computer_network.ByteStream
use computer_network.ByteStream.Order.{end_input-IsValid}
use computer_network.StreamReassembler.{
  StreamReassembler, write_front, front_ready, stuck, round, returns, write_loop, write_output,
  note_eof, finish, insert_pair, push_substring,
}
use computer_network.StreamReassembler.OrderedMap.{Entries, total}
use computer_network.StreamReassembler.Invariant.{Agrees, Stored, Inv, total-le}
use computer_network.StreamReassembler.Written.{wrote, wrote-Inv, write_count_all}
use computer_network.StreamReassembler.Insert.{insert_pair-Inv}

same_length : (s : List ℕ) → (length s == length s) ≡ true
same_length s = ground arith

nonempty : (n : ℕ) → 0 < n → ((n == 0) && ltb 0 n) ≡ false
nonempty n h = ground arith

pub write_front_all :
    (k : ℕ) (s : List ℕ) (m : Entries) (r : StreamReassembler)
    → ByteStream.write_count s r.output ≡ length s
    → write_front k s m r ≡ wrote s m (sub64 r.unassembled_bytes (length s)) r
unfolding write_front
write_front_all k s m r all = rw (all, same_length s) refl

stuck_all :
    (s : List ℕ) (r : StreamReassembler)
    → ByteStream.write_count s r.output ≡ length s
    → 0 < length s
    → stuck s r ≡ false
unfolding stuck
stuck_all s r all h = rw all (nonempty (length s) h)

module _ (source : ℕ → ℕ) where
  -- A round on the first entry moves all of it to the output, and does not leave the function.
  pub round_lem :
      (r : StreamReassembler) (m : Entries)
      → Inv source r
      → r.unassemble_buffer ≡ m
      → front_ready r m ≡ true
      → Inv source (round m r)
        × (returns m r ≡ false)
        × (length (round m r).unassemble_buffer < length m)
  unfolding round returns front_ready
  round_lem r [] v e ready = cc
  round_lem r ((k, s) ∷ m) v e ready =
      let st : Stored source r.next_pos (r.output.bytes_read + r.capacity) ((k, s) ∷ m) =
        rw e at v.stored in
      let here : k ≡ r.next_pos = ground arith in
      let all = write_count_all source r s v (omega arith) in
      let count : r.unassembled_bytes ≡ length s + total m =
        v.counted ∙ ap total e ∙ (unfold total in refl) in
      let word = total-le source r.next_pos _ ((k, s) ∷ m) (omega arith) st in
      let less =
        sub64_le r.unassembled_bytes (length s) (omega arith)
          (omega (arith, v.limit, word, v.counted, ap total e)) in
      (
        rw (write_front_all k s m r all) (
            wrote-Inv source r s m _ v (omega arith) (rw here at st.3) (rw here at st.4)
              (omega arith)),
        stuck_all s r all st.1,
        subst (λ (x : StreamReassembler). length x.unassemble_buffer < suc (length m))
            (sym (write_front_all k s m r all)) (omega arith),
      )

  loop_lem :
      (fuel : ℕ) (r : StreamReassembler)
      → Inv source r
      → length r.unassemble_buffer < fuel
      → Inv source (write_loop fuel r)
        × (front_ready (write_loop fuel r) (write_loop fuel r).unassemble_buffer ≡ false)
  unfolding write_loop
  loop_lem zero r v h = absurd (omega arith)
  loop_lem (suc fuel) r v h = elim (Bool-cases (front_ready r r.unassemble_buffer)) [
    | inr e ↦ rw e (v, e)
    | inl e ↦
        let (v', go, less) = round_lem r r.unassemble_buffer v refl e in
        rw (e, go) (loop_lem fuel (round r.unassemble_buffer r) v' (omega arith))
  ]

  -- The loop of `write_output` keeps the invariant, and ends by its own test.
  pub write_output-Inv :
      (r : StreamReassembler)
      → Inv source r
      → Inv source (write_output r)
        × (front_ready (write_output r) (write_output r).unassemble_buffer ≡ false)
  unfolding write_output
  write_output-Inv r v =
      loop_lem (suc (length r.unassemble_buffer + total r.unassemble_buffer)) r v (omega arith)

  finish-Inv : (r : StreamReassembler) → Inv source r → Inv source (finish r)
  unfolding finish ByteStream.end_input
  finish-Inv r v = elim (Bool-cases (r.eof_appear_sign && leb r.eof_index r.next_pos)) [
    | inr e ↦ rw e v
    | inl e ↦ rw e (record {
      out_valid = end_input-IsValid r.output v.out_valid;
      in_order = v.in_order;
      same_capacity = v.same_capacity;
      limit = v.limit;
      next_written = v.next_written;
      stored = v.stored;
      counted = v.counted;
    })
  ]

  note_eof-Inv :
      (end : ℕ) (eof : Bool) (r : StreamReassembler)
      → Inv source r
      → Inv source (note_eof end eof r)
  unfolding note_eof
  note_eof-Inv end true r v = record {
    out_valid = v.out_valid;
    in_order = v.in_order;
    same_capacity = v.same_capacity;
    limit = v.limit;
    next_written = v.next_written;
    stored = v.stored;
    counted = v.counted;
  }
  note_eof-Inv end false r v = v

  -- Pushing any excerpt of the stream, wherever it lies, keeps the invariant.
  pub push_substring-Inv :
      (r : StreamReassembler) (bytes : List ℕ) (index : ℕ) (eof : Bool)
      → Inv source r
      → index + length bytes < 2 ^ 64
      → Agrees source index bytes
      → Inv source (push_substring bytes index eof r)
  unfolding push_substring
  push_substring-Inv r bytes index eof v h a = finish-Inv _ (
      note_eof-Inv _ eof _
        (write_output-Inv (insert_pair bytes index r)
          (insert_pair-Inv source r bytes index v h a)).0)
