-- ===== src/StreamReassembler/Kept.antt =====
-- What a push leaves alone: the capacity and the reader's side of the output; and what it makes of
-- the end of the stream.
use computer_network.Base.{
  ℕ, zero, suc, ◌+◌, ◌≤◌, ◌≡◌, ◌⊎◌, refl, sym, ap, ◌∙◌, inl, inr, Bool, true, false, leb→le, ◌&&◌,
  ◌||◌, List, [], ◌∷◌, ◌++◌, length, take, drop, min, leb, ◌==◌, if_holds, arith,
}
use computer_network.Words.{add64, sub64}
use computer_network.ByteStream
use computer_network.ByteStream.{ByteStream}
use computer_network.ByteStream.Appends.{
  Appends, Appends-refl, Appends-trans, write-Appends, end_input-Appends,
}
use computer_network.ByteStream.Validity.{IsValid, write-IsValid, write_count_lem}
use computer_network.StreamReassembler.{
  StreamReassembler, start_index, first_unacceptable_idx, store, place, insert_after, insert_pair,
  write_front, round, returns, front_ready, write_loop, write_output, note_eof, finish,
  push_substring, merge_post,
}
use computer_network.StreamReassembler.OrderedMap.{
  Entries, total, before_upper_bound, from_upper_bound,
}

-- What the storing and the writing leave alone, and that the output only grows.
record Kept (r s : StreamReassembler) : Type 0 where
  same_capacity : s.capacity ≡ r.capacity
  same_read : s.output.bytes_read ≡ r.output.bytes_read
  same_index : s.eof_index ≡ r.eof_index
  same_sign : s.eof_appear_sign ≡ r.eof_appear_sign
  same_ended : s.output.input_ended ≡ r.output.input_ended
  grows : IsValid r.output → IsValid s.output × (r.output.buffer_size ≤ s.output.buffer_size)
  appends : Appends r.output s.output

Kept-refl : (r : StreamReassembler) → Kept r r
Kept-refl r = record {
  same_capacity = refl;
  same_read = refl;
  same_index = refl;
  same_sign = refl;
  same_ended = refl;
  grows = λ v. (v, omega arith);
  appends = Appends-refl r.output;
}

Kept-trans : (r s t : StreamReassembler) → Kept r s → Kept s t → Kept r t
Kept-trans r s t h k = record {
  same_capacity = k.same_capacity ∙ h.same_capacity;
  same_read = k.same_read ∙ h.same_read;
  same_index = k.same_index ∙ h.same_index;
  same_sign = k.same_sign ∙ h.same_sign;
  same_ended = k.same_ended ∙ h.same_ended;
  grows = λ v. let (v', more) = h.grows v in let (v'', more') = k.grows v' in (v'', omega arith);
  appends = Appends-trans r.output s.output t.output h.appends k.appends;
}

-- The reassembler around a write to its output.
write-Kept :
    (bytes : List ℕ) (r s : StreamReassembler)
    → s.capacity ≡ r.capacity
    → s.eof_index ≡ r.eof_index
    → s.eof_appear_sign ≡ r.eof_appear_sign
    → s.output ≡ ByteStream.write bytes r.output
    → Kept r s
unfolding ByteStream.write add64
write-Kept bytes r s c i e o = record {
  same_capacity = c;
  same_read = ap (λ w. w.bytes_read) o;
  same_index = i;
  same_sign = e;
  same_ended = ap (λ w. w.input_ended) o;
  grows = λ v. rw o (
      unfold ByteStream.write in
      (
        write-IsValid bytes r.output v,
        omega (arith, write_count_lem bytes r.output v, v.fits, v.word),
      ));
  appends = rw o (unfold ByteStream.write in write-Appends bytes r.output);
}

-- The entries and the counts are others.
entries-Kept :
    (r s : StreamReassembler)
    → s.capacity ≡ r.capacity
    → s.eof_index ≡ r.eof_index
    → s.eof_appear_sign ≡ r.eof_appear_sign
    → s.output ≡ r.output
    → Kept r s
entries-Kept r s c i e o = record {
  same_capacity = c;
  same_read = ap (λ w. w.bytes_read) o;
  same_index = i;
  same_sign = e;
  same_ended = ap (λ w. w.input_ended) o;
  grows = λ v. rw o (v, omega arith);
  appends = rw o (Appends-refl r.output);
}

place-Kept :
    (new_index : ℕ) (new_data : List ℕ) (new_length : ℕ) (r : StreamReassembler)
    → Kept r (place new_index new_data new_length r)
unfolding place store
place-Kept new_index new_data new_length r =
    if_holds (Kept r) (new_index == r.next_pos)
      (λ _.
        if_holds (Kept r) (ByteStream.write_count new_data r.output == length new_data)
          (λ _. write-Kept new_data r _ refl refl refl refl)
          (λ _. write-Kept new_data r _ refl refl refl refl))
      (λ _. entries-Kept r _ refl refl refl refl)

insert_pair-Kept :
    (bytes : List ℕ) (index : ℕ) (r : StreamReassembler) → Kept r (insert_pair bytes index r)
unfolding insert_pair insert_after
insert_pair-Kept bytes index r =
    let new_index = start_index r index in
    let limit = first_unacceptable_idx r in
    let merged =
      merge_post new_index (sub64 (length bytes) (sub64 new_index index)) r.unassembled_bytes
        (from_upper_bound index r.unassemble_buffer) in
    let new_length = min (sub64 limit new_index) merged.new_length in
    let r' = record r {
      unassemble_buffer = before_upper_bound index r.unassemble_buffer ++ merged.rest;
      unassembled_bytes = merged.unassembled;
    } in
    let cut = entries-Kept r r' refl refl refl refl in
    if_holds (Kept r) (leb (add64 index (length bytes)) new_index || leb limit new_index)
      (λ _. Kept-refl r)
      (λ _.
        if_holds (Kept r) (merged.new_length == 0) (λ _. cut)
          (λ _. Kept-trans r r' _ cut (
            place-Kept new_index (take new_length (drop (sub64 new_index index) bytes)) new_length
              r')))

round-Kept : (m : Entries) (r : StreamReassembler) → Kept r (round m r)
unfolding round write_front
round-Kept [] r = Kept-refl r
round-Kept ((k, s) ∷ m) r = write-Kept s r _ refl refl refl refl

write_loop-Kept : (fuel : ℕ) (r : StreamReassembler) → Kept r (write_loop fuel r)
unfolding write_loop
write_loop-Kept zero r = Kept-refl r
write_loop-Kept (suc fuel) r =
    let r' = round r.unassemble_buffer r in
    let once = round-Kept r.unassemble_buffer r in
    if_holds (Kept r) (front_ready r r.unassemble_buffer)
      (λ _.
        if_holds (Kept r) (returns r.unassemble_buffer r) (λ _. once)
          (λ _. Kept-trans r r' (write_loop fuel r') once (write_loop-Kept fuel r')))
      (λ _. Kept-refl r)

write_output-Kept : (r : StreamReassembler) → Kept r (write_output r)
unfolding write_output
write_output-Kept r =
    write_loop-Kept (suc (length r.unassemble_buffer + total r.unassemble_buffer)) r

-- What a push makes of the end of the stream, and what it leaves alone.
pub record Pushed (bytes : List ℕ) (index : ℕ) (eof : Bool) (r s : StreamReassembler) : Type 0 where
  pub same_capacity : s.capacity ≡ r.capacity
  pub same_read : s.output.bytes_read ≡ r.output.bytes_read
  pub grows : IsValid r.output → r.output.buffer_size ≤ s.output.buffer_size
  pub appends : Appends r.output s.output
  pub noted :
      s.eof_appear_sign ≡ true
      → ((eof ≡ true) × (s.eof_index ≡ add64 index (length bytes)))
        ⊎ ((r.eof_appear_sign ≡ true) × (s.eof_index ≡ r.eof_index))
  pub finished :
      s.output.input_ended ≡ true
      → (r.output.input_ended ≡ true) ⊎ ((s.eof_appear_sign ≡ true) × (s.eof_index ≤ s.next_pos))

-- The last two steps of a push.
finish-Pushed :
    (bytes : List ℕ) (index : ℕ) (eof : Bool) (r w : StreamReassembler)
    → Kept r w
    → Pushed bytes index eof r (finish (note_eof (add64 index (length bytes)) eof w))
unfolding finish note_eof ByteStream.end_input
finish-Pushed bytes index true r w k =
    if_holds (Pushed bytes index true r) (leb (add64 index (length bytes)) w.next_pos)
      (λ there. record {
        same_capacity = k.same_capacity;
        same_read = k.same_read;
        grows = λ v. (k.grows v).1;
        appends =
            Appends-trans r.output w.output (ByteStream.end_input w.output) k.appends
              (end_input-Appends w.output);
        noted = λ _. inl (refl, refl);
        finished = λ _. inr (refl, leb→le _ _ there);
      })
      (λ _. record {
        same_capacity = k.same_capacity;
        same_read = k.same_read;
        grows = λ v. (k.grows v).1;
        appends = k.appends;
        noted = λ _. inl (refl, refl);
        finished = λ e. inl (sym k.same_ended ∙ e);
      })
finish-Pushed bytes index false r w k =
    if_holds (Pushed bytes index false r) (w.eof_appear_sign && leb w.eof_index w.next_pos)
      (λ there. record {
        same_capacity = k.same_capacity;
        same_read = k.same_read;
        grows = λ v. (k.grows v).1;
        appends =
            Appends-trans r.output w.output (ByteStream.end_input w.output) k.appends
              (end_input-Appends w.output);
        noted = λ e. inr (sym k.same_sign ∙ e, k.same_index);
        finished = λ _. inr (ground (arith, there), ground (arith, there));
      })
      (λ _. record {
        same_capacity = k.same_capacity;
        same_read = k.same_read;
        grows = λ v. (k.grows v).1;
        appends = k.appends;
        noted = λ e. inr (sym k.same_sign ∙ e, k.same_index);
        finished = λ e. inl (sym k.same_ended ∙ e);
      })

pub push_substring-Pushed :
    (bytes : List ℕ) (index : ℕ) (eof : Bool) (r : StreamReassembler)
    → Pushed bytes index eof r (push_substring bytes index eof r)
unfolding push_substring
push_substring-Pushed bytes index eof r =
    let inserted = insert_pair bytes index r in
    let written = write_output inserted in
    finish-Pushed bytes index eof r written
      (Kept-trans r inserted written (insert_pair-Kept bytes index r) (write_output-Kept inserted))
