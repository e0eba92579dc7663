-- ===== src/StreamReassembler/Complete.antt =====
-- What the loop of `write_output` does to the positions that a reassembler has.
use computer_network.Base.{
  ℕ, zero, suc, ◌+◌, ◌≤◌, ◌≡◌, refl, ap, ◌∙◌, inl, inr, true, ◌||◌, List, [], ◌∷◌, length, ltb,
  Bool-cases, arith,
}
use computer_network.Words.{add64, sub64, add64_small}
use computer_network.ByteStream
use computer_network.StreamReassembler.{
  StreamReassembler, front_ready, round, write_loop, write_output,
}
use computer_network.StreamReassembler.OrderedMap.{Entries, total}
use computer_network.StreamReassembler.Invariant.{Stored, Inv}
use computer_network.StreamReassembler.Written.{wrote, write_count_all}
use computer_network.StreamReassembler.Output.{round_lem, write_front_all}
use computer_network.StreamReassembler.Known.{between, covers, known}

module _ (source : ℕ → ℕ) (p : ℕ) where
  -- The string at the front, once it is written.
  pub wrote-known :
      (r : StreamReassembler) (s : List ℕ) (m : Entries) (u : ℕ)
      → Inv source r
      → r.next_pos + length s ≤ r.output.bytes_read + r.capacity
      → known (wrote s m u r) p
        ≡ (ltb p r.next_pos || between r.next_pos (r.next_pos + length s) p || covers m p)
  unfolding known
  wrote-known r s m u v h =
      let next : add64 r.next_pos (ByteStream.write_count s r.output) ≡ r.next_pos + length s =
        ap (add64 r.next_pos) (write_count_all source r s v h)
        ∙ add64_small r.next_pos (length s) (omega (arith, v.limit)) in
      rw next (ground arith)

  known_front :
      (r : StreamReassembler) (k : ℕ) (s : List ℕ) (m : Entries)
      → r.unassemble_buffer ≡ (k, s) ∷ m
      → k ≡ r.next_pos
      → (ltb p r.next_pos || between r.next_pos (r.next_pos + length s) p || covers m p) ≡ known r p
  unfolding known covers
  known_front r k s m e here = rw e (ground (arith, here))

  round-known :
      (r : StreamReassembler) (m : Entries)
      → Inv source r
      → r.unassemble_buffer ≡ m
      → front_ready r m ≡ true
      → known (round m r) p ≡ known r p
  unfolding round front_ready
  round-known r [] v e ready = cc
  round-known r ((k, s) ∷ m) v e ready =
      let st : Stored source r.next_pos (r.output.bytes_read + r.capacity) ((k, s) ∷ m) =
        rw e at v.stored in
      let here : k ≡ r.next_pos = ground arith in
      let all = write_count_all source r s v (omega arith) in
      let now = wrote-known r s m (sub64 r.unassembled_bytes (length s)) v (omega arith) in
      rw (write_front_all k s m r all) (now ∙ known_front r k s m e here)

  loop-known :
      (fuel : ℕ) (r : StreamReassembler) → Inv source r → known (write_loop fuel r) p ≡ known r p
  unfolding write_loop
  loop-known zero r v = refl
  loop-known (suc fuel) r v = elim (Bool-cases (front_ready r r.unassemble_buffer)) [
    | inr e ↦ rw e refl
    | inl e ↦
        let (v', go, _) = round_lem source r r.unassemble_buffer v refl e in
        rw (e, go)
          (loop-known fuel (round r.unassemble_buffer r) v'
            ∙ round-known r r.unassemble_buffer v refl e)
  ]

  pub write_output-known :
      (r : StreamReassembler) → Inv source r → known (write_output r) p ≡ known r p
  unfolding write_output
  write_output-known r v =
      loop-known (suc (length r.unassemble_buffer + total r.unassemble_buffer)) r v
