-- ===== src/StreamReassembler/Reach.antt =====
-- The reassembler over a whole connection: excerpts of the peer's stream arrive in any order, and the
-- reader reads when it likes.
use computer_network.Base.{
  ℕ, ◌+◌, ◌≤◌, ◌<◌, ◌≡◌, ◌^◌, refl, sym, ap, ◌∙◌, Bool, some, List, length, take, drop, min,
  drop-min, length-take, arith,
}
use computer_network.Words.{add64_small}
use computer_network.ByteStream
use computer_network.ByteStream.{ByteStream}
use computer_network.ByteStream.Validity.{held, init-IsValid, read_lem, Popped}
use computer_network.BufferList.Contents.{contents-empty}
use computer_network.StreamReassembler.{StreamReassembler, init, push_substring}
use computer_network.StreamReassembler.Invariant.{
  Agrees, Inv, Agrees-take, Agrees-drop, Stored-upper, total-le,
}
use computer_network.StreamReassembler.OrderedMap.{total}
use computer_network.StreamReassembler.Written.{next_pos_lem}
use computer_network.StreamReassembler.Output.{push_substring-Inv}

-- The reader's call of `stream_out().read(len)`.
unfoldable pub read_out : ℕ → StreamReassembler → StreamReassembler
read_out len r = record r { output = (ByteStream.read len r.output).1 }

-- What may happen: a piece of the stream comes in, or the reader reads. Positions stay below 2^64.
pub data Step (source : ℕ → ℕ) (r : StreamReassembler) : StreamReassembler → Type 0 where
  push :
      (bytes : List ℕ) (index : ℕ) (eof : Bool)
      → index + length bytes < 2 ^ 64
      → Agrees source index bytes
      → Step source r (push_substring bytes index eof r)
  pull : (len : ℕ) → r.next_pos + r.capacity < 2 ^ 64 → Step source r (read_out len r)

pub data Reach (source : ℕ → ℕ) (r : StreamReassembler) : StreamReassembler → Type 0 where
  here : Reach source r r
  next : {s t : StreamReassembler} → Reach source r s → Step source s t → Reach source r t

module _ (source : ℕ → ℕ) where
  pub init-Inv : (capacity : ℕ) → capacity < 2 ^ 64 → Inv source (init capacity)
  unfolding init ByteStream.init total
  init-Inv c h = record {
    out_valid = unfold ByteStream.init in init-IsValid c h;
    in_order = rw contents-empty tt;
    same_capacity = refl;
    limit = omega arith;
    next_written = refl;
    stored = tt;
    counted = refl;
  }

  -- The window moves on by what was read.
  pub Popped-Inv :
      (r : StreamReassembler) (len : ℕ) (s : ByteStream)
      → Inv source r
      → r.next_pos + r.capacity < 2 ^ 64
      → Popped len r.output s
      → Inv source (record r { output = s })
  Popped-Inv r len s v h p =
      let n : ℕ = min len r.output.buffer_size in
      let here = next_pos_lem source r v in
      let count : s.bytes_read ≡ r.output.bytes_read + n =
        p.read_count ∙ add64_small r.output.bytes_read n (omega arith) in
      let rest : drop len (held r.output) ≡ drop n (held r.output) =
        rw v.out_valid.counted (sym (drop-min len (held r.output))) in
      record {
        out_valid = p.valid;
        in_order =
            rw (count, p.dropped, rest)
              (Agrees-drop source n r.output.bytes_read (held r.output) v.in_order);
        same_capacity = p.same_capacity ∙ v.same_capacity;
        limit = omega arith;
        next_written = v.next_written ∙ sym p.same_written;
        stored =
            Stored-upper source r.next_pos (r.output.bytes_read + r.capacity) _ r.unassemble_buffer
              (rw count (omega arith)) v.stored;
        counted = v.counted;
      }

  read_out-Inv :
      (r : StreamReassembler) (len : ℕ)
      → Inv source r
      → r.next_pos + r.capacity < 2 ^ 64
      → Inv source (read_out len r)
  unfolding read_out
  read_out-Inv r len v h =
      let (s, e, p) = read_lem len r.output v.out_valid in rw e (Popped-Inv r len s v h p)

  Step-Inv : {r s : StreamReassembler} → Step source r s → Inv source r → Inv source s
  Step-Inv (push bytes index eof h a) v = push_substring-Inv source _ bytes index eof v h a
  Step-Inv (pull len h) v = read_out-Inv _ len v h

  pub Reach-Inv : {r s : StreamReassembler} → Reach source r s → Inv source r → Inv source s
  Reach-Inv here v = v
  Reach-Inv (next path step) v = Step-Inv step (Reach-Inv path v)

  -- In every state that excerpts of a stream, pushed in any order, and reads lead to from a fresh
  -- reassembler: a read does not throw, and returns what that stream has from `bytes_read` on, as far
  -- as it is there.
  pub read-Reach :
      (capacity len : ℕ) (r : StreamReassembler)
      → capacity < 2 ^ 64
      → Reach source (init capacity) r
      → (bytes : List ℕ) × ((ByteStream.read len r.output).0 ≡ some bytes)
        × (length bytes ≡ min len r.output.buffer_size)
        × Agrees source r.output.bytes_read bytes
  read-Reach capacity len r h path =
      let v = Reach-Inv path (init-Inv capacity h) in
      let (s, e, p) = read_lem len r.output v.out_valid in
      (
        take len (held r.output),
        ap (λ x. x.0) e,
        omega (arith, length-take len (held r.output), v.out_valid.counted),
        Agrees-take source len r.output.bytes_read (held r.output) v.in_order,
      )

  -- In every such state what is stored and not yet read fits the capacity, and the count of
  -- unassembled bytes is that of the stored strings.
  pub bounded-Reach :
      (capacity : ℕ) (r : StreamReassembler)
      → capacity < 2 ^ 64
      → Reach source (init capacity) r
      → (r.unassembled_bytes ≡ total r.unassemble_buffer)
        × (r.output.buffer_size + r.unassembled_bytes ≤ r.capacity)
  bounded-Reach capacity r h path =
      let v = Reach-Inv path (init-Inv capacity h) in
      let here = next_pos_lem source r v in
      (
        v.counted,
        omega (
          arith,
          v.counted,
          total-le source r.next_pos (r.output.bytes_read + r.capacity) r.unassemble_buffer
              (omega arith) v.stored,
        ),
      )
