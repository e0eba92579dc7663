-- ===== src/Session/Receiving.antt =====
-- What the receiver puts together is what was written to the sender, from the start on.
use computer_network.Base.{
  ℕ, ◌+◌, ◌^◌, ◌≤◌, ◌<◌, ◌≡◌, refl, sym, ap, ◌∙◌, Bool, true, false, some, List, [], ◌++◌,
  append-nil, length, take, drop, take-append-drop, append_assoc, length-append, length-take, min,
  eq_nil, arith,
}
use computer_network.Words.{add64_small}
use computer_network.ByteStream
use computer_network.ByteStream.{ByteStream}
use computer_network.ByteStream.Validity.{held, read_lem, eof_iff}
use computer_network.ByteStream.Order.{set_error-IsValid}
use computer_network.WrappingIntegers.{WrappingInt32}
use computer_network.StreamReassembler.Invariant.{Agrees, Inv, Agrees-append, Agrees-take}
use computer_network.StreamReassembler.Written.{next_pos_lem}
use computer_network.StreamReassembler.Reach.{Popped-Inv}
use computer_network.TcpReceiver.{TcpReceiver}
use computer_network.Session.Cut.{Agrees-front}
use computer_network.Session.Prefix.{stream_of, stream_of-Agrees, prefix_of}

pub record Receiving (isn : WrappingInt32) (accepted : List ℕ) (ended : Bool) (delivered : List ℕ)
    (r : TcpReceiver) : Type 0 where
  pub same_isn : r.syn ≡ true → r.isn ≡ isn
  pub room : r.reassembler.capacity < 2 ^ 63
  pub count : r.reassembler.output.bytes_read ≡ length delivered
  pub streams :
      (source : ℕ → ℕ)
      → Agrees source 0 accepted
      → Inv source r.reassembler × Agrees source 0 delivered
  pub noted :
      r.reassembler.eof_appear_sign ≡ true
      → (ended ≡ true) × (r.reassembler.eof_index ≡ length accepted)
  pub finished :
      r.reassembler.output.input_ended ≡ true
      → (ended ≡ true) × (length accepted ≤ r.reassembler.next_pos)

module _ (isn : WrappingInt32) (accepted : List ℕ) (ended : Bool) (delivered : List ℕ)
    (r : TcpReceiver) (v : Receiving isn accepted ended delivered r) where
  -- What was read and what waits is the start of what was written.
  pub whole_lem : (rest : List ℕ) × (accepted ≡ (delivered ++ held r.reassembler.output) ++ rest)
  whole_lem = prefix_of accepted (delivered ++ held r.reassembler.output) (both 0) (both 1)
    where
      both : (d : ℕ) → Agrees (stream_of d accepted) 0 (delivered ++ held r.reassembler.output)
      both d =
          let (inv, before) = v.streams (stream_of d accepted) (stream_of-Agrees d accepted) in
          let e : r.reassembler.output.bytes_read ≡ 0 + length delivered = omega (arith, v.count) in
          Agrees-append (stream_of d accepted) 0 delivered (held r.reassembler.output) before
            (rw e at inv.in_order)

  pub written_lem :
      (r.reassembler.output.bytes_written ≤ length accepted)
      × (r.reassembler.next_pos ≤ length accepted)
  written_lem =
      let (inv, _) = v.streams (stream_of 0 accepted) (stream_of-Agrees 0 accepted) in
      let (rest, e) = whole_lem in
      let here = next_pos_lem (stream_of 0 accepted) r.reassembler inv in
      let total = ap length e in
      let l1 = length-append (delivered ++ held r.reassembler.output) rest in
      let l2 = length-append delivered (held r.reassembler.output) in
      (
        omega (arith, inv.next_written, here, total, l1, l2, v.count, inv.out_valid.counted),
        omega (arith, here, total, l1, l2, v.count, inv.out_valid.counted),
      )

  -- At the end of the stream all of it was read.
  pub eof_lem : ByteStream.eof r.reassembler.output ≡ true → (ended ≡ true) × (delivered ≡ accepted)
  eof_lem at_end =
      let source = stream_of 0 accepted in
      let (inv, _) = v.streams source (stream_of-Agrees 0 accepted) in
      let (over, none_held) = (eof_iff r.reassembler.output inv.out_valid).0 at_end in
      let (all, there) = v.finished over in
      let (rest, e) = whole_lem in
      let here = next_pos_lem source r.reassembler inv in
      let waiting : length (held r.reassembler.output) ≡ 0 = ap length none_held in
      let l1 = length-append (delivered ++ held r.reassembler.output) rest in
      let l2 = length-append delivered (held r.reassembler.output) in
      let no_rest = eq_nil rest (
        omega (arith, there, here, v.count, inv.out_valid.counted, waiting, ap length e, l1, l2)) in
      (
        all,
        sym (
            e
            ∙ ap (λ w. (delivered ++ w) ++ rest) none_held
            ∙ ap (λ w. (delivered ++ []) ++ w) no_rest
            ∙ append-nil (delivered ++ [])
            ∙ append-nil delivered),
      )

-- More is written, and the reader reads.
pub more-Receiving :
    (isn : WrappingInt32) (accepted more delivered : List ℕ) (r : TcpReceiver)
    → Receiving isn accepted false delivered r
    → Receiving isn (accepted ++ more) false delivered r
more-Receiving isn accepted more delivered r v = record {
  same_isn = v.same_isn;
  room = v.room;
  count = v.count;
  streams = λ source a. v.streams source (Agrees-front source 0 accepted more a);
  noted = λ e. let (all, _) = v.noted e in absurd (ground arith);
  finished = λ e. let (all, _) = v.finished e in absurd (ground arith);
}

pub ended-Receiving :
    (isn : WrappingInt32) (accepted : List ℕ) (ended : Bool) (delivered : List ℕ) (r : TcpReceiver)
    → Receiving isn accepted ended delivered r
    → Receiving isn accepted true delivered r
ended-Receiving isn accepted ended delivered r v = record {
  same_isn = v.same_isn;
  room = v.room;
  count = v.count;
  streams = v.streams;
  noted = λ e. (refl, (v.noted e).1);
  finished = λ e. (refl, (v.finished e).1);
}

pub failed-Receiving :
    (isn : WrappingInt32) (accepted : List ℕ) (ended : Bool) (delivered : List ℕ) (r : TcpReceiver)
    → Receiving isn accepted ended delivered r
    → Receiving isn accepted ended delivered (record r {
      reassembler = record r.reassembler { output = ByteStream.set_error r.reassembler.output };
    })
unfolding ByteStream.set_error
failed-Receiving isn accepted ended delivered r v = record {
  same_isn = v.same_isn;
  room = v.room;
  count = v.count;
  streams = λ source a.
      let (inv, before) = v.streams source a in
      (
        record {
          out_valid =
              unfold ByteStream.set_error in set_error-IsValid r.reassembler.output inv.out_valid;
          in_order = inv.in_order;
          same_capacity = inv.same_capacity;
          limit = inv.limit;
          next_written = inv.next_written;
          stored = inv.stored;
          counted = inv.counted;
        },
        before,
      );
  noted = v.noted;
  finished = v.finished;
}

-- The receiver once its reader has read.
abbrev after_read : ByteStream → TcpReceiver → TcpReceiver
after_read output r = record r { reassembler = record r.reassembler { output = output } }

pub read-Receiving :
    (isn : WrappingInt32) (accepted : List ℕ) (ended : Bool) (delivered : List ℕ) (r : TcpReceiver)
    (len : ℕ)
    → length accepted < 2 ^ 31
    → Receiving isn accepted ended delivered r
    → (output : ByteStream) × (ByteStream.read len r.reassembler.output
        ≡ (some (take len (held r.reassembler.output)), output))
      × Receiving isn accepted ended
          (delivered ++ take len (held r.reassembler.output))
          (after_read output r)
read-Receiving isn accepted ended delivered r len short v =
    let (first, _) = v.streams (stream_of 0 accepted) (stream_of-Agrees 0 accepted) in
    let (output, e, p) = read_lem len r.reassembler.output first.out_valid in
    let (_, next) = written_lem isn accepted ended delivered r v in
    let here = next_pos_lem (stream_of 0 accepted) r.reassembler first in
    let taken = length-take len (held r.reassembler.output) in
    let more = length-append delivered (take len (held r.reassembler.output)) in
    let room : r.reassembler.next_pos + r.reassembler.capacity < 2 ^ 64 =
      omega (arith, next, short, v.room) in
    (
      output,
      e,
      record {
        same_isn = v.same_isn;
        room = v.room;
        count = omega (
          arith,
          p.read_count,
          add64_small r.reassembler.output.bytes_read (min len r.reassembler.output.buffer_size)
              (omega (arith, here, room)),
          taken,
          more,
          v.count,
          first.out_valid.counted,
        );
        streams = λ source a.
            let (inv, before) = v.streams source a in
            let e : r.reassembler.output.bytes_read ≡ 0 + length delivered =
              omega (arith, v.count) in
            (
              Popped-Inv source r.reassembler len output inv room p,
              Agrees-append source 0 delivered (take len (held r.reassembler.output)) before (
                  Agrees-take source len (0 + length delivered) (held r.reassembler.output)
                    (rw e at inv.in_order)),
            );
        noted = v.noted;
        finished = λ e. v.finished (sym p.same_ended ∙ e);
      },
    )

-- The next bytes that are read are the next of those that were written.
pub next_lem :
    (isn : WrappingInt32) (accepted : List ℕ) (ended : Bool) (delivered : List ℕ) (r : TcpReceiver)
    (len : ℕ)
    → length accepted < 2 ^ 31
    → Receiving isn accepted ended delivered r
    → (bytes rest : List ℕ) × ((ByteStream.read len r.reassembler.output).0 ≡ some bytes)
      × (accepted ≡ delivered ++ (bytes ++ rest))
next_lem isn accepted ended delivered r len short v =
    let (_, e, _) = read-Receiving isn accepted ended delivered r len short v in
    let (rest, whole) = whole_lem isn accepted ended delivered r v in
    let waiting = held r.reassembler.output in
    (
      take len waiting,
      drop len waiting ++ rest,
      ap (λ x. x.0) e,
      whole
          ∙ append_assoc delivered waiting rest
          ∙ ap (λ w. delivered ++ w)
              (ap (λ w. w ++ rest) (sym (take-append-drop len waiting))
                ∙ append_assoc (take len waiting) (drop len waiting) rest),
    )
