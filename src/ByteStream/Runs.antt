-- ===== src/ByteStream/Runs.antt =====
-- Concrete runs of a byte stream, and the theorems of this component at concrete inputs.
use computer_network.Base.{◌<◌, ◌≡◌, refl, false, List, [], ◌∷◌, length, arith}
use computer_network.Words.{add64, sub64}
use computer_network.Buffer
use computer_network.BufferList
use computer_network.BufferList.{BufferList}
use computer_network.ByteStream.{
  ByteStream, init, write, end_input, read, eof, peek_output, pop_output,
}
use computer_network.ByteStream.Validity.{IsValid, held, init-IsValid, write-IsValid}
use computer_network.ByteStream.Order.{
  Call, writes, reads, ends, step, run, start, IsQueue, run-start-IsQueue, eof-write,
}

abbrev calls : List Call
calls = writes (1 ∷ 2 ∷ 3 ∷ []) ∷ reads 2 ∷ writes (4 ∷ 5 ∷ []) ∷ ends ∷ reads 9 ∷ []

runs_in_order : (run (start 4) calls).delivered ≡ 1 ∷ 2 ∷ 3 ∷ 4 ∷ 5 ∷ []
unfolding run start step init write end_input add64 sub64 read pop_output peek_output
    BufferList.empty BufferList.append BufferList.of_string BufferList.remove_prefix
    BufferList.concatenate_first Buffer.of_string Buffer.str Buffer.size Buffer.remove_prefix
runs_in_order = refl

run-start-IsQueue_example : IsQueue (run (start 4) calls)
run-start-IsQueue_example = run-start-IsQueue 4 calls (omega arith)

abbrev two_held : ByteStream
two_held = write (7 ∷ 8 ∷ []) (init 4)

two_held-IsValid : IsValid two_held
two_held-IsValid = write-IsValid (7 ∷ 8 ∷ []) (init 4) (init-IsValid 4 (omega arith))

abbrev ended : ByteStream
ended = end_input (init 4)

ended-IsValid : IsValid ended
unfolding end_input
ended-IsValid =
    let v = init-IsValid 4 (omega arith) in
    record {
      word = v.word;
      counted = v.counted;
      fits = v.fits;
      written_word = v.written_word;
      balance = v.balance;
    }

eof-write_example :
    (eof (write (7 ∷ []) ended) ≡ false) × (0 < length (held (write (7 ∷ []) ended)))
unfolding end_input init eof
eof-write_example = eof-write (7 ∷ []) ended ended-IsValid (omega arith) refl (omega arith)

abbrev pieces : BufferList
pieces = BufferList.append (BufferList.of_string (1 ∷ 2 ∷ [])) (BufferList.of_string (3 ∷ []))
