-- ===== src/StreamCopy/Moves.antt =====
-- What the statements of the callbacks do to a stream: no byte is lost, doubled or moved.
use computer_network.Base.{
  ℕ, ◌^◌, ◌≤◌, ◌<◌, ◌≡◌, refl, sym, ap, ◌∙◌, subst, false, Option, none, some, List, [], ◌∷◌, ◌++◌,
  append_assoc, append-nil, length, length-take, take, take_all, drop, take-append-drop, min,
  if_holds, arith,
}
use computer_network.ByteStream.{ByteStream}
use computer_network.ByteStream
use computer_network.ByteStream.Validity.{
  IsValid, held, write_count_lem, remaining_capacity_lem, write-IsValid, held-write, pop_output_lem,
  peek_output_lem,
}
use computer_network.ByteStream.Order.{end_input-IsValid}
use computer_network.BufferViewList.{of_view}
use computer_network.FileDescriptor.{FdWrapper, Writev, buffer_size}
use computer_network.FileDescriptor
use computer_network.FileDescriptor.Partial.{
  read_within, take-take, IsPipe, Once, failed, took, write-Once, system-write,
}
use computer_network.StreamCopy.{max_copy_length, Moved, accept, pull, take_off, push}

abbrev pub bytes_or_none : Option (List ℕ) → List ℕ
bytes_or_none none = []
bytes_or_none (some bytes) = bytes

-- All that was given is taken, in order.
held-write_all :
    (bytes : List ℕ) (s : ByteStream)
    → IsValid s
    → length bytes ≤ ByteStream.remaining_capacity s
    → held (ByteStream.write bytes s) ≡ held s ++ bytes
held-write_all bytes s v h =
    let all : ByteStream.write_count bytes s ≡ length bytes =
      omega (arith, write_count_lem bytes s v, remaining_capacity_lem s v, h) in
    held-write bytes s
    ∙ ap (λ n. held s ++ take n bytes) all
    ∙ ap (◌++◌ (held s)) (take_all (length bytes) bytes (omega arith))

module _ {System : Type 0} where
  -- What a statement that reads leaves.
  abbrev pub Pulled : List ℕ → ByteStream → System → Moved System → Type 0
  Pulled bytes stream system m =
      IsValid m.stream × (held m.stream ≡ held stream ++ bytes) × (m.system ≡ system)

  pub pull_lem :
      (result : Option (List ℕ)) (file : FdWrapper) (stream : ByteStream) (system : System)
      → IsValid stream
      → length (bytes_or_none result) ≤ min buffer_size (ByteStream.remaining_capacity stream)
      → Pulled
          (bytes_or_none result)
          stream
          system
          (pull (ByteStream.remaining_capacity stream) (result, system) file stream)
  unfolding pull accept FileDescriptor.read Pulled
  pull_lem none file stream system v h = (v, sym (append-nil (held stream)), refl)
  pull_lem (some bytes) file stream system v h =
      let (f, ok) = read_within (ByteStream.remaining_capacity stream) bytes file h in
      let written = ByteStream.write bytes stream in
      let valid = write-IsValid bytes stream v in
      let kept = held-write_all bytes stream v (omega (arith, h)) in
      subst (λ r. Pulled bytes stream system (accept r stream system)) (sym ok)
        (if_holds (λ s. IsValid s × (held s ≡ held stream ++ bytes) × (system ≡ system)) f.eof
          (λ _. (end_input-IsValid written valid, unfold ByteStream.end_input in kept, refl))
          (λ _. (valid, kept, refl)))

  -- What a statement that writes leaves.
  abbrev pub Pushed : (System → List ℕ) → ByteStream → System → Moved System → Type 0
  Pushed output stream system m =
      IsValid m.stream × (output m.system ++ held m.stream ≡ output system ++ held stream)

  take_off-Pushed :
      (output : System → List ℕ) (stream : ByteStream) (system : System)
      (w : FileDescriptor.Written System)
      → IsValid stream
      → Once output
          (ByteStream.peek_output (min max_copy_length stream.buffer_size) stream)
          system
          w
      → Pushed output stream system (take_off w.total w.file stream w.system)
  unfolding take_off Pushed
  take_off-Pushed output stream system w v (failed e same) =
      rw (e, take_off) (v, ap (λ l. l ++ held stream) same)
  take_off-Pushed output stream system w v (took n e less out) =
      let amount = min max_copy_length stream.buffer_size in
      let peeked = peek_output_lem amount stream v in
      let (s, popped_all, popped) = pop_output_lem n stream v in
      let n_less : n ≤ amount =
        omega (arith, less, ap length peeked, length-take amount (held stream)) in
      let prefix = ap (take n) peeked ∙ take-take n amount (held stream) n_less in
      rw (e, take_off, popped_all)
        (
          popped.valid,
          ap (◌++◌ (output w.system)) popped.dropped
              ∙ ap (λ l. l ++ drop n (held stream)) (out ∙ ap (◌++◌ (output system)) prefix)
              ∙ append_assoc (output system) (take n (held stream)) (drop n (held stream))
              ∙ ap (◌++◌ (output system)) (take-append-drop n (held stream)),
        )

  pub push_lem :
      (output : System → List ℕ) (writev : Writev System) (pipe : IsPipe output writev)
      (file : FdWrapper) (stream : ByteStream) (system : System)
      → IsValid stream
      → Pushed output stream system (push writev file stream system)
  unfolding push
  push_lem output writev pipe file stream system v =
      let bytes = ByteStream.peek_output (min max_copy_length stream.buffer_size) stream in
      let small : length bytes < 2 ^ 63 = omega (
        arith,
        ap length (peek_output_lem (min max_copy_length stream.buffer_size) stream v),
        length-take (min max_copy_length stream.buffer_size) (held stream),
      ) in
      take_off-Pushed output stream system
        (FileDescriptor.write writev (of_view bytes) false file system) v
        (write-Once output writev pipe bytes file system small)

  pub system-push :
      (writev : Writev System) (file : FdWrapper) (stream : ByteStream) (system : System)
      → (views : List (List ℕ)) × ((push writev file stream system).system
          ≡ (writev views system).1)
  unfolding push take_off
  system-push writev file stream system =
      let bytes = ByteStream.peek_output (min max_copy_length stream.buffer_size) stream in
      let w = FileDescriptor.write writev (of_view bytes) false file system in
      (bytes ∷ [], system-take_off w.total w.file w.system ∙ system-write writev bytes file system)
    where
      system-take_off :
          (total : Option ℕ) (f : FdWrapper) (s : System) → (take_off total f stream s).system ≡ s
      system-take_off none f s = refl
      system-take_off (some n) f s = ground arith
