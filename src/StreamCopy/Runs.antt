-- ===== src/StreamCopy/Runs.antt =====
-- A copy that reads three bytes at each side, writes two at a time, and finds everything ready.
use computer_network.Base.{
  ℕ, ◌≡◌, ◌≤◌, refl, sym, ap, ◌∙◌, true, false, take-min, Option, some, List, [], ◌∷◌, ◌++◌, length,
  take, length-take, state_after, Bool, arith,
}
use mathlib.Core.Option.{some-injective, some-ne-none}
use computer_network.ByteStream.Validity.{held}
use computer_network.BufferViewList.Contents.{joined}
use computer_network.FileDescriptor
use computer_network.EventLoop.{Rule, Polled, some_ready}
use computer_network.StreamCopy.{Copy, Calls, start, rules, copy_loop}
use computer_network.StreamCopy.Balance.{Traffic, IsSystem}
use computer_network.StreamCopy.Conservation.{IsQuiet, copy_loop-conserves}

abbrev two_of : List (List ℕ) → List ℕ
two_of views = take 2 (joined views)

abbrev hey : List ℕ
hey = 104 ∷ 101 ∷ 121 ∷ []

abbrev yo : List ℕ
yo = 121 ∷ 111 ∷ []

abbrev calls : Calls Traffic
calls = record {
  read_input = λ n t.
      let bytes = take n hey in (some bytes, record t { from_input = t.from_input ++ bytes });
  read_socket = λ n t.
      let bytes = take n yo in (some bytes, record t { from_socket = t.from_socket ++ bytes });
  write_socket = λ views t.
      (some (length (two_of views)), record t { to_socket = t.to_socket ++ two_of views });
  write_output = λ views t.
      (some (length (two_of views)), record t { to_output = t.to_output ++ two_of views });
  shutdown_socket = λ t. (true, t);
  close_output = λ t. (true, t);
}

all_ready : List (Rule (Copy Traffic) × Bool) → ℕ → Copy Traffic → Polled × Copy Traffic
all_ready polls t w = (
  some_ready (λ i. record {
    pollin = true;
    pollout = true;
    pollerr = false;
    pollnval = false;
    pollhup = false;
  }),
  w,
)

-- A write that takes the first two bytes of what it is given.
two_taken :
    (views : List (List ℕ)) (before : List ℕ) (n : ℕ)
    → Option.some (length (two_of views)) ≡ some n
    → (n ≤ length (joined views)) × (before ++ two_of views ≡ before ++ take n (joined views))
two_taken views before n e =
    let same = some-injective (length (two_of views)) n e in
    let len = length-take 2 (joined views) in
    (
      omega (arith, same, len),
      ap (λ l. before ++ l)
          (sym (take-min 2 (joined views)) ∙ ap (λ k. take k (joined views)) (sym len ∙ same)),
    )

calls-IsSystem : IsSystem (λ t. t) calls
calls-IsSystem = record {
  input_within = λ n t. omega (arith, length-take n hey);
  input_read = λ n t. refl;
  socket_within = λ n t. omega (arith, length-take n yo);
  socket_read = λ n t. refl;
  socket_pipe = record {
    fails = λ views t e. absurd (some-ne-none _ e);
    takes = λ views t n e. two_taken views t.to_socket n e;
  };
  socket_alone = λ views t. refl;
  output_pipe = record {
    fails = λ views t e. absurd (some-ne-none _ e);
    takes = λ views t n e. two_taken views t.to_output n e;
  };
  output_alone = λ views t. refl;
  shutdown_quiet = λ t. refl;
  close_quiet = λ t. refl;
}

all_ready-IsQuiet : IsQuiet (λ t. t) all_ready
unfolding all_ready
all_ready-IsQuiet = record {
  same_outbound = λ polls t w. refl;
  same_inbound = λ polls t w. refl;
  same_traffic = λ polls t w. refl;
}

abbrev silence : Traffic
silence = record { from_input = []; to_socket = []; from_socket = []; to_output = [] }

abbrev copied : Copy Traffic
copied =
    state_after (copy_loop all_ready 3 (rules calls) (start (FileDescriptor.init 3) silence)).world

copy_loop-conserves_example :
    (copied.system.from_input ≡ copied.system.to_socket ++ held copied.outbound)
    × (copied.system.from_socket ≡ copied.system.to_output ++ held copied.inbound)
copy_loop-conserves_example =
    copy_loop-conserves (λ t. t) calls all_ready calls-IsSystem all_ready-IsQuiet 3
      (FileDescriptor.init 3) silence refl refl
