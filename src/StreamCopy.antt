-- ===== src/StreamCopy.antt =====
-- apps/bidirectional_stream_copy.cc: what comes in on the standard input goes out on a socket, and what
-- comes in on the socket goes out on the standard output, by an EventLoop with four rules. What the
-- system calls do is a parameter; a call that sets a descriptor to non-blocking mode is left out.
pub mod Moves
pub mod Balance
pub mod Callbacks
pub mod Conservation
mod Runs
use computer_network.Base.{
  ℕ, zero, suc, ◌+◌, ◌^◌, ◌-◌, Bool, true, false, not, ◌&&◌, ◌||◌, Option, none, some, List, [],
  ◌∷◌, min, ltb, if◌then◌else◌, Outcome, returned, threw,
}
use computer_network.ByteStream.{ByteStream}
use computer_network.ByteStream
use computer_network.BufferViewList.{of_view}
use computer_network.FileDescriptor.{FdWrapper, Writev, buffer_size, register_write}
use computer_network.FileDescriptor
use computer_network.Socket.{shut_wr}
use computer_network.Socket
use computer_network.EventLoop.{
  Rule, Event, Polled, Result, success, exit, timeout, in_direction, out_direction, add_rule,
  wait_next_event,
}

abbrev pub max_copy_length : ℕ
max_copy_length = 65536

-- The locals of the function, and what lies behind the descriptors.
pub record Copy (System : Type 0) : Type 0 where
  pub socket : FdWrapper
  pub input : FdWrapper
  pub output : FdWrapper
  pub outbound : ByteStream
  pub inbound : ByteStream
  pub outbound_shutdown : Bool
  pub inbound_shutdown : Bool
  pub system : System

-- Reads of at most so many bytes, writes, and whether the socket's shutdown and the close of the standard
-- output succeed.
pub record Calls (System : Type 0) : Type 0 where
  pub read_input : ℕ → System → Option (List ℕ) × System
  pub read_socket : ℕ → System → Option (List ℕ) × System
  pub write_socket : Writev System
  pub write_output : Writev System
  pub shutdown_socket : System → Bool × System
  pub close_output : System → Bool × System

-- A descriptor, a stream and the system, and whether a statement threw.
pub record Moved (System : Type 0) : Type 0 where
  pub file : FdWrapper
  pub stream : ByteStream
  pub system : System
  pub threw : Bool

-- `stream.write(fd.read(stream.remaining_capacity()))`, and the end of the input.
unfoldable pub accept :
    {System : Type 0} → List ℕ × Outcome FdWrapper → ByteStream → System → Moved System
accept (bytes, Outcome.threw f) stream system = record {
  file = f;
  stream = stream;
  system = system;
  threw = true;
}
accept (bytes, returned f) stream system =
    let written = ByteStream.write bytes stream in
    record {
      file = f;
      stream = if f.eof then ByteStream.end_input written else written;
      system = system;
      threw = false;
    }

unfoldable pub pull :
    {System : Type 0} → ℕ → Option (List ℕ) × System → FdWrapper → ByteStream → Moved System
unfolding accept
pull limit (result, system) file stream =
    accept (FileDescriptor.read limit result file) stream system

-- `fd.write(stream.peek_output(…), false)` and `stream.pop_output(…)`.
take_off : {System : Type 0} → Option ℕ → FdWrapper → ByteStream → System → Moved System
take_off none file stream system = record {
  file = file;
  stream = stream;
  system = system;
  threw = true;
}
take_off (some bytes_written) file stream system =
    elim (ByteStream.pop_output bytes_written stream) [
      | Outcome.threw s ↦ record { file = file; stream = s; system = system; threw = true }
      | returned s ↦ record { file = file; stream = s; system = system; threw = false }
    ]

unfoldable pub push :
    {System : Type 0} → Writev System → FdWrapper → ByteStream → System → Moved System
unfolding take_off
push writev file stream system =
    let bytes_to_write = min max_copy_length stream.buffer_size in
    let w =
      FileDescriptor.write writev (of_view (ByteStream.peek_output bytes_to_write stream)) false
        file system in
    take_off w.total w.file stream w.system

-- The capacity of both streams, `buffer_size` in the source.
abbrev pub stream_capacity : ℕ
stream_capacity = 1048576

unfoldable pub start : {System : Type 0} → FdWrapper → System → Copy System
start socket system = record {
  socket = socket;
  input = FileDescriptor.init 0;
  output = FileDescriptor.init 1;
  outbound = ByteStream.init stream_capacity;
  inbound = ByteStream.init stream_capacity;
  outbound_shutdown = false;
  inbound_shutdown = false;
  system = system;
}

module _ {System : Type 0} (calls : Calls System) where
  -- Rule 1: from the standard input into the outbound stream.
  unfoldable pub read_input : Copy System → Outcome (Copy System)
  unfolding pull
  read_input w =
      let limit = ByteStream.remaining_capacity w.outbound in
      let m = pull limit (calls.read_input (min buffer_size limit) w.system) w.input w.outbound in
      let w' = record w { input = m.file; outbound = m.stream; system = m.system } in
      if m.threw then Outcome.threw w' else returned w'

  unfoldable pub wants_input : Copy System → Bool
  wants_input w =
      not w.outbound.error
      && ltb 0 (ByteStream.remaining_capacity w.outbound)
      && not w.inbound.error

  unfoldable pub end_outbound : Copy System → Copy System
  end_outbound w = record w { outbound = ByteStream.end_input w.outbound }

  unfoldable pub shutdown_socket : Copy System → Outcome (Copy System)
  shutdown_socket w =
      let (ok, system) = calls.shutdown_socket w.system in
      elim (Socket.shutdown ok shut_wr w.socket) [
        | Outcome.threw f ↦ Outcome.threw (record w { socket = f; system = system })
        | returned f ↦ returned (record w { socket = f; outbound_shutdown = true; system = system })
      ]

  -- Rule 2: from the outbound stream into the socket.
  unfoldable pub write_socket : Copy System → Outcome (Copy System)
  unfolding push shutdown_socket
  write_socket w =
      let m = push calls.write_socket w.socket w.outbound w.system in
      let w' = record w { socket = m.file; outbound = m.stream; system = m.system } in
      if m.threw
      then Outcome.threw w'
      else if ByteStream.eof w'.outbound
      then shutdown_socket w'
      else returned w'

  unfoldable pub wants_socket_out : Copy System → Bool
  wants_socket_out w =
      not (ByteStream.buffer_empty w.outbound)
      || (ByteStream.eof w.outbound && not w.outbound_shutdown)

  -- Rule 3: from the socket into the inbound stream.
  unfoldable pub read_socket : Copy System → Outcome (Copy System)
  unfolding pull
  read_socket w =
      let limit = ByteStream.remaining_capacity w.inbound in
      let m = pull limit (calls.read_socket (min buffer_size limit) w.system) w.socket w.inbound in
      let w' = record w { socket = m.file; inbound = m.stream; system = m.system } in
      if m.threw then Outcome.threw w' else returned w'

  unfoldable pub wants_socket_in : Copy System → Bool
  wants_socket_in w =
      not w.inbound.error && ltb 0 (ByteStream.remaining_capacity w.inbound) && not w.outbound.error

  unfoldable pub end_inbound : Copy System → Copy System
  end_inbound w = record w { inbound = ByteStream.end_input w.inbound }

  unfoldable pub close_output : Copy System → Outcome (Copy System)
  close_output w =
      let (ok, system) = calls.close_output w.system in
      elim (FileDescriptor.close ok w.output) [
        | Outcome.threw f ↦ Outcome.threw (record w { output = f; system = system })
        | returned f ↦ returned (record w { output = f; inbound_shutdown = true; system = system })
      ]

  -- Rule 4: from the inbound stream into the standard output.
  unfoldable pub write_output : Copy System → Outcome (Copy System)
  unfolding push close_output
  write_output w =
      let m = push calls.write_output w.output w.inbound w.system in
      let w' = record w { output = m.file; inbound = m.stream; system = m.system } in
      if m.threw
      then Outcome.threw w'
      else if ByteStream.eof w'.inbound
      then close_output w'
      else returned w'

  unfoldable pub wants_output : Copy System → Bool
  wants_output w =
      not (ByteStream.buffer_empty w.inbound)
      || (ByteStream.eof w.inbound && not w.inbound_shutdown)

  unfoldable pub rules : List (Rule (Copy System))
  unfolding read_input wants_input end_outbound write_socket wants_socket_out read_socket
      wants_socket_in end_inbound write_output wants_output
  rules =
      let rule_1 : Rule (Copy System) = record {
        fd = λ w. w.input;
        direction = in_direction;
        callback = read_input;
        interest = wants_input;
        cancel = end_outbound;
      } in
      let rule_2 : Rule (Copy System) = record {
        fd = λ w. w.socket;
        direction = out_direction;
        callback = write_socket;
        interest = wants_socket_out;
        cancel = end_outbound;
      } in
      let rule_3 : Rule (Copy System) = record {
        fd = λ w. w.socket;
        direction = in_direction;
        callback = read_socket;
        interest = wants_socket_in;
        cancel = end_inbound;
      } in
      let rule_4 : Rule (Copy System) = record {
        fd = λ w. w.output;
        direction = out_direction;
        callback = write_output;
        interest = wants_output;
        cancel = end_inbound;
      } in
      add_rule rule_4 (add_rule rule_3 (add_rule rule_2 (add_rule rule_1 [])))

-- The loop, for at most so many rounds, from what a round left. A round that throws ends it, and so does
-- one that returns Exit. The timeout is -1 as a 32-bit number.
unfoldable pub after_round :
    {System : Type 0}
    → (List (Rule (Copy System)) → Copy System → Event (Copy System))
    → Event (Copy System)
    → Event (Copy System)
after_round again e = elim e.result [
  | exit ↦ e
  | success ↦ elim e.world [ Outcome.threw w ↦ e | returned w ↦ again e.rules w ]
  | timeout ↦ elim e.world [ Outcome.threw w ↦ e | returned w ↦ again e.rules w ]
]

unfoldable pub copy_loop :
    {System : Type 0}
    → (List (Rule (Copy System) × Bool) → ℕ → Copy System → Polled × Copy System)
    → ℕ
    → List (Rule (Copy System))
    → Copy System
    → Event (Copy System)
unfolding after_round
copy_loop poll zero left w = record { result = success; rules = left; world = returned w }
copy_loop poll (suc rounds) left w =
    after_round (λ left' w'. copy_loop poll rounds left' w')
      (wait_next_event poll (2 ^ 32 - 1) left w)
