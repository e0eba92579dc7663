-- ===== src/SpongeSocket/Inbound.antt =====
-- The callback of rule 3 and the inbound stream, and what the loop relies on around it.
use computer_network.Base.{
  ℕ, ◌≡◌, Bool, false, not, ◌||◌, Option, none, some, List, min, if_holds, Outcome, threw,
  state_after,
}
use computer_network.ByteStream.{ByteStream}
use computer_network.ByteStream
use computer_network.BufferViewList.{of_view}
use computer_network.ByteStream.Validity.{IsValid, pop_output_lem}
use computer_network.FileDescriptor
use computer_network.FileDescriptor.{FdWrapper, buffer_size}
use computer_network.Adapter.{IsAdapter}
use computer_network.EventLoop.{Rule}
use computer_network.SpongeSocket.{
  SpongeSocket, Calls, inbound_stream, give_inbound, with_inbound, pop_inbound, finish_inbound,
}
use computer_network.SpongeSocket.Loop.{Surroundings}

-- Rule 3 keeps the inbound stream valid.
module _ {AdapterT Input System : Type 0} (inner : IsAdapter AdapterT Input)
    (calls : Calls Input System) where
  unfoldable pub ValidAfter : Outcome (SpongeSocket AdapterT System) → Type 0
  ValidAfter o = IsValid (inbound_stream (state_after o).tcp)

  finish_inbound-IsValid :
      (s : SpongeSocket AdapterT System)
      → IsValid (inbound_stream s.tcp)
      → ValidAfter (finish_inbound inner calls s)
  unfolding finish_inbound ValidAfter
  finish_inbound-IsValid s v =
      let inbound = inbound_stream s.tcp in
      if_holds ValidAfter (not (ByteStream.eof inbound || inbound.error)) (λ _. v)
        (λ _. if_holds ValidAfter (not (calls.shutdown s.system).0) (λ _. v) (λ _. v))

  pop_inbound-IsValid :
      (n : ℕ) (s : SpongeSocket AdapterT System)
      → IsValid (inbound_stream s.tcp)
      → ValidAfter (pop_inbound inner calls n s)
  unfolding pop_inbound inbound_stream with_inbound
  pop_inbound-IsValid n s v =
      let (inbound, e, popped) = pop_output_lem n (inbound_stream s.tcp) v in
      rw (pop_inbound, e)
        (finish_inbound-IsValid (record s { tcp = with_inbound inbound s.tcp }) popped.valid)

  written-IsValid :
      (total : Option ℕ) (s : SpongeSocket AdapterT System)
      → IsValid (inbound_stream s.tcp)
      → ValidAfter (elim total [ none ↦ threw s | some n ↦ pop_inbound inner calls n s ])
  unfolding ValidAfter
  written-IsValid none s v = v
  written-IsValid (some n) s v = pop_inbound-IsValid n s v

  pub give_inbound-IsValid :
      (s : SpongeSocket AdapterT System)
      → IsValid (inbound_stream s.tcp)
      → ValidAfter (give_inbound inner calls s)
  unfolding give_inbound
  give_inbound-IsValid s v =
      let inbound = inbound_stream s.tcp in
      let buffer = ByteStream.peek_output (min 65536 inbound.buffer_size) inbound in
      let w = FileDescriptor.write calls.writev (of_view buffer) false s.thread_data s.system in
      written-IsValid w.total (record s { thread_data = w.file; system = w.system }) v

-- What lies around the loop.
module _ {AdapterT Input System : Type 0} (calls : Calls Input System)
    (output : System → List ℕ) where
  -- The reads, the clock and `poll` take nothing for the pipe; `poll` leaves the connection alone.
  pub record IsQuiet (around : Surroundings AdapterT System) : Type 0 where
    pub recv_quiet : (s : System) → output (calls.recv s).1 ≡ output s
    pub read_quiet : (n : ℕ) (s : System) → output (calls.read n s).1 ≡ output s
    pub clock_quiet : (s : System) → output (around.timestamp_ms s).1 ≡ output s
    pub poll_quiet :
        (polls : List (Rule (SpongeSocket AdapterT System) × Bool)) (t : ℕ)
        (s : SpongeSocket AdapterT System)
        → output (around.poll polls t s).1.system ≡ output s.system
    pub same_tcp :
        (polls : List (Rule (SpongeSocket AdapterT System) × Bool)) (t : ℕ)
        (s : SpongeSocket AdapterT System)
        → (around.poll polls t s).1.tcp ≡ s.tcp
