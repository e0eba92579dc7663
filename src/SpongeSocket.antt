-- ===== src/SpongeSocket.antt =====
-- libsponge/tcp_helpers/tcp_sponge_socket.hh and tcp_sponge_socket.cc: a connection between a pipe to the
-- application and an adapter. The callbacks of the four rules that `_initialize_TCP` adds are functions
-- of the socket; what the pipe and the adapter's descriptor give is a parameter. Output for debugging
-- and the threads are left out.
pub mod Conservation
pub mod Loop
pub mod Inbound
pub mod Growing
pub mod Delivery
mod Runs
use computer_network.Base.{
  ℕ, Bool, true, false, not, ◌&&◌, ◌||◌, Option, none, some, List, [], ◌∷◌, length, min, ltb, ◌==◌,
  if◌then◌else◌, Outcome, returned, threw,
}
use computer_network.ByteStream.{ByteStream}
use computer_network.ByteStream
use computer_network.BufferViewList.{of_view}
use computer_network.FileDescriptor.{FdWrapper, Writev, buffer_size, register_write}
use computer_network.FileDescriptor
use computer_network.TcpSegment.{TcpSegment}
use computer_network.TcpConnection.{TcpConnection}
use computer_network.TcpConnection
use computer_network.Adapter.{IsAdapter}

-- `system` is what lies behind the two descriptors.
pub record SpongeSocket (AdapterT System : Type 0) : Type 0 where
  pub thread_data : FdWrapper
  pub datagram_adapter : AdapterT
  pub tcp : TcpConnection
  pub inbound_shutdown : Bool
  pub outbound_shutdown : Bool
  pub fully_acked : Bool
  pub system : System

-- The calls on the descriptors: a read from the adapter's, a read of at most so many bytes from the
-- pipe, a write to it, and whether its shutdown succeeds.
pub record Calls (Input System : Type 0) : Type 0 where
  pub recv : System → Input × System
  pub read : ℕ → System → Option (List ℕ) × System
  pub writev : Writev System
  pub shutdown : System → Bool × System

unfoldable pub remaining_outbound_capacity : TcpConnection → ℕ
remaining_outbound_capacity c = ByteStream.remaining_capacity c.sender.stream

unfoldable pub inbound_stream : TcpConnection → ByteStream
inbound_stream c = c.receiver.reassembler.output

unfoldable pub with_inbound : ByteStream → TcpConnection → TcpConnection
with_inbound output c = record c {
  receiver = record c.receiver { reassembler = record c.receiver.reassembler { output = output } };
}

module _ {AdapterT Input System : Type 0} (inner : IsAdapter AdapterT Input)
    (calls : Calls Input System) where
  unfoldable pub take_segment :
      Option TcpSegment → SpongeSocket AdapterT System → SpongeSocket AdapterT System
  take_segment none s = s
  take_segment (some seg) s = record s { tcp = TcpConnection.segment_received seg s.tcp }

  unfoldable pub note_acked : SpongeSocket AdapterT System → SpongeSocket AdapterT System
  note_acked s =
      if s.thread_data.eof && (s.tcp.sender.bytes_in_flight == 0) && not s.fully_acked
      then record s { fully_acked = true }
      else s

  -- Rule 1: from the adapter into the connection.
  unfoldable pub receive_segment :
      SpongeSocket AdapterT System → Outcome (SpongeSocket AdapterT System)
  unfolding take_segment note_acked
  receive_segment s =
      let (input, system) = calls.recv s.system in
      let (seg, adapter) = inner.read input s.datagram_adapter in
      elim adapter [
        | threw a ↦ threw (record s { datagram_adapter = a; system = system })
        | returned a ↦
            returned
              (note_acked (take_segment seg (record s { datagram_adapter = a; system = system })))
      ]

  unfoldable pub finish_outbound : SpongeSocket AdapterT System → SpongeSocket AdapterT System
  finish_outbound s = record s {
    tcp = TcpConnection.end_input_stream s.tcp;
    outbound_shutdown = true;
  }

  -- What was read from the pipe, written to the connection.
  unfoldable pub accept_outbound :
      List ℕ → SpongeSocket AdapterT System → Outcome (SpongeSocket AdapterT System)
  unfolding finish_outbound
  accept_outbound bytes s =
      let (amount_written, tcp) = TcpConnection.write bytes s.tcp in
      let s' = record s { tcp = tcp } in
      if not (amount_written == length bytes)
      then threw s'
      else returned (if s.thread_data.eof then finish_outbound s' else s')

  -- After the call on the pipe.
  unfoldable pub read_outbound :
      ℕ
      → Option (List ℕ) × System
      → SpongeSocket AdapterT System
      → Outcome (SpongeSocket AdapterT System)
  unfolding accept_outbound
  read_outbound limit (result, system) s =
      let (bytes, file) = FileDescriptor.read limit result s.thread_data in
      elim file [
        | threw f ↦ threw (record s { thread_data = f; system = system })
        | returned f ↦ accept_outbound bytes (record s { thread_data = f; system = system })
      ]

  -- Rule 2: from the pipe into the outbound stream. The cancellation is `finish_outbound`.
  unfoldable pub take_outbound :
      SpongeSocket AdapterT System → Outcome (SpongeSocket AdapterT System)
  unfolding read_outbound
  take_outbound s =
      let limit = remaining_outbound_capacity s.tcp in
      read_outbound limit (calls.read (min buffer_size limit) s.system) s

  unfoldable pub wants_outbound : SpongeSocket AdapterT System → Bool
  wants_outbound s =
      s.tcp.active && not s.outbound_shutdown && ltb 0 (remaining_outbound_capacity s.tcp)

  -- The end of the inbound stream, passed on to the pipe.
  unfoldable pub finish_inbound :
      SpongeSocket AdapterT System → Outcome (SpongeSocket AdapterT System)
  finish_inbound s =
      let inbound = inbound_stream s.tcp in
      let (ok, system) = calls.shutdown s.system in
      if not (ByteStream.eof inbound || inbound.error)
      then returned s
      else if not ok
      then threw (record s { system = system })
      else returned (record s {
        thread_data = register_write s.thread_data;
        inbound_shutdown = true;
        system = system;
      })

  -- After the write to the pipe: only what was written is taken off the stream.
  unfoldable pub pop_inbound :
      ℕ → SpongeSocket AdapterT System → Outcome (SpongeSocket AdapterT System)
  unfolding finish_inbound
  pop_inbound bytes_written s = elim (ByteStream.pop_output bytes_written (inbound_stream s.tcp)) [
    | threw inbound ↦ threw (record s { tcp = with_inbound inbound s.tcp })
    | returned inbound ↦ finish_inbound (record s { tcp = with_inbound inbound s.tcp })
  ]

  -- Rule 3: from the inbound stream into the pipe.
  unfoldable pub give_inbound :
      SpongeSocket AdapterT System → Outcome (SpongeSocket AdapterT System)
  unfolding pop_inbound
  give_inbound s =
      let inbound = inbound_stream s.tcp in
      let amount_to_write = min 65536 inbound.buffer_size in
      let buffer = ByteStream.peek_output amount_to_write inbound in
      let w = FileDescriptor.write calls.writev (of_view buffer) false s.thread_data s.system in
      let s' = record s { thread_data = w.file; system = w.system } in
      elim w.total [ none ↦ threw s' | some bytes_written ↦ pop_inbound bytes_written s' ]

  unfoldable pub wants_inbound : SpongeSocket AdapterT System → Bool
  wants_inbound s =
      let inbound = inbound_stream s.tcp in
      not (ByteStream.buffer_empty inbound)
      || ((ByteStream.eof inbound || inbound.error) && not s.inbound_shutdown)

  -- The loop of rule 4. A segment whose write throws stays in front, with what the write set in it.
  unfoldable pub give_loop : List TcpSegment → AdapterT → List TcpSegment × Outcome AdapterT
  give_loop [] a = ([], returned a)
  give_loop (seg ∷ segs) a =
      let (seg', adapter) = inner.write seg a in
      elim adapter [ threw a' ↦ (seg' ∷ segs, threw a') | returned a' ↦ give_loop segs a' ]

  -- Rule 4: from the connection into the adapter.
  unfoldable pub give_segments :
      SpongeSocket AdapterT System → Outcome (SpongeSocket AdapterT System)
  unfolding give_loop
  give_segments s =
      let (left, adapter) = give_loop s.tcp.segments_out s.datagram_adapter in
      let tcp = record s.tcp { segments_out = left } in
      elim adapter [
        | threw a ↦ threw (record s { tcp = tcp; datagram_adapter = a })
        | returned a ↦ returned (record s { tcp = tcp; datagram_adapter = a })
      ]

  unfoldable pub wants_segments_out : SpongeSocket AdapterT System → Bool
  wants_segments_out s = elim s.tcp.segments_out [ [] ↦ false | seg ∷ segs ↦ true ]

  -- What `_tcp_loop` does after an event, when some time has passed.
  unfoldable pub tick_both :
      ℕ → SpongeSocket AdapterT System → Outcome (SpongeSocket AdapterT System)
  tick_both ms s =
      if not s.tcp.active
      then returned s
      else (let s' = record s { tcp = TcpConnection.tick ms s.tcp } in
          elim (inner.tick ms s.datagram_adapter) [
            | threw a ↦ threw (record s' { datagram_adapter = a })
            | returned a ↦ returned (record s' { datagram_adapter = a })
          ])
