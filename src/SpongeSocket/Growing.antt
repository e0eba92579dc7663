-- ===== src/SpongeSocket/Growing.antt =====
-- Every rule leaves what the application was given, and may put more behind it.
use computer_network.Base.{
  ℕ, ◌≡◌, refl, sym, ap, ◌∙◌, true, not, Option, none, some, List, ◌++◌, append_assoc, length, min,
  ◌==◌, if_holds, Outcome, returned, threw, state_after, All, ◌&&◌,
}
use computer_network.ByteStream.Validity.{IsValid, held}
use computer_network.ByteStream.Appends.{Appends}
use computer_network.FileDescriptor
use computer_network.FileDescriptor.{FdWrapper, buffer_size}
use computer_network.FileDescriptor.Partial.{IsPipe}
use computer_network.TcpSegment.{TcpSegment}
use computer_network.TcpConnection.{TcpConnection}
use computer_network.TcpConnection
use computer_network.TcpConnection.Inbound.{
  segment_received-Appends, same_receiver-write, same_receiver-end_input_stream,
}
use computer_network.Adapter.{IsAdapter}
use computer_network.EventLoop.{add_rule}
use computer_network.EventLoop.Keeping.{Keeps}
use computer_network.SpongeSocket.{
  SpongeSocket, Calls, inbound_stream, take_segment, note_acked, receive_segment, finish_outbound,
  accept_outbound, read_outbound, take_outbound, give_inbound, give_loop, give_segments,
  remaining_outbound_capacity,
}
use computer_network.SpongeSocket.Conservation.{delivered, give_inbound-delivered}
use computer_network.SpongeSocket.Loop.{Surroundings, rules}
use computer_network.SpongeSocket.Inbound.{ValidAfter, give_inbound-IsValid, IsQuiet}

module _ {AdapterT Input System : Type 0} (inner : IsAdapter AdapterT Input)
    (calls : Calls Input System) (output : System → List ℕ) (pipe : IsPipe output calls.writev)
    (shut : (s : System) → output (calls.shutdown s).1 ≡ output s) (given : List ℕ) where
  abbrev pub Socket : Type 0
  Socket = SpongeSocket AdapterT System

  abbrev pub for_application : Socket → List ℕ
  for_application s = delivered inner calls output pipe shut s

  -- What the application was given is the beginning of what it is given now.
  pub record Grown (s : Socket) : Type 0 where
    pub valid : IsValid (inbound_stream s.tcp)
    pub more : (bytes : List ℕ) × (for_application s ≡ given ++ bytes)

  unfoldable pub GrownAfter : Outcome Socket → Type 0
  GrownAfter o = Grown (state_after o)

  -- The connection is given more, and the pipe takes nothing.
  pub step-Grown :
      (s s' : Socket)
      → output s'.system ≡ output s.system
      → Appends (inbound_stream s.tcp) (inbound_stream s'.tcp)
      → Grown s
      → Grown s'
  unfolding delivered
  step-Grown s s' same a v =
      let (bytes, e) = v.more in
      let (bytes', e') = a.more in
      record {
        valid = a.valid v.valid;
        more = (
          bytes ++ bytes',
          ap (λ l. l ++ held (inbound_stream s'.tcp)) same
              ∙ ap (◌++◌ (output s.system)) e'
              ∙ sym (append_assoc (output s.system) (held (inbound_stream s.tcp)) bytes')
              ∙ ap (λ l. l ++ bytes') e
              ∙ append_assoc given bytes bytes',
        );
      }

  -- Neither changes.
  pub same-Grown :
      (s s' : Socket)
      → output s'.system ≡ output s.system
      → s'.tcp.receiver ≡ s.tcp.receiver
      → Grown s
      → Grown s'
  unfolding delivered inbound_stream
  same-Grown s s' same receiver v = record {
    valid = rw receiver v.valid;
    more = rw (same, receiver) v.more;
  }

  take_segment-Grown :
      (seg : Option TcpSegment) (s : Socket) → Grown s → Grown (take_segment inner calls seg s)
  unfolding take_segment inbound_stream
  take_segment-Grown none s v = v
  take_segment-Grown (some seg) s v =
      step-Grown s (take_segment inner calls (some seg) s) refl (segment_received-Appends seg s.tcp)
        v

  note_acked-Grown : (s : Socket) → Grown s → Grown (note_acked inner calls s)
  unfolding note_acked
  note_acked-Grown s v =
      if_holds Grown (s.thread_data.eof && (s.tcp.sender.bytes_in_flight == 0) && not s.fully_acked)
        (λ _. same-Grown s (record s { fully_acked = true }) refl refl v) (λ _. v)

  module _ (around : Surroundings AdapterT System) (quiet : IsQuiet calls output around) where
    received-Grown :
        (seg : Option TcpSegment) (adapter : Outcome AdapterT) (s : Socket)
        → Grown s
        → GrownAfter (elim adapter [
          | threw a ↦ threw (record s { datagram_adapter = a; system = (calls.recv s.system).1 })
          | returned a ↦ returned (
              note_acked inner calls (
                take_segment inner calls seg
                  (record s { datagram_adapter = a; system = (calls.recv s.system).1 })))
        ])
    unfolding GrownAfter
    received-Grown seg (threw a) s v =
        same-Grown s (record s { datagram_adapter = a; system = (calls.recv s.system).1 })
          (quiet.recv_quiet s.system) refl v
    received-Grown seg (returned a) s v =
        let s' : Socket = record s { datagram_adapter = a; system = (calls.recv s.system).1 } in
        let v' : Grown s' = same-Grown s s' (quiet.recv_quiet s.system) refl v in
        note_acked-Grown (take_segment inner calls seg s') (take_segment-Grown seg s' v')

    receive_segment-Grown : (s : Socket) → Grown s → GrownAfter (receive_segment inner calls s)
    unfolding receive_segment
    receive_segment-Grown s v =
        let (seg, adapter) = inner.read (calls.recv s.system).0 s.datagram_adapter in
        received-Grown seg adapter s v

    finish_outbound-Grown : (s : Socket) → Grown s → Grown (finish_outbound inner calls s)
    unfolding finish_outbound
    finish_outbound-Grown s v =
        same-Grown s (finish_outbound inner calls s) refl (same_receiver-end_input_stream s.tcp) v

    accept_outbound-Grown :
        (bytes : List ℕ) (s : Socket) → Grown s → GrownAfter (accept_outbound inner calls bytes s)
    unfolding accept_outbound GrownAfter
    accept_outbound-Grown bytes s v =
        let (amount_written, tcp) = TcpConnection.write bytes s.tcp in
        let s' : Socket = record s { tcp = tcp } in
        let v' : Grown s' = same-Grown s s' refl (same_receiver-write bytes s.tcp) v in
        if_holds GrownAfter (not (amount_written == length bytes)) (λ _. v')
          (λ _. if_holds Grown s.thread_data.eof (λ _. finish_outbound-Grown s' v') (λ _. v'))

    file_read-Grown :
        (bytes : List ℕ) (file : Outcome FdWrapper) (system : System) (s : Socket)
        → output system ≡ output s.system
        → Grown s
        → GrownAfter (elim file [
          | threw f ↦ threw (record s { thread_data = f; system = system })
          | returned f ↦
              accept_outbound inner calls bytes (record s { thread_data = f; system = system })
        ])
    unfolding GrownAfter
    file_read-Grown bytes (threw f) system s same v =
        same-Grown s (record s { thread_data = f; system = system }) same refl v
    file_read-Grown bytes (returned f) system s same v =
        let s' : Socket = record s { thread_data = f; system = system } in
        accept_outbound-Grown bytes s' (same-Grown s s' same refl v)

    take_outbound-Grown : (s : Socket) → Grown s → GrownAfter (take_outbound inner calls s)
    unfolding take_outbound read_outbound
    take_outbound-Grown s v =
        let limit = remaining_outbound_capacity s.tcp in
        let (result, system) = calls.read (min buffer_size limit) s.system in
        let (bytes, file) = FileDescriptor.read limit result s.thread_data in
        file_read-Grown bytes file system s (quiet.read_quiet (min buffer_size limit) s.system) v

    give_inbound-Grown : (s : Socket) → Grown s → GrownAfter (give_inbound inner calls s)
    unfolding GrownAfter ValidAfter
    give_inbound-Grown s v =
        let (bytes, e) = v.more in
        record {
          valid = give_inbound-IsValid inner calls s v.valid;
          more = (bytes, give_inbound-delivered inner calls output pipe shut s v.valid ∙ e);
        }

    written_all-Grown :
        (left : List TcpSegment) (adapter : Outcome AdapterT) (s : Socket)
        → Grown s
        → GrownAfter (elim adapter [
          | threw a ↦
              threw (record s { tcp = record s.tcp { segments_out = left }; datagram_adapter = a })
          | returned a ↦
              returned
                (record s { tcp = record s.tcp { segments_out = left }; datagram_adapter = a })
        ])
    unfolding GrownAfter
    written_all-Grown left (threw a) s v =
        same-Grown s (record s { tcp = record s.tcp { segments_out = left }; datagram_adapter = a })
          refl refl v
    written_all-Grown left (returned a) s v =
        same-Grown s (record s { tcp = record s.tcp { segments_out = left }; datagram_adapter = a })
          refl refl v

    give_segments-Grown : (s : Socket) → Grown s → GrownAfter (give_segments inner calls s)
    unfolding give_segments
    give_segments-Grown s v =
        let (left, adapter) = give_loop inner calls s.tcp.segments_out s.datagram_adapter in
        written_all-Grown left adapter s v

    pub rules-Keeps : All (Keeps Grown) (rules inner calls around)
    unfolding rules add_rule GrownAfter
    rules-Keeps = (
      record { on_callback = receive_segment-Grown; on_cancel = λ s v. v },
      (
        record { on_callback = take_outbound-Grown; on_cancel = finish_outbound-Grown },
        (
          record { on_callback = give_inbound-Grown; on_cancel = λ s v. v },
          (record { on_callback = give_segments-Grown; on_cancel = λ s v. v }, tt),
        ),
      ),
    )
