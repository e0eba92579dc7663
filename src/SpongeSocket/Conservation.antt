-- ===== src/SpongeSocket/Conservation.antt =====
-- That no byte is lost or doubled between the pipe and the connection.
use computer_network.Base.{
  ℕ, ◌^◌, ◌≤◌, ◌<◌, ◌≡◌, refl, ap, ◌∙◌, false, not, ◌||◌, some, List, ◌++◌, append_assoc, length,
  take, drop, take-append-drop, length-take, min, ◌==◌, if◌then◌else◌, if_holds, Outcome, returned,
  threw, state_after, arith,
}
use computer_network.ByteStream.{ByteStream}
use computer_network.ByteStream
use computer_network.ByteStream.Validity.{
  IsValid, held, write_count_lem, remaining_capacity_lem, pop_output_lem, peek_output_lem,
}
use computer_network.FileDescriptor.{FdWrapper, buffer_size, write}
use computer_network.BufferViewList.{of_view}
use computer_network.FileDescriptor.Partial.{
  read_within, take-take, IsPipe, Once, failed, took, write-Once,
}
use computer_network.TcpConnection.{TcpConnection}
use computer_network.TcpConnection
use computer_network.Adapter.{IsAdapter}
use computer_network.SpongeSocket.{
  SpongeSocket, Calls, remaining_outbound_capacity, inbound_stream, with_inbound, take_outbound,
  read_outbound, accept_outbound, finish_outbound, give_inbound, pop_inbound, finish_inbound,
}

-- The connection takes as many bytes as there is room for.
write-room :
    (bytes : List ℕ) (c : TcpConnection)
    → IsValid c.sender.stream
    → length bytes ≤ remaining_outbound_capacity c
    → (TcpConnection.write bytes c).0 ≡ length bytes
unfolding TcpConnection.write remaining_outbound_capacity
write-room bytes c v h =
    ground
      (arith, write_count_lem bytes c.sender.stream v, remaining_capacity_lem c.sender.stream v)

module _ {AdapterT Input System : Type 0} (inner : IsAdapter AdapterT Input)
    (calls : Calls Input System) where
  accept_outbound-room :
      (bytes : List ℕ) (s : SpongeSocket AdapterT System)
      → IsValid s.tcp.sender.stream
      → length bytes ≤ remaining_outbound_capacity s.tcp
      → accept_outbound inner calls bytes s ≡ (
          let s' = record s { tcp = (TcpConnection.write bytes s.tcp).1 } in
          returned (if s.thread_data.eof then finish_outbound inner calls s' else s'))
  unfolding accept_outbound
  accept_outbound-room bytes s v h =
      let all : not ((TcpConnection.write bytes s.tcp).0 == length bytes) ≡ false =
        ground (arith, write-room bytes s.tcp v h) in
      rw (all) refl

  take_outbound-accept_outbound :
      (s : SpongeSocket AdapterT System) (bytes : List ℕ) (system : System)
      → calls.read (min buffer_size (remaining_outbound_capacity s.tcp)) s.system
        ≡ (some bytes, system)
      → length bytes ≤ min buffer_size (remaining_outbound_capacity s.tcp)
      → (f : FdWrapper) × (take_outbound inner calls s
          ≡ accept_outbound inner calls bytes (record s { thread_data = f; system = system }))
  unfolding take_outbound read_outbound
  take_outbound-accept_outbound s bytes system e h =
      let limit = remaining_outbound_capacity s.tcp in
      let (f, ok) = read_within limit bytes s.thread_data h in
      let accept : List ℕ × Outcome FdWrapper → Outcome (SpongeSocket AdapterT System) = λ r.
        elim r.1 [
          | threw f' ↦ threw (record s { thread_data = f'; system = system })
          | returned f' ↦
              accept_outbound inner calls r.0 (record s { thread_data = f'; system = system })
        ] in
      (f, ap (λ p. read_outbound inner calls limit p s) e ∙ ap accept ok)

  -- The callback of rule 2 does not throw, and the connection takes all that the pipe gives, when the
  -- outbound stream is valid and the pipe gives no more than it is asked for.
  pub take_outbound-returned :
      (s : SpongeSocket AdapterT System) (bytes : List ℕ) (system : System)
      → IsValid s.tcp.sender.stream
      → calls.read (min buffer_size (remaining_outbound_capacity s.tcp)) s.system
        ≡ (some bytes, system)
      → length bytes ≤ min buffer_size (remaining_outbound_capacity s.tcp)
      → (s' : SpongeSocket AdapterT System) × (take_outbound inner calls s ≡ returned s')
        × ((TcpConnection.write bytes s.tcp).0 ≡ length bytes)
  take_outbound-returned s bytes system v e h =
      let (f, accepted) = take_outbound-accept_outbound s bytes system e h in
      let fits : length bytes ≤ remaining_outbound_capacity s.tcp = omega (arith, h) in
      (
        _,
        accepted
            ∙ accept_outbound-room bytes (record s { thread_data = f; system = system }) v fits,
        write-room bytes s.tcp v fits,
      )

module _ {AdapterT Input System : Type 0} (inner : IsAdapter AdapterT Input)
    (calls : Calls Input System) (output : System → List ℕ) (pipe : IsPipe output calls.writev)
    (shut : (s : System) → output (calls.shutdown s).1 ≡ output s) where
  -- The bytes for the application: those in the pipe, and those that the inbound stream holds.
  unfoldable pub delivered : SpongeSocket AdapterT System → List ℕ
  delivered s = output s.system ++ held (inbound_stream s.tcp)

  finish_inbound-delivered :
      (s : SpongeSocket AdapterT System)
      → delivered (state_after (finish_inbound inner calls s)) ≡ delivered s
  unfolding finish_inbound delivered
  finish_inbound-delivered s =
      let inbound = inbound_stream s.tcp in
      let P =
        λ (o : Outcome (SpongeSocket AdapterT System)). delivered (state_after o) ≡ delivered s in
      let same : output (calls.shutdown s.system).1 ++ held inbound ≡ delivered s =
        ap (λ l. l ++ held inbound) (shut s.system) in
      if_holds P (not (ByteStream.eof inbound || inbound.error)) (λ _. refl)
        (λ _. if_holds P (not (calls.shutdown s.system).0) (λ _. same) (λ _. same))

  pop_inbound-delivered :
      (n : ℕ) (s : SpongeSocket AdapterT System)
      → IsValid (inbound_stream s.tcp)
      → delivered (state_after (pop_inbound inner calls n s))
        ≡ output s.system ++ drop n (held (inbound_stream s.tcp))
  unfolding pop_inbound inbound_stream with_inbound delivered
  pop_inbound-delivered n s v =
      let (inbound, e, popped) = pop_output_lem n (inbound_stream s.tcp) v in
      rw (pop_inbound, e)
        (finish_inbound-delivered (record s { tcp = with_inbound inbound s.tcp })
          ∙ ap (◌++◌ (output s.system)) popped.dropped)

  give_inbound-Once :
      (s : SpongeSocket AdapterT System)
      → IsValid (inbound_stream s.tcp)
      → (let inbound = inbound_stream s.tcp in
          let bytes = ByteStream.peek_output (min 65536 inbound.buffer_size) inbound in
          Once output bytes s.system
            (write calls.writev (of_view bytes) false s.thread_data s.system))
      → delivered (state_after (give_inbound inner calls s)) ≡ delivered s
  unfolding give_inbound delivered
  give_inbound-Once s v (failed e same) =
      rw (give_inbound, e) (ap (λ l. l ++ held (inbound_stream s.tcp)) same)
  give_inbound-Once s v (took n e less out) =
      let inbound = inbound_stream s.tcp in
      let amount = min 65536 inbound.buffer_size in
      let peeked = peek_output_lem amount inbound v in
      let n_less : n ≤ amount =
        omega (arith, less, ap length peeked, length-take amount (held inbound)) in
      let prefix : take n (ByteStream.peek_output amount inbound) ≡ take n (held inbound) =
        ap (take n) peeked ∙ take-take n amount (held inbound) n_less in
      let w =
        write calls.writev (of_view (ByteStream.peek_output amount inbound)) false s.thread_data
          s.system in
      rw (give_inbound, e)
        (pop_inbound-delivered n (record s { thread_data = w.file; system = w.system }) v
          ∙ ap (λ l. l ++ drop n (held inbound)) (out ∙ ap (◌++◌ (output s.system)) prefix)
          ∙ append_assoc (output s.system) (take n (held inbound)) (drop n (held inbound))
          ∙ ap (◌++◌ (output s.system)) (take-append-drop n (held inbound)))

  -- The callback of rule 3 neither loses nor doubles a byte for the application: those that the pipe has
  -- taken, followed by those that the inbound stream holds, are the same before and after, also where it
  -- throws, and however much the pipe takes, when the inbound stream is valid.
  pub give_inbound-delivered :
      (s : SpongeSocket AdapterT System)
      → IsValid (inbound_stream s.tcp)
      → delivered (state_after (give_inbound inner calls s)) ≡ delivered s
  unfolding give_inbound delivered
  give_inbound-delivered s v =
      let inbound = inbound_stream s.tcp in
      let bytes = ByteStream.peek_output (min 65536 inbound.buffer_size) inbound in
      let small : length bytes < 2 ^ 63 = omega (
        arith,
        ap length (peek_output_lem (min 65536 inbound.buffer_size) inbound v),
        length-take (min 65536 inbound.buffer_size) (held inbound),
      ) in
      give_inbound-Once s v (write-Once output calls.writev pipe bytes s.thread_data s.system small)
