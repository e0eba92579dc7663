-- ===== src/SpongeSocket/Delivery.antt =====
-- Over the whole `_tcp_loop`: what the application is given only grows.
use computer_network.Base.{
  ℕ, zero, suc, ◌≡◌, refl, sym, ap, Bool, not, ◌||◌, List, [], ◌++◌, append-nil, if_holds, Outcome,
  returned, threw, state_after, All,
}
use computer_network.Words.{sub64}
use computer_network.ByteStream.Validity.{IsValid}
use computer_network.FileDescriptor.Partial.{IsPipe}
use computer_network.TcpConnection
use computer_network.TcpConnection.Inbound.{tick-Appends}
use computer_network.Adapter.{IsAdapter}
use computer_network.EventLoop.{Rule, Result, wait_next_event, Event}
use computer_network.EventLoop.Keeping.{Keeps, wait_next_event-Keeps}
use computer_network.SpongeSocket.{SpongeSocket, Calls, inbound_stream, tick_both}
use computer_network.SpongeSocket.Conservation.{delivered}
use computer_network.SpongeSocket.Loop.{
  Surroundings, rules, pass_time, go_on, is_exit, after_event, rounds, tcp_loop, tcp_tick_ms,
}
use computer_network.SpongeSocket.Inbound.{IsQuiet}
use computer_network.SpongeSocket.Growing.{Grown, same-Grown, step-Grown, rules-Keeps}

module _ {AdapterT Input System : Type 0} (inner : IsAdapter AdapterT Input)
    (calls : Calls Input System) (output : System → List ℕ) (pipe : IsPipe output calls.writev)
    (shut : (s : System) → output (calls.shutdown s).1 ≡ output s)
    (around : Surroundings AdapterT System) (quiet : IsQuiet calls output around) where
  module _ (given : List ℕ) where
    abbrev Socket : Type 0
    Socket = SpongeSocket AdapterT System

    abbrev Growing : Socket → Type 0
    Growing = Grown inner calls output pipe shut given

    abbrev GrowingAfter : Outcome Socket → Type 0
    GrowingAfter o = Growing (state_after o)

    ticked-Grown :
        (adapter : Outcome AdapterT) (s : Socket)
        → Growing s
        → GrowingAfter (elim adapter [
          | threw a ↦ threw (record s { datagram_adapter = a })
          | returned a ↦ returned (record s { datagram_adapter = a })
        ])
    ticked-Grown (threw a) s v =
        same-Grown inner calls output pipe shut given s (record s { datagram_adapter = a }) refl
          refl v
    ticked-Grown (returned a) s v =
        same-Grown inner calls output pipe shut given s (record s { datagram_adapter = a }) refl
          refl v

    tick_both-Grown : (ms : ℕ) (s : Socket) → Growing s → GrowingAfter (tick_both inner calls ms s)
    unfolding tick_both inbound_stream
    tick_both-Grown ms s v =
        let s' : Socket = record s { tcp = TcpConnection.tick ms s.tcp } in
        if_holds GrowingAfter (not s.tcp.active) (λ _. v)
          (λ _.
            ticked-Grown (inner.tick ms s.datagram_adapter) s'
              (step-Grown inner calls output pipe shut given s s' refl (tick-Appends ms s.tcp) v))

    pass_time-Grown :
        (base_time : ℕ) (s : Socket)
        → Growing s
        → GrowingAfter (pass_time inner calls around base_time s).1
    unfolding pass_time
    pass_time-Grown base_time s v =
        let (next_time, system) = around.timestamp_ms s.system in
        let s' : Socket = record s { system = system } in
        if_holds {A = ℕ × Outcome Socket} (λ r. GrowingAfter r.1) (not s.tcp.active) (λ _. v)
          (λ _. tick_both-Grown (sub64 next_time base_time) s' (
            same-Grown inner calls output pipe shut given s s' (quiet.clock_quiet s.system) refl v))

    polled :
        (polls : List (Rule Socket × Bool)) (t : ℕ) (s : Socket)
        → Growing s
        → Growing (around.poll polls t s).1
    polled polls t s v =
        same-Grown inner calls output pipe shut given s (around.poll polls t s).1
          (quiet.poll_quiet polls t s) (ap (λ c. c.receiver) (quiet.same_tcp polls t s)) v

    go_on-Grown :
        (again : ℕ → Socket → Event Socket) (left : List (Rule Socket)) (base_time : ℕ)
        (o : Outcome Socket)
        → ((base_time' : ℕ) (s : Socket) → Growing s → GrowingAfter (again base_time' s).world)
        → GrowingAfter o
        → GrowingAfter (go_on inner calls around again left (base_time, o)).world
    unfolding go_on
    go_on-Grown again left base_time (threw s) h v = v
    go_on-Grown again left base_time (returned s) h v = h base_time s v

    after_event-Grown :
        (again : ℕ → Socket → Event Socket) (base_time : ℕ) (ret : Result)
        (left : List (Rule Socket)) (o : Outcome Socket)
        → ((base_time' : ℕ) (s : Socket) → Growing s → GrowingAfter (again base_time' s).world)
        → GrowingAfter o
        → GrowingAfter (after_event inner calls around again base_time ret left o).world
    unfolding after_event
    after_event-Grown again base_time ret left (threw s) h v = v
    after_event-Grown again base_time ret left (returned s) h v =
        let (base_time', o) = pass_time inner calls around base_time s in
        if_holds {A = Event Socket} (λ e. GrowingAfter e.world)
          (is_exit inner calls around ret || around.is_aborted s.system) (λ _. v)
          (λ _. go_on-Grown again left base_time' o h (pass_time-Grown base_time s v))

    rounds-Grown :
        (condition : Socket → Bool) (n : ℕ) (left : List (Rule Socket)) (base_time : ℕ) (s : Socket)
        → All (Keeps Growing) left
        → Growing s
        → GrowingAfter (rounds inner calls around condition n left base_time s).world
    unfolding rounds
    rounds-Grown condition zero left base_time s k v = v
    rounds-Grown condition (suc n) left base_time s k v =
        let (v', k') = wait_next_event-Keeps Growing around.poll polled tcp_tick_ms left s k v in
        let e = wait_next_event around.poll tcp_tick_ms left s in
        if_holds {A = Event Socket} (λ r. GrowingAfter r.world) (not (condition s)) (λ _. v)
          (λ _.
            after_event-Grown
              (λ base_time' s'. rounds inner calls around condition n e.rules base_time' s')
              base_time e.result e.rules e.world
              (λ base_time' s' q. rounds-Grown condition n e.rules base_time' s' k' q) v')

    tcp_loop-Grown :
        (condition : Socket → Bool) (n : ℕ) (s : Socket)
        → Growing s
        → GrowingAfter (tcp_loop inner calls around condition n (rules inner calls around) s).world
    unfolding tcp_loop
    tcp_loop-Grown condition n s v =
        let (base_time, system) = around.timestamp_ms s.system in
        let s' : Socket = record s { system = system } in
        rounds-Grown condition n (rules inner calls around) base_time s'
          (rules-Keeps inner calls output pipe shut given around quiet)
          (same-Grown inner calls output pipe shut given s s' (quiet.clock_quiet s.system) refl v)

  -- However many rounds `_tcp_loop` runs, whatever arrives, is ready and is written when, and where it
  -- throws: what the pipe to the application had taken, followed by what the inbound stream held, is the
  -- beginning of what the pipe has taken and the inbound stream holds afterwards, when the inbound stream
  -- is valid, reads, the clock and `poll` take nothing for the pipe, and `poll` leaves the connection
  -- alone.
  pub tcp_loop-delivered :
      (condition : SpongeSocket AdapterT System → Bool) (n : ℕ) (s : SpongeSocket AdapterT System)
      → IsValid (inbound_stream s.tcp)
      → (bytes : List ℕ) × (delivered inner calls output pipe shut (
            state_after
              (tcp_loop inner calls around condition n (rules inner calls around) s).world)
          ≡ delivered inner calls output pipe shut s ++ bytes)
  tcp_loop-delivered condition n s v =
      let given = delivered inner calls output pipe shut s in
      let after =
        tcp_loop-Grown given condition n s
          (record { valid = v; more = ([], sym (append-nil given)) }) in
      after.more
