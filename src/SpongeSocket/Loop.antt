-- ===== src/SpongeSocket/Loop.antt =====
-- libsponge/tcp_helpers/tcp_sponge_socket.cc: the rules, `_tcp_loop`, and what `connect` and
-- `listen_and_accept` do before they start the thread. The loop runs for at most so many rounds, since
-- the program may wait for ever.
use computer_network.Base.{
  ℕ, zero, suc, Bool, true, false, not, ◌||◌, Option, none, some, List, [], if◌then◌else◌, Outcome,
  returned, threw,
}
use computer_network.Words.{sub64}
use computer_network.WrappingIntegers.{WrappingInt32}
use computer_network.FileDescriptor.{FdWrapper}
use computer_network.TcpConnection.{TcpConnection, TcpConfig}
use computer_network.TcpConnection
use computer_network.TcpState.{State, of_state, state}
use computer_network.TcpState
use computer_network.Adapter.{IsAdapter, FdAdapterConfig}
use computer_network.EventLoop.{
  Rule, Event, Polled, Result, success, exit, timeout, in_direction, out_direction, add_rule,
  wait_next_event,
}
use computer_network.SpongeSocket.{
  SpongeSocket, Calls, receive_segment, take_outbound, wants_outbound, finish_outbound,
  give_inbound, wants_inbound, give_segments, wants_segments_out, tick_both,
}

-- What the loop finds around it: the descriptor of the adapter, `poll`, the clock in milliseconds, and
-- the flag `_abort`, which the owner's thread sets.
pub record Surroundings (AdapterT System : Type 0) : Type 0 where
  pub adapter_fd : SpongeSocket AdapterT System → FdWrapper
  pub poll :
      List (Rule (SpongeSocket AdapterT System) × Bool)
      → ℕ
      → SpongeSocket AdapterT System
      → Polled × SpongeSocket AdapterT System
  pub timestamp_ms : System → ℕ × System
  pub is_aborted : System → Bool

-- A socket without a connection, or with one that it was given before.
pub record Idle (AdapterT System : Type 0) : Type 0 where
  pub thread_data : FdWrapper
  pub datagram_adapter : AdapterT
  pub tcp : Option TcpConnection
  pub system : System

abbrev pub tcp_tick_ms : ℕ
tcp_tick_ms = 10

unfoldable pub is_in : State → TcpConnection → Bool
is_in s c = TcpState.equal (state c) (of_state s)

module _ {AdapterT Input System : Type 0} (inner : IsAdapter AdapterT Input)
    (calls : Calls Input System) (around : Surroundings AdapterT System) where
  -- The rules that `_initialize_TCP` adds.
  unfoldable pub rules : List (Rule (SpongeSocket AdapterT System))
  unfolding receive_segment take_outbound wants_outbound finish_outbound give_inbound wants_inbound
      give_segments wants_segments_out
  rules =
      let rule_1 : Rule (SpongeSocket AdapterT System) = record {
        fd = around.adapter_fd;
        direction = in_direction;
        callback = receive_segment inner calls;
        interest = λ s. s.tcp.active;
        cancel = λ s. s;
      } in
      let rule_2 : Rule (SpongeSocket AdapterT System) = record {
        fd = λ s. s.thread_data;
        direction = in_direction;
        callback = take_outbound inner calls;
        interest = wants_outbound inner calls;
        cancel = finish_outbound inner calls;
      } in
      let rule_3 : Rule (SpongeSocket AdapterT System) = record {
        fd = λ s. s.thread_data;
        direction = out_direction;
        callback = give_inbound inner calls;
        interest = wants_inbound inner calls;
        cancel = λ s. s;
      } in
      let rule_4 : Rule (SpongeSocket AdapterT System) = record {
        fd = around.adapter_fd;
        direction = out_direction;
        callback = give_segments inner calls;
        interest = wants_segments_out inner calls;
        cancel = λ s. s;
      } in
      add_rule rule_4 (add_rule rule_3 (add_rule rule_2 (add_rule rule_1 [])))

  -- The ticks after an event, and `base_time`.
  unfoldable pub pass_time :
      ℕ → SpongeSocket AdapterT System → ℕ × Outcome (SpongeSocket AdapterT System)
  unfolding tick_both
  pass_time base_time s =
      let (next_time, system) = around.timestamp_ms s.system in
      if not s.tcp.active then (base_time, returned s) else (
        next_time,
        tick_both inner calls (sub64 next_time base_time) (record s { system = system }),
      )

  abbrev pub stopped :
      List (Rule (SpongeSocket AdapterT System))
      → Outcome (SpongeSocket AdapterT System)
      → Event (SpongeSocket AdapterT System)
  stopped left s = record { result = success; rules = left; world = s }

  -- The next round, from what `pass_time` left.
  unfoldable pub go_on :
      (ℕ → SpongeSocket AdapterT System → Event (SpongeSocket AdapterT System))
      → List (Rule (SpongeSocket AdapterT System))
      → ℕ × Outcome (SpongeSocket AdapterT System)
      → Event (SpongeSocket AdapterT System)
  go_on again left (base_time, threw s) = stopped left (threw s)
  go_on again left (base_time, returned s) = again base_time s

  unfoldable pub is_exit : Result → Bool
  is_exit success = false
  is_exit timeout = false
  is_exit exit = true

  -- After `wait_next_event`.
  unfoldable pub after_event :
      (ℕ → SpongeSocket AdapterT System → Event (SpongeSocket AdapterT System))
      → ℕ
      → Result
      → List (Rule (SpongeSocket AdapterT System))
      → Outcome (SpongeSocket AdapterT System)
      → Event (SpongeSocket AdapterT System)
  unfolding pass_time go_on is_exit
  after_event again base_time ret left (threw s) = stopped left (threw s)
  after_event again base_time ret left (returned s) =
      if is_exit ret || around.is_aborted s.system
      then stopped left (returned s)
      else go_on again left (pass_time base_time s)

  unfoldable pub rounds :
      (SpongeSocket AdapterT System → Bool)
      → ℕ
      → List (Rule (SpongeSocket AdapterT System))
      → ℕ
      → SpongeSocket AdapterT System
      → Event (SpongeSocket AdapterT System)
  unfolding after_event
  rounds condition zero left base_time s = stopped left (returned s)
  rounds condition (suc n) left base_time s =
      let e = wait_next_event around.poll tcp_tick_ms left s in
      let next =
        after_event (λ base_time' s'. rounds condition n e.rules base_time' s') base_time e.result
          e.rules e.world in
      if not (condition s) then stopped left (returned s) else next

  unfoldable pub tcp_loop :
      (SpongeSocket AdapterT System → Bool)
      → ℕ
      → List (Rule (SpongeSocket AdapterT System))
      → SpongeSocket AdapterT System
      → Event (SpongeSocket AdapterT System)
  unfolding rounds
  tcp_loop condition n left s =
      let (base_time, system) = around.timestamp_ms s.system in
      rounds condition n left base_time (record s { system = system })

  -- The part of `_initialize_TCP` before the rules, with the adapter configured.
  unfoldable pub initialize_tcp :
      TcpConfig
      → WrappingInt32
      → FdAdapterConfig
      → Idle AdapterT System
      → SpongeSocket AdapterT System
  initialize_tcp config random c_ad i = record {
    thread_data = i.thread_data;
    datagram_adapter = inner.set_config c_ad i.datagram_adapter;
    tcp = TcpConnection.init config random;
    inbound_shutdown = false;
    outbound_shutdown = false;
    fully_acked = false;
    system = i.system;
  }

  -- Nothing is returned where there is a connection already, which throws.
  unfoldable pub connect_from :
      Option TcpConnection
      → ℕ
      → SpongeSocket AdapterT System
      → Option (Event (SpongeSocket AdapterT System))
  unfolding rules tcp_loop is_in
  connect_from (some tcp) n s = none
  connect_from none n s =
      let s' = record s { tcp = TcpConnection.connect s.tcp } in
      some (
        if not (is_in State.syn_sent s'.tcp)
        then stopped rules (threw s')
        else tcp_loop (λ t. is_in State.syn_sent t.tcp) n rules s')

  unfoldable pub connect :
      ℕ
      → TcpConfig
      → WrappingInt32
      → FdAdapterConfig
      → Idle AdapterT System
      → Option (Event (SpongeSocket AdapterT System))
  unfolding connect_from initialize_tcp
  connect n c_tcp random c_ad i = connect_from i.tcp n (initialize_tcp c_tcp random c_ad i)

  unfoldable pub listen_from :
      Option TcpConnection
      → ℕ
      → SpongeSocket AdapterT System
      → Option (Event (SpongeSocket AdapterT System))
  unfolding rules tcp_loop is_in
  listen_from (some tcp) n s = none
  listen_from none n s =
      let waits = λ (t : SpongeSocket AdapterT System).
        is_in State.listen t.tcp || is_in State.syn_rcvd t.tcp || is_in State.syn_sent t.tcp in
      some (
        tcp_loop waits n rules
          (record s { datagram_adapter = inner.set_listening true s.datagram_adapter }))

  unfoldable pub listen_and_accept :
      ℕ
      → TcpConfig
      → WrappingInt32
      → FdAdapterConfig
      → Idle AdapterT System
      → Option (Event (SpongeSocket AdapterT System))
  unfolding listen_from initialize_tcp
  listen_and_accept n c_tcp random c_ad i = listen_from i.tcp n (initialize_tcp c_tcp random c_ad i)
