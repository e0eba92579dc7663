-- ===== src/SpongeSocket/Runs.antt =====
-- A socket over UDP, with a pipe that takes two bytes at a time and gives three.
use computer_network.Base.{
  ℕ, ◌≡◌, ◌≤◌, refl, ap, true, false, some, List, [], ◌∷◌, ◌++◌, length, take, min, returned,
  state_after, arith,
}
use mathlib.Core.Option.{some-injective, some-ne-none}
use computer_network.ByteStream
use computer_network.ByteStream.Validity.{IsValid, init-IsValid, write-IsValid}
use computer_network.BufferViewList.Contents.{joined}
use computer_network.FileDescriptor.{Writev}
use computer_network.FileDescriptor.Partial.{IsPipe}
use computer_network.FileDescriptor
use computer_network.Words.{sub64}
use computer_network.TcpSender
use computer_network.TcpConnection.{TcpConnection, default_config}
use computer_network.TcpConnection
use computer_network.Adapter.Udp.{TcpOverUdpSocketAdapter, ReceivedDatagram}
use computer_network.Adapter.Udp
use computer_network.SpongeSocket.{
  SpongeSocket, Calls, with_inbound, inbound_stream, remaining_outbound_capacity, take_outbound,
  give_inbound,
}
use computer_network.EventLoop.{Event, some_ready}
use computer_network.SpongeSocket.Loop.{Surroundings, rules, tcp_loop}
use computer_network.SpongeSocket.Inbound.{IsQuiet}
use computer_network.SpongeSocket.Delivery.{tcp_loop-delivered}
use computer_network.SpongeSocket.Conservation.{
  delivered, take_outbound-returned, give_inbound-delivered,
}

abbrev two_at_a_time : Writev (List ℕ)
two_at_a_time views taken = (
  some (min 2 (length (joined views))),
  taken ++ take (min 2 (length (joined views))) (joined views),
)

abbrev hey : List ℕ
hey = 104 ∷ 101 ∷ 121 ∷ []

-- The third component is what the network has for the adapter.
abbrev calls : ReceivedDatagram → Calls ReceivedDatagram (List ℕ)
calls datagram = record {
  recv = λ taken. (datagram, taken);
  read = λ n taken. (some hey, taken);
  writev = two_at_a_time;
  shutdown = λ taken. (true, taken);
}

two_at_a_time-IsPipe : IsPipe (λ taken. taken) two_at_a_time
two_at_a_time-IsPipe = record {
  fails = λ views taken e. absurd (some-ne-none _ e);
  takes = λ views taken n e.
      let q = some-injective (min 2 (length (joined views))) n e in
      (omega (arith, q), ap (λ k. taken ++ take k (joined views)) q);
}

abbrev fresh : TcpConnection
fresh = TcpConnection.init default_config (record { raw_value = 77 })

-- With "hey" in the inbound stream.
abbrev socket : SpongeSocket TcpOverUdpSocketAdapter (List ℕ)
socket = record {
  thread_data = FileDescriptor.init 3;
  datagram_adapter = Udp.init;
  tcp = with_inbound (ByteStream.write hey (ByteStream.init 10)) fresh;
  inbound_shutdown = false;
  outbound_shutdown = false;
  fully_acked = false;
  system = [];
}

abbrev from_peer : ReceivedDatagram
from_peer = record {
  source_address = record { ipv4_numeric = 0x0a00_0001; port = 80 };
  payload = [];
}

sender-IsValid : IsValid socket.tcp.sender.stream
unfolding with_inbound TcpConnection.init TcpSender.init
sender-IsValid = init-IsValid 64000 (omega arith)

room : length hey ≤ min FileDescriptor.buffer_size (remaining_outbound_capacity socket.tcp)
unfolding remaining_outbound_capacity with_inbound TcpConnection.init TcpSender.init ByteStream.init
    ByteStream.remaining_capacity sub64
room = omega arith

inbound-IsValid : IsValid (inbound_stream socket.tcp)
unfolding with_inbound inbound_stream
inbound-IsValid = write-IsValid hey (ByteStream.init 10) (init-IsValid 10 (omega arith))

take_outbound-returned_example :
    (s' : SpongeSocket TcpOverUdpSocketAdapter (List ℕ)) × (take_outbound Udp.adapter
        (calls from_peer)
        socket
      ≡ returned s')
    × ((TcpConnection.write hey socket.tcp).0 ≡ length hey)
take_outbound-returned_example =
    take_outbound-returned Udp.adapter (calls from_peer) socket hey [] sender-IsValid refl room

give_inbound-delivered_example :
    delivered Udp.adapter
      (calls from_peer)
      (λ taken. taken)
      two_at_a_time-IsPipe
      (λ taken. refl)
      (state_after (give_inbound Udp.adapter (calls from_peer) socket))
    ≡ delivered Udp.adapter
        (calls from_peer)
        (λ taken. taken)
        two_at_a_time-IsPipe
        (λ taken. refl)
        socket
give_inbound-delivered_example =
    give_inbound-delivered Udp.adapter (calls from_peer) (λ taken. taken) two_at_a_time-IsPipe
      (λ taken. refl) socket inbound-IsValid

-- A round in which the pipe takes some bytes, over and over.
abbrev surroundings : Surroundings TcpOverUdpSocketAdapter (List ℕ)
surroundings = record {
  adapter_fd = λ s. FileDescriptor.init 4;
  poll = λ polls t s. (
    some_ready (λ i. record {
      pollin = false;
      pollout = true;
      pollerr = false;
      pollnval = false;
      pollhup = false;
    }),
    s,
  );
  timestamp_ms = λ taken. (10, taken);
  is_aborted = λ taken. false;
}

surroundings-IsQuiet : IsQuiet (calls from_peer) (λ taken. taken) surroundings
surroundings-IsQuiet = record {
  recv_quiet = λ s. refl;
  read_quiet = λ n s. refl;
  clock_quiet = λ s. refl;
  poll_quiet = λ polls t s. refl;
  same_tcp = λ polls t s. refl;
}

abbrev loop_for : ℕ → Event (SpongeSocket TcpOverUdpSocketAdapter (List ℕ))
loop_for n =
    tcp_loop Udp.adapter (calls from_peer) surroundings (λ s. true) n
      (rules Udp.adapter (calls from_peer) surroundings) socket

tcp_loop-delivered_example :
    (bytes : List ℕ) × (delivered Udp.adapter
        (calls from_peer)
        (λ taken. taken)
        two_at_a_time-IsPipe
        (λ s. refl)
        (state_after (loop_for 2).world)
      ≡ delivered Udp.adapter
          (calls from_peer)
          (λ taken. taken)
          two_at_a_time-IsPipe
          (λ s. refl)
          socket
        ++ bytes)
tcp_loop-delivered_example =
    tcp_loop-delivered Udp.adapter (calls from_peer) (λ taken. taken) two_at_a_time-IsPipe
      (λ s. refl) surroundings surroundings-IsQuiet (λ s. true) 2 socket inbound-IsValid
