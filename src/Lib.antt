-- ===== src/Lib.antt =====
-- The sponge network stack (lab/stanfordCS144/sponge/libsponge): a reliable byte stream over TCP
-- segments, the headers of TCP, IPv4, Ethernet and ARP, a network interface and an IP router.
--
-- The parts, from the bottom up, with paths below lab/stanfordCS144/sponge/libsponge:
--
-- - Words: the wrap-around arithmetic of `uint32_t` and of `uint64_t`/`size_t`. A machine word is a
--   natural number, and every sum or difference that can leave its range is taken modulo 2^32 or
--   2^64.
-- - WrappingIntegers (wrapping_integers.hh, wrapping_integers.cc): sequence numbers of 32 bits, and
--   their translation to and from absolute numbers of 64 bits.
-- - Buffer and BufferList (util/buffer.hh, util/buffer.cc): strings with a starting offset, and lists
--   of them. The shared storage is never written, so that a buffer is a value.
-- - ByteStream (byte_stream.hh, byte_stream.cc): a bounded queue of bytes between a writer and a
--   reader.
-- - StreamReassembler (stream_reassembler.hh, stream_reassembler.cc): substrings of a stream, in any
--   order and overlapping, put together and written to a ByteStream. StreamReassembler.OrderedMap is
--   what it uses of `std::map`. StreamReassembler.Known says which positions a reassembler has, and
--   StreamReassembler.Inserted, Complete and Progress follow them through a push.
-- - NetParser (util/parser.hh, util/parser.cc) and InternetChecksum (util/util.cc): integers in
--   network byte order, and the one's complement sum.
-- - TcpHeader and TcpSegment (tcp_helpers/tcp_header.cc, tcp_helpers/tcp_segment.cc).
-- - RetransmissionTimer and TcpSender (tcp_sender.hh, tcp_sender.cc): a stream cut into segments, sent
--   within the peer's window and sent again when the timer runs out.
-- - TcpReceiver (tcp_receiver.hh, tcp_receiver.cc): segments placed in the stream of a reassembler,
--   and the acknowledgment for them.
-- - TcpConnection (tcp_connection.hh, tcp_connection.cc): a sender and a receiver as one end of a
--   connection, and how it ends. TcpState (tcp_helpers/tcp_state.cc) names its states.
-- - Ipv4Header and Ipv4Datagram, EthernetHeader (with frames) and ArpMessage
--   (tcp_helpers/ipv4_header.cc, ipv4_datagram.cc, ethernet_header.cc, ethernet_frame.cc and
--   arp_message.cc).
-- - NetworkInterface (network_interface.hh, network_interface.cc): datagrams in frames, with a cache
--   of addresses. NetworkInterface.Waiting follows the datagrams that wait for an address. Base.Dictionary is what it uses of `std::unordered_map`.
-- - Router (router.hh, router.cc): datagrams passed on by the longest prefix.
-- - Adapter (tcp_helpers/fd_adapter.cc, tcp_over_ip.cc, tuntap_adapter.cc, lossy_fd_adapter.hh and
--   `FdAdapterConfig` of tcp_config.hh): segments over UDP datagrams, over Internet datagrams on a TUN
--   device, over Ethernet frames on a TAP device (with a NetworkInterface), and with losses. Its record
--   IsAdapter is what LossyFdAdapter uses of the adapter inside it, and each adapter fills it.
-- - BufferViewList (util/buffer.hh, util/buffer.cc), FileDescriptor (util/file_descriptor.hh,
--   file_descriptor.cc), Socket (util/socket.hh, socket.cc) and EventLoop (util/eventloop.hh,
--   eventloop.cc): what is written to a descriptor, the descriptor, what the methods of a socket do to
--   it, and callbacks for descriptors that are ready.
-- - Session: a TcpSender and a TcpReceiver with a network between them that loses, doubles and reorders
--   segments, as a step relation. It models no file of its own: each step is a method of one side, or
--   the arrival of a segment that was sent. Session.Cut says what a segment carries, Session.Sending,
--   Session.Filling, Session.Operations and Session.Written follow the sender, Session.Receiving and
--   Session.Arrival the receiver, Session.Delivery both.
-- - Link: two TcpConnections with such a network between them in both directions, as a step relation.
--   Link.Half is what holds of an end, Link.Methods and Link.Given that its methods keep it, Link.Growth
--   what an end may still expect of the other, Link.Ends all that an end does, Link.Delivery both ends.
-- - SpongeSocket (tcp_helpers/tcp_sponge_socket.hh, tcp_sponge_socket.cc): a TcpConnection between a
--   pipe to the application, which is a FileDescriptor, and an adapter, any that fills IsAdapter. The
--   callbacks that it adds to its EventLoop are functions of it. SpongeSocket.Loop has the rules,
--   `_tcp_loop` for a given number of rounds, and what `connect` and `listen_and_accept` do before they
--   start the thread; SpongeSocket.Inbound and SpongeSocket.Growing follow the rules, and
--   SpongeSocket.Delivery the loop.
-- - StreamCopy (../apps/bidirectional_stream_copy.cc): an EventLoop with four rules between the standard
--   input and output and a socket. StreamCopy.Moves is what a callback does to a stream, StreamCopy.Balance
--   what went through the descriptors, StreamCopy.Callbacks that the rules keep it, StreamCopy.Conservation
--   the loop. `copy_loop` runs for a given number of rounds, since the program may wait for ever.
--
-- How the code is modelled: an object is a record of its fields, and a method a function of the same
-- name from the record to the record (and to what the method returns). A method that throws returns
-- an option or an `Outcome`, with the state that the exception leaves. Queues and deques are lists,
-- front first; a byte is a number. Bytes, ports and the like are not bounded by their types, and
-- theorems that need a bound have it as a hypothesis. A comment above a definition names the code
-- where the name does not.
--
-- Loops over a queue are recursion on the list. Four loops run on fuel: `StreamReassembler.write_loop`
-- on one more than the stored entries and their bytes, each round of which takes an entry away,
-- shortens one or returns; `TcpSender.fill_loop` on one more than the window, each round of which but the last sends at least
-- one sequence number; `FileDescriptor.write_loop` on one more than the size of the buffer, each round
-- of which but the last writes a byte; `InternetChecksum.fold_loop` on 2, since two folds bring a sum of 32 bits
-- below 2^16.
--
-- Outside: `random_device` gives the initial sequence number and is an argument of the constructors;
-- the generator of LossyFdAdapter, `poll` and `writev` are parameters, as are the world that the
-- callbacks of an EventLoop work on and what the pipe and the adapter's descriptor of a TCPSpongeSocket
-- do, its clock and the flag with which its owner ends the loop; `read` of a descriptor and what sockets and devices give are arguments. An `Address` is its number
-- and its port. Not modelled: output to streams and strings, names of hosts, the calls that open and
-- configure sockets, tunnels and descriptors, what TCPSpongeSocket does with its thread once it is
-- connected (`_tcp_main`, `wait_until_closed` and the destructor, which start and join it), the other
-- programs in apps, and the tests.
pub mod Base
pub mod Words
pub mod WrappingIntegers
pub mod Buffer
pub mod BufferList
pub mod ByteStream
pub mod StreamReassembler
pub mod NetParser
pub mod InternetChecksum
pub mod TcpHeader
pub mod TcpSegment
pub mod RetransmissionTimer
pub mod TcpSender
pub mod TcpReceiver
pub mod TcpConnection
pub mod TcpState
pub mod Ipv4Header
pub mod Ipv4Datagram
pub mod EthernetHeader
pub mod ArpMessage
pub mod NetworkInterface
pub mod Router
pub mod Adapter
pub mod BufferViewList
pub mod FileDescriptor
pub mod EventLoop
pub mod Session
pub mod SpongeSocket
pub mod Link
pub mod StreamCopy
pub mod Socket
