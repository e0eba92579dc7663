-- ===== src/Socket.antt =====
-- libsponge/util/socket.hh and socket.cc: what the methods of the socket classes do to the descriptor, from
-- what the system calls give. Opening, binding and connecting are system calls alone, as are the options.
use computer_network.Base.{
  ℕ, Bool, not, Option, none, some, List, length, ltb, ◌==◌, if◌then◌else◌, Outcome, returned,
  threw,
}
use computer_network.FileDescriptor.{FdWrapper, register_read, register_write}
use computer_network.Adapter.{Address}

-- `SHUT_RD`, `SHUT_WR` and `SHUT_RDWR`, or another number.
pub data How : Type 0 where
  shut_rd shut_wr shut_rdwr invalid : How

after_shutdown : How → FdWrapper → Outcome FdWrapper
after_shutdown shut_rd f = returned (register_read f)
after_shutdown shut_wr f = returned (register_write f)
after_shutdown shut_rdwr f = returned (register_write (register_read f))
after_shutdown invalid f = threw f

-- Whether `::shutdown` succeeded comes first.
unfoldable pub shutdown : Bool → How → FdWrapper → Outcome FdWrapper
unfolding after_shutdown
shutdown ok how f = if ok then after_shutdown how f else threw f

-- `UDPSocket::recv`: `result` is the datagram that `::recvfrom` took off, with its sender; of a datagram
-- that is longer than `mtu` the call gives the whole length.
unfoldable pub recv :
    ℕ → Option (Address × List ℕ) → FdWrapper → Option (Address × List ℕ) × Outcome FdWrapper
unfolding register_read
recv mtu none f = (none, threw f)
recv mtu (some (source_address, datagram)) f =
    if ltb mtu (length datagram)
    then (none, threw f)
    else (some (source_address, datagram), returned (register_read f))

-- `sendmsg_helper`, from what `::sendmsg` gives for a payload of so many bytes, and `sendto` and `send`.
unfoldable pub send : Option ℕ → ℕ → FdWrapper → Outcome FdWrapper
unfolding register_write
send none size f = threw f
send (some bytes_sent) size f =
    if not (bytes_sent == size) then threw f else returned (register_write f)

-- `TCPSocket::accept` counts as a read, also where `::accept` fails.
unfoldable pub accept : Bool → FdWrapper → Outcome FdWrapper
unfolding register_read
accept ok f = if ok then returned (register_read f) else threw (register_read f)
