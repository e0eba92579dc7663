-- ===== src/Link.antt =====
-- Two connections (libsponge/tcp_connection.cc) with a network between them that loses segments, doubles
-- them and changes their order: what an end has sent stays in the network, and any of it may arrive at
-- the other end at any time, any number of times, or never.
pub mod Half
pub mod Methods
pub mod Given
pub mod Growth
pub mod Ends
pub mod Start
pub mod Delivery
mod Runs
use computer_network.Base.{
  ℕ, ◌+◌, ◌<◌, ◌≡◌, ◌^◌, Bool, false, Option, none, some, List, [], ◌∷◌, ◌++◌, length, take,
}
use computer_network.ByteStream
use computer_network.TcpSegment.{TcpSegment}
use computer_network.TcpConnection.{TcpConnection}
use computer_network.TcpConnection

-- `accepted` is what the calls of `write` took, `delivered` what the reads of the inbound stream
-- returned, and `network` what was taken off the connection's queue.
pub record End : Type 0 where
  pub connection : TcpConnection
  pub accepted : List ℕ
  pub network : List TcpSegment
  pub delivered : List ℕ

unfoldable pub start : TcpConnection → End
start c = record { connection = c; accepted = []; network = []; delivered = [] }

unfoldable pub write : List ℕ → End → End
write bytes e =
    let (size, connection) = TcpConnection.write bytes e.connection in
    record e { connection = connection; accepted = e.accepted ++ take size bytes }

bytes_or_none : Option (List ℕ) → List ℕ
bytes_or_none none = []
bytes_or_none (some bytes) = bytes

-- `inbound_stream().read(len)`.
unfoldable pub read : ℕ → End → End
unfolding bytes_or_none
read len e =
    let receiver = e.connection.receiver in
    let (bytes, output) = ByteStream.read len receiver.reassembler.output in
    record e {
      delivered = e.delivered ++ bytes_or_none bytes;
      connection = record e.connection {
        receiver = record receiver {
          reassembler = record receiver.reassembler { output = output };
        };
      };
    }

-- What an end does, with the segments that may arrive. The bytes that it is given are fewer than 2^31,
-- and it is given none after the end of its input.
pub data Act (arriving : List TcpSegment) (e : End) : End → Type 0 where
  connected : Act arriving e (record e { connection = TcpConnection.connect e.connection })
  written :
      (bytes : List ℕ)
      → length e.accepted + length bytes < 2 ^ 31
      → e.connection.sender.stream.input_ended ≡ false
      → Act arriving e (write bytes e)
  ended : Act arriving e (record e { connection = TcpConnection.end_input_stream e.connection })
  ticked : (ms : ℕ) → Act arriving e (record e { connection = TcpConnection.tick ms e.connection })
  arrived :
      (seg : TcpSegment) (before after : List TcpSegment)
      → arriving ≡ before ++ seg ∷ after
      → Act arriving e (record e { connection = TcpConnection.segment_received seg e.connection })
  pulled : (len : ℕ) → Act arriving e (read len e)
  collected : Act arriving e (record e {
    network = e.network ++ e.connection.segments_out;
    connection = record e.connection { segments_out = [] };
  })
  destroyed : Act arriving e (record e { connection = TcpConnection.destroy e.connection })

pub record Link : Type 0 where
  pub near : End
  pub far : End

pub data Step (l : Link) : Link → Type 0 where
  at_near : {e : End} → Act l.far.network l.near e → Step l (record l { near = e })
  at_far : {e : End} → Act l.near.network l.far e → Step l (record l { far = e })

pub data Reach (l : Link) : Link → Type 0 where
  here : Reach l l
  next : {m n : Link} → Reach l m → Step m n → Reach l n
