-- ===== src/Session.antt =====
-- A sender and a receiver (libsponge/tcp_sender.cc, tcp_receiver.cc) with a network between them that
-- loses segments, doubles them and changes their order: what the sender has sent stays in the network,
-- and any of it may arrive at any time, any number of times, or never. What comes back to the sender is
-- any acknowledgment number and any window.
pub mod Cut
pub mod Sending
pub mod Filling
pub mod Operations
pub mod Written
pub mod Prefix
pub mod Receiving
pub mod Arrival
pub mod Delivery
mod Runs
use computer_network.Base.{
  ℕ, ◌+◌, ◌<◌, ◌≡◌, ◌^◌, Bool, false, Option, none, some, List, [], ◌∷◌, ◌++◌, length, take,
}
use computer_network.ByteStream
use computer_network.WrappingIntegers.{WrappingInt32}
use computer_network.TcpSegment.{TcpSegment}
use computer_network.TcpSender.{TcpSender, fill_window, ack_received, tick, send_empty_segment}
use computer_network.TcpSender
use computer_network.TcpReceiver.{TcpReceiver, segment_received}
use computer_network.TcpReceiver

-- `accepted` is what the sender's stream took of the writes, `delivered` what the reads of the
-- receiver's stream returned, and `network` what was taken off the sender's queue.
pub record Session : Type 0 where
  pub sender : TcpSender
  pub accepted : List ℕ
  pub network : List TcpSegment
  pub receiver : TcpReceiver
  pub delivered : List ℕ

unfoldable pub start : TcpSender → TcpReceiver → Session
start sender receiver = record {
  sender = sender;
  accepted = [];
  network = [];
  receiver = receiver;
  delivered = [];
}

bytes_or_none : Option (List ℕ) → List ℕ
bytes_or_none none = []
bytes_or_none (some bytes) = bytes

-- `_sender.stream_in().write(bytes)`.
unfoldable pub write : List ℕ → Session → Session
write bytes s = record s {
  accepted = s.accepted ++ take (ByteStream.write_count bytes s.sender.stream) bytes;
  sender = record s.sender { stream = ByteStream.write bytes s.sender.stream };
}

-- `receiver.stream_out().read(len)`.
unfoldable pub read : ℕ → Session → Session
unfolding bytes_or_none
read len s =
    let (bytes, output) = ByteStream.read len s.receiver.reassembler.output in
    record s {
      delivered = s.delivered ++ bytes_or_none bytes;
      receiver = record s.receiver {
        reassembler = record s.receiver.reassembler { output = output };
      };
    }

-- The bytes of a whole session are fewer than 2^31, and there is no write after the end of the input.
pub data Step (s : Session) : Session → Type 0 where
  filled : Step s (record s { sender = fill_window s.sender })
  acknowledged :
      (ackno : WrappingInt32) (window_size : ℕ)
      → Step s (record s { sender = ack_received ackno window_size s.sender })
  ticked : (ms : ℕ) → Step s (record s { sender = tick ms s.sender })
  emptied : Step s (record s { sender = send_empty_segment s.sender })
  written :
      (bytes : List ℕ)
      → length s.accepted + length bytes < 2 ^ 31
      → s.sender.stream.input_ended ≡ false
      → Step s (write bytes s)
  ended :
      Step s
        (record s { sender = record s.sender { stream = ByteStream.end_input s.sender.stream } })
  collected : Step s (record s {
    network = s.network ++ s.sender.segments_out;
    sender = record s.sender { segments_out = [] };
  })
  arrived :
      (seg : TcpSegment) (before after : List TcpSegment)
      → s.network ≡ before ++ seg ∷ after
      → Step s (record s { receiver = segment_received seg s.receiver })
  pulled : (len : ℕ) → Step s (read len s)

pub data Reach (s : Session) : Session → Type 0 where
  here : Reach s s
  next : {t u : Session} → Reach s t → Step t u → Reach s u
