-- ===== src/TcpReceiver.antt =====
-- libsponge/tcp_receiver.hh and tcp_receiver.cc: the half of a connection that puts the peer's stream
-- together and says what it waits for.
pub mod Delivery
pub mod Runs
use computer_network.Base.{ℕ, ◌+◌, ◌%◌, Bool, true, false, not, Option, none, some, if◌then◌else◌}
use computer_network.Words.{add64, sub64, u32_mod}
use computer_network.WrappingIntegers.{WrappingInt32, plus, unwrap}
use computer_network.ByteStream
use computer_network.StreamReassembler.{StreamReassembler, push_substring}
use computer_network.StreamReassembler
use computer_network.TcpSegment.{TcpSegment}

pub record TcpReceiver : Type 0 where
  pub reassembler : StreamReassembler
  pub capacity : ℕ
  pub syn : Bool
  pub isn : WrappingInt32

unfoldable pub init : ℕ → TcpReceiver
init capacity = record {
  reassembler = StreamReassembler.init capacity;
  capacity = capacity;
  syn = false;
  isn = record { raw_value = 0 };
}

-- The index in the stream of the first byte of the payload.
unfoldable pub stream_index : TcpSegment → TcpReceiver → ℕ
stream_index seg r =
    let checkpoint = add64 r.reassembler.output.bytes_written 1 in
    let abs_seqno = unwrap seg.header.seqno r.isn checkpoint in
    add64 (sub64 abs_seqno 1) (if seg.header.syn then 1 else 0)

unfoldable pub accept : TcpSegment → TcpReceiver → TcpReceiver
unfolding stream_index
accept seg r = record r {
  reassembler = push_substring seg.payload (stream_index seg r) seg.header.fin r.reassembler;
}

unfoldable pub segment_received : TcpSegment → TcpReceiver → TcpReceiver
unfolding accept
segment_received seg r =
    if r.syn
    then accept seg r
    else if seg.header.syn
    then accept seg (record r { syn = true; isn = seg.header.seqno })
    else r

unfoldable pub ackno : TcpReceiver → Option WrappingInt32
ackno r =
    if r.syn
    then some (
        plus (plus r.isn (add64 r.reassembler.output.bytes_written 1 % u32_mod))
          (if r.reassembler.output.input_ended then 1 else 0))
    else none

unfoldable pub window_size : TcpReceiver → ℕ
window_size r = ByteStream.remaining_capacity r.reassembler.output

unfoldable pub unassembled_bytes : TcpReceiver → ℕ
unassembled_bytes r = r.reassembler.unassembled_bytes
