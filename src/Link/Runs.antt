-- ===== src/Link/Runs.antt =====
-- Two connections: one opens, the other answers, and three bytes and the end of the input go over.
use computer_network.Base.{◌≡◌, refl, true, false, [], ◌∷◌, ◌++◌, arith}
use computer_network.Words.{add64, sub64, add32, sub32}
use computer_network.Buffer
use computer_network.BufferList
use computer_network.RetransmissionTimer
use computer_network.WrappingIntegers.{WrappingInt32, wrap, unwrap, plus}
use computer_network.TcpSender
use computer_network.TcpReceiver
use computer_network.StreamReassembler.{push_substring}
use computer_network.StreamReassembler
use computer_network.StreamReassembler.OrderedMap.{
  from_upper_bound, before_upper_bound, last_entry, emplace,
}
use computer_network.ByteStream
use computer_network.TcpHeader
use computer_network.TcpSegment.{TcpSegment, length_in_sequence_space}
use computer_network.TcpSegment
use computer_network.TcpConnection.{TcpConnection, default_config}
use computer_network.TcpConnection
use computer_network.Link.{
  Link, End, start, write, read, connected, written, ended, arrived, pulled, collected, at_near,
  at_far, Reach, here, next,
}
use computer_network.Link.Start.{IsOpen, fresh}
use computer_network.Link.Delivery.{Delivers, far_side, read-Link, eof-Link}

abbrev near_isn : WrappingInt32
near_isn = record { raw_value = 0xffff_fffe }

abbrev far_isn : WrappingInt32
far_isn = record { raw_value = 77 }

abbrev first : Link
first = fresh default_config near_isn default_config far_isn

abbrev with_connection : End → TcpConnection → End
with_connection e c = record e { connection = c }

abbrev emptied : End → End
emptied e = record e {
  network = e.network ++ e.connection.segments_out;
  connection = record e.connection { segments_out = [] };
}

abbrev near_connected : End
near_connected = with_connection first.near (TcpConnection.connect first.near.connection)

abbrev near_closed : End
near_closed =
    let e = write (1 ∷ 2 ∷ 3 ∷ []) near_connected in
    emptied (with_connection e (TcpConnection.end_input_stream e.connection))

abbrev syn : TcpSegment
syn = record {
  header = record TcpHeader.init { seqno = near_isn; syn = true; win = 64000 };
  payload = [];
}

abbrev far_answered : End
far_answered =
    emptied (with_connection first.far (TcpConnection.segment_received syn first.far.connection))

abbrev syn_ack : TcpSegment
syn_ack = record {
  header = record TcpHeader.init {
    seqno = far_isn;
    ackno = record { raw_value = 0xffff_ffff };
    syn = true;
    ack = true;
    win = 64000;
  };
  payload = [];
}

abbrev near_opened : End
near_opened =
    emptied
      (with_connection near_closed (TcpConnection.segment_received syn_ack near_closed.connection))

abbrev piece : TcpSegment
piece = record {
  header = record TcpHeader.init {
    seqno = record { raw_value = 0xffff_ffff };
    ackno = record { raw_value = 78 };
    ack = true;
    fin = true;
    win = 64000;
  };
  payload = 1 ∷ 2 ∷ 3 ∷ [];
}

abbrev far_complete : End
far_complete =
    with_connection far_answered (TcpConnection.segment_received piece far_answered.connection)

abbrev far_read : End
far_read = read 7 far_complete

near_sent : near_closed.network ≡ [] ++ syn ∷ []
unfolding start write read TcpConnection.init TcpConnection.connect TcpConnection.write
    TcpConnection.end_input_stream TcpConnection.segment_received TcpSender.init TcpReceiver.init
    TcpSender.fill_window TcpSender.ack_received TcpSender.send_empty_segment
    TcpReceiver.segment_received TcpReceiver.ackno TcpReceiver.window_size StreamReassembler.init
    push_substring TcpHeader.init TcpSegment.init wrap unwrap plus add64 sub64 sub32 add32
    ByteStream.init ByteStream.write ByteStream.read ByteStream.remaining_capacity
    length_in_sequence_space RetransmissionTimer.init RetransmissionTimer.start
    RetransmissionTimer.close ByteStream.eof ByteStream.end_input ByteStream.pop_output
    ByteStream.peek_output BufferList.remove_prefix BufferList.append BufferList.empty
    BufferList.of_string BufferList.concatenate_first Buffer.size Buffer.str Buffer.of_string
    Buffer.remove_prefix from_upper_bound before_upper_bound last_entry emplace
    TcpReceiver.unassembled_bytes
near_sent = refl

far_sent : far_answered.network ≡ [] ++ syn_ack ∷ []
unfolding start write read TcpConnection.init TcpConnection.connect TcpConnection.write
    TcpConnection.end_input_stream TcpConnection.segment_received TcpSender.init TcpReceiver.init
    TcpSender.fill_window TcpSender.ack_received TcpSender.send_empty_segment
    TcpReceiver.segment_received TcpReceiver.ackno TcpReceiver.window_size StreamReassembler.init
    push_substring TcpHeader.init TcpSegment.init wrap unwrap plus add64 sub64 sub32 add32
    ByteStream.init ByteStream.write ByteStream.read ByteStream.remaining_capacity
    length_in_sequence_space RetransmissionTimer.init RetransmissionTimer.start
    RetransmissionTimer.close ByteStream.eof ByteStream.end_input ByteStream.pop_output
    ByteStream.peek_output BufferList.remove_prefix BufferList.append BufferList.empty
    BufferList.of_string BufferList.concatenate_first Buffer.size Buffer.str Buffer.of_string
    Buffer.remove_prefix from_upper_bound before_upper_bound last_entry emplace
    TcpReceiver.unassembled_bytes
far_sent = refl

empty_ack : TcpSegment
empty_ack = record {
  header = record TcpHeader.init {
    seqno = record { raw_value = 3 };
    ackno = record { raw_value = 78 };
    ack = true;
    win = 64000;
  };
  payload = [];
}

near_sent_all : near_opened.network ≡ (syn ∷ []) ++ piece ∷ empty_ack ∷ []
unfolding start write read TcpConnection.init TcpConnection.connect TcpConnection.write
    TcpConnection.end_input_stream TcpConnection.segment_received TcpSender.init TcpReceiver.init
    TcpSender.fill_window TcpSender.ack_received TcpSender.send_empty_segment
    TcpReceiver.segment_received TcpReceiver.ackno TcpReceiver.window_size StreamReassembler.init
    push_substring TcpHeader.init TcpSegment.init wrap unwrap plus add64 sub64 sub32 add32
    ByteStream.init ByteStream.write ByteStream.read ByteStream.remaining_capacity
    length_in_sequence_space RetransmissionTimer.init RetransmissionTimer.start
    RetransmissionTimer.close ByteStream.eof ByteStream.end_input ByteStream.pop_output
    ByteStream.peek_output BufferList.remove_prefix BufferList.append BufferList.empty
    BufferList.of_string BufferList.concatenate_first Buffer.size Buffer.str Buffer.of_string
    Buffer.remove_prefix from_upper_bound before_upper_bound last_entry emplace
    TcpReceiver.unassembled_bytes empty_ack
near_sent_all = refl

going : near_connected.connection.sender.stream.input_ended ≡ false
unfolding start TcpConnection.connect TcpConnection.init TcpSender.init TcpSender.fill_window
    ByteStream.init sub64 add64 length_in_sequence_space TcpSegment.init TcpHeader.init
going = refl

abbrev all_there : Link
all_there = record { near = near_opened; far = far_complete }

all_there-Reach : Reach first all_there
unfolding start TcpConnection.init TcpSender.init ByteStream.init TcpConnection.connect
all_there-Reach =
    next
      (next
        (next
          (next
            (next
              (next
                (next
                  (next (next here (at_near connected))
                    (at_near (written (1 ∷ 2 ∷ 3 ∷ []) (omega arith) going)))
                  (at_near ended))
                (at_near collected))
              (at_far (arrived syn [] [] near_sent)))
            (at_far collected))
          (at_near (arrived syn_ack [] [] far_sent)))
        (at_near collected))
      (at_far (arrived piece (syn ∷ []) (empty_ack ∷ []) near_sent_all))

near-IsOpen : IsOpen default_config near_isn
unfolding TcpConnection.init TcpSender.init
near-IsOpen = record { send_word = omega arith; recv_word = omega arith; isn_word = omega arith }

far-IsOpen : IsOpen default_config far_isn
unfolding TcpConnection.init TcpSender.init
far-IsOpen = record { send_word = omega arith; recv_word = omega arith; isn_word = omega arith }

read-Link_example : Delivers 2 near_opened far_complete
read-Link_example =
    read-Link default_config default_config near_isn far_isn all_there far_side 2 near-IsOpen
      far-IsOpen all_there-Reach

far_eof : ByteStream.eof far_read.connection.receiver.reassembler.output ≡ true
unfolding start write read TcpConnection.init TcpConnection.connect TcpConnection.write
    TcpConnection.end_input_stream TcpConnection.segment_received TcpSender.init TcpReceiver.init
    TcpSender.fill_window TcpSender.ack_received TcpSender.send_empty_segment
    TcpReceiver.segment_received TcpReceiver.ackno TcpReceiver.window_size StreamReassembler.init
    push_substring TcpHeader.init TcpSegment.init wrap unwrap plus add64 sub64 sub32 add32
    ByteStream.init ByteStream.write ByteStream.read ByteStream.remaining_capacity
    length_in_sequence_space RetransmissionTimer.init RetransmissionTimer.start
    RetransmissionTimer.close ByteStream.eof ByteStream.end_input ByteStream.pop_output
    ByteStream.peek_output BufferList.remove_prefix BufferList.append BufferList.empty
    BufferList.of_string BufferList.concatenate_first Buffer.size Buffer.str Buffer.of_string
    Buffer.remove_prefix from_upper_bound before_upper_bound last_entry emplace
    TcpReceiver.unassembled_bytes
far_eof = refl

eof-Link_example :
    (near_opened.connection.sender.stream.input_ended ≡ true)
    × (far_read.delivered ≡ near_opened.accepted)
eof-Link_example =
    eof-Link default_config default_config near_isn far_isn
      (record { near = near_opened; far = far_read }) far_side near-IsOpen far-IsOpen
      (next all_there-Reach (at_far (pulled 7))) far_eof
