-- ===== src/Session/Runs.antt =====
-- Three bytes and the end of the input, sent as a SYN and as one segment with a FIN.
use computer_network.Base.{◌≡◌, refl, true, some, List, ℕ, [], ◌∷◌, ◌++◌, arith}
use computer_network.Words.{add64, sub64, add32, sub32}
use computer_network.Buffer
use computer_network.BufferList
use computer_network.ByteStream
use computer_network.RetransmissionTimer
use computer_network.WrappingIntegers.{WrappingInt32, wrap, unwrap}
use computer_network.TcpHeader.{TcpHeader}
use computer_network.TcpHeader
use computer_network.TcpSegment.{TcpSegment, length_in_sequence_space}
use computer_network.TcpSegment
use computer_network.TcpSender.{TcpSender, fill_window, ack_received}
use computer_network.TcpSender
use computer_network.StreamReassembler.{push_substring}
use computer_network.StreamReassembler
use computer_network.StreamReassembler.OrderedMap.{
  from_upper_bound, before_upper_bound, last_entry, emplace,
}
use computer_network.TcpReceiver.{segment_received}
use computer_network.TcpReceiver
use computer_network.Session.{
  Session, start, write, Reach, here, next, read, filled, written, ended, pulled, collected,
  arrived, acknowledged,
}
use computer_network.Session.Delivery.{read-Session, eof-Session}

abbrev isn : WrappingInt32
isn = record { raw_value = 0xffff_fffe }

abbrev fresh : Session
fresh = start (TcpSender.init 4000 1000 (some isn) isn) (TcpReceiver.init 4000)

abbrev loaded : Session
loaded = write (1 ∷ 2 ∷ 3 ∷ []) fresh

abbrev closing : Session
closing = record loaded {
  sender = record loaded.sender { stream = ByteStream.end_input loaded.sender.stream };
}

abbrev opened : Session
opened = record closing { sender = fill_window closing.sender }

abbrev answered : Session
answered = record opened {
  sender = ack_received (record { raw_value = 0xffff_ffff }) 9 opened.sender;
}

abbrev underway : Session
underway = record answered {
  network = answered.network ++ answered.sender.segments_out;
  sender = record answered.sender { segments_out = [] };
}

abbrev syn : TcpSegment
syn = record { header = record TcpHeader.init { seqno = isn; syn = true }; payload = [] }

abbrev piece : TcpSegment
piece = record {
  header = record TcpHeader.init { seqno = record { raw_value = 0xffff_ffff }; fin = true };
  payload = 1 ∷ 2 ∷ 3 ∷ [];
}

underway_network : underway.network ≡ syn ∷ piece ∷ []
unfolding start write TcpSender.init TcpReceiver.init TcpHeader.init TcpSegment.init fill_window
    ack_received wrap unwrap add64 sub64 ByteStream.init ByteStream.write ByteStream.read
    length_in_sequence_space RetransmissionTimer.init RetransmissionTimer.start ByteStream.eof
    ByteStream.end_input sub32 add32 ByteStream.pop_output BufferList.remove_prefix
    BufferList.append BufferList.empty BufferList.of_string Buffer.size Buffer.str Buffer.of_string
    Buffer.remove_prefix ByteStream.peek_output BufferList.concatenate_first
underway_network = refl

abbrev delivering : Session
delivering = record underway { receiver = segment_received syn underway.receiver }

abbrev arrived_all : Session
arrived_all = record delivering { receiver = segment_received piece delivering.receiver }

arrived_all-Reach : Reach fresh arrived_all
unfolding start TcpSender.init ByteStream.init
arrived_all-Reach =
    next
      (next
        (next
          (next (next (next (next here (written (1 ∷ 2 ∷ 3 ∷ []) (omega arith) refl)) ended) filled)
            (acknowledged (record { raw_value = 0xffff_ffff }) 9))
          collected)
        (arrived syn [] (piece ∷ []) underway_network))
      (arrived piece (syn ∷ []) [] underway_network)

read-Session_example :
    (bytes rest : List ℕ) × ((ByteStream.read 2 arrived_all.receiver.reassembler.output).0
      ≡ some bytes)
    × (arrived_all.accepted ≡ arrived_all.delivered ++ (bytes ++ rest))
unfolding TcpSender.init
read-Session_example =
    read-Session 4000 1000 4000 2 (some isn) isn arrived_all (omega arith) (omega arith)
      (omega arith) arrived_all-Reach

abbrev finished : Session
finished = read 7 arrived_all

finished_eof : ByteStream.eof finished.receiver.reassembler.output ≡ true
unfolding start read write TcpReceiver.init StreamReassembler.init ByteStream.init TcpHeader.init
    segment_received unwrap wrap add64 sub64 sub32 add32 push_substring ByteStream.write
    ByteStream.end_input ByteStream.read ByteStream.eof ByteStream.pop_output
    BufferList.remove_prefix BufferList.append BufferList.empty BufferList.of_string Buffer.size
    Buffer.str Buffer.of_string Buffer.remove_prefix ByteStream.peek_output
    BufferList.concatenate_first ByteStream.remaining_capacity from_upper_bound before_upper_bound
    last_entry emplace
finished_eof = refl

eof-Session_example :
    (finished.sender.stream.input_ended ≡ true) × (finished.delivered ≡ finished.accepted)
unfolding TcpSender.init
eof-Session_example =
    eof-Session 4000 1000 4000 (some isn) isn finished (omega arith) (omega arith) (omega arith)
      (next arrived_all-Reach (pulled 7)) finished_eof
