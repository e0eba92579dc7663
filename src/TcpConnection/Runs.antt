-- ===== src/TcpConnection/Runs.antt =====
-- A connection that is opened by its peer.
use computer_network.Base.{◌<◌, refl, true, [], length, arith}
use computer_network.WrappingIntegers.{WrappingInt32}
use computer_network.TcpHeader
use computer_network.TcpSegment.{TcpSegment, length_in_sequence_space}
use computer_network.TcpConnection.{TcpConnection, default_config, init, segment_received}
use computer_network.TcpConnection.Answer.{segment_received-answers}

abbrev isn : WrappingInt32
isn = record { raw_value = 77 }

abbrev syn : TcpSegment
syn = record { header = record TcpHeader.init { syn = true; seqno = isn }; payload = [] }

abbrev fresh : TcpConnection
fresh = init default_config isn

segment_received-answers_example :
    length fresh.segments_out < length (segment_received syn fresh).segments_out
unfolding length_in_sequence_space TcpHeader.init
segment_received-answers_example = segment_received-answers syn fresh refl (omega arith)
