-- ===== src/TcpState/Runs.antt =====
-- The states of a connection at concrete inputs.
use computer_network.Base.{◌≡◌, refl, true, []}
use computer_network.WrappingIntegers.{WrappingInt32}
use computer_network.ByteStream.Validity.{held}
use computer_network.TcpHeader
use computer_network.TcpSegment.{TcpSegment}
use computer_network.TcpConnection.{TcpConnection, default_config, init, segment_received}
use computer_network.TcpState.{State, of_state, state}
use computer_network.TcpState.Official.{segment_received-reset, init-listen}

abbrev isn : WrappingInt32
isn = record { raw_value = 77 }

abbrev rst : TcpSegment
rst = record { header = record TcpHeader.init { rst = true }; payload = [] }

abbrev fresh : TcpConnection
fresh = init default_config isn

init-listen_example : state (init default_config isn) ≡ of_state State.listen
init-listen_example = init-listen default_config isn

-- A connection that its peer has opened.
abbrev opened : TcpConnection
opened =
    segment_received
      (record { header = record TcpHeader.init { syn = true; seqno = isn }; payload = [] }) fresh

segment_received-reset_example :
    (state (segment_received rst opened) ≡ of_state State.reset)
    × ((segment_received rst opened).segments_out ≡ opened.segments_out)
    × ((segment_received rst opened).sender.segments_out ≡ opened.sender.segments_out)
    × (held (segment_received rst opened).receiver.reassembler.output
        ≡ held opened.receiver.reassembler.output)
segment_received-reset_example = segment_received-reset rst opened refl
