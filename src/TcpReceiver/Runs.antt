-- ===== src/TcpReceiver/Runs.antt =====
-- A receiver that has its peer's SYN, and a segment out of order.
use computer_network.Base.{ℕ, ◌+◌, refl, true, [], ◌∷◌, arith}
use computer_network.Words.{add32}
use computer_network.WrappingIntegers.{wrap}
use computer_network.TcpHeader
use computer_network.ByteStream
use computer_network.StreamReassembler
use computer_network.StreamReassembler.Invariant.{Inv}
use computer_network.StreamReassembler.Reach.{init-Inv}
use computer_network.TcpSegment.{TcpSegment}
use computer_network.TcpReceiver.{TcpReceiver, init, segment_received}
use computer_network.TcpReceiver.Delivery.{segment_received-Inv}

abbrev letters : ℕ → ℕ
letters i = b'a' + i

abbrev listening : TcpReceiver
listening = record (init 4000) { syn = true; isn = record { raw_value = 0xffff_fffe } }

-- "cd": 2 comes after the SYN and the two bytes before it.
abbrev early : TcpSegment
early = record {
  header = record TcpHeader.init { seqno = record { raw_value = 1 } };
  payload = b'c' ∷ b'd' ∷ [];
}

segment_received-Inv_example : Inv letters (segment_received early listening).reassembler
unfolding TcpHeader.init init wrap StreamReassembler.init ByteStream.init add32
segment_received-Inv_example =
    segment_received-Inv letters 2 early listening refl (init-Inv letters 4000 (omega arith))
      (refl, (refl, tt)) (omega arith) refl (omega arith) (omega arith) (omega arith)
