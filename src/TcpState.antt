-- ===== src/TcpState.antt =====
-- libsponge/tcp_helpers/tcp_state.hh and tcp_state.cc: the state of a connection in the words of the
-- TCP specification. The texts of the summaries are the constructors of two enumerations.
pub mod Runs
pub mod Official
use computer_network.Base.{
  ℕ, ◌+◌, Bool, true, false, not, ◌&&◌, ltb, ◌==◌, if◌then◌else◌, Option, none, some,
}
use computer_network.Words.{add64}
use computer_network.ByteStream
use computer_network.TcpSender.{TcpSender}
use computer_network.TcpReceiver.{TcpReceiver}
use computer_network.TcpReceiver
use computer_network.TcpConnection.{TcpConnection}

pub data ReceiverSummary : Type 0 where
  error listen syn_recv fin_recv : ReceiverSummary

pub data SenderSummary : Type 0 where
  error closed syn_sent syn_acked fin_sent fin_acked : SenderSummary

pub data State : Type 0 where
  listen syn_rcvd syn_sent established close_wait last_ack : State
  fin_wait_1 fin_wait_2 closing time_wait closed reset : State

pub record TcpState : Type 0 where
  pub sender : SenderSummary
  pub receiver : ReceiverSummary
  pub active : Bool
  pub linger_after_streams_finish : Bool

abbrev lingering : SenderSummary → ReceiverSummary → TcpState
lingering s r = record {
  sender = s;
  receiver = r;
  active = true;
  linger_after_streams_finish = true;
}

abbrev passive : SenderSummary → ReceiverSummary → TcpState
passive s r = record {
  sender = s;
  receiver = r;
  active = true;
  linger_after_streams_finish = false;
}

abbrev over : SenderSummary → ReceiverSummary → TcpState
over s r = record { sender = s; receiver = r; active = false; linger_after_streams_finish = false }

-- The constructor from an official state.
unfoldable pub of_state : State → TcpState
of_state State.listen = lingering SenderSummary.closed ReceiverSummary.listen
of_state State.syn_rcvd = lingering SenderSummary.syn_sent ReceiverSummary.syn_recv
of_state State.syn_sent = lingering SenderSummary.syn_sent ReceiverSummary.listen
of_state State.established = lingering SenderSummary.syn_acked ReceiverSummary.syn_recv
of_state State.close_wait = passive SenderSummary.syn_acked ReceiverSummary.fin_recv
of_state State.last_ack = passive SenderSummary.fin_sent ReceiverSummary.fin_recv
of_state State.closing = lingering SenderSummary.fin_sent ReceiverSummary.fin_recv
of_state State.fin_wait_1 = lingering SenderSummary.fin_sent ReceiverSummary.syn_recv
of_state State.fin_wait_2 = lingering SenderSummary.fin_acked ReceiverSummary.syn_recv
of_state State.time_wait = lingering SenderSummary.fin_acked ReceiverSummary.fin_recv
of_state State.reset = over SenderSummary.error ReceiverSummary.error
of_state State.closed = over SenderSummary.fin_acked ReceiverSummary.fin_recv

unfoldable pub receiver_summary : TcpReceiver → ReceiverSummary
receiver_summary r =
    if r.reassembler.output.error then ReceiverSummary.error else elim (TcpReceiver.ackno r) [
      | none ↦ ReceiverSummary.listen
      | some n ↦
          if r.reassembler.output.input_ended
          then ReceiverSummary.fin_recv
          else ReceiverSummary.syn_recv
    ]

unfoldable pub sender_summary : TcpSender → SenderSummary
sender_summary s =
    if s.stream.error
    then SenderSummary.error
    else if s.next_seqno_absolute == 0
    then SenderSummary.closed
    else if s.next_seqno_absolute == s.bytes_in_flight
    then SenderSummary.syn_sent
    else if not (ByteStream.eof s.stream)
    then SenderSummary.syn_acked
    else if ltb s.next_seqno_absolute (add64 s.stream.bytes_written 2)
    then SenderSummary.syn_acked
    else if not (s.bytes_in_flight == 0)
    then SenderSummary.fin_sent
    else SenderSummary.fin_acked

-- `TCPConnection::state`.
unfoldable pub state : TcpConnection → TcpState
unfolding sender_summary receiver_summary
state c = record {
  sender = sender_summary c.sender;
  receiver = receiver_summary c.receiver;
  active = c.active;
  linger_after_streams_finish = if c.active then c.linger_after_streams_finish else false;
}

sender_index : SenderSummary → ℕ
sender_index SenderSummary.error = 0
sender_index SenderSummary.closed = 1
sender_index SenderSummary.syn_sent = 2
sender_index SenderSummary.syn_acked = 3
sender_index SenderSummary.fin_sent = 4
sender_index SenderSummary.fin_acked = 5

receiver_index : ReceiverSummary → ℕ
receiver_index ReceiverSummary.error = 0
receiver_index ReceiverSummary.listen = 1
receiver_index ReceiverSummary.syn_recv = 2
receiver_index ReceiverSummary.fin_recv = 3

-- `operator==`, where two texts are the same when their constructors have the same number.
unfoldable pub equal : TcpState → TcpState → Bool
unfolding sender_index receiver_index
equal s other =
    (if s.active then other.active else not other.active)
    && (if s.linger_after_streams_finish
        then other.linger_after_streams_finish
        else not other.linger_after_streams_finish)
    && (sender_index s.sender == sender_index other.sender)
    && (receiver_index s.receiver == receiver_index other.receiver)
