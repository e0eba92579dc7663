-- ===== src/Session/Delivery.antt =====
-- From the writer to the reader: what comes out is the start of what went in.
use computer_network.Base.{
  ℕ, ◌+◌, ◌^◌, ◌<◌, ◌≡◌, refl, sym, ◌∙◌, Bool, true, false, Option, some, List, [], ◌++◌, length,
  take, All, All-append, All-middle, arith,
}
use computer_network.ByteStream
use computer_network.ByteStream.Validity.{init-IsValid}
use computer_network.BufferList.Contents.{contents-empty}
use computer_network.WrappingIntegers.{WrappingInt32}
use computer_network.StreamReassembler
use computer_network.StreamReassembler.Reach.{init-Inv}
use computer_network.TcpSender.{TcpSender}
use computer_network.TcpSender
use computer_network.TcpReceiver.{TcpReceiver}
use computer_network.TcpReceiver
use computer_network.Session.{
  Session, start, write, read, Step, filled, acknowledged, ticked, emptied, written, ended,
  collected, arrived, pulled, Reach, here, next,
}
use computer_network.Session.Cut.{IsSent, All-more, All-ended}
use computer_network.Session.Sending.{Sending, unopened}
use computer_network.Session.Operations.{
  ack_received-Sending, tick-Sending, send_empty_segment-Sending, collected-Sending, ended-Sending,
}
use computer_network.Session.Filling.{fill_window-Sending}
use computer_network.Session.Written.{written-Sending}
use computer_network.Session.Arrival.{segment_received-Receiving}
use computer_network.Session.Receiving.{
  Receiving, next_lem, eof_lem, more-Receiving, ended-Receiving, read-Receiving,
}

record Sound (isn : WrappingInt32) (s : Session) : Type 0 where
  over : Bool
  sends : Sending isn s.accepted over s.sender
  receives : Receiving isn s.accepted over s.delivered s.receiver
  underway : All (IsSent isn s.accepted over) s.network

module _ (isn : WrappingInt32) (small : isn.raw_value < 2 ^ 32) where
  write-Sound :
      (bytes : List ℕ) (s : Session) (over : Bool)
      → length s.accepted + length bytes < 2 ^ 31
      → over ≡ false
      → Sending isn s.accepted over s.sender
      → Receiving isn s.accepted over s.delivered s.receiver
      → All (IsSent isn s.accepted over) s.network
      → Sound isn (write bytes s)
  unfolding write
  write-Sound bytes s true room going sends receives underway = absurd (ground arith)
  write-Sound bytes s false room going sends receives underway =
      let more = take (ByteStream.write_count bytes s.sender.stream) bytes in
      record {
        over = false;
        sends = written-Sending isn s.accepted bytes s.sender sends room;
        receives = more-Receiving isn s.accepted more s.delivered s.receiver receives;
        underway = All-more isn s.accepted more s.network underway;
      }

  read-Sound : (len : ℕ) (s : Session) → Sound isn s → Sound isn (read len s)
  unfolding read
  read-Sound len s v =
      let (_, cutting, _) = v.sends in
      let (output, e, r) =
        read-Receiving isn s.accepted v.over s.delivered s.receiver len cutting.short v.receives in
      rw (e, read) (record { over = v.over; sends = v.sends; receives = r; underway = v.underway })

  Step-Sound : (s t : Session) → Step s t → Sound isn s → Sound isn t
  Step-Sound s _ filled v = record {
    over = v.over;
    sends = fill_window-Sending isn s.accepted v.over s.sender v.sends;
    receives = v.receives;
    underway = v.underway;
  }
  Step-Sound s _ (acknowledged ackno window_size) v = record {
    over = v.over;
    sends = ack_received-Sending isn s.accepted v.over ackno window_size s.sender v.sends;
    receives = v.receives;
    underway = v.underway;
  }
  Step-Sound s _ (ticked ms) v = record {
    over = v.over;
    sends = tick-Sending isn s.accepted v.over ms s.sender v.sends;
    receives = v.receives;
    underway = v.underway;
  }
  Step-Sound s _ emptied v = record {
    over = v.over;
    sends = send_empty_segment-Sending isn s.accepted v.over s.sender v.sends;
    receives = v.receives;
    underway = v.underway;
  }
  Step-Sound s _ (written bytes room going) v =
      let (_, cutting, _) = v.sends in
      write-Sound bytes s v.over room (sym cutting.same_ended ∙ going) v.sends v.receives v.underway
  Step-Sound s _ ended v = record {
    over = true;
    sends = ended-Sending isn s.accepted v.over s.sender v.sends;
    receives = ended-Receiving isn s.accepted v.over s.delivered s.receiver v.receives;
    underway = All-ended isn s.accepted v.over s.network v.underway;
  }
  Step-Sound s _ collected v =
      let (_, cutting, _) = v.sends in
      record {
        over = v.over;
        sends = collected-Sending isn s.accepted v.over s.sender v.sends;
        receives = v.receives;
        underway = All-append (IsSent isn s.accepted v.over) s.network _ v.underway cutting.out;
      }
  Step-Sound s _ (arrived seg before after e) v =
      let (_, cutting, _) = v.sends in
      record {
        over = v.over;
        sends = v.sends;
        receives =
            segment_received-Receiving isn s.accepted v.over s.delivered seg s.receiver
              cutting.short small
              (All-middle (IsSent isn s.accepted v.over) before seg after (rw e at v.underway))
              v.receives;
        underway = v.underway;
      }
  Step-Sound s _ (pulled len) v = read-Sound len s v

  Reach-Sound : (s t : Session) → Reach s t → Sound isn s → Sound isn t
  Reach-Sound s _ here v = v
  Reach-Sound s _ (next {t} {u} r step) v = Step-Sound t u step (Reach-Sound s t r v)

start-Sound :
    (capacity retx_timeout window : ℕ) (fixed_isn : Option WrappingInt32) (random : WrappingInt32)
    → capacity < 2 ^ 64
    → window < 2 ^ 63
    → Sound
        (TcpSender.init capacity retx_timeout fixed_isn random).isn
        (start (TcpSender.init capacity retx_timeout fixed_isn random) (TcpReceiver.init window))
unfolding start TcpSender.init TcpReceiver.init StreamReassembler.init ByteStream.init
start-Sound capacity retx_timeout window fixed_isn random h k = record {
  over = false;
  sends = (
    [],
    record {
      valid = unfold ByteStream.init in init-IsValid capacity h;
      same_isn = refl;
      same_ended = refl;
      short = omega arith;
      count = refl;
      split = sym contents-empty;
      out = tt;
      track = tt;
    },
    unopened refl refl,
  );
  receives = record {
    same_isn = λ e. absurd (ground arith);
    room = k;
    count = refl;
    streams = λ source a. (
      unfold StreamReassembler.init ByteStream.init in init-Inv source window (omega (arith, k)),
      tt,
    );
    noted = λ e. absurd (ground arith);
    finished = λ e. absurd (ground arith);
  };
  underway = tt;
}

-- However the sender is driven, whatever acknowledgments it gets, and in whatever order, however often
-- or seldom its segments arrive: a read at the receiver returns without throwing, and what was read
-- before and these bytes are the start of what the sender's stream accepted. The initial sequence
-- number is a 32-bit number, the capacities are below 2^64 and 2^63, fewer than 2^31 bytes are written
-- in all, and none after the end of the input.
pub read-Session :
    (capacity retx_timeout window len : ℕ) (fixed_isn : Option WrappingInt32)
    (random : WrappingInt32) (s : Session)
    → capacity < 2 ^ 64
    → window < 2 ^ 63
    → (TcpSender.init capacity retx_timeout fixed_isn random).isn.raw_value < 2 ^ 32
    → Reach
        (start (TcpSender.init capacity retx_timeout fixed_isn random) (TcpReceiver.init window))
        s
    → (bytes rest : List ℕ) × ((ByteStream.read len s.receiver.reassembler.output).0 ≡ some bytes)
      × (s.accepted ≡ s.delivered ++ (bytes ++ rest))
read-Session capacity retx_timeout window len fixed_isn random s h k small path =
    let isn = (TcpSender.init capacity retx_timeout fixed_isn random).isn in
    let v =
      Reach-Sound isn small _ s path
        (start-Sound capacity retx_timeout window fixed_isn random h k) in
    let (_, cutting, _) = v.sends in
    next_lem isn s.accepted v.over s.delivered s.receiver len cutting.short v.receives

-- Where the receiver's stream is at its end, in a state that the sender's operations, any
-- acknowledgments and any arrivals of its segments lead to, the sender's input has ended and what
-- was read is all that was accepted. The initial sequence number is a 32-bit number, the capacities
-- are below 2^64 and 2^63, fewer than 2^31 bytes are written in all, and none after the end of the
-- input.
pub eof-Session :
    (capacity retx_timeout window : ℕ) (fixed_isn : Option WrappingInt32) (random : WrappingInt32)
    (s : Session)
    → capacity < 2 ^ 64
    → window < 2 ^ 63
    → (TcpSender.init capacity retx_timeout fixed_isn random).isn.raw_value < 2 ^ 32
    → Reach
        (start (TcpSender.init capacity retx_timeout fixed_isn random) (TcpReceiver.init window))
        s
    → ByteStream.eof s.receiver.reassembler.output ≡ true
    → (s.sender.stream.input_ended ≡ true) × (s.delivered ≡ s.accepted)
eof-Session capacity retx_timeout window fixed_isn random s h k small path at_end =
    let isn = (TcpSender.init capacity retx_timeout fixed_isn random).isn in
    let v =
      Reach-Sound isn small _ s path
        (start-Sound capacity retx_timeout window fixed_isn random h k) in
    let (_, cutting, _) = v.sends in
    let (over, all) = eof_lem isn s.accepted v.over s.delivered s.receiver v.receives at_end in
    (cutting.same_ended ∙ over, all)
