-- ===== src/TcpSender/Runs.antt =====
-- A sender that opens a connection, writes and is acknowledged.
use computer_network.Base.{
  refl, true, List, ◌++◌, ℕ, ◌+◌, ◌<◌, ◌≤◌, ◌≡◌, ◌⊎◌, ◌^◌, ◌%◌, none, [], ◌∷◌, arith,
}
use computer_network.WrappingIntegers.{WrappingInt32}
use computer_network.ByteStream
use computer_network.ByteStream.Validity.{init-IsValid, write-IsValid}
use computer_network.RetransmissionTimer
use computer_network.TcpHeader
use computer_network.TcpSegment.{TcpSegment}
use computer_network.Words.{add32}
use computer_network.TcpSender.{TcpSender, init, fill_window, fill_loop, ack_received, open_window}
use computer_network.TcpSender.Flight.{
  Reach, here, next, filled, written, acknowledged, total, init-Counted,
}
use computer_network.TcpSender.Retransmission.{ticks, sum, ticks-retransmit}
use computer_network.TcpSender.Window.{Ready, fill_window-Window, fill_loop_fuel}

abbrev zero_isn : WrappingInt32
zero_isn = record { raw_value = 0xffff_ffff }

abbrev fresh : TcpSender
fresh = init 4000 1000 none zero_isn

abbrev loaded : TcpSender
loaded = record fresh { stream = ByteStream.write (1 ∷ 2 ∷ 3 ∷ []) fresh.stream }

abbrev opened : TcpSender
opened = fill_window loaded

abbrev answered : TcpSender
answered = ack_received (record { raw_value = 0 }) 2 opened

answered-Reach : Reach fresh answered
answered-Reach =
    next (next (next here (written (1 ∷ 2 ∷ 3 ∷ []))) filled)
      (acknowledged (record { raw_value = 0 }) 2)

init-Counted_example : answered.bytes_in_flight ≡ total answered.segments_track % 2 ^ 64
init-Counted_example = init-Counted 4000 1000 none zero_isn answered answered-Reach

loaded-Ready : (window : ℕ) → window < 2 ^ 16 → Ready window loaded
unfolding init
loaded-Ready window h = (
  write-IsValid (1 ∷ 2 ∷ 3 ∷ []) (ByteStream.init 4000) (init-IsValid 4000 (omega arith)),
  omega arith,
  omega arith,
  omega arith,
)

fill_window-Window_example :
    ((fill_window loaded).next_seqno_absolute ≤ loaded.abs_ackno + open_window loaded.window_size)
    ⊎ ((fill_window loaded).next_seqno_absolute ≡ loaded.next_seqno_absolute)
unfolding init
fill_window-Window_example = fill_window-Window loaded (loaded-Ready 1 (omega arith))

fill_loop_fuel_example : fill_loop 9 2 loaded ≡ fill_loop 3 2 loaded
unfolding init
fill_loop_fuel_example =
    fill_loop_fuel 3 9 2 loaded (loaded-Ready 2 (omega arith)) (omega arith) (omega arith)

-- A sender whose SYN waits for its acknowledgment.
abbrev syn_sent_segment : TcpSegment
syn_sent_segment = record {
  header = record TcpHeader.init { seqno = record { raw_value = 7 }; syn = true };
  payload = [];
}

abbrev syn_sent : TcpSender
syn_sent = record fresh {
  segments_track = syn_sent_segment ∷ [];
  next_seqno_absolute = 1;
  bytes_in_flight = 1;
  timer = RetransmissionTimer.start (RetransmissionTimer.init 1000);
}

ticks-retransmit_example :
    (before after : List ℕ) × (600 ∷ 700 ∷ 800 ∷ [] ≡ before ++ after)
    × ((ticks before syn_sent).segments_out ≡ syn_sent.segments_out ++ syn_sent_segment ∷ [])
    × ((ticks before syn_sent).timer.ms_since_running ≡ 0)
    × ((ticks before syn_sent).timer.consecutive_retransmissions
        ≡ add32 syn_sent.timer.consecutive_retransmissions 1)
unfolding sum RetransmissionTimer.init RetransmissionTimer.start
ticks-retransmit_example =
    ticks-retransmit (600 ∷ 700 ∷ 800 ∷ []) syn_sent syn_sent_segment [] refl refl (omega arith)
      (omega arith) (omega arith)
