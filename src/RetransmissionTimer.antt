-- ===== src/RetransmissionTimer.antt =====
-- libsponge/tcp_sender.hh, class RetransmissionTimer. `unsigned int` has 32 bits, `size_t` has 64.
use computer_network.Base.{ℕ, ◌+◌, ◌*◌, ◌%◌, ◌^◌, Bool, true, false, ltb, leb, if◌then◌else◌}
use computer_network.Words.{add32, add64}

pub record RetransmissionTimer : Type 0 where
  pub running : Bool
  pub init_rto : ℕ
  pub ms_since_running : ℕ
  pub rto : ℕ
  pub consecutive_retransmissions : ℕ

unfoldable pub init : ℕ → RetransmissionTimer
init retx_timeout = record {
  running = false;
  init_rto = retx_timeout;
  ms_since_running = 0;
  rto = retx_timeout;
  consecutive_retransmissions = 0;
}

-- Whether the time is up; else the time has passed.
unfoldable pub timeout : ℕ → RetransmissionTimer → Bool × RetransmissionTimer
timeout ms_since_last_tick t =
    if leb t.rto (add64 t.ms_since_running ms_since_last_tick)
    then (true, t)
    else (false, record t { ms_since_running = (t.ms_since_running + ms_since_last_tick) % 2 ^ 32 })

unfoldable pub reset_timer : ℕ → RetransmissionTimer → RetransmissionTimer
reset_timer window_size t =
    if t.running
    then record t {
      ms_since_running = 0;
      consecutive_retransmissions = add32 t.consecutive_retransmissions 1;
      rto = if ltb 0 window_size then t.rto * 2 % 2 ^ 32 else t.rto;
    }
    else t

unfoldable pub start : RetransmissionTimer → RetransmissionTimer
start t = record t {
  running = true;
  ms_since_running = 0;
  rto = t.init_rto;
  consecutive_retransmissions = 0;
}

unfoldable pub close : RetransmissionTimer → RetransmissionTimer
close t = record t { running = false; consecutive_retransmissions = 0 }
