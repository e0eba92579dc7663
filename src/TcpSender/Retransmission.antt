-- ===== src/TcpSender/Retransmission.antt =====
-- That the oldest segment goes out again once its time is up, however the time is cut into ticks.
use computer_network.Base.{
  ℕ, ◌+◌, ◌%◌, ◌^◌, ◌≤◌, ◌<◌, ◌≡◌, refl, ap, ◌∙◌, true, false, List, [], ◌∷◌, ◌++◌, leb, Bool-cases,
  inl, inr, arith,
}
use computer_network.Words.{add32, add64}
use computer_network.RetransmissionTimer.{timeout, reset_timer}
use computer_network.TcpSegment.{TcpSegment}
use computer_network.TcpSender.{TcpSender, tick, retransmit}

unfoldable pub ticks : List ℕ → TcpSender → TcpSender
ticks [] s = s
ticks (ms ∷ more) s = ticks more (tick ms s)

unfoldable pub sum : List ℕ → ℕ
sum [] = 0
sum (ms ∷ more) = ms + sum more

-- A tick that does not reach the timeout, and one that does.
tick-waits :
    (ms : ℕ) (s : TcpSender)
    → s.timer.running ≡ true
    → s.timer.ms_since_running + ms < s.timer.rto
    → s.timer.ms_since_running + ms < 2 ^ 32
    → tick ms s
      ≡ record s { timer = record s.timer { ms_since_running = s.timer.ms_since_running + ms } }
unfolding tick timeout add64
tick-waits ms s r early small =
    let no : leb s.timer.rto ((s.timer.ms_since_running + ms) % 2 ^ 64) ≡ false = ground arith in
    let same : (s.timer.ms_since_running + ms) % 2 ^ 32 ≡ s.timer.ms_since_running + ms =
      omega arith in
    rw (tick, r, no, same) refl

tick-expires :
    (ms : ℕ) (s : TcpSender) (segment : TcpSegment) (track : List TcpSegment)
    → s.timer.running ≡ true
    → s.segments_track ≡ segment ∷ track
    → s.timer.rto ≤ s.timer.ms_since_running + ms
    → s.timer.ms_since_running + ms < 2 ^ 32
    → tick ms s ≡ record s {
      segments_out = s.segments_out ++ segment ∷ [];
      timer = reset_timer s.window_size s.timer;
    }
unfolding tick timeout retransmit add64
tick-expires ms s segment track r t late small =
    let yes : leb s.timer.rto ((s.timer.ms_since_running + ms) % 2 ^ 64) ≡ true = ground arith in
    rw (tick, r, yes, t) refl

-- Once the time that passes in ticks reaches the timeout, and before it reaches 2^32 milliseconds, the
-- oldest segment that waits has been sent again, by the last of the first few of the ticks, which send
-- nothing else; the timer starts over with one retransmission more.
pub ticks-retransmit :
    (ms : List ℕ) (s : TcpSender) (segment : TcpSegment) (track : List TcpSegment)
    → s.timer.running ≡ true
    → s.segments_track ≡ segment ∷ track
    → s.timer.ms_since_running < s.timer.rto
    → s.timer.rto ≤ s.timer.ms_since_running + sum ms
    → s.timer.ms_since_running + sum ms < 2 ^ 32
    → (before after : List ℕ) × (ms ≡ before ++ after)
      × ((ticks before s).segments_out ≡ s.segments_out ++ segment ∷ [])
      × ((ticks before s).timer.ms_since_running ≡ 0)
      × ((ticks before s).timer.consecutive_retransmissions
          ≡ add32 s.timer.consecutive_retransmissions 1)
unfolding ticks sum reset_timer
ticks-retransmit [] s segment track r t early late small = absurd (omega arith)
ticks-retransmit (ms ∷ more) s segment track r t early late small =
    elim (Bool-cases (leb s.timer.rto (s.timer.ms_since_running + ms))) [
      | inl e ↦
          let there = tick-expires ms s segment track r t (ground (arith, e)) (omega arith) in
          (
            ms ∷ [],
            more,
            refl,
            ap (λ z. z.segments_out) there,
            ap (λ z. z.timer.ms_since_running) there ∙ rw r refl,
            ap (λ z. z.timer.consecutive_retransmissions) there ∙ rw r refl,
          )
      | inr e ↦
          let less : s.timer.ms_since_running + ms < s.timer.rto = ground (arith, e) in
          let later = record s.timer { ms_since_running = s.timer.ms_since_running + ms } in
          let waits = tick-waits ms s r less (omega arith) in
          let (before, after, split, sent, zeroed, counted) =
            ticks-retransmit more (record s { timer = later }) segment track r t less (omega arith)
              (omega arith) in
          (
            ms ∷ before,
            after,
            ap (◌∷◌ ms) split,
            ap (λ z. (ticks before z).segments_out) waits ∙ sent,
            ap (λ z. (ticks before z).timer.ms_since_running) waits ∙ zeroed,
            ap (λ z. (ticks before z).timer.consecutive_retransmissions) waits ∙ counted,
          )
    ]
