-- ===== src/WrappingIntegers/RoundTrip.antt =====
-- How `wrap` and `unwrap` undo one another, and which of the absolute numbers `unwrap` picks.
use computer_network.Base.{
  ℕ, ◌+◌, ◌-◌, ◌%◌, ◌^◌, ◌≤◌, ◌<◌, ◌≡◌, refl, ap, inl, inr, Bool-cases, Bool, not, ◌&&◌, ◌==◌, leb,
  if◌then◌else◌, bit_and, arith,
}
use computer_network.Base.Bits.{bit_and-bit}
use computer_network.Words.{add32, sub32, add64, sub64}
use computer_network.WrappingIntegers.{WrappingInt32, plus, wrap, diff, unwrap}

abbrev pub IsRaw32 : WrappingInt32 → Type 0
IsRaw32 w = w.raw_value < 2 ^ 32

-- The sign bit of the offset, as `unwrap` tests it.
sign_bit : (x : ℕ) → x < 2 ^ 32 → not (bit_and x (2 ^ 31) == 0) ≡ leb (2 ^ 31) x
sign_bit x h = ground (arith, bit_and-bit 31 x)

-- `unwrap` in plain arithmetic: a step of at most 2^31 ahead, or a shorter one back, except where
-- the step back would pass 0.
unwrap_offset :
    (n isn : WrappingInt32) (c : ℕ)
    → (d : ℕ) → d ≡ diff n (wrap c isn)
    → d < 2 ^ 32
    → c < 2 ^ 63
    → unwrap n isn c ≡ (if leb (2 ^ 31) d && leb (2 ^ 32) (c + d) then c + d - 2 ^ 32 else c + d)
unfolding unwrap add64 sub64
unwrap_offset n isn c d e h hc = rw (← e, unwrap, sign_bit d h) (ground arith)

-- `unwrap` gives an absolute number that wraps to `n`, wherever the checkpoint is.
pub wrap-unwrap :
    (n isn : WrappingInt32) (checkpoint : ℕ)
    → IsRaw32 n
    → IsRaw32 isn
    → wrap (unwrap n isn checkpoint) isn ≡ n
unfolding unwrap wrap plus diff add32 sub32 add64 sub64
wrap-unwrap n isn c hn hi = elim (Bool-cases b) [
  | inl e ↦ rw e (ap (λ k. record { raw_value = k }) (omega arith))
  | inr e ↦ rw e (ap (λ k. record { raw_value = k }) (omega arith))
]
  where
    offset : ℕ
    offset = diff n (wrap c isn)

    b : Bool
    b = not (bit_and offset (2 ^ 31) == 0) && leb (2 ^ 32) (add64 c offset)

-- The distance of two numbers.
abbrev pub dist : ℕ → ℕ → ℕ
dist a b = (a - b) + (b - a)

-- The offset leads from the checkpoint to `n`, up to whole turns.
diff-wrap :
    (n c : ℕ) (isn : WrappingInt32)
    → (diff (wrap n isn) (wrap c isn) < 2 ^ 32)
      × ((c + diff (wrap n isn) (wrap c isn)) % 2 ^ 32 ≡ n % 2 ^ 32)
unfolding diff wrap plus add32 sub32
diff-wrap n c isn = omega arith

near :
    (n c d : ℕ)
    → d < 2 ^ 32
    → (c + d) % 2 ^ 32 ≡ n % 2 ^ 32
    → n < c + 2 ^ 31
    → c ≤ n + 2 ^ 31
    → (if leb (2 ^ 31) d && leb (2 ^ 32) (c + d) then c + d - 2 ^ 32 else c + d) ≡ n
near n c d h e ahead behind = ground arith

nearest :
    (m c d : ℕ)
    → d < 2 ^ 32
    → (c + d) % 2 ^ 32 ≡ m % 2 ^ 32
    → dist (if leb (2 ^ 31) d && leb (2 ^ 32) (c + d) then c + d - 2 ^ 32 else c + d) c ≤ dist m c
nearest m c d h e = ground arith

-- An absolute number less than 2^31 ahead of the checkpoint, or at most 2^31 behind it, comes back
-- from `unwrap` as it was wrapped.
pub unwrap-wrap :
    (n checkpoint : ℕ) (isn : WrappingInt32)
    → checkpoint < 2 ^ 63
    → n < checkpoint + 2 ^ 31
    → checkpoint ≤ n + 2 ^ 31
    → unwrap (wrap n isn) isn checkpoint ≡ n
unwrap-wrap n c isn hc ahead behind =
    let (small, same) = diff-wrap n c isn in
    rw (unwrap_offset (wrap n isn) isn c _ refl small hc) (near n c _ small same ahead behind)

-- No absolute number that wraps to `n` is nearer to the checkpoint than the one `unwrap` gives.
pub unwrap_nearest :
    (n isn : WrappingInt32) (checkpoint m : ℕ)
    → checkpoint < 2 ^ 63
    → wrap m isn ≡ n
    → dist (unwrap n isn checkpoint) checkpoint ≤ dist m checkpoint
unwrap_nearest n isn c m hc e =
    let (small, same) = diff-wrap m c isn in
    rw (← e) (rw (unwrap_offset (wrap m isn) isn c _ refl small hc) (nearest m c _ small same))
