-- ===== src/InternetChecksum.antt =====
-- libsponge/util/util.hh and util.cc, class InternetChecksum: the one's complement sum of 16-bit
-- words in network byte order.
pub mod Weight
pub mod Runs
pub mod Complement
use computer_network.Base.{
  ℕ, zero, suc, ◌+◌, ◌-◌, ◌*◌, ◌/◌, ◌%◌, ◌^◌, Bool, true, false, not, List, [], ◌∷◌, ltb,
  if◌then◌else◌, bit_and,
}

pub record InternetChecksum : Type 0 where
  pub sum : ℕ
  pub parity : Bool

unfoldable pub init : ℕ → InternetChecksum
init initial_sum = record { sum = initial_sum; parity = false }

unfoldable pub add_byte : ℕ → InternetChecksum → InternetChecksum
add_byte byte c = record {
  sum = (c.sum + (if c.parity then byte else byte * 2 ^ 8)) % 2 ^ 32;
  parity = not c.parity;
}

unfoldable pub add : List ℕ → InternetChecksum → InternetChecksum
unfolding add_byte
add [] c = c
add (b ∷ bs) c = add bs (add_byte b c)

-- `while (ret > 0xffff) ret = (ret >> 16) + (ret & 0xffff);` on fuel.
fold_loop : ℕ → ℕ → ℕ
fold_loop zero ret = ret
fold_loop (suc fuel) ret =
    let folded = fold_loop fuel (ret / 2 ^ 16 + bit_and ret 0xffff) in
    if ltb 0xffff ret then folded else ret

-- A sum of 32 bits is folded twice at most.
unfoldable pub value : InternetChecksum → ℕ
unfolding fold_loop
value c = 0xffff - fold_loop 2 c.sum
