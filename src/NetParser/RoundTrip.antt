-- ===== src/NetParser/RoundTrip.antt =====
-- Reading back the numbers that the unparser writes.
use computer_network.Base.{
  ℕ, zero, ◌/◌, ◌%◌, ◌^◌, ◌<◌, ◌≡◌, refl, ap, ◌∙◌, false, List, [], ◌∷◌, ◌++◌, length, drop,
  length-append, length-replicate, drop-append_le, drop_all, replicate, ltb, bit_and, arith,
}
use computer_network.Base.Bits.{bit_and-low}
use computer_network.NetParser.{start, remove_prefix, u32, u16, u8, put_u32, put_u16, put_u8}

-- The bytes that the unparser appends.
abbrev pub be32 : ℕ → List ℕ
be32 v = v / 2 ^ 24 % 256 ∷ v / 2 ^ 16 % 256 ∷ v / 2 ^ 8 % 256 ∷ v / 2 ^ 0 % 256 ∷ []

abbrev pub be16 : ℕ → List ℕ
be16 v = v / 2 ^ 8 % 256 ∷ v / 2 ^ 0 % 256 ∷ []

abbrev pub be8 : ℕ → List ℕ
be8 v = v / 2 ^ 0 % 256 ∷ []

low_byte : (x : ℕ) → bit_and x 0xff ≡ x % 256
low_byte x = bit_and-low 8 x

pub put_u32_lem : (s : List ℕ) (v : ℕ) → put_u32 s v ≡ s ++ be32 v
unfolding put_u32
put_u32_lem s v =
    rw (low_byte (v / 2 ^ 24), low_byte (v / 2 ^ 16), low_byte (v / 2 ^ 8), low_byte (v / 1)) refl

pub put_u16_lem : (s : List ℕ) (v : ℕ) → put_u16 s v ≡ s ++ be16 v
unfolding put_u16
put_u16_lem s v = rw (low_byte (v / 2 ^ 8), low_byte (v / 1)) refl

pub put_u8_lem : (s : List ℕ) (v : ℕ) → put_u8 s v ≡ s ++ be8 v
unfolding put_u8
put_u8_lem s v = rw (low_byte (v / 1)) refl

pub u32-start :
    (v : ℕ) (rest : List ℕ) → v < 2 ^ 32 → u32 (start (be32 v ++ rest)) ≡ (v, start rest)
unfolding u32 start
u32-start v rest h = ground arith

pub u16-start :
    (v : ℕ) (rest : List ℕ) → v < 2 ^ 16 → u16 (start (be16 v ++ rest)) ≡ (v, start rest)
unfolding u16 start
u16-start v rest h = ground arith

pub u8-start : (v : ℕ) (rest : List ℕ) → v < 2 ^ 8 → u8 (start (be8 v ++ rest)) ≡ (v, start rest)
unfolding u8 start
u8-start v rest h = ground arith

-- Zero bytes that are skipped.
pub drop-replicate : (n : ℕ) (rest : List ℕ) → drop n (replicate n 0 ++ rest) ≡ rest
drop-replicate n rest =
    let len : length (replicate n zero) ≡ n = length-replicate n zero in
    drop-append_le n (replicate n zero) rest (omega (arith, len))
    ∙ ap (λ s. s ++ rest) (drop_all n (replicate n zero) (omega (arith, len)))

pub replicate-long : (n : ℕ) (rest : List ℕ) → ltb (length (replicate n 0 ++ rest)) n ≡ false
replicate-long n rest =
    grind (arith, length-append (replicate n zero) rest, length-replicate n zero)

pub remove_prefix-replicate :
    (n : ℕ) (rest : List ℕ) → remove_prefix n (start (replicate n 0 ++ rest)) ≡ start rest
unfolding remove_prefix start
remove_prefix-replicate n rest = rw (replicate-long n rest, drop-replicate n rest) refl

-- A number of 32 bits that is appended to a string is read back from there, and what follows is left.
u32-put_u32 :
    (v : ℕ) (rest : List ℕ) → v < 2 ^ 32 → u32 (start (put_u32 [] v ++ rest)) ≡ (v, start rest)
u32-put_u32 v rest h = ap (λ s. u32 (start (s ++ rest))) (put_u32_lem [] v) ∙ u32-start v rest h

-- A number of 16 bits that is appended to a string is read back from there, and what follows is left.
pub u16-put_u16 :
    (v : ℕ) (rest : List ℕ) → v < 2 ^ 16 → u16 (start (put_u16 [] v ++ rest)) ≡ (v, start rest)
u16-put_u16 v rest h = ap (λ s. u16 (start (s ++ rest))) (put_u16_lem [] v) ∙ u16-start v rest h
