-- ===== src/NetParser.antt =====
-- libsponge/util/parser.hh and parser.cc: integers in network byte order, read from the front of a
-- buffer and written to the end of a string. The buffer is the string that `Buffer::str()` shows;
-- `remove_prefix` is called only after a size check, so that it does not throw.
pub mod Runs
pub mod RoundTrip
use computer_network.Base.{
  ℕ, zero, suc, ◌+◌, ◌*◌, ◌/◌, ◌%◌, ◌^◌, Bool, true, false, List, [], ◌∷◌, ◌++◌, length, take, drop,
  ltb, if◌then◌else◌, bit_and,
}

pub data ParseResult : Type 0 where
  no_error bad_checksum packet_too_short wrong_ip_version : ParseResult
  header_too_short truncated_packet unsupported : ParseResult

pub record NetParser : Type 0 where
  pub buffer : List ℕ
  pub result : ParseResult

unfoldable pub start : List ℕ → NetParser
start buffer = record { buffer = buffer; result = no_error }

abbrev pub is_error : ParseResult → Bool
is_error no_error = false
is_error _ = true

unfoldable pub error : NetParser → Bool
error p = is_error p.result

-- What a parser method returns, and the parser after it.
abbrev pub Parser : Type 0 → Type 0
Parser A = NetParser → A × NetParser

infixl 5 ◌>>=◌ ◌>>◌
abbrev pub ◌>>=◌ : {A B : Type 0} → Parser A → (A → Parser B) → Parser B
◌>>=◌ m f p = f (m p).0 (m p).1

abbrev pub ◌>>◌ : {A B : Type 0} → Parser A → Parser B → Parser B
◌>>◌ m k p = k (m p).1

abbrev pub pure : {A : Type 0} → A → Parser A
pure a p = (a, p)

check_size : ℕ → NetParser → NetParser
check_size size p = if ltb (length p.buffer) size then record p { result = packet_too_short } else p

-- `ret <<= 8; ret += byte`, in an integer type of the given modulus.
accumulate : ℕ → ℕ → List ℕ → ℕ
accumulate modulus ret [] = ret
accumulate modulus ret (b ∷ bs) = accumulate modulus ((ret * 2 ^ 8 % modulus + b) % modulus) bs

unfoldable pub parse_int : ℕ → Parser ℕ
unfolding check_size error accumulate
parse_int size p =
    let p' = check_size size p in
    if error p' then (0, p') else (
      accumulate (256 ^ size) 0 (take size p'.buffer),
      record p' { buffer = drop size p'.buffer },
    )

unfoldable pub u32 : Parser ℕ
unfolding parse_int
u32 = parse_int 4

unfoldable pub u16 : Parser ℕ
unfolding parse_int
u16 = parse_int 2

unfoldable pub u8 : Parser ℕ
unfolding parse_int
u8 = parse_int 1

unfoldable pub remove_prefix : ℕ → NetParser → NetParser
unfolding check_size error
remove_prefix n p =
    let p' = check_size n p in if error p' then p' else record p' { buffer = drop n p'.buffer }

-- The bytes from the one with `left` more behind it on: `(val >> (left * 8)) & 0xff`, and so on.
bytes_of : ℕ → ℕ → List ℕ
bytes_of zero val = []
bytes_of (suc left) val = bit_and (val / 2 ^ (left * 8)) 0xff ∷ bytes_of left val

unfoldable pub unparse_int : ℕ → List ℕ → ℕ → List ℕ
unfolding bytes_of
unparse_int size s val = s ++ bytes_of size val

unfoldable pub put_u32 : List ℕ → ℕ → List ℕ
unfolding unparse_int
put_u32 s val = unparse_int 4 s val

unfoldable pub put_u16 : List ℕ → ℕ → List ℕ
unfolding unparse_int
put_u16 s val = unparse_int 2 s val

unfoldable pub put_u8 : List ℕ → ℕ → List ℕ
unfolding unparse_int
put_u8 s val = unparse_int 1 s val
