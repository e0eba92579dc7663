-- ===== src/Buffer.antt =====
-- libsponge/util/buffer.hh and buffer.cc, class Buffer: a read-only string that drops bytes from its
-- front. A byte is a number, a string a list of them. The string behind the `shared_ptr` is never
-- written, so buffers that share it are copies of the value.
use computer_network.Base.{
  ℕ, ◌+◌, ◌≤◌, ◌≡◌, refl, sym, Option, none, some, List, [], length, drop, ltb, ◌==◌, if◌then◌else◌,
  Outcome, returned, threw, Bool-cases, ==_iff, drop-drop, drop_all, drop-nil, inl, inr, arith,
  get_elem?,
}

pub record Buffer : Type 0 where
  pub storage : Option (List ℕ)
  pub starting_offset : ℕ

unfoldable pub empty : Buffer
empty = record { storage = none; starting_offset = 0 }

unfoldable pub of_string : List ℕ → Buffer
of_string s = record { storage = some s; starting_offset = 0 }

unfoldable pub str : Buffer → List ℕ
str b = elim b.storage [ none ↦ [] | some s ↦ drop b.starting_offset s ]

unfoldable pub size : Buffer → ℕ
size b = length (str b)

-- `std::string_view::at` throws past the end, which `none` stands for.
unfoldable pub at : Buffer → ℕ → Option ℕ
at b n = get_elem? (str b) n

unfoldable pub copy : Buffer → List ℕ
copy b = str b

-- The storage is given up when nothing of it is left.
drop_storage : Option (List ℕ) → ℕ → Buffer
drop_storage none offset = record { storage = none; starting_offset = offset }
drop_storage (some s) offset =
    if offset == length s
    then record { storage = none; starting_offset = offset }
    else record { storage = some s; starting_offset = offset }

unfoldable pub remove_prefix : ℕ → Buffer → Outcome Buffer
unfolding drop_storage size
remove_prefix n b =
    if ltb (size b) n then threw b else returned (drop_storage b.storage (b.starting_offset + n))

str-drop_storage :
    (o : Option (List ℕ)) (k n : ℕ)
    → str (drop_storage o (k + n)) ≡ drop n (str (record { storage = o; starting_offset = k }))
unfolding str drop_storage
str-drop_storage none k n = sym (drop-nil n)
str-drop_storage (some s) k n = elim (Bool-cases (k + n == length s)) [
  | inl e ↦
      rw e
        (rw (drop-drop n k s) (sym (drop_all (k + n) s (let e' = (==_iff _ _).0 e in omega arith))))
  | inr e ↦ rw e (sym (drop-drop n k s))
]

-- A prefix no longer than the string is dropped.
pub remove_prefix_le :
    (n : ℕ) (b : Buffer)
    → n ≤ size b
    → (b' : Buffer) × (remove_prefix n b ≡ returned b') × (str b' ≡ drop n (str b))
unfolding remove_prefix
remove_prefix_le n b h = (
  drop_storage b.storage (b.starting_offset + n),
  ground arith,
  str-drop_storage b.storage b.starting_offset n,
)

pub size-str : (b : Buffer) → size b ≡ length (str b)
unfolding size
size-str b = refl

pub str-of_string : (s : List ℕ) → str (of_string s) ≡ s
unfolding str of_string
str-of_string s = refl
