-- ===== src/StreamReassembler/OrderedMap.antt =====
-- What stream_reassembler.cc uses of `std::map<size_t, std::string>`: entries in the order of their
-- keys. An iterator splits the entries into those before it and those from it on.
use computer_network.Base.{
  ℕ, ◌+◌, Option, none, some, List, [], ◌∷◌, length, ltb, ◌==◌, if◌then◌else◌,
}

abbrev pub Entries : Type 0
Entries = List (ℕ × List ℕ)

-- The entries from `upper_bound(key)` on, and those before it.
unfoldable pub from_upper_bound : ℕ → Entries → Entries
from_upper_bound key [] = []
from_upper_bound key ((k, s) ∷ m) = if ltb key k then (k, s) ∷ m else from_upper_bound key m

unfoldable pub before_upper_bound : ℕ → Entries → Entries
before_upper_bound key [] = []
before_upper_bound key ((k, s) ∷ m) = if ltb key k then [] else (k, s) ∷ before_upper_bound key m

-- The entry before an iterator, where it is not `begin()`.
unfoldable pub last_entry : Entries → Option (ℕ × List ℕ)
last_entry [] = none
last_entry (e ∷ []) = some e
last_entry (e ∷ e' ∷ m) = last_entry (e' ∷ m)

-- A key that is there keeps its value.
unfoldable pub emplace : ℕ → List ℕ → Entries → Entries
emplace key v [] = (key, v) ∷ []
emplace key v ((k, s) ∷ m) =
    if ltb key k
    then (key, v) ∷ (k, s) ∷ m
    else if key == k
    then (k, s) ∷ m
    else (k, s) ∷ emplace key v m

-- The number of bytes in the strings of the entries.
unfoldable pub total : Entries → ℕ
total [] = 0
total ((k, s) ∷ m) = length s + total m
