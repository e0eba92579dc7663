-- ===== src/InternetChecksum/Runs.antt =====
-- The checksum at concrete inputs.
use computer_network.Base.{ℕ, ◌≡◌, refl, List, [], ◌∷◌}
use computer_network.InternetChecksum.{init, add, value}

-- The words 0x4500 and 0xbcde, and their checksum after them.
abbrev words : List ℕ
words = 0x45 ∷ 0x00 ∷ 0xbc ∷ 0xde ∷ []

abbrev checked : List ℕ
checked = 0x45 ∷ 0x00 ∷ 0xbc ∷ 0xde ∷ 0xfe ∷ 0x20 ∷ []

value-words : value (add words (init 0)) ≡ 0xfe20
unfolding add init value
value-words = refl

value-checked : value (add checked (init 0)) ≡ 0
unfolding add init value
value-checked = refl
