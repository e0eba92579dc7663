-- ===== src/NetParser/Runs.antt =====
-- The parser at concrete inputs.
use computer_network.Base.{◌≡◌, refl, [], ◌∷◌}
use computer_network.NetParser.{start, u32, put_u16}

u32_read : u32 (start (1 ∷ 2 ∷ 3 ∷ 4 ∷ 7 ∷ 8 ∷ [])) ≡ (0x0102_0304, start (7 ∷ 8 ∷ []))
unfolding u32 start
u32_read = refl

u16_written : put_u16 (9 ∷ []) 0xfffe ≡ 9 ∷ 0xff ∷ 0xfe ∷ []
unfolding put_u16
u16_written = refl
