-- ===== src/InternetChecksum/Weight.antt =====
-- The sum as a function of the bytes alone.
use computer_network.Base.{
  ℕ, zero, suc, ◌+◌, ◌*◌, ◌%◌, ◌^◌, ◌≤◌, ◌<◌, ◌≡◌, refl, Bool, true, false, not, List, [], ◌∷◌,
  ◌++◌, All, length, replicate, if◌then◌else◌, arith,
}
use computer_network.InternetChecksum.{InternetChecksum, add, add_byte}

-- What bytes add to the sum, from an even or an odd place on.
unfoldable pub weight : Bool → List ℕ → ℕ
weight parity [] = 0
weight parity (b ∷ bs) = (if parity then b else b * 2 ^ 8) + weight (not parity) bs

pub sum-add :
    (bytes : List ℕ) (c : InternetChecksum)
    → c.sum < 2 ^ 32
    → (add bytes c).sum ≡ (c.sum + weight c.parity bytes) % 2 ^ 32
unfolding add weight
sum-add [] c h = omega arith
sum-add (b ∷ bs) c h = omega (arith, sum-add bs (add_byte b c) (omega arith))

pub add-append : (xs ys : List ℕ) (c : InternetChecksum) → add (xs ++ ys) c ≡ add ys (add xs c)
unfolding add
add-append [] ys c = refl
add-append (x ∷ xs) ys c = add-append xs ys (add_byte x c)

-- Bytes after a filling of zero bytes.
pub weight-replicate :
    (n : ℕ) (parity : Bool) (bytes : List ℕ)
    → All (λ b. b < 2 ^ 8) bytes
    → weight parity (replicate n 0 ++ bytes) ≤ 2 ^ 16 * length bytes
unfolding weight
weight-replicate zero parity [] h = omega arith
weight-replicate zero true (b ∷ bs) h = omega (arith, weight-replicate zero false bs h.1, h.0)
weight-replicate zero false (b ∷ bs) h = omega (arith, weight-replicate zero true bs h.1, h.0)
weight-replicate (suc n) true bytes h = omega (arith, weight-replicate n false bytes h)
weight-replicate (suc n) false bytes h = omega (arith, weight-replicate n true bytes h)
