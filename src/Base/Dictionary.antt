-- ===== src/Base/Dictionary.antt =====
-- `std::unordered_map<uint32_t, V>` as a list of its entries, one for each key.
use Prim.Native.Nat.{ℕ}
use mathlib.Core.Path.{◌≡◌, refl}
use mathlib.Core.Option.{Option, none, some}
use mathlib.Core.List.{List, [], ◌∷◌}
use native.Mathlib.Omega.{arith}
use computer_network.Base.Tests.{◌==◌, if◌then◌else◌}

module _ {ℓ} {V : Type ℓ} where
  unfoldable pub find : ℕ → List (ℕ × V) → Option V
  find key [] = none
  find key ((k, v) ∷ m) = if k == key then some v else find key m

  -- `m[key] = value`.
  unfoldable pub assign : ℕ → V → List (ℕ × V) → List (ℕ × V)
  assign key value [] = (key, value) ∷ []
  assign key value ((k, v) ∷ m) = if k == key then (key, value) ∷ m else (k, v) ∷ assign key value m

  unfoldable pub erase : ℕ → List (ℕ × V) → List (ℕ × V)
  erase key [] = []
  erase key ((k, v) ∷ m) = if k == key then erase key m else (k, v) ∷ erase key m

  pub find-assign :
      (key j : ℕ) (value : V) (m : List (ℕ × V))
      → find j (assign key value m) ≡ (if key == j then some value else find j m)
  unfolding find assign
  find-assign key j value [] = refl
  find-assign key j value ((k, v) ∷ m) = ground (arith, find-assign key j value m)

  pub find-erase :
      (key j : ℕ) (m : List (ℕ × V)) → find j (erase key m) ≡ (if key == j then none else find j m)
  unfolding find erase
  find-erase key j [] = ground arith
  find-erase key j ((k, v) ∷ m) = ground (arith, find-erase key j m)
