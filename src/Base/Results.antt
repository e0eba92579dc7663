-- ===== src/Base/Results.antt =====
-- What a C++ method that may throw leaves: the object after a normal return, or the object as the
-- exception found it.
pub data Outcome {ℓ} (S : Type ℓ) : Type ℓ where
  returned : S → Outcome S
  threw : S → Outcome S

module _ {ℓ} {S : Type ℓ} where
  -- The object that is left, whether the method threw or not.
  abbrev pub state_after : Outcome S → S
  state_after (returned s) = s
  state_after (threw s) = s
