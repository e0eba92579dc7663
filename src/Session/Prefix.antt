-- ===== src/Session/Prefix.antt =====
-- Bytes that agree with every stream that starts with some bytes are the first of these.
use computer_network.Base.{ℕ, zero, suc, ◌≡◌, refl, sym, ap₂, List, [], ◌∷◌, ◌++◌, arith}
use computer_network.StreamReassembler.Invariant.{Agrees}

-- The stream that starts with the bytes and goes on with `d` for ever.
unfoldable pub stream_of : ℕ → List ℕ → ℕ → ℕ
stream_of d [] i = d
stream_of d (b ∷ bytes) zero = b
stream_of d (b ∷ bytes) (suc i) = stream_of d bytes i

-- Looking one place further on.
Agrees-suc :
    (source : ℕ → ℕ) (i : ℕ) (xs : List ℕ)
    → Agrees source (suc i) xs
    → Agrees (λ k. source (suc k)) i xs
Agrees-suc source i [] h = tt
Agrees-suc source i (x ∷ xs) h = (h.0, Agrees-suc source (suc i) xs h.1)

suc-Agrees :
    (source : ℕ → ℕ) (i : ℕ) (xs : List ℕ)
    → Agrees (λ k. source (suc k)) i xs
    → Agrees source (suc i) xs
suc-Agrees source i [] h = tt
suc-Agrees source i (x ∷ xs) h = (h.0, suc-Agrees source (suc i) xs h.1)

pub stream_of-Agrees : (d : ℕ) (bytes : List ℕ) → Agrees (stream_of d bytes) 0 bytes
unfolding stream_of
stream_of-Agrees d [] = tt
stream_of-Agrees d (b ∷ bytes) =
    (refl, suc-Agrees (stream_of d (b ∷ bytes)) 0 bytes (stream_of-Agrees d bytes))

pub prefix_of :
    (bytes xs : List ℕ)
    → Agrees (stream_of 0 bytes) 0 xs
    → Agrees (stream_of 1 bytes) 0 xs
    → (rest : List ℕ) × (bytes ≡ xs ++ rest)
unfolding stream_of
prefix_of bytes [] h k = (bytes, refl)
prefix_of [] (x ∷ xs) h k = absurd (omega (arith, h.0, k.0))
prefix_of (b ∷ bytes) (x ∷ xs) h k =
    let (rest, e) =
      prefix_of bytes xs (Agrees-suc (stream_of 0 (b ∷ bytes)) 0 xs h.1)
        (Agrees-suc (stream_of 1 (b ∷ bytes)) 0 xs k.1) in
    (rest, ap₂ (λ y ys. y ∷ ys) (sym h.0) e)
