-- ===== src/StreamReassembler/Invariant.antt =====
-- The invariant of a reassembler, against the stream that its peer sends: the byte at position i of
-- that stream is `source i`.
use computer_network.Base.{
  ℕ, zero, suc, ◌+◌, ◌≤◌, ◌<◌, ◌≡◌, ◌^◌, refl, List, [], ◌∷◌, ◌++◌, length, take, drop, arith,
}
use computer_network.ByteStream.Validity.{IsValid, held}
use computer_network.StreamReassembler.{StreamReassembler}
use computer_network.StreamReassembler.OrderedMap.{Entries, total}

module _ (source : ℕ → ℕ) where
  -- The string is what the stream has from the position on.
  abbrev pub Agrees : ℕ → List ℕ → Type 0
  Agrees i [] = Unit {0}
  Agrees i (x ∷ xs) = (x ≡ source i) × Agrees (suc i) xs

  -- Strings of the stream, none empty, in order, without overlap, all in [lo, hi).
  abbrev pub Stored : ℕ → ℕ → Entries → Type 0
  Stored lo hi [] = Unit {0}
  Stored lo hi ((k, s) ∷ m) =
      (lo ≤ k) × (0 < length s) × (k + length s ≤ hi) × Agrees k s × Stored (k + length s) hi m

  pub Agrees-append :
      (i : ℕ) (xs ys : List ℕ) → Agrees i xs → Agrees (i + length xs) ys → Agrees i (xs ++ ys)
  Agrees-append i [] ys hx hy = let e : i + 0 ≡ i = omega arith in rw e at hy
  Agrees-append i (x ∷ xs) ys hx hy =
      let e : i + suc (length xs) ≡ suc i + length xs = omega arith in
      (hx.0, Agrees-append (suc i) xs ys hx.1 (rw e at hy))

  pub Agrees-take : (n i : ℕ) (xs : List ℕ) → Agrees i xs → Agrees i (take n xs)
  Agrees-take zero i xs h = tt
  Agrees-take (suc n) i [] h = tt
  Agrees-take (suc n) i (x ∷ xs) h = (h.0, Agrees-take n (suc i) xs h.1)

  pub Agrees-drop : (n i : ℕ) (xs : List ℕ) → Agrees i xs → Agrees (i + n) (drop n xs)
  Agrees-drop zero i xs h = let e : i ≡ i + 0 = omega arith in rw e at h
  Agrees-drop (suc n) i [] h = tt
  Agrees-drop (suc n) i (x ∷ xs) h =
      let e : suc i + n ≡ i + suc n = omega arith in rw e at (Agrees-drop n (suc i) xs h.1)

  pub Stored-lower : (lo lo' hi : ℕ) (m : Entries) → lo' ≤ lo → Stored lo hi m → Stored lo' hi m
  Stored-lower lo lo' hi [] h st = tt
  Stored-lower lo lo' hi ((k, s) ∷ m) h st = (omega arith, st.1, st.2, st.3, st.4)

  pub Stored-upper : (lo hi hi' : ℕ) (m : Entries) → hi ≤ hi' → Stored lo hi m → Stored lo hi' m
  Stored-upper lo hi hi' [] h st = tt
  Stored-upper lo hi hi' ((k, s) ∷ m) h st =
      (st.0, st.1, omega arith, st.3, Stored-upper (k + length s) hi hi' m h st.4)

  -- Entries below a bound, then entries from it on.
  pub Stored-append :
      (lo mid hi : ℕ) (m m' : Entries)
      → lo ≤ mid
      → mid ≤ hi
      → Stored lo mid m
      → Stored mid hi m'
      → Stored lo hi (m ++ m')
  Stored-append lo mid hi [] m' h h' st st' = Stored-lower mid lo hi m' h st'
  Stored-append lo mid hi ((k, s) ∷ m) m' h h' st st' =
      (st.0, st.1, omega arith, st.3, Stored-append (k + length s) mid hi m m' st.2 h' st.4 st')

  -- No room, no entry.
  pub Stored-none : (lo hi : ℕ) (m : Entries) → hi ≤ lo → Stored lo hi m → m ≡ []
  Stored-none lo hi [] h st = refl
  Stored-none lo hi ((k, s) ∷ m) h st = absurd (omega arith)

  pub total-le : (lo hi : ℕ) (m : Entries) → lo ≤ hi → Stored lo hi m → lo + total m ≤ hi
  unfolding total
  total-le lo hi [] h st = omega arith
  total-le lo hi ((k, s) ∷ m) h st = omega (arith, total-le (k + length s) hi m st.2 st.4)

pub total-append : (m m' : Entries) → total (m ++ m') ≡ total m + total m'
unfolding total
total-append [] m' = omega arith
total-append ((k, s) ∷ m) m' = omega (arith, total-append m m')

-- The output holds the stream from `bytes_read` on, `next_pos` is the first position that was not
-- written, and everything stored lies in the window that starts there. The last number of the window
-- fits in 64 bits.
pub record Inv (source : ℕ → ℕ) (r : StreamReassembler) : Type 0 where
  pub out_valid : IsValid r.output
  pub in_order : Agrees source r.output.bytes_read (held r.output)
  pub same_capacity : r.output.capacity ≡ r.capacity
  pub limit : r.output.bytes_read + r.capacity < 2 ^ 64
  pub next_written : r.next_pos ≡ r.output.bytes_written
  pub stored : Stored source r.next_pos (r.output.bytes_read + r.capacity) r.unassemble_buffer
  pub counted : r.unassembled_bytes ≡ total r.unassemble_buffer
