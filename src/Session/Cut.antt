-- ===== src/Session/Cut.antt =====
-- What a segment of a sender carries: a piece of the bytes that its stream took, at their place.
use computer_network.Base.{
  ℕ, suc, ◌+◌, ◌≤◌, ◌≡◌, ◌⊎◌, refl, ap, ◌∙◌, inl, inr, Bool, true, false, List, [], ◌∷◌, ◌++◌,
  append_assoc, length, length-append, All, arith,
}
use computer_network.WrappingIntegers.{WrappingInt32, wrap}
use computer_network.TcpSegment.{TcpSegment}
use computer_network.StreamReassembler.Invariant.{Agrees}

-- A payload that stands in the bytes, with the sequence number of its first byte: the SYN is number 0.
pub record Cut (isn : WrappingInt32) (bytes : List ℕ) (seg : TcpSegment) : Type 0 where
  pub before : List ℕ
  pub after : List ℕ
  pub split : bytes ≡ before ++ (seg.payload ++ after)
  pub place : seg.header.seqno ≡ wrap (length before + 1) isn
  pub no_syn : seg.header.syn ≡ false

-- The end of the bytes, in the same way.
pub record Last (isn : WrappingInt32) (bytes : List ℕ) (seg : TcpSegment) : Type 0 where
  pub before : List ℕ
  pub split : bytes ≡ before ++ seg.payload
  pub place : seg.header.seqno ≡ wrap (length before + 1) isn
  pub no_syn : seg.header.syn ≡ false

-- `ended` is whether the bytes are all that will be written; only then is there a FIN.
pub record IsSent (isn : WrappingInt32) (bytes : List ℕ) (ended : Bool) (seg : TcpSegment)
    : Type 0 where
  pub syn_first : seg.header.syn ≡ true → seg.header.seqno ≡ wrap 0 isn
  pub carries : (seg.payload ≡ []) ⊎ Cut isn bytes seg
  pub last : seg.header.fin ≡ true → (ended ≡ true) × Last isn bytes seg

-- More bytes leave the pieces where they are.
IsSent-more :
    (isn : WrappingInt32) (bytes more : List ℕ) (seg : TcpSegment)
    → IsSent isn bytes false seg
    → IsSent isn (bytes ++ more) false seg
IsSent-more isn bytes more seg v = record {
  syn_first = v.syn_first;
  carries = elim v.carries [
    | inl e ↦ inl e
    | inr c ↦ inr (record {
      before = c.before;
      after = c.after ++ more;
      split =
          ap (λ b. b ++ more) c.split
          ∙ append_assoc c.before (seg.payload ++ c.after) more
          ∙ ap (◌++◌ c.before) (append_assoc seg.payload c.after more);
      place = c.place;
      no_syn = c.no_syn;
    })
  ];
  last = λ fin. let (e, _) = v.last fin in absurd (ground arith);
}

pub All-more :
    (isn : WrappingInt32) (bytes more : List ℕ) (segs : List TcpSegment)
    → All (IsSent isn bytes false) segs
    → All (IsSent isn (bytes ++ more) false) segs
All-more isn bytes more [] h = tt
All-more isn bytes more (seg ∷ segs) h =
    (IsSent-more isn bytes more seg h.0, All-more isn bytes more segs h.1)

-- The end of the input changes nothing in what was sent.
pub All-ended :
    (isn : WrappingInt32) (bytes : List ℕ) (ended : Bool) (segs : List TcpSegment)
    → All (IsSent isn bytes ended) segs
    → All (IsSent isn bytes true) segs
All-ended isn bytes ended [] h = tt
All-ended isn bytes ended (seg ∷ segs) h = (
  record {
    syn_first = h.0.syn_first;
    carries = h.0.carries;
    last = λ fin. (refl, (h.0.last fin).1);
  },
  All-ended isn bytes ended segs h.1,
)

module _ (source : ℕ → ℕ) where
  pub Agrees-front : (i : ℕ) (xs ys : List ℕ) → Agrees source i (xs ++ ys) → Agrees source i xs
  Agrees-front i [] ys h = tt
  Agrees-front i (x ∷ xs) ys h = (h.0, Agrees-front (suc i) xs ys h.1)

  pub Agrees-back :
      (i : ℕ) (xs ys : List ℕ) → Agrees source i (xs ++ ys) → Agrees source (i + length xs) ys
  Agrees-back i [] ys h = let e : i ≡ i + 0 = omega arith in rw e at h
  Agrees-back i (x ∷ xs) ys h =
      let e : suc i + length xs ≡ i + suc (length xs) = omega arith in
      rw e at (Agrees-back (suc i) xs ys h.1)

  -- A piece agrees with every stream that starts with the bytes.
  pub Agrees-Cut :
      (isn : WrappingInt32) (bytes : List ℕ) (seg : TcpSegment)
      → (c : Cut isn bytes seg) → Agrees source 0 bytes
      → Agrees source (length c.before) seg.payload
  Agrees-Cut isn bytes seg c h =
      let e : 0 + length c.before ≡ length c.before = omega arith in
      Agrees-front (length c.before) seg.payload c.after
        (rw e at (Agrees-back 0 c.before (seg.payload ++ c.after) (rw c.split at h)))

pub length-Cut :
    (isn : WrappingInt32) (bytes : List ℕ) (seg : TcpSegment)
    → (c : Cut isn bytes seg) → length c.before + length seg.payload ≤ length bytes
length-Cut isn bytes seg c = omega (
  arith,
  ap length c.split,
  length-append c.before (seg.payload ++ c.after),
  length-append seg.payload c.after,
)

pub length-Last :
    (isn : WrappingInt32) (bytes : List ℕ) (seg : TcpSegment)
    → (l : Last isn bytes seg) → length l.before + length seg.payload ≡ length bytes
length-Last isn bytes seg l = omega (arith, ap length l.split, length-append l.before seg.payload)
