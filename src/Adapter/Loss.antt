-- ===== src/Adapter/Loss.antt =====
-- A run of writes through an adapter that drops segments.
use computer_network.Base.{
  ltb, ◌==◌, ◌%◌, ◌^◌, state_after, Bool-cases, inl, inr, ℕ, ◌≡◌, refl, sym, ap, ◌∙◌, true, false,
  List, [], ◌∷◌, if◌then◌else◌, Outcome, returned, threw, arith,
}
use computer_network.TcpSegment.{TcpSegment}
use computer_network.Adapter.{IsAdapter}
use computer_network.Adapter.Lossy.{LossyFdAdapter, adapter, should_drop, write, around}

-- Segments written one after the other, until a write throws.
unfoldable pub write_all : {A I : Type 0} → IsAdapter A I → List TcpSegment → A → Outcome A
write_all inner [] a = returned a
write_all inner (seg ∷ segs) a = elim (inner.write seg a).1 [
  | returned a' ↦ write_all inner segs a'
  | threw a' ↦ threw a'
]

unfoldable continue : {A I : Type 0} → IsAdapter A I → List TcpSegment → Outcome A → Outcome A
unfolding write_all
continue inner segs (returned a) = write_all inner segs a
continue inner segs (threw a) = threw a

abbrev pub on_outcome : {A B : Type 0} → (A → B) → Outcome A → Outcome B
on_outcome f (returned a) = returned (f a)
on_outcome f (threw a) = threw (f a)

write_all-cons :
    {A I : Type 0} (inner : IsAdapter A I) (seg : TcpSegment) (segs : List TcpSegment) (a : A)
    → write_all inner (seg ∷ segs) a ≡ continue inner segs (inner.write seg a).1
unfolding write_all continue
write_all-cons inner seg segs a = ground arith

module _ {A I G : Type 0} (inner : IsAdapter A I) (rand : G → ℕ × G) where
  -- The segments that get through at a loss rate, in units of 2^-16: at the rate 0 all of them, and else
  -- those at whose turn the generator gives a number whose lower 16 bits are not below the rate.
  unfoldable pub survivors : ℕ → List TcpSegment → G → List TcpSegment
  survivors loss [] g = []
  survivors loss (seg ∷ segs) g =
      let (number, g') = rand g in
      let undrawn = survivors loss segs g in
      let drawn = survivors loss segs g' in
      if loss == 0 then seg ∷ undrawn else if ltb (number % 2 ^ 16) loss then drawn else seg ∷ drawn

  -- An adapter whose writes leave the loss rate of its configuration alone.
  abbrev pub KeepsRate : Type 0
  KeepsRate =
      (seg : TcpSegment) (a : A)
      → (inner.config (state_after (inner.write seg a).1)).loss_rate_up
        ≡ (inner.config a).loss_rate_up

  -- What a run of writes does to the adapter inside.
  abbrev Runs : List TcpSegment → LossyFdAdapter inner rand → List TcpSegment → Type 0
  Runs segs a sent =
      on_outcome (λ l. l.adapter) (write_all (adapter inner rand) segs a)
      ≡ write_all inner sent a.adapter

  -- The rest of a run, after a write that the inner adapter made.
  rest_of_run :
      (loss : ℕ) (segs : List TcpSegment)
      → ((a : LossyFdAdapter inner rand)
          → (inner.config a.adapter).loss_rate_up ≡ loss
          → Runs segs a (survivors loss segs a.generator))
      → (o : Outcome A) (g : G) → (inner.config (state_after o)).loss_rate_up ≡ loss
      → on_outcome (λ l. l.adapter) (continue (adapter inner rand) segs (around inner rand g o))
        ≡ continue inner (survivors loss segs g) o
  unfolding continue around
  rest_of_run loss segs ih (returned a) g e = ih (record { generator = g; adapter = a }) e
  rest_of_run loss segs ih (threw a) g e = refl

  -- The write that starts a run: the rate is 0, or the number is below it, or it is not.
  write-lossless :
      (seg : TcpSegment) (a : LossyFdAdapter inner rand)
      → ((inner.config a.adapter).loss_rate_up == 0) ≡ true
      → (write inner rand seg a).1 ≡ around inner rand a.generator (inner.write seg a.adapter).1
  unfolding write should_drop
  write-lossless seg a e = rw e refl

  write-dropped :
      (seg : TcpSegment) (a : LossyFdAdapter inner rand)
      → ((inner.config a.adapter).loss_rate_up == 0) ≡ false
      → ltb ((rand a.generator).0 % 2 ^ 16) (inner.config a.adapter).loss_rate_up ≡ true
      → (write inner rand seg a).1 ≡ returned (record a { generator = (rand a.generator).1 })
  unfolding write should_drop
  write-dropped seg a e d = rw (e, d) refl

  write-through :
      (seg : TcpSegment) (a : LossyFdAdapter inner rand)
      → ((inner.config a.adapter).loss_rate_up == 0) ≡ false
      → ltb ((rand a.generator).0 % 2 ^ 16) (inner.config a.adapter).loss_rate_up ≡ false
      → (write inner rand seg a).1
        ≡ around inner rand (rand a.generator).1 (inner.write seg a.adapter).1
  unfolding write should_drop
  write-through seg a e d = rw (e, d) refl

  -- A run whose first write has been made by the inner adapter.
  made :
      (loss : ℕ) (seg : TcpSegment) (segs : List TcpSegment) (a : LossyFdAdapter inner rand) (g : G)
      → ((b : LossyFdAdapter inner rand)
          → (inner.config b.adapter).loss_rate_up ≡ loss
          → Runs segs b (survivors loss segs b.generator))
      → (inner.config (state_after (inner.write seg a.adapter).1)).loss_rate_up ≡ loss
      → (write inner rand seg a).1 ≡ around inner rand g (inner.write seg a.adapter).1
      → Runs (seg ∷ segs) a (seg ∷ survivors loss segs g)
  unfolding adapter
  made loss seg segs a g ih rate e =
      ap (on_outcome (λ l. l.adapter))
        (write_all-cons (adapter inner rand) seg segs a ∙ ap (continue (adapter inner rand) segs) e)
      ∙ rest_of_run loss segs ih (inner.write seg a.adapter).1 g rate
      ∙ sym (write_all-cons inner seg (survivors loss segs g) a.adapter)

  module _ (keeps : KeepsRate) where
    run :
        (loss : ℕ) (segs : List TcpSegment) (a : LossyFdAdapter inner rand)
        → (inner.config a.adapter).loss_rate_up ≡ loss
        → Runs segs a (survivors loss segs a.generator)
    unfolding write_all survivors continue adapter
    run loss [] a e = refl
    run loss (seg ∷ segs) a e =
        let rate = keeps seg a.adapter ∙ e in
        let g' = (rand a.generator).1 in
        let drop = ltb ((rand a.generator).0 % 2 ^ 16) loss in
        elim (Bool-cases (loss == 0)) [
          | inl zero_rate ↦ rw zero_rate (
              made loss seg segs a a.generator (run loss segs) rate
                (write-lossless seg a (ap (λ n. n == 0) e ∙ zero_rate)))
          | inr lossy ↦
              let lossy' = ap (λ n. n == 0) e ∙ lossy in
              elim (Bool-cases drop) [
                | inl d ↦
                    let d' = ap (λ n. ltb ((rand a.generator).0 % 2 ^ 16) n) e ∙ d in
                    rw (lossy, d)
                      (ap (on_outcome (λ l. l.adapter)) (
                          write_all-cons (adapter inner rand) seg segs a
                          ∙ ap (continue (adapter inner rand) segs) (write-dropped seg a lossy' d'))
                        ∙ run loss segs (record a { generator = g' }) e)
                | inr d ↦
                    let d' = ap (λ n. ltb ((rand a.generator).0 % 2 ^ 16) n) e ∙ d in
                    rw (lossy, d)
                      (made loss seg segs a g' (run loss segs) rate (write-through seg a lossy' d'))
              ]
        ]

  -- Segments written one after the other through the lossy adapter are written by the adapter inside it
  -- as far as they survive the uplink loss rate of its configuration, in their order, up to the same
  -- exception, when the adapter's writes leave that rate alone.
  pub write_all-survivors :
      KeepsRate
      → (segs : List TcpSegment) (a : LossyFdAdapter inner rand)
      → on_outcome (λ l. l.adapter) (write_all (adapter inner rand) segs a)
        ≡ write_all inner
            (survivors (inner.config a.adapter).loss_rate_up segs a.generator)
            a.adapter
  write_all-survivors keeps segs a = run keeps (inner.config a.adapter).loss_rate_up segs a refl
