-- ===== src/EventLoop/Keeping.antt =====
-- What every callback and every cancellation keeps, the loop keeps.
use computer_network.Base.{
  ℕ, ◌+◌, Bool, true, false, not, if◌then◌else◌, ◌&&◌, List, [], ◌∷◌, All, IsPartOf, all_done, kept,
  dropped, ◌==◌, if_holds, Outcome, returned, threw, state_after,
}
use computer_network.EventLoop.{
  Rule, Event, Revents, Polled, none_ready, some_ready, interrupted, failed, defunct, set_up,
  something_to_poll, poll_error, poll_ready, rules_of, service_count, service, dispatch, after_poll,
  wait_next_event,
}
use computer_network.EventLoop.Rules.{set_up-part, wait_next_event-part}

module _ {World : Type 0} (P : World → Type 0) where
  -- A callback and a cancellation that keep what holds of the world, also where the callback throws.
  pub record Keeps (rule : Rule World) : Type 0 where
    pub on_callback : (w : World) → P w → P (state_after (rule.callback w))
    pub on_cancel : (w : World) → P w → P (rule.cancel w)

  All-part :
      (rules rules' : List (Rule World))
      → IsPartOf rules' rules
      → All Keeps rules
      → All Keeps rules'
  All-part _ _ all_done h = tt
  All-part _ _ (kept {x} {xs} {ys} p) h = (h.0, All-part ys xs p h.1)
  All-part _ _ (dropped {y} {xs} {ys} p) h = All-part ys xs p h.1

  set_up-Keeps :
      (rules : List (Rule World)) (w : World) → All Keeps rules → P w → P (set_up rules w).1
  unfolding set_up
  set_up-Keeps [] w h p = p
  set_up-Keeps (rule ∷ rules) w h p =
      if_holds {A = List (Rule World × Bool) × World} (λ r. P r.1) (defunct rule w)
        (λ _. set_up-Keeps rules (rule.cancel w) h.1 (h.0.on_cancel w p))
        (λ _. set_up-Keeps rules w h.1 p)

  service-Keeps :
      (rule : Rule World) (w : World) → Keeps rule → P w → P (state_after (service rule w).1)
  unfolding service
  service-Keeps rule w k p = after (rule.callback w) (k.on_callback w p)
    where
      after :
          (o : Outcome World)
          → P (state_after o)
          → P (
              state_after {S = World}
                (elim o as (λ _. Bool × Outcome World) [
                  | threw w' ↦ (false, threw w')
                  | returned w' ↦
                      if service_count rule w == service_count rule w' && rule.interest w'
                      then (false, threw w')
                      else (true, returned w')
                ]).1)
      after (threw w') q = q
      after (returned w') q =
          if_holds {A = Bool × Outcome World} (λ r. P (state_after r.1))
            (service_count rule w == service_count rule w' && rule.interest w') (λ _. q) (λ _. q)

  KeepsPair : List (Rule World) × Outcome World → Type 0
  KeepsPair r = P (state_after r.1)

  dispatch-Keeps :
      (idx : ℕ) (revents : ℕ → Revents) (polls : List (Rule World × Bool)) (w : World)
      → All Keeps (rules_of polls)
      → P w
      → KeepsPair (dispatch idx revents polls w)
  unfolding dispatch KeepsPair
  dispatch-Keeps idx revents [] w h p = p
  dispatch-Keeps idx revents ((rule, asked) ∷ polls) w h p =
      let ready = poll_ready rule asked (revents idx) in
      let (goes_on, w') = service rule w in
      let q = service-Keeps rule w h.0 p in
      if_holds KeepsPair (poll_error (revents idx)) (λ _. p)
        (λ _.
          if_holds KeepsPair ((revents idx).pollhup && asked && not ready)
            (λ _. dispatch-Keeps (idx + 1) revents polls (rule.cancel w) h.1 (h.0.on_cancel w p))
            (λ _.
              if_holds KeepsPair (not ready) (λ _. dispatch-Keeps (idx + 1) revents polls w h.1 p)
                (λ _.
                  if_holds KeepsPair goes_on
                    (λ _. dispatch-Keeps (idx + 1) revents polls (state_after w') h.1 q) (λ _. q))))

  KeepsEvent : Event World → Type 0
  KeepsEvent e = P (state_after e.world)

  after_poll-Keeps :
      (polls : List (Rule World × Bool)) (p : Polled) (w : World)
      → All Keeps (rules_of polls)
      → P w
      → KeepsEvent (after_poll polls (p, w))
  unfolding after_poll KeepsEvent KeepsPair
  after_poll-Keeps polls none_ready w h q = q
  after_poll-Keeps polls interrupted w h q = q
  after_poll-Keeps polls (some_ready revents) w h q = dispatch-Keeps 0 revents polls w h q
  after_poll-Keeps polls (failed revents) w h q = dispatch-Keeps 0 revents polls w h q

  module _ (poll : List (Rule World × Bool) → ℕ → World → Polled × World)
      (polled : (polls : List (Rule World × Bool)) (timeout_ms : ℕ) (w : World)
        → P w
        → P (poll polls timeout_ms w).1) where
    -- One call of `wait_next_event` keeps what the callbacks, the cancellations and `poll` keep, also
    -- where it throws; and the rules that are left keep it.
    pub wait_next_event-Keeps :
        (timeout_ms : ℕ) (rules : List (Rule World)) (w : World)
        → All Keeps rules
        → P w
        → P (state_after (wait_next_event poll timeout_ms rules w).world)
          × All Keeps (wait_next_event poll timeout_ms rules w).rules
    unfolding wait_next_event KeepsEvent
    wait_next_event-Keeps timeout_ms rules w h p =
        let (polls, w') = set_up rules w in
        let q = set_up-Keeps rules w h p in
        let left = All-part rules (rules_of polls) (set_up-part rules w) h in
        (
          if_holds KeepsEvent (not (something_to_poll polls)) (λ _. q)
              (λ _.
                after_poll-Keeps polls (poll polls timeout_ms w').0 (poll polls timeout_ms w').1
                  left (polled polls timeout_ms w' q)),
          All-part rules _ (wait_next_event-part poll timeout_ms rules w) h,
        )
