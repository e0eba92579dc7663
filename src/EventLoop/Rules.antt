-- ===== src/EventLoop/Rules.antt =====
-- Which rules are left.
use computer_network.Base.{
  ℕ, ◌+◌, Bool, not, ◌&&◌, List, [], ◌∷◌, IsPartOf, all_done, kept, dropped, part_refl, part_trans,
  if_holds, Outcome, state_after,
}
use computer_network.EventLoop.{
  Rule, Event, Revents, Polled, none_ready, some_ready, interrupted, failed, defunct, set_up,
  something_to_poll, poll_error, poll_ready, rules_of, service, dispatch, after_poll,
  wait_next_event,
}

module _ {World : Type 0} where
  -- Of a pair, the rules are some of the given ones.
  PartRules : {B : Type 0} → List (Rule World) → List (Rule World) × B → Type 0
  PartRules rules p = IsPartOf p.0 rules

  PartPolls : List (Rule World) → List (Rule World × Bool) × World → Type 0
  PartPolls rules p = IsPartOf (rules_of p.0) rules

  pub set_up-part :
      (rules : List (Rule World)) (w : World) → IsPartOf (rules_of (set_up rules w).0) rules
  unfolding set_up PartPolls
  set_up-part [] w = all_done
  set_up-part (rule ∷ rules) w =
      if_holds (PartPolls (rule ∷ rules)) (defunct rule w)
        (λ _. dropped (set_up-part rules (rule.cancel w))) (λ _. kept (set_up-part rules w))

  dispatch-part :
      (idx : ℕ) (revents : ℕ → Revents) (polls : List (Rule World × Bool)) (w : World)
      → IsPartOf (dispatch idx revents polls w).0 (rules_of polls)
  unfolding dispatch PartRules
  dispatch-part idx revents [] w = all_done
  dispatch-part idx revents ((rule, asked) ∷ polls) w =
      let ready = poll_ready rule asked (revents idx) in
      let (goes_on, w') = service rule w in
      let all = part_refl (rule ∷ rules_of polls) in
      let P = PartRules {B = Outcome World} (rule ∷ rules_of polls) in
      if_holds P (poll_error (revents idx)) (λ _. all)
        (λ _.
          if_holds P ((revents idx).pollhup && asked && not ready)
            (λ _. dropped (dispatch-part (idx + 1) revents polls (rule.cancel w)))
            (λ _.
              if_holds P (not ready) (λ _. kept (dispatch-part (idx + 1) revents polls w))
                (λ _.
                  if_holds P goes_on
                    (λ _. kept (dispatch-part (idx + 1) revents polls (state_after w')))
                    (λ _. all))))

  after_poll-part :
      (polls : List (Rule World × Bool)) (p : Polled) (w : World)
      → IsPartOf (after_poll polls (p, w)).rules (rules_of polls)
  unfolding after_poll
  after_poll-part polls none_ready w = part_refl (rules_of polls)
  after_poll-part polls interrupted w = part_refl (rules_of polls)
  after_poll-part polls (some_ready revents) w = dispatch-part 0 revents polls w
  after_poll-part polls (failed revents) w = dispatch-part 0 revents polls w

  -- Whatever `poll` and the callbacks do, and where they throw: the rules that are left are some of those
  -- that were there, in their order.
  pub wait_next_event-part :
      (poll : List (Rule World × Bool) → ℕ → World → Polled × World) (timeout_ms : ℕ)
      (rules : List (Rule World)) (w : World)
      → IsPartOf (wait_next_event poll timeout_ms rules w).rules rules
  unfolding wait_next_event
  wait_next_event-part poll timeout_ms rules w =
      let (polls, w') = set_up rules w in
      let some = set_up-part rules w in
      if_holds {A = Event World} (λ e. IsPartOf e.rules rules) (not (something_to_poll polls))
        (λ _. some)
        (λ _.
          let (p, w'') = poll polls timeout_ms w' in part_trans (after_poll-part polls p w'') some)
