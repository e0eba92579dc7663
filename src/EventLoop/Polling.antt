-- ===== src/EventLoop/Polling.antt =====
-- What a call does when `poll` fails.
use computer_network.Base.{ℕ, ◌+◌, ◌≡◌, refl, ap, Bool, true, false, List, [], ◌∷◌, returned, arith}
use computer_network.EventLoop.{
  Rule, Revents, Polled, failed, success, set_up, something_to_poll, poll_error, poll_ready,
  rules_of, dispatch, after_poll, wait_next_event, keeping,
}

-- No bit is set, as the descriptors are set up.
abbrev pub no_events : Revents
no_events = record {
  pollin = false;
  pollout = false;
  pollerr = false;
  pollnval = false;
  pollhup = false;
}

module _ {World : Type 0} where
  nothing_ready : (rule : Rule World) (asked : Bool) → poll_ready rule asked no_events ≡ false
  unfolding poll_ready
  nothing_ready rule asked = ground arith

  dispatch-none :
      (idx : ℕ) (polls : List (Rule World × Bool)) (w : World)
      → dispatch idx (λ i. no_events) polls w ≡ (rules_of polls, returned w)
  unfolding dispatch poll_error
  dispatch-none idx [] w = refl
  dispatch-none idx ((rule, asked) ∷ polls) w =
      rw (dispatch, nothing_ready rule asked) (ap (keeping rule) (dispatch-none (idx + 1) polls w))

  -- A call with something to poll, whose `poll` fails for another reason than a signal and sets no
  -- events, does not throw: it returns Success, leaves the world as `poll` left it, and keeps the rules
  -- that were polled, those that are left once the rules of descriptors at their end or closed have been
  -- cancelled and erased.
  pub wait_next_event-failed :
      (poll : List (Rule World × Bool) → ℕ → World → Polled × World) (timeout_ms : ℕ)
      (rules : List (Rule World)) (w w' : World)
      → something_to_poll (set_up rules w).0 ≡ true
      → poll (set_up rules w).0 timeout_ms (set_up rules w).1 ≡ (failed (λ i. no_events), w')
      → wait_next_event poll timeout_ms rules w
        ≡ record { result = success; rules = rules_of (set_up rules w).0; world = returned w' }
  unfolding wait_next_event after_poll
  wait_next_event-failed poll timeout_ms rules w w' some e =
      rw (wait_next_event, some, e, dispatch-none 0 (set_up rules w).0 w') refl
