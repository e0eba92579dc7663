-- ===== src/EventLoop/Runs.antt =====
-- One rule on a counter, which reads until the counter is 5.
use computer_network.Base.{ℕ, ◌+◌, ◌≡◌, refl, true, List, [], ◌∷◌, Bool, ltb, returned}
use computer_network.FileDescriptor.{init}
use computer_network.EventLoop.{
  Rule, Polled, some_ready, failed, success, in_direction, set_up, something_to_poll, rules_of,
  wait_next_event,
}
use computer_network.EventLoop.Polling.{no_events, wait_next_event-failed}

abbrev counting : Rule ℕ
counting = record {
  fd = λ w. record (init 3) { read_count = w };
  direction = in_direction;
  callback = λ w. returned (w + 1);
  interest = λ w. ltb w 5;
  cancel = λ w. w;
}

abbrev readable : List (Rule ℕ × Bool) → ℕ → ℕ → Polled × ℕ
readable polls timeout_ms w = (some_ready (λ i. record no_events { pollin = true }), w)

abbrev failing : List (Rule ℕ × Bool) → ℕ → ℕ → Polled × ℕ
failing polls timeout_ms w = (failed (λ i. no_events), w)

counted : (wait_next_event readable 100 (counting ∷ []) 2).world ≡ returned 3
unfolding wait_next_event init
counted = refl

wait_next_event-failed_example :
    wait_next_event failing 100 (counting ∷ []) 2
    ≡ record { result = success; rules = rules_of (set_up (counting ∷ []) 2).0; world = returned 2 }
unfolding set_up something_to_poll init
wait_next_event-failed_example = wait_next_event-failed failing 100 (counting ∷ []) 2 2 refl refl
