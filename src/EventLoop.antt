-- ===== src/EventLoop.antt =====
-- libsponge/util/eventloop.hh and eventloop.cc: callbacks for descriptors that are ready. What the
-- callbacks work on, the descriptors among it, is a parameter (`World`); a callback may throw, and
-- `interest` only looks. `poll` is a parameter too.
pub mod Rules
pub mod Polling
pub mod Keeping
mod Runs
use computer_network.Base.{
  ℕ, ◌+◌, Bool, true, false, not, ◌&&◌, ◌||◌, List, [], ◌∷◌, ◌++◌, map, ◌==◌, if◌then◌else◌,
  Outcome, state_after, returned, threw,
}
use computer_network.FileDescriptor.{FdWrapper}

-- `In = POLLIN`, `Out = POLLOUT`.
pub data Direction : Type 0 where
  in_direction out_direction : Direction

pub data Result : Type 0 where
  success timeout exit : Result

-- The bits of `revents` that the code looks at.
pub record Revents : Type 0 where
  pub pollin : Bool
  pub pollout : Bool
  pub pollerr : Bool
  pub pollnval : Bool
  pub pollhup : Bool

-- What `SystemCall("poll", …)` does: no descriptor is ready, a number of them is, or it throws a
-- `unix_error`, for a signal or for another reason. The events are given by their index.
pub data Polled : Type 0 where
  none_ready : Polled
  some_ready : (ℕ → Revents) → Polled
  interrupted : Polled
  failed : (ℕ → Revents) → Polled

pub record Rule (World : Type 0) : Type 0 where
  pub fd : World → FdWrapper
  pub direction : Direction
  pub callback : World → Outcome World
  pub interest : World → Bool
  pub cancel : World → World

-- What a call returns: the result, which counts where nothing was thrown, the rules and the world.
pub record Event (World : Type 0) : Type 0 where
  pub result : Result
  pub rules : List (Rule World)
  pub world : Outcome World

abbrev pub is_in : Direction → Bool
is_in in_direction = true
is_in out_direction = false

unfoldable pub poll_error : Revents → Bool
poll_error revents = revents.pollerr || revents.pollnval

module _ {World : Type 0} where
  unfoldable pub add_rule : Rule World → List (Rule World) → List (Rule World)
  add_rule rule rules = rules ++ rule ∷ []

  unfoldable pub service_count : Rule World → World → ℕ
  service_count rule w = elim rule.direction [
    | in_direction ↦ (rule.fd w).read_count
    | out_direction ↦ (rule.fd w).write_count
  ]

  -- The first two tests of the loop that sets up the descriptors: the rule is cancelled and erased.
  unfoldable pub defunct : Rule World → World → Bool
  defunct rule w = (is_in rule.direction && (rule.fd w).eof) || (rule.fd w).closed

  -- The loop: the rules that stay, each with whether its events are asked for.
  unfoldable pub set_up : List (Rule World) → World → List (Rule World × Bool) × World
  unfolding defunct
  set_up [] w = ([], w)
  set_up (rule ∷ rules) w =
      let (polls, w') = set_up rules w in
      if defunct rule w then set_up rules (rule.cancel w) else ((rule, rule.interest w) ∷ polls, w')

  unfoldable pub something_to_poll : List (Rule World × Bool) → Bool
  something_to_poll [] = false
  something_to_poll ((rule, asked) ∷ polls) = asked || something_to_poll polls

  -- `revents & events`, where `events` is the direction of the rule or nothing.
  unfoldable pub poll_ready : Rule World → Bool → Revents → Bool
  poll_ready rule asked revents =
      asked && (if is_in rule.direction then revents.pollin else revents.pollout)

  abbrev pub rules_of : List (Rule World × Bool) → List (Rule World)
  rules_of [] = []
  rules_of ((rule, asked) ∷ polls) = rule ∷ rules_of polls

  abbrev pub keeping :
      Rule World → List (Rule World) × Outcome World → List (Rule World) × Outcome World
  keeping rule (rules, w) = (rule ∷ rules, w)

  -- A ready rule: its callback, and the test for a busy wait. The flag is whether the loop goes on.
  unfoldable pub service : Rule World → World → Bool × Outcome World
  unfolding service_count
  service rule w = elim (rule.callback w) [
    | threw w' ↦ (false, threw w')
    | returned w' ↦
        if service_count rule w == service_count rule w' && rule.interest w'
        then (false, threw w')
        else (true, returned w')
  ]

  -- The loop over the results: the rules that are left, and what the callbacks leave.
  unfoldable pub dispatch :
      ℕ → (ℕ → Revents) → List (Rule World × Bool) → World → List (Rule World) × Outcome World
  unfolding poll_error poll_ready service
  dispatch idx revents [] w = ([], returned w)
  dispatch idx revents ((rule, asked) ∷ polls) w =
      let ready = poll_ready rule asked (revents idx) in
      let (goes_on, w') = service rule w in
      let stays = rule ∷ rules_of polls in
      let unserved = keeping rule (dispatch (idx + 1) revents polls w) in
      let served = keeping rule (dispatch (idx + 1) revents polls (state_after w')) in
      if poll_error (revents idx)
      then (stays, threw w)
      else if (revents idx).pollhup && asked && not ready
      then dispatch (idx + 1) revents polls (rule.cancel w)
      else if not ready
      then unserved
      else if goes_on
      then served
      else (stays, w')

  abbrev pub succeeded : List (Rule World) × Outcome World → Event World
  succeeded (rules, w) = record { result = success; rules = rules; world = w }

  -- After `poll`, which may let other threads change the world. Only a signal is told from other errors.
  unfoldable pub after_poll : List (Rule World × Bool) → Polled × World → Event World
  unfolding dispatch
  after_poll polls (none_ready, w) = record {
    result = timeout;
    rules = rules_of polls;
    world = returned w;
  }
  after_poll polls (interrupted, w) = record {
    result = exit;
    rules = rules_of polls;
    world = returned w;
  }
  after_poll polls (some_ready revents, w) = succeeded (dispatch 0 revents polls w)
  after_poll polls (failed revents, w) = succeeded (dispatch 0 revents polls w)

  unfoldable pub wait_next_event :
      (List (Rule World × Bool) → ℕ → World → Polled × World)
      → ℕ
      → List (Rule World)
      → World
      → Event World
  unfolding set_up something_to_poll after_poll
  wait_next_event poll timeout_ms rules w =
      let (polls, w') = set_up rules w in
      if not (something_to_poll polls)
      then record { result = exit; rules = rules_of polls; world = returned w' }
      else after_poll polls (poll polls timeout_ms w')
