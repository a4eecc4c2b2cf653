-- ===== src/Resilience/Examples.antt =====
-- The theorems on the breaker and the delays at concrete values.
use hozdacha.Base.{ℕ, List, [], ◌∷◌, Result, ok}
use hozdacha.Resilience.Breaker.{Breaker, BreakerState, new_breaker, second}
use hozdacha.Resilience.Closing.{Event, after_all, Counted, breaker-Counted}

abbrev events : List Event
events = Event.asked 5 ∷ Event.broke 6 ∷ Event.broke 7 ∷ Event.asked 8 ∷ Event.succeeded ∷ []

breaker-Counted_example : Counted (after_all (new_breaker 2 second) events)
breaker-Counted_example = breaker-Counted 2 second events

-- Open since 30, after three failures.
abbrev tripped : Breaker
tripped = record {
  failures = 3;
  successes = 0;
  state = BreakerState.open_state;
  opened_at = 30;
  fail_threshold = 3;
  success_half_open = 1;
  open_timeout = 100;
}

abbrev answer : Result ℕ (Unit {0})
answer = ok tt
