-- ===== src/Resilience/Breaker.antt =====
-- `CircuitBreaker` (internal/resilience/circuitbreaker.go): its state and its methods.
use hozdacha.Base.{ℕ, ◌+◌, Bool, true, false, Result, ok, err, ltb, leb, if◌then◌else◌}

-- The constants 0, 1 and 2; `state` never holds another number.
pub data BreakerState : Type 0 where
  closed half_open : BreakerState
  open_state : BreakerState

pub record Breaker : Type 0 where
  pub failures : ℕ
  pub successes : ℕ
  pub state : BreakerState
  pub opened_at : ℕ
  pub fail_threshold : ℕ
  pub success_half_open : ℕ
  pub open_timeout : ℕ

abbrev pub second : ℕ
second = 1_000_000_000

unfoldable pub new_breaker : ℕ → ℕ → Breaker
new_breaker fail_threshold open_timeout = record {
  failures = 0;
  successes = 0;
  state = BreakerState.closed;
  opened_at = 0;
  fail_threshold = if ltb fail_threshold 1 then 5 else fail_threshold;
  success_half_open = 1;
  open_timeout = if ltb open_timeout second then 45_000_000_000 else open_timeout;
}

abbrev pub with_state : Breaker → BreakerState → Breaker
with_state b s = record {
  failures = b.failures;
  successes = b.successes;
  state = s;
  opened_at = b.opened_at;
  fail_threshold = b.fail_threshold;
  success_half_open = b.success_half_open;
  open_timeout = b.open_timeout;
}

abbrev pub with_failures : Breaker → ℕ → Breaker
with_failures b n = record {
  failures = n;
  successes = b.successes;
  state = b.state;
  opened_at = b.opened_at;
  fail_threshold = b.fail_threshold;
  success_half_open = b.success_half_open;
  open_timeout = b.open_timeout;
}

abbrev pub with_successes : Breaker → ℕ → Breaker
with_successes b n = record {
  failures = b.failures;
  successes = n;
  state = b.state;
  opened_at = b.opened_at;
  fail_threshold = b.fail_threshold;
  success_half_open = b.success_half_open;
  open_timeout = b.open_timeout;
}

-- `b.state = cbOpen` and `b.openedAt = time.Now()`.
abbrev pub trip : Breaker → ℕ → Breaker
trip b now = record {
  failures = b.failures;
  successes = b.successes;
  state = BreakerState.open_state;
  opened_at = now;
  fail_threshold = b.fail_threshold;
  success_half_open = b.success_half_open;
  open_timeout = b.open_timeout;
}

-- `now.Sub(b.openedAt) >= b.openTimeout`, for a positive timeout.
abbrev pub timed_out : Breaker → ℕ → Bool
timed_out b now = leb (b.opened_at + b.open_timeout) now

abbrev pub allow_in : BreakerState → Breaker → ℕ → Bool × Breaker
allow_in BreakerState.closed b now = (true, b)
allow_in BreakerState.open_state b now =
    if timed_out b now
    then (true, with_successes (with_state b BreakerState.half_open) 0)
    else (false, b)
allow_in BreakerState.half_open b now = (true, b)

unfoldable pub allow : Breaker → ℕ → Bool × Breaker
allow b now = allow_in b.state b now

abbrev pub close_after : Breaker → Breaker
close_after b =
    if leb b.success_half_open b.successes
    then with_failures (with_state b BreakerState.closed) 0
    else b

abbrev pub success_in : BreakerState → Breaker → Breaker
success_in BreakerState.half_open b = close_after (with_successes b (b.successes + 1))
success_in BreakerState.closed b = with_failures b 0
success_in BreakerState.open_state b = b

unfoldable pub on_success : Breaker → Breaker
on_success b = success_in b.state b

abbrev pub open_after : Breaker → ℕ → Breaker
open_after b now = if leb b.fail_threshold b.failures then trip b now else b

abbrev pub failure_in : BreakerState → Breaker → ℕ → Breaker
failure_in BreakerState.half_open b now = with_failures (trip b now) b.fail_threshold
failure_in BreakerState.closed b now = open_after (with_failures b (b.failures + 1)) now
failure_in BreakerState.open_state b now = b

unfoldable pub on_failure : Breaker → ℕ → Breaker
on_failure b now = failure_in b.state b now

pub data CallError (E : Type 0) : Type 0 where
  circuit_open : CallError E
  failed : E → CallError E

module _ {E : Type 0} where
  abbrev pub settle_call :
      Breaker → Result E (Unit {0}) → ℕ → Result (CallError E) (Unit {0}) × Breaker
  settle_call b (ok _) finished = (ok tt, on_success b)
  settle_call b (err e) finished = (err (CallError.failed e), on_failure b finished)

  abbrev pub call_allowed :
      Bool × Breaker → Result E (Unit {0}) → ℕ → Result (CallError E) (Unit {0}) × Breaker
  call_allowed (false, b) answer finished = (err CallError.circuit_open, b)
  call_allowed (true, b) answer finished = settle_call b answer finished

  -- `answer` is what `fn` gives when it is run, and `finished` the time when it has.
  unfoldable pub call :
      Breaker → ℕ → Result E (Unit {0}) → ℕ → Result (CallError E) (Unit {0}) × Breaker
  unfolding allow
  call b now answer finished = call_allowed (allow b now) answer finished
