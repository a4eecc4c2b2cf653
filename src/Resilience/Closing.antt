-- ===== src/Resilience/Closing.antt =====
-- What the methods of the breaker promise together, in any order.
use mathlib.Core.Bool.{false≢true}
use hozdacha.Base.{
  ℕ, ◌+◌, ◌≤◌, ◌<◌, ◌≡◌, inl, inr, refl, sym, ap, subst, ◌∙◌, true, false, List, [], ◌∷◌, length,
  Result, ok, err, is_ok, Bool-cases, ltb, leb, arith,
}
use hozdacha.Resilience.Breaker.{
  Breaker, BreakerState, CallError, new_breaker, allow_in, success_in, failure_in, timed_out,
  with_failures, trip, call_allowed, settle_call, with_state, with_successes, allow, on_success,
  on_failure, call, open_after,
}

-- The steps of any number of calls that run at the same time, with the time of each.
pub data Event : Type 0 where
  asked : ℕ → Event
  succeeded : Event
  broke : ℕ → Event

abbrev pub after : Breaker → Event → Breaker
after b (Event.asked now) = (allow b now).1
after b Event.succeeded = on_success b
after b (Event.broke now) = on_failure b now

unfoldable pub after_all : Breaker → List Event → Breaker
unfolding allow on_success on_failure
after_all b [] = b
after_all b (e ∷ es) = after_all (after b e) es

abbrev pub CountsIn : BreakerState → Breaker → Type 0
CountsIn BreakerState.closed b = b.failures < b.fail_threshold
CountsIn BreakerState.open_state b = b.fail_threshold ≤ b.failures
CountsIn BreakerState.half_open b = (b.fail_threshold ≤ b.failures) × (b.successes ≡ 0)

abbrev pub Counted : Breaker → Type 0
Counted b = (0 < b.fail_threshold) × (b.success_half_open ≡ 1) × CountsIn b.state b

allow_in-Counted :
    (s : BreakerState) (b : Breaker) (now : ℕ)
    → Counted b
    → CountsIn s b
    → Counted (allow_in s b now).1
allow_in-Counted BreakerState.closed b now h c = h
allow_in-Counted BreakerState.open_state b now (t, one, k) c = elim (Bool-cases (timed_out b now)) [
  | inl e ↦ rw e (t, one, (c, refl))
  | inr e ↦ rw e (t, one, k)
]
allow_in-Counted BreakerState.half_open b now h c = h

success_in-Counted :
    (s : BreakerState) (b : Breaker)
    → b.state ≡ s
    → Counted b
    → CountsIn s b
    → Counted (success_in s b)
success_in-Counted BreakerState.closed b q (t, one, k) c =
    (t, one, subst (λ s. CountsIn s (with_failures b 0)) (sym q) t)
success_in-Counted BreakerState.open_state b q h c = h
success_in-Counted BreakerState.half_open b q (t, one, k) (c, z) =
    let e : leb b.success_half_open (b.successes + 1) ≡ true = rw (one, z) refl in rw e (t, one, t)

failure_in-Counted :
    (s : BreakerState) (b : Breaker) (now : ℕ)
    → b.state ≡ s
    → Counted b
    → CountsIn s b
    → Counted (failure_in s b now)
failure_in-Counted BreakerState.closed b now q (t, one, k) c =
    elim (Bool-cases (leb b.fail_threshold (b.failures + 1))) [
      | inl e ↦ rw e (t, one, ground arith)
      | inr e ↦ rw e (
        t,
        one,
        subst (λ s. CountsIn s (with_failures b (b.failures + 1))) (sym q) (ground arith),
      )
    ]
failure_in-Counted BreakerState.open_state b now q h c = h
failure_in-Counted BreakerState.half_open b now q (t, one, k) c = (t, one, omega arith)

after-Counted : (b : Breaker) (e : Event) → Counted b → Counted (after b e)
unfolding allow on_success on_failure
after-Counted b (Event.asked now) (t, one, k) = allow_in-Counted b.state b now (t, one, k) k
after-Counted b Event.succeeded (t, one, k) = success_in-Counted b.state b refl (t, one, k) k
after-Counted b (Event.broke now) (t, one, k) = failure_in-Counted b.state b now refl (t, one, k) k

after_all-Counted : (b : Breaker) (es : List Event) → Counted b → Counted (after_all b es)
unfolding after_all
after_all-Counted b [] h = h
after_all-Counted b (e ∷ es) h = after_all-Counted (after b e) es (after-Counted b e h)

new_breaker-Counted : (n timeout : ℕ) → Counted (new_breaker n timeout)
unfolding new_breaker
new_breaker-Counted n timeout = elim (Bool-cases (ltb n 1)) [
  | inl e ↦ rw e (omega arith, refl, omega arith)
  | inr e ↦ rw e (ground arith, refl, ground arith)
]

-- A breaker is closed exactly while its failures are fewer than the threshold, whatever calls ran,
-- at whatever times, and however their steps interleave; while it is half open it has counted no
-- success.
pub breaker-Counted :
    (n timeout : ℕ) (es : List Event) → Counted (after_all (new_breaker n timeout) es)
breaker-Counted n timeout es =
    after_all-Counted (new_breaker n timeout) es (new_breaker-Counted n timeout)

-- The calls that fail one after the other, at the times of the list.
unfoldable pub fail_at : Breaker → List ℕ → Breaker
unfolding on_failure
fail_at b [] = b
fail_at b (now ∷ times) = fail_at (on_failure b now) times

on_failure-closed :
    (b : Breaker) (now : ℕ)
    → b.state ≡ BreakerState.closed
    → on_failure b now ≡ open_after (with_failures b (b.failures + 1)) now
unfolding on_failure
on_failure-closed b now q = ap (λ s. failure_in s b now) q

fails_below :
    (b : Breaker) (times : List ℕ)
    → b.state ≡ BreakerState.closed
    → b.failures + length times < b.fail_threshold
    → fail_at b times ≡ with_failures b (b.failures + length times)
unfolding fail_at
fails_below b [] q h = ap (with_failures b) (omega arith)
fails_below b (now ∷ times) q h =
    let below : leb b.fail_threshold (b.failures + 1) ≡ false = ground arith in
    let next : on_failure b now ≡ with_failures b (b.failures + 1) =
      on_failure-closed b now q ∙ rw below refl in
    ap (λ b'. fail_at b' times) next
    ∙ fails_below (with_failures b (b.failures + 1)) times q (omega arith)
    ∙ ap (with_failures b) (omega arith)

-- A closed breaker stays closed through fewer failures than are left to its threshold, and the failure
-- that reaches it opens the breaker at the time of that failure.
pub opens_at_threshold :
    (b : Breaker) (times : List ℕ) (now : ℕ)
    → b.state ≡ BreakerState.closed
    → b.failures + length times + 1 ≡ b.fail_threshold
    → ((fail_at b times).state ≡ BreakerState.closed)
      × ((on_failure (fail_at b times) now).state ≡ BreakerState.open_state)
      × ((on_failure (fail_at b times) now).opened_at ≡ now)
opens_at_threshold b times now q h =
    let n = b.failures + length times in
    let full : leb b.fail_threshold (n + 1) ≡ true = ground arith in
    let opened : on_failure (fail_at b times) now ≡ trip (with_failures b (n + 1)) now =
      ap (λ b'. on_failure b' now) (fails_below b times q (omega arith))
      ∙ on_failure-closed (with_failures b n) now q
      ∙ rw full refl in
    (rw (fails_below b times q (omega arith)) q, rw opened refl, rw opened refl)

refused :
    {E : Type 0} (b : Breaker) (now finished : ℕ) (answer : Result E (Unit {0}))
    → b.state ≡ BreakerState.open_state
    → now < b.opened_at + b.open_timeout
    → call b now answer finished ≡ (err CallError.circuit_open, b)
unfolding call
refused b now finished answer q h =
    let early : timed_out b now ≡ false = ground arith in
    ap (λ s. call_allowed (allow_in s b now) answer finished) q ∙ rw early refl

abbrev probing : Breaker → Breaker
probing b = with_successes (with_state b BreakerState.half_open) 0

probed :
    {E : Type 0} (b : Breaker) (now finished : ℕ) (answer : Result E (Unit {0}))
    → b.state ≡ BreakerState.open_state
    → b.opened_at + b.open_timeout ≤ now
    → call b now answer finished ≡ settle_call (probing b) answer finished
unfolding call
probed b now finished answer q h =
    let late : timed_out b now ≡ true = ground arith in
    ap (λ s. call_allowed (allow_in s b now) answer finished) q ∙ rw late refl

probe_decides :
    {E : Type 0} (b : Breaker) (finished : ℕ) (answer : Result E (Unit {0}))
    → b.success_half_open ≡ 1
    → let b' = (settle_call (probing b) answer finished).1 in
      (is_ok answer ≡ true → (b'.state ≡ BreakerState.closed) × (b'.failures ≡ 0))
      × (is_ok answer ≡ false → (b'.state ≡ BreakerState.open_state) × (b'.opened_at ≡ finished))
unfolding on_success on_failure
probe_decides b finished (ok u) one =
    let e : leb b.success_half_open 1 ≡ true = rw one refl in
    (λ _. rw e (refl, refl), λ h. absurd (false≢true (sym h)))
probe_decides b finished (err e) one = (λ h. absurd (false≢true h), λ _. (refl, refl))

-- An open breaker refuses every call before its timeout has passed, without a change and whatever the
-- call would have answered; from then on a call runs, and its answer decides: success closes the breaker
-- with no failure counted, a failure opens it again for a whole timeout from the time it ended.
pub open_probe :
    {E : Type 0} (b : Breaker) (now finished : ℕ) (answer : Result E (Unit {0}))
    → Counted b
    → b.state ≡ BreakerState.open_state
    → (now < b.opened_at + b.open_timeout
        → call b now answer finished ≡ (err CallError.circuit_open, b))
      × (b.opened_at + b.open_timeout ≤ now
          → let b' = (call b now answer finished).1 in
            (is_ok answer ≡ true → (b'.state ≡ BreakerState.closed) × (b'.failures ≡ 0))
            × (is_ok answer ≡ false
                → (b'.state ≡ BreakerState.open_state) × (b'.opened_at ≡ finished)))
open_probe b now finished answer h q = (
  refused b now finished answer q,
  λ late. rw (probed b now finished answer q late) (probe_decides b finished answer h.1),
)
