-- ===== src/Resilience/Delays.antt =====
-- The waits between two attempts: `WebhookRetryDelay` and `MoyskladHTTPRetrySleepDuration`
-- (internal/resilience). A clock or a random number is an argument.
use hozdacha.Base.{
  ℕ, zero, suc, ◌+◌, ◌-◌, ◌*◌, ◌/◌, ◌%◌, ◌^◌, ◌≤◌, ◌<◌, ◌≡◌, min, All, false, List, [], ◌∷◌, ltb,
  if◌then◌else◌, arith, refl, le→ltb,
}
use native.Mathlib.Nat.{mod-lt, pow-le-pow_right}
use hozdacha.Resilience.Breaker.{second}

abbrev later_steps : List ℕ
later_steps =
    10 * second
    ∷ 20 * second
    ∷ 40 * second
    ∷ 80 * second
    ∷ 300 * second
    ∷ 900 * second
    ∷ 3600 * second
    ∷ 3600 * second
    ∷ 3600 * second
    ∷ []

abbrev retry_steps : List ℕ
retry_steps = 5 * second ∷ later_steps

-- `steps[idx]` with `idx` held to the last entry.
abbrev clamped : List ℕ → ℕ → ℕ
clamped [] i = 0
clamped (s ∷ []) i = s
clamped (s ∷ t ∷ ts) zero = s
clamped (s ∷ t ∷ ts) (suc i) = clamped (t ∷ ts) i

-- `idx := attempt - 1`, not below 0.
abbrev pub retry_base : ℕ → ℕ
retry_base attempt = clamped retry_steps (attempt - 1)

-- `nanos` is `time.Now().UnixNano()`.
unfoldable pub webhook_retry_delay : ℕ → ℕ → ℕ
webhook_retry_delay attempt nanos =
    let base = retry_base attempt in base + (nanos % (base / 5 + 1) + 50_000_000)

abbrev http_shift : ℕ → ℕ
http_shift attempt = if ltb 8 attempt then 8 else attempt

abbrev pub http_base : ℕ → ℕ
http_base attempt =
    let exp = second * 2 ^ http_shift attempt in
    if ltb (1800 * second) exp then 1800 * second else exp

-- `random` is what `rand.Int63n` draws, less than its bound for a positive bound.
unfoldable pub moysklad_http_retry_sleep_duration : ℕ → (ℕ → ℕ) → ℕ
moysklad_http_retry_sleep_duration attempt random =
    http_base attempt + random (http_base attempt / 8 + 1)

clamped_bounds :
    (lo hi s : ℕ) (steps : List ℕ) (i : ℕ)
    → All (λ t. (lo ≤ t) × (t ≤ hi)) (s ∷ steps)
    → (lo ≤ clamped (s ∷ steps) i) × (clamped (s ∷ steps) i ≤ hi)
clamped_bounds lo hi s [] i h = h.0
clamped_bounds lo hi s (t ∷ ts) zero h = h.0
clamped_bounds lo hi s (t ∷ ts) (suc i) h = clamped_bounds lo hi t ts i h.1

steps_bounded : All (λ s. (5 * second ≤ s) × (s ≤ 3600 * second)) retry_steps
steps_bounded = search (arith)

retry_base_bounds :
    (attempt : ℕ) → (5 * second ≤ retry_base attempt) × (retry_base attempt ≤ 3600 * second)
retry_base_bounds attempt =
    clamped_bounds (5 * second) (3600 * second) (5 * second) later_steps (attempt - 1) steps_bounded

delay_bounds :
    (base nanos : ℕ)
    → 5 * second ≤ base
    → base ≤ 3600 * second
    → let d = base + (nanos % (base / 5 + 1) + 50_000_000) in
      (base + 50_000_000 ≤ d)
      × (d ≤ base + base / 5 + 50_000_000)
      × (5_050_000_000 ≤ d)
      × (d ≤ 4_320_050_000_000)
delay_bounds base nanos low high =
    let jitter = mod-lt nanos {m = base / 5 + 1} (omega arith) in
    (omega arith, omega arith, omega arith, omega arith)

-- At every attempt and at every time, a failed webhook waits for its step and 50 milliseconds, and at most
-- a fifth of the step more: over 5 seconds, and at most 72 minutes and 50 milliseconds.
pub webhook_retry_delay_bounds :
    (attempt nanos : ℕ)
    → let d = webhook_retry_delay attempt nanos in
      (retry_base attempt + 50_000_000 ≤ d)
      × (d ≤ retry_base attempt + retry_base attempt / 5 + 50_000_000)
      × (5_050_000_000 ≤ d)
      × (d ≤ 4_320_050_000_000)
unfolding webhook_retry_delay
webhook_retry_delay_bounds attempt nanos =
    let (low, high) = retry_base_bounds attempt in delay_bounds _ nanos low high

http_shift_le : (attempt : ℕ) → http_shift attempt ≤ 8
http_shift_le attempt = ground arith

pow_le : (k : ℕ) → k ≤ 8 → 2 ^ k ≤ 256
pow_le k h = pow-le-pow_right {n = 2} (omega arith) h

http_base_lem :
    (attempt : ℕ)
    → (http_base attempt ≡ second * 2 ^ min attempt 8)
      × (second ≤ http_base attempt)
      × (http_base attempt ≤ 256 * second)
http_base_lem attempt =
    let shift : http_shift attempt ≡ min attempt 8 = ground arith in
    let top = pow_le (min attempt 8) (omega arith) in
    let bottom = pow-le-pow_right {n = 2} (omega arith) {i = 0} {j = min attempt 8} (omega arith) in
    let small : ltb (1800 * second) (second * 2 ^ min attempt 8) ≡ false =
      le→ltb _ _ (omega arith) in
    rw (shift, small) (refl, omega arith, omega arith)

-- A retry of a request to MoySklad waits for at least a second and at most 288, for every number the
-- generator may draw: the base doubles at each of the first eight attempts, an eighth of it at most is
-- added, and the cap of 30 minutes is never reached.
pub moysklad_sleep_bounds :
    (attempt : ℕ) (random : ℕ → ℕ)
    → ((n : ℕ) → 0 < n → random n < n)
    → let d = moysklad_http_retry_sleep_duration attempt random in
      (http_base attempt ≡ second * 2 ^ min attempt 8)
      × (http_base attempt ≤ d)
      × (d ≤ http_base attempt + http_base attempt / 8)
      × (second ≤ d)
      × (d ≤ 288 * second)
unfolding moysklad_http_retry_sleep_duration
moysklad_sleep_bounds attempt random h =
    let (e, low, high) = http_base_lem attempt in
    let drawn = h (http_base attempt / 8 + 1) (omega arith) in
    (e, omega arith, omega arith, omega arith, omega arith)
