-- ===== src/Inbox/Retries.antt =====
-- A webhook that cannot be processed (internal/services/webhook_inbox_worker.go): how often it is tried.
use hozdacha.Base.{
  ℕ, Bool, ◌+◌, ◌≤◌, ◌<◌, ◌≡◌, refl, ap, ◌∙◌, arith, true, false, some, List, [], ◌∷◌, length, err,
  leb,
}
use hozdacha.Store.Rows.{Text}
use hozdacha.Resilience.Delays.{webhook_retry_delay}
use hozdacha.Inbox.{
  WebhookInboxJob, WebhookStatus, Inbox, claimed, due, batch_limit, dead_job, retried_job,
}
use hozdacha.Inbox.Worker.{WorkerEnv, process, marked, after_failure, process_batch}
use hozdacha.Inbox.Rounds.{row_of, OneId, row_of-id, process_batch-row}

-- A call of `processBatch` whose queries answer.
pub record Round : Type 0 where
  pub env : WorkerEnv
  pub locked : ℕ → Bool
  pub batch : ℕ
  pub now : ℕ

abbrev pub after_round : Inbox → Round → Inbox
after_round t rd = process_batch rd.env false rd.locked t rd.batch rd.now

unfoldable pub run_rounds : Inbox → List Round → Inbox
unfolding process_batch
run_rounds t [] = t
run_rounds t (rd ∷ rounds) = run_rounds (after_round t rd) rounds

-- The round comes when the job is due, has room for every row, finds the job's row unlocked and can mark it, and the
-- processor fails on it.
abbrev pub FailsOnce : ℕ → Inbox → Round → Type 0
FailsOnce i t rd =
    (length t.rows ≤ batch_limit rd.batch)
    × (rd.locked i ≡ false)
    × (WorkerEnv.mark_fails rd.env i ≡ false)
    × ((r : WebhookInboxJob)
        → row_of i t.rows ≡ some r
        → (r.next_attempt_at ≤ rd.now)
          × ((msg : Text) × (process rd.env rd.now (claimed rd.locked rd.now r) ≡ err msg)))

unfoldable pub Fails : ℕ → Inbox → List Round → Type 0
Fails i t [] = Unit {0}
Fails i t (rd ∷ rounds) = FailsOnce i t rd × Fails i (after_round t rd) rounds

-- The job waits, with `n` attempts behind it.
abbrev pub Waits : ℕ → WebhookInboxJob → ℕ → Inbox → Type 0
Waits i r n t =
    (r' : WebhookInboxJob) × (row_of i t.rows ≡ some r')
    × (r'.status ≡ WebhookStatus.pending)
    × (r'.attempts ≡ n)
    × (r'.max_attempts ≡ r.max_attempts)
    × (r'.payload ≡ r.payload)
    × OneId t.rows

-- The job is a dead letter with a message.
abbrev pub DeadLetter : ℕ → WebhookInboxJob → Inbox → Type 0
DeadLetter i r t =
    (r' : WebhookInboxJob) × (msg : Text) × (row_of i t.rows ≡ some r')
    × (r'.status ≡ WebhookStatus.dead_letter)
    × (r'.last_error ≡ some msg)
    × (r'.payload ≡ r.payload)

after_failure_early :
    (job : WebhookInboxJob) (now : ℕ) (msg : Text)
    → job.attempts + 1 < job.max_attempts
    → let n = job.attempts + 1 in
      after_failure now job msg job ≡ retried_job n msg (now + webhook_retry_delay n now) now job
after_failure_early job now msg h =
    let early : leb job.max_attempts (job.attempts + 1) ≡ false = ground arith in rw early refl

after_failure_last :
    (job : WebhookInboxJob) (now : ℕ) (msg : Text)
    → job.max_attempts ≤ job.attempts + 1
    → after_failure now job msg job ≡ dead_job msg now job
after_failure_last job now msg h =
    let last : leb job.max_attempts (job.attempts + 1) ≡ true = ground arith in rw last refl

is_due :
    (locked : ℕ → Bool) (now i : ℕ) (r : WebhookInboxJob)
    → r.id ≡ i
    → r.status ≡ WebhookStatus.pending
    → r.next_attempt_at ≤ now
    → locked i ≡ false
    → due locked now r ≡ true
is_due locked now i r same p soon free =
    let on_time : leb r.next_attempt_at now ≡ true = ground arith in
    rw (p, on_time, same, free) refl

module _ (i : ℕ) where
  round-row :
      (t : Inbox) (r : WebhookInboxJob) (rd : Round)
      → OneId t.rows
      → row_of i t.rows ≡ some r
      → r.status ≡ WebhookStatus.pending
      → FailsOnce i t rd
      → let job = claimed rd.locked rd.now r in
        (msg : Text) × OneId (Inbox.rows (after_round t rd))
        × (row_of i (Inbox.rows (after_round t rd)) ≡ some (after_failure rd.now job msg job))
  round-row t r rd one at p (room, free, quiet, fails) =
      let (soon, (msg, failed)) = fails r at in
      let job = claimed rd.locked rd.now r in
      let d = is_due rd.locked rd.now i r (row_of-id i t.rows r at) p soon free in
      let (one', at') =
        process_batch-row rd.env rd.now rd.locked t rd.batch i r room one at d quiet in
      (msg, one', at' ∙ ap (λ x. some (marked rd.env rd.now job x job)) failed)

  rounds-Waits :
      (t : Inbox) (r : WebhookInboxJob) (rounds : List Round)
      → OneId t.rows
      → row_of i t.rows ≡ some r
      → r.status ≡ WebhookStatus.pending
      → r.attempts + length rounds < r.max_attempts
      → Fails i t rounds
      → Waits i r (r.attempts + length rounds) (run_rounds t rounds)
  unfolding run_rounds Fails
  rounds-Waits t r [] one at p few fails = (r, at, p, omega arith, refl, refl, one)
  rounds-Waits t r (rd ∷ rounds) one at p few (now_fails, fails) =
      let (msg, one', at') = round-row t r rd one at p now_fails in
      let job = claimed rd.locked rd.now r in
      let next = r.attempts + 1 in
      let early = after_failure_early job rd.now msg (omega arith) in
      let (r', found, waiting, tried, bound, load, one'') =
        rounds-Waits (after_round t rd)
          (retried_job next msg (rd.now + webhook_retry_delay next rd.now) rd.now job) rounds one'
          (at' ∙ ap some early) refl (omega arith) fails in
      (r', found, waiting, omega (arith, tried), bound, load, one'')

  -- A webhook waits in a queue of distinct ids, unlocked. Each time that it is due there is a round with room for
  -- every row, whose queries answer: the processor fails on the webhook and the failure is marked. Then it waits
  -- again, with its payload and one attempt more, after each of the rounds but the one at which its attempts would
  -- reach `max_attempts`: that one makes it a dead letter with a message.
  pub dead_after_max :
      (t : Inbox) (r : WebhookInboxJob) (early : List Round) (last : Round)
      → OneId t.rows
      → row_of i t.rows ≡ some r
      → r.status ≡ WebhookStatus.pending
      → r.attempts + length early + 1 ≡ r.max_attempts
      → Fails i t early
      → FailsOnce i (run_rounds t early) last
      → Waits i r (r.attempts + length early) (run_rounds t early)
        × DeadLetter i r (after_round (run_rounds t early) last)
  dead_after_max t r early last one at p bound fails fails_last =
      let waits = rounds-Waits t r early one at p (omega arith) fails in
      let (r', found, waiting, tried, same_bound, load, one') = waits in
      let (msg, _, at') = round-row (run_rounds t early) r' last one' found waiting fails_last in
      let job = claimed last.locked last.now r' in
      let dead = after_failure_last job last.now msg (omega (arith, tried, same_bound)) in
      (waits, (dead_job msg last.now job, msg, at' ∙ ap some dead, refl, refl, load))
