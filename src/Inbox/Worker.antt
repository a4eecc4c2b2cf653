-- ===== src/Inbox/Worker.antt =====
-- `handleOne` and `processBatch` of internal/services/webhook_inbox_worker.go. The table has no other
-- kind of webhook than the two, by its CHECK (migrations/006_webhook_inbox.sql). The clock is read once.
use hozdacha.Base.{ℕ, ◌+◌, Bool, List, [], ◌∷◌, Result, ok, err, leb, if◌then◌else◌}
use hozdacha.Store.Rows.{Text}
use hozdacha.Resilience.Delays.{webhook_retry_delay}
use hozdacha.Inbox.{
  WebhookKind, WebhookInboxJob, Inbox, claim_batch, on_row, completed_job, retried_job, dead_job,
  InboxError,
}

-- The processor, the clock, and whether the statement that marks a job of an id fails.
pub record WorkerEnv : Type 0 where
  pub process_entity_payload : Text → Result Text (Unit {0})
  pub process_stock_payload : Text → Result Text (Unit {0})
  pub mark_fails : ℕ → Bool

module _ (now : ℕ) where
  abbrev pub after_failure : WebhookInboxJob → Text → WebhookInboxJob → WebhookInboxJob
  after_failure job msg =
      let next_attempts = job.attempts + 1 in
      if leb job.max_attempts next_attempts
      then dead_job msg now
      else retried_job next_attempts msg (now + webhook_retry_delay next_attempts now) now

module _ (env : WorkerEnv) (now : ℕ) where
  abbrev pub process : WebhookInboxJob → Result Text (Unit {0})
  process job = elim job.webhook_kind [
    | WebhookKind.entity ↦ env.process_entity_payload job.payload
    | WebhookKind.stock ↦ env.process_stock_payload job.payload
  ]

  -- The change of the job's row by its mark.
  abbrev pub marked : WebhookInboxJob → Result Text (Unit {0}) → WebhookInboxJob → WebhookInboxJob
  marked job (ok _) = completed_job now
  marked job (err msg) = after_failure now job msg

  unfoldable pub handle_one : Inbox → WebhookInboxJob → Inbox
  handle_one t job = if env.mark_fails job.id then t else on_row job.id (marked job (process job)) t

  unfoldable pub handle_all : Inbox → List WebhookInboxJob → Inbox
  unfolding handle_one
  handle_all t [] = t
  handle_all t (job ∷ jobs) = handle_all (handle_one t job) jobs

abbrev handled : WorkerEnv → ℕ → Result InboxError (List WebhookInboxJob) × Inbox → Inbox
handled env now (err _, t) = t
handled env now (ok jobs, t) = handle_all env now t jobs

unfoldable pub process_batch : WorkerEnv → Bool → (ℕ → Bool) → Inbox → ℕ → ℕ → Inbox
unfolding handle_all claim_batch
process_batch env failed locked t batch now =
    handled env now (claim_batch failed locked t batch now)
