-- ===== src/Inbox/Examples.antt =====
-- The theorems on the queue at a queue of two webhooks.
use hozdacha.Base.{
  ℕ, ◌+◌, ◌≡◌, ◌≤◌, ◌∙◌, sym, subst, some, some_inj, arith, refl, true, false, none, List, [], ◌∷◌,
  ok, err,
}
use hozdacha.Store.Rows.{Text}
use hozdacha.Resilience.Delays.{webhook_retry_delay}
use hozdacha.Inbox.{
  WebhookKind, WebhookStatus, WebhookInboxJob, Inbox, query_failed, claim_batch, batch_limit,
  claimed,
}
use hozdacha.Inbox.Claim.{Claims, claim_batch-Claims}
use hozdacha.Inbox.Orphans.{Has, Action, act_all, orphan_stays}
use hozdacha.Inbox.Worker.{WorkerEnv, process}
use hozdacha.Inbox.Rounds.{row_of}
use hozdacha.Inbox.Retries.{
  Round, run_rounds, after_round, Waits, DeadLetter, Fails, dead_after_max,
}

abbrev job : ℕ → WebhookStatus → WebhookInboxJob
job id status = record {
  id = id;
  idempotency_key = 100 + id;
  webhook_kind = WebhookKind.stock;
  payload = [];
  status = status;
  attempts = 0;
  max_attempts = 3;
  next_attempt_at = 10;
  last_error = none;
  created_at = 10;
  updated_at = 10;
  processed_at = none;
}

abbrev queue : Inbox
queue = record {
  next_id = 3;
  rows = job 1 WebhookStatus.pending ∷ job 2 WebhookStatus.processing ∷ [];
}

claim_batch-Claims_example :
    ((jobs : List WebhookInboxJob) × (t' : Inbox) × (claim_batch false (λ _. false) queue 5 20
        ≡ (ok jobs, t'))
      × Claims (λ _. false) 20 (batch_limit 5) queue.rows (jobs, t'.rows))
    × (claim_batch true (λ _. false) queue 5 20 ≡ (err query_failed, queue))
claim_batch-Claims_example = claim_batch-Claims (λ _. false) queue 5 20

abbrev actions : List Action
actions = Action.take_batch false (λ _. false) 10 1_000 ∷ Action.replay_one false 2 2_000 ∷ []

orphan_stays_example : Has (job 2 WebhookStatus.processing) (act_all queue actions).rows
orphan_stays_example =
    orphan_stays queue actions (job 2 WebhookStatus.processing) refl (Has.there Has.here)

abbrev failing : WorkerEnv
failing = record {
  process_entity_payload = λ payload. err (1 ∷ []);
  process_stock_payload = λ payload. err (2 ∷ []);
  mark_fails = λ id. false;
}

abbrev round : ℕ → Round
round now = record { env = failing; locked = λ id. false; batch = 10; now = now }

-- Its first try has failed.
abbrev tired : WebhookInboxJob
tired = record (job 1 WebhookStatus.pending) { attempts = 1 }

abbrev short_queue : Inbox
short_queue = record { next_id = 2; rows = tired ∷ [] }

row_fails :
    (t : Inbox) (rd : Round) (x : WebhookInboxJob)
    → row_of 1 t.rows ≡ some x
    → x.next_attempt_at ≤ rd.now
    → (msg : Text) × (process rd.env rd.now (claimed rd.locked rd.now x) ≡ err msg)
    → (r : WebhookInboxJob) → row_of 1 t.rows ≡ some r
    → (r.next_attempt_at ≤ rd.now)
      × ((msg : Text) × (process rd.env rd.now (claimed rd.locked rd.now r) ≡ err msg))
row_fails t rd x here soon failed r at =
    subst
      (λ y.
        (WebhookInboxJob.next_attempt_at y ≤ rd.now)
        × ((msg : Text) × (process rd.env rd.now (claimed rd.locked rd.now y) ≡ err msg)))
      (some_inj (sym here ∙ at)) (soon, failed)

abbrev once_more : Inbox
once_more = run_rounds short_queue (round 20 ∷ [])

dead_after_max_example :
    Waits 1 tired (1 + 1) once_more
    × DeadLetter 1 tired (after_round once_more (round 1_000_000_000_000_000))
unfolding row_of run_rounds Fails webhook_retry_delay
dead_after_max_example =
    dead_after_max 1 short_queue tired (round 20 ∷ []) (round 1_000_000_000_000_000) (refl, tt) refl
      refl refl
      (
        (
          omega arith,
          refl,
          refl,
          row_fails short_queue (round 20) tired refl (omega arith) (_, refl),
        ),
        tt,
      )
      (
        omega arith,
        refl,
        refl,
        row_fails once_more (round 1_000_000_000_000_000) _ refl (omega arith) (_, refl),
      )
