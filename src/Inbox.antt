-- ===== src/Inbox.antt =====
-- The queue of webhooks (internal/db/webhook_inbox.go, internal/services/webhook_inbox_worker.go).
--
-- The table is the list of its rows by id. A statement that fails is an argument of its operation; the
-- locks of other transactions are the parameter `locked`. A key is
-- the number that names it.
mod Examples
mod Claim
mod Keys
mod Orphans
mod Worker
mod Rounds
mod Retries
use hozdacha.Base.{
  ℕ, ◌+◌, ◌-◌, Bool, true, false, not, ◌&&◌, Option, none, some, List, [], ◌∷◌, ◌++◌, map, any,
  Result, ok, err, ltb, leb, ◌==◌, if◌then◌else◌,
}
use hozdacha.Store.Rows.{Text}
use hozdacha.Resilience.Delays.{webhook_retry_delay}

pub data WebhookKind : Type 0 where
  entity stock : WebhookKind

pub data WebhookStatus : Type 0 where
  pending processing completed dead_letter : WebhookStatus

pub record WebhookInboxJob : Type 0 where
  pub id : ℕ
  pub idempotency_key : ℕ
  pub webhook_kind : WebhookKind
  pub payload : Text
  pub status : WebhookStatus
  pub attempts : ℕ
  pub max_attempts : ℕ
  pub next_attempt_at : ℕ
  pub last_error : Option Text
  pub created_at : ℕ
  pub updated_at : ℕ
  pub processed_at : Option ℕ

pub record Inbox : Type 0 where
  pub next_id : ℕ
  pub rows : List WebhookInboxJob

pub data InboxError : Type 0 where
  query_failed : InboxError
  no_dead_letter : ℕ → InboxError

abbrev pub status_is : WebhookStatus → WebhookStatus → Bool
status_is WebhookStatus.pending WebhookStatus.pending = true
status_is WebhookStatus.processing WebhookStatus.processing = true
status_is WebhookStatus.completed WebhookStatus.completed = true
status_is WebhookStatus.dead_letter WebhookStatus.dead_letter = true
status_is _ _ = false

abbrev pub new_row : ℕ → WebhookKind → ℕ → Text → ℕ → ℕ → WebhookInboxJob
new_row id kind key payload max_attempts now = record {
  id = id;
  idempotency_key = key;
  webhook_kind = kind;
  payload = payload;
  status = WebhookStatus.pending;
  attempts = 0;
  max_attempts = if ltb max_attempts 1 then 15 else max_attempts;
  next_attempt_at = now;
  last_error = none;
  created_at = now;
  updated_at = now;
  processed_at = none;
}

abbrev pub has_key : ℕ → List WebhookInboxJob → Bool
has_key key rows = any (λ r. r.idempotency_key == key) rows

abbrev pub insert_row : Inbox → Bool → WebhookInboxJob → Result InboxError Bool × Inbox
insert_row t true row = (ok false, t)
insert_row t false row = (ok true, record { next_id = t.next_id + 1; rows = t.rows ++ (row ∷ []) })

unfoldable pub enqueue :
    Bool → Inbox → WebhookKind → ℕ → Text → ℕ → ℕ → Result InboxError Bool × Inbox
enqueue true t kind key payload max_attempts now = (err query_failed, t)
enqueue false t kind key payload max_attempts now =
    insert_row t (has_key key t.rows) (new_row t.next_id kind key payload max_attempts now)

abbrev pub with_status : WebhookInboxJob → WebhookStatus → ℕ → WebhookInboxJob
with_status r s now = record {
  id = r.id;
  idempotency_key = r.idempotency_key;
  webhook_kind = r.webhook_kind;
  payload = r.payload;
  status = s;
  attempts = r.attempts;
  max_attempts = r.max_attempts;
  next_attempt_at = r.next_attempt_at;
  last_error = r.last_error;
  created_at = r.created_at;
  updated_at = now;
  processed_at = r.processed_at;
}

module _ (locked : ℕ → Bool) (now : ℕ) where
  -- The WHERE of the SELECT, and the rows that SKIP LOCKED leaves.
  abbrev pub due : WebhookInboxJob → Bool
  due r =
      status_is r.status WebhookStatus.pending && (leb r.next_attempt_at now && not (locked r.id))

  abbrev pub claimed : WebhookInboxJob → WebhookInboxJob
  claimed r = with_status r WebhookStatus.processing now

  abbrev pub picks : ℕ → WebhookInboxJob → Bool
  picks n r = due r && ltb 0 n

  abbrev pub pick_row :
      Bool
      → WebhookInboxJob
      → List WebhookInboxJob × List WebhookInboxJob
      → List WebhookInboxJob × List WebhookInboxJob
  pick_row true r (jobs, rows) = (claimed r ∷ jobs, claimed r ∷ rows)
  pick_row false r (jobs, rows) = (jobs, r ∷ rows)

  -- The jobs that the statement returns, at most `n`, and the rows after it.
  unfoldable pub claim_rows : ℕ → List WebhookInboxJob → List WebhookInboxJob × List WebhookInboxJob
  claim_rows n [] = ([], [])
  claim_rows n (r ∷ rows) =
      pick_row (picks n r) r (claim_rows (if picks n r then n - 1 else n) rows)

abbrev pub batch_limit : ℕ → ℕ
batch_limit limit = if ltb limit 1 then 10 else limit

-- `failed` says whether the query or the commit fails.
unfoldable pub claim_batch :
    Bool → (ℕ → Bool) → Inbox → ℕ → ℕ → Result InboxError (List WebhookInboxJob) × Inbox
unfolding claim_rows
claim_batch true locked t limit now = (err query_failed, t)
claim_batch false locked t limit now =
    let (jobs, rows) = claim_rows locked now (batch_limit limit) t.rows in
    (ok jobs, record { next_id = t.next_id; rows = rows })

-- UPDATE ... WHERE id = $1.
abbrev pub at_id : ℕ → (WebhookInboxJob → WebhookInboxJob) → WebhookInboxJob → WebhookInboxJob
at_id id f r = if r.id == id then f r else r

abbrev pub on_row : ℕ → (WebhookInboxJob → WebhookInboxJob) → Inbox → Inbox
on_row id f t = record { next_id = t.next_id; rows = map (at_id id f) t.rows }

abbrev pub completed_job : ℕ → WebhookInboxJob → WebhookInboxJob
completed_job now r = record {
  id = r.id;
  idempotency_key = r.idempotency_key;
  webhook_kind = r.webhook_kind;
  payload = r.payload;
  status = WebhookStatus.completed;
  attempts = r.attempts;
  max_attempts = r.max_attempts;
  next_attempt_at = r.next_attempt_at;
  last_error = none;
  created_at = r.created_at;
  updated_at = now;
  processed_at = some now;
}

abbrev pub retried_job : ℕ → Text → ℕ → ℕ → WebhookInboxJob → WebhookInboxJob
retried_job attempts msg next_at now r = record {
  id = r.id;
  idempotency_key = r.idempotency_key;
  webhook_kind = r.webhook_kind;
  payload = r.payload;
  status = WebhookStatus.pending;
  attempts = attempts;
  max_attempts = r.max_attempts;
  next_attempt_at = next_at;
  last_error = some msg;
  created_at = r.created_at;
  updated_at = now;
  processed_at = r.processed_at;
}

abbrev pub dead_job : Text → ℕ → WebhookInboxJob → WebhookInboxJob
dead_job msg now r = record {
  id = r.id;
  idempotency_key = r.idempotency_key;
  webhook_kind = r.webhook_kind;
  payload = r.payload;
  status = WebhookStatus.dead_letter;
  attempts = r.attempts;
  max_attempts = r.max_attempts;
  next_attempt_at = r.next_attempt_at;
  last_error = some msg;
  created_at = r.created_at;
  updated_at = now;
  processed_at = r.processed_at;
}

abbrev pub replayed_job : ℕ → WebhookInboxJob → WebhookInboxJob
replayed_job now r = record {
  id = r.id;
  idempotency_key = r.idempotency_key;
  webhook_kind = r.webhook_kind;
  payload = r.payload;
  status = WebhookStatus.pending;
  attempts = r.attempts;
  max_attempts = r.max_attempts;
  next_attempt_at = now;
  last_error = none;
  created_at = r.created_at;
  updated_at = now;
  processed_at = none;
}

abbrev pub is_dead : ℕ → WebhookInboxJob → Bool
is_dead id r = r.id == id && status_is r.status WebhookStatus.dead_letter

abbrev pub replay_row : ℕ → ℕ → WebhookInboxJob → WebhookInboxJob
replay_row id now r = if is_dead id r then replayed_job now r else r

unfoldable pub replay : Bool → Inbox → ℕ → ℕ → Result InboxError (Unit {0}) × Inbox
replay true t id now = (err query_failed, t)
replay false t id now = (
  if any (is_dead id) t.rows then ok tt else err (no_dead_letter id),
  record { next_id = t.next_id; rows = map (replay_row id now) t.rows },
)
