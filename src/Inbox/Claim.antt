-- ===== src/Inbox/Claim.antt =====
-- What a batch of claimed jobs is, and that a key enters the queue once (internal/db/webhook_inbox.go).
use mathlib.Core.Bool.{false≢true}
use hozdacha.Base.{
  ℕ, ◌-◌, ◌≤◌, ◌<◌, ◌≡◌, inl, inr, refl, sym, ap, subst, ◌∙◌, Bool, true, false, not, ◌&&◌, List,
  [], ◌∷◌, All, length, ok, err, Bool-cases, ltb, leb, if◌then◌else◌, arith, ltb→lt, lt→ltb, leb→le,
}
use hozdacha.Inbox.{
  WebhookInboxJob, WebhookStatus, Inbox, query_failed, status_is, due, picks, pick_row, claimed,
  claim_rows, claim_batch, batch_limit,
}

-- What the webhook is and how far it has come.
abbrev pub SameJob : WebhookInboxJob → WebhookInboxJob → Type 0
SameJob job r =
    (job.id ≡ r.id)
    × (job.idempotency_key ≡ r.idempotency_key)
    × (job.webhook_kind ≡ r.webhook_kind)
    × (job.payload ≡ r.payload)
    × (job.attempts ≡ r.attempts)
    × (job.max_attempts ≡ r.max_attempts)
    × (job.created_at ≡ r.created_at)

-- A row that was pending, due and not locked, and the job it has become.
abbrev pub Taken : (ℕ → Bool) → ℕ → WebhookInboxJob → WebhookInboxJob → Type 0
Taken locked now r job =
    (r.status ≡ WebhookStatus.pending)
    × (r.next_attempt_at ≤ now)
    × (locked r.id ≡ false)
    × (job.status ≡ WebhookStatus.processing)
    × SameJob job r

-- The old rows, the jobs of a batch and the rows after it: each row in turn either stays as it is, or is handed
-- out as the next job and stands in the table as that job.
pub data Split (locked : ℕ → Bool) (now : ℕ)
    : List WebhookInboxJob → List WebhookInboxJob → List WebhookInboxJob → Type 0 where
  all_read : Split locked now [] [] []
  left_as_is :
      (r : WebhookInboxJob) {old jobs rows : List WebhookInboxJob}
      → Split locked now old jobs rows
      → Split locked now (r ∷ old) jobs (r ∷ rows)
  handed_out :
      (r job : WebhookInboxJob) {old jobs rows : List WebhookInboxJob}
      → Taken locked now r job
      → Split locked now old jobs rows
      → Split locked now (r ∷ old) (job ∷ jobs) (job ∷ rows)

pending_row :
    (s : WebhookStatus) → status_is s WebhookStatus.pending ≡ true → s ≡ WebhookStatus.pending
pending_row WebhookStatus.pending h = refl
pending_row WebhookStatus.processing h = cc
pending_row WebhookStatus.completed h = cc
pending_row WebhookStatus.dead_letter h = cc

&&-true : (a b : Bool) → (a && b) ≡ true → (a ≡ true) × (b ≡ true)
&&-true true b h = (refl, h)
&&-true false b h = absurd (false≢true h)

not-true : (b : Bool) → not b ≡ true → b ≡ false
not-true true h = absurd (false≢true h)
not-true false h = refl

module _ (locked : ℕ → Bool) (now : ℕ) where
  picks-Taken :
      (n : ℕ) (r : WebhookInboxJob)
      → picks locked now n r ≡ true
      → (0 < n) × Taken locked now r (claimed locked now r)
  picks-Taken n r h =
      let (d, room) = &&-true (due locked now r) (ltb 0 n) h in
      let (p, rest) = &&-true (status_is r.status WebhookStatus.pending) _ d in
      let (t, free) = &&-true (leb r.next_attempt_at now) (not (locked r.id)) rest in
      (
        ltb→lt 0 n room,
        (
          pending_row r.status p,
          leb→le _ _ t,
          not-true (locked r.id) free,
          refl,
          (refl, refl, refl, refl, refl, refl, refl),
        ),
      )

  claim_row :
      (n : ℕ) (r : WebhookInboxJob) (rows : List WebhookInboxJob) (b : Bool)
      → picks locked now n r ≡ b
      → claim_rows locked now n (r ∷ rows)
        ≡ pick_row locked now b r (claim_rows locked now (if b then n - 1 else n) rows)
  unfolding claim_rows
  claim_row n r rows b h =
      ap (λ c. pick_row locked now c r (claim_rows locked now (if c then n - 1 else n) rows)) h

  -- What a claim of at most `n` rows does.
  abbrev pub Claims :
      ℕ → List WebhookInboxJob → List WebhookInboxJob × List WebhookInboxJob → Type 0
  Claims n old (jobs, rows) =
      (length jobs ≤ n)
      × Split locked now old jobs rows
      × (length jobs < n → All (λ r. due locked now r ≡ false) rows)

  not_picked :
      (n : ℕ) (r : WebhookInboxJob)
      → picks locked now n r ≡ false
      → 0 < n
      → due locked now r ≡ false
  not_picked n r h room = elim (Bool-cases (due locked now r)) [
    | inl e ↦ absurd (false≢true (sym h ∙ rw (e, lt→ltb 0 n room) refl))
    | inr e ↦ e
  ]

  picked-Claims :
      (n : ℕ) (r : WebhookInboxJob) (old : List WebhookInboxJob)
      (got : List WebhookInboxJob × List WebhookInboxJob)
      → picks locked now n r ≡ true
      → Claims (n - 1) old got
      → Claims n (r ∷ old) (pick_row locked now true r got)
  picked-Claims n r old (jobs, rows) h (few, split, rest) =
      let (room, taken) = picks-Taken n r h in
      (
        omega arith,
        Split.handed_out r (claimed locked now r) taken split,
        λ less. (refl, rest (omega arith)),
      )

  left-Claims :
      (n : ℕ) (r : WebhookInboxJob) (old : List WebhookInboxJob)
      (got : List WebhookInboxJob × List WebhookInboxJob)
      → picks locked now n r ≡ false
      → Claims n old got
      → Claims n (r ∷ old) (pick_row locked now false r got)
  left-Claims n r old (jobs, rows) h (few, split, rest) =
      (few, Split.left_as_is r split, λ less. (not_picked n r h (omega arith), rest less))

  claim_rows-Claims :
      (n : ℕ) (rows : List WebhookInboxJob) → Claims n rows (claim_rows locked now n rows)
  unfolding claim_rows
  claim_rows-Claims n [] = (omega arith, Split.all_read, λ _. tt)
  claim_rows-Claims n (r ∷ rows) = elim (Bool-cases (picks locked now n r)) [
    | inl e ↦
        subst (Claims n (r ∷ rows)) (sym (claim_row n r rows true e))
          (picked-Claims n r rows _ e (claim_rows-Claims (n - 1) rows))
    | inr e ↦
        subst (Claims n (r ∷ rows)) (sym (claim_row n r rows false e))
          (left-Claims n r rows _ e (claim_rows-Claims n rows))
  ]

-- A batch holds at most its limit of jobs. The rows of the table are handed out or left in their order: a job is a row
-- that was pending, due and not locked, with its id, key, kind, payload, attempts and bound as they were, and stands
-- in the table once, as processing; every other row is as it was. No due row is left behind by a batch that is not
-- full. A failed query changes nothing.
pub claim_batch-Claims :
    (locked : ℕ → Bool) (t : Inbox) (limit now : ℕ)
    → ((jobs : List WebhookInboxJob) × (t' : Inbox) × (claim_batch false locked t limit now
          ≡ (ok jobs, t'))
        × Claims locked now (batch_limit limit) t.rows (jobs, t'.rows))
      × (claim_batch true locked t limit now ≡ (err query_failed, t))
unfolding claim_batch
claim_batch-Claims locked t limit now =
    ((_, _, refl, claim_rows-Claims locked now (batch_limit limit) t.rows), refl)
