-- ===== src/Inbox/Rounds.antt =====
-- What a round of the worker does to one row of the queue (internal/services/webhook_inbox_worker.go).
use hozdacha.Base.{
  ℕ, ◌+◌, ◌-◌, ◌≤◌, ◌≡◌, refl, sym, ap, subst, ◌∙◌, inl, inr, Bool, true, false, Option, none, some,
  List, [], ◌∷◌, map, length, Result, ok, err, ltb, leb, ◌==◌, ==_iff, ==_self, ==_ne,
  if◌then◌else◌, if-cases, some_inj, some≢none, Bool-cases, arith, lt→ltb,
}
use mathlib.Core.Bool.{false≢true}
use hozdacha.Store.Rows.{Text}
use hozdacha.Inbox.{
  WebhookInboxJob, Inbox, claim_rows, claim_batch, claimed, due, pick_row, batch_limit, on_row,
  at_id, dead_job, retried_job,
}
use hozdacha.Resilience.Delays.{webhook_retry_delay}
use hozdacha.Inbox.Worker.{WorkerEnv, process, marked, handle_one, handle_all, process_batch}

-- The first row with the id.
unfoldable pub row_of : ℕ → List WebhookInboxJob → Option WebhookInboxJob
row_of i [] = none
row_of i (r ∷ rows) = let others = row_of i rows in if r.id == i then some r else others

abbrev pub OneId : List WebhookInboxJob → Type 0
OneId [] = Unit {0}
OneId (r ∷ rows) = (row_of r.id rows ≡ none) × OneId rows

abbrev pub on_found :
    (WebhookInboxJob → WebhookInboxJob) → Option WebhookInboxJob → Option WebhookInboxJob
on_found f none = none
on_found f (some r) = some (f r)

abbrev KeepsId : (WebhookInboxJob → WebhookInboxJob) → Type 0
KeepsId f = (r : WebhookInboxJob) → (f r).id ≡ r.id

row_of-map :
    (f : WebhookInboxJob → WebhookInboxJob) (i : ℕ) (rows : List WebhookInboxJob)
    → KeepsId f
    → row_of i (map f rows) ≡ on_found f (row_of i rows)
unfolding row_of
row_of-map f i [] keeps = refl
row_of-map f i (r ∷ rows) keeps =
    ap (λ k. if k == i then some (f r) else row_of i (map f rows)) (keeps r)
    ∙ if-cases (λ o. (if r.id == i then some (f r) else row_of i (map f rows)) ≡ on_found f o)
        (r.id == i) (some r) (row_of i rows) (λ e. rw e refl)
        (λ e. rw e (row_of-map f i rows keeps))

OneId-map :
    (f : WebhookInboxJob → WebhookInboxJob) (rows : List WebhookInboxJob)
    → KeepsId f
    → OneId rows
    → OneId (map f rows)
OneId-map f [] keeps h = tt
OneId-map f (r ∷ rows) keeps (h, hs) = (
  ap (λ k. row_of k (map f rows)) (keeps r) ∙ row_of-map f r.id rows keeps ∙ ap (on_found f) h,
  OneId-map f rows keeps hs,
)

pub row_of-id :
    (i : ℕ) (rows : List WebhookInboxJob) (r : WebhookInboxJob) → row_of i rows ≡ some r → r.id ≡ i
unfolding row_of
row_of-id i [] r h = cc
row_of-id i (x ∷ rows) r h = elim (Bool-cases (x.id == i)) [
  | inl e ↦
      sym (
        ap WebhookInboxJob.id
          (some_inj (sym (ap (λ b. if b then some x else row_of i rows) e) ∙ h)))
      ∙ (==_iff x.id i).0 e
  | inr e ↦ row_of-id i rows r (sym (ap (λ b. if b then some x else row_of i rows) e) ∙ h)
]

module _ (locked : ℕ → Bool) (now : ℕ) where
  abbrev pub claim_row : WebhookInboxJob → WebhookInboxJob
  claim_row r = if due locked now r then claimed locked now r else r

  pub due_jobs : List WebhookInboxJob → List WebhookInboxJob
  due_jobs [] = []
  due_jobs (r ∷ rows) =
      let others = due_jobs rows in
      if due locked now r then claimed locked now r ∷ others else others

  -- A claim with room for every row.
  claim_rows-due :
      (n : ℕ) (rows : List WebhookInboxJob)
      → length rows ≤ n
      → claim_rows locked now n rows ≡ (due_jobs rows, map claim_row rows)
  unfolding claim_rows due_jobs
  claim_rows-due n [] h = refl
  claim_rows-due n (r ∷ rows) h =
      let room : ltb 0 n ≡ true = lt→ltb 0 n (omega arith) in
      elim (Bool-cases (due locked now r)) [
        | inl e ↦
            rw (e, room)
              (ap (pick_row locked now true r) (claim_rows-due (n - 1) rows (omega arith)))
        | inr e ↦ rw e (ap (pick_row locked now false r) (claim_rows-due n rows (omega arith)))
      ]

  claim_row-KeepsId : KeepsId claim_row
  claim_row-KeepsId r =
      if-cases (λ x. x.id ≡ r.id) (due locked now r) (claimed locked now r) r (λ _. refl)
        (λ _. refl)

module _ (env : WorkerEnv) (now : ℕ) where
  abbrev pub mark_one : WebhookInboxJob → WebhookInboxJob → WebhookInboxJob
  mark_one job x =
      if env.mark_fails job.id then x else at_id job.id (marked env now job (process env now job)) x

  pub mark_by : List WebhookInboxJob → WebhookInboxJob → WebhookInboxJob
  mark_by [] x = x
  mark_by (job ∷ jobs) x = mark_by jobs (mark_one job x)

  map_same : (rows : List WebhookInboxJob) → map (λ x. x) rows ≡ rows
  map_same [] = refl
  map_same (r ∷ rows) = ap (λ xs. r ∷ xs) (map_same rows)

  map_both :
      (f g : WebhookInboxJob → WebhookInboxJob) (rows : List WebhookInboxJob)
      → map g (map f rows) ≡ map (λ x. g (f x)) rows
  map_both f g [] = refl
  map_both f g (r ∷ rows) = ap (λ xs. g (f r) ∷ xs) (map_both f g rows)

  kept_or_marked :
      (b : Bool) (id : ℕ) (f : WebhookInboxJob → WebhookInboxJob) (t : Inbox)
      → Inbox.rows (if b then t else on_row id f t)
        ≡ map (λ x. if b then x else at_id id f x) t.rows
  kept_or_marked true id f t = sym (map_same t.rows)
  kept_or_marked false id f t = refl

  handle_one-rows :
      (t : Inbox) (job : WebhookInboxJob)
      → Inbox.rows (handle_one env now t job) ≡ map (mark_one job) t.rows
  unfolding handle_one
  handle_one-rows t job =
      kept_or_marked (env.mark_fails job.id) job.id (marked env now job (process env now job)) t

  handle_all-rows :
      (t : Inbox) (jobs : List WebhookInboxJob)
      → Inbox.rows (handle_all env now t jobs) ≡ map (mark_by jobs) t.rows
  unfolding handle_all mark_by
  handle_all-rows t [] = sym (map_same t.rows)
  handle_all-rows t (job ∷ jobs) =
      handle_all-rows (handle_one env now t job) jobs
      ∙ ap (map (mark_by jobs)) (handle_one-rows t job)
      ∙ map_both (mark_one job) (mark_by jobs) t.rows

  marked-KeepsId :
      (job : WebhookInboxJob) (r : Result Text (Unit {0})) → KeepsId (marked env now job r)
  marked-KeepsId job (ok _) x = refl
  marked-KeepsId job (err msg) x =
      if-cases (λ f. WebhookInboxJob.id (f x) ≡ x.id) (leb job.max_attempts (job.attempts + 1))
        (dead_job msg now)
        (retried_job (job.attempts + 1) msg (now + webhook_retry_delay (job.attempts + 1) now) now)
        (λ _. refl) (λ _. refl)

  mark_one-KeepsId : (job : WebhookInboxJob) → KeepsId (mark_one job)
  mark_one-KeepsId job x =
      let f = marked env now job (process env now job) in
      if-cases (λ y. y.id ≡ x.id) (env.mark_fails job.id) x (at_id job.id f x) (λ _. refl)
        (λ _.
          if-cases (λ y. y.id ≡ x.id) (x.id == job.id) (f x) x
            (λ _. marked-KeepsId job (process env now job) x) (λ _. refl))

  mark_by-KeepsId : (jobs : List WebhookInboxJob) → KeepsId (mark_by jobs)
  unfolding mark_by
  mark_by-KeepsId [] x = refl
  mark_by-KeepsId (job ∷ jobs) x = mark_by-KeepsId jobs (mark_one job x) ∙ mark_one-KeepsId job x

  mark_one-other : (job x : WebhookInboxJob) → (x.id == job.id) ≡ false → mark_one job x ≡ x
  mark_one-other job x e =
      let f = marked env now job (process env now job) in
      if-cases (λ y. y ≡ x) (env.mark_fails job.id) x (at_id job.id f x) (λ _. refl)
        (λ _. ap (λ b. if b then f x else x) e)

  mark_one-own :
      (job : WebhookInboxJob)
      → env.mark_fails job.id ≡ false
      → mark_one job job ≡ marked env now job (process env now job) job
  mark_one-own job quiet =
      let f = marked env now job (process env now job) in
      ap (λ b. if b then job else at_id job.id f job) quiet
      ∙ ap (λ b. if b then f job else job) (==_self job.id)

  module _ (locked : ℕ → Bool) where
    marks_none :
        (rows : List WebhookInboxJob) (x : WebhookInboxJob)
        → row_of x.id rows ≡ none
        → mark_by (due_jobs locked now rows) x ≡ x
    unfolding row_of due_jobs mark_by
    marks_none [] x h = refl
    marks_none (r ∷ rows) x h = elim (Bool-cases (r.id == x.id)) [
      | inl e ↦ absurd (some≢none (sym (ap (λ b. if b then some r else row_of x.id rows) e) ∙ h))
      | inr e ↦
          let rest =
            marks_none rows x (sym (ap (λ b. if b then some r else row_of x.id rows) e) ∙ h) in
          let apart : (x.id == r.id) ≡ false =
            ==_ne (λ same. false≢true (sym e ∙ (==_iff r.id x.id).1 (sym same))) in
          if-cases (λ jobs. mark_by jobs x ≡ x) (due locked now r)
            (claimed locked now r ∷ due_jobs locked now rows) (due_jobs locked now rows)
            (λ _.
              ap (mark_by (due_jobs locked now rows))
                (mark_one-other (claimed locked now r) x apart)
              ∙ rest)
            (λ _. rest)
    ]

    marks_first :
        (r : WebhookInboxJob) (rows : List WebhookInboxJob)
        → row_of r.id rows ≡ none
        → due locked now r ≡ true
        → env.mark_fails r.id ≡ false
        → let job = claimed locked now r in
          mark_by (due_jobs locked now (r ∷ rows)) job
          ≡ marked env now job (process env now job) job
    unfolding due_jobs mark_by
    marks_first r rows apart d quiet =
        let job = claimed locked now r in
        let behind = due_jobs locked now rows in
        let marked_job = marked env now job (process env now job) job in
        ap (λ b. mark_by (if b then job ∷ behind else behind) job) d
        ∙ ap (mark_by behind) (mark_one-own job quiet)
        ∙ marks_none rows marked_job
            (ap (λ k. row_of k rows) (marked-KeepsId job (process env now job) job) ∙ apart)

    marks_own :
        (rows : List WebhookInboxJob) (i : ℕ) (r : WebhookInboxJob)
        → OneId rows
        → row_of i rows ≡ some r
        → due locked now r ≡ true
        → env.mark_fails i ≡ false
        → let job = claimed locked now r in
          mark_by (due_jobs locked now rows) job ≡ marked env now job (process env now job) job
    unfolding row_of due_jobs mark_by
    marks_own [] i r one h d quiet = cc
    marks_own (x ∷ rows) i r (apart, one) h d quiet = elim (Bool-cases (x.id == i)) [
      | inl e ↦
          let same : x ≡ r = some_inj (sym (ap (λ b. if b then some x else row_of i rows) e) ∙ h) in
          subst
            (λ y.
              let job = claimed locked now y in
              mark_by (due_jobs locked now (x ∷ rows)) job
              ≡ marked env now job (process env now job) job)
            same
            (marks_first x rows apart (subst (λ y. due locked now y ≡ true) (sym same) d)
              (ap env.mark_fails ((==_iff x.id i).0 e) ∙ quiet))
      | inr e ↦
          let later = sym (ap (λ b. if b then some x else row_of i rows) e) ∙ h in
          let rest = marks_own rows i r one later d quiet in
          let job = claimed locked now r in
          let other : (r.id == x.id) ≡ false = ==_ne (λ same.
            false≢true (sym e ∙ (==_iff x.id i).1 (sym same ∙ row_of-id i rows r later))) in
          if-cases (λ jobs. mark_by jobs job ≡ marked env now job (process env now job) job)
            (due locked now x) (claimed locked now x ∷ due_jobs locked now rows)
            (due_jobs locked now rows)
            (λ _.
              ap (mark_by (due_jobs locked now rows))
                (mark_one-other (claimed locked now x) job other)
              ∙ rest)
            (λ _. rest)
    ]

  -- What a round makes of the row with an id, where the batch has room for every row.
  pub process_batch-row :
      (locked : ℕ → Bool) (t : Inbox) (batch i : ℕ) (r : WebhookInboxJob)
      → length t.rows ≤ batch_limit batch
      → OneId t.rows
      → row_of i t.rows ≡ some r
      → due locked now r ≡ true
      → env.mark_fails i ≡ false
      → let job = claimed locked now r in
        let after = Inbox.rows (process_batch env false locked t batch now) in
        OneId after × (row_of i after ≡ some (marked env now job (process env now job) job))
  unfolding process_batch claim_batch
  process_batch-row locked t batch i r room one at d quiet =
      let C = claim_rows locked now (batch_limit batch) t.rows in
      let jobs = due_jobs locked now t.rows in
      let rows = map (claim_row locked now) t.rows in
      let shape =
        handle_all-rows (record { next_id = t.next_id; rows = C.1 }) C.0
        ∙ ap (λ c. map (mark_by c.0) c.1)
            (claim_rows-due locked now (batch_limit batch) t.rows room) in
      let taken : row_of i rows ≡ some (claimed locked now r) =
        row_of-map (claim_row locked now) i t.rows (claim_row-KeepsId locked now)
        ∙ ap (on_found (claim_row locked now)) at
        ∙ ap (λ b. some (if b then claimed locked now r else r)) d in
      let job = claimed locked now r in
      subst (λ xs. OneId xs × (row_of i xs ≡ some (marked env now job (process env now job) job)))
        (sym shape)
        (
          OneId-map (mark_by jobs) rows (mark_by-KeepsId jobs)
              (OneId-map (claim_row locked now) t.rows (claim_row-KeepsId locked now) one),
          row_of-map (mark_by jobs) i rows (mark_by-KeepsId jobs)
              ∙ ap (on_found (mark_by jobs)) taken
              ∙ ap some (marks_own locked t.rows i r one at d quiet),
        )
