-- ===== src/Inbox/Orphans.antt =====
-- A job whose worker could not mark it (internal/db/webhook_inbox.go).
use hozdacha.Base.{
  ℕ, ◌-◌, ◌≡◌, sym, ap, subst, ◌∙◌, Bool, true, false, not, ◌&&◌, List, [], ◌∷◌, ◌++◌, map, ltb,
  leb, ◌==◌, if◌then◌else◌, and-false,
}
use hozdacha.Store.Rows.{Text}
use hozdacha.Inbox.{
  WebhookKind, WebhookInboxJob, WebhookStatus, Inbox, enqueue, claim_batch, claim_rows, replay,
  status_is, picks, pick_row, insert_row, has_key, batch_limit, replay_row, replayed_job,
}

-- A row of the table.
pub data Has (r : WebhookInboxJob) : List WebhookInboxJob → Type 0 where
  here : {rows : List WebhookInboxJob} → Has r (r ∷ rows)
  there : {x : WebhookInboxJob} {rows : List WebhookInboxJob} → Has r rows → Has r (x ∷ rows)

-- What any process may do to the queue, but for the worker that holds the job.
pub data Action : Type 0 where
  deliver : Bool → WebhookKind → ℕ → Text → ℕ → ℕ → Action
  take_batch : Bool → (ℕ → Bool) → ℕ → ℕ → Action
  replay_one : Bool → ℕ → ℕ → Action

abbrev pub act : Inbox → Action → Inbox
act t (Action.deliver fails kind key payload m now) = (enqueue fails t kind key payload m now).1
act t (Action.take_batch fails locked limit now) = (claim_batch fails locked t limit now).1
act t (Action.replay_one fails id now) = (replay fails t id now).1

unfoldable pub act_all : Inbox → List Action → Inbox
unfolding enqueue claim_batch replay
act_all t [] = t
act_all t (a ∷ rest) = act_all (act t a) rest

Has-append :
    (r : WebhookInboxJob) (rows more : List WebhookInboxJob) → Has r rows → Has r (rows ++ more)
Has-append r [] more h = elim h [ ]
Has-append r (x ∷ rows) more Has.here = Has.here
Has-append r (x ∷ rows) more (Has.there h) = Has.there (Has-append r rows more h)

Has-map :
    (r : WebhookInboxJob) (f : WebhookInboxJob → WebhookInboxJob) (rows : List WebhookInboxJob)
    → f r ≡ r
    → Has r rows
    → Has r (map f rows)
Has-map r f [] e h = elim h [ ]
Has-map r f (x ∷ rows) e Has.here = subst (λ x'. Has r (x' ∷ map f rows)) (sym e) Has.here
Has-map r f (x ∷ rows) e (Has.there h) = Has.there (Has-map r f rows e h)

Has-pick_row :
    (locked : ℕ → Bool) (now : ℕ) (b : Bool) (r x : WebhookInboxJob)
    (got : List WebhookInboxJob × List WebhookInboxJob)
    → Has r got.1
    → Has r (pick_row locked now b x got).1
Has-pick_row locked now true r x got h = Has.there h
Has-pick_row locked now false r x got h = Has.there h

busy-picks :
    (locked : ℕ → Bool) (now n : ℕ) (r : WebhookInboxJob)
    → r.status ≡ WebhookStatus.processing
    → picks locked now n r ≡ false
busy-picks locked now n r e =
    ap
      (λ s.
        (status_is s WebhookStatus.pending && (leb r.next_attempt_at now && not (locked r.id)))
        && ltb 0 n)
      e

busy-replay_row :
    (id now : ℕ) (r : WebhookInboxJob)
    → r.status ≡ WebhookStatus.processing
    → replay_row id now r ≡ r
busy-replay_row id now r e =
    ap (λ s. if r.id == id && status_is s WebhookStatus.dead_letter then replayed_job now r else r)
      e
    ∙ ap (λ b. if b then replayed_job now r else r) (and-false (r.id == id))

Has-insert_row :
    (t : Inbox) (b : Bool) (new r : WebhookInboxJob)
    → Has r t.rows
    → Has r (insert_row t b new).1.rows
Has-insert_row t true new r h = h
Has-insert_row t false new r h = Has-append r t.rows (new ∷ []) h

Has-claim_rows :
    (locked : ℕ → Bool) (now n : ℕ) (r : WebhookInboxJob) (rows : List WebhookInboxJob)
    → r.status ≡ WebhookStatus.processing
    → Has r rows
    → Has r (claim_rows locked now n rows).1
unfolding claim_rows
Has-claim_rows locked now n r [] e h = elim h [ ]
Has-claim_rows locked now n r (x ∷ rows) e Has.here =
    subst
      (λ b.
        Has r
          (pick_row locked now b r
            (claim_rows locked now (if picks locked now n r then n - 1 else n) rows)).1)
      (sym (busy-picks locked now n r e)) Has.here
Has-claim_rows locked now n r (x ∷ rows) e (Has.there h) =
    Has-pick_row locked now (picks locked now n x) r x _
      (Has-claim_rows locked now (if picks locked now n x then n - 1 else n) r rows e h)

Has-act :
    (t : Inbox) (a : Action) (r : WebhookInboxJob)
    → r.status ≡ WebhookStatus.processing
    → Has r t.rows
    → Has r (act t a).rows
unfolding enqueue claim_batch replay
Has-act t (Action.deliver true kind key payload m now) r e h = h
Has-act t (Action.deliver false kind key payload m now) r e h =
    Has-insert_row t (has_key key t.rows) _ r h
Has-act t (Action.take_batch true locked limit now) r e h = h
Has-act t (Action.take_batch false locked limit now) r e h =
    Has-claim_rows locked now (batch_limit limit) r t.rows e h
Has-act t (Action.replay_one true id now) r e h = h
Has-act t (Action.replay_one false id now) r e h =
    Has-map r (replay_row id now) t.rows (busy-replay_row id now r e) h

-- A job that is being processed stays as it is through any deliveries, claims and replays: only a mark by
-- the worker that holds it can end it, so that one whose worker stopped, or whose mark failed, is never
-- tried again.
pub orphan_stays :
    (t : Inbox) (actions : List Action) (r : WebhookInboxJob)
    → r.status ≡ WebhookStatus.processing
    → Has r t.rows
    → Has r (act_all t actions).rows
unfolding act_all
orphan_stays t [] r e h = h
orphan_stays t (a ∷ rest) r e h = orphan_stays (act t a) rest r e (Has-act t a r e h)
