-- ===== src/Inbox/Keys.antt =====
-- A key enters the queue once (`Enqueue` of internal/db/webhook_inbox.go).
use hozdacha.Base.{
  ℕ, ◌≡◌, ◌≢◌, inl, inr, refl, ap, Bool, true, false, ◌||◌, List, [], ◌∷◌, ◌++◌, ok, Bool-cases,
  ◌==◌, ==_self, ==_ne,
}
use hozdacha.Store.Rows.{Text}
use hozdacha.Inbox.{WebhookKind, WebhookInboxJob, Inbox, enqueue, has_key, new_row, insert_row}

or_true : (a b : Bool) → b ≡ true → (a || b) ≡ true
or_true true b h = refl
or_true false b h = h

has_key_added :
    (key : ℕ) (rows : List WebhookInboxJob) (r : WebhookInboxJob)
    → r.idempotency_key ≡ key
    → has_key key (rows ++ (r ∷ [])) ≡ true
has_key_added key [] r h = rw (h, ==_self key) refl
has_key_added key (x ∷ rows) r h = or_true _ _ (has_key_added key rows r h)

has_key_other :
    (key : ℕ) (rows : List WebhookInboxJob) (r : WebhookInboxJob)
    → r.idempotency_key ≢ key
    → has_key key (rows ++ (r ∷ [])) ≡ has_key key rows
has_key_other key [] r h = rw (==_ne h) refl
has_key_other key (x ∷ rows) r h =
    ap (λ b. (x.idempotency_key == key) || b) (has_key_other key rows r h)

module _ (t : Inbox) (kind : WebhookKind) (key : ℕ) (payload : Text) (max_attempts now : ℕ) where
  enqueue_known :
      has_key key t.rows ≡ true → enqueue false t kind key payload max_attempts now ≡ (ok false, t)
  unfolding enqueue
  enqueue_known h = ap (λ b. insert_row t b (new_row t.next_id kind key payload max_attempts now)) h

  enqueue_new :
      has_key key t.rows ≡ false
      → enqueue false t kind key payload max_attempts now
        ≡ insert_row t false (new_row t.next_id kind key payload max_attempts now)
  unfolding enqueue
  enqueue_new h = ap (λ b. insert_row t b (new_row t.next_id kind key payload max_attempts now)) h

-- A webhook that is delivered again, with whatever kind and body, is not queued again: after an accepted
-- or a known key the queue has it, every further delivery of the key answers that nothing was inserted
-- and changes nothing, and other keys are as before.
pub enqueue_once :
    (t : Inbox) (kind kind' : WebhookKind) (key : ℕ) (payload payload' : Text) (m m' now later : ℕ)
    → let t' = (enqueue false t kind key payload m now).1 in
      (has_key key t'.rows ≡ true)
      × (enqueue false t' kind' key payload' m' later ≡ (ok false, t'))
      × ((k : ℕ) → key ≢ k → has_key k t'.rows ≡ has_key k t.rows)
enqueue_once t kind kind' key payload payload' m m' now later =
    elim (Bool-cases (has_key key t.rows)) [
      | inl e ↦
          rw (enqueue_known t kind key payload m now e)
            (e, enqueue_known t kind' key payload' m' later e, λ k h. refl)
      | inr e ↦
          let row = new_row t.next_id kind key payload m now in
          let there = has_key_added key t.rows row refl in
          rw (enqueue_new t kind key payload m now e) (
            there,
            enqueue_known _ kind' key payload' m' later there,
            λ k h. has_key_other k t.rows row h,
          )
    ]
