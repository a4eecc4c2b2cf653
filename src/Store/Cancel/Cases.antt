-- ===== src/Store/Cancel/Cases.antt =====
-- The ends of a cancellation: an error or a handled order, which change nothing, or a pending order
-- that is closed.
use hozdacha.Base.{
  ℕ, ◌≡◌, sym, ap, inl, inr, Bool, true, false, Option, none, some, List, [], Result, ok, err, ◌>>◌,
  ensure, Result-cases, >>=-eq-ok, arith,
}
use hozdacha.Store.Rows.{Text, Product, Order, OrderStatus, pending, Db}
use hozdacha.Store.Transaction.{
  Postgres, DbError, begin_tx, commit_tx, lock_order, restore_stock, mark_order, invalid_target,
  exec,
}
use hozdacha.Store.Cancel.{
  Cancelled, already_handled, cancelled_now, is_cancel_target, owner_allowed, lock_row, check_order,
  claim, returned, cancelled_db, finish_cancel, cancel_pending_order_atomic,
}

-- An order that may be closed now.
pub record Closes (pg : Postgres) (db : Db) (oid : ℕ) (target : OrderStatus) (owner : Option ℕ)
    (o : Order) : Type 0 where
  pub stored : db.orders oid ≡ some o
  pub waiting : o.status ≡ pending
  pub allowed : is_cancel_target target ≡ true
  pub free : pg.locked oid ≡ false
  pub owns : owner_allowed owner o.user_id ≡ true

check-Closes :
    (owner : Option ℕ) (row : Option Order) (o : Order)
    → check_order owner row ≡ ok (some o)
    → (row ≡ some o) × (o.status ≡ pending) × (owner_allowed owner o.user_id ≡ true)
unfolding check_order
check-Closes owner none o h = absurd (ground arith)
check-Closes owner (some o') o h = ground arith

lock_row-free :
    (pg : Postgres) (db : Db) (oid : ℕ) (o : Order)
    → lock_row pg db oid ≡ some o
    → (pg.locked oid ≡ false) × (db.orders oid ≡ some o)
lock_row-free pg db oid o h = ground arith

ensure-ok : (b : Bool) (e : DbError) {u : Unit {0}} → ensure b e ≡ ok u → b ≡ true
ensure-ok b e h = ground arith

module _ (pg : Postgres) (db : Db) (oid : ℕ) (target : OrderStatus) (owner : Option ℕ) where
  claim-Closes :
      (o : Order) → claim pg db oid target owner ≡ ok (some o) → Closes pg db oid target owner o
  unfolding claim
  claim-Closes o h =
      let (_, h0, h1) = >>=-eq-ok (ensure (is_cancel_target target) (invalid_target target)) _ h in
      let (_, _, h2) = >>=-eq-ok (exec pg begin_tx) _ h1 in
      let (_, _, h3) = >>=-eq-ok (exec pg lock_order) _ h2 in
      let (e, w, a) = check-Closes owner (lock_row pg db oid) o h3 in
      let (f, d) = lock_row-free pg db oid o e in
      record {
        stored = d;
        waiting = w;
        allowed = ensure-ok (is_cancel_target target) (invalid_target target) h0;
        free = f;
        owns = a;
      }

  -- What a successful cancellation returns.
  abbrev pub closed : Order → Result DbError Cancelled
  closed o = ok (
      cancelled_now o.moysklad_id
        (returned oid db.items [] (cancelled_db pg db o oid target).products))

  finish-cases {ℓ} :
      (P : Result DbError Cancelled × Db → Type ℓ) (o : Order)
      → ((e : DbError) → P (err e, db))
      → P (closed o, cancelled_db pg db o oid target)
      → P (finish_cancel pg db oid target o)
  unfolding finish_cancel
  finish-cases P o failed done =
      elim (Result-cases (exec pg restore_stock >> (exec pg mark_order >> exec pg commit_tx))) [
        | inl (_, q) ↦ rw q done
        | inr (e, q) ↦ rw q (failed e)
      ]

  pub cancel-cases {ℓ} :
      (P : Result DbError Cancelled × Db → Type ℓ)
      → ((e : DbError) → P (err e, db))
      → P (ok already_handled, db)
      → ((o : Order)
          → Closes pg db oid target owner o
          → P (closed o, cancelled_db pg db o oid target))
      → P (cancel_pending_order_atomic pg db oid target owner)
  unfolding cancel_pending_order_atomic
  cancel-cases P failed handled done = elim (Result-cases (claim pg db oid target owner)) [
    | inr (e, q) ↦ rw q (failed e)
    | inl (none, q) ↦ rw q handled
    | inl (some o, q) ↦ rw q (finish-cases P o failed (done o (claim-Closes o q)))
  ]

  -- The order that a successful cancellation closed.
  pub cancel-Closes :
      {m : Option Text} {ps : List Product} {db' : Db}
      → cancel_pending_order_atomic pg db oid target owner ≡ (ok (cancelled_now m ps), db')
      → (o : Order) × Closes pg db oid target owner o × (db' ≡ cancelled_db pg db o oid target)
  cancel-Closes {m} {ps} {db'} =
      cancel-cases
        (λ r.
          r ≡ (ok (cancelled_now m ps), db')
          → (o : Order) × Closes pg db oid target owner o × (db' ≡ cancelled_db pg db o oid target))
        (λ e h. cc) (λ h. cc) λ o c h. (o, c, sym (ap (λ x. x.1) h))
