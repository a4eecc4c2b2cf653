-- ===== src/Checkout/Ending.antt =====
-- The other end of an order: `cancelOrder`, `CompleteOrder` and the cron job that expires reservations
-- (internal/usecase/order.go, internal/services/reservation_expiry.go).
use hozdacha.Base.{
  ℕ, suc, ◌≡◌, ◌⊎◌, inl, inr, refl, Bool, true, false, List, [], ◌∷◌, ◌++◌, Option, none, some,
  Result, ok, err, if◌then◌else◌,
}
use hozdacha.Base.Int.{ℤ}
use hozdacha.Store.Rows.{Text, Order, OrderStatus, Product, Db}
use hozdacha.Store.Transaction.{Postgres, DbError, update_self}
use hozdacha.Store.Cancel.{
  Cancelled, already_handled, cancelled_now, cancel_pending_order_atomic, complete_order_row,
  cancelled_db, list_expired_pending_ids,
}
use hozdacha.Store.Cancel.Cases.{cancel-cases}
use hozdacha.Checkout.{
  Outside, Moysklad, Effect, OrderEvent, CheckoutError, store_failed, record_event,
  cache_after_cancel, moysklad_deleted,
}

-- The deletion in MoySklad, of an id that is not empty.
abbrev pub delete_of : Text → List Effect
delete_of [] = []
delete_of (b ∷ bs) = moysklad_deleted (b ∷ bs) ∷ []

abbrev pub delete_remote : Option Moysklad → Option Text → List Effect
delete_remote none mid = []
delete_remote (some m) none = []
delete_remote (some m) (some mid) = delete_of mid

abbrev pub event_of : OrderStatus → OrderEvent
event_of OrderStatus.expired = OrderEvent.expired
event_of _ = OrderEvent.cancelled

module _ (outside : Outside) where
  abbrev pub closing_effects : ℕ → OrderEvent → Option ℕ → Option Text → List Product → List Effect
  closing_effects oid e actor mid restored =
      record_event outside oid e actor
      ++ ((if outside.has_stock_cache then cache_after_cancel restored else [])
          ++ delete_remote outside.moysklad mid)

  abbrev pub after_close :
      ℕ
      → OrderEvent
      → Option ℕ
      → Result DbError Cancelled × Db
      → Result CheckoutError (Unit {0}) × Db × List Effect
  after_close oid e actor (err x, db) = (err (store_failed x), db, [])
  after_close oid e actor (ok already_handled, db) = (ok tt, db, [])
  after_close oid e actor (ok (cancelled_now mid restored), db) =
      (ok tt, db, closing_effects oid e actor mid restored)

  unfoldable pub cancel_order :
      Postgres
      → Db
      → ℕ
      → OrderStatus
      → Option ℕ
      → Option ℕ
      → Result CheckoutError (Unit {0}) × Db × List Effect
  cancel_order pg db oid target owner actor =
      after_close oid (event_of target) actor (cancel_pending_order_atomic pg db oid target owner)

  abbrev pub after_complete :
      ℕ → Option ℕ → Result DbError Bool × Db → Result CheckoutError (Unit {0}) × Db × List Effect
  after_complete oid actor (err x, db) = (err (store_failed x), db, [])
  after_complete oid actor (ok true, db) = (ok tt, db, [])
  after_complete oid actor (ok false, db) =
      (ok tt, db, record_event outside oid OrderEvent.shipped actor)

  unfoldable pub complete_order :
      Postgres → Db → ℕ → Option ℕ → Result CheckoutError (Unit {0}) × Db × List Effect
  complete_order pg db oid actor = after_complete oid actor (complete_order_row pg db oid)

  -- The event has no actor.
  unfoldable pub expire_one : Postgres → Db → ℕ → Result CheckoutError (Unit {0}) × Db × List Effect
  expire_one pg db oid =
      after_close oid OrderEvent.expired none
        (cancel_pending_order_atomic pg db oid OrderStatus.expired none)

  abbrev pub count_expired : Result CheckoutError (Unit {0}) → ℕ → ℕ
  count_expired (ok _) n = suc n
  count_expired (err _) n = n

  -- An order that fails is left to the next round. The database may answer each call in another way.
  unfoldable pub expire_all : (ℕ → Postgres) → Db → List ℕ → ℕ × Db × List Effect
  unfolding expire_one
  expire_all pgs db [] = (0, db, [])
  expire_all pgs db (oid ∷ oids) =
      let (r, db', log) = expire_one (pgs oid) db oid in
      let (n, db'', rest) = expire_all pgs db' oids in (count_expired r n, db'', log ++ rest)

  abbrev pub expire_listed : (ℕ → Postgres) → Db → Result DbError (List ℕ) → ℕ × Db × List Effect
  expire_listed pgs db (err _) = (0, db, [])
  expire_listed pgs db (ok oids) = expire_all pgs db oids

  unfoldable pub tick : Postgres → (ℕ → Postgres) → Db → ℕ → ℤ → ℕ × Db × List Effect
  unfolding expire_all
  tick pg pgs db now batch_size =
      expire_listed pgs db (list_expired_pending_ids pg db now batch_size)

  -- What a call of `cancelOrder` was: nothing seen outside, with the tables as before, or the end of an
  -- order that was pending and has the target status now.
  abbrev pub Ended :
      Db → ℕ → OrderStatus → Result CheckoutError (Unit {0}) × Db × List Effect → Type 0
  Ended db oid target r =
      ((r.1 ≡ db) × (r.2 ≡ []))
      ⊎ ((o : Order) × (db.orders oid ≡ some o)
          × (o.status ≡ OrderStatus.pending)
          × (r.0 ≡ ok tt)
          × (r.1.orders oid ≡ some (record o { status = target })))

  closed-Ended :
      (pg : Postgres) (db : Db) (oid : ℕ) (target : OrderStatus) (owner : Option ℕ) (e : OrderEvent)
      (actor : Option ℕ)
      → Ended db oid target
          (after_close oid e actor (cancel_pending_order_atomic pg db oid target owner))
  unfolding cancelled_db
  closed-Ended pg db oid target owner e actor =
      cancel-cases pg db oid target owner (λ r. Ended db oid target (after_close oid e actor r))
        (λ x. inl (refl, refl)) (inl (refl, refl))
        λ o c. inr (
          o,
          c.stored,
          c.waiting,
          refl,
          update_self db.orders oid (some (record o { status = target })),
        )

  -- The audit log, the stock cache and MoySklad hear of a cancellation or an expiry only if this call ended
  -- the order: it was pending, and its status is the target now. Any other call, failed or repeated, changes no table.
  pub cancel_order-Ended :
      (pg : Postgres) (db : Db) (oid : ℕ) (target : OrderStatus) (owner actor : Option ℕ)
      → Ended db oid target (cancel_order pg db oid target owner actor)
  unfolding cancel_order
  cancel_order-Ended pg db oid target owner actor =
      closed-Ended pg db oid target owner (event_of target) actor
