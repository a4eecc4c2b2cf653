-- ===== src/Store/Cancel.antt =====
-- The other end of an order's life, of internal/db/orders.go: `CancelPendingOrderAtomic`,
-- `CompleteOrder` and `ListExpiredPendingIDs`.
pub mod Cases
pub mod Books
pub mod Keeps
pub mod Leak
use hozdacha.Base.{
  ℕ, zero, suc, Bool, true, false, not, ◌&&◌, ◌||◌, Option, none, some, List, [], ◌∷◌, Result, ok,
  err, ◌>>◌, ensure, ltb, leb, ◌==◌, if◌then◌else◌, take,
}
use hozdacha.Base.Int.{ℤ, pos, pos_part, ◌+ℤ◌, ltb_ℤ}
use hozdacha.Store.Rows.{
  Text, Product, Order, OrderStatus, pending, completed, expired, cancelled, OrderItem, Db,
}
use hozdacha.Store.Transaction.{
  Postgres, DbError, fault_at, order_forbidden, invalid_target, begin_tx, commit_tx, lock_order,
  restore_stock, mark_order, complete_order, list_expired, exec, update, stock_status,
}

-- The items of an order that are of one product: the join that restores its stock.
unfoldable pub order_rows : ℕ → ℕ → List OrderItem → List OrderItem
order_rows oid pid [] = []
order_rows oid pid (it ∷ its) =
    let rest = order_rows oid pid its in
    if it.order_id == oid && it.product_id == pid then it ∷ rest else rest

abbrev pub restock : Product → ℤ → Product
restock p q = let n = p.stock +ℤ q in record p { stock = n; status = stock_status n }

-- One target row takes one of the rows that it is joined with.
unfoldable pub restore : Postgres → List OrderItem → Option Product → Option Product
restore pg [] p = p
restore pg (it ∷ its) none = none
restore pg (it ∷ its) (some p) = some (restock p (pg.pick it its).quantity)

unfoldable pub restore_all : Postgres → ℕ → Db → ℕ → Option Product
unfolding order_rows restore
restore_all pg oid db pid = restore pg (order_rows oid pid db.items) (db.products pid)

unfoldable pub contains : ℕ → List ℕ → Bool
contains k [] = false
contains k (j ∷ js) = k == j || contains k js

abbrev with_product : Option Product → List Product → List Product
with_product none ps = ps
with_product (some p) ps = p ∷ ps

-- RETURNING p.*: one row for each product that was updated.
unfoldable pub returned : ℕ → List OrderItem → List ℕ → (ℕ → Option Product) → List Product
unfolding contains
returned oid [] seen ps = []
returned oid (it ∷ its) seen ps =
    let mine = it.order_id == oid && not (contains it.product_id seen) in
    let rest = returned oid its (if mine then it.product_id ∷ seen else seen) ps in
    if mine then with_product (ps it.product_id) rest else rest

-- `allowedCancelStatuses`.
abbrev pub is_cancel_target : OrderStatus → Bool
is_cancel_target expired = true
is_cancel_target cancelled = true
is_cancel_target _ = false

abbrev pub is_pending : OrderStatus → Bool
is_pending pending = true
is_pending _ = false

-- The owner's check: a given owner must be the order's user.
abbrev pub owner_allowed : Option ℕ → Option ℕ → Bool
owner_allowed none user = true
owner_allowed (some owner) none = false
owner_allowed (some owner) (some user) = user == owner

-- SELECT ... FOR UPDATE SKIP LOCKED.
abbrev pub lock_row : Postgres → Db → ℕ → Option Order
lock_row pg db oid = if pg.locked oid then none else db.orders oid

-- `none` where the order is gone, locked elsewhere or no longer pending.
unfoldable pub check_order : Option ℕ → Option Order → Result DbError (Option Order)
check_order owner none = ok none
check_order owner (some o) =
    if not (is_pending o.status)
    then ok none
    else if owner_allowed owner o.user_id
    then ok (some o)
    else err order_forbidden

unfoldable pub claim : Postgres → Db → ℕ → OrderStatus → Option ℕ → Result DbError (Option Order)
unfolding check_order
claim pg db oid target owner = do
  ensure (is_cancel_target target) (invalid_target target)
  exec pg begin_tx
  exec pg lock_order
  check_order owner (lock_row pg db oid)

-- What a cancellation returns: nothing was to be done, or the Moysklad id and the restored products.
pub data Cancelled : Type 0 where
  already_handled : Cancelled
  cancelled_now : Option Text → List Product → Cancelled

unfoldable pub cancelled_db : Postgres → Db → Order → ℕ → OrderStatus → Db
unfolding restore_all
cancelled_db pg db o oid target = record db {
  products = restore_all pg oid db;
  orders = update db.orders oid (some (record o { status = target }));
}

abbrev pub finish_row {ℓ} :
    {A : Type ℓ} → Db → Db → A → Result DbError (Unit {0}) → Result DbError A × Db
finish_row db db' a (ok _) = (ok a, db')
finish_row db db' a (err e) = (err e, db)

unfoldable pub finish_cancel :
    Postgres → Db → ℕ → OrderStatus → Order → Result DbError Cancelled × Db
unfolding cancelled_db returned
finish_cancel pg db oid target o =
    let db' = cancelled_db pg db o oid target in
    finish_row db db' (cancelled_now o.moysklad_id (returned oid db.items [] db'.products))
      (exec pg restore_stock >> (exec pg mark_order >> exec pg commit_tx))

abbrev pub cancel_claimed :
    Postgres → Db → ℕ → OrderStatus → Result DbError (Option Order) → Result DbError Cancelled × Db
cancel_claimed pg db oid target (err e) = (err e, db)
cancel_claimed pg db oid target (ok none) = (ok already_handled, db)
cancel_claimed pg db oid target (ok (some o)) = finish_cancel pg db oid target o

unfoldable pub cancel_pending_order_atomic :
    Postgres → Db → ℕ → OrderStatus → Option ℕ → Result DbError Cancelled × Db
unfolding claim
cancel_pending_order_atomic pg db oid target owner =
    cancel_claimed pg db oid target (claim pg db oid target owner)

-- `true` where the order was not pending (any more).
unfoldable pub complete_row : Db → ℕ → Option Order → Bool × Db
complete_row db oid none = (true, db)
complete_row db oid (some o) =
    if is_pending o.status
    then (
      false,
      record db { orders = update db.orders oid (some (record o { status = completed })) },
    )
    else (true, db)

unfoldable pub complete_order_row : Postgres → Db → ℕ → Result DbError Bool × Db
unfolding complete_row
complete_order_row pg db oid =
    if pg.fault complete_order
    then (err (fault_at complete_order), db)
    else (let r = complete_row db oid (db.orders oid) in (ok r.0, r.1))

-- The rows that the cron job selects, as (reserved_until, id).
abbrev pub expired_at : ℕ → ℕ → Bool → Option ℕ → List (ℕ × ℕ)
expired_at now oid waiting none = []
expired_at now oid waiting (some t) = if waiting && ltb t now then (t, oid) ∷ [] else []

abbrev pub expired_row : ℕ → ℕ → Option Order → List (ℕ × ℕ)
expired_row now oid none = []
expired_row now oid (some o) = expired_at now oid (is_pending o.status) o.reserved_until

-- ORDER BY reserved_until ASC.
unfoldable pub insert_by_time : ℕ × ℕ → List (ℕ × ℕ) → List (ℕ × ℕ)
insert_by_time x [] = x ∷ []
insert_by_time x (y ∷ ys) = if leb x.0 y.0 then x ∷ y ∷ ys else y ∷ insert_by_time x ys

abbrev pub insert_rows : List (ℕ × ℕ) → List (ℕ × ℕ) → List (ℕ × ℕ)
insert_rows [] ys = ys
insert_rows (x ∷ _) ys = insert_by_time x ys

unfoldable pub expired_rows : Db → ℕ → ℕ → List (ℕ × ℕ)
unfolding insert_by_time
expired_rows db now zero = []
expired_rows db now (suc oid) =
    insert_rows (expired_row now oid (db.orders oid)) (expired_rows db now oid)

abbrev pub ids : List (ℕ × ℕ) → List ℕ
ids [] = []
ids (x ∷ xs) = x.1 ∷ ids xs

unfoldable pub list_expired_pending_ids : Postgres → Db → ℕ → ℤ → Result DbError (List ℕ)
unfolding expired_rows
list_expired_pending_ids pg db now limit = do
  exec pg list_expired
  let n = if ltb_ℤ (pos 0) limit then pos_part limit else 100
  ok (take n (ids (expired_rows db now db.next_order_id)))
