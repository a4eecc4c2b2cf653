-- ===== src/Checkout.antt =====
-- Orders as the handlers and the cron job make and end them (internal/usecase/order.go,
-- internal/services/reservation_expiry.go), around the transactions of the order tables.
--
-- The calls of MoySklad, of the stock cache and of the audit log go to a list of effects, in their order;
-- the answers that the code uses are the record `Outside`, the failures that it only logs are not.
mod Compensation
mod Ending
mod Examples
use hozdacha.Base.{
  ℕ, ◌+◌, Bool, true, false, not, Option, none, some, List, [], ◌∷◌, ◌++◌, Result, ok, err, ◌>>=◌,
  ◌>>◌, ensure, ltb, leb, if◌then◌else◌,
}
use hozdacha.Base.Int.{ℤ, pos, ◌+ℤ◌, ◌*ℤ◌, ltb_ℤ}
use hozdacha.Store.Rows.{Text, Product, Order, OrderStatus, OrderItem, Db}
use hozdacha.Store.Transaction.{Postgres, DbError}
use hozdacha.Store.Create.{Created, create_order_atomic}
use hozdacha.Store.Cancel.{
  Cancelled, cancel_pending_order_atomic, complete_order_row, list_expired_pending_ids,
}
use hozdacha.Window.{Target, date_of, at_hour}
use hozdacha.Pricing.DayOffers.{Offers, check_day_promotion_window, day_promotion_deadline}

pub record CreateOrderItem : Type 0 where
  pub product_id : ℕ
  pub quantity : ℤ

pub record CreateOrderRequest : Type 0 where
  pub user_id : ℕ
  pub customer_name : Text
  pub phone : Text
  pub address : Option Text
  pub comment : Option Text
  pub pickup_at : Option ℕ
  pub items : List CreateOrderItem

pub data OrderEvent : Type 0 where
  created shipped cancelled expired moysklad_synced moysklad_failed : OrderEvent

pub data Effect : Type 0 where
  moysklad_created : Option Text → Effect
  moysklad_deleted : Text → Effect
  moysklad_renamed : Text → ℕ → Effect
  event : ℕ → OrderEvent → Option ℕ → Effect
  stock_set : ℕ → Option Text → ℤ → Effect
  stock_released : ℕ → ℤ → Effect

-- The client of MoySklad: `HasOrderDefaults`, the answer of `CreateOrderFromRequest`, and the order that a
-- call which gives an error has created there all the same: its answer could not be read, or had no id.
pub record Moysklad : Type 0 where
  pub has_order_defaults : Bool
  pub left_by_error : List OrderItem → Option Text
  pub create_order_from_request : List OrderItem → Result Text (Option Text)

-- What the usecase calls: each part may be missing. The two queries of the pricer are its two calls.
pub record Outside : Type 0 where
  pub moysklad : Option Moysklad
  pub has_events : Bool
  pub has_stock_cache : Bool
  pub window_offers : Offers
  pub deadline_offers : Offers
  pub product_fails : ℕ → Bool
  pub moscow : ℕ
  pub local_zone : ℕ

pub data CheckoutError : Type 0 where
  name_required phone_required items_required not_configured : CheckoutError
  promotion_window_closed : Target → CheckoutError
  invalid_quantity product_failed product_not_found product_not_active : ℕ → CheckoutError
  pickup_past promotion_pickup_window pickup_late : CheckoutError
  moysklad_refused : Text → CheckoutError
  store_failed : DbError → CheckoutError

abbrev is_filled {ℓ} : {A : Type ℓ} → List A → Bool
is_filled [] = false
is_filled (_ ∷ _) = true

abbrev is_configured : Option Moysklad → Bool
is_configured none = true
is_configured (some m) = m.has_order_defaults

-- 03:00 three dates later, in the zone of the server.
unfoldable pub reserved_until_for : ℕ → ℕ → ℕ
reserved_until_for zone now = at_hour zone (date_of zone now + 3) 3

abbrev pub check_window : Result Target (Unit {0}) → Result CheckoutError (Unit {0})
check_window (ok _) = ok tt
check_window (err t) = err (promotion_window_closed t)

-- An error of the second query is ignored.
abbrev pub deadline_of : Result (Unit {0}) (Option ℕ) → Option ℕ
deadline_of (ok d) = d
deadline_of (err _) = none

abbrev pub found_product : ℕ → Option Product → Result CheckoutError Product
found_product pid none = err (product_not_found pid)
found_product pid (some p) = ok p

-- The loop over the items of the request: the total price, and the items with their prices.
unfoldable pub priced_items :
    Outside → Db → List CreateOrderItem → Result CheckoutError (ℤ × List OrderItem)
priced_items outside db [] = ok (pos 0, [])
priced_items outside db (it ∷ its) = do
  ensure (ltb_ℤ (pos 0) it.quantity) (invalid_quantity it.product_id)
  ensure (not (outside.product_fails it.product_id)) (product_failed it.product_id)
  p ← found_product it.product_id (db.products it.product_id)
  ensure p.is_active (product_not_active it.product_id)
  rest ← priced_items outside db its
  ok (
    (pos p.price *ℤ it.quantity) +ℤ rest.0,
    record { order_id = 0; product_id = it.product_id; quantity = it.quantity; price = p.price }
        ∷ rest.1,
  )

abbrev pub latest_pickup : Option ℕ → ℕ → ℕ
latest_pickup none until = until
latest_pickup (some deadline) until = deadline

abbrev late_error : Option ℕ → CheckoutError
late_error none = pickup_late
late_error (some _) = promotion_pickup_window

abbrev pub check_pickup : ℕ → ℕ → Option ℕ → Option ℕ → Result CheckoutError (Unit {0})
check_pickup now until deadline none = ok tt
check_pickup now until deadline (some t) = do
  ensure (ltb now t) pickup_past
  ensure (leb t until) (late_error deadline)

-- All that comes before the order is created in MoySklad.
unfoldable pub prepared :
    Outside → Db → CreateOrderRequest → ℕ → Result CheckoutError (Order × List OrderItem)
unfolding priced_items check_day_promotion_window day_promotion_deadline reserved_until_for
prepared outside db req now = do
  ensure (is_filled req.customer_name) name_required
  ensure (is_filled req.phone) phone_required
  ensure (is_filled req.items) items_required
  ensure (is_configured outside.moysklad) not_configured
  check_window (check_day_promotion_window outside.moscow now outside.window_offers)
  priced ← priced_items outside db req.items
  let deadline = deadline_of (day_promotion_deadline outside.moscow now outside.deadline_offers)
  let until = latest_pickup deadline (reserved_until_for outside.local_zone now)
  check_pickup now until deadline req.pickup_at
  ok (
    record {
      id = 0;
      user_id = some req.user_id;
      status = OrderStatus.pending;
      total_price = priced.0;
      customer_name = req.customer_name;
      phone = req.phone;
      address = req.address;
      comment = req.comment;
      moysklad_id = none;
      reserved_until = some until;
      pickup_at = req.pickup_at;
    },
    priced.1,
  )

abbrev pub left_there : Option Text → List Effect
left_there none = []
left_there (some mid) = moysklad_created (some mid) ∷ []

abbrev pub remote_answer :
    Result Text (Option Text) → Option Text → Result CheckoutError (Option Text) × List Effect
remote_answer (ok mid) left = (ok mid, moysklad_created mid ∷ [])
remote_answer (err e) left = (err (moysklad_refused e), left_there left)

abbrev pub remote_order :
    Option Moysklad → List OrderItem → Result CheckoutError (Option Text) × List Effect
remote_order none items = (ok none, [])
remote_order (some m) items =
    remote_answer (m.create_order_from_request items) (m.left_by_error items)

-- The best-effort deletion after a failed save.
abbrev pub undo_remote : Option Text → List Effect
undo_remote none = []
undo_remote (some mid) = moysklad_deleted mid ∷ []

abbrev pub renamed : Option Text → ℕ → List Effect
renamed none oid = []
renamed (some mid) oid = moysklad_renamed mid oid ∷ []

abbrev pub record_event : Outside → ℕ → OrderEvent → Option ℕ → List Effect
record_event outside oid e actor = if outside.has_events then event oid e actor ∷ [] else []

abbrev pub synced : Outside → Option Text → ℕ → List Effect
synced outside none oid = []
synced outside (some mid) oid = record_event outside oid moysklad_synced none

unfoldable pub cache_after_order : List Product → List OrderItem → List Effect
cache_after_order (p ∷ ps) (it ∷ its) =
    stock_set p.id p.moysklad_id p.stock
    ∷ stock_released p.id it.quantity
    ∷ cache_after_order ps its
cache_after_order [] its = []
cache_after_order (p ∷ ps) [] = []

unfoldable pub cache_after_cancel : List Product → List Effect
cache_after_cancel [] = []
cache_after_cancel (p ∷ ps) = stock_set p.id p.moysklad_id p.stock ∷ cache_after_cancel ps

abbrev pub Done : Type 0
Done = Result CheckoutError Order × Db × List Effect

abbrev pub after_save : Outside → ℕ → Option Text → List Effect → Result DbError Created × Db → Done
after_save outside uid mid log (err e, db) = (err (store_failed e), db, log ++ undo_remote mid)
after_save outside uid mid log (ok c, db) = (
  ok c.order,
  db,
  log
      ++ (renamed mid c.order.id
          ++ (record_event outside c.order.id created (some uid)
              ++ ((if outside.has_stock_cache then cache_after_order c.products c.items else [])
                  ++ synced outside mid c.order.id))),
)

abbrev pub save_order :
    Outside
    → Postgres
    → Db
    → ℕ
    → Order
    → List OrderItem
    → Result CheckoutError (Option Text) × List Effect
    → Done
save_order outside pg db uid order items (err e, log) = (err e, db, log)
save_order outside pg db uid order items (ok mid, log) =
    after_save outside uid mid log
      (create_order_atomic pg db (record order { moysklad_id = mid }) items uid)

abbrev pub place :
    Outside → Postgres → Db → ℕ → Result CheckoutError (Order × List OrderItem) → Done
place outside pg db uid (err e) = (err e, db, [])
place outside pg db uid (ok (order, items)) =
    save_order outside pg db uid order items (remote_order outside.moysklad items)

unfoldable pub create_order : Outside → Postgres → Db → CreateOrderRequest → ℕ → Done
unfolding prepared
create_order outside pg db req now = place outside pg db req.user_id (prepared outside db req now)
