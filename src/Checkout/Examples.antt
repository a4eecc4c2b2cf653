-- ===== src/Checkout/Examples.antt =====
-- The theorems on checkouts at an order that MoySklad takes and the database refuses, and at a cancellation.
use hozdacha.Base.{◌*◌, Bool, true, false, none, some, [], ◌∷◌, ok}
use hozdacha.Base.Int.{pos}
use hozdacha.Store.Rows.{Product, ProductStatus, Order, OrderStatus, Db}
use hozdacha.Store.Transaction.{Postgres, Stmt, update}
use hozdacha.Window.{day, msk}
use hozdacha.Checkout.{Outside, CreateOrderRequest, create_order}
use hozdacha.Checkout.Compensation.{Undone, create_order-Undone}
use hozdacha.Checkout.Ending.{Ended, cancel_order, cancel_order-Ended}

abbrev commit_fails : Stmt → Bool
commit_fails Stmt.commit_tx = true
commit_fails _ = false

abbrev refusing : Postgres
refusing = record { fault = commit_fails; locked = λ _. false; pick = λ it _. it }

abbrev serving : Postgres
serving = record { fault = λ _. false; locked = λ _. false; pick = λ it _. it }

abbrev outside : Outside
outside = record {
  moysklad = some (record {
    has_order_defaults = true;
    left_by_error = λ items. none;
    create_order_from_request = λ items. ok (some (65 ∷ []));
  });
  has_events = true;
  has_stock_cache = true;
  window_offers = none;
  deadline_offers = none;
  product_fails = λ _. false;
  moscow = msk;
  local_zone = msk;
}

abbrev tea : Product
tea = record {
  id = 1;
  name = [];
  price = 10_000;
  moysklad_id = none;
  category_id = none;
  stock = pos 5;
  is_active = true;
  status = ProductStatus.active;
}

abbrev waiting : Order
waiting = record {
  id = 4;
  user_id = some 7;
  status = OrderStatus.pending;
  total_price = pos 0;
  customer_name = [];
  phone = [];
  address = none;
  comment = none;
  moysklad_id = some (66 ∷ []);
  reserved_until = some 100;
  pickup_at = none;
}

abbrev shop : Db
shop = record {
  products = update (λ _. none) 1 (some tea);
  orders = update (λ _. none) 4 (some waiting);
  items = [];
  cart = [];
  next_order_id = 5;
}

abbrev request : CreateOrderRequest
request = record {
  user_id = 7;
  customer_name = 65 ∷ [];
  phone = 49 ∷ [];
  address = none;
  comment = none;
  pickup_at = none;
  items = record { product_id = 1; quantity = pos 2 } ∷ [];
}

create_order-Undone_example : Undone shop (create_order outside refusing shop request (9 * day))
create_order-Undone_example = create_order-Undone outside refusing shop request (9 * day)

cancel_order-Ended_example :
    Ended outside shop 4 OrderStatus.cancelled
      (cancel_order outside serving shop 4 OrderStatus.cancelled (some 7) (some 7))
cancel_order-Ended_example =
    cancel_order-Ended outside serving shop 4 OrderStatus.cancelled (some 7) (some 7)
