-- ===== src/Store/Examples.antt =====
-- The theorems on the order tables at concrete tables: a shop with one product, and an order of it.
use hozdacha.Base.{
  ℕ, ◌≤◌, ◌≡◌, ◌↔◌, inl, inr, refl, true, false, Option, none, some, List, [], ◌∷◌, is_ok, ◌==◌,
  arith, Bool-cases,
}
use hozdacha.Base.Int.{ℤ, pos, ◌+ℤ◌, ◌≤ℤ◌, int_laws}
use hozdacha.Store.Rows.{
  Product, ProductStatus, Order, OrderStatus, pending, completed, cancelled, OrderItem, Db,
}
use hozdacha.Store.Transaction.{Postgres, update, update-cases}
use hozdacha.Store.Create.{create_order_atomic, has_product}
use hozdacha.Store.Create.Books.{create-total}
use hozdacha.Store.Create.Service.{CanServe, create-decides}
use hozdacha.Store.Cancel.{cancel_pending_order_atomic, order_rows, finish_cancel}
use hozdacha.Store.Cancel.Keeps.{PicksOne, SingleRows, cancel-total}
use hozdacha.Store.Cancel.Leak.{cancel_leaks}
use hozdacha.Store.RoundTrip.{create-cancel}
use hozdacha.Store.Lifecycle.{Op, run, closed_once}
use hozdacha.Store.Accounts.{total, on_hand, WellFormed, InStock}

abbrev postgres : Postgres
postgres = record { fault = λ _. false; locked = λ _. false; pick = λ it _. it }

abbrev tea : ℤ → Product
tea stock = record {
  id = 1;
  name = [];
  price = 10_000;
  moysklad_id = none;
  category_id = none;
  stock = stock;
  is_active = true;
  status = ProductStatus.active;
}

abbrev draft : ℕ → OrderStatus → Order
draft id status = record {
  id = id;
  user_id = some 7;
  status = status;
  total_price = pos 20_000;
  customer_name = [];
  phone = [];
  address = none;
  comment = none;
  moysklad_id = none;
  reserved_until = some 100;
  pickup_at = none;
}

abbrev two_teas : ℕ → OrderItem
two_teas oid = record { order_id = oid; product_id = 1; quantity = pos 2; price = 10_000 }

abbrev shelf : ℤ → ℕ → Option Product
shelf stock = update (λ _. none) 1 (some (tea stock))

abbrev empty_shop : Db
empty_shop = record {
  products = shelf (pos 5);
  orders = λ _. none;
  items = [];
  cart = [];
  next_order_id = 1;
}

-- A shop with order 1 of the given status and items.
abbrev shop_with : OrderStatus → List OrderItem → Db
shop_with status items = record {
  products = shelf (pos 3);
  orders = update (λ _. none) 1 (some (draft 1 status));
  items = items;
  cart = [];
  next_order_id = 2;
}

abbrev held_shop : Db
held_shop = shop_with pending (two_teas 1 ∷ [])

empty_shop-WellFormed : WellFormed empty_shop
empty_shop-WellFormed = record { fresh = λ oid h. refl; owned = tt; known = tt }

shop_with-fresh :
    (status : OrderStatus) (items : List OrderItem) (oid : ℕ)
    → 2 ≤ oid
    → (shop_with status items).orders oid ≡ none
shop_with-fresh status items oid h =
    update-cases (λ o. o ≡ none) (λ _. none) 1 oid (some (draft 1 status))
      (λ e. absurd (omega (arith, h, e))) (λ _. refl)

held_shop-WellFormed : WellFormed held_shop
held_shop-WellFormed = record {
  fresh = shop_with-fresh pending (two_teas 1 ∷ []);
  owned = (omega arith, tt);
  known = (refl, tt);
}

shelf-InStock : (n : ℕ) → InStock (shelf (pos n))
shelf-InStock n pid =
    update-cases (λ p. pos 0 ≤ℤ on_hand p) (λ _. none) 1 pid (some (tea (pos n)))
      (λ _. omega int_laws) (λ _. omega int_laws)

create-total_example :
    total (create_order_atomic postgres empty_shop (draft 0 pending) (two_teas 0 ∷ []) 7).1 1
    ≡ total empty_shop 1
create-total_example =
    create-total postgres empty_shop (draft 0 pending) (two_teas 0 ∷ []) 7 empty_shop-WellFormed
      refl 1

create-decides_example :
    (is_ok (create_order_atomic postgres empty_shop (draft 0 pending) (two_teas 0 ∷ []) 7).0 ≡ true)
    ↔ CanServe (shelf (pos 5)) (two_teas 0 ∷ [])
create-decides_example =
    create-decides postgres empty_shop (draft 0 pending) (two_teas 0 ∷ []) 7 (λ s. refl)
      (shelf-InStock 5) (omega int_laws, tt)

pg-PicksOne : PicksOne postgres
pg-PicksOne it its = inl refl

single_rows : SingleRows 1 (two_teas 1 ∷ [])
unfolding order_rows
single_rows pid = elim (Bool-cases (1 == pid)) [
  | inl e ↦ rw e (omega arith)
  | inr e ↦ rw e (omega arith)
]

cancel-total_example :
    total (cancel_pending_order_atomic postgres held_shop 1 cancelled (some 7)).1 1
    ≡ total held_shop 1
cancel-total_example =
    cancel-total postgres held_shop 1 cancelled (some 7) held_shop-WellFormed pg-PicksOne
      single_rows 1

created_shop : Db
created_shop = (create_order_atomic postgres empty_shop (draft 0 pending) (two_teas 0 ∷ []) 7).1

create-cancel_example :
    on_hand ((cancel_pending_order_atomic postgres created_shop 1 cancelled (some 7)).1.products 1)
    ≡ on_hand (empty_shop.products 1)
unfolding create_order_atomic cancel_pending_order_atomic created_shop has_product finish_cancel
create-cancel_example =
    create-cancel postgres empty_shop (draft 0 pending) (two_teas 0 ∷ []) 7 1 cancelled (some 7)
      empty_shop-WellFormed pg-PicksOne (refl, tt) refl refl

abbrev found_ids : List ℕ
found_ids = 1 ∷ []

abbrev history : List (Postgres × Op)
history =
    (postgres, Op.cancel 1 cancelled (some 7))
    ∷ (postgres, Op.complete 1)
    ∷ (postgres, Op.cancel 1 cancelled none)
    ∷ []

abbrev done_shop : Db
done_shop = shop_with completed (two_teas 1 ∷ [])

done_shop-WellFormed : WellFormed done_shop
done_shop-WellFormed = record {
  fresh = shop_with-fresh completed (two_teas 1 ∷ []);
  owned = (omega arith, tt);
  known = (refl, tt);
}

closed_once_example : (run 1 held_shop history).0 ≤ 1
closed_once_example = closed_once 1 held_shop history held_shop-WellFormed

abbrev twice : List OrderItem
twice = two_teas 1 ∷ two_teas 1 ∷ []

abbrev twice_shop : Db
twice_shop = shop_with pending twice

twice_shop-WellFormed : WellFormed twice_shop
twice_shop-WellFormed = record {
  fresh = shop_with-fresh pending twice;
  owned = (omega arith, (omega arith, tt));
  known = (refl, (refl, tt));
}

cancel_leaks_example :
    total (cancel_pending_order_atomic postgres twice_shop 1 cancelled (some 7)).1 1 +ℤ pos 1
    ≤ℤ total twice_shop 1
unfolding cancel_pending_order_atomic order_rows finish_cancel
cancel_leaks_example =
    cancel_leaks postgres twice_shop 1 cancelled (some 7) 1 twice_shop-WellFormed pg-PicksOne
      (omega int_laws, (omega int_laws, tt)) (omega arith) none _ refl
