-- ===== src/Store/Rows.antt =====
-- Rows of the tables `products`, `orders`, `order_items` and `cart_items`, and the database state
-- (internal/db/products.go, orders.go, cart.go). Money is a number of kopecks, a point in time a
-- number of nanoseconds, a string its list of bytes.
use hozdacha.Base.{ℕ, List, Option, Bool}
use hozdacha.Base.Int.{ℤ}

abbrev pub Text : Type 0
Text = List ℕ

-- `products_status`.
pub data ProductStatus : Type 0 where
  active out_of_stock deleted archived : ProductStatus

pub record Product : Type 0 where
  pub id : ℕ
  pub name : Text
  pub price : ℕ
  pub moysklad_id : Option Text
  pub category_id : Option ℕ
  pub stock : ℤ
  pub is_active : Bool
  pub status : ProductStatus

-- `orders_status`; the last two are written by the older Moysklad flow only.
pub data OrderStatus : Type 0 where
  pending completed expired cancelled processing failed : OrderStatus

pub record Order : Type 0 where
  pub id : ℕ
  pub user_id : Option ℕ
  pub status : OrderStatus
  pub total_price : ℤ
  pub customer_name : Text
  pub phone : Text
  pub address : Option Text
  pub comment : Option Text
  pub moysklad_id : Option Text
  pub reserved_until : Option ℕ
  pub pickup_at : Option ℕ

pub record OrderItem : Type 0 where
  pub order_id : ℕ
  pub product_id : ℕ
  pub quantity : ℤ
  pub price : ℕ

pub record CartItem : Type 0 where
  pub user_id : ℕ
  pub product_id : ℕ
  pub quantity : ℤ

-- Tables with a primary key are maps from it; `next_order_id` is the sequence of `orders_id_pk`.
pub record Db : Type 0 where
  pub products : ℕ → Option Product
  pub orders : ℕ → Option Order
  pub items : List OrderItem
  pub cart : List CartItem
  pub next_order_id : ℕ
