-- ===== src/Store/Create.antt =====
-- `CreateOrderAtomic` of internal/db/orders.go: the stock of each item is decremented, the order and
-- its items are inserted, and the ordered products leave the user's cart, in one transaction.
pub mod Stock
pub mod Cases
pub mod Books
pub mod Service
use hozdacha.Base.{
  ℕ, suc, Bool, true, false, not, ◌&&◌, ◌||◌, Option, none, some, List, [], ◌∷◌, ◌++◌, Result, ok,
  err, ◌>>=◌, ◌>>◌, ◌==◌, if◌then◌else◌,
}
use hozdacha.Base.Int.{ltb_ℤ, ◌-ℤ◌}
use hozdacha.Store.Rows.{Product, Order, OrderItem, CartItem, Db}
use hozdacha.Store.Transaction.{
  Postgres, DbError, insert_order, clear_cart, decrement_stock, insert_item, insufficient_stock,
  exec, run_tx, update, stock_status,
}

abbrev pub decremented : OrderItem → Product → Product
decremented it p =
    let left = p.stock -ℤ it.quantity in record p { stock = left; status = stock_status left }

abbrev pub can_sell : OrderItem → Product → Bool
can_sell it p = not (ltb_ℤ p.stock it.quantity) && p.is_active

abbrev pub decrement_row :
    OrderItem
    → (ℕ → Option Product)
    → Option Product
    → Result DbError (Product × (ℕ → Option Product))
decrement_row it ps none = err (insufficient_stock it.product_id)
decrement_row it ps (some p) =
    if can_sell it p
    then ok (decremented it p, update ps it.product_id (some (decremented it p)))
    else err (insufficient_stock it.product_id)

-- The UPDATE of one product that subtracts a quantity, if there is that much of an active product.
unfoldable pub decrement :
    OrderItem → (ℕ → Option Product) → Result DbError (Product × (ℕ → Option Product))
decrement it ps = decrement_row it ps (ps it.product_id)

unfoldable pub decrement_all :
    Postgres
    → ℕ
    → List OrderItem
    → (ℕ → Option Product)
    → Result DbError (List Product × (ℕ → Option Product))
unfolding decrement
decrement_all pg i [] ps = ok ([], ps)
decrement_all pg i (it ∷ its) ps = do
  exec pg (decrement_stock i)
  r ← decrement it ps
  rs ← decrement_all pg (suc i) its r.1
  ok (r.0 ∷ rs.0, rs.1)

abbrev pub stamped : ℕ → List OrderItem → List OrderItem
stamped oid [] = []
stamped oid (it ∷ its) = record it { order_id = oid } ∷ stamped oid its

unfoldable pub insert_items : Postgres → ℕ → ℕ → List OrderItem → Result DbError (List OrderItem)
insert_items pg i oid [] = ok []
insert_items pg i oid (it ∷ its) = do
  exec pg (insert_item i)
  rest ← insert_items pg (suc i) oid its
  ok (record it { order_id = oid } ∷ rest)

unfoldable pub has_product : ℕ → List OrderItem → Bool
has_product pid [] = false
has_product pid (it ∷ its) = it.product_id == pid || has_product pid its

-- DELETE of the user's cart rows for the ordered products.
unfoldable pub without_ordered : ℕ → List OrderItem → List CartItem → List CartItem
unfolding has_product
without_ordered uid its [] = []
without_ordered uid its (c ∷ cs) =
    let rest = without_ordered uid its cs in
    if c.user_id == uid && has_product c.product_id its then rest else c ∷ rest

abbrev is_empty {ℓ} : {A : Type ℓ} → List A → Bool
is_empty [] = true
is_empty (_ ∷ _) = false

unfoldable pub cleaned_cart :
    Postgres → ℕ → List OrderItem → List CartItem → Result DbError (List CartItem)
unfolding without_ordered
cleaned_cart pg uid its cart =
    if not (uid == 0) && not (is_empty its)
    then (exec pg clear_cart >> ok (without_ordered uid its cart))
    else ok cart

-- What a successful creation returns: the order row, its items and the products after the decrement.
pub record Created : Type 0 where
  pub order : Order
  pub items : List OrderItem
  pub products : List Product

abbrev pub created_row : Db → Order → Order
created_row db order = record order { id = db.next_order_id }

abbrev pub created_db : Db → Order → List OrderItem → (ℕ → Option Product) → List CartItem → Db
created_db db order rows ps cart = record {
  products = ps;
  orders = update db.orders db.next_order_id (some (created_row db order));
  items = db.items ++ rows;
  cart = cart;
  next_order_id = suc db.next_order_id;
}

unfoldable pub create_body :
    Postgres → Db → Order → List OrderItem → ℕ → Result DbError (Created × Db)
unfolding decrement_all insert_items cleaned_cart
create_body pg db order its uid = do
  dec ← decrement_all pg 0 its db.products
  exec pg insert_order
  rows ← insert_items pg 0 db.next_order_id its
  cart ← cleaned_cart pg uid its db.cart
  ok (
    record { order = created_row db order; items = rows; products = dec.0 },
    created_db db order rows dec.1 cart,
  )

unfoldable pub create_order_atomic :
    Postgres → Db → Order → List OrderItem → ℕ → Result DbError Created × Db
unfolding run_tx create_body
create_order_atomic pg db order its uid = run_tx pg db (create_body pg db order its uid)
