-- ===== src/Cart.antt =====
-- The cart (internal/usecase/cart.go, internal/db/cart.go).
--
-- The table is the list of its rows in the order they were created. Its constraints are those of
-- migrations/003_create_cart_items.sql: one row for a user and a product, a quantity above 0 that fits
-- a column of 32 bits. A sum that overflows Go's int is out of the column's range either way.
mod Examples
mod Adding
mod Reading
use hozdacha.Base.{
  ℕ, ◌+◌, Bool, true, false, not, ◌&&◌, ◌||◌, Option, none, some, List, [], ◌∷◌, ◌++◌, map, any,
  Result, ok, err, ◌>>=◌, ◌>>◌, ensure, ltb, leb, ◌==◌, if◌then◌else◌,
}
use hozdacha.Base.Int.{ℤ, pos, ◌+ℤ◌, ltb_ℤ}
use hozdacha.Store.Rows.{Product, CartItem}

pub data Query : Type 0 where
  get_product get_item create_item update_quantity_of delete_item clear_items : Query
  get_items get_products get_one : Query

pub data CartError : Type 0 where
  query_failed : Query → CartError
  product_not_found product_not_active product_out_of_stock not_in_cart : CartError
  constraint : CartError

-- The two tables, and the queries that fail.
pub record Shop : Type 0 where
  pub products : ℕ → Option Product
  pub fault : Query → Bool

abbrev pub try_query : Shop → Query → Result CartError (Unit {0})
try_query shop q = ensure (not (shop.fault q)) (query_failed q)

abbrev pub is_row : ℕ → ℕ → CartItem → Bool
is_row user product it = (it.user_id == user) && (it.product_id == product)

-- CHECK (cart_items_quantity > 0) and the range of INTEGER.
abbrev pub storable : ℤ → Bool
storable q = ltb_ℤ (pos 0) q && ltb_ℤ q (pos 2_147_483_648)

unfoldable pub find_item : ℕ → ℕ → List CartItem → Option CartItem
find_item user product [] = none
find_item user product (it ∷ its) =
    if is_row user product it then some it else find_item user product its

unfoldable pub get_by_user_id_and_product_id :
    Shop → ℕ → ℕ → List CartItem → Result CartError (Option CartItem)
unfolding find_item
get_by_user_id_and_product_id shop user product cart = do
  try_query shop get_item
  ok (find_item user product cart)

abbrev pub set_quantity : ℕ → ℕ → ℤ → CartItem → CartItem
set_quantity user product q it = if is_row user product it then record it { quantity = q } else it

-- The constraint is tested where a row changes.
unfoldable pub update_quantity : Shop → ℕ → ℕ → ℤ → List CartItem → Result CartError (List CartItem)
update_quantity shop user product q cart = do
  try_query shop update_quantity_of
  ensure (not (any (is_row user product) cart) || storable q) constraint
  ok (map (set_quantity user product q) cart)

unfoldable pub create : Shop → CartItem → List CartItem → Result CartError (List CartItem)
create shop it cart = do
  try_query shop create_item
  ensure (storable it.quantity && not (any (is_row it.user_id it.product_id) cart)) constraint
  ok (cart ++ (it ∷ []))

unfoldable pub keep : (CartItem → Bool) → List CartItem → List CartItem
keep f [] = []
keep f (it ∷ its) = if f it then it ∷ keep f its else keep f its

unfoldable pub delete : Shop → ℕ → ℕ → List CartItem → Result CartError (List CartItem)
unfolding keep
delete shop user product cart = do
  try_query shop delete_item
  ok (keep (λ it. not (is_row user product it)) cart)

unfoldable pub clear : Shop → ℕ → List CartItem → Result CartError (List CartItem)
unfolding keep
clear shop user cart = do
  try_query shop clear_items
  ok (keep (λ it. not (it.user_id == user)) cart)

-- `product == nil`.
abbrev pub found : Option Product → Result CartError Product
found none = err product_not_found
found (some p) = ok p

abbrev pub merge_or_create :
    Shop → ℕ → ℕ → ℤ → List CartItem → Option CartItem → Result CartError (List CartItem)
merge_or_create shop user product q cart none =
    create shop (record { user_id = user; product_id = product; quantity = q }) cart
merge_or_create shop user product q cart (some it) =
    update_quantity shop user product (it.quantity +ℤ q) cart

unfoldable pub add_to_cart : Shop → ℕ → ℕ → ℤ → List CartItem → Result CartError (List CartItem)
unfolding get_by_user_id_and_product_id create update_quantity
add_to_cart shop user product q cart = do
  try_query shop get_product
  p ← found (shop.products product)
  ensure p.is_active product_not_active
  ensure (ltb_ℤ (pos 0) p.stock) product_out_of_stock
  existing ← get_by_user_id_and_product_id shop user product cart
  merge_or_create shop user product q cart existing

abbrev in_cart : Option CartItem → Result CartError CartItem
in_cart none = err not_in_cart
in_cart (some it) = ok it

unfoldable pub update_cart : Shop → ℕ → ℕ → ℤ → List CartItem → Result CartError (List CartItem)
unfolding get_by_user_id_and_product_id update_quantity
update_cart shop user product q cart = do
  try_query shop get_product
  p ← found (shop.products product)
  existing ← get_by_user_id_and_product_id shop user product cart
  it ← in_cart existing
  update_quantity shop user product q cart

unfoldable pub remove_from_cart : Shop → ℕ → ℕ → List CartItem → Result CartError (List CartItem)
unfolding delete
remove_from_cart shop user product cart = delete shop user product cart

unfoldable pub clear_cart : Shop → ℕ → List CartItem → Result CartError (List CartItem)
unfolding clear
clear_cart shop user cart = clear shop user cart
