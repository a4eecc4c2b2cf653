-- ===== src/Sync.antt =====
-- Products taken over from MoySklad (internal/services/moysklad_sync.go,
-- internal/services/webhook_processor.go) and the queries they run (internal/db/products.go).
--
-- Prices are kopecks. A quantity of MoySklad is its whole part, which is all that the code keeps: where it
-- compares a quantity with 0 first, a fraction has the same result. The table is the list of its rows; `fault`
-- tells which query fails, for a product by its id in MoySklad.
pub mod Href
pub mod Folders
pub mod Products
pub mod Webhook
mod Pool
mod Writes
mod Agreement
mod Stored
mod Kept
mod Categories
mod Examples
use hozdacha.Base.{
  ℕ, ◌+◌, Bool, true, false, not, ◌&&◌, ◌||◌, any, Option, none, some, List, [], ◌∷◌, ◌++◌, map,
  Result, ok, err, ◌>>=◌, ◌>>◌, ensure, ltb, leb, ◌==◌, if◌then◌else◌,
}
use hozdacha.Base.Int.{ℤ, pos, negsuc, ltb_ℤ}
use hozdacha.Store.Rows.{Text}
use hozdacha.Users.Texts.{text_eq}
use hozdacha.StockCache.{Redis}

-- `moysklad.MoyskladProduct`: `updated` is the time it was changed at, where the text can be read.
pub record MoyskladProduct : Type 0 where
  pub id : Text
  pub name : Text
  pub description : Option Text
  pub sale_prices : List ℤ
  pub stock : Option ℤ
  pub folder : Option Text
  pub images : List Text
  pub updated : Option ℕ

pub data Status : Type 0 where
  active out_of_stock deleted : Status

pub record Product : Type 0 where
  pub id : ℕ
  pub name : Text
  pub description : Option Text
  pub price : ℤ
  pub image_url : Option Text
  pub moysklad_id : Option Text
  pub category_id : Option ℕ
  pub stock : ℤ
  pub is_active : Bool
  pub status : Status
  pub last_sync_updated : Option ℕ
  pub updated_at : ℕ

-- The products, the cache, where there is one, and the categories of the folders read last.
pub record State : Type 0 where
  pub next_id : ℕ
  pub products : List Product
  pub cache : Option Redis
  pub folders : Text → Option ℕ

pub data Query : Type 0 where
  by_moysklad_id insert_product update_product : Query

pub data SyncError : Type 0 where
  failed : Query → SyncError
  several_rows no_row no_client no_cache no_stock_report no_products : SyncError

abbrev pub Fault : Type 0
Fault = Query → Text → Bool

abbrev pub run_query : Fault → Query → Text → Result SyncError (Unit {0})
run_query fault q id = ensure (not (fault q id)) (failed q)

abbrev pub text_is : Text → Option Text → Bool
text_is id none = false
text_is id (some t) = text_eq t id

abbrev pub has_moysklad_id : Text → Product → Bool
has_moysklad_id id p = text_is id p.moysklad_id

unfoldable pub products_where : (Product → Bool) → List Product → List Product
products_where f [] = []
products_where f (p ∷ ps) = if f p then p ∷ products_where f ps else products_where f ps

abbrev pub one_product : List Product → Result SyncError (Option Product)
one_product [] = ok none
one_product (p ∷ []) = ok (some p)
one_product (p ∷ q ∷ ps) = err several_rows

unfoldable pub get_by_moysklad_id : Fault → State → Text → Result SyncError (Option Product)
unfolding products_where text_eq
get_by_moysklad_id fault s id = do
  run_query fault by_moysklad_id id
  one_product (products_where (has_moysklad_id id) s.products)

-- INSERT ... RETURNING *: the id is the database's; no row has the id in MoySklad yet.
unfoldable pub insert : Fault → State → Product → Text → ℕ → Result SyncError (Product × State)
insert fault s p id now = do
  run_query fault insert_product id
  let row = record p { id = s.next_id; updated_at = now }
  ok (row, record s { next_id = s.next_id + 1; products = s.products ++ (row ∷ []) })

-- Every column but the id is written, those that are empty too.
abbrev pub written : Product → ℕ → ℕ → Product → Product
written p id now old = if old.id == id then record p { id = id; updated_at = now } else old

abbrev pub returned : List Product → State → Result SyncError (Product × State)
returned [] s = err no_row
returned (p ∷ ps) s = ok (p, s)

unfoldable pub update : Fault → State → Product → ℕ → Text → ℕ → Result SyncError (Product × State)
unfolding products_where
update fault s p id moysklad_id now = do
  run_query fault update_product moysklad_id
  let s' = record s { products = map (written p id now) s.products }
  returned (products_where (λ q. q.id == id) s'.products) s'

-- "active" where there is something left.
abbrev pub status_of : ℤ → Status
status_of stock = if ltb_ℤ (pos 0) stock then active else out_of_stock

abbrev pub first_image : List Text → Option Text
first_image [] = none
first_image (i ∷ is) = some i

-- The first price, where it is positive.
abbrev pub positive_price : List ℤ → ℤ
positive_price [] = pos 0
positive_price (v ∷ vs) = if ltb_ℤ (pos 0) v then v else pos 0

-- `getPrice`.
abbrev pub get_price : List ℤ → ℤ
get_price [] = pos 0
get_price (v ∷ vs) = v

-- `getStock`.
abbrev pub quantity_of : Option ℤ → ℤ
quantity_of none = pos 0
quantity_of (some q) = q

abbrev pub not_negative : ℤ → ℤ
not_negative q = if ltb_ℤ (pos 0) q then q else pos 0

abbrev pub or_else {ℓ} : {A : Type ℓ} → Option A → Option A → Option A
or_else (some a) o = some a
or_else none o = o
