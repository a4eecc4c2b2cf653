-- ===== src/Sync/Products.antt =====
-- `MoyskladSyncService` (internal/services/moysklad_sync.go): a full and a delta run, one product of the worker
-- pool, and the stocks alone.
--
-- A run walks through the products in batches of twenty; the pauses between them are left out. A panic is none
-- of the model's. What the service asks of MoySklad is given by its answers.
use hozdacha.Base.{
  ℕ, zero, suc, ◌+◌, Bool, true, false, Option, none, some, List, [], ◌∷◌, length, take, drop,
  Result, ok, err, ◌>>=◌, ◌>>◌, ensure, if◌then◌else◌,
}
use hozdacha.Base.Int.{ℤ, pos}
use hozdacha.Store.Rows.{Text}
use hozdacha.StockCache.{Redis, set_stock}
use hozdacha.Sync.{
  MoyskladProduct, Product, State, Fault, SyncError, no_client, no_cache, no_stock_report,
  no_products, status_of, first_image, positive_price, get_price, quantity_of, not_negative,
  or_else, get_by_moysklad_id, insert, update,
}
use hozdacha.Sync.Folders.{
  Folder, Categories, CategoryQuery, Ids, sync_categories, lookup_category_id,
}

abbrev pub StockMap : Type 0
StockMap = Text → Option ℤ

unfoldable cache_stock : Option Redis → ℕ → Text → ℤ → ℕ → Option Redis
unfolding set_stock
cache_stock none id moysklad_id stock now = none
cache_stock (some c) id moysklad_id stock now = some (set_stock c id moysklad_id stock now)

-- `stockCache.SetStock`, where there is a cache.
unfoldable pub cached : State → ℕ → Text → ℤ → ℕ → State
unfolding cache_stock
cached s id moysklad_id stock now = record s {
  cache = cache_stock s.cache id moysklad_id stock now;
}

abbrev pub existing_stock : Option Product → ℤ
existing_stock none = pos 0
existing_stock (some p) = p.stock

-- A full run takes the stock from the report; a delta run, which has none, keeps the stock of the row.
abbrev pub stock_for : Option StockMap → Text → Option Product → ℤ
stock_for (some m) id existing = not_negative (quantity_of (m id))
stock_for none id existing = existing_stock existing

abbrev pub existing_category : Option Product → Option ℕ
existing_category none = none
existing_category (some p) = p.category_id

abbrev pub existing_image : Option Product → Option Text
existing_image none = none
existing_image (some p) = p.image_url

unfoldable pub folder_category : Ids → Option Text → Option ℕ
unfolding lookup_category_id
folder_category m none = none
folder_category m (some href) = lookup_category_id m href

unfoldable pub product_for : Option StockMap → Ids → MoyskladProduct → Option Product → Product
unfolding folder_category
product_for report m ms existing =
    let stock = stock_for report ms.id existing in
    record {
      id = 0;
      name = ms.name;
      description = ms.description;
      price = positive_price ms.sale_prices;
      image_url = or_else (existing_image existing) (first_image ms.images);
      moysklad_id = some ms.id;
      category_id = or_else (folder_category m ms.folder) (existing_category existing);
      stock = stock;
      is_active = true;
      status = status_of stock;
      last_sync_updated = ms.updated;
      updated_at = 0;
    }

pub data Outcome : Type 0 where
  created updated not_synced : Outcome

unfoldable pub saved :
    State → Outcome → Text → ℕ → Result SyncError (Product × State) → Outcome × State
unfolding cached
saved s outcome moysklad_id now (err e) = (not_synced, s)
saved s outcome moysklad_id now (ok (p, s')) = (outcome, cached s' p.id moysklad_id p.stock now)

-- The insertion or the update, by whether there is a row.
unfoldable pub store : Fault → State → Product → Option Product → Text → ℕ → Outcome × State
unfolding insert update saved
store fault s p none moysklad_id now =
    saved s created moysklad_id now (insert fault s p moysklad_id now)
store fault s p (some old) moysklad_id now =
    saved s updated moysklad_id now (update fault s p old.id moysklad_id now)

unfoldable pub found_one :
    Fault
    → Option StockMap
    → Ids
    → MoyskladProduct
    → ℕ
    → State
    → Result SyncError (Option Product)
    → Outcome × State
unfolding product_for store
found_one fault report m ms now s (err e) = (not_synced, s)
found_one fault report m ms now s (ok existing) =
    store fault s (product_for report m ms existing) existing ms.id now

-- The body of the loop.
unfoldable pub sync_one :
    Fault → Option StockMap → Ids → MoyskladProduct → ℕ → State → Outcome × State
unfolding get_by_moysklad_id found_one
sync_one fault report m ms now s =
    found_one fault report m ms now s (get_by_moysklad_id fault s ms.id)

pub record SyncResult : Type 0 where
  pub created_count : ℕ
  pub updated_count : ℕ
  pub errors : ℕ

abbrev pub counted : Outcome → SyncResult → SyncResult
counted created r = record r { created_count = r.created_count + 1 }
counted updated r = record r { updated_count = r.updated_count + 1 }
counted not_synced r = record r { errors = r.errors + 1 }

-- The products of a list, one after the other.
unfoldable pub sync_all :
    Fault
    → Option StockMap
    → Ids
    → ℕ
    → List MoyskladProduct
    → SyncResult × State
    → SyncResult × State
unfolding sync_one
sync_all fault report m now [] out = out
sync_all fault report m now (ms ∷ rest) out =
    let (outcome, s) = sync_one fault report m ms now out.1 in
    sync_all fault report m now rest (counted outcome out.0, s)

abbrev pub batch_size : ℕ
batch_size = 20

-- Batches of twenty, on fuel: one unit for each batch.
unfoldable pub sync_batches :
    ℕ
    → Fault
    → Option StockMap
    → Ids
    → ℕ
    → List MoyskladProduct
    → SyncResult × State
    → SyncResult × State
unfolding sync_all
sync_batches zero fault report m now products out = out
sync_batches (suc fuel) fault report m now [] out = out
sync_batches (suc fuel) fault report m now (ms ∷ rest) out =
    sync_batches fuel fault report m now (drop batch_size (ms ∷ rest))
      (sync_all fault report m now (take batch_size (ms ∷ rest)) out)

pub data FetchError : Type 0 where
  resync_required fetch_failed : FetchError

-- The answers of MoySklad; none where a call fails.
pub record Answers : Type 0 where
  pub stock_report : Option StockMap
  pub changed_since : ℕ → Result FetchError (List MoyskladProduct)
  pub all_products : Option (List MoyskladProduct)
  pub product_folders : Option (List Folder)

abbrev pub or_error {ℓ} : {A : Type ℓ} → SyncError → Option A → Result SyncError A
or_error e none = err e
or_error e (some a) = ok a

-- A delta that MoySklad refuses is replaced by the full list.
abbrev pub fetched :
    Answers → Result FetchError (List MoyskladProduct) → Result SyncError (List MoyskladProduct)
fetched answers (ok ps) = ok ps
fetched answers (err resync_required) = or_error no_products answers.all_products
fetched answers (err fetch_failed) = err no_products

abbrev pub fetch : Answers → Option ℕ → Result SyncError (List MoyskladProduct)
fetch answers none = or_error no_products answers.all_products
fetch answers (some since) = fetched answers (answers.changed_since since)

abbrev pub report_for : Answers → Bool → Result SyncError (Option StockMap)
report_for answers true = ok none
report_for answers false = or_error no_stock_report answers.stock_report >>= λ m. ok (some m)

abbrev no_result : SyncResult
no_result = record { created_count = 0; updated_count = 0; errors = 0 }

abbrev sync_time : Option Redis → ℕ → Option Redis
sync_time none now = none
sync_time (some c) now = some (record c { last_sync = some now })

abbrev finished : Categories → ℕ → SyncResult × State → SyncResult × State × Categories
finished t now (r, s) = (r, record s { cache = sync_time s.cache now }, t)

-- `syncProducts`; `since` is the time a delta run starts from.
unfoldable pub sync_products :
    (CategoryQuery → Text → Bool)
    → Fault
    → Option Answers
    → Bool
    → Option ℕ
    → ℕ
    → State
    → Categories
    → Result SyncError (SyncResult × State × Categories)
unfolding sync_categories sync_batches
sync_products fault_category fault client delta since now s t = do
  answers ← or_error no_client client
  report ← report_for answers delta
  products ← fetch answers (if delta then since else none)
  let (m, kept, t') = sync_categories fault_category s.folders t answers.product_folders
  ok (
      finished t' now (
        sync_batches (length products) fault report m now products
          (no_result, record s { folders = kept })))

unfoldable pub worker_category : Ids → Option Text → Option Product → Option ℕ
unfolding folder_category
worker_category m folder existing = or_else (folder_category m folder) (existing_category existing)

-- What the worker pool writes: the quantity as it is, and no time of change.
unfoldable pub worker_product : Ids → MoyskladProduct → Option Product → Product
unfolding worker_category
worker_product m ms existing =
    let stock = quantity_of ms.stock in
    record {
      id = 0;
      name = ms.name;
      description = ms.description;
      price = get_price ms.sale_prices;
      image_url = existing_image existing;
      moysklad_id = some ms.id;
      category_id = worker_category m ms.folder existing;
      stock = stock;
      is_active = true;
      status = status_of stock;
      last_sync_updated = none;
      updated_at = 0;
    }

unfoldable pub worker_store :
    Fault → State → Product → Option Product → Text → ℕ → Result SyncError (Product × State)
unfolding insert update
worker_store fault s p none id now = insert fault s p id now
worker_store fault s p (some old) id now = update fault s p old.id id now

-- `SyncSingleProduct`.
unfoldable pub sync_single_product : Fault → MoyskladProduct → ℕ → State → Result SyncError State
unfolding get_by_moysklad_id worker_product worker_store cached
sync_single_product fault ms now s = do
  existing ← get_by_moysklad_id fault s ms.id
  let p = worker_product s.folders ms existing
  (row, s') ← worker_store fault s p existing ms.id now
  ok (cached s' row.id ms.id row.stock now)

abbrev pub restocked : Product → ℤ → Product
restocked p stock = record p { stock = stock; status = status_of stock }

unfoldable pub restock_saved : State → Text → ℤ → ℕ → Result SyncError (Product × State) → State
unfolding cached
restock_saved s id stock now (err e) = s
restock_saved s id stock now (ok (p, s')) = cached s' p.id id stock now

unfoldable pub restock_found :
    Fault → Text → ℤ → ℕ → State → Result SyncError (Option Product) → State
unfolding update restock_saved
restock_found fault id stock now s (err e) = s
restock_found fault id stock now s (ok none) = s
restock_found fault id stock now s (ok (some p)) =
    restock_saved s id stock now (update fault s (restocked p stock) p.id id now)

-- The stock of one product of a report: a product that is unknown, or a query that fails, is passed over.
unfoldable pub restock : Fault → ℕ → State → Text × ℤ → State
unfolding get_by_moysklad_id restock_found
restock fault now s (id, stock) = restock_found fault id stock now s (get_by_moysklad_id fault s id)

unfoldable pub restock_all : Fault → ℕ → State → List (Text × ℤ) → State
unfolding restock
restock_all fault now s [] = s
restock_all fault now s (entry ∷ rest) = restock_all fault now (restock fault now s entry) rest

abbrev time_kept : State → ℕ → State
time_kept s now = record s { cache = sync_time s.cache now }

abbrev pub has_cache : Option Redis → Bool
has_cache none = false
has_cache (some c) = true

-- `SyncStockOnly`: the report as the entries of a map, in the order they come.
unfoldable pub sync_stock_only :
    Fault → Bool → Option (List (Text × ℤ)) → ℕ → State → Result SyncError State
unfolding restock_all
sync_stock_only fault client report now s = do
  ensure client no_client
  ensure (has_cache s.cache) no_cache
  entries ← or_error no_stock_report report
  ok (time_kept (restock_all fault now s entries) now)
