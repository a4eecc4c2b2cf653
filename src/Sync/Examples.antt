-- ===== src/Sync/Examples.antt =====
-- The theorems on the synchronisation for a table of two products.
use hozdacha.Base.{
  ◌≡◌, ℕ, ◌++◌, ltb, refl, arith, Bool, true, false, Option, none, some, List, [], ◌∷◌, map, ok,
}
use hozdacha.Base.Int.{pos}
use hozdacha.Store.Rows.{Text}
use hozdacha.Sync.{Product, MoyskladProduct, State, active, out_of_stock, Fault, get_by_moysklad_id}
use hozdacha.Sync.Href.{extract_moysklad_uuid}
use hozdacha.Sync.Folders.{
  Folder, Categories, CategoryQuery, no_ids, with_parent, find_by_name, sync_categories,
  upsert_by_name, new_category,
}
use hozdacha.Sync.Products.{
  StockMap, SyncResult, sync_one, sync_all, sync_batches, product_for, sync_single_product,
  folder_category,
}
use hozdacha.Sync.Webhook.{
  Event, update_action, delete_action, sync_product, process_entity_payload,
}
use hozdacha.Sync.Agreement.{Agreed, payload, rest, more, Steps-Agreed}
use hozdacha.Sync.Pool.{Task, WorkerStats, process_task, process_task-ended}
use hozdacha.Sync.Stored.{sync_batches-all}
use hozdacha.Sync.Kept.{Holds, outcome_of, row_for, row_id, sync_one-Holds, update-category}
use hozdacha.Sync.Categories.{sync_categories-find_by_name, same_name-own_parent}

abbrev bucket_id : Text
bucket_id = 120 ∷ []

abbrev spade_id : Text
spade_id = 121 ∷ []

abbrev bucket : Product
bucket = record {
  id = 4;
  name = 98 ∷ [];
  description = none;
  price = pos 19900;
  image_url = none;
  moysklad_id = some bucket_id;
  category_id = some 2;
  stock = pos 3;
  is_active = true;
  status = active;
  last_sync_updated = none;
  updated_at = 10;
}

abbrev spade : Product
spade = record {
  id = 5;
  name = 115 ∷ [];
  description = none;
  price = pos 49900;
  image_url = none;
  moysklad_id = some spade_id;
  category_id = none;
  stock = pos 0;
  is_active = true;
  status = out_of_stock;
  last_sync_updated = none;
  updated_at = 10;
}

abbrev shop : State
shop = record { next_id = 6; products = bucket ∷ spade ∷ []; cache = none; folders = no_ids }

abbrev quiet : Fault
quiet q id = false

-- The bucket as MoySklad has it now, in a folder that is not known here.
abbrev news : MoyskladProduct
news = record {
  id = bucket_id;
  name = 98 ∷ 66 ∷ [];
  description = none;
  sale_prices = pos 20900 ∷ [];
  stock = some (pos 7);
  folder = some (47 ∷ 102 ∷ []);
  images = [];
  updated = some 50;
}

abbrev ask : Text → Option (List MoyskladProduct)
ask id = some (news ∷ [])

abbrev report : Option StockMap
report = some (λ id. some (pos 7))

abbrev no_counts : SyncResult
no_counts = record { created_count = 0; updated_count = 0; errors = 0 }

sync_batches-all_example :
    sync_batches 1 quiet report no_ids 60 (news ∷ []) (no_counts, shop)
    ≡ sync_all quiet report no_ids 60 (news ∷ []) (no_counts, shop)
sync_batches-all_example =
    sync_batches-all quiet report no_ids 60 1 (news ∷ []) (no_counts, shop) (omega arith)

abbrev events : List Event
events =
    record { is_product = true; href = 47 ∷ bucket_id; action = update_action }
    ∷ record { is_product = true; href = 47 ∷ spade_id; action = delete_action }
    ∷ []

abbrev after_events : State
unfolding process_entity_payload
after_events = (process_entity_payload quiet ask 60 shop events).1

Steps-Agreed_example : Agreed after_events
unfolding process_entity_payload
Steps-Agreed_example =
    Steps-Agreed shop after_events
      (more shop after_events after_events (payload quiet 60 ask events shop) (rest after_events))
      (refl, (refl, tt))

sync_one-Holds_example :
    ((sync_one quiet report no_ids news 60 shop).0 ≡ outcome_of (some bucket))
    × Holds
        ((sync_one quiet report no_ids news 60 shop).1)
        bucket_id
        (row_for (product_for report no_ids news (some bucket)) (row_id shop (some bucket)) 60)
unfolding get_by_moysklad_id
sync_one-Holds_example =
    sync_one-Holds quiet shop news 60 ((refl, tt), (tt, tt)) refl refl report no_ids (some bucket)
      refl

update-category_example :
    ((row : Product) × Holds ((sync_one quiet report no_ids news 60 shop).1) bucket_id row
      × (row.category_id ≡ some 2))
    × ((s' : State) × (row : Product) × (sync_single_product quiet news 60 shop ≡ ok s')
        × Holds s' bucket_id row
        × (row.category_id ≡ some 2))
    × ((s' : State) × (row : Product) × (sync_product quiet ask bucket_id 60 shop ≡ ok s')
        × Holds s' bucket_id row
        × (row.category_id ≡ none))
unfolding get_by_moysklad_id folder_category
update-category_example =
    update-category quiet shop news 60 ((refl, tt), (tt, tt)) refl refl report no_ids ask [] bucket
      refl refl refl refl

abbrev calm : CategoryQuery → Text → Bool
calm q name = false

abbrev tools : Text
tools = 116 ∷ []

abbrev outer : Folder
outer = record { id = 49 ∷ []; name = tools; parent = none }

abbrev inner : Folder
inner = record { id = 50 ∷ []; name = tools; parent = some (47 ∷ 49 ∷ []) }

abbrev no_categories : Categories
no_categories = record { next_id = 3; rows = [] }

abbrev name_of : Text → Text
name_of id = tools

sync_categories-find_by_name_example :
    find_by_name
      (Categories.rows (sync_categories calm no_ids no_categories (some (outer ∷ inner ∷ []))).2)
      tools
    ≡ some 3
unfolding sync_categories
sync_categories-find_by_name_example =
    sync_categories-find_by_name calm name_of no_ids no_categories (outer ∷ inner ∷ []) (50 ∷ []) 3
      (refl, (refl, tt)) refl

same_name-own_parent_example :
    let r = sync_categories calm no_ids no_categories (some (outer ∷ inner ∷ [])) in
    (r.0 outer.id ≡ some 3)
    × (r.0 inner.id ≡ some 3)
    × (r.2 ≡ record (new_category calm no_categories tools).1 {
      rows = map (with_parent calm 3 3) ((new_category calm no_categories tools).1.rows);
    })
unfolding upsert_by_name extract_moysklad_uuid
same_name-own_parent_example =
    same_name-own_parent calm no_ids no_categories ((new_category calm no_categories tools).1) outer
      inner 116 [] 47 (49 ∷ []) 3 refl refl refl refl refl refl refl refl refl

abbrev batch : Task
batch = record { is_stop = false; products = news ∷ []; stock_by_id = none }

abbrev counters : WorkerStats
counters = record { total_tasks = 3; processed_tasks = 1; failed_tasks = 0; queued_tasks = 2 }

abbrev at_once : ℕ → Bool
at_once i = ltb 0 i

process_task-ended_example :
    process_task quiet 60 at_once
      (record batch { products = (news ∷ []) ++ (news ∷ []) })
      (shop, counters)
    ≡ process_task quiet 60 at_once (record batch { products = news ∷ [] }) (shop, counters)
process_task-ended_example =
    process_task-ended quiet 60 at_once batch (news ∷ []) (news ∷ []) (shop, counters) refl
