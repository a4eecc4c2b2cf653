-- ===== src/Sync/Webhook.antt =====
-- `WebhookProcessor` (internal/services/webhook_processor.go): what the events of the inbox do to the
-- products. The events are decoded; the products and the reports that MoySklad answers with are given.
use hozdacha.Base.{
  ℕ, Bool, true, false, Option, none, some, List, [], ◌∷◌, Result, ok, err, ◌>>=◌, if◌then◌else◌,
}
use hozdacha.Base.Int.{ℤ, pos}
use hozdacha.Store.Rows.{Text}
use hozdacha.StockCache.{Redis, invalidate_stock, invalidate_by_moysklad_id}
use hozdacha.Sync.{
  MoyskladProduct, Product, State, Fault, SyncError, no_products, no_stock_report, status_of,
  deleted, first_image, positive_price, quantity_of, not_negative, get_by_moysklad_id, insert,
  update,
}
use hozdacha.Sync.Href.{extract_id_from_href}
use hozdacha.Sync.Products.{cached, or_error, restock_all}

-- What the event is written with: no category, and no image that MoySklad does not name.
unfoldable pub webhook_product : Text → MoyskladProduct → Product
webhook_product id ms =
    let stock = not_negative (quantity_of ms.stock) in
    record {
      id = 0;
      name = ms.name;
      description = ms.description;
      price = positive_price ms.sale_prices;
      image_url = first_image ms.images;
      moysklad_id = some id;
      category_id = none;
      stock = stock;
      is_active = true;
      status = status_of stock;
      last_sync_updated = none;
      updated_at = 0;
    }

abbrev invalidated : Option Redis → (Redis → Redis) → Option Redis
invalidated none f = none
invalidated (some c) f = some (f c)

abbrev pub drop_cached : State → (Redis → Redis) → State
drop_cached s f = record s { cache = invalidated s.cache f }

unfoldable pub webhook_store :
    Fault → Text → Product → ℕ → State → Option Product → Result SyncError State
unfolding insert update cached invalidate_by_moysklad_id
webhook_store fault id p now s none = do
  (row, s') ← insert fault s p id now
  ok (cached s' row.id id row.stock now)
webhook_store fault id p now s (some old) = do
  (row, s') ← update fault s p old.id id now
  ok (drop_cached (cached s' row.id id row.stock now) (λ c. invalidate_by_moysklad_id c id))

unfoldable pub webhook_first :
    Fault → Text → ℕ → State → List MoyskladProduct → Result SyncError State
unfolding webhook_product webhook_store get_by_moysklad_id
webhook_first fault id now s [] = ok s
webhook_first fault id now s (ms ∷ rest) = do
  existing ← get_by_moysklad_id fault s id
  webhook_store fault id (webhook_product id ms) now s existing

-- `syncProduct`; the products are none where MoySklad does not answer.
unfoldable pub sync_product :
    Fault → (Text → Option (List MoyskladProduct)) → Text → ℕ → State → Result SyncError State
unfolding webhook_first
sync_product fault ask id now s = do
  products ← or_error no_products (ask id)
  webhook_first fault id now s products

abbrev pub deactivated : Product → Product
deactivated p = record p { is_active = false; status = deleted; stock = pos 0 }

unfoldable pub deactivate_found : Fault → Text → ℕ → State → Option Product → Result SyncError State
unfolding update invalidate_stock
deactivate_found fault id now s none = ok s
deactivate_found fault id now s (some p) = do
  (_, s') ← update fault s (deactivated p) p.id id now
  ok (drop_cached s' (λ c. invalidate_stock c p.id))

unfoldable pub deactivate_product : Fault → Text → ℕ → State → Result SyncError State
unfolding get_by_moysklad_id deactivate_found
deactivate_product fault id now s = do
  found ← get_by_moysklad_id fault s id
  deactivate_found fault id now s found

pub data Action : Type 0 where
  create_action update_action delete_action other_action : Action

pub record Event : Type 0 where
  pub is_product : Bool
  pub href : Text
  pub action : Action

unfoldable pub act :
    Fault
    → (Text → Option (List MoyskladProduct))
    → ℕ
    → State
    → Text
    → Action
    → Result SyncError State
unfolding sync_product deactivate_product
act fault ask now s [] action = ok s
act fault ask now s (c ∷ cs) create_action = sync_product fault ask (c ∷ cs) now s
act fault ask now s (c ∷ cs) update_action = sync_product fault ask (c ∷ cs) now s
act fault ask now s (c ∷ cs) delete_action = deactivate_product fault (c ∷ cs) now s
act fault ask now s (c ∷ cs) other_action = ok s

unfoldable pub process_entity_event :
    Fault → (Text → Option (List MoyskladProduct)) → ℕ → State → Event → Result SyncError State
unfolding act extract_id_from_href
process_entity_event fault ask now s event =
    if event.is_product
    then act fault ask now s (extract_id_from_href event.href) event.action
    else ok s

abbrev pub state_after : State → Result SyncError State → State
state_after s (err e) = s
state_after s (ok s') = s'

abbrev first_failure :
    State → Result SyncError State → Option SyncError × State → Option SyncError × State
first_failure s (err e) more = (some e, s)
first_failure s (ok s') more = more

-- The events up to the first that fails, whose error is told; what was done before it stands.
unfoldable pub process_entity_payload :
    Fault
    → (Text → Option (List MoyskladProduct))
    → ℕ
    → State
    → List Event
    → Option SyncError × State
unfolding process_entity_event
process_entity_payload fault ask now s [] = (none, s)
process_entity_payload fault ask now s (event ∷ rest) =
    let result = process_entity_event fault ask now s event in
    let more = process_entity_payload fault ask now (state_after s result) rest in
    first_failure s result more

unfoldable pub process_stock_event :
    Fault → Option (List (Text × ℤ)) → ℕ → State → Result SyncError State
unfolding restock_all
process_stock_event fault report now s = do
  entries ← or_error no_stock_report report
  ok (restock_all fault now s entries)
