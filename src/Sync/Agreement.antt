-- ===== src/Sync/Agreement.antt =====
-- The status of a product agrees with its stock, whatever is run on the table.
use hozdacha.Base.{
  ℕ, zero, suc, ◌≡◌, refl, sym, ap, subst, Bool, true, false, Option, none, some, List, [], ◌∷◌,
  take, length, All, All-append, Result, ok, err, >>=-eq-ok, ok-injective, ensure, Result-cases,
  inl, inr, if◌then◌else◌,
}
use hozdacha.Base.Int.{ℤ, pos, ltb_ℤ}
use hozdacha.Store.Rows.{Text}
use hozdacha.Sync.{
  Product, MoyskladProduct, State, Status, active, out_of_stock, deleted, Fault, SyncError,
  status_of, insert, update, get_by_moysklad_id, no_client, no_cache, no_stock_report, no_products,
}
use hozdacha.Sync.Href.{extract_id_from_href}
use hozdacha.Sync.Folders.{Categories, CategoryQuery, Ids}
use hozdacha.Sync.Products.{
  StockMap, Answers, Outcome, SyncResult, created, updated, product_for, worker_product, saved,
  store, found_one, sync_one, sync_all, sync_batches, sync_products, sync_single_product,
  worker_store, cached, restocked, restock_saved, restock_found, restock, restock_all,
  sync_stock_only, or_error, has_cache, fetch, report_for,
}
use hozdacha.Sync.Webhook.{
  Event, webhook_product, webhook_store, webhook_first, sync_product, deactivated, deactivate_found,
  deactivate_product, act, process_entity_event, process_entity_payload, process_stock_event,
  Action, create_action, update_action, delete_action, other_action,
}
use hozdacha.Sync.Writes.{update_lem, insert_lem, All-written}

abbrev pub is_active_status : Status → Bool
is_active_status active = true
is_active_status out_of_stock = false
is_active_status deleted = false

-- "active" exactly where the stock is positive.
abbrev pub StatusAgrees : Product → Type 0
StatusAgrees p = is_active_status p.status ≡ ltb_ℤ (pos 0) p.stock

abbrev pub Agreed : State → Type 0
Agreed s = All StatusAgrees s.products

status_agrees : (stock : ℤ) → is_active_status (status_of stock) ≡ ltb_ℤ (pos 0) stock
status_agrees stock = if_status (ltb_ℤ (pos 0) stock)
  where
    if_status : (b : Bool) → is_active_status (if b then active else out_of_stock) ≡ b
    if_status true = refl
    if_status false = refl

update-Agreed :
    (fault : Fault) (s s' : State) (p row : Product) (id : ℕ) (moysklad_id : Text) (now : ℕ)
    → StatusAgrees p
    → update fault s p id moysklad_id now ≡ ok (row, s')
    → Agreed s
    → Agreed s'
update-Agreed fault s s' p row id moysklad_id now fits h agreed =
    subst Agreed (sym (update_lem fault s s' p row id moysklad_id now h))
      (All-written StatusAgrees p id now s.products fits agreed)

insert-Agreed :
    (fault : Fault) (s s' : State) (p row : Product) (moysklad_id : Text) (now : ℕ)
    → StatusAgrees p
    → insert fault s p moysklad_id now ≡ ok (row, s')
    → Agreed s
    → Agreed s'
insert-Agreed fault s s' p row moysklad_id now fits h agreed =
    subst Agreed (sym (insert_lem fault s s' p row moysklad_id now h))
      (All-append StatusAgrees s.products _ agreed (fits, tt))

saved-Agreed :
    (s : State) (outcome : Outcome) (id : Text) (now : ℕ) (r : Result SyncError (Product × State))
    → ((row : Product) (s' : State) → r ≡ ok (row, s') → Agreed s')
    → Agreed s
    → Agreed ((saved s outcome id now r).1)
unfolding saved cached
saved-Agreed s outcome id now (err e) after agreed = agreed
saved-Agreed s outcome id now (ok (row, s')) after agreed = after row s' refl

store-Agreed :
    (fault : Fault) (s : State) (p : Product) (existing : Option Product) (id : Text) (now : ℕ)
    → StatusAgrees p
    → Agreed s
    → Agreed ((store fault s p existing id now).1)
unfolding store
store-Agreed fault s p none id now fits agreed =
    saved-Agreed s created id now _
      (λ row s' h. insert-Agreed fault s s' p row id now fits h agreed) agreed
store-Agreed fault s p (some old) id now fits agreed =
    saved-Agreed s updated id now _
      (λ row s' h. update-Agreed fault s s' p row old.id id now fits h agreed) agreed

module _ (fault : Fault) (report : Option StockMap) (m : Ids) (now : ℕ) where
  found_one-Agreed :
      (ms : MoyskladProduct) (s : State) (r : Result SyncError (Option Product))
      → Agreed s
      → Agreed ((found_one fault report m ms now s r).1)
  unfolding found_one product_for
  found_one-Agreed ms s (err e) agreed = agreed
  found_one-Agreed ms s (ok existing) agreed =
      store-Agreed fault s (product_for report m ms existing) existing ms.id now (status_agrees _)
        agreed

  sync_one-Agreed :
      (ms : MoyskladProduct) (s : State) → Agreed s → Agreed ((sync_one fault report m ms now s).1)
  unfolding sync_one
  sync_one-Agreed ms s agreed = found_one-Agreed ms s (get_by_moysklad_id fault s ms.id) agreed

  sync_all-Agreed :
      (products : List MoyskladProduct) (out : SyncResult × State)
      → Agreed out.1
      → Agreed ((sync_all fault report m now products out).1)
  unfolding sync_all
  sync_all-Agreed [] out agreed = agreed
  sync_all-Agreed (ms ∷ rest) out agreed = sync_all-Agreed rest _ (sync_one-Agreed ms out.1 agreed)

  sync_batches-Agreed :
      (fuel : ℕ) (products : List MoyskladProduct) (out : SyncResult × State)
      → Agreed out.1
      → Agreed ((sync_batches fuel fault report m now products out).1)
  unfolding sync_batches
  sync_batches-Agreed zero products out agreed = agreed
  sync_batches-Agreed (suc fuel) [] out agreed = agreed
  sync_batches-Agreed (suc fuel) (ms ∷ rest) out agreed =
      sync_batches-Agreed fuel _ _ (sync_all-Agreed (take 20 (ms ∷ rest)) out agreed)

sync_products-Agreed :
    (fault_category : CategoryQuery → Text → Bool) (fault : Fault) (client : Option Answers)
    (delta : Bool) (since : Option ℕ) (now : ℕ) (s s' : State) (t t' : Categories) (r : SyncResult)
    → sync_products fault_category fault client delta since now s t ≡ ok (r, s', t')
    → Agreed s
    → Agreed s'
unfolding sync_products
sync_products-Agreed fault_category fault client delta since now s s' t t' r h agreed =
    let (answers, _, h1) = >>=-eq-ok (or_error no_client client) _ h in
    let (report, _, h2) = >>=-eq-ok (report_for answers delta) _ h1 in
    let (products, _, h3) = >>=-eq-ok (fetch answers (if delta then since else none)) _ h2 in
    subst Agreed (ap (λ x. x.1) (ok-injective h3))
      (sync_batches-Agreed fault report _ now (length products) products _ agreed)

worker_store-Agreed :
    (fault : Fault) (s s' : State) (p row : Product) (existing : Option Product) (id : Text)
    (now : ℕ)
    → StatusAgrees p
    → worker_store fault s p existing id now ≡ ok (row, s')
    → Agreed s
    → Agreed s'
unfolding worker_store
worker_store-Agreed fault s s' p row none id now fits h agreed =
    insert-Agreed fault s s' p row id now fits h agreed
worker_store-Agreed fault s s' p row (some old) id now fits h agreed =
    update-Agreed fault s s' p row old.id id now fits h agreed

worker-agrees :
    (m : Ids) (ms : MoyskladProduct) (existing : Option Product)
    → StatusAgrees (worker_product m ms existing)
unfolding worker_product
worker-agrees m ms existing = status_agrees _

sync_single-Agreed :
    (fault : Fault) (ms : MoyskladProduct) (now : ℕ) (s s' : State)
    → sync_single_product fault ms now s ≡ ok s'
    → Agreed s
    → Agreed s'
unfolding sync_single_product cached
sync_single-Agreed fault ms now s s' h agreed =
    let (existing, _, h1) = >>=-eq-ok (get_by_moysklad_id fault s ms.id) _ h in
    let p = worker_product s.folders ms existing in
    let ((row, s1), stored, h2) = >>=-eq-ok (worker_store fault s p existing ms.id now) _ h1 in
    subst Agreed (ok-injective h2) (
      worker_store-Agreed fault s s1 p row existing ms.id now (worker-agrees s.folders ms existing)
        stored agreed)

module _ (fault : Fault) (now : ℕ) where
  restock_saved-Agreed :
      (s : State) (id : Text) (stock : ℤ) (r : Result SyncError (Product × State))
      → ((row : Product) (s' : State) → r ≡ ok (row, s') → Agreed s')
      → Agreed s
      → Agreed (restock_saved s id stock now r)
  unfolding restock_saved cached
  restock_saved-Agreed s id stock (err e) after agreed = agreed
  restock_saved-Agreed s id stock (ok (row, s')) after agreed = after row s' refl

  restock_found-Agreed :
      (s : State) (id : Text) (stock : ℤ) (r : Result SyncError (Option Product))
      → Agreed s
      → Agreed (restock_found fault id stock now s r)
  unfolding restock_found
  restock_found-Agreed s id stock (err e) agreed = agreed
  restock_found-Agreed s id stock (ok none) agreed = agreed
  restock_found-Agreed s id stock (ok (some p)) agreed =
      restock_saved-Agreed s id stock _
        (λ row s' h.
          update-Agreed fault s s' (restocked p stock) row p.id id now (status_agrees stock) h
            agreed)
        agreed

  restock_all-Agreed :
      (entries : List (Text × ℤ)) (s : State) → Agreed s → Agreed (restock_all fault now s entries)
  unfolding restock_all restock
  restock_all-Agreed [] s agreed = agreed
  restock_all-Agreed ((id, stock) ∷ rest) s agreed =
      restock_all-Agreed rest _
        (restock_found-Agreed s id stock (get_by_moysklad_id fault s id) agreed)

  stock_only-Agreed :
      (client : Bool) (report : Option (List (Text × ℤ))) (s s' : State)
      → sync_stock_only fault client report now s ≡ ok s'
      → Agreed s
      → Agreed s'
  unfolding sync_stock_only
  stock_only-Agreed client report s s' h agreed =
      let (_, _, h1) = >>=-eq-ok (ensure client no_client) _ h in
      let (_, _, h2) = >>=-eq-ok (ensure (has_cache s.cache) no_cache) _ h1 in
      let (entries, _, h3) = >>=-eq-ok (or_error no_stock_report report) _ h2 in
      subst Agreed (ok-injective h3) (restock_all-Agreed entries s agreed)

  stock_event-Agreed :
      (report : Option (List (Text × ℤ))) (s s' : State)
      → process_stock_event fault report now s ≡ ok s'
      → Agreed s
      → Agreed s'
  unfolding process_stock_event
  stock_event-Agreed report s s' h agreed =
      let (entries, _, h1) = >>=-eq-ok (or_error no_stock_report report) _ h in
      subst Agreed (ok-injective h1) (restock_all-Agreed entries s agreed)

  webhook_store-Agreed :
      (id : Text) (p : Product) (s s' : State) (existing : Option Product)
      → StatusAgrees p
      → webhook_store fault id p now s existing ≡ ok s'
      → Agreed s
      → Agreed s'
  unfolding webhook_store cached
  webhook_store-Agreed id p s s' none fits h agreed =
      let ((row, s1), stored, h1) = >>=-eq-ok (insert fault s p id now) _ h in
      subst Agreed (ok-injective h1) (insert-Agreed fault s s1 p row id now fits stored agreed)
  webhook_store-Agreed id p s s' (some old) fits h agreed =
      let ((row, s1), stored, h1) = >>=-eq-ok (update fault s p old.id id now) _ h in
      subst Agreed (ok-injective h1)
        (update-Agreed fault s s1 p row old.id id now fits stored agreed)

  webhook_first-Agreed :
      (id : Text) (s s' : State) (products : List MoyskladProduct)
      → webhook_first fault id now s products ≡ ok s'
      → Agreed s
      → Agreed s'
  unfolding webhook_first webhook_product
  webhook_first-Agreed id s s' [] h agreed = subst Agreed (ok-injective h) agreed
  webhook_first-Agreed id s s' (ms ∷ rest) h agreed =
      let (existing, _, h1) = >>=-eq-ok (get_by_moysklad_id fault s id) _ h in
      webhook_store-Agreed id (webhook_product id ms) s s' existing (status_agrees _) h1 agreed

  deactivate_found-Agreed :
      (id : Text) (s s' : State) (found : Option Product)
      → deactivate_found fault id now s found ≡ ok s'
      → Agreed s
      → Agreed s'
  unfolding deactivate_found
  deactivate_found-Agreed id s s' none h agreed = subst Agreed (ok-injective h) agreed
  deactivate_found-Agreed id s s' (some p) h agreed =
      let ((row, s1), stored, h1) = >>=-eq-ok (update fault s (deactivated p) p.id id now) _ h in
      subst Agreed (ok-injective h1)
        (update-Agreed fault s s1 (deactivated p) row p.id id now refl stored agreed)

  module _ (ask : Text → Option (List MoyskladProduct)) where
    sync_product-Agreed :
        (id : Text) (s s' : State) → sync_product fault ask id now s ≡ ok s' → Agreed s → Agreed s'
    unfolding sync_product
    sync_product-Agreed id s s' h agreed =
        let (products, _, h1) = >>=-eq-ok (or_error no_products (ask id)) _ h in
        webhook_first-Agreed id s s' products h1 agreed

    act-Agreed :
        (id : Text) (action : Action) (s s' : State)
        → act fault ask now s id action ≡ ok s'
        → Agreed s
        → Agreed s'
    unfolding act deactivate_product
    act-Agreed [] action s s' h agreed = subst Agreed (ok-injective h) agreed
    act-Agreed (c ∷ cs) create_action s s' h agreed = sync_product-Agreed (c ∷ cs) s s' h agreed
    act-Agreed (c ∷ cs) update_action s s' h agreed = sync_product-Agreed (c ∷ cs) s s' h agreed
    act-Agreed (c ∷ cs) delete_action s s' h agreed =
        let (found, _, h1) = >>=-eq-ok (get_by_moysklad_id fault s (c ∷ cs)) _ h in
        deactivate_found-Agreed (c ∷ cs) s s' found h1 agreed
    act-Agreed (c ∷ cs) other_action s s' h agreed = subst Agreed (ok-injective h) agreed

    event-Agreed :
        (event : Event) (s s' : State)
        → process_entity_event fault ask now s event ≡ ok s'
        → Agreed s
        → Agreed s'
    unfolding process_entity_event
    event-Agreed event s s' h agreed = for_product event.is_product h
      where
        for_product :
            (b : Bool)
            → (if b
                then act fault ask now s (extract_id_from_href event.href) event.action
                else ok s)
              ≡ ok s'
            → Agreed s'
        for_product true h = act-Agreed (extract_id_from_href event.href) event.action s s' h agreed
        for_product false h = subst Agreed (ok-injective h) agreed

    payload-Agreed :
        (events : List Event) (s : State)
        → Agreed s
        → Agreed ((process_entity_payload fault ask now s events).1)
    unfolding process_entity_payload
    payload-Agreed [] s agreed = agreed
    payload-Agreed (event ∷ rest) s agreed =
        elim (Result-cases (process_entity_event fault ask now s event)) [
          | inl (s', done) ↦ rw done (payload-Agreed rest s' (event-Agreed event s s' done agreed))
          | inr (e, failed) ↦ rw failed agreed
        ]

-- What is run on the products: a full or a delta run, a product of the worker pool, the stocks alone, the events of
-- a payload, and a stock report that an event names.
pub data Step : State → State → Type 0 where
  run :
      (fault_category : CategoryQuery → Text → Bool) (fault : Fault) (client : Option Answers)
      (delta : Bool) (since : Option ℕ) (now : ℕ) (s s' : State) (t t' : Categories)
      (r : SyncResult)
      → sync_products fault_category fault client delta since now s t ≡ ok (r, s', t')
      → Step s s'
  worker :
      (fault : Fault) (ms : MoyskladProduct) (now : ℕ) (s s' : State)
      → sync_single_product fault ms now s ≡ ok s'
      → Step s s'
  stocks :
      (fault : Fault) (now : ℕ) (client : Bool) (report : Option (List (Text × ℤ))) (s s' : State)
      → sync_stock_only fault client report now s ≡ ok s'
      → Step s s'
  payload :
      (fault : Fault) (now : ℕ) (ask : Text → Option (List MoyskladProduct)) (events : List Event)
      (s : State)
      → Step s ((process_entity_payload fault ask now s events).1)
  report :
      (fault : Fault) (now : ℕ) (entries : Option (List (Text × ℤ))) (s s' : State)
      → process_stock_event fault entries now s ≡ ok s'
      → Step s s'

pub data Steps : State → State → Type 0 where
  rest : (s : State) → Steps s s
  more : (s s' s'' : State) → Step s s' → Steps s' s'' → Steps s s''

Step-Agreed : (before after : State) → Step before after → Agreed before → Agreed after
Step-Agreed before after (run fc fault client delta since now s s' t t' r h) agreed =
    sync_products-Agreed fc fault client delta since now s s' t t' r h agreed
Step-Agreed before after (worker fault ms now s s' h) agreed =
    sync_single-Agreed fault ms now s s' h agreed
Step-Agreed before after (stocks fault now client entries s s' h) agreed =
    stock_only-Agreed fault now client entries s s' h agreed
Step-Agreed before after (payload fault now ask events s) agreed =
    payload-Agreed fault now ask events s agreed
Step-Agreed before after (report fault now entries s s' h) agreed =
    stock_event-Agreed fault now entries s s' h agreed

-- However the runs, the worker pool and the webhooks follow one another, and whichever queries fail, a product is
-- "active" exactly where its stock is positive, if that held before.
pub Steps-Agreed : (before after : State) → Steps before after → Agreed before → Agreed after
Steps-Agreed before after (rest s) agreed = agreed
Steps-Agreed before after (more s middle s' step steps) agreed =
    Steps-Agreed middle s' steps (Step-Agreed s middle step agreed)
