-- ===== src/Sync/Kept.antt =====
-- The row of a product after each of the paths that write it: the loop of a run, the worker pool and an event.
use hozdacha.Base.{
  ℕ, ◌+◌, ◌≡◌, refl, ap, ◌∙◌, true, false, Option, none, some, List, [], ◌∷◌, ◌++◌, map, ok, ◌>>=◌,
  >>=-eq-ok, ok-injective, ◌==◌, ==_self,
}
use hozdacha.Store.Rows.{Text}
use hozdacha.Users.Texts.{text_eq_self}
use hozdacha.Sync.{
  Product, MoyskladProduct, State, Fault, Query, run_query, insert, update, written,
  get_by_moysklad_id, products_where, one_product, has_moysklad_id, or_else, text_is,
}
use hozdacha.Sync.Folders.{Ids}
use hozdacha.Sync.Products.{
  StockMap, Outcome, created, updated, sync_one, found_one, store, saved, cached, product_for,
  worker_product, worker_store, folder_category, worker_category, sync_single_product,
}
use hozdacha.StockCache.{invalidate_by_moysklad_id}
use hozdacha.Sync.Webhook.{drop_cached, webhook_product, webhook_store, webhook_first, sync_product}
use hozdacha.Sync.Writes.{DistinctIds, found-written, found-inserted, found-id}

abbrev rows_of : Option Product → List Product
rows_of none = []
rows_of (some p) = p ∷ []

one_product_lem :
    (rows : List Product) (existing : Option Product)
    → one_product rows ≡ ok existing
    → rows ≡ rows_of existing
one_product_lem [] existing h = ap rows_of (ok-injective h)
one_product_lem (p ∷ []) existing h = ap rows_of (ok-injective h)
one_product_lem (p ∷ q ∷ ps) existing h = cc

looked_up :
    (fault : Fault) (s : State) (id : Text) (existing : Option Product)
    → get_by_moysklad_id fault s id ≡ ok existing
    → products_where (has_moysklad_id id) s.products ≡ rows_of existing
unfolding get_by_moysklad_id
looked_up fault s id existing h =
    let (_, _, one) = >>=-eq-ok (run_query fault Query.by_moysklad_id id) _ h in
    one_product_lem _ existing one

-- The row that a product is written as.
abbrev pub row_for : Product → ℕ → ℕ → Product
row_for p id now = record p { id = id; updated_at = now }

update_succeeds :
    (fault : Fault) (s : State) (p old : Product) (id : Text) (now : ℕ)
    → fault Query.update_product id ≡ false
    → DistinctIds s.products
    → products_where (has_moysklad_id id) s.products ≡ old ∷ []
    → update fault s p old.id id now
      ≡ ok (row_for p old.id now, record s { products = map (written p old.id now) s.products })
unfolding update
update_succeeds fault s p old id now quiet distinct found =
    let one = found-id (has_moysklad_id id) old s.products distinct found in
    let after =
      found-written (λ q. q.id == old.id) p old now s.products (==_self old.id) distinct one in
    rw (quiet, after)

insert_succeeds :
    (fault : Fault) (s : State) (p : Product) (id : Text) (now : ℕ)
    → fault Query.insert_product id ≡ false
    → insert fault s p id now
      ≡ ok (
        row_for p s.next_id now,
        record s {
          next_id = s.next_id + 1;
          products = s.products ++ (row_for p s.next_id now ∷ []);
        },
      )
unfolding insert
insert_succeeds fault s p id now quiet = rw quiet

-- Which row a product gets, and what becomes of the products.
abbrev pub row_id : State → Option Product → ℕ
row_id s none = s.next_id
row_id s (some old) = old.id

-- A lookup by the id in MoySklad finds one row, and this is it.
abbrev pub Holds : State → Text → Product → Type 0
Holds s id row = products_where (has_moysklad_id id) s.products ≡ row ∷ []

abbrev pub outcome_of : Option Product → Outcome
outcome_of none = created
outcome_of (some old) = updated

module _ (fault : Fault) (s : State) (p : Product) (id : Text) (now : ℕ)
    (distinct : DistinctIds s.products) (ours : p.moysklad_id ≡ some id)
    (quiet_insert : fault Query.insert_product id ≡ false)
    (quiet_update : fault Query.update_product id ≡ false) where
  has_ours : has_moysklad_id id p ≡ true
  has_ours = ap (text_is id) ours ∙ text_eq_self id

  store-Holds :
      (existing : Option Product)
      → products_where (has_moysklad_id id) s.products ≡ rows_of existing
      → ((store fault s p existing id now).0 ≡ outcome_of existing)
        × Holds ((store fault s p existing id now).1) id (row_for p (row_id s existing) now)
  unfolding store saved cached
  store-Holds none found =
      rw (insert_succeeds fault s p id now quiet_insert)
        (refl, found-inserted (has_moysklad_id id) _ s.products has_ours found)
  store-Holds (some old) found =
      rw (update_succeeds fault s p old id now quiet_update distinct found)
        (refl, found-written (has_moysklad_id id) p old now s.products has_ours distinct found)

  worker_store-Holds :
      (existing : Option Product)
      → products_where (has_moysklad_id id) s.products ≡ rows_of existing
      → (s' : State) × (row : Product) × (worker_store fault s p existing id now ≡ ok (row, s'))
        × Holds s' id (row_for p (row_id s existing) now)
  unfolding worker_store
  worker_store-Holds none found = (
    _,
    _,
    insert_succeeds fault s p id now quiet_insert,
    found-inserted (has_moysklad_id id) _ s.products has_ours found,
  )
  worker_store-Holds (some old) found = (
    _,
    _,
    update_succeeds fault s p old id now quiet_update distinct found,
    found-written (has_moysklad_id id) p old now s.products has_ours distinct found,
  )

  webhook_store-Holds :
      (existing : Option Product)
      → products_where (has_moysklad_id id) s.products ≡ rows_of existing
      → (s' : State) × (webhook_store fault id p now s existing ≡ ok s')
        × Holds s' id (row_for p (row_id s existing) now)
  unfolding webhook_store cached
  webhook_store-Holds none found = (
    _,
    ap (λ r. r >>= λ out. ok (cached out.1 out.0.id id out.0.stock now))
        (insert_succeeds fault s p id now quiet_insert),
    found-inserted (has_moysklad_id id) _ s.products has_ours found,
  )
  webhook_store-Holds (some old) found = (
    _,
    ap
        (λ r. r >>= λ out. ok (
          drop_cached (cached out.1 out.0.id id out.0.stock now)
            (λ c. invalidate_by_moysklad_id c id)))
        (update_succeeds fault s p old id now quiet_update distinct found),
    found-written (has_moysklad_id id) p old now s.products has_ours distinct found,
  )

module _ (fault : Fault) (s : State) (ms : MoyskladProduct) (now : ℕ)
    (distinct : DistinctIds s.products) (quiet_insert : fault Query.insert_product ms.id ≡ false)
    (quiet_update : fault Query.update_product ms.id ≡ false) where
  -- Where ids are distinct and no query fails, the body of the loop creates or updates, by whether there is a row, and a
  -- lookup then finds the one row that the product of MoySklad makes of it.
  pub sync_one-Holds :
      (report : Option StockMap) (m : Ids) (existing : Option Product)
      → get_by_moysklad_id fault s ms.id ≡ ok existing
      → ((sync_one fault report m ms now s).0 ≡ outcome_of existing)
        × Holds
            ((sync_one fault report m ms now s).1)
            ms.id
            (row_for (product_for report m ms existing) (row_id s existing) now)
  unfolding sync_one found_one product_for
  sync_one-Holds report m existing found = rw found (
      store-Holds fault s (product_for report m ms existing) ms.id now distinct refl quiet_insert
        quiet_update existing (looked_up fault s ms.id existing found))

  worker-Holds :
      (existing : Option Product)
      → get_by_moysklad_id fault s ms.id ≡ ok existing
      → (s' : State) × (sync_single_product fault ms now s ≡ ok s')
        × Holds s' ms.id (row_for (worker_product s.folders ms existing) (row_id s existing) now)
  unfolding sync_single_product worker_product cached
  worker-Holds existing found =
      let p = worker_product s.folders ms existing in
      let (s1, row, stored, held) =
        worker_store-Holds fault s p ms.id now distinct refl quiet_insert quiet_update existing
          (looked_up fault s ms.id existing found) in
      (cached s1 row.id ms.id row.stock now, rw (found, stored), held)

  event-Holds :
      (ask : Text → Option (List MoyskladProduct)) (others : List MoyskladProduct)
      (existing : Option Product)
      → ask ms.id ≡ some (ms ∷ others)
      → get_by_moysklad_id fault s ms.id ≡ ok existing
      → (s' : State) × (sync_product fault ask ms.id now s ≡ ok s')
        × Holds s' ms.id (row_for (webhook_product ms.id ms) (row_id s existing) now)
  unfolding sync_product webhook_first webhook_product
  event-Holds ask others existing answer found =
      let (s', stored, held) =
        webhook_store-Holds fault s (webhook_product ms.id ms) ms.id now distinct refl quiet_insert
          quiet_update existing (looked_up fault s ms.id existing found) in
      (s', rw (answer, found) stored, held)

  -- Where ids are distinct, the queries do not fail and MoySklad answers, a product has a row and its folder is not
  -- known, a run and the worker pool leave the category of the row, and an event for the same product leaves the row
  -- without one.
  pub update-category :
      (report : Option StockMap) (m : Ids) (ask : Text → Option (List MoyskladProduct))
      (others : List MoyskladProduct) (old : Product)
      → get_by_moysklad_id fault s ms.id ≡ ok (some old)
      → folder_category m ms.folder ≡ none
      → folder_category s.folders ms.folder ≡ none
      → ask ms.id ≡ some (ms ∷ others)
      → ((row : Product) × Holds ((sync_one fault report m ms now s).1) ms.id row
          × (row.category_id ≡ old.category_id))
        × ((s' : State) × (row : Product) × (sync_single_product fault ms now s ≡ ok s')
            × Holds s' ms.id row
            × (row.category_id ≡ old.category_id))
        × ((s' : State) × (row : Product) × (sync_product fault ask ms.id now s ≡ ok s')
            × Holds s' ms.id row
            × (row.category_id ≡ none))
  unfolding product_for worker_product worker_category webhook_product
  update-category report m ask others old found unknown unknown_cached answer =
      let (_, run) = sync_one-Holds report m (some old) found in
      let (s1, worked, held) = worker-Holds (some old) found in
      let (s2, done, held2) = event-Holds ask others (some old) answer found in
      (
        (_, run, ap (λ c. or_else c old.category_id) unknown),
        (s1, _, worked, held, ap (λ c. or_else c old.category_id) unknown_cached),
        (s2, _, done, held2, refl),
      )
