-- ===== src/Sync/Stored.antt =====
-- What a synchronisation leaves for a product, and what is counted.
use hozdacha.Base.{
  ℕ, zero, suc, ◌+◌, ◌≤◌, ◌≡◌, refl, sym, ap, ◌∙◌, arith, Option, List, [], ◌∷◌, ◌++◌, take, drop,
  length, take-append-drop, length-drop,
}
use hozdacha.Sync.{MoyskladProduct, State, Fault}
use hozdacha.Sync.Folders.{Ids}
use hozdacha.Sync.Products.{
  StockMap, Outcome, SyncResult, created, updated, not_synced, counted, sync_one, sync_all,
  sync_batches, batch_size,
}

module _ (fault : Fault) (report : Option StockMap) (m : Ids) (now : ℕ) where
  sync_all-append :
      (front back : List MoyskladProduct) (out : SyncResult × State)
      → sync_all fault report m now (front ++ back) out
        ≡ sync_all fault report m now back (sync_all fault report m now front out)
  unfolding sync_all
  sync_all-append [] back out = refl
  sync_all-append (ms ∷ front) back out = sync_all-append front back _

  -- The batches do what a walk through the whole list does, with as much fuel as there are products.
  pub sync_batches-all :
      (fuel : ℕ) (products : List MoyskladProduct) (out : SyncResult × State)
      → length products ≤ fuel
      → sync_batches fuel fault report m now products out ≡ sync_all fault report m now products out
  unfolding sync_batches sync_all
  sync_batches-all zero [] out enough = refl
  sync_batches-all zero (ms ∷ rest) out enough = absurd (omega arith)
  sync_batches-all (suc fuel) [] out enough = refl
  sync_batches-all (suc fuel) (ms ∷ rest) out enough =
      let left = drop batch_size (ms ∷ rest) in
      sync_batches-all fuel left _ (omega (arith, length-drop batch_size (ms ∷ rest)))
      ∙ sym (sync_all-append (take batch_size (ms ∷ rest)) left out)
      ∙ ap (λ ps. sync_all fault report m now ps out) (take-append-drop batch_size (ms ∷ rest))

  abbrev pub total : SyncResult → ℕ
  total r = r.created_count + r.updated_count + r.errors

  total-counted : (outcome : Outcome) (r : SyncResult) → total (counted outcome r) ≡ total r + 1
  total-counted created r = omega arith
  total-counted updated r = omega arith
  total-counted not_synced r = omega arith

  -- Each product of a run is counted once: as created, as updated or as an error.
  pub sync_all-total :
      (products : List MoyskladProduct) (out : SyncResult × State)
      → total ((sync_all fault report m now products out).0) ≡ total out.0 + length products
  unfolding sync_all
  sync_all-total [] out = omega arith
  sync_all-total (ms ∷ rest) out = omega (
    arith,
    sync_all-total rest (
      counted ((sync_one fault report m ms now out.1).0) out.0,
      (sync_one fault report m ms now out.1).1,
    ),
    total-counted ((sync_one fault report m ms now out.1).0) out.0,
  )
