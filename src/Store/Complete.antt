-- ===== src/Store/Complete.antt =====
-- `CompleteOrder`: the goods are sold, so the shelf stays and the pending orders hold less.
use hozdacha.Base.{
  ℕ, ◌≡◌, refl, inl, inr, ◌⊎◌, Bool, true, false, some, Result, ok, err, Option-cases, Bool-cases,
  arith,
}
use hozdacha.Base.Int.{◌+ℤ◌, int_laws, parts_of_eq}
use hozdacha.Store.Rows.{Order, pending, completed, Db}
use hozdacha.Store.Transaction.{Postgres, DbError, fault_at, complete_order, update}
use hozdacha.Store.Cancel.{is_pending, order_rows, complete_row, complete_order_row}
use hozdacha.Store.Cancel.Books.{quantities, held-closed}
use hozdacha.Store.Accounts.{pending_at, total}

abbrev pub completed_db : Db → ℕ → Order → Db
completed_db db oid o = record db {
  orders = update db.orders oid (some (record o { status = completed }));
}

module _ (pg : Postgres) (db : Db) (oid : ℕ) where
  pub complete-cases {ℓ} :
      (P : Result DbError Bool × Db → Type ℓ)
      → P (err (fault_at complete_order), db)
      → P (ok true, db)
      → ((o : Order)
          → db.orders oid ≡ some o
          → o.status ≡ pending
          → P (ok false, completed_db db oid o))
      → P (complete_order_row pg db oid)
  unfolding complete_order_row complete_row
  complete-cases P failed handled done = elim (Bool-cases (pg.fault complete_order)) [
    | inl e ↦ rw e failed
    | inr e ↦ rw e (elim (Option-cases (db.orders oid)) [
      | inl q ↦ rw (complete_row, q) handled
      | inr (o, q) ↦ elim (Bool-cases (is_pending o.status)) [
        | inl w ↦ rw (complete_row, q, w) (done o q (ground arith))
        | inr w ↦ rw (complete_row, q, w) handled
      ]
    ])
  ]

  -- A completion that takes effect leaves every product's stock alone and releases from the pending
  -- orders exactly what the order's rows ask for; one that does not changes nothing at all.
  pub complete-sold :
      (pid : ℕ)
      → let r = complete_order_row pg db oid in
        ((r.0 ≡ ok false)
          × (r.1.products pid ≡ db.products pid)
          × (total r.1 pid +ℤ quantities (order_rows oid pid db.items) ≡ total db pid))
        ⊎ (r.1 ≡ db)
  complete-sold pid =
      complete-cases
        (λ r.
          ((r.0 ≡ ok false)
            × (r.1.products pid ≡ db.products pid)
            × (total r.1 pid +ℤ quantities (order_rows oid pid db.items) ≡ total db pid))
          ⊎ (r.1 ≡ db))
        (inr refl) (inr refl)
        λ o e w.
          let open_now : pending_at (db.orders oid) ≡ true = rw (e, w) refl in
          inl (
            refl,
            refl,
            omega (
              int_laws,
              parts_of_eq (
                  held-closed db.orders oid pid (record o { status = completed }) db.items open_now
                    refl),
            ),
          )
