-- ===== src/Store/Create/Books.antt =====
-- A new order moves stock from the shelf to the pending orders, and keeps the tables well formed.
use hozdacha.Base.{
  ℕ, suc, ◌<◌, ◌≡◌, refl, sym, ◌∙◌, true, Option, some, List, [], ◌∷◌, ◌++◌, All, All-append,
  All-map, and-true, arith,
}
use hozdacha.Base.Int.{◌+ℤ◌, int_laws, parts_of_eq, zero-add_ℤ, +ℤ_assoc}
use hozdacha.Store.Rows.{Product, Order, pending, OrderItem, Db}
use hozdacha.Store.Transaction.{Postgres, update, update_self, update_ne}
use hozdacha.Store.Create.{stamped, created_row, create_order_atomic}
use hozdacha.Store.Create.Stock.{Sells-on_hand, Sells-InStock, Sells-is_some, Sells-known}
use hozdacha.Store.Create.Cases.{create-cases}
use hozdacha.Store.Accounts.{is_some, pending_at, asked, held, total, WellFormed, InStock}

pub held-append :
    (os : ℕ → Option Order) (pid : ℕ) (xs ys : List OrderItem)
    → held os pid (xs ++ ys) ≡ held os pid xs +ℤ held os pid ys
unfolding held
held-append os pid [] ys = sym (zero-add_ℤ _)
held-append os pid (x ∷ xs) ys = rw (held-append os pid xs ys) (sym (+ℤ_assoc _ _ _))

-- An order that no item belongs to holds nothing.
pub held-update_fresh :
    (os : ℕ → Option Order) (pid n : ℕ) (o : Option Order) (xs : List OrderItem)
    → All (λ it. it.order_id < n) xs
    → held (update os n o) pid xs ≡ held os pid xs
unfolding held
held-update_fresh os pid n o [] h = refl
held-update_fresh os pid n o (x ∷ xs) h = rw (
  held-update_fresh os pid n o xs h.1,
  update_ne os {k = n} {j = x.order_id} o (omega (arith, h.0)),
)

-- A pending order holds what its items ask for.
held-stamped :
    (os : ℕ → Option Order) (pid n : ℕ) (its : List OrderItem)
    → pending_at (os n) ≡ true
    → held os pid (stamped n its) ≡ asked pid its
unfolding held asked
held-stamped os pid n [] h = refl
held-stamped os pid n (it ∷ its) h = rw (held-stamped os pid n its h, h, and-true)

stamped-owned : (n : ℕ) (its : List OrderItem) → All (λ it. it.order_id < suc n) (stamped n its)
stamped-owned n [] = tt
stamped-owned n (it ∷ its) = (omega arith, stamped-owned n its)

stamped-known :
    (ps : ℕ → Option Product) (n : ℕ) (its : List OrderItem)
    → All (λ it. is_some (ps it.product_id) ≡ true) its
    → All (λ it. is_some (ps it.product_id) ≡ true) (stamped n its)
stamped-known ps n [] h = tt
stamped-known ps n (it ∷ its) h = (h.0, stamped-known ps n its h.1)

module _ (pg : Postgres) (db : Db) (order : Order) (its : List OrderItem) (uid : ℕ) where
  -- On well-formed tables, creating a pending order, whether it succeeds or fails, keeps for every
  -- product the sum of what is on the shelf and what the pending orders hold.
  pub create-total :
      WellFormed db
      → order.status ≡ pending
      → (pid : ℕ) → total (create_order_atomic pg db order its uid).1 pid ≡ total db pid
  create-total v waiting pid =
      create-cases pg db order its uid (λ r. total r.1 pid ≡ total db pid) (λ e. refl)
        λ c db' q.
          let n = db.next_order_id in
          let os = update db.orders n (some (created_row db order)) in
          let row : pending_at (os n) ≡ true = rw (update_self db.orders n, waiting) refl in
          rw
            (
              q.state,
              held-append os pid db.items (stamped n its),
              held-update_fresh db.orders pid n (some (created_row db order)) db.items v.owned,
              held-stamped os pid n its row,
            )
            (omega (int_laws, parts_of_eq (Sells-on_hand its db.products q.shelf pid q.sells)))

  -- Where no stock is negative, creating an order never takes the stock of a product below zero,
  -- whatever the quantities.
  pub create-InStock :
      InStock db.products → InStock (create_order_atomic pg db order its uid).1.products
  create-InStock v =
      create-cases pg db order its uid (λ r. InStock r.1.products) (λ e. v)
        λ c db' q. rw (q.state) (Sells-InStock its db.products q.shelf v q.sells)

  -- Creating an order keeps well-formed ids and references well formed.
  pub create-WellFormed : WellFormed db → WellFormed (create_order_atomic pg db order its uid).1
  create-WellFormed v =
      create-cases pg db order its uid (λ r. WellFormed r.1) (λ e. v)
        λ c db' q. rw (q.state) (record {
          fresh = λ oid h.
              update_ne db.orders {k = db.next_order_id} {j = oid} _ (omega (arith, h))
              ∙ v.fresh oid (omega (arith, h));
          owned =
              All-append _ db.items (stamped db.next_order_id its)
                (All-map _ _ (λ it h. omega (arith, h)) db.items v.owned)
                (stamped-owned db.next_order_id its);
          known =
              All-append _ db.items (stamped db.next_order_id its)
                (All-map _ _
                  (λ it h. Sells-is_some its db.products q.shelf it.product_id q.sells ∙ h) db.items
                  v.known)
                (stamped-known q.shelf db.next_order_id its (
                  All-map _ _
                    (λ it h. Sells-is_some its db.products q.shelf it.product_id q.sells ∙ h) its
                    (Sells-known its db.products q.shelf q.sells)));
        })
