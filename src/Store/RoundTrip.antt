-- ===== src/Store/RoundTrip.antt =====
-- An order that is created and then cancelled: the shelf is as before, if no product is ordered twice.
use hozdacha.Base.{
  ℕ, ◌≤◌, ◌<◌, ◌≡◌, refl, ap, subst, List, [], ◌∷◌, ◌++◌, length, All, Option, false, ==_self, ok,
  arith,
}
use hozdacha.Base.Int.{int_laws, parts_of_eq, zero-add_ℤ}
use hozdacha.Store.Rows.{Text, Product, Order, OrderStatus, OrderItem, Db}
use hozdacha.Store.Transaction.{Postgres}
use hozdacha.Store.Create.{Created, stamped, has_product, create_order_atomic}
use hozdacha.Store.Create.Stock.{Sells-on_hand}
use hozdacha.Store.Create.Cases.{create-Placed}
use hozdacha.Store.Create.Books.{create-WellFormed}
use hozdacha.Store.Cancel.{cancelled_now, order_rows, cancel_pending_order_atomic}
use hozdacha.Store.Cancel.Cases.{cancel-Closes}
use hozdacha.Store.Cancel.Books.{quantities, closed-on_hand}
use hozdacha.Store.Cancel.Keeps.{PicksOne, picked_single}
use hozdacha.Store.Accounts.{on_hand, asked, WellFormed}

-- No product is named twice.
abbrev pub Distinct : List OrderItem → Type 0
Distinct [] = Unit {0}
Distinct (it ∷ its) = (has_product it.product_id its ≡ false) × Distinct its

order_rows-append :
    (oid pid : ℕ) (xs ys : List OrderItem)
    → order_rows oid pid (xs ++ ys) ≡ order_rows oid pid xs ++ order_rows oid pid ys
unfolding order_rows
order_rows-append oid pid [] ys = refl
order_rows-append oid pid (x ∷ xs) ys = ground (arith, order_rows-append oid pid xs ys)

order_rows_fresh :
    (n pid : ℕ) (xs : List OrderItem) → All (λ it. it.order_id < n) xs → order_rows n pid xs ≡ []
unfolding order_rows
order_rows_fresh n pid [] h = refl
order_rows_fresh n pid (x ∷ xs) h = ground (arith, order_rows_fresh n pid xs h.1)

quantities-stamped :
    (n pid : ℕ) (its : List OrderItem)
    → quantities (order_rows n pid (stamped n its)) ≡ asked pid its
unfolding quantities order_rows asked
quantities-stamped n pid [] = refl
quantities-stamped n pid (it ∷ its) =
    ground (arith, ==_self n, quantities-stamped n pid its, zero-add_ℤ (asked pid its))

-- A product that is not ordered has no row.
stamped_none :
    (n pid : ℕ) (its : List OrderItem)
    → has_product pid its ≡ false
    → order_rows n pid (stamped n its) ≡ []
unfolding has_product order_rows
stamped_none n pid [] h = refl
stamped_none n pid (it ∷ its) h = ground (arith, stamped_none n pid its)

stamped_single :
    (n pid : ℕ) (its : List OrderItem)
    → Distinct its
    → length (order_rows n pid (stamped n its)) ≤ 1
unfolding order_rows
stamped_single n pid [] d = omega arith
stamped_single n pid (it ∷ its) d =
    ground (arith, stamped_none n it.product_id its d.0, stamped_single n pid its d.1)

module _ (pg : Postgres) (db : Db) (order : Order) (its : List OrderItem) (uid pid : ℕ) where
  new_rows :
      WellFormed db
      → order_rows db.next_order_id pid (db.items ++ stamped db.next_order_id its)
        ≡ order_rows db.next_order_id pid (stamped db.next_order_id its)
  new_rows v = rw (
    order_rows-append db.next_order_id pid db.items (stamped db.next_order_id its),
    order_rows_fresh db.next_order_id pid db.items v.owned,
  )

  -- On well-formed tables, where PostgreSQL updates a product by one of the rows it is joined
  -- with, an order that names each product at most once leaves the stock of every product as it
  -- was once its creation and then its cancellation have succeeded.
  pub create-cancel :
      {c : Created} {db' db'' : Db} (target : OrderStatus) (owner : Option ℕ) {m : Option Text}
      {ps : List Product}
      → WellFormed db
      → PicksOne pg
      → Distinct its
      → create_order_atomic pg db order its uid ≡ (ok c, db')
      → cancel_pending_order_atomic pg db' c.order.id target owner ≡ (ok (cancelled_now m ps), db'')
      → on_hand (db''.products pid) ≡ on_hand (db.products pid)
  create-cancel {c} {db'} {db''} target owner v one d made undone =
      let n = db.next_order_id in
      let q = create-Placed pg db order its uid made in
      let undone_n = rw (ap (λ o. o.id) q.row) at undone in
      let (o, closes, shape) = cancel-Closes pg db' n target owner undone_n in
      let v' : WellFormed db' =
        subst (λ r. WellFormed r.1) made (create-WellFormed pg db order its uid v) in
      let rows : order_rows n pid db'.items ≡ order_rows n pid (stamped n its) =
        rw q.state (new_rows v) in
      let back = rw rows at (closed-on_hand pg db' n target owner o pid v') in
      let shelf : on_hand (db'.products pid) ≡ on_hand (q.shelf pid) = rw q.state refl in
      rw shape (
        omega (
          int_laws,
          parts_of_eq back,
          parts_of_eq shelf,
          parts_of_eq (
              picked_single pg (order_rows n pid (stamped n its)) one (stamped_single n pid its d)),
          parts_of_eq (quantities-stamped n pid its),
          parts_of_eq (Sells-on_hand its db.products q.shelf pid q.sells),
        ))
