-- ===== src/Store/Cancel/Keeps.antt =====
-- A cancellation keeps the tables in order, and the books where no product is ordered twice.
use hozdacha.Base.{
  ℕ, ◌≤◌, ◌≡◌, ◌⊎◌, inl, inr, refl, sym, ◌∙◌, ◌&&◌, Option, none, some, List, [], ◌∷◌, length, All,
  All-map, ◌==◌, Bool-cases, some≢none, arith,
}
use hozdacha.Base.Int.{pos, ◌≤ℤ◌, int_laws, parts_of_eq, add-zero_ℤ}
use hozdacha.Store.Rows.{Product, OrderStatus, OrderItem, Db}
use hozdacha.Store.Transaction.{Postgres, update-cases}
use hozdacha.Store.Cancel.{
  order_rows, restore, restore_all, cancelled_db, cancel_pending_order_atomic,
}
use hozdacha.Store.Cancel.Cases.{cancel-cases}
use hozdacha.Store.Cancel.Books.{quantities, picked, closed-total}
use hozdacha.Store.Accounts.{on_hand, is_some, total, WellFormed, IsPositive, InStock}

-- The value is an entry of the list.
abbrev pub OneOf : OrderItem → List OrderItem → Type 0
OneOf x [] = ⊥
OneOf x (y ∷ ys) = (x ≡ y) ⊎ OneOf x ys

-- PostgreSQL: the target row is updated by one of the rows that it is joined with.
abbrev pub PicksOne : Postgres → Type 0
PicksOne pg = (it : OrderItem) (its : List OrderItem) → OneOf (pg.pick it its) (it ∷ its)

-- An order names a product at most once.
abbrev pub SingleRows : ℕ → List OrderItem → Type 0
SingleRows oid items = (pid : ℕ) → length (order_rows oid pid items) ≤ 1

pub picked_single :
    (pg : Postgres) (rows : List OrderItem)
    → PicksOne pg
    → length rows ≤ 1
    → picked pg rows ≡ quantities rows
unfolding quantities
picked_single pg [] p h = refl
picked_single pg (it ∷ []) p h = elim (p it []) [
  | inl e ↦ rw (picked, e) (sym (add-zero_ℤ it.quantity))
  | inr e ↦ absurd e
]
picked_single pg (it ∷ it' ∷ its) p h = absurd (omega (arith, h))

restore-is_some :
    (pg : Postgres) (rows : List OrderItem) (p : Option Product)
    → is_some (restore pg rows p) ≡ is_some p
unfolding restore
restore-is_some pg [] p = refl
restore-is_some pg (it ∷ its) none = refl
restore-is_some pg (it ∷ its) (some p) = refl

pub order_rows-IsPositive :
    (oid pid : ℕ) (xs : List OrderItem) → IsPositive xs → IsPositive (order_rows oid pid xs)
unfolding order_rows
order_rows-IsPositive oid pid [] h = tt
order_rows-IsPositive oid pid (x ∷ xs) h =
    elim (Bool-cases (x.order_id == oid && x.product_id == pid)) [
      | inl e ↦ rw e (h.0, order_rows-IsPositive oid pid xs h.1)
      | inr e ↦ rw e (order_rows-IsPositive oid pid xs h.1)
    ]

pub OneOf-All {ℓ} :
    (P : OrderItem → Type ℓ) (x : OrderItem) (xs : List OrderItem) → OneOf x xs → All P xs → P x
OneOf-All P x [] o h = absurd o
OneOf-All P x (y ∷ ys) (inl e) h = rw e h.0
OneOf-All P x (y ∷ ys) (inr o) h = OneOf-All P x ys o h.1

restore-InStock :
    (pg : Postgres) (rows : List OrderItem) (p : Option Product)
    → PicksOne pg
    → IsPositive rows
    → pos 0 ≤ℤ on_hand p
    → pos 0 ≤ℤ on_hand (restore pg rows p)
unfolding restore
restore-InStock pg [] p one h v = v
restore-InStock pg (it ∷ its) none one h v = v
restore-InStock pg (it ∷ its) (some p) one h v =
    let more : pos 1 ≤ℤ (pg.pick it its).quantity =
      OneOf-All (λ x. pos 1 ≤ℤ x.quantity) (pg.pick it its) (it ∷ its) (one it its) h in
    omega (int_laws, more)

module _ (pg : Postgres) (db : Db) (oid : ℕ) (target : OrderStatus) (owner : Option ℕ) where
  -- On well-formed tables, where PostgreSQL updates a product by one of the rows it is joined
  -- with, cancelling or expiring an order that names each product at most once keeps, for every
  -- product, the sum of the shelf and of what pending orders hold, whatever the result is.
  pub cancel-total :
      WellFormed db
      → PicksOne pg
      → SingleRows oid db.items
      → (pid : ℕ) → total (cancel_pending_order_atomic pg db oid target owner).1 pid ≡ total db pid
  cancel-total v p single pid =
      cancel-cases pg db oid target owner (λ r. total r.1 pid ≡ total db pid) (λ e. refl) refl
        λ o c. omega (
          int_laws,
          parts_of_eq (closed-total pg db oid target owner o pid v c),
          parts_of_eq (picked_single pg (order_rows oid pid db.items) p (single pid)),
        )

  -- Cancelling keeps well-formed ids and references well formed.
  pub cancel-WellFormed :
      WellFormed db → WellFormed (cancel_pending_order_atomic pg db oid target owner).1
  unfolding cancelled_db restore_all
  cancel-WellFormed v =
      cancel-cases pg db oid target owner (λ r. WellFormed r.1) (λ e. v) v
        λ o c. record {
          fresh = λ i h.
              update-cases (λ r. r ≡ none) db.orders oid i (some (record o { status = target }))
                (λ e. absurd (some≢none (sym c.stored ∙ v.fresh oid (omega (arith, h, e)))))
                (λ _. v.fresh i h);
          owned = v.owned;
          known =
              All-map _ _ (λ it h. restore-is_some pg (order_rows oid it.product_id db.items) _ ∙ h)
                db.items v.known;
        }

  -- With items of positive quantity and no negative stock, and where PostgreSQL updates a product
  -- by one of the rows it is joined with, cancelling never takes a stock below zero.
  pub cancel-InStock :
      PicksOne pg
      → IsPositive db.items
      → InStock db.products
      → InStock (cancel_pending_order_atomic pg db oid target owner).1.products
  unfolding cancelled_db restore_all
  cancel-InStock p positive v =
      cancel-cases pg db oid target owner (λ r. InStock r.1.products) (λ e. v) v
        λ o c pid.
          restore-InStock pg (order_rows oid pid db.items) (db.products pid) p
            (order_rows-IsPositive oid pid db.items positive) (v pid)
