-- ===== src/Store/Cancel/Leak.antt =====
-- An order that names a product in two rows: the restoring statement gives back one row only.
use hozdacha.Base.{ℕ, ◌≤◌, ◌≡◌, inl, inr, List, [], ◌∷◌, length, Option, ok, arith}
use hozdacha.Base.Int.{pos, ◌+ℤ◌, ◌≤ℤ◌, int_laws, parts_of_eq}
use hozdacha.Store.Rows.{Product, OrderStatus, OrderItem, Db}
use hozdacha.Store.Transaction.{Postgres}
use hozdacha.Store.Cancel.{cancelled_now, order_rows, cancel_pending_order_atomic}
use hozdacha.Store.Cancel.Cases.{cancel-cases}
use hozdacha.Store.Cancel.Books.{quantities, picked, closed-total}
use hozdacha.Store.Cancel.Keeps.{OneOf, PicksOne, order_rows-IsPositive}
use hozdacha.Store.Accounts.{total, WellFormed, IsPositive}

quantities_nonneg : (xs : List OrderItem) → IsPositive xs → pos 0 ≤ℤ quantities xs
unfolding quantities
quantities_nonneg [] h = omega arith
quantities_nonneg (x ∷ xs) h = omega (int_laws, h.0, quantities_nonneg xs h.1)

OneOf-quantity :
    (x : OrderItem) (xs : List OrderItem) → OneOf x xs → IsPositive xs → x.quantity ≤ℤ quantities xs
unfolding quantities
OneOf-quantity x [] o h = absurd o
OneOf-quantity x (y ∷ ys) (inl e) h = rw e (omega (int_laws, quantities_nonneg ys h.1))
OneOf-quantity x (y ∷ ys) (inr o) h = omega (int_laws, h.0, OneOf-quantity x ys o h.1)

-- One of several positive rows is less than all of them.
one_less :
    (z x y : OrderItem) (ys : List OrderItem)
    → OneOf z (x ∷ y ∷ ys)
    → IsPositive (x ∷ y ∷ ys)
    → z.quantity +ℤ pos 1 ≤ℤ quantities (x ∷ y ∷ ys)
unfolding quantities
one_less z x y ys (inl e) h = rw e (omega (int_laws, h, quantities_nonneg ys h.1.1))
one_less z x y ys (inr o) h =
    let rest : z.quantity ≤ℤ quantities (y ∷ ys) = OneOf-quantity z (y ∷ ys) o h.1 in
    omega (int_laws, h.0, rest)

picked_less :
    (pg : Postgres) (rows : List OrderItem)
    → PicksOne pg
    → IsPositive rows
    → 2 ≤ length rows
    → picked pg rows +ℤ pos 1 ≤ℤ quantities rows
picked_less pg [] one h two = absurd (omega (arith, two))
picked_less pg (x ∷ []) one h two = absurd (omega (arith, two))
picked_less pg (x ∷ y ∷ ys) one h two = one_less (pg.pick x (y ∷ ys)) x y ys (one x (y ∷ ys)) h

-- A cancellation that takes effect on an order with a product in two rows or more loses stock of
-- it: the shelf and the pending orders together have less than before. (On well-formed tables with
-- positive quantities, where PostgreSQL updates a product by one of the rows it is joined with.)
pub cancel_leaks :
    (pg : Postgres) (db : Db) (oid : ℕ) (target : OrderStatus) (owner : Option ℕ) (pid : ℕ)
    → WellFormed db
    → PicksOne pg
    → IsPositive db.items
    → 2 ≤ length (order_rows oid pid db.items)
    → (m : Option (List ℕ)) (ps : List Product)
    → (cancel_pending_order_atomic pg db oid target owner).0 ≡ ok (cancelled_now m ps)
    → total (cancel_pending_order_atomic pg db oid target owner).1 pid +ℤ pos 1 ≤ℤ total db pid
cancel_leaks pg db oid target owner pid v one positive two m ps =
    cancel-cases pg db oid target owner
      (λ r. r.0 ≡ ok (cancelled_now m ps) → total r.1 pid +ℤ pos 1 ≤ℤ total db pid)
      (λ e h. absurd (cc)) (λ h. absurd (cc))
      λ o c h. omega (
        int_laws,
        parts_of_eq (closed-total pg db oid target owner o pid v c),
        picked_less pg (order_rows oid pid db.items) one
            (order_rows-IsPositive oid pid db.items positive) two,
      )
