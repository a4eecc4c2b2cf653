-- ===== src/Store/Cancel/Books.antt =====
-- What a cancellation gives back: the books are kept where an order has one row for each product,
-- and are not where it has two.
use hozdacha.Base.{
  ℕ, ◌≡◌, ◌⊎◌, inl, inr, refl, sym, subst, true, false, ◌&&◌, Option, none, some, List, [], ◌∷◌,
  All, ◌==◌, ==_self, ==_ne, ℕ_discrete, and-true, and-false, arith,
}
use hozdacha.Base.Int.{ℤ, pos, ◌+ℤ◌, int_laws, parts_of_eq, add-zero_ℤ, zero-add_ℤ}
use hozdacha.Store.Rows.{Product, Order, OrderStatus, OrderItem, Db}
use hozdacha.Store.Transaction.{Postgres, update, update_self, update_ne}
use hozdacha.Store.Cancel.{
  is_cancel_target, is_pending, order_rows, restore, restore_all, cancelled_db,
}
use hozdacha.Store.Cancel.Cases.{Closes}
use hozdacha.Store.Accounts.{on_hand, is_some, pending_at, quantity_if, held, total, WellFormed}

unfoldable pub quantities : List OrderItem → ℤ
quantities [] = pos 0
quantities (it ∷ its) = it.quantity +ℤ quantities its

-- The quantity that the restoring UPDATE adds for these rows.
abbrev pub picked : Postgres → List OrderItem → ℤ
picked pg [] = pos 0
picked pg (it ∷ its) = (pg.pick it its).quantity

on_hand-restore :
    (pg : Postgres) (rows : List OrderItem) (p : Option Product)
    → (rows ≡ []) ⊎ (is_some p ≡ true)
    → on_hand (restore pg rows p) ≡ on_hand p +ℤ picked pg rows
unfolding restore
on_hand-restore pg [] p h = sym (add-zero_ℤ _)
on_hand-restore pg (it ∷ its) none h = absurd (ground arith)
on_hand-restore pg (it ∷ its) (some p) h = refl

quantities-order_rows :
    (oid pid : ℕ) (x : OrderItem) (xs : List OrderItem)
    → quantities (order_rows oid pid (x ∷ xs))
      ≡ quantity_if (x.product_id == pid && x.order_id == oid) x
        +ℤ quantities (order_rows oid pid xs)
unfolding order_rows quantities
quantities-order_rows oid pid x xs = ground (arith, zero-add_ℤ (quantities (order_rows oid pid xs)))

-- An order that is no longer pending holds nothing of what its rows ask for.
pub held-closed :
    (os : ℕ → Option Order) (oid pid : ℕ) (o' : Order) (xs : List OrderItem)
    → pending_at (os oid) ≡ true
    → is_pending o'.status ≡ false
    → held os pid xs ≡ held (update os oid (some o')) pid xs +ℤ quantities (order_rows oid pid xs)
unfolding held
held-closed os oid pid o' [] w c = unfold order_rows quantities in sym (add-zero_ℤ _)
held-closed os oid pid o' (x ∷ xs) w c =
    let ih = parts_of_eq (held-closed os oid pid o' xs w c) in
    elim (ℕ_discrete x.order_id oid) [
      | yes q ↦
          rw
            (
              quantities-order_rows oid pid x xs,
              q,
              update_self os oid (some o'),
              w,
              c,
              ==_self oid,
              and-true,
              and-false,
            )
            (omega (int_laws, ih))
      | no q ↦
          rw
            (
              quantities-order_rows oid pid x xs,
              update_ne os (some o') (λ e. q (sym e)),
              ==_ne q,
              and-false,
            )
            (omega (int_laws, ih))
    ]

pub cancel_target_closed : (s : OrderStatus) → is_cancel_target s ≡ true → is_pending s ≡ false
cancel_target_closed s h = ground arith

-- The rows that are joined with a product belong to items of that product.
order_rows-known :
    (db : Db) (oid pid : ℕ) (xs : List OrderItem)
    → All (λ it. is_some (db.products it.product_id) ≡ true) xs
    → (order_rows oid pid xs ≡ []) ⊎ (is_some (db.products pid) ≡ true)
unfolding order_rows
order_rows-known db oid pid [] k = inl refl
order_rows-known db oid pid (x ∷ xs) k = elim (ℕ_discrete x.product_id pid) [
  | yes q ↦ inr (subst (λ i. is_some (db.products i) ≡ true) q k.0)
  | no q ↦ rw (==_ne q, and-false) (order_rows-known db oid pid xs k.1)
]

module _ (pg : Postgres) (db : Db) (oid : ℕ) (target : OrderStatus) (owner : Option ℕ) where
  -- After a cancellation the books differ by what the order's rows of the product ask for and what
  -- the restoring statement adds.
  pub closed-total :
      (o : Order) (pid : ℕ)
      → WellFormed db
      → Closes pg db oid target owner o
      → total (cancelled_db pg db o oid target) pid +ℤ quantities (order_rows oid pid db.items)
        ≡ total db pid +ℤ picked pg (order_rows oid pid db.items)
  unfolding cancelled_db restore_all
  closed-total o pid v c =
      let rows = order_rows oid pid db.items in
      let shut = cancel_target_closed target c.allowed in
      let open_now : pending_at (db.orders oid) ≡ true = rw (c.stored, c.waiting) refl in
      omega (
        int_laws,
        parts_of_eq
            (held-closed db.orders oid pid (record o { status = target }) db.items open_now shut),
        parts_of_eq (
            on_hand-restore pg rows (db.products pid)
              (order_rows-known db oid pid db.items v.known)),
      )

  -- What a cancellation puts back on the shelf.
  pub closed-on_hand :
      (o : Order) (pid : ℕ)
      → WellFormed db
      → on_hand ((cancelled_db pg db o oid target).products pid)
        ≡ on_hand (db.products pid) +ℤ picked pg (order_rows oid pid db.items)
  unfolding cancelled_db restore_all
  closed-on_hand o pid v =
      on_hand-restore pg (order_rows oid pid db.items) (db.products pid)
        (order_rows-known db oid pid db.items v.known)
