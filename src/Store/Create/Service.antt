-- ===== src/Store/Create/Service.antt =====
-- When an order can be created: exactly when the shelf serves all its items together.
use mathlib.Core.Bool.{false≢true}
use hozdacha.Base.{
  ℕ, suc, ◌≡◌, ◌↔◌, refl, sym, ◌∙◌, true, false, Option, some, List, [], ◌∷◌, Result, ok, err,
  ==_self, ==_ne, ℕ_discrete, arith, is_ok, is_ok-bind,
}
use hozdacha.Base.Int.{pos, ◌+ℤ◌, ◌≤ℤ◌, int_laws, parts_of_eq, zero-add_ℤ, ltb_ℤ-false}
use hozdacha.Store.Rows.{Product, Order, OrderItem, CartItem, Db}
use hozdacha.Store.Transaction.{
  Stmt, begin_tx, commit_tx, insert_order, exec, run_tx, settle, decrement_stock, insert_item,
  clear_cart, Postgres, DbError, update, update_self, update_ne,
}
use hozdacha.Store.Create.{
  decremented, decrement, decrement_all, insert_items, has_product, cleaned_cart, create_body,
  create_order_atomic,
}
use hozdacha.Store.Create.Stock.{Sells, Sells-on_hand, Sells-InStock}
use hozdacha.Store.Create.Cases.{create-cases}
use hozdacha.Store.Accounts.{asked, IsPositive, InStock}

-- Every ordered product is there, is on sale, and has as much as all the items ask for.
abbrev pub CanServe : (ℕ → Option Product) → List OrderItem → Type 0
CanServe ps its =
    (pid : ℕ)
    → has_product pid its ≡ true
    → (p : Product) × (ps pid ≡ some p) × (p.is_active ≡ true) × (asked pid its ≤ℤ p.stock)

asked_nonneg : (pid : ℕ) (its : List OrderItem) → IsPositive its → pos 0 ≤ℤ asked pid its
unfolding asked
asked_nonneg pid [] h = omega arith
asked_nonneg pid (it ∷ its) h = elim (ℕ_discrete it.product_id pid) [
  | yes q ↦ rw (q, ==_self pid) (omega (int_laws, h.0, asked_nonneg pid its h.1))
  | no q ↦ rw (==_ne q) (omega (int_laws, asked_nonneg pid its h.1))
]

-- What the first item needs.
CanServe-head :
    (it : OrderItem) (its : List OrderItem) (ps : ℕ → Option Product)
    → CanServe ps (it ∷ its)
    → (p : Product) × (ps it.product_id ≡ some p)
      × (p.is_active ≡ true)
      × (it.quantity +ℤ asked it.product_id its ≤ℤ p.stock)
unfolding has_product asked
CanServe-head it its ps h =
    let (p, e, able, enough) = h it.product_id (rw (==_self it.product_id)) in
    (p, e, able, rw (==_self it.product_id) at enough)

-- After the first item is sold, the rest can be served.
CanServe-tail :
    (it : OrderItem) (its : List OrderItem) (ps : ℕ → Option Product) (p : Product)
    → p.is_active ≡ true
    → it.quantity +ℤ asked it.product_id its ≤ℤ p.stock
    → CanServe ps (it ∷ its)
    → CanServe (update ps it.product_id (some (decremented it p))) its
unfolding has_product asked
CanServe-tail it its ps p able room h pid wanted = elim (ℕ_discrete it.product_id pid) [
  | yes q ↦
      rw (← q) (decremented it p, update_self ps it.product_id _, able, omega (int_laws, room))
  | no q ↦
      let (p', e, fine, enough) = h pid (rw (==_ne q) wanted) in
      (p', update_ne ps _ q ∙ e, fine, rw (==_ne q, zero-add_ℤ) at enough)
]

decrement_one :
    (it : OrderItem) (ps : ℕ → Option Product) (p : Product)
    → ps it.product_id ≡ some p
    → p.is_active ≡ true
    → it.quantity ≤ℤ p.stock
    → decrement it ps ≡ ok (decremented it p, update ps it.product_id (some (decremented it p)))
unfolding decrement
decrement_one it ps p e able enough =
    rw (decrement, e, ltb_ℤ-false p.stock it.quantity enough, able)

is_ok-settle {ℓ} :
    {A : Type ℓ} (db : Db) (r : Result DbError (A × Db))
    → is_ok r ≡ true
    → is_ok (settle db r).0 ≡ true
is_ok-settle db (ok a) h = refl
is_ok-settle db (err e) h = h

-- No statement fails.
abbrev pub Faultless : Postgres → Type 0
Faultless pg = (s : Stmt) → pg.fault s ≡ false

module _ (pg : Postgres) (calm : Faultless pg) where
  decrement_all-serves :
      (i : ℕ) (its : List OrderItem) (ps : ℕ → Option Product)
      → IsPositive its
      → CanServe ps its
      → is_ok (decrement_all pg i its ps) ≡ true
  unfolding decrement_all
  decrement_all-serves i [] ps pos_its h = refl
  decrement_all-serves i (it ∷ its) ps pos_its h =
      let (p, e, able, room) = CanServe-head it its ps h in
      let one =
        decrement_one it ps p e able
          (omega (int_laws, room, asked_nonneg it.product_id its pos_its.1)) in
      let rest =
        decrement_all-serves (suc i) its (update ps it.product_id (some (decremented it p)))
          pos_its.1 (CanServe-tail it its ps p able room h) in
      rw (calm (decrement_stock i), one)
        (is_ok-bind
          (decrement_all pg (suc i) its (update ps it.product_id (some (decremented it p)))) _ rest
          (λ _. refl))

  insert_items-ok : (i oid : ℕ) (its : List OrderItem) → is_ok (insert_items pg i oid its) ≡ true
  unfolding insert_items
  insert_items-ok i oid [] = refl
  insert_items-ok i oid (it ∷ its) =
      rw (calm (insert_item i)) (
        is_ok-bind (insert_items pg (suc i) oid its) _ (insert_items-ok (suc i) oid its)
          (λ _. refl))

  cleaned_cart-ok :
      (uid : ℕ) (its : List OrderItem) (cart : List CartItem)
      → is_ok (cleaned_cart pg uid its cart) ≡ true
  unfolding cleaned_cart
  cleaned_cart-ok uid its cart = ground (arith, calm clear_cart)

  exec-ok : (s : Stmt) → is_ok (exec pg s) ≡ true
  exec-ok s = rw (calm s)

  body-serves :
      (db : Db) (order : Order) (its : List OrderItem) (uid : ℕ)
      → IsPositive its
      → CanServe db.products its
      → is_ok (create_body pg db order its uid) ≡ true
  unfolding create_body
  body-serves db order its uid pos_its h =
      is_ok-bind (decrement_all pg 0 its db.products) _
        (decrement_all-serves 0 its db.products pos_its h)
        λ dec. is_ok-bind (exec pg insert_order) _ (exec-ok insert_order) λ _.
          is_ok-bind (insert_items pg 0 db.next_order_id its) _
            (insert_items-ok 0 db.next_order_id its)
            λ rows.
              is_ok-bind (cleaned_cart pg uid its db.cart) _ (cleaned_cart-ok uid its db.cart)
                λ _. refl

  serves-create :
      (db : Db) (order : Order) (its : List OrderItem) (uid : ℕ)
      → IsPositive its
      → CanServe db.products its
      → is_ok (create_order_atomic pg db order its uid).0 ≡ true
  unfolding create_order_atomic run_tx
  serves-create db order its uid pos_its h = is_ok-settle db _ (
      is_ok-bind (exec pg begin_tx) _ (exec-ok begin_tx) λ _.
        is_ok-bind (create_body pg db order its uid) _ (body-serves db order its uid pos_its h)
          λ r. is_ok-bind (exec pg commit_tx) _ (exec-ok commit_tx) λ _. refl)

Sells-active :
    (its : List OrderItem) (ps qs : ℕ → Option Product) (pid : ℕ)
    → Sells its ps qs
    → has_product pid its ≡ true
    → (p : Product) × (ps pid ≡ some p) × (p.is_active ≡ true)
unfolding has_product
Sells-active [] ps qs pid s h = cc
Sells-active (it ∷ its) ps qs pid (p, found, enough, able, s) h =
    elim (ℕ_discrete it.product_id pid) [
      | yes q ↦ (p, rw (← q) found, able)
      | no q ↦
          let (p', e, fine) = Sells-active its _ qs pid s (rw (==_ne q) at h) in
          (p', sym (update_ne ps _ q) ∙ e, fine)
    ]

Sells-CanServe :
    (its : List OrderItem) (ps qs : ℕ → Option Product)
    → InStock ps
    → Sells its ps qs
    → CanServe ps its
Sells-CanServe its ps qs v s pid h =
    let (p, e, able) = Sells-active its ps qs pid s h in
    let books = Sells-on_hand its ps qs pid s in
    (p, e, able, omega (int_laws, parts_of_eq (rw e at books), Sells-InStock its ps qs v s pid))

-- On a database where no statement fails and no stock is negative, an order of positive quantities
-- is created exactly when every ordered product exists, is active and has at least as much in stock
-- as all the order's items together ask for.
pub create-decides :
    (pg : Postgres) (db : Db) (order : Order) (its : List OrderItem) (uid : ℕ)
    → Faultless pg
    → InStock db.products
    → IsPositive its
    → (is_ok (create_order_atomic pg db order its uid).0 ≡ true) ↔ CanServe db.products its
create-decides pg db order its uid calm v pos_its = (
  create-cases pg db order its uid (λ r. is_ok r.0 ≡ true → CanServe db.products its)
      (λ e h. absurd (false≢true h))
      (λ c db' q h. Sells-CanServe its db.products q.shelf v q.sells),
  serves-create pg calm db order its uid pos_its,
)
