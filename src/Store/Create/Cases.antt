-- ===== src/Store/Create/Cases.antt =====
-- A creation of an order either fails and changes nothing, or has sold every item.
use hozdacha.Base.{
  ℕ, suc, ◌≡◌, sym, ap, subst, ◌∙◌, inl, inr, Option, List, [], ◌∷◌, Result, ok, err, ◌>>=◌, ◌>>◌,
  Result-cases, >>=-eq-ok, ok-injective,
}
use hozdacha.Store.Rows.{Product, Order, OrderItem, CartItem, Db}
use hozdacha.Store.Transaction.{
  Postgres, DbError, begin_tx, commit_tx, insert_order, insert_item, exec, run_tx,
}
use hozdacha.Store.Create.{
  Created, stamped, decrement_all, insert_items, cleaned_cart, created_row, created_db, create_body,
  create_order_atomic,
}
use hozdacha.Store.Create.Stock.{Sells, decrement_all-Sells}

pub run_tx-cases {ℓ κ} :
    {A : Type ℓ} (P : Result DbError A × Db → Type κ) (pg : Postgres) (db : Db)
    (body : Result DbError (A × Db))
    → ((e : DbError) → P (err e, db))
    → ((a : A) (db' : Db) → body ≡ ok (a, db') → P (ok a, db'))
    → P (run_tx pg db body)
unfolding run_tx
run_tx-cases {A = A} P pg db body failed done =
    elim (Result-cases (exec pg begin_tx >> (body >>= λ r. exec pg commit_tx >> ok r))) [
      | inr (e, q) ↦ rw (run_tx, q) (failed e)
      | inl (r, q) ↦
          let (_, _, q1) = >>=-eq-ok (exec pg begin_tx) _ q in
          let (r', b, q2) = >>=-eq-ok body _ q1 in
          let (_, _, q3) = >>=-eq-ok (exec pg commit_tx) _ q2 in
          rw (run_tx, q) (done r.0 r.1 (b ∙ q3))
    ]

insert_items-stamped :
    (pg : Postgres) (i oid : ℕ) (its rows : List OrderItem)
    → insert_items pg i oid its ≡ ok rows
    → rows ≡ stamped oid its
unfolding insert_items
insert_items-stamped pg i oid [] rows h = sym (ok-injective h)
insert_items-stamped pg i oid (it ∷ its) rows h =
    let (_, _, h1) = >>=-eq-ok (exec pg (insert_item i)) _ h in
    let (rest, h2, h3) = >>=-eq-ok (insert_items pg (suc i) oid its) _ h1 in
    sym (ok-injective h3)
    ∙ ap (λ r. record it { order_id = oid } ∷ r) (insert_items-stamped pg (suc i) oid its rest h2)

module _ (pg : Postgres) (db : Db) (order : Order) (its : List OrderItem) (uid : ℕ) where
  -- What a successful creation did.
  pub record Placed (c : Created) (db' : Db) : Type 0 where
    pub shelf : ℕ → Option Product
    pub cart : List CartItem
    pub sells : Sells its db.products shelf
    pub cleaned : cleaned_cart pg uid its db.cart ≡ ok cart
    pub row : c.order ≡ created_row db order
    pub rows : c.items ≡ stamped db.next_order_id its
    pub state : db' ≡ created_db db order (stamped db.next_order_id its) shelf cart

  body-Placed :
      (c : Created) (db' : Db) → create_body pg db order its uid ≡ ok (c, db') → Placed c db'
  unfolding create_body
  body-Placed c db' h =
      let (dec, sold, h1) = >>=-eq-ok (decrement_all pg 0 its db.products) _ h in
      let (_, _, h2) = >>=-eq-ok (exec pg insert_order) _ h1 in
      let (rows, stamps, h3) = >>=-eq-ok (insert_items pg 0 db.next_order_id its) _ h2 in
      let (cart, clean, h4) = >>=-eq-ok (cleaned_cart pg uid its db.cart) _ h3 in
      let same = insert_items-stamped pg 0 db.next_order_id its rows stamps in
      record {
        shelf = dec.1;
        cart = cart;
        sells = decrement_all-Sells pg 0 its db.products dec sold;
        cleaned = clean;
        row = ap (λ x. x.0.order) (sym (ok-injective h4));
        rows = ap (λ x. x.0.items) (sym (ok-injective h4)) ∙ same;
        state =
            ap (λ x. x.1) (sym (ok-injective h4)) ∙ ap (λ r. created_db db order r dec.1 cart) same;
      }

  pub create-cases {ℓ} :
      (P : Result DbError Created × Db → Type ℓ)
      → ((e : DbError) → P (err e, db))
      → ((c : Created) (db' : Db) → Placed c db' → P (ok c, db'))
      → P (create_order_atomic pg db order its uid)
  unfolding create_order_atomic
  create-cases P failed done =
      run_tx-cases P pg db (create_body pg db order its uid) failed
        (λ c db' h. done c db' (body-Placed c db' h))

  pub create-Placed :
      {c : Created} {db' : Db}
      → create_order_atomic pg db order its uid ≡ (ok c, db')
      → Placed c db'
  create-Placed {c} {db'} =
      create-cases (λ r. r ≡ (ok c, db') → Placed c db') (λ e h. cc)
        λ c₁ db₁ q h.
          subst (λ x. Placed x db') (ok-injective (ap (λ x. x.0) h))
            (subst (λ x. Placed c₁ x) (ap (λ x. x.1) h) q)
