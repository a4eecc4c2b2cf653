-- ===== src/Checkout/Compensation.antt =====
-- A failed `CreateOrder` leaves nothing behind (internal/usecase/order.go).
use hozdacha.Base.{
  ℕ, ◌≡◌, ◌⊎◌, inl, inr, refl, List, [], ◌∷◌, ◌++◌, Option, none, some, Result, ok, err,
}
use hozdacha.Store.Rows.{Text, Order, OrderItem, Db}
use hozdacha.Store.Transaction.{Postgres}
use hozdacha.Store.Create.Cases.{create-cases}
use hozdacha.Checkout.{
  Outside, Moysklad, moysklad_refused, Effect, CheckoutError, CreateOrderRequest, Done, prepared,
  place, save_order, after_save, remote_order, remote_answer, undo_remote, moysklad_created,
  moysklad_deleted, create_order,
}

-- The effect is in the list.
abbrev pub Logged : Effect → List Effect → Type 0
Logged e [] = ⊥
Logged e (x ∷ xs) = (e ≡ x) ⊎ Logged e xs

-- The error is that of the call which creates the order in MoySklad.
abbrev pub Refused : CheckoutError → Type 0
Refused e = (msg : Text) × (e ≡ moysklad_refused msg)

-- The tables are as they were, and an order that was created in MoySklad was deleted there, unless the error
-- is that of the call which created it.
abbrev pub Undone : Db → Done → Type 0
Undone db r =
    (e : CheckoutError)
    → r.0 ≡ err e
    → (r.1 ≡ db)
      × ((mid : Text)
          → Logged (moysklad_created (some mid)) r.2
          → Logged (moysklad_deleted mid) r.2 ⊎ Refused e)

created_same :
    (m n : Text)
    → moysklad_created (some m) ≡ moysklad_created (some n)
    → moysklad_deleted m ≡ moysklad_deleted n
created_same m n h = cc

created_none : (m : Text) → ¬ (moysklad_created (some m) ≡ moysklad_created none)
created_none m h = cc

deleted_created : (m n : Text) → ¬ (moysklad_created (some m) ≡ moysklad_deleted n)
deleted_created m n h = cc

refused_same :
    (msg : Text) (e : CheckoutError)
    → ◌≡◌ {A = Result CheckoutError Order} (err (moysklad_refused msg)) (err e)
    → e ≡ moysklad_refused msg
refused_same msg e h = cc

module _ (outside : Outside) (pg : Postgres) (db : Db) (uid : ℕ) (order : Order)
    (items : List OrderItem) where
  saved-Undone :
      (mid : Option Text) (log : List Effect)
      → ((m : Text)
          → Logged (moysklad_created (some m)) (log ++ undo_remote mid)
          → Logged (moysklad_deleted m) (log ++ undo_remote mid))
      → Undone db (save_order outside pg db uid order items (ok mid, log))
  saved-Undone mid log h =
      create-cases pg db (record order { moysklad_id = mid }) items uid
        (λ r. Undone db (after_save outside uid mid log r)) (λ e e' q. (refl, λ m l. inl (h m l)))
        λ c db' q e w. absurd (cc)

  answer-Undone :
      (a : Result Text (Option Text)) (left : Option Text)
      → Undone db (save_order outside pg db uid order items (remote_answer a left))
  answer-Undone (err e) left = λ e' q. (refl, λ m h. inr (e, refused_same e e' q))
  answer-Undone (ok none) left =
      saved-Undone none (moysklad_created none ∷ [])
        λ m h. elim h [ inl q ↦ absurd (created_none m q) | inr q ↦ absurd q ]
  answer-Undone (ok (some mid)) left =
      saved-Undone (some mid) (moysklad_created (some mid) ∷ []) λ m h. elim h [
        | inl q ↦ inr (inl (created_same m mid q))
        | inr r ↦ elim r [ inl q ↦ absurd (deleted_created m mid q) | inr q ↦ absurd q ]
      ]

  remote-Undone :
      (m : Option Moysklad)
      → Undone db (save_order outside pg db uid order items (remote_order m items))
  remote-Undone none = saved-Undone none [] λ m h. absurd h
  remote-Undone (some m) = answer-Undone (m.create_order_from_request items) (m.left_by_error items)

place-Undone :
    (outside : Outside) (pg : Postgres) (db : Db) (uid : ℕ)
    (p : Result CheckoutError (Order × List OrderItem))
    → Undone db (place outside pg db uid p)
place-Undone outside pg db uid (err e) = λ e' q. (refl, λ m h. absurd h)
place-Undone outside pg db uid (ok (order, items)) =
    remote-Undone outside pg db uid order items outside.moysklad

-- Where `CreateOrder` fails, whatever the reason, no table has changed, and an order that had been created
-- in MoySklad has been sent for deletion there, unless the error is that of the call that creates it, which
-- may have left an order there.
pub create_order-Undone :
    (outside : Outside) (pg : Postgres) (db : Db) (req : CreateOrderRequest) (now : ℕ)
    → Undone db (create_order outside pg db req now)
unfolding create_order
create_order-Undone outside pg db req now =
    place-Undone outside pg db req.user_id (prepared outside db req now)
