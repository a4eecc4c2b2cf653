-- ===== src/Store/Lifecycle.antt =====
-- The life of an order: any sequence of the transactions, each on a database that may fail at other
-- statements and lock other rows.
use mathlib.Core.Bool.{false≢true}
use hozdacha.Base.{
  ℕ, ◌+◌, ◌≤◌, ◌≡◌, ◌≢◌, ◌⊎◌, inl, inr, refl, sym, ap, ◌∙◌, Bool, false, Option, none, some, List,
  [], ◌∷◌, Result, ok, ◌==◌, ==_ne, ==_self, ℕ_discrete, some≢none, some_inj, if◌then◌else◌, arith,
}
use hozdacha.Store.Rows.{Order, OrderStatus, OrderItem, Db, pending, completed}
use hozdacha.Store.Transaction.{Postgres, DbError, update-cases, update_ne}
use hozdacha.Store.Create.{create_order_atomic}
use hozdacha.Store.Create.Cases.{create-cases}
use hozdacha.Store.Create.Books.{create-WellFormed}
use hozdacha.Store.Cancel.{
  Cancelled, cancelled_now, is_pending, cancelled_db, cancel_pending_order_atomic,
  complete_order_row,
}
use hozdacha.Store.Cancel.Cases.{cancel-cases}
use hozdacha.Store.Cancel.Keeps.{cancel-WellFormed}
use hozdacha.Store.Cancel.Books.{cancel_target_closed}
use hozdacha.Store.Complete.{complete-cases}
use hozdacha.Store.Accounts.{WellFormed}

pub data Op : Type 0 where
  create : Order → List OrderItem → ℕ → Op
  cancel : ℕ → OrderStatus → Option ℕ → Op
  complete : ℕ → Op

-- Whether an operation closed this order.
abbrev cancelled_it : ℕ → ℕ → Result DbError Cancelled → ℕ
cancelled_it oid i (ok (cancelled_now _ _)) = if i == oid then 1 else 0
cancelled_it oid i _ = 0

abbrev completed_it : ℕ → ℕ → Result DbError Bool → ℕ
completed_it oid i (ok false) = if i == oid then 1 else 0
completed_it oid i _ = 0

-- One operation: the new state, and 1 if it closed the order `oid`.
unfoldable pub step : ℕ → Db → Postgres × Op → ℕ × Db
step oid db (pg, create order its uid) = (0, (create_order_atomic pg db order its uid).1)
step oid db (pg, cancel i target owner) =
    let r = cancel_pending_order_atomic pg db i target owner in (cancelled_it oid i r.0, r.1)
step oid db (pg, complete i) = let r = complete_order_row pg db i in (completed_it oid i r.0, r.1)

-- A history: the last state, and how often the order was closed.
unfoldable pub run : ℕ → Db → List (Postgres × Op) → ℕ × Db
run oid db [] = (0, db)
run oid db (op ∷ ops) = let s = step oid db op in let r = run oid s.1 ops in (s.0 + r.0, r.1)

step-WellFormed :
    (oid : ℕ) (db : Db) (op : Postgres × Op) → WellFormed db → WellFormed (step oid db op).1
unfolding step
step-WellFormed oid db (pg, create order its uid) v = create-WellFormed pg db order its uid v
step-WellFormed oid db (pg, cancel i target owner) v = cancel-WellFormed pg db i target owner v
step-WellFormed oid db (pg, complete i) v =
    complete-cases pg db i (λ r. WellFormed r.1) v v
      λ o e w. record {
        fresh = λ j h.
            update-cases (λ r. r ≡ none) db.orders i j _
              (λ q. absurd (some≢none (sym e ∙ v.fresh i (omega (arith, h, q)))))
              (λ _. v.fresh j h);
        owned = v.owned;
        known = v.known;
      }

cancelled-other :
    (pg : Postgres) (db : Db) (p : Order) (oid i : ℕ) (target : OrderStatus)
    → i ≢ oid
    → (cancelled_db pg db p i target).orders oid ≡ db.orders oid
unfolding cancelled_db
cancelled-other pg db p oid i target n = update_ne db.orders _ n

cancelled_self :
    (pg : Postgres) (db : Db) (p : Order) (oid i : ℕ) (target : OrderStatus)
    → i ≡ oid
    → (cancelled_db pg db p i target).orders oid ≡ some (record p { status = target })
unfolding cancelled_db
cancelled_self pg db p oid i target y = rw (y, ==_self oid)

-- An order that is there and is not pending.
abbrev IsClosed : ℕ → Db → Type 0
IsClosed oid db = (o : Order) × (db.orders oid ≡ some o) × (is_pending o.status ≡ false)

closed_other :
    (oid i : ℕ) (db : Db) (o p : Order)
    → db.orders oid ≡ some o
    → is_pending o.status ≡ false
    → db.orders i ≡ some p
    → p.status ≡ pending
    → i ≢ oid
closed_other oid i db o p e c f w q =
    let same : o ≡ p = some_inj (sym e ∙ ap db.orders (sym q) ∙ f) in
    false≢true (sym c ∙ ap (λ x. is_pending x.status) same ∙ ap is_pending w)

-- Operations leave a closed order alone, and report no closing of it.
step_closed :
    (oid : ℕ) (db : Db) (op : Postgres × Op) (o : Order)
    → WellFormed db
    → db.orders oid ≡ some o
    → is_pending o.status ≡ false
    → ((step oid db op).1.orders oid ≡ some o) × ((step oid db op).0 ≡ 0)
unfolding step
step_closed oid db (pg, create order its uid) o v e c = (
  create-cases pg db order its uid (λ r. r.1.orders oid ≡ some o) (λ _. e)
      λ _ db' q. rw q.state (
        update_ne db.orders {k = db.next_order_id} {j = oid} _
          (λ n. some≢none (sym e ∙ v.fresh oid (omega (arith, n))))
        ∙ e),
  refl,
)
step_closed oid db (pg, cancel i target owner) o v e c =
    cancel-cases pg db i target owner
      (λ r. (r.1.orders oid ≡ some o) × (cancelled_it oid i r.0 ≡ 0)) (λ _. (e, refl)) (e, refl)
      λ p q.
        let other = closed_other oid i db o p e c q.stored q.waiting in
        (cancelled-other pg db p oid i target other ∙ e, rw (==_ne other))
step_closed oid db (pg, complete i) o v e c =
    complete-cases pg db i (λ r. (r.1.orders oid ≡ some o) × (completed_it oid i r.0 ≡ 0)) (e, refl)
      (e, refl)
      λ p f w.
        let other = closed_other oid i db o p e c f w in
        (update_ne db.orders _ other ∙ e, rw (==_ne other))

-- An operation that reports a closing has closed the order.
step_closes :
    (oid : ℕ) (db : Db) (op : Postgres × Op)
    → ((step oid db op).0 ≡ 0) ⊎ (((step oid db op).0 ≡ 1) × IsClosed oid (step oid db op).1)
unfolding step
step_closes oid db (pg, create order its uid) = inl refl
step_closes oid db (pg, cancel i target owner) =
    cancel-cases pg db i target owner
      (λ r. (cancelled_it oid i r.0 ≡ 0) ⊎ ((cancelled_it oid i r.0 ≡ 1) × IsClosed oid r.1))
      (λ _. inl refl) (inl refl)
      λ p q. elim (ℕ_discrete i oid) [
        | no n ↦ inl (rw (==_ne n))
        | yes y ↦ inr (
          rw (y, ==_self oid),
          (
            record p { status = target },
            cancelled_self pg db p oid i target y,
            cancel_target_closed target q.allowed,
          ),
        )
      ]
step_closes oid db (pg, complete i) =
    complete-cases pg db i
      (λ r. (completed_it oid i r.0 ≡ 0) ⊎ ((completed_it oid i r.0 ≡ 1) × IsClosed oid r.1))
      (inl refl) (inl refl)
      λ p f w. elim (ℕ_discrete i oid) [
        | no n ↦ inl (rw (==_ne n))
        | yes y ↦
            inr (rw (y, ==_self oid), (record p { status = completed }, rw (y, ==_self oid), refl))
      ]

run_closed :
    (oid : ℕ) (db : Db) (ops : List (Postgres × Op)) (o : Order)
    → WellFormed db
    → db.orders oid ≡ some o
    → is_pending o.status ≡ false
    → ((run oid db ops).1.orders oid ≡ some o) × ((run oid db ops).0 ≡ 0)
unfolding run
run_closed oid db [] o v e c = (e, refl)
run_closed oid db (op ∷ ops) o v e c =
    let (e', z) = step_closed oid db op o v e c in
    let (later, zs) = run_closed oid (step oid db op).1 ops o (step-WellFormed oid db op v) e' c in
    (later, omega (arith, z, zs))

-- An order of well-formed tables that is completed, cancelled or expired stays as it is through
-- every later history.
pub closed_for_good :
    (oid : ℕ) (db : Db) (ops : List (Postgres × Op)) (o : Order)
    → WellFormed db
    → db.orders oid ≡ some o
    → is_pending o.status ≡ false
    → (run oid db ops).1.orders oid ≡ some o
closed_for_good oid db ops o v e c = (run_closed oid db ops o v e c).0

-- In any history from well-formed tables at most one cancellation, expiry or completion of an
-- order takes effect.
pub closed_once :
    (oid : ℕ) (db : Db) (ops : List (Postgres × Op)) → WellFormed db → (run oid db ops).0 ≤ 1
unfolding run
closed_once oid db [] v = omega arith
closed_once oid db (op ∷ ops) v =
    let later = closed_once oid (step oid db op).1 ops (step-WellFormed oid db op v) in
    elim (step_closes oid db op) [
      | inl z ↦ omega (arith, z, later)
      | inr (s, (o, e, c)) ↦
          let none_left =
            (run_closed oid (step oid db op).1 ops o (step-WellFormed oid db op v) e c).1 in
          omega (arith, s, none_left)
    ]

-- Every history from well-formed tables keeps ids and references well formed.
pub run-WellFormed :
    (oid : ℕ) (db : Db) (ops : List (Postgres × Op)) → WellFormed db → WellFormed (run oid db ops).1
unfolding run
run-WellFormed oid db [] v = v
run-WellFormed oid db (op ∷ ops) v =
    run-WellFormed oid (step oid db op).1 ops (step-WellFormed oid db op v)
