-- ===== src/Store/Transaction.antt =====
-- Transactions of internal/db/orders.go. PostgreSQL is the parameter `Postgres`: which statements
-- fail, which rows another transaction has locked, and which of several joined rows an
-- UPDATE ... FROM takes. A transaction that ends by an error leaves the tables as they were (an id
-- that the sequence gave out may be lost then; the model gives it out again).
use hozdacha.Base.{
  ℕ, Bool, not, List, Result, ok, err, ◌>>=◌, ◌>>◌, ensure, ◌==◌, if◌then◌else◌, ◌≡◌, ◌≢◌,
  ℕ_discrete, ==_self, ==_ne,
}
use hozdacha.Base.Int.{ℤ, pos, ltb_ℤ}
use hozdacha.Store.Rows.{ProductStatus, active, out_of_stock, OrderStatus, OrderItem, Db}

-- The statements of the transactions, a loop's by the index of its round.
pub data Stmt : Type 0 where
  begin_tx insert_order clear_cart commit_tx lock_order restore_stock mark_order : Stmt
  complete_order list_expired : Stmt
  decrement_stock insert_item : ℕ → Stmt

pub record Postgres : Type 0 where
  pub fault : Stmt → Bool
  pub locked : ℕ → Bool
  pub pick : OrderItem → List OrderItem → OrderItem

pub data DbError : Type 0 where
  fault_at : Stmt → DbError
  insufficient_stock : ℕ → DbError
  order_forbidden : DbError
  invalid_target : OrderStatus → DbError

abbrev pub exec : Postgres → Stmt → Result DbError (Unit {0})
exec pg s = ensure (not (pg.fault s)) (fault_at s)

-- The deferred rollback.
abbrev pub settle {ℓ} : {A : Type ℓ} → Db → Result DbError (A × Db) → Result DbError A × Db
settle db (ok r) = (ok r.0, r.1)
settle db (err e) = (err e, db)

-- Begin, body and commit.
unfoldable pub run_tx {ℓ} :
    {A : Type ℓ} → Postgres → Db → Result DbError (A × Db) → Result DbError A × Db
run_tx pg db body = settle db (exec pg begin_tx >> (body >>= λ r. exec pg commit_tx >> ok r))

-- A map with one value replaced.
abbrev pub update {ℓ} : {A : Type ℓ} → (ℕ → A) → ℕ → A → ℕ → A
update f k v j = if k == j then v else f j

abbrev pub stock_status : ℤ → ProductStatus
stock_status n = if ltb_ℤ (pos 0) n then active else out_of_stock

pub update-cases {ℓ κ} :
    {A : Type ℓ} (P : A → Type κ) (f : ℕ → A) (k j : ℕ) (v : A)
    → (k ≡ j → P v)
    → (k ≢ j → P (f j))
    → P (update f k v j)
update-cases P f k j v here there = elim (ℕ_discrete k j) [
  | yes q ↦ rw (← q, ==_self k) (here q)
  | no q ↦ rw (==_ne q) (there q)
]

pub update_self {ℓ} : {A : Type ℓ} (f : ℕ → A) (k : ℕ) (v : A) → update f k v k ≡ v
update_self f k v = rw (==_self k)

pub update_ne {ℓ} : {A : Type ℓ} (f : ℕ → A) {k j : ℕ} (v : A) → k ≢ j → update f k v j ≡ f j
update_ne f v h = rw (==_ne h)
