-- ===== src/Store/Accounts.antt =====
-- The books that the order transactions must keep: what stands on the shelf, and what the pending
-- orders hold.
use hozdacha.Base.{
  ℕ, ◌≤◌, ◌<◌, ◌≡◌, Bool, true, false, ◌&&◌, Option, none, some, List, [], ◌∷◌, ◌==◌, if◌then◌else◌,
  All,
}
use hozdacha.Base.Int.{ℤ, pos, ◌+ℤ◌, ◌≤ℤ◌}
use hozdacha.Store.Rows.{Product, Order, OrderItem, Db}
use hozdacha.Store.Cancel.{is_pending}

abbrev pub on_hand : Option Product → ℤ
on_hand none = pos 0
on_hand (some p) = p.stock

abbrev pub is_some {ℓ} : {A : Type ℓ} → Option A → Bool
is_some none = false
is_some (some _) = true

abbrev pub pending_at : Option Order → Bool
pending_at none = false
pending_at (some o) = is_pending o.status

abbrev pub quantity_if : Bool → OrderItem → ℤ
quantity_if b it = if b then it.quantity else pos 0

-- How much of a product a list of items asks for.
unfoldable pub asked : ℕ → List OrderItem → ℤ
asked pid [] = pos 0
asked pid (it ∷ its) = quantity_if (it.product_id == pid) it +ℤ asked pid its

-- How much of a product the pending orders hold.
unfoldable pub held : (ℕ → Option Order) → ℕ → List OrderItem → ℤ
held os pid [] = pos 0
held os pid (it ∷ its) =
    quantity_if (it.product_id == pid && pending_at (os it.order_id)) it +ℤ held os pid its

abbrev pub total : Db → ℕ → ℤ
total db pid = on_hand (db.products pid) +ℤ held db.orders pid db.items

-- Primary and foreign keys: ids come from the sequence, and an item's product exists.
pub record WellFormed (db : Db) : Type 0 where
  pub fresh : (oid : ℕ) → db.next_order_id ≤ oid → db.orders oid ≡ none
  pub owned : All (λ it. it.order_id < db.next_order_id) db.items
  pub known : All (λ it. is_some (db.products it.product_id) ≡ true) db.items

abbrev pub IsPositive : List OrderItem → Type 0
IsPositive = All (λ it. pos 1 ≤ℤ it.quantity)

-- No product is sold below zero.
abbrev pub InStock : (ℕ → Option Product) → Type 0
InStock ps = (pid : ℕ) → pos 0 ≤ℤ on_hand (ps pid)
