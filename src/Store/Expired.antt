-- ===== src/Store/Expired.antt =====
-- `ListExpiredPendingIDs`: what the cron job is given to expire.
use hozdacha.Base.{
  ℕ, zero, suc, ◌≤◌, ◌<◌, ◌≡◌, inl, inr, refl, ◌&&◌, Option, none, some, List, [], ◌∷◌, length,
  take, All, All-map, subst, ok, ok-injective, >>=-eq-ok, Bool-cases, ltb, leb, leb→le,
  if◌then◌else◌, arith,
}
use hozdacha.Base.Int.{ℤ, pos, pos_part, ltb_ℤ}
use hozdacha.Store.Rows.{Order, pending, Db}
use hozdacha.Store.Transaction.{Postgres, list_expired, exec}
use hozdacha.Store.Cancel.{
  is_pending, expired_at, expired_row, insert_by_time, insert_rows, expired_rows, ids,
  list_expired_pending_ids,
}

-- A pending order whose reservation ended at `t`, before now.
abbrev pub Overdue : Db → ℕ → ℕ → ℕ → Type 0
Overdue db now t oid =
    (o : Order) × (db.orders oid ≡ some o)
    × (o.status ≡ pending)
    × (o.reserved_until ≡ some t)
    × (t < now)

abbrev IsRow : Db → ℕ → ℕ × ℕ → Type 0
IsRow db now x = Overdue db now x.0 x.1

-- The reservation times of the rows do not fall.
abbrev pub IsSorted : List (ℕ × ℕ) → Type 0
IsSorted [] = Unit {0}
IsSorted (x ∷ xs) = All (λ y. x.0 ≤ y.0) xs × IsSorted xs

All-insert {ℓ} :
    (P : ℕ × ℕ → Type ℓ) (x : ℕ × ℕ) (ys : List (ℕ × ℕ))
    → P x
    → All P ys
    → All P (insert_by_time x ys)
unfolding insert_by_time
All-insert P x [] h hs = (h, tt)
All-insert P x (y ∷ ys) h hs = elim (Bool-cases (leb x.0 y.0)) [
  | inl e ↦ rw e (h, hs)
  | inr e ↦ rw e (hs.0, All-insert P x ys h hs.1)
]

insert-IsSorted : (x : ℕ × ℕ) (ys : List (ℕ × ℕ)) → IsSorted ys → IsSorted (insert_by_time x ys)
unfolding insert_by_time
insert-IsSorted x [] s = (tt, tt)
insert-IsSorted x (y ∷ ys) s = elim (Bool-cases (leb x.0 y.0)) [
  | inl e ↦
      let first : x.0 ≤ y.0 = leb→le x.0 y.0 e in
      rw e ((first, All-map _ _ (λ z h. omega (arith, h, first)) ys s.0), s)
  | inr e ↦ rw e (All-insert (λ z. y.0 ≤ z.0) x ys (ground arith) s.0, insert-IsSorted x ys s.1)
]

expired_at-IsRow :
    (db : Db) (now oid : ℕ) (o : Order) (r : Option ℕ)
    → db.orders oid ≡ some o
    → o.reserved_until ≡ r
    → All (IsRow db now) (expired_at now oid (is_pending o.status) r)
expired_at-IsRow db now oid o none e q = tt
expired_at-IsRow db now oid o (some t) e q = elim (Bool-cases (is_pending o.status && ltb t now)) [
  | inl b ↦ rw b ((o, e, ground arith, q, ground arith), tt)
  | inr b ↦ rw b tt
]

expired_row-IsRow :
    (db : Db) (now oid : ℕ) (row : Option Order)
    → db.orders oid ≡ row
    → All (IsRow db now) (expired_row now oid row)
expired_row-IsRow db now oid none e = tt
expired_row-IsRow db now oid (some o) e = expired_at-IsRow db now oid o o.reserved_until e refl

insert_rows-All {ℓ} :
    (P : ℕ × ℕ → Type ℓ) (xs ys : List (ℕ × ℕ)) → All P xs → All P ys → All P (insert_rows xs ys)
insert_rows-All P [] ys h hs = hs
insert_rows-All P (x ∷ _) ys h hs = All-insert P x ys h.0 hs

insert_rows-IsSorted : (xs ys : List (ℕ × ℕ)) → IsSorted ys → IsSorted (insert_rows xs ys)
insert_rows-IsSorted [] ys s = s
insert_rows-IsSorted (x ∷ _) ys s = insert-IsSorted x ys s

expired_rows-IsRow : (db : Db) (now n : ℕ) → All (IsRow db now) (expired_rows db now n)
unfolding expired_rows
expired_rows-IsRow db now zero = tt
expired_rows-IsRow db now (suc n) =
    insert_rows-All (IsRow db now) (expired_row now n (db.orders n)) (expired_rows db now n)
      (expired_row-IsRow db now n (db.orders n) refl) (expired_rows-IsRow db now n)

expired_rows-IsSorted : (db : Db) (now n : ℕ) → IsSorted (expired_rows db now n)
unfolding expired_rows
expired_rows-IsSorted db now zero = tt
expired_rows-IsSorted db now (suc n) =
    insert_rows-IsSorted (expired_row now n (db.orders n)) (expired_rows db now n)
      (expired_rows-IsSorted db now n)

-- Ids of overdue orders, the earliest reservation first; `low` bounds the times from below.
abbrev pub Listing : Db → ℕ → ℕ → List ℕ → Type 0
Listing db now low [] = Unit {0}
Listing db now low (i ∷ is) = (t : ℕ) × Overdue db now t i × (low ≤ t) × Listing db now t is

rows-Listing :
    (db : Db) (now low n : ℕ) (xs : List (ℕ × ℕ))
    → All (IsRow db now) xs
    → IsSorted xs
    → All (λ x. low ≤ x.0) xs
    → Listing db now low (take n (ids xs))
rows-Listing db now low zero xs r s b = tt
rows-Listing db now low (suc n) [] r s b = tt
rows-Listing db now low (suc n) (x ∷ xs) r s b =
    (x.0, r.0, b.0, rows-Listing db now x.0 n xs r.1 s.1 s.0)

from_zero : (xs : List (ℕ × ℕ)) → All (λ x. 0 ≤ x.0) xs
from_zero [] = tt
from_zero (x ∷ xs) = (omega arith, from_zero xs)

length-take_le : (n : ℕ) (xs : List ℕ) → length (take n xs) ≤ n
length-take_le zero xs = omega arith
length-take_le (suc n) [] = omega arith
length-take_le (suc n) (x ∷ xs) = omega (arith, length-take_le n xs)

-- The cron query lists only ids of pending orders whose reservation has ended, the earliest first,
-- and at most `limit` of them (100 where the limit is not positive).
pub list_expired-Listing :
    (pg : Postgres) (db : Db) (now : ℕ) (limit : ℤ) {found : List ℕ}
    → list_expired_pending_ids pg db now limit ≡ ok found
    → Listing db now 0 found
      × (length found ≤ (if ltb_ℤ (pos 0) limit then pos_part limit else 100))
unfolding list_expired_pending_ids
list_expired-Listing pg db now limit {found} h =
    let n = if ltb_ℤ (pos 0) limit then pos_part limit else 100 in
    let rows = expired_rows db now db.next_order_id in
    let (_, _, h1) = >>=-eq-ok (exec pg list_expired) _ h in
    subst (λ xs. Listing db now 0 xs × (length xs ≤ n)) (ok-injective h1)
      (
        rows-Listing db now 0 n rows (expired_rows-IsRow db now db.next_order_id)
            (expired_rows-IsSorted db now db.next_order_id) (from_zero rows),
        length-take_le n (ids rows),
      )
