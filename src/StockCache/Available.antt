-- ===== src/StockCache/Available.antt =====
-- The two ways to ask for the stock that is left (internal/cache/redis.go).
use hozdacha.Base.{
  arith, ℕ, ◌≡◌, refl, sym, ap, ◌∙◌, Bool, true, false, Option, none, some, List, [], ◌∷◌, All, ok,
  if◌then◌else◌,
}
use hozdacha.Base.Int.{ℤ, pos, ◌+ℤ◌, ◌-ℤ◌, ltb_ℤ, +ℤ_cancel}
use hozdacha.Store.Transaction.{update, update_self}
use hozdacha.StockCache.{
  Redis, StockInfo, StockRow, get_stock, set_stock, get_reserved_stock, reserve_stock,
  release_stock, reserved_of, remaining, available, get_available_stock, read_stock,
  batch_available, batch_get_available_stocks,
}

module _ (db_fails : Bool) (find : ℕ → Option StockRow) where
  abbrev pub Warm : Redis → ℕ → ℕ → Type 0
  Warm c now id = (info : StockInfo) × (get_stock c id now ≡ some info)

  abbrev pub Agrees : Redis → ℕ → ℕ × ℤ → Type 0
  Agrees c now answer = get_available_stock false db_fails find c answer.0 now ≡ ok (answer.1, c)

  -- One answer for each id that was asked for, in their order, and each as the single call gives it.
  abbrev pub Answers : Redis → ℕ → List ℕ → List (ℕ × ℤ) → Type 0
  Answers c now [] [] = Unit {0}
  Answers c now (id ∷ ids) (a ∷ answers) = (a.0 ≡ id) × Agrees c now a × Answers c now ids answers
  Answers c now [] (a ∷ answers) = ⊥
  Answers c now (id ∷ ids) [] = ⊥

  one-Agrees :
      (c : Redis) (id now : ℕ) (info : StockInfo)
      → get_stock c id now ≡ some info
      → Agrees c now
          (id, batch_available false db_fails find c id (read_stock false db_fails find c id now))
  unfolding get_available_stock batch_available read_stock
  one-Agrees c id now info cached = rw cached

  -- Where the stock of every product that is asked for is cached and Redis answers, the batch has one answer for each of
  -- them, in their order, and it is the answer of the call for that product alone.
  pub batch-get_available_stock :
      (c : Redis) (ids : List ℕ) (now : ℕ)
      → All (Warm c now) ids
      → Answers c now ids ((batch_get_available_stocks false db_fails find c ids now).0)
  unfolding batch_get_available_stocks get_available_stock
  batch-get_available_stock c [] now warm = tt
  batch-get_available_stock c (id ∷ ids) now ((info, cached), warm) =
      (refl, one-Agrees c id now info cached, batch-get_available_stock c ids now warm)

-- No stock is cached for the product, which has a row, and none or more of it is reserved.
abbrev pub NotCached : (ℕ → Option StockRow) → Redis → ℕ → ℕ → Type 0
NotCached find c now id =
    (row : StockRow) × (get_stock c id now ≡ none)
    × (find id ≡ some row)
    × (ltb_ℤ (get_reserved_stock c id) (pos 0) ≡ false)

-- One answer for each id, and the call for that product alone, on the same cache, gives what is left of this answer
-- when the reservation is taken off.
abbrev pub Overstated : (ℕ → Option StockRow) → Redis → ℕ → List ℕ → List (ℕ × ℤ) → Type 0
Overstated find c now [] [] = Unit {0}
Overstated find c now (id ∷ ids) (a ∷ answers) =
    (a.0 ≡ id)
    × ((after : Redis) × (get_available_stock false false find c id now
          ≡ ok (available a.1 (get_reserved_stock c id), after)))
    × Overstated find c now ids answers
Overstated find c now [] (a ∷ answers) = ⊥
Overstated find c now (id ∷ ids) [] = ⊥

available_again :
    (stock reserved : ℤ)
    → ltb_ℤ reserved (pos 0) ≡ false
    → available (available stock (pos 0)) reserved ≡ available stock reserved
unfolding available ◌-ℤ◌
available_again stock reserved h = ground arith

-- Nothing fails, and the products of a batch have rows, stocks that are not cached, and reservations that are not
-- negative. Then the batch leaves the reservations out: each of its answers, one for each id in their order, has still
-- to be lessened by what is reserved, down to 0 at most, to be the answer of the call for that product alone.
pub batch_cold-reserved :
    (find : ℕ → Option StockRow) (c : Redis) (ids : List ℕ) (now : ℕ)
    → All (NotCached find c now) ids
    → Overstated find c now ids ((batch_get_available_stocks false false find c ids now).0)
unfolding batch_get_available_stocks get_available_stock batch_available read_stock
batch_cold-reserved find c [] now cold = tt
batch_cold-reserved find c (id ∷ ids) now ((row, missing, found, held), cold) = (
  refl,
  rw (missing, found)
      (
        _,
        ap (λ z. ok (z, set_stock c id [] row.stock now))
            (sym (available_again row.stock (get_reserved_stock c id) held)),
      ),
  batch_cold-reserved find c ids now cold,
)

reserved_of-remaining : (z : ℤ) → ltb_ℤ z (pos 0) ≡ false → reserved_of (remaining z) ≡ z
reserved_of-remaining z h = ground arith

reserve_lem :
    (c : Redis) (id : ℕ) (quantity : ℤ)
    → ltb_ℤ (pos 0) quantity ≡ true
    → Redis.reserved (reserve_stock c id quantity) id ≡ some (get_reserved_stock c id +ℤ quantity)
unfolding reserve_stock get_reserved_stock
reserve_lem c id quantity positive =
    ap
      (λ b.
        Redis.reserved
          (if b
            then record c {
              reserved = update c.reserved id (some (reserved_of (c.reserved id) +ℤ quantity));
            }
            else c)
          id)
      positive
    ∙ update_self c.reserved id _

release_lem :
    (c : Redis) (id : ℕ) (quantity : ℤ)
    → ltb_ℤ (pos 0) quantity ≡ true
    → Redis.reserved (release_stock c id quantity) id
      ≡ remaining (get_reserved_stock c id -ℤ quantity)
unfolding release_stock get_reserved_stock
release_lem c id quantity positive =
    ap
      (λ b.
        Redis.reserved
          (if b
            then record c {
              reserved = update c.reserved id (remaining (reserved_of (c.reserved id) -ℤ quantity));
            }
            else c)
          id)
      positive
    ∙ update_self c.reserved id _

-- What is reserved and then released leaves the reservation as it was, if that was none or positive.
pub release-reserve :
    (c : Redis) (id : ℕ) (quantity : ℤ)
    → ltb_ℤ (pos 0) quantity ≡ true
    → ltb_ℤ (get_reserved_stock c id) (pos 0) ≡ false
    → get_reserved_stock (release_stock (reserve_stock c id quantity) id quantity) id
      ≡ get_reserved_stock c id
unfolding get_reserved_stock
release-reserve c id quantity positive before =
    ap reserved_of (release_lem (reserve_stock c id quantity) id quantity positive)
    ∙ ap (λ o. reserved_of (remaining (reserved_of o -ℤ quantity)))
        (reserve_lem c id quantity positive)
    ∙ ap (λ z. reserved_of (remaining z)) (+ℤ_cancel (get_reserved_stock c id) quantity)
    ∙ reserved_of-remaining (get_reserved_stock c id) before
