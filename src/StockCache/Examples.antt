-- ===== src/StockCache/Examples.antt =====
-- The theorems on the stock cache for one product.
use hozdacha.Base.{ℕ, refl, false, Option, none, some, [], ◌∷◌}
use hozdacha.Base.Int.{pos}
use hozdacha.StockCache.{Redis, StockRow, get_stock, get_reserved_stock, batch_get_available_stocks}
use hozdacha.StockCache.Available.{
  Answers, Overstated, batch-get_available_stock, batch_cold-reserved,
}

abbrev find : ℕ → Option StockRow
find id = some (record { stock = pos 9; moysklad_id = 120 ∷ [] })

abbrev warm : Redis
warm = record {
  stocks = λ id. some (record { stock = pos 9; cached_at = 0; moysklad_id = []; expires = 1800 });
  reserved = λ id. some (pos 4);
  last_sync = none;
}

abbrev cold : Redis
cold = record { stocks = λ id. none; reserved = λ id. some (pos 4); last_sync = none }

batch-get_available_stock_example :
    Answers false find warm 100
      (3 ∷ 5 ∷ [])
      ((batch_get_available_stocks false false find warm (3 ∷ 5 ∷ []) 100).0)
unfolding get_stock
batch-get_available_stock_example =
    batch-get_available_stock false find warm (3 ∷ 5 ∷ []) 100 ((_, refl), ((_, refl), tt))

batch_cold-reserved_example :
    Overstated find cold 100
      (3 ∷ 5 ∷ [])
      ((batch_get_available_stocks false false find cold (3 ∷ 5 ∷ []) 100).0)
unfolding get_stock get_reserved_stock
batch_cold-reserved_example =
    batch_cold-reserved find cold (3 ∷ 5 ∷ []) 100
      ((_, refl, refl, refl), ((_, refl, refl, refl), tt))
