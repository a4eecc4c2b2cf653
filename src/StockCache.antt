-- ===== src/StockCache.antt =====
-- Stocks and reservations in Redis (internal/cache/redis.go).
--
-- Redis is a map of keys: one for the stock of a product, which lapses after thirty minutes, and one for
-- what is reserved of it. Stocks are whole numbers of either sign, times are seconds. `down` tells that Redis
-- does not answer.
pub mod Available
mod Examples
use hozdacha.Base.{
  ℕ, ◌+◌, ◌≤◌, Bool, true, false, not, ◌&&◌, ◌||◌, Option, none, some, List, [], ◌∷◌, map, Result,
  ok, err, ◌>>=◌, ◌>>◌, ensure, ltb, leb, ◌==◌, if◌then◌else◌,
}
use hozdacha.Base.Int.{ℤ, pos, negsuc, ◌+ℤ◌, ◌-ℤ◌, ltb_ℤ}
use hozdacha.Store.Transaction.{update}
use hozdacha.Store.Rows.{Text}
use hozdacha.Users.Texts.{text_eq}

pub record StockInfo : Type 0 where
  pub stock : ℤ
  pub cached_at : ℕ
  pub moysklad_id : Text
  pub expires : ℕ

pub record Redis : Type 0 where
  pub stocks : ℕ → Option StockInfo
  pub reserved : ℕ → Option ℤ
  pub last_sync : Option ℕ

pub data CacheError : Type 0 where
  redis_failed db_failed product_not_found : CacheError

-- Thirty minutes.
abbrev pub stock_ttl : ℕ
stock_ttl = 1800

abbrev pub with_stock : Redis → ℕ → Option StockInfo → Redis
with_stock c id info = record c { stocks = update c.stocks id info }

unfoldable pub set_stock : Redis → ℕ → Text → ℤ → ℕ → Redis
set_stock c id moysklad_id stock now = with_stock c id (
    some (record {
      stock = stock;
      cached_at = now;
      moysklad_id = moysklad_id;
      expires = now + stock_ttl;
    }))

abbrev live_info : ℕ → Option StockInfo → Option StockInfo
live_info now none = none
live_info now (some info) = if leb info.expires now then none else some info

unfoldable pub get_stock : Redis → ℕ → ℕ → Option StockInfo
get_stock c id now = live_info now (c.stocks id)

unfoldable pub invalidate_stock : Redis → ℕ → Redis
invalidate_stock c id = with_stock c id none

abbrev pub other_id : Text → Option StockInfo → Option StockInfo
other_id moysklad_id none = none
other_id moysklad_id (some info) = if text_eq info.moysklad_id moysklad_id then none else some info

-- Every key `stock:*` is read, and deleted where it has the id.
unfoldable pub invalidate_by_moysklad_id : Redis → Text → Redis
unfolding text_eq
invalidate_by_moysklad_id c moysklad_id = record c {
  stocks = λ id. other_id moysklad_id (c.stocks id);
}

abbrev pub reserved_of : Option ℤ → ℤ
reserved_of none = pos 0
reserved_of (some r) = r

unfoldable pub get_reserved_stock : Redis → ℕ → ℤ
get_reserved_stock c id = reserved_of (c.reserved id)

unfoldable pub reserve_stock : Redis → ℕ → ℤ → Redis
unfolding ◌+ℤ◌
reserve_stock c id quantity =
    if ltb_ℤ (pos 0) quantity
    then record c {
      reserved = update c.reserved id (some (reserved_of (c.reserved id) +ℤ quantity));
    }
    else c

-- The script: a reservation that is used up is deleted.
abbrev pub remaining : ℤ → Option ℤ
remaining next = if ltb_ℤ (pos 0) next then some next else none

unfoldable pub release_stock : Redis → ℕ → ℤ → Redis
unfolding ◌-ℤ◌
release_stock c id quantity =
    if ltb_ℤ (pos 0) quantity
    then record c {
      reserved = update c.reserved id (remaining (reserved_of (c.reserved id) -ℤ quantity));
    }
    else c

-- The product rows, as far as the cache reads them.
pub record StockRow : Type 0 where
  pub stock : ℤ
  pub moysklad_id : Text

abbrev pub at_least_0 : ℤ → ℤ
at_least_0 z = if ltb_ℤ z (pos 0) then pos 0 else z

unfoldable pub available : ℤ → ℤ → ℤ
unfolding ◌-ℤ◌
available stock reserved = at_least_0 (stock -ℤ reserved)

module _ (down db_fails : Bool) (find : ℕ → Option StockRow) where
  abbrev warmed : Redis → ℕ → ℕ → Option StockRow → Result CacheError (ℤ × Redis)
  warmed c id now none = err product_not_found
  warmed c id now (some row) =
      ok (available row.stock (get_reserved_stock c id), set_stock c id [] row.stock now)

  abbrev from_info : Redis → ℕ → ℕ → Option StockInfo → Result CacheError (ℤ × Redis)
  from_info c id now (some info) = ok (available info.stock (get_reserved_stock c id), c)
  from_info c id now none = ensure (not db_fails) db_failed >> warmed c id now (find id)

  -- The stock less what is reserved; a stock that is not cached is read from the database and cached.
  unfoldable pub get_available_stock : Redis → ℕ → ℕ → Result CacheError (ℤ × Redis)
  unfolding get_stock get_reserved_stock set_stock available
  get_available_stock c id now =
      ensure (not down) redis_failed >> from_info c id now (get_stock c id now)

  -- `stockCmds[i]`: with Redis down every product is cold.
  unfoldable pub read_stock : Redis → ℕ → ℕ → Option StockInfo
  unfolding get_stock
  read_stock c id now = if down then none else get_stock c id now

  abbrev stock_in_db : Option StockRow → ℤ
  stock_in_db none = pos 0
  stock_in_db (some row) = if db_fails then pos 0 else row.stock

  -- The reservation of a product is read where its stock is cached.
  unfoldable pub batch_available : Redis → ℕ → Option StockInfo → ℤ
  unfolding available get_reserved_stock
  batch_available c id (some info) = available info.stock (get_reserved_stock c id)
  batch_available c id none = available (stock_in_db (find id)) (pos 0)

  unfoldable warm_found : Redis → ℕ → ℕ → Option StockRow → Redis
  unfolding set_stock
  warm_found c id now none = c
  warm_found c id now (some row) =
      if down || db_fails then c else set_stock c id row.moysklad_id row.stock now

  unfoldable warm_one : ℕ → Redis → ℕ → Option StockInfo → Redis
  unfolding warm_found
  warm_one now c id (some info) = c
  warm_one now c id none = warm_found c id now (find id)

  -- The products that the first pipeline found cold, cached from the database.
  unfoldable pub warm_cold : Redis → ℕ → Redis → List ℕ → Redis
  unfolding read_stock warm_one
  warm_cold first now c [] = c
  warm_cold first now c (id ∷ ids) =
      warm_cold first now (warm_one now c id (read_stock first id now)) ids

  unfoldable pub batch_get_available_stocks : Redis → List ℕ → ℕ → List (ℕ × ℤ) × Redis
  unfolding read_stock batch_available warm_cold
  batch_get_available_stocks c ids now =
      (map (λ id. (id, batch_available c id (read_stock c id now))) ids, warm_cold c now c ids)
