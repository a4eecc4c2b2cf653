-- ===== src/Catalog.antt =====
-- The pages of the catalogue (internal/usecase/product.go).
--
-- `rows` are the rows that the query of the page lists, in its order: active and with a stock above 0. The
-- stocks that are left are those of the batch of StockCache, which are never below 0; a share of the buffer is
-- a number of hundredths of a percent, and the stock without it is computed exactly, where the code cuts off a
-- float64 (one piece less for some stocks and buffers, none at the 3 % that are set by default). The prices that the pricer sets afterwards belong to Pricing.
pub mod Paging
mod Repeats
mod Examples
use hozdacha.Base.{
  ℕ, zero, suc, ◌+◌, ◌-◌, ◌*◌, ◌/◌, Bool, true, false, Option, none, some, List, [], ◌∷◌, ◌++◌, map,
  length, take, drop, ltb, ◌==◌, if◌then◌else◌,
}

pub record Row : Type 0 where
  pub id : ℕ
  pub stock : ℕ

abbrev pub AvailableMap : Type 0
AvailableMap = ℕ → Option ℕ

abbrev pub less_buffer : ℕ → ℕ → ℕ
less_buffer buffer stock = stock * (10000 - buffer) / 10000

abbrev buffered : ℕ → Row → Option ℕ → Row
buffered buffer p (some left) = record p { stock = left }
buffered buffer p none = record p { stock = less_buffer buffer p.stock }

-- `applyStockBuffer`: without a buffer nothing changes.
unfoldable pub apply_stock_buffer : ℕ → AvailableMap → Row → Row
apply_stock_buffer buffer left p = if buffer == 0 then p else buffered buffer p (left p.id)

abbrev with_left : Row → Option ℕ → Row
with_left p (some n) = record p { stock = n }
with_left p none = p

-- The row as it is shown: the buffer first, then what is left of it.
unfoldable pub restocked : ℕ → AvailableMap → Row → Row
unfolding apply_stock_buffer
restocked buffer left p = with_left (apply_stock_buffer buffer left p) (left p.id)

abbrev pub max_batches : ℕ
max_batches = 20

module _ (buffer : ℕ) (left : AvailableMap) where
  -- The rows of a batch with something left, up to the room on the page.
  unfoldable pub shown : ℕ → List Row → List Row
  unfolding restocked
  shown zero ps = []
  shown (suc room) [] = []
  shown (suc room) (p ∷ ps) =
      let q = restocked buffer left p in
      let others = shown room ps in
      let same_room = shown (suc room) ps in if ltb 0 q.stock then q ∷ others else same_room

  module _ (rows : List Row) (fails : ℕ → Bool) (limit : ℕ) where
    abbrev pub batch : ℕ → List Row
    batch offset = take limit (drop offset rows)

    abbrev pub before : List Row → Option (List Row) → Option (List Row)
    before ps none = none
    before ps (some qs) = some (ps ++ qs)

    -- At most `batches` batches, until the page is full: an empty batch or a short one is the last.
    unfoldable pub collect : ℕ → ℕ → ℕ → Option (List Row)
    unfolding shown
    collect zero room offset = some []
    collect (suc batches) zero offset = some []
    collect (suc batches) (suc room) offset =
        let found = shown (suc room) (batch offset) in
        let more = collect batches (suc room - length found) (offset + limit) in
        if fails offset
        then none
        else if ltb (length (batch offset)) limit
        then some found
        else before found more

  -- `GetCatalogProducts`, and `SearchProducts` with the rows of its query. `fails` tells at which offsets the
  -- query fails.
  unfoldable pub get_catalog_products : List Row → (ℕ → Bool) → ℕ → ℕ → Option (List Row)
  unfolding collect
  get_catalog_products rows fails limit offset =
      if limit == 0 then some [] else collect rows fails limit max_batches limit offset
