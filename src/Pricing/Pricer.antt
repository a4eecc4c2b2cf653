-- ===== src/Pricing/Pricer.antt =====
-- `Apply`, the cache of the category tree and the query of the best active promotions
-- (internal/usecase/promotion_pricing.go, internal/db/promotion_links.go). The clock is read once.
use hozdacha.Base.{
  ℕ, ◌+◌, Bool, true, false, ◌&&◌, ◌||◌, Option, none, some, List, [], ◌∷◌, ◌++◌, Result, ok, err,
  ltb, leb, ◌==◌, if◌then◌else◌,
}
use hozdacha.Base.Int.{ltb_ℤ}
use hozdacha.Window.{Promotion, promotion_applies_for_reservation}
use hozdacha.Pricing.{Priced, apply_to_product}
use hozdacha.Pricing.Ancestors.{CategoryRows, ancestor_map, lookup_chain}

abbrev pub Chains : Type 0
Chains = List (ℕ × List ℕ)

-- The cache of the pricer.
pub record Pricer : Type 0 where
  pub ancestors : Option Chains
  pub ancestors_exp : ℕ

-- 5 minutes, and 30 seconds after a failure.
abbrev pub ancestor_ttl : ℕ
ancestor_ttl = 300_000_000_000

abbrev pub failure_ttl : ℕ
failure_ttl = 30_000_000_000

-- The category table: not configured, or a query that fails or gives its rows.
abbrev pub CategorySource : Type 0
CategorySource = Option (Result (Unit {0}) CategoryRows)

abbrev pub reload : Pricer → CategorySource → ℕ → Chains × Pricer
reload p none now = ([], p)
reload p (some (err _)) now =
    ([], record { ancestors = some []; ancestors_exp = now + failure_ttl })
reload p (some (ok rows)) now = (
  ancestor_map rows,
  record { ancestors = some (ancestor_map rows); ancestors_exp = now + ancestor_ttl },
)

abbrev pub cached : Pricer → Bool → Option Chains → CategorySource → ℕ → Chains × Pricer
cached p fresh none source now = reload p source now
cached p fresh (some m) source now = if fresh then (m, p) else reload p source now

unfoldable pub get_ancestor_map : Pricer → CategorySource → ℕ → Chains × Pricer
get_ancestor_map p source now = cached p (ltb now p.ancestors_exp) p.ancestors source now

unfoldable pub invalidate_category_cache : Pricer → Pricer
invalidate_category_cache p = record { ancestors = none; ancestors_exp = 0 }

-- The rows (product or category id, promotion) of a link table joined with `promotions`.
abbrev pub Links : Type 0
Links = List (ℕ × Promotion)

abbrev started : ℕ → Option ℕ → Bool
started now none = true
started now (some t) = leb t now

abbrev not_ended : ℕ → Option ℕ → Bool
not_ended now none = true
not_ended now (some t) = leb now t

unfoldable pub has_id : ℕ → List ℕ → Bool
has_id k [] = false
has_id k (j ∷ js) = k == j || has_id k js

-- The WHERE clause.
abbrev pub selected : List ℕ → ℕ → ℕ × Promotion → Bool
selected ids now (fk, p) =
    has_id fk ids && (p.active && (started now p.start_date && not_ended now p.end_date))

-- `!ok || r.Discount > existing.Discount`.
abbrev pub improves : Promotion → Option Promotion → Bool
improves p none = true
improves p (some existing) = ltb_ℤ existing.discount p.discount

abbrev pub put_best : (ℕ → Option Promotion) → ℕ × Promotion → ℕ → Option Promotion
put_best best (fk, p) k = if fk == k && improves p (best fk) then some p else best k

unfoldable pub best_rows : List ℕ → ℕ → (ℕ → Option Promotion) → Links → ℕ → Option Promotion
unfolding has_id
best_rows ids now best [] = best
best_rows ids now best (r ∷ rows) =
    best_rows ids now (if selected ids now r then put_best best r else best) rows

-- A failed query counts as no promotion.
unfoldable pub best_active : List ℕ → ℕ → Result (Unit {0}) Links → ℕ → Option Promotion
unfolding best_rows
best_active ids now (err _) = λ _. none
best_active ids now (ok rows) = best_rows ids now (λ _. none) rows

module _ (zone : ℕ) where
  abbrev pub keep_applicable : ℕ → Option Promotion → Option Promotion
  keep_applicable now p = if promotion_applies_for_reservation zone p now then p else none

  unfoldable pub filter_promotions_map : (ℕ → Option Promotion) → ℕ → ℕ → Option Promotion
  unfolding promotion_applies_for_reservation
  filter_promotions_map src now k = keep_applicable now (src k)

unfoldable pub product_ids : List (Option Priced) → List ℕ
product_ids [] = []
product_ids (none ∷ ps) = product_ids ps
product_ids (some p ∷ ps) = p.id ∷ product_ids ps

abbrev with_category : Option ℕ → List ℕ → List ℕ
with_category none cs = cs
with_category (some c) cs = c ∷ cs

unfoldable pub category_ids : List (Option Priced) → List ℕ
category_ids [] = []
category_ids (none ∷ ps) = category_ids ps
category_ids (some p ∷ ps) = with_category p.category_id (category_ids ps)

-- Each category with all above it; the set is a list that may repeat.
unfoldable pub expand : Chains → List ℕ → List ℕ
unfolding lookup_chain
expand m [] = []
expand m (c ∷ cs) = c ∷ (lookup_chain m c ++ expand m cs)

abbrev pub expanded_ids : Chains → List ℕ → List ℕ
expanded_ids [] cs = cs
expanded_ids (r ∷ m) cs = expand (r ∷ m) cs

unfoldable pub apply_each :
    (ℕ → Option Promotion)
    → (ℕ → Option Promotion)
    → Chains
    → List (Option Priced)
    → List (Option Priced)
unfolding apply_to_product lookup_chain
apply_each products categories m [] = []
apply_each products categories m (none ∷ ps) = none ∷ apply_each products categories m ps
apply_each products categories m (some p ∷ ps) =
    some (apply_to_product p products categories (lookup_chain m))
    ∷ apply_each products categories m ps

-- The tables as a call finds them.
pub record Tables : Type 0 where
  pub product_links : Result (Unit {0}) Links
  pub category_links : Result (Unit {0}) Links
  pub categories : CategorySource

unfoldable pub apply :
    ℕ → Pricer → Tables → ℕ → List (Option Priced) → List (Option Priced) × Pricer
unfolding get_ancestor_map best_active filter_promotions_map product_ids category_ids expand
    apply_each
apply zone pricer db now [] = ([], pricer)
apply zone pricer db now (p ∷ ps) =
    let all = p ∷ ps in
    let by_id =
      filter_promotions_map zone (best_active (product_ids all) now db.product_links) now in
    let (m, pricer') = get_ancestor_map pricer db.categories now in
    let categories = expanded_ids m (category_ids all) in
    let by_cat = filter_promotions_map zone (best_active categories now db.category_links) now in
    (apply_each by_id by_cat m all, pricer')
