-- ===== src/Pricing.antt =====
-- The promotion pricer of internal/usecase/promotion_pricing.go. Prices are whole kopecks and
-- discounts hundredths of a percent, the scales of their columns, and the arithmetic is exact where
-- the code's is in float64. A Go map is a function or a list of pairs; a nil entry is a missing one.
mod Examples
pub mod Ancestors
pub mod Best
pub mod Pricer
pub mod DayOffers
pub mod Rows
pub mod Masks
use hozdacha.Base.{
  ℕ, ◌+◌, ◌-◌, ◌*◌, ◌/◌, Bool, true, false, not, ◌&&◌, Option, none, some, List, [], ◌∷◌, min,
  if◌then◌else◌,
}
use hozdacha.Base.Int.{ℤ, pos, pos_part, ltb_ℤ}
use hozdacha.Store.Rows.{Text, Product}
use hozdacha.Window.{Promotion, PromotionKind}

-- `PromotionType`: "", "product" or "category".
pub data PromotionType : Type 0 where
  no_promotion by_product by_category : PromotionType

-- A product with the fields that are filled in for the client.
pub record Priced : Type 0 where
  pub product : Product
  pub open product use {id, price, category_id}
  pub effective_price : Option ℕ
  pub discount_percent : Option ℕ
  pub promotion_type : PromotionType
  pub promotion_title : Text
  pub promotion_kind : Option PromotionKind

-- A discount of 100 %.
abbrev pub full : ℕ
full = 10_000

abbrev pub is_positive : ℤ → Bool
is_positive d = ltb_ℤ (pos 0) d

-- math.Round(price * (1 - discount/100) * 100) / 100: the nearest kopeck, halves upwards.
unfoldable pub discounted : ℕ → ℕ → ℕ
discounted price d = (2 * (price * (full - d)) + full) / (2 * full)

unfoldable pub set_effective : Priced → Promotion → PromotionType → Priced
unfolding discounted
set_effective prod promo ptype =
    let d = min (pos_part promo.discount) full in
    if not (is_positive promo.discount) then prod else record prod {
      effective_price = some (discounted prod.price d);
      discount_percent = some d;
      promotion_type = ptype;
      promotion_title = promo.title;
      promotion_kind = some promo.kind;
    }

-- `ok && promo != nil && promo.Discount > 0`.
abbrev pub usable : Option Promotion → Option Promotion
usable none = none
usable (some promo) = if is_positive promo.discount then some promo else none

-- The better of the best so far and the next promotion of the chain.
abbrev pub better : Option Promotion → Option Promotion → Option Promotion
better best none = best
better none (some promo) = some promo
better (some best) (some promo) =
    if ltb_ℤ best.discount promo.discount then some promo else some best

-- The loop over the chain of categories.
unfoldable pub best_of : (ℕ → Option Promotion) → Option Promotion → List ℕ → Option Promotion
best_of promos best [] = best
best_of promos best (cid ∷ chain) = best_of promos (better best (usable (promos cid))) chain

abbrev pub chain_or_self : ℕ → List ℕ → List ℕ
chain_or_self cid [] = cid ∷ []
chain_or_self cid (c ∷ cs) = c ∷ cs

abbrev pub apply_best : Priced → PromotionType → Option Promotion → Priced
apply_best prod ptype none = prod
apply_best prod ptype (some promo) = set_effective prod promo ptype

abbrev pub apply_category : Priced → (ℕ → Option Promotion) → (ℕ → List ℕ) → Option ℕ → Priced
apply_category prod promos ancestors none = prod
apply_category prod promos ancestors (some cid) =
    apply_best prod by_category (best_of promos none (chain_or_self cid (ancestors cid)))

abbrev pub apply_levels : Priced → Option Promotion → (ℕ → Option Promotion) → (ℕ → List ℕ) → Priced
apply_levels prod (some promo) categories ancestors = set_effective prod promo by_product
apply_levels prod none categories ancestors =
    apply_category prod categories ancestors prod.category_id

unfoldable pub apply_to_product :
    Priced → (ℕ → Option Promotion) → (ℕ → Option Promotion) → (ℕ → List ℕ) → Priced
unfolding best_of set_effective
apply_to_product prod products categories ancestors =
    apply_levels prod (usable (products prod.id)) categories ancestors
