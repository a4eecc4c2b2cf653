-- ===== src/Pricing/Examples.antt =====
-- The theorems on prices at a concrete catalogue: a product of category 2, which stands below 1.
use mathlib.Core.Bool.{false≢true}
use hozdacha.Base.{
  ℕ, ◌*◌, ◌≡◌, ◌↔◌, refl, true, Option, none, some, List, [], ◌∷◌, All, ok, ◌==◌, if◌then◌else◌,
}
use hozdacha.Base.Int.{pos}
use hozdacha.Store.Rows.{ProductStatus}
use hozdacha.Window.{Promotion, PromotionKind, day, msk, promotion_applies_for_reservation}
use hozdacha.Pricing.{Priced, PromotionType, usable, chain_or_self, apply_to_product}
use hozdacha.Pricing.Ancestors.{
  CategoryRows, In, Within, max_depth, has_row, ancestor_map, lookup_chain, ancestors_exact,
}
use hozdacha.Pricing.Best.{Gets, category-Gets}
use hozdacha.Pricing.Pricer.{Pricer, Tables, apply, Links, has_id}
use hozdacha.Pricing.Masks.{lapsed_masks}

abbrev offer : ℕ → PromotionKind → Promotion
offer percent kind = record {
  id = percent;
  title = [];
  discount = pos (percent * 100);
  active = true;
  kind = kind;
  start_date = none;
  end_date = none;
  valid_from = none;
  created_at = 9 * day;
}

abbrev teapot : Priced
teapot = record {
  product = record {
    id = 1;
    name = [];
    price = 10_050;
    moysklad_id = none;
    category_id = some 2;
    stock = pos 1;
    is_active = true;
    status = ProductStatus.active;
  };
  effective_price = none;
  discount_percent = none;
  promotion_type = PromotionType.no_promotion;
  promotion_title = [];
  promotion_kind = none;
}

abbrev tree : CategoryRows
tree = (1, none) ∷ (2, some 1) ∷ []

abbrev by_category_id : ℕ → Option Promotion
by_category_id c = if c == 1 then some (offer 20 PromotionKind.manual) else none

abbrev nothing : ℕ → Option Promotion
nothing p = none

abbrev above : ℕ → List ℕ
above c = 2 ∷ 1 ∷ []

category-Gets_example :
    All
      (λ c.
        (p : Promotion)
        → usable (by_category_id c) ≡ some p
        → Gets (apply_to_product teapot nothing by_category_id above) p)
      (chain_or_self 2 (above 2))
category-Gets_example = category-Gets teapot nothing by_category_id above 2 refl refl

ancestors_exact_example : In 1 (lookup_chain (ancestor_map tree) 2) ↔ Within tree max_depth 2 1
unfolding has_row
ancestors_exact_example = ancestors_exact tree 2 1 refl

abbrev empty_pricer : Pricer
empty_pricer = record { ancestors = none; ancestors_exp = 0 }

abbrev links : Links
links = (1, offer 30 PromotionKind.day_kind) ∷ (1, offer 10 PromotionKind.manual) ∷ []

abbrev tables : Tables
tables = record { product_links = ok links; category_links = ok []; categories = none }

-- Three days after the day promotion, the manual one of 10 % is not used either.
lapsed_masks_example :
    (apply msk empty_pricer tables (12 * day) (some teapot ∷ [])).0
    ≡ (apply msk empty_pricer
        (record tables { product_links = ok [] })
        (12 * day)
        (some teapot ∷ [])).0
unfolding has_id promotion_applies_for_reservation
lapsed_masks_example =
    lapsed_masks msk empty_pricer tables (12 * day) teapot (offer 30 PromotionKind.day_kind) []
      ((1, offer 10 PromotionKind.manual) ∷ []) refl refl
      ((λ _ _ applies. absurd (false≢true applies)), ((λ _ _ _. refl), tt))
