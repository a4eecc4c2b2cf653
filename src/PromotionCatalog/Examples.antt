-- ===== src/PromotionCatalog/Examples.antt =====
-- The theorems on the promotion catalogue for a promotion with two products.
use hozdacha.Base.{ℕ, ◌≡◌, refl, true, none, some, List, [], ◌∷◌, ok, arith, ◌++◌, ◌||◌}
use hozdacha.Base.Int.{pos}
use hozdacha.Store.Rows.{Product, active}
use hozdacha.Window.{Promotion, permanent, today}
use hozdacha.Pricing.{Priced, by_product, by_category}
use hozdacha.Pricing.Pricer.{has_id}
use hozdacha.PromotionCatalog.{
  Sources, Listing, Summary, grouped, list_products, resolve_candidate_ids, mixed_links,
}
use hozdacha.PromotionCatalog.Pages.{cut, list_products-cut}
use hozdacha.PromotionCatalog.Ranked.{Shown, list_products-Shown}
use hozdacha.PromotionCatalog.Groups.{promos_of, beside, promos_of-grouped}
use hozdacha.PromotionCatalog.Candidates.{Distinct, all_ids, resolve_candidate_ids-Distinct}

abbrev spring : Promotion
spring = record {
  id = 1;
  title = [];
  discount = pos 1000;
  active = true;
  kind = permanent;
  start_date = none;
  end_date = none;
  valid_from = none;
  created_at = 0;
}

abbrev plain : ℕ → Product
plain n = record {
  id = n;
  name = n ∷ [];
  price = 500;
  moysklad_id = none;
  category_id = some 4;
  stock = pos 3;
  is_active = true;
  status = active;
}

abbrev spade : Priced
spade = record {
  product = plain 7;
  effective_price = some 450;
  discount_percent = some 1000;
  promotion_type = by_product;
  promotion_title = [];
  promotion_kind = some permanent;
}

abbrev rake : Priced
rake = record {
  product = plain 8;
  effective_price = some 400;
  discount_percent = some 2000;
  promotion_type = by_category;
  promotion_title = [];
  promotion_kind = some permanent;
}

abbrev shop : Sources
shop = record {
  is_complete = true;
  active = ok (some spring ∷ []);
  list_product_ids = λ _. ok ((1, 7 ∷ []) ∷ []);
  list_category_ids = λ _. ok ((1, 4 ∷ []) ∷ []);
  list_ids_by_category_trees = λ _. ok (7 ∷ 8 ∷ []);
  filter_promotional_ids = λ ids search category. ok ids;
  get_products_by_ids = λ ids. ok (some spade ∷ some rake ∷ []);
  category_names = ok (some (4, 5 ∷ []) ∷ []);
}

abbrev page : List Priced → Listing
page ps = record {
  products = ps;
  total = 2;
  categories =
      record {
        id = 4;
        name = 5 ∷ [];
        promos =
            record { id = 1; title = []; discount = pos 1000; kind = mixed_links }
            ∷ record { id = 1; title = []; discount = pos 1000; kind = mixed_links }
            ∷ record { id = 1; title = []; discount = pos 1000; kind = mixed_links }
            ∷ [];
      }
      ∷ [];
  promotions =
      record {
        id = 1;
        title = [];
        discount = pos 1000;
        kind = mixed_links;
        category_ids = 4 ∷ [];
        product_ids = 7 ∷ [];
      }
      ∷ [];
  target = some today;
}

list_products-cut_example :
    list_products 0 shop [] none [] 1 1 0 ≡ ok (cut 1 1 (page (rake ∷ spade ∷ [])))
unfolding list_products
list_products-cut_example =
    list_products-cut 0 shop [] none [] 9 (page (rake ∷ spade ∷ [])) 1 1 0 refl (omega arith)

list_products-Shown_example : Shown 1 (rake ∷ [])
unfolding list_products
list_products-Shown_example = list_products-Shown 0 shop [] none [] 1 0 (page (rake ∷ [])) 0 refl

resolve_candidate_ids-Distinct_example :
    (ids : List ℕ) × (resolve_candidate_ids shop (some spring ∷ []) ≡ ok ids)
    × Distinct ids
    × ((k : ℕ) → has_id k ids ≡ has_id k (all_ids ((1, 7 ∷ []) ∷ [])) || has_id k (7 ∷ 8 ∷ []))
unfolding resolve_candidate_ids
resolve_candidate_ids-Distinct_example =
    resolve_candidate_ids-Distinct shop (some spring ∷ []) {below = 7 ∷ 8 ∷ []} refl refl refl

abbrev two_products : Summary
two_products = record {
  id = 1;
  title = [];
  discount = pos 1000;
  kind = mixed_links;
  category_ids = 4 ∷ [];
  product_ids = 7 ∷ 8 ∷ [];
}

promos_of-grouped_example :
    promos_of 4 (grouped (λ _. []) shop (two_products ∷ []) [])
    ≡ promos_of 4 [] ++ beside (λ _. []) 4 shop (two_products ∷ [])
promos_of-grouped_example = promos_of-grouped (λ _. []) 4 shop (two_products ∷ []) []
