-- ===== src/Catalog/Examples.antt =====
-- The theorems on pages of two rows.
use hozdacha.Base.{
  ℕ, ◌≡◌, refl, false, Bool, some, List, [], ◌∷◌, map, drop, take, ◌*◌, ◌==◌, if◌then◌else◌,
}
use hozdacha.Catalog.{Row, AvailableMap, restocked, shown, max_batches, get_catalog_products}
use hozdacha.Catalog.Paging.{get_catalog_products_lem}
use hozdacha.Catalog.Repeats.{pages_repeat}

abbrev row : ℕ → Row
row n = record { id = n; stock = 5 }

-- All that there is of the first product is reserved.
abbrev left : AvailableMap
left id = some (if id == 1 then 0 else 3)

abbrev calm : ℕ → Bool
calm offset = false

abbrev front : List Row
front = row 2 ∷ []

get_catalog_products_lem_example :
    get_catalog_products 0 left (row 1 ∷ row 2 ∷ row 3 ∷ []) calm 2 1
    ≡ some (shown 0 left 2 (take (max_batches * 2) (drop 1 (row 1 ∷ row 2 ∷ row 3 ∷ []))))
get_catalog_products_lem_example =
    get_catalog_products_lem 0 left (row 1 ∷ row 2 ∷ row 3 ∷ []) calm 2 (λ offset. refl) 1

pages_repeat_example :
    (get_catalog_products 0 left (row 1 ∷ row 2 ∷ row 3 ∷ row 4 ∷ []) calm 2 0
      ≡ some (map (restocked 0 left) (row 2 ∷ row 3 ∷ [])))
    × ((others : List Row) × (get_catalog_products 0 left
            (row 1 ∷ row 2 ∷ row 3 ∷ row 4 ∷ [])
            calm
            2
            2
          ≡ some (restocked 0 left (row 3) ∷ others)))
unfolding restocked
pages_repeat_example =
    pages_repeat 0 left calm (λ offset. refl) (row 1) (row 3) front (row 4 ∷ []) refl
      (refl, (refl, tt))
