-- ===== src/Cart/Examples.antt =====
-- The theorems on the cart at a cart of one product.
use hozdacha.Base.{ℕ, ◌≡◌, refl, true, false, none, some, List, [], ◌∷◌, ok, ◌==◌, if◌then◌else◌}
use hozdacha.Base.Int.{pos, ◌+ℤ◌}
use hozdacha.Store.Rows.{Product, ProductStatus, CartItem}
use hozdacha.Cart.{Shop, add_to_cart, find_item}
use hozdacha.Cart.Adding.{Other, amount, add_to_cart-adds}

abbrev tea : Product
tea = record {
  id = 1;
  name = [];
  price = 10_000;
  moysklad_id = none;
  category_id = none;
  stock = pos 4;
  is_active = true;
  status = ProductStatus.active;
}

abbrev shop : Shop
shop = record { products = λ k. if k == 1 then some tea else none; fault = λ _. false }

abbrev cart : List CartItem
cart = record { user_id = 7; product_id = 1; quantity = pos 2 } ∷ []

add_to_cart-adds_example :
    (cart' : List CartItem) × (add_to_cart shop 7 1 (pos 3) cart ≡ ok cart')
    × (amount 7 1 cart' ≡ amount 7 1 cart +ℤ pos 3)
    × ((u p' : ℕ) → Other 7 1 u p' → amount u p' cart' ≡ amount u p' cart)
unfolding find_item ◌+ℤ◌
add_to_cart-adds_example =
    add_to_cart-adds shop 7 1 (pos 3) cart tea (λ q. refl) refl refl refl refl
