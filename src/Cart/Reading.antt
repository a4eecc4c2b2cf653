-- ===== src/Cart/Reading.antt =====
-- `GetCart` and `GetCartTotal` of internal/usecase/cart.go and internal/db/cart.go.
use hozdacha.Base.{
  ℕ, ◌≡◌, ◌⊎◌, inl, inr, refl, ap, ◌∙◌, Bool, false, Option, none, some, List, [], ◌∷◌, ◌++◌, map,
  any, Result, ok, ◌>>=◌, ◌>>◌, ◌==◌, if◌then◌else◌, Bool-cases,
}
use hozdacha.Base.Int.{ℤ}
use hozdacha.Store.Rows.{Product, CartItem}
use hozdacha.Cart.{Shop, Query, CartError, keep, try_query}

pub record CartResponse : Type 0 where
  pub product_id : ℕ
  pub quantity : ℤ
  pub product : Option Product

unfoldable pub newest_first : List CartItem → List CartItem
newest_first [] = []
newest_first (it ∷ its) = newest_first its ++ (it ∷ [])

unfoldable pub get_by_user_id : Shop → ℕ → List CartItem → Result CartError (List CartItem)
unfolding newest_first keep
get_by_user_id shop user cart = do
  try_query shop Query.get_items
  ok (newest_first (keep (λ it. it.user_id == user) cart))

abbrev pub asked_for : List CartItem → ℕ → Bool
asked_for items id = any (λ it. it.product_id == id) items

-- `productMap`, by the query for all products of the cart; empty where it fails.
abbrev pub product_map : Shop → List CartItem → ℕ → Option Product
product_map shop items id =
    if shop.fault Query.get_products
    then none
    else if asked_for items id
    then shop.products id
    else none

abbrev pub response : CartItem → Option Product → CartResponse
response it p = record { product_id = it.product_id; quantity = it.quantity; product = p }

-- The query for one product, whose failure for an id is `fails`.
abbrev pub fall_back : Shop → (ℕ → Bool) → CartItem → List CartResponse → List CartResponse
fall_back shop fails it rest =
    if fails it.product_id then rest else response it (shop.products it.product_id) ∷ rest

abbrev pub respond :
    Shop → (ℕ → Bool) → Option Product → CartItem → List CartResponse → List CartResponse
respond shop fails none it rest = fall_back shop fails it rest
respond shop fails (some p) it rest = response it (some p) ∷ rest

unfoldable pub responses :
    Shop → (ℕ → Bool) → (ℕ → Option Product) → List CartItem → List CartResponse
responses shop fails found [] = []
responses shop fails found (it ∷ its) =
    respond shop fails (found it.product_id) it (responses shop fails found its)

unfoldable pub get_cart :
    Shop → (ℕ → Bool) → ℕ → List CartItem → Result CartError (List CartResponse)
unfolding get_by_user_id responses
get_cart shop fails user cart = do
  items ← get_by_user_id shop user cart
  ok (responses shop fails (product_map shop items) items)

unfoldable pub listed : Shop → List CartItem → List CartResponse
listed shop items = map (λ it. response it (shop.products it.product_id)) items

map_or_none :
    (shop : Shop) (items : List CartItem) (id : ℕ)
    → (product_map shop items id ≡ none) ⊎ (product_map shop items id ≡ shop.products id)
map_or_none shop items id = elim (Bool-cases (shop.fault Query.get_products)) [
  | inl e ↦ inl (rw e refl)
  | inr e ↦ elim (Bool-cases (asked_for items id)) [
    | inl a ↦ inr (rw (e, a) refl)
    | inr a ↦ inl (rw (e, a) refl)
  ]
]

module _ (shop : Shop) (fails : ℕ → Bool) (served : (id : ℕ) → fails id ≡ false) where
  fall_back_served :
      (it : CartItem) (rest : List CartResponse)
      → fall_back shop fails it rest ≡ response it (shop.products it.product_id) ∷ rest
  fall_back_served it rest = rw (served it.product_id) refl

  respond_some :
      (o : Option Product) (it : CartItem) (rest : List CartResponse)
      → o ≡ shop.products it.product_id
      → respond shop fails o it rest ≡ response it (shop.products it.product_id) ∷ rest
  respond_some none it rest h = fall_back_served it rest
  respond_some (some p) it rest h = ap (λ o. response it o ∷ rest) h

  responses-listed :
      (items its : List CartItem)
      → responses shop fails (product_map shop items) its ≡ listed shop its
  unfolding responses listed
  responses-listed items [] = refl
  responses-listed items (it ∷ its) = elim (map_or_none shop items it.product_id) [
    | inl e ↦
        ap (λ o. respond shop fails o it (responses shop fails (product_map shop items) its)) e
        ∙ fall_back_served it _
        ∙ ap (λ rest. response it (shop.products it.product_id) ∷ rest) (responses-listed items its)
    | inr e ↦
        respond_some _ it _ e
        ∙ ap (λ rest. response it (shop.products it.product_id) ∷ rest) (responses-listed items its)
  ]

-- Where the cart can be read and no query for one product fails, `GetCart` answers with each row of the
-- user and its product, the newest first; it makes no difference whether the query for all of them failed.
pub get_cart-listed :
    (shop : Shop) (fails : ℕ → Bool) (user : ℕ) (cart : List CartItem)
    → shop.fault Query.get_items ≡ false
    → ((id : ℕ) → fails id ≡ false)
    → get_cart shop fails user cart
      ≡ ok (listed shop (newest_first (keep (λ it. it.user_id == user) cart)))
unfolding get_cart get_by_user_id
get_cart-listed shop fails user cart reads served =
    rw
      (
        reads,
        responses-listed shop fails served (newest_first (keep (λ it. it.user_id == user) cart)),
      )
      refl
