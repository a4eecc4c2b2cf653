-- ===== src/Cart/Adding.antt =====
-- What the cart holds after `AddToCart` (internal/usecase/cart.go).
use hozdacha.Base.{
  ℕ, ◌≡◌, inl, inr, refl, sym, ap, ◌∙◌, Bool, true, false, not, ◌||◌, Option, none, some, List, [],
  ◌∷◌, ◌++◌, map, any, ok, Bool-cases, Option-cases, if◌then◌else◌, ==_self, some≢none, some_inj,
}
use hozdacha.Base.Int.{ℤ, pos, ◌+ℤ◌, ltb_ℤ, zero-add_ℤ}
use hozdacha.Store.Rows.{Product, CartItem}
use hozdacha.Cart.{
  Shop, Query, is_row, storable, find_item, update_quantity, create, add_to_cart, set_quantity,
  merge_or_create, get_by_user_id_and_product_id,
}

-- The quantity of a product in the cart of a user, 0 where there is none.
abbrev pub amount_of : Option CartItem → ℤ
amount_of none = pos 0
amount_of (some it) = it.quantity

abbrev pub amount : ℕ → ℕ → List CartItem → ℤ
amount user product cart = amount_of (find_item user product cart)

or-true : (b : Bool) → (b || true) ≡ true
or-true true = refl
or-true false = refl

abbrev with_quantity : CartItem → ℤ → CartItem
with_quantity it q = record it { quantity = q }

module _ (user product : ℕ) where
  find_here :
      (it : CartItem) (its : List CartItem)
      → is_row user product it ≡ true
      → find_item user product (it ∷ its) ≡ some it
  unfolding find_item
  find_here it its h = ap (λ b. if b then some it else find_item user product its) h

  find_later :
      (it : CartItem) (its : List CartItem)
      → is_row user product it ≡ false
      → find_item user product (it ∷ its) ≡ find_item user product its
  unfolding find_item
  find_later it its h = ap (λ b. if b then some it else find_item user product its) h

  find_none :
      (cart : List CartItem)
      → find_item user product cart ≡ none
      → any (is_row user product) cart ≡ false
  find_none [] h = refl
  find_none (it ∷ its) h = elim (Bool-cases (is_row user product it)) [
    | inl e ↦ absurd (some≢none (sym (find_here it its e) ∙ h))
    | inr e ↦ rw e (find_none its (sym (find_later it its e) ∙ h))
  ]

  find_added :
      (cart : List CartItem) (q : ℤ)
      → find_item user product cart ≡ none
      → find_item user product
          (cart ++ (record { user_id = user; product_id = product; quantity = q } ∷ []))
        ≡ some (record { user_id = user; product_id = product; quantity = q })
  find_added [] q h = find_here _ [] (rw (==_self user, ==_self product) refl)
  find_added (it ∷ its) q h = elim (Bool-cases (is_row user product it)) [
    | inl e ↦ absurd (some≢none (sym (find_here it its e) ∙ h))
    | inr e ↦ find_later it _ e ∙ find_added its q (sym (find_later it its e) ∙ h)
  ]

  find_set :
      (cart : List CartItem) (q : ℤ) (it : CartItem)
      → find_item user product cart ≡ some it
      → find_item user product (map (set_quantity user product q) cart) ≡ some (with_quantity it q)
  unfolding find_item
  find_set [] q it h = absurd (some≢none (sym h))
  find_set (x ∷ xs) q it h = elim (Bool-cases (is_row user product x)) [
    | inl e ↦
        ap
          (λ b.
            find_item user product
              ((if b then with_quantity x q else x) ∷ map (set_quantity user product q) xs))
          e
        ∙ find_here _ _ e
        ∙ ap (λ (y : CartItem). some (with_quantity y q)) (some_inj (sym (find_here x xs e) ∙ h))
    | inr e ↦
        ap
          (λ b.
            find_item user product
              ((if b then with_quantity x q else x) ∷ map (set_quantity user product q) xs))
          e
        ∙ find_later x _ e
        ∙ find_set xs q it (sym (find_later x xs e) ∙ h)
  ]

  find_same :
      (it : CartItem) (xs ys : List CartItem)
      → find_item user product xs ≡ find_item user product ys
      → find_item user product (it ∷ xs) ≡ find_item user product (it ∷ ys)
  unfolding find_item
  find_same it xs ys h = ap (λ r. if is_row user product it then some it else r) h

-- Another user, or another product.
abbrev pub Other : ℕ → ℕ → ℕ → ℕ → Type 0
Other user product u p = (it : CartItem) → is_row user product it ≡ true → is_row u p it ≡ false

module _ (user product u p : ℕ) (other : Other user product u p) where
  other_added :
      (cart : List CartItem) (new : CartItem)
      → is_row user product new ≡ true
      → find_item u p (cart ++ (new ∷ [])) ≡ find_item u p cart
  other_added [] new h = find_later u p new [] (other new h)
  other_added (it ∷ its) new h = elim (Bool-cases (is_row u p it)) [
    | inl e ↦ find_here u p it _ e ∙ sym (find_here u p it its e)
    | inr e ↦ find_later u p it _ e ∙ other_added its new h ∙ sym (find_later u p it its e)
  ]

  other_set :
      (cart : List CartItem) (q : ℤ)
      → find_item u p (map (set_quantity user product q) cart) ≡ find_item u p cart
  other_set [] q = refl
  other_set (x ∷ xs) q = elim (Bool-cases (is_row user product x)) [
    | inl e ↦
        ap
          (λ b.
            find_item u p
              ((if b then with_quantity x q else x) ∷ map (set_quantity user product q) xs))
          e
        ∙ find_later u p _ _ (other x e)
        ∙ other_set xs q
        ∙ sym (find_later u p x xs (other x e))
    | inr e ↦
        ap
          (λ b.
            find_item u p
              ((if b then with_quantity x q else x) ∷ map (set_quantity user product q) xs))
          e
        ∙ find_same u p x _ _ (other_set xs q)
  ]

served :
    (shop : Shop) (user product : ℕ) (q : ℤ) (cart : List CartItem) (p : Product)
    → ((query : Query) → shop.fault query ≡ false)
    → shop.products product ≡ some p
    → p.is_active ≡ true
    → ltb_ℤ (pos 0) p.stock ≡ true
    → add_to_cart shop user product q cart
      ≡ merge_or_create shop user product q cart (find_item user product cart)
unfolding add_to_cart get_by_user_id_and_product_id
served shop user product q cart p serves e sold stock =
    rw (serves Query.get_product, e, sold, stock, serves Query.get_item) refl

created :
    (shop : Shop) (it : CartItem) (cart : List CartItem)
    → ((query : Query) → shop.fault query ≡ false)
    → storable it.quantity ≡ true
    → any (is_row it.user_id it.product_id) cart ≡ false
    → create shop it cart ≡ ok (cart ++ (it ∷ []))
unfolding create
created shop it cart serves fits new = rw (serves Query.create_item, fits, new) refl

changed :
    (shop : Shop) (user product : ℕ) (q : ℤ) (cart : List CartItem)
    → ((query : Query) → shop.fault query ≡ false)
    → storable q ≡ true
    → update_quantity shop user product q cart ≡ ok (map (set_quantity user product q) cart)
unfolding update_quantity
changed shop user product q cart serves fits =
    rw (serves Query.update_quantity_of, fits, or-true (not (any (is_row user product) cart))) refl

-- Where no query fails, `AddToCart` of a product that exists, is active and in stock adds its
-- quantity to the cart if the sum can be stored, whether the cart had the product or not, and
-- leaves every other user and product as it was.
pub add_to_cart-adds :
    (shop : Shop) (user product : ℕ) (q : ℤ) (cart : List CartItem) (p : Product)
    → ((query : Query) → shop.fault query ≡ false)
    → shop.products product ≡ some p
    → p.is_active ≡ true
    → ltb_ℤ (pos 0) p.stock ≡ true
    → storable (amount user product cart +ℤ q) ≡ true
    → (cart' : List CartItem) × (add_to_cart shop user product q cart ≡ ok cart')
      × (amount user product cart' ≡ amount user product cart +ℤ q)
      × ((u p' : ℕ) → Other user product u p' → amount u p' cart' ≡ amount u p' cart)
add_to_cart-adds shop user product q cart p serves e sold stock fits =
    elim (Option-cases (find_item user product cart)) [
      | inl n ↦
          let new : CartItem = record { user_id = user; product_id = product; quantity = q } in
          let plus : amount user product cart +ℤ q ≡ q =
            ap (λ o. amount_of o +ℤ q) n ∙ zero-add_ℤ q in
          (
            cart ++ (new ∷ []),
            served shop user product q cart p serves e sold stock
                ∙ ap (merge_or_create shop user product q cart) n
                ∙ created shop new cart serves (ap storable (sym plus) ∙ fits)
                    (find_none user product cart n),
            ap amount_of (find_added user product cart q n) ∙ sym plus,
            λ u p' other. ap amount_of (
                other_added user product u p' other cart new
                  (rw (==_self user, ==_self product) refl)),
          )
      | inr (it, s) ↦
          let plus : amount user product cart +ℤ q ≡ it.quantity +ℤ q =
            ap (λ o. amount_of o +ℤ q) s in
          (
            map (set_quantity user product (it.quantity +ℤ q)) cart,
            served shop user product q cart p serves e sold stock
                ∙ ap (merge_or_create shop user product q cart) s
                ∙ changed shop user product _ cart serves (ap storable (sym plus) ∙ fits),
            ap amount_of (find_set user product cart (it.quantity +ℤ q) it s) ∙ sym plus,
            λ u p' other. ap amount_of (other_set user product u p' other cart (it.quantity +ℤ q)),
          )
    ]
