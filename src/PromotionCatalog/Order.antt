-- ===== src/PromotionCatalog/Order.antt =====
-- The orders of the promotion catalogue and `sort.SliceStable` (internal/usecase/promotion_catalog.go).
-- Names are compared by code points, which is the order of their UTF-8 bytes.
use mathlib.Core.List.{Perm}
use mathlib.Core.List.Perm
use hozdacha.Base.{
  ℕ, Bool, true, false, Option, none, some, List, [], ◌∷◌, ltb, ◌==◌, if◌then◌else◌, inl, inr,
  Bool-cases,
}
use hozdacha.Store.Rows.{Text}
use hozdacha.Pricing.{Priced}

unfoldable pub text_before : Text → Text → Bool
text_before s [] = false
text_before [] (b ∷ t) = true
text_before (a ∷ s) (b ∷ t) =
    let rest = text_before s t in if ltb a b then true else if a == b then rest else false

abbrev percent : Option ℕ → ℕ
percent none = 0
percent (some d) = d

unfoldable pub discount_of : Priced → ℕ
discount_of p = percent p.discount_percent

-- The larger discount first, and the names of equal ones in their order.
unfoldable pub product_before : Priced → Priced → Bool
unfolding text_before discount_of
product_before p q =
    if discount_of p == discount_of q
    then text_before (p.product.name) (q.product.name)
    else ltb (discount_of q) (discount_of p)

module _ {ℓ} {A : Type ℓ} (before : A → A → Bool) where
  -- Before the first that does not have to precede it.
  unfoldable pub place : A → List A → List A
  place x [] = x ∷ []
  place x (y ∷ ys) = let rest = place x ys in if before y x then y ∷ rest else x ∷ y ∷ ys

  -- `sort.SliceStable`: elements that no order parts stay in their order.
  unfoldable pub sort_stable : List A → List A
  unfolding place
  sort_stable [] = []
  sort_stable (x ∷ xs) = place x (sort_stable xs)

  pub place-Perm : (x : A) (xs : List A) → Perm (place x xs) (x ∷ xs)
  unfolding place
  place-Perm x [] = Perm.rfl
  place-Perm x (y ∷ ys) = elim (Bool-cases (before y x)) [
    | inl e ↦ rw e (Perm.trans (Perm.cons y (place-Perm x ys)) (Perm.swap x y ys))
    | inr e ↦ rw e Perm.rfl
  ]

  pub sort_stable-Perm : (xs : List A) → Perm (sort_stable xs) xs
  unfolding sort_stable
  sort_stable-Perm [] = Perm.rfl
  sort_stable-Perm (x ∷ xs) =
      Perm.trans (place-Perm x (sort_stable xs)) (Perm.cons x (sort_stable-Perm xs))
