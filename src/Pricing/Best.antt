-- ===== src/Pricing/Best.antt =====
-- Which promotion a product gets, and what it then costs.
use hozdacha.Base.{
  ℕ, ◌+◌, ◌-◌, ◌*◌, ◌≤◌, ◌≡◌, ◌⊎◌, inl, inr, refl, sym, ap, true, false, Option, none, some, List,
  [], ◌∷◌, All, All-map, min, ◌∙◌, subst, some≢none, Bool-cases, arith,
}
use hozdacha.Base.Int.{ℤ, pos_part, ◌≤ℤ◌}
use hozdacha.Window.{Promotion}
use hozdacha.Pricing.{
  Priced, PromotionType, by_product, by_category, full, is_positive, discounted, set_effective,
  usable, better, best_of, chain_or_self, apply_best, apply_category, apply_levels,
  apply_to_product,
}

scaled_le : (price k : ℕ) → k ≤ full → price * k ≤ price * full
scaled_le price k h = grind arith

discounted_le : (price d : ℕ) → discounted price d ≤ price
unfolding discounted
discounted_le price d = omega (arith, scaled_le price (full - d) (omega arith))

-- Whatever the discount of the promotion, setting it gives a price that is not above the base price
-- and is the exact discounted price to the nearest kopeck (halves upwards), with the discount cut at
-- 100 %; and it leaves the product as it was if the discount is not positive.
pub set_effective_lem :
    (prod : Priced) (promo : Promotion) (ptype : PromotionType)
    → let d = min (pos_part promo.discount) full in
      let exact = prod.price * (full - d) in
      ((is_positive promo.discount ≡ false) × (set_effective prod promo ptype ≡ prod))
      ⊎ ((e : ℕ) × ((set_effective prod promo ptype).effective_price ≡ some e)
          × ((set_effective prod promo ptype).discount_percent ≡ some d)
          × ((set_effective prod promo ptype).promotion_type ≡ ptype)
          × (e ≤ prod.price)
          × (2 * exact ≤ 2 * full * e + full)
          × (2 * full * e ≤ 2 * exact + full))
unfolding set_effective
set_effective_lem prod promo ptype = elim (Bool-cases (is_positive promo.discount)) [
  | inr e ↦ inl (e, rw e)
  | inl e ↦
      let d = min (pos_part promo.discount) full in
      rw e (
        inr (
          discounted prod.price d,
          refl,
          refl,
          refl,
          discounted_le prod.price d,
          unfold discounted in omega arith,
          unfold discounted in omega arith,
        ))
]

-- The promotion `r` is at least as good as `p`; `none` is the worst.
abbrev pub Covers : Option Promotion → Option Promotion → Type 0
Covers none r = Unit {0}
Covers (some p) none = ⊥
Covers (some p) (some r) = p.discount ≤ℤ r.discount

pub Covers-refl : (p : Option Promotion) → Covers p p
Covers-refl none = tt
Covers-refl (some p) = omega arith

pub Covers-trans : (p q r : Option Promotion) → Covers p q → Covers q r → Covers p r
Covers-trans none q r h k = tt
Covers-trans (some p) none r h k = absurd h
Covers-trans (some p) (some q) none h k = absurd k
Covers-trans (some p) (some q) (some r) h k = omega (arith, h, k)

better-Covers : (best u : Option Promotion) → Covers best (better best u) × Covers u (better best u)
better-Covers best none = (Covers-refl best, tt)
better-Covers none (some p) = (tt, omega arith)
better-Covers (some b) (some p) = ground arith

better_source : (best u : Option Promotion) → (better best u ≡ best) ⊎ (better best u ≡ u)
better_source best none = inl refl
better_source none (some p) = inr refl
better_source (some b) (some p) = ground arith

-- Some category of the chain offers this promotion.
abbrev pub Offers : (ℕ → Option Promotion) → Option Promotion → List ℕ → Type 0
Offers promos r [] = ⊥
Offers promos r (c ∷ cs) = (r ≡ usable (promos c)) ⊎ Offers promos r cs

best_of_lem :
    (promos : ℕ → Option Promotion) (best : Option Promotion) (chain : List ℕ)
    → let r = best_of promos best chain in
      Covers best r
      × All (λ c. Covers (usable (promos c)) r) chain
      × ((r ≡ best) ⊎ Offers promos r chain)
unfolding best_of
best_of_lem promos best [] = (Covers-refl best, tt, inl refl)
best_of_lem promos best (c ∷ cs) =
    let u = usable (promos c) in
    let next = better best u in
    let r = best_of promos next cs in
    let (cover, all, source) = best_of_lem promos next cs in
    let (old, new) = better-Covers best u in
    (
      Covers-trans best next r old cover,
      (Covers-trans u next r new cover, all),
      elim source [
        | inr o ↦ inr (inr o)
        | inl e ↦ elim (better_source best u) [ inl b ↦ inl (e ∙ b) | inr b ↦ inr (inl (e ∙ b)) ]
      ],
    )

-- The promotion chosen for a chain of categories is none exactly when no category of the chain has a
-- promotion with a positive discount; otherwise a category of the chain offers it, and no category
-- of the chain offers a larger discount.
pub best_of_chain :
    (promos : ℕ → Option Promotion) (chain : List ℕ)
    → let r = best_of promos none chain in
      All (λ c. Covers (usable (promos c)) r) chain × ((r ≡ none) ⊎ Offers promos r chain)
best_of_chain promos chain = let (_, all, source) = best_of_lem promos none chain in (all, source)

usable_positive :
    (p : Option Promotion) (b : Promotion) → usable p ≡ some b → is_positive b.discount ≡ true
usable_positive none b h = absurd (some≢none (sym h))
usable_positive (some p) b h = ground arith

Offers-is_positive :
    (promos : ℕ → Option Promotion) (b : Promotion) (chain : List ℕ)
    → Offers promos (some b) chain
    → is_positive b.discount ≡ true
Offers-is_positive promos b [] o = absurd o
Offers-is_positive promos b (c ∷ cs) (inl e) = usable_positive (promos c) b (sym e)
Offers-is_positive promos b (c ∷ cs) (inr o) = Offers-is_positive promos b cs o

set_effective-discount :
    (prod : Priced) (b : Promotion) (ptype : PromotionType)
    → is_positive b.discount ≡ true
    → (set_effective prod b ptype).discount_percent ≡ some (min (pos_part b.discount) full)
unfolding set_effective
set_effective-discount prod b ptype h = rw h

min_mono : (p b : ℤ) → p ≤ℤ b → min (pos_part p) full ≤ min (pos_part b) full
min_mono p b h = ground arith

-- What a product is given for a category's promotion.
abbrev pub Gets : Priced → Promotion → Type 0
Gets prod p = (d : ℕ) × (prod.discount_percent ≡ some d) × (min (pos_part p.discount) full ≤ d)

best-Gets :
    (prod : Priced) (r : Option Promotion) (p : Promotion)
    → Covers (some p) r
    → ((b : Promotion) → r ≡ some b → is_positive b.discount ≡ true)
    → Gets (apply_best prod by_category r) p
best-Gets prod none p h k = absurd h
best-Gets prod (some b) p h k = (
  min (pos_part b.discount) full,
  set_effective-discount prod b by_category (k b refl),
  min_mono p.discount b.discount h,
)

category_level :
    (prod : Priced) (products categories : ℕ → Option Promotion) (ancestors : ℕ → List ℕ) (cid : ℕ)
    → usable (products prod.id) ≡ none
    → prod.category_id ≡ some cid
    → apply_to_product prod products categories ancestors
      ≡ apply_best prod by_category (best_of categories none (chain_or_self cid (ancestors cid)))
unfolding apply_to_product
category_level prod products categories ancestors cid e c =
    ap (λ u. apply_levels prod u categories ancestors) e
    ∙ ap (apply_category prod categories ancestors) c

-- A product that has no promotion of its own gets at least the discount of the promotion that the map of the
-- categories holds for its category, and of those that it holds for the categories above it (a discount counts
-- for 100 % at most). The map holds one promotion for a category.
pub category-Gets :
    (prod : Priced) (products categories : ℕ → Option Promotion) (ancestors : ℕ → List ℕ) (cid : ℕ)
    → usable (products prod.id) ≡ none
    → prod.category_id ≡ some cid
    → All
        (λ c.
          (p : Promotion)
          → usable (categories c) ≡ some p
          → Gets (apply_to_product prod products categories ancestors) p)
        (chain_or_self cid (ancestors cid))
category-Gets prod products categories ancestors cid e c =
    let chain = chain_or_self cid (ancestors cid) in
    let r = best_of categories none chain in
    let (all, source) = best_of_chain categories chain in
    rw (category_level prod products categories ancestors cid e c) (
      All-map _ _
        (λ k h p u. best-Gets prod r p (subst (λ x. Covers x r) u h) (λ b q. elim source [
          | inl none_found ↦ absurd (some≢none (sym q ∙ none_found))
          | inr o ↦
              Offers-is_positive categories b chain (subst (λ x. Offers categories x chain) q o)
        ]))
        chain all)

-- A promotion of the product itself goes before those of its categories.
pub product_first :
    (prod : Priced) (products categories : ℕ → Option Promotion) (ancestors : ℕ → List ℕ)
    (p : Promotion)
    → usable (products prod.id) ≡ some p
    → apply_to_product prod products categories ancestors ≡ set_effective prod p by_product
unfolding apply_to_product
product_first prod products categories ancestors p e =
    ap (λ u. apply_levels prod u categories ancestors) e
