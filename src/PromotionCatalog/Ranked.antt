-- ===== src/PromotionCatalog/Ranked.antt =====
-- What the catalogue lists: cheaper products only, the larger discounts first.
use mathlib.Core.Bool.{false≢true}
use hozdacha.Base.{
  ℕ, zero, suc, ◌<◌, ◌≤◌, ◌≡◌, refl, sym, ap, subst, ◌∙◌, arith, inl, inr, Bool, true, false,
  Option, none, some, List, [], ◌∷◌, take, drop, length, Bool-cases, ltb→lt, ok, err, >>=-eq-ok,
  ok-injective, length-take, All, ◌||◌,
}
use hozdacha.Store.Rows.{Text}
use hozdacha.Pricing.{Priced}
use hozdacha.Users.Texts.{text_eq, trim_space}
use hozdacha.Window.{Promotion, Target, filter_promotions_for_reservation, reservation_target}
use hozdacha.PromotionCatalog.{
  ranked, slice, filter_products_with_promotion, filter_by_promotion_kind, of_kind, normal_kind,
  has_kind, all_kinds, is_cheaper, Sources, Listing, Answer, of_candidates, of_promotions,
  list_products, listing_if, resolve_candidate_ids,
}
use hozdacha.PromotionCatalog.Order.{discount_of, product_before, place, sort_stable}
use hozdacha.PromotionCatalog.Pages.{slice_lem}

-- The promotion makes the product cheaper.
abbrev pub Cheaper : Priced → Type 0
Cheaper p = (cost : ℕ) × (p.effective_price ≡ some cost) × (cost < p.price)

abbrev pub NoMore : Priced → Priced → Type 0
NoMore p q = discount_of q ≤ discount_of p

-- No product has a larger discount than one before it.
abbrev pub Descending : List Priced → Type 0
Descending [] = Unit {0}
Descending (p ∷ ps) = All (NoMore p) ps × Descending ps

before-NoMore : (p q : Priced) → product_before p q ≡ true → NoMore p q
unfolding product_before
before-NoMore p q h = ground arith

not_before-NoMore : (p q : Priced) → product_before p q ≡ false → NoMore q p
unfolding product_before
not_before-NoMore p q h = ground arith

module _ {ℓ κ} {A : Type ℓ} (P : A → Type κ) where
  place-All :
      (before : A → A → Bool) (x : A) (xs : List A) → P x → All P xs → All P (place before x xs)
  unfolding place
  place-All before x [] h hs = (h, hs)
  place-All before x (y ∷ ys) h (k, hs) = elim (Bool-cases (before y x)) [
    | inl e ↦ rw e (k, place-All before x ys h hs)
    | inr e ↦ rw e (h, (k, hs))
  ]

  sort-All : (before : A → A → Bool) (xs : List A) → All P xs → All P (sort_stable before xs)
  unfolding sort_stable
  sort-All before [] hs = hs
  sort-All before (x ∷ xs) (h, hs) =
      place-All before x (sort_stable before xs) h (sort-All before xs hs)

  take-All : (n : ℕ) (xs : List A) → All P xs → All P (take n xs)
  take-All zero xs hs = tt
  take-All (suc n) [] hs = tt
  take-All (suc n) (x ∷ xs) (h, hs) = (h, take-All n xs hs)

  drop-All : (n : ℕ) (xs : List A) → All P xs → All P (drop n xs)
  drop-All zero xs hs = hs
  drop-All (suc n) [] hs = tt
  drop-All (suc n) (x ∷ xs) (h, hs) = drop-All n xs hs

NoMore-trans :
    (p q : Priced) (ps : List Priced) → NoMore p q → All (NoMore q) ps → All (NoMore p) ps
NoMore-trans p q [] h hs = tt
NoMore-trans p q (r ∷ ps) h (k, hs) = (omega arith, NoMore-trans p q ps h hs)

place-Descending :
    (p : Priced) (ps : List Priced) → Descending ps → Descending (place product_before p ps)
unfolding place
place-Descending p [] d = (tt, tt)
place-Descending p (q ∷ qs) (first, d) = elim (Bool-cases (product_before q p)) [
  | inl e ↦ rw e (
    place-All (NoMore q) product_before p qs (before-NoMore q p e) first,
    place-Descending p qs d,
  )
  | inr e ↦
      let more = not_before-NoMore q p e in
      rw e ((more, NoMore-trans p q qs more first), (first, d))
]

sort-Descending : (ps : List Priced) → Descending (sort_stable product_before ps)
unfolding sort_stable
sort-Descending [] = tt
sort-Descending (p ∷ ps) = place-Descending p (sort_stable product_before ps) (sort-Descending ps)

take-Descending : (n : ℕ) (ps : List Priced) → Descending ps → Descending (take n ps)
take-Descending zero ps d = tt
take-Descending (suc n) [] d = tt
take-Descending (suc n) (p ∷ ps) (first, d) =
    (take-All (NoMore p) n ps first, take-Descending n ps d)

drop-Descending : (n : ℕ) (ps : List Priced) → Descending ps → Descending (drop n ps)
drop-Descending zero ps d = d
drop-Descending (suc n) [] d = tt
drop-Descending (suc n) (p ∷ ps) (first, d) = drop-Descending n ps d

Cheaper-first :
    (p : Priced) (o : Option ℕ) → p.effective_price ≡ o → is_cheaper o p.price ≡ true → Cheaper p
Cheaper-first p none e h = absurd (false≢true h)
Cheaper-first p (some cost) e h = (cost, e, ltb→lt cost p.price h)

filter-Cheaper : (all : List (Option Priced)) → All Cheaper (filter_products_with_promotion all)
unfolding filter_products_with_promotion
filter-Cheaper [] = tt
filter-Cheaper (none ∷ ps) = filter-Cheaper ps
filter-Cheaper (some p ∷ ps) = elim (Bool-cases (is_cheaper p.effective_price p.price)) [
  | inl e ↦ rw e (Cheaper-first p p.effective_price refl e, filter-Cheaper ps)
  | inr e ↦ rw e (filter-Cheaper ps)
]

kind-All :
    (P : Priced → Type 0) (kind : Text) (ps : List Priced) → All P ps → All P (of_kind kind ps)
unfolding of_kind
kind-All P kind [] hs = tt
kind-All P kind (p ∷ ps) (h, hs) = elim (Bool-cases (has_kind kind p.promotion_type)) [
  | inl e ↦ rw e (h, kind-All P kind ps hs)
  | inr e ↦ rw e (kind-All P kind ps hs)
]

by_kind-All :
    (P : Priced → Type 0) (ps : List Priced) (kind : Text)
    → All P ps
    → All P (filter_by_promotion_kind ps kind)
unfolding filter_by_promotion_kind
by_kind-All P ps kind hs =
    elim (Bool-cases (text_eq (normal_kind kind) [] || text_eq (normal_kind kind) all_kinds)) [
      | inl e ↦ rw e hs
      | inr e ↦ rw e (kind-All P (normal_kind kind) ps hs)
    ]

-- What a page shows: no more than its limit, cheaper products only, the larger discounts first.
pub Shown : ℕ → List Priced → Type 0
Shown limit ps = Descending ps × (All Cheaper ps × (length ps ≤ limit))

slice-Shown :
    (kind : Text) (limit offset : ℕ) (all : List (Option Priced))
    → Shown limit (slice limit offset (ranked kind all))
unfolding ranked Shown
slice-Shown kind limit offset all =
    let kept = filter_by_promotion_kind (filter_products_with_promotion all) kind in
    let cheap =
      by_kind-All Cheaper (filter_products_with_promotion all) kind (filter-Cheaper all) in
    let sorted = sort_stable product_before kept in
    let later = drop offset sorted in
    subst (Shown limit) (sym (slice_lem limit offset sorted)) (
      take-Descending limit later (drop-Descending offset sorted (sort-Descending kept)),
      (
        take-All Cheaper limit later
            (drop-All Cheaper offset sorted (sort-All Cheaper product_before kept cheap)),
        omega (arith, length-take limit later),
      ),
    )

nothing-Shown : (limit : ℕ) (ps : List Priced) → ps ≡ [] → Shown limit ps
unfolding Shown
nothing-Shown limit [] e = (tt, (tt, omega arith))
nothing-Shown limit (p ∷ ps) e = cc

module _ (zone : ℕ) (src : Sources) (search : Text) (category : Option ℕ) (kind : Text)
    (limit offset : ℕ) (r : Listing) where
  candidates-Shown :
      (res : Listing) (ids : List ℕ)
      → res.products ≡ []
      → of_candidates zone src search category kind limit offset res ids ≡ ok r
      → Shown limit r.products
  candidates-Shown res [] e h =
      nothing-Shown limit r.products (ap (λ w. w.products) (sym (ok-injective h)) ∙ e)
  candidates-Shown res (id ∷ ids) e h =
      let (filtered, found, loading) =
        >>=-eq-ok (src.filter_promotional_ids (id ∷ ids) (trim_space search) category) _ h in
      let (all, loaded, page) = >>=-eq-ok (src.get_products_by_ids filtered) _ loading in
      subst (λ w. Shown limit w.products) (ok-injective page) (slice-Shown kind limit offset all)

  promotions-Shown :
      (target : Target) (promotions : List (Option Promotion))
      → of_promotions zone src search category kind limit offset target promotions ≡ ok r
      → Shown limit r.products
  promotions-Shown target [] h =
      nothing-Shown limit r.products (ap (λ w. w.products) (sym (ok-injective h)))
  promotions-Shown target (p ∷ ps) h =
      let (ids, resolved, listed) = >>=-eq-ok (resolve_candidate_ids src (p ∷ ps)) _ h in
      candidates-Shown _ ids refl listed

  complete-Shown :
      (now : ℕ) (complete : Bool) (active : Answer (List (Option Promotion)))
      → listing_if zone src search category kind limit offset now complete active ≡ ok r
      → Shown limit r.products
  complete-Shown now true (ok ps) h =
      promotions-Shown (reservation_target zone now) (filter_promotions_for_reservation zone ps now)
        h
  complete-Shown now true (err _) h = cc
  complete-Shown now false active h =
      nothing-Shown limit r.products (ap (λ w. w.products) (sym (ok-injective h)))

  -- Whatever the queries answer, a page that is given has at most as many products as its limit, each with a
  -- price below its own, and none has a larger discount than one before it.
  pub list_products-Shown :
      (now : ℕ)
      → list_products zone src search category kind limit offset now ≡ ok r
      → Shown limit r.products
  unfolding list_products
  list_products-Shown now h = complete-Shown now src.is_complete src.active h
