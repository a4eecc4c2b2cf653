-- ===== src/Pricing/Masks.antt =====
-- A promotion that does not apply hides the others of its product (internal/usecase/promotion_pricing.go): the query
-- keeps one promotion for each product, and the reservation window is looked at afterwards.
use hozdacha.Base.{
  ℕ, ◌≡◌, inl, inr, sym, ap, subst, ◌∙◌, true, ◌&&◌, Option, none, some, List, [], ◌∷◌, ◌++◌, All,
  ok, Bool-cases, Option-cases, both_true, if-cases, ◌==◌, ==_iff, some_inj, some≢none,
  if◌then◌else◌, arith,
}
use hozdacha.Base.Int.{ltb_ℤ, ◌≤ℤ◌}
use hozdacha.Window.{Promotion, promotion_applies_for_reservation}
use hozdacha.Pricing.{Priced, usable, apply_levels, apply_to_product}
use hozdacha.Pricing.Ancestors.{lookup_chain}
use hozdacha.Pricing.Best.{Covers}
use hozdacha.Pricing.Pricer.{
  Pricer, Tables, Links, selected, improves, put_best, best_rows, best_active, keep_applicable,
  filter_promotions_map, get_ancestor_map, expanded_ids, category_ids, apply, apply_each,
}
use hozdacha.Pricing.Rows.{best_active-Covers}

All-middle :
    (P : ℕ × Promotion → Type 0) (front back : Links) (r : ℕ × Promotion)
    → All P (front ++ (r ∷ back))
    → P r
All-middle P [] back r (h, hs) = h
All-middle P (x ∷ front) back r (h, hs) = All-middle P front back r hs

module _ (ids : List ℕ) (now k : ℕ) (Good : Promotion → Type 0) where
  abbrev Sound : (ℕ → Option Promotion) → Type 0
  Sound best = (b : Promotion) → best k ≡ some b → Good b

  abbrev GoodRow : ℕ × Promotion → Type 0
  GoodRow r = selected ids now r ≡ true → r.0 ≡ k → Good r.1

  put_best-Sound :
      (best : ℕ → Option Promotion) (r : ℕ × Promotion)
      → (r.0 ≡ k → Good r.1)
      → Sound best
      → Sound (put_best best r)
  put_best-Sound best (fk, p) good sound b h = elim (Bool-cases (fk == k && improves p (best fk))) [
    | inl e ↦
        let (same, _) = both_true (fk == k) (improves p (best fk)) e in
        subst Good (some_inj (sym (ap (λ c. if c then some p else best k) e) ∙ h))
          (good ((==_iff fk k).0 same))
    | inr e ↦ sound b (sym (ap (λ c. if c then some p else best k) e) ∙ h)
  ]

  -- What the query keeps for an id comes from a selected row of that id.
  best_rows-Sound :
      (best : ℕ → Option Promotion) (rows : Links)
      → Sound best
      → All GoodRow rows
      → Sound (best_rows ids now best rows)
  unfolding best_rows
  best_rows-Sound best [] sound good = sound
  best_rows-Sound best (r ∷ rows) sound (here, good) =
      best_rows-Sound (if selected ids now r then put_best best r else best) rows
        (if-cases Sound (selected ids now r) (put_best best r) best
          (λ e. put_best-Sound best r (here e) sound) (λ _. sound))
        good

abbrev Lesser : ℕ → ℕ → Promotion → Promotion → Type 0
Lesser zone now top b =
    promotion_applies_for_reservation zone (some b) now ≡ true
    → ltb_ℤ b.discount top.discount ≡ true

-- A row of the product that is selected and applies has a smaller discount than the promotion.
abbrev pub Beaten : ℕ → ℕ → ℕ → Promotion → ℕ × Promotion → Type 0
Beaten zone now id top r =
    selected (id ∷ []) now r ≡ true
    → r.0 ≡ id
    → promotion_applies_for_reservation zone (some r.1) now ≡ true
    → ltb_ℤ (r.1.discount) top.discount ≡ true

not_both :
    (b top : Promotion) → top.discount ≤ℤ b.discount → ¬ (ltb_ℤ b.discount top.discount ≡ true)
not_both b top h k = ground arith

hidden :
    (zone now id : ℕ) (top : Promotion) (front back : Links)
    → selected (id ∷ []) now (id, top) ≡ true
    → All (Beaten zone now id top) (front ++ ((id, top) ∷ back))
    → filter_promotions_map zone
        (best_active (id ∷ []) now (ok (front ++ ((id, top) ∷ back))))
        now
        id
      ≡ none
unfolding filter_promotions_map best_active promotion_applies_for_reservation
hidden zone now id top front back sel beaten =
    let rows = front ++ ((id, top) ∷ back) in
    let ids = id ∷ [] in
    elim (Option-cases (best_active ids now (ok rows) id)) [
      | inl e ↦ ap (keep_applicable zone now) e
      | inr (b, e) ↦
          let covers =
            subst (Covers (some top)) e
              (All-middle _ front back (id, top) (best_active-Covers ids now rows) sel) in
          let good =
            best_rows-Sound ids now id (Lesser zone now top) (λ _. none) rows
              (λ b' q. absurd (some≢none (sym q))) beaten b e in
          elim (Bool-cases (promotion_applies_for_reservation zone (some b) now)) [
            | inl a ↦ absurd (not_both b top covers (good a))
            | inr a ↦ ap (keep_applicable zone now) e ∙ ap (λ c. if c then some b else none) a
          ]
    ]

-- A product stands by itself on a page. One of its rows holds a promotion that the query selects and with a discount
-- above that of every other selected promotion of the product that applies in the reservation window, and that does not
-- apply itself. Then the product is priced as if no promotion were linked to it, although the others apply.
pub lapsed_masks :
    (zone : ℕ) (pricer : Pricer) (db : Tables) (now : ℕ) (prod : Priced) (top : Promotion)
    (front back : Links)
    → db.product_links ≡ ok (front ++ ((prod.id, top) ∷ back))
    → selected (prod.id ∷ []) now (prod.id, top) ≡ true
    → All (Beaten zone now prod.id top) (front ++ ((prod.id, top) ∷ back))
    → (apply zone pricer db now (some prod ∷ [])).0
      ≡ (apply zone pricer (record db { product_links = ok [] }) now (some prod ∷ [])).0
unfolding apply apply_each apply_to_product filter_promotions_map best_active best_rows
    promotion_applies_for_reservation
lapsed_masks zone pricer db now prod top front back e sel beaten =
    let (m, _) = get_ancestor_map pricer db.categories now in
    let by_cat =
      filter_promotions_map zone
        (best_active (expanded_ids m (category_ids (some prod ∷ []))) now db.category_links) now in
    let lost =
      ap (λ l. filter_promotions_map zone (best_active (prod.id ∷ []) now l) now prod.id) e
      ∙ hidden zone now prod.id top front back sel beaten in
    ap (λ u. some (apply_levels prod (usable u) by_cat (lookup_chain m)) ∷ []) lost
