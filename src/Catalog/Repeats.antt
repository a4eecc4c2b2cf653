-- ===== src/Catalog/Repeats.antt =====
-- Two pages, one after the other (internal/usecase/product.go, internal/handlers/products.go).
use hozdacha.Base.{
  ℕ, zero, suc, ◌+◌, ◌-◌, ◌*◌, ◌≡◌, refl, ap, ◌∙◌, arith, Bool, true, false, some, List, [], ◌∷◌,
  ◌++◌, map, length, length-append, take, drop, All, ltb,
}
use hozdacha.Catalog.{Row, AvailableMap, restocked, shown, max_batches, get_catalog_products}
use hozdacha.Catalog.Paging.{take_plus, get_catalog_products_lem}

take_front : (front back : List Row) → take (length front) (front ++ back) ≡ front
take_front [] back = refl
take_front (p ∷ front) back = ap (λ ps. p ∷ ps) (take_front front back)

append_assoc : (xs ys zs : List Row) → (xs ++ ys) ++ zs ≡ xs ++ (ys ++ zs)
append_assoc [] ys zs = refl
append_assoc (x ∷ xs) ys zs = ap (λ ps. x ∷ ps) (append_assoc xs ys zs)

drop_front : (front back : List Row) → drop (length front) (front ++ back) ≡ back
drop_front [] back = refl
drop_front (p ∷ front) back = drop_front front back

module _ (buffer : ℕ) (left : AvailableMap) where
  abbrev pub Visible : Row → Type 0
  Visible p = ltb 0 ((restocked buffer left p).stock) ≡ true

  shown-All :
      (ps more : List Row)
      → All Visible ps
      → shown buffer left (length ps) (ps ++ more) ≡ map (restocked buffer left) ps
  unfolding shown
  shown-All [] more seen = refl
  shown-All (p ∷ ps) more (here, seen) =
      rw here (ap (λ qs. restocked buffer left p ∷ qs) (shown-All ps more seen))

  hidden_first :
      (room : ℕ) (p : Row) (ps : List Row)
      → ltb 0 ((restocked buffer left p).stock) ≡ false
      → shown buffer left room (p ∷ ps) ≡ shown buffer left room ps
  unfolding shown
  hidden_first zero p ps unseen = refl
  hidden_first (suc room) p ps unseen = rw unseen

  Visible-first :
      (room : ℕ) (p : Row) (ps : List Row)
      → Visible p
      → shown buffer left (suc room) (p ∷ ps) ≡ restocked buffer left p ∷ shown buffer left room ps
  unfolding shown
  Visible-first room p ps seen = rw seen

  last_seen : (front : List Row) (b : Row) → All Visible (front ++ (b ∷ [])) → Visible b
  last_seen [] b (seen, _) = seen
  last_seen (p ∷ front) b (_, seen) = last_seen front b seen

  module _ (fails : ℕ → Bool) (quiet : (offset : ℕ) → fails offset ≡ false) where
    -- No query fails, and a row with nothing left stands before as many rows as a page has: then the page shows these,
    -- and the next page, which starts as many rows further on as the first has shown, shows the last of them again.
    pub pages_repeat :
        (hidden b : Row) (front back : List Row)
        → ltb 0 ((restocked buffer left hidden).stock) ≡ false
        → All Visible (front ++ (b ∷ []))
        → let page = front ++ (b ∷ []) in
          let limit = length page in
          let rows = hidden ∷ page ++ back in
          (get_catalog_products buffer left rows fails limit 0
            ≡ some (map (restocked buffer left) page))
          × ((others : List Row) × (get_catalog_products buffer left rows fails limit limit
                ≡ some (restocked buffer left b ∷ others)))
    unfolding shown
    pages_repeat hidden b front back unseen seen =
        let page = front ++ (b ∷ []) in
        let limit = length page in
        let rows = hidden ∷ page ++ back in
        let n : limit ≡ suc (length front) = length-append front (b ∷ []) ∙ omega arith in
        let k = max_batches * limit - suc limit in
        let enough : max_batches * limit ≡ suc limit + k = omega arith in
        let first : take (max_batches * limit) rows
            ≡ hidden ∷ page ++ take k (drop limit (page ++ back)) =
          ap (λ m. take m rows) enough
          ∙ take_plus (suc limit) k rows
          ∙ ap (λ ps. hidden ∷ ps ++ take k (drop limit (page ++ back))) (take_front page back) in
        let m = max_batches * limit - 1 in
        let some_taken : max_batches * limit ≡ suc m = omega arith in
        let second : drop limit rows ≡ b ∷ back =
          ap (λ j. drop j rows) n
          ∙ ap (drop (length front)) (append_assoc front (b ∷ []) back)
          ∙ drop_front front (b ∷ back) in
        (
          get_catalog_products_lem buffer left rows fails limit quiet 0
              ∙ ap (λ ps. some (shown buffer left limit ps)) first
              ∙ ap some (hidden_first limit hidden _ unseen ∙ shown-All page _ seen),
          (
            shown buffer left (length front) (take m back),
            get_catalog_products_lem buffer left rows fails limit quiet limit
                ∙ ap (λ ps. some (shown buffer left limit (take (max_batches * limit) ps))) second
                ∙ ap (λ j. some (shown buffer left limit (take j (b ∷ back)))) some_taken
                ∙ ap (λ j. some (shown buffer left j (b ∷ take m back))) n
                ∙ ap some (Visible-first (length front) b (take m back) (last_seen front b seen)),
          ),
        )
