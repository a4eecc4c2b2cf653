-- ===== src/Catalog/Paging.antt =====
-- What a page shows, told without batches (internal/usecase/product.go).
use hozdacha.Base.{
  ℕ, zero, suc, ◌+◌, ◌-◌, ◌*◌, ◌<◌, ◌≤◌, ◌≡◌, refl, sym, ap, ◌∙◌, arith, inl, inr, Bool, false,
  some, List, [], ◌∷◌, ◌++◌, length, take, drop, length-take, Bool-cases, ==_iff, ltb, ◌==◌, ltb→lt,
}
use hozdacha.Catalog.{
  Row, AvailableMap, restocked, shown, before, collect, max_batches, get_catalog_products,
}

drop_none : (n : ℕ) → ◌≡◌ {A = List Row} (drop n []) []
drop_none zero = refl
drop_none (suc n) = refl

drop-drop : (m n : ℕ) (xs : List Row) → drop n (drop m xs) ≡ drop (m + n) xs
drop-drop zero n xs = ap (λ k. drop k xs) (omega arith)
drop-drop (suc m) n [] = drop_none n ∙ sym (drop_none (suc m + n))
drop-drop (suc m) n (x ∷ xs) =
    let one_more : suc (m + n) ≡ suc m + n = omega arith in
    drop-drop m n xs ∙ ap (λ k. drop k (x ∷ xs)) one_more

take_short : (n : ℕ) (xs : List Row) → length xs ≤ n → take n xs ≡ xs
take_short zero [] h = refl
take_short zero (x ∷ xs) h = absurd (omega arith)
take_short (suc n) [] h = refl
take_short (suc n) (x ∷ xs) h = ap (λ ys. x ∷ ys) (take_short n xs (omega arith))

pub take_plus : (m n : ℕ) (xs : List Row) → take (m + n) xs ≡ take m xs ++ take n (drop m xs)
take_plus zero n xs = ap (λ k. take k xs) (omega arith)
take_plus (suc m) n [] =
    take_short (suc m + n) [] (omega arith) ∙ sym (take_short n [] (omega arith))
take_plus (suc m) n (x ∷ xs) =
    let one_more : suc m + n ≡ suc (m + n) = omega arith in
    ap (λ k. take k (x ∷ xs)) one_more ∙ ap (λ ys. x ∷ ys) (take_plus m n xs)

module _ (buffer : ℕ) (left : AvailableMap) where
  shown_none : (room : ℕ) → shown buffer left room [] ≡ []
  unfolding shown
  shown_none zero = refl
  shown_none (suc room) = refl

  shown-append :
      (room : ℕ) (front back : List Row)
      → shown buffer left room (front ++ back)
        ≡ shown buffer left room front
          ++ shown buffer left (room - length (shown buffer left room front)) back
  unfolding shown
  shown-append zero front back = refl
  shown-append (suc room) [] back =
      let whole : suc room ≡ suc room - 0 = omega arith in ap (λ k. shown buffer left k back) whole
  shown-append (suc room) (p ∷ front) back =
      elim (Bool-cases (ltb 0 ((restocked buffer left p).stock))) [
        | inl e ↦
            let found = shown buffer left room front in
            let one_less : room - length found ≡ suc room - suc (length found) = omega arith in
            rw e (
              ap (λ ps. restocked buffer left p ∷ ps)
                (shown-append room front back
                  ∙ ap (λ k. found ++ shown buffer left k back) one_less))
        | inr e ↦ rw e (shown-append (suc room) front back)
      ]

  module _ (rows : List Row) (fails : ℕ → Bool) (limit : ℕ)
      (quiet : (offset : ℕ) → fails offset ≡ false) where
    short_batch :
        (batches : ℕ) (xs : List Row)
        → length (take limit xs) < limit
        → take (suc batches * limit) xs ≡ take limit xs
    short_batch batches xs h =
        let few : length xs < limit = omega (arith, length-take limit xs) in
        take_short (suc batches * limit) xs (omega arith) ∙ sym (take_short limit xs (omega arith))

    collect_lem :
        (batches room offset : ℕ)
        → collect buffer left rows fails limit batches room offset
          ≡ some (shown buffer left room (take (batches * limit) (drop offset rows)))
    unfolding collect
    collect_lem zero room offset =
        let none_taken : 0 * limit ≡ 0 = omega arith in
        ap some (
          sym (shown_none room)
          ∙ ap (λ k. shown buffer left room (take k (drop offset rows))) (sym none_taken))
    collect_lem (suc batches) zero offset = refl
    collect_lem (suc batches) (suc room) offset =
        let xs = drop offset rows in
        let found = shown buffer left (suc room) (take limit xs) in
        elim (Bool-cases (ltb (length (take limit xs)) limit)) [
          | inl short ↦
              rw (quiet offset, short)
                (ap (λ ps. some (shown buffer left (suc room) ps))
                  (sym (short_batch batches xs (ltb→lt _ _ short))))
          | inr full ↦
              let split : suc batches * limit ≡ limit + batches * limit = omega arith in
              rw (quiet offset, full)
                (ap (before buffer left rows fails limit found)
                    (collect_lem batches (suc room - length found) (offset + limit))
                  ∙ ap
                      (λ ps. some (
                        found
                        ++ shown buffer left (suc room - length found) (take (batches * limit) ps)))
                      (sym (drop-drop offset limit rows))
                  ∙ ap some (
                      sym (
                        shown-append (suc room) (take limit xs)
                          (take (batches * limit) (drop limit xs))))
                  ∙ ap (λ ps. some (shown buffer left (suc room) ps))
                      (sym (take_plus limit (batches * limit) xs))
                  ∙ ap (λ k. some (shown buffer left (suc room) (take k xs))) (sym split))
        ]

    -- Where no query fails, a page is what the first twenty pages' worth of rows from the offset on have with
    -- something left, up to the limit: nothing depends on where a batch ends.
    pub get_catalog_products_lem :
        (offset : ℕ)
        → get_catalog_products buffer left rows fails limit offset
          ≡ some (shown buffer left limit (take (max_batches * limit) (drop offset rows)))
    unfolding get_catalog_products shown
    get_catalog_products_lem offset = elim (Bool-cases (limit == 0)) [
      | inl none_asked ↦ rw none_asked (
          ap (λ k. some (shown buffer left k (take (max_batches * limit) (drop offset rows))))
            (sym ((==_iff limit 0).0 none_asked)))
      | inr some_asked ↦ rw some_asked (collect_lem 20 limit offset)
    ]
