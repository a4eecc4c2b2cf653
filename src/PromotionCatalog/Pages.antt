-- ===== src/PromotionCatalog/Pages.antt =====
-- A page of the promotional products and the whole list (internal/usecase/promotion_catalog.go).
use hozdacha.Base.{
  ℕ, zero, suc, ◌+◌, ◌-◌, ◌≤◌, ◌≡◌, refl, sym, ap, subst, ◌∙◌, arith, Bool, true, false, Option,
  List, [], ◌∷◌, length, take, drop, min, ok, err, >>=-eq-ok, ok-injective,
}
use hozdacha.Store.Rows.{Text}
use hozdacha.Window.{Promotion, Target, filter_promotions_for_reservation, reservation_target}
use hozdacha.Pricing.{Priced}
use hozdacha.Users.Texts.{trim_space}
use hozdacha.PromotionCatalog.{
  Sources, Listing, Answer, slice, ranked, page_of, of_candidates, of_promotions, list_products,
  listing_if, build_categories_from_promos, resolve_candidate_ids,
}

-- The listing with the rows of one page.
abbrev pub cut : ℕ → ℕ → Listing → Listing
cut limit offset r = record r { products = take limit (drop offset r.products) }

module _ {ℓ} {A : Type ℓ} where
  pub take_none : (n : ℕ) → ◌≡◌ {A = List A} (take n []) []
  take_none zero = refl
  take_none (suc n) = refl

  pub take_room : (n : ℕ) (xs : List A) → length xs ≤ n → take n xs ≡ xs
  take_room zero [] h = refl
  take_room zero (x ∷ xs) h = absurd (omega arith)
  take_room (suc n) [] h = refl
  take_room (suc n) (x ∷ xs) h = ap (λ ys. x ∷ ys) (take_room n xs (omega arith))

  pub drop_none : (n : ℕ) → ◌≡◌ {A = List A} (drop n []) []
  drop_none zero = refl
  drop_none (suc n) = refl

  take-min : (n : ℕ) (xs : List A) → take (min n (length xs)) xs ≡ take n xs
  take-min zero xs = let first : min 0 (length xs) ≡ 0 = omega arith in ap (λ k. take k xs) first
  take-min (suc n) [] = take_none (min (suc n) 0)
  take-min (suc n) (x ∷ xs) =
      let one_less : min (suc n) (suc (length xs)) ≡ suc (min n (length xs)) = omega arith in
      ap (λ k. take k (x ∷ xs)) one_less ∙ ap (λ ys. x ∷ ys) (take-min n xs)

  pub clamped :
      (limit offset : ℕ) (xs : List A)
      → take
          (min (min offset (length xs) + limit) (length xs) - min offset (length xs))
          (drop (min offset (length xs)) xs)
        ≡ take limit (drop offset xs)
  clamped limit offset [] =
      let none_left = drop_none (min offset 0) in
      ap (take _) none_left
      ∙ take_none _
      ∙ sym (ap (take limit) (drop_none offset) ∙ take_none limit)
  clamped limit zero (x ∷ xs) =
      let whole = x ∷ xs in
      let first : min zero (length whole) ≡ 0 = omega arith in
      let room : min (0 + limit) (length whole) - 0 ≡ min limit (length whole) = omega arith in
      rw first (ap (λ k. take k whole) room ∙ take-min limit whole)
  clamped limit (suc offset) (x ∷ xs) =
      let start = min offset (length xs) in
      let later : min (suc offset) (suc (length xs)) ≡ suc start = omega arith in
      let room : min (suc start + limit) (suc (length xs)) - suc start
          ≡ min (start + limit) (length xs) - start =
        omega arith in
      rw later (ap (λ k. take k (drop start xs)) room ∙ clamped limit offset xs)

pub slice_lem :
    (limit offset : ℕ) (ps : List Priced) → slice limit offset ps ≡ take limit (drop offset ps)
unfolding slice
slice_lem limit offset ps = clamped limit offset ps

module _ (zone : ℕ) (src : Sources) (search : Text) (category : Option ℕ) (kind : Text) (room : ℕ)
    (whole : Listing) (limit offset : ℕ) where
  page_of-cut :
      (res : Listing) (all : List (Option Priced))
      → length (ranked kind all) ≤ room
      → page_of zone src kind limit offset res all
        ≡ cut limit offset (page_of zone src kind room 0 res all)
  page_of-cut res all h =
      let everything = slice_lem room 0 (ranked kind all) ∙ take_room room (ranked kind all) h in
      ap (λ ps. record res { total = length (ranked kind all); products = ps })
        (slice_lem limit offset (ranked kind all)
          ∙ ap (λ ps. take limit (drop offset ps)) (sym everything))

  cut_empty : (res : Listing) → res.products ≡ [] → res ≡ cut limit offset res
  cut_empty res e =
      let no_page = ap (take limit) (drop_none offset) ∙ take_none limit in
      ap (λ ps. record res { products = ps })
        (e ∙ sym no_page ∙ ap (λ ps. take limit (drop offset ps)) (sym e))

  empty_cut :
      (res : Listing)
      → res.products ≡ []
      → ◌≡◌ {A = Answer Listing} (ok res) (ok whole)
      → ◌≡◌ {A = Answer Listing} (ok res) (ok (cut limit offset whole))
  empty_cut res e h =
      subst (λ w. ◌≡◌ {A = Answer Listing} (ok res) (ok (cut limit offset w))) (ok-injective h)
        (ap ok (cut_empty res e))

  candidates_cut :
      (res : Listing) (ids : List ℕ)
      → res.products ≡ []
      → of_candidates zone src search category kind room 0 res ids ≡ ok whole
      → whole.total ≤ room
      → of_candidates zone src search category kind limit offset res ids
        ≡ ok (cut limit offset whole)
  candidates_cut res [] e h b = empty_cut res e h
  candidates_cut res (id ∷ ids) e h b =
      let (filtered, found, loading) =
        >>=-eq-ok (src.filter_promotional_ids (id ∷ ids) (trim_space search) category) _ h in
      let (all, loaded, page) = >>=-eq-ok (src.get_products_by_ids filtered) _ loading in
      let same = ok-injective page in
      let res' : Listing = record res {
        categories = build_categories_from_promos src res.promotions;
      } in
      rw found (
        rw loaded (
          ap ok (
            page_of-cut res' all (subst (λ w. w.total ≤ room) (sym same) b)
            ∙ ap (cut limit offset) same)))

  promotions_cut :
      (target : Target) (promotions : List (Option Promotion))
      → of_promotions zone src search category kind room 0 target promotions ≡ ok whole
      → whole.total ≤ room
      → of_promotions zone src search category kind limit offset target promotions
        ≡ ok (cut limit offset whole)
  promotions_cut target [] h b = empty_cut _ refl h
  promotions_cut target (p ∷ ps) h b =
      let (ids, resolved, listed) = >>=-eq-ok (resolve_candidate_ids src (p ∷ ps)) _ h in
      rw resolved (candidates_cut _ ids refl listed b)

  complete_cut :
      (now : ℕ) (complete : Bool) (active : Answer (List (Option Promotion)))
      → listing_if zone src search category kind room 0 now complete active ≡ ok whole
      → whole.total ≤ room
      → listing_if zone src search category kind limit offset now complete active
        ≡ ok (cut limit offset whole)
  complete_cut now true (ok ps) h b =
      promotions_cut (reservation_target zone now) (filter_promotions_for_reservation zone ps now) h
        b
  complete_cut now true (err _) h b = cc
  complete_cut now false active h b = empty_cut _ refl h

  -- A page is the part of the whole list that starts at its offset, as long as its limit where there are so
  -- many; its total, its groups and its promotions are those of the whole, which was read without an error, at
  -- the same moment and with room for all.
  pub list_products-cut :
      (now : ℕ)
      → list_products zone src search category kind room 0 now ≡ ok whole
      → whole.total ≤ room
      → list_products zone src search category kind limit offset now ≡ ok (cut limit offset whole)
  unfolding list_products
  list_products-cut now h b = complete_cut now src.is_complete src.active h b
