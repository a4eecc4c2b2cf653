-- ===== src/Pricing/DayOffers.antt =====
-- `DayPromotionDeadline` and `CheckDayPromotionWindow` of internal/usecase/promotion_pricing.go. The
-- promotions come as the list of the map's values, in the order in which Go visits them.
use mathlib.Core.Bool.{false≢true}
use hozdacha.Base.{
  ℕ, ◌≡◌, ◌↔◌, inl, inr, refl, Bool, true, false, not, ◌&&◌, Option, none, some, List, [], ◌∷◌, All,
  Result, ok, err, is_ok, Bool-cases, any, if◌then◌else◌, arith,
}
use hozdacha.Window.{
  Promotion, Target, is_day, reservation_target, reservation_deadline,
  promotion_applies_for_reservation,
}

-- No pricer or no products, a failed query, or the promotions found.
abbrev pub Offers : Type 0
Offers = Option (Result (Unit {0}) (List (Option Promotion)))

abbrev pub is_day_offer : Option Promotion → Bool
is_day_offer none = false
is_day_offer (some p) = is_day p.kind

module _ (zone now : ℕ) where
  abbrev pub applies : Option Promotion → Bool
  applies = λ p. promotion_applies_for_reservation zone p now

  unfoldable pub any_day_offer : List (Option Promotion) → Bool
  any_day_offer [] = false
  any_day_offer (p ∷ ps) =
      let rest = any_day_offer ps in if is_day_offer p && applies p then true else rest

  -- `hasDay` with its deadline; an error of the query is the caller's to ignore.
  unfoldable pub day_promotion_deadline : Offers → Result (Unit {0}) (Option ℕ)
  unfolding any_day_offer
  day_promotion_deadline none = ok none
  day_promotion_deadline (some (err e)) = err e
  day_promotion_deadline (some (ok promos)) =
      ok (if any_day_offer promos then some (reservation_deadline zone now) else none)

  -- The error carries the note of the current target.
  unfoldable pub check_each : List (Option Promotion) → Result Target (Unit {0})
  check_each [] = ok tt
  check_each (p ∷ ps) =
      let rest = check_each ps in
      if is_day_offer p && not (applies p) then err (reservation_target zone now) else rest

  unfoldable pub check_day_promotion_window : Offers → Result Target (Unit {0})
  unfolding check_each
  check_day_promotion_window none = ok tt
  check_day_promotion_window (some (err _)) = ok tt
  check_day_promotion_window (some (ok promos)) = check_each promos

  each_ok :
      (ps : List (Option Promotion))
      → (is_ok (check_each ps) ≡ true) ↔ All (λ p. is_day_offer p ≡ true → applies p ≡ true) ps
  unfolding check_each
  each_ok [] = (λ _. tt, λ _. refl)
  each_ok (p ∷ ps) = elim (Bool-cases (is_day_offer p)) [
    | inr d ↦ rw d (λ h. (λ e. absurd (false≢true e), (each_ok ps).0 h), λ a. (each_ok ps).1 a.1)
    | inl d ↦ elim (Bool-cases (applies p)) [
      | inl a ↦ rw (d, a) (λ h. (λ _. refl, (each_ok ps).0 h), λ q. (each_ok ps).1 q.1)
      | inr a ↦ rw (d, a) (λ h. absurd (false≢true h), λ q. absurd (false≢true (q.0 refl)))
    ]
  ]

  some_day :
      (ps : List (Option Promotion))
      → is_ok (check_each ps) ≡ true
      → any_day_offer ps ≡ any is_day_offer ps
  unfolding check_each any_day_offer
  some_day [] h = refl
  some_day (p ∷ ps) h = ground (arith, some_day ps)

  -- Whatever the order in which the promotions come, the window is open exactly when every day
  -- promotion among them applies now; and then the deadline is that of now if there is a day
  -- promotion, and none otherwise.
  pub day_offers :
      (ps : List (Option Promotion))
      → ((is_ok (check_day_promotion_window (some (ok ps))) ≡ true)
          ↔ All (λ p. is_day_offer p ≡ true → applies p ≡ true) ps)
        × (is_ok (check_day_promotion_window (some (ok ps))) ≡ true
            → day_promotion_deadline (some (ok ps))
              ≡ ok (if any is_day_offer ps then some (reservation_deadline zone now) else none))
  unfolding check_day_promotion_window day_promotion_deadline
  day_offers ps = (each_ok ps, λ h. rw (some_day ps h))
