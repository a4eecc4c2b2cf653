-- ===== src/Window/Promotions.antt =====
-- A day promotion holds for one reservation window: from the moment it counts from to the deadline
-- of that moment.
use hozdacha.Base.{
  ℕ, ◌+◌, ◌-◌, ◌*◌, ◌≤◌, ◌<◌, ◌≡◌, ◌↔◌, inl, inr, true, some, Bool-cases, ℕ_discrete, ==_iff, arith,
}
use hozdacha.Window.{
  hour, day, Promotion, day_kind, reservation_cutoff_hour, date_of, reference,
  is_before_reservation_cutoff, reservation_deadline, promotion_reservation_day,
  promotion_applies_for_reservation,
}
use hozdacha.Window.Deadline.{
  target_date, cutoff_bounds, date_of-reservation_date, deadline_lem, before_cutoff, after_cutoff,
}

earlier_date : (date d c x : ℕ) → c ≤ 18 → date < d → d * day ≤ x → date * day + c * hour ≤ x
earlier_date date d c x h l b = omega arith

date_of_le : (zone t : ℕ) → date_of zone t * day ≤ t + zone
date_of_le zone t = omega arith

next_day : (zone t c : ℕ) → t + zone < (date_of zone t + 1) * day + c * hour
next_day zone t c = omega arith

-- The closing moment of a date, read on a clock of the zone.
abbrev closing : ℕ → ℕ
closing date = date * day + reservation_cutoff_hour date * hour

-- The window of a moment ends at the closing of its target date, and no earlier date is open then.
target_bounds :
    (zone t : ℕ)
    → zone < day
    → day ≤ t
    → (t + zone < closing (target_date zone t))
      × ((date : ℕ) → date < target_date zone t → closing date ≤ t + zone)
target_bounds zone t h k = elim (Bool-cases (is_before_reservation_cutoff zone t)) [
  | inl e ↦ rw e (
    (before_cutoff zone t h k).0 e,
    λ date l.
        earlier_date date (date_of zone t) (reservation_cutoff_hour date) (t + zone)
          (cutoff_bounds date).1 l (date_of_le zone t),
  )
  | inr e ↦ rw e (
    next_day zone t (reservation_cutoff_hour (date_of zone t + 1)),
    λ date l. elim (ℕ_discrete date (date_of zone t)) [
      | yes q ↦ rw q (after_cutoff zone t h k e)
      | no q ↦
          earlier_date date (date_of zone t) (reservation_cutoff_hour date) (t + zone)
            (cutoff_bounds date).1 (omega (arith, q, l)) (date_of_le zone t)
    ],
  )
]

target_date_pos : (zone t : ℕ) → day ≤ t → 1 ≤ target_date zone t
target_date_pos zone t k = elim (Bool-cases (is_before_reservation_cutoff zone t)) [
  | inl e ↦ rw e (omega arith)
  | inr e ↦ rw e (omega arith)
]

below_closing :
    (zone t d c : ℕ)
    → zone < day
    → 1 ≤ d
    → (t < d * day + c * hour - zone) ↔ (t + zone < d * day + c * hour)
below_closing zone t d c h p = (λ b. omega arith, λ b. omega arith)

-- Two moments have one window exactly when the later is before the deadline of the earlier.
same_target :
    (zone ref t : ℕ)
    → zone < day
    → day ≤ ref
    → ref ≤ t
    → (target_date zone ref ≡ target_date zone t) ↔ (t + zone < closing (target_date zone ref))
same_target zone ref t h k l =
    let (ref_end, ref_past) = target_bounds zone ref h k in
    let (t_end, t_past) = target_bounds zone t h (omega (arith, k, l)) in
    (
      λ e. rw e t_end,
      λ b.
          meet (target_date zone ref) (target_date zone t)
            (λ less. past_end _ _ (t_past (target_date zone ref) less) b)
            (λ less.
              past_end _ _ (later _ ref t zone (ref_past (target_date zone t) less) l) t_end),
    )
  where
    meet : (a b : ℕ) → ¬ (a < b) → ¬ (b < a) → a ≡ b
    meet a b p q = omega (arith, p, q)

    past_end : (x y : ℕ) → x ≤ y → ¬ (y < x)
    past_end x y p q = omega (arith, p, q)

    later : (x r s z : ℕ) → x ≤ r + z → r ≤ s → x ≤ s + z
    later x r s z p q = omega (arith, p, q)

module _ (zone : ℕ) (promo : Promotion) (now : ℕ) (h : zone < day) where
  -- An active day promotion applies, from the moment it counts from on, exactly until the
  -- reservation deadline of that moment, for a zone of less than a day and after the first day of
  -- year 1.
  pub day_promotion_window :
      promo.active ≡ true
      → promo.kind ≡ day_kind
      → day ≤ reference zone promo
      → reference zone promo ≤ now
      → (promotion_applies_for_reservation zone (some promo) now ≡ true)
        ↔ (now < reservation_deadline zone (reference zone promo))
  unfolding promotion_applies_for_reservation promotion_reservation_day
  day_promotion_window a d k l =
      let ref = reference zone promo in
      let (same, within) = same_target zone ref now h k l in
      let (down, up) =
        below_closing zone now (target_date zone ref)
          (reservation_cutoff_hour (target_date zone ref)) h (target_date_pos zone ref k) in
      rw
        (
          a,
          d,
          date_of-reservation_date zone ref h k,
          date_of-reservation_date zone now h (omega (arith, k, l)),
          deadline_lem zone ref h k,
        )
        (λ e. up (same ((==_iff _ _).0 e)), λ b. (==_iff _ _).1 (within (down b)))
