-- ===== src/Window.antt =====
-- The reservation window of internal/services/promotionwindow.go. A moment is a number of
-- nanoseconds since Go's zero time, midnight UTC of Monday 1 January 1; a calendar date is the number
-- of days since then, which stands for its year, month and day. A time zone is its offset east of
-- UTC: that of Moscow is constant, as in the code's own fallback `FixedZone("MSK", 3*60*60)`.
-- (A subtraction stops at 0: only for moments of the first day of year 1.)
pub mod Deadline
pub mod Promotions
mod Examples
use hozdacha.Base.{
  ℕ, ◌+◌, ◌-◌, ◌*◌, ◌/◌, ◌%◌, Bool, true, false, not, ◌&&◌, ◌||◌, Option, none, some, List, [], ◌∷◌,
  ltb, leb, ◌==◌, if◌then◌else◌,
}
use hozdacha.Base.Int.{ℤ}
use hozdacha.Store.Rows.{Text}

abbrev pub hour : ℕ
hour = 3_600_000_000_000

abbrev pub day : ℕ
day = 86_400_000_000_000

-- The offset that `FixedZone("MSK", 3*60*60)` has.
abbrev pub msk : ℕ
msk = 10_800_000_000_000

-- `promotions_kind`.
pub data PromotionKind : Type 0 where
  day_kind manual permanent : PromotionKind

-- The discount in hundredths of a percent, as the column DECIMAL(5, 2) holds it.
pub record Promotion : Type 0 where
  pub id : ℕ
  pub title : Text
  pub discount : ℤ
  pub active : Bool
  pub kind : PromotionKind
  pub start_date : Option ℕ
  pub end_date : Option ℕ
  pub valid_from : Option ℕ
  pub created_at : ℕ

abbrev pub is_day : PromotionKind → Bool
is_day day_kind = true
is_day _ = false

pub data Target : Type 0 where
  today tomorrow : Target

-- Saturday or Sunday; date 0 is a Monday.
abbrev is_weekend : ℕ → Bool
is_weekend date = leb 5 (date % 7)

-- The hour at which the shop closes on a date.
abbrev pub reservation_cutoff_hour : ℕ → ℕ
reservation_cutoff_hour date = if is_weekend date then 16 else 18

-- `reservationCutoffHour(d) >= 0`.
unfoldable pub is_open_for_reservation_day : ℕ → Bool
is_open_for_reservation_day date = leb 0 (reservation_cutoff_hour date)

module _ (zone : ℕ) where
  -- `t.In(zone).Date()`.
  abbrev pub date_of : ℕ → ℕ
  date_of t = (t + zone) / day

  -- `time.Date` with a whole hour.
  abbrev pub at_hour : ℕ → ℕ → ℕ
  at_hour date h = date * day + h * hour - zone

  abbrev pub is_before_reservation_cutoff : ℕ → Bool
  is_before_reservation_cutoff t = ltb t (at_hour (date_of t) (reservation_cutoff_hour (date_of t)))

  unfoldable pub reservation_target : ℕ → Target
  reservation_target now = if is_before_reservation_cutoff now then today else tomorrow

  -- Midnight of the date that is reserved for; `AddDate(0, 0, 1)` is the next date.
  unfoldable pub reservation_date : ℕ → ℕ
  reservation_date now =
      if is_before_reservation_cutoff now
      then at_hour (date_of now) 0
      else at_hour (date_of now + 1) 0

  unfoldable pub reservation_deadline : ℕ → ℕ
  unfolding reservation_date
  reservation_deadline now =
      let date = date_of (reservation_date now) in at_hour date (reservation_cutoff_hour date)

  unfoldable pub end_of_moscow_day : ℕ → ℕ
  end_of_moscow_day t = at_hour (date_of t) 24 - 1

  -- The moment that a promotion counts from.
  abbrev pub reference : Promotion → ℕ
  reference promo = elim promo.valid_from [ none ↦ promo.created_at | some t ↦ t ]

  -- A missing promotion has the zero time.
  unfoldable pub promotion_reservation_day : Option Promotion → ℕ
  unfolding reservation_date
  promotion_reservation_day none = 0
  promotion_reservation_day (some promo) = reservation_date (reference promo)

  abbrev pub same_moscow_day : ℕ → ℕ → Bool
  same_moscow_day a b = date_of a == date_of b

  unfoldable pub promotion_applies_for_reservation : Option Promotion → ℕ → Bool
  unfolding promotion_reservation_day reservation_date
  promotion_applies_for_reservation none now = false
  promotion_applies_for_reservation (some promo) now =
      if not promo.active
      then false
      else if not (is_day promo.kind)
      then true
      else same_moscow_day (promotion_reservation_day (some promo)) (reservation_date now)

  unfoldable pub filter_promotions_for_reservation :
      List (Option Promotion) → ℕ → List (Option Promotion)
  unfolding promotion_applies_for_reservation
  filter_promotions_for_reservation [] now = []
  filter_promotions_for_reservation (p ∷ ps) now =
      let rest = filter_promotions_for_reservation ps now in
      if promotion_applies_for_reservation p now then p ∷ rest else rest

  unfoldable pub is_reservation_window_open : ℕ → Bool
  is_reservation_window_open now = is_before_reservation_cutoff now
