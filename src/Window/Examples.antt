-- ===== src/Window/Examples.antt =====
-- The theorems on the reservation window at a concrete moment: Wednesday, 5 days after Go's zero week.
use hozdacha.Base.{ℕ, ◌+◌, ◌*◌, ◌<◌, ◌≡◌, ◌↔◌, refl, true, none, some, [], arith}
use hozdacha.Base.Int.{pos}
use hozdacha.Window.{
  Promotion, day_kind, hour, day, msk, reservation_deadline, reference,
  promotion_applies_for_reservation,
}
use hozdacha.Window.Promotions.{day_promotion_window}

abbrev noon : ℕ
noon = 9 * day + 9 * hour

abbrev promo : Promotion
promo = record {
  id = 1;
  title = [];
  discount = pos 1_500;
  active = true;
  kind = day_kind;
  start_date = none;
  end_date = none;
  valid_from = some noon;
  created_at = 0;
}

day_promotion_window_example :
    (promotion_applies_for_reservation msk (some promo) (noon + hour) ≡ true)
    ↔ (noon + hour < reservation_deadline msk (reference msk promo))
day_promotion_window_example =
    day_promotion_window msk promo (noon + hour) (omega arith) refl refl (omega arith) (omega arith)
