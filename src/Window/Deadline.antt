-- ===== src/Window/Deadline.antt =====
-- The deadline of a reservation window.
use mathlib.Core.Bool.{false≢true}
use hozdacha.Base.{
  ℕ, ◌+◌, ◌-◌, ◌*◌, ◌/◌, ◌≤◌, ◌<◌, ◌≡◌, inl, inr, true, false, Bool-cases, ap, refl, sym, ◌∙◌, ◌↔◌,
  ltb→lt, lt→ltb, if◌then◌else◌, arith,
}
use hozdacha.Window.{
  hour, day, reservation_cutoff_hour, date_of, at_hour, is_before_reservation_cutoff,
  reservation_date, reservation_deadline,
}

-- The date that is reserved for, as a number.
abbrev pub target_date : ℕ → ℕ → ℕ
target_date zone t =
    if is_before_reservation_cutoff zone t then date_of zone t else date_of zone t + 1

pub cutoff_bounds :
    (date : ℕ) → (16 ≤ reservation_cutoff_hour date) × (reservation_cutoff_hour date ≤ 18)
cutoff_bounds date = ground arith

date_of-at_hour :
    (zone date : ℕ) → zone < day → 1 ≤ date → date_of zone (at_hour zone date 0) ≡ date
date_of-at_hour zone date h k = omega arith

date_of_pos : (zone t : ℕ) → day ≤ t → 1 ≤ date_of zone t
date_of_pos zone t k = omega arith

pub date_of-reservation_date :
    (zone t : ℕ)
    → zone < day
    → day ≤ t
    → date_of zone (reservation_date zone t) ≡ target_date zone t
unfolding reservation_date
date_of-reservation_date zone t h k = elim (Bool-cases (is_before_reservation_cutoff zone t)) [
  | inl e ↦ rw e (date_of-at_hour zone (date_of zone t) h (date_of_pos zone t k))
  | inr e ↦ rw e (date_of-at_hour zone (date_of zone t + 1) h (omega arith))
]

pub deadline_lem :
    (zone t : ℕ)
    → zone < day
    → day ≤ t
    → reservation_deadline zone t
      ≡ at_hour zone (target_date zone t) (reservation_cutoff_hour (target_date zone t))
unfolding reservation_deadline
deadline_lem zone t h k =
    ap (λ d. at_hour zone d (reservation_cutoff_hour d)) (date_of-reservation_date zone t h k)

-- What the test for the closing hour says, without a subtraction.
pub before_cutoff :
    (zone t : ℕ)
    → zone < day
    → day ≤ t
    → (is_before_reservation_cutoff zone t ≡ true)
      ↔ (t + zone < date_of zone t * day + reservation_cutoff_hour (date_of zone t) * hour)
before_cutoff zone t h k =
    let pos = date_of_pos zone t k in
    (λ e. omega (arith, ltb→lt _ _ e, pos), λ b. lt→ltb _ _ (omega (arith, b, pos)))

pub after_cutoff :
    (zone t : ℕ)
    → zone < day
    → day ≤ t
    → is_before_reservation_cutoff zone t ≡ false
    → date_of zone t * day + reservation_cutoff_hour (date_of zone t) * hour ≤ t + zone
after_cutoff zone t h k e =
    let none_before : ¬ (
        t + zone < date_of zone t * day + reservation_cutoff_hour (date_of zone t) * hour) =
      λ b. false≢true (sym e ∙ (before_cutoff zone t h k).1 b) in
    omega (arith, none_before)

in_window :
    (zone t d c : ℕ)
    → d ≡ (t + zone) / day
    → c ≤ 18
    → t + zone < d * day + c * hour
    → (t < d * day + c * hour - zone) × (d * day + c * hour - zone ≤ t + 26 * hour)
in_window zone t d c e h b = omega arith

next_window :
    (zone t d c c' : ℕ)
    → d ≡ (t + zone) / day
    → 16 ≤ c
    → c' ≤ 18
    → d * day + c * hour ≤ t + zone
    → (t < (d + 1) * day + c' * hour - zone) × ((d + 1) * day + c' * hour - zone ≤ t + 26 * hour)
next_window zone t d c c' e h h' b = omega arith

-- The deadline of a reservation made at any moment is after that moment, by 26 hours at the most
-- (Sunday's closing to Monday's), for a zone of less than a day and after the first day of year 1.
pub deadline_bounds :
    (zone t : ℕ)
    → zone < day
    → day ≤ t
    → (t < reservation_deadline zone t) × (reservation_deadline zone t ≤ t + 26 * hour)
deadline_bounds zone t h k =
    let d = date_of zone t in
    rw (deadline_lem zone t h k) (elim (Bool-cases (is_before_reservation_cutoff zone t)) [
      | inl e ↦ rw e (
          in_window zone t d (reservation_cutoff_hour d) refl (cutoff_bounds d).1
            ((before_cutoff zone t h k).0 e))
      | inr e ↦ rw e (
          next_window zone t d (reservation_cutoff_hour d) (reservation_cutoff_hour (d + 1)) refl
            (cutoff_bounds d).0 (cutoff_bounds (d + 1)).1 (after_cutoff zone t h k e))
    ])
