-- ===== src/RateStore/Examples.antt =====
-- The theorems on the counters at a limit of two requests a minute.
use hozdacha.Base.{
  ℕ, suc, ◌≡◌, refl, none, some, List, [], ◌∷◌, length, min, ◌==◌, if◌then◌else◌, arith,
}
use hozdacha.RateStore.{Counters}
use hozdacha.RateStore.Windows.{passed, window_exact}

abbrev counters : Counters
counters = λ k. if k == 3 then some (record { count = 9; expires = 50 }) else none

abbrev times : List ℕ
times = 101 ∷ 110 ∷ 130 ∷ []

window_exact_example : passed counters 3 2 60 (100 ∷ times) ≡ min (suc (length times)) 2
window_exact_example =
    window_exact counters 3 2 60 100 times refl (omega arith, (omega arith, (omega arith, tt)))
