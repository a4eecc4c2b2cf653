-- ===== src/RateStore/Windows.antt =====
-- How many requests a window lets through.
use hozdacha.Base.{
  ℕ, suc, min, ◌+◌, ◌-◌, ◌≤◌, ◌<◌, ◌≡◌, inl, inr, refl, ap, ◌∙◌, Bool, true, false, Option, none,
  some, List, [], ◌∷◌, All, length, ltb, leb, arith, Bool-cases, lt→ltb, ltb→lt, le→ltb, leb→le,
}
use hozdacha.Store.Transaction.{update, update_self}
use hozdacha.RateStore.{
  MemRec, Counters, live_rec, counted_once, count_of, incr, get, cleanup, allow,
}

-- The requests for one key at the times of the list, and how many pass.
abbrev pub tick : Bool → ℕ → ℕ
tick true n = n + 1
tick false n = n

unfoldable pub passed : Counters → ℕ → ℕ → ℕ → List ℕ → ℕ
unfolding allow
passed c key limit window [] = 0
passed c key limit window (now ∷ times) =
    let (b, c') = allow c key limit window now in tick b (passed c' key limit window times)

abbrev one_more : MemRec → MemRec
one_more r = record { count = r.count + 1; expires = r.expires }

live_kept :
    (c : Counters) (key now : ℕ) (r : MemRec)
    → c key ≡ some r
    → now ≤ r.expires
    → live_rec now (c key) ≡ some r
live_kept c key now r h live = ap (live_rec now) h ∙ rw (le→ltb r.expires now live) refl

allow_live :
    (c : Counters) (key limit window now : ℕ) (r : MemRec)
    → c key ≡ some r
    → now ≤ r.expires
    → allow c key limit window now ≡ (leb (r.count + 1) limit, update c key (some (one_more r)))
unfolding allow incr
allow_live c key limit window now r h live =
    ap
      (λ o. (
        leb (counted_once now window o).count limit,
        update c key (some (counted_once now window o)),
      ))
      (live_kept c key now r h live)

allow_lapsed :
    (c : Counters) (key limit window now : ℕ)
    → live_rec now (c key) ≡ none
    → allow c key limit window now
      ≡ (leb 1 limit, update c key (some (record { count = 1; expires = now + window })))
unfolding allow incr
allow_lapsed c key limit window now h =
    ap
      (λ o. (
        leb (counted_once now window o).count limit,
        update c key (some (counted_once now window o)),
      ))
      h

passed_step :
    (c : Counters) (key limit window now : ℕ) (times : List ℕ) (b : Bool) (c' : Counters)
    → allow c key limit window now ≡ (b, c')
    → passed c key limit window (now ∷ times) ≡ tick b (passed c' key limit window times)
unfolding passed
passed_step c key limit window now times b c' h =
    ap (λ a. tick a.0 (passed a.1 key limit window times)) h

tick_left :
    (n limit k : ℕ) → tick (leb (k + 1) limit) (min n (limit - (k + 1))) ≡ min (suc n) (limit - k)
tick_left n limit k = elim (Bool-cases (leb (k + 1) limit)) [
  | inl e ↦ let le = leb→le _ _ e in rw e (omega arith)
  | inr e ↦ let gt : limit < k + 1 = ground arith in rw e (omega arith)
]

passed_live :
    (c : Counters) (key limit window : ℕ) (times : List ℕ) (r : MemRec)
    → c key ≡ some r
    → All (λ t. t ≤ r.expires) times
    → passed c key limit window times ≡ min (length times) (limit - r.count)
unfolding passed
passed_live c key limit window [] r h live = omega arith
passed_live c key limit window (now ∷ times) r h (live, rest) =
    passed_step c key limit window now times _ _ (allow_live c key limit window now r h live)
    ∙ ap (tick (leb (r.count + 1) limit)) (
        passed_live (update c key (some (one_more r))) key limit window times (one_more r)
          (update_self c key _) rest)
    ∙ tick_left (length times) limit r.count

-- From the first request of a key whose record is absent or has lapsed, a window lets through exactly the
-- first `limit` of the requests that come before it ends, however many come.
pub window_exact :
    (c : Counters) (key limit window now : ℕ) (times : List ℕ)
    → live_rec now (c key) ≡ none
    → All (λ t. t ≤ now + window) times
    → passed c key limit window (now ∷ times) ≡ min (suc (length times)) limit
window_exact c key limit window now times h inside =
    passed_step c key limit window now times _ _ (allow_lapsed c key limit window now h)
    ∙ ap (tick (leb 1 limit)) (passed_live _ key limit window times _ (update_self c key _) inside)
    ∙ tick_left (length times) limit 0
    ∙ ap (min (suc (length times))) (omega arith)

live_twice :
    (cleaned now : ℕ) (o : Option MemRec)
    → cleaned ≤ now
    → live_rec now (live_rec cleaned o) ≡ live_rec now o
live_twice cleaned now none h = refl
live_twice cleaned now (some r) h = elim (Bool-cases (ltb r.expires cleaned)) [
  | inl e ↦ rw (e, lt→ltb r.expires now (omega (arith, ltb→lt _ _ e))) refl
  | inr e ↦ rw e refl
]

-- The clean-up cannot be observed: from the time it ran on, every key is counted, allowed and read as it
-- would have been without it.
pub cleanup_unseen :
    (c : Counters) (key limit window cleaned now : ℕ)
    → cleaned ≤ now
    → (get (cleanup c cleaned) key now ≡ get c key now)
      × ((allow (cleanup c cleaned) key limit window now).0 ≡ (allow c key limit window now).0)
      × ((allow (cleanup c cleaned) key limit window now).1 key
          ≡ (allow c key limit window now).1 key)
unfolding get allow incr cleanup
cleanup_unseen c key limit window cleaned now h =
    let same = live_twice cleaned now (c key) h in
    (
      ap count_of same,
      ap (λ o. leb (counted_once now window o).count limit) same,
      rw
          (
            update_self (cleanup c cleaned) key
                (some (counted_once now window (live_rec now (cleanup c cleaned key)))),
            update_self c key (some (counted_once now window (live_rec now (c key)))),
          )
          (ap (λ o. some (counted_once now window o)) same),
    )
