-- ===== src/Users/Guesses.antt =====
-- Guessing a code (internal/handlers/user.go): how often an attacker may try, and what the last try does.
--
-- `VerifyEmail` reads the counter first and counts a wrong answer later, so that requests overlap: here a request
-- enters in one step, the reading of the counter, and ends in another, the look at the code with what follows. The
-- counters are those in memory; with Redis the code takes the counter of a call that fails for 0.
use hozdacha.Base.{
  ℕ, zero, suc, ◌+◌, ◌-◌, ◌≤◌, ◌≡◌, refl, ap, ◌∙◌, ◌⊎◌, inl, inr, ltb, Bool-cases, true, false, not,
  none, some, List, [], ◌∷◌, ok, err, ◌>>=◌, ensure, leb, if◌then◌else◌, le→ltb,
}
use hozdacha.Store.Rows.{Text}
use hozdacha.RateStore.{MemRec, live_rec, get, incr, count_of, counted_once}
use hozdacha.Users.{User, Query, QueryError, on_id, verified}
use hozdacha.Users.{verify_email_by_code as verify_row}
use hozdacha.Users.Service.{
  UserError, verify_email_by_code, get_user_by_email, clear_verification_code,
}
use hozdacha.Users.Handler.{
  Key, State, Answer, token, wrong_code, Call, verify_email, attempt_key, is_used_up,
  code_attempts_ttl, max_code_attempts, verify_found, invalidate_found, invalidate_code,
  count_wrong, kept,
}

abbrev pub tally : Answer → ℕ → ℕ
tally (token _) more = 0
tally wrong_code more = suc more
tally _ more = more

-- A step of a request for the address: it reads the counter, or it looks at its code.
pub data Step : Type 0 where
  enters : Call → Step
  ends : Call → Text → Step

abbrev pub time_of : Step → ℕ
time_of (enters call) = call.now
time_of (ends call code) = call.now

-- `inside` requests have read the counter and have not looked at their codes. `wrong_answers` counts the codes that are
-- found wrong before the first that is right, where at most `width` requests are inside at once: one more that
-- would enter is not let in. The two steps of a request by itself are `verify_email`.
module _ (number : Key → ℕ) (width : ℕ) where
  unfoldable pub wrong_answers : State → Text → ℕ → List Step → ℕ
  unfolding get invalidate_code count_wrong verify_email_by_code
  wrong_answers s email inside [] = 0
  wrong_answers s email inside (enters call ∷ rest) =
      let refused = wrong_answers (invalidate_code number call s email) email inside rest in
      let entered = wrong_answers s email (suc inside) rest in
      let outside = wrong_answers s email inside rest in
      if is_used_up number call s email
      then refused
      else if ltb inside width
      then entered
      else outside
  wrong_answers s email zero (ends call code ∷ rest) = wrong_answers s email zero rest
  wrong_answers s email (suc inside) (ends call code ∷ rest) =
      let out =
        verify_found number call s email
          (verify_email_by_code call.fault s.table email code call.now) in
      tally out.0 (wrong_answers out.1 email inside rest)

module _ (number : Key → ℕ) (email : Text) where
  live_counters :
      (call : Call) (s : State) (r : MemRec)
      → s.counters (attempt_key number email) ≡ some r
      → call.now ≤ r.expires
      → live_rec call.now (s.counters (attempt_key number email)) ≡ some r
  live_counters call s r at alive =
      ap (live_rec call.now) at ∙ rw (le→ltb r.expires call.now alive) refl

  -- Until `last` the counter of the address is at `n`.
  abbrev AtCount : ℕ → State → ℕ → Type 0
  AtCount last s n =
      ((s.counters (attempt_key number email) ≡ none) × (n ≡ 0))
      ⊎ ((r : MemRec) × (s.counters (attempt_key number email) ≡ some r)
          × (r.count ≡ n)
          × (last ≤ r.expires))

  -- How many more can be wrong.
  abbrev room_for : ℕ → ℕ → ℕ → ℕ
  room_for width n inside = if leb 5 n then inside else 4 + width - n

  -- A request that no other overlaps is `verify_email`.
  wrong_answers-verify_email :
      (call : Call) (s : State) (code : Text)
      → wrong_answers number 1 s email 0 (enters call ∷ ends call code ∷ [])
        ≡ tally (verify_email number call s email code).0 0
  unfolding wrong_answers verify_email
  wrong_answers-verify_email call s code =
      elim (Bool-cases (leb 5 (get s.counters (attempt_key number email) call.now))) [
        | inl e ↦ rw e refl
        | inr e ↦ rw e refl
      ]

  leb_four : (n : ℕ) → n ≡ 4 → (leb 5 n ≡ false) × (leb 5 (n + 1) ≡ true)
  leb_four n h = rw h (refl, refl)

  erased-table :
      (call : Call) (s : State) (u : User)
      → get_user_by_email call.fault s.table email ≡ ok u
      → call.fault Query.verify_code ≡ false
      → State.table (invalidate_code number call s email) ≡ on_id u.id verified s.table
  unfolding invalidate_code clear_verification_code verify_row
  erased-table call s u found quiet =
      ap (λ r. State.table (invalidate_found number call s r)) found
      ∙ ap
          (λ b. State.table (
            kept number s (
              ensure (not b) (QueryError.failed Query.verify_code) >>= λ _.
              ok (on_id u.id verified s.table))))
          quiet

  -- The fifth wrong code, given while four are counted, erases the code of the account that has the address,
  -- and in the same write marks its address as verified, though no right code was given, if that write does not
  -- fail.
  pub fifth_wrong-verified :
      (call : Call) (s : State) (r : MemRec) (u : User) (code : Text) (e : UserError)
      → s.counters (attempt_key number email) ≡ some r
      → r.count ≡ 4
      → call.now ≤ r.expires
      → verify_email_by_code call.fault s.table email code call.now ≡ err e
      → get_user_by_email call.fault s.table email ≡ ok u
      → call.fault Query.verify_code ≡ false
      → ((verify_email number call s email code).0 ≡ wrong_code)
        × (State.table (verify_email number call s email code).1 ≡ on_id u.id verified s.table)
  unfolding verify_email get count_wrong incr
  fifth_wrong-verified call s r u code e at four alive wrong found quiet =
      let here = live_counters call s r at alive in
      let few : leb 5 (get s.counters (attempt_key number email) call.now) ≡ false =
        ap (λ o. leb 5 (count_of o)) here ∙ (leb_four r.count four).0 in
      let guard : verify_email number call s email code
          ≡ (wrong_code, count_wrong number call s email) =
        rw (few, wrong) in
      let full : leb max_code_attempts
            ((incr s.counters (attempt_key number email) code_attempts_ttl call.now).0)
          ≡ true =
        ap (λ o. leb 5 (counted_once call.now code_attempts_ttl o).count) here
        ∙ (leb_four r.count four).1 in
      let s1 = record s {
        counters = (incr s.counters (attempt_key number email) code_attempts_ttl call.now).1;
      } in
      (
        ap (λ x. x.0) guard,
        ap (λ x. State.table x.1) guard
            ∙ ap (λ b. State.table (if b then invalidate_code number call s1 email else s1)) full
            ∙ erased-table call s1 u found quiet,
      )
