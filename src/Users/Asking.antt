-- ===== src/Users/Asking.antt =====
-- From a request for a code to a token (internal/handlers/user.go).
use hozdacha.Base.{
  if-cases, ==_iff, ℕ, ◌+◌, ◌<◌, ◌≡◌, inl, inr, refl, sym, ap, ◌∙◌, arith, Bool, true, false, not,
  ◌&&◌, Option, none, some, List, [], ◌∷◌, ◌++◌, map, Result, ok, err, >>=-eq-ok, ensure,
  ok-injective, some_inj, Bool-cases, leb, ◌==◌, if◌then◌else◌, lt→ltb,
}
use hozdacha.Store.Rows.{Text}
use hozdacha.RateStore.{get}
use hozdacha.Users.{
  User, Table, Query, QueryError, rows_where, one_row, has_email, has_code, code_is, at_id, on_id,
  with_code, verified, get_by_email, get_by_email_and_code, run_query, update_verification_code,
}
use hozdacha.Users.{verify_email_by_code as verify_row}
use hozdacha.Users.Texts.{text_eq_self, normalize_email}
use hozdacha.Users.Codes.{generate_verification_code}
use hozdacha.Users.Service.{
  UserError, login, present, lifted, is_empty, no_email, code_lifetime, save_verification_code,
  verify_email_by_code,
}
use hozdacha.Users.Handler.{
  Key, login_throttle, State, token, code_sent_to, Call, allow, login_request, send_code,
  verify_email, attempt_key, max_code_attempts,
}

no_cons : {u : User} {us : List User} → ¬ ((u ∷ us) ≡ [])
no_cons h = cc

module _ (f : User → Bool) (v : User) (us : List User) where
  rows_kept : f v ≡ true → rows_where f (v ∷ us) ≡ v ∷ rows_where f us
  unfolding rows_where
  rows_kept h = rw h

  rows_left : f v ≡ false → rows_where f (v ∷ us) ≡ rows_where f us
  unfolding rows_where
  rows_left h = rw h

cons_same : {u v : User} {us vs : List User} → (u ∷ us) ≡ (v ∷ vs) → (u ≡ v) × (us ≡ vs)
cons_same h = (cc, cc)

module _ (email code : Text) (id expires now : ℕ) where
  other_code :
      (v : User)
      → has_email email v ≡ false
      → has_code email code now (at_id id (with_code code expires) v) ≡ false
  other_code v other =
      if-cases (λ w. has_code email code now w ≡ false) (v.id == id) (with_code code expires v) v
        (λ _. ap (λ b. b && code_is code now (some code) (some expires)) other)
        (λ _.
          ap (λ b. b && code_is code now v.email_verification_code v.verification_expires_at) other)

  new_code :
      (v : User)
      → has_email email v ≡ true
      → v.id ≡ id
      → now < expires
      → at_id id (with_code code expires) v ≡ with_code code expires v
        × (has_code email code now (with_code code expires v) ≡ true)
  new_code v mine same live = (
    ap (λ b. if b then with_code code expires v else v) ((==_iff v.id id).1 same),
    rw (mine, text_eq_self code) (lt→ltb now expires live),
  )

  no_rows_coded :
      (us : List User)
      → rows_where (has_email email) us ≡ []
      → rows_where (has_code email code now) (map (at_id id (with_code code expires)) us) ≡ []
  unfolding rows_where
  no_rows_coded [] h = refl
  no_rows_coded (v ∷ us) h = elim (Bool-cases (has_email email v)) [
    | inl mine ↦ absurd (no_cons (sym (rows_kept (has_email email) v us mine) ∙ h))
    | inr other ↦
        let rest = no_rows_coded us (sym (rows_left (has_email email) v us other) ∙ h) in
        rw (other_code v other) rest
  ]

  -- The row with the address is the row with the new code.
  coded_row :
      (u : User) (us : List User)
      → now < expires
      → u.id ≡ id
      → rows_where (has_email email) us ≡ u ∷ []
      → rows_where (has_code email code now) (map (at_id id (with_code code expires)) us)
        ≡ with_code code expires u ∷ []
  unfolding rows_where
  coded_row u [] live same h = absurd (no_cons (sym h))
  coded_row u (v ∷ us) live same h = elim (Bool-cases (has_email email v)) [
    | inl mine ↦
        let (is_u, none_behind) = cons_same (sym (rows_kept (has_email email) v us mine) ∙ h) in
        let (set, coded) = new_code v mine (ap User.id is_u ∙ same) live in
        rows_kept (has_code email code now) _ _ (ap (has_code email code now) set ∙ coded)
        ∙ ap (λ rest. at_id id (with_code code expires) v ∷ rest) (no_rows_coded us none_behind)
        ∙ ap (λ w. w ∷ []) (set ∙ ap (with_code code expires) is_u)
    | inr other ↦
        rows_left (has_code email code now) _ _ (other_code v other)
        ∙ coded_row u us live same (sym (rows_left (has_email email) v us other) ∙ h)
  ]

one_row-some : (rows : List User) (u : User) → one_row rows ≡ ok (some u) → rows ≡ u ∷ []
one_row-some [] u h = cc
one_row-some (v ∷ []) u h = ap (λ x. x ∷ []) (some_inj (ok-injective h))
one_row-some (v ∷ w ∷ rest) u h = cc

le→leb : {a b : ℕ} → a < b → leb b a ≡ false
le→leb h = ground arith

present-ok : (e : UserError) (o : Option User) (u : User) → present e o ≡ ok u → o ≡ some u
present-ok e none u h = cc
present-ok e (some v) u h = ap some (ok-injective h)

lifted_ok : {A : Type 0} (r : Result QueryError A) (a : A) → lifted r ≡ ok a → r ≡ ok a
lifted_ok (ok v) a h = ap ok (ok-injective h)
lifted_ok (err e) a h = cc

login-row :
    (fault : Query → Bool) (t : Table) (address : Text) (u : User)
    → login fault t address ≡ ok u
    → rows_where (has_email (normalize_email address)) t.users ≡ u ∷ []
unfolding login get_by_email
login-row fault t address u h =
    let email = normalize_email address in
    let (_, _, h1) = >>=-eq-ok (ensure (not (is_empty email)) no_email) _ h in
    let (found, looked, here) = >>=-eq-ok (lifted (get_by_email fault t email)) _ h1 in
    let (_, _, one) = >>=-eq-ok (run_query fault Query.by_email) _ (lifted_ok _ found looked) in
    one_row-some _ u (one ∙ ap ok (present-ok _ found u here))

module _ (number : Key → ℕ) (email : Text) where
  login-sends :
      (call : Call) (s : State) (u : User)
      → (allow number s (login_throttle call.ip) 1 5 call.now).0 ≡ true
      → login call.fault s.table email ≡ ok u
      → call.fault Query.update_code ≡ false
      → let code = generate_verification_code call.draw in
        ((login_request number call s email).0 ≡ code_sent_to u.email)
        × (State.mails (login_request number call s email).1
            ≡ s.mails ++ (record { address = u.email; code = code } ∷ []))
        × ((login_request number call s email).1.table
            ≡ on_id u.id (with_code code (call.now + code_lifetime)) s.table)
  unfolding login_request send_code save_verification_code update_verification_code
  login-sends call s u granted found quiet = rw (granted, found, quiet) (refl, refl, refl)

  right_code-token :
      (call : Call) (s : State) (code : Text) (u : User)
      → rows_where (has_code (normalize_email email) code call.now) s.table.users ≡ u ∷ []
      → call.fault Query.by_email_and_code ≡ false
      → call.fault Query.verify_code ≡ false
      → leb max_code_attempts (get s.counters (attempt_key number email) call.now) ≡ false
      → (verify_email number call s email code).0 ≡ token (verified u)
  unfolding verify_email verify_email_by_code get_by_email_and_code verify_row
  right_code-token call s code u row quiet1 quiet2 few = rw (few, quiet1, row, quiet2)

-- A request at the login that is let through, for an address that one account has, hands one mail to the mailer: to the
-- address of the account, with the new code. That code is good: given with the address within ten minutes, while
-- fewer than five wrong answers are counted, it has a token for the account, if no query fails.
pub login-token :
    (number : Key → ℕ) (call later : Call) (s : State) (email : Text) (u : User)
    → (allow number s (login_throttle call.ip) 1 5 call.now).0 ≡ true
    → login call.fault s.table email ≡ ok u
    → call.fault Query.update_code ≡ false
    → later.fault Query.by_email_and_code ≡ false
    → later.fault Query.verify_code ≡ false
    → later.now < call.now + code_lifetime
    → get
        (State.counters (login_request number call s email).1)
        (attempt_key number email)
        later.now
      < max_code_attempts
    → let code = generate_verification_code call.draw in
      ((login_request number call s email).0 ≡ code_sent_to u.email)
      × (State.mails (login_request number call s email).1
          ≡ s.mails ++ (record { address = u.email; code = code } ∷ []))
      × ((verify_email number later (login_request number call s email).1 email code).0
          ≡ token (verified (with_code code (call.now + code_lifetime) u)))
login-token number call later s email u granted found quiet quiet1 quiet2 soon few =
    let code = generate_verification_code call.draw in
    let (answered, mailed, written) = login-sends number email call s u granted found quiet in
    let row =
      coded_row (normalize_email email) code u.id (call.now + code_lifetime) later.now u
        s.table.users soon refl (login-row call.fault s.table email u found) in
    let here =
      ap (λ t. rows_where (has_code (normalize_email email) code later.now) (Table.users t)) written
      ∙ row in
    (answered, mailed, right_code-token number email later _ code _ here quiet1 quiet2 (le→leb few))
