-- ===== src/Users/Once.antt =====
-- A token is had by the code that was saved, and once (internal/handlers/user.go, internal/usecase/user.go).
use mathlib.Core.Bool.{false≢true}
use hozdacha.Base.{
  both_true, ℕ, ◌<◌, ◌≤◌, ◌≡◌, inl, inr, refl, sym, ap, ◌∙◌, subst, arith, Bool, true, false,
  Option, none, some, List, [], ◌∷◌, map, All, Result, ok, err, >>=-eq-ok, Bool-cases, ok-injective,
  ltb, leb, ◌==◌, if◌then◌else◌, ==_self, ltb→lt, lt→ltb, and-false,
}
use hozdacha.Store.Rows.{Text}
use hozdacha.Store.Transaction.{update_self}
use hozdacha.RateStore.{get, reset}
use hozdacha.Users.{
  User, Table, Query, QueryError, rows_where, one_row, found_row, at_id, on_id, verified, has_code,
  code_is, has_email, get_by_email_and_code, run_query,
}
use hozdacha.Users.{verify_email_by_code as verify_row}
use hozdacha.Users.Texts.{text_eq, normalize_email}
use hozdacha.Users.Service.{UserError, bad_code, instead, lifted, verify_email_by_code}
use hozdacha.Users.Handler.{
  Key, State, Answer, token, too_many, Call, verify_email, attempt_key, max_code_attempts,
  verify_found, with_table, forget_attempts,
}

not_leb : (a b : ℕ) → leb a b ≡ false → b < a
not_leb a b h = ground arith

found_row_lem : (rows : List User) (u : User) → found_row (one_row rows) ≡ ok u → rows ≡ u ∷ []
found_row_lem [] u h = cc
found_row_lem (v ∷ []) u h = ap (λ x. x ∷ []) (ok-injective h)
found_row_lem (v ∷ w ∷ rest) u h = cc

instead_ok : (r : Result QueryError User) (u : User) → instead bad_code r ≡ ok u → r ≡ ok u
instead_ok (ok v) u h = ap ok (ok-injective h)
instead_ok (err e) u h = cc

lifted_ok : (r : Result QueryError Table) (t : Table) → lifted r ≡ ok t → r ≡ ok t
lifted_ok (ok v) t h = ap ok (ok-injective h)
lifted_ok (err e) t h = cc

verified_by_code :
    (fault : Query → Bool) (t t' : Table) (email code : Text) (now : ℕ) (user : User)
    → verify_email_by_code fault t email code now ≡ ok (user, t')
    → (u : User) × (rows_where (has_code (normalize_email email) code now) t.users ≡ u ∷ [])
      × (user ≡ verified u)
      × (t' ≡ on_id u.id verified t)
unfolding verify_email_by_code get_by_email_and_code verify_row
verified_by_code fault t t' email code now user h =
    let (u, found, next) = >>=-eq-ok _ _ h in
    let (t1, saved, same) = >>=-eq-ok _ _ next in
    let (_, _, one) =
      >>=-eq-ok (run_query fault Query.by_email_and_code) _ (instead_ok _ u found) in
    let (_, _, written) = >>=-eq-ok (run_query fault Query.verify_code) _ (lifted_ok _ t1 saved) in
    (
      u,
      found_row_lem _ u one,
      sym (ap (λ p. p.0) (ok-injective same)),
      sym (ap (λ p. p.1) (ok-injective same)) ∙ sym (ok-injective written),
    )

guarded-token :
    (b : Bool) (refusal : State) (out : Answer × State) (u : User) (s : State)
    → (if b then (too_many, refusal) else out) ≡ (token u, s)
    → (b ≡ false) × (out ≡ (token u, s))
guarded-token true refusal out u s h = cc
guarded-token false refusal out u s h = (refl, h)

verify_found-token :
    (number : Key → ℕ) (call : Call) (s s' : State) (email : Text) (user : User)
    (r : Result UserError (User × Table))
    → verify_found number call s email r ≡ (token user, s')
    → (t : Table) × (r ≡ ok (user, t)) × (forget_attempts number (with_table s t) email ≡ s')
verify_found-token number call s s' email user (err e) h = cc
verify_found-token number call s s' email user (ok (u, t)) h = (t, cc, ap (λ p. p.1) h)

-- The entry of a text in the store, after its attempts are forgotten.
forgotten :
    (number : Key → ℕ) (s : State) (email : Text)
    → State.counters (forget_attempts number s email) (attempt_key number email) ≡ none
unfolding reset
forgotten number s email = update_self s.counters (attempt_key number email) none

-- A token is given only where fewer than five wrong answers are counted for the address and exactly one account
-- has that address and that code, unexpired; the token is that account's, its address is marked as
-- verified, the code is erased, and the count starts anew.
pub verify_email-by_code :
    (number : Key → ℕ) (call : Call) (s s' : State) (email code : Text) (user : User)
    → verify_email number call s email code ≡ (token user, s')
    → (get s.counters (attempt_key number email) call.now < max_code_attempts)
      × (u : User) × (rows_where (has_code (normalize_email email) code call.now) (s.table.users)
          ≡ u ∷ [])
      × (user ≡ verified u)
      × (s'.table ≡ on_id u.id verified s.table)
      × (s'.counters (attempt_key number email) ≡ none)
unfolding verify_email
verify_email-by_code number call s s' email code user h =
    let (few, out) =
      guarded-token (leb 5 (get s.counters (attempt_key number email) call.now)) _ _ user s' h in
    let (t, ran, rest) = verify_found-token number call s s' email user _ out in
    let (u, row, same, written) =
      verified_by_code call.fault s.table t email code call.now user ran in
    (
      not_leb _ _ few,
      u,
      row,
      same,
      sym (ap (λ x. State.table x) rest) ∙ written,
      sym (ap (λ x. State.counters x (attempt_key number email)) rest)
          ∙ forgotten number (with_table s t) email,
    )

code_is_later :
    (code : Text) (now later : ℕ) (saved : Option Text) (expires : Option ℕ)
    → now ≤ later
    → code_is code later saved expires ≡ true
    → code_is code now saved expires ≡ true
code_is_later code now later none expires le h = cc
code_is_later code now later (some c) none le h = cc
code_is_later code now later (some c) (some t) le h =
    let (same, alive) = both_true (text_eq c code) (ltb later t) h in
    rw (same, lt→ltb now t (omega (arith, ltb→lt later t alive)))

-- A code that is good later is good now.
later_code :
    (email code : Text) (now later : ℕ) (u : User)
    → now ≤ later
    → has_code email code later u ≡ true
    → has_code email code now u ≡ true
later_code email code now later u le h =
    let (mine, good) = both_true (has_email email u) _ h in
    rw mine
      (code_is_later code now later u.email_verification_code u.verification_expires_at le good)

module _ {ℓ} (P : User → Type ℓ) (f : User → Bool) where
  tail_rows : (u : User) (us : List User) → All P (rows_where f (u ∷ us)) → All P (rows_where f us)
  unfolding rows_where
  tail_rows u us h = tail_if (f u) h
    where
      tail_if :
          (b : Bool)
          → All P (if b then u ∷ rows_where f us else rows_where f us)
          → All P (rows_where f us)
      tail_if true h = h.1
      tail_if false h = h

  head_row : (u : User) (us : List User) → f u ≡ true → All P (rows_where f (u ∷ us)) → P u
  unfolding rows_where
  head_row u us e h =
      (subst (λ b. All P (if b then u ∷ rows_where f us else rows_where f us)) e h).0

-- No row is left where every row with the code has one id and is verified.
none_left :
    (email code : Text) (now later id : ℕ) (us : List User)
    → now ≤ later
    → All (λ u. (u.id == id) ≡ true) (rows_where (has_code email code now) us)
    → rows_where (has_code email code later) (map (at_id id verified) us) ≡ []
unfolding rows_where
none_left email code now later id [] le h = refl
none_left email code now later id (u ∷ us) le h =
    let rest = none_left email code now later id us le (tail_rows _ _ u us h) in
    elim (Bool-cases (u.id == id)) [
      | inl same ↦ rw (same, and-false (has_email email (verified u))) rest
      | inr other ↦ elim (Bool-cases (has_code email code later u)) [
        | inl good ↦ absurd (
            false≢true (
              sym other
              ∙ head_row (λ x. (x.id == id) ≡ true) (has_code email code now) u us
                  (later_code email code now later u le good) h))
        | inr bad ↦ rw (other, bad) rest
      ]
    ]

no_rows : {u : User} → ¬ ((u ∷ []) ≡ [])
no_rows h = cc

-- The code that gave a token gives none again, then or later, whatever the faults, as long as the table and
-- the counters are as the first request left them.
pub verify_email_once :
    (number : Key → ℕ) (call again : Call) (s s' s'' : State) (email code : Text)
    (user other : User)
    → verify_email number call s email code ≡ (token user, s')
    → call.now ≤ again.now
    → ¬ (verify_email number again s' email code ≡ (token other, s''))
verify_email_once number call again s s' s'' email code user other first later second =
    let (_, u, row, _, written, _) = verify_email-by_code number call s s' email code user first in
    let (_, v, row2, _, _, _) = verify_email-by_code number again s' s'' email code other second in
    let mine = subst (All (λ x. (x.id == u.id) ≡ true)) (sym row) (==_self u.id, tt) in
    let gone =
      none_left (normalize_email email) code call.now again.now u.id s.table.users later mine in
    let left =
      ap (λ t. rows_where (has_code (normalize_email email) code again.now) (Table.users t))
        written in
    absurd (no_rows (sym row2 ∙ left ∙ gone))
