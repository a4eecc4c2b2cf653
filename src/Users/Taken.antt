-- ===== src/Users/Taken.antt =====
-- One account for an address (internal/db/users.go, internal/usecase/user.go): the table stays such that a
-- query by address or by id has at most one row.
use mathlib.Core.Bool.{false≢true}
use hozdacha.Base.{
  ℕ, ◌+◌, ◌<◌, ◌≡◌, inl, inr, refl, sym, ap, ◌∙◌, subst, arith, Bool, true, false, not, ◌||◌,
  Option, none, some, List, [], ◌∷◌, ◌++◌, any, All, All-append, All-map, Result, ok, err,
  >>=-eq-ok, ensure, Bool-cases, neither_true, ok-injective,
}
use hozdacha.Store.Rows.{Text}
use hozdacha.Users.Codes.{username_of}
use hozdacha.Users.{
  unique_violation, User, Table, Query, QueryError, rows_where, one_row, has_email, insert_row,
  get_by_email, exists_by_username_or_email, collides, run_query,
}
use hozdacha.Users.Texts.{text_eq, text_eq_self, text_eq_sound, lower, normalize_email, trim_space}
use hozdacha.Users.Service.{
  is_empty, missing_fields, bot, taken, new_user, UserError, RegisterRequest,
  register_with_transaction, check_request, lifted,
}

-- Addresses that differ by more than the case of their letters.
abbrev Apart : User → User → Type 0
Apart u v = text_eq (lower u.email) (lower v.email) ≡ false

-- Each row is apart from those behind it.
abbrev AllApart : List User → Type 0
AllApart [] = Unit
AllApart (u ∷ us) = All (Apart u) us × AllApart us

-- The ids are those given so far, and no two accounts have one address.
unfoldable pub WellFormed : Table → Type 0
WellFormed t = All (λ u. u.id < t.next_id) t.users × AllApart t.users

AllApart-append :
    (us : List User) (v : User) → AllApart us → All (λ u. Apart u v) us → AllApart (us ++ (v ∷ []))
AllApart-append [] v apart fresh = (tt, tt)
AllApart-append (u ∷ us) v (here, apart) (new, fresh) =
    (All-append (Apart u) us (v ∷ []) here (new, tt), AllApart-append us v apart fresh)

none_has :
    (us : List User) (username email : Text) (v : User)
    → v.email ≡ email
    → any (λ u. text_eq u.username username || has_email email u) us ≡ false
    → All (λ u. Apart u v) us
none_has [] username email v same h = tt
none_has (u ∷ us) username email v same h =
    let (head, tail) = neither_true _ _ h in
    let (_, other) = neither_true (text_eq u.username username) _ head in
    (
      ap (λ e. text_eq (lower u.email) (lower e)) same ∙ other,
      none_has us username email v same tail,
    )

lifted_ok : {A : Type 0} (r : Result QueryError A) (a : A) → lifted r ≡ ok a → r ≡ ok a
lifted_ok (ok v) a h = ap ok (ok-injective h)
lifted_ok (err e) a h = cc

ensure-not : (b : Bool) (e : UserError) (x : Unit {0}) → ensure (not b) e ≡ ok x → b ≡ false
ensure-not true e x h = cc
ensure-not false e x h = refl

check_request-free :
    (fault : Query → Bool) (t : Table) (req : RegisterRequest) (random : ℕ) (name email : Text)
    → check_request fault t req random ≡ ok (name, email)
    → any (λ u. text_eq u.username name || has_email email u) t.users ≡ false
unfolding check_request exists_by_username_or_email
check_request-free fault t req random name email h =
    let address = normalize_email req.email in
    let first =
      ensure (not (is_empty address || is_empty req.name || is_empty req.phone)) missing_fields in
    let (_, _, h1) = >>=-eq-ok first _ h in
    let (_, _, h2) = >>=-eq-ok (ensure (is_empty (trim_space req.website)) bot) _ h1 in
    let username = username_of req.username address random in
    let (found, looked, h3) =
      >>=-eq-ok (lifted (exists_by_username_or_email fault t username address)) _ h2 in
    let (_, free, h4) = >>=-eq-ok (ensure (not found) taken) _ h3 in
    let (_, _, counted) = >>=-eq-ok (run_query fault Query.exists) _ (lifted_ok _ found looked) in
    subst (λ p. any (λ u. text_eq u.username p.0 || has_email p.1 u) t.users ≡ false)
      (ok-injective h4) (ok-injective counted ∙ ensure-not found taken _ free)

-- On a well-formed table, whose ids are below the next one and where no two accounts have one address but for the case
-- of its letters, a registration that succeeds leaves the table well formed. (A table in which two such accounts were
-- left, as migration 016 allows, is not well formed.)
pub register-WellFormed :
    (fault : Query → Bool) (t t' : Table) (req : RegisterRequest) (random now : ℕ) (user : User)
    → register_with_transaction fault t req random now ≡ ok (user, t')
    → WellFormed t
    → WellFormed t'
unfolding register_with_transaction insert_row WellFormed
register-WellFormed fault t t' req random now user h (bounded, apart) =
    let ((name, email), checked, h1) = >>=-eq-ok (check_request fault t req random) _ h in
    let (_, _, h2) = >>=-eq-ok (lifted (run_query fault Query.begin_tx)) _ h1 in
    let new = new_user req name email now in
    let ((row, t1), inserted, h3) = >>=-eq-ok (lifted (insert_row fault t new now)) _ h2 in
    let (_, _, h4) = >>=-eq-ok (lifted (run_query fault Query.commit_tx)) _ h3 in
    let (_, _, i1) =
      >>=-eq-ok (run_query fault Query.insert_user) _ (lifted_ok _ (row, t1) inserted) in
    let (_, _, i2) = >>=-eq-ok (ensure (not (any (collides new) t.users)) unique_violation) _ i1 in
    let row' : User = record new { id = t.next_id; created_at = now; updated_at = now } in
    let fresh =
      none_has t.users name email row' refl
        (check_request-free fault t req random name email checked) in
    let older = All-map _ (λ u. User.id u < t.next_id + 1) (λ u le. omega arith) t.users bounded in
    subst WellFormed (ap (λ p. p.1) (ok-injective i2 ∙ ok-injective h4)) (
      All-append _ t.users (row' ∷ []) older (omega arith, tt),
      AllApart-append t.users row' apart fresh,
    )

-- Two rows that a query by address finds are not apart.
found_twice :
    (email : Text) (u v : User)
    → has_email email u ≡ true
    → has_email email v ≡ true
    → ¬ (Apart u v)
found_twice email u v one two apart =
    let same = text_eq_sound _ _ one ∙ sym (text_eq_sound _ _ two) in
    let equal = ap (text_eq (lower u.email)) same ∙ apart in
    absurd (false≢true (sym equal ∙ text_eq_self (lower u.email)))

no_other :
    (email : Text) (u : User) (us : List User)
    → has_email email u ≡ true
    → All (Apart u) us
    → rows_where (has_email email) us ≡ []
unfolding rows_where
no_other email u [] mine apart = refl
no_other email u (v ∷ us) mine (here, apart) = elim (Bool-cases (has_email email v)) [
  | inl both ↦ absurd (found_twice email u v mine both here)
  | inr other ↦ rw other (no_other email u us mine apart)
]

one_at_most :
    (email : Text) (us : List User)
    → AllApart us
    → (found : Option User) × (one_row (rows_where (has_email email) us) ≡ ok found)
unfolding rows_where
one_at_most email [] apart = (none, refl)
one_at_most email (u ∷ us) (here, apart) = elim (Bool-cases (has_email email u)) [
  | inl mine ↦ (some u, rw (mine, no_other email u us mine here))
  | inr other ↦ let (found, one) = one_at_most email us apart in (found, rw other one)
]

-- In a well formed table a query by address meets one row at most: it fails only where the database does.
pub get_by_email_total :
    (fault : Query → Bool) (t : Table) (email : Text)
    → WellFormed t
    → fault Query.by_email ≡ false
    → (found : Option User) × (get_by_email fault t email ≡ ok found)
unfolding get_by_email WellFormed
get_by_email_total fault t email (bounded, apart) quiet =
    let (found, one) = one_at_most email t.users apart in (found, rw quiet one)
