-- ===== src/Users/Service.antt =====
-- `UserUsecase` (internal/usecase/user.go): the operations on accounts that the handlers call.
use hozdacha.Base.{
  ℕ, ◌+◌, Bool, true, false, not, ◌&&◌, ◌||◌, Option, none, some, [], ◌∷◌, length, Result, ok, err,
  ◌>>=◌, ◌>>◌, ensure, ltb, ◌==◌, if◌then◌else◌,
}
use hozdacha.Store.Rows.{Text}
use hozdacha.Users.{
  User, Table, Query, QueryError, run_query, get_by_id, get_by_email, exists_by_username_or_email,
  insert_row, update_verification_code, get_by_email_and_code, verified, update,
}
use hozdacha.Users.{verify_email_by_code as verify_row}
use hozdacha.Users.Texts.{trim_space, normalize_email, digits_of}
use hozdacha.Users.Codes.{username_of, byte_count, is_password_strong}

pub data UserError : Type 0 where
  missing_fields bot taken no_email unknown_email unknown_user name_too_long bad_phone : UserError
  weak_password hash_failed nil_user bad_code : UserError
  query_failed : QueryError → UserError

-- `if err != nil { return nil, fmt.Errorf("...: %w", err) }`.
abbrev pub lifted {ℓ} : {A : Type ℓ} → Result QueryError A → Result UserError A
lifted (ok a) = ok a
lifted (err e) = err (query_failed e)

abbrev pub instead {ℓ} : {A : Type ℓ} → UserError → Result QueryError A → Result UserError A
instead e (ok a) = ok a
instead e (err _) = err e

abbrev pub present : UserError → Option User → Result UserError User
present e none = err e
present e (some u) = ok u

pub record RegisterRequest : Type 0 where
  pub username : Text
  pub email : Text
  pub phone : Text
  pub name : Text
  pub website : Text

abbrev pub is_empty : Text → Bool
is_empty [] = true
is_empty (c ∷ cs) = false

abbrev pub new_user : RegisterRequest → Text → Text → ℕ → User
new_user req name email now = record {
  id = 0;
  username = name;
  password = [];
  email = email;
  role_id = 2;
  email_verified = false;
  email_verification_code = none;
  verification_expires_at = none;
  full_name = some req.name;
  phone = some req.phone;
  created_at = now;
  updated_at = now;
}

-- The checks before the insertion; the name that the account will have.
unfoldable pub check_request :
    (Query → Bool) → Table → RegisterRequest → ℕ → Result UserError (Text × Text)
unfolding normalize_email trim_space
check_request fault t req random = do
  let email = normalize_email req.email
  ensure (not (is_empty email || is_empty req.name || is_empty req.phone)) missing_fields
  ensure (is_empty (trim_space req.website)) bot
  let username = username_of req.username email random
  found ← lifted (exists_by_username_or_email fault t username email)
  ensure (not found) taken
  ok (username, email)

-- `Register`.
unfoldable pub register :
    (Query → Bool) → Table → RegisterRequest → ℕ → ℕ → Result UserError (User × Table)
unfolding check_request
register fault t req random now = do
  (username, email) ← check_request fault t req random
  lifted (insert_row fault t (new_user req username email now) now)

-- `RegisterWithTransaction`: the row stands when the commit succeeds, and only then.
unfoldable pub register_with_transaction :
    (Query → Bool) → Table → RegisterRequest → ℕ → ℕ → Result UserError (User × Table)
unfolding check_request
register_with_transaction fault t req random now = do
  (username, email) ← check_request fault t req random
  lifted (run_query fault Query.begin_tx)
  (user, t') ← lifted (insert_row fault t (new_user req username email now) now)
  lifted (run_query fault Query.commit_tx)
  ok (user, t')

-- Ten minutes, in seconds.
abbrev pub code_lifetime : ℕ
code_lifetime = 600

unfoldable pub save_verification_code :
    (Query → Bool) → Table → ℕ → Text → ℕ → Result QueryError Table
save_verification_code fault t id code now =
    update_verification_code fault t id code (now + code_lifetime)

unfoldable pub verify_email_by_code :
    (Query → Bool) → Table → Text → Text → ℕ → Result UserError (User × Table)
unfolding normalize_email
verify_email_by_code fault t email code now = do
  user ← instead bad_code (get_by_email_and_code fault t (normalize_email email) code now)
  t' ← lifted (verify_row fault t user.id)
  ok (verified user, t')

unfoldable pub login : (Query → Bool) → Table → Text → Result UserError User
unfolding normalize_email
login fault t address = do
  let email = normalize_email address
  ensure (not (is_empty email)) no_email
  found ← lifted (get_by_email fault t email)
  present unknown_email found

unfoldable pub get_user_by_email : (Query → Bool) → Table → Text → Result UserError User
unfolding normalize_email
get_user_by_email fault t email = do
  found ← lifted (get_by_email fault t (normalize_email email))
  present unknown_user found

unfoldable pub get_profile : (Query → Bool) → Table → ℕ → Result UserError User
get_profile fault t id = do
  found ← lifted (get_by_id fault t id)
  user ← present unknown_user found
  ok (record user { password = [] })

-- The fields of the request that hold a text.
abbrev with_name : Option Text → User → Result UserError User
with_name none u = ok u
with_name (some name) u =
    if ltb 32 (byte_count name) then err name_too_long else ok (record u { full_name = some name })

abbrev pub starts_with : ℕ → Text → Bool
starts_with c [] = false
starts_with c (d ∷ ds) = d == c

abbrev pub is_phone : Text → Bool
is_phone phone =
    let digits = digits_of phone in
    length digits == 11 && (starts_with 55 digits || starts_with 56 digits)

abbrev with_phone : Option Text → User → Result UserError User
with_phone none u = ok u
with_phone (some phone) u =
    if is_phone phone then ok (record u { phone = some phone }) else err bad_phone

unfoldable pub update_profile :
    (Query → Bool) → Table → ℕ → Option Text → Option Text → Result UserError (User × Table)
unfolding byte_count digits_of
update_profile fault t id full_name phone = do
  found ← lifted (get_by_id fault t id)
  user ← present unknown_user found
  named ← with_name full_name user
  reachable ← with_phone phone named
  lifted (update fault t reachable id)

abbrev hash_of : Option Text → Result UserError Text
hash_of none = err hash_failed
hash_of (some h) = ok h

-- bcrypt is a parameter: it hashes a text, or fails.
unfoldable pub reset_password :
    (Query → Bool) → (Text → Option Text) → Table → ℕ → Text → ℕ → Result UserError Table
unfolding is_password_strong
reset_password fault bcrypt t id password now = do
  ensure (is_password_strong password) weak_password
  hashed ← hash_of (bcrypt password)
  found ← lifted (get_by_id fault t id)
  user ← present nil_user found
  (_, t') ← lifted (update fault t (record user { password = hashed; updated_at = now }) id)
  ok t'

-- `ClearVerificationCode`: it runs the query that verifies the address.
unfoldable pub clear_verification_code : (Query → Bool) → Table → ℕ → Result QueryError Table
clear_verification_code fault t id = verify_row fault t id
