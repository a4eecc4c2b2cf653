-- ===== src/Users.antt =====
-- Accounts and the codes sent by mail (internal/db/users.go, internal/usecase/user.go and
-- internal/handlers/user.go).
--
-- A text is the list of its code points. Letters of the two cases are those of ASCII, of which the
-- addresses that pass the binding are made. The table is the list of its rows by id; a query that fails is
-- told by `fault`. The columns of the token secrets, of the login times and of the honeypot are left out:
-- no operation here reads them.
pub mod Texts
pub mod Codes
pub mod Service
pub mod Handler
mod Once
mod Guesses
mod Taken
mod Profile
mod Asking
mod Examples
use hozdacha.Base.{
  ℕ, ◌+◌, Bool, true, false, not, ◌&&◌, ◌||◌, Option, none, some, List, [], ◌∷◌, ◌++◌, map, any,
  Result, ok, err, ◌>>=◌, ◌>>◌, ensure, ltb, ◌==◌, if◌then◌else◌,
}
use hozdacha.Store.Rows.{Text}
use Texts.{text_eq, lower}

pub record User : Type 0 where
  pub id : ℕ
  pub username : Text
  pub password : Text
  pub email : Text
  pub role_id : ℕ
  pub email_verified : Bool
  pub email_verification_code : Option Text
  pub verification_expires_at : Option ℕ
  pub full_name : Option Text
  pub phone : Option Text
  pub created_at : ℕ
  pub updated_at : ℕ

pub record Table : Type 0 where
  pub next_id : ℕ
  pub users : List User

pub data Query : Type 0 where
  by_id by_email exists insert_user begin_tx commit_tx update_user update_code : Query
  by_email_and_code verify_code delete_unverified : Query

pub data QueryError : Type 0 where
  failed : Query → QueryError
  several_rows unique_violation no_row invalid_code : QueryError

abbrev pub run_query : (Query → Bool) → Query → Result QueryError (Unit {0})
run_query fault q = ensure (not (fault q)) (failed q)

unfoldable pub rows_where : (User → Bool) → List User → List User
rows_where f [] = []
rows_where f (u ∷ us) = if f u then u ∷ rows_where f us else rows_where f us

-- `pgxscan.Get`: it fails where there are several rows.
abbrev pub one_row : List User → Result QueryError (Option User)
one_row [] = ok none
one_row (u ∷ []) = ok (some u)
one_row (u ∷ v ∷ us) = err several_rows

-- LOWER(users_email) = LOWER(?).
abbrev pub has_email : Text → User → Bool
has_email email u = text_eq (lower u.email) (lower email)

unfoldable pub get_by_id : (Query → Bool) → Table → ℕ → Result QueryError (Option User)
unfolding rows_where
get_by_id fault t id = do run_query fault by_id; one_row (rows_where (λ u. u.id == id) t.users)

unfoldable pub get_by_email : (Query → Bool) → Table → Text → Result QueryError (Option User)
unfolding rows_where lower text_eq
get_by_email fault t email = do
  run_query fault by_email
  one_row (rows_where (has_email email) t.users)

unfoldable pub exists_by_username_or_email :
    (Query → Bool) → Table → Text → Text → Result QueryError Bool
unfolding lower text_eq
exists_by_username_or_email fault t username email = do
  run_query fault exists
  ok (any (λ u. text_eq u.username username || has_email email u) t.users)

-- The UNIQUE constraints of migrations/001_init.sql.
abbrev pub collides : User → User → Bool
collides new u = text_eq u.username new.username || text_eq u.email new.email

-- INSERT ... RETURNING *: the id and the times are given by the database.
unfoldable pub insert_row : (Query → Bool) → Table → User → ℕ → Result QueryError (User × Table)
unfolding text_eq
insert_row fault t new now = do
  run_query fault insert_user
  ensure (not (any (collides new) t.users)) unique_violation
  let row = record new { id = t.next_id; created_at = now; updated_at = now }
  ok (row, record { next_id = t.next_id + 1; users = t.users ++ (row ∷ []) })

abbrev pub at_id : ℕ → (User → User) → User → User
at_id id f u = if u.id == id then f u else u

abbrev pub on_id : ℕ → (User → User) → Table → Table
on_id id f t = record { next_id = t.next_id; users = map (at_id id f) t.users }

abbrev pub with_code : Text → ℕ → User → User
with_code code expires u = record u {
  email_verification_code = some code;
  verification_expires_at = some expires;
}

unfoldable pub update_verification_code :
    (Query → Bool) → Table → ℕ → Text → ℕ → Result QueryError Table
update_verification_code fault t id code expires = do
  run_query fault update_code
  ok (on_id id (with_code code expires) t)

-- The code of a row is the one that is asked for, and its time has not come.
abbrev pub code_is : Text → ℕ → Option Text → Option ℕ → Bool
code_is code now none expires = false
code_is code now (some c) none = false
code_is code now (some c) (some t) = text_eq c code && ltb now t

abbrev pub has_code : Text → Text → ℕ → User → Bool
has_code email code now u =
    has_email email u && code_is code now u.email_verification_code u.verification_expires_at

abbrev pub found_row : Result QueryError (Option User) → Result QueryError User
found_row (err e) = err e
found_row (ok none) = err invalid_code
found_row (ok (some u)) = ok u

unfoldable pub get_by_email_and_code :
    (Query → Bool) → Table → Text → Text → ℕ → Result QueryError User
unfolding rows_where lower text_eq
get_by_email_and_code fault t email code now = do
  run_query fault by_email_and_code
  found_row (one_row (rows_where (has_code email code now) t.users))

abbrev pub verified : User → User
verified u = record u {
  email_verified = true;
  email_verification_code = none;
  verification_expires_at = none;
}

unfoldable pub verify_email_by_code : (Query → Bool) → Table → ℕ → Result QueryError Table
verify_email_by_code fault t id = do run_query fault verify_code; ok (on_id id verified t)

abbrev pub is_stale : ℕ → User → Bool
is_stale cutoff u = not u.email_verified && ltb u.created_at cutoff

unfoldable pub delete_unverified_users : (Query → Bool) → Table → ℕ → Result QueryError Table
unfolding rows_where
delete_unverified_users fault t cutoff = do
  run_query fault delete_unverified
  ok (record { next_id = t.next_id; users = rows_where (λ u. not (is_stale cutoff u)) t.users })

-- UPDATE ... RETURNING *, of the columns with the tag `update`.
abbrev pub updated_row : User → User → User
updated_row new u = record u {
  username = new.username;
  password = new.password;
  full_name = new.full_name;
  phone = new.phone;
  updated_at = new.updated_at;
}

abbrev returned : List User → Table → Result QueryError (User × Table)
returned [] t = err no_row
returned (u ∷ us) t = ok (u, t)

unfoldable pub update : (Query → Bool) → Table → User → ℕ → Result QueryError (User × Table)
unfolding rows_where
update fault t new id = do
  run_query fault update_user
  let t' = on_id id (updated_row new) t
  returned (rows_where (λ u. u.id == id) t'.users) t'
