-- ===== src/Users/Examples.antt =====
-- The theorems on accounts and codes for one account.
use hozdacha.Base.{ℕ, ◌<◌, ◌≡◌, refl, arith, true, false, none, some, List, [], ◌∷◌}
use hozdacha.Store.Rows.{Text}
use hozdacha.RateStore.{Counters, get}
use hozdacha.RateStore.{allow as count_request}
use hozdacha.Users.{
  User, Table, rows_where, has_code, on_id, verified, with_code, get_by_email,
  get_by_email_and_code, exists_by_username_or_email, insert_row, update_verification_code,
}
use hozdacha.Users.{verify_email_by_code as verify_row}
use hozdacha.Users.Texts.{normalize_email, is_space, lower_rune}
use hozdacha.Users.Codes.{generate_verification_code}
use hozdacha.Users.Service.{
  new_user, RegisterRequest, login, get_user_by_email, verify_email_by_code,
  register_with_transaction, bad_code,
}
use hozdacha.Users.Handler.{
  Key, reg_min, reg_hour, login_throttle, code_attempts, State, Call, token, wrong_code,
  code_sent_to, login_request, verify_email, max_code_attempts,
}
use hozdacha.Users.Once.{verify_email-by_code, verify_email_once}
use hozdacha.Users.Guesses.{Step, enters, ends, fifth_wrong-verified}
use hozdacha.Users.Asking.{login-token}
use hozdacha.Users.Taken.{WellFormed, register-WellFormed}

-- An address, as it is written, and the same with a capital and a space.
abbrev address : Text
address = 97 ∷ 64 ∷ 98 ∷ []

abbrev typed : Text
typed = 32 ∷ 65 ∷ 64 ∷ 98 ∷ []

abbrev right_code : Text
right_code = 49 ∷ 50 ∷ 51 ∷ 52 ∷ 53 ∷ 54 ∷ []

abbrev other_code : Text
other_code = 57 ∷ 57 ∷ 57 ∷ 57 ∷ 57 ∷ 57 ∷ []

abbrev anna : User
anna = record {
  id = 7;
  username = 97 ∷ 49 ∷ [];
  password = [];
  email = address;
  role_id = 2;
  email_verified = false;
  email_verification_code = some right_code;
  verification_expires_at = some 700;
  full_name = none;
  phone = none;
  created_at = 100;
  updated_at = 100;
}

abbrev accounts : Table
accounts = record { next_id = 8; users = anna ∷ [] }

abbrev number : Key → ℕ
number (reg_min ip) = 0
number (reg_hour ip) = 1
number (login_throttle ip) = 2
number (code_attempts email) = 3

abbrev nothing_counted : Counters
nothing_counted k = none

abbrev four_counted : Counters
four_counted k = some (record { count = 4; expires = 900 })

abbrev state : Counters → State
state c = record { table = accounts; counters = c; mails = [] }

abbrev at_time : ℕ → Call
at_time now = record {
  fault = λ q. false;
  ip = [];
  now = now;
  random = 0;
  draw = 23456;
  delivered = true;
}

abbrev verified_state : State
unfolding verify_email
verified_state = (verify_email number (at_time 200) (state nothing_counted) typed right_code).1

verify_email-by_code_example :
    (get nothing_counted 3 200 < max_code_attempts)
    × (u : User) × (rows_where (has_code (normalize_email typed) right_code 200) accounts.users
        ≡ u ∷ [])
    × (verified anna ≡ verified u)
    × (verified_state.table ≡ on_id u.id verified accounts)
    × (verified_state.counters 3 ≡ none)
unfolding verify_email get_by_email_and_code is_space lower_rune verify_row
verify_email-by_code_example =
    verify_email-by_code number (at_time 200) (state nothing_counted) verified_state typed
      right_code (verified anna) refl

verify_email_once_example : ¬ (
    verify_email number (at_time 300) verified_state typed right_code
    ≡ (token (verified anna), verified_state))
unfolding verify_email get_by_email_and_code is_space lower_rune verify_row
verify_email_once_example =
    verify_email_once number (at_time 200) (at_time 300) (state nothing_counted) verified_state
      verified_state typed right_code (verified anna) (verified anna) refl (omega arith)

-- Two requests overlap.
abbrev guesses : List Step
guesses =
    enters (at_time 150)
    ∷ enters (at_time 151)
    ∷ ends (at_time 160) other_code
    ∷ ends (at_time 161) other_code
    ∷ enters (at_time 170)
    ∷ ends (at_time 171) right_code
    ∷ []

fifth_wrong-verified_example :
    ((verify_email number (at_time 200) (state four_counted) typed other_code).0 ≡ wrong_code)
    × (State.table (verify_email number (at_time 200) (state four_counted) typed other_code).1
        ≡ on_id 7 verified accounts)
unfolding verify_email_by_code get_user_by_email get_by_email get_by_email_and_code is_space
    lower_rune
fifth_wrong-verified_example =
    fifth_wrong-verified number typed (at_time 200) (state four_counted)
      (record { count = 4; expires = 900 }) anna other_code bad_code refl refl (omega arith) refl
      refl refl

login-token_example :
    ((login_request number (at_time 200) (state nothing_counted) typed).0 ≡ code_sent_to address)
    × (State.mails (login_request number (at_time 200) (state nothing_counted) typed).1
        ≡ record { address = anna.email; code = generate_verification_code 23456 } ∷ [])
    × ((verify_email number
          (at_time 500)
          (login_request number (at_time 200) (state nothing_counted) typed).1
          typed
          (generate_verification_code 23456)).0
        ≡ token (verified (with_code (generate_verification_code 23456) 800 anna)))
unfolding login_request login get_by_email count_request get is_space lower_rune
    update_verification_code
login-token_example =
    login-token number (at_time 200) (at_time 500) (state nothing_counted) typed anna refl refl refl
      refl refl (omega arith) (omega arith)

abbrev request : RegisterRequest
request = record {
  username = 99 ∷ 99 ∷ 99 ∷ [];
  email = 66 ∷ 64 ∷ 98 ∷ [];
  phone = 55 ∷ [];
  name = 66 ∷ [];
  website = [];
}

-- The row that the request makes: its address is in small letters.
abbrev berta : User
berta = record (new_user request (99 ∷ 99 ∷ 99 ∷ []) (98 ∷ 64 ∷ 98 ∷ []) 300) { id = 8 }

abbrev registered_table : Table
registered_table = record { next_id = 9; users = anna ∷ berta ∷ [] }

register-WellFormed_example : WellFormed registered_table
unfolding register_with_transaction exists_by_username_or_email insert_row WellFormed is_space
    lower_rune
register-WellFormed_example =
    register-WellFormed (λ q. false) accounts registered_table request 0 300 berta refl
      ((omega arith, tt), (tt, tt))
