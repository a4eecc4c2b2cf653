-- ===== src/Users/Handler.antt =====
-- `UserHandler` (internal/handlers/user.go): requests that register an account, ask for a code and give
-- one, with the counters that slow an attacker down.
--
-- Times are seconds. A key of the counters is the text that the code builds; `number` tells the place of
-- each in the store. The codes handed to the mailer are kept in their order. A request has passed the
-- binding; a random number and the faults of the queries come with it.
use hozdacha.Base.{
  ℕ, Bool, not, ◌||◌, any, Option, List, [], ◌∷◌, ◌++◌, Result, ok, err, ltb, leb, ◌==◌,
  if◌then◌else◌,
}
use hozdacha.Store.Rows.{Text}
use hozdacha.RateStore.{Counters}
use hozdacha.RateStore.{allow as count_request, incr, get, reset}
use hozdacha.Users.{User, Table, Query, QueryError}
use hozdacha.Users.{get_by_email_and_code}
use hozdacha.Users.Texts.{normalize_email}
use hozdacha.Users.Codes.{generate_verification_code, byte_count}
use hozdacha.Users.Service.{
  UserError, RegisterRequest, register_with_transaction, save_verification_code, login,
  get_user_by_email, verify_email_by_code, clear_verification_code, reset_password,
}

-- The counters' keys: "reg:min:", "reg:hour:", "login:throttle:" and "code_attempts:".
pub data Key : Type 0 where
  reg_min reg_hour login_throttle code_attempts : Text → Key

pub record Mail : Type 0 where
  pub address : Text
  pub code : Text

pub record State : Type 0 where
  pub table : Table
  pub counters : Counters
  pub mails : List Mail

pub data Answer : Type 0 where
  too_many bad_email already_registered code_not_saved refused already_verified unknown : Answer
  wrong_code sent code_sent weak done not_sent reset_failed : Answer
  registered accepted : ℕ → Answer
  maybe_sent code_sent_to : Text → Answer
  token : User → Answer

abbrev pub max_code_attempts : ℕ
max_code_attempts = 5

-- Fifteen minutes.
abbrev pub code_attempts_ttl : ℕ
code_attempts_ttl = 900

-- What a request comes with: `delivered` tells whether a mail that is sent at once goes out.
pub record Call : Type 0 where
  pub fault : Query → Bool
  pub ip : Text
  pub now : ℕ
  pub random : ℕ
  pub draw : ℕ
  pub delivered : Bool

abbrev pub with_table : State → Table → State
with_table s t = record s { table = t }

-- A new code: it is saved, and mailed when it has been.
abbrev pub mail_saved : State → User → Text → Answer → Result QueryError Table → Answer × State
mail_saved s user code answer (err e) = (code_not_saved, s)
mail_saved s user code answer (ok t) = (
  answer,
  record s { table = t; mails = s.mails ++ (record { address = user.email; code = code } ∷ []) },
)

unfoldable pub send_code : Call → State → User → Answer → Answer × State
unfolding generate_verification_code save_verification_code
send_code call s user answer =
    let code = generate_verification_code call.draw in
    mail_saved s user code answer (save_verification_code call.fault s.table user.id code call.now)

abbrev pub has_at : Text → Bool
has_at email = any (λ c. c == 64) email

abbrev after_insert : Call → State → Result UserError (User × Table) → Answer × State
after_insert call s (err e) = (refused, s)
after_insert call s (ok (user, t)) = send_code call (with_table s t) user (registered user.id)

-- Whether there is an account decides between a new code and a new account.
abbrev register_found : Call → State → RegisterRequest → Result UserError User → Answer × State
register_found call s req (ok user) =
    if user.email_verified
    then (already_registered, s)
    else send_code call s user (accepted user.id)
register_found call s req (err e) =
    after_insert call s (register_with_transaction call.fault s.table req call.random call.now)

module _ (number : Key → ℕ) where
  -- `rateStore.Allow`.
  abbrev pub allow : State → Key → ℕ → ℕ → ℕ → Bool × State
  allow s key limit window now =
      let (granted, c) = count_request s.counters (number key) limit window now in
      (granted, record s { counters = c })

  unfoldable pub register : Call → State → RegisterRequest → Answer × State
  unfolding count_request send_code get_user_by_email register_with_transaction byte_count
  register call s req =
      let (minute, s1) = allow s (reg_min call.ip) 1 60 call.now in
      let (hour, s2) = allow s1 (reg_hour call.ip) 3 3600 call.now in
      if not minute
      then (too_many, s1)
      else if not hour
      then (too_many, s2)
      else if ltb (byte_count req.email) 3 || not (has_at req.email)
      then (bad_email, s2)
      else register_found call s2 req (get_user_by_email call.fault s2.table req.email)

  abbrev pub login_found : Call → State → Text → Result UserError User → Answer × State
  login_found call s email (err e) = (maybe_sent (normalize_email email), s)
  login_found call s email (ok user) = send_code call s user (code_sent_to user.email)

  unfoldable pub login_request : Call → State → Text → Answer × State
  unfolding count_request send_code login normalize_email
  login_request call s email =
      let (granted, s1) = allow s (login_throttle call.ip) 1 5 call.now in
      if not granted
      then (too_many, s1)
      else login_found call s1 email (login call.fault s1.table email)

  abbrev pub kept : State → Result QueryError Table → State
  kept s (err e) = s
  kept s (ok t) = with_table s t

  abbrev pub invalidate_found : Call → State → Result UserError User → State
  invalidate_found call s (err e) = s
  invalidate_found call s (ok user) = kept s (clear_verification_code call.fault s.table user.id)

  unfoldable pub invalidate_code : Call → State → Text → State
  unfolding get_user_by_email clear_verification_code
  invalidate_code call s email =
      invalidate_found call s (get_user_by_email call.fault s.table email)

  abbrev pub attempt_key : Text → ℕ
  attempt_key email = number (code_attempts (normalize_email email))

  -- One more wrong answer; the fifth makes the code useless.
  unfoldable pub count_wrong : Call → State → Text → State
  unfolding invalidate_code incr normalize_email
  count_wrong call s email =
      let (n, c) = incr s.counters (attempt_key email) code_attempts_ttl call.now in
      let s1 = record s { counters = c } in
      if leb max_code_attempts n then invalidate_code call s1 email else s1

  abbrev pub forget_attempts : State → Text → State
  forget_attempts s email = record s { counters = reset s.counters (attempt_key email) }

  abbrev pub verify_found : Call → State → Text → Result UserError (User × Table) → Answer × State
  verify_found call s email (err e) = (wrong_code, count_wrong call s email)
  verify_found call s email (ok (user, t)) = (token user, forget_attempts (with_table s t) email)

  -- The counter as a request reads it first.
  abbrev pub is_used_up : Call → State → Text → Bool
  is_used_up call s email = leb max_code_attempts (get s.counters (attempt_key email) call.now)

  -- Where there is no place left for a wrong answer, the code is erased and not looked at.
  abbrev pub guarded : Call → State → Text → Answer × State → Answer × State
  guarded call s email next =
      if is_used_up call s email then (too_many, invalidate_code call s email) else next

  unfoldable pub verify_email : Call → State → Text → Text → Answer × State
  unfolding get count_wrong invalidate_code verify_email_by_code reset normalize_email
  verify_email call s email code =
      guarded call s email
        (verify_found call s email (verify_email_by_code call.fault s.table email code call.now))

  abbrev resend_found : Call → State → Result UserError User → Answer × State
  resend_found call s (err e) = (unknown, s)
  resend_found call s (ok user) =
      if user.email_verified then (already_verified, s) else send_code call s user code_sent

  unfoldable pub resend_verification_code : Call → State → Text → Answer × State
  unfolding get_user_by_email send_code
  resend_verification_code call s email =
      resend_found call s (get_user_by_email call.fault s.table email)

  abbrev forgot_found : Call → State → Result UserError User → Answer × State
  forgot_found call s (err e) = (sent, s)
  forgot_found call s (ok user) = send_code call s user (if call.delivered then sent else not_sent)

  unfoldable pub forgot_password : Call → State → Text → Answer × State
  unfolding get_user_by_email send_code
  forgot_password call s email = forgot_found call s (get_user_by_email call.fault s.table email)

  abbrev after_reset : Call → State → ℕ → Result UserError Table → Answer × State
  after_reset call s id (err e) = (reset_failed, s)
  after_reset call s id (ok t) =
      (done, kept (with_table s t) (clear_verification_code call.fault t id))

  abbrev reset_found :
      (ℕ → Bool)
      → (Text → Option Text)
      → Call
      → State
      → Text
      → Text
      → Result QueryError User
      → Answer × State
  reset_found capital bcrypt call s email password (err e) = (wrong_code, count_wrong call s email)
  reset_found capital bcrypt call s email password (ok user) =
      let s1 = forget_attempts s email in
      if not (any capital password)
      then (weak, s1)
      else after_reset call s1 user.id
          (reset_password call.fault bcrypt s1.table user.id password call.now)

  -- `capital` tells the letters of the list in the code, Latin and Cyrillic.
  unfoldable pub reset_password_request :
      (ℕ → Bool) → (Text → Option Text) → Call → State → Text → Text → Text → Answer × State
  unfolding get count_wrong invalidate_code reset_password clear_verification_code reset
  reset_password_request capital bcrypt call s email code password = guarded call s email (
      reset_found capital bcrypt call s email password
        (get_by_email_and_code call.fault s.table email code call.now))
