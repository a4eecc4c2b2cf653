-- ===== src/Session.antt =====
-- Tokens and their revocation (internal/middleware/auth.go, internal/services/blacklist.go and `Logout` of
-- internal/handlers/user.go).
--
-- Times are seconds. `parse` is jwt.Parse with the secret: the claims of a token that is valid at a time. The
-- blacklist is a map in Redis whose entries lapse; `down` tells that Redis does not answer.
mod Revoked
mod Examples
use hozdacha.Base.{
  ℕ, ◌+◌, ◌-◌, Bool, true, false, Option, none, some, List, [], ◌∷◌, ltb, leb, ◌==◌, if◌then◌else◌,
}
use hozdacha.Store.Transaction.{update}
use hozdacha.Store.Rows.{Text}
use hozdacha.Users.Texts.{text_eq}

pub record Claims : Type 0 where
  pub user_id : Option ℕ
  pub role : Option Text
  pub jti : Option Text
  pub issued_at : Option ℕ
  pub expires : Option ℕ

-- What is stored for a user: the time all his tokens were revoked at, and when the entry lapses.
pub record Revocation : Type 0 where
  pub revoked_at : ℕ
  pub lapses : ℕ

-- For a token the time its entry lapses at.
pub record Blacklist : Type 0 where
  pub tokens : Text → Option ℕ
  pub revocations : ℕ → Option Revocation

unfoldable pub add_to_blacklist : Blacklist → Text → ℕ → ℕ → Blacklist
unfolding text_eq
add_to_blacklist b jti ttl now = record b {
  tokens = λ j. if text_eq jti j then some (now + ttl) else b.tokens j;
}

abbrev pub is_live : ℕ → Option ℕ → Bool
is_live now none = false
is_live now (some lapses) = ltb now lapses

unfoldable pub is_blacklisted : Blacklist → Text → ℕ → Bool
is_blacklisted b jti now = is_live now (b.tokens jti)

unfoldable pub blacklist_all_user_tokens : Blacklist → ℕ → ℕ → ℕ → Blacklist
blacklist_all_user_tokens b user expiration now = record b {
  revocations =
      update b.revocations user (some (record { revoked_at = now; lapses = now + expiration }));
}

abbrev issued_before : ℕ → ℕ → Option Revocation → Bool
issued_before issued now none = false
issued_before issued now (some r) = if ltb now r.lapses then ltb issued r.revoked_at else false

unfoldable pub is_user_blacklisted : Blacklist → ℕ → ℕ → ℕ → Bool
is_user_blacklisted b user issued now = issued_before issued now (b.revocations user)

-- "Bearer ".
abbrev pub bearer : Text
bearer = 66 ∷ 101 ∷ 97 ∷ 114 ∷ 101 ∷ 114 ∷ 32 ∷ []

unfoldable pub without_prefix : Text → Text → Option Text
without_prefix [] t = some t
without_prefix (p ∷ ps) [] = none
without_prefix (p ∷ ps) (c ∷ cs) = let rest = without_prefix ps cs in if p == c then rest else none

-- A user who is known to the request.
pub record Session : Type 0 where
  pub user : ℕ
  pub claims : Claims

abbrev pub has_expired : ℕ → Option ℕ → Bool
has_expired now none = false
has_expired now (some e) = ltb e now

module _ (parse : Text → ℕ → Option Claims) (down : Bool) (checker : Option Blacklist)
    (now : ℕ) where
  -- Without a checker or without an id the test is left out; where Redis fails the request goes on without a user.
  unfoldable pub token_refused : Option Blacklist → Option Text → Bool
  unfolding is_blacklisted
  token_refused (some b) (some jti) = if down then true else is_blacklisted b jti now
  token_refused (some b) none = false
  token_refused none jti = false

  unfoldable pub user_refused : Option Blacklist → ℕ → Option ℕ → Bool
  unfolding is_user_blacklisted
  user_refused (some b) user (some issued) =
      if down then true else is_user_blacklisted b user issued now
  user_refused (some b) user none = false
  user_refused none user issued = false

  unfoldable pub session_of : Claims → Option ℕ → Option Session
  unfolding token_refused user_refused
  session_of claims none = none
  session_of claims (some user) =
      if has_expired now claims.expires
      then none
      else if token_refused checker claims.jti
      then none
      else if user_refused checker user claims.issued_at
      then none
      else some (record { user = user; claims = claims })

  unfoldable pub session_if_valid : Option Claims → Option Session
  unfolding session_of
  session_if_valid none = none
  session_if_valid (some claims) = session_of claims claims.user_id

  unfoldable pub of_token : Option Text → Option Session
  unfolding session_if_valid
  of_token none = none
  of_token (some token) = session_if_valid (parse token now)

  -- `AuthMiddleware`: the user, if any, with whom the request goes on.
  unfoldable pub authenticate : Text → Option Session
  unfolding without_prefix of_token
  authenticate header = of_token (without_prefix bearer header)

-- `RequireAuth` and `RequireAdmin` let a request through.
abbrev pub require_auth : Option Session → Bool
require_auth none = false
require_auth (some s) = true

abbrev admin : Text
admin = 97 ∷ 100 ∷ 109 ∷ 105 ∷ 110 ∷ []

abbrev role_is_admin : Option Text → Bool
role_is_admin none = false
role_is_admin (some role) = text_eq role admin

unfoldable pub require_admin : Option Session → Bool
unfolding text_eq
require_admin none = false
require_admin (some s) = role_is_admin s.claims.role

-- A day, where the token has no time.
abbrev default_ttl : ℕ
default_ttl = 86400

unfoldable pub ttl_of : Option ℕ → ℕ → ℕ
ttl_of none now = default_ttl
ttl_of (some e) now = if leb e now then 1 else e - now

unfoldable pub revoke : Option Blacklist → Text → ℕ → ℕ → Option Blacklist
unfolding add_to_blacklist
revoke none jti ttl now = none
revoke (some b) jti ttl now = some (add_to_blacklist b jti ttl now)

pub data LogoutAnswer : Type 0 where
  no_token crash logged_out : LogoutAnswer

unfoldable pub logout_of :
    Bool → Option Blacklist → ℕ → Option ℕ → Option Text → LogoutAnswer × Option Blacklist
unfolding revoke ttl_of
logout_of down checker now expires none = (crash, checker)
logout_of down checker now expires (some jti) =
    (logged_out, if down then checker else revoke checker jti (ttl_of expires now) now)

-- `Logout`: a failure of Redis is only logged, and a token without an id makes the handler panic.
unfoldable pub logout :
    Bool → Option Blacklist → ℕ → Option Session → LogoutAnswer × Option Blacklist
unfolding logout_of
logout down checker now none = (no_token, checker)
logout down checker now (some s) = logout_of down checker now s.claims.expires s.claims.jti
