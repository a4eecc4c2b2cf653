-- ===== src/Session/Revoked.antt =====
-- A token that was given back is of no more use (internal/middleware/auth.go, internal/handlers/user.go).
use hozdacha.Base.{
  ℕ, ◌+◌, ◌-◌, ◌<◌, ◌≤◌, ◌≡◌, refl, ap, ◌∙◌, arith, Bool, true, false, Option, none, some, ◌++◌,
  ltb, leb, if◌then◌else◌, if-cases, leb→le,
}
use hozdacha.Store.Rows.{Text}
use hozdacha.Users.Texts.{text_eq_self}
use hozdacha.Session.{
  is_live, has_expired, Claims, Blacklist, Session, add_to_blacklist, is_blacklisted, token_refused,
  user_refused, session_of, session_if_valid, of_token, authenticate, bearer, without_prefix,
  ttl_of, revoke, logout, logout_of,
}

soon : (e now later : ℕ) → later < e → e ≤ now → ltb later (now + 1) ≡ true
soon e now later h lapsed = ground arith

in_time : (e now later : ℕ) → later < e → ltb later (now + (e - now)) ≡ true
in_time e now later h = ground arith

-- While its time has not come, the entry of a token that was given back is there.
added-live :
    (b : Blacklist) (jti : Text) (e now later : ℕ)
    → later < e
    → is_blacklisted (add_to_blacklist b jti (ttl_of (some e) now) now) jti later ≡ true
unfolding is_blacklisted add_to_blacklist ttl_of
added-live b jti e now later h =
    ap (λ found. is_live later (if found then some (now + ttl_of (some e) now) else b.tokens jti))
      (text_eq_self jti)
    ∙ if-cases (λ ttl. ltb later (now + ttl) ≡ true) (leb e now) 1 (e - now)
        (λ lapsed. soon e now later h (leb→le e now lapsed)) (λ _. in_time e now later h)

module _ (parse : Text → ℕ → Option Claims) (down : Bool) (b : Blacklist) (now : ℕ) where
  token_refused_lem :
      (jti : Text)
      → is_blacklisted b jti now ≡ true
      → token_refused parse down (some b) now (some b) (some jti) ≡ true
  unfolding token_refused
  token_refused_lem jti listed = if-cases (λ x. x ≡ true) down true _ (λ _. refl) (λ _. listed)

  session_of-refused :
      (claims : Claims) (jti : Text) (user : Option ℕ)
      → claims.jti ≡ some jti
      → is_blacklisted b jti now ≡ true
      → session_of parse down (some b) now claims user ≡ none
  unfolding session_of
  session_of-refused claims jti none same listed = refl
  session_of-refused claims jti (some user) same listed =
      if-cases (λ o. o ≡ none) (has_expired now claims.expires) none _ (λ _. refl)
        (λ _.
          ap
            (λ refused.
              if refused
              then none
              else if user_refused parse down (some b) now (some b) user claims.issued_at
              then none
              else some (record { user = user; claims = claims }))
            (ap (token_refused parse down (some b) now (some b)) same
              ∙ token_refused_lem jti listed))

logout_lem :
    (b : Blacklist) (s : Session) (jti : Text) (now e : ℕ)
    → s.claims.jti ≡ some jti
    → s.claims.expires ≡ some e
    → (logout false (some b) now (some s)).1
      ≡ some (add_to_blacklist b jti (ttl_of (some e) now) now)
unfolding logout logout_of revoke
logout_lem b s jti now e has_id has_time = rw (has_id, has_time)

valid_or_not :
    (parse : Text → ℕ → Option Claims) (down : Bool) (b : Blacklist) (token jti : Text)
    (later e : ℕ) (o : Option Claims)
    → ((claims : Claims) → o ≡ some claims → (claims.jti ≡ some jti) × (later < e))
    → (later < e → is_blacklisted b jti later ≡ true)
    → session_if_valid parse down (some b) later o ≡ none
unfolding session_if_valid
valid_or_not parse down b token jti later e none kept listed = refl
valid_or_not parse down b token jti later e (some claims) kept listed =
    let (has_id, in_time) = kept claims refl in
    session_of-refused parse down b later claims jti claims.user_id has_id (listed in_time)

-- A session that a valid token gave is closed by a logout that reaches Redis: no later request with the token has a
-- user, whether Redis answers then or not, if a token keeps its claims and is valid only before its time.
pub logout-closes :
    (parse : Text → ℕ → Option Claims) (b : Blacklist) (s : Session) (token jti : Text)
    (now later e : ℕ) (down : Bool)
    → ((at : ℕ) (claims : Claims) → parse token at ≡ some claims → (claims ≡ s.claims) × (at < e))
    → s.claims.jti ≡ some jti
    → s.claims.expires ≡ some e
    → authenticate parse down (logout false (some b) now (some s)).1 later (bearer ++ token) ≡ none
unfolding authenticate of_token without_prefix
logout-closes parse b s token jti now later e down kept has_id has_time =
    let after = add_to_blacklist b jti (ttl_of (some e) now) now in
    ap (λ checker. session_if_valid parse down checker later (parse token later))
      (logout_lem b s jti now e has_id has_time)
    ∙ valid_or_not parse down after token jti later e (parse token later)
        (λ claims valid.
          let (same, early) = kept later claims valid in (ap Claims.jti same ∙ has_id, early))
        (added-live b jti e now later)
