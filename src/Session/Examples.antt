-- ===== src/Session/Examples.antt =====
-- The theorem on revoked tokens for one session.
use hozdacha.Base.{
  ℕ, ◌<◌, ◌≡◌, refl, sym, false, Option, none, some, some_inj, some≢none, Bool-cases, inl, inr, [],
  ◌∷◌, ◌++◌, ltb, ltb→lt, if◌then◌else◌,
}
use hozdacha.Store.Rows.{Text}
use hozdacha.Session.{Claims, Blacklist, Session, authenticate, bearer, logout}
use hozdacha.Session.Revoked.{logout-closes}

abbrev claims : Claims
claims = record {
  user_id = some 7;
  role = none;
  jti = some (120 ∷ []);
  issued_at = some 100;
  expires = some 86500;
}

-- A token of one character, good until its time.
abbrev parse : Text → ℕ → Option Claims
parse token now = if ltb now 86500 then some claims else none

abbrev session : Session
session = record { user = 7; claims = claims }

abbrev nothing_revoked : Blacklist
nothing_revoked = record { tokens = λ jti. none; revocations = λ user. none }

valid_before :
    (at : ℕ) (found : Claims) → parse (97 ∷ []) at ≡ some found → (found ≡ claims) × (at < 86500)
valid_before at found h = elim (Bool-cases (ltb at 86500)) [
  | inl early ↦ (sym (some_inj (rw early at h)), ltb→lt at 86500 early)
  | inr late ↦ absurd (some≢none (sym (rw late at h)))
]

logout-closes_example :
    authenticate parse false
      (logout false (some nothing_revoked) 200 (some session)).1
      500
      (bearer ++ (97 ∷ []))
    ≡ none
logout-closes_example =
    logout-closes parse nothing_revoked session (97 ∷ []) (120 ∷ []) 200 500 86500 false
      valid_before refl refl
