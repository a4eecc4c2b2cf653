-- ===== src/Users/Texts.antt =====
-- Texts as lists of code points: the functions of `strings` and `regexp` that the accounts use, and
-- `normalizeEmail` (internal/usecase/user.go).
use mathlib.Core.Bool.{false≢true}
use hozdacha.Base.{
  ℕ, ◌+◌, ◌≡◌, inl, inr, refl, sym, ap, subst, ◌∙◌, Bool, true, false, ◌&&◌, ◌||◌, [], ◌∷◌,
  Bool-cases, leb, ◌==◌, if◌then◌else◌, arith, ==_self, ==_iff,
}
use hozdacha.Store.Rows.{Text}

unfoldable pub text_eq : Text → Text → Bool
text_eq [] [] = true
text_eq [] (b ∷ t) = false
text_eq (a ∷ s) [] = false
text_eq (a ∷ s) (b ∷ t) = a == b && text_eq s t

-- `unicode.ToLower` of an ASCII letter.
unfoldable pub lower_rune : ℕ → ℕ
lower_rune c = if leb 65 c && leb c 90 then c + 32 else c

unfoldable pub lower : Text → Text
lower [] = []
lower (c ∷ cs) = lower_rune c ∷ lower cs

-- Space, and the control characters from tab to carriage return.
unfoldable pub is_space : ℕ → Bool
is_space c = c == 32 || (leb 9 c && leb c 13)

unfoldable pub trim_left : Text → Text
trim_left [] = []
trim_left (c ∷ cs) = if is_space c then trim_left cs else c ∷ cs

abbrev pub keep_rune : ℕ → Text → Text
keep_rune c [] = if is_space c then [] else c ∷ []
keep_rune c (d ∷ ds) = c ∷ d ∷ ds

unfoldable pub trim_right : Text → Text
trim_right [] = []
trim_right (c ∷ cs) = keep_rune c (trim_right cs)

unfoldable pub trim_space : Text → Text
unfolding trim_left trim_right
trim_space s = trim_left (trim_right s)

unfoldable pub normalize_email : Text → Text
unfolding trim_space lower
normalize_email email = lower (trim_space email)

-- `strings.Split(s, "@")[0]`.
unfoldable pub before_at : Text → Text
before_at [] = []
before_at (c ∷ cs) = if c == 64 then [] else c ∷ before_at cs

abbrev pub is_digit : ℕ → Bool
is_digit c = leb 48 c && leb c 57

-- The text without the matches of `\D`.
unfoldable pub digits_of : Text → Text
digits_of [] = []
digits_of (c ∷ cs) = if is_digit c then c ∷ digits_of cs else digits_of cs

pub text_eq_self : (s : Text) → text_eq s s ≡ true
unfolding text_eq
text_eq_self [] = refl
text_eq_self (c ∷ cs) = rw (==_self c) (text_eq_self cs)

pub text_eq_sound : (s t : Text) → text_eq s t ≡ true → s ≡ t
unfolding text_eq
text_eq_sound [] [] h = refl
text_eq_sound [] (b ∷ t) h = absurd (false≢true h)
text_eq_sound (a ∷ s) [] h = absurd (false≢true h)
text_eq_sound (a ∷ s) (b ∷ t) h = elim (Bool-cases (a == b)) [
  | inl e ↦
      subst (λ x. (a ∷ s) ≡ (x ∷ t)) ((==_iff a b).0 e)
        (ap (λ u. a ∷ u) (text_eq_sound s t (sym (ap (λ x. x && text_eq s t) e) ∙ h)))
  | inr e ↦ absurd (false≢true (sym (ap (λ x. x && text_eq s t) e) ∙ h))
]

lower_rune_twice : (c : ℕ) → lower_rune (lower_rune c) ≡ lower_rune c
unfolding lower_rune
lower_rune_twice c = ground arith

is_space-lower_rune : (c : ℕ) → is_space (lower_rune c) ≡ is_space c
unfolding lower_rune is_space
is_space-lower_rune c = ground arith

lower_twice : (s : Text) → lower (lower s) ≡ lower s
unfolding lower
lower_twice [] = refl
lower_twice (c ∷ cs) =
    ap (λ x. x ∷ lower (lower cs)) (lower_rune_twice c)
    ∙ ap (λ u. lower_rune c ∷ u) (lower_twice cs)

-- Case changes no space.
keep_rune-lower : (c : ℕ) (s : Text) → keep_rune (lower_rune c) (lower s) ≡ lower (keep_rune c s)
unfolding lower
keep_rune-lower c (d ∷ s) = refl
keep_rune-lower c [] = elim (Bool-cases (is_space c)) [
  | inl e ↦ rw (is_space-lower_rune c, e)
  | inr e ↦ rw (is_space-lower_rune c, e)
]

trim_right-lower : (s : Text) → trim_right (lower s) ≡ lower (trim_right s)
unfolding trim_right lower
trim_right-lower [] = refl
trim_right-lower (c ∷ s) =
    ap (keep_rune (lower_rune c)) (trim_right-lower s) ∙ keep_rune-lower c (trim_right s)

trim_left-lower : (s : Text) → trim_left (lower s) ≡ lower (trim_left s)
unfolding trim_left lower
trim_left-lower [] = refl
trim_left-lower (c ∷ s) = elim (Bool-cases (is_space c)) [
  | inl e ↦ rw (is_space-lower_rune c, e) (trim_left-lower s)
  | inr e ↦ rw (is_space-lower_rune c, e)
]

trim_left-keep_rune :
    (c : ℕ) (s : Text) → is_space c ≡ true → trim_left (keep_rune c s) ≡ trim_left s
unfolding trim_left
trim_left-keep_rune c [] e = rw e
trim_left-keep_rune c (d ∷ s) e = rw e

trim_left-keep_text :
    (c : ℕ) (s : Text) → is_space c ≡ false → trim_left (keep_rune c s) ≡ keep_rune c s
unfolding trim_left
trim_left-keep_text c [] e = rw (e, e)
trim_left-keep_text c (d ∷ s) e = rw e

trim_right-trim_left : (s : Text) → trim_right (trim_left s) ≡ trim_left (trim_right s)
unfolding trim_left trim_right
trim_right-trim_left [] = refl
trim_right-trim_left (c ∷ s) = elim (Bool-cases (is_space c)) [
  | inl e ↦ rw e (trim_right-trim_left s ∙ sym (trim_left-keep_rune c (trim_right s) e))
  | inr e ↦ rw e (sym (trim_left-keep_text c (trim_right s) e))
]

trim_left_twice : (s : Text) → trim_left (trim_left s) ≡ trim_left s
unfolding trim_left
trim_left_twice [] = refl
trim_left_twice (c ∷ s) = elim (Bool-cases (is_space c)) [
  | inl e ↦ rw e (trim_left_twice s)
  | inr e ↦ rw (e, e)
]

keep_rune_twice : (c : ℕ) (s : Text) → trim_right s ≡ s → trim_right (keep_rune c s) ≡ keep_rune c s
unfolding trim_right
keep_rune_twice c [] h = elim (Bool-cases (is_space c)) [ inl e ↦ rw e | inr e ↦ rw (e, e) ]
keep_rune_twice c (d ∷ s) h = rw h

trim_right_twice : (s : Text) → trim_right (trim_right s) ≡ trim_right s
unfolding trim_right
trim_right_twice [] = refl
trim_right_twice (c ∷ s) = keep_rune_twice c (trim_right s) (trim_right_twice s)

trim_space_twice : (s : Text) → trim_space (trim_space s) ≡ trim_space s
unfolding trim_space
trim_space_twice s =
    ap trim_left (trim_right-trim_left (trim_right s))
    ∙ trim_left_twice (trim_right (trim_right s))
    ∙ ap trim_left (trim_right_twice s)

trim_space-lower : (s : Text) → trim_space (lower s) ≡ lower (trim_space s)
unfolding trim_space
trim_space-lower s = ap trim_left (trim_right-lower s) ∙ trim_left-lower (trim_right s)

-- An address that has been normalised is left as it is when it is normalised again, and neither the case of
-- its letters nor white space around it makes a difference.
pub normalize_email_twice :
    (email : Text)
    → (normalize_email (normalize_email email) ≡ normalize_email email)
      × (normalize_email (lower email) ≡ normalize_email email)
      × (normalize_email (trim_space email) ≡ normalize_email email)
unfolding normalize_email
normalize_email_twice email = (
  ap lower (trim_space-lower (trim_space email))
      ∙ lower_twice (trim_space (trim_space email))
      ∙ ap lower (trim_space_twice email),
  ap lower (trim_space-lower email) ∙ lower_twice (trim_space email),
  ap lower (trim_space_twice email),
)
