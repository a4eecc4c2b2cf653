-- ===== src/Users/Codes.antt =====
-- Codes of six digits, names from an address, and the strength of a password (internal/usecase/user.go).
use hozdacha.Base.{
  ℕ, zero, suc, ◌+◌, ◌-◌, ◌*◌, ◌/◌, ◌%◌, ◌^◌, ◌<◌, ◌≡◌, ◌∙◌, refl, ap, Bool, true, false, ◌&&◌,
  ◌||◌, any, [], ◌∷◌, ◌++◌, length, length-append, ltb, leb, ◌==◌, if◌then◌else◌, arith,
}
use hozdacha.Store.Rows.{Text}
use hozdacha.Users.Texts.{before_at, lower}

-- The last `k` decimal digits, with leading zeros.
unfoldable pub digits : ℕ → ℕ → Text
digits zero n = []
digits (suc k) n = digits k (n / 10) ++ ((48 + n % 10) ∷ [])

-- `100000 + rand.Int(900000)`, printed by `%06d`.
unfoldable pub generate_verification_code : ℕ → Text
unfolding digits
generate_verification_code n = digits 6 (100000 + n)

-- `%d` of a number below 10000.
abbrev pub decimal : ℕ → Text
decimal n =
    if ltb n 10
    then digits 1 n
    else if ltb n 100
    then digits 2 n
    else if ltb n 1000
    then digits 3 n
    else digits 4 n

-- The name a request has, else one made from the address and a random number.
abbrev pub username_of : Text → Text → ℕ → Text
username_of [] email n = lower (before_at email) ++ decimal n
username_of (c ∷ cs) email n = c ∷ cs

-- The bytes of a code point in UTF-8, which `len` counts.
abbrev pub rune_bytes : ℕ → ℕ
rune_bytes c = if ltb c 128 then 1 else if ltb c 2048 then 2 else if ltb c 65536 then 3 else 4

unfoldable pub byte_count : Text → ℕ
byte_count [] = 0
byte_count (c ∷ cs) = rune_bytes c + byte_count cs

abbrev pub is_upper : ℕ → Bool
is_upper c = leb 65 c && leb c 90

abbrev pub is_lower : ℕ → Bool
is_lower c = leb 97 c && leb c 122

abbrev pub is_number : ℕ → Bool
is_number c = leb 48 c && leb c 57

-- `!`, `@`, `#`, `$`, `%`, `^`, `&` and `*`.
abbrev pub is_special : ℕ → Bool
is_special c = c == 33 || c == 64 || c == 35 || c == 36 || c == 37 || c == 94 || c == 38 || c == 42

pub record Found : Type 0 where
  pub has_upper : Bool
  pub has_lower : Bool
  pub has_number : Bool
  pub has_special : Bool

-- The switch: the first case that fits sets its flag.
abbrev pub note_char : Found → ℕ → Found
note_char f c =
    if is_upper c
    then record f { has_upper = true }
    else if is_lower c
    then record f { has_lower = true }
    else if is_number c
    then record f { has_number = true }
    else if is_special c
    then record f { has_special = true }
    else f

unfoldable pub scan : Text → Found → Found
scan [] f = f
scan (c ∷ cs) f = scan cs (note_char f c)

abbrev pub one_if : Bool → ℕ
one_if b = if b then 1 else 0

abbrev pub conditions : Found → ℕ
conditions f = one_if f.has_upper + one_if f.has_lower + one_if f.has_number + one_if f.has_special

abbrev nothing_found : Found
nothing_found = record {
  has_upper = false;
  has_lower = false;
  has_number = false;
  has_special = false;
}

unfoldable pub is_password_strong : Text → Bool
unfolding byte_count scan
is_password_strong password =
    if ltb (byte_count password) 8 then false else leb 3 (conditions (scan password nothing_found))

pub length-digits : (k n : ℕ) → length (digits k n) ≡ k
unfolding digits
length-digits zero n = refl
length-digits (suc k) n =
    length-append (digits k (n / 10)) ((48 + n % 10) ∷ []) ∙ omega (arith, length-digits k (n / 10))

-- The number that a text of digits stands for.
abbrev pub read_from : ℕ → Text → ℕ
read_from acc [] = acc
read_from acc (c ∷ cs) = read_from (10 * acc + (c - 48)) cs

read_from-append :
    (acc : ℕ) (s : Text) (c : ℕ) → read_from acc (s ++ (c ∷ [])) ≡ 10 * read_from acc s + (c - 48)
read_from-append acc [] c = refl
read_from-append acc (d ∷ s) c = read_from-append (10 * acc + (d - 48)) s c

read-digits : (k n : ℕ) → n < 10 ^ k → read_from 0 (digits k n) ≡ n
unfolding digits
read-digits zero n h = omega arith
read-digits (suc k) n h =
    read_from-append 0 (digits k (n / 10)) (48 + n % 10)
    ∙ omega (arith, read-digits k (n / 10) (omega arith))

-- A code has six digits and is the number drawn, 100000 further on: no two draws have the same code.
pub read-generate :
    (n : ℕ)
    → n < 900000
    → (length (generate_verification_code n) ≡ 6)
      × (read_from 0 (generate_verification_code n) ≡ 100000 + n)
unfolding generate_verification_code
read-generate n h = (length-digits 6 (100000 + n), read-digits 6 (100000 + n) (omega arith))

note_char-upper : (f : Found) (c : ℕ) → Found.has_upper (note_char f c) ≡ f.has_upper || is_upper c
note_char-upper f c = ground arith

note_char-lower : (f : Found) (c : ℕ) → Found.has_lower (note_char f c) ≡ f.has_lower || is_lower c
note_char-lower f c = ground arith

note_char-number :
    (f : Found) (c : ℕ) → Found.has_number (note_char f c) ≡ f.has_number || is_number c
note_char-number f c = ground arith

note_char-special :
    (f : Found) (c : ℕ) → Found.has_special (note_char f c) ≡ f.has_special || is_special c
note_char-special f c = ground arith

or_assoc : (a b c : Bool) → (a || b) || c ≡ a || (b || c)
or_assoc true b c = refl
or_assoc false b c = refl

or_false : (b : Bool) → b ≡ b || false
or_false true = refl
or_false false = refl

long_enough : (n : ℕ) (b : Bool) → (if ltb n 8 then false else b) ≡ leb 8 n && b
long_enough n true = ground arith
long_enough n false = ground arith

module _ (flag : Found → Bool) (kind : ℕ → Bool)
    (noted : (f : Found) (c : ℕ) → flag (note_char f c) ≡ flag f || kind c) where
  -- A flag that a character of one kind sets is set by a text with such a character.
  scan-flag : (s : Text) (f : Found) → flag (scan s f) ≡ flag f || any kind s
  unfolding scan
  scan-flag [] f = or_false (flag f)
  scan-flag (c ∷ s) f =
      scan-flag s (note_char f c)
      ∙ ap (λ b. b || any kind s) (noted f c)
      ∙ or_assoc (flag f) (kind c) (any kind s)

-- A password is strong when it has eight bytes and characters of three of the four kinds.
pub is_password_strong-kinds :
    (password : Text)
    → is_password_strong password
      ≡ leb 8 (byte_count password)
        && leb 3 (
            one_if (any is_upper password)
            + one_if (any is_lower password)
            + one_if (any is_number password)
            + one_if (any is_special password))
unfolding is_password_strong
is_password_strong-kinds p =
    rw
      (
        scan-flag (λ f. f.has_upper) is_upper note_char-upper p nothing_found,
        scan-flag (λ f. f.has_lower) is_lower note_char-lower p nothing_found,
        scan-flag (λ f. f.has_number) is_number note_char-number p nothing_found,
        scan-flag (λ f. f.has_special) is_special note_char-special p nothing_found,
      )
      (long_enough (byte_count p) _)
