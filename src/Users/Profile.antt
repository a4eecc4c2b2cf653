-- ===== src/Users/Profile.antt =====
-- The change of a profile and the codes at the login (internal/usecase/user.go, internal/handlers/user.go).
use hozdacha.Base.{
  ℕ, ◌*◌, ◌≤◌, ◌≡◌, arith, Bool, Option, some, [], ◌∷◌, length, All, ok, err, lt→ltb,
}
use hozdacha.Store.Rows.{Text}
use hozdacha.Users.{User, Table, Query, get_by_id}
use hozdacha.Users.Codes.{rune_bytes, byte_count}
use hozdacha.Users.Service.{name_too_long, update_profile}

two_bytes : (c : ℕ) → 128 ≤ c → 2 ≤ rune_bytes c
two_bytes c h = ground arith

bytes_of_letters : (s : Text) → All (λ c. 128 ≤ c) s → 2 * length s ≤ byte_count s
unfolding byte_count
bytes_of_letters [] h = omega arith
bytes_of_letters (c ∷ s) (h, hs) = omega (arith, two_bytes c h, bytes_of_letters s hs)

-- A name of seventeen letters or more that are not ASCII is refused as longer than thirty-two: the limit
-- counts bytes.
pub update_profile-name_too_long :
    (fault : Query → Bool) (t : Table) (id : ℕ) (name : Text) (phone : Option Text) (u : User)
    → get_by_id fault t id ≡ ok (some u)
    → All (λ c. 128 ≤ c) name
    → 17 ≤ length name
    → update_profile fault t id (some name) phone ≡ err name_too_long
unfolding update_profile
update_profile-name_too_long fault t id name phone u found letters long =
    let bytes = bytes_of_letters name letters in
    rw (found, lt→ltb 32 (byte_count name) (omega arith))
