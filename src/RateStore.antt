-- ===== src/RateStore.antt =====
-- Counters of a fixed window (internal/cache/ratestore.go): the store in memory, which limits requests
-- where no Redis is configured.
--
-- The map is a function of the key. The mutex makes each operation one step; `cleanup` is a round of the
-- loop that deletes lapsed records, which may run between any two.
mod Examples
mod Windows
use hozdacha.Base.{
  ℕ, ◌+◌, Bool, true, false, Option, none, some, List, [], ◌∷◌, ltb, leb, ◌==◌, if◌then◌else◌,
}
use hozdacha.Store.Transaction.{update}

pub record MemRec : Type 0 where
  pub count : ℕ
  pub expires : ℕ

abbrev pub Counters : Type 0
Counters = ℕ → Option MemRec

-- The record a key has, if it has not lapsed: `now.After(r.expires)`.
abbrev pub live_rec : ℕ → Option MemRec → Option MemRec
live_rec now none = none
live_rec now (some r) = if ltb r.expires now then none else some r

abbrev pub counted_once : ℕ → ℕ → Option MemRec → MemRec
counted_once now ttl none = record { count = 1; expires = now + ttl }
counted_once now ttl (some r) = record { count = r.count + 1; expires = r.expires }

unfoldable pub incr : Counters → ℕ → ℕ → ℕ → ℕ × Counters
incr c key ttl now =
    let r = counted_once now ttl (live_rec now (c key)) in (r.count, update c key (some r))

abbrev pub count_of : Option MemRec → ℕ
count_of none = 0
count_of (some r) = r.count

unfoldable pub get : Counters → ℕ → ℕ → ℕ
get c key now = count_of (live_rec now (c key))

unfoldable pub reset : Counters → ℕ → Counters
reset c key = update c key none

unfoldable pub cleanup : Counters → ℕ → Counters
cleanup c now key = live_rec now (c key)

-- `Allow`: at most `limit` in a window.
unfoldable pub allow : Counters → ℕ → ℕ → ℕ → ℕ → Bool × Counters
unfolding incr
allow c key limit window now = let (n, c') = incr c key window now in (leb n limit, c')
