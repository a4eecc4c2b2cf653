-- ===== src/Sync/Href.antt =====
-- The id at the end of a reference of MoySklad: `extractMoyskladUUID`
-- (internal/services/moysklad_sync.go) and `extractIDFromHref` (internal/services/webhook_processor.go).
use hozdacha.Base.{
  ℕ, ◌≡◌, refl, ap, ◌∙◌, Bool, false, any, Option, none, some, [], ◌∷◌, ◌++◌, neither_true, ◌==◌,
  if◌then◌else◌,
}
use hozdacha.Store.Rows.{Text}
use hozdacha.Sync.{or_else}

-- What stands behind the last slash.
unfoldable pub after_last_slash : Text → Option Text
after_last_slash [] = none
after_last_slash (c ∷ cs) = or_else (after_last_slash cs) (if c == 47 then some cs else none)

-- `strings.TrimSuffix(href, "/")`.
unfoldable pub trim_slash : Text → Text
trim_slash [] = []
trim_slash (c ∷ []) = if c == 47 then [] else c ∷ []
trim_slash (c ∷ d ∷ ds) = c ∷ trim_slash (d ∷ ds)

abbrev last_segment : Text → Option Text → Text
last_segment href none = href
last_segment href (some []) = href
last_segment href (some (c ∷ cs)) = c ∷ cs

unfoldable pub extract_moysklad_uuid : Text → Text
unfolding trim_slash after_last_slash
extract_moysklad_uuid href = last_segment (trim_slash href) (after_last_slash (trim_slash href))

abbrev id_or_empty : Option Text → Text
id_or_empty none = []
id_or_empty (some id) = id

unfoldable pub extract_id_from_href : Text → Text
unfolding after_last_slash
extract_id_from_href href = id_or_empty (after_last_slash href)

abbrev pub has_slash : Text → Bool
has_slash t = any (λ c. c == 47) t

no_slash_behind : (t : Text) → has_slash t ≡ false → after_last_slash t ≡ none
unfolding after_last_slash
no_slash_behind [] h = refl
no_slash_behind (c ∷ cs) h =
    let (other, rest) = neither_true (c == 47) _ h in rw (no_slash_behind cs rest, other)

behind_slash : (base t : Text) → has_slash t ≡ false → after_last_slash (base ++ (47 ∷ t)) ≡ some t
unfolding after_last_slash
behind_slash [] t h = rw (no_slash_behind t h)
behind_slash (c ∷ base) t h = rw (behind_slash base t h)

no_slash_trimmed : (t : Text) → has_slash t ≡ false → trim_slash t ≡ t
unfolding trim_slash
no_slash_trimmed [] h = refl
no_slash_trimmed (c ∷ []) h = rw ((neither_true (c == 47) _ h).0)
no_slash_trimmed (c ∷ d ∷ t) h =
    ap (λ s. c ∷ s) (no_slash_trimmed (d ∷ t) (neither_true (c == 47) _ h).1)

nothing_trimmed :
    (base : Text) (c : ℕ) (t : Text)
    → has_slash (c ∷ t) ≡ false
    → trim_slash (base ++ (47 ∷ c ∷ t)) ≡ base ++ (47 ∷ c ∷ t)
unfolding trim_slash
nothing_trimmed [] c t h = ap (λ s. 47 ∷ s) (no_slash_trimmed (c ∷ t) h)
nothing_trimmed (b ∷ []) c t h = ap (λ s. b ∷ s) (nothing_trimmed [] c t h)
nothing_trimmed (b ∷ d ∷ base) c t h = ap (λ s. b ∷ s) (nothing_trimmed (d ∷ base) c t h)

slash_trimmed : (t : Text) → trim_slash (t ++ (47 ∷ [])) ≡ t
unfolding trim_slash
slash_trimmed [] = refl
slash_trimmed (c ∷ []) = refl
slash_trimmed (c ∷ d ∷ t) = ap (λ s. c ∷ s) (slash_trimmed (d ∷ t))

-- Both functions read back the id that a reference was made with, where it is not empty and has no slash; with a
-- slash behind it the first still does, and the second gives the empty text.
pub extract-href :
    (base : Text) (c : ℕ) (t : Text)
    → has_slash (c ∷ t) ≡ false
    → let href = base ++ (47 ∷ c ∷ t) in
      (extract_moysklad_uuid href ≡ c ∷ t)
      × (extract_id_from_href href ≡ c ∷ t)
      × (extract_moysklad_uuid (href ++ (47 ∷ [])) ≡ c ∷ t)
      × (extract_id_from_href (href ++ (47 ∷ [])) ≡ [])
unfolding extract_moysklad_uuid extract_id_from_href
extract-href base c t h =
    let href = base ++ (47 ∷ c ∷ t) in
    let whole = ap (λ o. last_segment href o) (behind_slash base (c ∷ t) h) in
    (
      ap (λ u. last_segment u (after_last_slash u)) (nothing_trimmed base c t h) ∙ whole,
      ap id_or_empty (behind_slash base (c ∷ t) h),
      ap (λ u. last_segment u (after_last_slash u)) (slash_trimmed href) ∙ whole,
      ap id_or_empty (behind_slash href [] refl),
    )
