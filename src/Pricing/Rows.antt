-- ===== src/Pricing/Rows.antt =====
-- The best active promotion of each product or category, and what the reservation window leaves of it.
use mathlib.Core.Bool.{false≢true}
use hozdacha.Base.{
  ℕ, ◌+◌, ◌≤◌, ◌<◌, ◌≡◌, inl, inr, refl, sym, ap, subst, ◌∙◌, true, false, Option, none, some, List,
  [], ◌∷◌, All, ok, Bool-cases, ℕ_discrete, ==_self, ==_ne, Option-cases, lt→ltb, le→ltb, ltb,
  if◌then◌else◌, arith,
}
use hozdacha.Window.{Promotion}
use hozdacha.Pricing.Ancestors.{CategoryRows, ancestor_map}
use hozdacha.Pricing.Best.{Covers, Covers-refl, Covers-trans}
use hozdacha.Pricing.Pricer.{
  Pricer, CategorySource, Links, selected, improves, put_best, best_rows, best_active, Chains,
  cached, get_ancestor_map, reload, ancestor_ttl,
}

improves-true :
    (p : Promotion) (best : Option Promotion) → improves p best ≡ true → Covers best (some p)
improves-true p none h = tt
improves-true p (some b) h = ground arith

improves-false :
    (p : Promotion) (best : Option Promotion) → improves p best ≡ false → Covers (some p) best
improves-false p none h = absurd (false≢true (sym h))
improves-false p (some b) h = ground arith

put_best-Covers :
    (best : ℕ → Option Promotion) (r : ℕ × Promotion) (k : ℕ) → Covers (best k) (put_best best r k)
put_best-Covers best (fk, p) k = elim (ℕ_discrete fk k) [
  | no n ↦ rw (==_ne n) (Covers-refl (best k))
  | yes y ↦
      rw (y, ==_self k)
        (elim (Bool-cases (improves p (best k))) [
          | inl e ↦ rw e (improves-true p (best k) e)
          | inr e ↦ rw e (Covers-refl (best k))
        ])
]

put_best_new :
    (best : ℕ → Option Promotion) (r : ℕ × Promotion) → Covers (some r.1) (put_best best r r.0)
put_best_new best (fk, p) = rw (==_self fk) (elim (Bool-cases (improves p (best fk))) [
  | inl e ↦ rw e (Covers-refl (some p))
  | inr e ↦ rw e (improves-false p (best fk) e)
])

abbrev Covered : List ℕ → ℕ → (ℕ → Option Promotion) → Links → (ℕ → Option Promotion) → Type 0
Covered ids now best rows f =
    ((k : ℕ) → Covers (best k) (f k))
    × All (λ r. selected ids now r ≡ true → Covers (some r.1) (f r.0)) rows

row_taken :
    (ids : List ℕ) (now : ℕ) (best : ℕ → Option Promotion) (r : ℕ × Promotion) (rows : Links)
    → selected ids now r ≡ true
    → best_rows ids now best (r ∷ rows) ≡ best_rows ids now (put_best best r) rows
unfolding best_rows
row_taken ids now best r rows e =
    ap (λ b. best_rows ids now (if b then put_best best r else best) rows) e

row_left :
    (ids : List ℕ) (now : ℕ) (best : ℕ → Option Promotion) (r : ℕ × Promotion) (rows : Links)
    → selected ids now r ≡ false
    → best_rows ids now best (r ∷ rows) ≡ best_rows ids now best rows
unfolding best_rows
row_left ids now best r rows e =
    ap (λ b. best_rows ids now (if b then put_best best r else best) rows) e

covers_from :
    (ids : List ℕ) (now : ℕ) (best : ℕ → Option Promotion) (r : ℕ × Promotion) (rows : Links)
    (next : ℕ → Option Promotion)
    → best_rows ids now best (r ∷ rows) ≡ best_rows ids now next rows
    → Covered ids now best (r ∷ rows) (best_rows ids now next rows)
    → Covered ids now best (r ∷ rows) (best_rows ids now best (r ∷ rows))
covers_from ids now best r rows next e h = subst (λ f. Covered ids now best (r ∷ rows) f) (sym e) h

best_rows-Covers :
    (ids : List ℕ) (now : ℕ) (best : ℕ → Option Promotion) (rows : Links)
    → ((k : ℕ) → Covers (best k) (best_rows ids now best rows k))
      × All
          (λ r. selected ids now r ≡ true → Covers (some r.1) (best_rows ids now best rows r.0))
          rows
unfolding best_rows
best_rows-Covers ids now best [] = (λ k. Covers-refl (best k), tt)
best_rows-Covers ids now best (r ∷ rows) = elim (Bool-cases (selected ids now r)) [
  | inl e ↦
      let (old, all) = best_rows-Covers ids now (put_best best r) rows in
      covers_from ids now best r rows (put_best best r) (row_taken ids now best r rows e) (
        λ k. Covers-trans (best k) (put_best best r k) _ (put_best-Covers best r k) (old k),
        (λ _. Covers-trans (some r.1) (put_best best r r.0) _ (put_best_new best r) (old r.0), all),
      )
  | inr e ↦
      let (old, all) = best_rows-Covers ids now best rows in
      covers_from ids now best r rows best (row_left ids now best r rows e)
        (old, (λ h. absurd (false≢true (sym e ∙ h)), all))
]

-- The query gives each product or category a promotion at least as good as each of its rows that
-- are active and within their dates.
pub best_active-Covers :
    (ids : List ℕ) (now : ℕ) (rows : Links)
    → All
        (λ r. selected ids now r ≡ true → Covers (some r.1) (best_active ids now (ok rows) r.0))
        rows
unfolding best_active
best_active-Covers ids now rows = (best_rows-Covers ids now (λ _. none) rows).1

loaded : CategoryRows → ℕ → Pricer
loaded rows now = record {
  ancestors = some (ancestor_map rows);
  ancestors_exp = now + ancestor_ttl;
}

reload_stale :
    (p : Pricer) (source : CategorySource) (now : ℕ)
    → p.ancestors_exp ≤ now
    → get_ancestor_map p source now ≡ reload p source now
unfolding get_ancestor_map
reload_stale p source now h = elim (Option-cases p.ancestors) [
  | inl e ↦ ap (λ a. cached p (ltb now p.ancestors_exp) a source now) e
  | inr (m, e) ↦
      ap (λ a. cached p (ltb now p.ancestors_exp) a source now) e
      ∙ ap (λ b. cached p b (some m) source now) (le→ltb _ _ h)
]

serve_fresh :
    (p : Pricer) (source : CategorySource) (m : Chains) (now : ℕ)
    → p.ancestors ≡ some m
    → now < p.ancestors_exp
    → get_ancestor_map p source now ≡ (m, p)
unfolding get_ancestor_map
serve_fresh p source m now e h =
    ap (λ a. cached p (ltb now p.ancestors_exp) a source now) e
    ∙ ap (λ b. cached p b (some m) source now) (lt→ltb _ _ h)

-- A category tree loaded by a pricer whose cache has lapsed is served for five minutes, whatever the
-- table holds by then, and the table is read again at the first call after that.
pub tree_cached :
    (p : Pricer) (source : CategorySource) (rows : CategoryRows) (now t : ℕ)
    → p.ancestors_exp ≤ now
    → let p' = (get_ancestor_map p (some (ok rows)) now).1 in
      ((get_ancestor_map p (some (ok rows)) now).0 ≡ ancestor_map rows)
      × (t < now + ancestor_ttl → get_ancestor_map p' source t ≡ (ancestor_map rows, p'))
      × (now + ancestor_ttl ≤ t → get_ancestor_map p' source t ≡ reload p' source t)
unfolding loaded
tree_cached p source rows now t h = rw (reload_stale p (some (ok rows)) now h) (
  refl,
  serve_fresh (loaded rows now) source (ancestor_map rows) t refl,
  reload_stale (loaded rows now) source t,
)
