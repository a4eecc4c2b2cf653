-- ===== src/PromotionCatalog/Candidates.antt =====
-- The candidates of the promotion catalogue: each linked product once.
use mathlib.Core.Bool.{false≢true}
use hozdacha.Base.{
  neither_true, ==_ne, ==_self, ℕ, ◌≡◌, refl, sym, ap, ◌∙◌, inl, inr, Bool, true, false, ◌||◌,
  Option, List, [], ◌∷◌, ◌++◌, Bool-cases, ◌==◌, ==_iff, ok,
}
use hozdacha.Window.{Promotion}
use hozdacha.Pricing.Pricer.{has_id}
use hozdacha.PromotionCatalog.{
  Linked, Sources, add, add_all, in_trees, promotion_ids, resolve_candidate_ids,
}

-- No id stands in the list twice.
pub Distinct : List ℕ → Type 0
Distinct [] = Unit {0}
Distinct (id ∷ ids) = (has_id id ids ≡ false) × Distinct ids

or_false : (a : Bool) → a || false ≡ a
or_false true = refl
or_false false = refl

or_assoc : (a b c : Bool) → (a || b) || c ≡ a || (b || c)
or_assoc true b c = refl
or_assoc false b c = refl

absorbed : (a b c : Bool) → (b ≡ true → a ≡ true) → a || c ≡ a || (b || c)
absorbed true b c h = refl
absorbed false true c h = absurd (false≢true (h refl))
absorbed false false c h = refl

same_id : (k id : ℕ) (ids : List ℕ) → has_id id ids ≡ true → k == id ≡ true → has_id k ids ≡ true
same_id k id ids h e = ap (λ j. has_id j ids) ((==_iff k id).0 e) ∙ h

pub has_id-append : (k : ℕ) (xs ys : List ℕ) → has_id k (xs ++ ys) ≡ has_id k xs || has_id k ys
unfolding has_id
has_id-append k [] ys = refl
has_id-append k (x ∷ xs) ys =
    ap (◌||◌ (k == x)) (has_id-append k xs ys) ∙ sym (or_assoc (k == x) (has_id k xs) (has_id k ys))

Distinct-last :
    (id : ℕ) (ids : List ℕ) → Distinct ids → has_id id ids ≡ false → Distinct (ids ++ (id ∷ []))
unfolding has_id Distinct
Distinct-last id [] d h = (refl, tt)
Distinct-last id (x ∷ xs) (first, d) h =
    let (other, later) = neither_true (id == x) (has_id id xs) h in
    let apart = ==_ne (λ same. false≢true (sym other ∙ ap (λ j. id == j) same ∙ ==_self id)) in
    (
      has_id-append x xs (id ∷ []) ∙ rw first (or_false (x == id) ∙ apart),
      Distinct-last id xs d later,
    )

add-Distinct : (found ids : List ℕ) → Distinct found → Distinct (add found ids)
unfolding add
add-Distinct found [] d = d
add-Distinct found (id ∷ ids) d = elim (Bool-cases (has_id id found)) [
  | inl e ↦ rw e (add-Distinct found ids d)
  | inr e ↦ rw e (add-Distinct (found ++ (id ∷ [])) ids (Distinct-last id found d e))
]

has_id-add :
    (k : ℕ) (found ids : List ℕ) → has_id k (add found ids) ≡ has_id k found || has_id k ids
unfolding add has_id
has_id-add k found [] = sym (or_false (has_id k found))
has_id-add k found (id ∷ ids) = elim (Bool-cases (has_id id found)) [
  | inl e ↦ rw e (
      has_id-add k found ids
      ∙ absorbed (has_id k found) (k == id) (has_id k ids) (same_id k id found e))
  | inr e ↦ rw e (
      has_id-add k (found ++ (id ∷ [])) ids
      ∙ (ap (λ b. b || has_id k ids)
            (has_id-append k found (id ∷ []) ∙ ap (◌||◌ (has_id k found)) (or_false (k == id)))
          ∙ or_assoc (has_id k found) (k == id) (has_id k ids)))
]

add_all-Distinct : (found : List ℕ) (m : Linked) → Distinct found → Distinct (add_all found m)
unfolding add_all
add_all-Distinct found [] d = d
add_all-Distinct found ((k, ids) ∷ m) d =
    add_all-Distinct (add found ids) m (add-Distinct found ids d)

-- The ids of all the lists of a map.
abbrev pub all_ids : Linked → List ℕ
all_ids [] = []
all_ids ((k, ids) ∷ m) = ids ++ all_ids m

has_id-add_all :
    (k : ℕ) (found : List ℕ) (m : Linked)
    → has_id k (add_all found m) ≡ has_id k found || has_id k (all_ids m)
unfolding add_all has_id
has_id-add_all k found [] = sym (or_false (has_id k found))
has_id-add_all k found ((j, ids) ∷ m) =
    has_id-add_all k (add found ids) m
    ∙ ap (λ b. b || has_id k (all_ids m)) (has_id-add k found ids)
    ∙ or_assoc (has_id k found) (has_id k ids) (has_id k (all_ids m))
    ∙ ap (◌||◌ (has_id k found)) (sym (has_id-append k ids (all_ids m)))

-- The candidates are each once, and are the products linked to a promotion and those below a category that is
-- linked to one, where the queries answer.
pub resolve_candidate_ids-Distinct :
    (src : Sources) (promotions : List (Option Promotion)) {products categories : Linked}
    {below : List ℕ}
    → src.list_product_ids (promotion_ids promotions) ≡ ok products
    → src.list_category_ids (promotion_ids promotions) ≡ ok categories
    → in_trees src (add_all [] categories) ≡ ok below
    → (ids : List ℕ) × (resolve_candidate_ids src promotions ≡ ok ids)
      × Distinct ids
      × ((k : ℕ) → has_id k ids ≡ has_id k (all_ids products) || has_id k below)
unfolding resolve_candidate_ids Distinct
resolve_candidate_ids-Distinct src promotions {products} {categories} {below} p c b = (
  add (add_all [] products) below,
  rw p (rw c (rw b refl)),
  add-Distinct (add_all [] products) below (add_all-Distinct [] products tt),
  λ k.
      has_id-add k (add_all [] products) below
      ∙ ap (λ x. x || has_id k below) (has_id-add_all k [] products),
)
