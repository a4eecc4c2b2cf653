-- ===== src/Pricing/Ancestors.antt =====
-- `AncestorMap` of internal/db/categories.go: the categories above each category.
use hozdacha.Base.{
  ℕ, zero, suc, ◌≤◌, ◌≡◌, ◌↔◌, ◌⊎◌, inl, inr, sym, subst, Bool, true, false, Option, none, some,
  List, [], ◌∷◌, length, Option-cases, ◌||◌, ℕ_discrete, ==_self, ==_ne, ◌==◌, if◌then◌else◌, arith,
}

-- The rows (id, parent) of the table.
abbrev pub CategoryRows : Type 0
CategoryRows = List (ℕ × Option ℕ)

-- `parent[id]`, nil where there is no such row.
unfoldable pub parent_of : CategoryRows → ℕ → Option ℕ
parent_of [] id = none
parent_of ((i, p) ∷ rows) id = let rest = parent_of rows id in if i == id then p else rest

abbrev pub max_depth : ℕ
max_depth = 32

-- The loop upwards, at most `depth` steps.
unfoldable pub climb : CategoryRows → ℕ → Option ℕ → List ℕ
climb rows zero cur = []
climb rows (suc depth) none = []
climb rows (suc depth) (some c) = c ∷ climb rows depth (parent_of rows c)

abbrev pub chain_of : CategoryRows → ℕ → List ℕ
chain_of rows id = id ∷ climb rows max_depth (parent_of rows id)

unfoldable pub chains : CategoryRows → CategoryRows → List (ℕ × List ℕ)
unfolding climb parent_of
chains rows [] = []
chains rows ((id, _) ∷ more) = (id, chain_of rows id) ∷ chains rows more

unfoldable pub ancestor_map : CategoryRows → List (ℕ × List ℕ)
unfolding chains
ancestor_map rows = chains rows rows

-- `ancestorMap[id]`, empty where it is missing.
unfoldable pub lookup_chain : List (ℕ × List ℕ) → ℕ → List ℕ
lookup_chain [] id = []
lookup_chain ((i, chain) ∷ m) id = let rest = lookup_chain m id in if i == id then chain else rest

-- Category `b` is `k` steps above category `a`.
abbrev pub Above : CategoryRows → ℕ → ℕ → ℕ → Type 0
Above rows zero a b = a ≡ b
Above rows (suc k) a b = (p : ℕ) × (parent_of rows a ≡ some p) × Above rows k p b

abbrev pub In : ℕ → List ℕ → Type 0
In b [] = ⊥
In b (c ∷ cs) = (b ≡ c) ⊎ In b cs

-- Within `k` steps above a category.
abbrev pub Within : CategoryRows → ℕ → ℕ → ℕ → Type 0
Within rows depth a b = (k : ℕ) × (k ≤ depth) × Above rows k a b

climb-Within :
    (rows : CategoryRows) (depth a b : ℕ)
    → In b (a ∷ climb rows depth (parent_of rows a))
    → Within rows depth a b
unfolding climb
climb-Within rows zero a b (inl e) = (0, omega arith, sym e)
climb-Within rows zero a b (inr i) = absurd i
climb-Within rows (suc depth) a b (inl e) = (0, omega arith, sym e)
climb-Within rows (suc depth) a b (inr i) = elim (Option-cases (parent_of rows a)) [
  | inl e ↦ absurd (subst (λ p. In b (climb rows (suc depth) p)) e i)
  | inr (p, e) ↦
      let (k, h, up) =
        climb-Within rows depth p b (subst (λ q. In b (climb rows (suc depth) q)) e i) in
      (suc k, omega (arith, h), (p, e, up))
]

Within-climb :
    (rows : CategoryRows) (depth k a b : ℕ)
    → k ≤ depth
    → Above rows k a b
    → In b (a ∷ climb rows depth (parent_of rows a))
unfolding climb
Within-climb rows depth zero a b h e = inl (sym e)
Within-climb rows zero (suc k) a b h up = absurd (omega (arith, h))
Within-climb rows (suc depth) (suc k) a b h (p, e, up) =
    inr (rw e (Within-climb rows depth k p b (omega (arith, h)) up))

unfoldable pub has_row : CategoryRows → ℕ → Bool
has_row [] id = false
has_row ((i, _) ∷ rows) id = i == id || has_row rows id

lookup-chains :
    (rows more : CategoryRows) (id : ℕ)
    → has_row more id ≡ true
    → lookup_chain (chains rows more) id ≡ chain_of rows id
unfolding chains lookup_chain has_row
lookup-chains rows [] id h = cc
lookup-chains rows ((i, p) ∷ more) id h = elim (ℕ_discrete i id) [
  | yes q ↦ rw (q, ==_self id)
  | no q ↦ rw (==_ne q) (lookup-chains rows more id (rw (==_ne q) at h))
]

-- The chain of a category of the table holds exactly the categories that are at most 32 steps above
-- it, itself included, whatever cycles the parents may form.
pub ancestors_exact :
    (rows : CategoryRows) (id b : ℕ)
    → has_row rows id ≡ true
    → In b (lookup_chain (ancestor_map rows) id) ↔ Within rows max_depth id b
unfolding ancestor_map
ancestors_exact rows id b h =
    rw (lookup-chains rows rows id h)
      (climb-Within rows max_depth id b, λ w. Within-climb rows max_depth w.0 id b w.1 w.2)

length-climb :
    (rows : CategoryRows) (depth : ℕ) (cur : Option ℕ) → length (climb rows depth cur) ≤ depth
unfolding climb
length-climb rows zero cur = omega arith
length-climb rows (suc depth) none = omega arith
length-climb rows (suc depth) (some c) = omega (arith, length-climb rows depth (parent_of rows c))

-- No chain has more than 33 entries, also where the parents form a cycle.
pub chain_bounded :
    (rows : CategoryRows) (id : ℕ)
    → has_row rows id ≡ true
    → length (lookup_chain (ancestor_map rows) id) ≤ 33
unfolding ancestor_map
chain_bounded rows id h =
    rw (lookup-chains rows rows id h)
      (omega (arith, length-climb rows max_depth (parent_of rows id)))
