-- ===== src/Sync/Writes.antt =====
-- What an insertion and an update leave in the table of products.
use hozdacha.Base.{
  arith, subst, inl, inr, ==_self, ℕ, ◌+◌, ◌≡◌, refl, sym, ap, ◌∙◌, Bool, true, false, List, [],
  ◌∷◌, ◌++◌, map, All, ok, >>=-eq-ok, ok-injective, Bool-cases, ◌==◌, if◌then◌else◌, if-cases,
}
use hozdacha.Store.Rows.{Text}
use hozdacha.Sync.{
  Product, State, Fault, Query, run_query, insert, update, written, products_where, returned,
}

returned-state :
    (rows : List Product) (s s' : State) (row : Product) → returned rows s ≡ ok (row, s') → s ≡ s'
returned-state [] s s' row h = cc
returned-state (p ∷ ps) s s' row h = ap (λ r. r.1) (ok-injective h)

pub update_lem :
    (fault : Fault) (s s' : State) (p row : Product) (id : ℕ) (moysklad_id : Text) (now : ℕ)
    → update fault s p id moysklad_id now ≡ ok (row, s')
    → s' ≡ record s { products = map (written p id now) s.products }
unfolding update
update_lem fault s s' p row id moysklad_id now h =
    let (_, _, rest) = >>=-eq-ok (run_query fault Query.update_product moysklad_id) _ h in
    sym (returned-state _ _ s' row rest)

pub insert_lem :
    (fault : Fault) (s s' : State) (p row : Product) (moysklad_id : Text) (now : ℕ)
    → insert fault s p moysklad_id now ≡ ok (row, s')
    → s' ≡ record s {
      next_id = s.next_id + 1;
      products = s.products ++ (record p { id = s.next_id; updated_at = now } ∷ []);
    }
unfolding insert
insert_lem fault s s' p row moysklad_id now h =
    let (_, _, rest) = >>=-eq-ok (run_query fault Query.insert_product moysklad_id) _ h in
    sym (ap (λ r. r.1) (ok-injective rest))

pub All-written {ℓ} :
    (P : Product → Type ℓ) (p : Product) (id now : ℕ) (ps : List Product)
    → P (record p { id = id; updated_at = now })
    → All P ps
    → All P (map (written p id now) ps)
All-written P p id now [] new old = tt
All-written P p id now (q ∷ ps) new (here, rest) =
    (if-cases P (q.id == id) _ q (λ _. new) (λ _. here), All-written P p id now ps new rest)

module _ (f : Product → Bool) (p : Product) (ps : List Product) where
  product_kept : f p ≡ true → products_where f (p ∷ ps) ≡ p ∷ products_where f ps
  unfolding products_where
  product_kept h = rw h

  product_left : f p ≡ false → products_where f (p ∷ ps) ≡ products_where f ps
  unfolding products_where
  product_left h = rw h

same_cons : {p q : Product} {ps qs : List Product} → (p ∷ ps) ≡ (q ∷ qs) → (p ≡ q) × (ps ≡ qs)
same_cons h = (cc, cc)

nothing_else : {p : Product} {ps : List Product} → ¬ ((p ∷ ps) ≡ [])
nothing_else h = cc

-- The ids of the rows are all different, as a primary key demands.
abbrev pub DistinctIds : List Product → Type 0
DistinctIds [] = Unit
DistinctIds (p ∷ ps) = All (λ q. (q.id == p.id) ≡ false) ps × DistinctIds ps

All-products_where {ℓ} :
    (P : Product → Type ℓ) (f : Product → Bool) (ps : List Product)
    → All P ps
    → All P (products_where f ps)
unfolding products_where
All-products_where P f [] h = tt
All-products_where P f (p ∷ ps) (here, rest) = elim (Bool-cases (f p)) [
  | inl e ↦ subst (All P) (sym (product_kept f p ps e)) (here, All-products_where P f ps rest)
  | inr e ↦ subst (All P) (sym (product_left f p ps e)) (All-products_where P f ps rest)
]

written_others :
    (p : Product) (id now : ℕ) (ps : List Product)
    → All (λ q. (q.id == id) ≡ false) ps
    → map (written p id now) ps ≡ ps
written_others p id now [] h = refl
written_others p id now (q ∷ ps) (here, rest) =
    ap (λ b. (if b then record p { id = id; updated_at = now } else q) ∷ map (written p id now) ps)
      here
    ∙ ap (λ qs. q ∷ qs) (written_others p id now ps rest)

==_sym : (a b : ℕ) → (b == a) ≡ false → (a == b) ≡ false
==_sym a b h = ground arith

-- The one row a test finds is, after an update by its id, the row that was written, if that passes too.
pub found-written :
    (f : Product → Bool) (p old : Product) (now : ℕ) (ps : List Product)
    → f (record p { id = old.id; updated_at = now }) ≡ true
    → DistinctIds ps
    → products_where f ps ≡ old ∷ []
    → products_where f (map (written p old.id now) ps)
      ≡ record p { id = old.id; updated_at = now } ∷ []
unfolding products_where
found-written f p old now [] fits distinct found = absurd (nothing_else (sym found))
found-written f p old now (q ∷ ps) fits (others, distinct) found =
    let row : Product = record p { id = old.id; updated_at = now } in
    elim (Bool-cases (f q)) [
      | inl e ↦
          let (is_old, no_more) = same_cons (sym (product_kept f q ps e) ∙ found) in
          let others' =
            subst (λ i. All (λ r. (r.id == i) ≡ false) ps) (ap (λ r. r.id) is_old) others in
          let mine = ap (λ r. r.id == old.id) is_old ∙ ==_self old.id in
          let here = ap (λ b. if b then record p { id = old.id; updated_at = now } else q) mine in
          ap (λ r. products_where f (r ∷ map (written p old.id now) ps)) here
          ∙ product_kept f _ _ fits
          ∙ ap (λ qs. row ∷ products_where f qs) (written_others p old.id now ps others')
          ∙ ap (λ qs. row ∷ qs) no_more
      | inr e ↦
          let found' = sym (product_left f q ps e) ∙ found in
          let not_q =
            (subst (All (λ r. (r.id == q.id) ≡ false)) found'
              (All-products_where _ f ps others)).0 in
          let here = ap (λ b. if b then row else q) (==_sym q.id old.id not_q) in
          ap (λ r. products_where f (r ∷ map (written p old.id now) ps)) here
          ∙ product_left f q _ e
          ∙ found-written f p old now ps fits distinct found'
    ]

pub found-inserted :
    (f : Product → Bool) (row : Product) (ps : List Product)
    → f row ≡ true
    → products_where f ps ≡ []
    → products_where f (ps ++ (row ∷ [])) ≡ row ∷ []
unfolding products_where
found-inserted f row [] fits none_found = product_kept f row [] fits
found-inserted f row (q ∷ ps) fits none_found = elim (Bool-cases (f q)) [
  | inl e ↦ absurd (nothing_else (sym (product_kept f q ps e) ∙ none_found))
  | inr e ↦
      product_left f q (ps ++ (row ∷ [])) e
      ∙ found-inserted f row ps fits (sym (product_left f q ps e) ∙ none_found)
]

none_pass :
    (f : Product → Bool) (ps : List Product) → All (λ q. f q ≡ false) ps → products_where f ps ≡ []
unfolding products_where
none_pass f [] h = refl
none_pass f (q ∷ ps) (here, rest) = product_left f q ps here ∙ none_pass f ps rest

-- The one row a test finds is the one row with its id.
pub found-id :
    (f : Product → Bool) (old : Product) (ps : List Product)
    → DistinctIds ps
    → products_where f ps ≡ old ∷ []
    → products_where (λ q. q.id == old.id) ps ≡ old ∷ []
unfolding products_where
found-id f old [] distinct found = absurd (nothing_else (sym found))
found-id f old (q ∷ ps) (others, distinct) found = elim (Bool-cases (f q)) [
  | inl e ↦
      let (is_old, no_more) = same_cons (sym (product_kept f q ps e) ∙ found) in
      let others' = subst (λ i. All (λ r. (r.id == i) ≡ false) ps) (ap (λ r. r.id) is_old) others in
      let mine = ap (λ r. r.id == old.id) is_old ∙ ==_self old.id in
      product_kept (λ r. r.id == old.id) q ps mine
      ∙ ap (λ qs. q ∷ qs) (none_pass (λ r. r.id == old.id) ps others')
      ∙ ap (λ r. r ∷ []) is_old
  | inr e ↦
      let found' = sym (product_left f q ps e) ∙ found in
      let not_q =
        (subst (All (λ r. (r.id == q.id) ≡ false)) found' (All-products_where _ f ps others)).0 in
      product_left (λ r. r.id == old.id) q ps (==_sym q.id old.id not_q)
      ∙ found-id f old ps distinct found'
]
