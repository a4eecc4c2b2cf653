-- ===== src/PromotionCatalog/Groups.antt =====
-- The promotions that stand beside a category in the catalogue, and how often.
use mathlib.Core.Bool.{false≢true}
use mathlib.Core.List.{append_assoc, append-nil}
use hozdacha.Base.{
  ℕ, suc, ◌≡◌, refl, sym, ap, ◌∙◌, inl, inr, Bool, true, false, List, [], ◌∷◌, ◌++◌, replicate,
  if◌then◌else◌, Bool-cases, ◌==◌, ==_iff, ==_ne,
}
use hozdacha.Store.Rows.{Text}
use hozdacha.PromotionCatalog.{
  PromoRef, Group, Summary, Sources, ref_of, put_ref, put_refs, grouped, product_categories,
}

unfoldable pub promos_of : ℕ → List Group → List PromoRef
promos_of k [] = []
promos_of k (g ∷ gs) = let others = promos_of k gs in if g.id == k then g.promos else others

unfoldable pub times : ℕ → List ℕ → ℕ
times k [] = 0
times k (c ∷ cs) = let others = times k cs in if c == k then suc others else others

abbrev once_if : Bool → PromoRef → List PromoRef
once_if true ref = ref ∷ []
once_if false ref = []

module _ (name : ℕ → Text) (k : ℕ) where
  promos_of-put_ref :
      (ref : PromoRef) (c : ℕ) (gs : List Group)
      → promos_of k (put_ref name ref c gs) ≡ promos_of k gs ++ once_if (c == k) ref
  unfolding promos_of put_ref
  promos_of-put_ref ref c [] = elim (Bool-cases (c == k)) [ inl e ↦ rw e refl | inr e ↦ rw e refl ]
  promos_of-put_ref ref c (g ∷ gs) = elim (Bool-cases (g.id == c)) [
    | inl e ↦
        let same = ap (λ j. j == k) ((==_iff g.id c).0 e) in
        elim (Bool-cases (c == k)) [
          | inl h ↦ rw e (rw h (rw (same ∙ h) refl))
          | inr h ↦ rw e (rw h (rw (same ∙ h) (sym (append-nil (promos_of k gs)))))
        ]
    | inr e ↦ elim (Bool-cases (g.id == k)) [
      | inl h ↦
          let apart : c == k ≡ false =
            ==_ne
              (λ same. false≢true (sym e ∙ (==_iff g.id c).1 ((==_iff g.id k).0 h ∙ sym same))) in
          rw e (rw h (rw apart (sym (append-nil g.promos))))
      | inr h ↦ rw e (rw h (promos_of-put_ref ref c gs))
    ]
  ]

  times_more :
      (ref : PromoRef) (c : ℕ) (cs : List ℕ)
      → once_if (c == k) ref ++ replicate (times k cs) ref ≡ replicate (times k (c ∷ cs)) ref
  unfolding times
  times_more ref c cs = elim (Bool-cases (c == k)) [ inl e ↦ rw e refl | inr e ↦ rw e refl ]

  promos_of-put_refs :
      (ref : PromoRef) (cs : List ℕ) (gs : List Group)
      → promos_of k (put_refs name ref cs gs) ≡ promos_of k gs ++ replicate (times k cs) ref
  unfolding put_refs times
  promos_of-put_refs ref [] gs = sym (append-nil (promos_of k gs))
  promos_of-put_refs ref (c ∷ cs) gs =
      promos_of-put_refs ref cs (put_ref name ref c gs)
      ∙ ap (λ ps. ps ++ replicate (times k cs) ref) (promos_of-put_ref ref c gs)
      ∙ append_assoc (promos_of k gs) (once_if (c == k) ref) (replicate (times k cs) ref)
      ∙ ap (λ ps. promos_of k gs ++ ps) (times_more ref c cs)

  -- For each promotion in its turn: once for a link to the category itself and once for each of its products
  -- that lies in the category.
  abbrev pub beside : Sources → List Summary → List PromoRef
  beside src [] = []
  beside src (s ∷ ss) =
      replicate (times k s.category_ids) (ref_of s)
      ++ (replicate (times k (product_categories src s.product_ids)) (ref_of s) ++ beside src ss)

  -- Beside a category stands each promotion as often as it is linked to the category and to products that lie
  -- in it: a promotion of two products of a category stands there twice.
  pub promos_of-grouped :
      (src : Sources) (ss : List Summary) (gs : List Group)
      → promos_of k (grouped name src ss gs) ≡ promos_of k gs ++ beside src ss
  unfolding grouped
  promos_of-grouped src [] gs = sym (append-nil (promos_of k gs))
  promos_of-grouped src (s ∷ ss) gs =
      let linked = product_categories src s.product_ids in
      let direct = put_refs name (ref_of s) s.category_ids gs in
      let by_category = replicate (times k s.category_ids) (ref_of s) in
      let by_product = replicate (times k linked) (ref_of s) in
      promos_of-grouped src ss (put_refs name (ref_of s) linked direct)
      ∙ ap (λ ps. ps ++ beside src ss)
          (promos_of-put_refs (ref_of s) linked direct
            ∙ ap (λ ps. ps ++ by_product) (promos_of-put_refs (ref_of s) s.category_ids gs))
      ∙ append_assoc (promos_of k gs ++ by_category) by_product (beside src ss)
      ∙ append_assoc (promos_of k gs) by_category (by_product ++ beside src ss)
