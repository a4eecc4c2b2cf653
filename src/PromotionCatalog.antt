-- ===== src/PromotionCatalog.antt =====
-- The catalogue of promotional products (internal/usecase/promotion_catalog.go).
--
-- The queries are what the usecase holds as interfaces. A Go map from promotions to ids is a list of pairs, in
-- the order in which a `range` reads it. Prices are those that the pricer of Pricing has set.
pub mod Order
pub mod Pages
pub mod Ranked
pub mod Candidates
pub mod Groups
mod Examples
use hozdacha.Base.{
  ℕ, ◌+◌, Bool, true, false, not, ◌&&◌, ◌||◌, Option, none, some, List, [], ◌∷◌, ◌++◌, length, take,
  drop, ltb, ◌==◌, if◌then◌else◌, min, ◌-◌, Result, ok, err, ◌>>=◌,
}
use hozdacha.Base.Int.{ℤ, ltb_ℤ}
use hozdacha.Store.Rows.{Text}
use hozdacha.Users.Texts.{text_eq, lower, trim_space}
use hozdacha.Window.{Promotion, Target, filter_promotions_for_reservation, reservation_target}
use hozdacha.Pricing.{Priced, PromotionType, by_product, by_category, no_promotion}
use hozdacha.Pricing.Pricer.{has_id, category_ids}
use Order.{text_before, product_before, sort_stable}

abbrev pub Linked : Type 0
Linked = List (ℕ × List ℕ)

abbrev pub Answer : Type 0 → Type 0
Answer A = Result (Unit {0}) A

-- The queries that the usecase calls; `is_complete` when none of the first three is nil.
pub record Sources : Type 0 where
  pub is_complete : Bool
  pub active : Answer (List (Option Promotion))
  pub list_product_ids : List ℕ → Answer Linked
  pub list_category_ids : List ℕ → Answer Linked
  pub list_ids_by_category_trees : List ℕ → Answer (List ℕ)
  pub filter_promotional_ids : List ℕ → Text → Option ℕ → Answer (List ℕ)
  pub get_products_by_ids : List ℕ → Answer (List (Option Priced))
  pub category_names : Answer (List (Option (ℕ × Text)))

-- "product", "category" or "mixed".
pub data LinkKind : Type 0 where
  product_links category_links mixed_links : LinkKind

pub record Summary : Type 0 where
  pub id : ℕ
  pub title : Text
  pub discount : ℤ
  pub kind : LinkKind
  pub category_ids : List ℕ
  pub product_ids : List ℕ

unfoldable pub promotion_ids : List (Option Promotion) → List ℕ
promotion_ids [] = []
promotion_ids (none ∷ ps) = promotion_ids ps
promotion_ids (some p ∷ ps) = p.id ∷ promotion_ids ps

unfoldable pub linked_to : Linked → ℕ → List ℕ
linked_to [] id = []
linked_to ((k, ids) ∷ m) id = let rest = linked_to m id in if k == id then ids else rest

-- A failed query leaves an empty map.
abbrev pub or_no_links : Answer Linked → Linked
or_no_links (ok m) = m
or_no_links (err _) = []

unfoldable pub kind_of_links : List ℕ → List ℕ → LinkKind
kind_of_links products [] = product_links
kind_of_links [] (c ∷ cs) = category_links
kind_of_links (p ∷ ps) (c ∷ cs) = mixed_links

unfoldable pub summaries : Linked → Linked → List (Option Promotion) → List Summary
unfolding linked_to kind_of_links
summaries products categories [] = []
summaries products categories (none ∷ ps) = summaries products categories ps
summaries products categories (some p ∷ ps) =
    let ids = linked_to products p.id in
    let cats = linked_to categories p.id in
    record {
      id = p.id;
      title = p.title;
      discount = p.discount;
      kind = kind_of_links ids cats;
      category_ids = cats;
      product_ids = ids;
    }
    ∷ summaries products categories ps

abbrev summary_before : Summary → Summary → Bool
summary_before s t = ltb_ℤ t.discount s.discount

unfoldable pub build_promo_summaries : Sources → List (Option Promotion) → List Summary
unfolding promotion_ids summaries sort_stable
build_promo_summaries src promotions =
    let ids = promotion_ids promotions in
    let products = or_no_links (src.list_product_ids ids) in
    let categories = or_no_links (src.list_category_ids ids) in
    sort_stable summary_before (summaries products categories promotions)

-- An id that was seen before is passed over.
unfoldable pub add : List ℕ → List ℕ → List ℕ
unfolding has_id
add found [] = found
add found (id ∷ ids) = add (if has_id id found then found else found ++ (id ∷ [])) ids

unfoldable pub add_all : List ℕ → Linked → List ℕ
unfolding add
add_all found [] = found
add_all found ((k, ids) ∷ m) = add_all (add found ids) m

abbrev pub in_trees : Sources → List ℕ → Answer (List ℕ)
in_trees src [] = ok []
in_trees src (c ∷ cs) = src.list_ids_by_category_trees (c ∷ cs)

unfoldable pub resolve_candidate_ids : Sources → List (Option Promotion) → Answer (List ℕ)
unfolding promotion_ids add_all
resolve_candidate_ids src promotions =
    let ids = promotion_ids promotions in
    src.list_product_ids ids >>= λ products. src.list_category_ids ids >>= λ categories.
    in_trees src (add_all [] categories) >>= λ below. ok (add (add_all [] products) below)

abbrev pub is_cheaper : Option ℕ → ℕ → Bool
is_cheaper none price = false
is_cheaper (some effective) price = ltb effective price

unfoldable pub filter_products_with_promotion : List (Option Priced) → List Priced
filter_products_with_promotion [] = []
filter_products_with_promotion (none ∷ ps) = filter_products_with_promotion ps
filter_products_with_promotion (some p ∷ ps) =
    let rest = filter_products_with_promotion ps in
    if is_cheaper p.effective_price p.price then p ∷ rest else rest

abbrev all_kinds : Text
all_kinds = 97 ∷ 108 ∷ 108 ∷ []

abbrev kind_product : Text
kind_product = 112 ∷ 114 ∷ 111 ∷ 100 ∷ 117 ∷ 99 ∷ 116 ∷ []

abbrev kind_category : Text
kind_category = 99 ∷ 97 ∷ 116 ∷ 101 ∷ 103 ∷ 111 ∷ 114 ∷ 121 ∷ []

-- `p.PromotionType == kind`, for the two kinds that there are.
abbrev pub has_kind : Text → PromotionType → Bool
has_kind kind no_promotion = false
has_kind kind by_product = text_eq kind kind_product
has_kind kind by_category = text_eq kind kind_category

unfoldable pub of_kind : Text → List Priced → List Priced
unfolding text_eq
of_kind kind [] = []
of_kind kind (p ∷ ps) =
    let rest = of_kind kind ps in if has_kind kind p.promotion_type then p ∷ rest else rest

abbrev pub normal_kind : Text → Text
normal_kind kind = trim_space (lower kind)

unfoldable pub filter_by_promotion_kind : List Priced → Text → List Priced
unfolding of_kind text_eq lower trim_space
filter_by_promotion_kind ps kind =
    if text_eq (normal_kind kind) [] || text_eq (normal_kind kind) all_kinds
    then ps
    else of_kind (normal_kind kind) ps

-- `PromotionCatalogPromoRef`.
pub record PromoRef : Type 0 where
  pub id : ℕ
  pub title : Text
  pub discount : ℤ
  pub kind : LinkKind

-- `PromotionCatalogCategory`.
pub record Group : Type 0 where
  pub id : ℕ
  pub name : Text
  pub promos : List PromoRef

abbrev pub ref_of : Summary → PromoRef
ref_of s = record { id = s.id; title = s.title; discount = s.discount; kind = s.kind }

-- The name that the last row with the id has; none is the empty text.
unfoldable pub name_by_id : List (Option (ℕ × Text)) → Text → ℕ → Text
name_by_id [] found id = found
name_by_id (none ∷ rows) found id = name_by_id rows found id
name_by_id (some (k, name) ∷ rows) found id = name_by_id rows (if k == id then name else found) id

abbrev names_of : Answer (List (Option (ℕ × Text))) → ℕ → Text
names_of (ok rows) = name_by_id rows []
names_of (err _) = λ _. []

-- Products that cannot be loaded, or without a category, give none.
abbrev pub loaded_categories : Answer (List (Option Priced)) → List ℕ
loaded_categories (ok ps) = category_ids ps
loaded_categories (err _) = []

abbrev pub product_categories : Sources → List ℕ → List ℕ
product_categories src [] = []
product_categories src (p ∷ ps) = loaded_categories (src.get_products_by_ids (p ∷ ps))

module _ (name : ℕ → Text) where
  -- `getOrCreate(cid).promos = append(...)`: a new category stands last.
  unfoldable pub put_ref : PromoRef → ℕ → List Group → List Group
  put_ref ref cid [] = record { id = cid; name = name cid; promos = ref ∷ [] } ∷ []
  put_ref ref cid (g ∷ gs) =
      let others = put_ref ref cid gs in
      if g.id == cid then record g { promos = g.promos ++ (ref ∷ []) } ∷ gs else g ∷ others

  unfoldable pub put_refs : PromoRef → List ℕ → List Group → List Group
  unfolding put_ref
  put_refs ref [] gs = gs
  put_refs ref (c ∷ cs) gs = put_refs ref cs (put_ref ref c gs)

  unfoldable pub grouped : Sources → List Summary → List Group → List Group
  unfolding put_refs category_ids
  grouped src [] gs = gs
  grouped src (s ∷ ss) gs =
      let direct = put_refs (ref_of s) s.category_ids gs in
      grouped src ss (put_refs (ref_of s) (product_categories src s.product_ids) direct)

abbrev pub ref_before : PromoRef → PromoRef → Bool
ref_before r q =
    let by_title = text_before r.title q.title in
    if ltb_ℤ q.discount r.discount
    then true
    else if ltb_ℤ r.discount q.discount
    then false
    else by_title

unfoldable pub with_sorted : List Group → List Group
unfolding sort_stable text_before
with_sorted [] = []
with_sorted (g ∷ gs) = record g { promos = sort_stable ref_before g.promos } ∷ with_sorted gs

abbrev pub group_before : Group → Group → Bool
group_before g h = text_before g.name h.name

-- The set of categories that the code gathers first only sizes its maps.
unfoldable pub build_categories_from_promos : Sources → List Summary → List Group
unfolding grouped with_sorted sort_stable text_before name_by_id
build_categories_from_promos src promos =
    let groups = grouped (names_of src.category_names) src promos [] in
    sort_stable group_before (with_sorted groups)

-- `PromotionCatalogResult`.
pub record Listing : Type 0 where
  pub products : List Priced
  pub total : ℕ
  pub categories : List Group
  pub promotions : List Summary
  pub target : Option Target

abbrev pub nothing_listed : Listing
nothing_listed = record {
  products = [];
  total = 0;
  categories = [];
  promotions = [];
  target = none;
}

-- The products of all pages in their order.
unfoldable pub ranked : Text → List (Option Priced) → List Priced
unfolding filter_products_with_promotion filter_by_promotion_kind product_before sort_stable
ranked kind all =
    sort_stable product_before (filter_by_promotion_kind (filter_products_with_promotion all) kind)

-- `promoProducts[offset:end]`, with both ends inside.
unfoldable pub slice : ℕ → ℕ → List Priced → List Priced
slice limit offset ps =
    let start = min offset (length ps) in
    take (min (start + limit) (length ps) - start) (drop start ps)

module _ (zone : ℕ) (src : Sources) where
  abbrev pub page_of : Text → ℕ → ℕ → Listing → List (Option Priced) → Listing
  page_of kind limit offset res all = record res {
    total = length (ranked kind all);
    products = slice limit offset (ranked kind all);
  }

  abbrev pub of_candidates : Text → Option ℕ → Text → ℕ → ℕ → Listing → List ℕ → Answer Listing
  of_candidates search category kind limit offset res [] = ok res
  of_candidates search category kind limit offset res (id ∷ ids) =
      let res' = record res { categories = build_categories_from_promos src res.promotions } in
      src.filter_promotional_ids (id ∷ ids) (trim_space search) category >>= λ filtered.
      src.get_products_by_ids filtered >>= λ all. ok (page_of kind limit offset res' all)

  abbrev pub of_promotions :
      Text → Option ℕ → Text → ℕ → ℕ → Target → List (Option Promotion) → Answer Listing
  of_promotions search category kind limit offset target [] =
      ok (record nothing_listed { target = some target })
  of_promotions search category kind limit offset target (p ∷ ps) =
      let res = record nothing_listed {
        target = some target;
        promotions = build_promo_summaries src (p ∷ ps);
      } in
      resolve_candidate_ids src (p ∷ ps) >>= λ ids.
      of_candidates search category kind limit offset res ids

  abbrev pub listing_if :
      Text → Option ℕ → Text → ℕ → ℕ → ℕ → Bool → Answer (List (Option Promotion)) → Answer Listing
  listing_if search category kind limit offset now complete active =
      if not complete
      then ok nothing_listed
      else active >>= λ promotions.
          of_promotions search category kind limit offset (reservation_target zone now)
            (filter_promotions_for_reservation zone promotions now)

  unfoldable pub list_products : Text → Option ℕ → Text → ℕ → ℕ → ℕ → Answer Listing
  unfolding filter_promotions_for_reservation reservation_target build_promo_summaries
      resolve_candidate_ids build_categories_from_promos ranked slice trim_space
  list_products search category kind limit offset now =
      listing_if search category kind limit offset now src.is_complete src.active
