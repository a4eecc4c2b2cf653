-- ===== src/Sync/Categories.antt =====
-- The categories that the folders become (internal/services/moysklad_sync.go, internal/db/categories.go).
use hozdacha.Base.{
  ℕ, ◌≡◌, refl, sym, ap, ◌∙◌, inl, inr, Bool, true, false, Option, none, some, List, [], ◌∷◌, ◌++◌,
  map, All, Bool-cases, some_inj, some≢none, ◌==◌, if◌then◌else◌, if-cases,
}
use hozdacha.Store.Rows.{Text}
use hozdacha.Users.Texts.{text_eq, text_eq_self, text_eq_sound}
use hozdacha.Sync.Href.{extract_moysklad_uuid}
use hozdacha.Sync.Folders.{
  Folder, Category, Categories, CategoryQuery, Ids, no_ids, put, find_by_name, new_category, added,
  found_or_added, upsert_by_name, with_parent, set_parent, pass_one, pass_one_named, kept_id,
  pass_two, pass_two_one, parent_known, synced, sync_categories,
}

find_by_name-append :
    (rows : List Category) (c : Category) (name : Text) (id : ℕ)
    → find_by_name rows name ≡ some id
    → find_by_name (rows ++ (c ∷ [])) name ≡ some id
unfolding find_by_name
find_by_name-append [] c name id h = absurd (some≢none (sym h))
find_by_name-append (r ∷ rows) c name id h = elim (Bool-cases (text_eq r.name name)) [
  | inl e ↦ rw e (rw e at h)
  | inr e ↦ rw e (find_by_name-append rows c name id (rw e at h))
]

find_by_name-last :
    (rows : List Category) (c : Category)
    → find_by_name rows c.name ≡ none
    → find_by_name (rows ++ (c ∷ [])) c.name ≡ some c.id
unfolding find_by_name
find_by_name-last [] c h = rw (text_eq_self c.name)
find_by_name-last (r ∷ rows) c h = elim (Bool-cases (text_eq r.name c.name)) [
  | inl e ↦ absurd (some≢none (rw e at h))
  | inr e ↦ rw e (find_by_name-last rows c (rw e at h))
]

module _ (fault : CategoryQuery → Text → Bool) where
  -- A change of parents changes no name.
  find_by_name-parents :
      (rows : List Category) (name : Text) (id parent : ℕ)
      → find_by_name (map (with_parent fault id parent) rows) name ≡ find_by_name rows name
  unfolding find_by_name
  find_by_name-parents [] name id parent = refl
  find_by_name-parents (c ∷ rows) name id parent =
      if-cases
        (λ x.
          (if text_eq (Category.name x) name
            then some (Category.id x)
            else find_by_name (map (with_parent fault id parent) rows) name)
          ≡ (if text_eq c.name name then some c.id else find_by_name rows name))
        (c.id == id) _ c
        (λ _.
          ap (λ o. if text_eq c.name name then some c.id else o)
            (find_by_name-parents rows name id parent))
        (λ _.
          ap (λ o. if text_eq c.name name then some c.id else o)
            (find_by_name-parents rows name id parent))

  added-find :
      (t t' : Categories) (name : Text) (id : ℕ)
      → find_by_name t.rows name ≡ none
      → added fault t name ≡ some (id, t')
      → (find_by_name t'.rows name ≡ some id)
        × ((other : Text) (d : ℕ)
            → find_by_name t.rows other ≡ some d
            → find_by_name t'.rows other ≡ some d)
  added-find t t' name id free h = if_added (fault CategoryQuery.insert_category name) h
    where
      if_added :
          (b : Bool)
          → (if b then none else some (new_category fault t name)) ≡ some (id, t')
          → (find_by_name t'.rows name ≡ some id)
            × ((other : Text) (d : ℕ)
                → find_by_name t.rows other ≡ some d
                → find_by_name t'.rows other ≡ some d)
      if_added true h = absurd (some≢none (sym h))
      if_added false h =
          let same = some_inj h in
          (
            ap (λ x. find_by_name (Categories.rows x.1) name) (sym same)
                ∙ find_by_name-last t.rows _ free
                ∙ ap (λ x. some x.0) same,
            λ other d found.
                ap (λ x. find_by_name (Categories.rows x.1) other) (sym same)
                ∙ find_by_name-append t.rows _ other d found,
          )

  found_or_added-find :
      (t t' : Categories) (name : Text) (id : ℕ) (o : Option ℕ)
      → find_by_name t.rows name ≡ o
      → found_or_added fault t name o ≡ some (id, t')
      → (find_by_name t'.rows name ≡ some id)
        × ((other : Text) (d : ℕ)
            → find_by_name t.rows other ≡ some d
            → find_by_name t'.rows other ≡ some d)
  found_or_added-find t t' name id none here h = added-find t t' name id here h
  found_or_added-find t t' name id (some first) here h =
      let same = some_inj h in
      (
        ap (λ x. find_by_name (Categories.rows x.1) name) (sym same)
            ∙ here
            ∙ ap (λ x. some x.0) same,
        λ other d found. ap (λ x. find_by_name (Categories.rows x.1) other) (sym same) ∙ found,
      )

  -- The id that is given back is that of the first row with the name, and every name that had an id keeps it.
  upsert_by_name-find :
      (t t' : Categories) (name : Text) (id : ℕ)
      → upsert_by_name fault t name ≡ some (id, t')
      → (find_by_name t'.rows name ≡ some id)
        × ((other : Text) (d : ℕ)
            → find_by_name t.rows other ≡ some d
            → find_by_name t'.rows other ≡ some d)
  unfolding upsert_by_name
  upsert_by_name-find t t' name id h = if_found (fault CategoryQuery.find_category name) h
    where
      if_found :
          (b : Bool)
          → (if b then none else found_or_added fault t name (find_by_name t.rows name))
            ≡ some (id, t')
          → (find_by_name t'.rows name ≡ some id)
            × ((other : Text) (d : ℕ)
                → find_by_name t.rows other ≡ some d
                → find_by_name t'.rows other ≡ some d)
      if_found true h = absurd (some≢none (sym h))
      if_found false h = found_or_added-find t t' name id _ refl h

  module _ (name_of : Text → Text) where
    -- Every folder in the map has the category of its name.
    abbrev pub Sound : Ids × Categories → Type 0
    Sound out =
        (id : Text) (d : ℕ) → out.0 id ≡ some d → find_by_name out.1.rows (name_of id) ≡ some d

    kept_id-Sound :
        (out : Ids × Categories) (f : Folder) (o : Option (ℕ × Categories))
        → upsert_by_name fault out.1 (name_of f.id) ≡ o
        → Sound out
        → Sound (kept_id fault out f o)
    unfolding kept_id put
    kept_id-Sound (m, t) f none h sound = sound
    kept_id-Sound (m, t) f (some (id, t')) h sound = λ j d at. elim (Bool-cases (text_eq f.id j)) [
      | inl e ↦
          let same = text_eq_sound f.id j e in
          ap (λ i. find_by_name t'.rows (name_of i)) (sym same)
          ∙ (upsert_by_name-find t t' (name_of f.id) id h).0
          ∙ (rw e at at)
      | inr e ↦
          (upsert_by_name-find t t' (name_of f.id) id h).1 (name_of j) d (sound j d (rw e at at))
    ]

    named-Sound :
        (out : Ids × Categories) (f : Folder) (name : Text)
        → name_of f.id ≡ name
        → Sound out
        → Sound (pass_one_named fault out f name)
    unfolding pass_one_named
    named-Sound (m, t) f [] same sound = sound
    named-Sound (m, t) f (c ∷ cs) same sound =
        kept_id-Sound (m, t) f (upsert_by_name fault t (c ∷ cs)) (ap (upsert_by_name fault t) same)
          sound

    pass_one-Sound :
        (fs : List Folder) (out : Ids × Categories)
        → All (λ f. name_of f.id ≡ f.name) fs
        → Sound out
        → Sound (pass_one fault out fs)
    unfolding pass_one
    pass_one-Sound [] out names sound = sound
    pass_one-Sound (f ∷ fs) out (name, names) sound =
        pass_one-Sound fs _ names (named-Sound out f f.name name sound)

    parent_known-Sound :
        (m : Ids) (t : Categories) (f : Folder) (child parent : Option ℕ)
        → Sound (m, t)
        → Sound (m, parent_known fault t f child parent)
    unfolding parent_known set_parent
    parent_known-Sound m t f none parent sound = sound
    parent_known-Sound m t f (some id) none sound = sound
    parent_known-Sound m t f (some id) (some parent) sound = λ j d at.
        if-cases (λ x. find_by_name (Categories.rows x) (name_of j) ≡ some d)
          (fault CategoryQuery.set_category_parent f.id) t _ (λ _. sound j d at)
          (λ _. find_by_name-parents t.rows (name_of j) id parent ∙ sound j d at)

    pass_two_one-Sound :
        (m : Ids) (t : Categories) (f : Folder) (parent : Option Text)
        → Sound (m, t)
        → Sound (m, pass_two_one fault m t f parent)
    unfolding pass_two_one
    pass_two_one-Sound m t f none sound = sound
    pass_two_one-Sound m t f (some []) sound = sound
    pass_two_one-Sound m t f (some (c ∷ cs)) sound = parent_known-Sound m t f (m f.id) _ sound

    pass_two-Sound :
        (fs : List Folder) (m : Ids) (t : Categories)
        → Sound (m, t)
        → Sound (m, pass_two fault m t fs)
    unfolding pass_two
    pass_two-Sound [] m t sound = sound
    pass_two-Sound (f ∷ fs) m t sound =
        pass_two-Sound fs m _ (pass_two_one-Sound m t f f.parent sound)

    -- After the folders are read, whichever queries failed, a folder in the map has the category that the table has
    -- under the folder's name, if folders of one id have one name.
    pub sync_categories-find_by_name :
        (cached : Ids) (t : Categories) (fs : List Folder) (id : Text) (category : ℕ)
        → All (λ f. name_of f.id ≡ f.name) fs
        → (sync_categories fault cached t (some fs)).0 id ≡ some category
        → find_by_name (Categories.rows (sync_categories fault cached t (some fs)).2) (name_of id)
          ≡ some category
    unfolding sync_categories synced
    sync_categories-find_by_name cached t fs id category names at =
        pass_two-Sound fs _ _
          (pass_one-Sound fs (no_ids, t) names (λ _ _ none_yet. absurd (some≢none (sym none_yet))))
          id category at

  upsert_twice :
      (t t' : Categories) (name : Text) (id : ℕ)
      → fault CategoryQuery.find_category name ≡ false
      → upsert_by_name fault t name ≡ some (id, t')
      → upsert_by_name fault t' name ≡ some (id, t')
  unfolding upsert_by_name
  upsert_twice t t' name id quiet h = rw (quiet, (upsert_by_name-find t t' name id h).0)

  -- Two folders are read, first a top one and then one of the same name that lies in it. Where that name gets a category
  -- and the queries of the second folder answer, both folders are recorded with this one category, which is made its
  -- own parent; the table is not changed beyond that.
  pub same_name-own_parent :
      (cached : Ids) (t t' : Categories) (outer inner : Folder) (c : ℕ) (cs : Text) (h : ℕ)
      (hs : Text) (id : ℕ)
      → outer.name ≡ c ∷ cs
      → inner.name ≡ c ∷ cs
      → outer.parent ≡ none
      → inner.parent ≡ some (h ∷ hs)
      → extract_moysklad_uuid (h ∷ hs) ≡ outer.id
      → text_eq inner.id outer.id ≡ false
      → fault CategoryQuery.find_category (c ∷ cs) ≡ false
      → fault CategoryQuery.set_category_parent inner.id ≡ false
      → upsert_by_name fault t (c ∷ cs) ≡ some (id, t')
      → let r = sync_categories fault cached t (some (outer ∷ inner ∷ [])) in
        (r.0 outer.id ≡ some id)
        × (r.0 inner.id ≡ some id)
        × (r.2 ≡ record t' { rows = map (with_parent fault id id) t'.rows })
  unfolding sync_categories synced pass_one pass_one_named kept_id pass_two pass_two_one
      parent_known set_parent put
  same_name-own_parent cached t t' outer inner c cs h hs id name1 name2 top below href other quiet
        quiet1 made =
      rw
        (
          name1,
          made,
          name2,
          upsert_twice t t' (c ∷ cs) id quiet made,
          top,
          below,
          href,
          other,
          text_eq_self inner.id,
          text_eq_self outer.id,
          quiet1,
        )
        (refl, refl, refl)
