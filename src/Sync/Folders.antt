-- ===== src/Sync/Folders.antt =====
-- The groups of products (internal/services/moysklad_sync.go) as categories (internal/db/categories.go).
--
-- A map is a function of the id. A category whose insertion fails is looked for once more in the code, for
-- another process may have made it: there is none here, and the failure stands.
use hozdacha.Base.{ℕ, ◌+◌, Bool, Option, none, some, List, [], ◌∷◌, ◌++◌, map, ◌==◌, if◌then◌else◌}
use hozdacha.Store.Rows.{Text}
use hozdacha.Users.Texts.{text_eq}
use hozdacha.Sync.Href.{extract_moysklad_uuid}

-- `moysklad.ProductFolder`: `parent` is the reference of the folder it lies in.
pub record Folder : Type 0 where
  pub id : Text
  pub name : Text
  pub parent : Option Text

pub record Category : Type 0 where
  pub id : ℕ
  pub name : Text
  pub parent_id : Option ℕ

pub record Categories : Type 0 where
  pub next_id : ℕ
  pub rows : List Category

pub data CategoryQuery : Type 0 where
  find_category insert_category set_category_parent : CategoryQuery

abbrev pub Ids : Type 0
Ids = Text → Option ℕ

abbrev pub no_ids : Ids
no_ids id = none

unfoldable pub put : Ids → Text → ℕ → Ids
unfolding text_eq
put m id v = λ j. if text_eq id j then some v else m j

-- The id in the first row with the name.
unfoldable pub find_by_name : List Category → Text → Option ℕ
unfolding text_eq
find_by_name [] name = none
find_by_name (c ∷ cs) name = if text_eq c.name name then some c.id else find_by_name cs name

module _ (fault : CategoryQuery → Text → Bool) where
  abbrev pub new_category : Categories → Text → ℕ × Categories
  new_category t name = (
    t.next_id,
    record {
      next_id = t.next_id + 1;
      rows = t.rows ++ (record { id = t.next_id; name = name; parent_id = none } ∷ []);
    },
  )

  abbrev pub added : Categories → Text → Option (ℕ × Categories)
  added t name = if fault insert_category name then none else some (new_category t name)

  abbrev pub found_or_added : Categories → Text → Option ℕ → Option (ℕ × Categories)
  found_or_added t name (some id) = some (id, t)
  found_or_added t name none = added t name

  unfoldable pub upsert_by_name : Categories → Text → Option (ℕ × Categories)
  unfolding find_by_name
  upsert_by_name t name =
      if fault find_category name then none else found_or_added t name (find_by_name t.rows name)

  abbrev pub with_parent : ℕ → ℕ → Category → Category
  with_parent id parent c = if c.id == id then record c { parent_id = some parent } else c

  unfoldable pub set_parent : Categories → Text → ℕ → ℕ → Categories
  set_parent t folder id parent =
      if fault set_category_parent folder
      then t
      else record t { rows = map (with_parent id parent) t.rows }

  unfoldable pub kept_id : Ids × Categories → Folder → Option (ℕ × Categories) → Ids × Categories
  unfolding put
  kept_id (m, t) f none = (m, t)
  kept_id (m, t) f (some (id, t')) = (put m f.id id, t')

  unfoldable pub pass_one_named : Ids × Categories → Folder → Text → Ids × Categories
  unfolding upsert_by_name kept_id
  pass_one_named (m, t) f [] = (m, t)
  pass_one_named (m, t) f (c ∷ cs) = kept_id (m, t) f (upsert_by_name t (c ∷ cs))

  -- Pass 1: a category for every folder with a name.
  unfoldable pub pass_one : Ids × Categories → List Folder → Ids × Categories
  unfolding pass_one_named
  pass_one out [] = out
  pass_one out (f ∷ fs) = pass_one (pass_one_named out f f.name) fs

  unfoldable pub parent_known : Categories → Folder → Option ℕ → Option ℕ → Categories
  unfolding set_parent
  parent_known t f (some id) (some parent) = set_parent t f.id id parent
  parent_known t f (some id) none = t
  parent_known t f none o = t

  unfoldable pub pass_two_one : Ids → Categories → Folder → Option Text → Categories
  unfolding parent_known extract_moysklad_uuid
  pass_two_one m t f none = t
  pass_two_one m t f (some []) = t
  pass_two_one m t f (some (c ∷ cs)) =
      parent_known t f (m f.id) (m (extract_moysklad_uuid (c ∷ cs)))

  -- Pass 2: the parents.
  unfoldable pub pass_two : Ids → Categories → List Folder → Categories
  unfolding pass_two_one
  pass_two m t [] = t
  pass_two m t (f ∷ fs) = pass_two m (pass_two_one m t f f.parent) fs

  unfoldable pub synced : Ids × Categories → List Folder → Ids × Ids × Categories
  unfolding pass_two
  synced (m, t) fs = (m, m, pass_two m t fs)

  -- `syncCategoriesFromMoysklad`: the map, the map kept for the other paths, and the table. Where the folders
  -- cannot be read, the map is empty and nothing else changes.
  unfoldable pub sync_categories : Ids → Categories → Option (List Folder) → Ids × Ids × Categories
  unfolding pass_one synced
  sync_categories cached t none = (no_ids, cached, t)
  sync_categories cached t (some fs) = synced (pass_one (no_ids, t) fs) fs

-- `lookupCategoryIDByFolderHref`.
unfoldable pub lookup_category_id : Ids → Text → Option ℕ
unfolding extract_moysklad_uuid
lookup_category_id m [] = none
lookup_category_id m (c ∷ cs) = m (extract_moysklad_uuid (c ∷ cs))
