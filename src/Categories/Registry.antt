-- ===== src/Categories/Registry.antt =====
-- The table and the form of the pane of categories, categories.js.
use cal_stack.Base.{
  Bool, not, ◌||◌, Option, none, some, List, [], ◌∷◌, ◌++◌, if◌then◌else◌, find, Text, codes,
  text_eq, truthy, truthy?, trim,
}

-- A row of the registry, with the calendar that it belongs to.
pub record RegistryRow : Type 0 where
  pub id : Text
  pub calendar_id : Option Text
  pub slug : Text
  pub name : Text
  pub color : Text

-- `COLORS`
abbrev pub colors : List Text
colors =
    codes "blue"
    ∷ codes "azure"
    ∷ codes "indigo"
    ∷ codes "purple"
    ∷ codes "pink"
    ∷ codes "red"
    ∷ codes "orange"
    ∷ codes "yellow"
    ∷ codes "lime"
    ∷ codes "green"
    ∷ codes "teal"
    ∷ codes "cyan"
    ∷ []

-- What a row of `renderRows` shows; a color that is not offered leaves the first one selected.
pub record CategoryRow : Type 0 where
  pub badge : Text
  pub name : Text
  pub slug : Text
  pub scope : Text
  pub selected : Text

abbrev pub offered_color : Text → Text
offered_color color = elim (find (text_eq color) colors) [ none ↦ codes "blue" | some c ↦ c ]

unfoldable pub category_row : RegistryRow → CategoryRow
unfolding text_eq
category_row row = record {
  badge = codes "bg-" ++ row.color ++ codes "-lt";
  name = row.name;
  slug = row.slug;
  scope = if truthy? row.calendar_id then codes "This calendar" else codes "All calendars";
  selected = offered_color row.color;
}

-- The requests of a row: a color, a slug, a deletion.
pub data RowRequest : Type 0 where
  recolor : Text → Text → RowRequest
  rename : Text → Text → RowRequest
  discard : Text → RowRequest

abbrev pub row_url : RegistryRow → Text
row_url row = codes "/api/categories/" ++ row.id

-- The answer of the dialog of "Rename"; none if it was cancelled.
unfoldable pub rename_row : RegistryRow → Option Text → Option RowRequest
unfolding text_eq
rename_row row none = none
rename_row row (some slug) =
    if not (truthy slug) || text_eq slug row.slug then none else some (rename (row_url row) slug)

unfoldable pub recolor_row : RegistryRow → Text → RowRequest
recolor_row row color = recolor (row_url row) color

unfoldable pub delete_row : RegistryRow → Bool → Option RowRequest
delete_row row confirmed = if confirmed then some (discard (row_url row)) else none

-- The fields of `#cat-form`, and the body of its request.
pub record CategoryForm : Type 0 where
  pub slug : Text
  pub name : Text
  pub color : Option Text
  pub global : Bool

pub record CategoryBody : Type 0 where
  pub calendar_id : Option Text
  pub slug : Text
  pub name : Text
  pub color : Option Text

unfoldable pub category_body : Option Text → CategoryForm → CategoryBody
unfolding trim
category_body scope f = record {
  calendar_id = if not (truthy? scope) || f.global then none else scope;
  slug = trim f.slug;
  name = trim f.name;
  color = f.color;
}

-- `updateScopeUi`
unfoldable pub scope_note : Option Text → Text
scope_note scope =
    if truthy? scope
    then codes "Showing tenant-wide categories plus this calendar's own."
    else codes "Showing tenant-wide categories plus categories on calendars you own."
