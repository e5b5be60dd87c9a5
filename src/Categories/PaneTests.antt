-- ===== src/Categories/PaneTests.antt =====
-- Tests of the pane of categories.
use cal_stack.Base.{◌≡◌, refl, true, false, none, some, codes, text_eq, trim}
use cal_stack.Categories.Registry.{
  RegistryRow, category_row, rename, rename_row, recolor_row, recolor, delete_row, category_body,
}

abbrev row : RegistryRow
row = record {
  id = codes "k1";
  calendar_id = some (codes "w");
  slug = codes "work";
  name = codes "Work";
  color = codes "plaid";
}

shown : category_row row ≡ record {
  badge = codes "bg-plaid-lt";
  name = codes "Work";
  slug = codes "work";
  scope = codes "This calendar";
  selected = codes "blue";
}
unfolding category_row text_eq
shown = refl

same_slug : rename_row row (some (codes "work")) ≡ none
unfolding rename_row text_eq
same_slug = refl

renamed :
    rename_row row (some (codes "job")) ≡ some (rename (codes "/api/categories/k1") (codes "job"))
unfolding rename_row text_eq
renamed = refl

recolored : recolor_row row (codes "red") ≡ recolor (codes "/api/categories/k1") (codes "red")
unfolding recolor_row
recolored = refl

kept : delete_row row false ≡ none
unfolding delete_row
kept = refl

added :
    category_body
      (some (codes "w"))
      (record { slug = codes " a "; name = codes "A"; color = some (codes "red"); global = true })
    ≡ record { calendar_id = none; slug = codes "a"; name = codes "A"; color = some (codes "red") }
unfolding category_body trim
added = refl
