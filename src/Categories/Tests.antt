-- ===== src/Categories/Tests.antt =====
-- Tests of the categories of an event.
use cal_stack.Base.{
  ◌≡◌, refl, ◌↔◌, Bool, true, false, none, some, List, [], ◌∷◌, In, Text, codes, text_eq,
}
use cal_stack.Categories.{
  Category, Checkbox, hex_of, cal_color_hex, category_color_hex, category_items, category_checkbox,
  render_category_checkboxes, index_of, toggle_category, toggle_categories,
}
use cal_stack.Categories.Tagged.{tagged, retag_all, Distinct, toggle_categories-retag}
use cal_stack.Categories.Boxes.{render_category_checkboxes-checked}

named_color : cal_color_hex (some (codes "teal")) ≡ some (codes "#0ca678")
unfolding cal_color_hex hex_of text_eq
named_color = refl

hex_color : cal_color_hex (some (codes "#123")) ≡ some (codes "#123")
unfolding cal_color_hex
hex_color = refl

first_color :
    category_color_hex (none ∷ some (codes "plaid") ∷ some (codes "red") ∷ some (codes "blue") ∷ [])
    ≡ some (codes "#d63939")
unfolding category_color_hex hex_of text_eq
first_color = refl

abbrev registry : List Category
registry =
    record { slug = codes "work"; name = codes "Work"; color = some (codes "lime") }
    ∷ record { slug = codes "home"; name = codes "Home"; color = some (codes "plaid") }
    ∷ []

abbrev tags : List Text
tags = codes "old" ∷ codes "work" ∷ []

rendered : render_category_checkboxes registry tags ≡ (
  record {
    slug = codes "work";
    checked = true;
    label = codes "Work";
    dot = some (codes "#74b816");
    secondary = false;
  }
      ∷ record {
        slug = codes "home";
        checked = false;
        label = codes "Home";
        dot = some (codes "#adb5bd");
        secondary = false;
      }
      ∷ record {
        slug = codes "old";
        checked = true;
        label = codes "old";
        dot = none;
        secondary = true;
      }
      ∷ [],
  false,
)
unfolding render_category_checkboxes category_items category_checkbox hex_of text_eq
rendered = refl

abbrev changes : List (Text × Bool)
changes = (codes "home", true) ∷ (codes "old", false) ∷ (codes "home", true) ∷ []

toggled : toggle_categories changes tags ≡ codes "work" ∷ codes "home" ∷ []
unfolding toggle_categories toggle_category index_of text_eq
toggled = refl

toggle_categories-retag_example :
    (tagged (toggle_categories changes tags) ≡ retag_all changes (tagged tags))
    × Distinct (toggle_categories changes tags)
unfolding text_eq
toggle_categories-retag_example = toggle_categories-retag changes tags (refl, (refl, tt))

render_category_checkboxes-checked_example : (tagged tags (codes "old") ≡ true) ↔ (
    (b : Checkbox) × In b ((render_category_checkboxes registry tags).0)
    × (b.slug ≡ codes "old")
    × (b.checked ≡ true))
render_category_checkboxes-checked_example =
    render_category_checkboxes-checked registry tags (codes "old")
