-- ===== src/Categories.antt =====
-- The categories of an event in app.js: the tags `state.eventCategories`, the registry
-- `state.categoryRegistry` of the selected calendar, and the checkboxes of the editor. The dictionary
-- `CATEGORY_HEX` is a list of keys and values.
pub mod Tagged
pub mod Boxes
pub mod Registry
mod PaneTests
mod Tests
use cal_stack.Base.{
  ℕ, zero, suc, Bool, true, false, not, Option, none, some, List, [], ◌∷◌, ◌++◌, map, ◌==◌,
  if◌then◌else◌, any, keep, find, Text, codes, text_eq, truthy?, is_empty, or_else, ◌>>=◌,
}

-- `CATEGORY_HEX`
abbrev pub category_hex : List (Text × Text)
category_hex =
    (codes "blue", codes "#1554C0")
    ∷ (codes "azure", codes "#12AEE8")
    ∷ (codes "indigo", codes "#4263eb")
    ∷ (codes "purple", codes "#ae3ec9")
    ∷ (codes "pink", codes "#d6336c")
    ∷ (codes "red", codes "#d63939")
    ∷ (codes "orange", codes "#f76707")
    ∷ (codes "yellow", codes "#f7b731")
    ∷ (codes "lime", codes "#74b816")
    ∷ (codes "green", codes "#12C957")
    ∷ (codes "teal", codes "#0ca678")
    ∷ (codes "cyan", codes "#12AEE8")
    ∷ []

lookup : Text → List (Text × Text) → Option Text
unfolding text_eq
lookup key [] = none
lookup key ((k, v) ∷ entries) = if text_eq key k then some v else lookup key entries

-- `CATEGORY_HEX[color]` for a color that may be null.
unfoldable pub hex_of : Option Text → Option Text
unfolding lookup
hex_of none = none
hex_of (some color) = lookup color category_hex

-- `calColorHex`
unfoldable pub cal_color_hex : Option Text → Option Text
unfolding hex_of
cal_color_hex none = none
cal_color_hex (some []) = none
cal_color_hex (some (c ∷ s)) = if c == b'#' then some (c ∷ s) else hex_of (some (c ∷ s))

-- `categoryColorHex`, on the colors of `ev.category_details`.
unfoldable pub category_color_hex : List (Option Text) → Option Text
category_color_hex [] = none
category_color_hex (color ∷ details) = first_hex (hex_of color) (category_color_hex details)
  where
    first_hex : Option Text → Option Text → Option Text
    first_hex none rest = rest
    first_hex (some hex) rest = some hex

-- A row of the registry.
pub record Category : Type 0 where
  pub slug : Text
  pub name : Text
  pub color : Option Text

-- A checkbox of `#ev-categories-box`: its slug, whether it is checked, its label and its dot.
pub record Checkbox : Type 0 where
  pub slug : Text
  pub checked : Bool
  pub label : Text
  pub dot : Option Text
  pub secondary : Bool

abbrev pub has_slug : Text → List Category → Bool
has_slug slug registry = any (λ r. text_eq r.slug slug) registry

-- The items of `renderCategoryCheckboxes`.
unfoldable pub category_items : List Category → List Text → List Category
category_items registry tags =
    registry
    ++ map (λ s. record { slug = s; name = s; color = none })
        (keep (λ s. not (has_slug s registry)) tags)

unfoldable pub category_checkbox : List Text → Category → Checkbox
category_checkbox tags row =
    let has_color = truthy? row.color in
    record {
      slug = row.slug;
      checked = any (text_eq row.slug) tags;
      label = row.name;
      dot = if has_color then some (or_else (hex_of row.color) (codes "#adb5bd")) else none;
      secondary = not has_color;
    }

-- `renderCategoryCheckboxes`: the checkboxes, and whether the box is hidden.
unfoldable pub render_category_checkboxes : List Category → List Text → List Checkbox × Bool
unfolding category_items
render_category_checkboxes registry tags =
    let boxes = map (category_checkbox tags) (category_items registry tags) in
    (boxes, is_empty boxes)

-- `indexOf`, where it is not -1.
unfoldable pub index_of : Text → List Text → Option ℕ
index_of slug [] = none
index_of slug (s ∷ tags) =
    let rest = index_of slug tags in if text_eq slug s then some 0 else rest >>= λ i. some (suc i)

-- `splice(i, 1)`
abbrev pub splice_out : ℕ → List Text → List Text
splice_out i [] = []
splice_out zero (s ∷ tags) = tags
splice_out (suc i) (s ∷ tags) = s ∷ splice_out i tags

-- The tags, from the place of the slug in them.
change_tags : Option ℕ → Text → Bool → List Text → List Text
change_tags none slug on tags = if on then tags ++ (slug ∷ []) else tags
change_tags (some i) slug on tags = if on then tags else splice_out i tags

-- The tags after `toggleCategory`.
unfoldable pub toggle_category : Text → Bool → List Text → List Text
unfolding change_tags
toggle_category slug on tags = change_tags (index_of slug tags) slug on tags

-- A sequence of changes of the checkboxes: a slug and whether it is checked now.
unfoldable pub toggle_categories : List (Text × Bool) → List Text → List Text
toggle_categories [] tags = tags
toggle_categories ((slug, on) ∷ changes) tags =
    toggle_categories changes (toggle_category slug on tags)
