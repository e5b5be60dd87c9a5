-- ===== src/Categories/Boxes.antt =====
-- The checkboxes of the categories against the tags of the event.
use cal_stack.Base.{
  ◌≡◌, refl, sym, ap, ◌∙◌, inl, inr, ◌↔◌, true, not, List, In, In-any, In-append_left,
  In-append_right, In-keep, In-map, In-of_map, none, subst, Text, text_eq, text_eq_sound,
  Bool-cases,
}
use cal_stack.Categories.{
  Category, Checkbox, has_slug, category_items, category_checkbox, render_category_checkboxes,
}
use cal_stack.Categories.Tagged.{tagged}

abbrev item_of : Text → Category
item_of s = record { slug = s; name = s; color = none }

In-tagged : (s : Text) (tags : List Text) → tagged tags s ≡ true → In s tags
In-tagged s tags h =
    let (t, i, e) = In-any (text_eq s) tags h in
    subst (λ u. In u tags) (sym (text_eq_sound s t e)) i

-- A tag is among the items: in the registry, or behind it.
item_of-tagged :
    (registry : List Category) (tags : List Text) (s : Text)
    → tagged tags s ≡ true
    → (r : Category) × In r (category_items registry tags) × (r.slug ≡ s)
unfolding category_items
item_of-tagged registry tags s h = elim (Bool-cases (has_slug s registry)) [
  | inl e ↦
      let (r, i, q) = In-any (λ (r : Category). text_eq r.slug s) registry e in
      (r, In-append_left r registry _ i, text_eq_sound r.slug s q)
  | inr e ↦
      let kept = In-keep (λ s. not (has_slug s registry)) s tags (In-tagged s tags h) (ap not e) in
      (item_of s, In-append_right (item_of s) registry _ (In-map item_of s _ kept), refl)
]

-- A category is a tag of the event exactly if the editor shows a checked checkbox of its slug,
-- whether the category is in the registry or not.
pub render_category_checkboxes-checked :
    (registry : List Category) (tags : List Text) (s : Text)
    → (tagged tags s ≡ true) ↔ (
        (b : Checkbox) × In b ((render_category_checkboxes registry tags).0)
        × (b.slug ≡ s)
        × (b.checked ≡ true))
unfolding render_category_checkboxes category_checkbox
render_category_checkboxes-checked registry tags s = (
  λ h.
      let (r, i, e) = item_of-tagged registry tags s h in
      (
        category_checkbox tags r,
        In-map (category_checkbox tags) r (category_items registry tags) i,
        e,
        ap (tagged tags) e ∙ h,
      ),
  λ (b, i, e, c).
      let (r, j, q) = In-of_map (category_checkbox tags) b (category_items registry tags) i in
      ap (tagged tags) (sym e ∙ ap (λ (x : Checkbox). x.slug) q)
      ∙ sym (ap (λ (x : Checkbox). x.checked) q)
      ∙ c,
)
