-- ===== src/Panes/Scopes.antt =====
-- The scope of the pane of categories.
use cal_stack.Base.{
  ◌≡◌, refl, sym, ap, ◌∙◌, inl, inr, true, Option, none, some, List, [], ◌∷◌, ◌++◌, Text,
  Bool-cases, text_eq_sound,
}
use cal_stack.Panes.{
  PaneCal, ScopePane, same_id, scope_of, load_categories, show_categories, load_scope,
}

same_id_sound : (s t : Option Text) → same_id s t ≡ true → s ≡ t
unfolding same_id
same_id_sound none none h = refl
same_id_sound none (some t) h = absurd (cc)
same_id_sound (some s) none h = absurd (cc)
same_id_sound (some s) (some t) h = ap some (text_eq_sound s t h)

load_categories-scope :
    (cal : PaneCal) (p : ScopePane)
    → p.calendar_id ≡ p.memo
    → ((load_categories cal p).memo ≡ scope_of cal)
      × ((load_categories cal p).calendar_id ≡ scope_of cal)
unfolding load_categories load_scope
load_categories-scope cal p h = elim (Bool-cases (same_id p.memo (scope_of cal))) [
  | inl e ↦ let same = same_id_sound p.memo (scope_of cal) e in rw e (same, h ∙ same)
  | inr e ↦ rw e (refl, refl)
]

-- The scope of the pane of categories is the one of the calendar that was selected last, whatever
-- was selected before.
show_categories-scope :
    (cals : List PaneCal) (cal : PaneCal) (p : ScopePane)
    → p.calendar_id ≡ p.memo
    → (show_categories (cals ++ (cal ∷ [])) p).calendar_id ≡ scope_of cal
unfolding show_categories
show_categories-scope [] cal p h = (load_categories-scope cal p h).1
show_categories-scope (c ∷ cals) cal p h =
    let (m, i) = load_categories-scope c p h in
    show_categories-scope cals cal (load_categories c p) (i ∙ sym m)
