-- ===== src/Calendars/Submit.antt =====
-- What the calendar editor of app.js sends.
use cal_stack.Base.{
  ◌≡◌, refl, sym, ap, ◌∙◌, ◌⊎◌, inl, inr, true, false, Bool-cases, Option, none, some, List, [],
  ◌++◌, if◌then◌else◌, is_empty, text_eq_refl, Text, codes, text_or?, truthy, trim,
}
use cal_stack.Calendars.Slug.{slug_of, is_words, slug_of-is_words}
use cal_stack.Calendars.Form.{
  CalRow, CalForm, open_calendar_modal, has_component, if_checked, components_of, refused, changed,
  created, create_calendar, submit_named, submit_calendar,
}

truthy_words :
    (t : Text) → (t ≡ []) ⊎ (is_words true t ≡ true) → truthy t ≡ true → is_words true t ≡ true
truthy_words t (inl e) h = absurd (cc (rw e at h))
truthy_words t (inr w) h = w

create_calendar-created :
    (s : Text) (f : CalForm) (n slug name : Text) (components : List Text) (source : Option Text)
    → create_calendar s f n ≡ created slug name components source
    → (truthy s ≡ true) × (s ≡ slug) × (n ≡ name) × (components_of f ≡ components)
create_calendar-created s f n slug name components source h = elim (Bool-cases (truthy s)) [
  | inl e ↦
      let k : created s n (components_of f)
            (if truthy (trim f.source) then some (trim f.source) else none)
          ≡ created slug name components source =
        rw e at h in
      (e, cc k, cc k, cc k)
  | inr e ↦ absurd (cc (rw e at h))
]

module _ (lower : Text → Text) where
  submit_named-created :
      (editing : Option CalRow) (f : CalForm) (n slug name : Text) (components : List Text)
      (source : Option Text)
      → submit_named lower editing f n ≡ created slug name components source
      → (is_words true slug ≡ true) × (n ≡ name) × (components_of f ≡ components)
  submit_named-created none f n slug name components source h =
      let (t, s, m, c) =
        create_calendar-created (slug_of lower n) f n slug name components source h in
      (ap (is_words true) (sym s) ∙ truthy_words _ (slug_of-is_words lower n) t, m, c)
  submit_named-created (some cal) f n slug name components source h = absurd (cc h)

  -- A new calendar is only asked for with a name, with a slug of words of small letters and digits
  -- with single dashes between them, and with at least one kind of entries, whatever the form holds.
  pub submit_calendar-created :
      (editing : Option CalRow) (f : CalForm) (slug name : Text) (components : List Text)
      (source : Option Text)
      → submit_calendar lower editing f ≡ created slug name components source
      → (truthy name ≡ true) × (is_words true slug ≡ true) × (is_empty components ≡ false)
  unfolding submit_calendar
  submit_calendar-created editing f slug name components source h =
      elim (Bool-cases (truthy (trim f.name))) [
        | inr e ↦ absurd (cc (rw e at h))
        | inl e ↦
            let k : (if is_empty (components_of f)
                  then refused (codes "Pick at least one content type.")
                  else submit_named lower editing f (trim f.name))
                ≡ created slug name components source =
              rw e at h in
            elim (Bool-cases (is_empty (components_of f))) [
              | inl m ↦ absurd (cc (rw m at k))
              | inr m ↦
                  let (w, n, c) =
                    submit_named-created editing f (trim f.name) slug name components source
                      (rw m at k) in
                  (ap truthy (sym n) ∙ e, w, ap is_empty (sym c) ∙ m)
            ]
      ]

-- Submitting the editor right after it was opened for a calendar changes nothing: it sends the name,
-- the kinds of entries that the calendar has, and no source. The name is not empty, it and the
-- source have no white space around them, and the calendar has one of the three kinds.
pub submit_calendar-open_calendar_modal :
    (lower : Text → Text) (cal : CalRow)
    → trim cal.name ≡ cal.name
    → truthy cal.name ≡ true
    → trim (text_or? cal.source_url []) ≡ text_or? cal.source_url []
    → is_empty (components_of (open_calendar_modal (some cal))) ≡ false
    → submit_calendar lower (some cal) (open_calendar_modal (some cal))
      ≡ changed
          (codes "/api/calendars/" ++ cal.id)
          cal.name
          (if_checked (has_component cal.components (codes "VEVENT")) (codes "VEVENT")
            ++ (if_checked (has_component cal.components (codes "VTODO")) (codes "VTODO")
                ++ if_checked (has_component cal.components (codes "VJOURNAL")) (codes "VJOURNAL")))
          none
unfolding submit_calendar open_calendar_modal
submit_calendar-open_calendar_modal lower cal t n s c =
    rw (t, n, c, s, text_eq_refl (text_or? cal.source_url [])) refl
