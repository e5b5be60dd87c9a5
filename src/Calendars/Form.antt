-- ===== src/Calendars/Form.antt =====
-- The calendar editor of app.js: `openCalendarModal` and the submit handler of `#calendar-form`. The
-- request after the import of a file is not modelled.
use cal_stack.Base.{
  Bool, true, not, Option, none, some, List, [], ◌∷◌, ◌++◌, if◌then◌else◌, any, is_empty, Text,
  codes, text_eq, text_or?, truthy, trim,
}
use cal_stack.Calendars.Slug.{slug_of}

-- A calendar that the server sent, as far as its editor reads it.
pub record CalRow : Type 0 where
  pub id : Text
  pub name : Text
  pub source_url : Option Text
  pub components : List Text

-- The fields of the editor.
pub record CalForm : Type 0 where
  pub name : Text
  pub source : Text
  pub vevent : Bool
  pub vtodo : Bool
  pub vjournal : Bool

abbrev pub has_component : List Text → Text → Bool
has_component components kind = any (text_eq kind) components

-- `openCalendarModal`, for a calendar or for a new one.
unfoldable pub open_calendar_modal : Option CalRow → CalForm
unfolding text_eq
open_calendar_modal none = record {
  name = [];
  source = [];
  vevent = true;
  vtodo = true;
  vjournal = true;
}
open_calendar_modal (some cal) = record {
  name = cal.name;
  source = text_or? cal.source_url [];
  vevent = has_component cal.components (codes "VEVENT");
  vtodo = has_component cal.components (codes "VTODO");
  vjournal = has_component cal.components (codes "VJOURNAL");
}

abbrev pub if_checked : Bool → Text → List Text
if_checked checked kind = if checked then kind ∷ [] else []

-- The checked kinds of entries.
abbrev pub components_of : CalForm → List Text
components_of f =
    if_checked f.vevent (codes "VEVENT")
    ++ (if_checked f.vtodo (codes "VTODO") ++ if_checked f.vjournal (codes "VJOURNAL"))

-- How a submit ends: nothing, a message, or a request that changes or makes a calendar; a source
-- that is not sent is none.
pub data Submitted : Type 0 where
  ignored : Submitted
  refused : Text → Submitted
  changed : Text → Text → List Text → Option Text → Submitted
  created : Text → Text → List Text → Option Text → Submitted

abbrev pub change_calendar : CalRow → CalForm → Text → Submitted
change_calendar cal f name =
    changed (codes "/api/calendars/" ++ cal.id) name (components_of f)
      (if text_eq (trim f.source) (text_or? cal.source_url []) then none else some (trim f.source))

abbrev pub create_calendar : Text → CalForm → Text → Submitted
create_calendar slug f name =
    if truthy slug
    then created slug name (components_of f)
        (if truthy (trim f.source) then some (trim f.source) else none)
    else refused (codes "Enter a valid calendar name.")

module _ (lower : Text → Text) where
  abbrev pub submit_named : Option CalRow → CalForm → Text → Submitted
  submit_named none f name = create_calendar (slug_of lower name) f name
  submit_named (some cal) f name = change_calendar cal f name

  -- The submit handler, with the calendar that is edited.
  unfoldable pub submit_calendar : Option CalRow → CalForm → Submitted
  submit_calendar editing f =
      if not (truthy (trim f.name))
      then ignored
      else if is_empty (components_of f)
      then refused (codes "Pick at least one content type.")
      else submit_named editing f (trim f.name)
