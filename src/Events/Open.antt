-- ===== src/Events/Open.antt =====
-- Opening the event editor: `occurrenceSlot` and `openEventModal` of app.js.
use cal_stack.Base.{
  ℕ, ◌+◌, ◌-◌, Bool, true, false, ◌&&◌, not, Option, none, some, List, [], ◌∷◌, if◌then◌else◌, map,
  or_else, Text, codes, text_or?, text_or_null?, truthy?, ◌>>=◌,
}
use cal_stack.Rrule.{apply_rrule_to_form}
use cal_stack.Times.{set_time_controls, iso_to_local_input, select_option}
use cal_stack.Events.{
  Occurrence, timed, on_day, Location, Attendee, EventRow, Mode, create, edit, occurrence,
  EventForm, Editor, Browser, location_display_text,
}

pub record Slot : Type 0 where
  pub is_timed : Bool
  pub start : Text
  pub end : Text

-- The text for a point after `from` that is as far from it as `end` is from `start`; the same point
-- if one of these is missing. `none` where a text is an invalid date, whose print throws.
unfoldable pub shift :
    (Text → Option ℕ) → (ℕ → Text) → Text → Option Text → Option Text → Option Text
shift read print from start end =
    if truthy? start && truthy? end
    then (do
      t ← read from
      s ← read (text_or? start [])
      e ← read (text_or? end [])
      some (print (t + e - s)))
    else (read from >>= λ t. some (print t))

abbrev pub day_of_occurrence : Option Occurrence → Text
day_of_occurrence none = []
day_of_occurrence (some (timed at)) = []
day_of_occurrence (some (on_day date)) = date

module _ (b : Browser) where
  abbrev pub day_slot : EventRow → Text → Option Slot
  day_slot ev date = shift b.day_of b.iso_of_day date ev.start_date ev.end_date >>= λ end.
      some (record { is_timed = false; start = date; end = end })

  -- `occurrenceSlot`; `none` where it throws.
  unfoldable pub occurrence_slot : EventRow → Option Occurrence → Option Slot
  unfolding shift
  occurrence_slot ev (some (timed at)) =
      shift b.time_of b.iso_of_time at ev.starts_at ev.ends_at >>= λ end.
      some (record { is_timed = true; start = at; end = end })
  occurrence_slot ev (some (on_day date)) = day_slot ev date
  occurrence_slot ev none = day_slot ev []

abbrev pub event_status_options : List Text
event_status_options = [] ∷ codes "CONFIRMED" ∷ codes "TENTATIVE" ∷ codes "CANCELLED" ∷ []

abbrev pub class_options : List Text
class_options = [] ∷ codes "PUBLIC" ∷ codes "PRIVATE" ∷ codes "CONFIDENTIAL" ∷ []

abbrev pub transp_options : List Text
transp_options = [] ∷ codes "OPAQUE" ∷ codes "TRANSPARENT" ∷ []

-- `$('#event-form')[0].reset()`; hidden inputs and the text editor are not reset.
abbrev pub reset_form : EventForm → EventForm
reset_form f = record f {
  title = [];
  all_day = false;
  url = [];
  status = some [];
  visibility = some [];
  transp = some [];
  location = [];
  repeat = record {
    freq = some [];
    interval = codes "1";
    until = [];
    rows_hidden = f.repeat.rows_hidden;
  };
}

abbrev pub is_edit : Mode → Bool
is_edit edit = true
is_edit _ = false

abbrev pub is_occurrence : Mode → Bool
is_occurrence occurrence = true
is_occurrence _ = false

-- The attendees that the editor keeps, with empty fields as null.
abbrev pub keep_attendee : Attendee → Attendee
keep_attendee a = record {
  email = text_or_null? a.email;
  telephone = text_or_null? a.telephone;
  display_name = text_or_null? a.display_name;
  contact_id = text_or_null? a.contact_id;
  user_id = text_or_null? a.user_id;
}

abbrev pub location_text : Option Location → Text
location_text none = []
location_text (some loc) = location_display_text loc

-- A location that came from the place picker.
abbrev pub place_of : Option Location → Option Location
place_of none = none
place_of (some loc) = if truthy? loc.provider_place_id then some loc else none

abbrev pub picked_text_of : Option Text → Option Location → Option Text
picked_text_of old none = old
picked_text_of old (some loc) =
    if truthy? loc.provider_place_id then some (location_display_text loc) else old

module _ (b : Browser) where
  -- What `openEventModal` does first in every mode.
  abbrev pub clear_editor : Mode → Editor → Editor
  clear_editor mode s = record s {
    form = reset_form s.form;
    dirty = false;
    mode = mode;
    occurrence = none;
    delete_hidden = not (is_edit mode);
    repeat_hidden = is_occurrence mode;
    attendees = [];
    place_location = none;
    picked_place = none;
  }

  -- `openEventModal` for a new event, with the values of its start and end.
  unfoldable pub open_new : Text → Text → Editor → Editor
  open_new start end s =
      let t : Editor = clear_editor create s in
      record t {
        event_id = none;
        etag = none;
        rrule_unknown = false;
        categories = [];
        form = record (t.form) {
          desc = b.desc_value [];
          repeat = (apply_rrule_to_form b.number_value b.date_value none t.form.repeat).0;
          start = set_time_controls b.local_time b.date_value start;
          end = set_time_controls b.local_time b.date_value end;
        };
      }

  -- The texts of the start and the end that the editor shows: those of the clicked occurrence,
  -- except in mode "edit".
  abbrev pub shown_times : Mode → EventRow → Option (Option Text × Option Text)
  shown_times mode ev =
      if is_edit mode
      then some (
        some (text_or? ev.starts_at (text_or? ev.start_date [])),
        some (text_or? ev.ends_at (text_or? ev.end_date [])),
      )
      else (occurrence_slot b ev ev.occ >>= λ slot. some (some slot.start, some slot.end))

  abbrev pub rrule_of_mode : Mode → EventRow → Option Text
  rrule_of_mode mode ev = if is_occurrence mode then none else ev.rrule

  abbrev pub editor_of : Mode → EventRow → Option Text × Option Text → Editor → Editor
  editor_of mode ev times s =
      let t : Editor = clear_editor mode s in
      let (repeat, understood) =
        apply_rrule_to_form b.number_value b.date_value (rrule_of_mode mode ev) t.form.repeat in
      record t {
        event_id = some ev.id;
        etag = if is_edit mode then ev.etag else none;
        rrule_unknown = not understood;
        occurrence = if is_edit mode then none else ev.occ;
        categories = or_else ev.categories [];
        place_location = place_of ev.location;
        picked_text = picked_text_of s.picked_text ev.location;
        attendees = map keep_attendee (or_else ev.attendees []);
        form = record {
          title = text_or? ev.summary [];
          desc = b.desc_value (text_or? ev.description_html []);
          all_day = ev.all_day;
          start =
              set_time_controls b.local_time b.date_value (iso_to_local_input b.local_time times.0);
          end =
              set_time_controls b.local_time b.date_value (iso_to_local_input b.local_time times.1);
          url = text_or? ev.url [];
          status = select_option event_status_options (text_or? ev.status []);
          visibility = select_option class_options (text_or? ev.visibility []);
          transp = select_option transp_options (text_or? ev.transp []);
          location = location_text ev.location;
          repeat = repeat;
        };
      }

  -- `openEventModal` for an event of the calendar, in the other modes; `none` where it throws.
  unfoldable pub open_existing : Mode → EventRow → Editor → Option Editor
  open_existing mode ev s = shown_times mode ev >>= λ times. some (editor_of mode ev times s)
